-- ===== src/Util/Logger/Tests.antt =====
-- util/logger.c on a few messages.
use intense_logic.Base.{◌<◌, ℕ, ◌+◌, ◌≡◌, refl, none, some, [], ◌∷◌, arith, get_elem?}
use intense_logic.Util.Logger.{
  LogMsg, LogSource, Logger, file_source, slot, set_buffering, logmsg_copy, copy_loop, logmsg_new,
  copied,
}
use intense_logic.Util.Logger.Ring.{buffer_all, set_buffering_lem}

abbrev plain : ℕ → LogMsg
plain level = record { level = level; msg = some (104 ∷ 105 ∷ []); reason = none; backtrace = [] }

abbrev source : LogSource
source = file_source (record { name = 97 ∷ []; line = 3; func = 102 ∷ [] })

abbrev traced : ℕ → LogMsg
traced level = record (plain level) { backtrace = source ∷ [] }

-- A logger that forwards everything to the logger 1
abbrev forwarding : Logger
forwarding = record {
  buffer = [];
  start = 0;
  ends = 0;
  offset = 0;
  len = 0;
  capacity = 0;
  filter = 2;
  btfilter = 1;
  forwards = record { mem = record { logger = 1; filter = 3 } ∷ []; length = 1; capacity = 1 };
  name = [];
}

abbrev holding : Logger
holding = record forwarding { len = 2; buffer = none ∷ some (plain 1) ∷ some (plain 2) ∷ [] }

set_buffering_lem_example :
    (2 < 2
      → (l' : Logger) × (buffer_all (set_buffering forwarding 2) (plain 1 ∷ plain 2 ∷ []) ≡ some l')
        × ((i : ℕ) (m : LogMsg)
            → get_elem? (plain 1 ∷ plain 2 ∷ []) i ≡ some m
            → slot l' (1 + i) ≡ some m))
    × (◌≡◌ {A = ℕ} 2 2 → buffer_all (set_buffering forwarding 2) (plain 1 ∷ plain 2 ∷ []) ≡ none)
set_buffering_lem_example =
    set_buffering_lem forwarding 2 (plain 1 ∷ plain 2 ∷ []) refl (omega arith)

-- Without a backtrace, the message is copied.
plain_copied : logmsg_copy 1 (plain 2) ≡ copied (plain 2)
unfolding logmsg_copy copy_loop logmsg_new
plain_copied = refl
