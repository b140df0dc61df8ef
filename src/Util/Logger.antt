-- ===== src/Util/Logger.antt =====
-- util/logger.c, util/log.c: loggers that filter, forward and keep messages. A message is its
-- contents; `none` is a fault of the program, a failed assertion or fuel that ran out.
pub mod Ring
pub mod Filter
mod Tests
use intense_logic.Base.{
  ℕ, zero, suc, ◌+◌, ◌-◌, ◌*◌, ◌/◌, ◌%◌, ◌^◌, ◌≤◌, ◌<◌, min, ◌≡◌, refl, sym, ap, ap₂, ◌∙◌, ◌≢◌, ◌↔◌,
  ◌⊎◌, inl, inr, Bool, true, false, not, ◌&&◌, ◌||◌, Option, none, some, List, [], ◌∷◌, ◌++◌, map,
  append-nil, append_assoc, arith, ltb, leb, ◌==◌, if◌then◌else◌, length, get_elem?, get_or, set,
  take, drop, replicate, copy_at, Bool-cases, dec_lt, ℕ_discrete,
}
use Prim.Native.Nat.{ℕ}
use intense_logic.Base.{◌>>=◌}
use intense_logic.Array.{Array, contents, append}

-- `il_logtype_file`: the strings are their bytes before the NUL.
pub record LogFile : Type 0 where
  pub name : List ℕ
  pub line : ℕ
  pub func : List ℕ

-- `il_logsource`: a source that is not set has the type 0 and a NULL string.
pub data LogSource : Type 0 where
  string_source : Option (List ℕ) → LogSource
  file_source : LogFile → LogSource

-- `il_logmsg`
pub record LogMsg : Type 0 where
  pub level : ℕ
  pub msg : Option (List ℕ)
  pub reason : Option (List ℕ)
  pub backtrace : List LogSource

-- `struct forward`: the logger is its number.
pub record Forward : Type 0 where
  pub logger : ℕ
  pub filter : ℕ

-- `struct il_logger`: a slot of the buffer that was never written is `none`; `ends` is the field `end`.
pub record Logger : Type 0 where
  pub buffer : List (Option LogMsg)
  pub start : ℕ
  pub ends : ℕ
  pub offset : ℕ
  pub len : ℕ
  pub capacity : ℕ
  pub filter : ℕ
  pub btfilter : ℕ
  pub forwards : Array Forward
  pub name : List ℕ

-- `enum il_loglevel`
abbrev pub il_error : ℕ
il_error = 0

abbrev pub il_warning : ℕ
il_warning = 1

abbrev pub il_notify : ℕ
il_notify = 2

abbrev pub il_debug : ℕ
il_debug = 3

-- `il_logger_new`: the name is copied to 64 bytes.
unfoldable pub logger_new : List ℕ → Option Logger
logger_new name =
    if ltb (length name) 64
    then some (record {
      buffer = [];
      start = 0;
      ends = 0;
      offset = 0;
      len = 0;
      capacity = 0;
      filter = il_notify;
      btfilter = il_warning;
      forwards = record { mem = []; length = 0; capacity = 0 };
      name = name;
    })
    else none

-- `il_logger_getFilter`, `il_logger_getBacktraceFilter`, `il_logger_setFilter`,
-- `il_logger_setBacktraceFilter`
abbrev pub get_filter : Logger → ℕ
get_filter l = l.filter

abbrev pub get_backtrace_filter : Logger → ℕ
get_backtrace_filter l = l.btfilter

abbrev pub set_filter : Logger → ℕ → Logger
set_filter l level = record l { filter = level }

abbrev pub set_backtrace_filter : Logger → ℕ → Logger
set_backtrace_filter l level = record l { btfilter = level }

-- `il_logger_getMessageStart`, and one more than `il_logger_getMessageEnd`
abbrev pub message_start : Logger → ℕ
message_start l = l.offset

abbrev pub message_end : Logger → ℕ
message_end l = l.offset + l.len

-- A read of a slot of the buffer
abbrev pub slot : Logger → ℕ → Option LogMsg
slot l i = get_elem? l.buffer i >>= λ m. m

-- `il_logger_getMessage` for the index `id`
unfoldable pub get_message : Logger → ℕ → Option LogMsg
get_message l id =
    if ltb id l.offset
    then none
    else let i = id - l.offset in if ltb 0 i && leb l.len i then slot l i else none

-- `il_logger_getMessage` for the index `-back`
unfoldable pub get_message_back : Logger → ℕ → Option LogMsg
get_message_back l back = if leb back l.len then slot l (l.len - back) else none

-- `il_logger_setBuffering`
unfoldable pub set_buffering : Logger → ℕ → Logger
set_buffering l messages = record l {
  buffer = take messages l.buffer ++ replicate (messages - length l.buffer) none;
  capacity = messages;
  len = 0;
  start = 0;
  ends = messages;
}

-- `il_logger_forward`
unfoldable pub forward : Logger → ℕ → ℕ → Logger
forward l to filter = record l {
  forwards =
      append (record { logger = 0; filter = 0 }) l.forwards
        (record { logger = to; filter = filter });
}

-- `il_logmsg_isLevel`
abbrev pub is_level : LogMsg → ℕ → Bool
is_level m level = leb m.level level

-- `il_logmsg_new`
unfoldable pub logmsg_new : ℕ → LogMsg
logmsg_new btsize = record {
  level = 0;
  msg = none;
  reason = none;
  backtrace = replicate btsize (string_source none);
}

-- How the copy of a message ends: `outside` is an access to that index, past the backtrace, and
-- `null_string` is `strdup` of NULL.
pub data Copied : Type 0 where
  copied : LogMsg → Copied
  outside : ℕ → Copied
  null_string : Copied
  no_fuel : Copied

-- One element of a backtrace, as the body of the loop copies it: `none` is `strdup` of NULL.
unfoldable pub copy_source : LogSource → Option LogSource
copy_source (string_source none) = none
copy_source (string_source (some s)) = some (string_source (some s))
copy_source (file_source f) = some (file_source f)

-- What the loop does with an element that it can read
abbrev pub copy_element : Option LogSource → (LogSource → Copied) → Copied
copy_element none next = null_string
copy_element (some s) next = next s

-- The loop of `il_logmsg_copy`, at `i`: its test is the number of elements, not `i < num_bt`. `old` is
-- the backtrace that is read, `new` the copy so far.
unfoldable pub copy_loop : ℕ → (i : ℕ) → (old : List LogSource) → LogMsg → Copied
copy_loop zero i old new = no_fuel
copy_loop (suc fuel) i old new =
    if length new.backtrace == 0 then copied new else elim (get_elem? old i) [
      | none ↦ outside i
      | some s ↦
          copy_element (copy_source s)
            (λ t. copy_loop fuel (i + 1) old (record new { backtrace = set new.backtrace i t }))
    ]

-- `il_logmsg_copy`, with fuel for its loop. The reason is not copied.
unfoldable pub logmsg_copy : ℕ → LogMsg → Copied
logmsg_copy fuel m = elim (m.msg) [
  | none ↦ null_string
  | some s ↦
      copy_loop fuel 0 m.backtrace
        (record (logmsg_new (length m.backtrace)) { level = m.level; msg = some s })
]

-- A copy that ends in a fault gives no message.
abbrev pub if_copied : Copied → Option LogMsg
if_copied (copied m) = some m
if_copied _ = none

-- What logging does: it frees a message, fires a logger's handler, prints a message.
pub data Effect : Type 0 where
  destroyed : LogMsg → Effect
  fired : (logger : ℕ) → LogMsg → Effect
  printed : LogMsg → Effect

-- The end of `il_logger_log`: the message goes to the buffer; the message that it takes the place
-- of is destroyed.
unfoldable pub buffer_message : Logger → LogMsg → Option (Logger × List Effect)
buffer_message l msg =
    if l.capacity == 0
    then some (l, [])
    else let next = (l.ends + 1) % l.capacity in
      if next == l.start
      then (slot l next >>= λ old. some (
        record l {
          ends = next;
          offset = l.offset + 1;
          start = (l.start + 1) % l.capacity;
          buffer = set l.buffer next (some msg);
        },
        destroyed old ∷ [],
      ))
      else some
          (record l { ends = next; len = l.len + 1; buffer = set l.buffer next (some msg) }, [])

-- All loggers, by their numbers
abbrev pub Loggers : Type 0
Loggers = ℕ → Logger

abbrev pub update : Loggers → ℕ → Logger → Loggers
update f i a j = if i == j then a else f j

-- The loop of `il_logger_log` over the forwards. Copying a message reads each element once, and then
-- ends or fails: the fuel is one more than there are elements.
unfoldable pub forward_all :
    (Loggers → ℕ → LogMsg → Option (Loggers × List Effect))
    → Loggers
    → List Forward
    → LogMsg
    → Option (Loggers × List Effect)
forward_all log ls [] msg = some (ls, [])
forward_all log ls (f ∷ fs) msg =
    if is_level msg f.filter
    then (if_copied (logmsg_copy (length msg.backtrace + 1) msg) >>= λ copy.
        log ls f.logger copy >>= λ (ls', out).
        forward_all log ls' fs msg >>= λ (ls'', out'). some (ls'', out ++ out'))
    else forward_all log ls fs msg

-- `il_logger_log`, with fuel for the depth of forwarding; `stderr` is the number of the logger
-- that prints.
unfoldable pub log : ℕ → ℕ → Loggers → ℕ → LogMsg → Option (Loggers × List Effect)
log zero stderr ls self msg = none
log (suc fuel) stderr ls self msg =
    let rest : Option (Loggers × List Effect) =
      forward_all (log fuel stderr) ls (contents (ls self).forwards) msg >>= λ (ls', out).
      buffer_message (ls' self) msg >>= λ (l, out'). some (
        update ls' self l,
        fired self msg ∷ (out ++ (out' ++ (if self == stderr then printed msg ∷ [] else []))),
      ) in
    if is_level msg (ls self).filter then rest else some (ls, destroyed msg ∷ [])

-- `strstr(text, "src/")`: what stands from the first occurrence on.
unfoldable pub find_src : List ℕ → Option (List ℕ)
find_src [] = none
find_src (a ∷ rest) =
    let later = find_src rest in
    if a == 115 && (get_or rest 0 0 == 114 && (get_or rest 1 0 == 99 && get_or rest 2 0 == 47))
    then some (a ∷ rest)
    else later

abbrev after_src : List ℕ → Option (List ℕ) → List ℕ
after_src file none = file
after_src file (some pos) = drop 4 pos

-- `il_logmsg_setBtFile`: the index is in range, and both strings fit into 64 bytes.
unfoldable pub set_bt_file : LogMsg → ℕ → LogFile → Option LogMsg
set_bt_file m level file =
    if ltb level (length m.backtrace) && (ltb (length file.name) 64 && ltb (length file.func) 64)
    then some (record m { backtrace = set m.backtrace level (file_source file) })
    else none

-- `il_logmsg_setBtString`, `il_logmsg_copyBtString`
unfoldable pub set_bt_string : LogMsg → ℕ → List ℕ → Option LogMsg
set_bt_string m level source =
    if ltb level (length m.backtrace)
    then some (record m { backtrace = set m.backtrace level (string_source (some source)) })
    else none

-- `il_logmsg_getBtType`: 0 for a string and 1 for a file.
unfoldable pub bt_type : LogMsg → ℕ → Option ℕ
bt_type m level = get_elem? m.backtrace level >>= λ s. elim s [
  | string_source t ↦ some 0
  | file_source f ↦ some 1
]

-- `il_logmsg_getBtSource`, which may be NULL
unfoldable pub bt_source : LogMsg → ℕ → Option (Option (List ℕ))
bt_source m level =
    get_elem? m.backtrace level >>= λ s. elim s [ string_source t ↦ some t | file_source f ↦ none ]

-- `il_logmsg_getBtFile`
unfoldable pub bt_file : LogMsg → ℕ → Option LogFile
bt_file m level =
    get_elem? m.backtrace level >>= λ s. elim s [ string_source t ↦ none | file_source f ↦ some f ]

-- `il_logmsg_setLevel`, `il_logmsg_setMessage`, `il_logmsg_copyMessage`, `il_logmsg_setReason`,
-- `il_logmsg_copyReason`
abbrev pub set_level : LogMsg → ℕ → LogMsg
set_level m level = record m { level = level }

abbrev pub set_message : LogMsg → List ℕ → LogMsg
set_message m text = record m { msg = some text }

abbrev pub set_reason : LogMsg → List ℕ → LogMsg
set_reason m text = record m { reason = some text }

-- `il_log_real`, for the text that `vsnprintf` makes
unfoldable pub log_real : ℕ → Loggers → ℕ → LogFile → ℕ → List ℕ → Option (Loggers × List Effect)
log_real fuel ls stderr file level text =
    let place : LogFile = record file { name = after_src file.name (find_src file.name) } in
    if ltb (ls stderr).filter level
    then some (ls, [])
    else (set_bt_file (set_message (set_level (logmsg_new 1) level) text) 0 place >>= λ msg.
        log fuel stderr ls stderr msg)
