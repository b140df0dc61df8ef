-- ===== src/Util/Logger/Filter.antt =====
-- util/logger.c: copying a message, as forwarding does.
use intense_logic.Base.{none, some, List, [], ◌∷◌}
use intense_logic.Util.Logger.{LogSource, string_source, file_source}

-- No string of a backtrace is NULL.
unfoldable pub AllSet : List LogSource → Type 0
AllSet [] = Unit {0}
AllSet (string_source none ∷ bs) = ⊥
AllSet (string_source (some s) ∷ bs) = AllSet bs
AllSet (file_source f ∷ bs) = AllSet bs
