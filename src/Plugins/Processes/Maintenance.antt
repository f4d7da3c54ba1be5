-- ===== src/Plugins/Processes/Maintenance.antt =====
-- The maintenance mode in plugins/sitter_processes/processes.cpp, `is_in_maintenance`.
use sitter.Base.{
  ◌==◌, leb, Bool, true, false, not, ◌&&◌, ◌||◌, if◌then◌else◌, Text, codes, is_empty, starts_with,
  [], ◌∷◌, Option, none, some,
}
use sitter.Plugins.Processes.{Host}

-- `find` of a text, and what follows it.
unfoldable drop_prefix : Text → Text → Text
drop_prefix [] t = t
drop_prefix (p ∷ ps) [] = []
drop_prefix (p ∷ ps) (c ∷ cs) = drop_prefix ps cs

unfoldable pub after_first : Text → Text → Option Text
unfolding drop_prefix
after_first needle [] = if is_empty needle then some [] else none
after_first needle (c ∷ cs) =
    let later = after_first needle cs in
    if starts_with needle (c ∷ cs) then some (drop_prefix needle (c ∷ cs)) else later

-- `isspace` of the C locale.
unfoldable is_space : Text → Bool
is_space [] = false
is_space (c ∷ cs) = c == 32 || leb 9 c && leb c 13

unfoldable skip_spaces : Text → Text
unfolding is_space
skip_spaces [] = []
skip_spaces (c ∷ cs) = let rest = skip_spaces cs in if is_space (c ∷ cs) then rest else c ∷ cs

unfoldable has_retry_after : Text → Bool
unfolding after_first
has_retry_after contents = elim (after_first (codes "Retry-After") contents) [
  | none ↦ false
  | some _ ↦ true
]

-- What follows the marker decides: a comment means that the fields are commented out.
unfoldable maintenance_from : Text → Option Text → Bool
unfolding skip_spaces has_retry_after
maintenance_from contents none = false
maintenance_from contents (some s) =
    not (starts_with (codes "#") (skip_spaces s)) && has_retry_after contents

unfoldable pub is_in_maintenance : Host → Bool
unfolding maintenance_from after_first
is_in_maintenance host =
    host.maintenance_exists
    && maintenance_from host.maintenance_contents
        (after_first (codes "##MAINTENANCE-START##") host.maintenance_contents)
