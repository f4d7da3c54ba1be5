-- ===== src/Plugins/Packages/Status.antt =====
-- Which packages are installed (plugins/sitter_packages/packages.cpp): the cache of the statuses, its
-- file, and the question whether a package is in conflict.
pub mod Lines
pub mod Table
pub mod RoundTrip
mod Ordered
use sitter.Base.{
  ℕ, zero, suc, ℤ, pos, eqb_ℤ, Bool, true, false, not, if◌then◌else◌, ◌==◌, Text, codes, text_eq,
  is_empty, length, List, [], ◌∷◌, ◌++◌, Option, none, some,
}
use sitter.Server.{Server, get_cache_path}
use sitter.StdMap.{map_get, map_set, set_insert}
use sitter.Plugins.Packages.{Package, Host, State}

-- `find` of a character with the two `substr` around it: what is before the first one, and what is
-- after it if there is one.
unfoldable pub cut : ℕ → Text → Text × Option Text
cut separator [] = ([], none)
cut separator (c ∷ cs) =
    let (before, after) = cut separator cs in
    if c == separator then ([], some cs) else (c ∷ before, after)

-- One line of the cache: `name=value`.
unfoldable pub add_line : Text → List (Text × Bool) → List (Text × Bool)
unfolding cut
add_line line m =
    let (name, value) = cut b'=' line in
    elim value [
      | none ↦ m
      | some value ↦ if is_empty name then m else map_set name (text_eq value (codes "t")) m
    ]

-- The loop over the lines: it goes on while the last `find` met an end of line; `none` when the fuel
-- runs out.
unfoldable pub load_lines : ℕ → Text → List (Text × Bool) → Option (List (Text × Bool))
unfolding add_line
load_lines zero content m = none
load_lines (suc fuel) content m =
    let (line, rest) = cut b'\n' content in
    elim rest [ none ↦ some (add_line line m) | some rest ↦ load_lines fuel rest (add_line line m) ]

-- One turn for each character and one more are enough.
unfoldable pub load_content : Text → List (Text × Bool) → List (Text × Bool)
unfolding load_lines
load_content content m = elim (load_lines (suc (length content)) content m) [
  | none ↦ m
  | some m' ↦ m'
]

abbrev pub cache_filename : Text
cache_filename = codes "package-statuses.txt"

unfoldable pub load_file : Option Text → List (Text × Bool) → List (Text × Bool)
load_file none m = m
load_file (some content) m = load_content content m

-- The cache file is read once.
unfoldable pub load_cache : Host → State → State
load_cache host s =
    let (server, filename) = get_cache_path host.mkdir_p host.env cache_filename s.server in
    if s.cache_loaded then s else record s {
      server = server;
      cache_loaded = true;
      installed_packages = load_file (host.read_all filename) s.installed_packages;
    }

-- The answer of `dpkg-query`.
unfoldable pub query_status : Host → Text → Bool
query_status host package_name =
    let r =
      if eqb_ℤ (host.start package_name) (pos 0)
      then host.wait package_name
      else host.start package_name in
    if eqb_ℤ r (pos 0)
    then text_eq (host.trimmed_output package_name) (codes "install ok installed")
    else false

-- `it == end()` is `none`; the answer then goes to the cache.
unfoldable pub answer_status : Host → Text → Option Bool → State → State × Bool
answer_status host package_name (some status) s = (s, status)
answer_status host package_name none s =
    let status = query_status host package_name in
    (
      record s {
        installed_packages = map_set package_name status s.installed_packages;
        cache_modified = true;
      },
      status,
    )

unfoldable pub is_package_installed : Host → Text → State → State × Bool
is_package_installed host package_name s =
    let s' = load_cache host s in
    answer_status host package_name (map_get package_name s'.installed_packages) s'

-- The packages of a list that are installed, each one asked in turn.
unfoldable pub find_conflicts : Host → List Text → List Text → State → State × List Text
find_conflicts host [] found s = (s, found)
find_conflicts host (u ∷ us) found s =
    let (s', installed) = is_package_installed host u s in
    find_conflicts host us (if installed then set_insert u found else found) s'

unfoldable pub is_in_conflict : Host → Package → State → State × (Package × Bool)
is_in_conflict host p s =
    let (s', installed) = is_package_installed host p.name s in
    let (s'', found) = find_conflicts host p.conflicts [] s' in
    if installed
    then (s'', (record p { in_conflict = found }, not (is_empty found)))
    else (s', (p, false))

unfoldable pub cache_content : List (Text × Bool) → Text
cache_content [] = []
cache_content ((name, status) ∷ m) =
    name ++ b'=' ∷ (if status then b't' else b'f') ∷ b'\n' ∷ cache_content m

unfoldable pub save_cache : Host → State → State
save_cache host s =
    let (server, filename) = get_cache_path host.mkdir_p host.env cache_filename s.server in
    if s.cache_modified
    then record s {
      server = server;
      written = s.written ++ (filename, cache_content s.installed_packages) ∷ [];
    }
    else s
