-- ===== src/Plugins/Packages/Status/Ordered.antt =====
-- The order of the cached statuses of plugins/sitter_packages/packages.cpp, for the round trip of their
-- file.
use sitter.Base.{
  ◌≡◌, Bool, true, Text, codes, text_eq, is_empty, List, [], ◌∷◌, Option, none, some, Bool-cases,
  Option-cases, inl, inr,
}
use sitter.StdMap.{is_ordered}
use sitter.StdMap.Laws.{map_set-is_ordered}
use sitter.Plugins.Packages.{Host, State}
use sitter.Plugins.Packages.Status.{
  cut, add_line, load_file, load_cache, query_status, answer_status, is_package_installed,
}
use sitter.Plugins.Packages.Status.Lines.{lines, add_lines, load_content-lines}

add_line-is_ordered :
    (line : Text) (m : List (Text × Bool))
    → is_ordered m ≡ true
    → is_ordered (add_line line m) ≡ true
unfolding add_line
add_line-is_ordered line m ordered = elim (Option-cases (cut b'=' line).1) [
  | inl no_value ↦ rw (add_line, no_value) ordered
  | inr (value, found) ↦ elim (Bool-cases (is_empty (cut b'=' line).0)) [
    | inl unnamed ↦ rw (add_line, found, unnamed) ordered
    | inr named ↦
        rw (add_line, found, named)
          (map_set-is_ordered (cut b'=' line).0 (text_eq value (codes "t")) m ordered)
  ]
]

add_lines-is_ordered :
    (ls : List Text) (m : List (Text × Bool))
    → is_ordered m ≡ true
    → is_ordered (add_lines ls m) ≡ true
add_lines-is_ordered [] m ordered = ordered
add_lines-is_ordered (line ∷ ls) m ordered =
    add_lines-is_ordered ls (add_line line m) (add_line-is_ordered line m ordered)

load_file-is_ordered :
    (file : Option Text) (m : List (Text × Bool))
    → is_ordered m ≡ true
    → is_ordered (load_file file m) ≡ true
unfolding load_file
load_file-is_ordered none m ordered = ordered
load_file-is_ordered (some content) m ordered =
    rw (load_content-lines content m) (add_lines-is_ordered (lines content) m ordered)

load_cache-is_ordered :
    (host : Host) (s : State)
    → is_ordered s.installed_packages ≡ true
    → is_ordered (load_cache host s).installed_packages ≡ true
unfolding load_cache
load_cache-is_ordered host s ordered = elim (Bool-cases s.cache_loaded) [
  | inl loaded ↦ rw loaded ordered
  | inr not_yet ↦ rw not_yet (load_file-is_ordered _ s.installed_packages ordered)
]

answer_status-is_ordered :
    (host : Host) (name : Text) (cached : Option Bool) (s : State)
    → is_ordered s.installed_packages ≡ true
    → is_ordered (answer_status host name cached s).0.installed_packages ≡ true
unfolding answer_status
answer_status-is_ordered host name (some status) s ordered = ordered
answer_status-is_ordered host name none s ordered =
    map_set-is_ordered name (query_status host name) s.installed_packages ordered

-- Whatever the cache file holds and whatever `dpkg-query` answers, asking for a package keeps the
-- statuses in order.
is_package_installed-is_ordered :
    (host : Host) (name : Text) (s : State)
    → is_ordered s.installed_packages ≡ true
    → is_ordered (is_package_installed host name s).0.installed_packages ≡ true
unfolding is_package_installed
is_package_installed-is_ordered host name s ordered =
    answer_status-is_ordered host name _ (load_cache host s) (load_cache-is_ordered host s ordered)
