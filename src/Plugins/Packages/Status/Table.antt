-- ===== src/Plugins/Packages/Status/Table.antt =====
-- The statuses of plugins/sitter_packages/packages.cpp as one table of the packages that are installed:
-- the cache and what `dpkg-query` tells.
use sitter.Base.{
  ℤ, ◌≡◌, refl, sym, ◌∙◌, ap, Bool, true, not, ◌&&◌, if◌then◌else◌, Text, text_eq_iff, is_empty,
  List, [], ◌∷◌, Option, none, some, arith, Bool-cases, inl, inr,
}
use mathlib.Core.Path.{fun_ext}
use sitter.Env.{Env}
use sitter.Server.{Server, get_cache_path}
use sitter.StdMap.{map_get, map_set, set_insert}
use sitter.StdMap.Laws.{map_get-map_set}
use sitter.Plugins.Packages.{Package, Host, State}
use sitter.Plugins.Packages.Status.{
  cache_filename, load_cache, query_status, answer_status, is_package_installed, find_conflicts,
  is_in_conflict,
}

-- The table that a state stands for: the cache, and `dpkg-query` for what is not in it.
abbrev pub status_in : Host → List (Text × Bool) → Text → Bool
status_in host m name = elim (map_get name m) [ none ↦ query_status host name | some b ↦ b ]

unfoldable pub known : Host → State → Text → Bool
known host s = status_in host (load_cache host s).installed_packages

-- The two states stand for the same table and have the same report.
abbrev pub SameAs : Host → State → State → Type 0
SameAs host s s' = (known host s' ≡ known host s) × (s'.server.report ≡ s.server.report)

-- Each package against the table; one that is not installed is in no conflict.
abbrev pub installed_among : (Text → Bool) → List Text → List Text → List Text
installed_among installed [] found = found
installed_among installed (u ∷ us) found =
    installed_among installed us (if installed u then set_insert u found else found)

pub get_cache_path-report :
    (mkdir_p : Text → ℤ) (env : Env) (filename : Text) (server : Server)
    → (get_cache_path mkdir_p env filename server).0.report ≡ server.report
unfolding get_cache_path
get_cache_path-report mkdir_p env filename server = ground arith

pub load_cache_again : (host : Host) (s : State) → s.cache_loaded ≡ true → load_cache host s ≡ s
unfolding load_cache
load_cache_again host s loaded = rw loaded refl

pub load_cache_loads : (host : Host) (s : State) → (load_cache host s).cache_loaded ≡ true
unfolding load_cache
load_cache_loads host s = elim (Bool-cases s.cache_loaded) [
  | inl loaded ↦ rw loaded refl
  | inr not_yet ↦ rw not_yet refl
]

load_cache-report : (host : Host) (s : State) → (load_cache host s).server.report ≡ s.server.report
unfolding load_cache
load_cache-report host s = elim (Bool-cases s.cache_loaded) [
  | inl loaded ↦ rw loaded refl
  | inr not_yet ↦ rw not_yet (get_cache_path-report host.mkdir_p host.env cache_filename s.server)
]

load_cache-SameAs : (host : Host) (s : State) → SameAs host s (load_cache host s)
unfolding known
load_cache-SameAs host s = (
  ap (λ (t : State). status_in host t.installed_packages)
      (load_cache_again host (load_cache host s) (load_cache_loads host s)),
  load_cache-report host s,
)

known_loaded :
    (host : Host) (s : State)
    → s.cache_loaded ≡ true
    → known host s ≡ status_in host s.installed_packages
unfolding known
known_loaded host s loaded =
    ap (λ (t : State). status_in host t.installed_packages) (load_cache_again host s loaded)

-- An answer of `dpkg-query` that is put in the cache changes no status.
status_in-map_set :
    (host : Host) (name : Text) (m : List (Text × Bool)) (n : Text)
    → map_get name m ≡ none
    → status_in host (map_set name (query_status host name) m) n ≡ status_in host m n
status_in-map_set host name m n unknown = ground (
  arith,
  map_get-map_set n name (query_status host name) m,
  text_eq_iff n name,
  ap (query_status host) {x = n} {y = name},
  ap (λ k. map_get k m) {x = n} {y = name},
)

answer_status-known :
    (host : Host) (name : Text) (cached : Option Bool) (s : State)
    → s.cache_loaded ≡ true
    → map_get name s.installed_packages ≡ cached
    → let (s', answer) = answer_status host name cached s in
      (answer ≡ known host s name) × SameAs host s s'
unfolding answer_status
answer_status-known host name (some status) s loaded cached =
    (rw (known_loaded host s loaded, status_in, cached) refl, (refl, refl))
answer_status-known host name none s loaded unknown =
    let m = map_set name (query_status host name) s.installed_packages in
    let asked = record s { installed_packages = m; cache_modified = true } in
    rw (known_loaded host s loaded, known_loaded host asked loaded)
      (
        rw (status_in, unknown) refl,
        (fun_ext (λ n. status_in-map_set host name s.installed_packages n unknown), refl),
      )

SameAs-refl : (host : Host) (s : State) → SameAs host s s
SameAs-refl host s = (refl, refl)

SameAs-trans : (host : Host) (s t u : State) → SameAs host s t → SameAs host t u → SameAs host s u
SameAs-trans host s t u (k, r) (k', r') = (k' ∙ k, r' ∙ r)

-- The answer is that of the table, which stays as it is.
pub is_package_installed-known :
    (host : Host) (name : Text) (s : State)
    → let (s', answer) = is_package_installed host name s in
      (answer ≡ known host s name) × SameAs host s s'
unfolding is_package_installed
is_package_installed-known host name s =
    let s1 = load_cache host s in
    let same = load_cache-SameAs host s in
    let (answer, after) =
      answer_status-known host name (map_get name s1.installed_packages) s1
        (load_cache_loads host s) refl in
    (answer ∙ ap (λ table. table name) same.0, SameAs-trans host s s1 _ same after)

find_conflicts-known :
    (host : Host) (us found : List Text) (s : State)
    → let (s', found') = find_conflicts host us found s in
      (found' ≡ installed_among (known host s) us found) × SameAs host s s'
unfolding find_conflicts
find_conflicts-known host [] found s = (refl, SameAs-refl host s)
find_conflicts-known host (u ∷ us) found s =
    let (s1, b) = is_package_installed host u s in
    let (answer, same) = is_package_installed-known host u s in
    let (list, after) = find_conflicts-known host us (if b then set_insert u found else found) s1 in
    (
      list ∙ (λ i. installed_among (same.0 i) us (if answer i then set_insert u found else found)),
      SameAs-trans host s s1 _ same after,
    )

-- The question whether a package is in conflict is answered by the table, and changes nothing in it.
pub is_in_conflict-known :
    (host : Host) (p : Package) (s : State)
    → let (s', (p', answer)) = is_in_conflict host p s in
      let found = installed_among (known host s) p.conflicts [] in
      (answer ≡ (known host s p.name && not (is_empty found)))
      × (answer ≡ true → p' ≡ record p { in_conflict = found })
      × SameAs host s s'
unfolding is_in_conflict
is_in_conflict-known host p s =
    let (s1, b) = is_package_installed host p.name s in
    let (answer, same) = is_package_installed-known host p.name s in
    let (list, after) = find_conflicts-known host p.conflicts [] s1 in
    elim (Bool-cases b) [
      | inl installed ↦
          let conflicts = list ∙ ap (λ table. installed_among table p.conflicts []) same.0 in
          rw (installed, sym answer ∙ installed)
            (
              ap (λ l. not (is_empty l)) conflicts,
              (λ _. ap (λ l. record p { in_conflict = l }) conflicts),
              SameAs-trans host s s1 _ same after,
            )
      | inr missing ↦ rw (missing, sym answer ∙ missing) (refl, (λ h. cc), same)
    ]
