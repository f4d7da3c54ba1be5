-- ===== src/Plugins/Packages/Watch/Stale.antt =====
-- What the cached statuses of plugins/sitter_packages/packages.cpp answer in later runs.
use sitter.Base.{◌≡◌, refl, ◌∙◌, ap, Bool, true, Text, text_eq_refl, Option, none, some}
use sitter.StdMap.{map_get}
use sitter.StdMap.Laws.{map_get-map_set}
use sitter.Plugins.Packages.{Host, State}
use sitter.Plugins.Packages.Status.{load_cache, answer_status, is_package_installed}
use sitter.Plugins.Packages.Status.Table.{
  known, is_package_installed-known, load_cache_loads, status_in, load_cache_again,
}
use sitter.Plugins.Packages.Watch.{on_process_watch}
use sitter.Plugins.Packages.Watch.Refines.{on_process_watch-Refines}

-- The status of a package is in the cache.
abbrev IsCached : Text → Bool → State → Type 0
IsCached name status s = (s.cache_loaded ≡ true) × (map_get name s.installed_packages ≡ some status)

answer_status-IsCached :
    (host : Host) (name : Text) (cached : Option Bool) (s : State)
    → s.cache_loaded ≡ true
    → map_get name s.installed_packages ≡ cached
    → let (s', status) = answer_status host name cached s in IsCached name status s'
unfolding answer_status
answer_status-IsCached host name (some status) s loaded cached = (loaded, cached)
answer_status-IsCached host name none s loaded unknown =
    (loaded, map_get-map_set name name _ s.installed_packages ∙ rw (text_eq_refl name) refl)

is_package_installed-IsCached :
    (host : Host) (name : Text) (s : State)
    → let (s', status) = is_package_installed host name s in IsCached name status s'
unfolding is_package_installed
is_package_installed-IsCached host name s =
    answer_status-IsCached host name _ (load_cache host s) (load_cache_loads host s) refl

known-IsCached :
    (host : Host) (name : Text) (status : Bool) (s : State)
    → IsCached name status s
    → known host s name ≡ status
unfolding known
known-IsCached host name status s (loaded, cached) =
    rw (load_cache_again host s loaded, status_in, cached) refl

-- Once a package was asked for, a later run whose `dpkg-query` may answer anything else for it, and any
-- question after that, still gets the first answer.
pub is_package_installed_stale :
    (before after : Host) (name : Text) (s : State)
    → let (s', status) = is_package_installed before name s in
      (is_package_installed after name (on_process_watch after s').0).1 ≡ status
is_package_installed_stale before after name s =
    let (s', status) = is_package_installed before name s in
    (is_package_installed-known after name (on_process_watch after s').0).0
    ∙ ap (λ table. table name) (on_process_watch-Refines after s').1
    ∙ known-IsCached after name status s' (is_package_installed-IsCached before name s)
