-- ===== src/Plugins/Packages/Watch/Refines.antt =====
-- The checks of plugins/sitter_packages/packages.cpp against their specification over one table of the
-- packages that are installed.
use sitter.Base.{
  ℤ, ◌≡◌, refl, ◌∙◌, ap, Bool, Text, codes, List, [], ◌++◌, Result, ok, err, arith, Bool-cases, inl,
  inr,
}
use sitter.Report.{Report}
use sitter.Action.{Action}
use sitter.Env.{Env}
use sitter.Server.{Server, get_cache_path}
use sitter.Plugins.Packages.{Package, Host, State, load_packages, load_files, packages_path}
use sitter.Plugins.Packages.Status.{cache_filename, load_cache, save_cache}
use sitter.Plugins.Packages.Status.Table.{known, SameAs, get_cache_path-report}
use sitter.Plugins.Packages.Watch.{check_packages, save_checked, watch_loaded, on_process_watch}
use sitter.Plugins.Packages.Watch.Steps.{check_packages-Follows}
use sitter.Plugins.Packages.Watch.Specification.{specify_packages, Follows}

-- The specification of a run.
abbrev specify_loaded : Host → (Text → Bool) → List Package × Result (Unit {0}) → Action (Unit {0})
specify_loaded host installed (packages, err e) r = (r, err e)
specify_loaded host installed (packages, ok _) r = specify_packages host installed packages r

abbrev pub specify_watch : Host → (Text → Bool) → Action (Unit {0})
specify_watch host installed =
    specify_loaded host installed
      (load_files host (host.glob (packages_path host.env ++ codes "/*.conf")) [])

known-packages :
    (host : Host) (s : State) (packages : List Package)
    → known host (record s { packages = packages }) ≡ known host s
unfolding known load_cache
known-packages host s packages = elim (Bool-cases s.cache_loaded) [
  | inl loaded ↦ rw loaded refl
  | inr not_yet ↦ rw not_yet refl
]

get_cache_path_again :
    (mkdir_p : Text → ℤ) (env : Env) (filename : Text) (server : Server)
    → (get_cache_path mkdir_p env filename (get_cache_path mkdir_p env filename server).0).1
      ≡ (get_cache_path mkdir_p env filename server).1
unfolding get_cache_path
get_cache_path_again mkdir_p env filename server = ground arith

save_cache-SameAs : (host : Host) (s : State) → SameAs host s (save_cache host s)
unfolding save_cache known load_cache
save_cache-SameAs host s =
    let again = get_cache_path_again host.mkdir_p host.env cache_filename s.server in
    let report = get_cache_path-report host.mkdir_p host.env cache_filename s.server in
    elim (Bool-cases s.cache_modified) [
      | inr unchanged ↦ rw unchanged (refl, refl)
      | inl modified ↦ elim (Bool-cases s.cache_loaded) [
        | inl loaded ↦ rw (modified, loaded) (refl, report)
        | inr not_yet ↦ rw (modified, not_yet, again) (refl, report)
      ]
    ]

save_checked-Follows :
    (host : Host) (s : State) (done : State × Result (Unit {0})) (x : Report × Result (Unit {0}))
    → Follows host s done x
    → Follows host s (save_checked host done) x
unfolding save_checked
save_checked-Follows host s (t, err e) x follows = follows
save_checked-Follows host s (t, ok _) x (same, table) =
    let (table', report) = save_cache-SameAs host t in
    (ap (λ r. (r, ok tt)) report ∙ same, table' ∙ table)

watch_loaded-Follows :
    (host : Host) (s : State) (loaded : List Package × Result (Unit {0}))
    → Follows host s
        (watch_loaded host (record s { packages = loaded.0 }, loaded.1))
        (specify_loaded host (known host s) loaded s.server.report)
unfolding watch_loaded
watch_loaded-Follows host s (packages, err e) = (refl, known-packages host s packages)
watch_loaded-Follows host s (packages, ok _) =
    let t = record s { packages = packages } in
    let table = known-packages host s packages in
    let (same, after) =
      save_checked-Follows host t (check_packages host packages t) _
        (check_packages-Follows host packages t) in
    (same ∙ ap (λ k. specify_packages host k packages s.server.report) table, after ∙ table)

-- A run reports what the specification says of the table that the state stands for, with the same
-- result and the same report: for each definition in turn its item; the error of a required package
-- that is not installed or of an unwanted one that is; and the error of a package that is installed and
-- has conflicts, with the list of these. Afterwards the state stands for the same table, so the number
-- and the order of the calls of `dpkg-query` do not matter.
pub on_process_watch-Refines :
    (host : Host) (s : State)
    → let (s', result) = on_process_watch host s in
      ((s'.server.report, result) ≡ specify_watch host (known host s) s.server.report)
      × (known host s' ≡ known host s)
unfolding on_process_watch load_packages
on_process_watch-Refines host s =
    watch_loaded-Follows host s
      (load_files host (host.glob (packages_path host.env ++ codes "/*.conf")) [])
