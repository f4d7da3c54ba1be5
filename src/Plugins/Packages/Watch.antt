-- ===== src/Plugins/Packages/Watch.antt =====
-- The checks of the packages: `packages::on_process_watch` of plugins/sitter_packages/packages.cpp.
pub mod Specification
pub mod Steps
pub mod Refines
pub mod Stale
use sitter.Base.{
  ℤ, Bool, true, false, if◌then◌else◌, Text, codes, is_empty, List, [], ◌∷◌, ◌++◌, Result, ok, err,
}
use sitter.Json.{Key, Value, append_item, put, Doc, ◌/+◌, newest}
use sitter.Report.{append_error}
use sitter.Action.{Action, write}
use sitter.Plugins.Packages.{
  Package, Host, State, Installation, get_installation_as_string, load_packages,
}
use sitter.Plugins.Packages.Status.{is_package_installed, is_in_conflict, save_cache}

-- A call on the report of the server.
unfoldable pub on_report : {A : Type 0} → Action A → State → State × Result A
on_report m s =
    let (report, a) = m s.server.report in
    (record s { server = record s.server { report = report } }, a)

abbrev packages_list : List Key
packages_list = [] /+ codes "packages" /+ codes "package"

-- The calls on the document for one package.
unfoldable pub package_item : Host → Package → Doc
package_item host p =
    let item = newest packages_list in
    append_item packages_list
    ∷ put (item /+ codes "name") (Value.text p.name)
    ∷ put (item /+ codes "installation") (Value.text (get_installation_as_string p))
    ∷ (if is_empty p.conflicts
        then []
        else put (item /+ codes "conflicts")
            (Value.text (host.join_strings p.conflicts (codes ", ")))
          ∷ [])

abbrev pub required_message : Text → Text
required_message name =
    codes "The \""
    ++ name
    ++ codes "\" package is required but not (yet) installed."
    ++ codes " Please install this package at your earliest convenience."

abbrev pub unwanted_message : Text → Text
unwanted_message name =
    codes "The \""
    ++ name
    ++ codes "\" package is expected to NOT ever be installed."
    ++ codes " Please remove this package at your earliest convenience."

abbrev conflict_message : Host → Package → Text
conflict_message host p =
    p.description
    ++ codes " The \""
    ++ p.name
    ++ codes "\" package is in conflict with \""
    ++ host.join_strings p.in_conflict (codes "\", \"")
    ++ codes "\"."

unfoldable pub report_installation : Package → Text → Action (Unit {0})
report_installation p message =
    append_error (newest packages_list) (codes "packages") message p.priority

-- The conflicts are reported at the root of the document.
unfoldable pub report_conflict : Host → Package → Action (Unit {0})
report_conflict host p = append_error [] (codes "packages") (conflict_message host p) p.priority

unfoldable pub check_conflict : Host → Package → State → State × Result (Unit {0})
check_conflict host p s =
    let (s', (p', in_conflict)) = is_in_conflict host p s in
    if in_conflict then on_report (report_conflict host p') s' else (s', ok tt)

-- The `switch` on the installation; an error ends the turn of the loop.
unfoldable pub check_installation :
    Host → Package → Installation → State → State × Result (Unit {0})
check_installation host p Installation.required s =
    let (s', installed) = is_package_installed host p.name s in
    if installed
    then check_conflict host p s'
    else on_report (report_installation p (required_message p.name)) s'
check_installation host p Installation.unwanted s =
    let (s', installed) = is_package_installed host p.name s in
    if installed
    then on_report (report_installation p (unwanted_message p.name)) s'
    else check_conflict host p s'
check_installation host p Installation.optional s = check_conflict host p s

unfoldable pub check_package : Host → Package → State → State × Result (Unit {0})
check_package host p s =
    check_installation host p p.installation (on_report (write (package_item host p)) s).0

unfoldable pub check_packages : Host → List Package → State → State × Result (Unit {0})
check_packages host [] s = (s, ok tt)
check_packages host (p ∷ ps) s =
    let (s', result) = check_package host p s in
    elim result [ ok _ ↦ check_packages host ps s' | err e ↦ (s', err e) ]

-- The cache is saved when no check threw.
unfoldable pub save_checked : Host → State × Result (Unit {0}) → State × Result (Unit {0})
save_checked host (s, err e) = (s, err e)
save_checked host (s, ok _) = (save_cache host s, ok tt)

unfoldable pub watch_loaded : Host → State × Result (Unit {0}) → State × Result (Unit {0})
watch_loaded host (s, err e) = (s, err e)
watch_loaded host (s, ok _) = save_checked host (check_packages host s.packages s)

unfoldable pub on_process_watch : Host → State → State × Result (Unit {0})
on_process_watch host s = watch_loaded host (load_packages host s)
