-- ===== src/Plugins/Packages/Watch/Specification.antt =====
-- What the checks of plugins/sitter_packages/packages.cpp promise, over one table of the installed
-- packages, and what it is for a step of the plugin to follow it.
use sitter.Base.{
  ℤ, ◌≡◌, refl, ◌∙◌, ap, Bool, not, ◌&&◌, if◌then◌else◌, Text, is_empty, List, [], ◌∷◌, Result,
  arith, Bool-cases, inl, inr,
}
use sitter.Report.{Report}
use sitter.Action.{Action, pure, ◌>>◌, write, when}
use sitter.Env.{Env}
use sitter.Server.{Server, get_cache_path}
use sitter.Plugins.Packages.{Package, Host, State, Installation}
use sitter.Plugins.Packages.Status.{cache_filename, load_cache}
use sitter.Plugins.Packages.Status.Table.{known, SameAs, installed_among}
use sitter.Plugins.Packages.Watch.{
  package_item, required_message, unwanted_message, report_installation, report_conflict, on_report,
}

abbrev pub specify_conflict : Host → (Text → Bool) → Package → Action (Unit {0})
specify_conflict host installed p =
    let found = installed_among installed p.conflicts [] in
    when (installed p.name && not (is_empty found))
      (report_conflict host (record p { in_conflict = found }))

abbrev pub specify_installation : Host → (Text → Bool) → Installation → Package → Action (Unit {0})
specify_installation host installed Installation.required p r =
    if installed p.name
    then specify_conflict host installed p r
    else report_installation p (required_message p.name) r
specify_installation host installed Installation.unwanted p r =
    if installed p.name then report_installation p (unwanted_message p.name) r else pure tt r
specify_installation host installed Installation.optional p r = specify_conflict host installed p r

abbrev pub specify_packages : Host → (Text → Bool) → List Package → Action (Unit {0})
specify_packages host installed [] = pure tt
specify_packages host installed (p ∷ ps) =
    (write (package_item host p) >> specify_installation host installed p.installation p)
    >> specify_packages host installed ps

-- What a step does, when it answers as the table does.
abbrev pub outcome : {A : Type 0} → State × A → Report × A
outcome (s, a) = (s.server.report, a)

-- A step that follows the table: the same report and answer as the specification, and the same table.
abbrev pub Follows : {A : Type 0} → Host → State → State × A → Report × A → Type 0
Follows host s done specified = (outcome done ≡ specified) × (known host done.0 ≡ known host s)

get_cache_path-filename :
    (mkdir_p : Text → ℤ) (env : Env) (filename : Text) (server : Server) (report : Report)
    → (get_cache_path mkdir_p env filename (record server { report = report })).1
      ≡ (get_cache_path mkdir_p env filename server).1
unfolding get_cache_path
get_cache_path-filename mkdir_p env filename server report = ground arith

pub known-on_report :
    {A : Type 0} (host : Host) (m : Action A) (s : State)
    → known host (on_report m s).0 ≡ known host s
unfolding known on_report load_cache
known-on_report host m s = elim (Bool-cases s.cache_loaded) [
  | inl loaded ↦ rw loaded refl
  | inr not_yet ↦
      rw
        (
          not_yet,
          get_cache_path-filename host.mkdir_p host.env cache_filename s.server
              (m s.server.report).0,
        )
        refl
]

pub on_report-Follows :
    {A : Type 0} (host : Host) (m : Action A) (s : State)
    → Follows host s (on_report m s) (m s.server.report)
unfolding on_report
on_report-Follows host m s = (refl, known-on_report host m s)

-- A step after one that changed neither the table nor the report.
pub Follows-after :
    {A : Type 0} (host : Host) (s t : State) (done : State × Result A) (m : Action A)
    → SameAs host s t
    → Follows host t done (m t.server.report)
    → Follows host s done (m s.server.report)
Follows-after host s t done m (table, report) (same, after) = (same ∙ ap m report, after ∙ table)
