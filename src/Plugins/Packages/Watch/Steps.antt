-- ===== src/Plugins/Packages/Watch/Steps.antt =====
-- The steps of the checks of plugins/sitter_packages/packages.cpp, each against its specification.
use sitter.Base.{
  ◌≡◌, refl, sym, ◌∙◌, ap, Bool, true, false, not, ◌&&◌, if◌then◌else◌, is_empty, List, [], ◌∷◌,
  Result, ok, err, subst, Bool-cases, inl, inr,
}
use sitter.Report.{Report}
use sitter.Action.{Action, pure, ◌>>◌, write, when}
use sitter.Plugins.Packages.{Package, Host, State, Installation}
use sitter.Plugins.Packages.Status.{is_package_installed, is_in_conflict}
use sitter.Plugins.Packages.Status.Table.{
  known, installed_among, is_package_installed-known, is_in_conflict-known,
}
use sitter.Plugins.Packages.Watch.{
  package_item, required_message, unwanted_message, report_installation, report_conflict, on_report,
  check_conflict, check_installation, check_package, check_packages,
}
use sitter.Plugins.Packages.Watch.Specification.{
  specify_conflict, specify_installation, specify_packages, outcome, Follows, known-on_report,
  on_report-Follows, Follows-after,
}

report_conflict-Follows :
    (host : Host) (s : State) (p p' : Package) (in_conflict : Bool)
    → (in_conflict ≡ true → p ≡ p')
    → Follows host s
        (if in_conflict then on_report (report_conflict host p) s else (s, ok tt))
        (when in_conflict (report_conflict host p') s.server.report)
report_conflict-Follows host s p p' true same =
    subst
      (λ q.
        Follows host s (on_report (report_conflict host p) s)
          (report_conflict host q s.server.report))
      (same refl) (on_report-Follows host (report_conflict host p) s)
report_conflict-Follows host s p p' false same = (refl, refl)

check_conflict-Follows :
    (host : Host) (p : Package) (s : State)
    → Follows host s
        (check_conflict host p s)
        (specify_conflict host (known host s) p s.server.report)
unfolding check_conflict
check_conflict-Follows host p s =
    let (s', (p', in_conflict)) = is_in_conflict host p s in
    let (answer, with_conflicts, same) = is_in_conflict-known host p s in
    let found = installed_among (known host s) p.conflicts [] in
    let named = record p { in_conflict = found } in
    Follows-after host s s' (check_conflict host p s) (specify_conflict host (known host s) p) same
      (subst
        (λ c.
          Follows host s' (check_conflict host p s)
            (when c (report_conflict host named) s'.server.report))
        answer (report_conflict-Follows host s' p' named in_conflict with_conflicts))

-- The package is asked for, and one of the two branches goes on.
branch-Follows :
    (host : Host) (p : Package) (s : State) (present missing : State → State × Result (Unit {0}))
    (present' missing' : Action (Unit {0}))
    → ((t : State)
        → known host t ≡ known host s
        → Follows host t (present t) (present' t.server.report))
    → ((t : State)
        → known host t ≡ known host s
        → known host s p.name ≡ false
        → Follows host t (missing t) (missing' t.server.report))
    → let (s', installed) = is_package_installed host p.name s in
      Follows host s
        (if installed then present s' else missing s')
        (if known host s p.name then present' s.server.report else missing' s.server.report)
branch-Follows host p s present missing present' missing' if_present if_missing =
    let (s', installed) = is_package_installed host p.name s in
    let (answer, same) = is_package_installed-known host p.name s in
    elim (Bool-cases installed) [
      | inl here ↦
          rw (here, sym answer ∙ here)
            (Follows-after host s s' (present s') present' same (if_present s' same.0))
      | inr absent ↦
          rw (absent, sym answer ∙ absent)
            (Follows-after host s s' (missing s') missing' same
              (if_missing s' same.0 (sym answer ∙ absent)))
    ]

-- With the table of an earlier state.
conflict-Follows :
    (host : Host) (p : Package) (s t : State)
    → known host t ≡ known host s
    → Follows host t
        (check_conflict host p t)
        (specify_conflict host (known host s) p t.server.report)
conflict-Follows host p s t table =
    subst
      (λ k. Follows host t (check_conflict host p t) (specify_conflict host k p t.server.report))
      table (check_conflict-Follows host p t)

no_conflict-Follows :
    (host : Host) (p : Package) (s t : State)
    → known host t ≡ known host s
    → known host s p.name ≡ false
    → Follows host t (check_conflict host p t) (pure tt t.server.report)
no_conflict-Follows host p s t table missing =
    subst
      (λ (b : Bool). Follows host t (check_conflict host p t) (
        when (b && not (is_empty (installed_among (known host s) p.conflicts [])))
          (report_conflict host
            (record p { in_conflict = installed_among (known host s) p.conflicts [] }))
          t.server.report))
      missing (conflict-Follows host p s t table)

check_installation-Follows :
    (host : Host) (p : Package) (installation : Installation) (s : State)
    → Follows host s
        (check_installation host p installation s)
        (specify_installation host (known host s) installation p s.server.report)
unfolding check_installation
check_installation-Follows host p Installation.required s =
    branch-Follows host p s (check_conflict host p)
      (on_report (report_installation p (required_message p.name)))
      (specify_conflict host (known host s) p) (report_installation p (required_message p.name))
      (conflict-Follows host p s)
      (λ t _ _. on_report-Follows host (report_installation p (required_message p.name)) t)
check_installation-Follows host p Installation.unwanted s =
    branch-Follows host p s (on_report (report_installation p (unwanted_message p.name)))
      (check_conflict host p) (report_installation p (unwanted_message p.name)) (pure tt)
      (λ t _. on_report-Follows host (report_installation p (unwanted_message p.name)) t)
      (no_conflict-Follows host p s)
check_installation-Follows host p Installation.optional s = check_conflict-Follows host p s

check_package-Follows :
    (host : Host) (p : Package) (s : State)
    → Follows host s (check_package host p s) (
        (write (package_item host p) >> specify_installation host (known host s) p.installation p)
          s.server.report)
unfolding check_package on_report
check_package-Follows host p s =
    let named = (on_report (write (package_item host p)) s).0 in
    let table = known-on_report host (write (package_item host p)) s in
    let (same, after) = check_installation-Follows host p p.installation named in
    (
      same ∙ ap (λ k. specify_installation host k p.installation p named.server.report) table,
      after ∙ table,
    )

-- One step and then another, unless the first one throws.
Follows-then :
    (host : Host) (s : State) (first : State × Result (Unit {0}))
    (rest : State → State × Result (Unit {0})) (m k : Action (Unit {0}))
    → Follows host s first (m s.server.report)
    → ((t : State) → known host t ≡ known host s → Follows host t (rest t) (k t.server.report))
    → Follows host s
        (elim first.1 [ ok _ ↦ rest first.0 | err e ↦ (first.0, err e) ])
        ((m >> k) s.server.report)
Follows-then host s (t, ok _) rest m k (same, table) next =
    let (after, table') = next t table in
    (
      subst (λ (x : Report × Result (Unit {0})). outcome (rest t) ≡ ((λ _. x) >> k) s.server.report)
          same after,
      table' ∙ table,
    )
Follows-then host s (t, err e) rest m k (same, table) next = (
  subst
      (λ (x : Report × Result (Unit {0})).
        (t.server.report, err e) ≡ ((λ _. x) >> k) s.server.report)
      same refl,
  table,
)

pub check_packages-Follows :
    (host : Host) (ps : List Package) (s : State)
    → Follows host s
        (check_packages host ps s)
        (specify_packages host (known host s) ps s.server.report)
unfolding check_packages
check_packages-Follows host [] s = (refl, refl)
check_packages-Follows host (p ∷ ps) s =
    Follows-then host s (check_package host p s) (check_packages host ps)
      (write (package_item host p) >> specify_installation host (known host s) p.installation p)
      (specify_packages host (known host s) ps) (check_package-Follows host p s)
      (λ t table.
        let (same, after) = check_packages-Follows host ps t in
        (same ∙ ap (λ k. specify_packages host k ps t.server.report) table, after))
