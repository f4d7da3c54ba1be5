-- ===== src/Plugins/Processes/Services.antt =====
-- The services of plugins/sitter_processes/processes.cpp: when a definition of a service is expected to
-- run.
use sitter.Base.{
  ◌≡◌, refl, ap, Bool, false, not, Text, codes, text_eq, text_eq_iff, is_empty, List, [], ◌∷◌, ◌++◌,
  arith, Bool-cases, inl, inr, all, all-append, ◌==◌,
}
use sitter.Report.{Report}
use sitter.Report.Adds.{Adds, Adds-pure}
use sitter.Plugins.Processes.Watch.{check_missing, report_missing}
use sitter.Plugins.Processes.{
  Process, Host, set_service, is_service_enabled, is_process_expected_to_run,
}

-- A line of output, with its end.
abbrev as_line : Text → Text
as_line t = t ++ codes "\n"

-- For a service that is no backend, being expected to run is being enabled, since it counts as active
-- only when it is enabled.
is_process_expected_to_run-set_service :
    (host : Host) (service : Text) (p : Process) (backends : List Text)
    → is_empty service ≡ false
    → is_process_expected_to_run host (set_service host service false p) backends
      ≡ (backends, is_service_enabled host service)
unfolding is_process_expected_to_run set_service
is_process_expected_to_run-set_service host service p backends named = rw (named) (ground arith)

has_no_end : Text → Bool
has_no_end t = all (λ c. not (c == b'\n')) t

not_a_line : (t : Text) → text_eq (as_line t) (codes "enabled") ≡ false
unfolding has_no_end
not_a_line t = elim (Bool-cases (text_eq (as_line t) (codes "enabled"))) [
  | inr other ↦ other
  | inl same ↦
      let broken : has_no_end (as_line t) ≡ has_no_end (codes "enabled") =
        ap has_no_end ((text_eq_iff (as_line t) (codes "enabled")).0 same) in
      absurd (ground (arith, broken, all-append (λ c. not (c == b'\n')) t (codes "\n")))
]

-- When what `systemctl show` writes for a service ends with an end of line, a definition of that
-- service which is no backend is never expected to run. A run in which it is missing reports no error
-- then, not even for a mandatory one.
pub missing_service_unreported :
    (host : Host) (service answer : Text) (p : Process) (backends : List Text) (r : Report)
    → is_empty service ≡ false
    → host.show_output service ≡ as_line answer
    → Adds (check_missing host (set_service host service false p ∷ []) backends) r backends []
unfolding check_missing is_service_enabled report_missing
missing_service_unreported host service answer p backends r named line =
    rw
      (
        is_process_expected_to_run-set_service host service p backends named,
        line,
        not_a_line answer,
      )
      (let (done, count, highest, issues) = Adds-pure backends r in (refl, count, refl, issues))
