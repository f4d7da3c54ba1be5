-- ===== src/Plugins/Processes/Watch/Problems.antt =====
-- The errors that a run of plugins/sitter_processes/processes.cpp reports.
use sitter.Base.{
  ◌≡◌, refl, ◌∙◌, Bool, true, false, if◌then◌else◌, Text, codes, List, [], ◌∷◌, ◌++◌, ok, arith,
  append-nil, subst,
}
use sitter.Json.{newest}
use sitter.Report.{Report, ProcessInfo}
use sitter.Report.Laws.{InRange}
use sitter.Report.Adds.{Adds, Adds-pure, Adds-write, Adds-bind, Adds-as, Adds-report}
use sitter.Action.{pure, ◌>>◌, write}
use sitter.Plugins.Processes.{Process, Host, is_process_expected_to_run}
use sitter.Plugins.Processes.Definitions.{load_processes}
use sitter.Plugins.Processes.Watch.{
  State, check_list, missing_priority, report_missing, missing_list, missing_message, missing_item,
  not_resident, check_missing, check_left, on_process_watch,
}
use sitter.Plugins.Processes.Watch.Expected.{expected, expected-again}
use sitter.Plugins.Processes.Watch.Pairs.{Pairing, IsPairing, pair_up, pair_up-IsPairing}
use sitter.Plugins.Processes.Watch.Meaning.{fits, is_match-fits, should_run, expected-should_run}
use sitter.Plugins.Processes.Watch.Running.{
  missing_text, missing_level, running_problems, missing_problems, Leaves, Leaves-bind,
  check_list-Leaves,
}

-- Every priority of a missing process is in the range of `append_error`.
missing_priority-InRange : (host : Host) (p : Process) → InRange (missing_priority host p)
unfolding missing_priority
missing_priority-InRange host p = ground arith

report_missing-Adds :
    (host : Host) (p : Process) (is_expected : Bool) (r : Report)
    → Adds
        (report_missing host p is_expected)
        r
        tt
        (if is_expected then (missing_text p, missing_level host p) ∷ [] else [])
unfolding report_missing missing_priority missing_message
report_missing-Adds host p true r =
    Adds-report true (newest missing_list) (codes "processes") (missing_text p)
      (missing_level host p) r (missing_priority-InRange host p)
report_missing-Adds host p false r = Adds-write not_resident r

check_missing-Adds :
    (host : Host) (ps : List Process) (backends : List Text) (r : Report)
    → (after : List Text) × (expected host after ≡ expected host backends)
      × Adds
          (check_missing host ps backends)
          r
          after
          (missing_problems host (expected host backends) ps)
unfolding check_missing expected
check_missing-Adds host [] backends r = (backends, refl, Adds-pure backends r)
check_missing-Adds host (p ∷ ps) backends r =
    let (backends', is_expected) = is_process_expected_to_run host p backends in
    let r1 = (write (missing_item p) r).0 in
    let r2 = (report_missing host p is_expected r1).0 in
    let (after, same, adds) = check_missing-Adds host ps backends' r2 in
    let again = expected-again host backends p in
    let problems = if is_expected then (missing_text p, missing_level host p) ∷ [] else [] in
    let later = missing_problems host (expected host backends) ps in
    (
      after,
      same ∙ again,
      Adds-bind (write (missing_item p))
          (λ _. report_missing host p is_expected >> check_missing host ps backends') r tt after []
          (problems ++ later) (Adds-write (missing_item p) r)
          (Adds-bind (report_missing host p is_expected) (λ _. check_missing host ps backends') r1
            tt after problems later (report_missing-Adds host p is_expected r1)
            (subst
              (λ t. Adds (check_missing host ps backends') r2 after (missing_problems host t ps))
              again adds)),
    )

check_left-Leaves :
    (host : Host) (s : State) (r : Report)
    → Leaves host
        (check_left host s)
        r
        s.processes
        s.valid_backends
        (missing_problems host (expected host s.valid_backends) s.processes)
unfolding check_left
check_left-Leaves host s r =
    let (after, same, adds) = check_missing-Adds host s.processes s.valid_backends r in
    let s' = record s { valid_backends = after } in
    let problems = missing_problems host (expected host s.valid_backends) s.processes in
    (
      after,
      same,
      Adds-as (check_left host s) r s' s' (problems ++ []) problems refl (append-nil problems) (
          Adds-bind (check_missing host s.processes s.valid_backends)
            (λ b. pure (record s { valid_backends = b })) r after s' problems [] adds
            (Adds-pure s' (check_missing host s.processes s.valid_backends r).0)),
    )

watch-Leaves :
    (host : Host) (list : List ProcessInfo) (s : State) (ps : List Process) (r : Report)
    → load_processes host ≡ ok ps
    → let found = pair_up host list ps in
      let is_expected = expected host s.valid_backends in
      Leaves host
        (on_process_watch host list s)
        r
        found.left
        s.valid_backends
        (running_problems is_expected found.pairs ++ missing_problems host is_expected found.left)
unfolding on_process_watch
watch-Leaves host list s ps r loaded =
    let start : State = record s { processes = ps } in
    let found = pair_up host list ps in
    let r1 = (check_list host list start r).0 in
    rw loaded (
      Leaves-bind host (check_list host list start) (check_left host) r found.left found.left
        s.valid_backends (running_problems (expected host s.valid_backends) found.pairs)
        (missing_problems host (expected host s.valid_backends) found.left)
        (check_list-Leaves host list ps s.valid_backends r)
        (λ after same.
          subst
            (λ t.
              Leaves host
                (check_left host (record { processes = found.left; valid_backends = after })) r1
                found.left after (missing_problems host t found.left))
            same
            (check_left-Leaves host (record { processes = found.left; valid_backends = after })
              r1)))

-- When the definitions load, a run never throws. The running processes and the definitions divide into
-- pairs that fit and the others, with none lost and none taken twice, where no process and no definition
-- among the others fit. The run reports, in order, one error of priority 35 for each pair whose definition
-- is a backend that should not run, and then one for each definition that is left and should run, of
-- priority 5 for a backend in maintenance, 95 for a mandatory process and 60 otherwise; nothing else. A
-- definition should run if it has no service, is a backend that is listed while the backends are not
-- disabled, or is any other service that is enabled or active. The run leaves the definitions that are left,
-- and a list of the backends that gives the same answers as the one before.
pub on_process_watch-Leaves :
    (host : Host) (list : List ProcessInfo) (s : State) (ps : List Process) (r : Report)
    → load_processes host ≡ ok ps
    → let is_expected = should_run host s.valid_backends in
      (found : Pairing) × IsPairing (fits host) list ps found
      × Leaves host
          (on_process_watch host list s)
          r
          found.left
          s.valid_backends
          (running_problems is_expected found.pairs ++ missing_problems host is_expected found.left)
on_process_watch-Leaves host list s ps r loaded =
    let found = pair_up host list ps in
    (
      found,
      subst (λ m. IsPairing m list ps found) (is_match-fits host) (pair_up-IsPairing host list ps),
      subst
          (λ t.
            Leaves host (on_process_watch host list s) r found.left s.valid_backends
              (running_problems t found.pairs ++ missing_problems host t found.left))
          (expected-should_run host s.valid_backends) (watch-Leaves host list s ps r loaded),
    )
