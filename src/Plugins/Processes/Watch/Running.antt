-- ===== src/Plugins/Processes/Watch/Running.antt =====
-- The errors of plugins/sitter_processes/processes.cpp on the processes that run.
use sitter.Base.{
  ℤ, pos, ◌≡◌, refl, sym, ◌∙◌, Bool, true, false, not, ◌&&◌, if◌then◌else◌, Text, codes, List, [],
  ◌∷◌, ◌++◌, Option, none, some, arith, append-nil, subst,
}
use sitter.Json.{Key}
use sitter.Report.{Report, ProcessInfo, output_process, append_error}
use sitter.Report.Laws.{InRange, Issue}
use sitter.Report.Adds.{Adds, Adds-pure, Adds-bind, Adds-then, Adds-as, Adds-report}
use sitter.Action.{Action, pure, ◌>>=◌, ◌>>◌, when}
use sitter.Plugins.Processes.{Process, Host, is_process_expected_to_run}
use sitter.Plugins.Processes.Maintenance.{is_in_maintenance}
use sitter.Plugins.Processes.Watch.{
  State, check_expected, is_match, take_first, processes_ref, disabled_message, check_backend,
  check_found, check_running, check_list,
}
use sitter.Plugins.Processes.Watch.Expected.{expected, expected-again}
use sitter.Plugins.Processes.Watch.Pairs.{Pairing, pair_up, pair_next}

-- The errors on the processes that run, and on those that do not.
abbrev pub running_problems : (Process → Bool) → List (ProcessInfo × Process) → List Issue
running_problems is_expected [] = []
running_problems is_expected ((info, p) ∷ pairs) =
    (if p.service_is_backend && not (is_expected p) then (disabled_message p, pos 35) ∷ [] else [])
    ++ running_problems is_expected pairs

-- A backend in maintenance, a mandatory process and any other one.
abbrev pub missing_level : Host → Process → ℤ
missing_level host p =
    if p.service_is_backend && is_in_maintenance host
    then pos 5
    else if p.mandatory
    then pos 95
    else pos 60

abbrev pub missing_text : Process → Text
missing_text p =
    (if p.mandatory
      then codes "can't find mandatory process \""
      else codes "can't find expected process \"")
    ++ p.name
    ++ codes "\" in the list of processes."

abbrev pub missing_problems : Host → (Process → Bool) → List Process → List Issue
missing_problems host is_expected [] = []
missing_problems host is_expected (p ∷ ps) =
    (if is_expected p then (missing_text p, missing_level host p) ∷ [] else [])
    ++ missing_problems host is_expected ps

-- From `r`, the action reports the problems, and answers a state with these processes left and whose
-- list of backends gives the same answers.
abbrev pub Leaves : Host → Action State → Report → List Process → List Text → List Issue → Type 0
Leaves host m r left backends problems =
    (after : List Text) × (expected host after ≡ expected host backends)
    × Adds m r (record { processes = left; valid_backends = after }) problems

output_process-Adds :
    (name : Text) (ref : List Key) (info : ProcessInfo) (process_name : Text) (priority : ℤ)
    (r : Report)
    → Adds (output_process name ref (some info) process_name priority) r true []
unfolding output_process
output_process-Adds name ref info process_name priority r =
    let (done, count, highest, issues) = Adds-pure true r in (refl, count, refl, issues)

pub in_range : InRange (pos 35)
in_range = (omega arith, omega arith)

check_expected-Leaves :
    (host : Host) (p : Process) (backend : Bool) (s : State) (r : Report)
    → Leaves host (check_expected host p backend s) r s.processes s.valid_backends (
        if backend && not (expected host s.valid_backends p)
        then (disabled_message p, pos 35) ∷ []
        else [])
unfolding check_expected expected
check_expected-Leaves host p false s r = (s.valid_backends, refl, Adds-pure s r)
check_expected-Leaves host p true s r =
    let (after, is_expected) = is_process_expected_to_run host p s.valid_backends in
    let s' = record s { valid_backends = after } in
    let report = append_error processes_ref (codes "processes") (disabled_message p) (pos 35) in
    let problems = if not is_expected then (disabled_message p, pos 35) ∷ [] else [] in
    (
      after,
      expected-again host s.valid_backends p,
      Adds-as (when (not is_expected) report >> pure s') r s' s' (problems ++ []) problems refl
          (append-nil problems)
          (Adds-then (when (not is_expected) report) (pure s') s' problems []
            (λ r.
              Adds-report (not is_expected) processes_ref (codes "processes") (disabled_message p)
                (pos 35) r in_range)
            (Adds-pure s') r),
    )

-- One action and then another.
pub Leaves-bind :
    (host : Host) (m : Action State) (f : State → Action State) (r : Report)
    (between left : List Process) (backends : List Text) (ps qs : List Issue)
    → Leaves host m r between backends ps
    → ((after : List Text)
        → expected host after ≡ expected host backends
        → Leaves host
            (f (record { processes = between; valid_backends = after }))
            (m r).0
            left
            after
            qs)
    → Leaves host (m >>= f) r left backends (ps ++ qs)
Leaves-bind host m f r between left backends ps qs (after, same, adds) next =
    let (after', same', adds') = next after same in
    (after', same' ∙ same, Adds-bind m f r _ _ ps qs adds adds')

-- What one running process leaves and reports.
abbrev left_by : Option (Process × List Process) → List Process → List Process
left_by none ps = ps
left_by (some (p, others)) ps = others

abbrev found_problems : (Process → Bool) → Option (Process × List Process) → List Issue
found_problems is_expected none = []
found_problems is_expected (some (p, others)) =
    if p.service_is_backend && not (is_expected p) then (disabled_message p, pos 35) ∷ [] else []

check_found-Leaves :
    (host : Host) (info : ProcessInfo) (o : Option (Process × List Process)) (s : State)
    (r : Report)
    → Leaves host
        (check_found host info o s)
        r
        (left_by o s.processes)
        s.valid_backends
        (found_problems (expected host s.valid_backends) o)
unfolding check_found check_backend
check_found-Leaves host info none s r = (s.valid_backends, refl, Adds-pure s r)
check_found-Leaves host info (some (p, others)) s r =
    let output = output_process (codes "processes") processes_ref (some info) p.name (pos 35) in
    let s' = record s { processes = others } in
    let (after, same, adds) = check_expected-Leaves host p p.service_is_backend s' (output r).0 in
    (
      after,
      same,
      Adds-bind output (λ found. check_backend host p s') r true _ [] _
          (output_process-Adds (codes "processes") processes_ref info p.name (pos 35) r) adds,
    )

pair_next-parts :
    (is_expected : Process → Bool) (info : ProcessInfo) (o : Option (Process × List Process))
    (rest : List Process → Pairing) (ps : List Process)
    → ((pair_next info o rest ps).left ≡ (rest (left_by o ps)).left)
      × (found_problems is_expected o ++ running_problems is_expected (rest (left_by o ps)).pairs
          ≡ running_problems is_expected (pair_next info o rest ps).pairs)
pair_next-parts is_expected info none rest ps = (refl, refl)
pair_next-parts is_expected info (some (p, others)) rest ps = (refl, refl)

pair_up-nil :
    (host : Host) (list : List ProcessInfo)
    → ((pair_up host list []).left ≡ []) × ((pair_up host list []).pairs ≡ [])
unfolding take_first
pair_up-nil host [] = (refl, refl)
pair_up-nil host (info ∷ list) = pair_up-nil host list

pub check_list-Leaves :
    (host : Host) (list : List ProcessInfo) (ps : List Process) (backends : List Text) (r : Report)
    → let s : State = record { processes = ps; valid_backends = backends } in
      let found = pair_up host list ps in
      Leaves host
        (check_list host list s)
        r
        found.left
        backends
        (running_problems (expected host backends) found.pairs)
unfolding check_list check_running
check_list-Leaves host [] ps backends r = (backends, refl, Adds-pure _ r)
check_list-Leaves host (info ∷ list) [] backends r =
    let (left, pairs) = pair_up-nil host (info ∷ list) in
    rw (left, pairs) (backends, refl, Adds-pure _ r)
check_list-Leaves host (info ∷ list) (p ∷ ps) backends r =
    let s : State = record { processes = p ∷ ps; valid_backends = backends } in
    let o = take_first (is_match host info) (p ∷ ps) in
    let others = left_by o (p ∷ ps) in
    let (left, problems) =
      pair_next-parts (expected host backends) info o (pair_up host list) (p ∷ ps) in
    rw (left, sym problems)
      (Leaves-bind host (check_running host info s) (check_list host list) r others
        (pair_up host list others).left backends (found_problems (expected host backends) o)
        (running_problems (expected host backends) (pair_up host list others).pairs)
        (check_found-Leaves host info o s r)
        (λ after same.
          subst
            (λ t.
              Leaves host
                (check_list host list (record { processes = others; valid_backends = after }))
                (check_running host info s r).0 (pair_up host list others).left after
                (running_problems t (pair_up host list others).pairs))
            same (check_list-Leaves host list others after (check_running host info s r).0)))
