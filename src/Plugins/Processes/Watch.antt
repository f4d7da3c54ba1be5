-- ===== src/Plugins/Processes/Watch.antt =====
-- The checks of the processes: `processes::on_process_watch` of plugins/sitter_processes/processes.cpp.
pub mod Expected
pub mod Pairs
pub mod Running
pub mod Meaning
pub mod Problems
use sitter.Base.{
  ℤ, pos, ◌==◌, Bool, true, false, not, ◌&&◌, if◌then◌else◌, Text, codes, is_empty, List, [], ◌∷◌,
  ◌++◌, Option, none, some, Result, ok, err,
}
use sitter.Json.{Key, Value, append_item, put, Doc, ◌/+◌, newest}
use sitter.Report.{ProcessInfo, append_error, output_process}
use sitter.Action.{Action, pure, lift, ◌>>=◌, ◌>>◌, write, when}
use sitter.Plugins.Processes.{Process, Host, matches, is_process_expected_to_run}
use sitter.Plugins.Processes.Definitions.{load_processes}
use sitter.Plugins.Processes.Maintenance.{is_in_maintenance}

-- `g_processes` and the static `g_valid_backends`.
pub record State : Type 0 where
  pub processes : List Process
  pub valid_backends : List Text

-- The part of a name after its last slash.
unfoldable pub basename_from : Text → Text → Text
basename_from best [] = best
basename_from best (c ∷ cs) = basename_from (if c == b'/' then cs else best) cs

unfoldable pub basename : Text → Text
unfolding basename_from
basename name = basename_from name name

-- The full name with the arguments that are not empty.
unfoldable pub add_arguments : Text → List Text → Text
add_arguments cmdline [] = cmdline
add_arguments cmdline (a ∷ rest) =
    add_arguments (if is_empty a then cmdline else cmdline ++ codes " " ++ a) rest

-- A running process against a definition.
unfoldable pub is_match : Host → ProcessInfo → Process → Bool
unfolding matches basename add_arguments
is_match host info p = matches host p (basename info.name) (add_arguments info.name info.args)

-- The first definition that a test picks, and the others: the search with its `erase`.
unfoldable pub keep_other :
    Process → Option (Process × List Process) → Option (Process × List Process)
keep_other p none = none
keep_other p (some (found, others)) = some (found, p ∷ others)

unfoldable pub take_first : (Process → Bool) → List Process → Option (Process × List Process)
unfolding keep_other
take_first test [] = none
take_first test (p ∷ ps) =
    let later = keep_other p (take_first test ps) in if test p then some (p, ps) else later

abbrev pub processes_ref : List Key
processes_ref = [] /+ codes "processes"

abbrev pub disabled_message : Process → Text
disabled_message p = codes "found process \"" ++ p.name ++ codes "\" running when disabled."

-- A backend that runs must be expected to.
unfoldable pub check_expected : Host → Process → Bool → State → Action State
check_expected host p false s = pure s
check_expected host p true s =
    let (valid_backends, expected) = is_process_expected_to_run host p s.valid_backends in
    when (not expected)
      (append_error processes_ref (codes "processes") (disabled_message p) (pos 35))
    >> pure (record s { valid_backends = valid_backends })

unfoldable pub check_backend : Host → Process → State → Action State
unfolding check_expected
check_backend host p s = check_expected host p p.service_is_backend s

unfoldable pub check_found :
    Host → ProcessInfo → Option (Process × List Process) → State → Action State
unfolding check_backend
check_found host info none s = pure s
check_found host info (some (p, others)) s =
    output_process (codes "processes") processes_ref (some info) p.name (pos 35)
    >>= (λ found. check_backend host p (record s { processes = others }))

unfoldable pub check_running : Host → ProcessInfo → State → Action State
unfolding is_match take_first check_found
check_running host info s = check_found host info (take_first (is_match host info) s.processes) s

-- The loop ends early once every definition was found.
unfoldable pub check_list : Host → List ProcessInfo → State → Action State
unfolding check_running
check_list host [] s = pure s
check_list host (info ∷ list) s =
    if is_empty s.processes then pure s else (check_running host info s >>= check_list host list)

abbrev pub missing_list : List Key
missing_list = [] /+ codes "process"

-- The priority and the message of a process that is expected and was not found.
unfoldable pub missing_priority : Host → Process → ℤ
missing_priority host p =
    if p.service_is_backend && is_in_maintenance host
    then pos 5
    else if p.mandatory
    then pos 95
    else pos 60

unfoldable pub missing_message : Process → Text
missing_message p =
    (if p.mandatory
      then codes "can't find mandatory process \""
      else codes "can't find expected process \"")
    ++ p.name
    ++ codes "\" in the list of processes."

abbrev pub not_resident : Doc
not_resident = put (newest missing_list /+ codes "resident") (Value.text (codes "no")) ∷ []

unfoldable pub report_missing : Host → Process → Bool → Action (Unit {0})
unfolding missing_priority missing_message
report_missing host p true =
    append_error (newest missing_list) (codes "processes") (missing_message p)
      (missing_priority host p)
report_missing host p false = write not_resident

abbrev pub missing_item : Process → Doc
missing_item p =
    append_item missing_list ∷ put (newest missing_list /+ codes "name") (Value.text p.name) ∷ []

unfoldable pub check_missing : Host → List Process → List Text → Action (List Text)
unfolding report_missing
check_missing host [] valid_backends = pure valid_backends
check_missing host (p ∷ ps) valid_backends =
    let (valid_backends', expected) = is_process_expected_to_run host p valid_backends in
    write (missing_item p)
    >> (report_missing host p expected >> check_missing host ps valid_backends')

unfoldable pub check_left : Host → State → Action State
unfolding check_missing
check_left host s =
    check_missing host s.processes s.valid_backends
    >>= (λ valid_backends. pure (record s { valid_backends = valid_backends }))

-- A run, given the processes that run.
unfoldable pub on_process_watch : Host → List ProcessInfo → State → Action State
unfolding check_list check_left load_processes
on_process_watch host list s =
    lift (load_processes host)
    >>= (λ processes. check_list host list (record s { processes = processes }))
    >>= check_left host
