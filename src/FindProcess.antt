-- ===== src/FindProcess.antt =====
-- The find-process tool, tools/find_process.cpp: its exit code tells whether a process runs.
pub mod Matching
pub mod Found
use sitter.Base.{
  ℕ, ℤ, pos, ◌==◌, Bool, true, false, not, ◌&&◌, if◌then◌else◌, Text, codes, text_eq, is_empty,
  List, [], ◌∷◌, Result, ok, err,
}
use sitter.Env.{Env}

-- A process as cppprocess lists it: the base name of its command and its arguments, the first of which is
-- the command.
pub record ListedProcess : Type 0 where
  pub basename : Text
  pub args : List Text

-- What the tool calls outside this repository: the options, the list of the processes, and `std::regex`,
-- whose constructor throws or gives a match of whole texts.
pub record Host : Type 0 where
  pub env : Env
  pub processes : List ListedProcess
  pub regex : Text → Result (Text → Bool)

-- How the name of the script's interpreter and the name of the process are compared.
pub record Tests : Type 0 where
  pub script_test : Text → Bool
  pub name_test : Text → Bool

-- With `--regex` the expressions are made first, that of the script only if there is one.
unfoldable regex_tests : Host → Text → Text → Result Tests
regex_tests host script process_name =
    elim (if is_empty script then ok (λ name. false) else host.regex script) [
      | err e ↦ err e
      | ok script_test ↦ elim (host.regex process_name) [
        | err e ↦ err e
        | ok name_test ↦ ok (record { script_test = script_test; name_test = name_test })
      ]
    ]

unfoldable pub make_tests : Host → Bool → Text → Text → Result Tests
unfolding regex_tests
make_tests host true script process_name = regex_tests host script process_name
make_tests host false script process_name = ok (record {
  script_test = λ name. text_eq name script;
  name_test = λ name. text_eq name process_name;
})

abbrev pub is_option : Text → Bool
is_option [] = true
is_option (c ∷ cs) = c == b'-'

-- The first argument that is not empty and does not start with a dash; empty if there is none.
unfoldable pub find_command : List Text → Text
find_command [] = []
find_command (a ∷ args) = if is_option a then find_command args else a

abbrev pub after_first : List Text → List Text
after_first [] = []
after_first (a ∷ args) = args

abbrev pub has_slash : Text → Bool
has_slash [] = false
has_slash (c ∷ cs) = if c == b'/' then true else has_slash cs

-- What follows the last slash, or the whole text.
unfoldable pub file_name : Text → Text
file_name [] = []
file_name (c ∷ cs) = if has_slash cs then file_name cs else if c == b'/' then cs else c ∷ cs

unfoldable pub match_command : Tests → Text → Text → Bool
match_command tests basename command =
    if is_empty command
    then false
    else if tests.script_test basename
    then tests.name_test (file_name command)
    else false

-- One turn of the loop.
unfoldable pub match_process : Tests → Text → ListedProcess → Bool
unfolding match_command
match_process tests script p =
    if is_empty p.basename
    then false
    else if is_empty script
    then tests.name_test p.basename
    else match_command tests p.basename (find_command (after_first p.args))

unfoldable pub find_process : Tests → Text → List ListedProcess → Bool
find_process tests script [] = false
find_process tests script (p ∷ ps) =
    if match_process tests script p then true else find_process tests script ps

-- `exitval`; what is thrown is printed and leaves it at 1.
unfoldable pub exit_value : Result Tests → Text → List ListedProcess → ℤ
exit_value (err e) script ps = pos 1
exit_value (ok tests) script ps = if find_process tests script ps then pos 0 else pos 1

-- `main`, once the command line has been read.
unfoldable pub main : Host → ℤ
unfolding exit_value make_tests
main host =
    let script = host.env.get_string (codes "script") in
    let process_name = host.env.get_string (codes "--") in
    exit_value (make_tests host (host.env.is_defined (codes "regex")) script process_name) script
      host.processes
