-- ===== src/FindProcess/Found.antt =====
-- When tools/find_process.cpp succeeds.
use sitter.Base.{
  ℕ, zero, suc, ◌≡◌, ◌↔◌, ◌==◌, refl, pos, Bool, true, false, ◌>>=◌, if◌then◌else◌, Text, codes,
  text_eq, text_eq_refl, is_empty, all, List, [], ◌∷◌, ◌++◌, get_elem?, some, Result, ok, err,
  arith, Bool-cases, inl, inr,
}
use sitter.FindProcess.Matching.{
  IsMatch, match_process-IsMatch, find_command-after, file_name-after,
}
use sitter.FindProcess.{
  Host, ListedProcess, Tests, make_tests, has_slash, is_option, match_command, match_process,
  find_process, exit_value, main,
}

-- Some process of the list matches.
abbrev pub IsThere : Tests → Text → List ListedProcess → Type 0
IsThere tests script ps =
    (i : ℕ) × (p : ListedProcess) × (get_elem? ps i ≡ some p) × IsMatch tests script p

not_first :
    (tests : Tests) (script : Text) (p : ListedProcess) (ps : List ListedProcess)
    → match_process tests script p ≡ false
    → find_process tests script (p ∷ ps) ≡ true
    → find_process tests script ps ≡ true
unfolding find_process
not_first tests script p ps other found = ground arith

find_process-IsThere :
    (tests : Tests) (script : Text) (ps : List ListedProcess)
    → find_process tests script ps ≡ true
    → IsThere tests script ps
unfolding find_process
find_process-IsThere tests script [] found = cc
find_process-IsThere tests script (p ∷ ps) found =
    elim (Bool-cases (match_process tests script p)) [
      | inl matches ↦ (0, p, refl, (match_process-IsMatch tests script p).0 matches)
      | inr other ↦
          let (i, q, at_i, matches) =
            find_process-IsThere tests script ps (not_first tests script p ps other found) in
          (suc i, q, at_i, matches)
    ]

IsThere-find_process :
    (tests : Tests) (script : Text) (ps : List ListedProcess) (i : ℕ) (p : ListedProcess)
    → get_elem? ps i ≡ some p
    → match_process tests script p ≡ true
    → find_process tests script ps ≡ true
unfolding find_process
IsThere-find_process tests script [] i p at_i matches = cc
IsThere-find_process tests script (q ∷ ps) zero p at_i matches = ground arith
IsThere-find_process tests script (q ∷ ps) (suc i) p at_i matches =
    ground (arith, IsThere-find_process tests script ps i p)

exit_value-zero :
    (m : Result Tests) (script : Text) (ps : List ListedProcess)
    → (exit_value m script ps ≡ pos 0)
      ↔ ((tests : Tests) × (m ≡ ok tests) × (find_process tests script ps ≡ true))
unfolding exit_value
exit_value-zero (err e) script ps = (λ bad. cc, λ (tests, made, found). cc)
exit_value-zero (ok tests) script ps = elim (Bool-cases (find_process tests script ps)) [
  | inl found ↦ rw found (λ _. (tests, refl, found), λ _. refl)
  | inr lost ↦ rw lost (λ bad. cc, λ (other, made, found). cc)
]

abbrev plain_tests : Text → Text → Tests
plain_tests script process_name = record {
  script_test = λ name. text_eq name script;
  name_test = λ name. text_eq name process_name;
}

-- The tests of a host, or the exception of a regular expression: those of the expressions with `--regex`,
-- where no script passes without one, and equality otherwise.
abbrev pub tests_of : Host → Result Tests
tests_of host =
    let script = host.env.get_string (codes "script") in
    let name = host.env.get_string (codes "--") in
    if host.env.is_defined (codes "regex")
    then (do
      script_test ← if is_empty script then ok (λ _. false) else host.regex script
      name_test ← host.regex name
      ok (record { script_test = script_test; name_test = name_test }))
    else ok (plain_tests script name)

make_tests-Is :
    (host : Host) (is_regex : Bool) (script name : Text)
    → make_tests host is_regex script name ≡ (
        if is_regex
        then (do
          script_test ← if is_empty script then ok (λ _. false) else host.regex script
          name_test ← host.regex name
          ok (record { script_test = script_test; name_test = name_test }))
        else ok (plain_tests script name))
unfolding make_tests
make_tests-Is host false script name = refl
make_tests-Is host true script name =
    by_answers (if is_empty script then ok (λ _. false) else host.regex script) (host.regex name)
  where
    by_answers :
        (first second : Result (Text → Bool))
        → ◌≡◌ {A = Result Tests}
            (elim first [
              | err e ↦ err e
              | ok script_test ↦ elim second [
                | err e ↦ err e
                | ok name_test ↦ ok (record { script_test = script_test; name_test = name_test })
              ]
            ])
            (do
              script_test ← first
              name_test ← second
              ok (record { script_test = script_test; name_test = name_test }))
    by_answers (err e) second = refl
    by_answers (ok t) (err e) = refl
    by_answers (ok t) (ok u) = refl

-- The tool exits with 0 exactly if its regular expressions can be made and a process of the list matches:
-- one whose base name is not empty and passes the test of the name or, with a script, one whose base name
-- is not empty and passes the test of the script, and whose command has a file name that passes that of
-- the name. The command is the first argument behind argument 0 that is not empty and has no dash in front.
pub main-Found :
    (host : Host)
    → (main host ≡ pos 0) ↔ (
        (tests : Tests) × (tests_of host ≡ ok tests)
        × IsThere tests (host.env.get_string (codes "script")) host.processes)
unfolding main
main-Found host =
    let script = host.env.get_string (codes "script") in
    let made_tests =
      make_tests-Is host (host.env.is_defined (codes "regex")) script
        (host.env.get_string (codes "--")) in
    let (there, back) = exit_value-zero (tests_of host) script host.processes in
    rw made_tests (
      λ zero_exit.
          (let (tests, made, found) = there zero_exit in
            (tests, made, find_process-IsThere tests script host.processes found)),
      λ (tests, made, (i, p, at_i, matches)). back (
        tests,
        made,
        IsThere-find_process tests script host.processes i p at_i
            ((match_process-IsMatch tests script p).1 matches),
      ),
    )

script-matches :
    (script name first : Text) (options : List Text) (c : ℕ) (dir : Text) (rest : List Text)
    → is_empty script ≡ false
    → has_slash name ≡ false
    → all is_option options ≡ true
    → (c == b'-') ≡ false
    → match_process
        (plain_tests script name)
        script
        (record { basename = script; args = first ∷ options ++ ((c ∷ dir) ++ b'/' ∷ name) ∷ rest })
      ≡ true
unfolding match_process match_command
script-matches script name first options c dir rest named no_slash dashed not_dash =
    rw
      (
        named,
        find_command-after options ((c ∷ dir) ++ b'/' ∷ name) rest dashed not_dash,
        text_eq_refl script,
        file_name-after (c ∷ dir) name no_slash,
        text_eq_refl name,
      )
      refl

-- Without `--regex`, the tool finds a script: it exits with 0 if some process has the script's interpreter
-- as base name and, after its command and any options that start with a dash, the path of a file with the
-- name of the process, which holds no slash, in a directory whose path does not start with a dash.
pub script_is_found :
    (host : Host) (i : ℕ) (first : Text) (options : List Text) (c : ℕ) (dir : Text)
    (rest : List Text)
    → let script = host.env.get_string (codes "script") in
      let name = host.env.get_string (codes "--") in
      host.env.is_defined (codes "regex") ≡ false
      → is_empty script ≡ false
      → has_slash name ≡ false
      → all is_option options ≡ true
      → (c == b'-') ≡ false
      → get_elem? host.processes i
        ≡ some (record {
          basename = script;
          args = first ∷ options ++ ((c ∷ dir) ++ b'/' ∷ name) ∷ rest;
        })
      → main host ≡ pos 0
script_is_found host i first options c dir rest plain named no_slash dashed not_dash at_i =
    let script = host.env.get_string (codes "script") in
    let name = host.env.get_string (codes "--") in
    (main-Found host).1 (
      plain_tests script name,
      rw plain refl,
      (
        i,
        record { basename = script; args = first ∷ options ++ ((c ∷ dir) ++ b'/' ∷ name) ∷ rest },
        at_i,
        (match_process-IsMatch (plain_tests script name) script (record {
          basename = script;
          args = first ∷ options ++ ((c ∷ dir) ++ b'/' ∷ name) ∷ rest;
        })).0
            (script-matches script name first options c dir rest named no_slash dashed not_dash),
      ),
    )
