-- ===== src/FindProcess/Matching.antt =====
-- When a process of tools/find_process.cpp matches, said of its arguments.
use sitter.Base.{
  ℕ, ◌≡◌, ◌↔◌, ◌⊎◌, inl, inr, refl, ◌∙◌, ap, ◌==◌, ==_iff, true, false, Text, is_empty, all, List,
  [], ◌∷◌, ◌++◌, arith, Bool-cases,
}
use sitter.FindProcess.{
  ListedProcess, Tests, find_command, after_first, has_slash, is_option, file_name, match_process,
}

-- The first argument behind the command that is not empty and does not start with a dash.
abbrev pub IsCommand : List Text → Text → Type 0
IsCommand args command =
    (first : Text) × (options : List Text) × (rest : List Text) × (args
      ≡ first ∷ options ++ command ∷ rest)
    × (all is_option options ≡ true)
    × (is_option command ≡ false)

-- The whole text, or what stands behind the last slash.
abbrev pub IsFileName : Text → Text → Type 0
IsFileName path name =
    (has_slash name ≡ false) × ((path ≡ name) ⊎ ((dir : Text) × (path ≡ dir ++ b'/' ∷ name)))

-- A process with a base name that passes the test of the name or, with a script, one whose base name
-- passes the test of the script and whose command's file name passes that of the name.
abbrev pub IsMatch : Tests → Text → ListedProcess → Type 0
IsMatch tests script p =
    (is_empty p.basename ≡ false)
    × (((is_empty script ≡ true) × (tests.name_test p.basename ≡ true))
        ⊎ ((is_empty script ≡ false)
            × (tests.script_test p.basename ≡ true)
            × ((command : Text) × (name : Text) × IsCommand p.args command
                × IsFileName command name
                × (tests.name_test name ≡ true))))

pub find_command-after :
    (options : List Text) (command : Text) (rest : List Text)
    → all is_option options ≡ true
    → is_option command ≡ false
    → find_command (options ++ command ∷ rest) ≡ command
unfolding find_command
find_command-after [] command rest dashed plain = rw plain refl
find_command-after (a ∷ options) command rest dashed plain =
    ground (arith, find_command-after options command rest)

abbrev Taken : List Text → Type 0
Taken args =
    (options : List Text) × (rest : List Text) × (args ≡ options ++ find_command args ∷ rest)
    × (all is_option options ≡ true)
    × (is_option (find_command args) ≡ false)

find_command-Taken : (args : List Text) → is_empty (find_command args) ≡ false → Taken args
unfolding find_command
find_command-Taken [] named = cc
find_command-Taken (a ∷ args) named = elim (Bool-cases (is_option a)) [
  | inl option ↦
      let (options, rest, split, dashed, plain) =
        find_command-Taken args (ground (arith, option, named)) in
      rw option (a ∷ options, rest, ap (λ xs. a ∷ xs) split, ground (arith, option, dashed), plain)
  | inr plain ↦ rw plain ([], args, refl, refl, plain)
]

find_command-IsCommand :
    (args : List Text)
    → is_empty (find_command (after_first args)) ≡ false
    → IsCommand args (find_command (after_first args))
unfolding find_command
find_command-IsCommand [] named = cc
find_command-IsCommand (first ∷ args) named =
    let (options, rest, split, dashed, plain) = find_command-Taken args named in
    (first, options, rest, ap (λ xs. first ∷ xs) split, dashed, plain)

IsCommand-find_command :
    (args : List Text) (command : Text)
    → IsCommand args command
    → find_command (after_first args) ≡ command
IsCommand-find_command args command (first, options, rest, split, dashed, plain) =
    ap (λ xs. find_command (after_first xs)) split
    ∙ find_command-after options command rest dashed plain

has_slash-append : (dir name : Text) → has_slash (dir ++ b'/' ∷ name) ≡ true
has_slash-append [] name = refl
has_slash-append (c ∷ cs) name = ground (arith, has_slash-append cs name)

pub file_name-after :
    (dir name : Text) → has_slash name ≡ false → file_name (dir ++ b'/' ∷ name) ≡ name
unfolding file_name
file_name-after [] name plain = rw plain refl
file_name-after (c ∷ cs) name plain = rw (has_slash-append cs name) (file_name-after cs name plain)

file_name-plain : (name : Text) → has_slash name ≡ false → file_name name ≡ name
unfolding file_name
file_name-plain [] plain = refl
file_name-plain (c ∷ cs) plain = ground arith

file_name-IsFileName : (path : Text) → IsFileName path (file_name path)
unfolding file_name
file_name-IsFileName [] = (refl, inl refl)
file_name-IsFileName (c ∷ cs) = elim (Bool-cases (has_slash cs)) [
  | inl slash ↦
      let (plain, found) = file_name-IsFileName cs in
      rw slash (
        plain,
        elim found [
          | inl whole ↦ absurd (ground (arith, slash, plain, ap has_slash whole))
          | inr (dir, split) ↦ inr (c ∷ dir, ap (λ t. c ∷ t) split)
        ],
      )
  | inr no_slash ↦ elim (Bool-cases (c == b'/')) [
    | inl here ↦
        rw (no_slash, here) (no_slash, inr ([], ap (λ (x : ℕ). x ∷ cs) ((==_iff c b'/').0 here)))
    | inr other ↦ rw (no_slash, other) (ground (arith, no_slash, other), inl refl)
  ]
]

IsFileName-file_name : (path name : Text) → IsFileName path name → file_name path ≡ name
IsFileName-file_name path name (plain, inl whole) = ap file_name whole ∙ file_name-plain name plain
IsFileName-file_name path name (plain, inr (dir, split)) =
    ap file_name split ∙ file_name-after dir name plain

abbrev command_of : ListedProcess → Text
command_of p = find_command (after_first p.args)

-- The tests that the loop makes on one process.
abbrev Passes : Tests → Text → ListedProcess → Type 0
Passes tests script p =
    (is_empty p.basename ≡ false)
    × (((is_empty script ≡ true) × (tests.name_test p.basename ≡ true))
        ⊎ ((is_empty script ≡ false)
            × (tests.script_test p.basename ≡ true)
            × (is_empty (command_of p) ≡ false)
            × (tests.name_test (file_name (command_of p)) ≡ true)))

match_process-Passes :
    (tests : Tests) (script : Text) (p : ListedProcess)
    → (match_process tests script p ≡ true) ↔ Passes tests script p
unfolding match_process
match_process-Passes tests script p = ground arith

option-nil : (t : Text) → is_option t ≡ false → is_empty t ≡ false
option-nil [] plain = cc
option-nil (c ∷ cs) plain = refl

Passes-IsMatch :
    (tests : Tests) (script : Text) (p : ListedProcess)
    → Passes tests script p
    → IsMatch tests script p
Passes-IsMatch tests script p (named, inl by_name) = (named, inl by_name)
Passes-IsMatch tests script p (named, inr (scripted, runs, given, passes)) = (
  named,
  inr (
    scripted,
    runs,
    (
      command_of p,
      file_name (command_of p),
      find_command-IsCommand p.args given,
      file_name-IsFileName (command_of p),
      passes,
    ),
  ),
)

IsMatch-Passes :
    (tests : Tests) (script : Text) (p : ListedProcess)
    → IsMatch tests script p
    → Passes tests script p
IsMatch-Passes tests script p (named, inl by_name) = (named, inl by_name)
IsMatch-Passes tests script p
      (named, inr (scripted, runs, (command, name, is_command, is_name, passes))) =
    let found = IsCommand-find_command p.args command is_command in
    let same = ap file_name found ∙ IsFileName-file_name command name is_name in
    let (first, options, rest, split, dashed, plain) = is_command in
    (
      named,
      inr (
        scripted,
        runs,
        ap is_empty found ∙ option-nil command plain,
        ap tests.name_test same ∙ passes,
      ),
    )

pub match_process-IsMatch :
    (tests : Tests) (script : Text) (p : ListedProcess)
    → (match_process tests script p ≡ true) ↔ IsMatch tests script p
match_process-IsMatch tests script p =
    let (there, back) = match_process-Passes tests script p in
    (
      λ matches. Passes-IsMatch tests script p (there matches),
      λ is_match. back (IsMatch-Passes tests script p is_match),
    )
