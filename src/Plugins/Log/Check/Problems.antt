-- ===== src/Plugins/Log/Check/Problems.antt =====
-- One log file and the checks of `check_log` in plugins/sitter_log/log.cpp, against a list of what is
-- wrong with it.
use Prim.Native.Nat.{bit_and}
use sitter.Base.{
  ◌*◌, ◌%◌, ◌^◌, ltb, ℤ, pos, Bool, true, false, not, ◌&&◌, ◌||◌, if◌then◌else◌, ◌==◌, Text, codes,
  List, [], ◌∷◌, ◌++◌, append-nil, Option, none, some, ◌≡◌, refl, arith, Bool-cases, inl, inr,
  subst,
}
use sitter.Json.{Key, ◌/+◌}
use sitter.Report.{Report, append_error}
use sitter.Report.Laws.{InRange, Issue}
use sitter.Report.Adds.{Adds, Adds-pure, Adds-write, Adds-as, Adds-then, Adds-report}
use sitter.Action.{pure, ◌>>◌, write, when}
use sitter.Plugins.Log.Definition.{Stat, Host, Definition, no_id}
use sitter.Plugins.Log.Check.{
  is_too_big, has_wrong_owner, has_wrong_group, has_wrong_mode, size_priority, check_size,
  check_owner, check_group, check_mode, check_file, check_answer, size_message, log_item, of_file,
  mismatch, not_found_message,
}

abbrev pub raised : Bool → Issue → List Issue
raised c issue = if c then issue ∷ [] else []

abbrev owner_message : Definition → Text → Stat → Text
owner_message def filename st =
    mismatch (of_file (codes "log file owner mismatched for ") def filename) st.uid def.uid

abbrev group_message : Definition → Text → Stat → Text
group_message def filename st =
    mismatch (of_file (codes "log file group mismatched for ") def filename) st.gid def.gid

abbrev mode_message : Definition → Text → Stat → Text
mode_message def filename st =
    mismatch (of_file (codes "log file mode mismatched ") def filename) st.mode def.mode

-- More than the limit, and more than twice the limit.
abbrev size_level : Definition → Stat → ℤ
size_level def st = if ltb (def.max_size * 2 % 2 ^ 64) st.size then pos 73 else pos 58

-- What is wrong with the owner, the group and the mode of a file.
abbrev pub access_problems : Definition → Text → Stat → List Issue
access_problems def filename st =
    raised (not (def.uid == no_id || def.uid == st.uid)) (owner_message def filename st, pos 63)
    ++ (raised (not (def.gid == no_id || def.gid == st.gid)) (group_message def filename st, pos 59)
        ++ raised (not (def.mode == 0 || bit_and st.mode def.mode_mask == def.mode))
            (mode_message def filename st, pos 64))

-- What is wrong with a file.
abbrev pub problems : Definition → Text → Stat → List Issue
problems def filename st =
    raised (ltb def.max_size st.size) (size_message def filename st, size_level def st)
    ++ access_problems def filename st

-- The files of a definition, in the order in which the patterns find them.
abbrev pub files_of : Host → Definition → List Text → List Text
files_of host def [] = []
files_of host def (p ∷ ps) = host.glob (def.path ++ codes "/" ++ p) ++ files_of host def ps

abbrev pub answer_problems : Definition → Text → Option Stat → List Issue
answer_problems def filename none = []
answer_problems def filename (some st) = problems def filename st

abbrev pub is_answer : Option Stat → Bool
is_answer none = false
is_answer (some st) = true

abbrev pub file_problems : Host → Definition → List Text → List Issue
file_problems host def [] = []
file_problems host def (f ∷ fs) = answer_problems def f (host.stat f) ++ file_problems host def fs

abbrev pub exists : Host → List Text → Bool
exists host [] = false
exists host (f ∷ fs) = is_answer (host.stat f) || exists host fs

abbrev pub definition_problems : Host → Definition → List Issue
definition_problems host def =
    let files = files_of host def def.patterns in
    file_problems host def files ++ raised (not (exists host files)) (not_found_message def, pos 85)

abbrev pub all_problems : Host → List Definition → List Issue
all_problems host [] = []
all_problems host (def ∷ defs) = definition_problems host def ++ all_problems host defs

not_or : (a b : Bool) → (not a && not b) ≡ not (a || b)
not_or a b = ground arith

size_level-InRange : (def : Definition) (st : Stat) → InRange (size_level def st)
size_level-InRange def st = elim (Bool-cases (ltb (def.max_size * 2 % 2 ^ 64) st.size)) [
  | inl big ↦ rw big (omega arith, omega arith)
  | inr small ↦ rw small (omega arith, omega arith)
]

-- A check under a test that says the same as `c`.
reports_when :
    (test c : Bool) (ref : List Key) (name message : Text) (priority : ℤ) (r : Report)
    → test ≡ c
    → InRange priority
    → Adds (when test (append_error ref name message priority)) r tt (raised c (message, priority))
reports_when test c ref name message priority r same range =
    subst
      (λ (b : Bool).
        Adds (when test (append_error ref name message priority)) r tt
          (raised b (message, priority)))
      same (Adds-report test ref name message priority r range)

module _ (def : Definition) (filename : Text) (st : Stat) (l : List Key) where
  check_size-Adds :
      (r : Report)
      → Adds
          (check_size def filename st l)
          r
          tt
          (raised (ltb def.max_size st.size) (size_message def filename st, size_level def st))
  unfolding check_size is_too_big size_priority
  check_size-Adds r =
      Adds-report (ltb def.max_size st.size) l (codes "log") (size_message def filename st)
        (size_level def st) r (size_level-InRange def st)

  check_owner-Adds :
      (r : Report)
      → Adds (check_owner def filename st l) r tt (
          raised
            (not (def.uid == no_id || def.uid == st.uid))
            (owner_message def filename st, pos 63))
  unfolding check_owner has_wrong_owner
  check_owner-Adds r =
      reports_when (has_wrong_owner def st) (not (def.uid == no_id || def.uid == st.uid)) l
        (codes "log")
        (mismatch (of_file (codes "log file owner mismatched for ") def filename) st.uid def.uid)
        (pos 63) r (not_or (def.uid == no_id) (def.uid == st.uid)) (omega arith, omega arith)

  check_group-Adds :
      (r : Report)
      → Adds (check_group def filename st l) r tt (
          raised
            (not (def.gid == no_id || def.gid == st.gid))
            (group_message def filename st, pos 59))
  unfolding check_group has_wrong_group
  check_group-Adds r =
      reports_when (has_wrong_group def st) (not (def.gid == no_id || def.gid == st.gid)) l
        (codes "log")
        (mismatch (of_file (codes "log file group mismatched for ") def filename) st.gid def.gid)
        (pos 59) r (not_or (def.gid == no_id) (def.gid == st.gid)) (omega arith, omega arith)

  check_mode-Adds :
      (r : Report)
      → Adds (check_mode def filename st l) r tt (
          raised
            (not (def.mode == 0 || bit_and st.mode def.mode_mask == def.mode))
            (mode_message def filename st, pos 64))
  unfolding check_mode has_wrong_mode
  check_mode-Adds r =
      reports_when (has_wrong_mode def st)
        (not (def.mode == 0 || bit_and st.mode def.mode_mask == def.mode)) l (codes "log")
        (mismatch (of_file (codes "log file mode mismatched ") def filename) st.mode def.mode)
        (pos 64) r (not_or (def.mode == 0) (bit_and st.mode def.mode_mask == def.mode))
        (omega arith, omega arith)

  check_file-Adds :
      (r : Report) → Adds (check_file def filename st l) r tt (problems def filename st)
  unfolding check_file
  check_file-Adds =
      let owner =
        raised (not (def.uid == no_id || def.uid == st.uid))
          (owner_message def filename st, pos 63) in
      let group =
        raised (not (def.gid == no_id || def.gid == st.gid))
          (group_message def filename st, pos 59) in
      let mode =
        raised (not (def.mode == 0 || bit_and st.mode def.mode_mask == def.mode))
          (mode_message def filename st, pos 64) in
      let modes = check_mode def filename st l in
      let groups = check_group def filename st l >> modes in
      let owners = check_owner def filename st l >> groups in
      let sizes = check_size def filename st l >> owners in
      Adds-then (write (log_item l def filename st)) sizes tt [] (problems def filename st)
        (Adds-write (log_item l def filename st))
        (Adds-then (check_size def filename st l) owners tt
          (raised (ltb def.max_size st.size) (size_message def filename st, size_level def st))
          (owner ++ (group ++ mode)) check_size-Adds
          (Adds-then (check_owner def filename st l) groups tt owner (group ++ mode)
            check_owner-Adds
            (Adds-then (check_group def filename st l) modes tt group mode check_group-Adds
              check_mode-Adds)))

pub or_false : (a : Bool) → a ≡ (a || false)
or_false a = ground arith

pub or_true : (a : Bool) → true ≡ (a || true)
or_true a = ground arith

pub or_assoc : (a b c : Bool) → ((a || b) || c) ≡ (a || (b || c))
or_assoc a b c = ground arith

pub check_answer-Adds :
    (def : Definition) (json : List Key) (f : Text) (found : Bool) (answer : Option Stat)
    (r : Report)
    → Adds
        (check_answer def json f found answer)
        r
        (found || is_answer answer)
        (answer_problems def f answer)
unfolding check_answer
check_answer-Adds def json f found none r =
    Adds-as (pure found) r found (found || false) [] [] (or_false found) refl (Adds-pure found r)
check_answer-Adds def json f found (some st) r =
    let checks = check_file def f st (json /+ codes "log") in
    Adds-as (checks >> pure true) r true (found || true) (problems def f st ++ [])
      (problems def f st) (or_true found) (append-nil (problems def f st))
      (Adds-then checks (pure true) true (problems def f st) []
        (check_file-Adds def f st (json /+ codes "log")) (Adds-pure true) r)
