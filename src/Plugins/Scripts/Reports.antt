-- ===== src/Plugins/Scripts/Reports.antt =====
-- The errors that a run of plugins/sitter_scripts/scripts.cpp reports, and what it leaves in its files.
use sitter.Base.{
  pos, eqb_ℤ, ◌≡◌, refl, ◌∙◌, Bool, true, false, not, ◌&&◌, ◌||◌, if◌then◌else◌, Text, codes,
  is_empty, contains_text, List, [], ◌∷◌, ◌++◌, arith, Bool-cases, inl, inr, subst,
}
use sitter.Json.{put, Value, ◌/+◌}
use sitter.Report.{Report, append_error}
use sitter.Report.Laws.{InRange, Issue}
use sitter.Report.Adds.{Adds, Adds-pure, Adds-write, Adds-bind, Adds-then, Adds-as, Adds-report}
use sitter.Action.{pure, ◌>>=◌, ◌>>◌, write}
use sitter.StdMap.{map_set}
use sitter.Plugins.Scripts.{
  Host, Scripts, exit_code_of, has_output, output_text, error_text, script_ref, script_item,
  save_output, save_errors, report_output, report_errors, run_script, process_script,
  process_scripts, on_process_watch, with_end, generate_header, scripts_path,
}

-- A script that failed: it could not be started, or it ended with another code than 0.
abbrev pub fails : Host → Text → Text → Bool
fails host starter f =
    not (eqb_ℤ (host.start starter f) (pos 0)) || not (eqb_ℤ (host.wait starter f) (pos 0))

-- A header and what was written, with an end of line at the end.
abbrev told : Host → Text → Text → Text → Text
told host type f written = with_end (generate_header host f type ++ written)

-- What a script is reported for: its output when it failed, and whatever it wrote to its errors.
abbrev script_problems : Host → Text → Text → List Issue
script_problems host starter f =
    (if fails host starter f && not (is_empty (host.output_of f))
      then (told host (codes "OUTPUT") f (host.output_of f), pos 65) ∷ []
      else [])
    ++ (if is_empty (host.error_of f)
        then []
        else (told host (codes "ERROR") f (host.error_of f), pos 90) ∷ [])

abbrev pub is_script : Text → Bool
is_script f = not (contains_text (codes "README") f)

abbrev pub problems : Host → Text → List Text → List Issue
problems host starter [] = []
problems host starter (f ∷ fs) =
    (if is_script f then script_problems host starter f else []) ++ problems host starter fs

-- The plugin after one script.
abbrev pub with_output : Host → Scripts → Text → Bool → Scripts
with_output host s f false = s
with_output host s f true = record s {
  files = map_set s.scripts_output_log (output_text host f) s.files;
}

abbrev pub with_errors : Host → Scripts → Text → Bool → Scripts
with_errors host s f false = s
with_errors host s f true = record s {
  files = map_set s.scripts_error_log (error_text host f) s.files;
}

abbrev after_script : Host → Scripts → Text → Scripts
after_script host s f =
    with_errors host (with_output host s f (has_output host s f)) f
      (not (is_empty (host.error_of f)))

abbrev pub after_file : Host → Scripts → Text → Scripts
after_file host s f = if is_script f then after_script host s f else s

abbrev pub after_files : Host → Scripts → List Text → Scripts
after_files host s [] = s
after_files host s (f ∷ fs) = after_files host (after_file host s f) fs

pub has_output-fails :
    (host : Host) (s : Scripts) (f : Text)
    → has_output host s f ≡ (fails host s.script_starter f && not (is_empty (host.output_of f)))
unfolding has_output exit_code_of
has_output-fails host s f = ground arith

in_range : InRange (pos 65) × InRange (pos 90)
in_range = ((omega arith, omega arith), (omega arith, omega arith))

save_output-Adds :
    (host : Host) (s : Scripts) (f : Text) (failed : Bool) (r : Report)
    → (failed ≡ true → eqb_ℤ (exit_code_of host s f) (pos 0) ≡ false)
    → Adds
        (save_output host s f failed)
        r
        (with_output host s f failed)
        (if failed then (output_text host f, pos 65) ∷ [] else [])
unfolding save_output
save_output-Adds host s f false r code = Adds-pure s r
save_output-Adds host s f true r code =
    let output = output_text host f in
    let calls = put (script_ref /+ codes "output") (Value.text output) ∷ [] in
    let report = append_error script_ref (codes "scripts") output (pos 65) in
    let s' = with_output host s f true in
    rw (code refl) (
      Adds-then (write calls) (report >> pure s') s' [] ((output, pos 65) ∷ []) (Adds-write calls)
        (Adds-then report (pure s') s' ((output, pos 65) ∷ []) []
          (λ r. Adds-report true script_ref (codes "scripts") output (pos 65) r in_range.0)
          (Adds-pure s'))
        r)

save_errors-Adds :
    (host : Host) (s : Scripts) (f : Text) (wrote : Bool) (r : Report)
    → Adds
        (save_errors host s f wrote)
        r
        (with_errors host s f wrote)
        (if wrote then (error_text host f, pos 90) ∷ [] else [])
unfolding save_errors
save_errors-Adds host s f false r = Adds-pure s r
save_errors-Adds host s f true r =
    let error = error_text host f in
    let s' = with_errors host s f true in
    Adds-then (append_error script_ref (codes "scripts") error (pos 90)) (pure s') s'
      ((error, pos 90) ∷ []) []
      (λ r. Adds-report true script_ref (codes "scripts") error (pos 90) r in_range.1)
      (Adds-pure s') r

code_of_failure :
    (host : Host) (s : Scripts) (f : Text)
    → has_output host s f ≡ true
    → eqb_ℤ (exit_code_of host s f) (pos 0) ≡ false
unfolding has_output
code_of_failure host s f failed = ground (arith, failed)

if-not : (b : Bool) (ps : List Issue) → (if not b then ps else []) ≡ (if b then [] else ps)
if-not true ps = refl
if-not false ps = refl

run_script-Adds :
    (host : Host) (s : Scripts) (f : Text) (r : Report)
    → Adds (run_script host s f) r (after_script host s f) (script_problems host s.script_starter f)
unfolding run_script report_output report_errors output_text error_text
run_script-Adds host s f r =
    let item = script_item f (exit_code_of host s f) in
    let failed = has_output host s f in
    let wrote = not (is_empty (host.error_of f)) in
    let s1 = with_output host s f failed in
    let ps = if failed then (output_text host f, pos 65) ∷ [] else [] in
    let qs = if wrote then (error_text host f, pos 90) ∷ [] else [] in
    let rest = λ (t : Scripts). save_errors host t f wrote in
    Adds-as (run_script host s f) r (after_script host s f) (after_script host s f) (ps ++ qs)
      (script_problems host s.script_starter f) refl
      (λ i.
        (if has_output-fails host s f i then (output_text host f, pos 65) ∷ [] else [])
        ++ if-not (is_empty (host.error_of f)) ((error_text host f, pos 90) ∷ []) i)
      (Adds-then (write item) (save_output host s f failed >>= rest) (after_script host s f) []
        (ps ++ qs) (Adds-write item)
        (λ r.
          Adds-bind (save_output host s f failed) rest r s1 (after_script host s f) ps qs
            (save_output-Adds host s f failed r (code_of_failure host s f))
            (save_errors-Adds host s1 f wrote (save_output host s f failed r).0))
        r)

process_script-Adds :
    (host : Host) (s : Scripts) (f : Text) (r : Report)
    → Adds
        (process_script host s f)
        r
        (after_file host s f)
        (if is_script f then script_problems host s.script_starter f else [])
unfolding process_script
process_script-Adds host s f r = elim (Bool-cases (contains_text (codes "README") f)) [
  | inl documentation ↦ rw documentation (Adds-pure s r)
  | inr script ↦ rw script (run_script-Adds host s f r)
]

with_output-starter :
    (host : Host) (s : Scripts) (f : Text) (b : Bool)
    → (with_output host s f b).script_starter ≡ s.script_starter
with_output-starter host s f true = refl
with_output-starter host s f false = refl

with_errors-starter :
    (host : Host) (s : Scripts) (f : Text) (b : Bool)
    → (with_errors host s f b).script_starter ≡ s.script_starter
with_errors-starter host s f true = refl
with_errors-starter host s f false = refl

after_file-starter :
    (host : Host) (s : Scripts) (f : Text) → (after_file host s f).script_starter ≡ s.script_starter
after_file-starter host s f = elim (Bool-cases (is_script f)) [
  | inl script ↦
      let s1 = with_output host s f (has_output host s f) in
      rw script (
        with_errors-starter host s1 f (not (is_empty (host.error_of f)))
        ∙ with_output-starter host s f (has_output host s f))
  | inr documentation ↦ rw documentation refl
]

process_scripts-Adds :
    (host : Host) (s : Scripts) (fs : List Text) (r : Report)
    → Adds (process_scripts host s fs) r (after_files host s fs) (problems host s.script_starter fs)
unfolding process_scripts
process_scripts-Adds host s [] r = Adds-pure s r
process_scripts-Adds host s (f ∷ fs) r =
    let s1 = after_file host s f in
    Adds-bind (process_script host s f) (λ t. process_scripts host t fs) r s1
      (after_files host s1 fs) (if is_script f then script_problems host s.script_starter f else [])
      (problems host s.script_starter fs) (process_script-Adds host s f r)
      (subst
        (λ starter.
          Adds (process_scripts host s1 fs) (process_script host s f r).0 (after_files host s1 fs)
            (problems host starter fs))
        (after_file-starter host s f)
        (process_scripts-Adds host s1 fs (process_script host s f r).0))

-- A run never throws. For each file in turn whose name does not hold README it reports one error of
-- priority 65 if the script fails and has output, and after it one of priority 90 if it wrote to its
-- errors; the message is the header of the script with what it wrote there. Nothing else is reported, so
-- that the output of a script that succeeds is not.
pub scripts-Report :
    (host : Host) (s : Scripts) (r : Report)
    → let files = host.glob (scripts_path host.env ++ codes "/*") in
      Adds
        (on_process_watch host s)
        r
        (after_files host s files)
        (problems host s.script_starter files)
unfolding on_process_watch
scripts-Report host s r =
    process_scripts-Adds host s (host.glob (scripts_path host.env ++ codes "/*")) r
