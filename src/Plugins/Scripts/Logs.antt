-- ===== src/Plugins/Scripts/Logs.antt =====
-- What stays in the output log of plugins/sitter_scripts/scripts.cpp.
use sitter.Base.{
  ◌≡◌, refl, sym, ◌∙◌, ap, Bool, true, false, not, ◌&&◌, if◌then◌else◌, Text, codes, text_eq,
  text_eq_refl, text_eq-append, is_empty, List, [], ◌∷◌, ◌++◌, Option, some, ok, Bool-cases, inl,
  inr,
}
use sitter.StdMap.{map_get}
use sitter.StdMap.Laws.{map_get-map_set}
use sitter.Report.{Report}
use sitter.Plugins.Scripts.{
  Host, Scripts, bootstrap, log_folder, has_output, output_text, error_text, on_process_watch,
  scripts_path,
}
use sitter.Plugins.Scripts.Reports.{
  fails, is_script, with_output, with_errors, after_file, after_files, has_output-fails,
  scripts-Report,
}

-- The text of the last script that failed with output; the text before, if none did.
abbrev last_output : Host → Text → List Text → Option Text → Option Text
last_output host starter [] old = old
last_output host starter (f ∷ fs) old = last_output host starter fs (
    if is_script f && (fails host starter f && not (is_empty (host.output_of f)))
    then some (output_text host f)
    else old)

-- One script, by what it is reported for.
kept_fields :
    (host : Host) (s : Scripts) (f : Text) (failed wrote : Bool)
    → let s' = with_errors host (with_output host s f failed) f wrote in
      s' ≡ record s { files = s'.files }
kept_fields host s f true true = refl
kept_fields host s f true false = refl
kept_fields host s f false true = refl
kept_fields host s f false false = refl

written_output :
    (host : Host) (s : Scripts) (f : Text)
    → map_get s.scripts_output_log (with_output host s f true).files ≡ some (output_text host f)
written_output host s f =
    map_get-map_set s.scripts_output_log s.scripts_output_log (output_text host f) s.files
    ∙ rw (text_eq_refl s.scripts_output_log) refl

output_log :
    (host : Host) (s : Scripts) (f : Text) (failed wrote : Bool)
    → text_eq s.scripts_output_log s.scripts_error_log ≡ false
    → map_get s.scripts_output_log (with_errors host (with_output host s f failed) f wrote).files
      ≡ (if failed then some (output_text host f) else map_get s.scripts_output_log s.files)
output_log host s f true true apart =
    map_get-map_set s.scripts_output_log s.scripts_error_log (error_text host f)
      (with_output host s f true).files
    ∙ rw apart (written_output host s f)
output_log host s f true false apart = written_output host s f
output_log host s f false true apart =
    map_get-map_set s.scripts_output_log s.scripts_error_log (error_text host f) s.files
    ∙ rw apart refl
output_log host s f false false apart = refl

-- One file.
after_file-files :
    (host : Host) (s : Scripts) (f : Text)
    → after_file host s f ≡ record s { files = (after_file host s f).files }
after_file-files host s f = elim (Bool-cases (is_script f)) [
  | inl script ↦
      rw script (kept_fields host s f (has_output host s f) (not (is_empty (host.error_of f))))
  | inr documentation ↦ rw documentation refl
]

after_file-output_log :
    (host : Host) (s : Scripts) (f : Text)
    → text_eq s.scripts_output_log s.scripts_error_log ≡ false
    → map_get s.scripts_output_log (after_file host s f).files ≡ (
        if is_script f && (fails host s.script_starter f && not (is_empty (host.output_of f)))
        then some (output_text host f)
        else map_get s.scripts_output_log s.files)
after_file-output_log host s f apart = elim (Bool-cases (is_script f)) [
  | inl script ↦
      rw (script, sym (has_output-fails host s f))
        (output_log host s f (has_output host s f) (not (is_empty (host.error_of f))) apart)
  | inr documentation ↦ rw documentation refl
]

after_files-output_log :
    (host : Host) (s : Scripts) (fs : List Text)
    → text_eq s.scripts_output_log s.scripts_error_log ≡ false
    → map_get s.scripts_output_log (after_files host s fs).files
      ≡ last_output host s.script_starter fs (map_get s.scripts_output_log s.files)
after_files-output_log host s [] apart = refl
after_files-output_log host s (f ∷ fs) apart =
    let s' = record s { files = (after_file host s f).files } in
    ap (λ t. map_get s.scripts_output_log (after_files host t fs).files) (after_file-files host s f)
    ∙ after_files-output_log host s' fs apart
    ∙ ap (last_output host s.script_starter fs) (after_file-output_log host s f apart)

log_names :
    (folder : Text)
    → text_eq (folder ++ codes "/sitter-scripts.log") (folder ++ codes "/sitter-scripts-errors.log")
      ≡ false
unfolding text_eq
log_names folder =
    text_eq-append folder (codes "/sitter-scripts.log") (codes "/sitter-scripts-errors.log")

-- A run after `bootstrap` returns a plugin whose output log holds the text of the last script that
-- failed with output, and what it held before if none did: the texts of the scripts before that one are
-- gone.
output_log_keeps_last :
    (host : Host) (before : Scripts) (r : Report)
    → let s = bootstrap host.env before in
      let files = host.glob (scripts_path host.env ++ codes "/*") in
      (after : Scripts) × ((on_process_watch host s r).1 ≡ ok after)
      × (map_get s.scripts_output_log after.files
          ≡ last_output host s.script_starter files (map_get s.scripts_output_log before.files))
unfolding bootstrap
output_log_keeps_last host before r =
    let s = bootstrap host.env before in
    let files = host.glob (scripts_path host.env ++ codes "/*") in
    (
      after_files host s files,
      (scripts-Report host s r).0,
      after_files-output_log host s files (log_names (log_folder host.env)),
    )
