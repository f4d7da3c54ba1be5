-- ===== src/Plugins/Log/Check/Outcome.antt =====
-- What the log plugin of plugins/sitter_log/log.cpp reports, against a list of what is wrong.
use sitter.Base.{
  ◌*◌, ◌%◌, ◌^◌, ◌≤◌, ltb, pos, Bool, true, false, not, ◌||◌, Text, codes, List, [], ◌∷◌, ◌++◌,
  append_assoc, ap, ◌∙◌, map, Result, ok, err, none, some, ◌≡◌, refl, arith, sym,
}
use sitter.Json.{Key}
use sitter.Report.{Report}
use sitter.Report.Laws.{Issue}
use sitter.Report.Gives.{Gives-error}
use sitter.Report.Adds.{Gives, Adds, Adds-pure, Adds-bind, Adds-as, Adds-then, Adds-report}
use sitter.Action.{pure, lift, ◌>>=◌}
use sitter.Plugins.Log.Definition.{Stat, Host, Definition}
use sitter.Plugins.Log.Check.{
  check_answer, check_log, check_files, check_patterns, check_definition, check_definitions,
  on_process_watch, report_found, logs, not_found_message, size_message,
}
use sitter.Plugins.Log.Definition.{Config, load_definition, load}
use sitter.Plugins.Log.Definition.Fields.{load_definition-unset}
use sitter.Plugins.Log.Check.Problems.{
  raised, files_of, file_problems, exists, definition_problems, all_problems, answer_problems,
  is_answer, or_false, or_assoc, check_answer-Adds, access_problems, or_true,
}

module _ (host : Host) (def : Definition) (json : List Key) where
  check_files-Adds :
      (fs : List Text) (found : Bool) (r : Report)
      → Adds
          (check_files host def json fs found)
          r
          (found || exists host fs)
          (file_problems host def fs)
  unfolding check_files check_log
  check_files-Adds [] found r =
      Adds-as (pure found) r found (found || false) [] [] (or_false found) refl (Adds-pure found r)
  check_files-Adds (f ∷ fs) found r =
      let first = check_answer def json f found (host.stat f) in
      let here = found || is_answer (host.stat f) in
      let ps = answer_problems def f (host.stat f) in
      let qs = file_problems host def fs in
      Adds-as (first >>= check_files host def json fs) r (here || exists host fs)
        (found || (is_answer (host.stat f) || exists host fs)) (ps ++ qs) (ps ++ qs)
        (or_assoc found (is_answer (host.stat f)) (exists host fs)) refl
        (Adds-bind first (check_files host def json fs) r here (here || exists host fs) ps qs
          (check_answer-Adds def json f found (host.stat f) r)
          (check_files-Adds fs here (first r).0))

  exists-append : (fs gs : List Text) → exists host (fs ++ gs) ≡ (exists host fs || exists host gs)
  exists-append [] gs = refl
  exists-append (f ∷ fs) gs = ground (arith, exists-append fs gs)

  file_problems-append :
      (fs gs : List Text)
      → file_problems host def (fs ++ gs) ≡ file_problems host def fs ++ file_problems host def gs
  file_problems-append [] gs = refl
  file_problems-append (f ∷ fs) gs = rw (file_problems-append fs gs) (
      sym (
        append_assoc (answer_problems def f (host.stat f)) (file_problems host def fs)
          (file_problems host def gs)))

  check_patterns-Adds :
      (ps : List Text) (found : Bool) (r : Report)
      → Adds
          (check_patterns host def json ps found)
          r
          (found || exists host (files_of host def ps))
          (file_problems host def (files_of host def ps))
  unfolding check_patterns
  check_patterns-Adds [] found r =
      Adds-as (pure found) r found (found || false) [] [] (or_false found) refl (Adds-pure found r)
  check_patterns-Adds (p ∷ ps) found r =
      let fs = host.glob (def.path ++ codes "/" ++ p) in
      let gs = files_of host def ps in
      let here = found || exists host fs in
      let first = check_files host def json fs found in
      let rest = check_patterns host def json ps in
      let qs = file_problems host def fs ++ file_problems host def gs in
      Adds-as (first >>= rest) r (here || exists host gs) (found || exists host (fs ++ gs)) qs
        (file_problems host def (fs ++ gs))
        (or_assoc found (exists host fs) (exists host gs)
          ∙ ap (λ (b : Bool). found || b) (sym (exists-append fs gs)))
        (sym (file_problems-append fs gs))
        (Adds-bind first rest r here (here || exists host gs) (file_problems host def fs)
          (file_problems host def gs) (check_files-Adds fs found r)
          (check_patterns-Adds ps here (first r).0))

  check_definition-Adds :
      (r : Report) → Adds (check_definition host json def) r tt (definition_problems host def)
  unfolding check_definition report_found
  check_definition-Adds r =
      let fs = files_of host def def.patterns in
      let first = check_patterns host def json def.patterns false in
      Adds-bind first (report_found def json) r (exists host fs) tt (file_problems host def fs)
        (raised (not (exists host fs)) (not_found_message def, pos 85))
        (check_patterns-Adds def.patterns false r)
        (Adds-report (not (exists host fs)) json (codes "log") (not_found_message def) (pos 85)
          (first r).0 (omega arith, omega arith))

check_definitions-Adds :
    (host : Host) (json : List Key) (defs : List Definition) (r : Report)
    → Adds (check_definitions host json defs) r tt (all_problems host defs)
unfolding check_definitions
check_definitions-Adds host json [] r = Adds-pure tt r
check_definitions-Adds host json (def ∷ defs) r =
    Adds-then (check_definition host json def) (check_definitions host json defs) tt
      (definition_problems host def) (all_problems host defs) (check_definition-Adds host def json)
      (check_definitions-Adds host json defs) r

-- How a run ends and what it reports, by what `load` answers.
abbrev pub ending : Result (List Definition) → Result (Unit {0})
ending (err e) = err e
ending (ok defs) = ok tt

abbrev pub loaded_problems : Host → Result (List Definition) → List Issue
loaded_problems host (err e) = []
loaded_problems host (ok defs) = all_problems host defs

by_loaded :
    (host : Host) (loaded : Result (List Definition)) (r : Report)
    → Gives
        (lift loaded >>= check_definitions host logs)
        r
        (ending loaded)
        (loaded_problems host loaded)
by_loaded host (err e) r = Gives-error e r
by_loaded host (ok defs) r = check_definitions-Adds host logs defs r

-- A run of the log plugin throws exactly what the loading of the definitions throws, and reports nothing
-- then. Otherwise it adds exactly these errors, in this order and with these messages: for each
-- definition those of each of its files that exist, that is a size over the limit (73 over twice the
-- limit, else 58), another owner (63), another group (59) and other mode bits (64), and 85 where no
-- file exists. Whether the definition is secure or mandatory does not count.
pub on_process_watch-Reports :
    (host : Host) (confs : List Config) (r : Report)
    → Gives
        (on_process_watch host confs)
        r
        (ending (load host confs))
        (loaded_problems host (load host confs))
unfolding on_process_watch
on_process_watch-Reports host confs r = by_loaded host (load host confs) r

no_files :
    (host : Host) (def : Definition) (fs : List Text)
    → ((f : Text) → host.stat f ≡ none)
    → (exists host fs ≡ false) × (file_problems host def fs ≡ [])
no_files host def [] missing = (refl, refl)
no_files host def (f ∷ fs) missing = rw (missing f) (no_files host def fs missing)

-- Where no file exists at all, every definition adds one error of priority 85, whatever its "mandatory"
-- parameter says.
optional_logs_are_required :
    (host : Host) (defs : List Definition) (r : Report)
    → ((f : Text) → host.stat f ≡ none)
    → Adds
        (check_definitions host logs defs)
        r
        tt
        (map (λ def. (not_found_message def, pos 85)) defs)
optional_logs_are_required host defs r missing =
    Adds-as (check_definitions host logs defs) r tt tt (all_problems host defs)
      (map (λ def. (not_found_message def, pos 85)) defs) refl (every defs)
      (check_definitions-Adds host logs defs r)
  where
    every :
        (ds : List Definition)
        → all_problems host ds ≡ map (λ def. (not_found_message def, pos 85)) ds
    every [] = refl
    every (d ∷ ds) =
        let none_found = no_files host d (files_of host d d.patterns) missing in
        rw (none_found.0, none_found.1, every ds) refl

-- A definition loaded from a file without "max_size" allows no byte: any file that is not empty is
-- reported with priority 73, besides what is wrong with its owner, group and mode.
unset_size_allows_nothing :
    (host : Host) (conf : Config) (name f : Text) (def : Definition) (st : Stat)
    → conf.parameter (codes "max_size") ≡ none
    → load_definition host conf name ≡ ok def
    → host.stat f ≡ some st
    → 1 ≤ st.size
    → (json : List Key) (found : Bool) (r : Report)
    → Adds
        (check_log host def json f found)
        r
        true
        ((size_message def f st, pos 73) ∷ access_problems def f st)
unfolding check_log
unset_size_allows_nothing host conf name f def st missing loaded there bytes json found r =
    let none_allowed = load_definition-unset host conf name def missing loaded in
    let over : ltb def.max_size st.size ≡ true = rw none_allowed (ground arith) in
    let far_over : ltb (def.max_size * 2 % 2 ^ 64) st.size ≡ true =
      rw none_allowed (ground arith) in
    Adds-as (check_log host def json f found) r (found || is_answer (host.stat f)) true
      (answer_problems def f (host.stat f))
      ((size_message def f st, pos 73) ∷ access_problems def f st) (rw there (sym (or_true found)))
      (rw (there, over, far_over) refl) (check_answer-Adds def json f found (host.stat f) r)
