-- ===== src/Plugins/CacheFile/Since.antt =====
-- The file of plugins/sitter_cpu/cpu.cpp and plugins/sitter_reboot/reboot.cpp against what it stands for:
-- the time since which the condition of the plugin holds.
use sitter.Base.{
  ◌≡◌, refl, ℤ, pos, Bool, true, false, if◌then◌else◌, Text, codes, to_string, is_empty, List, [],
  ◌∷◌, ◌++◌, Option, none, some, Result, subst, sym, ◌∙◌,
}
use sitter.Env.{Env}
use sitter.Report.{Report}
use sitter.Report.Laws.{Issue}
use sitter.Report.Adds.{Adds}
use sitter.Server.{Server, get_cache_path}
use sitter.Plugins.CacheFile.{State, asked_path, remember}

-- The abstract view: the time of the first of the latest runs in a row that saw the condition.
abbrev pub since_next : Bool → ℤ → Option ℤ → Option ℤ
since_next holds now since =
    if holds then elim since [ none ↦ some now | some t ↦ some t ] else none

-- The file says the same: it is not there, or its contents are read as the time.
abbrev pub Says : Env → Option ℤ → Option Text → Type 0
Says env none file = file ≡ none
Says env (some t) file =
    (text : Text) × (file ≡ some text) × (env.convert_integer text (pos 0) ≡ (true, t))

abbrev pub ReadsBack : Env → ℤ → Type 0
ReadsBack env t = env.convert_integer (to_string t) (pos 0) ≡ (true, t)

pub remember-Says :
    (env : Env) (now : ℤ) (since : Option ℤ) (file : Option Text)
    → ReadsBack env now
    → Says env since file
    → Says env (since_next true now since) (remember true now file)
unfolding remember
remember-Says env now none file back absent = rw absent (to_string now, refl, back)
remember-Says env now (some t) file back (text, there, read) = rw there (text, refl, read)

-- The path of a file once the directory of the cache is known.
abbrev pub path_in : Server → Text → Text
path_in server filename = server.cache_path ++ codes "/" ++ filename

pub asked_path-known :
    (mkdir_p : Text → ℤ) (env : Env) (filename : Text) (s : State)
    → is_empty s.server.cache_path ≡ false
    → asked_path mkdir_p env filename s ≡ (s, path_in s.server filename)
unfolding asked_path get_cache_path
asked_path-known mkdir_p env filename s known = rw known refl

-- The run throws nothing and reports these errors, in order.
abbrev pub Reports : State × Result (Unit {0}) → Report → List Issue → Type 0
Reports outcome r ps = Adds (λ _. (outcome.0.server.report, outcome.1)) r tt ps

-- A plugin with such a file: a run, whether the condition holds, the time, and the errors that the run
-- is to report, given since when the condition holds.
pub record Watcher (H : Type 0) : Type 0 where
  pub run : H → State → State × Result (Unit {0})
  pub holds : H → Bool
  pub now : H → ℤ
  pub problems : H → Option ℤ → List Issue

-- The directory of the cache is known, and the file says since when the condition holds.
abbrev pub Knows : Env → Text → Option ℤ → State → Type 0
Knows env filename since s =
    (is_empty s.server.cache_path ≡ false) × Says env since (s.files (path_in s.server filename))

-- After a run the path is as it was, the view has moved on, and the errors are those of the view.
abbrev pub Goes :
    Env → Text → Bool → ℤ → List Issue → Option ℤ → State → State × Result (Unit {0}) → Type 0
Goes env filename holds now problems since s outcome =
    Knows env filename (since_next holds now since) outcome.0
    × (outcome.0.server.cache_path ≡ s.server.cache_path)
    × Reports outcome s.server.report problems

-- A run from such a state goes so, if it is usual: the hypotheses on what the plugin calls.
abbrev pub Remembers : {H : Type 0} → Env → Text → Watcher H → (Text → H → Type 0) → Type 0
Remembers {H} env filename w IsUsual =
    (host : H) (since : Option ℤ) (s : State)
    → IsUsual (path_in s.server filename) host
    → Knows env filename since s
    → Goes env filename (w.holds host) (w.now host) (w.problems host since) since s (w.run host s)

-- The plugin run once for each host, whatever the runs answer.
abbrev pub runs : {H : Type 0} → Watcher H → List H → State → State
runs w [] s = s
runs w (host ∷ hosts) s = runs w hosts (w.run host s).0

abbrev pub since_after : {H : Type 0} → Watcher H → List H → Option ℤ → Option ℤ
since_after w [] since = since
since_after w (host ∷ hosts) since =
    since_after w hosts (since_next (w.holds host) (w.now host) since)

abbrev pub AllUsual : {H : Type 0} → (Text → H → Type 0) → Text → List H → Type 0
AllUsual IsUsual path [] = Unit {0}
AllUsual IsUsual path (host ∷ hosts) = IsUsual path host × AllUsual IsUsual path hosts

module _ {H : Type 0} (env : Env) (filename : Text) (w : Watcher H) (IsUsual : Text → H → Type 0)
    (remembers : Remembers env filename w IsUsual) where
  runs-Knows :
      (hosts : List H) (since : Option ℤ) (s : State)
      → AllUsual IsUsual (path_in s.server filename) hosts
      → Knows env filename since s
      → Knows env filename (since_after w hosts since) (runs w hosts s)
        × ((runs w hosts s).server.cache_path ≡ s.server.cache_path)
  runs-Knows [] since s usual knows = (knows, refl)
  runs-Knows (host ∷ hosts) since s (usual, all_usual) knows =
      let (next, path, _) = remembers host since s usual knows in
      let (last, path') =
        runs-Knows hosts (since_next (w.holds host) (w.now host) since) (w.run host s).0
          (subst (λ p. AllUsual IsUsual (p ++ codes "/" ++ filename) hosts) (sym path) all_usual)
          next in
      (last, path' ∙ path)

  -- After any number of usual runs, the next usual run goes as the view says.
  pub runs-Go :
      (hosts : List H) (host : H) (since : Option ℤ) (s : State)
      → AllUsual IsUsual (path_in s.server filename) (host ∷ hosts)
      → Knows env filename since s
      → let before = runs w hosts s in
        let held = since_after w hosts since in
        Goes env filename
          (w.holds host)
          (w.now host)
          (w.problems host held)
          held
          before
          (w.run host before)
  runs-Go hosts host since s (usual, all_usual) knows =
      let (now, path) = runs-Knows hosts since s all_usual knows in
      remembers host (since_after w hosts since) (runs w hosts s)
        (subst (λ p. IsUsual (p ++ codes "/" ++ filename) host) (sym path) usual) now
