-- ===== src/Report/Laws.antt =====
-- The counters of sitter/sitter.cpp after any sequence of errors, and the severities.
use sitter.Base.{
  ℕ, ◌≤◌, ◌≡◌, refl, ℤ, pos, ◌+ℤ◌, ◌≤ℤ◌, max_ℤ, leb_ℤ, if◌then◌else◌, ◌&&◌, ◌↔◌, Text, List, [],
  ◌∷◌, ◌++◌, length, append_assoc, append-nil, arith, int_laws, ok, err, invalid_parameter, ◌⊎◌,
  map,
}
use mathlib.Core.List.{map-append}
use sitter.Json.{Key, Doc}
use sitter.Report.{
  Severity, important, minor, warning, major, error, severe, LogEntry, Report, severity_for,
  error_item, append_error,
}

-- One call of `append_error`.
pub record Finding : Type 0 where
  pub ref : List Key
  pub plugin_name : Text
  pub message : Text
  pub priority : ℤ

-- An error as the report has it: its message and its priority.
abbrev pub Issue : Type 0
Issue = Text × ℤ

abbrev issue_of : LogEntry → Issue
issue_of entry = (entry.message, entry.priority)

-- The errors of a run so far, oldest first.
abbrev pub issues_of : List LogEntry → List Issue
issues_of entries = map issue_of entries

-- The calls that the plugins of one run make, none of which throws past its plugin.
abbrev pub append_all : List Finding → Report → Report
append_all [] r = r
append_all (f ∷ fs) r = append_all fs (append_error f.ref f.plugin_name f.message f.priority r).0

abbrev pub highest : ℤ → List Finding → ℤ
highest m [] = m
highest m (f ∷ fs) = highest (max_ℤ m f.priority) fs

abbrev pub InRange : ℤ → Type 0
InRange priority = (pos 0 ≤ℤ priority) × (priority ≤ℤ pos 100)

-- The part of the document that the errors with a priority in range write.
abbrev pub items : List Finding → Doc
items [] = []
items (f ∷ fs) =
    (if leb_ℤ (pos 0) f.priority && leb_ℤ f.priority (pos 100)
      then error_item f.ref f.plugin_name f.message f.priority
      else [])
    ++ items fs

pub append_error-step :
    (ref : List Key) (plugin_name message : Text) (priority : ℤ) (r : Report)
    → let (r', result) = append_error ref plugin_name message priority r in
      (r'.error_count ≡ r.error_count +ℤ pos 1)
      × (r'.max_error_priority ≡ max_ℤ r.max_error_priority priority)
      × (r'.doc
          ≡ r.doc
            ++ (if leb_ℤ (pos 0) priority && leb_ℤ priority (pos 100)
                then error_item ref plugin_name message priority
                else []))
      × (issues_of r'.log ≡ issues_of r.log ++ (message, priority) ∷ [])
      × ((InRange priority × (result ≡ ok tt))
          ⊎ ((¬ InRange priority) × (result ≡ err invalid_parameter)))
unfolding append_error
append_error-step ref plugin_name message priority r =
    let entry : LogEntry = record {
      severity = severity_for priority;
      plugin_name = plugin_name;
      message = message;
      priority = priority;
    } in
    ground (arith, append-nil r.doc, map-append issue_of r.log (entry ∷ []))

-- After any sequence of errors the count has grown by their number, throwing ones included, the maximum
-- is the highest priority seen, and the document has gained the items of those in range, in order.
pub append_all-counts :
    (fs : List Finding) (r : Report)
    → let r' = append_all fs r in
      (r'.error_count ≡ r.error_count +ℤ pos (length fs))
      × (r'.max_error_priority ≡ highest r.max_error_priority fs)
      × (r'.doc ≡ r.doc ++ items fs)
append_all-counts [] r = (omega int_laws, refl, simp append-nil)
append_all-counts (f ∷ fs) r =
    let (counted, max, doc, _, _) = append_error-step f.ref f.plugin_name f.message f.priority r in
    let r' = (append_error f.ref f.plugin_name f.message f.priority r).0 in
    let (counts, highest_is, items_are) = append_all-counts fs r' in
    (rw (counts, counted) (omega int_laws), rw (highest_is, max), rw (items_are, doc, append_assoc))

-- `append_error` throws exactly when the priority lies outside 0 to 100, and then it has already
-- counted the error and raised the maximum.
append_error_throws :
    (ref : List Key) (plugin_name message : Text) (priority : ℤ) (r : Report)
    → let (r', result) = append_error ref plugin_name message priority r in
      ((result ≡ err invalid_parameter) ↔ (¬ InRange priority))
      × (r'.error_count ≡ r.error_count +ℤ pos 1)
      × (r.max_error_priority ≤ℤ r'.max_error_priority)
      × (priority ≤ℤ r'.max_error_priority)
unfolding append_error
append_error_throws ref plugin_name message priority r =
    ground (arith, append_error-step ref plugin_name message priority r)

abbrev rank : Severity → ℕ
rank important = 0
rank minor = 1
rank warning = 2
rank major = 3
rank error = 4
rank severe = 5

-- A higher priority is never logged with a lower severity.
severity_for_mono : (p q : ℤ) → p ≤ℤ q → rank (severity_for p) ≤ rank (severity_for q)
unfolding severity_for
severity_for_mono p q h = ground arith
