-- ===== src/Plugins/Flags/Reports.antt =====
-- The error that plugins/sitter_flags/flags.cpp reports.
use sitter.Base.{
  ℤ, pos, ◌+ℤ◌, ◌≤ℤ◌, ◌<ℤ◌, max_ℤ, ltb_ℤ, ◌≡◌, refl, ◌∙◌, ◌⊎◌, inl, inr, Bool-cases, true, Text,
  List, [], ◌∷◌, length, err, invalid_parameter, arith, ok, ap, codes, eq_of_parts, int_laws,
}
use sitter.Report.{Report}
use sitter.Report.Laws.{InRange, append_error-step}
use sitter.Report.Adds.{Adds, Adds-pure, Adds-write, Adds-bind, Adds-then, Adds-report, highest_of}
use sitter.Action.{write, ◌>>=◌}
use sitter.Plugins.Flags.{
  Flag, flag_item, add_name, add_flags, raised_message, report_flags, on_process_watch, flags_ref,
}

abbrev pub priorities : List Flag → List ℤ
priorities [] = []
priorities (f ∷ fs) = f.priority ∷ priorities fs

abbrev pub joined : Text → List Flag → Text
joined names [] = names
joined names (f ∷ fs) = joined (add_name names f.name) fs

add_flags-Adds :
    (fs : List Flag) (m : ℤ) (names : Text) (r : Report)
    → Adds (add_flags fs m names) r (highest_of m (priorities fs), joined names fs) []
unfolding add_flags
add_flags-Adds [] m names r = Adds-pure _ r
add_flags-Adds (f ∷ fs) m names r =
    Adds-then (write (flag_item f)) (add_flags fs (max_ℤ m f.priority) (add_name names f.name)) _ []
      [] (Adds-write (flag_item f)) (add_flags-Adds fs (max_ℤ m f.priority) (add_name names f.name))
      r

highest_of-above : (m : ℤ) (ps : List ℤ) → m ≤ℤ highest_of m ps
highest_of-above m [] = ground arith
highest_of-above m (p ∷ ps) = let later = highest_of-above (max_ℤ m p) ps in ground (arith, later)

plus_zero_one : (z : ℤ) → (z +ℤ pos 0) +ℤ pos 1 ≡ z +ℤ pos 1
plus_zero_one z = eq_of_parts ((z +ℤ pos 0) +ℤ pos 1) (z +ℤ pos 1) (omega int_laws)

too_high : (top : ℤ) → pos 0 ≤ℤ top → ¬ InRange top → pos 100 <ℤ top
too_high top low out = elim (Bool-cases (ltb_ℤ (pos 100) top)) [
  | inl above ↦ ground (arith, above)
  | inr below ↦ absurd (out (low, ground (arith, below)))
]

-- No flag raised reports nothing. Otherwise one error is reported, with the highest priority of the
-- flags, but 5 at least; when that is above 100 it is counted and its call throws.
pub flags-Report :
    (f : Flag) (fs : List Flag) (r : Report)
    → let top = highest_of (pos 5) (priorities (f ∷ fs)) in
      (on_process_watch [] r ≡ (r, ok tt))
      × ((InRange top
            × Adds
                (on_process_watch (f ∷ fs))
                r
                tt
                ((raised_message (length (f ∷ fs)) (joined [] (f ∷ fs)), top) ∷ []))
          ⊎ ((pos 100 <ℤ top)
              × ((on_process_watch (f ∷ fs) r).1 ≡ err invalid_parameter)
              × ((on_process_watch (f ∷ fs) r).0.error_count ≡ r.error_count +ℤ pos 1)))
unfolding on_process_watch report_flags
flags-Report f fs r =
    let top = highest_of (pos 5) (priorities (f ∷ fs)) in
    let names = joined [] (f ∷ fs) in
    let (added, count, highest, issues) = add_flags-Adds (f ∷ fs) (pos 5) [] r in
    let r1 = (add_flags (f ∷ fs) (pos 5) [] r).0 in
    let message = raised_message (length (f ∷ fs)) names in
    let (one_more, highest', doc, listed, result) =
      append_error-step flags_ref (codes "flags") message top r1 in
    (
      refl,
      elim result [
        | inl (range, done) ↦ inl (
          range,
          Adds-bind (add_flags (f ∷ fs) (pos 5) []) (report_flags (length (f ∷ fs))) r (top, names)
              tt [] ((message, top) ∷ []) (added, count, highest, issues)
              (Adds-report true flags_ref (codes "flags") message top r1 range),
        )
        | inr (out, thrown) ↦
            let above = highest_of-above (pos 5) (priorities (f ∷ fs)) in
            inr (
              too_high top (ground (arith, above)) out,
              rw (◌>>=◌, added) thrown,
              rw (◌>>=◌, added)
                  (one_more ∙ ap (λ z. z +ℤ pos 1) count ∙ plus_zero_one r.error_count),
            )
      ],
    )
