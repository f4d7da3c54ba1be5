-- ===== src/Report/Adds.antt =====
-- What an action adds to the errors of a run: the messages and the priorities that it reports, in
-- order, and how it ends.
use sitter.Base.{
  ℕ, ℤ, pos, ◌+ℤ◌, max_ℤ, ◌≡◌, refl, Bool, true, false, if◌then◌else◌, Text, List, [], ◌∷◌, ◌++◌,
  length, length-append, append_assoc, append-nil, sym, map, Result, ok, int_laws, subst,
  eq_of_parts, ◌+◌, ◌∙◌, inl, inr,
}
use mathlib.Core.List.{map-append}
use sitter.Json.{Key, Doc}
use sitter.Report.{Report, append_error}
use sitter.Report.Laws.{InRange, Issue, issues_of, append_error-step}
use sitter.Action.{Action, pure, ◌>>=◌, ◌>>◌, write, when}

abbrev pub highest_of : ℤ → List ℤ → ℤ
highest_of m [] = m
highest_of m (p ∷ ps) = highest_of (max_ℤ m p) ps

abbrev level_of : Issue → ℤ
level_of issue = issue.1

-- From `r`, the action ends with the result and adds these errors to those of the run, in this order;
-- the count grows by their number and the maximum takes their priorities in.
abbrev pub Gives : {A : Type 0} → Action A → Report → Result A → List Issue → Type 0
Gives m r result ps =
    let (r', a) = m r in
    (a ≡ result)
    × (r'.error_count ≡ r.error_count +ℤ pos (length ps))
    × (r'.max_error_priority ≡ highest_of r.max_error_priority (map level_of ps))
    × (issues_of r'.log ≡ issues_of r.log ++ ps)

-- It answers `a` without a throw.
abbrev pub Adds : {A : Type 0} → Action A → Report → A → List Issue → Type 0
Adds m r a ps = Gives m r (ok a) ps

highest_of-append :
    (m : ℤ) (ps qs : List ℤ) → highest_of m (ps ++ qs) ≡ highest_of (highest_of m ps) qs
highest_of-append m [] qs = refl
highest_of-append m (p ∷ ps) qs = highest_of-append (max_ℤ m p) ps qs

+ℤ_pos_assoc : (z : ℤ) (m n : ℕ) → (z +ℤ pos m) +ℤ pos n ≡ z +ℤ pos (m + n)
+ℤ_pos_assoc z m n = eq_of_parts ((z +ℤ pos m) +ℤ pos n) (z +ℤ pos (m + n)) (omega int_laws)

+ℤ_zero : (z : ℤ) → z ≡ z +ℤ pos 0
+ℤ_zero z = eq_of_parts z (z +ℤ pos 0) (omega int_laws)

pub Adds-pure : {A : Type 0} (a : A) (r : Report) → Adds (pure a) r a []
Adds-pure a r = (refl, +ℤ_zero r.error_count, refl, sym (append-nil (issues_of r.log)))

pub Adds-write : (calls : Doc) (r : Report) → Adds (write calls) r tt []
Adds-write calls r = (refl, +ℤ_zero r.error_count, refl, sym (append-nil (issues_of r.log)))

pub Gives-bind :
    {A B : Type 0} (m : Action A) (f : A → Action B) (r : Report) (a : A) (result : Result B)
    (ps qs : List Issue)
    → Adds m r a ps
    → Gives (f a) (m r).0 result qs
    → Gives (m >>= f) r result (ps ++ qs)
Gives-bind m f r a result ps qs (ea, ca, ma, la) h =
    rw (◌>>=◌, ea)
      (
        h.0,
        h.1 ∙ rw (ca, length-append ps qs) (+ℤ_pos_assoc r.error_count (length ps) (length qs)),
        h.2
            ∙ rw
                (
                  ma,
                  map-append level_of ps qs,
                  highest_of-append r.max_error_priority (map level_of ps) (map level_of qs),
                )
                refl,
        h.3 ∙ rw la (append_assoc (issues_of r.log) ps qs),
      )

pub Adds-bind :
    {A B : Type 0} (m : Action A) (f : A → Action B) (r : Report) (a : A) (b : B)
    (ps qs : List Issue)
    → Adds m r a ps
    → Adds (f a) (m r).0 b qs
    → Adds (m >>= f) r b (ps ++ qs)
Adds-bind m f r a b ps qs = Gives-bind m f r a (ok b) ps qs

pub Adds-report :
    (c : Bool) (ref : List Key) (name message : Text) (priority : ℤ) (r : Report)
    → InRange priority
    → Adds
        (when c (append_error ref name message priority))
        r
        tt
        (if c then (message, priority) ∷ [] else [])
Adds-report true ref name message priority r range =
    let (count, highest, doc, issues, result) = append_error-step ref name message priority r in
    (elim result [ inl done ↦ done.1 | inr bad ↦ absurd (bad.0 range) ], count, highest, issues)
Adds-report false ref name message priority r range = Adds-pure tt r

pub Adds-then :
    {B : Type 0} (m : Action (Unit {0})) (k : Action B) (b : B) (ps qs : List Issue)
    → ((r : Report) → Adds m r tt ps)
    → ((r : Report) → Adds k r b qs)
    → (r : Report) → Adds (m >> k) r b (ps ++ qs)
Adds-then m k b ps qs first second r = Adds-bind m (λ _. k) r tt b ps qs (first r) (second (m r).0)

pub Adds-as :
    {A : Type 0} (m : Action A) (r : Report) (a b : A) (ps qs : List Issue)
    → a ≡ b
    → ps ≡ qs
    → Adds m r a ps
    → Adds m r b qs
Adds-as {A = A} m r a b ps qs same list h =
    subst (λ (x : A). Adds m r x qs) same (subst (λ (xs : List Issue). Adds m r a xs) list h)
