-- ===== src/Report/Gives.antt =====
-- The errors that a loop reports when each of its steps may throw.
use sitter.Base.{refl, List, [], ◌∷◌, Result, ok, err, Error}
use sitter.Report.{Report}
use sitter.Report.Laws.{Issue}
use sitter.Report.Adds.{Gives, Gives-bind, Adds-pure}
use sitter.Action.{Action, throw, ◌>>=◌, ◌>>◌}

-- What throws ends the block.
Gives-throw :
    {A B : Type 0} (m : Action A) (f : A → Action B) (r : Report) (e : Error) (ps : List Issue)
    → Gives m r (err e) ps
    → Gives (m >>= f) r (err e) ps
Gives-throw m f r e ps (thrown, count, highest, issues) =
    rw (◌>>=◌, thrown) (refl, count, highest, issues)

pub Gives-error : (e : Error) (r : Report) → Gives {A = Unit {0}} (throw e) r (err e) []
Gives-error e r =
    let (done, count, highest, issues) = Adds-pure tt r in (refl, count, highest, issues)

-- How one step of a loop ends: with no error, with one, or with an exception.
pub data Verdict : Type 0 where
  quiet : Verdict
  reports : Issue → Verdict
  throws : Error → Verdict

abbrev pub ending : Verdict → Result (Unit {0})
ending quiet = ok tt
ending (reports p) = ok tt
ending (throws e) = err e

abbrev pub reported : Verdict → List Issue
reported quiet = []
reported (reports p) = p ∷ []
reported (throws e) = []

-- The loop goes on unless the step threw.
abbrev pub ending_then : Verdict → Result (Unit {0}) → Result (Unit {0})
ending_then quiet rest = rest
ending_then (reports p) rest = rest
ending_then (throws e) rest = err e

abbrev pub reported_then : Verdict → List Issue → List Issue
reported_then quiet rest = rest
reported_then (reports p) rest = p ∷ rest
reported_then (throws e) rest = []

pub Gives-step :
    (v : Verdict) (m k : Action (Unit {0})) (r : Report) (result : Result (Unit {0}))
    (qs : List Issue)
    → Gives m r (ending v) (reported v)
    → ((q : Report) → Gives k q result qs)
    → Gives (m >> k) r (ending_then v result) (reported_then v qs)
Gives-step quiet m k r result qs step rest =
    Gives-bind m (λ _. k) r tt result [] qs step (rest (m r).0)
Gives-step (reports p) m k r result qs step rest =
    Gives-bind m (λ _. k) r tt result (p ∷ []) qs step (rest (m r).0)
Gives-step (throws e) m k r result qs step rest = Gives-throw m (λ _. k) r e [] step
