-- ===== src/Action.antt =====
-- What a plugin does on its report: state passing with exceptions. What was written before a throw
-- stays written.
use sitter.Base.{Bool, if◌then◌else◌, Result, ok, err, Error, ◌++◌}
use sitter.Json.{Doc}
use sitter.Report.{Report}

abbrev pub Action : Type 0 → Type 0
Action A = Report → Report × Result A

module _ {A : Type 0} where
  abbrev pub pure : A → Action A
  pure a r = (r, ok a)

  abbrev pub throw : Error → Action A
  throw e r = (r, err e)

  -- A value or an exception of a pure function.
  abbrev pub lift : Result A → Action A
  lift m r = (r, m)

infixl 5 ◌>>=◌ ◌>>◌
abbrev pub ◌>>=◌ : {A B : Type 0} → Action A → (A → Action B) → Action B
◌>>=◌ m f r = let (r', a) = m r in elim a [ ok a ↦ f a r' | err e ↦ (r', err e) ]

abbrev pub ◌>>◌ : {B : Type 0} → Action (Unit {0}) → Action B → Action B
m >> k = m >>= λ _. k

-- Calls on the document.
abbrev pub write : Doc → Action (Unit {0})
write calls r = (record r { doc = r.doc ++ calls }, ok tt)

abbrev pub when : Bool → Action (Unit {0}) → Action (Unit {0})
when c m r = if c then m r else (r, ok tt)
