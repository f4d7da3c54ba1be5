-- ===== src/Double.antt =====
-- What the plugins under plugins/ do with a `double`: the operations, each a parameter, since their
-- rounding is the compiler's and the processor's.
pub mod Laws
use sitter.Base.{ℕ, ℤ, Bool, Text}

pub record Double {ℓ} (D : Type ℓ) : Type ℓ where
  -- the conversion of an integer
  pub of_int : ℤ → D
  -- the literal of the decimal number n / 10 ^ k
  pub decimal : ℕ → ℕ → D
  pub mul : D → D → D
  pub sub : D → D → D
  pub div : D → D → D
  -- `<` and `<=`; a comparison with NaN is false
  pub lt : D → D → Bool
  pub le : D → D → Bool
  -- `std::to_string`
  pub show : D → Text
