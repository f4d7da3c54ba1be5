-- ===== src/Double/Laws.antt =====
-- What the plugins under plugins/ rely on where they compare sizes as `double` values, and an instance.
use sitter.Base.{
  ℕ, ◌*◌, ◌^◌, ◌<◌, ◌≤◌, ◌≡◌, ℤ, pos, ltb, ltb_ℤ, leb_ℤ, ◌*ℤ◌, ◌-ℤ◌, Bool, false, ◌&&◌, [],
  pos_part, arith,
}
use sitter.Double.{Double}

-- The integers of at most 53 bits are exact, and so are their products of that size; a quotient of sizes
-- below 2 ^ 48 falls on the right side of a literal with few digits; a quotient by zero is no number or
-- infinite.
pub record IsExact {ℓ} (D : Type ℓ) ⦃d : Double D⦄ : Type ℓ where
  pub mul-of_int :
      (a b : ℕ)
      → a * b ≤ 2 ^ 53
      → d.mul (d.of_int (pos a)) (d.of_int (pos b)) ≡ d.of_int (pos (a * b))
  pub lt-of_int : (a b : ℕ) → a < 2 ^ 53 → d.lt (d.of_int (pos a)) (d.of_int (pos b)) ≡ ltb a b
  pub lt-div :
      (a b n : ℕ)
      → a < 2 ^ 48
      → b < 2 ^ 48
      → n < 10
      → 0 < b
      → d.lt (d.div (d.of_int (pos a)) (d.of_int (pos b))) (d.decimal n 1) ≡ ltb (a * 10) (n * b)
  pub lt-div-zero :
      (a n : ℕ) → d.lt (d.div (d.of_int (pos a)) (d.of_int (pos 0))) (d.decimal n 1) ≡ false

-- The laws can be met: fractions, where a denominator of zero stands for every value that is no number.
pub record Fraction : Type 0 where
  num : ℤ
  den : ℕ

abbrev has_value : ℕ → ℕ → Bool
has_value a b = ltb 0 a && ltb 0 b

instance abbrev pub fraction_double : Double Fraction
fraction_double = record {
  of_int = λ z. record { num = z; den = 1 };
  decimal = λ n k. record { num = pos n; den = 10 ^ k };
  mul = λ x y. record { num = x.num *ℤ y.num; den = x.den * y.den };
  sub = λ x y. record { num = x.num *ℤ pos y.den -ℤ y.num *ℤ pos x.den; den = x.den * y.den };
  div = λ x y. record { num = x.num *ℤ pos y.den; den = x.den * pos_part y.num };
  lt = λ x y. has_value x.den y.den && ltb_ℤ (x.num *ℤ pos y.den) (y.num *ℤ pos x.den);
  le = λ x y. has_value x.den y.den && leb_ℤ (x.num *ℤ pos y.den) (y.num *ℤ pos x.den);
  show = λ x. [];
}

pub Fraction-IsExact : IsExact Fraction
unfolding ◌*ℤ◌
Fraction-IsExact = record {
  mul-of_int = λ a b h. grind arith;
  lt-of_int = λ a b h. grind arith;
  lt-div = λ a b n ha hb hn hz. grind arith;
  lt-div-zero = λ a n. grind arith;
}
