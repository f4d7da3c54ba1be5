-- ===== src/StdMap/Laws.antt =====
-- The laws of the maps with text keys.
use sitter.Base.{
  ◌≡◌, refl, true, false, if◌then◌else◌, Text, text_eq, text_eq_iff, List, [], ◌∷◌, ◌++◌, all, some,
  arith,
}
use sitter.StdMap.{text_ltb, map_get, map_set, is_ordered}

text_ltb_asym : (s t : Text) → text_ltb s t ≡ true → (text_eq t s ≡ false) × (text_ltb t s ≡ false)
unfolding text_ltb text_eq
text_ltb_asym [] [] h = cc
text_ltb_asym [] (y ∷ ys) h = (refl, refl)
text_ltb_asym (x ∷ xs) [] h = cc
text_ltb_asym (x ∷ xs) (y ∷ ys) h = ground (arith, text_ltb_asym xs ys)

text_ltb_trans : (s t u : Text) → text_ltb s t ≡ true → text_ltb t u ≡ true → text_ltb s u ≡ true
unfolding text_ltb
text_ltb_trans [] [] u h k = cc
text_ltb_trans [] (y ∷ ys) [] h k = cc
text_ltb_trans [] (y ∷ ys) (z ∷ zs) h k = refl
text_ltb_trans (x ∷ xs) [] u h k = cc
text_ltb_trans (x ∷ xs) (y ∷ ys) [] h k = cc
text_ltb_trans (x ∷ xs) (y ∷ ys) (z ∷ zs) h k = ground (arith, text_ltb_trans xs ys zs)

-- Two texts are equal or one is before the other.
text_ltb_total : (s t : Text) → text_eq s t ≡ false → text_ltb s t ≡ false → text_ltb t s ≡ true
unfolding text_ltb text_eq
text_ltb_total [] [] e h = cc
text_ltb_total [] (y ∷ ys) e h = cc
text_ltb_total (x ∷ xs) [] e h = refl
text_ltb_total (x ∷ xs) (y ∷ ys) e h = ground (arith, text_ltb_total xs ys)

module _ {ℓ} {V : Type ℓ} where
  pub map_get-map_set :
      (j k : Text) (v : V) (m : List (Text × V))
      → map_get j (map_set k v m) ≡ (if text_eq j k then some v else map_get j m)
  unfolding map_get map_set
  map_get-map_set j k v [] = refl
  map_get-map_set j k v ((i, w) ∷ m) =
      ground (arith, map_get-map_set j k v m, text_eq_iff j k, text_eq_iff k i, text_eq_iff j i)

  -- A key after all others is appended.
  pub map_set-last :
      (k : Text) (v : V) (m : List (Text × V))
      → all (λ entry. text_ltb entry.0 k) m ≡ true
      → map_set k v m ≡ m ++ (k, v) ∷ []
  unfolding map_set
  map_set-last k v [] h = refl
  map_set-last k v ((i, w) ∷ m) h = ground (arith, map_set-last k v m, text_ltb_asym i k)

  map_set-after :
      (i k : Text) (v : V) (m : List (Text × V))
      → text_ltb i k ≡ true
      → all (λ entry. text_ltb i entry.0) m ≡ true
      → all (λ entry. text_ltb i entry.0) (map_set k v m) ≡ true
  unfolding map_set
  map_set-after i k v [] less h = ground arith
  map_set-after i k v ((j, w) ∷ m) less h = ground (arith, map_set-after i k v m)

  all_after :
      (i k : Text) (m : List (Text × V))
      → text_ltb i k ≡ true
      → all (λ entry. text_ltb k entry.0) m ≡ true
      → all (λ entry. text_ltb i entry.0) m ≡ true
  all_after i k [] less h = refl
  all_after i k ((j, w) ∷ m) less h = ground (arith, all_after i k m, text_ltb_trans i k j)

  pub map_set-is_ordered :
      (k : Text) (v : V) (m : List (Text × V))
      → is_ordered m ≡ true
      → is_ordered (map_set k v m) ≡ true
  unfolding map_set
  map_set-is_ordered k v [] h = refl
  map_set-is_ordered k v ((i, w) ∷ m) h = ground (
    arith,
    map_set-is_ordered k v m,
    map_set-after i k v m,
    all_after k i m,
    text_eq_iff k i,
    text_ltb_total k i,
  )
