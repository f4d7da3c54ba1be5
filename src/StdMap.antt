-- ===== src/StdMap.antt =====
-- `std::map` with text keys and `std::set` of texts: lists in the order of the keys, byte by byte.
pub mod Laws
use sitter.Base.{
  Bool, true, false, ◌&&◌, if◌then◌else◌, ltb, ◌==◌, Text, text_eq, List, [], ◌∷◌, all, Option,
  none, some,
}

-- `operator <` on two texts.
unfoldable pub text_ltb : Text → Text → Bool
text_ltb [] [] = false
text_ltb [] (y ∷ ys) = true
text_ltb (x ∷ xs) [] = false
text_ltb (x ∷ xs) (y ∷ ys) = if x == y then text_ltb xs ys else ltb x y

module _ {ℓ} {V : Type ℓ} where
  -- `m.find(key)`
  unfoldable pub map_get : Text → List (Text × V) → Option V
  map_get key [] = none
  map_get key ((k, v) ∷ m) = if text_eq key k then some v else map_get key m

  -- `m[key] = value`
  unfoldable pub map_set : Text → V → List (Text × V) → List (Text × V)
  map_set key value [] = (key, value) ∷ []
  map_set key value ((k, v) ∷ m) =
      let later = map_set key value m in
      if text_eq key k
      then (key, value) ∷ m
      else if text_ltb key k
      then (key, value) ∷ (k, v) ∷ m
      else (k, v) ∷ later

  -- The keys stand in order, and none twice.
  abbrev pub is_ordered : List (Text × V) → Bool
  is_ordered [] = true
  is_ordered ((k, v) ∷ m) = all (λ entry. text_ltb k entry.0) m && is_ordered m

-- `s.insert(text)`
unfoldable pub set_insert : Text → List Text → List Text
set_insert t [] = t ∷ []
set_insert t (s ∷ rest) =
    let later = set_insert t rest in
    if text_eq t s then s ∷ rest else if text_ltb t s then t ∷ s ∷ rest else s ∷ later
