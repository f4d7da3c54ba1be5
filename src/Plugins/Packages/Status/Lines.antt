-- ===== src/Plugins/Packages/Status/Lines.antt =====
-- The loop over the cache file of plugins/sitter_packages/packages.cpp.
use sitter.Base.{
  ℕ, suc, ◌<◌, ◌≤◌, ◌≡◌, refl, Bool, if◌then◌else◌, ◌==◌, Text, length, List, [], ◌∷◌, Option, none,
  some, arith, subst, zero, Bool-cases, Option-cases, inl, inr,
}
use sitter.Plugins.Packages.Status.{cut, add_line, load_lines, load_content}

-- The lines of a text, with the one after its last end of line.
abbrev first_to : ℕ → List Text → List Text
first_to c [] = (c ∷ []) ∷ []
first_to c (line ∷ lines) = (c ∷ line) ∷ lines

abbrev pub lines : Text → List Text
lines [] = [] ∷ []
lines (c ∷ cs) = if c == b'\n' then [] ∷ lines cs else first_to c (lines cs)

abbrev pub add_lines : List Text → List (Text × Bool) → List (Text × Bool)
add_lines [] m = m
add_lines (line ∷ lines) m = add_lines lines (add_line line m)

-- The lines by the first cut.
abbrev lines_after : Text → Option Text → List Text
lines_after line none = line ∷ []
lines_after line (some rest) = line ∷ lines rest

first_to-after :
    (c : ℕ) (line : Text) (rest : Option Text)
    → first_to c (lines_after line rest) ≡ lines_after (c ∷ line) rest
first_to-after c line none = refl
first_to-after c line (some rest) = refl

lines-cut :
    (content : Text) → lines content ≡ lines_after (cut b'\n' content).0 (cut b'\n' content).1
unfolding cut
lines-cut [] = refl
lines-cut (c ∷ cs) = elim (Bool-cases (c == b'\n')) [
  | inl end ↦ rw end refl
  | inr inside ↦ rw (inside, lines-cut cs) (first_to-after c (cut b'\n' cs).0 (cut b'\n' cs).1)
]

-- What is left is shorter.
abbrev rest_length : Option Text → ℕ
rest_length none = 0
rest_length (some rest) = suc (length rest)

rest_length-cut :
    (separator : ℕ) (content : Text) → rest_length (cut separator content).1 ≤ length content
unfolding cut
rest_length-cut separator [] = omega arith
rest_length-cut separator (c ∷ cs) = elim (Bool-cases (c == separator)) [
  | inl end ↦ rw end (omega arith)
  | inr inside ↦ rw inside (omega (arith, rest_length-cut separator cs))
]

-- One more turn than there are characters is enough for the loop to end, and then every line was
-- added, in order.
pub load_lines-lines :
    (fuel : ℕ) (content : Text) (m : List (Text × Bool))
    → length content < fuel
    → load_lines fuel content m ≡ some (add_lines (lines content) m)
unfolding load_lines
load_lines-lines zero content m enough = absurd (omega arith)
load_lines-lines (suc fuel) content m enough =
    rw (lines-cut content) (elim (Option-cases (cut b'\n' content).1) [
      | inl last ↦ rw (load_lines, last) refl
      | inr (rest, more) ↦
          rw (load_lines, more)
            (load_lines-lines fuel rest (add_line (cut b'\n' content).0 m) (
              omega (
                arith,
                subst (λ o. rest_length o ≤ length content) more (rest_length-cut b'\n' content),
              )))
    ])

-- The whole file is read, whatever it holds.
pub load_content-lines :
    (content : Text) (m : List (Text × Bool)) → load_content content m ≡ add_lines (lines content) m
unfolding load_content
load_content-lines content m =
    rw (load_content, load_lines-lines (suc (length content)) content m (omega arith)) refl
