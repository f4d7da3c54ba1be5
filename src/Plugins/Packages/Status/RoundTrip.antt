-- ===== src/Plugins/Packages/Status/RoundTrip.antt =====
-- The cache file of plugins/sitter_packages/packages.cpp, written by `save_cache` and read again.
use sitter.Base.{
  ℕ, ◌≡◌, refl, ◌∙◌, sym, Bool, true, false, not, ◌&&◌, if◌then◌else◌, ◌==◌, Text, codes, text_eq,
  is_empty, all, all-append, List, [], ◌∷◌, ◌++◌, append_assoc, append-nil, some, arith,
}
use sitter.StdMap.{map_set, is_ordered, text_ltb}
use sitter.StdMap.Laws.{map_set-last}
use sitter.Plugins.Packages.Status.{cut, add_line, load_content, cache_content}
use sitter.Plugins.Packages.Status.Lines.{lines, add_lines, load_content-lines}

-- A name that a line of the cache can hold.
abbrev is_storable : Text → Bool
is_storable name =
    not (is_empty name) && all (λ c. not (c == b'=')) name && all (λ c. not (c == b'\n')) name

abbrev status_line : Text → Bool → Text
status_line name status = name ++ b'=' ∷ (if status then b't' else b'f') ∷ []

cut-append :
    (separator : ℕ) (before after : Text)
    → all (λ c. not (c == separator)) before ≡ true
    → cut separator (before ++ separator ∷ after) ≡ (before, some after)
unfolding cut
cut-append separator [] after h = ground arith
cut-append separator (c ∷ cs) after h = ground (arith, cut-append separator cs after)

lines-append :
    (line content : Text)
    → all (λ c. not (c == b'\n')) line ≡ true
    → lines (line ++ b'\n' ∷ content) ≡ line ∷ lines content
lines-append [] content h = refl
lines-append (c ∷ cs) content h = ground (arith, lines-append cs content)

add_line-status_line :
    (name : Text) (status : Bool) (m : List (Text × Bool))
    → is_storable name ≡ true
    → add_line (status_line name status) m ≡ map_set name status m
unfolding add_line text_eq
add_line-status_line name status m storable =
    ground (arith, cut-append b'=' name ((if status then b't' else b'f') ∷ []))

status_line-IsLine :
    (name : Text) (status : Bool)
    → is_storable name ≡ true
    → all (λ c. not (c == b'\n')) (status_line name status) ≡ true
status_line-IsLine name true storable =
    ground (arith, all-append (λ c. not (c == b'\n')) name (codes "=t"))
status_line-IsLine name false storable =
    ground (arith, all-append (λ c. not (c == b'\n')) name (codes "=f"))

cache_content-line :
    (name : Text) (status : Bool) (m : List (Text × Bool))
    → cache_content ((name, status) ∷ m) ≡ status_line name status ++ b'\n' ∷ cache_content m
unfolding cache_content
cache_content-line name status m =
    sym (append_assoc name (b'=' ∷ (if status then b't' else b'f') ∷ []) (b'\n' ∷ cache_content m))

-- In an ordered list the keys on the left of an entry are smaller.
ordered-before :
    (m : List (Text × Bool)) (k : Text) (v : Bool) (later : List (Text × Bool))
    → is_ordered (m ++ (k, v) ∷ later) ≡ true
    → all (λ entry. text_ltb entry.0 k) m ≡ true
ordered-before [] k v later h = refl
ordered-before ((i, w) ∷ m) k v later h =
    ground (arith, ordered-before m k v later, all-append (λ e. text_ltb i e.0) m ((k, v) ∷ later))

abbrev all_storable : List (Text × Bool) → Bool
all_storable m = all (λ entry. is_storable entry.0) m

add_lines-cache_content :
    (m acc : List (Text × Bool))
    → all_storable m ≡ true
    → is_ordered (acc ++ m) ≡ true
    → add_lines (lines (cache_content m)) acc ≡ acc ++ m
unfolding cache_content add_line cut
add_lines-cache_content [] acc storable ordered = sym (append-nil acc)
add_lines-cache_content ((k, v) ∷ m) acc storable ordered =
    rw
      (
        cache_content-line k v m,
        lines-append (status_line k v) (cache_content m) (status_line-IsLine k v (ground arith)),
        add_lines,
        add_line-status_line k v acc (ground arith),
        map_set-last k v acc (ordered-before acc k v m ordered),
      )
      (add_lines-cache_content m (acc ++ (k, v) ∷ []) (ground arith)
          (rw (append_assoc acc ((k, v) ∷ []) m) ordered)
        ∙ append_assoc acc ((k, v) ∷ []) m)

-- What `save_cache` writes is read back as it was: the entries in the order of their names, with no
-- name that is empty or has an equal sign or an end of line.
pub load_content-cache_content :
    (m : List (Text × Bool))
    → all_storable m ≡ true
    → is_ordered m ≡ true
    → load_content (cache_content m) [] ≡ m
load_content-cache_content m storable ordered =
    load_content-lines (cache_content m) [] ∙ add_lines-cache_content m [] storable ordered
