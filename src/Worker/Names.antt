-- ===== src/Worker/Names.antt =====
-- `sitter_worker::load_plugins` of sitter/sitter_worker.cpp: the names of the plugins to load, which
-- `serverplugins` then loads.
use sitter.Base.{
  ◌≡◌, refl, ◌∙◌, true, false, ◌||◌, if◌then◌else◌, Text, codes, text_eq, is_empty, starts_with,
  all, List, [], ◌∷◌, ◌++◌, map, append_assoc, append-nil, Option, none, some, arith, Bool-cases,
  inl, inr,
}
use sitter.Env.{Env}
use sitter.Server.{get_server_parameter}

-- `p.substr(0, 7) != "sitter_"`
unfoldable prefixed : Text → Text
prefixed name = if starts_with (codes "sitter_") name then name else codes "sitter_" ++ name

-- The loop over the names, with the text built so far.
unfoldable join_names : List Text → Text → Text
join_names [] plugins = plugins
join_names (p ∷ ps) plugins =
    join_names ps ((if is_empty plugins then [] else plugins ++ codes ",") ++ prefixed p)

-- The names to add, or none for every plugin that is found with the prefix `sitter_`.
unfoldable plugin_names : Env → (Text → Text) → Option Text
unfolding join_names
plugin_names env trim_string =
    let plugins = trim_string (get_server_parameter env (codes "plugins")) in
    if is_empty plugins || text_eq plugins (codes "*")
    then none
    else some (join_names (env.split_string plugins (codes ",")) [])

-- The names with their prefix, each but the first after a comma.
abbrev after_commas : List Text → Text
after_commas [] = []
after_commas (p ∷ ps) = codes "," ++ p ++ after_commas ps

abbrev with_commas : List Text → Text
with_commas [] = []
with_commas (p ∷ ps) = p ++ after_commas ps

prefixed-ne-empty : (p : Text) → is_empty (prefixed p) ≡ false
unfolding prefixed starts_with
prefixed-ne-empty [] = refl
prefixed-ne-empty (c ∷ cs) = ground arith

prefixed-starts : (p : Text) → starts_with (codes "sitter_") (prefixed p) ≡ true
unfolding prefixed starts_with
prefixed-starts p = elim (Bool-cases (starts_with (codes "sitter_") p)) [
  | inl has ↦ rw (has) has
  | inr lacks ↦ rw (lacks) refl
]

is_empty-append {ℓ} :
    {A : Type ℓ} (xs ys : List A) → is_empty xs ≡ false → is_empty (xs ++ ys) ≡ false
is_empty-append [] ys some_item = cc
is_empty-append (x ∷ xs) ys some_item = refl

join_names-after :
    (ps : List Text) (plugins : Text)
    → is_empty plugins ≡ false
    → join_names ps plugins ≡ plugins ++ after_commas (map prefixed ps)
unfolding join_names
join_names-after [] plugins some_text = simp append-nil
join_names-after (p ∷ ps) plugins some_text = rw some_text (
    join_names-after ps ((plugins ++ codes ",") ++ prefixed p) (
      is_empty-append (plugins ++ codes ",") (prefixed p)
        (is_empty-append plugins (codes ",") some_text))
    ∙ simp append_assoc)

join_names-all : (ps : List Text) → join_names ps [] ≡ with_commas (map prefixed ps)
unfolding join_names
join_names-all [] = refl
join_names-all (p ∷ ps) = join_names-after ps (prefixed p) (prefixed-ne-empty p)

unprefixed : (p : Text) → starts_with (codes "sitter_") p ≡ true → prefixed p ≡ p
unfolding prefixed
unprefixed p has = rw has refl

prefixed-Twice : (p : Text) → prefixed (prefixed p) ≡ prefixed p
prefixed-Twice p = unprefixed (prefixed p) (prefixed-starts p)

all-prefixed :
    (ps : List Text) → all (λ p. starts_with (codes "sitter_") p) (map prefixed ps) ≡ true
all-prefixed [] = refl
all-prefixed (p ∷ ps) = rw (prefixed-starts p) (all-prefixed ps)

map-prefixed : (ps : List Text) → map prefixed (map prefixed ps) ≡ map prefixed ps
map-prefixed [] = refl
map-prefixed (p ∷ ps) = rw (prefixed-Twice p, map-prefixed ps) refl

-- With a list of plugins that is neither empty nor `*`, the names to load are those of the list in order,
-- separated by commas, each with the prefix `sitter_`, which a name that has it keeps as it is: so it makes
-- no difference whether the list gives the prefix or not.
plugin_names-Prefixed :
    (env : Env) (trim_string : Text → Text)
    → let plugins = trim_string (get_server_parameter env (codes "plugins")) in
      let names = env.split_string plugins (codes ",") in
      is_empty plugins ≡ false
      → text_eq plugins (codes "*") ≡ false
      → (plugin_names env trim_string ≡ some (with_commas (map prefixed names)))
        × (all (λ p. starts_with (codes "sitter_") p) (map prefixed names) ≡ true)
        × (map prefixed (map prefixed names) ≡ map prefixed names)
unfolding plugin_names
plugin_names-Prefixed env trim_string some_text not_star =
    let names =
      env.split_string (trim_string (get_server_parameter env (codes "plugins"))) (codes ",") in
    (rw (some_text, not_star, join_names-all names) refl, all-prefixed names, map-prefixed names)
