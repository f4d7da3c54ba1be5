-- ===== src/Plugins/Log/Definition/Loading.antt =====
-- What `load` of plugins/sitter_log/definition.cpp promises of the definitions it returns.
use sitter.Base.{
  Bool, true, false, not, ◌&&◌, Text, text_eq, text_eq_iff, List, [], ◌∷◌, ◌++◌, all, all-append,
  is_empty, ok, ◌>>=◌, >>=-eq-ok, ◌≡◌, refl, arith, ap, ◌∙◌, sym,
}
use sitter.Plugins.Log.Definition.{
  Host, Config, Definition, has_name, definition_name, load_definition, load_config, load_from,
  load,
}
use sitter.Plugins.Log.Definition.Fields.{is_valid, load_definition-valid}

text_eq_sym : (s t : Text) → text_eq s t ≡ false → text_eq t s ≡ false
text_eq_sym s t h = ground (arith, text_eq_iff s t, text_eq_iff t s)

-- No name twice.
abbrev pub distinct : List Definition → Bool
distinct [] = true
distinct (d ∷ ds) = not (has_name d.name ds) && distinct ds

has_name-append :
    (name : Text) (ds : List Definition) (d : Definition)
    → has_name name ds ≡ false
    → text_eq name d.name ≡ false
    → has_name name (ds ++ d ∷ []) ≡ false
unfolding has_name
has_name-append name [] d old new = ground arith
has_name-append name (e ∷ es) d old new = ground (arith, has_name-append name es d)

distinct-append :
    (ds : List Definition) (d : Definition)
    → distinct ds ≡ true
    → has_name d.name ds ≡ false
    → distinct (ds ++ d ∷ []) ≡ true
unfolding has_name
distinct-append [] d apart new = refl
distinct-append (e ∷ es) d apart new =
    ground (arith, distinct-append es d, has_name-append e.name es d, text_eq_sym d.name e.name)

definition_name-accepted :
    (conf : Config) (result : List Definition) (name : Text)
    → definition_name conf result ≡ ok name
    → (is_empty name ≡ false) × (has_name name result ≡ false)
unfolding definition_name
definition_name-accepted conf result name h = ground arith

load_config-keeps :
    (host : Host) (conf : Config) (ds es : List Definition)
    → load_config host conf ds ≡ ok es
    → distinct ds ≡ true
    → all is_valid ds ≡ true
    → (distinct es ≡ true) × (all is_valid es ≡ true)
unfolding load_config
load_config-keeps host conf ds es h apart valid =
    let (name, named, after) =
      >>=-eq-ok (definition_name conf ds)
        (λ name. load_definition host conf name >>= (λ d. ok (ds ++ d ∷ []))) h in
    let (d, loaded, same) =
      >>=-eq-ok (load_definition host conf name) (λ d. ok (ds ++ d ∷ [])) after in
    let (some_name, new_name) = definition_name-accepted conf ds name named in
    let (d_name, d_valid) = load_definition-valid host conf name d some_name loaded in
    let longer : ds ++ d ∷ [] ≡ es = cc in
    (
      ap distinct (sym longer) ∙ distinct-append ds d apart (rw d_name new_name),
      ap (all is_valid) (sym longer) ∙ (all-append is_valid ds (d ∷ []) ∙ rw (valid, d_valid) refl),
    )

load_from-keeps :
    (host : Host) (confs : List Config) (ds es : List Definition)
    → load_from host confs ds ≡ ok es
    → distinct ds ≡ true
    → all is_valid ds ≡ true
    → (distinct es ≡ true) × (all is_valid es ≡ true)
unfolding load_from
load_from-keeps host [] ds es h apart valid =
    let same : ds ≡ es = cc in
    (ap distinct (sym same) ∙ apart, ap (all is_valid) (sym same) ∙ valid)
load_from-keeps host (conf ∷ confs) ds es h apart valid =
    let (more, first, rest) = >>=-eq-ok (load_config host conf ds) (load_from host confs) h in
    let (more_apart, more_valid) = load_config-keeps host conf ds more first apart valid in
    load_from-keeps host confs more es rest more_apart more_valid

-- Whatever the configuration files hold, the definitions that `load` returns have different names, none
-- of them empty, a mode mask that is not 0, and no empty regular expression.
pub load-IsWellFormed :
    (host : Host) (confs : List Config) (ds : List Definition)
    → load host confs ≡ ok ds
    → (distinct ds ≡ true) × (all is_valid ds ≡ true)
unfolding load
load-IsWellFormed host confs ds h = load_from-keeps host confs [] ds h refl refl
