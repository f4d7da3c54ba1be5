-- ===== src/Plugins/Log/Definition/Fields.antt =====
-- What the steps of `load_config` in plugins/sitter_log/definition.cpp leave of one definition.
use sitter.Base.{
  Bool, true, false, not, ◌&&◌, ◌==◌, Text, codes, List, [], ◌∷◌, ◌++◌, all, all-append, is_empty,
  Option, none, some, ok, ◌>>=◌, >>=-eq-ok, ◌≡◌, refl, arith, ap, ◌∙◌,
}
use sitter.Plugins.Log.Mode.{parse_mode}
use sitter.Plugins.Log.Mode.Laws.{parse_mode-mask}
use sitter.Plugins.Log.Definition.{
  Host, Config, Search, Definition, max_size_undefined, new_definition, set_user_name,
  set_group_name, add_pattern, add_patterns, given, plain_parameters, load_max_size, mode_from,
  set_modes, load_mode, search_of, search_from, set_searches, add_searches, load_search,
  load_searches, load_definition,
}

-- What the parameters that cannot fail leave alone.
abbrev Plain : Text → Definition → Type 0
Plain name d =
    (d.name ≡ name) × (d.mode_mask ≡ 0o7777) × (d.max_size ≡ max_size_undefined) × (d.searches ≡ [])

given-keeps :
    (P : Definition → Type 0) (o : Option Text) (change : Text → Definition → Definition)
    (d : Definition)
    → ((value : Text) (e : Definition) → P e → P (change value e))
    → P d
    → P (given o change d)
unfolding given
given-keeps P none change d keeps h = h
given-keeps P (some value) change d keeps h = keeps value d h

add_patterns-Plain :
    (name : Text) (ps : List Text) (d : Definition) → Plain name d → Plain name (add_patterns ps d)
unfolding add_patterns add_pattern
add_patterns-Plain name [] d h = h
add_patterns-Plain name (p ∷ ps) d h = add_patterns-Plain name ps (add_pattern p d) h

plain_parameters-Plain :
    (host : Host) (conf : Config) (name : Text) → Plain name (plain_parameters host conf name)
unfolding plain_parameters new_definition set_user_name set_group_name
plain_parameters-Plain host conf name =
    let keep = given-keeps (Plain name) in
    keep (conf.parameter (codes "group_name")) (set_group_name host) _ (λ value e h. h)
      (keep (conf.parameter (codes "user_name")) (set_user_name host) _ (λ value e h. h)
        (keep (conf.parameter (codes "path"))
          (λ value. add_patterns (host.split_string value (codes ":"))) _
          (λ value e h. add_patterns-Plain name (host.split_string value (codes ":")) e h)
          (keep (conf.parameter (codes "path")) (λ value d. record d { path = value }) _
            (λ value e h. h)
            (keep (conf.parameter (codes "secure"))
              (λ value d. record d { secure = host.is_true value }) _ (λ value e h. h)
              (refl, refl, refl, refl)))))

load_max_size-keeps :
    (host : Host) (conf : Config) (d e : Definition)
    → load_max_size host conf d ≡ ok e
    → (e.name ≡ d.name) × (e.mode_mask ≡ d.mode_mask) × (e.searches ≡ d.searches)
unfolding load_max_size
load_max_size-keeps host conf d e h = ground arith

mode_from-keeps :
    (host : Host) (o : Option Text) (d e : Definition)
    → (d.mode_mask == 0) ≡ false
    → mode_from host d o ≡ ok e
    → (e.name ≡ d.name)
      × ((e.mode_mask == 0) ≡ false)
      × (e.searches ≡ d.searches)
      × (e.max_size ≡ d.max_size)
unfolding mode_from set_modes
mode_from-keeps host none d e mask h = ground arith
mode_from-keeps host (some text) d e mask h =
    let (modes, read, same) =
      >>=-eq-ok (parse_mode (host.trim_string text)) (λ modes. ok (set_modes d modes)) h in
    let good = parse_mode-mask (host.trim_string text) modes.0 modes.1 read in ground arith

abbrev has_regex : Search → Bool
has_regex s = not (is_empty s.regex)

search_from-regex :
    (conf : Config) (sec : Text) (ss ts : List Search) (o : Option Text)
    → all has_regex ss ≡ true
    → search_from conf sec ss o ≡ ok ts
    → all has_regex ts ≡ true
unfolding search_from search_of
search_from-regex conf sec ss ts none good h = ground arith
search_from-regex conf sec ss ts (some regex) good h =
    ground (arith, all-append has_regex ss (search_of conf sec regex ∷ []))

load_searches-regex :
    (conf : Config) (secs : List Text) (ss ts : List Search)
    → all has_regex ss ≡ true
    → load_searches conf secs ss ≡ ok ts
    → all has_regex ts ≡ true
unfolding load_searches load_search
load_searches-regex conf [] ss ts good h = ground arith
load_searches-regex conf (sec ∷ secs) ss ts good h =
    let (more, first, rest) = >>=-eq-ok (load_search conf sec ss) (load_searches conf secs) h in
    load_searches-regex conf secs more ts
      (search_from-regex conf sec ss more (conf.parameter (sec ++ codes "::regex")) good first) rest

-- A name, a mask that compares something, and searches for something.
abbrev pub is_valid : Definition → Bool
is_valid d = not (is_empty d.name) && not (d.mode_mask == 0) && all has_regex d.searches

-- The three steps that can fail, taken apart.
load_definition-steps :
    (host : Host) (conf : Config) (name : Text) (d : Definition)
    → load_definition host conf name ≡ ok d
    → (sized : Definition) × (moded : Definition) × (searches : List Search) × (load_max_size host
          conf
          (plain_parameters host conf name)
        ≡ ok sized)
      × (load_mode host conf sized ≡ ok moded)
      × (load_searches conf conf.sections moded.searches ≡ ok searches)
      × (d ≡ set_searches moded searches)
unfolding load_definition add_searches
load_definition-steps host conf name d h =
    let (sized, first, after) =
      >>=-eq-ok (load_max_size host conf (plain_parameters host conf name))
        (λ sized. load_mode host conf sized >>= add_searches conf) h in
    let (moded, second, last) = >>=-eq-ok (load_mode host conf sized) (add_searches conf) after in
    let (searches, third, same) =
      >>=-eq-ok (load_searches conf conf.sections moded.searches)
        (λ searches. ok (set_searches moded searches)) last in
    (sized, moded, searches, first, second, third, cc)

pub load_definition-valid :
    (host : Host) (conf : Config) (name : Text) (d : Definition)
    → is_empty name ≡ false
    → load_definition host conf name ≡ ok d
    → (d.name ≡ name) × (is_valid d ≡ true)
unfolding set_searches load_mode
load_definition-valid host conf name d named h =
    let (sized, moded, searches, first, second, third, same) =
      load_definition-steps host conf name d h in
    let (plain_name, plain_mask, plain_size, plain_searches) =
      plain_parameters-Plain host conf name in
    let (sized_name, sized_mask, sized_searches) =
      load_max_size-keeps host conf (plain_parameters host conf name) sized first in
    let (moded_name, moded_mask, moded_searches, moded_size) =
      mode_from-keeps host (conf.parameter (codes "mode")) sized moded
        (rw (sized_mask, plain_mask) refl) second in
    let regexes =
      load_searches-regex conf conf.sections moded.searches searches
        (rw (moded_searches, sized_searches, plain_searches) refl) third in
    (
      ap (λ (e : Definition). e.name) same ∙ (moded_name ∙ (sized_name ∙ plain_name)),
      ap is_valid same ∙ rw (moded_name, sized_name, plain_name, named, moded_mask, regexes) refl,
    )

load_max_size-unset :
    (host : Host) (conf : Config) (d e : Definition)
    → conf.parameter (codes "max_size") ≡ none
    → load_max_size host conf d ≡ ok e
    → e.max_size ≡ d.max_size
unfolding load_max_size
load_max_size-unset host conf d e missing h = ground arith

pub load_definition-unset :
    (host : Host) (conf : Config) (name : Text) (d : Definition)
    → conf.parameter (codes "max_size") ≡ none
    → load_definition host conf name ≡ ok d
    → d.max_size ≡ max_size_undefined
unfolding set_searches load_mode
load_definition-unset host conf name d missing h =
    let (sized, moded, searches, first, second, third, same) =
      load_definition-steps host conf name d h in
    let (plain_name, plain_mask, plain_size, plain_searches) =
      plain_parameters-Plain host conf name in
    let (sized_name, sized_mask, sized_searches) =
      load_max_size-keeps host conf (plain_parameters host conf name) sized first in
    let (moded_name, moded_mask, moded_searches, moded_size) =
      mode_from-keeps host (conf.parameter (codes "mode")) sized moded
        (rw (sized_mask, plain_mask) refl) second in
    ap (λ (e : Definition). e.max_size) same
    ∙ (moded_size
        ∙ (load_max_size-unset host conf (plain_parameters host conf name) sized missing first
            ∙ plain_size))
