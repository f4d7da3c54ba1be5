-- ===== src/Plugins/Log/Definition.antt =====
-- The definitions of the log plugin: the class `definition` and `load_config` of
-- plugins/sitter_log/definition.cpp. The configuration file is read by advgetopt, the user and group
-- names by the C library: both are the fields of `Host` and `Config`.
pub mod Fields
pub mod Loading
use sitter.Base.{
  ℕ, ◌+◌, ◌-◌, ◌%◌, ◌^◌, ℤ, pos, negsuc, Bool, true, false, not, if◌then◌else◌, ◌==◌, Text, codes,
  text_eq, List, [], ◌∷◌, ◌++◌, Option, none, some, Result, ok, err, missing_parameter,
  invalid_parameter, ◌>>=◌, is_empty,
}
use sitter.Plugins.Log.Mode.{parse_mode}

-- What `stat` tells of a file.
pub record Stat : Type 0 where
  pub size : ℕ
  pub mode : ℕ
  pub uid : ℕ
  pub gid : ℕ
  pub mtime : ℤ

-- The functions of other libraries that the plugin calls.
pub record Host : Type 0 where
  pub is_true : Text → Bool
  pub split_string : Text → Text → List Text
  pub trim_string : Text → Text
  pub convert_size : Text → Option ℤ
  pub user_id : Text → Option ℕ
  pub group_id : Text → Option ℕ
  pub glob : Text → List Text
  pub stat : Text → Option Stat

-- One configuration file: its parameters by name, and its sections.
pub record Config : Type 0 where
  pub parameter : Text → Option Text
  pub sections : List Text

pub record Search : Type 0 where
  pub regex : Text
  report_as : Text

pub record Definition : Type 0 where
  pub name : Text
  pub path : Text
  pub patterns : List Text
  pub max_size : ℕ
  pub uid : ℕ
  pub gid : ℕ
  pub mode : ℕ
  pub mode_mask : ℕ
  pub searches : List Search
  pub mandatory : Bool
  pub secure : Bool
  pub first_pattern : Bool

-- `MAX_SIZE_UNDEFINED`
abbrev pub max_size_undefined : ℕ
max_size_undefined = 0

-- -1 as a `uid_t` or a `gid_t`.
abbrev pub no_id : ℕ
no_id = 4294967295

unfoldable pub new_definition : Text → Bool → Definition
new_definition name mandatory = record {
  name = name;
  path = codes "/var/log";
  patterns = codes "*.log" ∷ [];
  max_size = max_size_undefined;
  uid = no_id;
  gid = no_id;
  mode = 0;
  mode_mask = 0o7777;
  searches = [];
  mandatory = mandatory;
  secure = false;
  first_pattern = true;
}

-- The identifier of a name; the empty name and a name that does not exist have none.
id_from : (Text → Option ℕ) → Text → ℕ
id_from find name =
    if is_empty name then no_id else elim (find name) [ none ↦ no_id | some id ↦ id ]

unfoldable pub set_user_name : Host → Text → Definition → Definition
unfolding id_from
set_user_name host name d = record d { uid = id_from host.user_id name }

unfoldable pub set_group_name : Host → Text → Definition → Definition
unfolding id_from
set_group_name host name d = record d { gid = id_from host.group_id name }

-- The first pattern replaces the default.
unfoldable pub add_pattern : Text → Definition → Definition
add_pattern pattern d = record d {
  first_pattern = false;
  patterns = (if d.first_pattern then [] else d.patterns) ++ pattern ∷ [];
}

unfoldable pub add_patterns : List Text → Definition → Definition
unfolding add_pattern
add_patterns [] d = d
add_patterns (p ∷ ps) d = add_patterns ps (add_pattern p d)

-- What a parameter of the file does to the definition; nothing where it is missing.
unfoldable pub given : Option Text → (Text → Definition → Definition) → Definition → Definition
given none change d = d
given (some value) change d = change value d

unfoldable pub has_name : Text → List Definition → Bool
has_name name [] = false
has_name name (d ∷ ds) = if text_eq name d.name then true else has_name name ds

unfoldable pub definition_name : Config → List Definition → Result Text
unfolding has_name
definition_name conf result = elim (conf.parameter (codes "name")) [
  | none ↦ err missing_parameter
  | some name ↦
      if is_empty name
      then err invalid_parameter
      else if has_name name result
      then err invalid_parameter
      else ok name
]

-- The parameters that cannot fail. The patterns come from the parameter "path".
unfoldable pub plain_parameters : Host → Config → Text → Definition
unfolding given new_definition add_patterns set_user_name set_group_name
plain_parameters host conf name =
    let mandatory : Bool = elim (conf.parameter (codes "mandatory")) [
      | none ↦ false
      | some value ↦ host.is_true value
    ] in
    given (conf.parameter (codes "group_name")) (set_group_name host) (
      given (conf.parameter (codes "user_name")) (set_user_name host) (
        given (conf.parameter (codes "path"))
          (λ value. add_patterns (host.split_string value (codes ":")))
          (given (conf.parameter (codes "path")) (λ value d. record d { path = value })
            (given (conf.parameter (codes "secure"))
              (λ value d. record d { secure = host.is_true value })
              (new_definition name mandatory)))))

-- The cast of a 128-bit integer to `std::size_t`.
unfoldable to_size : ℤ → ℕ
to_size (pos n) = n % 2 ^ 64
to_size (negsuc n) = 2 ^ 64 - 1 - n % 2 ^ 64

unfoldable pub load_max_size : Host → Config → Definition → Result Definition
unfolding to_size
load_max_size host conf d = elim (conf.parameter (codes "max_size")) [
  | none ↦ ok d
  | some text ↦ elim (host.convert_size text) [
    | none ↦ err invalid_parameter
    | some value ↦ ok (record d { max_size = to_size value })
  ]
]

unfoldable pub set_modes : Definition → ℕ × ℕ → Definition
set_modes d modes = record d { mode = modes.0; mode_mask = modes.1 }

unfoldable pub mode_from : Host → Definition → Option Text → Result Definition
unfolding set_modes
mode_from host d none = ok d
mode_from host d (some text) = do modes ← parse_mode (host.trim_string text); ok (set_modes d modes)

unfoldable pub load_mode : Host → Config → Definition → Result Definition
unfolding mode_from
load_mode host conf d = mode_from host d (conf.parameter (codes "mode"))

-- One section: a regular expression and how its matches are reported, "error" by default.
unfoldable pub search_of : Config → Text → Text → Search
search_of conf sec regex = record {
  regex = regex;
  report_as = elim (conf.parameter (sec ++ codes "::report_as")) [
    | none ↦ codes "error"
    | some value ↦ value
  ];
}

unfoldable pub search_from : Config → Text → List Search → Option Text → Result (List Search)
unfolding search_of
search_from conf sec searches none = ok searches
search_from conf sec searches (some regex) =
    if is_empty regex then err invalid_parameter else ok (searches ++ search_of conf sec regex ∷ [])

unfoldable pub load_search : Config → Text → List Search → Result (List Search)
unfolding search_from
load_search conf sec searches =
    search_from conf sec searches (conf.parameter (sec ++ codes "::regex"))

unfoldable pub load_searches : Config → List Text → List Search → Result (List Search)
unfolding load_search
load_searches conf [] searches = ok searches
load_searches conf (sec ∷ secs) searches = do
  more ← load_search conf sec searches
  load_searches conf secs more

unfoldable pub set_searches : Definition → List Search → Definition
set_searches d searches = record d { searches = searches }

unfoldable pub add_searches : Config → Definition → Result Definition
unfolding load_searches set_searches
add_searches conf d = do
  searches ← load_searches conf conf.sections d.searches
  ok (set_searches d searches)

-- The definition of a file whose name is accepted.
unfoldable pub load_definition : Host → Config → Text → Result Definition
unfolding load_max_size load_mode add_searches plain_parameters
load_definition host conf name = do
  sized ← load_max_size host conf (plain_parameters host conf name)
  moded ← load_mode host conf sized
  add_searches conf moded

-- One file, onto the definitions of the files before it.
unfoldable pub load_config : Host → Config → List Definition → Result (List Definition)
unfolding definition_name load_definition
load_config host conf result = do
  name ← definition_name conf result
  d ← load_definition host conf name
  ok (result ++ d ∷ [])

-- Every configuration file in the order of the directory.
unfoldable pub load_from : Host → List Config → List Definition → Result (List Definition)
unfolding load_config
load_from host [] result = ok result
load_from host (conf ∷ confs) result = do
  more ← load_config host conf result
  load_from host confs more

unfoldable pub load : Host → List Config → Result (List Definition)
unfolding load_from
load host confs = load_from host confs []
