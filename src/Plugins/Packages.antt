-- ===== src/Plugins/Packages.antt =====
-- The packages plugin, plugins/sitter_packages/packages.cpp: the class `sitter_package_t` and the
-- loading of the package definitions. The children hold the statuses and the checks.
pub mod Loading
pub mod Status
pub mod Watch
use sitter.Base.{
  ℤ, pos, Bool, true, false, ◌||◌, if◌then◌else◌, Text, codes, text_eq, is_empty, List, [], ◌∷◌,
  ◌++◌, Option, none, some, Result, ok, err, invalid_parameter, ◌>>=◌, to_int,
}
use sitter.Env.{Env, ConfFile}
use sitter.Server.{Server, get_server_parameter}
use sitter.StdMap.{set_insert}

pub data Installation : Type 0 where
  optional required unwanted : Installation

pub record Package : Type 0 where
  pub name : Text
  pub description : Text
  pub conflicts : List Text
  pub in_conflict : List Text
  pub installation : Installation
  pub priority : ℤ

-- What the plugin calls outside this repository. `start`, `wait` and `trimmed_output` are those of the
-- process `dpkg-query --show` on a package, taken not to change during a run.
pub record Host : Type 0 where
  pub env : Env
  pub mkdir_p : Text → ℤ
  pub read_all : Text → Option Text
  pub start : Text → ℤ
  pub wait : Text → ℤ
  pub trimmed_output : Text → Text
  pub join_strings : List Text → Text → Text
  pub trim_string : Text → Text
  pub glob : Text → List Text
  pub conf_file : Text → ConfFile

-- The globals `g_packages`, `g_installed_packages`, `g_cache_loaded` and `g_cache_modified`, the server,
-- and the files written with their contents, the newest last.
pub record State : Type 0 where
  pub server : Server
  pub packages : List Package
  pub installed_packages : List (Text × Bool)
  pub cache_loaded : Bool
  pub cache_modified : Bool
  pub written : List (Text × Text)

unfoldable pub new_package : Text → Installation → ℤ → Package
new_package name installation priority = record {
  name = name;
  description = [];
  conflicts = [];
  in_conflict = [];
  installation = installation;
  priority = priority;
}

unfoldable pub set_description : Host → Text → Package → Package
set_description host description p = record p { description = host.trim_string description }

unfoldable pub add_conflict : Text → Package → Result Package
add_conflict package_name p =
    if text_eq package_name p.name
    then err invalid_parameter
    else ok (record p { conflicts = set_insert package_name p.conflicts })

unfoldable pub add_conflicts : List Text → Package → Result Package
unfolding add_conflict
add_conflicts [] p = ok p
add_conflicts (c ∷ cs) p = add_conflict c p >>= add_conflicts cs

unfoldable pub get_installation_as_string : Package → Text
get_installation_as_string p = elim p.installation [
  | Installation.required ↦ codes "required"
  | Installation.unwanted ↦ codes "unwanted"
  | Installation.optional ↦ codes "optional"
]

unfoldable installation_from_string : Text → Result Installation
installation_from_string installation =
    if is_empty installation || text_eq installation (codes "optional")
    then ok optional
    else if text_eq installation (codes "required")
    then ok required
    else if text_eq installation (codes "unwanted")
    then ok unwanted
    else err invalid_parameter

-- The parameters of a package definition. The name that is tested for the installation is spelled
-- `intallation`, as in the source.
unfoldable package_priority : Host → ConfFile → ℤ
package_priority host conf =
    if conf.has_parameter (codes "priority")
    then (host.env.convert_integer (conf.get_parameter (codes "priority")) (pos 15)).1
    else pos 15

unfoldable pub package_installation : ConfFile → Result Installation
unfolding installation_from_string
package_installation conf =
    if conf.has_parameter (codes "intallation")
    then installation_from_string (conf.get_parameter (codes "installation"))
    else ok optional

unfoldable package_description : ConfFile → Text
package_description conf =
    if conf.has_parameter (codes "description")
    then conf.get_parameter (codes "description")
    else []

unfoldable pub package_conflicts : Host → ConfFile → List Text
package_conflicts host conf =
    if conf.has_parameter (codes "conflicts")
    then host.env.split_string (conf.get_parameter (codes "conflicts")) (codes ",")
    else []

-- One file; the definitions loaded so far grow by at most one.
unfoldable pub load_package : Host → ConfFile → List Package → Result (List Package)
unfolding package_priority package_installation package_description package_conflicts new_package
    set_description add_conflicts
load_package host conf packages =
    if conf.has_parameter (codes "name")
    then (package_installation conf >>= λ installation.
        let wp =
          new_package (conf.get_parameter (codes "name")) installation
            (to_int (package_priority host conf)) in
        add_conflicts (package_conflicts host conf)
          (set_description host (package_description conf) wp)
        >>= λ wp. ok (packages ++ wp ∷ []))
    else ok packages

-- The files in turn; what was loaded before a throw stays loaded.
unfoldable pub load_files : Host → List Text → List Package → List Package × Result (Unit {0})
unfolding load_package
load_files host [] packages = (packages, ok tt)
load_files host (file ∷ files) packages = elim (load_package host (host.conf_file file) packages) [
  | ok more ↦ load_files host files more
  | err e ↦ (packages, err e)
]

abbrev pub packages_path : Env → Text
packages_path env =
    let path = get_server_parameter env (codes "sitter_packages_path") in
    if is_empty path then codes "/usr/share/sitter/packages" else path

unfoldable pub load_packages : Host → State → State × Result (Unit {0})
unfolding load_files
load_packages host s =
    let files = host.glob (packages_path host.env ++ codes "/*.conf") in
    let (packages, result) = load_files host files [] in (record s { packages = packages }, result)
