-- ===== src/Plugins/Processes.antt =====
-- The processes plugin, plugins/sitter_processes/processes.cpp: the class `sitter_process`, and the
-- state of the services. Definitions loads the definitions, Maintenance reads the maintenance mode, and
-- the checks are in Watch.
pub mod Maintenance
pub mod Definitions
pub mod Registered
pub mod Loading
pub mod Services
pub mod Watch
use sitter.Base.{
  ℤ, pos, eqb_ℤ, ◌==◌, leb, Bool, true, false, not, ◌&&◌, ◌||◌, if◌then◌else◌, Text, codes, text_eq,
  is_empty, starts_with, List, [], ◌∷◌, ◌++◌, map, Option, none, some, Result, ok, err,
  invalid_name, regex_error, ◌>>=◌,
}
use sitter.Env.{Env, ConfFile}
use sitter.Server.{get_server_parameter}

pub record Process : Type 0 where
  pub name : Text
  pub command : Text
  pub service : Text
  pub match : Text
  pub match_defined : Bool
  pub mandatory : Bool
  pub allow_duplicates : Bool
  pub service_is_enabled : Bool
  pub service_is_active : Bool
  pub service_is_backend : Bool

-- What the plugin calls outside this repository. `show_output` is the whole output of
-- `systemctl show -p UnitFileState --value` on a service, `active_start` and `active_wait` what starting
-- `systemctl is-active` and waiting for it return; `maintenance_exists` and `maintenance_contents` are
-- `exists()` and `contents()` of the file of the maintenance mode, which nothing reads before.
pub record Host : Type 0 where
  pub env : Env
  pub show_output : Text → Text
  pub active_start : Text → ℤ
  pub active_wait : Text → ℤ
  pub maintenance_exists : Bool
  pub maintenance_contents : Text
  pub is_true : Text → Bool
  pub is_regex : Text → Bool
  pub regex_match : Text → Text → Bool
  pub trim_string : Text → Text
  pub glob : Text → List Text
  pub conf_file : Text → ConfFile

unfoldable pub is_service_enabled : Host → Text → Bool
is_service_enabled host service_name = text_eq (host.show_output service_name) (codes "enabled")

unfoldable is_service_active : Host → Text → Bool
is_service_active host service_name =
    let r =
      if eqb_ℤ (host.active_start service_name) (pos 0)
      then host.active_wait service_name
      else host.active_start service_name in
    eqb_ℤ r (pos 0)

unfoldable pub new_process : Text → Bool → Bool → Process
new_process name mandatory allow_duplicates = record {
  name = name;
  command = [];
  service = [];
  match = [];
  match_defined = false;
  mandatory = mandatory;
  allow_duplicates = allow_duplicates;
  service_is_enabled = true;
  service_is_active = true;
  service_is_backend = false;
}

unfoldable pub set_mandatory : Bool → Process → Process
set_mandatory mandatory p = record p { mandatory = mandatory }

unfoldable pub set_command : Text → Process → Process
set_command command p = record p { command = command }

-- The state of a service is asked for here, once.
unfoldable pub set_service : Host → Text → Bool → Process → Process
unfolding is_service_enabled is_service_active
set_service host service backend p =
    let enabled = is_service_enabled host service in
    if is_empty service
    then record p {
      service = service;
      service_is_enabled = true;
      service_is_active = true;
      service_is_backend = false;
    }
    else record p {
      service = service;
      service_is_enabled = enabled;
      service_is_active = if enabled then is_service_active host service else false;
      service_is_backend = backend;
    }

-- The assignment to a `std::regex` throws for a text that is no expression.
unfoldable pub set_match : Host → Text → Process → Result Process
set_match host match p =
    if host.is_regex match
    then ok (record p { match = match; match_defined = not (is_empty match) })
    else err regex_error

-- The name of a process and its command line against a definition.
unfoldable pub matches : Host → Process → Text → Text → Bool
matches host p command cmdline =
    (is_empty p.command || text_eq p.command command)
    && (not p.match_defined || host.regex_match cmdline p.match)
    && (not (is_empty p.command && not p.match_defined) || text_eq p.name command)

-- `is_process_expected_to_run`, with the static list of the valid backends before and after the call.
unfoldable pub load_backends : Host → ConfFile → List Text → List Text
load_backends host conf valid_backends =
    if is_empty valid_backends
    then map host.trim_string
        (host.env.split_string (conf.get_parameter (codes "backends")) (codes ","))
    else valid_backends

unfoldable pub contains : Text → List Text → Bool
contains t [] = false
contains t (x ∷ xs) = text_eq t x || contains t xs

abbrev pub server_configuration_filename : Text
server_configuration_filename = codes "/etc/snapwebsites/snapserver.conf"

unfoldable pub is_backend_expected : Host → Process → List Text → List Text × Bool
unfolding load_backends contains
is_backend_expected host p valid_backends =
    let conf = host.conf_file server_configuration_filename in
    let backends = load_backends host conf valid_backends in
    if text_eq (conf.get_parameter (codes "backend_status")) (codes "disabled")
    then (valid_backends, false)
    else (backends, contains p.service backends)

unfoldable pub is_process_expected_to_run : Host → Process → List Text → List Text × Bool
unfolding is_backend_expected
is_process_expected_to_run host p valid_backends =
    if is_empty p.service
    then (valid_backends, true)
    else if p.service_is_backend
    then is_backend_expected host p valid_backends
    else (valid_backends, p.service_is_enabled || p.service_is_active)
