-- ===== src/Plugins/Scripts.antt =====
-- The scripts plugin, plugins/sitter_scripts/scripts.cpp. A script answers with an exit code and with
-- what it wrote to its output and to its errors.
pub mod Reports
pub mod Logs
use sitter.Base.{
  ℤ, pos, eqb_ℤ, ◌==◌, Bool, true, false, not, ◌&&◌, if◌then◌else◌, Text, codes, is_empty,
  contains_text, to_string, List, [], ◌∷◌, ◌++◌, Option, none, some,
}
use sitter.Env.{Env}
use sitter.Json.{Key, Value, put, Doc, ◌/+◌}
use sitter.Report.{append_error}
use sitter.Action.{Action, pure, ◌>>=◌, ◌>>◌, write, when}
use sitter.Server.{get_server_parameter}
use sitter.StdMap.{map_set}

-- What the plugin calls outside this repository, by the file of a script: its run, which the starter
-- makes, and the time of its start; and the facts of the host that stand in the header of a message.
pub record Host : Type 0 where
  pub env : Env
  pub glob : Text → List Text
  pub start : Text → Text → ℤ
  pub wait : Text → Text → ℤ
  pub output_of : Text → Text
  pub error_of : Text → Text
  pub start_date : Text → ℤ
  pub date_text : ℤ → Text
  pub version : Text
  pub hostname : Option Text
  pub trim_string : Text → Text
  pub my_address : Text
  pub local_addresses : Option (List Text)

-- The fields of the plugin that its functions share, the variables of the environment that it sets, and
-- the contents of the files that it writes.
pub record Scripts : Type 0 where
  pub script_starter : Text
  pub scripts_output_log : Text
  pub scripts_error_log : Text
  pub environment : List (Text × Text)
  pub files : List (Text × Text)

-- A parameter of the server, or its default.
unfoldable pub parameter_or : Env → Text → Text → Text
parameter_or env name default =
    let value = get_server_parameter env name in if is_empty value then default else value

abbrev pub log_folder : Env → Text
log_folder env =
    parameter_or env (codes "log_path") (codes "/var/log/sitter/scripts")
    ++ codes "/"
    ++ parameter_or env (codes "log_subfolder") (codes "sitter-output")

unfoldable pub bootstrap : Env → Scripts → Scripts
unfolding parameter_or
bootstrap env s =
    let output =
      parameter_or env (codes "sitter_scripts_output") (codes "/var/lib/sitter/script-files") in
    let log_path = parameter_or env (codes "log_path") (codes "/var/log/sitter/scripts") in
    let log_subfolder = parameter_or env (codes "log_subfolder") (codes "sitter-output") in
    record s {
      script_starter =
          parameter_or env (codes "script_starter") (codes "/usr/sbin/sitter-script-starter");
      environment = map_set (codes "SITTER_SCRIPTS_LOG_SUBFOLDER") log_subfolder (
          map_set (codes "SITTER_SCRIPTS_LOG_PATH") log_path
            (map_set (codes "SITTER_SCRIPTS_OUTPUT") output s.environment));
      scripts_output_log = log_folder env ++ codes "/sitter-scripts.log";
      scripts_error_log = log_folder env ++ codes "/sitter-scripts-errors.log";
    }

unfoldable hostname_line : Host → Option Text → Text
hostname_line host none = []
hostname_line host (some name) = codes "Hostname: " ++ host.trim_string name ++ codes "\n"

unfoldable join_addresses : Text → List Text → Text
join_addresses separator [] = []
join_addresses separator (a ∷ rest) = separator ++ a ++ join_addresses (codes ", ") rest

unfoldable addresses_line : Option (List Text) → Text
unfolding join_addresses
addresses_line none = []
addresses_line (some ips) = codes "IP-Addresses: " ++ join_addresses [] ips ++ codes "\n"

unfoldable pub generate_header : Host → Text → Text → Text
unfolding hostname_line addresses_line
generate_header host script_filename type =
    codes "--- "
    ++ type
    ++ codes " -----------------------------------------------------------\n"
    ++ codes "Sitter-Version: "
    ++ host.version
    ++ codes "\n"
    ++ codes "Output-Type: "
    ++ type
    ++ codes "\n"
    ++ codes "Date: "
    ++ host.date_text (host.start_date script_filename)
    ++ codes "\n"
    ++ codes "Script: "
    ++ script_filename
    ++ codes "\n"
    ++ hostname_line host host.hostname
    ++ (if is_empty host.my_address
        then addresses_line host.local_addresses
        else codes "IP-Address: " ++ host.my_address ++ codes "\n")
    ++ codes "\n"

-- The end of line that is added where `back()` is not one.
unfoldable pub with_end : Text → Text
with_end [] = []
with_end (c ∷ []) = if c == b'\n' then c ∷ [] else c ∷ b'\n' ∷ []
with_end (c ∷ d ∷ cs) = c ∷ with_end (d ∷ cs)

abbrev pub script_ref : List Key
script_ref = [] /+ codes "scripts" /+ codes "script"

unfoldable pub exit_code_of : Host → Scripts → Text → ℤ
exit_code_of host s script_filename =
    let started = host.start s.script_starter script_filename in
    if eqb_ℤ started (pos 0) then host.wait s.script_starter script_filename else started

-- The output counts only when the script failed.
unfoldable pub has_output : Host → Scripts → Text → Bool
unfolding exit_code_of
has_output host s script_filename =
    not (eqb_ℤ (exit_code_of host s script_filename) (pos 0))
    && not (is_empty (host.output_of script_filename))

unfoldable pub output_text : Host → Text → Text
unfolding generate_header with_end
output_text host script_filename =
    with_end
      (generate_header host script_filename (codes "OUTPUT") ++ host.output_of script_filename)

unfoldable pub error_text : Host → Text → Text
unfolding generate_header with_end
error_text host script_filename =
    with_end (generate_header host script_filename (codes "ERROR") ++ host.error_of script_filename)

-- The output goes to the document, to its file, which it replaces, and to the errors.
unfoldable pub save_output : Host → Scripts → Text → Bool → Action Scripts
unfolding output_text
save_output host s script_filename false = pure s
save_output host s script_filename true =
    let output = output_text host script_filename in
    let exit_code = exit_code_of host s script_filename in
    write (put (script_ref /+ codes "output") (Value.text output) ∷ [])
    >> (append_error script_ref (codes "scripts") output
          (if eqb_ℤ exit_code (pos 0) then pos 35 else pos 65)
        >> pure (record s { files = map_set s.scripts_output_log output s.files }))

unfoldable pub save_errors : Host → Scripts → Text → Bool → Action Scripts
unfolding error_text
save_errors host s script_filename false = pure s
save_errors host s script_filename true =
    let error = error_text host script_filename in
    append_error script_ref (codes "scripts") error (pos 90)
    >> pure (record s { files = map_set s.scripts_error_log error s.files })

unfoldable pub report_output : Host → Scripts → Text → Action Scripts
unfolding has_output save_output
report_output host s script_filename =
    save_output host s script_filename (has_output host s script_filename)

unfoldable pub report_errors : Host → Scripts → Text → Action Scripts
unfolding save_errors
report_errors host s script_filename =
    save_errors host s script_filename (not (is_empty (host.error_of script_filename)))

abbrev pub script_item : Text → ℤ → Doc
script_item script_filename exit_code =
    put (script_ref /+ codes "name") (Value.text script_filename)
    ∷ put (script_ref /+ codes "exit_code") (Value.number exit_code)
    ∷ []

unfoldable pub run_script : Host → Scripts → Text → Action Scripts
unfolding report_output report_errors
run_script host s script_filename =
    write (script_item script_filename (exit_code_of host s script_filename))
    >> (report_output host s script_filename >>= (λ s'. report_errors host s' script_filename))

-- A file of documentation is no script.
unfoldable pub process_script : Host → Scripts → Text → Action Scripts
unfolding run_script
process_script host s script_filename =
    if contains_text (codes "README") script_filename
    then pure s
    else run_script host s script_filename

unfoldable pub process_scripts : Host → Scripts → List Text → Action Scripts
unfolding process_script
process_scripts host s [] = pure s
process_scripts host s (f ∷ fs) = process_script host s f >>= (λ s'. process_scripts host s' fs)

abbrev pub scripts_path : Env → Text
scripts_path env =
    parameter_or env (codes "sitter_scripts_path") (codes "/usr/share/sitter/scripts")

unfoldable pub on_process_watch : Host → Scripts → Action Scripts
unfolding process_scripts
on_process_watch host s = process_scripts host s (host.glob (scripts_path host.env ++ codes "/*"))
