-- ===== src/Plugins/Apt.antt =====
-- The apt plugin, plugins/sitter_apt/apt.cpp: it reads what another daemon wrote about the packages that
-- can be upgraded.
pub mod Reports
use sitter.Base.{
  ℤ, pos, ◌+ℤ◌, leb_ℤ, Bool, true, false, if◌then◌else◌, Text, codes, text_eq, List, [], ◌∷◌, ◌++◌,
  Option, none, some,
}
use sitter.Env.{Env, ConfFile}
use sitter.Json.{Key, Value, put, ◌/+◌}
use sitter.Report.{append_error}
use sitter.Action.{Action, pure, ◌>>=◌, ◌>>◌, write}

-- What the plugin calls outside this repository: the configuration file of the manager, the file of the
-- updates, and the clock.
pub record Host : Type 0 where
  pub env : Env
  pub manager_config : ConfFile
  pub read_all : Text → Option Text
  pub trim_string : Text → Text
  pub now : ℤ

abbrev pub apt_ref : List Key
apt_ref = [] /+ codes "apt"

unfoldable pub apt_check_output : Host → Text
apt_check_output host =
    (if host.manager_config.has_parameter (codes "cache_path")
      then host.manager_config.get_parameter (codes "cache_path")
      else codes "/var/cache/snapwebsites")
    ++ codes "/apt-check.output"

-- A count that is no number is 0.
unfoldable pub count_of : Env → Text → ℤ
count_of env count = (env.convert_integer count (pos 0)).1

abbrev pub apt_error : Text → ℤ → Action (Unit {0})
apt_error message priority = append_error apt_ref (codes "apt") message priority

-- A day and one hour.
unfoldable pub is_valid_on : Host → ℤ → Bool
is_valid_on host cached_on = leb_ℤ host.now (cached_on +ℤ pos 86400 +ℤ pos 3600)

unfoldable pub report_updates : Text → Action (Unit {0})
report_updates security =
    if text_eq security (codes "0")
    then apt_error (codes "there are standard packages that can be upgraded now on this system.")
        (pos 45)
    else apt_error
        (codes "there are packages including security updates"
          ++ codes " that need to be upgraded on this system.")
        (pos 52)

unfoldable pub check_updates : Host → Text → Text → Action (Unit {0})
unfolding count_of report_updates
check_updates host total security =
    if text_eq total (codes "0")
    then pure tt
    else (write (
          put (apt_ref /+ codes "total-updates") (Value.number (count_of host.env total))
          ∷ put (apt_ref /+ codes "security-updates") (Value.number (count_of host.env security))
          ∷ [])
        >> report_updates security)

abbrev pub old_message : Host → Text
old_message host =
    codes "\""
    ++ apt_check_output host
    ++ codes "\" file is out of date, the snapmanagerdaemon did not update it"
    ++ codes " for more than a day"

unfoldable pub check_age : Host → ℤ → Text → Text → Action (Unit {0})
unfolding is_valid_on check_updates
check_age host cached_on total security =
    write (put (apt_ref /+ codes "last-updated") (Value.number cached_on) ∷ [])
    >> (if is_valid_on host cached_on
        then check_updates host total security
        else apt_error (old_message host) (pos 50))

unfoldable pub check_counts : Host → List Text → Action (Unit {0})
unfolding check_age count_of apt_check_output
check_counts host (date ∷ total ∷ security ∷ []) =
    check_age host (count_of host.env date) total security
check_counts host _ =
    apt_error
      (codes "could not figure out the contents of \""
        ++ apt_check_output host
        ++ codes "\", snapmanagerdaemon may have changed the format since we wrote"
        ++ codes " the sitter apt plugin?")
      (pos 15)

unfoldable pub check_contents : Host → Text → Action (Unit {0})
unfolding check_counts
check_contents host contents =
    if text_eq contents (codes "-1")
    then apt_error
        (codes "we are unable to check whether some updates are"
          ++ codes " available (the `apt-check` command was not found)")
        (pos 98)
    else check_counts host (host.env.split_string contents (codes ";"))

unfoldable pub check_apt_check : Host → Option Text → Action (Unit {0})
unfolding check_contents apt_check_output
check_apt_check host none =
    apt_error
      (codes "\""
        ++ apt_check_output host
        ++ codes "\" file is missing, sitter is not getting APT status updates from"
        ++ codes " snapmanagerdaemon")
      (pos 20)
check_apt_check host (some contents) = check_contents host (host.trim_string contents)

unfoldable pub on_process_watch : Host → Action (Unit {0})
unfolding check_apt_check
on_process_watch host = check_apt_check host (host.read_all (apt_check_output host))
