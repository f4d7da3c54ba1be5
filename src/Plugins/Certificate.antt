-- ===== src/Plugins/Certificate.antt =====
-- The certificate plugin, plugins/sitter_certificate/certificate.cpp: the delays before a certificate
-- expires with their priorities, and the check of each domain. `g_last_delay_error` only limits what is
-- logged and is left out.
pub mod Delays
pub mod Domain
pub mod Access
use sitter.Base.{
  ℤ, pos, ◌-ℤ◌, ◌/ℤ◌, ltb_ℤ, leb_ℤ, eqb_ℤ, Bool, true, false, ◌&&◌, if◌then◌else◌, Text, codes,
  text_eq, to_string, is_empty, List, [], ◌∷◌, ◌++◌, Option, none, some,
}
use sitter.Env.{Env}
use sitter.Json.{Key, Value, put, ◌/+◌}
use sitter.Report.{append_error}
use sitter.Action.{Action, pure, ◌>>=◌, ◌>>◌, write}
use sitter.Server.{get_server_parameter}

-- `f_delays_n_priorities`, a map from days to a priority, by increasing days.
abbrev pub Delays : Type 0
Delays = List (ℤ × ℤ)

unfoldable pub set_delay : ℤ → ℤ → Delays → Delays
set_delay d p [] = (d, p) ∷ []
set_delay d p ((e, q) ∷ m) =
    let rest = set_delay d p m in
    if eqb_ℤ d e then (d, p) ∷ m else if ltb_ℤ d e then (d, p) ∷ (e, q) ∷ m else (e, q) ∷ rest

-- One entry, "<delay in days>/<priority>"; none where it is invalid.
unfoldable pub entry_from : Env → List Text → Option (ℤ × ℤ)
entry_from env (delay_text ∷ priority_text ∷ []) =
    let (delay_valid, delay) = env.convert_integer delay_text (pos 0) in
    let (priority_valid, priority) = env.convert_integer priority_text (pos 0) in
    if delay_valid && (ltb_ℤ (pos 0) delay && leb_ℤ delay (pos 3660))
    then (if priority_valid && (leb_ℤ (pos 0) priority && leb_ℤ priority (pos 100))
        then some (delay, priority)
        else none)
    else none
entry_from env _ = none

unfoldable pub add_entry : Option (ℤ × ℤ) → Delays → Delays
unfolding set_delay
add_entry none m = m
add_entry (some (d, p)) m = set_delay d p m

unfoldable pub parse_entries : Env → List Text → Delays → Delays
unfolding add_entry entry_from
parse_entries env [] m = m
parse_entries env (w ∷ ws) m =
    parse_entries env ws (add_entry (entry_from env (env.split_string w (codes "/"))) m)

-- The defaults where no entry is valid.
unfoldable pub or_defaults : Delays → Delays
or_defaults [] = (pos 7, pos 100) ∷ (pos 14, pos 85) ∷ (pos 30, pos 45) ∷ []
or_defaults (entry ∷ m) = entry ∷ m

unfoldable pub parse_delays : Env → Delays
unfolding parse_entries or_defaults
parse_delays env =
    let text = get_server_parameter env (codes "certificate_warning_delays") in
    or_defaults (parse_entries env (env.split_string text (codes ",")) [])

-- The priority of the first delay that the days left do not exceed.
unfoldable pub priority_for : ℤ → Delays → Option ℤ
priority_for diff [] = none
priority_for diff ((d, p) ∷ m) =
    let rest = priority_for diff m in if leb_ℤ diff d then some p else rest

-- What the plugin finds: the clock, the domain that each configuration file of a pattern names, the
-- end of a domain's certificate (the outer option is `load_from_domain`, the inner one a date that is
-- there), and how a date is printed.
pub record Domains : Type 0 where
  pub now : ℤ
  pub configs : Text → List (Option Text)
  pub not_after : Text → Option (Option ℤ)
  pub date_text : ℤ → Text

-- `f_access_error`: when a failure of each domain was last reported.
abbrev pub Failures : Type 0
Failures = List (Text × ℤ)

unfoldable pub failure_of : Text → Failures → Option ℤ
failure_of domain [] = none
failure_of domain ((k, t) ∷ m) =
    let rest = failure_of domain m in if text_eq domain k then some t else rest

unfoldable pub set_failure : Text → ℤ → Failures → Failures
set_failure domain t [] = (domain, t) ∷ []
set_failure domain t ((k, u) ∷ m) =
    let rest = set_failure domain t m in if text_eq domain k then (domain, t) ∷ m else (k, u) ∷ rest

abbrev pub report : List Key → Text → ℤ → Action (Unit {0})
report json message priority = append_error json (codes "certificate") message priority

abbrev pub of_domain : Text → Text → Text → Text
of_domain start domain end = start ++ codes " \"" ++ domain ++ codes "\"" ++ end

-- An error where there is a priority for it.
unfoldable pub report_some : List Key → Text → Option ℤ → Action (Unit {0})
report_some json message none = pure tt
report_some json message (some p) = report json message p

-- The days from the day of the check to the day on which a certificate ends.
abbrev pub days_left : Domains → ℤ → ℤ
days_left host end = end /ℤ 86400 -ℤ host.now /ℤ 86400

unfoldable pub end_message : Domains → Text → ℤ → Text
end_message host domain end =
    let diff = days_left host end in
    let days = codes " day" ++ (if eqb_ℤ diff (pos 1) then [] else codes "s") ++ codes ")." in
    if leb_ℤ diff (pos 0)
    then of_domain (codes "Certificate for domain") domain
        (codes " has expired on " ++ host.date_text end ++ codes ".")
    else of_domain (codes "Certificate for domain") domain
        (codes " will expire on " ++ host.date_text end ++ codes " (in " ++ to_string diff ++ days)

unfoldable pub end_priority : ℤ → Delays → Option ℤ
unfolding priority_for
end_priority diff delays = if leb_ℤ diff (pos 0) then some (pos 100) else priority_for diff delays

-- A certificate with its end.
unfoldable pub check_end : Domains → Delays → List Key → Text → ℤ → Action (Unit {0})
unfolding report_some end_message end_priority
check_end host delays json domain end =
    report_some json (end_message host domain end) (end_priority (days_left host end) delays)

-- The priority with which a failure is reported, if it is.
unfoldable pub failure_priority : ℤ → Option ℤ → Option ℤ
failure_priority now none = some (pos 75)
failure_priority now (some last) = if ltb_ℤ (pos 18000) (now -ℤ last) then some (pos 100) else none

-- The failure is remembered where it is reported.
unfoldable pub failures_after : Option ℤ → Text → ℤ → Failures → Failures
unfolding set_failure
failures_after none domain now failures = failures
failures_after (some p) domain now failures = set_failure domain now failures

-- A certificate that cannot be loaded.
unfoldable pub check_failure : Domains → List Key → Text → Failures → Action Failures
unfolding failure_of failure_priority failures_after report_some
check_failure host json domain failures =
    let p = failure_priority host.now (failure_of domain failures) in
    report_some json (of_domain (codes "Failed loading certificate of domain") domain (codes ".")) p
    >> pure (failures_after p domain host.now failures)

unfoldable pub check_certificate :
    Domains → Delays → List Key → Text → Failures → Option (Option ℤ) → Action Failures
unfolding check_end check_failure
check_certificate host delays json domain failures none = check_failure host json domain failures
check_certificate host delays json domain failures (some none) =
    report json
      (of_domain (codes "Failed getting the certificate notAfter date for domain") domain
        (codes "."))
      (pos 90)
    >> pure failures
check_certificate host delays json domain failures (some (some end)) =
    check_end host delays json domain end >> pure failures

unfoldable pub check_configs :
    Domains → Delays → List Key → List (Option Text) → Failures → Action Failures
unfolding check_certificate
check_configs host delays json [] failures = pure failures
check_configs host delays json (none ∷ cs) failures = check_configs host delays json cs failures
check_configs host delays json (some domain ∷ cs) failures =
    write (put (json /+ codes "certificate" /+ codes "domain") (Value.text domain) ∷ [])
    >> (check_certificate host delays json domain failures (host.not_after domain)
        >>= check_configs host delays json cs)

unfoldable pub directory : Env → Text
directory env =
    let path = get_server_parameter env (codes "certificate_path") in
    if is_empty path then codes "/etc/sitter/certificates" else path

-- What `glob` is asked for; the class of the second digit misses its bracket.
abbrev pub config_pattern : Env → Text
config_pattern env = directory env ++ codes "/[0-9]0-9]-*.conf"

unfoldable pub on_process_watch : Env → Domains → Failures → Action Failures
unfolding parse_delays check_configs directory
on_process_watch env host failures =
    check_configs host (parse_delays env) [] (host.configs (config_pattern env)) failures
