-- ===== src/Worker/Run.antt =====
-- One run of the plugins: `run_plugins` and `report_error` of sitter/sitter_worker.cpp. A file is its
-- contents by name. An email keeps its addresses, its subject and the date of the run; the headers and
-- the attachments' encoding are libmimemail's.
pub mod Emails
pub mod Settle
use sitter.Base.{
  ℤ, pos, ◌+ℤ◌, ◌-ℤ◌, ◌*ℤ◌, ◌/ℤ◌, ◌%ℤ◌, pos_part, eqb_ℤ, ltb_ℤ, leb_ℤ, leb, Bool, true, false, not,
  ◌&&◌, ◌||◌, if◌then◌else◌, Text, codes, text_eq, to_string, is_empty, List, [], ◌∷◌, ◌++◌, Option,
  none, some, Result, ok, err, ◌>>=◌,
}
use sitter.Env.{Env}
use sitter.Json.{Doc, Value, put, ◌/+◌, size}
use sitter.Report.{Report, clear_errors}
use sitter.Server.{Server, get_server_parameter, get_cache_path}
use sitter.Settings.Priorities.{
  get_error_report_low_priority, get_error_report_medium_priority,
  get_error_report_critical_priority,
}
use sitter.Settings.Statistics.{get_statistics_period, get_error_report_settle_time}
use sitter.Settings.{Settings}

-- What the system answers during one run: the clock at each of the three `time(nullptr)`, the name of
-- the host, which files can be written, and the libraries that make directories and print JSON.
pub record Machine : Type 0 where
  pub start_date : ℤ
  pub end_date : ℤ
  pub now : ℤ
  pub hostname : Text
  pub writable : Text → Bool
  pub mkdir_p : Text → ℤ
  pub json_text : Doc → Text

abbrev Files : Type 0
Files = Text → Option Text

pub record Email : Type 0 where
  pub from : Text
  pub to : Text
  subject : Text
  pub start_date : ℤ
  body : Text

pub record Daemon : Type 0 where
  pub server : Server
  pub files : Files
  pub emails : List Email
  -- the `err_once` of an empty result
  pub err_once : Bool

abbrev pub write_all : Machine → Text → Text → Files → Files
write_all m name contents files =
    if m.writable name
    then (λ other. if text_eq other name then some contents else files other)
    else files

-- `get_error_report_low_span` and its two kin, after the priority's getter.
abbrev span_after : (Settings → ℤ) → Result (Settings × ℤ) → Result (Settings × ℤ)
span_after span (ok (s, p)) = ok (s, span s)
span_after span (err e) = err e

unfoldable pub get_error_report_low_span : Env → Settings → Result (Settings × ℤ)
get_error_report_low_span env s = span_after (λ t. t.low_span) (get_error_report_low_priority env s)

unfoldable pub get_error_report_medium_span : Env → Settings → Result (Settings × ℤ)
get_error_report_medium_span env s =
    span_after (λ t. t.medium_span) (get_error_report_medium_priority env s)

unfoldable pub get_error_report_critical_span : Env → Settings → Result (Settings × ℤ)
get_error_report_critical_span env s =
    span_after (λ t. t.critical_span) (get_error_report_critical_priority env s)

-- The time to wait between two emails for errors of this priority, where it is not too low; the last
-- argument is the low span.
medium_or_low : Env → ℤ → ℤ → Settings → Result (Settings × ℤ)
medium_or_low env priority span s = do
  (s', medium) ← get_error_report_medium_priority env s
  if leb_ℤ medium priority then get_error_report_medium_span env s' else ok (s', span)

unfoldable pub select_span : Env → ℤ → Settings → Result (Settings × ℤ)
unfolding medium_or_low
select_span env priority s = do
  (s1, span) ← get_error_report_low_span env s
  (s2, critical) ← get_error_report_critical_priority env s1
  if leb_ℤ critical priority
      then get_error_report_critical_span env s2
      else medium_or_low env priority span s2

-- Less than `span` seconds have passed since the date in the file of the last email.
unfoldable pub too_soon : Env → ℤ → ℤ → Option Text → Bool
too_soon env now span none = false
too_soon env now span (some contents) =
    let (valid, last_mail_date) = env.convert_integer contents (pos 0) in
    valid && ltb_ℤ (now -ℤ last_mail_date) span

abbrev subject_for : Machine → ℤ → Text
subject_for m count =
    codes "sitter: found "
    ++ to_string count
    ++ codes " error"
    ++ (if eqb_ℤ count (pos 1) then [] else codes "s")
    ++ codes " on "
    ++ m.hostname

unfoldable pub send_email : Env → Machine → Daemon → Daemon
send_email env m d =
    let from_email = get_server_parameter env (codes "from_email") in
    let administrator_email = get_server_parameter env (codes "administrator_email") in
    let data_text = m.json_text d.server.report.doc in
    if is_empty from_email || is_empty administrator_email then d else record d {
      emails =
          d.emails
          ++ (record {
            from = from_email;
            to = administrator_email;
            subject = subject_for m d.server.report.error_count;
            start_date = m.start_date;
            body = codes "<p>" ++ data_text ++ codes "</p>";
          })
            ∷ [];
    }

-- From the choice of the span on.
unfoldable pub report_after : Env → Machine → ℤ → Daemon → Daemon
report_after env m span d =
    let (server, filename) = get_cache_path m.mkdir_p env (codes "last_email_time.txt") d.server in
    let saved = write_all m filename (to_string m.now) d.files in
    if too_soon env m.now span (d.files filename)
    then record d { server = server }
    else send_email env m (record d { server = server; files = saved })

-- From the first test on, given the settings and the low priority.
unfoldable pub report_with : Env → Machine → Daemon → Settings × ℤ → Result Daemon
report_with env m d (s, low) =
    let priority = d.server.report.max_error_priority in
    let reported = do
      (s', span) ← select_span env priority s
      ok (report_after env m span (record d { server = record d.server { settings = s' } }))
    in if ltb_ℤ priority low
      then ok (record d { server = record d.server { settings = s } })
      else reported

unfoldable pub report_error : Env → Machine → Daemon → Result Daemon
unfolding report_with
report_error env m d = do
  first ← get_error_report_low_priority env d.server.settings
  report_with env m d first

-- The second of the period that a data file stands for: the minute of the start, modulo the period.
unfoldable pub data_date : ℤ → ℤ → ℤ
data_date start period = start /ℤ 60 *ℤ pos 60 %ℤ pos_part period

save_data : Env → Machine → Daemon → Daemon
unfolding data_date
save_data env m d =
    let data_path = get_server_parameter env (codes "data_path") in
    let (s, period) = get_statistics_period env d.server.settings in
    let name =
      data_path ++ codes "/" ++ to_string (data_date m.start_date period) ++ codes ".json" in
    if is_empty data_path then d else record d {
      server = record d.server { settings = s };
      files = write_all m name (m.json_text d.server.report.doc) d.files;
    }

-- Errors are reported by a run that took at least the settle time.
unfoldable pub report_if_settled : Env → Machine → Daemon → Result Daemon
report_if_settled env m d =
    let (s, settle) = get_error_report_settle_time env d.server.settings in
    let d' = record d { server = record d.server { settings = s } } in
    if ltb_ℤ (pos 0) d.server.report.error_count
    then (if leb_ℤ settle (m.end_date -ℤ m.start_date) then report_error env m d' else ok d')
    else ok d

-- Puts a member of the root object json["sitter"].
abbrev put_root : Text → ℤ → Daemon → Daemon
put_root name v d = record d {
  server = record d.server {
    report = record d.server.report {
      doc = d.server.report.doc ++ put ([] /+ name) (Value.number v) ∷ [];
    };
  };
}

-- `run_plugins`, where `process_watch` is the signal that runs every plugin on the new document.
unfoldable run_plugins : (Daemon → Result Daemon) → Env → Machine → Daemon → Result Daemon
unfolding save_data
run_plugins process_watch env m d = do
  let fresh = record d {
    server = record d.server { report = clear_errors (record d.server.report { doc = [] }) };
  }
  watched ← process_watch (put_root (codes "start_date") m.start_date fresh)
  let done = put_root (codes "end_date") m.end_date watched
  if leb (size done.server.report.doc) 2
      then ok (record done { err_once = false })
      else report_if_settled env m (save_data env m done)
