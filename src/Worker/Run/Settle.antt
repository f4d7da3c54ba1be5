-- ===== src/Worker/Run/Settle.antt =====
-- The settle time in `run_plugins` of sitter/sitter_worker.cpp: which runs report their errors.
use sitter.Base.{◌≡◌, ℤ, pos, ◌-ℤ◌, ◌≤ℤ◌, ◌<ℤ◌, codes, Option, none, some, Result, ok, err, arith}
use sitter.Env.{Env}
use sitter.Settings.Statistics.{get_error_report_settle_time, load_settle_time}
use sitter.Worker.Run.{Machine, Daemon, report_error, report_if_settled}

abbrev asked : Env → Option ℤ
asked env = env.duration_seconds (env.get_string (codes "error_report_settle_time"))

-- The call returns, with no email and no file changed.
abbrev IsSilent : Daemon → Result Daemon → Type 0
IsSilent d (ok d') = (d'.emails ≡ d.emails) × (d'.files ≡ d.files)
IsSilent d (err e) = ⊥

-- Where the settle time is not loaded yet and is a valid duration, a run of less than a minute reports
-- nothing: it only loads the settle time. So the time compared is that of the run, not that of the
-- process.
short_runs_report_nothing :
    (env : Env) (m : Machine) (d : Daemon) (t : ℤ)
    → d.server.settings.error_report_settle_time <ℤ pos 0
    → asked env ≡ some t
    → m.end_date -ℤ m.start_date <ℤ pos 60
    → IsSilent d (report_if_settled env m d)
unfolding report_if_settled get_error_report_settle_time load_settle_time
short_runs_report_nothing env m d t unset valid short = ground arith

-- An unset settle time that is no valid duration stays unset, below zero, so every run with an error
-- goes on to `report_error`, however short it was; only the clock must not run backwards.
invalid_settle_time_reports :
    (env : Env) (m : Machine) (d : Daemon)
    → d.server.settings.error_report_settle_time <ℤ pos 0
    → asked env ≡ none
    → pos 0 <ℤ d.server.report.error_count
    → pos 0 ≤ℤ m.end_date -ℤ m.start_date
    → report_if_settled env m d ≡ report_error env m d
unfolding report_if_settled get_error_report_settle_time load_settle_time
invalid_settle_time_reports env m d unset invalid errors forward = ground arith
