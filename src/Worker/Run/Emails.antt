-- ===== src/Worker/Run/Emails.antt =====
-- When `report_error` of sitter/sitter_worker.cpp sends an email, and the names of the data files.
use sitter.Base.{
  ℕ, ◌+◌, ◌*◌, ◌/◌, ◌%◌, ◌≤◌, ◌<◌, ◌≡◌, ◌≢◌, refl, ap, ◌∙◌, ◌⊎◌, inl, inr, ℤ, pos, ◌-ℤ◌, ◌*ℤ◌, ◌/ℤ◌,
  ◌%ℤ◌, ◌≤ℤ◌, ltb_ℤ, true, false, Text, codes, text_eq_refl, to_string, is_empty_of_ne-nil, [],
  none, some, Result, ok, ◌>>=◌, >>=-eq-ok, arith, Bool-cases,
}
use native.Mathlib.Nat.{div-add-mod, mul-add-mod_self_left, mod-eq_of_lt, mod-lt}
use sitter.Env.{Env}
use sitter.Server.{Server, get_cache_path}
use sitter.Settings.{Settings}
use sitter.Settings.Priorities.{get_error_report_low_priority}
use sitter.Worker.Run.{
  Machine, Daemon, write_all, select_span, too_soon, send_email, report_after, report_with,
  report_error, data_date,
}

-- The file that holds the date of the last email.
abbrev last_email_file : Env → Machine → Server → Text
last_email_file env m s = (get_cache_path m.mkdir_p env (codes "last_email_time.txt") s).1

-- The span that applies to the errors of the daemon, as `report_error` finds it.
abbrev pub span_of : Env → Daemon → Result ℤ
span_of env d = do
  (s, low) ← get_error_report_low_priority env d.server.settings
  (s', span) ← select_span env d.server.report.max_error_priority s
  ok span

abbrev with_settings : Daemon → Settings → Daemon
with_settings d s = record d { server = record d.server { settings = s } }

-- A call that returns did nothing, the errors being too low, or went on with the span that applies.
abbrev Outcome : Env → Machine → Daemon → Daemon → Type 0
Outcome env m d d' =
    ((d'.emails ≡ d.emails) × (d'.files ≡ d.files))
    ⊎ ((s : Settings) × (span : ℤ) × (span_of env d ≡ ok span)
        × (d' ≡ report_after env m span (with_settings d s)))

report_error-Outcome :
    (env : Env) (m : Machine) (d d' : Daemon) → report_error env m d ≡ ok d' → Outcome env m d d'
unfolding report_error
report_error-Outcome env m d d' e =
    let priority = d.server.report.max_error_priority in
    let (first, e1, rest) =
      >>=-eq-ok (get_error_report_low_priority env d.server.settings) (report_with env m d) e in
    elim (Bool-cases (ltb_ℤ priority first.1)) [
      | inl low ↦ inl (ground arith)
      | inr high ↦
          let (second, e2, sent) =
            >>=-eq-ok (select_span env priority first.0)
              (λ t. ok (report_after env m t.1 (with_settings d t.0))) (rw high at rest) in
          inr (second.0, second.1, rw (e1, e2), ground arith)
    ]

send_email-files : (env : Env) (m : Machine) (d : Daemon) → (send_email env m d).files ≡ d.files
unfolding send_email
send_email-files env m d = ground arith

report_after-sent :
    (env : Env) (m : Machine) (span : ℤ) (d : Daemon)
    → (report_after env m span d).emails ≢ d.emails
    → too_soon env m.now span (d.files (last_email_file env m d.server)) ≡ false
unfolding report_after
report_after-sent env m span d sent = ground arith

report_after-saves :
    (env : Env) (m : Machine) (span : ℤ) (d : Daemon)
    → m.writable (last_email_file env m d.server) ≡ true
    → too_soon env m.now span (d.files (last_email_file env m d.server)) ≡ false
    → (report_after env m span d).files (last_email_file env m d.server) ≡ some (to_string m.now)
unfolding report_after
report_after-saves env m span d writable due =
    let name = last_email_file env m d.server in
    let server = (get_cache_path m.mkdir_p env (codes "last_email_time.txt") d.server).0 in
    let saved = write_all m name (to_string m.now) d.files in
    rw (due, send_email-files env m (record d { server = server; files = saved }), writable)
      (rw (text_eq_refl name) refl)

last_email_file-kept :
    (env : Env) (m1 m2 : Machine) (s1 s2 : Server)
    → s1.cache_path ≢ []
    → s2.cache_path ≡ s1.cache_path
    → last_email_file env m2 s2 ≡ last_email_file env m1 s1
unfolding get_cache_path
last_email_file-kept env m1 m2 s1 s2 path same =
    ground (arith, is_empty_of_ne-nil s1.cache_path path)

too_soon-passed :
    (env : Env) (now last span : ℤ)
    → env.convert_integer (to_string last) (pos 0) ≡ (true, last)
    → too_soon env now span (some (to_string last)) ≡ false
    → span ≤ℤ now -ℤ last
unfolding too_soon
too_soon-passed env now last span reads due = omega (arith, passed (rw reads at due))
  where
    passed : ltb_ℤ (now -ℤ last) span ≡ false → span ≤ℤ now -ℤ last
    passed h = ground arith

-- Two emails are at least the span apart. Suppose that the cache path is set, that a report was sent,
-- that its date could be saved and reads back as the number it was printed from, and that the file and
-- the cache path are as it left them. If a later call of `report_error` sends an email too, then the
-- span that applies to its errors has passed since the first.
pub emails_apart :
    (env : Env) (m1 m2 : Machine) (span1 : ℤ) (d d2 d3 : Daemon)
    → d.server.cache_path ≢ []
    → d2.server.cache_path ≡ d.server.cache_path
    → m1.writable (last_email_file env m1 d.server) ≡ true
    → env.convert_integer (to_string m1.now) (pos 0) ≡ (true, m1.now)
    → (report_after env m1 span1 d).emails ≢ d.emails
    → d2.files (last_email_file env m1 d.server)
      ≡ (report_after env m1 span1 d).files (last_email_file env m1 d.server)
    → report_error env m2 d2 ≡ ok d3
    → d3.emails ≢ d2.emails
    → (span : ℤ) × (span_of env d2 ≡ ok span) × (span ≤ℤ m2.now -ℤ m1.now)
emails_apart env m1 m2 span1 d d2 d3 path same writable reads sent kept again more =
    let saved =
      report_after-saves env m1 span1 d writable (report_after-sent env m1 span1 d sent) in
    elim (report_error-Outcome env m2 d2 d3 again) [
      | inl (none_sent, _) ↦ absurd (more none_sent)
      | inr (s, span, applies, e) ↦
          let due = report_after-sent env m2 span (with_settings d2 s) (rw e at more) in
          let name =
            last_email_file-kept env m1 m2 d.server (with_settings d2 s).server path same in
          (
            span,
            applies,
            too_soon-passed env m2.now m1.now span reads (rw (name, kept, saved) at due),
          )
    ]

mul-mod-mul : (q p : ℕ) → 0 < p → 60 * q % (60 * p) ≡ 60 * (q % p)
mul-mod-mul q p h =
    let split = div-add-mod q p in
    let product : 60 * q ≡ 60 * p * (q / p) + 60 * (q % p) =
      omega (arith, ap (λ (t : ℕ). 60 * t) split) in
    let small : 60 * (q % p) < 60 * p = omega (arith, mod-lt q {m = p} h) in
    rw product (mul-add-mod_self_left (60 * p) (q / p) (60 * (q % p)) ∙ mod-eq_of_lt small)

data_date-pos :
    (start period : ℕ) → data_date (pos start) (pos period) ≡ pos (60 * (start / 60) % period)
unfolding data_date ◌*ℤ◌ ◌/ℤ◌ ◌%ℤ◌
data_date-pos start period = ground arith

-- Suppose that `mkdir_p` returns 0 for the cache path, that the path is not kept yet, and that a file
-- with the empty name neither exists nor can be written. Then a report whose priority is high enough
-- sends the email, whatever the span, and leaves the path unset and the files as they were, so that the
-- next one does too.
emails_unlimited :
    (env : Env) (m : Machine) (span : ℤ) (d : Daemon)
    → m.mkdir_p (env.get_string (codes "cache_path")) ≡ pos 0
    → d.server.cache_path ≡ []
    → d.files [] ≡ none
    → m.writable [] ≡ false
    → let d' = report_after env m span d in
      (d'.emails ≡ (send_email env m d).emails) × (d'.server.cache_path ≡ []) × (d'.files ≡ d.files)
unfolding report_after get_cache_path too_soon send_email
emails_unlimited env m span d made path absent readonly = ground arith

-- The data of a run goes to a file named after a whole minute below the period, so a period of `hours`
-- hours never leaves more than 60 * `hours` files; and starts in the same minute, or a whole number of
-- periods apart, share a file.
data_date_lem :
    (start hours : ℕ)
    → 1 ≤ hours
    → (minute : ℕ) × (data_date (pos start) (pos (3600 * hours)) ≡ pos (60 * minute))
      × (minute < 60 * hours)
      × (minute ≡ (start / 60) % (60 * hours))
data_date_lem start hours h = (
  (start / 60) % (60 * hours),
  data_date-pos start (3600 * hours)
      ∙ ap pos (rw (product) (mul-mod-mul (start / 60) (60 * hours) (omega arith))),
  mod-lt (start / 60) {m = 60 * hours} (omega arith),
  refl,
)
  where
    product : 3600 * hours ≡ 60 * (60 * hours)
    product = omega arith
