-- ===== src/Plugins/Disk/Reports.antt =====
-- What plugins/sitter_disk/disk.cpp reports, mount by mount.
use sitter.Base.{
  ◌≡◌, refl, ℤ, pos, ◌==◌, Bool, true, false, not, if◌then◌else◌, Text, codes, List, [], ◌∷◌, map,
  Option, none, some, Result, ok, err, arith, Bool-cases, inl, inr, subst,
}
use sitter.Double.{Double}
use sitter.Report.{Report}
use sitter.Report.Laws.{InRange, Issue}
use sitter.Report.Adds.{Gives, Gives-bind, Adds-pure, Adds-write, Adds-report}
use sitter.Report.Gives.{
  Gives-error, Verdict, quiet, reports, throws, ending, reported, ending_then, reported_then,
  Gives-step,
}
use sitter.Action.{lift, write, when, ◌>>=◌, ◌>>◌}
use sitter.Plugins.Disk.Alarm.{StatFs, AlarmState, statvfs_try}
use sitter.Plugins.Disk.{
  Host, disk_ref, any_match, ignore_filled_partitions, disk_ignore_patterns, partition_doc,
  full_doc, usage_of, full_priority, full_message, full_error, check_user_patterns, check_full,
  check_partition, check_mounts, on_process_watch,
}

-- The first answer that is not false.
abbrev pub first_answer : List (Result Bool) → Result Bool
first_answer [] = ok false
first_answer (err e ∷ answers) = err e
first_answer (ok true ∷ answers) = ok true
first_answer (ok false ∷ answers) = first_answer answers

pub any_match-first :
    (match : Text → Result Bool) (patterns : List Text)
    → any_match match patterns ≡ first_answer (map match patterns)
unfolding any_match
any_match-first match [] = refl
any_match-first match (pattern ∷ patterns) = ground (arith, any_match-first match patterns)

-- The user's patterns decide, and then those of the plugin before them.
abbrev user_verdict : Result Bool → Issue → Verdict
user_verdict (err e) issue = throws e
user_verdict (ok true) issue = quiet
user_verdict (ok false) issue = reports issue

abbrev pattern_verdict : Result Bool → Verdict → Verdict
pattern_verdict (err e) by_user = throws e
pattern_verdict (ok true) by_user = quiet
pattern_verdict (ok false) by_user = by_user

module _ (D : Type 0) ⦃d : Double D⦄ where
  -- 1 less the share of the blocks that are available.
  abbrev pub used : StatFs → D
  used s = d.sub (d.decimal 10 1) (d.div (d.of_int (pos s.bavail)) (d.of_int (pos s.blocks)))

  -- 99.9%, 95% and below.
  abbrev pub level : D → ℤ
  level usage =
      if d.le (d.decimal 999 3) usage
      then pos 100
      else if d.le (d.decimal 95 2) usage
      then pos 80
      else pos 55

  abbrev pub full_issue : Host → Text → D → Issue
  full_issue host dir usage = (full_message D host dir usage, level usage)

  abbrev full_verdict : Host → Text → D → Verdict
  full_verdict host dir usage =
      pattern_verdict (first_answer (map (host.regex_match dir) ignore_filled_partitions)) (
        user_verdict (first_answer (map (host.regex_match dir) (disk_ignore_patterns host.env)))
          (full_issue host dir usage))

  -- What becomes of one mount: nothing without an answer of `statvfs`, without blocks or below 90%.
  abbrev pub mount_verdict : Host → Text → Option StatFs → Verdict
  mount_verdict host dir none = quiet
  mount_verdict host dir (some s) =
      if s.blocks == 0
      then quiet
      else if d.le (d.decimal 9 1) (used s)
      then full_verdict host dir (used s)
      else quiet

  -- The answer does not depend on the alarm that is pending.
  abbrev stat_of : Host → Text → Option StatFs
  stat_of host dir = if (host.calls dir).can_set then (host.calls dir).statvfs else none

  abbrev pub disk_issues : Host → List Text → List Issue
  disk_issues host [] = []
  disk_issues host (dir ∷ dirs) =
      reported_then (mount_verdict host dir (stat_of host dir)) (disk_issues host dirs)

  abbrev pub disk_ending : Host → List Text → Result (Unit {0})
  disk_ending host [] = ok tt
  disk_ending host (dir ∷ dirs) =
      ending_then (mount_verdict host dir (stat_of host dir)) (disk_ending host dirs)

  used-Is : (s : StatFs) → usage_of D s ≡ used s
  unfolding usage_of
  used-Is s = refl

  full_priority-InRange : (usage : D) → InRange (full_priority D usage)
  unfolding full_priority
  full_priority-InRange usage = ground arith

  user_patterns-Gives :
      (host : Host) (dir : Text) (usage : D) (m : Result Bool) (r : Report)
      → let v = user_verdict m (full_issue host dir usage) in
        Gives
          (lift m >>= λ ignored. when (not ignored) (full_error D host dir usage))
          r
          (ending v)
          (reported v)
  unfolding full_priority
  user_patterns-Gives host dir usage (err e) r = Gives-error e r
  user_patterns-Gives host dir usage (ok true) r = Adds-pure tt r
  user_patterns-Gives host dir usage (ok false) r =
      Adds-report true disk_ref (codes "disk") (full_message D host dir usage)
        (full_priority D usage) r (full_priority-InRange usage)

  by_user-Gives :
      (host : Host) (dir : Text) (usage : D) (r : Report)
      → let v =
          user_verdict
            (first_answer (map (host.regex_match dir) (disk_ignore_patterns host.env)))
            (full_issue host dir usage) in
        Gives (check_user_patterns D host dir usage false) r (ending v) (reported v)
  unfolding check_user_patterns
  by_user-Gives host dir usage r =
      let patterns = disk_ignore_patterns host.env in
      subst
        (λ m.
          Gives (check_user_patterns D host dir usage false) r
            (ending (user_verdict m (full_issue host dir usage)))
            (reported (user_verdict m (full_issue host dir usage))))
        (any_match-first (host.regex_match dir) patterns)
        (user_patterns-Gives host dir usage (any_match (host.regex_match dir) patterns) r)

  full_verdict-Gives :
      (host : Host) (dir : Text) (usage : D) (m : Result Bool) (r : Report)
      → let by_user =
          user_verdict
            (first_answer (map (host.regex_match dir) (disk_ignore_patterns host.env)))
            (full_issue host dir usage) in
        let v = pattern_verdict m by_user in
        Gives
          (lift m >>= λ ignore.
            (write (full_doc ignore) >> check_user_patterns D host dir usage ignore))
          r
          (ending v)
          (reported v)
  unfolding check_user_patterns
  full_verdict-Gives host dir usage (err e) r = Gives-error e r
  full_verdict-Gives host dir usage (ok true) r = Adds-write (full_doc true) r
  full_verdict-Gives host dir usage (ok false) r =
      let answer = first_answer (map (host.regex_match dir) (disk_ignore_patterns host.env)) in
      let v = user_verdict answer (full_issue host dir usage) in
      Gives-bind (write (full_doc false)) (λ _. check_user_patterns D host dir usage false) r tt
        (ending v) [] (reported v) (Adds-write (full_doc false) r)
        (by_user-Gives host dir usage (write (full_doc false) r).0)

  check_full-Gives :
      (host : Host) (dir : Text) (usage : D) (r : Report)
      → let v = full_verdict host dir usage in
        Gives (check_full D host dir usage) r (ending v) (reported v)
  unfolding check_full
  check_full-Gives host dir usage r =
      let by_user =
        user_verdict (first_answer (map (host.regex_match dir) (disk_ignore_patterns host.env)))
          (full_issue host dir usage) in
      subst
        (λ m.
          Gives (check_full D host dir usage) r (ending (pattern_verdict m by_user))
            (reported (pattern_verdict m by_user)))
        (any_match-first (host.regex_match dir) ignore_filled_partitions)
        (full_verdict-Gives host dir usage
          (any_match (host.regex_match dir) ignore_filled_partitions) r)

  pub mount_verdict-Gives :
      (host : Host) (dir : Text) (stat : Option StatFs) (r : Report)
      → let v = mount_verdict host dir stat in
        Gives (check_partition D host dir stat) r (ending v) (reported v)
  unfolding check_partition
  mount_verdict-Gives host dir none r = Adds-pure tt r
  mount_verdict-Gives host dir (some s) r = elim (Bool-cases (s.blocks == 0)) [
    | inl virtual ↦ rw virtual (Adds-pure tt r)
    | inr blocks ↦ elim (Bool-cases (d.le (d.decimal 9 1) (used s))) [
      | inl full ↦
          rw (blocks, used-Is s, full)
            (Gives-bind (write (partition_doc dir s)) (λ _. check_full D host dir (used s)) r tt
              (ending (full_verdict host dir (used s))) []
              (reported (full_verdict host dir (used s))) (Adds-write (partition_doc dir s) r)
              (check_full-Gives host dir (used s) (write (partition_doc dir s) r).0))
      | inr free ↦ rw (blocks, used-Is s, free) (Adds-write (partition_doc dir s) r)
    ]
  ]

  statvfs_try-answer :
      (host : Host) (dir : Text) (p : AlarmState)
      → (statvfs_try (host.calls dir) 3 p).1 ≡ stat_of host dir
  unfolding statvfs_try
  statvfs_try-answer host dir p = elim (Bool-cases (host.calls dir).can_set) [
    | inl set ↦ rw set refl
    | inr unset ↦ rw unset refl
  ]

  check_mounts-Gives :
      (host : Host) (dirs : List Text) (p : AlarmState) (r : Report)
      → Gives (check_mounts D host dirs p) r (disk_ending host dirs) (disk_issues host dirs)
  unfolding check_mounts
  check_mounts-Gives host [] p r = Adds-pure tt r
  check_mounts-Gives host (dir ∷ dirs) p r =
      let after = (statvfs_try (host.calls dir) 3 p).0 in
      rw (statvfs_try-answer host dir p) (
        Gives-step (mount_verdict host dir (stat_of host dir))
          (check_partition D host dir (stat_of host dir)) (check_mounts D host dirs after) r
          (disk_ending host dirs) (disk_issues host dirs)
          (mount_verdict-Gives host dir (stat_of host dir) r) (check_mounts-Gives host dirs after))

  -- For every list of mounts, every regular expressions and every way to compute with `double`, a run of
  -- the plugin reports exactly these errors, in the order of the mounts: one for each partition that has
  -- blocks, is at least 90% full and is matched neither by the pattern of the plugin nor by one of the user,
  -- with a message that names it, of priority 100 from 99.9% on, 80 from 95% on and 55 below. It ends with the exception of the first partition so full for which a
  -- pattern throws before one matches, and the mounts after that one are not reported.
  pub disk-Report :
      (host : Host) (r : Report)
      → Gives
          (on_process_watch D host)
          r
          (disk_ending host host.mounts)
          (disk_issues host host.mounts)
  unfolding on_process_watch
  disk-Report host r = check_mounts-Gives host host.mounts host.process r
