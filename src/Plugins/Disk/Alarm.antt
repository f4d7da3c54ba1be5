-- ===== src/Plugins/Disk/Alarm.antt =====
-- `statvfs_try` of plugins/sitter_disk/disk.cpp: `statvfs` with an alarm, which must leave the handler and
-- the alarm of the process as they were.
use sitter.Base.{
  ℕ, ◌+◌, ◌-◌, ◌%◌, ◌^◌, ◌≤◌, ◌<◌, ◌≡◌, ◌↔◌, ◌⊎◌, ℤ, pos, negsuc, leb, ◌==◌, Bool, true, false,
  if◌then◌else◌, Option, none, arith,
}

-- `struct statvfs`
pub record StatFs : Type 0 where
  pub blocks : ℕ
  pub bfree : ℕ
  pub bavail : ℕ
  pub frsize : ℕ
  pub ffree : ℕ
  pub favail : ℕ
  pub flag : ℕ

-- The handler of SIGALRM: the function of the plugin, or another.
pub data Handler : Type 0 where
  statvfs_alarm_handler : Handler
  other : ℕ → Handler

-- The process: its handler, and the seconds until its alarm, 0 for none.
pub record AlarmState : Type 0 where
  pub handler : Handler
  pub alarm : ℕ

-- How the system calls go: whether `sigaction` sets the handler and whether it sets it back, what `statvfs`
-- answers, none for -1, and the seconds that the clock has gained meanwhile.
pub record Calls : Type 0 where
  pub can_set : Bool
  pub can_restore : Bool
  pub statvfs : Option StatFs
  pub elapsed : ℤ

-- `static_cast<unsigned int>`
unfoldable pub to_unsigned : ℤ → ℕ
to_unsigned (pos n) = n % 4294967296
to_unsigned (negsuc n) = 4294967295 - n % 4294967296

-- The seconds left of the alarm that was pending.
unfoldable alarm_left : ℕ → ℤ → ℕ
alarm_left old_alarm elapsed =
    if leb old_alarm (to_unsigned elapsed) then 1 else old_alarm - to_unsigned elapsed

-- `alarm(seconds)` replaces the alarm and returns the one that was pending.
unfoldable set_alarm : ℕ → AlarmState → AlarmState × ℕ
set_alarm seconds p = (record p { alarm = seconds }, p.alarm)

unfoldable pub statvfs_try : Calls → ℕ → AlarmState → AlarmState × Option StatFs
unfolding set_alarm alarm_left
statvfs_try calls seconds p =
    let ours = record p { handler = statvfs_alarm_handler } in
    let (armed, old_alarm) = set_alarm seconds ours in
    let (disarmed, _) = set_alarm 0 armed in
    let restored =
      if calls.can_restore then record disarmed { handler = p.handler } else disarmed in
    let reset =
      if old_alarm == 0
      then restored
      else (set_alarm (alarm_left old_alarm calls.elapsed) restored).0 in
    if calls.can_set then (reset, calls.statvfs) else (p, none)

left-Is :
    (old passed : ℕ)
    → passed < 2 ^ 32
    → let left = if old == 0 then 0 else alarm_left old (pos passed) in
      ((left ≡ 0) ↔ (old ≡ 0)) × ((left + passed ≡ old) ⊎ ((old ≤ passed) × (left ≤ 1)))
unfolding alarm_left to_unsigned
left-Is old passed small = ground arith

-- If the handler can be set back, `statvfs_try` leaves the handler of the process as it was, and an alarm is
-- pending after it exactly if one was pending before. Where the handler could not be set at all, nothing
-- changes; otherwise the alarm has lost exactly the seconds that have passed (fewer than 2 ^ 32), or it was
-- due within them and is left at one second at most.
pub statvfs_try-Restores :
    (calls : Calls) (seconds passed : ℕ) (p : AlarmState)
    → calls.can_restore ≡ true
    → calls.elapsed ≡ pos passed
    → passed < 2 ^ 32
    → let after = (statvfs_try calls seconds p).0 in
      (after.handler ≡ p.handler)
      × ((after.alarm ≡ 0) ↔ (p.alarm ≡ 0))
      × (((calls.can_set ≡ false) × (after.alarm ≡ p.alarm))
          ⊎ (after.alarm + passed ≡ p.alarm)
          ⊎ ((p.alarm ≤ passed) × (after.alarm ≤ 1)))
unfolding statvfs_try
statvfs_try-Restores calls seconds passed p restore took small =
    ground (arith, left-Is p.alarm passed small)
