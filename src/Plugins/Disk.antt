-- ===== src/Plugins/Disk.antt =====
-- The disk plugin, plugins/sitter_disk/disk.cpp: the space of every mounted partition, and an error for one
-- that is nearly full.
pub mod Alarm
pub mod Reports
pub mod Ignored
use sitter.Base.{
  ℕ, ◌*◌, ◌/◌, ◌%◌, ◌^◌, ◌==◌, ℤ, pos, Bool, true, false, not, if◌then◌else◌, Text, codes, List, [],
  ◌∷◌, ◌++◌, Option, none, some, Result, ok, err,
}
use sitter.Double.{Double}
use sitter.Env.{Env}
use sitter.Json.{Key, Value, append_item, put, Doc, ◌/+◌, newest}
use sitter.Report.{append_error}
use sitter.Action.{Action, pure, lift, write, when, ◌>>=◌, ◌>>◌}
use sitter.Server.{get_server_parameter}
use sitter.Plugins.Disk.Alarm.{StatFs, Calls, AlarmState, statvfs_try}

-- What the plugin calls outside this repository: the mounts, the system calls made for each of them, the
-- process that makes them, `std::regex_match` with the pattern last, which throws for a text that is no
-- regular expression, and the name of the host.
pub record Host : Type 0 where
  pub env : Env
  pub mounts : List Text
  pub calls : Text → Calls
  pub process : AlarmState
  pub regex_match : Text → Text → Result Bool
  pub hostname : Text

abbrev pub disk_ref : List Key
disk_ref = [] /+ codes "disk"

abbrev partition_ref : List Key
partition_ref = newest (disk_ref /+ codes "partition")

abbrev pub ignore_filled_partitions : List Text
ignore_filled_partitions = codes "^/snap/core/" ∷ []

-- `std::find_if` with a match of the directory: whether a pattern matches, the first to throw ends it.
unfoldable pub any_match : (Text → Result Bool) → List Text → Result Bool
any_match match [] = ok false
any_match match (pattern ∷ patterns) = elim (match pattern) [
  | err e ↦ err e
  | ok true ↦ ok true
  | ok false ↦ any_match match patterns
]

-- A size in kilobytes; the product wraps at 64 bits.
abbrev kilobytes : ℕ → ℕ → ℤ
kilobytes count size = pos (count * size % 2 ^ 64 / 1024)

unfoldable pub partition_doc : Text → StatFs → Doc
partition_doc dir s =
    append_item (disk_ref /+ codes "partition")
    ∷ put (partition_ref /+ codes "dir") (Value.text dir)
    ∷ put (partition_ref /+ codes "blocks") (Value.number (kilobytes s.blocks s.frsize))
    ∷ put (partition_ref /+ codes "bfree") (Value.number (kilobytes s.bfree s.frsize))
    ∷ put (partition_ref /+ codes "available") (Value.number (kilobytes s.bavail s.frsize))
    ∷ put (partition_ref /+ codes "ffree") (Value.number (pos s.ffree))
    ∷ put (partition_ref /+ codes "favailable") (Value.number (pos s.favail))
    ∷ put (partition_ref /+ codes "flags") (Value.number (pos s.flag))
    ∷ []

abbrev pub full_doc : Bool → Doc
full_doc ignore =
    put (partition_ref /+ codes "error") (
      Value.text (
        if ignore
        then codes "partition used over 90% (ignore)"
        else codes "partition used over 90%"))
    ∷ []

-- The patterns of the user.
unfoldable pub disk_ignore_patterns : Env → List Text
disk_ignore_patterns env =
    env.split_string (get_server_parameter env (codes "disk_ignore")) (codes ":")

module _ (D : Type 0) ⦃d : Double D⦄ where
  unfoldable pub usage_of : StatFs → D
  usage_of s = d.sub (d.decimal 10 1) (d.div (d.of_int (pos s.bavail)) (d.of_int (pos s.blocks)))

  unfoldable pub full_priority : D → ℤ
  full_priority usage =
      if d.le (d.decimal 999 3) usage
      then pos 100
      else if d.le (d.decimal 95 2) usage
      then pos 80
      else pos 55

  abbrev pub full_message : Host → Text → D → Text
  full_message host dir usage =
      codes "partition \""
      ++ dir
      ++ codes "\" on \""
      ++ host.hostname
      ++ codes "\" is close to full ("
      ++ d.show (d.mul usage (d.of_int (pos 100)))
      ++ codes "%)"

  abbrev pub full_error : Host → Text → D → Action (Unit {0})
  full_error host dir usage =
      append_error disk_ref (codes "disk") (full_message host dir usage) (full_priority usage)

  -- A partition that the user does not ignore is an error.
  unfoldable pub check_user_patterns : Host → Text → D → Bool → Action (Unit {0})
  check_user_patterns host dir usage true = pure tt
  check_user_patterns host dir usage false = do
    ignored ← lift (any_match (host.regex_match dir) (disk_ignore_patterns host.env))
    when (not ignored) (full_error host dir usage)

  unfoldable pub check_full : Host → Text → D → Action (Unit {0})
  unfolding check_user_patterns
  check_full host dir usage = do
    ignore ← lift (any_match (host.regex_match dir) ignore_filled_partitions)
    write (full_doc ignore)
    check_user_patterns host dir usage ignore

  -- A virtual drive has no blocks, and is left out.
  unfoldable pub check_partition : Host → Text → Option StatFs → Action (Unit {0})
  unfolding check_full usage_of
  check_partition host dir none = pure tt
  check_partition host dir (some s) =
      if s.blocks == 0
      then pure tt
      else (write (partition_doc dir s)
          >> (if d.le (d.decimal 9 1) (usage_of s)
              then check_full host dir (usage_of s)
              else pure tt))

  -- Three seconds for each mount.
  unfoldable pub check_mounts : Host → List Text → AlarmState → Action (Unit {0})
  unfolding check_partition
  check_mounts host [] p = pure tt
  check_mounts host (dir ∷ dirs) p =
      let (after, stat) = statvfs_try (host.calls dir) 3 p in
      check_partition host dir stat >> check_mounts host dirs after

  unfoldable pub on_process_watch : Host → Action (Unit {0})
  unfolding check_mounts
  on_process_watch host = check_mounts host host.mounts host.process
