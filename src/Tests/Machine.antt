-- ===== src/Tests/Machine.antt =====
-- The theorems on the plugins that watch the machine, on small data: sitter/meminfo.cpp and the plugins cpu,
-- memory, disk, reboot and network under plugins/.
use sitter.Base.{
  ◌≡◌, refl, ◌==◌, ℤ, pos, Bool, true, false, if◌then◌else◌, Text, codes, text_eq, [], ◌∷◌, map,
  Option, some, Result, ok, err, invalid_parameter, arith, Holds, ◌*ℤ◌, ◌-ℤ◌, ◌↔◌, ◌⊎◌, ◌+◌, ◌≤◌,
}
use sitter.Double.Laws.{Fraction, fraction_double, Fraction-IsExact}
use sitter.Report.Adds.{Adds, Gives}
use sitter.Meminfo.{Library, get_meminfo, get_lines, until_nul, find_member, to_lower, read_value}
use sitter.Meminfo.Members.{mem_total, mem_available, swap_total, swap_free}
use sitter.Meminfo.Fields.{reference, get_meminfo-Equals, line_says, tokens_say}
use sitter.Plugins.Memory
use sitter.Plugins.Memory.Reports.{Outcome, IsSmall, memory-Report}
use sitter.Server.{get_server_parameter}
use sitter.Plugins.Disk
use sitter.Plugins.Disk.{any_match, disk_ignore_patterns}
use sitter.Plugins.Disk.Alarm.{
  StatFs, Handler, AlarmState, Calls, statvfs_try, statvfs_try-Restores,
}
use sitter.Plugins.Disk.Reports.{full_issue, used, disk_ending, disk_issues, disk-Report}
use sitter.Plugins.Disk.Ignored.{snap_core_is_reported}
use sitter.Tests.Sample.{read_integer, split, env_of, new_report}

-- Pieces between spaces, without colons; a number is its digits.
abbrev without_colons : Text → Text
without_colons [] = []
without_colons (c ∷ cs) = if c == b':' then without_colons cs else c ∷ without_colons cs

abbrev number_or_throw : Bool × ℤ → Result ℤ
number_or_throw (true, z) = ok z
number_or_throw (false, z) = err invalid_parameter

abbrev sample_library : Library
sample_library = record {
  tokenize_string = λ text delimiters trim. map without_colons (split text (codes " "));
  stoll = λ text. number_or_throw (read_integer text (pos 0));
}

abbrev sample_file : Option Text
sample_file =
    some (codes "MemTotal: 4000000 kB\nMemAvailable: 300000 kB\nSwapTotal: 10 kB\nSwapFree: 1 kB\n")

get_meminfo-Equals_example :
    get_meminfo sample_library sample_file ≡ reference sample_library sample_file
get_meminfo-Equals_example = get_meminfo-Equals sample_library sample_file

-- The sizes of the sample, in bytes.
sample_sizes :
    Holds
      (λ info.
        (info mem_total ≡ 4_000_000_000)
        × (info mem_available ≡ 300_000_000)
        × (info swap_total ≡ 10_000)
        × (info swap_free ≡ 1_000))
      (reference sample_library sample_file)
unfolding get_lines line_says tokens_say until_nul find_member to_lower text_eq read_value
sample_sizes = (refl, refl, refl, refl)

sample-IsSmall : Holds IsSmall (reference sample_library sample_file)
unfolding get_lines line_says tokens_say until_nul find_member to_lower text_eq read_value
sample-IsSmall = (omega arith, omega arith, omega arith, omega arith)

memory-Report_example :
    Outcome
      (reference sample_library sample_file)
      new_report
      (Memory.on_process_watch Fraction sample_library sample_file new_report)
memory-Report_example =
    memory-Report Fraction Fraction-IsExact sample_library sample_file new_report sample-IsSmall

-- One disk of which 1 block in 1,000 is left, and the regular expressions of plain texts.
abbrev nearly_full : StatFs
nearly_full = record {
  blocks = 1000;
  bfree = 1;
  bavail = 1;
  frsize = 4096;
  ffree = 5;
  favail = 5;
  flag = 0;
}

abbrev full_disk : Calls
full_disk = record {
  can_set = true;
  can_restore = true;
  statvfs = some nearly_full;
  elapsed = pos 2;
}

abbrev idle_process : AlarmState
idle_process = record { handler = Handler.other 7; alarm = 10 }

abbrev match_text : Text → Text → Result Bool
match_text dir [] = ok false
match_text dir (c ∷ pattern) =
    if c == b'^' then ok (text_eq dir pattern) else ok (text_eq dir (c ∷ pattern))

abbrev disk_host : Disk.Host
disk_host = record {
  env = env_of ((codes "disk_ignore", codes "/mnt:/media") ∷ []);
  mounts = codes "/" ∷ codes "/mnt" ∷ codes "/snap/core/1" ∷ [];
  calls = λ dir. full_disk;
  process = idle_process;
  regex_match = match_text;
  hostname = codes "host";
}

disk-Report_example :
    Gives
      (Disk.on_process_watch Fraction disk_host)
      new_report
      (disk_ending Fraction disk_host disk_host.mounts)
      (disk_issues Fraction disk_host disk_host.mounts)
disk-Report_example = disk-Report Fraction disk_host new_report

-- The root and the partition below /snap/core are reported, /mnt is not.
disk_run :
    map (λ issue. issue.1) (disk_issues Fraction disk_host disk_host.mounts)
    ≡ pos 100 ∷ pos 100 ∷ []
unfolding any_match disk_ignore_patterns get_server_parameter text_eq ◌*ℤ◌ ◌-ℤ◌
disk_run = refl

statvfs_try-Restores_example :
    let after = (statvfs_try full_disk 3 idle_process).0 in
    (after.handler ≡ Handler.other 7)
    × ((after.alarm ≡ 0) ↔ (idle_process.alarm ≡ 0))
    × (((full_disk.can_set ≡ false) × (after.alarm ≡ idle_process.alarm))
        ⊎ (after.alarm + 2 ≡ idle_process.alarm)
        ⊎ ((idle_process.alarm ≤ 2) × (after.alarm ≤ 1)))
statvfs_try-Restores_example =
    statvfs_try-Restores full_disk 3 2 idle_process refl refl (omega arith)

snap_core_is_reported_example :
    Adds
      (Disk.check_partition Fraction disk_host (codes "/snap/core/1") (some nearly_full))
      new_report
      tt
      (full_issue Fraction disk_host (codes "/snap/core/1") (used Fraction nearly_full) ∷ [])
unfolding any_match disk_ignore_patterns get_server_parameter text_eq ◌*ℤ◌ ◌-ℤ◌
snap_core_is_reported_example =
    snap_core_is_reported Fraction disk_host (codes "1") nearly_full new_report (λ dir. refl) (cc)
      refl refl refl
