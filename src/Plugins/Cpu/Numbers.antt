-- ===== src/Plugins/Cpu/Numbers.antt =====
-- The numbers that plugins/sitter_cpu/cpu.cpp writes in the document, from `sys_stats`.
use sitter.Base.{
  ℕ, ℤ, pos, ◌+ℤ◌, ltb_ℤ, eqb_ℤ, ltb, Bool, false, if◌then◌else◌, Text, codes, List, [], ◌∷◌, ◌++◌,
  Option, Result, ok, ◌>>=◌,
}
use sitter.Double.{Double}
use sitter.Env.{Env}
use sitter.Json.{Key, Value, put, Doc, ◌/+◌}
use sitter.SysStats.{Stats, load_stat, get_cpu_stat, get_vmstat}

-- What one run calls outside this repository: the files of /proc, the conversion of a text to a `double`,
-- the number of processors and of clock ticks, the creation of the cache directory, the success of
-- `write_all` by the name of the file, and the clock. `indeterminate_cpu` is what the nine numbers of
-- `f_cpu` hold before they are read, since no constructor sets them.
pub record Host (D : Type 0) : Type 0 where
  pub proc : Text → Option Text
  pub convert_double : Text → D → D
  pub hardware_concurrency : ℕ
  pub clock_ticks : ℤ
  pub mkdir_p : Text → ℤ
  pub write_all : Text → Bool
  pub now : ℤ
  pub indeterminate_cpu : List ℤ

abbrev pub cpu_ref : List Key
cpu_ref = [] /+ codes "cpu"

abbrev number_at : Text → ℤ → Doc
number_at name n = put (cpu_ref /+ name) (Value.number n) ∷ []

module _ {D : Type 0} ⦃d : Double D⦄ where
  -- The members of a new `sys_stats`.
  unfoldable pub new_stats : List ℤ → Stats D
  new_stats cpu = record {
    has_uptime = false;
    has_loadavg = false;
    has_stats = false;
    has_vmstats = false;
    uptime = d.of_int (pos 0);
    idle = d.of_int (pos 0);
    avg_1min = d.of_int (pos 0);
    avg_5min = d.of_int (pos 0);
    avg_15min = d.of_int (pos 0);
    running_threads = pos 0;
    total_threads = pos 0;
    last_created_process = pos 0;
    cpu = cpu;
    intr = pos 0;
    ctxt = pos 0;
    boot_time = pos 0;
    processes = pos 0;
    procs_running = pos 0;
    procs_blocked = pos 0;
    vmstats = [];
  }

  -- `std::max(1U, hardware_concurrency())`
  unfoldable pub cpu_count : Host D → ℕ
  cpu_count host = if ltb 1 host.hardware_concurrency then host.hardware_concurrency else 1

  -- The load that counts as high, by the number of processors.
  unfoldable pub max_load : ℕ → D
  max_load count =
      let max_avg1 = d.of_int (pos count) in
      if d.lt (d.decimal 10 1) max_avg1
      then (if d.le max_avg1 (d.decimal 20 1)
          then d.mul max_avg1 (d.decimal 95 2)
          else d.mul max_avg1 (d.decimal 8 1))
      else max_avg1

  real_at : Text → D → Doc
  real_at name x = put (cpu_ref /+ name) (Value.real (d.show x)) ∷ []

  unfoldable pub uptime_doc : Host D → Stats D → Doc
  unfolding cpu_count real_at
  uptime_doc host s =
      number_at (codes "count") (pos (cpu_count host))
      ++ number_at (codes "freq") host.clock_ticks
      ++ real_at (codes "uptime") s.uptime
      ++ real_at (codes "idle") s.idle

  unfoldable pub averages_doc : Stats D → Doc
  unfolding real_at
  averages_doc s =
      real_at (codes "avg1") s.avg_1min
      ++ real_at (codes "avg5") s.avg_5min
      ++ real_at (codes "avg15") s.avg_15min

  -- The assignments for the processors, the processes and the pages, each after the load of its file.
  unfoldable pub counters : Env → Host D → Stats D → Result Doc
  counters env host s = do
    (s1, user) ← get_cpu_stat host.convert_double env host.proc 0 s
    (s2, nice) ← get_cpu_stat host.convert_double env host.proc 1 s1
    (s3, system) ← get_cpu_stat host.convert_double env host.proc 2 s2
    (s4, idle) ← get_cpu_stat host.convert_double env host.proc 3 s3
    (s5, iowait) ← get_cpu_stat host.convert_double env host.proc 4 s4
    t ← load_stat host.convert_double env host.proc s5
    let (t1, page_in) = get_vmstat host.convert_double env host.proc (codes "pgpgin") t
    let (t2, page_out) = get_vmstat host.convert_double env host.proc (codes "pgpgout") t1
    let (t3, swap_in) = get_vmstat host.convert_double env host.proc (codes "pswpin") t2
    let (t4, swap_out) = get_vmstat host.convert_double env host.proc (codes "pswpout") t3
    ok (
        number_at (codes "total_cpu_user") (user +ℤ nice)
        ++ number_at (codes "total_cpu_system") system
        ++ number_at (codes "total_cpu_wait") (idle +ℤ iowait)
        ++ number_at (codes "time_of_boot") t.boot_time
        ++ number_at (codes "total_processes") t.processes
        ++ (if ltb_ℤ (pos 1) t.procs_running
            then number_at (codes "processes_running") t.procs_running
            else [])
        ++ (if eqb_ℤ t.procs_blocked (pos 0)
            then []
            else number_at (codes "processes_blocked") t.procs_blocked)
        ++ number_at (codes "page_cache_in") page_in
        ++ number_at (codes "page_cache_out") page_out
        ++ number_at (codes "swap_cache_in") swap_in
        ++ number_at (codes "swap_cache_out") swap_out)
