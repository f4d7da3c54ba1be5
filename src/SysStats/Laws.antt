-- ===== src/SysStats/Laws.antt =====
-- What the caching of sitter/sys_stats.cpp keeps and loses, and which lines of /proc/stat it reads.
use sitter.Base.{
  ◌≡◌, refl, pos, Bool, true, false, not, ◌||◌, Text, codes, starts_with, all, List, [], ◌∷◌,
  Option, some, ok, err, >>=-eq-ok, arith, out_of_bounds, Option-cases, inl, inr, ◌↔◌, ◌<◌, length,
}
use sitter.Env.{Env}
use sitter.SysStats.{
  Stats, load_uptime, load_loadavg, load_stat, load_vmstats, get_vmstat, get_map_int64, proc_line,
  stat_line, stat_lines, loadavg_from, threads_from,
}

-- A line of /proc/stat as the kernel writes it: one that begins with a "p" begins with "proc".
abbrev is_kernel_line : Text → Bool
is_kernel_line l = not (starts_with (codes "p") l) || starts_with (codes "proc") l

kernel_line : (l : Text) → is_kernel_line l ≡ true → starts_with (codes "pproc") l ≡ false
unfolding starts_with
kernel_line [] h = refl
kernel_line (a ∷ []) h = ground arith
kernel_line (a ∷ b ∷ l) h = ground arith

abbrev SameProcesses : {D : Type 0} → Stats D → Stats D → Type 0
SameProcesses s t =
    (t.processes ≡ s.processes)
    × (t.procs_running ≡ s.procs_running)
    × (t.procs_blocked ≡ s.procs_blocked)

module _ {D : Type 0} (convert_double : Text → D → D) (env : Env) where
  -- Of the four queries for the virtual memory statistics only the first after a `reset` sees the file:
  -- the next one, for any of the values, answers 0.
  vmstats_only_once :
      (proc later : Text → Option Text) (first second : Text) (s : Stats D)
      → let (t, v) = get_vmstat convert_double env proc first s in
        get_vmstat convert_double env later second t ≡ (record t { vmstats = [] }, pos 0)
  unfolding get_vmstat load_vmstats get_map_int64
  vmstats_only_once proc later first second s = ground arith

  proc_line-kernel :
      (l : Text) (s : Stats D) → is_kernel_line l ≡ true → proc_line convert_double env l s ≡ s
  unfolding proc_line
  proc_line-kernel l s h = ground (arith, kernel_line l h)

  stat_line-processes :
      (l : Text) (s t : Stats D)
      → is_kernel_line l ≡ true
      → stat_line convert_double env l s ≡ ok t
      → SameProcesses s t
  unfolding stat_line
  stat_line-processes l s t h e = ground (arith, proc_line-kernel l s h)

  stat_lines-processes :
      (ls : List Text) (s t : Stats D)
      → all is_kernel_line ls ≡ true
      → stat_lines convert_double env ls s ≡ ok t
      → SameProcesses s t
  unfolding stat_lines
  stat_lines-processes [] s t h e = ground arith
  stat_lines-processes (l ∷ ls) s t h e =
      let (u, first, rest) =
        >>=-eq-ok (stat_line convert_double env l s) (λ v. stat_lines convert_double env ls v) e in
      ground (arith, stat_line-processes l s u, stat_lines-processes ls u t)

  -- The numbers of processes, of running and of blocked ones stay as they were, 0 on a new object, from
  -- every /proc/stat in which a line that begins with "p" begins with "proc", as the kernel writes it:
  -- the tests want "pproc".
  processes_never_read :
      (proc : Text → Option Text) (contents : Text) (s t : Stats D)
      → proc (codes "/proc/stat") ≡ some contents
      → all is_kernel_line (env.split_string contents (codes "\n")) ≡ true
      → load_stat convert_double env proc s ≡ ok t
      → SameProcesses s t
  unfolding load_stat
  processes_never_read proc contents s t found kernel e =
      let lines = env.split_string contents (codes "\n") in
      ground (arith, stat_lines-processes lines (record s { has_stats = true }) t)

  uptime_kept :
      (proc later : Text → Option Text) (s : Stats D)
      → let t = load_uptime convert_double env proc s in load_uptime convert_double env later t ≡ t
  unfolding load_uptime
  uptime_kept proc later s = ground arith

  loadavg-flag :
      (values : List Text) (s t : Stats D)
      → loadavg_from convert_double env values s ≡ ok t
      → t.has_loadavg ≡ s.has_loadavg
  unfolding loadavg_from
  loadavg-flag values s t e = ground arith

  load_loadavg-flag :
      (proc : Text → Option Text) (s t : Stats D)
      → load_loadavg convert_double env proc s ≡ ok t
      → t.has_loadavg ≡ true
  unfolding load_loadavg
  load_loadavg-flag proc s t e = elim (Option-cases (proc (codes "/proc/loadavg"))) [
    | inl none_read ↦ ground arith
    | inr (contents, found) ↦ ground (
      arith,
      loadavg-flag (env.split_string contents (codes " ")) (record s { has_loadavg = true }) t,
    )
  ]

  stat_line-flag :
      (l : Text) (s t : Stats D)
      → stat_line convert_double env l s ≡ ok t
      → t.has_stats ≡ s.has_stats
  unfolding stat_line proc_line
  stat_line-flag l s t e = ground arith

  stat_lines-flag :
      (ls : List Text) (s t : Stats D)
      → stat_lines convert_double env ls s ≡ ok t
      → t.has_stats ≡ s.has_stats
  unfolding stat_lines
  stat_lines-flag [] s t e = ground arith
  stat_lines-flag (l ∷ ls) s t e =
      let (u, first, rest) =
        >>=-eq-ok (stat_line convert_double env l s) (λ v. stat_lines convert_double env ls v) e in
      ground (arith, stat_line-flag l s u, stat_lines-flag ls u t)

  load_stat-flag :
      (proc : Text → Option Text) (s t : Stats D)
      → load_stat convert_double env proc s ≡ ok t
      → t.has_stats ≡ true
  unfolding load_stat
  load_stat-flag proc s t e = elim (Option-cases (proc (codes "/proc/stat"))) [
    | inl none_read ↦ ground arith
    | inr (contents, found) ↦ ground (
      arith,
      stat_lines-flag (env.split_string contents (codes "\n")) (record s { has_stats = true }) t,
    )
  ]

  loadavg_kept :
      (proc later : Text → Option Text) (s t : Stats D)
      → load_loadavg convert_double env proc s ≡ ok t
      → load_loadavg convert_double env later t ≡ ok t
  unfolding load_loadavg
  loadavg_kept proc later s t e = rw (load_loadavg-flag proc s t e) refl

  stat_kept :
      (proc later : Text → Option Text) (s t : Stats D)
      → load_stat convert_double env proc s ≡ ok t
      → load_stat convert_double env later t ≡ ok t
  unfolding load_stat
  stat_kept proc later s t e = rw (load_stat-flag proc s t e) refl

  -- The uptime, the load averages and the numbers of /proc/stat are read once: after a first load that
  -- returned, a second one changes nothing, whatever the files hold by then.
  loads_once :
      (proc later : Text → Option Text) (s t u : Stats D)
      → load_loadavg convert_double env proc s ≡ ok t
      → load_stat convert_double env proc s ≡ ok u
      → let up = load_uptime convert_double env proc s in
        (load_uptime convert_double env later up ≡ up)
        × (load_loadavg convert_double env later t ≡ ok t)
        × (load_stat convert_double env later u ≡ ok u)
  loads_once proc later s t u loadavg stat =
      (uptime_kept proc later s, loadavg_kept proc later s t loadavg, stat_kept proc later s u stat)

  -- On the first load, a fourth value in /proc/loadavg with no slash in it, one piece or none, is a
  -- read out of bounds: the guards test the size of the wrong vector. With two pieces or more the call
  -- returns.
  loadavg_needs_slash :
      (proc : Text → Option Text) (contents a b c threads : Text) (rest : List Text) (s : Stats D)
      → s.has_loadavg ≡ false
      → proc (codes "/proc/loadavg") ≡ some contents
      → env.split_string contents (codes " ") ≡ a ∷ b ∷ c ∷ threads ∷ rest
      → (load_loadavg convert_double env proc s ≡ err out_of_bounds)
        ↔ (length (env.split_string threads (codes "/")) < 2)
  unfolding load_loadavg loadavg_from threads_from
  loadavg_needs_slash proc contents a b c threads rest s new found split = ground arith
