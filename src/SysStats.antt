-- ===== src/SysStats.antt =====
-- `sys_stats` of sitter/sys_stats.h and sitter/sys_stats.cpp: values read from /proc once and kept until
-- `reset`. The files are given as functions from a name to the contents. A `double` is a value of an
-- abstract type `D`, and `validator_double::convert_string` a function of the text and of the value
-- before the call. A vector read past its end is `err out_of_bounds`.
pub mod Laws
use sitter.Base.{
  ℕ, zero, suc, ℤ, pos, ltb, leb, Bool, true, false, ◌&&◌, if◌then◌else◌, Text, codes, text_eq,
  starts_with, is_empty, List, [], ◌∷◌, length, ◌==◌, get_elem?, Option, none, some, Result, ok,
  err, out_of_range, out_of_bounds, ◌>>=◌, ◌+◌,
}
use sitter.Env.{Env}

-- The members, `f_defined` as four flags.
pub record Stats (D : Type 0) : Type 0 where
  pub has_uptime : Bool
  pub has_loadavg : Bool
  pub has_stats : Bool
  pub has_vmstats : Bool
  pub uptime : D
  pub idle : D
  pub avg_1min : D
  pub avg_5min : D
  pub avg_15min : D
  pub running_threads : ℤ
  pub total_threads : ℤ
  pub last_created_process : ℤ
  -- one number for each of the nine fields of `cpu_t`
  pub cpu : List ℤ
  pub intr : ℤ
  pub ctxt : ℤ
  pub boot_time : ℤ
  pub processes : ℤ
  pub procs_running : ℤ
  pub procs_blocked : ℤ
  pub vmstats : List (Text × Text)

unfoldable pub reset : {D : Type 0} → Stats D → Stats D
reset s = record s {
  has_uptime = false;
  has_loadavg = false;
  has_stats = false;
  has_vmstats = false;
}

-- `m[name]` of a `std::map<std::string, std::string>`, and an assignment to it; the order of the keys
-- is not observed.
abbrev lookup : Text → List (Text × Text) → Option Text
lookup name [] = none
lookup name ((k, v) ∷ m) = if text_eq name k then some v else lookup name m

abbrev assign : Text → Text → List (Text × Text) → List (Text × Text)
assign name v [] = (name, v) ∷ []
assign name v ((k, w) ∷ m) = if text_eq name k then (name, v) ∷ m else (k, w) ∷ assign name v m

-- The text before and after the first space.
split_at_space : Text → Option (Text × Text)
split_at_space [] = none
split_at_space (c ∷ cs) =
    if c == b' '
    then some ([], cs)
    else elim (split_at_space cs) [ none ↦ none | some (k, v) ↦ some (c ∷ k, v) ]

load_lines : List Text → List (Text × Text) → List (Text × Text)
load_lines [] out = out
load_lines (l ∷ ls) out =
    load_lines ls (elim (split_at_space l) [ none ↦ out | some (k, v) ↦ assign k v out ])

-- `idx < 3 && idx < values.size()`: the value at an index, converted where there is one.
abbrev converted {ℓ} : {A : Type ℓ} → (Text → A → A) → Option Text → A → A
converted convert none old = old
converted convert (some v) old = convert v old

module _ {D : Type 0} (convert_double : Text → D → D) (env : Env) where
  unfoldable pub convert_integer : Text → ℤ → ℤ
  convert_integer text old = (env.convert_integer text old).1

  uptime_from : List Text → Stats D → Stats D
  uptime_from values s = record s {
    uptime = converted convert_double (get_elem? values 0) s.uptime;
    idle = converted convert_double (get_elem? values 1) s.idle;
  }

  unfoldable pub load_uptime : (Text → Option Text) → Stats D → Stats D
  unfolding uptime_from
  load_uptime proc s =
      let marked = record s { has_uptime = true } in
      if s.has_uptime then s else elim (proc (codes "/proc/uptime")) [
        | none ↦ marked
        | some contents ↦ uptime_from (env.split_string contents (codes " ")) marked
      ]

  -- `running_threads[0]` and `running_threads[1]`, guarded by the size of the other vector.
  threads_from : List Text → Stats D → Result (Stats D)
  unfolding convert_integer
  threads_from (running ∷ total ∷ rest) s = ok (record s {
    running_threads = convert_integer running s.running_threads;
    total_threads = convert_integer total s.total_threads;
  })
  threads_from _ s = err out_of_bounds

  loadavg_from : List Text → Stats D → Result (Stats D)
  unfolding threads_from convert_integer
  loadavg_from values s =
      let averaged = record s {
        avg_1min = converted convert_double (get_elem? values 0) s.avg_1min;
        avg_5min = converted convert_double (get_elem? values 1) s.avg_5min;
        avg_15min = converted convert_double (get_elem? values 2) s.avg_15min;
      } in
      let last = get_elem? values 4 in
      elim (get_elem? values 3) [
        | none ↦ ok averaged
        | some threads ↦ do
          t ← threads_from (env.split_string threads (codes "/")) averaged
          ok (record t {
            last_created_process = converted convert_integer last t.last_created_process;
          })
      ]

  unfoldable pub load_loadavg : (Text → Option Text) → Stats D → Result (Stats D)
  unfolding loadavg_from
  load_loadavg proc s =
      let marked = record s { has_loadavg = true } in
      if s.has_loadavg then ok s else elim (proc (codes "/proc/loadavg")) [
        | none ↦ ok marked
        | some contents ↦ loadavg_from (env.split_string contents (codes " ")) marked
      ]

  -- Nine numbers after the name, read with no test of the size.
  unfoldable pub cpu_from : List Text → List ℤ → Result (List ℤ)
  unfolding convert_integer
  cpu_from values [] = ok []
  cpu_from [] (old ∷ olds) = err out_of_bounds
  cpu_from (v ∷ vs) (old ∷ olds) = elim (cpu_from vs olds) [
    | ok rest ↦ ok (convert_integer v old ∷ rest)
    | err e ↦ err e
  ]

  abbrev tail_of : List Text → List Text
  tail_of [] = []
  tail_of (v ∷ vs) = vs

  -- `values[1]` where there are two values.
  abbrev second_of : Text → ℤ → ℤ
  second_of l old = converted convert_integer (get_elem? (env.split_string l (codes " ")) 1) old

  -- `case 'p'`
  unfoldable pub proc_line : Text → Stats D → Stats D
  unfolding convert_integer
  proc_line l s =
      if ltb 11 (length l) && starts_with (codes "pproc") l
      then (if starts_with (codes "pprocesses") l
          then record s { processes = second_of l s.processes }
          else if ltb 15 (length l) && starts_with (codes "pprocs_running ") l
          then record s { procs_running = second_of l s.procs_running }
          else if ltb 15 (length l) && starts_with (codes "pprocs_blocked ") l
          then record s { procs_blocked = second_of l s.procs_blocked }
          else s)
      else s

  -- One line of /proc/stat, told by its first characters.
  unfoldable pub stat_line : Text → Stats D → Result (Stats D)
  stat_line l s =
      let values = env.split_string l (codes " ") in
      if starts_with (codes "btime ") l && ltb 6 (length l)
      then ok (record s {
        boot_time = elim (get_elem? values 1) [
          | none ↦ s.boot_time
          | some v ↦ (env.convert_integer v (pos 0)).1
        ];
      })
      else if starts_with (codes "cpu ") l && ltb 4 (length l)
      then (do cpu ← cpu_from (tail_of values) s.cpu; ok (record s { cpu = cpu }))
      else if starts_with (codes "ctxt ") l && ltb 5 (length l)
      then ok (record s { ctxt = second_of l s.ctxt })
      else if starts_with (codes "intr ") l && ltb 5 (length l)
      then ok (record s { intr = second_of l s.intr })
      else if starts_with (codes "p") l
      then ok (proc_line l s)
      else ok s

  unfoldable pub stat_lines : List Text → Stats D → Result (Stats D)
  stat_lines [] s = ok s
  stat_lines (l ∷ ls) s = stat_line l s >>= λ t. stat_lines ls t

  unfoldable pub load_stat : (Text → Option Text) → Stats D → Result (Stats D)
  load_stat proc s =
      let marked = record s { has_stats = true } in
      if s.has_stats then ok s else elim (proc (codes "/proc/stat")) [
        | none ↦ ok marked
        | some contents ↦ stat_lines (env.split_string contents (codes "\n")) marked
      ]

  -- The map is cleared before the test of `f_defined`.
  unfoldable pub load_vmstats : (Text → Option Text) → Stats D → Stats D
  unfolding load_lines split_at_space
  load_vmstats proc s =
      let cleared = record s { vmstats = [] } in
      let marked = record cleared { has_vmstats = true } in
      if s.has_vmstats then cleared else elim (proc (codes "/proc/vmstat")) [
        | none ↦ marked
        | some contents ↦ record marked {
          vmstats = load_lines (env.split_string contents (codes "\n")) [];
        }
      ]

  unfoldable pub get_map_int64 : List (Text × Text) → Text → ℤ
  unfolding convert_integer
  get_map_int64 m name = elim (lookup name m) [ none ↦ pos 0 | some v ↦ convert_integer v (pos 0) ]

  unfoldable pub get_cpu_stat : (Text → Option Text) → ℕ → Stats D → Result (Stats D × ℤ)
  get_cpu_stat proc field s =
      if ltb field 9
      then (do
        t ← load_stat proc s
        elim (get_elem? t.cpu field) [ none ↦ err out_of_bounds | some v ↦ ok (t, v) ])
      else err out_of_range

  -- `get_page_in`, `get_page_out`, `get_page_swap_in` and `get_page_swap_out`, by the name they ask for.
  unfoldable pub get_vmstat : (Text → Option Text) → Text → Stats D → Stats D × ℤ
  get_vmstat proc name s = let t = load_vmstats proc s in (t, get_map_int64 t.vmstats name)
