-- ===== src/Worker/Ticks/Laws.antt =====
-- The accounting of the ticks in sitter/sitter_worker.cpp.
use sitter.Base.{
  ℕ, ◌+◌, ◌≤◌, ◌≡◌, refl, ℤ, pos, ◌+ℤ◌, ◌≤ℤ◌, Bool, true, false, List, [], ◌∷◌, ◌++◌, all,
  all-append, leb_ℤ, arith, int_laws, +ℤ_parts, ◌≢◌, length, length-append,
}
use sitter.Worker.Ticks.{
  Place, checking, working, Shared, Event, timer_tick, stop_request, wakeup_call, worker, step, run,
  initial, loop_step,
}

abbrev pub total : List ℤ → ℤ
total [] = pos 0
total (x ∷ xs) = x +ℤ total xs

total-append : (xs ys : List ℤ) → total (xs ++ ys) ≡ total xs +ℤ total ys
total-append [] ys = omega int_laws
total-append (x ∷ xs) ys = rw (total-append xs ys) (omega int_laws)

-- The ticks taken so far and those still pending.
abbrev accounted : Shared → ℤ
accounted s = total s.taken +ℤ s.ticks

abbrev ticks_in : List Event → ℕ
ticks_in [] = 0
ticks_in (timer_tick ∷ es) = 1 + ticks_in es
ticks_in (e ∷ es) = ticks_in es

loop_step-accounted : (s : Shared) → accounted (loop_step s) ≡ accounted s
unfolding loop_step
loop_step-accounted s = let more = total-append s.taken (s.ticks ∷ []) in grind (int_laws, more)

step-accounted :
    (e : Event) (s : Shared)
    → e ≢ wakeup_call
    → accounted (step e s) ≡ accounted s +ℤ pos (ticks_in (e ∷ []))
unfolding step
step-accounted timer_tick s h = omega int_laws
step-accounted stop_request s h = omega int_laws
step-accounted wakeup_call s h = absurd (h refl)
step-accounted worker s h = rw (loop_step-accounted s) (omega int_laws)

-- `server::get_ticks()`: the value passed to `set_ticks` last, 0 before the first call.
abbrev get_ticks : List ℤ → ℤ
get_ticks [] = pos 0
get_ticks (t ∷ []) = t
get_ticks (t ∷ u ∷ ts) = get_ticks (u ∷ ts)

get_ticks-append : (ts : List ℤ) (t : ℤ) → get_ticks (ts ++ t ∷ []) ≡ t
get_ticks-append [] t = refl
get_ticks-append (u ∷ []) t = refl
get_ticks-append (u ∷ v ∷ ts) t = get_ticks-append (v ∷ ts) t

abbrev about_to_run : Place → ℕ
about_to_run checking = 1
about_to_run _ = 0

-- The counter is never negative, every batch taken holds a tick, the plugins are entered at most once
-- for each batch, and `get_ticks()` is at least 1 while they run.
pub record IsSound (s : Shared) : Type 0 where
  nonneg : pos 0 ≤ℤ s.ticks
  batches : all (λ t. leb_ℤ (pos 1) t) s.taken ≡ true
  one_run : s.runs + about_to_run s.place ≤ length s.taken
  busy_checking : s.place ≡ checking → pos 1 ≤ℤ get_ticks s.taken
  busy_working : s.place ≡ working → pos 1 ≤ℤ get_ticks s.taken

step-IsSound : (e : Event) (s : Shared) → IsSound s → IsSound (step e s)
unfolding step loop_step
step-IsSound timer_tick s v = ground (arith, +ℤ_parts s.ticks (pos 1))
step-IsSound stop_request s v = ground arith
step-IsSound wakeup_call s v = ground arith
step-IsSound worker s v = ground (
  arith,
  get_ticks-append s.taken s.ticks,
  length-append s.taken (s.ticks ∷ []),
  all-append (λ (t : ℤ). leb_ℤ (pos 1) t) s.taken (s.ticks ∷ []),
)

run-IsSound : (es : List Event) (s : Shared) → IsSound s → IsSound (run es s)
unfolding run
run-IsSound [] s v = v
run-IsSound (e ∷ es) s v = run-IsSound es (step e s) (step-IsSound e s v)

initial-IsSound : IsSound initial
initial-IsSound = ground arith

-- In every interleaving of the two threads that starts with the daemon, wake-up calls and stop
-- requests included, the counter is never negative, every batch of ticks that the worker takes holds
-- at least one, the plugins are entered at most once for each batch, and `get_ticks()` is at least 1
-- while they run.
pub run-initial-IsSound : (es : List Event) → IsSound (run es initial)
run-initial-IsSound es = run-IsSound es initial initial-IsSound

length-le-total : (ts : List ℤ) → all (λ t. leb_ℤ (pos 1) t) ts ≡ true → pos (length ts) ≤ℤ total ts
length-le-total [] h = omega arith
length-le-total (t ∷ ts) h = ground (arith, length-le-total ts, +ℤ_parts t (total ts))

abbrev no_wakeup : List Event → Bool
no_wakeup [] = true
no_wakeup (wakeup_call ∷ es) = false
no_wakeup (e ∷ es) = no_wakeup es

run-accounted :
    (es : List Event) (s : Shared)
    → no_wakeup es ≡ true
    → accounted (run es s) ≡ accounted s +ℤ pos (ticks_in es)
unfolding run
run-accounted [] s h = omega int_laws
run-accounted (timer_tick ∷ es) s h =
    let e = run-accounted es (step timer_tick s) h in
    rw (e, step-accounted timer_tick s (λ x. cc)) (omega int_laws)
run-accounted (stop_request ∷ es) s h =
    let e = run-accounted es (step stop_request s) h in
    rw (e, step-accounted stop_request s (λ x. cc)) (omega int_laws)
run-accounted (wakeup_call ∷ es) s h = cc
run-accounted (worker ∷ es) s h =
    let e = run-accounted es (step worker s) h in
    rw (e, step-accounted worker s (λ x. cc)) (omega int_laws)

-- In every interleaving that starts with the daemon and in which nobody calls `wakeup`, the ticks that
-- the worker has taken and the pending one add up to the timer's ticks, so none is lost and none counted
-- twice; and the plugins are entered at most once for each tick.
pub run_loses_no_tick :
    (es : List Event)
    → no_wakeup es ≡ true
    → let s = run es initial in
      (total s.taken +ℤ s.ticks ≡ pos (ticks_in es)) × (s.runs ≤ ticks_in es)
run_loses_no_tick es h =
    let v = run-initial-IsSound es in
    let account = run-accounted es initial h in
    let counted = length-le-total (run es initial).taken v.batches in
    (rw account (omega int_laws), grind (int_laws, account, counted, v.one_run, v.nonneg))
