-- ===== src/Worker/Ticks/Stop.antt =====
-- `server::stop` of sitter/sitter.cpp and the loop of sitter/sitter_worker.cpp.
use sitter.Base.{◌≡◌, refl, Bool, true, false, List, [], ◌∷◌, arith, ◌≢◌, ◌∙◌}
use sitter.Worker.Ticks.{
  asleep, left, Shared, Event, timer_tick, stop_request, wakeup_call, worker, step, run, loop_step,
}

abbrev worker_in : List Event → Bool
worker_in [] = false
worker_in (worker ∷ es) = true
worker_in (e ∷ es) = worker_in es

-- The worker has been told to stop and is not asleep.
abbrev Stopping : Shared → Type 0
Stopping s = (s.running ≡ false) × (s.place ≢ asleep)

step-Stopping : (e : Event) (s : Shared) → Stopping s → Stopping (step e s)
unfolding step loop_step
step-Stopping _ s h = ground arith

step-left : (e : Event) (s : Shared) → s.place ≡ left → (step e s).place ≡ left
unfolding step loop_step
step-left _ s h = ground arith

step-runs :
    (e : Event) (s : Shared)
    → s.running ≡ false
    → ((step e s).running ≡ false) × ((step e s).runs ≡ s.runs)
unfolding step loop_step
step-runs _ s h = ground arith

worker_leaves : (s : Shared) → Stopping s → (step worker s).place ≡ left
unfolding step loop_step
worker_leaves s h = ground arith

run-left : (es : List Event) (s : Shared) → s.place ≡ left → (run es s).place ≡ left
unfolding run
run-left [] s h = h
run-left (e ∷ es) s h = run-left es (step e s) (step-left e s h)

run-Stopping :
    (es : List Event) (s : Shared) → Stopping s → worker_in es ≡ true → (run es s).place ≡ left
unfolding run
run-Stopping [] s h w = cc
run-Stopping (timer_tick ∷ es) s h w = run-Stopping es _ (step-Stopping timer_tick s h) w
run-Stopping (stop_request ∷ es) s h w = run-Stopping es _ (step-Stopping stop_request s h) w
run-Stopping (wakeup_call ∷ es) s h w = run-Stopping es _ (step-Stopping wakeup_call s h) w
run-Stopping (worker ∷ es) s h w = run-left es (step worker s) (worker_leaves s h)

run-runs : (es : List Event) (s : Shared) → s.running ≡ false → (run es s).runs ≡ s.runs
unfolding run
run-runs [] s h = refl
run-runs (e ∷ es) s h =
    let (stopped, same) = step-runs e s h in run-runs es (step e s) stopped ∙ same

woken : (s : Shared) → Stopping (step wakeup_call (step stop_request s))
unfolding step
woken s = ground arith

same_runs : (s : Shared) → (step wakeup_call (step stop_request s)).runs ≡ s.runs
unfolding step
same_runs s = ground arith

-- From any state, also from the sleep in `wait_next_tick`: once `server::stop` has made its stop request
-- and its wake-up call, the first step of the worker takes it out of the loop, whatever ticks come in
-- before or after, and the plugins are not entered again.
pub stop_ends_the_worker :
    (s : Shared) (es : List Event)
    → worker_in es ≡ true
    → let s' = run (stop_request ∷ wakeup_call ∷ es) s in (s'.place ≡ left) × (s'.runs ≡ s.runs)
unfolding run
stop_ends_the_worker s es w =
    let stopped = step wakeup_call (step stop_request s) in
    (run-Stopping es stopped (woken s) w, run-runs es stopped (woken s).0 ∙ same_runs s)
