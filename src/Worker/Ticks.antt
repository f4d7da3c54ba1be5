-- ===== src/Worker/Ticks.antt =====
-- The tick counter shared by the main thread and the worker thread, and the worker's loop
-- (sitter/sitter_worker.cpp, sitter/tick_timer.cpp, `server::process_tick` and `server::stop`).
-- An event is what one thread does while it holds the mutex, or one step of the loop outside it.
pub mod Laws
pub mod Stop
use sitter.Base.{ℕ, ◌+◌, ℤ, pos, ◌+ℤ◌, eqb_ℤ, Bool, true, false, if◌then◌else◌, List, [], ◌∷◌, ◌++◌}

-- Where the worker stands in `loop`: before `wait_next_tick`, asleep in its `f_mutex.wait()`, before
-- the second test of `continue_running()`, in `run_plugins`, or out of the loop.
pub data Place : Type 0 where
  waiting asleep checking working left : Place

pub record Shared : Type 0 where
  -- `f_ticks` of the worker
  pub ticks : ℤ
  -- `continue_running()`
  pub running : Bool
  pub place : Place
  -- the values passed to `server::set_ticks`, oldest first; the last one is `server::f_ticks`
  pub taken : List ℤ
  -- how often `run_plugins` was entered
  pub runs : ℕ

-- `f_mutex.signal()`
abbrev wake : Place → Place
wake Place.asleep = Place.waiting
wake p = p

unfoldable pub tick : Shared → Shared
tick s = record s { ticks = s.ticks +ℤ pos 1; place = wake s.place }

unfoldable wakeup : Shared → Shared
wakeup s = record s { ticks = pos 1; place = wake s.place }

-- One round of the loop in `wait_next_tick`.
unfoldable wait_next_tick : Shared → Shared
wait_next_tick s =
    if s.running
    then (if eqb_ℤ s.ticks (pos 0)
        then record s { place = Place.asleep }
        else record s { taken = s.taken ++ s.ticks ∷ []; ticks = pos 0; place = Place.checking })
    else record s { place = Place.left }

-- The next thing that the worker does; nothing while it sleeps or once it has left.
loop_from : Place → Shared → Shared
loop_from Place.waiting s = wait_next_tick s
loop_from Place.asleep s = s
loop_from Place.checking s =
    if s.running
    then record s { place = Place.working; runs = s.runs + 1 }
    else record s { place = Place.left }
loop_from Place.working s =
    if s.running then record s { place = Place.waiting } else record s { place = Place.left }
loop_from Place.left s = s

unfoldable pub loop_step : Shared → Shared
unfolding loop_from wait_next_tick
loop_step s = loop_from s.place s

-- `process_tick` of the timer, the thread library's stop request, the wake-up call that `server::stop`
-- hands it, and a step of the worker.
pub data Event : Type 0 where
  timer_tick stop_request wakeup_call worker : Event

unfoldable pub step : Event → Shared → Shared
unfolding tick wakeup
step Event.timer_tick s = tick s
step Event.stop_request s = record s { running = false }
step Event.wakeup_call s = wakeup s
step Event.worker s = loop_step s

unfoldable pub run : List Event → Shared → Shared
run [] s = s
run (e ∷ es) s = run es (step e s)

abbrev pub initial : Shared
initial = record { ticks = pos 0; running = true; place = Place.waiting; taken = []; runs = 0 }
