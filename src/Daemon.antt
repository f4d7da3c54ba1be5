-- ===== src/Daemon.antt =====
-- The life of the daemon: `run`, `ready`, `fluid_ready`, `process_tick` and `stop` of sitter/sitter.cpp with
-- the connections that call them (sitter/messenger.cpp, sitter/tick_timer.cpp, sitter/interrupt.cpp and
-- sitter/worker_done.cpp). The event loop is the communicator library's: it calls back only connections that
-- are registered with it, and the timer only while it is enabled.
pub mod Reachable
use sitter.Base.{ℤ, pos, ◌*ℤ◌, Bool, true, false, ◌&&◌, if◌then◌else◌, Text, Option, none, some}
use sitter.Env.{Env}
use sitter.Settings.{Settings, unset}
use sitter.Settings.Cache.{clear_cache}
use sitter.Settings.Statistics.{get_statistics_frequency}
use sitter.Connection.{Link, new_link, ready}

-- The server, whether each of its connections is registered, and whether `f_worker` points to a worker.
pub record DaemonState : Type 0 where
  pub settings : Settings
  pub link : Link
  pub interrupt : Bool
  pub messenger : Bool
  pub tick_timer : Bool
  pub worker_done : Bool
  pub timer_enabled : Bool
  pub timeout_delay : ℤ
  pub worker : Bool
  pub stopping : Bool

-- The server once `run` has made its connections, before the event loop. The timer starts disabled, with a
-- delay of one minute in microseconds.
unfoldable pub start_run : ℤ → DaemonState
start_run now = record {
  settings = unset;
  link = new_link now;
  interrupt = true;
  messenger = true;
  tick_timer = true;
  worker_done = true;
  timer_enabled = false;
  timeout_delay = pos 60_000_000;
  worker = true;
  stopping = false;
}

-- A worker whose thread does not run any more is kept, but every connection is removed.
unfoldable pub stop : Bool → DaemonState → DaemonState
stop is_running d = record d {
  stopping = true;
  worker = if is_running then false else d.worker;
  messenger = false;
  interrupt = false;
  tick_timer = false;
  worker_done = false;
}

-- `fluid_settings_status_t`, as far as the messenger tells its values apart.
pub data FluidStatus : Type 0 where
  new_value fluid_ready other_status : FluidStatus

unfoldable pub fluid_settings_changed : FluidStatus → Text → DaemonState → DaemonState
fluid_settings_changed new_value name d = record d { settings = clear_cache name d.settings }
fluid_settings_changed fluid_ready name d = record d { timer_enabled = true }
fluid_settings_changed other_status name d = d

-- `process_timeout` ticks the worker, which must be there, and asks for the delay again.
unfoldable pub process_timeout : Env → DaemonState → Option DaemonState
process_timeout env d =
    let (settings, frequency) = get_statistics_frequency env d.settings in
    if d.worker
    then some (record d { settings = settings; timeout_delay = frequency *ℤ pos 1_000_000 })
    else none

-- What the event loop calls back: a signal, the end of the worker's thread, a STOP or a READY message, a
-- change of a setting, and the timer. The flag is whether the worker's thread runs at that time.
pub data LoopEvent : Type 0 where
  signal : Bool → LoopEvent
  worker_ended : Bool → LoopEvent
  stop_message : Bool → LoopEvent
  ready_message : ℤ → LoopEvent
  setting_changed : FluidStatus → Text → LoopEvent
  timeout : Env → LoopEvent

-- Whether the event loop may call this back.
unfoldable pub is_registered : LoopEvent → DaemonState → Bool
is_registered (signal is_running) d = d.interrupt
is_registered (worker_ended is_running) d = d.worker_done
is_registered (stop_message is_running) d = d.messenger
is_registered (ready_message now) d = d.messenger
is_registered (setting_changed status name) d = d.messenger
is_registered (timeout env) d = d.tick_timer && d.timer_enabled

-- `none` is the use of a null pointer.
unfoldable pub handle : LoopEvent → DaemonState → Option DaemonState
handle (signal is_running) d = some (stop is_running d)
handle (worker_ended is_running) d = some (stop is_running d)
handle (stop_message is_running) d = some (stop is_running d)
handle (ready_message now) d = some (record d { link = ready now d.link })
handle (setting_changed status name) d = some (fluid_settings_changed status name d)
handle (timeout env) d = process_timeout env d
