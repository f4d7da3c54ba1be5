-- ===== src/Daemon/Reachable.antt =====
-- What holds of the daemon of sitter/sitter.cpp in every state that its events lead to.
use sitter.Base.{
  ◌≡◌, refl, ℤ, pos, ◌*ℤ◌, leb_ℤ, Bool, true, false, ◌&&◌, ◌||◌, not, Text, Option, none, some,
  arith, Bool-cases, inl, inr, ◌⊎◌, [], ◌∷◌, negsuc, subst,
}
use sitter.Env.{Env}
use sitter.Settings.{Settings}
use sitter.Settings.Cache.{clear_cache}
use sitter.Settings.Statistics.{get_statistics_frequency}
use sitter.Daemon.{
  DaemonState, start_run, stop, new_value, fluid_ready, other_status, fluid_settings_changed,
  process_timeout, LoopEvent, signal, worker_ended, stop_message, ready_message, setting_changed,
  timeout, is_registered, handle,
}

-- The states that the event loop reaches from the start of `run` at a time.
pub data Reaches (start : ℤ) : DaemonState → Type 0 where
  begin : Reaches start (start_run start)
  after :
      {d d' : DaemonState}
      → Reaches start d
      → (e : LoopEvent) → is_registered e d ≡ true
      → handle e d ≡ some d'
      → Reaches start d'

-- The frequency is unset or at least a minute.
abbrev IsSlow : Settings → Type 0
IsSlow s = (leb_ℤ s.statistics_frequency (pos 0) || leb_ℤ (pos 60) s.statistics_frequency) ≡ true

pub record IsSound (d : DaemonState) : Type 0 where
  has_worker : (not d.tick_timer || d.worker) ≡ true
  slow : IsSlow d.settings
  delayed : leb_ℤ (pos 60_000_000) d.timeout_delay ≡ true
  pub stops : (d.stopping && (d.interrupt || d.messenger || d.tick_timer || d.worker_done)) ≡ false

clear_cache-IsSlow : (name : Text) (s : Settings) → IsSlow s → IsSlow (clear_cache name s)
unfolding clear_cache
clear_cache-IsSlow [] s slow = slow
clear_cache-IsSlow (c ∷ rest) s slow = ground arith

get_statistics_frequency-IsSlow :
    (env : Env) (s : Settings)
    → IsSlow s
    → let (s', frequency) = get_statistics_frequency env s in
      IsSlow s' × (leb_ℤ (pos 60) frequency ≡ true)
unfolding get_statistics_frequency
get_statistics_frequency-IsSlow env s slow = ground arith

-- The call uses no null pointer, and the state it leaves is sound.
abbrev pub Succeeds : Option DaemonState → Type 0
Succeeds none = ⊥
Succeeds (some d) = IsSound d

start_run-IsSound : (now : ℤ) → IsSound (start_run now)
unfolding start_run
start_run-IsSound now = record { has_worker = refl; slow = refl; delayed = refl; stops = refl }

stop-IsSound : (is_running : Bool) (d : DaemonState) → IsSound d → IsSound (stop is_running d)
unfolding stop
stop-IsSound is_running d sound = record {
  has_worker = refl;
  slow = sound.slow;
  delayed = sound.delayed;
  stops = refl;
}

delay-Is :
    (frequency : ℤ)
    → leb_ℤ (pos 60) frequency ≡ true
    → leb_ℤ (pos 60_000_000) (frequency *ℤ pos 1_000_000) ≡ true
unfolding ◌*ℤ◌
delay-Is (pos n) long = ground arith
delay-Is (negsuc n) long = ground arith

timeout-Succeeds :
    (env : Env) (d : DaemonState)
    → IsSound d
    → d.tick_timer ≡ true
    → Succeeds (process_timeout env d)
unfolding process_timeout
timeout-Succeeds env d sound on =
    let (slow, long) = get_statistics_frequency-IsSlow env d.settings sound.slow in
    let here : d.worker ≡ true = ground (arith, sound.has_worker) in
    rw here (record {
      has_worker = ground (arith, sound.has_worker);
      slow = slow;
      delayed = delay-Is (get_statistics_frequency env d.settings).1 long;
      stops = sound.stops;
    })

handle-Succeeds :
    (e : LoopEvent) (d : DaemonState) → IsSound d → is_registered e d ≡ true → Succeeds (handle e d)
unfolding handle is_registered fluid_settings_changed
handle-Succeeds (signal is_running) d sound on = stop-IsSound is_running d sound
handle-Succeeds (worker_ended is_running) d sound on = stop-IsSound is_running d sound
handle-Succeeds (stop_message is_running) d sound on = stop-IsSound is_running d sound
handle-Succeeds (ready_message now) d sound on = record {
  has_worker = sound.has_worker;
  slow = sound.slow;
  delayed = sound.delayed;
  stops = sound.stops;
}
handle-Succeeds (setting_changed new_value name) d sound on = record {
  has_worker = sound.has_worker;
  slow = clear_cache-IsSlow name d.settings sound.slow;
  delayed = sound.delayed;
  stops = sound.stops;
}
handle-Succeeds (setting_changed fluid_ready name) d sound on = record {
  has_worker = sound.has_worker;
  slow = sound.slow;
  delayed = sound.delayed;
  stops = sound.stops;
}
handle-Succeeds (setting_changed other_status name) d sound on = sound
handle-Succeeds (timeout env) d sound on = timeout-Succeeds env d sound (ground arith)

Reaches-IsSound : (start : ℤ) (d : DaemonState) → Reaches start d → IsSound d
Reaches-IsSound start _ begin = start_run-IsSound start
Reaches-IsSound start d' (after {d} reached e on became) =
    subst Succeeds became (handle-Succeeds e d (Reaches-IsSound start d reached) on)

stopped-unregistered :
    (e : LoopEvent) (d : DaemonState) → IsSound d → d.stopping ≡ true → is_registered e d ≡ false
unfolding is_registered
stopped-unregistered (signal is_running) d sound stopping = ground (arith, sound.stops)
stopped-unregistered (worker_ended is_running) d sound stopping = ground (arith, sound.stops)
stopped-unregistered (stop_message is_running) d sound stopping = ground (arith, sound.stops)
stopped-unregistered (ready_message now) d sound stopping = ground (arith, sound.stops)
stopped-unregistered (setting_changed status name) d sound stopping = ground (arith, sound.stops)
stopped-unregistered (timeout env) d sound stopping = ground (arith, sound.stops)

-- In every state that the events of the loop lead to, whatever their order, each event either cannot be
-- called back, or the daemon is not stopping and the event is handled without the use of a null pointer,
-- after which the delay of the timer is a minute at least. So a daemon that stops is called back no more.
pub daemon-IsSafe :
    (start : ℤ) (d : DaemonState) (e : LoopEvent)
    → Reaches start d
    → (is_registered e d ≡ false) ⊎ ((d.stopping ≡ false) × Succeeds (handle e d))
daemon-IsSafe start d e reached =
    let sound = Reaches-IsSound start d reached in
    elim (Bool-cases (is_registered e d)) [
      | inr off ↦ inl off
      | inl on ↦ elim (Bool-cases d.stopping) [
        | inl stopping ↦ inl (stopped-unregistered e d sound stopping)
        | inr running ↦ inr (running, handle-Succeeds e d sound on)
      ]
    ]
