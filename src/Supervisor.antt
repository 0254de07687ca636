-- ===== src/Supervisor.antt =====
-- How the supervisor keeps one process, engine/supervisor/supervisor.go: the backoff, the goroutine
-- `watch` and `Stop`, as they interleave.
-- Durations are natural numbers of nanoseconds. `float64(current) * b.Multiplier` is the parameter
-- `scale`, of the multiplier and the duration.
pub mod Watch
pub mod Lifecycle
pub mod ExecProcess
mod Tests
use hermi_nas.Prelude.{
  Bool, List, Option, [], false, if◌then◌else◌, ltb, none, some, true, ℕ, ◌==◌, ◌>>=◌, ◌∷◌,
}

pub record Backoff (F : Type 0) : Type 0 where
  pub initial : ℕ
  pub max : ℕ
  pub multiplier : F

-- Where `watch` stands.
pub data Watcher : Type 0 where
  waiting : Watcher  -- in `process.Wait`
  exited : Watcher  -- behind it, before it reads `stopping`
  restarting : Watcher  -- in the inner loop
  closed : Watcher  -- it returned, and `watchDone` is closed

-- Where `Stop` stands, for this process.
pub data Stopper : Type 0 where
  idle : Stopper
  marked : Stopper  -- `stopping` is set
  stopped : Stopper  -- `process.Stop` returned
  returned : Stopper  -- `watchDone` was seen closed

pub record Machine : Type 0 where
  pub running : Bool
  pub stopping : Bool
  pub delay : ℕ
  pub watcher : Watcher
  pub stopper : Stopper

pub data Event : Type 0 where
  crash : Event  -- the process exits by itself
  wait : Event  -- `Wait` returns
  check : Event  -- `watch` reads `stopping`
  restart : Bool → Event  -- one round of the inner loop, whose `Start` succeeds or not
  mark : Event
  stop : Event  -- `process.Stop`, behind which the process has exited
  join : Event  -- `<-reg.watchDone`

-- Behind `Start` of a process that has started.
abbrev pub started : Machine
started = record { running = true; stopping = false; delay = 0; watcher = waiting; stopper = idle }

module _ {F : Type 0} (scale : F → ℕ → ℕ) where
  pub next : Backoff F → ℕ → ℕ
  next b current =
      let scaled = scale b.multiplier current in
      if current == 0 then b.initial else if ltb b.max scaled then b.max else scaled

  restarted : Backoff F → Bool → Machine → Machine
  unfolding next
  restarted b true m = record m { delay = next b m.delay; running = true; watcher = waiting }
  restarted b false m = record m { delay = next b m.delay }

  -- One step of the process, of `watch` or of `Stop`; `none` where it cannot be taken now.
  pub step : Backoff F → Event → Machine → Option Machine
  unfolding restarted
  step b crash m = if m.running then some (record m { running = false }) else none
  step b wait m = elim m.watcher [
    | waiting ↦ if m.running then none else some (record m { watcher = exited })
    | _ ↦ none
  ]
  step b check m = elim m.watcher [
    | exited ↦ some (record m { watcher = if m.stopping then closed else restarting })
    | _ ↦ none
  ]
  step b (restart success) m = elim m.watcher [
    | restarting ↦ some (restarted b success m)
    | _ ↦ none
  ]
  step b mark m = elim m.stopper [
    | idle ↦ some (record m { stopping = true; stopper = marked })
    | _ ↦ none
  ]
  step b stop m = elim m.stopper [
    | marked ↦ some (record m { running = false; stopper = stopped })
    | _ ↦ none
  ]
  step b join m = elim m.stopper [
    | stopped ↦ elim m.watcher [ closed ↦ some (record m { stopper = returned }) | _ ↦ none ]
    | _ ↦ none
  ]

  pub run : Backoff F → List Event → Machine → Option Machine
  unfolding step
  run b [] m = some m
  run b (e ∷ events) m = do m' ← step b e m; run b events m'
