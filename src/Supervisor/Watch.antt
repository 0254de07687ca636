-- ===== src/Supervisor/Watch.antt =====
-- What holds of every interleaving of a process, its `watch` and `Stop`
-- (engine/supervisor/supervisor.go).
use hermi_nas.Prelude.{
  some_injective, List, Option-cases, [], arith, false, if◌then◌else◌, inl, inr, ltb, none, refl,
  some, subst, true, ℕ, ◌∷◌, ◌≡◌, ◌≢◌, ◌≤◌,
}
use hermi_nas.Supervisor.{Backoff, Machine, Event, Watcher, Stopper, step, run, started, next}

abbrev pub bound : {F : Type 0} → Backoff F → ℕ
bound b = if ltb b.max b.initial then b.initial else b.max

-- A watcher behind `Wait` has no running process, and a `Stop` that has returned has seen the watcher
-- return.
record IsSound (m : Machine) : Type 0 where
  exited : m.watcher ≡ Watcher.exited → m.running ≡ false
  restarting : m.watcher ≡ Watcher.restarting → m.running ≡ false
  closed : m.watcher ≡ Watcher.closed → m.running ≡ false
  returned : m.stopper ≡ Stopper.returned → m.watcher ≡ Watcher.closed

module _ {F : Type 0} (scale : F → ℕ → ℕ) (b : Backoff F) where
  step-IsSound : (e : Event) {m m' : Machine} → IsSound m → step scale b e m ≡ some m' → IsSound m'
  unfolding step
  step-IsSound Event.crash {m} {m'} s h = record {
    exited = λ q. ground arith;
    restarting = λ q. ground arith;
    closed = λ q. ground arith;
    returned = λ q. ground arith;
  }
  step-IsSound Event.wait {m} {m'} s h = record {
    exited = λ q. ground arith;
    restarting = λ q. ground arith;
    closed = λ q. ground arith;
    returned = λ q. ground arith;
  }
  step-IsSound Event.check {m} {m'} s h = record {
    exited = λ q. ground arith;
    restarting = λ q. ground arith;
    closed = λ q. ground arith;
    returned = λ q. ground arith;
  }
  step-IsSound (Event.restart true) {m} {m'} s h = record {
    exited = λ q. ground arith;
    restarting = λ q. ground arith;
    closed = λ q. ground arith;
    returned = λ q. ground arith;
  }
  step-IsSound (Event.restart false) {m} {m'} s h = record {
    exited = λ q. ground arith;
    restarting = λ q. ground arith;
    closed = λ q. ground arith;
    returned = λ q. ground arith;
  }
  step-IsSound Event.mark {m} {m'} s h = record {
    exited = λ q. ground arith;
    restarting = λ q. ground arith;
    closed = λ q. ground arith;
    returned = λ q. ground arith;
  }
  step-IsSound Event.stop {m} {m'} s h = record {
    exited = λ q. ground arith;
    restarting = λ q. ground arith;
    closed = λ q. ground arith;
    returned = λ q. ground arith;
  }
  step-IsSound Event.join {m} {m'} s h = record {
    exited = λ q. ground arith;
    restarting = λ q. ground arith;
    closed = λ q. ground arith;
    returned = λ q. ground arith;
  }

  run-IsSound :
      (events : List Event) {m m' : Machine}
      → IsSound m
      → run scale b events m ≡ some m'
      → IsSound m'
  unfolding run
  run-IsSound [] s h = subst IsSound (some_injective h) s
  run-IsSound (e ∷ events) {m} s h = elim (Option-cases (step scale b e m)) [
    | inl q ↦ absurd (ground (arith, q))
    | inr (m1, q) ↦ run-IsSound events (step-IsSound e s q) (rw q at h)
  ]

  started-IsSound : IsSound started
  started-IsSound = record {
    exited = λ q. cc;
    restarting = λ q. cc;
    closed = λ q. cc;
    returned = λ q. cc;
  }

  step_returned :
      (e : Event) (m : Machine) {m' : Machine}
      → m.stopper ≡ Stopper.returned
      → step scale b e m ≡ some m'
      → m'.stopper ≡ Stopper.returned
  unfolding step
  step_returned Event.crash m h q = ground arith
  step_returned Event.wait m h q = ground arith
  step_returned Event.check m h q = ground arith
  step_returned (Event.restart true) m h q = ground arith
  step_returned (Event.restart false) m h q = ground arith
  step_returned Event.mark m h q = ground arith
  step_returned Event.stop m h q = ground arith
  step_returned Event.join m h q = ground arith

  run_returned :
      (events : List Event) (m : Machine) {m' : Machine}
      → m.stopper ≡ Stopper.returned
      → run scale b events m ≡ some m'
      → m'.stopper ≡ Stopper.returned
  unfolding run
  run_returned [] m h q = ground arith
  run_returned (e ∷ events) m h q = elim (Option-cases (step scale b e m)) [
    | inl r ↦ absurd (ground (arith, r))
    | inr (m1, r) ↦ run_returned events m1 (step_returned e m h r) (rw r at q)
  ]

  -- Once `Stop` has returned for a process, whatever happened before, the process does not run, and
  -- nothing that `watch` does afterwards starts it again.
  pub run_stopped :
      (events more : List Event) {m m' : Machine}
      → run scale b events started ≡ some m
      → m.stopper ≡ Stopper.returned
      → run scale b more m ≡ some m'
      → m'.running ≡ false
  run_stopped events more {m} h returned q =
      let s = run-IsSound more (run-IsSound events started-IsSound h) q in
      s.closed (s.returned (run_returned more m returned q))

  -- A process that runs when `Stop` comes: `Stop` returns, and `watch` with it.
  run-stop :
      (m : Machine)
      → m.running ≡ true
      → m.watcher ≡ Watcher.waiting
      → m.stopper ≡ Stopper.idle
      → (m' : Machine) × (run scale b
            (Event.mark ∷ Event.stop ∷ Event.wait ∷ Event.check ∷ Event.join ∷ [])
            m
          ≡ some m')
        × (m'.stopper ≡ Stopper.returned)
        × (m'.watcher ≡ Watcher.closed)
  unfolding run step
  run-stop m running waiting idle = (
    record m {
      stopping = true;
      running = false;
      watcher = Watcher.closed;
      stopper = Stopper.returned;
    },
    rw (idle, waiting),
    refl,
    refl,
  )

  stuck :
      (e : Event) (m : Machine)
      → m.running ≡ true
      → m.watcher ≡ Watcher.waiting
      → m.stopper ≡ Stopper.stopped
      → e ≢ Event.crash
      → step scale b e m ≡ none
  unfolding step
  stuck Event.crash m r w q h = absurd (h refl)
  stuck Event.wait m r w q h = ground arith
  stuck Event.check m r w q h = ground arith
  stuck (Event.restart success) m r w q h = ground arith
  stuck Event.mark m r w q h = ground arith
  stuck Event.stop m r w q h = ground arith
  stuck Event.join m r w q h = ground arith

  -- A process that exited before `Stop` and is restarted behind `process.Stop`: no step of `Stop` or
  -- `watch` can be taken any more, only the process itself may exit.
  pub restart_hangs :
      (m : Machine)
      → m.watcher ≡ Watcher.restarting
      → m.stopper ≡ Stopper.stopped
      → (m' : Machine) × (step scale b (Event.restart true) m ≡ some m')
        × (m'.running ≡ true)
        × ((e : Event) → e ≢ Event.crash → step scale b e m' ≡ none)
  unfolding step
  restart_hangs m restarting stopped = (
    record m { delay = next scale b m.delay; running = true; watcher = Watcher.waiting },
    rw restarting,
    refl,
    λ e others.
        stuck e
          (record m { delay = next scale b m.delay; running = true; watcher = Watcher.waiting })
          refl refl stopped others,
  )

  next-le : (current : ℕ) → next scale b current ≤ bound b
  unfolding next
  next-le current = ground arith

  step-delay :
      (e : Event) (m : Machine) {m' : Machine}
      → m.delay ≤ bound b
      → step scale b e m ≡ some m'
      → m'.delay ≤ bound b
  unfolding step
  step-delay Event.crash m h q = ground arith
  step-delay Event.wait m h q = ground arith
  step-delay Event.check m h q = ground arith
  step-delay (Event.restart true) m h q = ground (arith, next-le m.delay)
  step-delay (Event.restart false) m h q = ground (arith, next-le m.delay)
  step-delay Event.mark m h q = ground arith
  step-delay Event.stop m h q = ground arith
  step-delay Event.join m h q = ground arith

  run-delay_from :
      (events : List Event) (m : Machine) {m' : Machine}
      → m.delay ≤ bound b
      → run scale b events m ≡ some m'
      → m'.delay ≤ bound b
  unfolding run
  run-delay_from [] m h q = ground arith
  run-delay_from (e ∷ events) m h q = elim (Option-cases (step scale b e m)) [
    | inl r ↦ absurd (ground (arith, r))
    | inr (m1, r) ↦ run-delay_from events m1 (step-delay e m h r) (rw r at q)
  ]

  -- However often a process is restarted and whatever the multiplier makes of a delay, `watch` never
  -- waits longer than the larger of the initial and the largest delay.
  run-delay-le :
      (events : List Event) {m : Machine} → run scale b events started ≡ some m → m.delay ≤ bound b
  run-delay-le events h = run-delay_from events started (ground arith) h
