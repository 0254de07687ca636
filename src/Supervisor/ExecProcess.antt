-- ===== src/Supervisor/ExecProcess.antt =====
-- A supervised command, engine/supervisor/exec_process.go, and the `Status` of supervisor.go.
-- What the operating system answers is an argument: whether the command starts, whether the signal
-- is delivered, and which of the events that `Stop` waits for comes first.
use hermi_nas.Prelude.{
  List, Option, String, [], arith, inl, inr, none, refl, some, ℕ, ◌∷◌, ◌≡◌, ◌≢◌, ◌⊎◌,
}
use hermi_nas.Kernel.Errors
use hermi_nas.Kernel.Errors.{Error, Result, ok, err}

pub data HealthState : Type 0 where
  unknown starting healthy degraded unhealthy : HealthState

pub record HealthStatus : Type 0 where
  pub service : String
  pub state : HealthState
  pub message : String
  pub checked_at : ℕ

-- The channel `done`: nil before a start, running while the command runs, closed when it has exited.
pub data Done : Type 0 where
  nil running closed : Done

pub record ExecProcess : Type 0 where
  pub name : String
  pub done : Done
  pub wait_err : Option Error

abbrev pub new_exec_process : String → ExecProcess
new_exec_process name = record { name = name; done = nil; wait_err = none }

-- With what `cmd.Start` gives.
unfoldable pub start : Option Error → ExecProcess → Option Error × ExecProcess
start (some e) p = (
  some (Errors.annotated (record { format = "start %s: %w"; args = Errors.str p.name ∷ [] }) e),
  p,
)
start none p = (none, record p { done = running; wait_err = none })

-- The goroutine of `Start`, when `cmd.Wait` returns.
unfoldable pub exited : Option Error → ExecProcess → ExecProcess
exited e p = record p { done = closed; wait_err = e }

pub data Waited : Type 0 where
  blocks : Waited
  returns : Option Error → Waited

unfoldable pub wait : ExecProcess → Waited
wait p = elim p.done [
  | nil ↦ returns (
      some (
        Errors.foreign
          (record { format = "%s: Wait called before Start"; args = Errors.str p.name ∷ [] })))
  | running ↦ blocks
  | closed ↦ returns p.wait_err
]

-- What comes first after the signal: the exit, the end of the grace, after which the command is
-- killed and its exit awaited, or the end of the context, after which it is only killed.
pub data Ending : Type 0 where
  exits : Option Error → Ending
  grace_over : Option Error → Ending
  context_done : Error → Ending

ended : Ending → ExecProcess → Option Error × ExecProcess
unfolding exited
ended (exits e) p = (none, exited e p)
ended (grace_over e) p = (none, exited e p)
ended (context_done e) p = (some e, p)

-- `signal` is the error of sending the signal.
unfoldable pub stop : Option Error → Ending → ExecProcess → Option Error × ExecProcess
unfolding ended
stop signal ending p = elim p.done [
  | nil ↦ (none, p)
  | closed ↦ (none, p)
  | running ↦ elim signal [ some e ↦ (none, p) | none ↦ ended ending p ]
]

abbrev report : HealthState → String → ℕ → ExecProcess → HealthStatus
report state message now p = record {
  service = p.name;
  state = state;
  message = message;
  checked_at = now;
}

unfoldable pub health : Option (Result HealthStatus) → ℕ → ExecProcess → Result HealthStatus
health (some check) now p = check
health none now p = elim p.done [
  | nil ↦ ok (report unknown "" now p)
  | closed ↦ ok (report unhealthy "process exited" now p)
  | running ↦ ok (report healthy "" now p)
]

module _ {P : Type 0} (name : P → String) (probe : P → Result HealthStatus) (print : Error → String)
    (now : ℕ) where
  status_of : P → Result HealthStatus → HealthStatus
  status_of p (ok status) = status
  status_of p (err e) = record {
    service = name p;
    state = unknown;
    message = print e;
    checked_at = now;
  }

  -- `Supervisor.Status`
  unfoldable pub status : List P → List HealthStatus
  unfolding status_of
  status [] = []
  status (p ∷ ps) = status_of p (probe p) ∷ status ps

Done-cases : (d : Done) → (d ≡ nil) ⊎ (d ≡ closed) ⊎ (d ≡ running)
Done-cases nil = inl refl
Done-cases closed = inr (inl refl)
Done-cases running = inr (inr refl)

-- A command that does not run.
idle_lem :
    (now : ℕ) (p : ExecProcess)
    → p.done ≢ running
    → (wait p ≢ blocks)
      × ((status : HealthStatus) → health none now p ≡ ok status → status.state ≢ healthy)
unfolding wait health
idle_lem now p idle = elim (Done-cases p.done) [
  | inl q ↦ (λ e. absurd (ground (arith, q, e)), λ status e k. absurd (ground (arith, q, e, k)))
  | inr (inl q) ↦
      (λ e. absurd (ground (arith, q, e)), λ status e k. absurd (ground (arith, q, e, k)))
  | inr (inr q) ↦ absurd (idle q)
]

stop_idle :
    (ending : Ending) (p : ExecProcess)
    → (stop none ending p).0 ≡ none
    → (stop none ending p).1.done ≢ running
unfolding stop ended exited
stop_idle ending p h e = elim (Done-cases p.done) [
  | inl q ↦ absurd (ground (arith, q, e))
  | inr (inl q) ↦ absurd (ground (arith, q, e))
  | inr (inr q) ↦ absurd (ground (arith, q, e, h))
]

-- A `Stop` whose signal is delivered and that gives no error returns only when the command does not
-- run: a `Wait` that follows it returns at once, and the health without a check of its own is not
-- healthy.
stop-not_running :
    (ending : Ending) (now : ℕ) (p : ExecProcess)
    → let done = stop none ending p in
      done.0 ≡ none
      → (wait done.1 ≢ blocks)
        × ((status : HealthStatus) → health none now done.1 ≡ ok status → status.state ≢ healthy)
stop-not_running ending now p h = idle_lem now (stop none ending p).1 (stop_idle ending p h)
