-- ===== src/Supervisor/Lifecycle.antt =====
-- Registering, starting and stopping the processes in order, engine/supervisor/supervisor.go.
-- A process is known by its name. What starting, stopping and probing it do to the world is the
-- parameter `Processes`. How `watch` then runs beside this is the subject of the parent.
pub mod Order
use hermi_nas.Prelude.{
  Bool, List, Option, String, [], false, if◌then◌else◌, ltb, none, not, some, true, ℕ, ◌&&◌, ◌*◌,
  ◌++◌, ◌+◌, ◌==◌, ◌∷◌,
}
use hermi_nas.Prelude.Int.{ℤ, is_pos, pos_part}
use hermi_nas.Kernel.Errors
use hermi_nas.Kernel.Errors.{Error}
use hermi_nas.Supervisor.{Backoff}

abbrev pub second : ℕ
second = 1000000000

pub record Registration (F : Type 0) : Type 0 where
  pub name : String
  pub ready_timeout : ℕ
  pub backoff : Backoff F
  pub stopping : Bool
  pub watched : Bool  -- `watchDone` was made, and `watch` was started

-- What one round of `awaitHealthy` sees: whether `Health` says healthy, the time behind it, and what
-- `ctx.Err()` gives if the `select` takes that branch.
pub record Poll : Type 0 where
  pub healthy : Bool
  pub at : ℕ
  pub canceled : Option Error

pub data Outcome : Type 0 where
  done : Outcome
  aborted : Error → Outcome
  pending : Outcome  -- after these polls, it still waits

pub record Processes (W : Type 0) : Type 0 where
  pub start : String → W → Option Error × W
  pub stop : String → W → Option Error × W
  -- the time at which `awaitHealthy` begins, and its rounds
  pub polls : String → W → ℕ × List Poll × W

not_healthy_error : String → ℕ → Error
not_healthy_error name timeout = Errors.foreign (record {
  format = "%s did not become healthy within %s";
  args = Errors.str name ∷ Errors.num timeout ∷ [];
})

unfoldable pub await_healthy : String → ℕ → ℕ → List Poll → Outcome
unfolding not_healthy_error
await_healthy name timeout begun [] = pending
await_healthy name timeout begun (poll ∷ polls) =
    let rest = await_healthy name timeout begun polls in
    if poll.healthy
    then done
    else if ltb (begun + timeout) poll.at
    then aborted (not_healthy_error name timeout)
    else elim poll.canceled [ some e ↦ aborted e | none ↦ rest ]

module _ {F : Type 0} (is_zero : F → Bool) (two : F) where
  default_backoff : Backoff F
  default_backoff = record { initial = 500 * 1000000; max = 30 * second; multiplier = two }

  -- The multiplier is a `float64`, of which `is_zero` and `two` are what this uses.
  unfoldable pub register : String → ℤ → Backoff F → List (Registration F) → List (Registration F)
  unfolding default_backoff
  register name ready_timeout b regs =
      regs
      ++ record {
        name = name;
        ready_timeout = if is_pos ready_timeout then pos_part ready_timeout else 30 * second;
        backoff =
            if b.initial == 0 && (b.max == 0 && is_zero b.multiplier) then default_backoff else b;
        stopping = false;
        watched = false;
      }
        ∷ []

abbrev pub watch : {F : Type 0} → Registration F → Registration F
watch reg = record reg { watched = true }

abbrev pub mark_stopping : {F : Type 0} → Registration F → Registration F
mark_stopping reg = record reg { stopping = true }

start_error : String → Error → Error
start_error name e =
    Errors.annotated (record { format = "start %s"; args = Errors.str name ∷ [] }) e

stop_error : String → Error → Error
stop_error name e = Errors.annotated (record { format = "stop %s"; args = Errors.str name ∷ [] }) e

abbrev keep_first : Option Error → Option Error → Option Error
keep_first none e = e
keep_first (some first) e = some first

module _ {F W : Type 0} (P : Processes W) where
  -- The processes behind one that fails are neither started nor watched.
  unfoldable pub start : List (Registration F) → W → Outcome × List (Registration F) × W
  unfolding start_error
  start [] w = (done, [], w)
  start (reg ∷ regs) w =
      let (failure, w1) = P.start reg.name w in
      let (begun, polls, w2) = P.polls reg.name w1 in
      let (outcome, regs', w3) = start regs w2 in
      elim failure [
        | some e ↦ (aborted (start_error reg.name e), reg ∷ regs, w1)
        | none ↦ elim (await_healthy reg.name reg.ready_timeout begun polls) [
          | done ↦ (outcome, watch reg ∷ regs', w3)
          | aborted e ↦ (aborted e, watch reg ∷ regs, w2)
          | pending ↦ (pending, watch reg ∷ regs, w2)
        ]
      ]

  -- The loop of `Stop` from the last process to the first; `watchDone` is waited for in the parent.
  unfoldable pub stop : List (Registration F) → W → Option Error × List (Registration F) × W
  unfolding stop_error
  stop [] w = (none, [], w)
  stop (reg ∷ regs) w =
      let (first, regs', w1) = stop regs w in
      let (failure, w2) = P.stop reg.name w1 in
      (
        keep_first first (elim failure [ none ↦ none | some e ↦ some (stop_error reg.name e) ]),
        mark_stopping reg ∷ regs',
        w2,
      )
