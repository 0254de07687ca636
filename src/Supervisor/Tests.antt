-- ===== src/Supervisor/Tests.antt =====
-- The theorems on the supervisor at concrete processes (engine/supervisor/supervisor.go).
use hermi_nas.Kernel.Errors.{ok}
use hermi_nas.Prelude.{
  List, [], any, false, ltb, none, refl, some, true, ℕ, ◌*◌, ◌+◌, ◌∷◌, ◌≡◌, ◌≢◌,
}
use hermi_nas.Kernel.Errors
use hermi_nas.Supervisor.{Backoff, Machine, Event, Watcher, Stopper, started, step, run}
use hermi_nas.Supervisor.Watch.{run_stopped, restart_hangs}
use hermi_nas.Supervisor.Lifecycle.{Processes, Poll, done, pending, await_healthy}
use hermi_nas.Supervisor.Lifecycle.Order.{await_healthy_lem}

-- A multiplier of whole numbers.
abbrev scale : ℕ → ℕ → ℕ
scale k d = k * d

abbrev backoff : Backoff ℕ
backoff = record { initial = 5; max = 30; multiplier = 2 }

-- A crash, a restart that fails and one that succeeds, then `Stop`.
abbrev life : List Event
life =
    Event.crash
    ∷ Event.wait
    ∷ Event.check
    ∷ Event.restart false
    ∷ Event.restart true
    ∷ Event.mark
    ∷ Event.stop
    ∷ Event.wait
    ∷ Event.check
    ∷ Event.join
    ∷ []

abbrev ended : Machine
ended = record {
  running = false;
  stopping = true;
  delay = 10;
  watcher = Watcher.closed;
  stopper = Stopper.returned;
}

life_ends : run scale backoff life started ≡ some ended
unfolding run
life_ends = refl

run_stopped_example : ended.running ≡ false
unfolding run
run_stopped_example = run_stopped scale backoff life [] life_ends refl refl

-- A process that crashed, and `Stop` came while `watch` slept.
abbrev late : Machine
late = record {
  running = false;
  stopping = true;
  delay = 5;
  watcher = Watcher.restarting;
  stopper = Stopper.stopped;
}

restart_hangs_example :
    (m' : Machine) × (step scale backoff (Event.restart true) late ≡ some m')
    × (m'.running ≡ true)
    × ((e : Event) → e ≢ Event.crash → step scale backoff e m' ≡ none)
restart_hangs_example = restart_hangs scale backoff late refl refl

abbrev polls : List Poll
polls =
    record { healthy = false; at = 5; canceled = none }
    ∷ record { healthy = false; at = 35; canceled = none }
    ∷ []

-- Processes that start and do not become healthy in time, and whose `Stop` fails; the world counts
-- the starts.
abbrev processes : Processes ℕ
processes = record {
  start = λ name n. (none, n + 1);
  stop = λ name n. (some (Errors.foreign (record { format = "gone"; args = [] })), n);
  polls = λ name n. (0, polls, n);
}

await_healthy_lem_example :
    (any (λ p. ltb (0 + 30) p.at) polls ≡ true → await_healthy "redpanda" 30 0 polls ≢ pending)
    × (await_healthy "redpanda" 30 0 polls ≡ done → any (λ p. p.healthy) polls ≡ true)
await_healthy_lem_example = await_healthy_lem "redpanda" 30 0 polls
