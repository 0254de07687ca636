-- ===== src/Bootstrap/Run/Orderly.antt =====
-- What `runControlPlane` of bootstrap.go starts and stops, and in which order.
use hermi_nas.Prelude.{List, Option, String, map, ◌++◌, ◌≡◌}
use hermi_nas.Supervisor.Lifecycle.{Registration}
use hermi_nas.Supervisor.Lifecycle.Order.{names, reversed, Note, begun, ended}
use hermi_nas.Bootstrap.Run.{Ended, shut_down}
use hermi_nas.Kernel.Errors.{Error}
use hermi_nas.Supervisor.Lifecycle

-- The notes are those of a start of each of a prefix of the processes, and then of a stop of each of
-- all processes in the reverse order. A program that was shut down had started them all.
pub record IsOrderly {F W : Type 0} (regs : List (Registration F))
    (result : Ended × List (Registration F) × (W × List Note)) : Type 0 where
  pub tried : List String
  pub others : List String
  pub split : names regs ≡ tried ++ others
  pub order : result.2.1 ≡ map begun tried ++ reversed (map ended (names regs))
  pub whole : (failure : Option Error) → result.0 ≡ shut_down failure → tried ≡ names regs

abbrev pub noted : {W : Type 0} → (W → W) → W × List Note → W × List Note
noted meanwhile (w, log) = (meanwhile w, log)
