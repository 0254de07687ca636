-- ===== src/Bootstrap/Run.antt =====
-- The supervised start, `runControlPlane` and `statusControlPlane` of bootstrap.go.
-- The state `S` is that of the files and of the processes; `exitf` is an error. What happens until
-- the signal that ends the program is the parameter `meanwhile`.
pub mod Prepared
pub mod Orderly
use hermi_nas.Kernel.Errors.{Bytes, Result, ok, err, Error}
use hermi_nas.Prelude.{
  Bool, List, Option, String, [], if◌then◌else◌, none, some, str_eq, ℕ, ◌*◌, ◌∷◌,
}
use hermi_nas.Prelude.Int.{pos}
use hermi_nas.SchemaMgr.Http.{error}
use hermi_nas.Services.{Host, Platform}
use hermi_nas.Services.ClickHouse.{annotate}
use hermi_nas.Supervisor.{Backoff}
use hermi_nas.Kernel.Errors
use hermi_nas.Kernel.Settings.{Layout}
use hermi_nas.Services.ClickHouse
use hermi_nas.Services.Redpanda
use hermi_nas.Supervisor.Lifecycle
use hermi_nas.Supervisor.Lifecycle.{Registration, Processes, second}
use hermi_nas.Supervisor.ExecProcess

pub data Ended : Type 0 where
  exited : Error → Ended
  shut_down : Option Error → Ended  -- with the error that `Stop` gave, which is printed
  starting : Ended  -- `Start` still waits

abbrev pub on_linux : Platform → Bool
on_linux p = str_eq p.goos "linux"

module _ {S : Type 0} (H : Host S) where
  unfoldable pub clickhouse_config : Layout → ClickHouse.Config
  clickhouse_config layout = record {
    http_port = 8123;
    tcp_port = 9000;
    data_dir = H.join layout.data_dir "clickhouse";
    bin_dir = H.join (H.join layout.runtime_dir "clickhouse") "bin";
  }

  unfoldable pub redpanda_config : Layout → Redpanda.Config
  redpanda_config layout = record {
    kafka_port = 9092;
    admin_port = 9644;
    rpc_port = 33145;
    data_dir = H.join layout.data_dir "redpanda";
    bin_dir = H.join (H.join layout.runtime_dir "redpanda") "bin";
  }

  -- `is_zero`, `two` and `zero_value` are what the supervisor and `Backoff{}` use of `float64`.
  module _ {F : Type 0} (is_zero : F → Bool) (two zero_value : F) (quote : String → Bytes)
      (p : Platform) (layout : Layout) where
    abbrev pub zero_backoff : Backoff F
    zero_backoff = record { initial = 0; max = 0; multiplier = zero_value }

    abbrev pub register : String → List (Registration F) → List (Registration F)
    register name regs = Lifecycle.register is_zero two name (pos (30 * second)) zero_backoff regs

    -- `os.Stat` of the binary, behind the configuration of ClickHouse.
    found_binary : List (Registration F) → Option Error × S → Result (List (Registration F)) × S
    unfolding clickhouse_config
    found_binary regs (some e, s) = (err (annotate "generate clickhouse config: %v" e), s)
    found_binary regs (none, s) =
        let path = ClickHouse.binary_path H (clickhouse_config layout) in
        if H.stat path s then (ok (register "clickhouse" regs), s) else (
          err (
              Errors.foreign (record {
                format = "clickhouse binary not found at %s — run clickhouse.Download first";
                args = Errors.str path ∷ [];
              })),
          s,
        )

    add_clickhouse : List (Registration F) → S → Result (List (Registration F)) × S
    unfolding found_binary
    add_clickhouse regs s =
        found_binary regs (ClickHouse.generate_config H (clickhouse_config layout) s)

    configured_redpanda : Option Error × S → Result (List (Registration F)) × S
    unfolding add_clickhouse
    configured_redpanda (some e, s) = (err (annotate "generate redpanda config: %v" e), s)
    configured_redpanda (none, s) = add_clickhouse (register "redpanda" []) s

    add_services : Option Error × S → Result (List (Registration F)) × S
    unfolding configured_redpanda redpanda_config
    add_services (some e, s) = (err (annotate "cannot create data dir: %v" e), s)
    add_services (none, s) =
        if on_linux p
        then configured_redpanda (Redpanda.generate_config H quote (redpanda_config layout) s)
        else add_clickhouse [] s

    -- `runControlPlane` up to `Start`.
    unfoldable pub prepare : S → Result (List (Registration F)) × S
    unfolding add_services
    prepare s = add_services (H.mkdir_all layout.data_dir s)

-- `runControlPlane` from `Start` on.
module _ {F W : Type 0} (P : Processes W) (meanwhile : W → W) where
  unfoldable pub launched :
      Lifecycle.Outcome × List (Registration F) × W → Ended × List (Registration F) × W
  launched (Lifecycle.done, regs, w) =
      let (failure, regs', w') = Lifecycle.stop P regs (meanwhile w) in
      (shut_down failure, regs', w')
  launched (Lifecycle.aborted e, regs, w) =
      let (failure, regs', w') = Lifecycle.stop P regs w in
      (exited (annotate "supervisor: start failed: %v" e), regs', w')
  launched (Lifecycle.pending, regs, w) = (starting, regs, w)

  unfoldable pub launch : List (Registration F) → W → Ended × List (Registration F) × W
  unfolding launched
  launch regs w = launched (Lifecycle.start P regs w)

module _ {F S : Type 0} (H : Host S) (P : Processes S) (meanwhile : S → S) (is_zero : F → Bool)
    (two zero_value : F) (quote : String → Bytes) (p : Platform) (layout : Layout) where
  prepared : Result (List (Registration F)) × S → Ended × S
  unfolding launch
  prepared (err e, s) = (exited e, s)
  prepared (ok regs, s) = let (ended, regs', s') = launch P meanwhile regs s in (ended, s')

  unfoldable pub run_control_plane : S → Ended × S
  unfolding prepared prepare
  run_control_plane s = prepared (prepare H is_zero two zero_value quote p layout s)

-- `statusControlPlane`, with the state in which each service is probed.
module _ {S : Type 0} (H : Host S) (print : Error → String) (now : ℕ) (p : Platform)
    (moment : String → S) where
  check_of : String → Result ExecProcess.HealthStatus
  check_of name =
      if str_eq name "redpanda"
      then ok (Redpanda.health_check H print 9644 now (moment name)).0
      else ok (ClickHouse.health_check H print 8123 now (moment name)).0

  unfoldable pub status_control_plane : List ExecProcess.HealthStatus
  unfolding check_of
  status_control_plane =
      ExecProcess.status (λ name. name) check_of print now
        (if on_linux p then "redpanda" ∷ "clickhouse" ∷ [] else "clickhouse" ∷ [])
