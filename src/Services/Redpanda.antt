-- ===== src/Services/Redpanda.antt =====
-- The embedded Redpanda, engine/redpanda/redpanda.go. Ports are natural numbers; `quote` is the verb
-- `%q` of a text.
use hermi_nas.Supervisor.ExecProcess.{new_exec_process, HealthStatus, healthy, unhealthy}
use hermi_nas.Services.{Command, Host, Platform, checked}
use hermi_nas.Kernel.Errors.{Bytes, Error, Result, ok, err}
use hermi_nas.Prelude.{
  Option, String, [], codes, if◌then◌else◌, none, not, some, str_eq, ℕ, ◌++◌, ◌==◌, ◌||◌, ◌∷◌,
}
use hermi_nas.SchemaMgr.Ddl.{decimal}
use hermi_nas.Services.ClickHouse.{annotate, line, lines}
use hermi_nas.Kernel.Errors
use hermi_nas.QueryBroker.Broker.{Response}

pub record Config : Type 0 where
  pub kafka_port : ℕ
  pub admin_port : ℕ
  pub rpc_port : ℕ
  pub data_dir : String
  pub bin_dir : String

abbrev pub ready_url : ℕ → Bytes
ready_url port = codes "http://127.0.0.1:" ++ decimal port ++ codes "/v1/status/ready"

unfoldable pub yaml_text : (String → Bytes) → Config → Bytes
unfolding lines
yaml_text quote cfg =
    line "redpanda:" (codes "  data_directory: ")
    ++ quote cfg.data_dir
    ++ 10
      ∷ lines (
          "  node_id: 0" ∷ "  developer_mode: true" ∷ "  kafka_api:" ∷ "    - address: 127.0.0.1"
          ∷ [])
    ++ codes "      port: "
    ++ decimal cfg.kafka_port
    ++ 10 ∷ lines ("  rpc_server:" ∷ "    address: 127.0.0.1" ∷ [])
    ++ codes "    port: "
    ++ decimal cfg.rpc_port
    ++ 10 ∷ lines ("  admin:" ∷ "    - address: 127.0.0.1" ∷ [])
    ++ codes "      port: "
    ++ decimal cfg.admin_port
    ++ 10 ∷ []

-- No build is wired yet, so there is no path.
unfoldable pub download : Platform → String → Error
download p dir =
    let host = Errors.str p.goos ∷ Errors.str p.goarch ∷ [] in
    if not (str_eq p.goos "linux")
    then Errors.foreign (record {
      format =
          "redpanda ships Linux binaries only (host is %s/%s) — use Docker locally, or the Linux bundle target";
      args = host;
    })
    else if str_eq p.goarch "amd64" || str_eq p.goarch "arm64"
    then Errors.foreign (record {
      format =
          "redpanda download not yet wired for %s/%s (tracked for the Linux bundle target, M8.1)";
      args = host;
    })
    else Errors.foreign (record { format = "no Redpanda build known for %s/%s"; args = host })

module _ {S : Type 0} (H : Host S) where
  abbrev pub config_path : Config → String
  config_path cfg = H.join cfg.bin_dir "redpanda.yaml"

  abbrev pub binary_path : Config → String
  binary_path cfg = H.join cfg.bin_dir "redpanda"

  new_process : Config → Command
  new_process cfg = record {
    process = new_exec_process "redpanda";
    path = binary_path cfg;
    args = "start" ∷ "--config" ∷ config_path cfg ∷ [];
  }

  unfoldable pub generate_config : (String → Bytes) → Config → S → Option Error × S
  unfolding checked
  generate_config quote cfg s =
      checked (annotate "create bin dir: %w") (H.mkdir_all cfg.bin_dir s) (λ s.
        checked (annotate "create data dir: %w") (H.mkdir_all cfg.data_dir s) (λ s.
          checked (annotate "write redpanda.yaml: %w")
            (H.write_file (config_path cfg) (yaml_text quote cfg) s) (λ s. (none, s))))

  -- What the answer to the request for readiness says.
  ready_error : Bytes → Result Response → Option Error
  ready_error url (err e) = some e
  ready_error url (ok resp) =
      if not (resp.status == 200)
      then some (
          Errors.foreign (record {
            format = "GET %s: status %d";
            args = Errors.text url ∷ Errors.num resp.status ∷ [];
          }))
      else none

  module _ (print : Error → String) where
    status_of : ℕ → Option Error → HealthStatus
    status_of now failure = elim failure [
      | some e ↦ record {
        service = "redpanda";
        state = unhealthy;
        message = print e;
        checked_at = now;
      }
      | none ↦ record { service = "redpanda"; state = healthy; message = ""; checked_at = now }
    ]

    -- The function that `healthCheck` gives; its error is always nil.
    unfoldable pub health_check : ℕ → ℕ → S → HealthStatus × S
    unfolding ready_error status_of
    health_check port now s = elim (H.bad_url (ready_url port)) [
      | some e ↦ (status_of now (some e), s)
      | none ↦
          let (answer, s') = H.get (ready_url port) s in
          (status_of now (ready_error (ready_url port) answer), s')
    ]
