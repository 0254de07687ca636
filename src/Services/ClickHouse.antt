-- ===== src/Services/ClickHouse.antt =====
-- The embedded ClickHouse, engine/clickhouse/clickhouse.go. Ports are natural numbers.
pub mod Configured
pub mod Downloaded
pub mod Healthy
use hermi_nas.Supervisor.ExecProcess.{new_exec_process, HealthStatus, unhealthy, healthy}
use hermi_nas.Services.{Command, Host, Platform, bytes_eq, checked}
use hermi_nas.QueryBroker.Broker.{Response}
use hermi_nas.Kernel.Errors.{Bytes, Error, Result, ok, err}
use hermi_nas.Lines.{trim_space}
use hermi_nas.Prelude.{
  List, Option, String, [], codes, if◌then◌else◌, none, not, some, str_eq, ℕ, ◌&&◌, ◌++◌, ◌==◌,
  ◌||◌, ◌∷◌,
}
use hermi_nas.SchemaMgr.Ddl.{decimal}
use hermi_nas.Kernel.Errors

pub record Config : Type 0 where
  pub http_port : ℕ
  pub tcp_port : ℕ
  pub data_dir : String
  pub bin_dir : String

abbrev pub line : String → Bytes → Bytes
line text rest = codes text ++ 10 ∷ rest

-- Lines of text.
unfoldable pub lines : List String → Bytes
lines [] = []
lines (text ∷ texts) = line text (lines texts)

abbrev pub annotate : String → Error → Error
annotate text e = Errors.annotated (record { format = text; args = [] }) e

unfoldable pub users_text : Bytes
unfolding lines
users_text = lines (
    "<clickhouse>" ∷ "    <profiles>" ∷ "        <default>"
    ∷ "            <max_memory_usage>4000000000</max_memory_usage>" ∷ "        </default>"
    ∷ "    </profiles>" ∷ "    <users>" ∷ "        <default>" ∷ "            <password></password>"
    ∷ "            <networks>" ∷ "                <ip>::1</ip>"
    ∷ "                <ip>127.0.0.1</ip>" ∷ "            </networks>"
    ∷ "            <profile>default</profile>" ∷ "            <quota>default</quota>"
    ∷ "        </default>" ∷ "    </users>" ∷ "    <quotas>" ∷ "        <default />"
    ∷ "    </quotas>" ∷ "</clickhouse>" ∷ [])

abbrev pub ping_url : ℕ → Bytes
ping_url port = codes "http://127.0.0.1:" ++ decimal port ++ codes "/ping"

abbrev pub select_url : ℕ → Bytes
select_url port = codes "http://127.0.0.1:" ++ decimal port ++ codes "/?query=SELECT+1"

-- The asset of the builds for a platform.
unfoldable pub asset_of : Platform → Option String
asset_of p =
    if str_eq p.goos "darwin" && str_eq p.goarch "amd64"
    then some "macos"
    else if str_eq p.goos "darwin" && str_eq p.goarch "arm64"
    then some "macos-aarch64"
    else if str_eq p.goos "linux" && str_eq p.goarch "amd64"
    then some "amd64"
    else if str_eq p.goos "linux" && str_eq p.goarch "arm64"
    then some "aarch64"
    else none

abbrev pub download_url : String → Bytes
download_url asset =
    codes "https://builds.clickhouse.com/master/" ++ codes asset ++ codes "/clickhouse"

module _ {S : Type 0} (H : Host S) where
  abbrev pub config_path : Config → String
  config_path cfg = H.join cfg.bin_dir "config.xml"

  abbrev pub users_path : Config → String
  users_path cfg = H.join cfg.bin_dir "users.xml"

  abbrev pub binary_path : Config → String
  binary_path cfg = H.join cfg.bin_dir "clickhouse"

  unfoldable pub config_text : Config → Bytes
  unfolding lines
  config_text cfg =
      lines (
        "<clickhouse>" ∷ "    <logger>" ∷ "        <level>information</level>"
        ∷ "        <console>true</console>" ∷ "    </logger>" ∷ [])
      ++ codes "    <http_port>"
      ++ decimal cfg.http_port
      ++ line "</http_port>" (codes "    <tcp_port>")
      ++ decimal cfg.tcp_port
      ++ line "</tcp_port>" (line "    <listen_host>127.0.0.1</listen_host>" (codes "    <path>"))
      ++ codes cfg.data_dir
      ++ line "/</path>" (codes "    <tmp_path>")
      ++ codes cfg.data_dir
      ++ line "/tmp/</tmp_path>" (lines ("    <user_directories>" ∷ "        <users_xml>" ∷ []))
      ++ codes "            <path>"
      ++ codes (users_path cfg)
      ++ line "</path>"
          (lines ("        </users_xml>" ∷ "    </user_directories>" ∷ "</clickhouse>" ∷ []))

  new_process : Config → Command
  new_process cfg = record {
    process = new_exec_process "clickhouse";
    path = binary_path cfg;
    args = "server" ∷ "--config-file" ∷ config_path cfg ∷ [];
  }

  unfoldable pub generate_config : Config → S → Option Error × S
  unfolding checked
  generate_config cfg s = checked (annotate "create bin dir: %w") (H.mkdir_all cfg.bin_dir s) (λ s.
      checked (annotate "create data dir: %w") (H.mkdir_all cfg.data_dir s) (λ s.
        checked (annotate "write config.xml: %w")
          (H.write_file (config_path cfg) (config_text cfg) s)
          (λ s.
            checked (annotate "write users.xml: %w") (H.write_file (users_path cfg) users_text s)
              (λ s. (none, s)))))

  stored : String → Option Error × S → Result String × S
  stored dest (none, s) = (ok dest, s)
  stored dest (some e, s) = (err (annotate "write clickhouse binary: %w" e), s)

  filled : String → Response → Option Error × S → Result String × S
  unfolding stored
  filled dest resp (some e, s) = (err e, s)
  filled dest resp (none, s) = stored dest (H.copy dest resp s)

  fetched : String → Result Response × S → Result String × S
  unfolding filled
  fetched dest (err e, s) = (err (annotate "download clickhouse: %w" e), s)
  fetched dest (ok resp, s) =
      if not (resp.status == 200)
      then (
        err (
            Errors.foreign (record {
              format = "download clickhouse: unexpected status %d";
              args = Errors.num resp.status ∷ [];
            })),
        s,
      )
      else filled dest resp (H.open_truncated dest s)

  fetch : String → Bytes → Option Error × S → Result String × S
  unfolding fetched
  fetch dir url (some e, s) = (err e, s)
  fetch dir url (none, s) = fetched (H.join dir "clickhouse") (H.get url s)

  unfoldable pub download : Platform → String → S → Result String × S
  unfolding fetch
  download p dir s = elim (asset_of p) [
    | none ↦ (
      err (
          Errors.foreign (record {
            format = "no ClickHouse build known for %s/%s";
            args = Errors.str p.goos ∷ Errors.str p.goarch ∷ [];
          })),
      s,
    )
    | some asset ↦ fetch dir (download_url asset) (H.mkdir_all dir s)
  ]

  -- What `probe` makes of an answer; a body that breaks off counts as what was read of it.
  probed : Bytes → String → Result Response → Option Error
  unfolding trim_space
  probed url want (err e) = some e
  probed url want (ok resp) =
      let body = trim_space resp.body in
      if not (resp.status == 200) || not (bytes_eq body (codes want))
      then some (
          Errors.foreign (record {
            format = "GET %s: status %d, body %q (want %q)";
            args =
                Errors.text url ∷ Errors.num resp.status ∷ Errors.text body ∷ Errors.str want ∷ [];
          }))
      else none

  unfoldable pub probe : Bytes → String → S → Option Error × S
  unfolding probed
  probe url want s = elim (H.bad_url url) [
    | some e ↦ (some e, s)
    | none ↦ let (answer, s') = H.get url s in (probed url want answer, s')
  ]

  module _ (print : Error → String) where
    abbrev pub unhealthy_status : ℕ → Error → HealthStatus
    unhealthy_status now e = record {
      service = "clickhouse";
      state = unhealthy;
      message = print e;
      checked_at = now;
    }

    abbrev pub healthy_status : ℕ → HealthStatus
    healthy_status now = record {
      service = "clickhouse";
      state = healthy;
      message = "";
      checked_at = now;
    }

    -- The second probe, behind the first.
    selected : ℕ → ℕ → Option Error × S → HealthStatus × S
    unfolding probe
    selected port now (some e, s) = (unhealthy_status now e, s)
    selected port now (none, s) =
        let (failure, s') = probe (select_url port) "1" s in
        (elim failure [ some e ↦ unhealthy_status now e | none ↦ healthy_status now ], s')

    -- The function that `healthCheck` gives; its error is always nil.
    unfoldable pub health_check : ℕ → ℕ → S → HealthStatus × S
    unfolding selected
    health_check port now s = selected port now (probe (ping_url port) "Ok." s)
