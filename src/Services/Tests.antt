-- ===== src/Services/Tests.antt =====
-- The theorems on the services at a host in memory (engine/clickhouse and engine/redpanda).
pub mod Memory
use hermi_nas.Prelude.{String, [], codes, if◌then◌else◌, none, refl, some, true, ◌≡◌, ◌↔◌}
use hermi_nas.Services.{Platform, bytes_eq}
use hermi_nas.Services.ClickHouse.Downloaded.{IsDownloaded, download-IsDownloaded}
use hermi_nas.Services.ClickHouse.{
  annotate, asset_of, download, health_check, ping_url, probe, select_url, Config,
}
use hermi_nas.Services.ClickHouse.Healthy.{Answers, health_check_iff}
use hermi_nas.Supervisor.ExecProcess.{healthy}
use hermi_nas.Kernel.Errors
use hermi_nas.Kernel.Errors.{Error, Result, Bytes, ok, err}
use hermi_nas.QueryBroker.Broker.{Response}
use hermi_nas.Services.Tests.Memory.{Files, host, host-Laws}

abbrev reply : String → Response
reply text = record { status = 200; body = codes text; read_error = none }

-- A ClickHouse that answers its probes, and a build server.
abbrev pub answer : Bytes → Response
answer url =
    if bytes_eq url (ping_url 8123)
    then reply "Ok.\n"
    else if bytes_eq url (select_url 8123)
    then reply "1\n"
    else reply "binary"

abbrev pub no_files : Files
no_files path = none

abbrev cfg : Config
cfg = record { http_port = 8123; tcp_port = 9000; data_dir = "data"; bin_dir = "bin" }

abbrev pub linux : Platform
linux = record { goos = "linux"; goarch = "amd64" }

health_check_iff_example :
    ((health_check (host answer) (λ e. "") 8123 7 no_files).0.state ≡ healthy) ↔ (
      Answers (host answer) (ping_url 8123) "Ok." no_files
      × Answers
          (host answer)
          (select_url 8123)
          "1"
          (probe (host answer) (ping_url 8123) "Ok." no_files).1)
health_check_iff_example = health_check_iff (host answer) (λ e. "") 8123 7 no_files

download-IsDownloaded_example :
    IsDownloaded
      (host answer)
      (host-Laws answer)
      linux
      "bin"
      no_files
      "bin/clickhouse"
      (download (host answer) linux "bin" no_files).1
unfolding download host asset_of bytes_eq
download-IsDownloaded_example =
    download-IsDownloaded (host answer) (host-Laws answer) linux "bin" no_files refl
