-- ===== src/Bootstrap/Tests.antt =====
-- The theorems on bootstrap.go at databases and a host in memory.
mod Server
use hermi_nas.Bootstrap.Run.{register, prepare}
use hermi_nas.Prelude.{
  Bool, List, String, codes, false, some, ℕ, ◌+◌, ◌==◌, ◌∷◌, [], none, put, refl, true, ◌⊎◌,
}
use hermi_nas.Prelude.Int.{pos}
use hermi_nas.Services.ClickHouse.{lines}
use hermi_nas.Supervisor.Lifecycle.{start, stop, Registration, Processes}
use hermi_nas.Supervisor.Lifecycle
use hermi_nas.Services.ClickHouse
use hermi_nas.Services.Redpanda
use hermi_nas.Kernel.Settings.{Layout}
use hermi_nas.Services.Tests.{answer, no_files, linux}
use hermi_nas.Services.Tests.Memory.{Files, host, host-Laws}
use hermi_nas.Bootstrap.Run.Prepared.{IsPrepared, prepare-IsPrepared}
use hermi_nas.Auth.Jwt.{Claims}
use hermi_nas.Kernel.Errors.{Bytes, Error, Result, ok, err, is_already_exists}
use hermi_nas.Kernel.Permissions.{admin, valid}
use hermi_nas.WsHub.Hub.{Hub, Payload, new_client}
use hermi_nas.Bootstrap.Widget.{subscribed, polls, IsAudited, polls-IsAudited}
use hermi_nas.QueryBroker.Broker.{Broker, Http, Times, Sent}
use hermi_nas.WsHub.Subscriptions.{ControlMessage}
use hermi_nas.Kernel.Errors
use hermi_nas.SchemaMgr.Database.{no_rows, found}
use hermi_nas.Auth.Database.{Backend}
use hermi_nas.Auth.Store.{User, create_user, verify_password, new_user}
use hermi_nas.Auth.Tests.Memory as Accounts
use hermi_nas.Bootstrap.{bootstrap_admin_user}

abbrev layout : Layout
layout = record {
  root = ".";
  config_dir = "./config";
  runtime_dir = "./runtime";
  models_dir = "./models";
  data_dir = "./data";
  logs_dir = "./logs";
}

-- The binary of ClickHouse was downloaded.
abbrev installed : Files
installed = put "./runtime/clickhouse/bin/clickhouse" (some (codes "binary")) no_files

abbrev is_zero : ℕ → Bool
is_zero n = n == 0

abbrev registered : String → List (Registration ℕ) → List (Registration ℕ)
registered name regs = register (host answer) is_zero 2 0 codes linux layout name regs

prepare-IsPrepared_example :
    IsPrepared
      (host answer)
      (host-Laws answer)
      is_zero
      2
      0
      codes
      linux
      layout
      (registered "clickhouse" (registered "redpanda" []))
      (prepare (host answer) is_zero 2 0 codes linux layout installed).1
unfolding prepare host ClickHouse.generate_config Redpanda.generate_config
prepare-IsPrepared_example =
    prepare-IsPrepared (host answer) (host-Laws answer) is_zero 2 0 codes linux layout installed
      refl

-- A service that starts and is healthy at once; the world counts the starts.
abbrev healthy_at_once : Processes ℕ
healthy_at_once = record {
  start = λ name n. (none, n + 1);
  stop = λ name n. (none, n);
  polls = λ name n. (0, record { healthy = true; at = 1; canceled = none } ∷ [], n);
}

abbrev reg : String → Registration ℕ
reg name = record {
  name = name;
  ready_timeout = 30;
  backoff = record { initial = 1; max = 2; multiplier = 2 };
  stopping = false;
  watched = false;
}

abbrev two_services : List (Registration ℕ)
two_services = reg "redpanda" ∷ reg "clickhouse" ∷ []

abbrev broker : Broker
broker = record {
  base_url = "http://127.0.0.1:8123";
  cache = record { ttl = pos 1000; entries = λ k. none };
  quotas = record {
    quota = record { requests_per_minute = pos 10; max_rows_to_read = 100 };
    windows = λ u. [];
  };
  audit = record { lines = []; writable = true };
}

abbrev one_row : Http
one_row = record {
  bad_url = λ u. none;
  send = λ r. Sent.answered (record { status = 200; body = codes "1\n"; read_error = none });
}

abbrev times : Times
times = record { quota_at = 4; cache_at = 4; audit_at = 4; started = 4; finished = 5; stored = 5 }

abbrev subscription : ControlMessage
subscription = record {
  action = "subscribe";
  widget_id = "w1";
  sql = "SELECT 1";
  interval_ms = pos 1000;
  mode = "";
  since_column = "";
}

abbrev claims : Claims
claims = record { subject = "ann"; username = "ann"; role = admin; issued_at = 0; expires_at = 10 }

abbrev obey : Bytes → Result ControlMessage
obey message = ok subscription

abbrev no_clients : Hub
no_clients = record { clients = []; client = λ i. new_client "" 0 }

abbrev ticks : List (Times × String)
ticks = (times, "2026-01-01T00:00:00Z") ∷ (times, "2026-01-01T00:00:01Z") ∷ []

abbrev plain : String → Payload → Result Bytes
plain event payload = ok (codes event)

polls-IsAudited_example :
    IsAudited one_row
      (λ column row. none)
      none
      plain
      0
      subscription
      "ann"
      ticks
      broker.audit
      (polls one_row
        (λ column row. none)
        none
        plain
        0
        subscription
        ticks
        (record {
          last_seen = "";
          broker = broker;
          hub =
              subscribed one_row
                (λ column row. none)
                none
                plain
                0
                subscription
                obey
                claims
                1
                2
                (codes "{}")
                no_clients;
        })).broker.audit
polls-IsAudited_example =
    polls-IsAudited one_row (λ column row. none) none plain 0 subscription obey claims 1 2
      (codes "{}") no_clients "" broker ticks refl
