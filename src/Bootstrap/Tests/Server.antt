-- ===== src/Bootstrap/Tests/Server.antt =====
-- The theorems on the server of bootstrap.go at stores in memory.
use hermi_nas.SchemaMgr.Tests.Floats.{whole_numbers}
use hermi_nas.Api.Routes.{Request, health}
use hermi_nas.Bootstrap.Serve.Handler.{Target, answered, reaching, routed, socket}
use hermi_nas.Prelude.{
  some, ◌∷◌, arith, List, String, [], keep_if, length, none, refl, suc, true, ℕ, ◌≤◌,
}
use hermi_nas.Api.Routes.Router.{Clock}
use hermi_nas.Bootstrap.Serve.{App, Environment, Parts, Sqlite, assembled, serve_api, or_default}
use hermi_nas.Bootstrap.Serve.Started.{serve_api-IsStarted}
use hermi_nas.Prelude.Int.{pos}
use hermi_nas.Window.Bound.{in_minute}
use hermi_nas.SchemaMgr.Tests.Memory as Registry
use hermi_nas.Auth.Tests.Memory as Accounts
use hermi_nas.Services.Tests.{answer, no_files}
use hermi_nas.Services.Tests.Memory.{Files, host}
use hermi_nas.SchemaMgr.Database.{no_rows}
use hermi_nas.Kernel.Errors.{ok}
use hermi_nas.QueryBroker.Broker.{Sent}
use hermi_nas.QueryBroker.Quota
use hermi_nas.QueryBroker.Broker
use hermi_nas.QueryBroker.Cache.{new_cache}
use hermi_nas.Bootstrap.{bootstrap_admin_user, jwt_secret_from_env}

abbrev tables : Registry.Tables
tables = record { names = []; datasets = λ name. none; rows = λ name. [] }

abbrev users : Accounts.Tables
users = record { users = λ name. no_rows; tokens = [] }

abbrev opening : {Db : Type 0} → Db → Sqlite Files Db
opening db = record { open_file = λ path s. (ok db, s); create_tables = λ db s. (none, s) }

abbrev parts : Parts ℕ ℕ String Files Registry.memory Accounts.memory
parts = record {
  host = host answer;
  accounts = opening users;
  registry = opening tables;
  open_log = λ path s. (ok (record { lines = []; writable = true }), s);
  jwt_library = Accounts.library;
  secret_of = λ text. text;
  drawn = none;
  client = λ url. record { bad_url = none; post = λ q body c. (ok (200, []), suc c) };
  http = record {
    bad_url = λ u. none;
    send = λ r. Sent.answered (record { status = 200; body = []; read_error = none });
  };
  encode = λ r. ok [];
  unmarshal = λ line. ok none;
  numbers = whole_numbers;
  split_host_port = λ address. none;
  load_schemas = none;
  salt = 1;
  now = 3;
  clickhouse = 0;
}

abbrev env : Environment
env = record {
  clickhouse_url = "";
  jwt_secret = "s";
  admin_user = "";
  admin_password = "";
  static_dir = "";
  dev_cors = "1";
}

abbrev app : App ℕ ℕ String Registry.memory Accounts.memory
app =
    assembled parts env "data" users tables
      (record {
        base_url = "http://127.0.0.1:8123";
        cache = record { ttl = pos 0; entries = λ k. none };
        quotas = record {
          quota = record { requests_per_minute = pos 0; max_rows_to_read = 0 };
          windows = λ u. [];
        };
        audit = record { lines = []; writable = true };
      })
      "s"

abbrev at_time : ℕ → Clock ℕ
at_time t = record {
  window_at = t;
  session_at = t;
  token_at = t;
  now = t;
  query_at = record {
    quota_at = t;
    cache_at = t;
    audit_at = t;
    started = t;
    finished = t;
    stored = t;
  };
  received_at = λ n. n;
}

abbrev asks : String → Request
asks method = record {
  method = method;
  authorization = "";
  remote_addr = "10.0.0.1:80";
  endpoint = health;
}

-- A preflight, a request and a connection to the hub.
abbrev targets : List (Clock ℕ × Target)
targets =
    (at_time 4, routed (asks "OPTIONS"))
    ∷ (at_time 5, routed (asks "GET"))
    ∷ (at_time 6, socket "GET" "ann" (some 0))
    ∷ []

serve_api-IsStarted_example :
    length (keep_if (in_minute 4) (answered app "10.0.0.1:80" targets (app.world, app.hub))) ≤ 600
unfolding serve_api assembled host Broker.new bootstrap_admin_user jwt_secret_from_env or_default
    new_cache Quota.new_quota_tracker reaching
serve_api-IsStarted_example =
    serve_api-IsStarted parts env "data" no_files refl targets "10.0.0.1:80" 4 (omega arith, tt)
