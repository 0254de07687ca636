-- ===== src/Api/Routes/Tests.antt =====
-- The theorems on the routes at concrete requests (engine/api/routes.go).
use hermi_nas.SchemaMgr.Tests.Floats.{whole_numbers}
use hermi_nas.Api.Routes.Audited.{IsAuditedServe, serve-IsAudited}
use hermi_nas.Api.Routes.Kept.{serve_all}
use hermi_nas.Api.Routes.Kept.Consistent.{serve_all-IsConsistent}
use hermi_nas.Api.Routes.Limited.{answered, answered-le-limit}
use hermi_nas.Prelude.{
  List, arith, keep_if, length, ◌≤◌, Option, String, [], codes, false, none, put, refl, some, suc,
  true, ℕ, ◌∷◌,
}
use hermi_nas.Services.ClickHouse.{line}
use hermi_nas.Api.RateLimit.{new_sliding_window}
use hermi_nas.Window.Bound.{in_minute}
use hermi_nas.Api.Routes.{query, Credentials, login_handler, Request, datasets, collection, Text}
use hermi_nas.SchemaMgr.Store.Registry.{IsConsistent}
use hermi_nas.Prelude.Int.{pos}
use hermi_nas.Kernel.Errors.{is_not_found, Error, Result, Bytes, ok}
use hermi_nas.Kernel.Permissions.{admin}
use hermi_nas.SchemaMgr.Infer.{infer_columns, Json, Sample}
use hermi_nas.SchemaMgr.Tests.Memory as Sqlite
use hermi_nas.QueryBroker.Broker.{Broker, Sent}
use hermi_nas.Auth.Tests.Memory as Accounts
use hermi_nas.Auth.Jwt.{issue, JwtManager}
use hermi_nas.Auth.Store.{verify_password, new_user}
use hermi_nas.Api.ClickHouse.{insert, Client}
use hermi_nas.Api.Ingest.{ingest}
use hermi_nas.Api.Ingest.Accepted.{IsIngested, ingest-IsIngested}
use hermi_nas.Lines.{scan, trim_space}
use hermi_nas.SchemaMgr.Dataset.{validate}
use hermi_nas.SchemaMgr.Store.{ensure_dataset, get, create}
use hermi_nas.Api.World.{World}
use hermi_nas.Api.Routes.Login.{IsLoggedIn, login-IsLoggedIn}
use hermi_nas.Api.Routes.Router.{Deps, Clock, serve}
use hermi_nas.SchemaMgr.Database.{no_rows, found}

abbrev registry : Sqlite.Tables
registry = record { names = []; datasets = λ name. none; rows = λ name. [] }

abbrev accounts : Accounts.Tables
accounts = record {
  users = put "ann" (found (new_user "ann" "secret" admin 3)) (λ name. no_rows);
  tokens = [];
}

abbrev manager : JwtManager String
manager = record { secret = "s"; ttl = 3000000000 }

abbrev ann : Credentials
ann = record { username = "ann"; password = "secret" }

login-IsLoggedIn_example :
    IsLoggedIn Accounts.library Accounts.library-Laws manager Accounts.memory 0 ann accounts
      (record { token = "ann"; role = admin })
unfolding login_handler verify_password issue
login-IsLoggedIn_example =
    login-IsLoggedIn Accounts.library Accounts.library-Laws manager Accounts.memory 0 ann accounts
      refl

abbrev client : Client ℕ
client = record { bad_url = none; post = λ q body c. (ok (200, []), suc c) }

abbrev exec : Text → ℕ → Option Error × ℕ
exec text c = (none, suc c)

abbrev one_value : Bytes → Result (Option (Sample ℕ))
one_value line = ok (some (("v", Json.number 1) ∷ []))

abbrev broker : Broker
broker = record {
  base_url = "http://localhost:8123";
  cache = record { ttl = pos 1000; entries = λ k. none };
  quotas = record {
    quota = record { requests_per_minute = pos 10; max_rows_to_read = 100 };
    windows = λ u. [];
  };
  audit = record { lines = []; writable = true };
}

abbrev world : World Sqlite.memory Accounts.memory ℕ
world = record {
  registry = registry;
  accounts = accounts;
  clickhouse = 0;
  broker = broker;
  windows = record { limit = pos 5; windows = λ key. [] };
  ensured = λ name. false;
}

abbrev no_bytes : Sample ℕ → Result Bytes
no_bytes r = ok []

ingest-IsIngested_example :
    IsIngested Sqlite.memory Sqlite.memory-Laws Accounts.memory whole_numbers
      (some exec)
      client
      no_bytes
      one_value
      (λ t. t)
      "events"
      (codes "{}")
      7
      world
      1
      (ingest Sqlite.memory Accounts.memory whole_numbers
        (some exec)
        client
        no_bytes
        one_value
        (λ t. t)
        "events"
        (codes "{}")
        7
        world).1
unfolding ingest scan trim_space ensure_dataset get is_not_found create validate infer_columns
    insert
ingest-IsIngested_example =
    ingest-IsIngested Sqlite.memory Sqlite.memory-Laws Accounts.memory whole_numbers (some exec)
      client no_bytes one_value (λ t. t) "events" (codes "{}") 7 world refl

abbrev deps : Deps ℕ ℕ String Sqlite.memory Accounts.memory
deps = record {
  jwt_library = Accounts.library;
  jwt_manager = manager;
  ddl = some exec;
  inserter = client;
  http = record {
    bad_url = λ u. none;
    send = λ r. Sent.answered (record { status = 200; body = []; read_error = none });
  };
  encode = no_bytes;
  unmarshal = one_value;
  numbers = whole_numbers;
  split_host_port = λ address. none;
  rate_limit_per_minute = pos 5;
}

abbrev clock : Clock ℕ
clock = record {
  window_at = 4;
  session_at = 4;
  token_at = 4;
  now = 4;
  query_at = record {
    quota_at = 4;
    cache_at = 4;
    audit_at = 4;
    started = 4;
    finished = 5;
    stored = 5;
  };
  received_at = λ t. t;
}

abbrev creation : Request
creation = record {
  method = "POST";
  authorization = "Bearer ann";
  remote_addr = "10.0.0.1:80";
  endpoint = datasets (
      collection (
        ok (record {
          name = "events";
          columns = record { name = "id"; type = "Int64"; nullable = false } ∷ [];
          order_by = [];
          partition_by_column = "";
          ttl_days = pos 0;
        })));
}

abbrev question : Request
question = record {
  method = "POST";
  authorization = "Bearer ann";
  remote_addr = "10.0.0.1:80";
  endpoint = query (ok "SELECT 1");
}

serve-IsAudited_example :
    IsAuditedServe Sqlite.memory Accounts.memory deps clock question world
      (serve Sqlite.memory Accounts.memory deps clock question world).1
serve-IsAudited_example = serve-IsAudited Sqlite.memory Accounts.memory deps clock question world

-- The first requests of a server, each at the next time.
abbrev at_time : ℕ → Clock ℕ
at_time t = record clock { window_at = t; now = t }

abbrev requests : List (Clock ℕ × Request)
requests = (at_time 4, creation) ∷ (at_time 5, question) ∷ (at_time 9, creation) ∷ []

empty-IsConsistent : IsConsistent Sqlite.memory registry
unfolding IsConsistent get
empty-IsConsistent name = record { readable = λ d h. cc; absent = λ e h. refl }

serve_all-IsConsistent_example :
    IsConsistent Sqlite.memory
      (serve_all Sqlite.memory Accounts.memory deps requests world).registry
serve_all-IsConsistent_example =
    serve_all-IsConsistent Sqlite.memory Sqlite.memory-Laws Accounts.memory deps requests world
      empty-IsConsistent

answered-le-limit_example :
    length (
      keep_if
        (in_minute 4)
        (answered Sqlite.memory Accounts.memory deps "10.0.0.1:80" requests world))
    ≤ 5
unfolding new_sliding_window
answered-le-limit_example =
    answered-le-limit Sqlite.memory Accounts.memory deps requests world "10.0.0.1:80" refl refl
      (omega arith, (omega arith, (omega arith, tt))) 4
