-- ===== src/Bootstrap/Serve.antt =====
-- The server of the API as `serveAPI` of bootstrap.go puts it together: the stores that it opens,
-- what it hands to the router, and the hub. SQLite, the file of the audit log and what the handlers
-- use of other code are parameters, over a state `S` of the files.
pub mod Handler
pub mod Started
use hermi_nas.Api.ClickHouse.{Client, exec}
use hermi_nas.Api.RateLimit.{new_sliding_window}
use hermi_nas.Api.Routes.Router.{Deps}
use hermi_nas.Auth.Database.{Backend}
use hermi_nas.Auth.Jwt.{Library}
use hermi_nas.Bootstrap.{bootstrap_admin_user, jwt_secret_from_env}
use hermi_nas.Kernel.Errors.{wrap, Error, Result, Bytes, ok, err}
use hermi_nas.Kernel.Settings.{default}
use hermi_nas.Prelude.{Bool, Option, String, [], false, if◌then◌else◌, none, some, str_eq, ℕ, ◌*◌}
use hermi_nas.Prelude.Int.{pos}
use hermi_nas.QueryBroker.Audit.{AuditLog}
use hermi_nas.SchemaMgr.Ddl.{Text}
use hermi_nas.SchemaMgr.Infer.{Numbers, Sample}
use hermi_nas.Services.{Host}
use hermi_nas.Services.ClickHouse.{annotate}
use hermi_nas.Supervisor.Lifecycle.{second}
use hermi_nas.WsHub.Hub.Departure.{fails}
use hermi_nas.Api.World.{World}
use hermi_nas.Kernel.Errors
use hermi_nas.SchemaMgr.Database.{Database}
use hermi_nas.QueryBroker.Broker
use hermi_nas.QueryBroker.Broker.{Broker, Http}
use hermi_nas.WsHub.Hub.{Hub}
use hermi_nas.WsHub.Hub.Steps

-- `sql.Open`, and the `CREATE TABLE IF NOT EXISTS` of a store.
pub record Sqlite (S Db : Type 0) : Type 0 where
  pub open_file : String → S → Result Db × S
  pub create_tables : Db → S → Option Error × S

-- A step that may fail, and the next.
unfoldable pub and_then {ℓ} :
    {S A : Type 0} {X : Type ℓ}
    → (Error → Error)
    → Result A × S
    → (A → S → Result X × S)
    → Result X × S
and_then wrap (err e, s) next = (err (wrap e), s)
and_then wrap (ok a, s) next = next a s

abbrev internal : String → Error → Error
internal text e = Errors.wrap Errors.internal (record { format = text; args = [] }) e

tables_created : {S Db : Type 0} → String → Db → Option Error × S → Result Db × S
tables_created text db (none, s) = (ok db, s)
tables_created text db (some e, s) = (err (internal text e), s)

-- `Open` of engine/auth/store.go and of engine/schemamgr/store.go, with their texts.
unfoldable pub open_store :
    {S Db : Type 0} → String → String → Sqlite S Db → String → S → Result Db × S
unfolding and_then tables_created
open_store opening creating sqlite path s =
    and_then (internal opening) (sqlite.open_file path s)
      (λ db s. tables_created creating db (sqlite.create_tables db s))

pub record Environment : Type 0 where
  pub clickhouse_url : String
  pub jwt_secret : String
  pub admin_user : String
  pub admin_password : String
  pub static_dir : String
  pub dev_cors : String

unfoldable pub or_default : String → String → String
or_default text default = if str_eq text "" then default else text

-- The parts that are modelled elsewhere as parameters, and what is drawn at random.
pub record Parts (F C Secret S : Type 0) (D : Database) (B : Backend) : Type 0 where
  pub host : Host S
  pub accounts : Sqlite S B.Db
  pub registry : Sqlite S D.Db
  pub open_log : String → S → Result AuditLog × S
  pub jwt_library : Library Secret
  pub secret_of : String → Secret
  pub drawn : Option Secret
  pub client : String → Client C  -- of the executor of DDL and of the inserter
  pub http : Http
  pub encode : Sample F → Result Bytes
  pub unmarshal : Bytes → Result (Option (Sample F))
  pub numbers : Numbers F
  pub split_host_port : String → Option String
  pub load_schemas : Option Error  -- how `LoadWebSocketSchemas` fails, if it does
  pub salt : ℕ
  pub now : ℕ
  pub clickhouse : C

pub record App (F C Secret : Type 0) (D : Database) (B : Backend) : Type 0 where
  pub deps : Deps F C Secret D B
  pub static_dir : String  -- that the router is given too, and that it is modelled without
  pub dev_cors : Bool
  pub world : World D B C
  pub hub : Hub

module _ {F C Secret S : Type 0} {D : Database} {B : Backend} (parts : Parts F C Secret S D B)
    (env : Environment) (data_dir : String) where
  abbrev url : String
  url = or_default env.clickhouse_url "http://127.0.0.1:8123"

  -- The quota and the ttl of the cache are not given, so both are zero.
  abbrev broker_config : Broker.Config
  broker_config = record {
    click_house_url = url;
    quota = record { requests_per_minute = pos 0; max_rows_to_read = 0 };
    cache_ttl = pos 0;
  }

  unfoldable pub assembled : B.Db → D.Db → Broker → Secret → App F C Secret D B
  assembled accounts registry broker secret = record {
    deps = record {
      jwt_library = parts.jwt_library;
      jwt_manager = record { secret = secret; ttl = 3600 * second };
      ddl = some (exec (parts.client url));
      inserter = parts.client url;
      http = parts.http;
      encode = parts.encode;
      unmarshal = parts.unmarshal;
      numbers = parts.numbers;
      split_host_port = parts.split_host_port;
      rate_limit_per_minute = pos 600;
    };
    static_dir = or_default env.static_dir "web/dist";
    dev_cors = str_eq env.dev_cors "1";
    world = record {
      registry = registry;
      accounts = accounts;
      clickhouse = parts.clickhouse;
      broker = broker;
      windows = new_sliding_window (pos 600);
      ensured = λ name. false;
    };
    hub = Steps.new;
  }

  -- From the first administrator on.
  finished : Option Error × B.Db → D.Db → Broker → S → Result (App F C Secret D B) × S
  unfolding assembled
  finished (some e, accounts) registry broker s = (err (annotate "bootstrap admin user: %v" e), s)
  finished (none, accounts) registry broker s =
      elim (jwt_secret_from_env parts.secret_of env.jwt_secret parts.drawn) [
        | none ↦ (
          err (Errors.foreign (record { format = "generate ephemeral JWT secret: %v"; args = [] })),
          s,
        )
        | some secret ↦ elim parts.load_schemas [
          | some e ↦ (err (annotate "load websocket schemas: %v" e), s)
          | none ↦ (ok (assembled accounts registry broker secret), s)
        ]
      ]

  opened_log : Result AuditLog × S → Result Broker × S
  opened_log (result, s) = (Broker.new broker_config result, s)

  with_broker : B.Db → D.Db → Broker → S → Result (App F C Secret D B) × S
  unfolding finished
  with_broker accounts registry broker s =
      finished
        (bootstrap_admin_user B parts.salt parts.now env.admin_user env.admin_password accounts)
        registry broker s

  with_registry : B.Db → D.Db → S → Result (App F C Secret D B) × S
  unfolding with_broker opened_log
  with_registry accounts registry s =
      and_then (annotate "open query broker: %v")
        (opened_log (parts.open_log (parts.host.join data_dir "audit.jsonl") s))
        (with_broker accounts registry)

  with_accounts : B.Db → S → Result (App F C Secret D B) × S
  unfolding with_registry open_store
  with_accounts accounts s =
      and_then (annotate "open schemamgr store: %v")
        (open_store "open sqlite" "create schemamgr tables" parts.registry
          (parts.host.join data_dir "schemamgr.db") s)
        (with_registry accounts)

  opened : Option Error × S → Result (App F C Secret D B) × S
  unfolding with_accounts open_store
  opened (some e, s) = (err (annotate "cannot create data dir: %v" e), s)
  opened (none, s) =
      and_then (annotate "open auth store: %v")
        (open_store "open auth store" "create auth tables" parts.accounts
          (parts.host.join data_dir "auth.db") s)
        with_accounts

  -- `serveAPI` up to `Start` of the server; an error is one that `exitf` prints.
  unfoldable pub serve_api : S → Result (App F C Secret D B) × S
  unfolding opened
  serve_api s = opened (parts.host.mkdir_all data_dir s)
