-- ===== src/Bootstrap.antt =====
-- What bootstrap.go decides itself: the mode, the secret of the sessions, the first administrator,
-- the queries of the hub and its heartbeat. The environment, the draws and the HTTP client are
-- arguments.
pub mod Admin
pub mod Run
pub mod Serve
pub mod Widget
mod Tests
use hermi_nas.Prelude.{
  List, Option, String, [], if◌then◌else◌, none, not, some, str_eq, ℕ, ◌==◌, ◌||◌, ◌∷◌,
}
use hermi_nas.Kernel.Settings.{RawSettings, Settings, load}
use hermi_nas.Kernel.Errors
use hermi_nas.Kernel.Errors.{Error, Result, Bytes, ok, err}
use hermi_nas.Kernel.Permissions.{admin}
use hermi_nas.QueryBroker.Broker.{Broker, Http, Times, QueryResult, execute}
use hermi_nas.Auth.Database.{Backend}
use hermi_nas.Auth.Store.{User, create_user, verify_password}
use hermi_nas.WsHub.Hub.{Payload, Hub, broadcast_system_health}

pub data Mode : Type 0 where
  run_control_plane status_control_plane serve_api check_kernel : Mode

-- `arg(1)`, the text that is empty where there is no such argument.
unfoldable pub arg : List String → String
arg [] = ""
arg (program ∷ []) = ""
arg (program ∷ first ∷ rest) = first

unfoldable pub mode_of : List String → Mode
unfolding arg
mode_of args =
    if str_eq (arg args) "run"
    then run_control_plane
    else if str_eq (arg args) "status"
    then status_control_plane
    else if str_eq (arg args) "serve-api"
    then serve_api
    else check_kernel

-- The secret of the environment, or the one that is drawn; `none` is the exit with an error.
unfoldable pub jwt_secret_from_env :
    {Secret : Type 0} → (String → Secret) → String → Option Secret → Option Secret
jwt_secret_from_env bytes secret drawn =
    if not (str_eq secret "") then some (bytes secret) else drawn

-- `loadSettingsOrExit`, with the variable of the environment and what reading the file at a path and
-- decoding it give; an error is the one that `exitf` prints.
unfoldable pub load_settings_or_exit :
    String → (String → Result (Unit {0})) → Result RawSettings → String → Result Settings
unfolding load
load_settings_or_exit path_env read decoded env_key =
    let path = if str_eq path_env "" then "config/herminas.example.yaml" else path_env in
    load path (read path) decoded env_key

rows_of : Result QueryResult → Result (List Bytes)
rows_of (err e) = err e
rows_of (ok result) = ok result.rows

-- `brokerQueryRunner.Execute`
unfoldable pub run_query : Http → Times → String → String → Broker → Result (List Bytes) × Broker
unfolding rows_of
run_query http at user_id sql b =
    let (result, b') = execute http at user_id sql b in (rows_of result, b')

module _ (print : Error → String) (print_status : ℕ → String) where
  -- What a ping of ClickHouse, which gives a status or fails, says of its health.
  unfoldable pub health_of : Result ℕ → String × String
  health_of (err e) = ("unhealthy", print e)
  health_of (ok status) =
      if status == 200 then ("healthy", "") else ("unhealthy", print_status status)

  module _ (validate : Option (String → Payload → Option Error))
      (marshal : String → Payload → Result Bytes) where
    -- One `poll` of `startSystemHealthPoller`.
    unfoldable pub poll_health : Result ℕ → String → Hub → Hub
    unfolding health_of
    poll_health ping checked_at h =
        let (state, message) = health_of ping in
        (broadcast_system_health validate marshal "clickhouse" state message checked_at h).1

module _ (B : Backend) where
  settle_admin : Result (User B × B.Db) → B.Db → Option Error × B.Db
  settle_admin (ok (u, db')) db = (none, db')
  settle_admin (err e) db = if not (Errors.is_already_exists e) then (some e, db) else (none, db)

  admin_checked : Result (User B) → Result (User B × B.Db) → B.Db → Option Error × B.Db
  unfolding settle_admin
  admin_checked (ok u) made db = (none, db)
  admin_checked (err e) made db = settle_admin made db

  -- With the salt and the time of `CreateUser`, if it comes to that.
  unfoldable pub bootstrap_admin_user : ℕ → ℕ → String → String → B.Db → Option Error × B.Db
  unfolding admin_checked
  bootstrap_admin_user salt now username password db =
      if str_eq username "" || str_eq password ""
      then (none, db)
      else admin_checked (verify_password B username password db)
          (create_user B salt now username password admin db) db
