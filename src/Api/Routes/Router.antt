-- ===== src/Api/Routes/Router.antt =====
-- `NewRouter` of engine/api/routes.go.
use hermi_nas.Prelude.{Option, String, if◌then◌else◌, none, not, str_eq, ℕ}
use hermi_nas.Prelude.Int.{is_pos, ℤ}
use hermi_nas.Kernel.Errors.{Error, Result, Bytes}
use hermi_nas.Kernel.Permissions.{viewer}
use hermi_nas.SchemaMgr.Infer.{Numbers, Sample}
use hermi_nas.SchemaMgr.Database.{Database}
use hermi_nas.SchemaMgr.Ddl.{Text}
use hermi_nas.QueryBroker.Broker.{Http, Times}
use hermi_nas.Auth.Database.{Backend}
use hermi_nas.Auth.Jwt.{Library, JwtManager}
use hermi_nas.Auth.Middleware.{
  Handler, Response, refused, served, authenticate, require_role, require_dataset_scope,
}
use hermi_nas.Api.RateLimit.{by_remote_ip, allow}
use hermi_nas.Api.ClickHouse.{Client}
use hermi_nas.Api.Ingest.{ingest}
use hermi_nas.Api.World.{World}
use hermi_nas.Api.Routes.{
  Endpoint, health, unknown, login, query, datasets, ingest_into, Request, Payload, session,
  status_ok, accepted, is_get, not_found, not_allowed, map_served, login_handler, dataset_rbac,
  query_handler, datasets_handler, DatasetPath, Credentials,
}

-- `Deps`, with what the handlers use of other code.
pub record Deps (F C Secret : Type 0) (D : Database) (B : Backend) : Type 0 where
  pub jwt_library : Library Secret
  pub jwt_manager : JwtManager Secret
  pub ddl : Option (Text → C → Option Error × C)
  pub inserter : Client C
  pub http : Http
  pub encode : Sample F → Result Bytes
  pub unmarshal : Bytes → Result (Option (Sample F))
  pub numbers : Numbers F
  pub split_host_port : String → Option String
  pub rate_limit_per_minute : ℤ

-- What the clock reads while a request is served.
pub record Clock (F : Type 0) : Type 0 where
  pub window_at : ℕ
  pub session_at : ℕ
  pub token_at : ℕ
  pub now : ℕ
  pub query_at : Times
  pub received_at : ℕ → F

module _ {F C Secret : Type 0} (D : Database) (B : Backend) (deps : Deps F C Secret D B)
    (at : Clock F) where
  abbrev pub guarded : Handler Request (World D B C) Payload → Handler Request (World D B C) Payload
  guarded =
      authenticate deps.jwt_library deps.jwt_manager B at.session_at at.token_at
        (λ r. r.authorization) (λ w. w.accounts)

  abbrev pub login_route : Result Credentials → World D B C → Response Payload × World D B C
  login_route body w = (
    map_served session (login_handler deps.jwt_library deps.jwt_manager B at.now body w.accounts),
    w,
  )

  abbrev pub query_route : Result String → Handler Request (World D B C) Payload
  query_route body =
      guarded (require_role viewer (λ ctx r w. query_handler D B deps.http at.query_at body ctx w))

  abbrev pub dataset_route : DatasetPath → Handler Request (World D B C) Payload
  dataset_route path = guarded (
      dataset_rbac (λ r. r.method)
        (λ ctx r w. datasets_handler D B deps.ddl at.now r.method path w))

  abbrev pub ingest_answer : String → Bytes → World D B C → Response Payload × World D B C
  ingest_answer name body w =
      let (answer, w') =
        ingest D B deps.numbers deps.ddl deps.inserter deps.encode deps.unmarshal at.received_at
          name body at.now w in
      (map_served accepted answer, w')

  abbrev pub ingest_route : String → Bytes → Handler Request (World D B C) Payload
  ingest_route name body =
      guarded (require_dataset_scope (λ r. name) (λ ctx r w. ingest_answer name body w))

  -- The mux. No context of a request has an identity yet.
  unfoldable pub route : Endpoint → Request → World D B C → Response Payload × World D B C
  route health r w = (if is_get r.method then served 200 status_ok else not_allowed, w)
  route (login body) r w = if str_eq r.method "POST" then login_route body w else (not_allowed, w)
  route (query body) r w =
      if str_eq r.method "POST" then query_route body none r w else (not_allowed, w)
  route (datasets path) r w = dataset_route path none r w
  route (ingest_into name body) r w =
      if str_eq r.method "POST" then ingest_route name body none r w else (not_allowed, w)
  route unknown r w = (not_found, w)

  -- The handler that `NewRouter` gives.
  unfoldable pub serve : Request → World D B C → Response Payload × World D B C
  unfolding route
  serve r w =
      if not (is_pos deps.rate_limit_per_minute)
      then route r.endpoint r w
      else let (allowed, windows) =
          allow at.window_at (by_remote_ip deps.split_host_port r.remote_addr) w.windows in
        let w' = record w { windows = windows } in
        if not allowed then (refused 429 "rate limit exceeded", w') else route r.endpoint r w'
