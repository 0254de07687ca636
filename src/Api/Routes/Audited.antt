-- ===== src/Api/Routes/Audited.antt =====
-- What the requests to the router of engine/api/routes.go leave in the audit log of the queries.
use hermi_nas.Api.Ingest.Kept.{ingest-view}
use hermi_nas.QueryBroker.Broker.{Broker, QueryResult, execute}
use hermi_nas.Api.Routes.Views.{datasets-view}
use hermi_nas.Api.RateLimit.{allow, by_remote_ip}
use hermi_nas.Api.Routes.{
  Database, DatasetPath, Endpoint, Payload, dataset_rbac, datasets, datasets_handler, health,
  ingest_into, is_pos, login, query, query_handler, unknown, World, Request, false,
}
use hermi_nas.Api.Routes.Router.{Clock, Deps, guarded, ingest_answer, route, serve}
use hermi_nas.Auth.Database.{Backend}
use hermi_nas.Auth.Middleware.{
  Handler, Identity, allows_dataset, require_dataset_scope, require_role, authenticate, bearer,
  identify,
}
use hermi_nas.Auth.Middleware.Guards.{IsLetThrough, guarded_sound}
use hermi_nas.Kernel.Errors.{Bytes, Result, err, ok}
use hermi_nas.Kernel.Permissions.{at_least, engineer, viewer}
use hermi_nas.Prelude.{
  arith, ◌||◌, Bool-cases, String, if◌then◌else◌, inl, inr, none, not, refl, some, str_eq, sym,
  true, ◌≡◌, ◌⊎◌, subst,
}
use hermi_nas.QueryBroker.Broker.Laws.{IsJournaled, execute-IsJournaled}

module _ {F C Secret : Type 0} (D : Database) (B : Backend) (deps : Deps F C Secret D B)
    (at : Clock F) where
  -- A query of an identity that is at least a viewer.
  pub record IsQueried (e : Endpoint) (b b' : Broker) (id : Identity) : Type 0 where
    pub sql : String
    pub asked : e ≡ query (ok sql)
    pub may : at_least id.role viewer ≡ true
    pub result : Result QueryResult
    pub journaled : IsJournaled id.subject sql b.audit (result, b')

  pub IsAudited : Endpoint → Request → World D B C → World D B C → Type 0
  IsAudited e r w w' =
      (w'.broker ≡ w.broker)
      ⊎ IsLetThrough deps.jwt_library deps.jwt_manager B at.session_at at.token_at r.authorization
          w.accounts (IsQueried e w.broker w'.broker)

  -- Behind the authentication.
  guarded-IsAudited :
      (e : Endpoint) (next : Handler Request (World D B C) Payload) (r : Request) (w : World D B C)
      → ((id : Identity)
          → ((next (some id) r w).1.broker ≡ w.broker)
            ⊎ IsQueried e w.broker (next (some id) r w).1.broker id)
      → IsAudited e r w (guarded D B deps at next none r w).1
  unfolding IsAudited
  guarded-IsAudited e next r w step =
      elim (guarded_sound deps.jwt_library deps.jwt_manager B at.session_at at.token_at
        (λ (r : Request). r.authorization) (λ (w : World D B C). w.accounts) next none r w
        (λ id.
          ((next (some id) r w).1.broker ≡ w.broker)
          ⊎ IsQueried e w.broker (next (some id) r w).1.broker id)
        (λ id. inr (step id))) [
          | inl (status, message, q) ↦ subst (λ o. IsAudited e r w o.1) (sym q) (inl refl)
          | inr passed ↦
              let (change, q) = passed.allowed in
              subst (λ o. IsAudited e r w o.1) (sym q)
                (elim change [
                  | inl same ↦ inl same
                  | inr queried ↦ inr (record {
                    token = passed.token;
                    id = passed.id;
                    named = passed.named;
                    genuine = passed.genuine;
                    allowed = queried;
                  })
                ])
        ]

  query_step :
      (body : Result String) (r : Request) (w : World D B C) (id : Identity)
      → let w' =
          (require_role viewer
            (λ ctx r w. query_handler D B deps.http at.query_at body ctx w)
            (some id)
            r
            w).1 in
        (w'.broker ≡ w.broker) ⊎ IsQueried (query body) w.broker w'.broker id
  unfolding require_role query_handler
  query_step (err e) r w id = inl (elim (Bool-cases (at_least id.role viewer)) [
    | inl grant ↦ rw grant refl
    | inr deny ↦ rw deny refl
  ])
  query_step (ok sql) r w id = elim (Bool-cases (at_least id.role viewer)) [
    | inr deny ↦ inl (rw deny refl)
    | inl grant ↦ rw grant (
        inr (record {
          sql = sql;
          asked = refl;
          may = grant;
          result = (execute deps.http at.query_at id.subject sql w.broker).0;
          journaled = execute-IsJournaled deps.http at.query_at id.subject sql w.broker;
        }))
  ]

  dataset_step :
      (path : DatasetPath) (r : Request) (w : World D B C) (id : Identity)
      → (dataset_rbac
          (λ (r : Request). r.method)
          (λ ctx r w. datasets_handler D B deps.ddl at.now r.method path w)
          (some id)
          r
          w).1.broker
        ≡ w.broker
  unfolding dataset_rbac
  dataset_step path r w id =
      elim (Bool-cases (at_least id.role (if str_eq r.method "GET" then viewer else engineer))) [
        | inl grant ↦
            rw grant
              (datasets-view D B deps.ddl at.now (λ w. w.broker) (λ w db c. refl) r.method path w)
        | inr deny ↦ rw deny refl
      ]

  ingest_step :
      (name : String) (body : Bytes) (r : Request) (w : World D B C) (id : Identity)
      → (require_dataset_scope
          (λ (r : Request). name)
          (λ ctx r w. ingest_answer D B deps at name body w)
          (some id)
          r
          w).1.broker
        ≡ w.broker
  unfolding require_dataset_scope
  ingest_step name body r w id = elim (Bool-cases (allows_dataset id name)) [
    | inl grant ↦ rw grant (
        ingest-view D B deps.numbers deps.ddl deps.inserter deps.encode (λ w. w.broker)
          (λ w db c ensured. refl) deps.unmarshal at.received_at name body at.now w)
    | inr deny ↦ rw deny refl
  ]

  route-IsAudited :
      (e : Endpoint) (r : Request) (w : World D B C) → IsAudited e r w (route D B deps at e r w).1
  unfolding route IsAudited
  route-IsAudited health r w = inl refl
  route-IsAudited unknown r w = inl refl
  route-IsAudited (login body) r w = elim (Bool-cases (str_eq r.method "POST")) [
    | inl q ↦ rw q (inl refl)
    | inr q ↦ rw q (inl refl)
  ]
  route-IsAudited (query body) r w = elim (Bool-cases (str_eq r.method "POST")) [
    | inl q ↦ rw q (guarded-IsAudited (query body) _ r w (query_step body r w))
    | inr q ↦ rw q (inl refl)
  ]
  route-IsAudited (datasets path) r w =
      guarded-IsAudited (datasets path) _ r w (λ id. inl (dataset_step path r w id))
  route-IsAudited (ingest_into name body) r w = elim (Bool-cases (str_eq r.method "POST")) [
    | inl q ↦
        rw q (
          guarded-IsAudited (ingest_into name body) _ r w
            (λ id. inl (ingest_step name body r w id)))
    | inr q ↦ rw q (inl refl)
  ]

  -- What lets a query through: the limit, the token behind "Bearer ", and the role.
  pub record IsDue (r : Request) (w : World D B C) (sql : String) (id : Identity) : Type 0 where
    pub asked : r.endpoint ≡ query (ok sql)
    pub posted : str_eq r.method "POST" ≡ true
    pub in_limit :
        (not (is_pos deps.rate_limit_per_minute)
          || (allow at.window_at (by_remote_ip deps.split_host_port r.remote_addr) w.windows).0)
        ≡ true
    pub token : String
    pub named : bearer r.authorization ≡ some token
    pub known :
        identify deps.jwt_library deps.jwt_manager B at.session_at at.token_at token w.accounts
        ≡ some id
    pub may : at_least id.role viewer ≡ true

  pub IsEntered : String → Identity → World D B C → World D B C → Type 0
  IsEntered sql id w w' =
      (result : Result QueryResult) × IsJournaled id.subject sql w.broker.audit (result, w'.broker)

  route-IsEntered :
      (r : Request) (w : World D B C) (sql token : String) (id : Identity)
      → str_eq r.method "POST" ≡ true
      → bearer r.authorization ≡ some token
      → identify deps.jwt_library deps.jwt_manager B at.session_at at.token_at token w.accounts
        ≡ some id
      → at_least id.role viewer ≡ true
      → IsEntered sql id w (route D B deps at (query (ok sql)) r w).1
  unfolding IsEntered route authenticate require_role query_handler
  route-IsEntered r w sql token id posted named known may =
      rw (route, posted, authenticate, named, known, require_role, may, query_handler)
        (
          (execute deps.http at.query_at id.subject sql w.broker).0,
          execute-IsJournaled deps.http at.query_at id.subject sql w.broker,
        )

  due-IsEntered :
      (r : Request) (w : World D B C) (sql : String) (id : Identity)
      → IsDue r w sql id
      → IsEntered sql id w (serve D B deps at r w).1
  unfolding serve IsEntered
  due-IsEntered r w sql id d =
      let (allowed, windows) =
        allow at.window_at (by_remote_ip deps.split_host_port r.remote_addr) w.windows in
      let entered : (w1 : World D B C)
          → w1.accounts ≡ w.accounts
          → IsEntered sql id w1 (route D B deps at r.endpoint r w1).1 =
        λ w1 same.
          subst (λ e. IsEntered sql id w1 (route D B deps at e r w1).1) (sym d.asked)
            (route-IsEntered r w1 sql d.token id d.posted d.named (rw same d.known) d.may) in
      elim (Bool-cases (not (is_pos deps.rate_limit_per_minute))) [
        | inl q ↦ rw (serve, q) (entered w refl)
        | inr q ↦
            let let_in : not allowed ≡ false = ground (arith, q, d.in_limit) in
            rw (serve, q, let_in) (entered (record w { windows = windows }) refl)
      ]

  -- The log is added to by queries that were let through, and by each of them.
  pub record IsAuditedServe (r : Request) (w w' : World D B C) : Type 0 where
    pub only : IsAudited r.endpoint r w w'
    pub each : (sql : String) (id : Identity) → IsDue r w sql id → IsEntered sql id w w'

  serve_only : (r : Request) (w : World D B C) → IsAudited r.endpoint r w (serve D B deps at r w).1
  unfolding serve IsAudited
  serve_only r w =
      let (allowed, windows) =
        allow at.window_at (by_remote_ip deps.split_host_port r.remote_addr) w.windows in
      elim (Bool-cases (not (is_pos deps.rate_limit_per_minute))) [
        | inl q ↦ rw (serve, q) (route-IsAudited r.endpoint r w)
        | inr q ↦ elim (Bool-cases (not allowed)) [
          | inl k ↦ rw (serve, q, k) (inl refl)
          | inr k ↦ rw (serve, q, k) (route-IsAudited r.endpoint r (record w { windows = windows }))
        ]
      ]

  -- Each query that is posted within the limit, with a token behind "Bearer " that identifies
  -- someone who is at least a viewer, adds exactly one entry to an audit log that can be written, with
  -- the subject of that identity and the text of the query. A request that changes the broker of the
  -- queries, or the audit log in it, was a query with a token behind "Bearer " whose session the
  -- manager accepts, or whose row in the database is not revoked; the identity is then at least a
  -- viewer, and the log has that one entry more.
  pub serve-IsAudited :
      (r : Request) (w : World D B C) → IsAuditedServe r w (serve D B deps at r w).1
  serve-IsAudited r w = record { only = serve_only r w; each = due-IsEntered r w }
