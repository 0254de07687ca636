-- ===== src/Bootstrap/Serve/Started.antt =====
-- The server that `serveAPI` of bootstrap.go has put together, and the requests that it then serves.
use hermi_nas.Bootstrap.Serve.{
  open_store, with_registry, with_accounts, with_broker, serve_api, App, Environment, Parts,
  and_then, Database, finished, opened_log, opened, assembled,
}
use hermi_nas.Services.ClickHouse.{annotate}
use hermi_nas.Api.Routes.Router.{Clock, serve}
use hermi_nas.Bootstrap.{bootstrap_admin_user, jwt_secret_from_env, Broker}
use hermi_nas.Prelude.{
  List, keep_if, length, sym, ◌∙◌, ◌≤◌, ap, Option, Option-cases, String, arith, inl, inr, none,
  refl, some, subst, true, ℕ, ◌≡◌, Bool-cases, str_eq, [], ◌∷◌,
}
use hermi_nas.Prelude.Int.{is_pos, pos_part, pos}
use hermi_nas.Api.RateLimit.{new_sliding_window}
use hermi_nas.Auth.Database.{Backend}
use hermi_nas.QueryBroker.Audit.{AuditLog, open_audit_log}
use hermi_nas.Kernel.Errors.{Error, Result, ok, err}
use hermi_nas.QueryBroker.Quota
use hermi_nas.QueryBroker.Broker.{new}
use hermi_nas.Api.Routes.Limited
use hermi_nas.Api.Routes.Limited.{arrivals, answered-le-limit}
use hermi_nas.Api.Server.{cors_middleware, new_server}
use hermi_nas.Api.World.{World}
use hermi_nas.Auth.Jwt
use hermi_nas.Bootstrap.Serve.Handler.{
  Target, answered, counted, handler, outer_mux, reaching, routed, socket,
}
use hermi_nas.WsHub.Hub.{Hub, serve_ws}
use hermi_nas.Window.Bound.{in_minute, InOrder}
use hermi_nas.WsHub.Hub.Steps

module _ {F C Secret S : Type 0} {D : Database} {B : Backend} (parts : Parts F C Secret S D B)
    (env : Environment) (data_dir : String) where
  -- The limit of 600 requests a minute, a fresh window for it, a hub without clients, and a quota
  -- that lets every query through.
  record IsStarted (app : App F C Secret D B) : Type 0 where
    limit : app.deps.rate_limit_per_minute ≡ pos 600
    windows : app.world.windows ≡ new_sliding_window (pos 600)
    hub : app.hub ≡ Steps.new
    unlimited :
        (now : ℕ) (user_id : String)
        → Quota.allow now user_id app.world.broker.quotas ≡ (true, app.world.broker.quotas)

  ok_app : {X : Type 0} {a b : X} → ok a ≡ ok b → a ≡ b
  ok_app h = cc

  and_then-ok :
      {A X : Type 0} (P : X → Type 0) (annotated : Error → Error) (o : Result A × S)
      (after : A → S → Result X × S) {x : X}
      → (and_then annotated o after).0 ≡ ok x
      → ((a : A) (s : S) → o ≡ (ok a, s) → (after a s).0 ≡ ok x → P x)
      → P x
  unfolding and_then
  and_then-ok P annotated (err e, s) after h step = cc
  and_then-ok P annotated (ok a, s) after h step = step a s refl h

  finished-IsStarted :
      (admin : Option Error × B.Db) (registry : D.Db) (broker : Broker) (s : S)
      {app : App F C Secret D B}
      → ((now : ℕ) (user_id : String)
          → Quota.allow now user_id broker.quotas ≡ (true, broker.quotas))
      → (finished parts env data_dir admin registry broker s).0 ≡ ok app
      → IsStarted app
  unfolding finished assembled
  finished-IsStarted (some e, accounts) registry broker s free h = cc
  finished-IsStarted (none, accounts) registry broker s {app} free h =
      elim (Option-cases (jwt_secret_from_env parts.secret_of env.jwt_secret parts.drawn)) [
        | inl q ↦ absurd (ground (arith, q, h))
        | inr (secret, q) ↦ elim (Option-cases parts.load_schemas) [
          | inr (e, k) ↦ absurd (ground (arith, q, k, h))
          | inl k ↦
              let same : ok (assembled parts env data_dir accounts registry broker secret)
                  ≡ ok app =
                rw (finished, q, k) at h in
              subst IsStarted (ok_app same)
                (record { limit = refl; windows = refl; hub = refl; unlimited = free })
        ]
      ]

  opened_log-free :
      (o : Result AuditLog × S) {broker : Broker}
      → (opened_log parts env data_dir o).0 ≡ ok broker
      → (now : ℕ) (user_id : String) → Quota.allow now user_id broker.quotas ≡ (true, broker.quotas)
  unfolding opened_log new open_audit_log Quota.new_quota_tracker Quota.allow
  opened_log-free (err e, s) h = cc
  opened_log-free (ok log, s) h =
      subst
        (λ (b : Broker).
          (now : ℕ) (user_id : String) → Quota.allow now user_id b.quotas ≡ (true, b.quotas))
        (ok_app h) (λ now user_id. refl)

  with_registry-IsStarted :
      (accounts : B.Db) (registry : D.Db) (s : S) {app : App F C Secret D B}
      → (with_registry parts env data_dir accounts registry s).0 ≡ ok app
      → IsStarted app
  unfolding with_registry with_broker
  with_registry-IsStarted accounts registry s h =
      let log = parts.open_log (parts.host.join data_dir "audit.jsonl") s in
      and_then-ok IsStarted (annotate "open query broker: %v") (opened_log parts env data_dir log)
        (with_broker parts env data_dir accounts registry) h
        (λ broker s1 q h1.
          finished-IsStarted
            (bootstrap_admin_user B parts.salt parts.now env.admin_user env.admin_password accounts)
            registry broker s1 (opened_log-free log (ap (λ x. x.0) q)) h1)

  opened-IsStarted :
      (o : Option Error × S) {app : App F C Secret D B}
      → (opened parts env data_dir o).0 ≡ ok app
      → IsStarted app
  unfolding opened with_accounts
  opened-IsStarted (some e, s) h = cc
  opened-IsStarted (none, s) h =
      and_then-ok IsStarted (annotate "open auth store: %v")
        (open_store "open auth store" "create auth tables" parts.accounts
          (parts.host.join data_dir "auth.db") s)
        (with_accounts parts env data_dir) h
        (λ accounts s1 q1 h1.
          and_then-ok IsStarted (annotate "open schemamgr store: %v")
            (open_store "open sqlite" "create schemamgr tables" parts.registry
              (parts.host.join data_dir "schemamgr.db") s1)
            (with_registry parts env data_dir accounts) h1
            (λ registry s2 q2 h2. with_registry-IsStarted accounts registry s2 h2))

  -- The server counts the answers that its router gives to the requests that get there.
  answered-reaching :
      (app : App F C Secret D B) (address : String) (targets : List (Clock F × Target))
      (w : World D B C) (h : Hub)
      → answered app address targets (w, h)
        ≡ Limited.answered D B app.deps address (reaching app targets) w
  unfolding answered reaching handler new_server cors_middleware outer_mux counted Limited.answered
  answered-reaching app address [] w h = refl
  answered-reaching app address ((at, socket method token conn) ∷ targets) w h =
      let claims = Jwt.verify app.deps.jwt_library at.session_at token app.deps.jwt_manager in
      elim (Bool-cases app.dev_cors) [
        | inl q ↦ elim (Bool-cases (str_eq method "OPTIONS")) [
          | inl p ↦ rw (q, p) (answered-reaching app address targets w h)
          | inr p ↦
              rw (q, p) (answered-reaching app address targets w (serve_ws claims conn at.now h).1)
        ]
        | inr q ↦ rw q (answered-reaching app address targets w (serve_ws claims conn at.now h).1)
      ]
  answered-reaching app address ((at, routed r) ∷ targets) w h =
      let w' = (serve D B app.deps at r w).1 in
      elim (Bool-cases app.dev_cors) [
        | inl q ↦ elim (Bool-cases (str_eq r.method "OPTIONS")) [
          | inl p ↦ rw (q, p) (answered-reaching app address targets w h)
          | inr p ↦ rw (q, p, answered-reaching app address targets w' h) refl
        ]
        | inr q ↦ rw (q, answered-reaching app address targets w' h) refl
      ]

  -- The server that `serveAPI` has put together and starts: whatever preflights, connections to the
  -- hub and other requests reach it and however they mix, its router answers in no minute more than
  -- 600 requests of one address with another status than 429, where those that get to the router come
  -- in the order of the clock. Not counted are the connections to the hub, and, where cross-origin
  -- requests are allowed, the preflights, which the server answers in front of its router.
  pub serve_api-IsStarted :
      (s : S) {app : App F C Secret D B}
      → (serve_api parts env data_dir s).0 ≡ ok app
      → (targets : List (Clock F × Target)) (address : String) (start : ℕ)
      → InOrder 0 (arrivals D B app.deps (reaching app targets))
      → length (keep_if (in_minute start) (answered app address targets (app.world, app.hub))) ≤ 600
  unfolding serve_api
  serve_api-IsStarted s {app} h targets address start order =
      let started = opened-IsStarted (parts.host.mkdir_all data_dir s) h in
      let requests = reaching app targets in
      let bound : length
            (keep_if (in_minute start) (Limited.answered D B app.deps address requests app.world))
          ≤ 600 =
        subst
          (λ n.
            length
              (keep_if (in_minute start) (Limited.answered D B app.deps address requests app.world))
            ≤ pos_part n)
          started.limit
          (answered-le-limit D B app.deps requests app.world address (ap is_pos started.limit)
            (started.windows ∙ ap new_sliding_window (sym started.limit)) order start) in
      subst (λ ts. length (keep_if (in_minute start) ts) ≤ 600)
        (sym (answered-reaching app address targets app.world app.hub)) bound
