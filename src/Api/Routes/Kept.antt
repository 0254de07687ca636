-- ===== src/Api/Routes/Kept.antt =====
-- What the requests to the router of engine/api/routes.go keep: a property of the shared state that
-- every handler keeps, and the registry of datasets with it.
pub mod Consistent
use hermi_nas.Api.RateLimit.{SlidingWindow, allow, by_remote_ip}
use hermi_nas.Api.Routes.{
  DatasetPath, Endpoint, dataset_rbac, datasets, datasets_handler, health, ingest_into, is_pos,
  login, query, query_handler, unknown, Database, Request, World, Payload,
}
use hermi_nas.Api.Routes.Router.{Clock, Deps, guarded, ingest_answer, route, serve}
use hermi_nas.Auth.Database.{Backend}
use hermi_nas.Auth.Middleware.{
  Handler, Identity, allows_dataset, require_dataset_scope, require_role,
}
use hermi_nas.Auth.Middleware.Guards.{guarded_sound}
use hermi_nas.Kernel.Errors.{Bytes, Result, err, ok}
use hermi_nas.Kernel.Permissions.{at_least, engineer, viewer}
use hermi_nas.Prelude.{
  Bool-cases, List, String, [], if◌then◌else◌, inl, inr, none, not, some, str_eq, subst, sym, ℕ,
  ◌∷◌,
}
use hermi_nas.QueryBroker.Broker.{Times, execute}

-- The requests that a server has taken, each with what the clock read.
module _ {F C Secret : Type 0} (D : Database) (B : Backend) (deps : Deps F C Secret D B) where
  unfoldable pub serve_all : List (Clock F × Request) → World D B C → World D B C
  serve_all [] w = w
  serve_all ((at, r) ∷ requests) w = serve_all requests (serve D B deps at r w).1

  module _ (I : World D B C → Type 0)
      (query_kept : (at : Times) (user_id sql : String) (w : World D B C)
        → I w
        → I (record w { broker = (execute deps.http at user_id sql w.broker).1 }))
      (datasets_kept : (now : ℕ) (method : String) (path : DatasetPath) (w : World D B C)
        → I w
        → I (datasets_handler D B deps.ddl now method path w).1)
      (ingest_kept : (at : Clock F) (name : String) (body : Bytes) (w : World D B C)
        → I w
        → I (ingest_answer D B deps at name body w).1) where
    module _ (at : Clock F) where
      guarded-kept :
          (next : Handler Request (World D B C) Payload) (r : Request) (w : World D B C)
          → I w
          → ((id : Identity) → I (next (some id) r w).1)
          → I (guarded D B deps at next none r w).1
      guarded-kept next r w h step =
          elim (guarded_sound deps.jwt_library deps.jwt_manager B at.session_at at.token_at
            (λ (r : Request). r.authorization) (λ (w : World D B C). w.accounts) next none r w
            (λ id. I (next (some id) r w).1) (λ id. inr (step id))) [
              | inl (status, message, q) ↦ subst (λ o. I o.1) (sym q) h
              | inr passed ↦ subst (λ o. I o.1) (sym passed.allowed.1) passed.allowed.0
            ]

      query-kept :
          (body : Result String) (r : Request) (w : World D B C) (id : Identity)
          → I w
          → I
              (require_role viewer
                (λ ctx r w. query_handler D B deps.http at.query_at body ctx w)
                (some id)
                r
                w).1
      unfolding require_role query_handler
      query-kept (err e) r w id h = elim (Bool-cases (at_least id.role viewer)) [
        | inl grant ↦ rw grant h
        | inr deny ↦ rw deny h
      ]
      query-kept (ok sql) r w id h = elim (Bool-cases (at_least id.role viewer)) [
        | inl grant ↦ rw grant (query_kept at.query_at id.subject sql w h)
        | inr deny ↦ rw deny h
      ]

      dataset-kept :
          (path : DatasetPath) (r : Request) (w : World D B C) (id : Identity)
          → I w
          → I
              (dataset_rbac
                (λ (r : Request). r.method)
                (λ ctx r w. datasets_handler D B deps.ddl at.now r.method path w)
                (some id)
                r
                w).1
      unfolding dataset_rbac
      dataset-kept path r w id h =
          elim (Bool-cases
            (at_least id.role (if str_eq r.method "GET" then viewer else engineer))) [
              | inl grant ↦ rw grant (datasets_kept at.now r.method path w h)
              | inr deny ↦ rw deny h
            ]

      ingest-kept :
          (name : String) (body : Bytes) (r : Request) (w : World D B C) (id : Identity)
          → I w
          → I
              (require_dataset_scope
                (λ (r : Request). name)
                (λ ctx r w. ingest_answer D B deps at name body w)
                (some id)
                r
                w).1
      unfolding require_dataset_scope
      ingest-kept name body r w id h = elim (Bool-cases (allows_dataset id name)) [
        | inl grant ↦ rw grant (ingest_kept at name body w h)
        | inr deny ↦ rw deny h
      ]

      pub route-kept :
          (e : Endpoint) (r : Request) (w : World D B C) → I w → I (route D B deps at e r w).1
      unfolding route
      route-kept health r w h = h
      route-kept unknown r w h = h
      route-kept (login body) r w h = elim (Bool-cases (str_eq r.method "POST")) [
        | inl q ↦ rw q h
        | inr q ↦ rw q h
      ]
      route-kept (query body) r w h = elim (Bool-cases (str_eq r.method "POST")) [
        | inl q ↦ rw q (guarded-kept _ r w h (λ id. query-kept body r w id h))
        | inr q ↦ rw q h
      ]
      route-kept (datasets path) r w h = guarded-kept _ r w h (λ id. dataset-kept path r w id h)
      route-kept (ingest_into name body) r w h = elim (Bool-cases (str_eq r.method "POST")) [
        | inl q ↦ rw q (guarded-kept _ r w h (λ id. ingest-kept name body r w id h))
        | inr q ↦ rw q h
      ]

    module _
        (windows_kept : (windows : SlidingWindow) (w : World D B C)
          → I w
          → I (record w { windows = windows })) where
      serve-kept :
          (at : Clock F) (r : Request) (w : World D B C) → I w → I (serve D B deps at r w).1
      unfolding serve
      serve-kept at r w h =
          let (allowed, windows) =
            allow at.window_at (by_remote_ip deps.split_host_port r.remote_addr) w.windows in
          elim (Bool-cases (not (is_pos deps.rate_limit_per_minute))) [
            | inl q ↦ rw (serve, q) (route-kept at r.endpoint r w h)
            | inr q ↦ elim (Bool-cases (not allowed)) [
              | inl k ↦ rw (serve, q, k) (windows_kept windows w h)
              | inr k ↦
                  rw (serve, q, k)
                    (route-kept at r.endpoint r (record w { windows = windows })
                      (windows_kept windows w h))
            ]
          ]

      pub serve_all-kept :
          (requests : List (Clock F × Request)) (w : World D B C) → I w → I (serve_all requests w)
      unfolding serve_all
      serve_all-kept [] w h = h
      serve_all-kept ((at, r) ∷ requests) w h =
          serve_all-kept requests (serve D B deps at r w).1 (serve-kept at r w h)
