-- ===== src/Api/Routes/Access.antt =====
-- Who can change what through the router of engine/api/routes.go.
use hermi_nas.Auth.Store.{covers}
use hermi_nas.Prelude.{String, true, ℕ, ◌≡◌, ◌⊎◌}
use hermi_nas.Kernel.Permissions.{at_least, engineer}
use hermi_nas.SchemaMgr.Database.{Database}
use hermi_nas.Auth.Database.{Backend}
use hermi_nas.Auth.Middleware.{Identity, Response, refused}
use hermi_nas.Auth.Middleware.Guards.{IsLetThrough}
use hermi_nas.Api.World.{World}
use hermi_nas.Api.Routes.{Endpoint, datasets, ingest_into, Request, Payload}
use hermi_nas.Api.Routes.Router.{Deps, Clock}

-- The data: the registry of datasets and ClickHouse.
pub IsSameData : {D : Database} {B : Backend} {C : Type 0} → World D B C → World D B C → Type 0
IsSameData w w' = (w'.registry ≡ w.registry) × (w'.clickhouse ≡ w.clickhouse)

-- Who may change the data at an endpoint.
pub Authorized : Endpoint → Identity → Type 0
Authorized (datasets path) id = at_least id.role engineer ≡ true
Authorized (ingest_into name body) id = id.via_token ≡ true → covers id.scopes name ≡ true
Authorized _ id = ⊥

module _ {F C Secret : Type 0} (D : Database) (B : Backend) (deps : Deps F C Secret D B)
    (at : Clock F) where
  -- A request that is let through with an identity that may change the data.
  pub MayChange : Endpoint → Request → World D B C → Type 0
  MayChange e r w =
      IsLetThrough deps.jwt_library deps.jwt_manager B at.session_at at.token_at r.authorization
        w.accounts (Authorized e)

  IsSound : Endpoint → Request → World D B C → World D B C → Type 0
  IsSound e r w w' = (w'.accounts ≡ w.accounts) × (IsSameData w w' ⊎ MayChange e r w)

  -- What a handler does behind the authentication, for an identity.
  IsGuarded : Endpoint → Identity → World D B C → Response Payload × World D B C → Type 0
  IsGuarded e id w done =
      ((status : ℕ) × (message : String) × (done ≡ (refused status message, w)))
      ⊎ ((done.1.accounts ≡ w.accounts) × (IsSameData w done.1 ⊎ Authorized e id))
