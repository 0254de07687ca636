-- ===== src/Bootstrap/Serve/Handler.antt =====
-- The handler that `serveAPI` of bootstrap.go gives to the server: the outer mux, which hands
-- "/api/v1/ws" to the hub and every other path to the router, behind the answers to preflights that
-- `NewServer` of engine/api/server.go adds where cross-origin requests are allowed.
use hermi_nas.Api.Routes.{Payload, Request}
use hermi_nas.Api.Routes.Limited.{is_limited, address_of}
use hermi_nas.Api.Routes.Router.{Clock, serve}
use hermi_nas.Api.Server.{Answer, Config, Served, new_server, passed_on}
use hermi_nas.Api.World.{World}
use hermi_nas.Auth.Database.{Backend}
use hermi_nas.Auth.Jwt
use hermi_nas.Auth.Middleware.{Response}
use hermi_nas.Bootstrap.Serve.{App}
use hermi_nas.Prelude.{
  Bool, List, Option, String, [], false, if◌then◌else◌, not, str_eq, ℕ, ◌&&◌, ◌∷◌,
}
use hermi_nas.SchemaMgr.Database.{Database}
use hermi_nas.WsHub.Hub.{Hub, serve_ws}

-- What the outer mux finds for a path: the hub, with the method, the token of the query, and the
-- number of the connection if the upgrade works; or the router.
pub data Target : Type 0 where
  socket : String → String → Option ℕ → Target
  routed : Request → Target

abbrev pub method_of : Target → String
method_of (socket method token conn) = method
method_of (routed r) = r.method

pub data Reply : Type 0 where
  handshake : Option (ℕ × String) → Reply
  reply : Response Payload → Reply

module _ {F C Secret : Type 0} {D : Database} {B : Backend} (app : App F C Secret D B) where
  unfoldable pub outer_mux : Clock F → Target → World D B C × Hub → Reply × (World D B C × Hub)
  unfolding serve serve_ws
  outer_mux at (socket method token conn) (w, h) =
      let claims = Jwt.verify app.deps.jwt_library at.session_at token app.deps.jwt_manager in
      let (answer, h') = serve_ws claims conn at.now h in (handshake answer, (w, h'))
  outer_mux at (routed r) (w, h) =
      let (answer, w') = serve D B app.deps at r w in (reply answer, (w', h))

  abbrev pub server_config : Config
  server_config = record {
    addr = "";
    tls_cert_file = "";
    tls_key_file = "";
    dev_cors = app.dev_cors;
  }

  unfoldable pub handler : Clock F → Target → World D B C × Hub → Served (World D B C × Hub) Reply
  unfolding outer_mux new_server
  handler at = new_server method_of server_config (outer_mux at)

  -- An answer of the router to the address, with another status than 429.
  unfoldable pub counted : String → Target → Answer Reply → Bool
  unfolding is_limited
  counted address (routed r) (passed_on (reply answer)) =
      not (is_limited answer) && str_eq (address_of D B app.deps r) address
  counted address _ _ = false

  -- The times of the requests of an address that the server lets to its router, and that are then
  -- answered with another status.
  unfoldable pub answered : String → List (Clock F × Target) → World D B C × Hub → List ℕ
  unfolding counted handler
  answered address [] s = []
  answered address ((at, t) ∷ targets) s =
      let (headers, answer, s') = handler at t s in
      let rest = answered address targets s' in
      if counted address t answer then at.window_at ∷ rest else rest

  -- The requests that get to the router.
  unfoldable pub reaching : List (Clock F × Target) → List (Clock F × Request)
  reaching [] = []
  reaching ((at, socket method token conn) ∷ targets) = reaching targets
  reaching ((at, routed r) ∷ targets) =
      let rest = reaching targets in
      if app.dev_cors && str_eq r.method "OPTIONS" then rest else (at, r) ∷ rest
