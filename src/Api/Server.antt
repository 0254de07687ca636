-- ===== src/Api/Server.antt =====
-- The server around the router: engine/api/server.go and engine/api/static.go.
-- `filepath` and `os.Stat`, which says whether a path is a directory, and how listening ends are
-- parameters.
use hermi_nas.Prelude.{
  Bool, Bool-cases, List, Option, String, [], false, if◌then◌else◌, inl, inr, none, not, refl, some,
  str_eq, true, ◌&&◌, ◌∷◌, ◌≡◌,
}
use hermi_nas.Kernel.Errors
use hermi_nas.Kernel.Errors.{Error}

pub record Config : Type 0 where
  pub addr : String
  pub tls_cert_file : String
  pub tls_key_file : String
  pub dev_cors : Bool

-- What the middleware writes before anything else.
abbrev pub cors_headers : List (String × String)
cors_headers =
    ("Access-Control-Allow-Origin", "*")
    ∷ ("Access-Control-Allow-Methods", "GET, POST, PUT, DELETE, OPTIONS")
    ∷ ("Access-Control-Allow-Headers", "Authorization, Content-Type")
    ∷ []

pub data Answer (A : Type 0) : Type 0 where
  no_content : Answer A
  passed_on : A → Answer A

-- A handler on a state, with the headers that are set in front of its answer.
abbrev pub Served : Type 0 → Type 0 → Type 0
Served S A = List (String × String) × Answer A × S

module _ {R S A : Type 0} (method : R → String) where
  unfoldable pub cors_middleware : (R → S → A × S) → R → S → Served S A
  cors_middleware next r s =
      if str_eq (method r) "OPTIONS"
      then (cors_headers, no_content, s)
      else let (a, s') = next r s in (cors_headers, passed_on a, s')

  -- The handler of `NewServer`.
  unfoldable pub new_server : Config → (R → S → A × S) → R → S → Served S A
  unfolding cors_middleware
  new_server cfg handler r s =
      if cfg.dev_cors
      then cors_middleware handler r s
      else let (a, s') = handler r s in ([], passed_on a, s')

pub data Listened : Type 0 where
  stopped server_closed : Listened
  listen_failed : Error → Listened

listen_error : Listened → Option Error
listen_error stopped = none
listen_error server_closed = none
listen_error (listen_failed e) =
    some (Errors.wrap Errors.internal (record { format = "http server failed"; args = [] }) e)

-- With how listening with and without TLS ends.
unfoldable pub start : Listened → Listened → Config → Option Error
unfolding listen_error
start with_tls plain cfg =
    if not (str_eq cfg.tls_cert_file "") && not (str_eq cfg.tls_key_file "")
    then listen_error with_tls
    else listen_error plain

pub data File : Type 0 where
  index : String → File
  file_server : String → File

module _ (join : String → String → String) (clean : String → String)
    (stat : String → Option Bool) where
  -- The file that `SPAHandler` serves for a path.
  unfoldable pub spa_handler : String → String → File
  spa_handler dir path = elim (stat (join dir (clean path))) [
    | none ↦ index (join dir "index.html")
    | some is_dir ↦ if is_dir then index (join dir "index.html") else file_server path
  ]

  unfoldable pub static_dir_available : String → Bool
  static_dir_available dir =
      if str_eq dir ""
      then false
      else elim (stat (join dir "index.html")) [ none ↦ false | some is_dir ↦ true ]

module _ {R S A : Type 0} (method : R → String) where
  served_state : Served S A → S
  served_state (headers, answer, s) = s

  -- Where cross-origin requests are allowed, a preflight leaves the state as it was; every other
  -- request, and every request elsewhere, leaves the state that the handler leaves.
  new_server_state :
      (cfg : Config) (handler : R → S → A × S) (r : R) (s : S)
      → served_state (new_server method cfg handler r s)
        ≡ (if cfg.dev_cors && str_eq (method r) "OPTIONS" then s else (handler r s).1)
  unfolding new_server served_state
  new_server_state cfg handler r s = elim (Bool-cases cfg.dev_cors) [
    | inl q ↦ elim (Bool-cases (str_eq (method r) "OPTIONS")) [
      | inl p ↦ rw (q, p) refl
      | inr p ↦ rw (q, p) refl
    ]
    | inr q ↦ rw q refl
  ]
