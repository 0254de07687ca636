-- ===== src/Auth/Store.antt =====
-- Users and API tokens, engine/auth/store.go.
-- The times of `time.Now()`, the salt and the random tokens that are drawn are arguments; a failing
-- draw is an error.
pub mod Tokens
pub mod Users
pub mod Calls
pub mod Verified
pub mod Revocation
use hermi_nas.Prelude.{
  Bool, List, Option, String, [], any, false, if◌then◌else◌, ltb, none, not, some, str_eq, ℕ, ◌*◌,
  ◌+◌, ◌==◌, ◌||◌,
}
use hermi_nas.Prelude.Int.{ℤ, is_pos, pos_part}
use hermi_nas.Kernel.Errors
use hermi_nas.Kernel.Errors.{Code, Error, Result, ok, err, ◌>>=◌, ◌>>◌}
use hermi_nas.Kernel.Permissions.{Role, valid}
use hermi_nas.SchemaMgr.Database.{Selected, no_rows, failed, found}
use hermi_nas.SchemaMgr.Dataset.{check, is_nil}
use hermi_nas.SchemaMgr.Store.{error_of}
use hermi_nas.Auth.Database.{Backend, UserRow, TokenRow}

pub record ApiToken : Type 0 where
  pub id : String
  pub scopes : List String
  pub role : Role
  pub created_at : ℕ
  pub expires_at : Option ℕ
  pub revoked : Bool

abbrev pub covers : List String → String → Bool
covers scopes dataset = any (λ s. str_eq s "*" || str_eq s dataset) scopes

unfoldable pub allows_dataset : ApiToken → String → Bool
allows_dataset t dataset = covers t.scopes dataset

pub expired : ℕ → ApiToken → Bool
expired now t = elim t.expires_at [ none ↦ false | some at ↦ ltb at now ]

abbrev pub unauthorized_error : String → Error
unauthorized_error text = error_of Errors.unauthorized text []

abbrev pub invalid_login : Error
invalid_login = unauthorized_error "invalid username or password"

abbrev wrap_as {ℓ} : {A : Type ℓ} → Code → String → Result A → Result A
wrap_as code text (ok a) = ok a
wrap_as code text (err e) = err (Errors.caused code (record { format = text; args = [] }) e)

unknown_role : Error
unknown_role = error_of Errors.invalid_argument "unknown role" []

no_scope : Error
no_scope =
    error_of Errors.invalid_argument "at least one scope is required (use \"*\" for all datasets)"
      []

abbrev pub new_token : String → List String → Role → ℤ → ℕ → ApiToken
new_token id scopes role ttl now = record {
  id = id;
  scopes = scopes;
  role = role;
  created_at = now;
  expires_at = if is_pos ttl then some (now + pos_part ttl) else none;
  revoked = false;
}

abbrev pub new_user : {Hash : Type 0} → String → Hash → Role → ℕ → UserRow Hash
new_user username hash role now = record {
  username = username;
  password_hash = hash;
  role = role;
  created_at = now;
}

module _ (B : Backend) where
  open B use {
    Db, Hash, Scopes, generate, compare, digest, encode, decode, insert_user, select_user,
    insert_token, select_token, revoke,
  }

  abbrev pub User : Type 0
  User = UserRow Hash

  -- A method that fails leaves the database as it was.
  unfoldable pub create_user : ℕ → ℕ → String → String → Role → Db → Result (User × Db)
  unfolding unknown_role
  create_user salt now username password role db = do
    check (valid role) unknown_role
    hash ← wrap_as Errors.internal "hash password" (generate salt password)
    let u = new_user username hash role now
    db' ← wrap_as Errors.already_exists "create user" (insert_user u db)
    ok (u, db')

  verify_row : String → Selected User → Result User
  verify_row password (found u) =
      if compare u.password_hash password then ok u else err invalid_login
  verify_row password no_rows = err invalid_login
  verify_row password (failed e) = err invalid_login

  unfoldable pub verify_password : String → String → Db → Result User
  unfolding verify_row
  verify_password username password db = verify_row password (select_user db username)

  row_of : ApiToken → Scopes → TokenRow Scopes
  row_of t scopes = record {
    id = t.id;
    scopes = scopes;
    role = t.role;
    created_at = t.created_at;
    expires_at = t.expires_at;
    revoked = false;
  }

  -- `raw` and `id` are the two draws of `randomToken`.
  unfoldable pub create_api_token :
      Result String
      → Result String
      → ℕ
      → List String
      → Role
      → ℤ
      → Db
      → Result (String × ApiToken × Db)
  unfolding unknown_role no_scope row_of
  create_api_token drawn_raw drawn_id now scopes role ttl db = do
    check (valid role) unknown_role
    check (not (is_nil scopes)) no_scope
    raw ← wrap_as Errors.internal "generate token" drawn_raw
    id ← wrap_as Errors.internal "generate token id" drawn_id
    encoded ← wrap_as Errors.internal "encode scopes" (encode scopes)
    let t = new_token id scopes role ttl now
    db' ←
        wrap_as Errors.internal "store api token" (insert_token (digest raw) (row_of t encoded) db)
    ok (raw, t, db')

  token_of : TokenRow Scopes → List String → ApiToken
  token_of row scopes = record {
    id = row.id;
    scopes = scopes;
    role = row.role;
    created_at = row.created_at;
    expires_at = row.expires_at;
    revoked = row.revoked;
  }

  usable : ℕ → ApiToken → Result ApiToken
  unfolding expired
  usable now t =
      if t.revoked
      then err (unauthorized_error "API token has been revoked")
      else if expired now t
      then err (unauthorized_error "API token has expired")
      else ok t

  read_row : ℕ → Selected (TokenRow Scopes) → Result ApiToken
  unfolding token_of usable
  read_row now no_rows = err (unauthorized_error "invalid API token")
  read_row now (failed e) = err (unauthorized_error "invalid API token")
  read_row now (found row) = do
    scopes ← wrap_as Errors.internal "decode token scopes" (decode row.scopes)
    usable now (token_of row scopes)

  unfoldable pub verify_api_token : ℕ → String → Db → Result ApiToken
  unfolding read_row
  verify_api_token now raw db = read_row now (select_token db (digest raw))

  -- The database is the one that the UPDATE leaves, also where it finds no token.
  settle_revoke : Db → Result (ℕ × Db) → Result (Unit {0}) × Db
  settle_revoke db (err e) = (
    err (Errors.caused Errors.internal (record { format = "revoke api token"; args = [] }) e),
    db,
  )
  settle_revoke db (ok (n, db')) =
      (if n == 0 then err (error_of Errors.not_found "unknown token id" []) else ok tt, db')

  unfoldable pub revoke_api_token : String → Db → Result (Unit {0}) × Db
  unfolding settle_revoke
  revoke_api_token id db = settle_revoke db (revoke id db)
