-- ===== src/Auth/Middleware.antt =====
-- The middleware of authentication and authorization, engine/auth/middleware.go.
-- A handler takes the identity that the context carries, the request and a state `S`, of which the
-- database of users and tokens is a part. The two times are those at which the two kinds of credentials are read.
pub mod Guards
use hermi_nas.Prelude.{
  Bool, List, Option, String, [], false, if◌then◌else◌, none, not, some, str_eq, true, ℕ, ◌==◌,
  ◌||◌, ◌∷◌,
}
use hermi_nas.Auth.Database.{Backend}
use hermi_nas.Auth.Jwt.{Library, JwtManager, Claims}
use hermi_nas.Auth.Jwt
use hermi_nas.Auth.Store.{ApiToken, covers, verify_api_token}
use hermi_nas.Kernel.Errors.{Error, Result, ok, err}
use hermi_nas.Kernel.Permissions.{Role, at_least}
use Prim.Native.Char.{code}

pub record Identity : Type 0 where
  pub subject : String
  pub role : Role
  pub scopes : List String
  pub via_token : Bool

unfoldable pub allows_dataset : Identity → String → Bool
allows_dataset id dataset = not id.via_token || covers id.scopes dataset

-- A status, and under "error" a text, or a text and an error behind it; or a status and a value;
-- or none, where a handler panics, which net/http recovers from.
pub data Response (A : Type 0) : Type 0 where
  refused : ℕ → String → Response A
  failed : ℕ → String → Error → Response A
  served : ℕ → A → Response A
  aborted : Response A

abbrev pub Handler : Type 0 → Type 0 → Type 0 → Type 0
Handler R S A = Option Identity → R → S → Response A × S

-- strings.CutPrefix, with the prefix first.
unfoldable pub cut_prefix : String → String → Option String
cut_prefix String.[] s = some s
cut_prefix (String.◌∷◌ c p) String.[] = none
cut_prefix (String.◌∷◌ c p) (String.◌∷◌ d s) =
    let rest = cut_prefix p s in if code c == code d then rest else none

-- The token behind "Bearer ".
unfoldable pub bearer : String → Option String
unfolding cut_prefix
bearer header = elim (cut_prefix "Bearer " header) [
  | none ↦ none
  | some token ↦ if str_eq header "" || str_eq token "" then none else some token
]

unfoldable pub session_identity : Claims → Identity
session_identity c = record { subject = c.username; role = c.role; scopes = []; via_token = false }

unfoldable pub token_identity : ApiToken → Identity
token_identity t = record { subject = t.id; role = t.role; scopes = t.scopes; via_token = true }

-- The session's claims first, then the token.
unfoldable pub resolve : Result Claims → Result ApiToken → Option Identity
unfolding session_identity token_identity
resolve (ok c) t = some (session_identity c)
resolve (err e) (ok t) = some (token_identity t)
resolve (err e) (err f) = none

module _ {R S A : Type 0} where
  unfoldable pub require_role : Role → Handler R S A → Handler R S A
  require_role min next none r s = (refused 401 "authentication required", s)
  require_role min next (some id) r s =
      if at_least id.role min then next (some id) r s else (refused 403 "insufficient role", s)

  unfoldable pub require_dataset_scope : (R → String) → Handler R S A → Handler R S A
  unfolding allows_dataset
  require_dataset_scope name next none r s = (refused 401 "authentication required", s)
  require_dataset_scope name next (some id) r s =
      if allows_dataset id (name r)
      then next (some id) r s
      else (refused 403 "token does not have access to this dataset", s)

module _ {Secret : Type 0} (J : Library Secret) (m : JwtManager Secret) (B : Backend)
    (session_time token_time : ℕ) where
  -- The identity that a token gives: as a session, or else as an API token.
  unfoldable pub identify : String → B.Db → Option Identity
  unfolding resolve
  identify token db =
      resolve (Jwt.verify J session_time token m) (verify_api_token B token_time token db)

  unfoldable pub authenticate :
      {R S A : Type 0} → (R → String) → (S → B.Db) → Handler R S A → Handler R S A
  unfolding bearer identify
  authenticate header db_of next ctx r s = elim (bearer (header r)) [
    | none ↦ (refused 401 "missing or malformed Authorization header", s)
    | some token ↦ elim (identify token (db_of s)) [
      | none ↦ (refused 401 "invalid or expired credentials", s)
      | some id ↦ next (some id) r s
    ]
  ]
