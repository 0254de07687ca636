-- ===== src/Auth/Jwt.antt =====
-- Session tokens, engine/auth/jwt.go.
-- The library golang-jwt is a parameter: what signing gives, what parsing under HS256 and a secret
-- gives at a time, and to what `NewNumericDate` cuts a time off.
use hermi_nas.Prelude.{
  ◌<◌, ◌≤◌, Bool, Option, String, [], ap, arith, false, if◌then◌else◌, inl, inr, ltb, none, refl,
  some, true, ℕ, ◌+◌, ◌∙◌, ◌≡◌,
}
use hermi_nas.Kernel.Errors
use hermi_nas.Kernel.Errors.{Error, Result, ok, err, ◌>>=◌, Result-cases}
use hermi_nas.Kernel.Permissions.{Role}
use hermi_nas.Auth.Store.{unauthorized_error}

pub record Claims : Type 0 where
  pub subject : String
  pub issued_at : ℕ
  pub expires_at : ℕ
  pub username : String
  pub role : Role

pub record Library (Secret : Type 0) : Type 0 where
  pub numeric_date : ℕ → ℕ
  pub sign : Secret → Claims → Result String
  -- the claims of a token that parses and is valid at the time
  pub parse : ℕ → Secret → String → Option Claims

abbrev pub second : ℕ
second = 1000000000

-- A signed token parses under its secret until it expires, and times are cut to whole seconds.
pub record Laws {Secret : Type 0} (J : Library Secret) : Type 0 where
  pub parse-sign :
      (now : ℕ) (secret : Secret) (c : Claims) (token : String)
      → J.sign secret c ≡ ok token
      → J.parse now secret token ≡ (if ltb now c.expires_at then some c else none)
  pub cut_down : (t : ℕ) → J.numeric_date t ≤ t
  pub cut_little : (t : ℕ) → t < J.numeric_date t + second

pub record JwtManager (Secret : Type 0) : Type 0 where
  pub secret : Secret
  pub ttl : ℕ

abbrev pub invalid_session : Error
invalid_session = unauthorized_error "invalid or expired session token"

signed : Result String → Result String
signed (ok token) = ok token
signed (err e) = err (Errors.caused Errors.internal (record { format = "sign JWT"; args = [] }) e)

verified : Option Claims → Result Claims
verified none = err invalid_session
verified (some c) = ok c

module _ {Secret : Type 0} (J : Library Secret) where
  abbrev pub claims_of : ℕ → ℕ → String → Role → Claims
  claims_of ttl now username role = record {
    subject = username;
    issued_at = J.numeric_date now;
    expires_at = J.numeric_date (now + ttl);
    username = username;
    role = role;
  }

  unfoldable pub issue : ℕ → String → Role → JwtManager Secret → Result String
  unfolding signed
  issue now username role m = signed (J.sign m.secret (claims_of m.ttl now username role))

  unfoldable pub verify : ℕ → String → JwtManager Secret → Result Claims
  unfolding verified
  verify now token m = verified (J.parse now m.secret token)

settled :
    (b : Bool) (c : Claims)
    → verified (if b then some c else none) ≡ (if b then ok c else err invalid_session)
unfolding verified
settled true c = refl
settled false c = refl

module _ {Secret : Type 0} (J : Library Secret) (L : Laws J) (m : JwtManager Secret) where
  -- A session token that `Issue` gave for a user and a role is accepted by the same manager with
  -- that user and role until the ttl is over, as the library cuts its end off, and is refused as
  -- unauthorized from then on.
  pub verify-issue :
      (now later : ℕ) (username : String) (role : Role) {token : String}
      → issue J now username role m ≡ ok token
      → verify J later token m ≡ (
          if ltb later (J.numeric_date (now + m.ttl))
          then ok (claims_of J m.ttl now username role)
          else err invalid_session)
  unfolding issue signed verify
  verify-issue now later username role {token} h =
      let c = claims_of J m.ttl now username role in
      elim (Result-cases (J.sign m.secret c)) [
        | inr (e, f) ↦ absurd (ground (arith, f))
        | inl (t, f) ↦
            let same : t ≡ token = ground (arith, f) in
            rw (L.parse-sign later m.secret c token (f ∙ ap ok same), settled)
      ]
