-- ===== src/Auth/Middleware/Guards.antt =====
-- What a request has shown when it gets behind the middleware (engine/auth/middleware.go).
use hermi_nas.Prelude.{
  some_injective, ==_iff, Bool-cases, List, Option, Option-cases, String, ap, arith, eq_iff, false,
  inl, inr, some, str_eq, sym, true, ℕ, ◌==◌, ◌||◌, ◌∙◌, ◌≡◌, ◌≢◌, ◌⊎◌,
}
use hermi_nas.Auth.Database.{Backend, TokenRow, Laws}
use hermi_nas.Auth.Jwt.{Library, JwtManager, Claims}
use hermi_nas.Auth.Jwt
use hermi_nas.Auth.Store
use hermi_nas.Auth.Store.{verify_api_token}
use hermi_nas.Auth.Store.Calls.{Call, run}
use hermi_nas.Auth.Store.Verified.{verified_row}
use hermi_nas.Auth.Store.Revocation.{revoked_forever}
use hermi_nas.Auth.Middleware.{
  Identity, Handler, refused, bearer, cut_prefix, identify, authenticate, session_identity,
  token_identity,
}
use hermi_nas.SchemaMgr.Database.{found}
use hermi_nas.Kernel.Errors.{ok, Result-cases}
use Prim.Native.Char.{code}
use Prim.Native.String.{◌++◌ as append}
use text.Mathlib.TextLemmas.{cons-append, nil-append}
use text.Mathlib.TextEquality.{Char-path}

-- What is left after a prefix was cut off.
pub cut_prefix_sound : (p s : String) {t : String} → cut_prefix p s ≡ some t → s ≡ append p t
unfolding cut_prefix
cut_prefix_sound String.[] s {t} h = some_injective h ∙ sym (nil-append t)
cut_prefix_sound (String.◌∷◌ c p) String.[] h = cc
cut_prefix_sound (String.◌∷◌ c p) (String.◌∷◌ d s) {t} h = elim (Bool-cases (code c == code d)) [
  | inr q ↦ absurd (ground (arith, q))
  | inl q ↦
      let same : c ≡ d = Char-path c d ((==_iff (code c) (code d)).0 q) in
      let rest : s ≡ append p t = cut_prefix_sound p s (rw q at h) in
      ap (λ x. String.◌∷◌ x s) (sym same) ∙ ap (λ x. String.◌∷◌ c x) rest ∙ sym (cons-append c p t)
]

bearer_sound :
    (header : String) {token : String}
    → bearer header ≡ some token
    → (header ≡ append "Bearer " token) × (token ≢ "")
unfolding bearer
bearer_sound header {token} h = elim (Option-cases (cut_prefix "Bearer " header)) [
  | inl e ↦ absurd (ground (arith, e))
  | inr (t, e) ↦ elim (Bool-cases (str_eq header "" || str_eq t "")) [
    | inl q ↦ absurd (ground (arith, e, q))
    | inr q ↦
        let same : t ≡ token = ground (arith, e, q) in
        (
          cut_prefix_sound "Bearer " header (e ∙ ap some same),
          λ z. absurd (ground (arith, e, q, same, z, eq_iff t "")),
        )
  ]
]

module _ {Secret : Type 0} (J : Library Secret) (m : JwtManager Secret) (B : Backend)
    (session_time token_time : ℕ) where
  -- Where an identity comes from: the claims of a session that the manager accepts, or a row of the
  -- database that is found by the token's digest and is not revoked.
  pub data IsGenuine (token : String) (db : B.Db) (id : Identity) : Type 0 where
    session :
        (c : Claims)
        → Jwt.verify J session_time token m ≡ ok c
        → id ≡ session_identity c
        → IsGenuine token db id
    api_token :
        (row : TokenRow B.Scopes)
        → B.select_token db (B.digest token) ≡ found row
        → row.revoked ≡ false
        → id.subject ≡ row.id
        → id.via_token ≡ true
        → IsGenuine token db id

  identify-IsGenuine :
      (token : String) (db : B.Db) {id : Identity}
      → identify J m B session_time token_time token db ≡ some id
      → IsGenuine token db id
  unfolding identify
  identify-IsGenuine token db {id} h = elim (Result-cases (Jwt.verify J session_time token m)) [
    | inl (c, e) ↦ session c e (sym (some_injective (rw e at h)))
    | inr (x, e) ↦ elim (Result-cases (verify_api_token B token_time token db)) [
      | inr (y, f) ↦ absurd (ground (arith, e, f))
      | inl (t, f) ↦
          let made : token_identity t ≡ id = some_injective (rw (e, f) at h) in
          let (row, there, named, live) = verified_row B token_time token db f in
          api_token row there live (ap (λ x. x.subject) (sym made) ∙ sym named)
            (ap (λ x. x.via_token) (sym made))
    ]
  ]

  -- A request with the header is let through, with an identity that it may have.
  pub record IsLetThrough (header : String) (db : B.Db) (passed : Identity → Type 0) : Type 0 where
    pub token : String
    pub id : Identity
    pub named : header ≡ append "Bearer " token
    pub genuine : IsGenuine token db id
    pub allowed : passed id

  module _ {R S A : Type 0} (header : R → String) (db_of : S → B.Db) (next : Handler R S A)
      (ctx : Option Identity) (r : R) (s : S) where
    -- `Authenticate` answers 401 and leaves the state as it was, or the answer and the state are
    -- those of the wrapped handler under an identity. The header is then "Bearer " and a token,
    -- whose session the manager accepts with that identity, or whose row in the database is not
    -- revoked and gives it. An identity that the context had before plays no part.
    authenticate_sound :
        ((message : String) × (authenticate J m B session_time token_time header db_of next ctx r s
            ≡ (refused 401 message, s)))
        ⊎ IsLetThrough (header r) (db_of s) (λ id.
          authenticate J m B session_time token_time header db_of next ctx r s ≡ next (some id) r s)
    unfolding authenticate
    authenticate_sound = elim (Option-cases (bearer (header r))) [
      | inl e ↦ inl ("missing or malformed Authorization header", rw (authenticate, e))
      | inr (token, e) ↦
          elim (Option-cases (identify J m B session_time token_time token (db_of s))) [
            | inl f ↦ inl ("invalid or expired credentials", rw (authenticate, e, f))
            | inr (id, f) ↦ inr (record {
              token = token;
              id = id;
              named = (bearer_sound (header r) e).0;
              genuine = identify-IsGenuine token (db_of s) f;
              allowed = rw (authenticate, e, f);
            })
          ]
    ]

    -- A handler behind `Authenticate` that refuses every identity, or lets it through under `P`.
    pub guarded_sound :
        (P : Identity → Type 0)
        → ((id : Identity)
            → ((status : ℕ) × (message : String) × (next (some id) r s
                  ≡ (refused status message, s)))
              ⊎ P id)
        → ((status : ℕ) × (message : String) × (authenticate J m B session_time token_time header
                db_of next ctx r s
              ≡ (refused status message, s)))
          ⊎ IsLetThrough (header r) (db_of s) (λ id.
            P id
            × (authenticate J m B session_time token_time header db_of next ctx r s
                ≡ next (some id) r s))
    guarded_sound P guard = elim authenticate_sound [
      | inl (message, e) ↦ inl (401, message, e)
      | inr passed ↦ elim (guard passed.id) [
        | inl (status, message, e) ↦ inl (status, message, passed.allowed ∙ e)
        | inr p ↦ inr (record {
          token = passed.token;
          id = passed.id;
          named = passed.named;
          genuine = passed.genuine;
          allowed = (p, passed.allowed);
        })
      ]
    ]

module _ {Secret : Type 0} (J : Library Secret) (m : JwtManager Secret) (B : Backend) (L : Laws B)
    (id : String) where
  -- Over every database that fulfils the laws: once `RevokeAPIToken` has reported success for an
  -- id, whatever users and tokens are created and revoked afterwards, and whatever token a request
  -- carries at whatever time, its credentials never give the identity of the API token of that id.
  pub revoked_locked_out :
      (db : B.Db) (calls : List Call) (session_time token_time : ℕ) (token : String) {db' : B.Db}
      {who : Identity}
      → Store.revoke_api_token B id db ≡ (ok tt, db')
      → identify J m B session_time token_time token (run B calls db') ≡ some who
      → who.via_token ≡ true
      → who.subject ≢ id
  unfolding identify
  revoked_locked_out db calls session_time token_time token {db'} {who} revoked h via same =
      let db1 = run B calls db' in
      elim (Result-cases (Jwt.verify J session_time token m)) [
        | inl (c, e) ↦
            let made : session_identity c ≡ who = some_injective (rw e at h) in
            absurd (let as_session = ap (λ x. x.via_token) made in ground (arith, as_session, via))
        | inr (x, e) ↦ elim (Result-cases (verify_api_token B token_time token db1)) [
          | inr (y, f) ↦ absurd (ground (arith, e, f))
          | inl (t, f) ↦
              let made : token_identity t ≡ who = some_injective (rw (e, f) at h) in
              revoked_forever B L id db calls token_time token revoked f
                (ap (λ x. x.subject) made ∙ same)
        ]
      ]
