-- ===== src/Auth/Store/Verified.antt =====
-- What an accepted token was read from (`VerifyAPIToken` of engine/auth/store.go).
use hermi_nas.Prelude.{Bool-cases, String, ap, arith, false, inl, inr, refl, ℕ, ◌≡◌}
use hermi_nas.Kernel.Errors.{ok, Result-cases}
use hermi_nas.SchemaMgr.Database.{Selected, no_rows, failed, found}
use hermi_nas.Auth.Database.{Backend, TokenRow}
use hermi_nas.Auth.Store
use hermi_nas.Auth.Store.{
  token_of, expired, ApiToken, User, new_token, new_user, verify_api_token, read_row, row_of,
  settle_revoke, token_of,
}

same_token : {a b : ApiToken} → ok a ≡ ok b → a ≡ b
same_token h = cc

usable_ok :
    (B : Backend) (now : ℕ) (a : ApiToken) {t : ApiToken}
    → Store.usable B now a ≡ ok t
    → (a.revoked ≡ false) × (a ≡ t)
unfolding Store.usable
usable_ok B now a {t} h = elim (Bool-cases a.revoked) [
  | inl q ↦ absurd (ground (arith, q))
  | inr q ↦ elim (Bool-cases (expired now a)) [
    | inl p ↦ absurd (ground (arith, q, p))
    | inr p ↦ let kept : ok a ≡ ok t = ground (arith, q, p) in (q, same_token kept)
  ]
]

-- A token is accepted from a row that is not revoked.
accepted_row :
    (B : Backend) (now : ℕ) (s : Selected (TokenRow B.Scopes)) {t : ApiToken}
    → read_row B now s ≡ ok t
    → (row : TokenRow B.Scopes) × (s ≡ found row) × (row.id ≡ t.id) × (row.revoked ≡ false)
unfolding read_row token_of
accepted_row B now no_rows h = cc
accepted_row B now (failed x) h = cc
accepted_row B now (found row) {t} h = elim (Result-cases (B.decode row.scopes)) [
  | inr (x, e) ↦ absurd (ground (arith, e))
  | inl (scopes, e) ↦
      let (live, same) = usable_ok B now (token_of B row scopes) (rw e at h) in
      (row, refl, ap (λ x. x.id) same, live)
]

pub verified_row :
    (B : Backend) (now : ℕ) (raw : String) (db : B.Db) {t : ApiToken}
    → verify_api_token B now raw db ≡ ok t
    → (row : TokenRow B.Scopes) × (B.select_token db (B.digest raw) ≡ found row)
      × (row.id ≡ t.id)
      × (row.revoked ≡ false)
unfolding verify_api_token
verified_row B now raw db h = accepted_row B now (B.select_token db (B.digest raw)) h
