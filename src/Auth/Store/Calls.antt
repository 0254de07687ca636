-- ===== src/Auth/Store/Calls.antt =====
-- Sequences of the calls that change users and tokens (engine/auth/store.go).
use hermi_nas.Prelude.{List, String, [], arith, inl, inr, ℕ, ◌∷◌, ◌≡◌}
use hermi_nas.Prelude.Int.{ℤ}
use hermi_nas.Kernel.Errors.{Result, ok, err, Result-cases}
use hermi_nas.Kernel.Permissions.{Role}
use hermi_nas.Auth.Database.{Backend, TokenRow, UserRow}
use hermi_nas.Auth.Store
use hermi_nas.Auth.Store.{
  token_of, expired, ApiToken, User, new_token, new_user, verify_api_token, read_row, row_of,
  settle_revoke, token_of,
}

-- The calls that change users and tokens, with what they draw.
pub data Call : Type 0 where
  create_user : ℕ → ℕ → String → String → Role → Call
  create_api_token : Result String → Result String → ℕ → List String → Role → ℤ → Call
  revoke_api_token : String → Call

module _ (B : Backend) where
  abbrev after {ℓ} : {A : Type ℓ} → (A → B.Db) → B.Db → Result A → B.Db
  after left db (ok a) = left a
  after left db (err e) = db

  unfoldable pub call : Call → B.Db → B.Db
  call (Call.create_user salt now name password role) db =
      after (λ r. r.1) db (Store.create_user B salt now name password role db)
  call (Call.create_api_token raw id now scopes role ttl) db =
      after (λ r. r.2) db (Store.create_api_token B raw id now scopes role ttl db)
  call (Call.revoke_api_token id) db = (Store.revoke_api_token B id db).1

  unfoldable pub run : List Call → B.Db → B.Db
  unfolding call
  run [] db = db
  run (c ∷ calls) db = run calls (call c db)

  pub inserted_user :
      (salt now : ℕ) (name password : String) (role : Role) (db : B.Db) {u : User B} {db' : B.Db}
      → Store.create_user B salt now name password role db ≡ ok (u, db')
      → (row : UserRow B.Hash) × (B.insert_user row db ≡ ok db')
  unfolding Store.create_user
  inserted_user salt now name password role db h = elim (Result-cases (B.generate salt password)) [
    | inr (x, e) ↦ absurd (ground (arith, e))
    | inl (hash, e) ↦ (new_user name hash role now, ground (arith, e))
  ]

  pub inserted_token :
      (raw_drawn id_drawn : Result String) (now : ℕ) (scopes : List String) (role : Role) (ttl : ℤ)
      (db : B.Db) {raw : String} {t : ApiToken} {db' : B.Db}
      → Store.create_api_token B raw_drawn id_drawn now scopes role ttl db ≡ ok (raw, t, db')
      → (hash : String) × (row : TokenRow B.Scopes) × (B.insert_token hash row db ≡ ok db')
  unfolding Store.create_api_token
  inserted_token raw_drawn id_drawn now scopes role ttl db h = elim (Result-cases raw_drawn) [
    | inr (x, p) ↦ absurd (ground (arith, p))
    | inl (raw1, p) ↦ elim (Result-cases id_drawn) [
      | inr (x, q) ↦ absurd (ground (arith, p, q))
      | inl (id1, q) ↦ elim (Result-cases (B.encode scopes)) [
        | inr (x, e) ↦ absurd (ground (arith, p, q, e))
        | inl (encoded, e) ↦ (
          B.digest raw1,
          row_of B (new_token id1 scopes role ttl now) encoded,
          ground (arith, p, q, e),
        )
      ]
    ]
  ]
