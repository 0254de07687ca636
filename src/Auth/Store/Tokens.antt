-- ===== src/Auth/Store/Tokens.antt =====
-- A token that was created is accepted until it expires or is revoked (engine/auth/store.go).
use hermi_nas.Prelude.{
  ◌+◌, ◌<◌, ◌∙◌, ◌≤◌, List, String, arith, false, if◌then◌else◌, inl, inr, refl, str_eq, subst,
  true, ℕ, ◌≡◌,
}
use hermi_nas.Prelude.Int.{pos_part, ℤ}
use text.Mathlib.TextPositions.{eq_refl}
use hermi_nas.Kernel.Errors.{Result, ok, err, Result-cases}
use hermi_nas.Kernel.Permissions.{Role, valid}
use hermi_nas.SchemaMgr.Dataset.{is_nil}
use hermi_nas.Auth.Database.{Backend, Laws}
use hermi_nas.Auth.Store.{
  ApiToken, new_token, expired, create_api_token, verify_api_token, read_row, row_of, usable,
  unauthorized_error,
}

module _ (B : Backend) (L : Laws B) (raw_drawn id_drawn : Result String) (now : ℕ)
    (scopes : List String) (role : Role) (ttl : ℤ) (db : B.Db) where
  -- What `CreateAPIToken` has done where it gives no error.
  pub record IsIssued (raw : String) (t : ApiToken) (db' : B.Db) : Type 0 where
    pub drawn : raw_drawn ≡ ok raw
    pub named : id_drawn ≡ ok t.id
    pub granted : (t.scopes ≡ scopes) × (t.role ≡ role) × (t.created_at ≡ now)
    pub role_valid : valid role ≡ true
    pub scoped : is_nil scopes ≡ false
    pub endless : pos_part ttl ≡ 0 → (later : ℕ) → verify_api_token B later raw db' ≡ ok t
    pub in_time : (later : ℕ) → later ≤ now + pos_part ttl → verify_api_token B later raw db' ≡ ok t
    pub too_late :
        (later : ℕ)
        → 0 < pos_part ttl
        → now + pos_part ttl < later
        → verify_api_token B later raw db' ≡ err (unauthorized_error "API token has expired")
    pub others :
        (later : ℕ) (other : String)
        → str_eq (B.digest raw) (B.digest other) ≡ false
        → verify_api_token B later other db' ≡ verify_api_token B later other db

  inserted-IsIssued :
      (raw id : String) (encoded : B.Scopes) (db' : B.Db)
      → raw_drawn ≡ ok raw
      → id_drawn ≡ ok id
      → valid role ≡ true
      → is_nil scopes ≡ false
      → B.encode scopes ≡ ok encoded
      → B.insert_token (B.digest raw) (row_of B (new_token id scopes role ttl now) encoded) db
        ≡ ok db'
      → IsIssued raw (new_token id scopes role ttl now) db'
  unfolding verify_api_token row_of expired
  inserted-IsIssued raw id encoded db' p q v n e f =
      let t = new_token id scopes role ttl now in
      let read = λ (h : String).
        L.select_token-insert_token (B.digest raw) (row_of B t encoded) db db' h f in
      let answer : (later : ℕ)
          → verify_api_token B later raw db'
            ≡ (if expired later t then err (unauthorized_error "API token has expired") else ok t) =
        λ later.
          rw (read (B.digest raw), eq_refl, read_row, L.decode-encode scopes encoded e, usable) in
      record {
        drawn = p;
        named = q;
        granted = (refl, refl, refl);
        role_valid = v;
        scoped = n;
        endless = λ none_given later. answer later ∙ ground (arith, none_given);
        in_time = λ later k. answer later ∙ ground (arith, k);
        too_late = λ later given k. answer later ∙ ground (arith, given, k);
        others = λ later other d. rw (read (B.digest other), d);
      }

  same_issued : {a b : String × ApiToken × B.Db} → ok a ≡ ok b → a ≡ b
  same_issued h = cc

  -- A token that `CreateAPIToken` returns has the scopes and the role that were asked for, at least
  -- one scope and one of the four roles, and is identified by the drawn id. Its raw value is accepted
  -- and gives this token: at every time where the ttl is not positive, and else up to the ttl behind
  -- the time of its creation, that time included; behind it, it is refused as expired. Raw values of
  -- another digest are answered as before.
  pub create_api_token-IsIssued :
      {raw : String} {t : ApiToken} {db' : B.Db}
      → create_api_token B raw_drawn id_drawn now scopes role ttl db ≡ ok (raw, t, db')
      → IsIssued raw t db'
  unfolding create_api_token
  create_api_token-IsIssued {raw} {t} {db'} h = elim (Result-cases raw_drawn) [
    | inr (x, p) ↦ absurd (ground (arith, p))
    | inl (raw1, p) ↦ elim (Result-cases id_drawn) [
      | inr (x, q) ↦ absurd (ground (arith, p, q))
      | inl (id, q) ↦ elim (Result-cases (B.encode scopes)) [
        | inr (x, e) ↦ absurd (ground (arith, p, q, e))
        | inl (encoded, e) ↦
            let row = row_of B (new_token id scopes role ttl now) encoded in
            elim (Result-cases (B.insert_token (B.digest raw1) row db)) [
              | inr (x, f) ↦ absurd (ground (arith, p, q, e, f))
              | inl (db1, f) ↦
                  let v : valid role ≡ true = ground arith in
                  let n : is_nil scopes ≡ false = ground arith in
                  let made : ok (raw1, new_token id scopes role ttl now, db1) ≡ ok (raw, t, db') =
                    ground (arith, p, q, e, f) in
                  subst (λ r. IsIssued r.0 r.1 r.2) (same_issued made)
                    (inserted-IsIssued raw1 id encoded db1 p q v n e f)
            ]
      ]
    ]
  ]
