-- ===== src/Auth/Store/Revocation.antt =====
-- A revoked token stays revoked, whatever happens afterwards (engine/auth/store.go).
use hermi_nas.Prelude.{
  Bool-cases, List, String, [], ap, arith, eq_iff, false, if◌then◌else◌, inl, inr, refl, str_eq,
  subst, sym, true, ℕ, ◌∙◌, ◌∷◌, ◌≡◌, ◌≢◌,
}
use hermi_nas.Kernel.Errors.{ok, Result-cases}
use hermi_nas.SchemaMgr.Database.{Selected, no_rows, failed, found}
use hermi_nas.Auth.Database.{Backend, Laws, TokenRow, revoked_row, after_revoke}
use hermi_nas.Auth.Store
use hermi_nas.Auth.Store.Calls.{Call, call, run, inserted_user, inserted_token}
use hermi_nas.Auth.Store.Verified.{verified_row}
use hermi_nas.Auth.Store.{
  token_of, expired, ApiToken, User, new_token, new_user, verify_api_token, read_row, row_of,
  settle_revoke, token_of,
}

module _ (B : Backend) where
  -- The id is taken, and every token that has it is revoked.
  record IsDead (id : String) (db : B.Db) : Type 0 where
    hash : String
    row : TokenRow B.Scopes
    there : B.select_token db hash ≡ found row
    of_id : row.id ≡ id
    all :
        (h : String) (r : TokenRow B.Scopes)
        → B.select_token db h ≡ found r
        → r.id ≡ id
        → r.revoked ≡ true

same_row : {Scopes : Type 0} {a b : TokenRow Scopes} → found a ≡ found b → a ≡ b
same_row h = cc

module _ (B : Backend) (L : Laws B) (id : String) where
  IsDead-same :
      {db db' : B.Db}
      → ((h : String) → B.select_token db' h ≡ B.select_token db h)
      → IsDead B id db
      → IsDead B id db'
  IsDead-same same d = record {
    hash = d.hash;
    row = d.row;
    there = same d.hash ∙ d.there;
    of_id = d.of_id;
    all = λ h r e. d.all h r (sym (same h) ∙ e);
  }

  revoked-after_revoke :
      (other : String) (s : Selected (TokenRow B.Scopes)) {r : TokenRow B.Scopes}
      → ((r0 : TokenRow B.Scopes) → s ≡ found r0 → r0.id ≡ id → r0.revoked ≡ true)
      → after_revoke other s ≡ found r
      → r.id ≡ id
      → r.revoked ≡ true
  revoked-after_revoke other no_rows all e same = cc
  revoked-after_revoke other (failed x) all e same = cc
  revoked-after_revoke other (found r0) {r} all e same = elim (Bool-cases (str_eq r0.id other)) [
    | inl q ↦
        let there : revoked_row r0 ≡ r = same_row (rw q at e) in ap (λ x. x.revoked) (sym there)
    | inr q ↦
        let there : r0 ≡ r = same_row (rw q at e) in
        ap (λ x. x.revoked) (sym there) ∙ all r0 refl (ap (λ x. x.id) there ∙ same)
  ]

  revoke_id :
      (other : String) (row : TokenRow B.Scopes)
      → (if str_eq row.id other then revoked_row row else row).id ≡ row.id
  revoke_id other row = ground arith

  IsDead-insert_token :
      (h : String) (t : TokenRow B.Scopes) (db db' : B.Db)
      → B.insert_token h t db ≡ ok db'
      → IsDead B id db
      → IsDead B id db'
  IsDead-insert_token h t db db' f d = record {
    hash = d.hash;
    row = d.row;
    there = L.select_token-insert_token h t db db' d.hash f ∙ rw apart d.there;
    of_id = d.of_id;
    all = λ j r e same. elim (Bool-cases (str_eq h j)) [
      | inl q ↦
          let made : t ≡ r =
            same_row (rw q at (sym (L.select_token-insert_token h t db db' j f) ∙ e)) in
          absurd (
            L.new_id h t db db' d.hash d.row f d.there
              (d.of_id ∙ sym same ∙ ap (λ x. x.id) (sym made)))
      | inr q ↦ d.all j r (rw q at (sym (L.select_token-insert_token h t db db' j f) ∙ e)) same
    ];
  }
    where
      apart : str_eq h d.hash ≡ false
      apart = elim (Bool-cases (str_eq h d.hash)) [
        | inl q ↦
            let same : h ≡ d.hash = (eq_iff h d.hash).0 q in
            cc (L.new_hash h t db db' f, d.there, ap (λ x. B.select_token db x) same)
        | inr q ↦ q
      ]

  IsDead-revoke :
      (other : String) (db db' : B.Db) (n : ℕ)
      → B.revoke other db ≡ ok (n, db')
      → IsDead B id db
      → IsDead B id db'
  IsDead-revoke other db db' n f d = record {
    hash = d.hash;
    row = if str_eq d.row.id other then revoked_row d.row else d.row;
    there = L.select_token-revoke other db db' n d.hash f ∙ rw d.there;
    of_id = revoke_id other d.row ∙ d.of_id;
    all = λ j r e.
        revoked-after_revoke other (B.select_token db j) (λ r0. d.all j r0)
          (sym (L.select_token-revoke other db db' n j f) ∙ e);
  }

  all-after_revoke :
      (s : Selected (TokenRow B.Scopes)) {r : TokenRow B.Scopes}
      → after_revoke id s ≡ found r
      → r.id ≡ id
      → r.revoked ≡ true
  all-after_revoke no_rows e same = cc
  all-after_revoke (failed x) e same = cc
  all-after_revoke (found r0) {r} e same = elim (Bool-cases (str_eq r0.id id)) [
    | inl q ↦
        let there : revoked_row r0 ≡ r = same_row (rw q at e) in ap (λ x. x.revoked) (sym there)
    | inr q ↦
        let there : r0 ≡ r = same_row (rw q at e) in
        let named : r0.id ≡ id = ap (λ x. x.id) there ∙ same in
        absurd (ground (arith, eq_iff r0.id id))
  ]

  -- A revocation that found the token.
  revoke-IsDead : (db db' : B.Db) (n : ℕ) → B.revoke id db ≡ ok (n, db') → n ≢ 0 → IsDead B id db'
  revoke-IsDead db db' n f some_row =
      let (h, row, there, of_id) = L.affected id db db' n f some_row in
      record {
        hash = h;
        row = if str_eq row.id id then revoked_row row else row;
        there = L.select_token-revoke id db db' n h f ∙ rw there;
        of_id = revoke_id id row ∙ of_id;
        all = λ j r e.
            all-after_revoke (B.select_token db j)
              (sym (L.select_token-revoke id db db' n j f) ∙ e);
      }

  call-IsDead : (c : Call) (db : B.Db) → IsDead B id db → IsDead B id (call B c db)
  unfolding call Store.revoke_api_token
  call-IsDead (Call.create_user salt now name password role) db d =
      elim (Result-cases (Store.create_user B salt now name password role db)) [
        | inr (x, e) ↦ rw e d
        | inl ((u, db'), e) ↦
            let (row, f) = inserted_user B salt now name password role db e in
            rw e (IsDead-same (λ h. L.select_token-insert_user row db db' h f) d)
      ]
  call-IsDead (Call.create_api_token raw drawn now scopes role ttl) db d =
      elim (Result-cases (Store.create_api_token B raw drawn now scopes role ttl db)) [
        | inr (x, e) ↦ rw e d
        | inl ((raw1, t, db'), e) ↦
            let (hash, row, f) = inserted_token B raw drawn now scopes role ttl db e in
            rw e (IsDead-insert_token hash row db db' f d)
      ]
  call-IsDead (Call.revoke_api_token other) db d = elim (Result-cases (B.revoke other db)) [
    | inr (x, e) ↦ rw (call, e) d
    | inl ((n, db'), e) ↦ rw (call, e) (IsDead-revoke other db db' n e d)
  ]

  run-IsDead : (calls : List Call) (db : B.Db) → IsDead B id db → IsDead B id (run B calls db)
  unfolding run
  run-IsDead [] db d = d
  run-IsDead (c ∷ calls) db d = run-IsDead calls (call B c db) (call-IsDead c db d)

  dead_refused :
      (now : ℕ) (raw : String) (db : B.Db) {t : ApiToken}
      → IsDead B id db
      → verify_api_token B now raw db ≡ ok t
      → t.id ≢ id
  dead_refused now raw db d h same =
      let (row, there, named, live) = verified_row B now raw db h in
      cc (live, d.all (B.digest raw) row there (named ∙ same))

  -- Over every database that fulfils the laws: once `RevokeAPIToken` has reported success for an id,
  -- no sequence of calls of `CreateUser`, `CreateAPIToken` and `RevokeAPIToken` brings the token
  -- back. No raw value is ever again accepted as a token of that id.
  pub revoked_forever :
      (db : B.Db) (calls : List Call) (now : ℕ) (raw : String) {db' : B.Db} {t : ApiToken}
      → Store.revoke_api_token B id db ≡ (ok tt, db')
      → verify_api_token B now raw (run B calls db') ≡ ok t
      → t.id ≢ id
  unfolding Store.revoke_api_token
  revoked_forever db calls now raw {db'} h = elim (Result-cases (B.revoke id db)) [
    | inr (x, e) ↦ absurd (ground (arith, e))
    | inl ((n, db1), e) ↦
        let same : db1 ≡ db' = ground (arith, e) in
        let affected : n ≢ 0 = λ z. absurd (ground (arith, e)) in
        dead_refused now raw (run B calls db') (
          run-IsDead calls db'
            (subst (λ x. IsDead B id x) same (revoke-IsDead db db1 n e affected)))
  ]
