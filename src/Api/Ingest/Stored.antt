-- ===== src/Api/Ingest/Stored.antt =====
-- What storing the records of a body has done (`ingestHandler` of engine/api/routes.go).
use hermi_nas.Prelude.{
  Bool, Bool-cases, List, Option, Option-cases, String, ap, arith, inl, inr, length, none, refl,
  true, ℕ, ◌∙◌, ◌≡◌, ◌≢◌,
}
use text.Mathlib.TextPositions.{eq_refl}
use hermi_nas.Kernel.Errors.{Error, Result, Bytes, ok, err}
use hermi_nas.SchemaMgr.Infer.{Numbers, Sample}
use hermi_nas.SchemaMgr.Dataset.{Dataset}
use hermi_nas.SchemaMgr.Database.{Database}
use hermi_nas.SchemaMgr.Ddl.{Text, generate_ddl}
use hermi_nas.Auth.Database.{Backend}
use hermi_nas.Auth.Middleware.{served}
use hermi_nas.Api.ClickHouse.{Client, insert}
use hermi_nas.Api.World.{World}
use hermi_nas.Api.Ingest.{ensure_table, insert_records, store_records}

module _ {F C : Type 0} (D : Database) (B : Backend) (numbers : Numbers F)
    (ddl : Option (Text → C → Option Error × C)) (client : Client C)
    (encode : Sample F → Result Bytes) where
  inserted_lem :
      (name : String) (rs : List (Sample F)) (w : World D B C) {n : ℕ}
      → let done = insert_records D B numbers ddl client encode name rs w in
        done.0 ≡ served 202 n
        → (n ≡ length rs)
          × (insert client encode name rs w.clickhouse ≡ (none, done.1.clickhouse))
          × (done.1.registry ≡ w.registry)
          × (done.1.accounts ≡ w.accounts)
          × (done.1.ensured ≡ w.ensured)
  unfolding insert_records
  inserted_lem name rs w {n} h = elim (Option-cases (insert client encode name rs w.clickhouse).0) [
    | inr (e, q) ↦ absurd (ground (arith, q))
    | inl q ↦ (
      ground (arith, q),
      ap (λ x. (x, (insert client encode name rs w.clickhouse).1)) q,
      refl,
      refl,
      refl,
    )
  ]

  pub table_lem :
      (name : String) (d : Dataset) (w : World D B C)
      → let done = ensure_table D B numbers ddl client encode name d w in
        (done.1.registry ≡ w.registry)
        × (done.1.accounts ≡ w.accounts)
        × (done.0 ≡ none → ddl ≢ none → done.1.ensured name ≡ true)
  unfolding ensure_table
  table_lem name d w = elim (Option-cases ddl) [
    | inl q ↦ (ground (arith, q), ground (arith, q), λ _ k. absurd (k q))
    | inr (exec, q) ↦ elim (Bool-cases (w.ensured name)) [
      | inl t ↦ (ground (arith, q, t), ground (arith, q, t), λ _ _. ground (arith, q, t))
      | inr t ↦ elim (Option-cases (exec (generate_ddl d) w.clickhouse).0) [
        | inr (e, f) ↦ (
          ground (arith, q, t, f),
          ground (arith, q, t, f),
          λ h _. absurd (ground (arith, q, t, f, h)),
        )
        | inl f ↦ (
          ground (arith, q, t, f),
          ground (arith, q, t, f),
          λ _ _. ground (arith, q, t, f, eq_refl name),
        )
      ]
    ]
  ]

  -- What `store_records` has done where its answer is 202.
  pub stored_lem :
      (name : String) (rs : List (Sample F)) (result : Result (Dataset × Bool)) (w : World D B C)
      {n : ℕ}
      → let done = store_records D B numbers ddl client encode name rs result w in
        done.0 ≡ served 202 n
        → (n ≡ length rs)
          × ((d : Dataset) × (created : Bool) × (result ≡ ok (d, created)))
          × ((c : C) × (insert client encode name rs c ≡ (none, done.1.clickhouse)))
          × (done.1.registry ≡ w.registry)
          × (done.1.accounts ≡ w.accounts)
          × (ddl ≢ none → done.1.ensured name ≡ true)
  unfolding store_records
  stored_lem name rs (err e) w h = cc
  stored_lem name rs (ok (d, created)) w {n} h =
      let (kept, same, table) = table_lem name d w in
      let w1 = (ensure_table D B numbers ddl client encode name d w).1 in
      elim (Option-cases (ensure_table D B numbers ddl client encode name d w).0) [
        | inr (e, q) ↦ absurd (ground (arith, q))
        | inl q ↦
            let (count, put_in, kept1, same1, ensured) =
              inserted_lem name rs w1 (rw (store_records, q) at h) in
            rw (store_records, q)
              (
                count,
                (d, created, refl),
                (w1.clickhouse, put_in),
                kept1 ∙ kept,
                same1 ∙ same,
                λ k. ap (λ m. m name) ensured ∙ table q k,
              )
      ]
