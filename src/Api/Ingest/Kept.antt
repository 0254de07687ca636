-- ===== src/Api/Ingest/Kept.antt =====
-- What of the world the ingestion keeps (`ingestHandler` of engine/api/routes.go).
use hermi_nas.Prelude.{
  Bool, Bool-cases, List, Option, Option-cases, String, [], inl, inr, refl, true, ℕ, ◌∙◌, ◌∷◌, ◌≡◌,
}
use hermi_nas.Kernel.Errors.{Error, Result, Bytes, ok, err}
use hermi_nas.SchemaMgr.Infer.{Numbers, Sample}
use hermi_nas.SchemaMgr.Dataset.{Dataset}
use hermi_nas.SchemaMgr.Database.{Database}
use hermi_nas.SchemaMgr.Ddl.{Text, generate_ddl}
use hermi_nas.SchemaMgr.Store
use hermi_nas.Auth.Database.{Backend}
use hermi_nas.Api.ClickHouse.{Client, insert}
use hermi_nas.Api.World.{World}
use hermi_nas.Api.Ingest.{
  Read, records, bad_line, panics, ensure_table, insert_records, store_records, read_body, ingest,
  ingest_read, put,
}
use hermi_nas.Api.Ingest.Stored.{table_lem}

module _ {F C : Type 0} (D : Database) (B : Backend) (numbers : Numbers F)
    (ddl : Option (Text → C → Option Error × C)) (client : Client C)
    (encode : Sample F → Result Bytes) where
  -- What of the world the ingestion cannot change.
  module _ {X : Type 0} (view : World D B C → X)
      (same : (w : World D B C) (db : D.Db) (c : C) (ensured : String → Bool)
        → view (record w { registry = db; clickhouse = c; ensured = ensured }) ≡ view w) where
    table-view :
        (name : String) (d : Dataset) (w : World D B C)
        → view (ensure_table D B numbers ddl client encode name d w).1 ≡ view w
    unfolding ensure_table
    table-view name d w = elim (Option-cases ddl) [
      | inl q ↦ rw (ensure_table, q) refl
      | inr (exec, q) ↦ elim (Bool-cases (w.ensured name)) [
        | inl t ↦ rw (ensure_table, q, t) refl
        | inr t ↦
            let (failure, c) = exec (generate_ddl d) w.clickhouse in
            elim (Option-cases failure) [
              | inr (e, f) ↦ rw (ensure_table, q, t, f) (same w w.registry c w.ensured)
              | inl f ↦ rw (ensure_table, q, t, f) (same w w.registry c (put name true w.ensured))
            ]
      ]
    ]

    inserted-view :
        (name : String) (rs : List (Sample F)) (w : World D B C)
        → view (insert_records D B numbers ddl client encode name rs w).1 ≡ view w
    unfolding insert_records
    inserted-view name rs w =
        same w w.registry (insert client encode name rs w.clickhouse).1 w.ensured

    stored-view :
        (name : String) (rs : List (Sample F)) (result : Result (Dataset × Bool)) (w : World D B C)
        → view (store_records D B numbers ddl client encode name rs result w).1 ≡ view w
    unfolding store_records
    stored-view name rs (err e) w = refl
    stored-view name rs (ok (d, created)) w =
        let (failure, w') = ensure_table D B numbers ddl client encode name d w in
        elim (Option-cases failure) [
          | inl q ↦ rw (store_records, q) (inserted-view name rs w' ∙ table-view name d w)
          | inr (e, q) ↦ rw (store_records, q) (table-view name d w)
        ]

    read-view :
        (name : String) (read : Read F) (now : ℕ) (w : World D B C)
        → view (ingest_read D B numbers ddl client encode name read now w).1 ≡ view w
    unfolding ingest_read
    read-view name panics now w = refl
    read-view name (bad_line e) now w = refl
    read-view name (records []) now w = refl
    read-view name (records (r ∷ rs)) now w =
        let (result, db) = Store.ensure_dataset D numbers name r now w.registry in
        stored-view name (r ∷ rs) result (record w { registry = db })
        ∙ same w db w.clickhouse w.ensured

    pub ingest-view :
        (unmarshal : Bytes → Result (Option (Sample F))) (clock : ℕ → F) (name : String)
        (body : Bytes) (now : ℕ) (w : World D B C)
        → view (ingest D B numbers ddl client encode unmarshal clock name body now w).1 ≡ view w
    unfolding ingest
    ingest-view unmarshal clock name body now w =
        read-view name (read_body unmarshal clock body) now w

module _ {F C : Type 0} (D : Database) (B : Backend) (numbers : Numbers F)
    (ddl : Option (Text → C → Option Error × C)) (client : Client C)
    (encode : Sample F → Result Bytes) where
  store_records-registry :
      (name : String) (rs : List (Sample F)) (result : Result (Dataset × Bool)) (w : World D B C)
      → (store_records D B numbers ddl client encode name rs result w).1.registry ≡ w.registry
  unfolding store_records insert_records
  store_records-registry name rs (err e) w = refl
  store_records-registry name rs (ok (d, created)) w =
      let (kept, same, table) = table_lem D B numbers ddl client encode name d w in
      elim (Option-cases (ensure_table D B numbers ddl client encode name d w).0) [
        | inl q ↦ rw (store_records, q) kept
        | inr (e, q) ↦ rw (store_records, q) kept
      ]

  module _ (name : String) (now : ℕ) (w : World D B C) (P : D.Db → Type 0) (h : P w.registry)
      (step : (r : Sample F) → P (Store.ensure_dataset D numbers name r now w.registry).1) where
    read-registry :
        (read : Read F) → P (ingest_read D B numbers ddl client encode name read now w).1.registry
    unfolding ingest_read
    read-registry panics = h
    read-registry (bad_line e) = h
    read-registry (records []) = h
    read-registry (records (r ∷ rs)) =
        let (result, db) = Store.ensure_dataset D numbers name r now w.registry in
        rw (store_records-registry name (r ∷ rs) result (record w { registry = db })) (step r)

    -- A property of the registry that `EnsureDataset` keeps is kept.
    pub ingest-registry :
        (unmarshal : Bytes → Result (Option (Sample F))) (clock : ℕ → F) (body : Bytes)
        → P (ingest D B numbers ddl client encode unmarshal clock name body now w).1.registry
    unfolding ingest
    ingest-registry unmarshal clock body = read-registry (read_body unmarshal clock body)
