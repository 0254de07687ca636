-- ===== src/SchemaMgr/Store/Atomic.antt =====
-- What the registry reads back after it wrote, and that errors write nothing
-- (engine/schemamgr/store.go).
use hermi_nas.Prelude.{
  List, String, [], arith, contains, false, if◌then◌else◌, inl, inr, map, refl, str_eq, true, ℕ,
  ◌∙◌, ◌∷◌, ◌≡◌, ◌≢◌,
}
use text.Mathlib.TextPositions.{eq_refl}
use hermi_nas.Kernel.Errors
use hermi_nas.Kernel.Errors.{Error, Result, ok, err, Result-cases}
use hermi_nas.SchemaMgr.Dataset.{Column, Dataset, validate}
use hermi_nas.SchemaMgr.Database.{Database, Laws, insert_row}
use hermi_nas.SchemaMgr.Store.{
  get, transaction, persist, create_checks, create, add_columns, stamped, error_of,
}

-- A definition is what the registry now holds under its name; every other name is as it was.
pub record IsWritten (D : Database) (d : Dataset) (db db' : D.Db) : Type 0 where
  pub text : D.Definition
  pub encoded : D.encode d ≡ ok text
  pub reads : get D d.name db' ≡ ok d
  pub others : (name : String) → str_eq d.name name ≡ false → get D name db' ≡ get D name db
  pub history :
      (name : String)
      → D.history db' name ≡ (
          if str_eq d.name name
          then insert_row d.version text (D.history db name)
          else D.history db name)
  pub version_new : contains d.version (map (λ row. row.0) (D.history db d.name)) ≡ false

abbrev ok_or {ℓ} : {A : Type ℓ} → A → Result A → A
ok_or a (ok b) = b
ok_or a (err e) = a

module _ (D : Database) (L : Laws D) where
  transaction-IsWritten :
      (d : Dataset) (db : D.Db) {db' : D.Db} → transaction D d db ≡ ok db' → IsWritten D d db db'
  unfolding transaction get
  transaction-IsWritten d db {db'} h = elim (Result-cases (D.encode d)) [
    | inr (x, f) ↦ absurd (ground (arith, f))
    | inl (t, encoded) ↦
        let db1 = ok_or db (D.upsert_dataset d t db) in
        let upserted : D.upsert_dataset d t db ≡ ok db1 = ground arith in
        let inserted : D.insert_version d t db1 ≡ ok db' = ground arith in
        record {
          text = t;
          encoded = encoded;
          reads = rw (
            L.select-insert d t db1 db' d.name inserted,
            L.select-upsert d t db db1 d.name upserted,
            eq_refl,
            L.decode-encode d t encoded,
          );
          others = λ name e. rw (
            L.select-insert d t db1 db' name inserted,
            L.select-upsert d t db db1 name upserted,
            e,
          );
          history = λ name.
              L.history-insert d t db1 db' name inserted
              ∙ rw (L.history-upsert d t db db1 name upserted);
          version_new =
              rw (← L.history-upsert d t db db1 d.name upserted)
                (L.primary_key d t db1 db' inserted);
        }
  ]

  pub persist-IsWritten :
      (d : Dataset) (db : D.Db) {r : Dataset}
      → (persist D d d db).0 ≡ ok r
      → (r ≡ d) × IsWritten D d db (persist D d d db).1
  unfolding persist
  persist-IsWritten d db h = elim (Result-cases (transaction D d db)) [
    | inl (db', e) ↦ rw e (ground (arith, e), transaction-IsWritten d db e)
    | inr (x, e) ↦ absurd (ground (arith, e))
  ]

  create_checks_ok :
      (d : Dataset) (db : D.Db)
      → create_checks D d db ≡ ok tt
      → (validate d ≡ ok tt) × ((old : Dataset) → get D d.name db ≢ ok old)
  unfolding create_checks
  create_checks_ok d db h = (ground arith, λ old e. ground (arith, e))

  -- Over every database that fulfils the laws, a dataset that `Create` returns is the given one at
  -- version 1, which is well-formed and had no readable definition before; it is what `Get` then
  -- returns for its name, and `Get` of every other name returns what it did.
  pub create-IsWritten :
      (d : Dataset) (now : ℕ) (db : D.Db) {r : Dataset}
      → (create D d now db).0 ≡ ok r
      → (r ≡ stamped D d now)
        × (validate d ≡ ok tt)
        × ((old : Dataset) → get D d.name db ≢ ok old)
        × IsWritten D (stamped D d now) db (create D d now db).1
  unfolding create
  create-IsWritten d now db h = elim (Result-cases (create_checks D d db)) [
    | inl (_, e) ↦
        let (same, written) = persist-IsWritten (stamped D d now) db (rw e at h) in
        let (valid, absent) = create_checks_ok d db e in (same, valid, absent, rw e written)
    | inr (x, e) ↦ absurd (ground (arith, e))
  ]

  -- `Create` and `AddColumns` that give an error leave the database as it was.
  pub create_error :
      (d : Dataset) (now : ℕ) (db : D.Db) {e : Error}
      → (create D d now db).0 ≡ err e
      → (create D d now db).1 ≡ db
  unfolding create
  create_error d now db h = ground arith

  pub add_columns_error :
      (name : String) (cs : List Column) (now : ℕ) (db : D.Db) {e : Error}
      → (add_columns D name cs now db).0 ≡ err e
      → (add_columns D name cs now db).1 ≡ db
  unfolding add_columns
  add_columns_error name cs now db h = ground arith

  -- A dataset that exists is not created again: `Create` of a well-formed definition of its name
  -- gives `already_exists` and writes nothing.
  pub create_existing :
      (d old : Dataset) (now : ℕ) (db : D.Db)
      → validate d ≡ ok tt
      → get D d.name db ≡ ok old
      → let outcome = create D d now db in
        (outcome.1 ≡ db) × (e : Error) × (outcome.0 ≡ err e) × (Errors.is_already_exists e ≡ true)
  unfolding create Errors.is_already_exists
  create_existing d old now db valid there =
      let e = error_of Errors.already_exists "dataset %q already exists" (Errors.str d.name ∷ []) in
      (ground (arith, valid, there), e, ground (arith, valid, there), refl)
