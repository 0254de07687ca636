-- ===== src/SchemaMgr/Store.antt =====
-- The registry of datasets, engine/schemamgr/store.go, over the interface of the database.
-- Times are numbers; `pos 0` and 0 are the zero values of the fields that are not set.
-- A transaction works on a copy of the database, and `Commit` puts the copy in its place; an error
-- before that leaves the database as it was (`defer tx.Rollback()`).
pub mod Atomic
pub mod Evolve
pub mod Registry
use hermi_nas.Prelude.{
  Bool, List, Option, String, [], false, if◌then◌else◌, none, not, some, true, ℕ, ◌++◌, ◌+◌, ◌∷◌,
}
use hermi_nas.Prelude.Int.{pos}
use hermi_nas.Kernel.Errors
use hermi_nas.Kernel.Errors.{Code, Error, Result, ok, err, ◌>>=◌, ◌>>◌}
use hermi_nas.SchemaMgr.Dataset.{Column, Dataset, validate, check_backward_compatible, is_defined}
use hermi_nas.SchemaMgr.Infer.{Numbers, Sample, infer_columns}
use hermi_nas.SchemaMgr.Database.{Database, Selected, no_rows, failed, found}

abbrev pub error_of : Code → String → List Errors.Arg → Error
error_of code format args = Errors.coded code (record { format = format; args = args })

abbrev pub wrapped {ℓ} : {A : Type ℓ} → String → Result A → Result A
wrapped format (ok a) = ok a
wrapped format (err e) =
    err (Errors.caused Errors.internal (record { format = format; args = [] }) e)

module _ (D : Database) where
  open D use {
    Db, encode, decode, select_definition, select_all, select_versions, begin, upsert_dataset,
    insert_version, commit,
  }

  read_selected : String → Selected D.Definition → Result Dataset
  read_selected name no_rows =
      err (error_of Errors.not_found "dataset %q not found" (Errors.str name ∷ []))
  read_selected name (failed e) = wrapped "query dataset" (err e)
  read_selected name (found definition) = wrapped "decode dataset definition" (decode definition)

  unfoldable pub get : String → Db → Result Dataset
  unfolding read_selected
  get name db = read_selected name (select_definition db name)

  end_of : Option Error → Result (List Dataset)
  end_of none = ok []
  end_of (some e) = err e

  -- The loop over the rows, with the texts of its two errors.
  unfoldable pub decode_all :
      String → String → List (Result D.Definition) → Option Error → Result (List Dataset)
  unfolding end_of
  decode_all scan_format decode_format [] end = end_of end
  decode_all scan_format decode_format (row ∷ rows) end = do
    definition ← wrapped scan_format row
    d ← wrapped decode_format (decode definition)
    ds ← decode_all scan_format decode_format rows end
    ok (d ∷ ds)

  unfoldable pub list : Db → Result (List Dataset)
  unfolding decode_all
  list db = do
    rows ← wrapped "list datasets" (select_all db)
    decode_all "scan dataset row" "decode dataset definition" rows.scanned rows.end

  unfoldable pub versions : String → Db → Result (List Dataset)
  unfolding decode_all
  versions name db = do
    rows ← wrapped "list dataset versions" (select_versions db name)
    decode_all "scan dataset version row" "decode dataset version" rows.scanned rows.end

  -- The transaction of `persist`: the database that is committed, or the error.
  unfoldable pub transaction : Dataset → Db → Result Db
  transaction d db = do
    definition ← wrapped "encode dataset definition" (encode d)
    wrapped "begin transaction" (begin db)
    db1 ← wrapped "upsert dataset" (upsert_dataset d definition db)
    db2 ← wrapped "insert dataset version" (insert_version d definition db1)
    wrapped "commit transaction" (commit db2)
    ok db2

  abbrev settle {ℓ} : {A : Type ℓ} → A → Db → Result Db → Result A × Db
  settle a db (ok db') = (ok a, db')
  settle a db (err e) = (err e, db)

  -- `persist`, and the value that its callers return where it gives no error.
  unfoldable pub persist {ℓ} : {A : Type ℓ} → A → Dataset → Db → Result A × Db
  unfolding transaction
  persist a d db = settle a db (transaction d db)

  already_there : Dataset → Result Dataset → Result (Unit {0})
  already_there d (ok old) =
      err (error_of Errors.already_exists "dataset %q already exists" (Errors.str d.name ∷ []))
  already_there d (err e) = ok tt

  abbrev pub stamped : Dataset → ℕ → Dataset
  stamped d now = record d { version = 1; created_at = now; updated_at = now }

  -- The checks before anything is written.
  unfoldable pub create_checks : Dataset → Db → Result (Unit {0})
  unfolding get already_there
  create_checks d db = do validate d; already_there d (get d.name db)

  abbrev pub unless_error {ℓ} : {A B : Type ℓ} → Result A → Db → (A → Result B × Db) → Result B × Db
  unless_error (ok a) db f = f a
  unless_error (err e) db f = (err e, db)

  unfoldable pub create : Dataset → ℕ → Db → Result Dataset × Db
  unfolding create_checks persist
  create d now db =
      unless_error (create_checks d db) db (λ _. persist (stamped d now) (stamped d now) db)

  abbrev pub extended : Dataset → List Column → ℕ → Dataset
  extended current new_columns now = record current {
    columns = current.columns ++ new_columns;
    version = current.version + 1;
    updated_at = now;
  }

  unfoldable pub add_columns_checks : String → List Column → ℕ → Db → Result Dataset
  unfolding get
  add_columns_checks name new_columns now db = do
    current ← get name db
    let next = extended current new_columns now
    validate next
    check_backward_compatible current next
    ok next

  unfoldable pub add_columns : String → List Column → ℕ → Db → Result Dataset × Db
  unfolding add_columns_checks persist
  add_columns name new_columns now db =
      unless_error (add_columns_checks name new_columns now db) db (λ next. persist next next db)

  module _ {F : Type 0} (numbers : Numbers F) where
    -- The definition of a dataset that a first record asks for.
    unfoldable pub inferred : String → Sample F → Dataset
    inferred name sample =
        let columns = infer_columns numbers sample in
        record {
          name = name;
          columns = columns;
          order_by =
              if is_defined "received_at_unix_ms" columns then "received_at_unix_ms" ∷ [] else [];
          partition_by_column = "";
          ttl_days = pos 0;
          version = 0;
          created_at = 0;
          updated_at = 0;
        }

    ensure_result : Result Dataset × Db → Result (Dataset × Bool) × Db
    ensure_result (ok created, db) = (ok (created, true), db)
    ensure_result (err e, db) = (err e, db)

    ensure_from : Result Dataset → String → Sample F → ℕ → Db → Result (Dataset × Bool) × Db
    unfolding ensure_result inferred
    ensure_from (ok existing) name sample now db = (ok (existing, false), db)
    ensure_from (err e) name sample now db =
        if not (Errors.is_not_found e)
        then (err e, db)
        else ensure_result (create (inferred name sample) now db)

    -- The Boolean says whether the dataset was created now.
    unfoldable pub ensure_dataset : String → Sample F → ℕ → Db → Result (Dataset × Bool) × Db
    unfolding ensure_from
    ensure_dataset name sample now db = ensure_from (get name db) name sample now db
