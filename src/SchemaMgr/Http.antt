-- ===== src/SchemaMgr/Http.antt =====
-- The handlers of datasets, engine/schemamgr/http.go.
-- The executor of DDL is a parameter that works on a state `C` of ClickHouse and may fail; `none`
-- is the nil executor. A decoded body is a result, whose error is that of `json.Decode`.
pub mod Answers
use hermi_nas.Prelude.{List, Option, String, if◌then◌else◌, none, some, ℕ}
use hermi_nas.Prelude.Int.{ℤ}
use hermi_nas.Kernel.Errors
use hermi_nas.Kernel.Errors.{Error, Result, ok, err}
use hermi_nas.SchemaMgr.Dataset.{Column, Dataset}
use hermi_nas.SchemaMgr.Ddl.{Text, generate_ddl, generate_alter_ddl}
use hermi_nas.SchemaMgr.Database.{Database}
use hermi_nas.SchemaMgr.Store

-- The status, and the body: a value, or the error under a text that goes before it.
pub data Reply {ℓ} (A : Type ℓ) : Type ℓ where
  answer : ℕ → A → Reply A
  error : ℕ → String → Error → Reply A

pub record CreateRequest : Type 0 where
  pub name : String
  pub columns : List Column
  pub order_by : List String
  pub partition_by_column : String
  pub ttl_days : ℤ

pub status_of : Error → ℕ
status_of e =
    if Errors.is_not_found e
    then 404
    else if Errors.is_already_exists e
    then 409
    else if Errors.is_invalid_argument e
    then 400
    else 500

write_store_error {ℓ} : {A : Type ℓ} → Error → Reply A
unfolding status_of
write_store_error e = error (status_of e) "" e

pub reply_of {ℓ} : {A : Type ℓ} → Result A → Reply A
unfolding write_store_error
reply_of (ok a) = answer 200 a
reply_of (err e) = write_store_error e

-- The definition that a request asks for; the other fields are the zero values.
unfoldable pub dataset_of : CreateRequest → Dataset
dataset_of req = record {
  name = req.name;
  columns = req.columns;
  order_by = req.order_by;
  partition_by_column = req.partition_by_column;
  ttl_days = req.ttl_days;
  version = 0;
  created_at = 0;
  updated_at = 0;
}

module _ {C : Type 0} (ddl : Option (Text → C → Option Error × C)) where
  -- The table behind a dataset that the registry has taken.
  exec_ddl {ℓ} : {A : Type ℓ} → String → ℕ → Text → A → C → Reply A × C
  exec_ddl message status text a c = elim ddl [
    | none ↦ (answer status a, c)
    | some exec ↦
        let (failure, c') = exec text c in
        elim failure [ none ↦ (answer status a, c') | some e ↦ (error 500 message e, c') ]
  ]

  module _ (D : Database) where
    pub created : Result Dataset × D.Db → C → Reply Dataset × D.Db × C
    unfolding write_store_error exec_ddl
    created (err e, db) c = (write_store_error e, db, c)
    created (ok d, db) c =
        let (reply, c') =
          exec_ddl "dataset metadata created but ClickHouse table creation failed: " 201
            (generate_ddl d) d c in
        (reply, db, c')

    unfoldable pub create : Result CreateRequest → ℕ → D.Db → C → Reply Dataset × D.Db × C
    unfolding created dataset_of
    create (err e) now db c = (error 400 "invalid JSON body: " e, db, c)
    create (ok req) now db c = created (Store.create D (dataset_of req) now db) c

    unfoldable pub evolved :
        String → List Column → Result Dataset × D.Db → C → Reply Dataset × D.Db × C
    unfolding write_store_error exec_ddl
    evolved name columns (err e, db) c = (write_store_error e, db, c)
    evolved name columns (ok d, db) c =
        let (reply, c') =
          exec_ddl "dataset metadata evolved but ClickHouse ALTER TABLE failed: " 200
            (generate_alter_ddl name columns) d c in
        (reply, db, c')

    unfoldable pub add_columns :
        String → Result (List Column) → ℕ → D.Db → C → Reply Dataset × D.Db × C
    unfolding evolved
    add_columns name (err e) now db c = (error 400 "invalid JSON body: " e, db, c)
    add_columns name (ok columns) now db c =
        evolved name columns (Store.add_columns D name columns now db) c

module _ (D : Database) where
  pub list : D.Db → Reply (List Dataset)
  unfolding reply_of
  list db = reply_of (Store.list D db)

  unfoldable pub get : String → D.Db → Reply Dataset
  unfolding reply_of
  get name db = reply_of (Store.get D name db)

  pub versions : String → D.Db → Reply (List Dataset)
  unfolding reply_of
  versions name db = reply_of (Store.versions D name db)
