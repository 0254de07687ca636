-- ===== src/SchemaMgr/Database.antt =====
-- What the registry uses of SQLite and of encoding/json (engine/schemamgr/store.go): a parameter,
-- with its documented behaviour as laws.
use hermi_nas.Prelude.{
  List, Option, String, [], contains, false, if◌then◌else◌, ltb, map, none, str_eq, ℕ, ◌∷◌, ◌≡◌,
}
use hermi_nas.Kernel.Errors.{Error, Result, ok}
use hermi_nas.SchemaMgr.Dataset.{Dataset}

-- What `QueryRow(…).Scan(&definition)` gives.
pub data Selected (Definition : Type 0) : Type 0 where
  no_rows : Selected Definition
  failed : Error → Selected Definition
  found : Definition → Selected Definition

-- What a `*sql.Rows` gives: what each `Scan` reads, and what `Err()` then is.
pub record Rows (Definition : Type 0) : Type 0 where
  pub scanned : List (Result Definition)
  pub end : Option Error

pub record Database : Type 1 where
  pub Db : Type 0
  pub Definition : Type 0  -- the JSON text of a dataset
  pub encode : Dataset → Result Definition  -- json.Marshal
  pub decode : Definition → Result Dataset  -- json.Unmarshal
  -- SELECT definition FROM datasets WHERE name = ?
  pub select_definition : Db → String → Selected Definition
  -- SELECT definition FROM datasets ORDER BY name
  pub select_all : Db → Result (Rows Definition)
  -- SELECT definition FROM dataset_versions WHERE name = ? ORDER BY version ASC
  pub select_versions : Db → String → Result (Rows Definition)
  pub begin : Db → Result (Unit {0})
  -- INSERT INTO datasets … ON CONFLICT(name) DO UPDATE SET …, inside a transaction
  pub upsert_dataset : Dataset → Definition → Db → Result Db
  -- INSERT INTO dataset_versions …, inside a transaction
  pub insert_version : Dataset → Definition → Db → Result Db
  pub commit : Db → Result (Unit {0})
  -- The rows of dataset_versions of a name, by version.
  pub history : Db → String → List (ℕ × Definition)

-- A row put where its version belongs.
abbrev pub insert_row {ℓ} : {A : Type ℓ} → ℕ → A → List (ℕ × A) → List (ℕ × A)
insert_row v t [] = (v, t) ∷ []
insert_row v t ((w, u) ∷ rows) =
    if ltb w v then (w, u) ∷ insert_row v t rows else (v, t) ∷ (w, u) ∷ rows

module _ (D : Database) where
  open D use {
    Db, Definition, encode, decode, select_definition, upsert_dataset, insert_version, history,
  }

  -- What the registry relies on, of writes that succeed.
  pub record Laws : Type 0 where
    -- The strings of a dataset are texts of Unicode; bytes that are not UTF-8, which json.Marshal
    -- replaces, are in none of them.
    pub decode-encode : (d : Dataset) (t : Definition) → encode d ≡ ok t → decode t ≡ ok d
    pub select-upsert :
        (d : Dataset) (t : Definition) (db db' : Db) (name : String)
        → upsert_dataset d t db ≡ ok db'
        → select_definition db' name
          ≡ (if str_eq d.name name then found t else select_definition db name)
    pub history-upsert :
        (d : Dataset) (t : Definition) (db db' : Db) (name : String)
        → upsert_dataset d t db ≡ ok db'
        → history db' name ≡ history db name
    pub select-insert :
        (d : Dataset) (t : Definition) (db db' : Db) (name : String)
        → insert_version d t db ≡ ok db'
        → select_definition db' name ≡ select_definition db name
    pub history-insert :
        (d : Dataset) (t : Definition) (db db' : Db) (name : String)
        → insert_version d t db ≡ ok db'
        → history db' name ≡ (
            if str_eq d.name name
            then insert_row d.version t (history db name)
            else history db name)
    -- The primary key of dataset_versions is (name, version).
    pub primary_key :
        (d : Dataset) (t : Definition) (db db' : Db)
        → insert_version d t db ≡ ok db'
        → contains d.version (map (λ row. row.0) (history db d.name)) ≡ false
    pub select_versions-history :
        (db : Db) (name : String) (ts : List Definition)
        → D.select_versions db name ≡ ok (record { scanned = map ok ts; end = none })
        → ts ≡ map (λ row. row.1) (history db name)
