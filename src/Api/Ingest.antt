-- ===== src/Api/Ingest.antt =====
-- `ingestHandler` of engine/api/routes.go.
-- A record is a sample: the entries of its map, in some order of Go's `range`. `json.Unmarshal` of
-- a line into a map is a parameter, which gives no map for `null`.
pub mod Stored
pub mod Kept
pub mod Accepted
use hermi_nas.Prelude.{
  Bool, List, Option, String, [], if◌then◌else◌, length, none, put, some, str_eq, true, ℕ, ◌∷◌,
}
use hermi_nas.Lines.{scan, trim_space, is_empty}
use hermi_nas.Kernel.Errors.{Error, Result, Bytes, ok, err}
use hermi_nas.SchemaMgr.Infer.{Numbers, Json, Sample, number}
use hermi_nas.SchemaMgr.Dataset.{Dataset}
use hermi_nas.SchemaMgr.Database.{Database}
use hermi_nas.SchemaMgr.Ddl.{Text, generate_ddl}
use hermi_nas.SchemaMgr.Store
use hermi_nas.Auth.Database.{Backend}
use hermi_nas.Auth.Middleware.{Response, refused, failed, served, aborted}
use hermi_nas.Api.ClickHouse.{Client, insert}
use hermi_nas.Api.World.{World}

-- The map with the value under the key.
unfoldable pub set_entry : {F : Type 0} → String → Json F → Sample F → Sample F
set_entry key v [] = (key, v) ∷ []
set_entry key v ((k, x) ∷ sample) =
    let rest = set_entry key v sample in if str_eq k key then (k, v) ∷ sample else (k, x) ∷ rest

-- What the loop over the lines ends with; an assignment to a nil map panics.
pub data Read (F : Type 0) : Type 0 where
  records : List (Sample F) → Read F
  bad_line : Error → Read F
  panics : Read F

abbrev pub with_record : {F : Type 0} → Sample F → Read F → Read F
with_record r (records rs) = records (r ∷ rs)
with_record r (bad_line e) = bad_line e
with_record r panics = panics

-- bufio.MaxScanTokenSize
abbrev pub max_token : ℕ
max_token = 65536

-- `clock` gives the milliseconds, as a float, that `time.Now()` reads at the line that so many
-- lines follow.
module _ {F : Type 0} (unmarshal : Bytes → Result (Option (Sample F))) (clock : ℕ → F) where
  unfoldable pub read_lines : List Bytes → Read F
  unfolding set_entry
  read_lines [] = records []
  read_lines (line ∷ lines) =
      let rest = read_lines lines in
      if is_empty (trim_space line) then rest else elim (unmarshal (trim_space line)) [
        | err e ↦ bad_line e
        | ok none ↦ panics
        | ok (some r) ↦
            with_record (set_entry "received_at_unix_ms" (number (clock (length lines))) r) rest
      ]

  -- The handler does not ask the scanner why it stopped.
  unfoldable pub read_body : Bytes → Read F
  unfolding read_lines
  read_body body = read_lines (scan max_token body).0

module _ {F C : Type 0} (D : Database) (B : Backend) (numbers : Numbers F)
    (ddl : Option (Text → C → Option Error × C)) (client : Client C)
    (encode : Sample F → Result Bytes) where
  -- The table, for a dataset that is not known to have one.
  unfoldable pub ensure_table : String → Dataset → World D B C → Option Error × World D B C
  ensure_table name d w = elim ddl [
    | none ↦ (none, w)
    | some exec ↦
        if w.ensured name
        then (none, w)
        else let (failure, c) = exec (generate_ddl d) w.clickhouse in
          elim failure [
            | some e ↦ (some e, record w { clickhouse = c })
            | none ↦ (none, record w { clickhouse = c; ensured = put name true w.ensured })
          ]
  ]

  unfoldable pub insert_records : String → List (Sample F) → World D B C → Response ℕ × World D B C
  insert_records name rs w =
      let (failure, c) = insert client encode name rs w.clickhouse in
      (
        elim failure [ some e ↦ failed 500 "insert failed: " e | none ↦ served 202 (length rs) ],
        record w { clickhouse = c },
      )

  unfoldable pub store_records :
      String → List (Sample F) → Result (Dataset × Bool) → World D B C → Response ℕ × World D B C
  unfolding ensure_table insert_records
  store_records name rs (err e) w = (failed 500 "ensure dataset: " e, w)
  store_records name rs (ok (d, created)) w =
      let (failure, w') = ensure_table name d w in
      elim failure [
        | some e ↦ (failed 500 "create clickhouse table: " e, w')
        | none ↦ insert_records name rs w'
      ]

  -- From the lines that were read on.
  unfoldable pub ingest_read : String → Read F → ℕ → World D B C → Response ℕ × World D B C
  unfolding store_records
  ingest_read name panics now w = (aborted, w)
  ingest_read name (bad_line e) now w = (failed 400 "invalid JSON line: " e, w)
  ingest_read name (records []) now w = (refused 400 "no records in request body", w)
  ingest_read name (records (r ∷ rs)) now w =
      let (result, db) = Store.ensure_dataset D numbers name r now w.registry in
      store_records name (r ∷ rs) result (record w { registry = db })

  unfoldable pub ingest :
      (Bytes → Result (Option (Sample F)))
      → (ℕ → F)
      → String
      → Bytes
      → ℕ
      → World D B C
      → Response ℕ × World D B C
  unfolding read_body ingest_read
  ingest unmarshal clock name body now w = ingest_read name (read_body unmarshal clock body) now w
