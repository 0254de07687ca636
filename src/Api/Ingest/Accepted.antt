-- ===== src/Api/Ingest/Accepted.antt =====
-- What an answer of the ingestion promises (`ingestHandler` of engine/api/routes.go).
use hermi_nas.Prelude.{
  All, Bool, Bool-cases, List, Option, Option-cases, String, [], ap, arith, if◌then◌else◌, inl, inr,
  keep_if, length, none, not, refl, some, str_eq, subst, suc, true, ℕ, ◌∙◌, ◌∷◌, ◌≡◌, ◌≢◌,
}
use text.Mathlib.TextPositions.{eq_refl}
use hermi_nas.Kernel.Errors.{Error, Result, Bytes, ok, Result-cases}
use hermi_nas.SchemaMgr.Infer.{Numbers, Json, Sample, number}
use hermi_nas.SchemaMgr.Dataset.{Dataset}
use hermi_nas.SchemaMgr.Store.Evolve.{ensure_dataset_lem}
use hermi_nas.SchemaMgr.Database.{Database, Laws}
use hermi_nas.SchemaMgr.Ddl.{Text}
use hermi_nas.SchemaMgr.Store
use hermi_nas.Auth.Database.{Backend}
use hermi_nas.Auth.Middleware.{served}
use hermi_nas.Api.ClickHouse.{Client, insert}
use hermi_nas.Api.World.{World}
use hermi_nas.Api.Ingest.{
  Read, records, bad_line, panics, read_lines, set_entry, with_record, is_empty, trim_space,
  read_body, ingest, scan, ingest_read, max_token,
}
use hermi_nas.Api.Ingest.Stored.{stored_lem}

-- What Go's `r[key]` finds.
pub entry : {F : Type 0} → String → Sample F → Option (Json F)
entry key [] = none
entry key ((k, v) ∷ sample) = let rest = entry key sample in if str_eq k key then some v else rest

entry-set_entry :
    {F : Type 0} (key : String) (v : Json F) (r : Sample F) → entry key (set_entry key v r) ≡ some v
unfolding entry set_entry
entry-set_entry key v [] = ground (arith, eq_refl key)
entry-set_entry key v ((k, x) ∷ r) = ground (arith, entry-set_entry key v r)

-- A record that says when it was received.
pub HasTime : {F : Type 0} → Sample F → Type 0
HasTime {F} r = (t : F) × (entry "received_at_unix_ms" r ≡ some (number t))

pub not_blank : Bytes → Bool
not_blank line = not (is_empty (trim_space line))

records_injective : {F : Type 0} {a b : List (Sample F)} → records a ≡ records b → a ≡ b
records_injective h = cc

module _ {F : Type 0} (unmarshal : Bytes → Result (Option (Sample F))) (clock : ℕ → F) where
  with_record-records :
      (r : Sample F) (read : Read F) {rs : List (Sample F)}
      → with_record r read ≡ records rs
      → (rest : List (Sample F)) × (read ≡ records rest) × (r ∷ rest ≡ rs)
  with_record-records r (records rest) h = (rest, refl, records_injective h)
  with_record-records r (bad_line e) h = cc
  with_record-records r panics h = cc

  read_lines_lem :
      (lines : List Bytes) {rs : List (Sample F)}
      → read_lines unmarshal clock lines ≡ records rs
      → (length rs ≡ length (keep_if not_blank lines)) × All HasTime rs
  unfolding read_lines not_blank HasTime
  read_lines_lem [] {rs} h =
      subst (λ x. (length x ≡ 0) × All HasTime x) (records_injective h) (refl, tt)
  read_lines_lem (line ∷ lines) {rs} h = elim (Bool-cases (is_empty (trim_space line))) [
    | inl blank ↦ rw blank (read_lines_lem lines (rw (read_lines, blank) at h))
    | inr q ↦ elim (Result-cases (unmarshal (trim_space line))) [
      | inr (e, f) ↦ absurd (ground (arith, q, f))
      | inl (o, f) ↦ elim (Option-cases o) [
        | inl z ↦ absurd (ground (arith, q, f, z))
        | inr (r, z) ↦
            let stamped = set_entry "received_at_unix_ms" (number (clock (length lines))) r in
            let (rest, rest_read, same) =
              with_record-records stamped (read_lines unmarshal clock lines)
                (rw (read_lines, q, f, z) at h) in
            let (count, times) = read_lines_lem lines rest_read in
            rw q (
              subst (λ x. (length x ≡ suc (length (keep_if not_blank lines))) × All HasTime x) same
                (
                  ap suc count,
                  (
                    (
                      clock (length lines),
                      entry-set_entry "received_at_unix_ms" (number (clock (length lines))) r,
                    ),
                    times,
                  ),
                ))
      ]
    ]
  ]

module _ {F : Type 0} (D : Database) (L : Laws D) (numbers : Numbers F) where
  ensured_readable :
      (name : String) (r : Sample F) (now : ℕ) (db : D.Db) {d : Dataset} {created : Bool}
      → let done = Store.ensure_dataset D numbers name r now db in
        done.0 ≡ ok (d, created) → Store.get D name done.1 ≡ ok d
  unfolding Store.inferred
  ensured_readable name r now db {d} h = elim (ensure_dataset_lem D L numbers name r now db h) [
    | inl (new, stamped, written) ↦
        subst (λ n. Store.get D n (Store.ensure_dataset D numbers name r now db).1 ≡ ok d)
          (ap (λ x. x.name) stamped) written.reads
    | inr (old, there, same) ↦ ap (λ x. Store.get D name x) same ∙ there
  ]

module _ {F C : Type 0} (D : Database) (L : Laws D) (B : Backend) (numbers : Numbers F)
    (ddl : Option (Text → C → Option Error × C)) (client : Client C)
    (encode : Sample F → Result Bytes) (unmarshal : Bytes → Result (Option (Sample F)))
    (clock : ℕ → F) (name : String) (body : Bytes) (now : ℕ) (w : World D B C) where
  -- What a request has done whose answer is 202 with a count, for the world that it leaves.
  pub record IsIngested (count : ℕ) (w' : World D B C) : Type 0 where
    pub rs : List (Sample F)
    pub were_read : read_body unmarshal clock body ≡ records rs
    pub counted : count ≡ length rs
    pub lines : length rs ≡ length (keep_if not_blank (scan max_token body).0)
    pub timed : All HasTime rs
    pub dataset : (d : Dataset) × (Store.get D name w'.registry ≡ ok d)
    pub sent : (c : C) × (insert client encode name rs c ≡ (none, w'.clickhouse))
    pub table : ddl ≢ none → w'.ensured name ≡ true
    pub accounts : w'.accounts ≡ w.accounts

  read-IsIngested :
      (read : Read F) {count : ℕ}
      → read_body unmarshal clock body ≡ read
      → let done = ingest_read D B numbers ddl client encode name read now w in
        done.0 ≡ served 202 count → IsIngested count done.1
  unfolding ingest_read read_body
  read-IsIngested panics e h = cc
  read-IsIngested (bad_line x) e h = cc
  read-IsIngested (records []) e h = cc
  read-IsIngested (records (r ∷ rest)) e h =
      let (result, db) = Store.ensure_dataset D numbers name r now w.registry in
      let (count_is, (d, created, made), sent, kept, same, table) =
        stored_lem D B numbers ddl client encode name (r ∷ rest) result (record w { registry = db })
          h in
      let (counted, times) = read_lines_lem unmarshal clock (scan max_token body).0 e in
      record {
        rs = r ∷ rest;
        were_read = e;
        counted = count_is;
        lines = counted;
        timed = times;
        dataset = (
          d,
          ap (λ x. Store.get D name x) kept
              ∙ ensured_readable D L numbers name r now w.registry made,
        );
        sent = sent;
        table = table;
        accounts = same;
      }

  -- Over every registry that fulfils the laws: where `ingestHandler` answers 202, the count that it
  -- answers is that of the lines the scanner gave that are not blank; each was read as a record, and
  -- has a number under `received_at_unix_ms`; the records were sent to ClickHouse in one insert that
  -- gave no error; the dataset can be read from the registry, and with an executor of DDL its table
  -- is known to exist; users and tokens are as they were.
  pub ingest-IsIngested :
      {count : ℕ}
      → let done = ingest D B numbers ddl client encode unmarshal clock name body now w in
        done.0 ≡ served 202 count → IsIngested count done.1
  unfolding ingest
  ingest-IsIngested h = read-IsIngested (read_body unmarshal clock body) refl h
