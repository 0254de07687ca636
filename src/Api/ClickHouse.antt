-- ===== src/Api/ClickHouse.antt =====
-- The requests that change ClickHouse: engine/api/ddl_executor.go and engine/api/ingest.go.
-- The HTTP client and encoding/json are parameters. `post` is `client.Do` of a POST with a query,
-- which is empty for DDL, and a body, on a state `C` of ClickHouse; it gives the status and what
-- could be read of the body.
use hermi_nas.Prelude.{
  List, Option, String, [], codes, if◌then◌else◌, none, some, ℕ, ◌++◌, ◌==◌, ◌∷◌,
}
use hermi_nas.Lines.{trim_space}
use hermi_nas.Kernel.Errors
use hermi_nas.Kernel.Errors.{Error, Result, Bytes, ok, err, ◌>>=◌}
use hermi_nas.SchemaMgr.Infer.{Sample}
use hermi_nas.SchemaMgr.Ddl.{Text, escape, backtick}

pub record Client (C : Type 0) : Type 0 where
  pub bad_url : Option Error  -- `http.NewRequestWithContext`
  pub post : Text → Bytes → C → Result (ℕ × Bytes) × C

wrap_error : Errors.Code → String → Error → Error
wrap_error code text e = Errors.wrap code (record { format = text; args = [] }) e

module _ {C : Type 0} (client : Client C) where
  executed : Result (ℕ × Bytes) → Option Error
  unfolding wrap_error
  executed (err e) = some (wrap_error Errors.unavailable "clickhouse DDL request failed" e)
  executed (ok (status, body)) =
      if status == 200
      then none
      else some (
          Errors.new Errors.internal (record {
            format = "clickhouse rejected DDL: %s";
            args = Errors.text (trim_space body) ∷ [];
          }))

  -- `ClickHouseDDLExecutor.Exec`
  unfoldable pub exec : Text → C → Option Error × C
  unfolding executed
  exec ddl c = elim client.bad_url [
    | some e ↦ (some (wrap_error Errors.internal "build DDL request" e), c)
    | none ↦ let (answer, c') = client.post [] ddl c in (executed answer, c')
  ]

  inserted : Result (ℕ × Bytes) → Option Error
  unfolding wrap_error
  inserted (err e) = some (wrap_error Errors.unavailable "clickhouse insert failed" e)
  inserted (ok (status, body)) =
      if status == 200
      then none
      else some (
          Errors.new Errors.internal (record {
            format = "clickhouse returned %d: %s";
            args = Errors.num status ∷ Errors.text body ∷ [];
          }))

  unfoldable pub quote_ident : String → Text
  quote_ident name = backtick ∷ escape (codes name) ++ backtick ∷ []

  module _ {F : Type 0} (encode : Sample F → Result Bytes) where
    -- `enc.Encode` of each record, into one buffer.
    unfoldable pub encode_all : List (Sample F) → Result Bytes
    encode_all [] = ok []
    encode_all (r ∷ rs) = do line ← encode r; lines ← encode_all rs; ok (line ++ lines)

    posted : String → Bytes → C → Option Error × C
    unfolding inserted quote_ident
    posted table body c = elim client.bad_url [
      | some e ↦ (some (wrap_error Errors.internal "build insert request" e), c)
      | none ↦
          let (answer, c') =
            client.post (codes "INSERT INTO " ++ quote_ident table ++ codes " FORMAT JSONEachRow")
              body c in
          (inserted answer, c')
    ]

    -- `Inserter.Insert`
    unfoldable pub insert : String → List (Sample F) → C → Option Error × C
    unfolding encode_all posted
    insert table [] c = (none, c)
    insert table (r ∷ rs) c = elim (encode_all (r ∷ rs)) [
      | err e ↦ (some (wrap_error Errors.internal "encode record" e), c)
      | ok body ↦ posted table body c
    ]
