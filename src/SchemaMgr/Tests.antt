-- ===== src/SchemaMgr/Tests.antt =====
-- The theorems on datasets and their registry at concrete datasets (engine/schemamgr).
pub mod Memory
pub mod Floats
use hermi_nas.Prelude.{
  false, true, Bool-cases, inl, inr, str_eq, subst, eq_iff, Bool, List, Option, String, [], arith,
  codes, none, refl, some, suc, zero, ℕ, ◌++◌, ◌+◌, ◌↔◌, ◌∷◌, ◌≡◌, ◌≢◌,
}
use hermi_nas.Prelude.Int.{pos}
use hermi_nas.SchemaMgr.Tests.Floats.{Halves, halves, halves-Laws}
use hermi_nas.Api.Routes.{datasets}
use hermi_nas.SchemaMgr.Infer.Typed.{IsTyped, infer_columns-IsTyped}
use hermi_nas.SchemaMgr.Infer.Order.{infer_columns_unique}
use hermi_nas.SchemaMgr.Infer.Sample.{value_at, find-infer_columns, infer_columns-DistinctNames}
use hermi_nas.Kernel.Errors
use hermi_nas.Kernel.Errors.{Result, ok, err, Error}
use hermi_nas.SchemaMgr.Dataset.{Column, Dataset, validate, check_backward_compatible, find_column}
use hermi_nas.SchemaMgr.Dataset.WellFormed.{IsWellFormed, validate_iff, DistinctNames}
use hermi_nas.SchemaMgr.Dataset.Compatible.{
  KeepsAll, check_backward_compatible_iff, check_backward_compatible_trans,
}
use hermi_nas.SchemaMgr.Ddl.{quote_ident, Text}
use hermi_nas.SchemaMgr.Ddl.Quoting.{read_ident, read-quote_ident}
use hermi_nas.SchemaMgr.Infer.{Json, Sample, infer_columns, infer_column}
use hermi_nas.SchemaMgr.Database.{Database}
use hermi_nas.SchemaMgr.Http
use hermi_nas.SchemaMgr.Http.{CreateRequest}
use hermi_nas.SchemaMgr.Http.Answers.{create-get, create_conflict}
use hermi_nas.SchemaMgr.Store.{
  create, ensure_dataset, extended, stamped, inferred, add_columns_checks,
}
use hermi_nas.SchemaMgr.Store.Atomic.{create-IsWritten, create_existing}
use hermi_nas.SchemaMgr.Store.Evolve.{add_columns_checks_stored, ensure_dataset_lem}
use hermi_nas.SchemaMgr.Tests.Memory.{Tables, memory}

abbrev column : String → String → Column
column name type = record { name = name; type = type; nullable = false }

abbrev events : Dataset
events = record {
  name = "events";
  columns = column "id" "Int64" ∷ column "at" "DateTime" ∷ [];
  order_by = "id" ∷ [];
  partition_by_column = "at";
  ttl_days = pos 30;
  version = 0;
  created_at = 0;
  updated_at = 0;
}

abbrev more : List Column
more = column "user" "String" ∷ []

abbrev grown : Dataset
grown = record events { columns = events.columns ++ more }

validate_iff_example : (validate events ≡ ok tt) ↔ IsWellFormed events
validate_iff_example = validate_iff events

check_backward_compatible_iff_example :
    (check_backward_compatible events grown ≡ ok tt) ↔ KeepsAll events.columns grown.columns
check_backward_compatible_iff_example = check_backward_compatible_iff events grown

-- A reader that takes a backslash away.
abbrev unescaped : ℕ → ℕ
unescaped c = c

read-quote_ident_example :
    read_ident unescaped (quote_ident "a`b" ++ codes " String")
    ≡ some (codes "a`b", codes " String")
read-quote_ident_example =
    read-quote_ident unescaped "a`b" (codes " String") (ground arith) (ground arith)

-- A sample with a whole number and another.
abbrev sample : Sample Halves
sample =
    ("user", Json.string "ann")
    ∷ ("id", Json.number (pos 0, false))
    ∷ ("load", Json.number (pos 1, true))
    ∷ []

abbrev empty : Tables
empty = record { names = []; datasets = λ name. none; rows = λ name. [] }

-- The registry with that dataset.
abbrev one : Tables
unfolding create
one = (create memory events 1 empty).1

abbrev next : Dataset
next = extended memory (stamped memory events 1) more 3

-- The entries of one map, in another order.
abbrev reordered : Sample Halves
reordered =
    ("load", Json.number (pos 1, true))
    ∷ ("user", Json.string "ann")
    ∷ ("id", Json.number (pos 0, false))
    ∷ []

same_entries : (k : String) → value_at k sample ≡ value_at k reordered
same_entries k = elim (Bool-cases (str_eq "load" k)) [
  | inl q ↦ subst (λ j. value_at j sample ≡ value_at j reordered) ((eq_iff "load" k).0 q) refl
  | inr q ↦ rw q refl
]

infer_columns_unique_example : infer_columns halves sample ≡ infer_columns halves reordered
infer_columns_unique_example =
    infer_columns_unique halves sample reordered (refl, (refl, (refl, tt)))
      (refl, (refl, (refl, tt))) same_entries

infer_columns-IsTyped_example : IsTyped halves (infer_columns halves sample) sample
infer_columns-IsTyped_example =
    infer_columns-IsTyped halves halves-Laws sample (refl, (refl, (refl, tt)))
