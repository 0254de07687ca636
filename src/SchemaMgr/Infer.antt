-- ===== src/SchemaMgr/Infer.antt =====
-- Columns inferred from a sample record, engine/schemamgr/infer.go.
-- The numbers of JSON are `float64`: their type is a parameter `F`, with the conversions from and to
-- `int64`, whose values are integers. A sample is the list of the entries of the map, in the order in
-- which Go's `range` happens to give them.
pub mod Sample
pub mod Order
pub mod Typed
use hermi_nas.Prelude.Int.{ℤ}
use hermi_nas.Prelude.{Bool, List, String, [], false, if◌then◌else◌, true, ◌∷◌}
use Prim.Native.String.{compare}
use text.Mathlib.Text.{is_lt}
use hermi_nas.SchemaMgr.Dataset.{Column}

-- What Go has of `float64`: `int64(v)`, `float64(n)` and `v == w`.
pub record Numbers (F : Type 0) : Type 0 where
  pub int64 : F → ℤ
  pub float64 : ℤ → F
  pub equal : F → F → Bool

pub data Json (F : Type 0) : Type 0 where
  null : Json F
  bool : Bool → Json F
  number : F → Json F
  string : String → Json F
  nested : Json F  -- an object or an array

abbrev pub Sample : Type 0 → Type 0
Sample F = List (String × Json F)

abbrev pub is_null : {F : Type 0} → Json F → Bool
is_null null = true
is_null _ = false

module _ {F : Type 0} (numbers : Numbers F) where
  unfoldable pub infer_type : Json F → String
  infer_type null = "String"
  infer_type (bool b) = "Bool"
  infer_type (number v) =
      if numbers.equal v (numbers.float64 (numbers.int64 v)) then "Int64" else "Float64"
  infer_type (string s) = "String"
  infer_type nested = "String"

  unfoldable pub infer_column : String → Json F → Column
  unfolding infer_type
  infer_column name value = record {
    name = name;
    type = infer_type value;
    nullable = is_null value;
  }

-- `sort.Slice` by name. The names are the keys of a map, so no two are equal and every sort gives
-- the same list.
unfoldable pub insert_column : Column → List Column → List Column
insert_column c [] = c ∷ []
insert_column c (x ∷ xs) =
    if is_lt (compare x.name c.name) then x ∷ insert_column c xs else c ∷ x ∷ xs

module _ {F : Type 0} (numbers : Numbers F) where
  unfoldable pub infer_columns : Sample F → List Column
  unfolding insert_column infer_column
  infer_columns [] = []
  infer_columns ((name, value) ∷ sample) =
      insert_column (infer_column numbers name value) (infer_columns sample)
