-- ===== src/SchemaMgr/Dataset.antt =====
-- Dataset definitions and their checks, engine/schemamgr/dataset.go.
pub mod WellFormed
pub mod Compatible
use hermi_nas.Prelude.{
  Bool, List, Option, String, [], false, if◌then◌else◌, none, not, put, some, str_eq, true, ℕ, ◌&&◌,
  ◌||◌, ◌∷◌,
}
use hermi_nas.Prelude.Int.{ℤ, is_pos}
use hermi_nas.Kernel.Errors
use hermi_nas.Kernel.Errors.{◌>>=◌, ◌>>◌, Message, Error, Result, ok, err}

pub record Column : Type 0 where
  pub name : String
  pub type : String
  pub nullable : Bool

pub record Dataset : Type 0 where
  pub name : String
  pub columns : List Column
  pub order_by : List String
  pub partition_by_column : String
  pub ttl_days : ℤ
  pub version : ℕ
  pub created_at : ℕ
  pub updated_at : ℕ

-- `d.column(name)`: the first column of the name.
unfoldable pub find_column : String → List Column → Option Column
find_column name [] = none
find_column name (c ∷ cs) = if str_eq c.name name then some c else find_column name cs

abbrev pub invalid : String → List Errors.Arg → Error
invalid format args = Errors.coded Errors.invalid_argument (record { format = format; args = args })

abbrev pub check : Bool → Error → Result (Unit {0})
check true e = ok tt
check false e = err e

-- The loop over the columns; `seen` is the map of the names met.
unfoldable pub check_columns : List Column → (String → Bool) → Result (Unit {0})
check_columns [] seen = ok tt
check_columns (c ∷ cs) seen = do
  check (not (str_eq c.name "" || str_eq c.type ""))
      (invalid "column name and type are required" [])
  check (not (seen c.name)) (invalid "duplicate column %q" (Errors.str c.name ∷ []))
  check_columns cs (put c.name true seen)

abbrev pub is_defined : String → List Column → Bool
is_defined name cs = elim (find_column name cs) [ none ↦ false | some _ ↦ true ]

unfoldable pub check_order_by : List Column → List String → Result (Unit {0})
unfolding find_column
check_order_by cs [] = ok tt
check_order_by cs (ob ∷ obs) = do
  check (is_defined ob cs) (invalid "order_by column %q not defined" (Errors.str ob ∷ []))
  check_order_by cs obs

unfoldable pub is_nil {ℓ} : {A : Type ℓ} → List A → Bool
is_nil [] = true
is_nil (x ∷ xs) = false

unfoldable pub validate : Dataset → Result (Unit {0})
unfolding check_columns check_order_by is_nil
validate d = do
  check (not (str_eq d.name "")) (invalid "dataset name is required" [])
  check (not (is_nil d.columns)) (invalid "dataset must have at least one column" [])
  check_columns d.columns (λ _. false)
  check_order_by d.columns d.order_by
  check (str_eq d.partition_by_column "" || is_defined d.partition_by_column d.columns)
      (invalid "partition_by_column %q not defined" (Errors.str d.partition_by_column ∷ []))
  check (not (is_pos d.ttl_days && str_eq d.partition_by_column ""))
      (invalid "ttl_days requires partition_by_column (TTL needs a date/time column)" [])

abbrev pub bool_eq : Bool → Bool → Bool
bool_eq true b = b
bool_eq false b = not b

-- One round of `CheckBackwardCompatible`, with what `next.column` found.
unfoldable pub check_column : Column → Option Column → Result (Unit {0})
check_column old none = err (invalid "cannot remove column %q" (Errors.str old.name ∷ []))
check_column old (some new) = do
  check (str_eq new.type old.type) (
      invalid "cannot change column %q type from %s to %s"
        (Errors.str old.name ∷ Errors.str old.type ∷ Errors.str new.type ∷ []))
  check (not (not (bool_eq new.nullable old.nullable) && old.nullable))
      (invalid "cannot make column %q non-nullable" (Errors.str old.name ∷ []))

unfoldable pub check_columns_kept : List Column → List Column → Result (Unit {0})
unfolding check_column find_column
check_columns_kept [] next = ok tt
check_columns_kept (old ∷ previous) next = do
  check_column old (find_column old.name next)
  check_columns_kept previous next

unfoldable pub check_backward_compatible : Dataset → Dataset → Result (Unit {0})
unfolding check_columns_kept
check_backward_compatible previous next = check_columns_kept previous.columns next.columns
