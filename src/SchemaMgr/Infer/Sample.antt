-- ===== src/SchemaMgr/Infer/Sample.antt =====
-- What the inferred columns say of the sample (engine/schemamgr/infer.go).
use hermi_nas.Prelude.{
  Bool-cases, List, Option, String, [], ap, arith, eq_iff, if◌then◌else◌, inl, inr, none, refl,
  some, str_eq, ◌∙◌, ◌∷◌, ◌≡◌,
}
use Prim.Native.String.{compare}
use text.Mathlib.Text.{is_lt}
use hermi_nas.SchemaMgr.Dataset.{Column, find_column}
use hermi_nas.SchemaMgr.Dataset.WellFormed.{DistinctNames}
use hermi_nas.SchemaMgr.Infer.{Numbers, Json, Sample, infer_column, insert_column, infer_columns}

module _ {F : Type 0} where
  abbrev pub value_at : String → Sample F → Option (Json F)
  value_at k [] = none
  value_at k ((j, v) ∷ sample) = if str_eq j k then some v else value_at k sample

  -- The keys of a map: no two are equal.
  abbrev pub DistinctKeys : Sample F → Type 0
  DistinctKeys [] = Unit
  DistinctKeys ((k, v) ∷ sample) = (value_at k sample ≡ none) × DistinctKeys sample

find-insert_column :
    (k : String) (c : Column) (cs : List Column)
    → find_column c.name cs ≡ none
    → find_column k (insert_column c cs) ≡ (if str_eq c.name k then some c else find_column k cs)
unfolding find_column insert_column
find-insert_column k c [] h = refl
find-insert_column k c (x ∷ xs) h =
    ground
      (arith, find-insert_column k c xs, eq_iff c.name k, eq_iff x.name k, eq_iff x.name c.name)

insert_column-DistinctNames :
    (c : Column) (cs : List Column)
    → find_column c.name cs ≡ none
    → DistinctNames cs
    → DistinctNames (insert_column c cs)
unfolding find_column insert_column
insert_column-DistinctNames c [] h d = (refl, tt)
insert_column-DistinctNames c (x ∷ xs) h d = elim (Bool-cases (is_lt (compare x.name c.name))) [
  | inl e ↦ rw e (
    ground
        (arith, find-insert_column x.name c xs, eq_iff c.name x.name, eq_iff x.name c.name, h, d.0),
    insert_column-DistinctNames c xs (ground arith) d.1,
  )
  | inr e ↦ rw e (h, d)
]

module _ {F : Type 0} (numbers : Numbers F) where
  -- For a sample whose keys are distinct, each key has exactly the column that its value asks for,
  -- and no other name has a column.
  pub find-infer_columns :
      (sample : Sample F)
      → DistinctKeys sample
      → (k : String)
      → find_column k (infer_columns numbers sample)
        ≡ elim (value_at k sample) [ none ↦ none | some v ↦ some (infer_column numbers k v) ]
  unfolding infer_columns find_column infer_column
  find-infer_columns [] d k = refl
  find-infer_columns ((j, v) ∷ sample) d k =
      let absent : find_column j (infer_columns numbers sample) ≡ none =
        find-infer_columns sample d.1 j ∙ rw d.0 in
      find-insert_column k (infer_column numbers j v) (infer_columns numbers sample) absent
      ∙ ground (
        arith,
        find-infer_columns sample d.1 k,
        eq_iff j k,
        λ (e : j ≡ k). ap (λ n. infer_column numbers n v) e,
      )

  -- The columns inferred from the entries of a map have distinct names.
  pub infer_columns-DistinctNames :
      (sample : Sample F) → DistinctKeys sample → DistinctNames (infer_columns numbers sample)
  unfolding infer_columns infer_column
  infer_columns-DistinctNames [] d = tt
  infer_columns-DistinctNames ((j, v) ∷ sample) d =
      insert_column-DistinctNames (infer_column numbers j v) (infer_columns numbers sample)
        (find-infer_columns sample d.1 j ∙ rw d.0) (infer_columns-DistinctNames sample d.1)
