-- ===== src/SchemaMgr/Infer/Typed.antt =====
-- The types of the inferred columns against the values of the sample (engine/schemamgr/infer.go).
use hermi_nas.Prelude.{
  Bool-cases, List, String, ap, false, inl, inr, none, refl, some, some_injective, subst, sym, true,
  ◌<◌, ◌^◌, ◌∙◌, ◌≡◌, ◌≢◌, ◌≤◌, ◌⊎◌,
}
use hermi_nas.Prelude.Int.{ℤ}
use hermi_nas.SchemaMgr.Dataset.{Column, find_column}
use hermi_nas.SchemaMgr.Infer.{
  Json, Numbers, Sample, bool, infer_column, infer_columns, infer_type, nested, null, number,
  string,
}
use hermi_nas.SchemaMgr.Infer.Sample.{DistinctKeys, find-infer_columns, value_at}

-- The integers up to 2^53, which a `float64` holds exactly.
pub IsExact : ℤ → Type 0
IsExact (ℤ.pos n) = n ≤ 2 ^ 53
IsExact (ℤ.negsuc n) = n < 2 ^ 53

-- What the inference relies on of the conversions, on every platform: equal numbers are cut to one
-- integer, and an integer that is held exactly comes back.
pub record Laws {F : Type 0} (N : Numbers F) : Type 0 where
  pub int64-float64 : (n : ℤ) → IsExact n → N.int64 (N.float64 n) ≡ n
  pub int64-equal : (f g : F) → N.equal f g ≡ true → N.int64 f ≡ N.int64 g

module _ {F : Type 0} (N : Numbers F) where
  -- The values that a column of ClickHouse takes: in `Int64` only the numbers that equal an integer.
  -- Objects and arrays go in as their text.
  pub Takes : Column → Json F → Type 0
  Takes c null = c.nullable ≡ true
  Takes c (bool b) = c.type ≡ "Bool"
  Takes c (number f) =
      (c.type ≡ "Float64") ⊎ ((c.type ≡ "Int64") × ((n : ℤ) × (N.equal f (N.float64 n) ≡ true)))
  Takes c (string s) = c.type ≡ "String"
  Takes c nested = c.type ≡ "String"

  -- The columns take the values of the record, and are columns of its keys alone. A column of a whole
  -- number is one of integers, and only a null makes its column nullable.
  pub record IsTyped (cs : List Column) (sample : Sample F) : Type 0 where
    pub taken :
        (k : String) (v : Json F)
        → value_at k sample ≡ some v
        → (c : Column) × (find_column k cs ≡ some c) × Takes c v
    pub only : (k : String) → value_at k sample ≡ none → find_column k cs ≡ none
    pub whole :
        (k : String) (f : F) (n : ℤ) (c : Column)
        → value_at k sample ≡ some (number f)
        → IsExact n
        → N.equal f (N.float64 n) ≡ true
        → find_column k cs ≡ some c
        → c.type ≡ "Int64"
    pub plain :
        (k : String) (v : Json F) (c : Column)
        → value_at k sample ≡ some v
        → v ≢ null
        → find_column k cs ≡ some c
        → c.nullable ≡ false

  infer_column-Takes : (k : String) (v : Json F) → Takes (infer_column N k v) v
  unfolding Takes infer_column infer_type
  infer_column-Takes k null = refl
  infer_column-Takes k (bool b) = refl
  infer_column-Takes k (number f) = elim (Bool-cases (N.equal f (N.float64 (N.int64 f)))) [
    | inl e ↦ inr (rw e refl, (N.int64 f, e))
    | inr e ↦ inl (rw e refl)
  ]
  infer_column-Takes k (string s) = refl
  infer_column-Takes k nested = refl

  infer_column-plain : (k : String) (v : Json F) → v ≢ null → (infer_column N k v).nullable ≡ false
  unfolding infer_column
  infer_column-plain k null real = absurd (real refl)
  infer_column-plain k (bool b) real = refl
  infer_column-plain k (number f) real = refl
  infer_column-plain k (string s) real = refl
  infer_column-plain k nested real = refl

  infer_column-whole :
      (L : Laws N) (k : String) (f : F) (n : ℤ)
      → IsExact n
      → N.equal f (N.float64 n) ≡ true
      → (infer_column N k (number f)).type ≡ "Int64"
  unfolding infer_column infer_type
  infer_column-whole L k f n exact e =
      let back : N.int64 f ≡ n = L.int64-equal f (N.float64 n) e ∙ L.int64-float64 n exact in
      let same : N.equal f (N.float64 (N.int64 f)) ≡ true =
        ap (λ m. N.equal f (N.float64 m)) back ∙ e in
      rw same refl

  -- Where the conversions fulfil the laws: the columns inferred from the entries of a map take its
  -- values, so that an `Int64` column is inferred only for a number that equals an integer, and are
  -- columns of its keys alone. A number that equals an integer of at most 2^53 in size gets an `Int64`
  -- column, and only a null a nullable one.
  pub infer_columns-IsTyped :
      (L : Laws N) (sample : Sample F)
      → DistinctKeys sample
      → IsTyped (infer_columns N sample) sample
  infer_columns-IsTyped L sample distinct =
      let found = find-infer_columns N sample distinct in
      let inferred : (k : String) (v : Json F) (c : Column)
          → value_at k sample ≡ some v
          → find_column k (infer_columns N sample) ≡ some c
          → infer_column N k v ≡ c =
        λ k v c e f. some_injective (sym (rw e refl) ∙ sym (found k) ∙ f) in
      record {
        taken = λ k v e. (infer_column N k v, found k ∙ rw e refl, infer_column-Takes k v);
        only = λ k e. found k ∙ rw e refl;
        whole = λ k f n c e exact q there.
            subst (λ x. x.type ≡ "Int64") (inferred k (number f) c e there)
              (infer_column-whole L k f n exact q);
        plain = λ k v c e real there.
            subst (λ x. x.nullable ≡ false) (inferred k v c e there) (infer_column-plain k v real);
      }
