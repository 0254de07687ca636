-- ===== src/SchemaMgr/Dataset/WellFormed.antt =====
-- `Validate` accepts exactly the well-formed definitions (engine/schemamgr/dataset.go).
use hermi_nas.Prelude.{
  All, Bool, List, String, [], ap, arith, eq_iff, false, none, put, refl, true, ◌<◌, ◌↔◌, ◌∷◌, ◌≡◌,
  ◌≢◌,
}
use text.Mathlib.TextPositions.{eq_refl}
use hermi_nas.Prelude.Int.{pos_part}
use hermi_nas.Kernel.Errors.{ok}
use hermi_nas.SchemaMgr.Dataset.{
  Column, Dataset, find_column, check_columns, check_order_by, is_defined, validate,
}

-- No two columns have one name.
abbrev pub DistinctNames : List Column → Type 0
DistinctNames [] = Unit
DistinctNames (c ∷ cs) = (find_column c.name cs ≡ none) × DistinctNames cs

pub record IsWellFormed (d : Dataset) : Type 0 where
  pub named : d.name ≢ ""
  pub filled : d.columns ≢ []
  pub complete : All (λ c. (c.name ≢ "") × (c.type ≢ "")) d.columns
  pub distinct : DistinctNames d.columns
  pub order_by : All (λ o. is_defined o d.columns ≡ true) d.order_by
  pub partition : d.partition_by_column ≢ "" → is_defined d.partition_by_column d.columns ≡ true
  pub ttl : 0 < pos_part d.ttl_days → d.partition_by_column ≢ ""

-- What the loop over the columns accepts, for any map of names met before.
record Accepts (cs : List Column) (seen : String → Bool) : Type 0 where
  complete : All (λ c. (c.name ≢ "") × (c.type ≢ "")) cs
  distinct : DistinctNames cs
  unseen : (k : String) → seen k ≡ true → find_column k cs ≡ none

check_columns-Accepts :
    (cs : List Column) (seen : String → Bool) → check_columns cs seen ≡ ok tt → Accepts cs seen
unfolding check_columns find_column
check_columns-Accepts [] seen h = record { complete = tt; distinct = tt; unseen = λ k e. refl }
check_columns-Accepts (c ∷ cs) seen h =
    let rest : check_columns cs (put c.name true seen) ≡ ok tt = ground arith in
    let a = check_columns-Accepts cs (put c.name true seen) rest in
    record {
      complete = ((ground (arith, eq_iff c.name ""), ground (arith, eq_iff c.type "")), a.complete);
      distinct = (a.unseen c.name (rw eq_refl), a.distinct);
      unseen = λ k e. ground (arith, a.unseen k, eq_iff c.name k, λ (q : c.name ≡ k). ap seen q);
    }

Accepts-check_columns :
    (cs : List Column) (seen : String → Bool) → Accepts cs seen → check_columns cs seen ≡ ok tt
unfolding check_columns find_column
Accepts-check_columns [] seen a = refl
Accepts-check_columns (c ∷ cs) seen a =
    let new : seen c.name ≡ false = ground (arith, a.unseen c.name, eq_iff c.name c.name) in
    let rest : Accepts cs (put c.name true seen) = record {
      complete = a.complete.1;
      distinct = a.distinct.1;
      unseen = λ k e. ground (
        arith,
        a.unseen k,
        a.distinct.0,
        eq_iff c.name k,
        λ (q : c.name ≡ k). ap (λ n. find_column n cs) q,
      );
    } in
    ground (
      arith,
      a.complete.0.0,
      a.complete.0.1,
      eq_iff c.name "",
      eq_iff c.type "",
      new,
      Accepts-check_columns cs (put c.name true seen) rest,
    )

check_order_by_iff :
    (cs : List Column) (obs : List String)
    → (check_order_by cs obs ≡ ok tt) ↔ All (λ o. is_defined o cs ≡ true) obs
unfolding check_order_by
check_order_by_iff cs [] = (λ _. tt, λ _. refl)
check_order_by_iff cs (o ∷ obs) =
    let (to, from) = check_order_by_iff cs obs in
    (λ h. (ground arith, to (ground arith)), λ h. ground (arith, h.0, from h.1))

module _ (d : Dataset) where
  validate-IsWellFormed : validate d ≡ ok tt → IsWellFormed d
  unfolding validate
  validate-IsWellFormed h =
      let cols : check_columns d.columns (λ _. false) ≡ ok tt = ground arith in
      let a = check_columns-Accepts d.columns (λ _. false) cols in
      record {
        named = ground (arith, eq_iff d.name "");
        filled = ground arith;
        complete = a.complete;
        distinct = a.distinct;
        order_by = (check_order_by_iff d.columns d.order_by).0 (ground arith);
        partition = ground (arith, eq_iff d.partition_by_column "");
        ttl = ground (arith, eq_iff d.partition_by_column "");
      }

  IsWellFormed-validate : IsWellFormed d → validate d ≡ ok tt
  unfolding validate
  IsWellFormed-validate w =
      let a : Accepts d.columns (λ _. false) = record {
        complete = w.complete;
        distinct = w.distinct;
        unseen = λ k e. cc;
      } in
      ground (
        arith,
        w.named,
        w.filled,
        w.partition,
        w.ttl,
        eq_iff d.name "",
        eq_iff d.partition_by_column "",
        Accepts-check_columns d.columns (λ _. false) a,
        (check_order_by_iff d.columns d.order_by).1 w.order_by,
      )

-- `Validate` accepts a definition exactly if it has a name and columns, each column has a name and
-- a type and no two have one name, every sort key and the partition column, if there is one, are
-- columns of it, and a ttl comes with a partition column.
pub validate_iff : (d : Dataset) → (validate d ≡ ok tt) ↔ IsWellFormed d
validate_iff d = (validate-IsWellFormed d, IsWellFormed-validate d)
