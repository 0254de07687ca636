-- ===== src/SchemaMgr/Dataset/Compatible.antt =====
-- Which changes of a dataset are backward compatible (engine/schemamgr/dataset.go).
use hermi_nas.Prelude.{
  All, Bool-cases, List, Option, String, [], ap, arith, eq_iff, inl, inr, none, refl, some, str_eq,
  subst, true, ◌++◌, ◌↔◌, ◌∙◌, ◌∷◌, ◌≡◌,
}
use text.Mathlib.TextPositions.{eq_refl}
use hermi_nas.Kernel.Errors.{ok}
use hermi_nas.SchemaMgr.Dataset.{
  Column, Dataset, find_column, check_column, check_columns_kept, check_backward_compatible,
}
use hermi_nas.SchemaMgr.Dataset.WellFormed.{DistinctNames}

-- The column is still there, with its type, and is nullable if it was.
pub record Kept (old : Column) (found : Option Column) : Type 0 where
  pub new : Column
  pub there : found ≡ some new
  pub same_type : new.type ≡ old.type
  pub still_nullable : old.nullable ≡ true → new.nullable ≡ true

Kept-check_column :
    (old : Column) (found : Option Column) → Kept old found → check_column old found ≡ ok tt
unfolding check_column
Kept-check_column old none k = absurd (ground (arith, k.there))
Kept-check_column old (some new) k = ground (
  arith,
  k.there,
  k.same_type,
  k.still_nullable,
  eq_iff new.type old.type,
  ap (λ (c : Column). c.nullable) (some_path new k.new k.there),
  ap (λ (c : Column). c.type) (some_path new k.new k.there),
)
  where
    some_path : (a b : Column) → some a ≡ some b → a ≡ b
    some_path a b e = cc

check_column-Kept :
    (old : Column) (found : Option Column) → check_column old found ≡ ok tt → Kept old found
unfolding check_column
check_column-Kept old none h = cc
check_column-Kept old (some new) h = record {
  new = new;
  there = refl;
  same_type = ground (arith, eq_iff new.type old.type);
  still_nullable = ground arith;
}

pub KeepsAll : List Column → List Column → Type 0
KeepsAll previous next = All (λ old. Kept old (find_column old.name next)) previous

check_columns_kept_iff :
    (previous next : List Column)
    → (check_columns_kept previous next ≡ ok tt) ↔ KeepsAll previous next
unfolding check_columns_kept KeepsAll
check_columns_kept_iff [] next = (λ _. tt, λ _. refl)
check_columns_kept_iff (old ∷ previous) next =
    let (to, from) = check_columns_kept_iff previous next in
    (
      λ h. (check_column-Kept old (find_column old.name next) (ground arith), to (ground arith)),
      λ h. rw (Kept-check_column old (find_column old.name next) h.0) (from h.1),
    )

-- `CheckBackwardCompatible` passes exactly if every old column is still there with its type, and
-- is nullable if it was.
pub check_backward_compatible_iff :
    (previous next : Dataset)
    → (check_backward_compatible previous next ≡ ok tt) ↔ KeepsAll previous.columns next.columns
unfolding check_backward_compatible
check_backward_compatible_iff previous next = check_columns_kept_iff previous.columns next.columns

-- A column that a list has is found by its name in every list that keeps all of it.
find-KeepsAll :
    (name : String) (c : Column) (cs next : List Column)
    → find_column name cs ≡ some c
    → KeepsAll cs next
    → (c.name ≡ name) × Kept c (find_column c.name next)
unfolding find_column KeepsAll
find-KeepsAll name c [] next h k = cc
find-KeepsAll name c (x ∷ cs) next h k = elim (Bool-cases (str_eq x.name name)) [
  | inl e ↦
      let q : x ≡ c = ground arith in
      subst (λ y. (y.name ≡ name) × Kept y (find_column y.name next)) q
        ((eq_iff x.name name).0 e, k.0)
  | inr e ↦ find-KeepsAll name c cs next (ground arith) k.1
]

KeepsAll-trans : (xs bs cs : List Column) → KeepsAll xs bs → KeepsAll bs cs → KeepsAll xs cs
unfolding KeepsAll
KeepsAll-trans [] bs cs h k = tt
KeepsAll-trans (a ∷ xs) bs cs h k = (step, KeepsAll-trans xs bs cs h.1 k)
  where
    step : Kept a (find_column a.name cs)
    step =
        let (same, next) = find-KeepsAll a.name h.0.new bs cs h.0.there k in
        record {
          new = next.new;
          there = subst (λ n. find_column n cs ≡ some next.new) same next.there;
          same_type = next.same_type ∙ h.0.same_type;
          still_nullable = λ n. next.still_nullable (h.0.still_nullable n);
        }

-- A chain of compatible changes is a compatible change.
pub check_backward_compatible_trans :
    (a b c : Dataset)
    → check_backward_compatible a b ≡ ok tt
    → check_backward_compatible b c ≡ ok tt
    → check_backward_compatible a c ≡ ok tt
check_backward_compatible_trans a b c h k = (check_backward_compatible_iff a c).1 (
    KeepsAll-trans a.columns b.columns c.columns ((check_backward_compatible_iff a b).0 h)
      ((check_backward_compatible_iff b c).0 k))

-- Columns put behind a list with distinct names hide none of it.
find-append :
    (name : String) (c : Column) (cs more : List Column)
    → find_column name cs ≡ some c
    → find_column name (cs ++ more) ≡ some c
unfolding find_column
find-append name c [] more h = cc
find-append name c (x ∷ cs) more h = ground (arith, find-append name c cs more)

KeepsAll-append :
    (before cs more : List Column)
    → ((c : Column) → find_column c.name cs ≡ some c → find_column c.name before ≡ some c)
    → DistinctNames cs
    → KeepsAll cs (before ++ more)
unfolding KeepsAll find_column
KeepsAll-append before [] more h d = tt
KeepsAll-append before (c ∷ cs) more h d = (
  record {
    new = c;
    there = find-append c.name c before more (h c (rw eq_refl));
    same_type = refl;
    still_nullable = λ n. n;
  },
  KeepsAll-append before cs more
      (λ x e. h x (
        ground (
          arith,
          d.0,
          eq_iff c.name x.name,
          λ (q : c.name ≡ x.name). ap (λ n. find_column n cs) q,
        )))
      d.1,
)

-- A definition whose columns have distinct names can always be evolved by columns behind its own.
pub added_columns_compatible :
    (d : Dataset) (more : List Column)
    → DistinctNames d.columns
    → check_backward_compatible d (record d { columns = d.columns ++ more }) ≡ ok tt
added_columns_compatible d more h =
    (check_backward_compatible_iff d (record d { columns = d.columns ++ more })).1
      (KeepsAll-append d.columns d.columns more (λ c e. e) h)
