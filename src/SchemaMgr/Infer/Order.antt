-- ===== src/SchemaMgr/Infer/Order.antt =====
-- The order of the keys of a map plays no part in the columns that are inferred from it
-- (engine/schemamgr/infer.go sorts them by name).
use hermi_nas.Prelude.{
  some, subst, All, Bool-cases, List, [], eq_iff, inl, inr, none, sym, ◌∷◌, false, refl, Bool,
  String, arith, ltb, not, str_eq, true, ◌&&◌, ◌==◌, ◌||◌, ◌∙◌, ◌≡◌, ap,
}
use text.Mathlib.TextPositions.{eq_refl}
use hermi_nas.SchemaMgr.Dataset.{Column, find_column}
use hermi_nas.SchemaMgr.Infer.{Numbers, Sample, infer_column, infer_columns, insert_column}
use hermi_nas.SchemaMgr.Infer.Sample.{DistinctKeys, find-infer_columns, value_at}
use Prim.Native.Char.{code, Char}
use Prim.Native.String.compare
use Prim.Native.String.{compare}
use text.Mathlib.Text.{is_lt, is_eq}

less : String → String → Bool
less a b = is_lt (compare a b)

less-nil : (d : Char) (t : String) → less "" (String.◌∷◌ d t) ≡ true
unfolding less
less-nil d t = ap is_lt (compare.nil-cons d t)

none-less : (s : String) → less s "" ≡ false
unfolding less
none-less String.[] = ap is_lt compare.nil-nil
none-less (String.◌∷◌ c s) = ap is_lt (compare.cons-nil c s)

less-cons :
    (c d : Char) (s t : String)
    → less (String.◌∷◌ c s) (String.◌∷◌ d t)
      ≡ (ltb (code c) (code d) || ((code c == code d) && less s t))
unfolding less
less-cons c d s t = ap is_lt (compare.cons-cons c d s t) ∙ ground arith

str_eq-cons :
    (c d : Char) (s t : String)
    → str_eq (String.◌∷◌ c s) (String.◌∷◌ d t) ≡ ((code c == code d) && str_eq s t)
str_eq-cons c d s t = ap is_eq (compare.cons-cons c d s t) ∙ ground arith

less_trans : (a b c : String) → less a b ≡ true → less b c ≡ true → less a c ≡ true
less_trans a b String.[] h k = absurd (let e = none-less b in cc)
less_trans String.[] b (String.◌∷◌ z c) h k = less-nil z c
less_trans (String.◌∷◌ x a) String.[] (String.◌∷◌ z c) h k =
    absurd (let e = none-less (String.◌∷◌ x a) in cc)
less_trans (String.◌∷◌ x a) (String.◌∷◌ y b) (String.◌∷◌ z c) h k =
    rw (less-cons x z a c) (ground (arith, less_trans a b c, less-cons x y a b, less-cons y z b c))

-- Of two different names exactly one is less than the other.
less_total : (a b : String) → less a b ≡ (not (str_eq a b) && not (less b a))
less_total String.[] String.[] = none-less ""
less_total String.[] (String.◌∷◌ y b) =
    less-nil y b ∙ rw (none-less (String.◌∷◌ y b), ap is_eq (compare.nil-cons y b)) refl
less_total (String.◌∷◌ x a) String.[] =
    none-less (String.◌∷◌ x a) ∙ rw (less-nil x a, ap is_eq (compare.cons-nil x a)) refl
less_total (String.◌∷◌ x a) (String.◌∷◌ y b) =
    rw (less-cons x y a b, less-cons y x b a, str_eq-cons x y a b) (ground (arith, less_total a b))

-- The columns stand in the order of their names, and no two have one name.
IsSorted : List Column → Type 0
IsSorted [] = Unit
IsSorted (c ∷ cs) = All (λ d. less c.name d.name ≡ true) cs × IsSorted cs

above_trans :
    (a b : String) (cs : List Column)
    → less a b ≡ true
    → All (λ d. less b d.name ≡ true) cs
    → All (λ d. less a d.name ≡ true) cs
above_trans a b [] h k = tt
above_trans a b (c ∷ cs) h k = (less_trans a b c.name h k.0, above_trans a b cs h k.1)

find_above :
    (k : String) (cs : List Column) → All (λ d. less k d.name ≡ true) cs → find_column k cs ≡ none
unfolding find_column
find_above k [] h = refl
find_above k (c ∷ cs) h =
    ground (arith, find_above k cs h.1, less_total k c.name, h.0, eq_iff k c.name, eq_iff c.name k)

insert-above :
    (a : String) (c : Column) (cs : List Column)
    → less a c.name ≡ true
    → All (λ d. less a d.name ≡ true) cs
    → All (λ d. less a d.name ≡ true) (insert_column c cs)
unfolding insert_column
insert-above a c [] h k = (h, tt)
insert-above a c (x ∷ xs) h k = elim (Bool-cases (is_lt (compare x.name c.name))) [
  | inl q ↦ rw q (k.0, insert-above a c xs h k.1)
  | inr q ↦ rw q (h, k)
]

insert-IsSorted :
    (c : Column) (cs : List Column)
    → find_column c.name cs ≡ none
    → IsSorted cs
    → IsSorted (insert_column c cs)
unfolding insert_column find_column IsSorted less
insert-IsSorted c [] h s = (tt, tt)
insert-IsSorted c (x ∷ xs) h s = elim (Bool-cases (is_lt (compare x.name c.name))) [
  | inl q ↦ rw q (insert-above x.name c xs q s.0, insert-IsSorted c xs (ground arith) s.1)
  | inr q ↦
      let first : less c.name x.name ≡ true =
        ground
          (arith, less_total c.name x.name, h, q, eq_iff x.name c.name, eq_iff c.name x.name) in
      rw q ((first, above_trans c.name x.name xs first s.0), s)
]

head_found : (c : Column) (cs : List Column) → find_column c.name (c ∷ cs) ≡ some c
unfolding find_column
head_found c cs = rw (eq_refl c.name) refl

-- Nothing before its head is in a sorted list.
missing_before :
    (c d : Column) (ds : List Column)
    → less c.name d.name ≡ true
    → IsSorted (d ∷ ds)
    → find_column c.name (d ∷ ds) ≡ none
unfolding IsSorted
missing_before c d ds h t = find_above c.name (d ∷ ds) (h, above_trans c.name d.name ds h t.0)

-- Behind a head of one name, what is found.
tail_found :
    (c d : Column) (cs ds : List Column)
    → IsSorted (c ∷ cs)
    → IsSorted (d ∷ ds)
    → c.name ≡ d.name
    → ((k : String) → find_column k (c ∷ cs) ≡ find_column k (d ∷ ds))
    → (k : String) → find_column k cs ≡ find_column k ds
unfolding find_column IsSorted
tail_found c d cs ds s t e same k = elim (Bool-cases (str_eq c.name k)) [
  | inl q ↦
      let here : c.name ≡ k = (eq_iff c.name k).0 q in
      subst (λ n. find_column n cs ≡ none) here (find_above c.name cs s.0)
      ∙ sym (subst (λ n. find_column n ds ≡ none) (sym e ∙ here) (find_above d.name ds t.0))
  | inr q ↦
      let other : str_eq d.name k ≡ false = subst (λ n. str_eq n k ≡ false) e q in
      rw (q, other) at (same k)
]

-- A sorted list of columns is known by what is found in it.
sorted_unique :
    (cs ds : List Column)
    → IsSorted cs
    → IsSorted ds
    → ((k : String) → find_column k cs ≡ find_column k ds)
    → cs ≡ ds
unfolding IsSorted find_column
sorted_unique [] [] s t same = refl
sorted_unique [] (d ∷ ds) s t same =
    absurd (let e : none ≡ some d = same d.name ∙ head_found d ds in cc)
sorted_unique (c ∷ cs) [] s t same =
    absurd (let e : some c ≡ none = sym (head_found c cs) ∙ same c.name in cc)
sorted_unique (c ∷ cs) (d ∷ ds) s t same = elim (Bool-cases (str_eq c.name d.name)) [
  | inl q ↦
      let named : c.name ≡ d.name = (eq_iff c.name d.name).0 q in
      let first : some c ≡ some d =
        sym (head_found c cs)
        ∙ same c.name
        ∙ subst (λ n. find_column n (d ∷ ds) ≡ some d) (sym named) (head_found d ds) in
      let rest = sorted_unique cs ds s.1 t.1 (tail_found c d cs ds s t named same) in
      cc (first, rest)
  | inr q ↦ elim (Bool-cases (less c.name d.name)) [
    | inl k ↦ absurd (let e = sym (head_found c cs) ∙ same c.name ∙ missing_before c d ds k t in cc)
    | inr k ↦
        let after : less d.name c.name ≡ true = ground (arith, q, k, less_total c.name d.name) in
        absurd
          (let e = sym (head_found d ds) ∙ sym (same d.name) ∙ missing_before d c cs after s in cc)
  ]
]

module _ {F : Type 0} (numbers : Numbers F) where
  infer_columns-IsSorted :
      (sample : Sample F) → DistinctKeys sample → IsSorted (infer_columns numbers sample)
  unfolding infer_columns infer_column IsSorted
  infer_columns-IsSorted [] d = tt
  infer_columns-IsSorted ((j, v) ∷ sample) d =
      insert-IsSorted (infer_column numbers j v) (infer_columns numbers sample)
        (find-infer_columns numbers sample d.1 j ∙ rw d.0) (infer_columns-IsSorted sample d.1)

  -- Two orders in which Go's `range` may give the entries of one map, each key once, lead to the same
  -- columns, in the same order.
  pub infer_columns_unique :
      (s t : Sample F)
      → DistinctKeys s
      → DistinctKeys t
      → ((k : String) → value_at k s ≡ value_at k t)
      → infer_columns numbers s ≡ infer_columns numbers t
  infer_columns_unique s t d e same =
      sorted_unique (infer_columns numbers s) (infer_columns numbers t) (infer_columns-IsSorted s d)
        (infer_columns-IsSorted t e)
        (λ k.
          find-infer_columns numbers s d k
          ∙ (rw (same k) refl)
          ∙ sym (find-infer_columns numbers t e k))
