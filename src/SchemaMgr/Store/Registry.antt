-- ===== src/SchemaMgr/Store/Registry.antt =====
-- The registry over whole histories of calls (engine/schemamgr/store.go): every dataset keeps all
-- its versions, numbered from 1.
use hermi_nas.Prelude.{
  All, All-append, Bool-cases, List, String, [], ap, arith, eq_iff, inl, inr, map, refl, str_eq,
  subst, suc, sym, zero, ℕ, ◌++◌, ◌<◌, ◌∙◌, ◌∷◌, ◌≡◌,
}
use mathlib.Core.List.{map-append}
use text.Mathlib.TextPositions.{eq_refl}
use hermi_nas.Kernel.Errors.{Error, ok, err, Result-cases}
use hermi_nas.SchemaMgr.Dataset.{Column, Dataset, validate}
use hermi_nas.SchemaMgr.Infer.{Numbers, Sample}
use hermi_nas.SchemaMgr.Database.{Database, Laws, insert_row}
use hermi_nas.SchemaMgr.Store
use hermi_nas.SchemaMgr.Store.{get, stamped, inferred}
use hermi_nas.SchemaMgr.Store.Atomic.{IsWritten, create-IsWritten, create_error}
use hermi_nas.SchemaMgr.Store.Atomic
use hermi_nas.SchemaMgr.Store.Evolve.{add_columns-IsWritten, ensure_writes}

-- The numbers 1 to n.
pub up_to : ℕ → List ℕ
up_to zero = []
up_to (suc n) = up_to n ++ suc n ∷ []

abbrev pub numbers {ℓ} : {A : Type ℓ} → List (ℕ × A) → List ℕ
numbers = map (λ row. row.0)

up_to_bounded : (n : ℕ) → All (λ v. v < suc n) (up_to n)
unfolding up_to
up_to_bounded zero = tt
up_to_bounded (suc n) =
    All-append (λ v. v < suc (suc n)) (up_to n) (suc n ∷ []) (widen (up_to n) (up_to_bounded n))
      (omega arith, tt)
  where
    widen : (vs : List ℕ) → All (λ v. v < suc n) vs → All (λ v. v < suc (suc n)) vs
    widen [] h = tt
    widen (v ∷ vs) h = (omega arith, widen vs h.1)

-- A version above all others goes to the end.
insert_row_last {ℓ} :
    {A : Type ℓ} (v : ℕ) (t : A) (rows : List (ℕ × A))
    → All (λ w. w < v) (numbers rows)
    → insert_row v t rows ≡ rows ++ (v, t) ∷ []
insert_row_last v t [] h = refl
insert_row_last v t ((w, u) ∷ rows) h = ground (arith, h.0, insert_row_last v t rows h.1)

numbers-insert_row {ℓ} :
    {A : Type ℓ} (n : ℕ) (t : A) (rows : List (ℕ × A))
    → numbers rows ≡ up_to n
    → numbers (insert_row (suc n) t rows) ≡ up_to (suc n)
unfolding up_to
numbers-insert_row n t rows h =
    rw (insert_row_last (suc n) t rows (rw h (up_to_bounded n)), map-append, h)

module _ (D : Database) where
  -- Of one name: what can be read is well-formed, is the definition of that name, and its versions
  -- are 1, 2, … up to its own; a name that cannot be read has no versions.
  pub record IsConsistentAt (db : D.Db) (name : String) : Type 0 where
    pub readable :
        (d : Dataset)
        → get D name db ≡ ok d
        → (d.name ≡ name) × (validate d ≡ ok tt) × (numbers (D.history db name) ≡ up_to d.version)
    pub absent : (e : Error) → get D name db ≡ err e → D.history db name ≡ []

  unfoldable pub IsConsistent : D.Db → Type 0
  IsConsistent db = (name : String) → IsConsistentAt db name

module _ (D : Database) (L : Laws D) where
  module _ (d : Dataset) (n : ℕ) (db db' : D.Db) (w : IsWritten D d db db')
      (valid : validate d ≡ ok tt) (next : d.version ≡ suc n)
      (before : numbers (D.history db d.name) ≡ up_to n) where
    numbers-written : numbers (D.history db' d.name) ≡ up_to d.version
    numbers-written =
        rw (w.history d.name, eq_refl, next)
          (numbers-insert_row n w.text (D.history db d.name) before)

    written-IsConsistentAt : IsConsistentAt D db' d.name
    written-IsConsistentAt = record {
      readable = λ x e.
          let same : d ≡ x = ground (arith, w.reads) in
          subst
            (λ y.
              (y.name ≡ d.name)
              × (validate y ≡ ok tt)
              × (numbers (D.history db' d.name) ≡ up_to y.version))
            same (refl, valid, numbers-written);
      absent = λ x e. absurd (ground (arith, w.reads));
    }

    written-IsConsistent : IsConsistent D db → IsConsistent D db'
    unfolding IsConsistent
    written-IsConsistent c name = elim (Bool-cases (str_eq d.name name)) [
      | inl e ↦
          subst (λ k. IsConsistentAt D db' k) ((eq_iff d.name name).0 e) written-IsConsistentAt
      | inr e ↦
          let same : D.history db' name ≡ D.history db name = w.history name ∙ rw e in
          let reads = w.others name e in
          record {
            readable = λ x h. rw same ((c name).readable x (sym reads ∙ h));
            absent = λ x h. same ∙ (c name).absent x (sym reads ∙ h);
          }
    ]

  validate-stamped : (d : Dataset) (now : ℕ) → validate (stamped D d now) ≡ validate d
  unfolding validate
  validate-stamped d now = refl

  pub create-IsConsistent :
      (d : Dataset) (now : ℕ) (db : D.Db)
      → IsConsistent D db
      → IsConsistent D (Store.create D d now db).1
  unfolding IsConsistent
  create-IsConsistent d now db c = elim (Result-cases (Store.create D d now db).0) [
    | inr (x, e) ↦ rw (create_error D L d now db e) c
    | inl (r, e) ↦
        let (same, valid, fresh, w) = create-IsWritten D L d now db e in
        let none_yet : D.history db d.name ≡ [] = elim (Result-cases (get D d.name db)) [
          | inl (old, f) ↦ absurd (fresh old f)
          | inr (x, f) ↦ (c d.name).absent x f
        ] in
        written-IsConsistent (stamped D d now) 0 db (Store.create D d now db).1 w
          (validate-stamped d now ∙ valid) refl (unfold up_to in rw none_yet) c
  ]

  pub add_columns-IsConsistent :
      (name : String) (cs : List Column) (now : ℕ) (db : D.Db)
      → IsConsistent D db
      → IsConsistent D (Store.add_columns D name cs now db).1
  unfolding IsConsistent
  add_columns-IsConsistent name cs now db c =
      elim (Result-cases (Store.add_columns D name cs now db).0) [
        | inr (x, e) ↦ rw (Atomic.add_columns_error D L name cs now db e) c
        | inl (r, e) ↦
            let (current, there, grown, valid, kept, w) =
              add_columns-IsWritten D L name cs now db e in
            let (named, was_valid, history) = (c name).readable current there in
            let same_name : r.name ≡ name = ap (λ x. x.name) grown ∙ named in
            written-IsConsistent r current.version db (Store.add_columns D name cs now db).1 w valid
              (ap (λ x. x.version) grown ∙ omega arith) (rw same_name history) c
      ]

  module _ {F : Type 0} (numbers : Numbers F) where
    pub ensure_dataset-IsConsistent :
        (name : String) (sample : Sample F) (now : ℕ) (db : D.Db)
        → IsConsistent D db
        → IsConsistent D (Store.ensure_dataset D numbers name sample now db).1
    ensure_dataset-IsConsistent name sample now db c =
        elim (ensure_writes D L numbers name sample now db) [
          | inl e ↦ rw e c
          | inr e ↦ rw e (create-IsConsistent (inferred D numbers name sample) now db c)
        ]

-- The calls that the handlers make of the registry, in any order and with any arguments.
data Call (F : Type 0) : Type 0 where
  create : Dataset → ℕ → Call F
  add_columns : String → List Column → ℕ → Call F
  ensure_dataset : String → Sample F → ℕ → Call F

module _ (D : Database) {F : Type 0} (numbers : Numbers F) where
  call : Call F → D.Db → D.Db
  call (Call.create d now) db = (Store.create D d now db).1
  call (Call.add_columns name cs now) db = (Store.add_columns D name cs now db).1
  call (Call.ensure_dataset name sample now) db =
      (Store.ensure_dataset D numbers name sample now db).1

  run : List (Call F) → D.Db → D.Db
  unfolding call
  run [] db = db
  run (c ∷ calls) db = run calls (call c db)

module _ (D : Database) (L : Laws D) {F : Type 0} (numbers : Numbers F) where
  -- Over every database that fulfils the laws, whatever calls of `Create`, `AddColumns` and
  -- `EnsureDataset` are made, failing ones among them, a consistent registry stays consistent: each
  -- dataset that can be read is well-formed and has all its versions, numbered from 1 to its own.
  run-IsConsistent :
      (calls : List (Call F)) (db : D.Db)
      → IsConsistent D db
      → IsConsistent D (run D numbers calls db)
  unfolding run
  run-IsConsistent [] db c = c
  run-IsConsistent (Call.create d now ∷ calls) db c =
      run-IsConsistent calls (Store.create D d now db).1 (create-IsConsistent D L d now db c)
  run-IsConsistent (Call.add_columns name cs now ∷ calls) db c =
      run-IsConsistent calls (Store.add_columns D name cs now db).1
        (add_columns-IsConsistent D L name cs now db c)
  run-IsConsistent (Call.ensure_dataset name sample now ∷ calls) db c =
      run-IsConsistent calls (Store.ensure_dataset D numbers name sample now db).1
        (ensure_dataset-IsConsistent D L numbers name sample now db c)
