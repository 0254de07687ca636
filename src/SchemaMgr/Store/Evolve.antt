-- ===== src/SchemaMgr/Store/Evolve.antt =====
-- `AddColumns` and `EnsureDataset` (engine/schemamgr/store.go).
use hermi_nas.Prelude.{
  Bool, Bool-cases, List, String, arith, false, inl, inr, subst, sym, true, ℕ, ◌∙◌, ◌≡◌, ◌⊎◌,
}
use hermi_nas.Kernel.Errors
use hermi_nas.Kernel.Errors.{Error, Result, ok, err, Result-cases}
use hermi_nas.SchemaMgr.Dataset.{Column, Dataset, validate, check_backward_compatible}
use hermi_nas.SchemaMgr.Dataset.WellFormed.{validate_iff}
use hermi_nas.SchemaMgr.Dataset.Compatible.{added_columns_compatible}
use hermi_nas.SchemaMgr.Infer.{Numbers, Sample}
use hermi_nas.SchemaMgr.Database.{Database, Laws}
use hermi_nas.SchemaMgr.Store.{
  get, add_columns_checks, add_columns, extended, stamped, create, inferred, ensure_dataset,
  persist,
}
use hermi_nas.SchemaMgr.Store.Atomic.{IsWritten, persist-IsWritten, create-IsWritten}

module _ (D : Database) (L : Laws D) where
  -- What the checks of `AddColumns` let through.
  checks_ok :
      (name : String) (cs : List Column) (now : ℕ) (db : D.Db) {r : Dataset}
      → add_columns_checks D name cs now db ≡ ok r
      → (current : Dataset) × (get D name db ≡ ok current)
        × (r ≡ extended D current cs now)
        × (validate r ≡ ok tt)
        × (check_backward_compatible current r ≡ ok tt)
  unfolding add_columns_checks
  checks_ok name cs now db {r} h = elim (Result-cases (get D name db)) [
    | inr (x, e) ↦ absurd (ground (arith, e))
    | inl (current, e) ↦
        let next = extended D current cs now in
        let same : r ≡ next = ground (arith, e) in
        let valid : validate next ≡ ok tt = ground (arith, e) in
        let kept : check_backward_compatible current next ≡ ok tt = ground (arith, e) in
        (current, e, same, rw same valid, rw same kept)
  ]

  pub add_columns-IsWritten :
      (name : String) (cs : List Column) (now : ℕ) (db : D.Db) {r : Dataset}
      → (add_columns D name cs now db).0 ≡ ok r
      → (current : Dataset) × (get D name db ≡ ok current)
        × (r ≡ extended D current cs now)
        × (validate r ≡ ok tt)
        × (check_backward_compatible current r ≡ ok tt)
        × IsWritten D r db (add_columns D name cs now db).1
  unfolding add_columns
  add_columns-IsWritten name cs now db {r} h =
      elim (Result-cases (add_columns_checks D name cs now db)) [
        | inr (x, e) ↦ absurd (ground (arith, e))
        | inl (next, e) ↦
            let (same, written) = persist-IsWritten D L next db (rw e at h) in
            let (current, there, grown, valid, kept) = checks_ok name cs now db e in
            (
              current,
              there,
              same ∙ grown,
              rw same valid,
              rw same kept,
              rw e (subst (λ d. IsWritten D d db (persist D next next db).1) (sym same) written),
            )
      ]

  -- Where the stored definition and the one with the new columns are well-formed, the checks of
  -- `AddColumns` let the new one through: the check of compatibility never refuses.
  pub add_columns_checks_stored :
      (name : String) (cs : List Column) (now : ℕ) (db : D.Db) (current : Dataset)
      → get D name db ≡ ok current
      → validate current ≡ ok tt
      → validate (extended D current cs now) ≡ ok tt
      → add_columns_checks D name cs now db ≡ ok (extended D current cs now)
  unfolding add_columns_checks check_backward_compatible
  add_columns_checks_stored name cs now db current there old new =
      rw (there, new, added_columns_compatible current cs ((validate_iff current).0 old).distinct)

  module _ {F : Type 0} (numbers : Numbers F) where
    -- Of a dataset that can be read `EnsureDataset` returns the definition, and writes nothing.
    pub ensure_existing :
        (name : String) (sample : Sample F) (now : ℕ) (db : D.Db) (d : Dataset)
        → get D name db ≡ ok d
        → ensure_dataset D numbers name sample now db ≡ (ok (d, false), db)
    unfolding ensure_dataset
    ensure_existing name sample now db d there = rw there

    -- Over every database that fulfils the laws, a dataset that `EnsureDataset` reports as created
    -- is the inferred one at version 1, and what `Get` then returns for its name; one that it
    -- reports as not created was there, and nothing was written.
    pub ensure_dataset_lem :
        (name : String) (sample : Sample F) (now : ℕ) (db : D.Db) {d : Dataset} {created : Bool}
        → (ensure_dataset D numbers name sample now db).0 ≡ ok (d, created)
        → let db' = (ensure_dataset D numbers name sample now db).1 in
          ((created ≡ true)
            × (d ≡ stamped D (inferred D numbers name sample) now)
            × IsWritten D d db db')
          ⊎ ((created ≡ false) × (get D name db ≡ ok d) × (db' ≡ db))
    unfolding ensure_dataset
    ensure_dataset_lem name sample now db {d} {created} h = elim (Result-cases (get D name db)) [
      | inl (existing, e) ↦ inr (ground (arith, e), ground (arith, e), ground (arith, e))
      | inr (x, e) ↦ elim (Bool-cases (Errors.is_not_found x)) [
        | inr other ↦ absurd (ground (arith, e, other))
        | inl missing ↦ elim (Result-cases (create D (inferred D numbers name sample) now db).0) [
          | inr (y, f) ↦ absurd (ground (arith, e, missing, f))
          | inl (r, f) ↦
              let w = create-IsWritten D L (inferred D numbers name sample) now db f in
              let same : d ≡ r = ground (arith, e, missing, f) in
              inl (
                ground (arith, e, missing, f),
                same ∙ w.0,
                rw (e, missing, f)
                    (subst
                      (λ x. IsWritten D x db (create D (inferred D numbers name sample) now db).1)
                      (sym (same ∙ w.0)) w.3),
              )
        ]
      ]
    ]

    -- `EnsureDataset` writes nothing, or what `Create` of the inferred definition writes.
    pub ensure_writes :
        (name : String) (sample : Sample F) (now : ℕ) (db : D.Db)
        → let db' = (ensure_dataset D numbers name sample now db).1 in
          (db' ≡ db) ⊎ (db' ≡ (create D (inferred D numbers name sample) now db).1)
    unfolding ensure_dataset
    ensure_writes name sample now db = elim (Result-cases (get D name db)) [
      | inl (d, e) ↦ inl (rw e)
      | inr (x, e) ↦ elim (Bool-cases (Errors.is_not_found x)) [
        | inr other ↦ inl (rw (e, other))
        | inl missing ↦ elim (Result-cases (create D (inferred D numbers name sample) now db).0) [
          | inl (r, f) ↦ inr (rw (e, missing, f))
          | inr (y, f) ↦ inr (rw (e, missing, f))
        ]
      ]
    ]
