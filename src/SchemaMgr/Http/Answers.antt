-- ===== src/SchemaMgr/Http/Answers.antt =====
-- What the answers of the handlers promise of the registry (engine/schemamgr/http.go).
use hermi_nas.Prelude.{
  Bool-cases, Option, Option-cases, ap, arith, inl, inr, refl, true, ℕ, ◌∙◌, ◌≡◌,
}
use hermi_nas.Kernel.Errors
use hermi_nas.Kernel.Errors.{is_code_unique, Error, Result, ok, err, Result-cases}
use hermi_nas.SchemaMgr.Dataset.{Dataset, validate}
use hermi_nas.SchemaMgr.Ddl.{Text, generate_ddl}
use hermi_nas.SchemaMgr.Database.{Database, Laws}
use hermi_nas.SchemaMgr.Store
use hermi_nas.SchemaMgr.Store.{stamped}
use hermi_nas.SchemaMgr.Store.Atomic.{create-IsWritten, create_existing}
use hermi_nas.SchemaMgr.Http.{
  CreateRequest, answer, error, create, created, exec_ddl, reply_of, get, dataset_of, status_of,
}

reply_of-ok {ℓ} : {A : Type ℓ} (r : Result A) {a : A} → reply_of r ≡ answer 200 a → r ≡ ok a
unfolding reply_of
reply_of-ok (ok b) h = cc
reply_of-ok (err e) h = cc

status_of-already_exists : (e : Error) → Errors.is_already_exists e ≡ true → status_of e ≡ 409
unfolding status_of Errors.is_already_exists Errors.is_not_found
status_of-already_exists e h = elim (Bool-cases (Errors.is_not_found e)) [
  | inl found ↦
      absurd (let same = is_code_unique e Errors.not_found Errors.already_exists found h in cc)
  | inr other ↦ ground (arith, other, h)
]

module _ {C : Type 0} (ddl : Option (Text → C → Option Error × C)) (D : Database) where
  pub created-db : (o : Result Dataset × D.Db) (c : C) → (created ddl D o c).1 ≡ o.1
  unfolding created
  created-db (err e, db) c = refl
  created-db (ok d, db) c = refl

  created-ok :
      (o : Result Dataset × D.Db) (c : C) {d : Dataset}
      → (created ddl D o c).0 ≡ answer 201 d
      → o.0 ≡ ok d
  unfolding created exec_ddl
  created-ok (err e, db) c h = cc
  created-ok (ok r, db) c h = elim (Option-cases ddl) [
    | inl q ↦ ground (arith, q)
    | inr (exec, q) ↦ elim (Option-cases (exec (generate_ddl r) c).0) [
      | inl k ↦ ground (arith, q, k)
      | inr (x, k) ↦ absurd (ground (arith, q, k))
    ]
  ]

  created-err :
      (o : Result Dataset × D.Db) (c : C) {e : Error}
      → o.0 ≡ err e
      → created ddl D o c ≡ (error (status_of e) "" e, o.1, c)
  unfolding created
  created-err (err x, db) c h = ground arith
  created-err (ok r, db) c h = cc

module _ {C : Type 0} (ddl : Option (Text → C → Option Error × C)) (D : Database) (L : Laws D)
    (req : CreateRequest) (now : ℕ) (db : D.Db) (c : C) where
  -- Over every database that fulfils the laws, a dataset whose creation was answered with 201 is
  -- what a `GET` of its name then answers with 200.
  pub create-get :
      {d : Dataset}
      → (create ddl D (ok req) now db c).0 ≡ answer 201 d
      → get D req.name (create ddl D (ok req) now db c).1 ≡ answer 200 d
  unfolding create get dataset_of
  create-get {d} h =
      let o = Store.create D (dataset_of req) now db in
      let made : o.0 ≡ ok d = created-ok ddl D o c h in
      let (same, valid, fresh, w) = create-IsWritten D L (dataset_of req) now db made in
      rw (created-db ddl D o c, same) (ap reply_of w.reads)

  -- Over every database that fulfils the laws, a name that has a dataset, for instance one whose
  -- table could not be created, is refused with 409 to every well-formed request to create it: the
  -- registry stays as it is, and ClickHouse is not asked for a table.
  pub create_conflict :
      (old : Dataset)
      → validate (dataset_of req) ≡ ok tt
      → get D req.name db ≡ answer 200 old
      → (e : Error) × (create ddl D (ok req) now db c ≡ (error 409 "" e, db, c))
  unfolding create get dataset_of
  create_conflict old valid there =
      let (same_db, e, failed, code) =
        create_existing D L (dataset_of req) old now db valid
          (reply_of-ok (Store.get D req.name db) there) in
      (
        e,
        created-err ddl D (Store.create D (dataset_of req) now db) c failed
            ∙ rw (same_db, status_of-already_exists e code),
      )
