-- ===== src/Bootstrap/Admin.antt =====
-- What the first administrator's start promises, and what it hides (bootstrap.go).
use hermi_nas.Prelude.{
  Bool-cases, String, ap, arith, false, inl, inr, none, str_eq, sym, true, ℕ, ◌||◌, ◌∙◌, ◌≡◌, ◌⊎◌,
}
use hermi_nas.Kernel.Errors.{Error, ok, err, Result-cases, is_already_exists}
use hermi_nas.Kernel.Permissions.{admin}
use hermi_nas.Auth.Database.{Backend, Laws}
use hermi_nas.Auth.Store.{User, create_user, verify_password}
use hermi_nas.Auth.Store.Users.{create_user-IsCreated}
use hermi_nas.Bootstrap.{bootstrap_admin_user, admin_checked, settle_admin}

module _ (B : Backend) (L : Laws B) (salt now : ℕ) (username password : String) (db : B.Db) where
  -- Over every database that fulfils the laws: where `bootstrapAdminUser` gives no error for a name
  -- and a password that are set, then afterwards the password is accepted for the name, or
  -- `CreateUser` failed as if the name were taken and the database is as it was.
  pub bootstrap_admin_lem :
      {db' : B.Db}
      → (str_eq username "" || str_eq password "") ≡ false
      → bootstrap_admin_user B salt now username password db ≡ (none, db')
      → ((u : User B) × (verify_password B username password db' ≡ ok u))
        ⊎ ((db' ≡ db)
            × ((e : Error) × (create_user B salt now username password admin db ≡ err e)
                × (is_already_exists e ≡ true)))
  unfolding bootstrap_admin_user admin_checked settle_admin
  bootstrap_admin_lem {db'} set h = elim (Result-cases (verify_password B username password db)) [
    | inl (u, e) ↦
        let same : db ≡ db' = ground (arith, set, e, h) in
        inl (u, ap (verify_password B username password) (sym same) ∙ e)
    | inr (x, e) ↦ elim (Result-cases (create_user B salt now username password admin db)) [
      | inl ((u, made), f) ↦
          let same : made ≡ db' = ground (arith, set, e, f, h) in
          inl (
            u,
            ap (verify_password B username password) (sym same)
                ∙ (create_user-IsCreated B L salt now username password admin db f).accepted,
          )
      | inr (y, f) ↦ elim (Bool-cases (is_already_exists y)) [
        | inl q ↦ inr (ground (arith, set, e, f, q, h), (y, f, q))
        | inr q ↦ absurd (ground (arith, set, e, f, q, h))
      ]
    ]
  ]
