-- ===== src/Auth/Store/Users.antt =====
-- Passwords that were set are accepted, and a refusal says nothing (engine/auth/store.go).
use hermi_nas.Prelude.{
  if◌then◌else◌, String, arith, false, inl, inr, refl, str_eq, subst, true, ℕ, ◌≡◌,
}
use text.Mathlib.TextPositions.{eq_refl}
use hermi_nas.Kernel.Errors.{Error, ok, err, Result-cases}
use hermi_nas.Kernel.Permissions.{Role, valid}
use hermi_nas.SchemaMgr.Database.{Selected, no_rows, failed, found}
use hermi_nas.Auth.Database.{Backend, Laws}
use hermi_nas.Auth.Store.{User, create_user, verify_password, verify_row, invalid_login, new_user}

module _ (B : Backend) where
  verify_row_error :
      (password : String) (s : Selected (User B)) {e : Error}
      → verify_row B password s ≡ err e
      → e ≡ invalid_login
  unfolding verify_row
  verify_row_error password (found u) h = ground arith
  verify_row_error password no_rows h = cc
  verify_row_error password (failed e) h = cc

  -- Every refusal of a login is the same error: it does not tell an unknown user from a wrong
  -- password, nor either from a failing database.
  verify_password_error :
      (username password : String) (db : B.Db) {e : Error}
      → verify_password B username password db ≡ err e
      → e ≡ invalid_login
  unfolding verify_password
  verify_password_error username password db h =
      verify_row_error password (B.select_user db username) h

module _ (B : Backend) (L : Laws B) (salt now : ℕ) (username password : String) (role : Role)
    (db : B.Db) where
  -- What `CreateUser` has done where it gives no error.
  pub record IsCreated (u : User B) (db' : B.Db) : Type 0 where
    pub named : u.username ≡ username
    pub with_role : u.role ≡ role
    pub role_valid : valid role ≡ true
    pub was_new : (p : String) → verify_password B username p db ≡ err invalid_login
    pub hashed : B.generate salt password ≡ ok u.password_hash
    pub accepted : verify_password B username password db' ≡ ok u
    pub compared :
        (p : String)
        → verify_password B username p db'
          ≡ (if B.compare u.password_hash p then ok u else err invalid_login)
    pub others :
        (name p : String)
        → str_eq username name ≡ false
        → verify_password B name p db' ≡ verify_password B name p db

  inserted-IsCreated :
      (hash : B.Hash) (db' : B.Db)
      → valid role ≡ true
      → B.generate salt password ≡ ok hash
      → B.insert_user (new_user username hash role now) db ≡ ok db'
      → IsCreated (new_user username hash role now) db'
  unfolding verify_password
  inserted-IsCreated hash db' v e f =
      let u = new_user username hash role now in
      record {
        named = refl;
        with_role = refl;
        role_valid = v;
        was_new = λ p. rw (L.new_user u db db' f);
        hashed = e;
        compared = λ p. rw (L.select_user-insert_user u db db' username f, eq_refl, verify_row);
        accepted = rw (
          L.select_user-insert_user u db db' username f,
          eq_refl,
          verify_row,
          L.compare-generate salt password hash e,
        );
        others = λ name p d. rw (L.select_user-insert_user u db db' name f, d);
      }

  same_created : {a b : User B × B.Db} → ok a ≡ ok b → a ≡ b
  same_created h = cc

  -- A user that `CreateUser` returns has the name and the role that were asked for, and the role is
  -- one of the four. No password was accepted for the name before. Now the given one is accepted and
  -- gives this user; any other password of the name is accepted just where bcrypt's comparison with
  -- the hash of the given one accepts it, and is refused else. Logins of other names are answered as
  -- before.
  pub create_user-IsCreated :
      {u : User B} {db' : B.Db}
      → create_user B salt now username password role db ≡ ok (u, db')
      → IsCreated u db'
  unfolding create_user
  create_user-IsCreated {u} {db'} h = elim (Result-cases (B.generate salt password)) [
    | inr (x, e) ↦ absurd (ground (arith, e))
    | inl (hash, e) ↦ elim (Result-cases (B.insert_user (new_user username hash role now) db)) [
      | inr (x, f) ↦ absurd (ground (arith, e, f))
      | inl (db1, f) ↦
          let v : valid role ≡ true = ground arith in
          let made : ok (new_user username hash role now, db1) ≡ ok (u, db') =
            ground (arith, e, f) in
          subst (λ r. IsCreated r.0 r.1) (same_created made) (inserted-IsCreated hash db1 v e f)
    ]
  ]
