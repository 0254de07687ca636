-- ===== src/Api/Routes/Login.antt =====
-- A login gives a session with the user's role (`loginHandler` of engine/api/routes.go).
use hermi_nas.Auth.Jwt.{
  invalid_session, second, verify, Library, Laws, JwtManager, issue, verify-issue,
}
use hermi_nas.Kernel.Errors.{err, ok, Result-cases}
use hermi_nas.Prelude.{◌≤◌, [], arith, false, inl, inr, ltb, refl, some, subst, true, ℕ, ◌+◌, ◌≡◌}
use hermi_nas.Auth.Database.{Backend}
use hermi_nas.Auth.Store.{User, verify_password}
use hermi_nas.Auth.Middleware.{served, identify, resolve, session_identity}
use hermi_nas.Api.Routes.{Credentials, LoginResponse, login_handler, login_issued, login_checked}

same_answer : {a b : LoginResponse} → served 200 a ≡ served 200 b → a ≡ b
same_answer h = cc

module _ {Secret : Type 0} (J : Library Secret) (L : Laws J) (m : JwtManager Secret) (B : Backend)
    (now : ℕ) (req : Credentials) (db : B.Db) where
  -- What a login with status 200 has given.
  pub record IsLoggedIn (answer : LoginResponse) : Type 0 where
    pub user : User B
    pub verified : verify_password B req.username req.password db ≡ ok user
    pub with_role : answer.role ≡ user.role
    pub accepted :
        (later token_time : ℕ) (db' : B.Db)
        → later + second ≤ now + m.ttl
        → identify J m B later token_time answer.token db'
          ≡ some
              (record { subject = user.username; role = user.role; scopes = []; via_token = false })
    pub over :
        (later : ℕ) → now + m.ttl ≤ later → verify J later answer.token m ≡ err invalid_session

  -- Where the library's laws hold, a login that is answered with 200 was with a name and a password
  -- that `VerifyPassword` accepts. The answer has the user's role, and its token lets requests
  -- through as this user, with this role, up to a second before the manager's ttl is over, whatever
  -- becomes of the database; once the ttl is over, it is refused as a session.
  pub login-IsLoggedIn :
      {answer : LoginResponse}
      → login_handler J m B now (ok req) db ≡ served 200 answer
      → IsLoggedIn answer
  unfolding login_handler login_checked login_issued identify
  login-IsLoggedIn {answer} h =
      elim (Result-cases (verify_password B req.username req.password db)) [
        | inr (x, e) ↦ absurd (ground (arith, e))
        | inl (u, e) ↦ elim (Result-cases (issue J now u.username u.role m)) [
          | inr (x, f) ↦ absurd (ground (arith, e, f))
          | inl (token, f) ↦
              let made : served 200 (record { token = token; role = u.role }) ≡ served 200 answer =
                ground (arith, e, f) in
              subst IsLoggedIn (same_answer made) (record {
                user = u;
                verified = e;
                with_role = refl;
                accepted = λ later token_time db' q.
                    let live : ltb later (J.numeric_date (now + m.ttl)) ≡ true =
                      ground (arith, q, L.cut_little (now + m.ttl)) in
                    rw (
                      identify,
                      verify-issue J L m now later u.username u.role f,
                      live,
                      resolve,
                      session_identity,
                    );
                over = λ later q.
                    let dead : ltb later (J.numeric_date (now + m.ttl)) ≡ false =
                      ground (arith, q, L.cut_down (now + m.ttl)) in
                    rw (verify-issue J L m now later u.username u.role f, dead);
              })
        ]
      ]
