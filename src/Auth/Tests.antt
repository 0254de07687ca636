-- ===== src/Auth/Tests.antt =====
-- The theorems on users, tokens and sessions at a database in memory (engine/auth).
pub mod Memory
use hermi_nas.Prelude.{Bool, List, String, [], false, put, refl, some, true, ◌*◌, ◌∷◌, ◌≢◌}
use hermi_nas.Prelude.Int.{pos}
use hermi_nas.Kernel.Errors.{Error, Result, ok, err}
use hermi_nas.Kernel.Permissions.{admin, viewer, valid}
use hermi_nas.SchemaMgr.Database.{no_rows, found}
use hermi_nas.SchemaMgr.Dataset.{is_nil}
use hermi_nas.Auth.Database.{Backend, UserRow, TokenRow}
use hermi_nas.Auth.Jwt
use hermi_nas.Auth.Jwt.{JwtManager, issue, verify, verify-issue, claims_of, invalid_session}
use hermi_nas.Auth.Store
use hermi_nas.Auth.Store.{
  User, create_user, verify_password, invalid_login, new_user, new_token, create_api_token,
  verify_api_token, revoke_api_token,
}
use hermi_nas.Auth.Store.Users.{IsCreated, create_user-IsCreated}
use hermi_nas.Auth.Store.Tokens.{IsIssued, create_api_token-IsIssued}
use hermi_nas.Auth.Store.Calls.{Call, run}
use hermi_nas.Auth.Middleware.{Identity, Handler, Response, refused, served, identify, authenticate}
use hermi_nas.Auth.Middleware.Guards.{IsLetThrough, revoked_locked_out}
use hermi_nas.Auth.Tests.Memory.{Tables, memory, memory-Laws, library, library-Laws}

abbrev empty : Tables
empty = record { users = λ name. no_rows; tokens = [] }

abbrev with_ann : Tables
with_ann = record {
  users = put "ann" (found (new_user "ann" "secret" admin 3)) empty.users;
  tokens = [];
}

create_user-IsCreated_example :
    IsCreated memory memory-Laws 1 3 "ann" "secret" admin empty
      (new_user "ann" "secret" admin 3)
      with_ann
unfolding create_user valid
create_user-IsCreated_example =
    create_user-IsCreated memory memory-Laws 1 3 "ann" "secret" admin empty refl

abbrev with_token : Tables
with_token = record {
  users = empty.users;
  tokens =
      (
        "raw",
        record {
          id = "id1";
          scopes = "*" ∷ [];
          role = viewer;
          created_at = 3;
          expires_at = some 8;
          revoked = false;
        },
      )
      ∷ [];
}

create_api_token-IsIssued_example :
    IsIssued memory memory-Laws
      (ok "raw")
      (ok "id1")
      3
      ("*" ∷ [])
      viewer
      (pos 5)
      empty
      "raw"
      (new_token "id1" ("*" ∷ []) viewer (pos 5) 3)
      with_token
unfolding create_api_token valid is_nil
create_api_token-IsIssued_example =
    create_api_token-IsIssued memory memory-Laws (ok "raw") (ok "id1") 3 ("*" ∷ []) viewer (pos 5)
      empty refl

abbrev manager : JwtManager String
manager = record { secret = "s"; ttl = 3000000000 }

abbrev calls : List Call
calls = Call.create_user 1 3 "bob" "pw" viewer ∷ []

abbrev row : String → Bool → TokenRow (List String)
row id revoked = record {
  id = id;
  scopes = "*" ∷ [];
  role = viewer;
  created_at = 3;
  expires_at = some 8;
  revoked = revoked;
}

abbrev two_tokens : Tables
two_tokens = record {
  users = empty.users;
  tokens = ("raw1", row "id1" false) ∷ ("raw2", row "id2" false) ∷ [];
}

abbrev one_revoked : Tables
one_revoked = record {
  users = empty.users;
  tokens = ("raw1", row "id1" true) ∷ ("raw2", row "id2" false) ∷ [];
}

revoked_locked_out_example : ◌≢◌ {A = String} "id2" "id1"
unfolding identify run revoke_api_token verify verify_api_token create_user valid
revoked_locked_out_example =
    revoked_locked_out library manager memory memory-Laws "id1" two_tokens calls 4000000000 4 "raw2"
      {db' = one_revoked}
      {who = record { subject = "id2"; role = viewer; scopes = "*" ∷ []; via_token = true }} refl
      refl refl
