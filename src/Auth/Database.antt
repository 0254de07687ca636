-- ===== src/Auth/Database.antt =====
-- What engine/auth/store.go uses of SQLite, of bcrypt, of SHA-256 and of encoding/json: a parameter,
-- with its documented behaviour as laws.
-- A time that is written as RFC 3339 with nanoseconds reads back as itself, so the rows hold times.
use hermi_nas.Prelude.{Bool, List, Option, String, if◌then◌else◌, str_eq, true, ℕ, ◌≡◌, ◌≢◌}
use hermi_nas.Kernel.Errors.{Result, ok}
use hermi_nas.Kernel.Permissions.{Role}
use hermi_nas.SchemaMgr.Database.{Selected, no_rows, failed, found}

pub record UserRow (Hash : Type 0) : Type 0 where
  pub username : String
  pub password_hash : Hash
  pub role : Role
  pub created_at : ℕ

pub record TokenRow (Scopes : Type 0) : Type 0 where
  pub id : String
  pub scopes : Scopes
  pub role : Role
  pub created_at : ℕ
  pub expires_at : Option ℕ
  pub revoked : Bool

pub record Backend : Type 1 where
  pub Db : Type 0
  pub Hash : Type 0
  pub Scopes : Type 0  -- the JSON text of a list of scopes
  -- bcrypt.GenerateFromPassword, with the salt that it draws
  pub generate : ℕ → String → Result Hash
  pub compare : Hash → String → Bool  -- bcrypt.CompareHashAndPassword
  pub digest : String → String  -- the SHA-256 of a token, in hexadecimal
  pub encode : List String → Result Scopes
  pub decode : Scopes → Result (List String)
  -- INSERT INTO users …
  pub insert_user : UserRow Hash → Db → Result Db
  -- SELECT … FROM users WHERE username = ?
  pub select_user : Db → String → Selected (UserRow Hash)
  -- INSERT INTO api_tokens …, with the column token_hash
  pub insert_token : String → TokenRow Scopes → Db → Result Db
  -- SELECT … FROM api_tokens WHERE token_hash = ?
  pub select_token : Db → String → Selected (TokenRow Scopes)
  -- UPDATE api_tokens SET revoked = 1 WHERE id = ?, with the number of rows affected
  pub revoke : String → Db → Result (ℕ × Db)

abbrev pub revoked_row : {Scopes : Type 0} → TokenRow Scopes → TokenRow Scopes
revoked_row row = record row { revoked = true }

-- What a SELECT gives after the UPDATE.
abbrev pub after_revoke :
    {Scopes : Type 0} → String → Selected (TokenRow Scopes) → Selected (TokenRow Scopes)
after_revoke id no_rows = no_rows
after_revoke id (failed e) = failed e
after_revoke id (found row) = found (if str_eq row.id id then revoked_row row else row)

module _ (B : Backend) where
  open B use {
    Db, Hash, Scopes, generate, compare, encode, decode, insert_user, select_user, insert_token,
    select_token, revoke,
  }

  -- What the store relies on, of writes that succeed.
  pub record Laws : Type 0 where
    pub compare-generate :
        (salt : ℕ) (password : String) (h : Hash)
        → generate salt password ≡ ok h
        → compare h password ≡ true
    pub decode-encode : (ss : List String) (t : Scopes) → encode ss ≡ ok t → decode t ≡ ok ss
    pub select_user-insert_user :
        (u : UserRow Hash) (db db' : Db) (name : String)
        → insert_user u db ≡ ok db'
        → select_user db' name ≡ (if str_eq u.username name then found u else select_user db name)
    -- The primary key of users is the name.
    pub new_user :
        (u : UserRow Hash) (db db' : Db)
        → insert_user u db ≡ ok db'
        → select_user db u.username ≡ no_rows
    pub select_token-insert_user :
        (u : UserRow Hash) (db db' : Db) (h : String)
        → insert_user u db ≡ ok db'
        → select_token db' h ≡ select_token db h
    pub select_user-insert_token :
        (h : String) (t : TokenRow Scopes) (db db' : Db) (name : String)
        → insert_token h t db ≡ ok db'
        → select_user db' name ≡ select_user db name
    pub select_token-insert_token :
        (h : String) (t : TokenRow Scopes) (db db' : Db) (j : String)
        → insert_token h t db ≡ ok db'
        → select_token db' j ≡ (if str_eq h j then found t else select_token db j)
    -- token_hash is unique, and the primary key of api_tokens is the id.
    pub new_hash :
        (h : String) (t : TokenRow Scopes) (db db' : Db)
        → insert_token h t db ≡ ok db'
        → select_token db h ≡ no_rows
    pub new_id :
        (h : String) (t : TokenRow Scopes) (db db' : Db) (j : String) (row : TokenRow Scopes)
        → insert_token h t db ≡ ok db'
        → select_token db j ≡ found row
        → row.id ≢ t.id
    pub select_user-revoke :
        (id : String) (db db' : Db) (n : ℕ) (name : String)
        → revoke id db ≡ ok (n, db')
        → select_user db' name ≡ select_user db name
    pub select_token-revoke :
        (id : String) (db db' : Db) (n : ℕ) (h : String)
        → revoke id db ≡ ok (n, db')
        → select_token db' h ≡ after_revoke id (select_token db h)
    -- An UPDATE that affects a row has found one.
    pub affected :
        (id : String) (db db' : Db) (n : ℕ)
        → revoke id db ≡ ok (n, db')
        → n ≢ 0
        → (h : String) × (row : TokenRow Scopes) × (select_token db h ≡ found row) × (row.id ≡ id)
