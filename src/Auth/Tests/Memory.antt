-- ===== src/Auth/Tests/Memory.antt =====
-- A database in memory and a small library of session tokens that behave as engine/auth expects of
-- SQLite, bcrypt and golang-jwt.
use hermi_nas.Prelude.{
  Bool, Bool-cases, List, String, [], any, ap, arith, eq_iff, false, if◌then◌else◌, inl, inr,
  keep_if, length, ltb, map, none, put, refl, some, str_eq, sym, true, ℕ, ◌&&◌, ◌==◌, ◌||◌, ◌∙◌,
  ◌∷◌, ◌≡◌, ◌≢◌,
}
use text.Mathlib.TextPositions.{eq_refl}
use hermi_nas.Kernel.Errors
use hermi_nas.Kernel.Errors.{Result, ok, err, Error}
use hermi_nas.Kernel.Permissions.{admin}
use hermi_nas.SchemaMgr.Database.{Selected, no_rows, found}
use hermi_nas.Auth.Database.{Backend, Laws, UserRow, TokenRow, revoked_row, after_revoke}
use hermi_nas.Auth.Jwt
use hermi_nas.Auth.Jwt.{Claims, Library}

abbrev pub Token : Type 0
Token = TokenRow (List String)

pub record Tables : Type 0 where
  pub users : String → Selected (UserRow String)
  pub tokens : List (String × Token)

abbrev taken : Error
taken = Errors.foreign (record { format = "UNIQUE constraint failed"; args = [] })

abbrev find : List (String × Token) → String → Selected Token
find [] h = no_rows
find ((k, row) ∷ rows) h = let rest = find rows h in if str_eq k h then found row else rest

abbrev has_id : String → Selected Token → Bool
has_id id (found row) = str_eq row.id id
has_id id _ = false

abbrev is_free : Selected (UserRow String) → Bool
is_free no_rows = true
is_free _ = false

abbrev clashes : String → String → List (String × Token) → Bool
clashes h id rows = any (λ e. str_eq e.0 h || str_eq e.1.id id) rows

abbrev mark : String → Token → Token
mark id row = if str_eq row.id id then revoked_row row else row

abbrev marked : String → List (String × Token) → List (String × Token)
marked id rows = map (λ e. (e.0, mark id e.1)) rows

abbrev pub memory : Backend
memory = record {
  Db = Tables;
  Hash = String;
  Scopes = List String;
  generate = λ salt password. ok password;
  compare = λ h password. str_eq h password;
  digest = λ raw. raw;
  encode = λ ss. ok ss;
  decode = λ ss. ok ss;
  insert_user = λ u db.
      if is_free (db.users u.username)
      then ok (record db { users = put u.username (found u) db.users })
      else err taken;
  select_user = λ db name. db.users name;
  insert_token = λ h t db.
      if clashes h t.id db.tokens
      then err taken
      else ok (record db { tokens = (h, t) ∷ db.tokens });
  select_token = λ db h. find db.tokens h;
  revoke = λ id db. ok (
    length (keep_if (λ e. has_id id (find db.tokens e.0)) db.tokens),
    record db { tokens = marked id db.tokens },
  );
}

found_injective : {a b : Token} → found a ≡ found b → a ≡ b
found_injective h = cc

find-marked :
    (id : String) (rows : List (String × Token)) (h : String)
    → find (marked id rows) h ≡ after_revoke id (find rows h)
find-marked id [] h = refl
find-marked id ((k, row) ∷ rows) h = ground (arith, find-marked id rows h)

find-clashes :
    (h id : String) (rows : List (String × Token))
    → clashes h id rows ≡ false
    → find rows h ≡ no_rows
find-clashes h id [] e = refl
find-clashes h id ((k, row) ∷ rows) e = ground (arith, find-clashes h id rows)

id-clashes :
    (h id : String) (rows : List (String × Token)) (j : String) (row : Token)
    → clashes h id rows ≡ false
    → find rows j ≡ found row
    → row.id ≢ id
id-clashes h id [] j row e f same = cc
id-clashes h id ((k, r) ∷ rows) j row e f same = elim (Bool-cases (str_eq k j)) [
  | inl q ↦
      let there : r ≡ row = found_injective (rw q at f) in
      absurd (ground (arith, eq_iff row.id id, e, same, ap (λ x. x.id) there))
  | inr q ↦ id-clashes h id rows j row (ground (arith, e)) (rw q at f) same
]

some_holder :
    (p : String × Token → Bool) (rows : List (String × Token))
    → length (keep_if p rows) ≢ 0
    → (e : String × Token) × (p e ≡ true)
some_holder p [] n = absurd (n refl)
some_holder p (e ∷ rows) n = elim (Bool-cases (p e)) [
  | inl q ↦ (e, q)
  | inr q ↦ some_holder p rows (rw q at n)
]

holder_row :
    (id : String) (s : Selected Token)
    → has_id id s ≡ true
    → (row : Token) × (s ≡ found row) × (row.id ≡ id)
holder_row id (found row) h = (row, refl, (eq_iff row.id id).0 h)
holder_row id _ h = cc

free_none : (s : Selected (UserRow String)) → is_free s ≡ true → s ≡ no_rows
free_none no_rows h = refl
free_none _ h = cc

same_pair : {x y : ℕ × Tables} → ok x ≡ ok y → x ≡ y
same_pair h = cc

same_revoked : {x y : ℕ × Tables} → ok x ≡ ok y → (x.0 ≡ y.0) × (x.1 ≡ y.1)
same_revoked h = let same = same_pair h in (ap (λ x. x.0) same, ap (λ x. x.1) same)

pub memory-Laws : Laws memory
memory-Laws = record {
  compare-generate = λ salt password h e. ground (arith, eq_refl password);
  decode-encode = λ ss t e. ground arith;
  select_user-insert_user = λ u db db' name e. ground (arith, e);
  new_user = λ u db db' e. free_none (db.users u.username) (ground (arith, e));
  select_token-insert_user = λ u db db' h e. ground arith;
  select_user-insert_token = λ h t db db' name e. ground arith;
  select_token-insert_token = λ h t db db' j e. ground arith;
  new_hash = λ h t db db' e. find-clashes h t.id db.tokens (ground (arith, e));
  new_id = λ h t db db' j row e f. id-clashes h t.id db.tokens j row (ground (arith, e)) f;
  select_user-revoke = λ id db db' n name e. ground arith;
  select_token-revoke = λ id db db' n h e.
      ap (λ (x : Tables). find x.tokens h) (sym (same_revoked e).1) ∙ find-marked id db.tokens h;
  affected = λ id db db' n e k.
      let (holder, q) =
        some_holder (λ e. has_id id (find db.tokens e.0)) db.tokens
          (λ z. k (sym (same_revoked e).0 ∙ z)) in
      let (row, there, named) = holder_row id (find db.tokens holder.0) q in
      (holder.0, row, there, named);
}

abbrev claims : String → Claims
claims name = record {
  subject = name;
  issued_at = 0;
  expires_at = 3000000000;
  username = name;
  role = admin;
}

-- It signs one claim for each name.
abbrev pub library : Library String
library = record {
  numeric_date = λ t. t;
  sign = λ secret c.
      if str_eq c.subject c.username
        && (str_eq c.role admin && (c.issued_at == 0 && c.expires_at == 3000000000))
      then ok c.username
      else err taken;
  parse = λ now secret token. if ltb now 3000000000 then some (claims token) else none;
}

signs : Claims → Bool
signs c =
    str_eq c.subject c.username
    && (str_eq c.role admin && (c.issued_at == 0 && c.expires_at == 3000000000))

signed_claims : (c : Claims) → signs c ≡ true → c ≡ claims c.username
unfolding signs
signed_claims c h =
    let subject : c.subject ≡ c.username = (eq_iff c.subject c.username).0 (ground (arith, h)) in
    let role : c.role ≡ admin = (eq_iff c.role admin).0 (ground (arith, h)) in
    let issued : c.issued_at ≡ 0 = ground (arith, h) in
    let expires : c.expires_at ≡ 3000000000 = ground (arith, h) in
    λ i. record {
      subject = subject i;
      issued_at = issued i;
      expires_at = expires i;
      username = c.username;
      role = role i;
    }

pub library-Laws : Jwt.Laws library
unfolding signs
library-Laws = record {
  parse-sign = λ now secret c token e.
      let kept : signs c ≡ true = ground (arith, e) in
      let named : c.username ≡ token = ground (arith, e) in
      let same : claims token ≡ c = ap claims (sym named) ∙ sym (signed_claims c kept) in
      ap (λ (x : Claims). if ltb now x.expires_at then some x else none) same;
  cut_down = λ t. omega arith;
  cut_little = λ t. omega arith;
}
