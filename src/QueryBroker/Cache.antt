-- ===== src/QueryBroker/Cache.antt =====
-- The result cache, engine/querybroker/cache.go.
-- `c.mu` makes each method one step; the time that `time.Now()` reads is an argument.
use hermi_nas.Prelude.{
  Option, String, ap, arith, eq_iff, if◌then◌else◌, leb, ltb, none, not, put, some, str_eq, ℕ, ◌&&◌,
  ◌+◌, ◌≡◌, ◌≤◌,
}
use hermi_nas.Prelude.Int.{ℤ, pos_part, is_pos}
use hermi_nas.Kernel.Errors.{Bytes}

pub record Entry : Type 0 where
  pub body : Bytes
  pub expires_at : ℕ

pub record Cache : Type 0 where
  pub ttl : ℤ
  pub entries : String → Option Entry

unfoldable pub new_cache : ℤ → Cache
new_cache ttl = record { ttl = ttl; entries = λ _. none }

find : ℕ → String → Option Entry → Cache → Option Bytes × Cache
find now key none c = (none, c)
find now key (some entry) c =
    if ltb entry.expires_at now
    then (none, record c { entries = put key none c.entries })
    else (some entry.body, c)

unfoldable pub get : ℕ → String → Cache → Option Bytes × Cache
unfolding find
get now key c = if not (is_pos c.ttl) then (none, c) else find now key (c.entries key) c

unfoldable pub set : ℕ → String → Bytes → Cache → Cache
set now key body c = if not (is_pos c.ttl) then c else record c {
  entries = put key (some (record { body = body; expires_at = now + pos_part c.ttl })) c.entries;
}

-- What a reader at a time sees under each key.
unfoldable pub visible : Cache → ℕ → String → Option Bytes
unfolding get
visible c now key = (get now key c).0

-- `Get` after `Set`, for every two keys: the key that was set holds its body until the ttl is over
-- and nothing after it, another key what it held; with no positive ttl nothing is ever held.
pub visible-set :
    (c : Cache) (set_at now : ℕ) (key j : String) (body : Bytes)
    → visible (set set_at key body c) now j ≡ (
        if str_eq key j
        then (if is_pos c.ttl && leb now (set_at + pos_part c.ttl) then some body else none)
        else visible c now j)
unfolding visible set
visible-set c set_at now key j body = ground arith

-- A `Get` does not change what any `Get` at the same time or later, of any key, returns.
pub visible-get :
    (c : Cache) (got_at now : ℕ) (key j : String)
    → got_at ≤ now
    → visible (get got_at key c).1 now j ≡ visible c now j
unfolding visible
visible-get c got_at now key j h = ground (arith, eq_iff key j, λ (e : key ≡ j). ap c.entries e)

-- The ttl never changes.
pub ttl-get : (c : Cache) (now : ℕ) (key : String) → (get now key c).1.ttl ≡ c.ttl
unfolding get
ttl-get c now key = ground arith
