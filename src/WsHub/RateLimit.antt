-- ===== src/WsHub/RateLimit.antt =====
-- Control messages per second of one client, engine/wshub/ratelimit.go.
-- The time that `time.Now()` reads is an argument; `r.mu` makes `allow` one step.
use hermi_nas.Supervisor.Lifecycle.{start}
use hermi_nas.Prelude.{
  Bool, Bool-cases, List, [], arith, if◌then◌else◌, inl, inr, keep_if, leb, length, ltb, refl, ℕ,
  ◌&&◌, ◌*◌, ◌+◌, ◌-◌, ◌∙◌, ◌∷◌, ◌≡◌, ◌≤◌,
}

abbrev pub second : ℕ
second = 1000000000

pub record MessageRateLimiter : Type 0 where
  pub limit : ℕ
  pub window : ℕ
  pub count : ℕ

unfoldable pub new_message_rate_limiter : ℕ → ℕ → MessageRateLimiter
new_message_rate_limiter per_second now = record { limit = per_second; window = now; count = 0 }

abbrev counted : MessageRateLimiter → Bool × MessageRateLimiter
counted r = (leb (r.count + 1) r.limit, record r { count = r.count + 1 })

unfoldable pub allow : ℕ → MessageRateLimiter → Bool × MessageRateLimiter
allow now r =
    if leb (r.window + second) now
    then counted (record r { window = now; count = 0 })
    else counted r

-- The messages that are let through, of messages that come at the given times.
let_through : List ℕ → MessageRateLimiter → List ℕ
unfolding allow
let_through [] r = []
let_through (now ∷ times) r =
    let rest = let_through times (allow now r).1 in if (allow now r).0 then now ∷ rest else rest

-- No message comes before the one in front of it.
abbrev pub InOrder : ℕ → List ℕ → Type 0
InOrder from [] = Unit
InOrder from (t ∷ ts) = (from ≤ t) × InOrder t ts

abbrev in_second : ℕ → ℕ → Bool
in_second start t = leb start t && ltb t (start + second)

through : ℕ → List ℕ → MessageRateLimiter → ℕ
unfolding let_through
through start times r = length (keep_if (in_second start) (let_through times r))

through_step :
    (start t : ℕ) (ts : List ℕ) (r : MessageRateLimiter)
    → through start (t ∷ ts) r
      ≡ (if (allow t r).0 && in_second start t then 1 else 0) + through start ts (allow t r).1
unfolding through let_through
through_step start t ts r = elim (Bool-cases (allow t r).0) [
  | inl q ↦ ground (arith, q)
  | inr q ↦ ground (arith, q)
]

-- What comes behind the second does not count.
later_through :
    (start from : ℕ) (times : List ℕ) (r : MessageRateLimiter)
    → InOrder from times
    → start + second ≤ from
    → through start times r ≡ 0
unfolding through let_through
later_through start from [] r o p = refl
later_through start from (t ∷ ts) r o p =
    through_step start t ts r
    ∙ ground (arith, o.0, p, later_through start t ts (allow t r).1 o.1 (omega (arith, o.0, p)))

-- A window that began in the second: what it has left is all that is let through.
same_window_bound :
    (start from : ℕ) (times : List ℕ) (r : MessageRateLimiter)
    → InOrder from times
    → start ≤ r.window
    → through start times r ≤ r.limit - r.count
unfolding allow
same_window_bound start from [] r o p = unfold through in unfold let_through in omega arith
same_window_bound start from (t ∷ ts) r o p = elim (Bool-cases (leb (r.window + second) t)) [
  | inl q ↦
      let none_left : through start (t ∷ ts) r ≡ 0 =
        later_through start t (t ∷ ts) r (omega arith, o.1) (ground (arith, q)) in
      omega (arith, none_left)
  | inr q ↦ ground (
    arith,
    through_step start t ts r,
    q,
    same_window_bound start t ts (record r { count = r.count + 1 }) o.1 p,
  )
]

-- From the second's beginning on: what the window has left, and one window more.
two_windows_bound :
    (start from : ℕ) (times : List ℕ) (r : MessageRateLimiter)
    → InOrder from times
    → start ≤ from
    → through start times r ≤ (r.limit - r.count) + r.limit
unfolding allow
two_windows_bound start from [] r o p = unfold through in unfold let_through in omega arith
two_windows_bound start from (t ∷ ts) r o p = elim (Bool-cases (leb (r.window + second) t)) [
  | inl q ↦ ground (
    arith,
    through_step start t ts r,
    q,
    same_window_bound start t ts (record r { window = t; count = 1 }) o.1 (omega (arith, o.0, p)),
  )
  | inr q ↦ ground (
    arith,
    through_step start t ts r,
    q,
    two_windows_bound start t ts (record r { count = r.count + 1 }) o.1 (omega (arith, o.0, p)),
  )
]

allow-limit : (t : ℕ) (r : MessageRateLimiter) → (allow t r).1.limit ≡ r.limit
unfolding allow
allow-limit t r = ground arith

bound_from :
    (start from : ℕ) (times : List ℕ) (r : MessageRateLimiter)
    → InOrder from times
    → through start times r ≤ 2 * r.limit
bound_from start from [] r o = unfold through in unfold let_through in omega arith
bound_from start from (t ∷ ts) r o = elim (Bool-cases (leb start t)) [
  | inl q ↦
      omega (arith, two_windows_bound start t (t ∷ ts) r (omega arith, o.1) (ground (arith, q)))
  | inr q ↦ ground (
    arith,
    through_step start t ts r,
    q,
    allow-limit t r,
    bound_from start t ts (allow t r).1 o.1,
  )
]

-- Of messages in the order of the clock, whenever a second begins, at most twice the limit of a
-- client's messages is let through in it, since a new window may begin within it.
let_through-le :
    (per_second now : ℕ) (times : List ℕ)
    → InOrder now times
    → (start : ℕ)
    → length
        (keep_if (in_second start) (let_through times (new_message_rate_limiter per_second now)))
      ≤ 2 * per_second
unfolding new_message_rate_limiter through
let_through-le per_second now times o start =
    bound_from start now times (new_message_rate_limiter per_second now) o
