-- ===== src/Api/RateLimit.antt =====
-- Requests per minute for each key (an address), engine/api/ratelimit.go.
-- `s.mu` makes `allow` one step; the time that `time.Now()` reads is an argument.
use hermi_nas.Prelude.{
  Bool, List, Option, String, [], arith, false, if◌then◌else◌, keep_if, leb, length, none, not, put,
  refl, some, true, ℕ, ◌++◌, ◌<◌, ◌∷◌, ◌≡◌, ◌≤◌,
}
use hermi_nas.Prelude.Int.{ℤ, pos_part, is_pos}
use hermi_nas.Window.{recent, Limiter}
use hermi_nas.Window.Bound.{InOrder, in_minute, accepted, accepted_bound}

pub record SlidingWindow : Type 0 where
  pub limit : ℤ
  pub windows : String → List ℕ

unfoldable pub new_sliding_window : ℤ → SlidingWindow
new_sliding_window limit = record { limit = limit; windows = λ _. [] }

unfoldable pub allow : ℕ → String → SlidingWindow → Bool × SlidingWindow
allow now key s =
    if not (is_pos s.limit)
    then (true, s)
    else let kept = recent now (s.windows key) in
      if leb (pos_part s.limit) (length kept)
      then (false, record s { windows = put key kept s.windows })
      else (true, record s { windows = put key (kept ++ now ∷ []) s.windows })

pub data Reply {ℓ} (A : Type ℓ) : Type ℓ where
  too_many_requests : Reply A
  served : A → Reply A

-- The wrapper that `RateLimit` returns, around the handler `next`.
unfoldable pub limited {ℓ} :
    {R : Type 0} {A : Type ℓ}
    → (R → String)
    → (R → A)
    → ℕ
    → R
    → SlidingWindow
    → Reply A × SlidingWindow
unfolding allow
limited key_func next now r s =
    let (ok, s') = allow now (key_func r) s in
    (if not ok then too_many_requests else served (next r), s')

-- `ByRemoteIP`: `net.SplitHostPort` is a parameter, which gives the host or an error.
unfoldable pub by_remote_ip : (String → Option String) → String → String
by_remote_ip split_host_port remote_addr = elim (split_host_port remote_addr) [
  | none ↦ remote_addr
  | some host ↦ host
]

allow-Limiter : Limiter (λ s. pos_part s.limit) (λ s key. s.windows key) allow
unfolding allow
allow-Limiter = record {
  decides = λ now key s h. ground arith;
  granted = λ now key j s h ok. ground arith;
  refused = λ now key j s h ok. ground arith;
  same_limit = λ now key s. ground arith;
}

-- With a positive limit and requests in the order of the clock, however the requests of all
-- addresses mix, no address has more than the limit of requests let through in any minute.
pub allowed-le-limit :
    (limit : ℤ) (key : String) (reqs : List (ℕ × String))
    → 0 < pos_part limit
    → InOrder 0 reqs
    → (start : ℕ)
    → length (keep_if (in_minute start) (accepted allow key reqs (new_sliding_window limit)))
      ≤ pos_part limit
unfolding new_sliding_window
allowed-le-limit limit key reqs h o start =
    accepted_bound allow allow-Limiter key reqs (new_sliding_window limit) h refl o start

-- A request that the limit refuses does not reach the handler: the answer is 429, the same for
-- every handler; one that it admits gets what the handler answers.
pub limited_answer {ℓ} :
    {R : Type 0} {A : Type ℓ} (key_func : R → String) (next : R → A) (now : ℕ) (r : R)
    (s : SlidingWindow)
    → (limited key_func next now r s).0
      ≡ (if (allow now (key_func r) s).0 then served (next r) else too_many_requests)
unfolding limited
limited_answer key_func next now r s = ground arith
