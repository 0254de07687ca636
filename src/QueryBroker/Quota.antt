-- ===== src/QueryBroker/Quota.antt =====
-- Requests per minute for each user, engine/querybroker/quota.go.
-- `t.mu` makes `Allow` one step; the time that `time.Now()` reads is an argument.
use hermi_nas.Prelude.{
  Bool, List, String, [], arith, false, if◌then◌else◌, keep_if, leb, length, ltb, not, put, refl,
  true, ℕ, ◌++◌, ◌<◌, ◌∷◌, ◌≡◌, ◌≤◌,
}
use hermi_nas.Prelude.Int.{ℤ, pos_part, is_pos}
use hermi_nas.Window.{recent, Limiter}
use hermi_nas.Window.Bound.{
  InOrder, in_minute, accepted, accepted_bound, last_time, run, allow_exact,
}

pub record Quota : Type 0 where
  pub requests_per_minute : ℤ
  pub max_rows_to_read : ℕ  -- uint64

pub record QuotaTracker : Type 0 where
  pub quota : Quota
  pub windows : String → List ℕ

unfoldable pub new_quota_tracker : Quota → QuotaTracker
new_quota_tracker q = record { quota = q; windows = λ _. [] }

unfoldable pub allow : ℕ → String → QuotaTracker → Bool × QuotaTracker
allow now user_id t =
    if not (is_pos t.quota.requests_per_minute)
    then (true, t)
    else let kept = recent now (t.windows user_id) in
      if leb (pos_part t.quota.requests_per_minute) (length kept)
      then (false, record t { windows = put user_id kept t.windows })
      else (true, record t { windows = put user_id (kept ++ now ∷ []) t.windows })

abbrev pub limit : QuotaTracker → ℕ
limit t = pos_part t.quota.requests_per_minute

abbrev pub window : QuotaTracker → String → List ℕ
window t user_id = t.windows user_id

allow-Limiter : Limiter limit window allow
unfolding allow
allow-Limiter = record {
  decides = λ now key t h. ground arith;
  granted = λ now key j t h ok. ground arith;
  refused = λ now key j t h ok. ground arith;
  same_limit = λ now key t. ground arith;
}

-- With a positive quota and requests in the order of the clock, however the requests of all users
-- mix, no user has more than `requests_per_minute` requests granted in any minute.
pub granted-le-quota :
    (q : Quota) (user_id : String) (reqs : List (ℕ × String))
    → 0 < pos_part q.requests_per_minute
    → InOrder 0 reqs
    → (start : ℕ)
    → length (keep_if (in_minute start) (accepted allow user_id reqs (new_quota_tracker q)))
      ≤ pos_part q.requests_per_minute
unfolding new_quota_tracker
granted-le-quota q user_id reqs h o start =
    accepted_bound allow allow-Limiter user_id reqs (new_quota_tracker q) h refl o start

-- With a positive quota, after any requests in the order of the clock, a request that is no earlier
-- than they is granted exactly if the user has had fewer than `requests_per_minute` requests
-- granted in the minute before it.
pub allow-refuses_exactly :
    (q : Quota) (user_id : String) (reqs : List (ℕ × String))
    → 0 < pos_part q.requests_per_minute
    → InOrder 0 reqs
    → (now : ℕ) → last_time 0 reqs ≤ now
    → (allow now user_id (run allow reqs (new_quota_tracker q))).0
      ≡ ltb
          (length (recent now (accepted allow user_id reqs (new_quota_tracker q))))
          (pos_part q.requests_per_minute)
unfolding new_quota_tracker
allow-refuses_exactly q user_id reqs h o now later =
    allow_exact allow allow-Limiter user_id reqs (new_quota_tracker q) h refl o now later
