-- ===== src/Window.antt =====
-- The sliding window of one minute that engine/querybroker/quota.go and engine/api/ratelimit.go
-- both keep for each key, as an interface: two implementations fill it, and what follows from it
-- is proved once.
-- A `time.Time` is a number of nanoseconds. `ts.After(now.Add(-time.Minute))` is written with the
-- minute on the other side, since `-` on natural numbers stops at 0.
pub mod Bound
use hermi_nas.Prelude.{
  Bool, List, String, [], false, if◌then◌else◌, keep_if, length, ltb, str_eq, true, ℕ, ◌*◌, ◌++◌,
  ◌+◌, ◌<◌, ◌∷◌, ◌≡◌,
}

abbrev pub minute : ℕ
minute = 60 * 1000000000

abbrev pub after_cutoff : ℕ → ℕ → Bool
after_cutoff now ts = ltb now (ts + minute)

-- `kept`: the timestamps of the last minute.
abbrev pub recent : ℕ → List ℕ → List ℕ
recent now window = keep_if (after_cutoff now) window

pub record Limiter {S : Type 0} (limit : S → ℕ) (window : S → String → List ℕ)
    (allow : ℕ → String → S → Bool × S) : Type 0 where
  pub decides :
      (now : ℕ) (key : String) (s : S)
      → 0 < limit s
      → (allow now key s).0 ≡ ltb (length (recent now (window s key))) (limit s)
  pub granted :
      (now : ℕ) (key j : String) (s : S)
      → 0 < limit s
      → (allow now key s).0 ≡ true
      → window (allow now key s).1 j
        ≡ (if str_eq key j then recent now (window s key) ++ now ∷ [] else window s j)
  pub refused :
      (now : ℕ) (key j : String) (s : S)
      → 0 < limit s
      → (allow now key s).0 ≡ false
      → window (allow now key s).1 j
        ≡ (if str_eq key j then recent now (window s key) else window s j)
  pub same_limit : (now : ℕ) (key : String) (s : S) → limit (allow now key s).1 ≡ limit s
