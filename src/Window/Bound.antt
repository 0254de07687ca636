-- ===== src/Window/Bound.antt =====
-- What a sliding window guarantees over time (engine/querybroker/quota.go,
-- engine/api/ratelimit.go).
use hermi_nas.Prelude.{
  Bool, Bool-cases, List, String, [], ap, arith, eq_iff, false, if◌then◌else◌, inl, inr, keep_if,
  keep_if-append, leb, length, length-append, ltb, refl, str_eq, subst, sym, true, ℕ, ◌&&◌, ◌++◌,
  ◌+◌, ◌<◌, ◌∙◌, ◌∷◌, ◌≡◌, ◌≤◌,
}
use mathlib.Core.List.{append-nil, append_assoc}
use text.Mathlib.TextPositions.{eq_refl}
use hermi_nas.Window.{minute, recent, Limiter}

-- Whether a time lies in the minute that begins at `start`.
abbrev pub in_minute : ℕ → ℕ → Bool
in_minute start ts = leb start ts && ltb ts (start + minute)

-- Requests as the clock orders them: none is earlier than `last`.
abbrev pub InOrder : ℕ → List (ℕ × String) → Type 0
InOrder last [] = Unit
InOrder last ((now, key) ∷ reqs) = (last ≤ now) × InOrder now reqs

-- The time of the last request, or `last` if there is none.
abbrev pub last_time : ℕ → List (ℕ × String) → ℕ
last_time last [] = last
last_time last ((now, key) ∷ reqs) = last_time now reqs

recent-recent :
    (last now : ℕ) (xs : List ℕ) → last ≤ now → recent now (recent last xs) ≡ recent now xs
recent-recent last now [] h = refl
recent-recent last now (x ∷ xs) h = ground (arith, recent-recent last now xs h)

-- All accepted times in a minute that holds `now` are recent at `now`.
in_minute-le-recent :
    (start now : ℕ) (xs : List ℕ)
    → in_minute start now ≡ true
    → length (keep_if (in_minute start) xs) ≤ length (recent now xs)
in_minute-le-recent start now [] h = omega arith
in_minute-le-recent start now (x ∷ xs) h = ground (arith, in_minute-le-recent start now xs h)

module _ {S : Type 0} (allow : ℕ → String → S → Bool × S) where
  -- The times at which the requests of one key are granted, in a run from `s`.
  unfoldable pub accepted : String → List (ℕ × String) → S → List ℕ
  accepted key [] s = []
  accepted key ((now, j) ∷ reqs) s =
      let (ok, s') = allow now j s in
      let rest = accepted key reqs s' in if ok && str_eq j key then now ∷ rest else rest

  pub run : List (ℕ × String) → S → S
  run [] s = s
  run ((now, j) ∷ reqs) s = run reqs (allow now j s).1

module _ {S : Type 0} {limit : S → ℕ} {window : S → String → List ℕ}
    (allow : ℕ → String → S → Bool × S) (L : Limiter limit window allow) where
  -- The window of the key holds the recent part of all that was accepted, and no minute has more
  -- accepted times than the limit.
  record Tracks (key : String) (bound last : ℕ) (past : List ℕ) (s : S) : Type 0 where
    positive : 0 < bound
    limited : limit s ≡ bound
    held : recent last (window s key) ≡ recent last past
    rate : (start : ℕ) → length (keep_if (in_minute start) past) ≤ bound

  module _ {key : String} {bound last : ℕ} {past : List ℕ} {s : S}
      (t : Tracks key bound last past s) (now : ℕ) (later : last ≤ now) where
    same_recent : recent now (window s key) ≡ recent now past
    same_recent =
        sym (recent-recent last now (window s key) later)
        ∙ ap (recent now) t.held
        ∙ recent-recent last now past later

    -- A request of another key, or a refused one, leaves what counts at `now`.
    Tracks-keep :
        (j : String)
        → recent now (window (allow now j s).1 key) ≡ recent now (window s key)
        → Tracks key bound now past (allow now j s).1
    Tracks-keep j same = record {
      positive = t.positive;
      limited = L.same_limit now j s ∙ t.limited;
      held = same ∙ same_recent;
      rate = t.rate;
    }

    enabled : 0 < limit s
    enabled = rw t.limited t.positive

    Tracks-refuse : (allow now key s).0 ≡ false → Tracks key bound now past (allow now key s).1
    Tracks-refuse no_room = Tracks-keep key (
        rw (L.refused now key key s enabled no_room, eq_refl)
          (recent-recent now now (window s key) (omega arith)))

    Tracks-other : (j : String) → str_eq j key ≡ false → Tracks key bound now past (allow now j s).1
    Tracks-other j differs = Tracks-keep j (ap (recent now) (same_window j differs))
      where
        same_window :
            (i : String) → str_eq i key ≡ false → window (allow now i s).1 key ≡ window s key
        same_window i d = elim (Bool-cases (allow now i s).0) [
          | inl ok ↦ rw (L.granted now i key s enabled ok, d)
          | inr ok ↦ rw (L.refused now i key s enabled ok, d)
        ]

    Tracks-grant :
        (allow now key s).0 ≡ true → Tracks key bound now (past ++ now ∷ []) (allow now key s).1
    Tracks-grant ok = record {
      positive = t.positive;
      limited = L.same_limit now key s ∙ t.limited;
      held =
          rw (L.granted now key key s enabled ok, eq_refl)
            (rw (keep_if-append, keep_if-append)
              (ground (arith, recent-recent now now (window s key), same_recent)));
      rate = λ start.
          rw (keep_if-append, length-append)
            (ground (
              arith,
              t.rate start,
              in_minute-le-recent start now past,
              L.decides now key s enabled,
              same_recent,
              t.limited,
            ));
    }

  accepted_grant :
      (key : String) {j : String} (now : ℕ) (reqs : List (ℕ × String)) (s : S)
      → j ≡ key
      → (allow now key s).0 ≡ true
      → accepted allow key ((now, j) ∷ reqs) s ≡ now ∷ accepted allow key reqs (allow now key s).1
  unfolding accepted
  accepted_grant key now reqs s e ok = rw (e, ok, eq_refl)

  accepted_refuse :
      (key : String) {j : String} (now : ℕ) (reqs : List (ℕ × String)) (s : S)
      → j ≡ key
      → (allow now key s).0 ≡ false
      → accepted allow key ((now, j) ∷ reqs) s ≡ accepted allow key reqs (allow now key s).1
  unfolding accepted
  accepted_refuse key now reqs s e ok = rw (e, ok)

  accepted_other :
      (key j : String) (now : ℕ) (reqs : List (ℕ × String)) (s : S)
      → str_eq j key ≡ false
      → accepted allow key ((now, j) ∷ reqs) s ≡ accepted allow key reqs (allow now j s).1
  unfolding accepted
  accepted_other key j now reqs s e = ground arith

  Tracks-run :
      (reqs : List (ℕ × String)) {key : String} {bound last : ℕ} {past : List ℕ} {s : S}
      → Tracks key bound last past s
      → InOrder last reqs
      → Tracks key bound
          (last_time last reqs)
          (past ++ accepted allow key reqs s)
          (run allow reqs s)
  unfolding run
  Tracks-run [] {key} {bound} {last} {s = s} t o =
      unfold accepted in subst (λ past. Tracks key bound last past s) (sym (append-nil _)) t
  Tracks-run ((now, j) ∷ reqs) {key} {past = past} {s} t o = elim (Bool-cases (str_eq j key)) [
    | inr e ↦
        rw (accepted_other key j now reqs s e) (Tracks-run reqs (Tracks-other t now o.0 j e) o.1)
    | inl e ↦
        let q : j ≡ key = (eq_iff j key).0 e in
        elim (Bool-cases (allow now key s).0) [
          | inl ok ↦
              rw (accepted_grant key now reqs s q ok, q, ← append_assoc past (now ∷ []))
                (Tracks-run reqs (Tracks-grant t now o.0 ok) o.1)
          | inr ok ↦
              rw (accepted_refuse key now reqs s q ok, q)
                (Tracks-run reqs (Tracks-refuse t now o.0 ok) o.1)
        ]
  ]

  module _ (key : String) (reqs : List (ℕ × String)) (s : S) (positive : 0 < limit s)
      (fresh : window s key ≡ []) (in_order : InOrder 0 reqs) where
    tracked : Tracks key (limit s) (last_time 0 reqs) (accepted allow key reqs s) (run allow reqs s)
    tracked =
        Tracks-run reqs {past = []}
          (record { positive = positive; limited = refl; held = rw fresh; rate = λ _. omega arith })
          in_order

    -- From a state whose window of the key is empty, in a run whose requests come in the order of
    -- the clock, no minute has more granted requests of the key than the limit.
    pub accepted_bound :
        (start : ℕ) → length (keep_if (in_minute start) (accepted allow key reqs s)) ≤ limit s
    accepted_bound start = tracked.rate start

    -- After the run, a request is granted exactly if fewer requests of its key than the limit were
    -- granted in the minute before it.
    pub allow_exact :
        (now : ℕ)
        → last_time 0 reqs ≤ now
        → (allow now key (run allow reqs s)).0
          ≡ ltb (length (recent now (accepted allow key reqs s))) (limit s)
    allow_exact now later = rw (
      L.decides now key (run allow reqs s) (enabled tracked now later),
      same_recent tracked now later,
      tracked.limited,
    )
