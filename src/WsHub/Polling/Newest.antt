-- ===== src/WsHub/Polling/Newest.antt =====
-- The value seen last is the largest (`maxSinceColumn` of engine/wshub/subscription.go).
use hermi_nas.Prelude.{
  some_injective, All, Bool-cases, List, Option, String, [], ap, arith, false, inl, inr, none, refl,
  some, subst, suc, sym, true, zero, ℕ, ◌∙◌, ◌∷◌, ◌≡◌, ◌⊎◌,
}
use Prim.Native.String.compare
use text.Mathlib.TextPositions.{compare_refl}
use hermi_nas.Kernel.Errors.{Result, Bytes, ok, err}
use hermi_nas.WsHub.Subscriptions.{ControlMessage}
use hermi_nas.WsHub.Polling.{
  exceeds, max_since_column, newer, polled, poll_from, query_of, is_incremental,
}

-- The order of Go's texts.
pub AtMost : String → String → Type 0
AtMost a b = exceeds a b ≡ false

AtMost_refl : (a : String) → AtMost a a
unfolding AtMost
AtMost_refl a = rw compare_refl refl

AtMost_trans : (a b c : String) → AtMost a b → AtMost b c → AtMost a c
unfolding AtMost
AtMost_trans String.[] String.[] c p q = q
AtMost_trans String.[] (String.◌∷◌ y b) String.[] p q = AtMost_refl ""
AtMost_trans String.[] (String.◌∷◌ y b) (String.◌∷◌ z c) p q = rw (compare.cons-nil z c) refl
AtMost_trans (String.◌∷◌ x a) String.[] c p q = absurd (ground (arith, p, compare.nil-cons x a))
AtMost_trans (String.◌∷◌ x a) (String.◌∷◌ y b) String.[] p q =
    absurd (ground (arith, q, compare.nil-cons y b))
AtMost_trans (String.◌∷◌ x a) (String.◌∷◌ y b) (String.◌∷◌ z c) p q =
    let p' = rw (compare.cons-cons y x b a) at p in
    let q' = rw (compare.cons-cons z y c b) at q in
    rw (compare.cons-cons z x c a) (ground (arith, p', q', AtMost_trans a b c))

AtMost_of_exceeds : (a b : String) → exceeds a b ≡ true → AtMost b a
unfolding AtMost
AtMost_of_exceeds String.[] String.[] h = AtMost_refl ""
AtMost_of_exceeds String.[] (String.◌∷◌ y b) h = absurd (ground (arith, h, compare.cons-nil y b))
AtMost_of_exceeds (String.◌∷◌ x a) String.[] h = rw (compare.cons-nil x a) refl
AtMost_of_exceeds (String.◌∷◌ x a) (String.◌∷◌ y b) h =
    let h' = rw (compare.cons-cons y x b a) at h in
    rw (compare.cons-cons x y a b) (ground (arith, h', AtMost_of_exceeds a b))

module _ (field : String → Bytes → Option String) (column : String) where
  -- One of the rows has the value.
  pub IsValue : String → List Bytes → Type 0
  IsValue val [] = ⊥
  IsValue val (row ∷ rows) = (field column row ≡ some val) ⊎ IsValue val rows

  -- The values that are not below what was seen before, and not below any row's.
  record IsNewest (rows : List Bytes) (current max : String) : Type 0 where
    pub grown : AtMost current max
    pub covers_rows :
        All (λ row. (val : String) → field column row ≡ some val → AtMost val max) rows
    pub attained : (max ≡ current) ⊎ IsValue max rows

  newer_lem :
      (o : Option String) (current : String)
      → AtMost current (newer o current)
        × ((val : String) → o ≡ some val → AtMost val (newer o current))
        × ((newer o current ≡ current) ⊎ (o ≡ some (newer o current)))
  unfolding newer
  newer_lem none current = (AtMost_refl current, λ val h. cc, inl refl)
  newer_lem (some v) current = elim (Bool-cases (exceeds v current)) [
    | inl q ↦ rw q (
      AtMost_of_exceeds v current q,
      λ val h. subst (λ x. AtMost x v) (some_injective h) (AtMost_refl v),
      inr refl,
    )
    | inr q ↦ rw q (
      AtMost_refl current,
      λ val h. subst (λ x. AtMost x current) (some_injective h) (unfold AtMost in q),
      inl refl,
    )
  ]

  -- `maxSinceColumn` gives the largest of the value seen last and of the values that the rows have
  -- under the column, in the order of Go's texts: none of these is larger, and it is one of them.
  max_since_column-IsNewest :
      (rows : List Bytes) (current : String)
      → IsNewest rows current (max_since_column field rows column current)
  unfolding max_since_column IsValue
  max_since_column-IsNewest [] current = record {
    grown = AtMost_refl current;
    covers_rows = tt;
    attained = inl refl;
  }
  max_since_column-IsNewest (row ∷ rows) current =
      let next = newer (field column row) current in
      let (more, covered, from) = newer_lem (field column row) current in
      let rest = max_since_column-IsNewest rows next in
      record {
        grown = AtMost_trans current next (max_since_column field rows column next) more rest.grown;
        covers_rows = (
          λ val h.
              AtMost_trans val next (max_since_column field rows column next) (covered val h)
                rest.grown,
          rest.covers_rows,
        );
        attained = elim rest.attained [
          | inr found ↦ inr (inr found)
          | inl kept ↦ elim from [
            | inl same ↦ inl (kept ∙ same)
            | inr there ↦ inr (inl (there ∙ ap some (sym kept)))
          ]
        ];
      }

module _ (field : String → Bytes → Option String) (execute : ℕ → String → Result (List Bytes))
    (msg : ControlMessage) where
  polled_grows :
      (answer : Result (List Bytes)) (last_seen : String)
      → AtMost last_seen (polled field msg answer last_seen).1
  unfolding polled
  polled_grows (err e) last_seen = AtMost_refl last_seen
  polled_grows (ok rows) last_seen = elim (Bool-cases (is_incremental msg)) [
    | inl q ↦ rw q (max_since_column-IsNewest field msg.since_column rows last_seen).grown
    | inr q ↦ rw q (AtMost_refl last_seen)
  ]

  -- However many ticks go by, and whatever the queries answer at them, errors included, the value
  -- that a poller has seen last never falls in the order of Go's texts.
  poll_from_grows :
      (ticks tick : ℕ) (last_seen : String)
      → AtMost last_seen (poll_from field execute msg ticks tick last_seen).1
  unfolding poll_from
  poll_from_grows zero tick last_seen = AtMost_refl last_seen
  poll_from_grows (suc ticks) tick last_seen =
      let answer = execute tick (query_of msg last_seen) in
      let seen = (polled field msg answer last_seen).1 in
      AtMost_trans last_seen seen (poll_from field execute msg ticks (suc tick) seen).1
        (polled_grows answer last_seen) (poll_from_grows ticks (suc tick) seen)
