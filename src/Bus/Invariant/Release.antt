-- ===== src/Bus/Invariant/Release.antt =====
-- What `Unsubscribe` gives back (engine/bus/bus.go).
use hermi_nas.Prelude.{
  Bool-cases, List, Option-cases, String, [], arith, contains, eq_iff, false, inl, inr, length,
  refl, some, str_eq, true, ℕ, ◌+◌, ◌==◌, ◌∷◌, ◌≡◌,
}
use hermi_nas.Bus.{Bus, unsubscribe, remove, subscriber_count}
use hermi_nas.Bus.Invariant.{
  IsValid, not_removed, detach-eq, after_detach, after_detach-IsValid, kept,
}

length-remove :
    (id : ℕ) (xs : List ℕ) {ys : List ℕ} → remove id xs ≡ some ys → length ys + 1 ≡ length xs
unfolding remove
length-remove id [] h = cc
length-remove id (x ∷ xs) h = elim (Option-cases (remove id xs)) [
  | inl e ↦ ground arith
  | inr (ys, e) ↦ ground (arith, length-remove id xs e)
]

module _ {ℓ} {A : Type ℓ} where
  pub record Released (topic : String) (id : ℕ) (b b' : Bus A) : Type ℓ where
    pub unlisted : (t : String) → contains id (b'.subscribers t) ≡ false
    pub closed : (b'.chans id).closed ≡ true
    pub waiting : (b'.chans id).buffer ≡ (b.chans id).buffer
    pub one_less : subscriber_count topic b' + 1 ≡ subscriber_count topic b
    pub other_topics : (t : String) → str_eq topic t ≡ false → b'.subscribers t ≡ b.subscribers t
    pub other_chans : (i : ℕ) → (id == i) ≡ false → b'.chans i ≡ b.chans i
    pub same_dropped : b'.dropped ≡ b.dropped
    pub valid : IsValid b'

  -- On a valid bus the first call of an `Unsubscribe` for a subscriber of its topic does not panic
  -- and takes exactly the one subscriber away: no topic lists it any more, its channel is closed with
  -- what waits in it, the topic has one subscriber less, the other topics and channels and the counts
  -- of dropped events are as they were, and the bus is valid.
  pub unsubscribe-Released :
      {b : Bus A} (topic : String) (id : ℕ)
      → IsValid b
      → b.once id ≡ false
      → contains id (b.subscribers topic) ≡ true
      → (b' : Bus A) × (unsubscribe topic id b ≡ some b') × Released topic id b b'
  unfolding unsubscribe after_detach subscriber_count
  unsubscribe-Released {b} topic id v first there =
      elim (Option-cases (remove id (b.subscribers topic))) [
        | inl e ↦ absurd (ground (arith, not_removed id (b.subscribers topic) e))
        | inr (subs, e) ↦ (
          after_detach v topic id subs,
          rw first (detach-eq v topic id e),
          record {
            unlisted = λ t.
                elim (Bool-cases (contains id ((after_detach v topic id subs).subscribers t))) [
                  | inl h ↦ absurd ((kept v topic id e t id h).1 refl)
                  | inr h ↦ h
                ];
            closed = ground arith;
            waiting = ground arith;
            one_less = ground (arith, eq_iff topic topic, length-remove id (b.subscribers topic) e);
            other_topics = λ t d. rw d;
            other_chans = λ i d. rw d;
            same_dropped = refl;
            valid = after_detach-IsValid v topic id e;
          },
        )
      ]
