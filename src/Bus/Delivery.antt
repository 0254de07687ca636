-- ===== src/Bus/Delivery.antt =====
-- What `Publish` delivers (engine/bus/bus.go).
use hermi_nas.Prelude.{
  ==_iff, Distinct, List, String, [], ap, arith, contains, eq_iff, false, if◌then◌else◌, length,
  length-append, ltb, put, refl, some, str_eq, suc, true, write, ℕ, ◌++◌, ◌+◌, ◌<◌, ◌==◌, ◌^◌, ◌∷◌,
  ◌≡◌, ◌≤◌,
}
use hermi_nas.Bus.{Bus, Chan, u64, try_send, deliver, publish}
use hermi_nas.Bus.Invariant.{IsValid}

module _ {ℓ} {A : Type ℓ} where
  -- The specification: a channel with room has the event at its end, a full one is as it was.
  abbrev pub offered : ℕ → A → Chan A → Chan A
  offered size event c =
      if ltb (length c.buffer) size then record c { buffer = c.buffer ++ event ∷ [] } else c

  -- How many of the listed channels are full.
  abbrev pub missed : Bus A → List ℕ → ℕ
  missed b [] = 0
  missed b (i ∷ ids) =
      if ltb (length (b.chans i).buffer) b.buffer_size then missed b ids else suc (missed b ids)

  pub record Delivered (topic : String) (event : A) (ids : List ℕ) (b b' : Bus A) : Type ℓ where
    pub same_subscribers : b'.subscribers ≡ b.subscribers
    pub same_next_id : b'.next_id ≡ b.next_id
    pub same_size : b'.buffer_size ≡ b.buffer_size
    pub same_once : b'.once ≡ b.once
    pub chans :
        (i : ℕ)
        → b'.chans i
          ≡ (if contains i ids then offered b.buffer_size event (b.chans i) else b.chans i)
    pub dropped :
        (t : String)
        → b'.dropped t ≡ (if str_eq topic t then u64 (b.dropped t + missed b ids) else b.dropped t)

  module _ (topic : String) (event : A) where
    -- What one round of the loop makes of the bus, where the channel is open.
    sent : ℕ → Bus A → Bus A
    sent id b =
        if ltb (length (b.chans id).buffer) b.buffer_size
        then record b {
          chans =
              write id (record (b.chans id) { buffer = (b.chans id).buffer ++ event ∷ [] }) b.chans;
        }
        else record b { dropped = put topic (u64 (b.dropped topic + 1)) b.dropped }

    try_send-eq :
        (id : ℕ) (b : Bus A)
        → (b.chans id).closed ≡ false
        → try_send topic event id b ≡ some (sent id b)
    unfolding try_send sent
    try_send-eq id b h = ground arith

    missed-sent :
        (id : ℕ) (b : Bus A) (ids : List ℕ)
        → contains id ids ≡ false
        → missed (sent id b) ids ≡ missed b ids
    unfolding sent
    missed-sent id b [] h = refl
    missed-sent id b (i ∷ ids) h = ground (arith, missed-sent id b ids)

    sent_same :
        (id : ℕ) (b : Bus A)
        → ((sent id b).subscribers ≡ b.subscribers)
          × ((sent id b).next_id ≡ b.next_id)
          × ((sent id b).buffer_size ≡ b.buffer_size)
          × ((sent id b).once ≡ b.once)
    unfolding sent
    sent_same id b = ground arith

    sent-chans :
        (id : ℕ) (b : Bus A) (i : ℕ)
        → (sent id b).chans i
          ≡ (if id == i then offered b.buffer_size event (b.chans i) else b.chans i)
    unfolding sent
    sent-chans id b i = ground (arith, λ (e : id ≡ i). ap b.chans e)

    sent-dropped :
        (id : ℕ) (b : Bus A) (t : String)
        → (sent id b).dropped t ≡ (
            if ltb (length (b.chans id).buffer) b.buffer_size
            then b.dropped t
            else if str_eq topic t
            then u64 (b.dropped t + 1)
            else b.dropped t)
    unfolding sent
    sent-dropped id b t = ground (arith, eq_iff topic t)

    sent-open :
        (id : ℕ) (ids : List ℕ) (b : Bus A)
        → ((i : ℕ) → contains i (id ∷ ids) ≡ true → (b.chans i).closed ≡ false)
        → (i : ℕ) → contains i ids ≡ true
        → ((sent id b).chans i).closed ≡ false
    sent-open id ids b o i h = ground (arith, sent-chans id b i, o i)

    sent-counted :
        (id : ℕ) (b : Bus A)
        → ((t : String) → b.dropped t < 2 ^ 64)
        → (t : String) → (sent id b).dropped t < 2 ^ 64
    sent-counted id b c t = ground (arith, sent-dropped id b t, c t)

    contains_eq : (id i : ℕ) (ids : List ℕ) → id ≡ i → contains id ids ≡ contains i ids
    contains_eq id i ids e = ap (λ (n : ℕ). contains n ids) e

    deliver_total :
        (ids : List ℕ) (b : Bus A)
        → Distinct ids
        → ((i : ℕ) → contains i ids ≡ true → (b.chans i).closed ≡ false)
        → ((t : String) → b.dropped t < 2 ^ 64)
        → (b' : Bus A) × (deliver topic event ids b ≡ some b') × Delivered topic event ids b b'
    unfolding deliver
    deliver_total [] b d o c = (
      b,
      refl,
      record {
        same_subscribers = refl;
        same_next_id = refl;
        same_size = refl;
        same_once = refl;
        chans = λ i. refl;
        dropped = λ t. ground (arith, c t);
      },
    )
    deliver_total (id ∷ ids) b d o c =
        let self : (b.chans id).closed ≡ false = o id (ground arith) in
        let (b', e, r) =
          deliver_total ids (sent id b) d.1 (sent-open id ids b o) (sent-counted id b c) in
        (
          b',
          rw (try_send-eq id b self) e,
          record {
            same_subscribers = ground (arith, r.same_subscribers, sent_same id b);
            same_next_id = ground (arith, r.same_next_id, sent_same id b);
            same_size = ground (arith, r.same_size, sent_same id b);
            same_once = ground (arith, r.same_once, sent_same id b);
            chans = λ i. ground (
              arith,
              r.chans i,
              sent-chans id b i,
              sent_same id b,
              d.0,
              ==_iff id i,
              contains_eq id i ids,
            );
            dropped = λ t.
                ground (
                  arith,
                  r.dropped t,
                  sent-dropped id b t,
                  missed-sent id b ids d.0,
                  eq_iff topic t,
                );
          },
        )

    module _ {b : Bus A} (v : IsValid b) where
      offered_fits :
          (size : ℕ) (c : Chan A)
          → length c.buffer ≤ size
          → length (offered size event c).buffer ≤ size
      offered_fits size c h = ground (arith, length-append c.buffer (event ∷ []))

      offered_closed : (size : ℕ) (c : Chan A) → (offered size event c).closed ≡ c.closed
      offered_closed size c = ground arith

      module _ {b' : Bus A} (r : Delivered topic event (b.subscribers topic) b b') where
        listed_same :
            (t : String) (i : ℕ) → contains i (b'.subscribers t) ≡ contains i (b.subscribers t)
        listed_same t i = rw r.same_subscribers

        Delivered-IsValid : IsValid b'
        Delivered-IsValid = record {
          listed_old = λ t i h. ground (arith, v.listed_old t i, listed_same t i, r.same_next_id);
          listed_open = λ t i h. ground (
            arith,
            v.listed_open t i,
            listed_same t i,
            r.chans i,
            offered_closed b.buffer_size (b.chans i),
          );
          listed_once = λ t. rw r.same_subscribers (v.listed_once t);
          one_topic =
              λ s t i h k. ground (arith, v.one_topic s t i, listed_same s i, listed_same t i);
          bounded = λ i. ground (
            arith,
            r.chans i,
            r.same_size,
            v.bounded i,
            offered_fits b.buffer_size (b.chans i) (v.bounded i),
          );
          has_room = ground (arith, r.same_size, v.has_room);
          counted = λ t. ground (arith, r.dropped t, v.counted t);
        }

      -- On a valid bus `Publish` never panics and leaves a valid bus. Every channel of the topic
      -- that has room gets the event at its end, every full one and every other channel stays as it
      -- was, and the topic's count of dropped events grows by the number of full channels, as a
      -- uint64.
      pub publish_total :
          (b' : Bus A) × (publish topic event b ≡ some b')
          × Delivered topic event (b.subscribers topic) b b'
          × IsValid b'
      unfolding publish
      publish_total =
          let (b', e, r) =
            deliver_total (b.subscribers topic) b (v.listed_once topic) (v.listed_open topic)
              v.counted in
          (b', e, r, Delivered-IsValid r)
