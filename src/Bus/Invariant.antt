-- ===== src/Bus/Invariant.antt =====
-- What holds of a bus between two calls of its methods (engine/bus/bus.go).
pub mod Release
use hermi_nas.Prelude.{
  Bool-cases, Distinct, List, Option-cases, String, [], ap, arith, contains, contains-append,
  eq_iff, false, if◌then◌else◌, inl, inr, length, none, put, refl, some, str_eq, subst, sym, true,
  write, ℕ, ◌++◌, ◌<◌, ◌==◌, ◌^◌, ◌∷◌, ◌≡◌, ◌≢◌, ◌≤◌,
}
use hermi_nas.Prelude.Int.{ℤ}
use hermi_nas.Bus.{Bus, new, subscribed, remove, detach, unsubscribe, receive, receive}

Distinct-snoc :
    (xs : List ℕ) (a : ℕ) → Distinct xs → contains a xs ≡ false → Distinct (xs ++ a ∷ [])
Distinct-snoc [] a d h = (refl, tt)
Distinct-snoc (x ∷ xs) a d h =
    (ground (arith, contains-append x xs (a ∷ [])), Distinct-snoc xs a d.1 (ground arith))

module _ (id : ℕ) where
  not_removed : (xs : List ℕ) → remove id xs ≡ none → contains id xs ≡ false
  unfolding remove
  not_removed [] h = refl
  not_removed (x ∷ xs) h = ground (arith, not_removed xs)

  -- In a list with no repetition exactly the one entry goes.
  contains-remove :
      (j : ℕ) (xs : List ℕ) {ys : List ℕ}
      → Distinct xs
      → remove id xs ≡ some ys
      → contains j ys ≡ (if id == j then false else contains j xs)
  unfolding remove
  contains-remove j [] d h = cc
  contains-remove j (x ∷ xs) d h = elim (Option-cases (remove id xs)) [
    | inl e ↦ ground (arith, not_removed xs e)
    | inr (ys, e) ↦ ground (arith, contains-remove j xs d.1 e)
  ]

  remove-Distinct : (xs : List ℕ) {ys : List ℕ} → Distinct xs → remove id xs ≡ some ys → Distinct ys
  unfolding remove
  remove-Distinct [] d h = cc
  remove-Distinct (x ∷ xs) {ys} d h = elim (Option-cases (remove id xs)) [
    | inl e ↦ subst (λ l. Distinct l) (let p : xs ≡ ys = ground arith in p) d.1
    | inr (zs, e) ↦ elim (Bool-cases (x == id)) [
      | inl here ↦ subst (λ l. Distinct l) (let p : xs ≡ ys = ground arith in p) d.1
      | inr there ↦
          subst (λ l. Distinct l) (let p : x ∷ zs ≡ ys = ground arith in p)
            (ground (arith, contains-remove x xs d.1 e), remove-Distinct xs d.1 e)
    ]
  ]

  removed_listed : (xs : List ℕ) {ys : List ℕ} → remove id xs ≡ some ys → contains id xs ≡ true
  unfolding remove
  removed_listed [] h = cc
  removed_listed (x ∷ xs) h = elim (Option-cases (remove id xs)) [
    | inl e ↦ ground arith
    | inr (ys, e) ↦ ground (arith, removed_listed xs e)
  ]

module _ {ℓ} {A : Type ℓ} where
  pub record IsValid (b : Bus A) : Type ℓ where
    -- a listed channel was made by `subscribe`, and is open
    pub listed_old : (t : String) (i : ℕ) → contains i (b.subscribers t) ≡ true → i < b.next_id
    pub listed_open :
        (t : String) (i : ℕ) → contains i (b.subscribers t) ≡ true → (b.chans i).closed ≡ false
    -- no channel is listed twice, on one topic or on two
    pub listed_once : (t : String) → Distinct (b.subscribers t)
    pub one_topic :
        (s t : String) (i : ℕ)
        → contains i (b.subscribers s) ≡ true
        → contains i (b.subscribers t) ≡ true
        → s ≡ t
    pub bounded : (i : ℕ) → length (b.chans i).buffer ≤ b.buffer_size
    pub has_room : 0 < b.buffer_size
    pub counted : (t : String) → b.dropped t < 2 ^ 64

  pub new-IsValid : (n : ℤ) → IsValid (new n)
  unfolding new
  new-IsValid n = record {
    listed_old = λ t i h. cc;
    listed_open = λ t i h. cc;
    listed_once = λ t. tt;
    one_topic = λ s t i h k. cc;
    bounded = λ i. ground arith;
    has_room = ground arith;
    counted = λ t. omega arith;
  }

  module _ {b : Bus A} (v : IsValid b) where
    fresh : (t : String) → contains b.next_id (b.subscribers t) ≡ false
    fresh t = elim (Bool-cases (contains b.next_id (b.subscribers t))) [
      | inl h ↦ absurd (omega (arith, v.listed_old t b.next_id h))
      | inr h ↦ h
    ]

    pub subscribed-IsValid : (topic : String) → IsValid (subscribed topic b).1
    unfolding subscribed
    subscribed-IsValid topic = record {
      listed_old = λ t i h. ground (
        arith,
        v.listed_old t i,
        v.listed_old topic i,
        contains-append i (b.subscribers topic) (b.next_id ∷ []),
      );
      listed_open = λ t i h. ground (
        arith,
        v.listed_open t i,
        v.listed_open topic i,
        contains-append i (b.subscribers topic) (b.next_id ∷ []),
      );
      listed_once = λ t. elim (Bool-cases (str_eq topic t)) [
        | inl e ↦ rw e (Distinct-snoc _ b.next_id (v.listed_once topic) (fresh topic))
        | inr e ↦ rw e (v.listed_once t)
      ];
      one_topic = λ s t i h k. ground (
        arith,
        v.one_topic s t i,
        v.one_topic topic t i,
        v.one_topic s topic i,
        contains-append i (b.subscribers topic) (b.next_id ∷ []),
        fresh s,
        fresh t,
        eq_iff topic s,
        eq_iff topic t,
      );
      bounded = λ i. ground (arith, v.bounded i);
      has_room = v.has_room;
      counted = v.counted;
    }

    receive_once : (id : ℕ) (t : String) → Distinct ((receive id b).1.subscribers t)
    unfolding receive
    receive_once id t =
        let same : (receive id b).1.subscribers ≡ b.subscribers = ground arith in
        subst (λ (f : String → List ℕ). Distinct (f t)) (sym same) (v.listed_once t)

    pub receive-IsValid : (id : ℕ) → IsValid (receive id b).1
    unfolding receive
    receive-IsValid id = record {
      listed_old = λ t i h. ground (arith, v.listed_old t i);
      listed_open = λ t i h. ground (arith, v.listed_open t i);
      listed_once = λ t. receive_once id t;
      one_topic = λ s t i h k. ground (arith, v.one_topic s t i);
      bounded = λ i. ground (arith, v.bounded i, v.bounded id);
      has_room = ground (arith, v.has_room);
      counted = λ t. ground (arith, v.counted t);
    }

    module _ (topic : String) (id : ℕ) where
      after_detach : List ℕ → Bus A
      after_detach subs = record b {
        once = write id true b.once;
        subscribers = put topic subs b.subscribers;
        chans = write id (record (b.chans id) { closed = true }) b.chans;
      }

      module _ {subs : List ℕ} (e : remove id (b.subscribers topic) ≡ some subs) where
        detach-eq :
            detach topic id (record b { once = write id true b.once }) ≡ some (after_detach subs)
        unfolding detach after_detach
        detach-eq =
            ground (arith, v.listed_open topic id (removed_listed id (b.subscribers topic) e))

        kept :
            (t : String) (i : ℕ)
            → contains i ((after_detach subs).subscribers t) ≡ true
            → (contains i (b.subscribers t) ≡ true) × (i ≢ id)
        unfolding after_detach
        kept t i h = elim (Bool-cases (str_eq topic t)) [
          | inl p ↦
              let q : topic ≡ t = (eq_iff topic t).0 p in
              let there : contains i subs ≡ true = rw p at h in
              ground (
                arith,
                contains-remove id i (b.subscribers topic) (v.listed_once topic) e,
                ap b.subscribers q,
              )
          | inr p ↦
              let there : contains i (b.subscribers t) ≡ true = rw p at h in
              (
                there,
                λ same. ground (
                  arith,
                  v.one_topic topic t id,
                  removed_listed id (b.subscribers topic) e,
                  eq_iff topic t,
                  ap (λ (n : ℕ). contains n (b.subscribers t)) same,
                ),
              )
        ]

        after_detach-IsValid : IsValid (after_detach subs)
        unfolding after_detach
        after_detach-IsValid = record {
          listed_old = λ t i h. v.listed_old t i (kept t i h).0;
          listed_open = λ t i h. let k = kept t i h in ground (arith, v.listed_open t i k.0);
          listed_once = λ t. elim (Bool-cases (str_eq topic t)) [
            | inl p ↦ rw p (remove-Distinct id (b.subscribers topic) (v.listed_once topic) e)
            | inr p ↦ rw p (v.listed_once t)
          ];
          one_topic = λ s t i h k. v.one_topic s t i (kept s i h).0 (kept t i k).0;
          bounded = λ i. ground (arith, v.bounded i);
          has_room = v.has_room;
          counted = v.counted;
        }

      spent-IsValid : IsValid (record b { once = write id true b.once })
      spent-IsValid = record {
        listed_old = v.listed_old;
        listed_open = v.listed_open;
        listed_once = v.listed_once;
        one_topic = v.one_topic;
        bounded = v.bounded;
        has_room = v.has_room;
        counted = v.counted;
      }

      -- `Unsubscribe` never panics, and keeps the invariant.
      pub unsubscribe_total : (b' : Bus A) × (unsubscribe topic id b ≡ some b') × IsValid b'
      unfolding unsubscribe
      unsubscribe_total = elim (Bool-cases (b.once id)) [
        | inl ran ↦ (b, rw ran, v)
        | inr first ↦ elim (Option-cases (remove id (b.subscribers topic))) [
          | inl gone ↦
              (record b { once = write id true b.once }, rw (first, gone, detach), spent-IsValid)
          | inr (subs, e) ↦ (after_detach subs, rw first (detach-eq e), after_detach-IsValid e)
        ]
      ]
