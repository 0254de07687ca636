-- ===== src/Bus/Traces.antt =====
-- The event bus over whole sequences of calls (engine/bus/bus.go).
use hermi_nas.Prelude.{
  List, Option, Option-cases, String, [], arith, contains, inl, inr, length, length-append, refl,
  some, true, write, ℕ, ◌++◌, ◌+◌, ◌>>=◌, ◌∙◌, ◌∷◌, ◌≡◌, ◌≤◌,
}
use mathlib.Core.List.{append-nil, append_assoc}
use hermi_nas.Prelude.Int.{ℤ}
use hermi_nas.Bus
use hermi_nas.Bus.{Bus, detach, leb}
use hermi_nas.Bus.Invariant.{
  IsValid, new-IsValid, subscribed-IsValid, unsubscribe_total, receive-IsValid,
}
use hermi_nas.Bus.Delivery.{publish_total}

-- What the goroutines that share the bus may call, in any order.
pub data Call {ℓ} (A : Type ℓ) : Type ℓ where
  subscribe : String → Call A
  unsubscribe : String → ℕ → Call A
  publish : String → A → Call A
  receive : ℕ → Call A

module _ {ℓ} {A : Type ℓ} where
  -- With the size of the largest buffer that `make` makes.
  pub step : ℕ → Call A → Bus A → Option (Bus A)
  unfolding Bus.subscribe
  step most (Call.subscribe t) b = do (id, b') ← Bus.subscribe most t b; some b'
  step most (Call.unsubscribe t i) b = Bus.unsubscribe t i b
  step most (Call.publish t e) b = Bus.publish t e b
  step most (Call.receive i) b = some (Bus.receive i b).1

  pub run : ℕ → List (Call A) → Bus A → Option (Bus A)
  unfolding step
  run most [] b = some b
  run most (c ∷ calls) b = do b' ← step most c b; run most calls b'

  size-detach :
      (topic : String) (id : ℕ) (b b' : Bus A)
      → Bus.detach topic id b ≡ some b'
      → b'.buffer_size ≡ b.buffer_size
  unfolding Bus.detach
  size-detach topic id b b' h = elim (Option-cases (Bus.remove id (b.subscribers topic))) [
    | inl e ↦ ground arith
    | inr (subs, e) ↦ ground arith
  ]

  size-unsubscribe :
      (topic : String) (id : ℕ) (b b' : Bus A)
      → Bus.unsubscribe topic id b ≡ some b'
      → b'.buffer_size ≡ b.buffer_size
  unfolding Bus.unsubscribe
  size-unsubscribe topic id b b' h =
      ground (arith, size-detach topic id (record b { once = write id true b.once }) b')

  size-receive : (id : ℕ) (b : Bus A) → (Bus.receive id b).1.buffer_size ≡ b.buffer_size
  unfolding Bus.receive
  size-receive id b = ground arith

  step_total :
      (most : ℕ) (c : Call A) {b : Bus A}
      → IsValid b
      → b.buffer_size ≤ most
      → (b' : Bus A) × (step most c b ≡ some b') × IsValid b' × (b'.buffer_size ≤ most)
  unfolding step Bus.subscribe Bus.subscribed
  step_total most (Call.subscribe t) {b} v fits =
      let small : leb b.buffer_size most ≡ true = ground (arith, fits) in
      ((Bus.subscribed t b).1, rw small refl, subscribed-IsValid v t, fits)
  step_total most (Call.unsubscribe t i) {b} v fits =
      let (b', p, w) = unsubscribe_total v t i in
      (b', p, w, ground (arith, fits, size-unsubscribe t i b b' p))
  step_total most (Call.publish t e) v fits =
      let (b', p, r, w) = publish_total t e v in (b', p, w, ground (arith, fits, r.same_size))
  step_total most (Call.receive i) {b} v fits =
      ((Bus.receive i b).1, refl, receive-IsValid v i, ground (arith, fits, size-receive i b))

  run_total_from :
      (most : ℕ) (calls : List (Call A)) {b : Bus A}
      → IsValid b
      → b.buffer_size ≤ most
      → (b' : Bus A) × (run most calls b ≡ some b') × IsValid b'
  unfolding run
  run_total_from most [] {b} v fits = (b, refl, v)
  run_total_from most (c ∷ calls) v fits =
      let (b1, p, w, fits1) = step_total most c v fits in
      let (b2, q, x) = run_total_from most calls w fits1 in (b2, rw p q, x)

  -- From a new bus whose buffer size, 16 where the argument is not positive, is one that `make` makes
  -- a channel of, no sequence of calls of `Subscribe`, `Unsubscribe`, `Publish` and receives ends in
  -- a panic, and the bus is valid at its end.
  pub run_total :
      (most : ℕ) (buffer_size : ℤ) (calls : List (Call A))
      → (Bus.new {A = A} buffer_size).buffer_size ≤ most
      → (b : Bus A) × (run most calls (Bus.new buffer_size) ≡ some b) × IsValid b
  run_total most buffer_size calls fits = run_total_from most calls (new-IsValid buffer_size) fits

  pub publish_all : String → List A → Bus A → Option (Bus A)
  publish_all topic [] b = some b
  publish_all topic (e ∷ events) b = do b' ← Bus.publish topic e b; publish_all topic events b'

  -- On a valid bus, a subscriber whose buffer has room for all the events that are published on its
  -- topic gets them all, in their order, behind what waits there, however full the other
  -- subscribers are.
  pub publish_all-in_order :
      (topic : String) (id : ℕ) (events : List A) {b : Bus A}
      → IsValid b
      → contains id (b.subscribers topic) ≡ true
      → length (b.chans id).buffer + length events ≤ b.buffer_size
      → (b' : Bus A) × (publish_all topic events b ≡ some b')
        × ((b'.chans id).buffer ≡ (b.chans id).buffer ++ events)
  unfolding publish_all
  publish_all-in_order topic id [] {b} v h room = (b, refl, rw append-nil)
  publish_all-in_order topic id (e ∷ events) {b} v h room =
      let (b1, p, r, w) = publish_total topic e v in
      let got : (b1.chans id).buffer ≡ (b.chans id).buffer ++ e ∷ [] = ground (arith, r.chans id) in
      let (b2, q, x) =
        publish_all-in_order topic id events w (rw r.same_subscribers h)
          (ground (arith, got, r.same_size, length-append (b.chans id).buffer (e ∷ []))) in
      (b2, rw p q, x ∙ rw (got, append_assoc))

  once-detach :
      (topic : String) (id : ℕ) (b b' : Bus A) → Bus.detach topic id b ≡ some b' → b'.once ≡ b.once
  unfolding Bus.detach
  once-detach topic id b b' h = elim (Option-cases (Bus.remove id (b.subscribers topic))) [
    | inl e ↦ ground arith
    | inr (subs, e) ↦ ground arith
  ]

  once-unsubscribe :
      (topic : String) (id : ℕ) (b b' : Bus A)
      → Bus.unsubscribe topic id b ≡ some b'
      → b'.once id ≡ true
  unfolding Bus.unsubscribe
  once-unsubscribe topic id b b' h =
      ground (arith, once-detach topic id (record b { once = write id true b.once }) b')

  -- After a call of an `Unsubscribe` that does not panic, the second call does nothing.
  unsubscribe_twice :
      (topic : String) (id : ℕ) (b b' : Bus A)
      → Bus.unsubscribe topic id b ≡ some b'
      → Bus.unsubscribe topic id b' ≡ some b'
  unfolding Bus.unsubscribe
  unsubscribe_twice topic id b b' h = rw (once-unsubscribe topic id b b' h)
