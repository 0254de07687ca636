-- ===== src/WsHub/Hub/Queues.antt =====
-- What a broadcast does to the queues (engine/wshub/hub.go and client.go).
use hermi_nas.Prelude.{
  ==_iff, Bool, Bool-cases, Distinct, List, Option, String, [], ap, arith, contains, false,
  if◌then◌else◌, inl, inr, keep_if, length, not, refl, true, ℕ, ◌++◌, ◌<◌, ◌==◌, ◌∙◌, ◌∷◌, ◌≡◌, ◌≤◌,
}
use hermi_nas.Kernel.Errors.{Error, Result, Bytes, ok}
use hermi_nas.WsHub.Hub.{
  Payload, Client, Hub, queue, queue_all, encode, broadcast, send_queue_size, add, remove,
}

-- The client after a message was queued: behind what waits, or not at all, with the connection
-- closed.
pub record IsQueued (message : Bytes) (c c' : Client) : Type 0 where
  pub room :
      length c.out < send_queue_size → (c'.out ≡ c.out ++ message ∷ []) × (c'.closed ≡ c.closed)
  pub full : send_queue_size ≤ length c.out → (c'.out ≡ c.out) × (c'.closed ≡ true)
  pub subs : c'.subs ≡ c.subs

queue-IsQueued : (message : Bytes) (c : Client) → IsQueued message c (queue message c)
unfolding queue
queue-IsQueued message c = record {
  room = λ h. (ground (arith, h), ground (arith, h));
  full = λ h. (ground (arith, h), ground (arith, h));
  subs = ground arith;
}

queue_all-at :
    (message : Bytes) (is : List ℕ) (client : ℕ → Client) (i : ℕ)
    → Distinct is
    → queue_all message is client i ≡ (if contains i is then queue message (client i) else client i)
unfolding queue_all
queue_all-at message [] client i d = refl
queue_all-at message (j ∷ is) client i d =
    let others = queue_all message is client in
    elim (Bool-cases (j == i)) [
      | inl q ↦
          let untouched : others j ≡ client j =
            queue_all-at message is client j d.1 ∙ rw d.0 refl in
          let same : j ≡ i = (==_iff j i).0 q in
          rw q (ap (queue message) (untouched ∙ ap client same))
      | inr q ↦ rw q (queue_all-at message is client i d.1)
    ]

module _ (validate : Option (String → Payload → Option Error))
    (marshal : String → Payload → Result Bytes) (event : String) (payload : Payload) (h : Hub) where
  -- A broadcast whose message is valid and encodes reaches every client of the hub, each once: the
  -- message is behind what waits in its queue of 32, and where the queue is full the connection is
  -- closed. No other client changes, and the hub has the clients that it had.
  pub broadcast-IsQueued :
      {message : Bytes}
      → Distinct h.clients
      → encode validate marshal event payload ≡ ok message
      → let h' = (broadcast validate marshal event payload h).1 in
        (h'.clients ≡ h.clients)
        × ((i : ℕ) → contains i h.clients ≡ true → IsQueued message (h.client i) (h'.client i))
        × ((i : ℕ) → contains i h.clients ≡ false → h'.client i ≡ h.client i)
  unfolding broadcast
  broadcast-IsQueued {message} d e =
      rw (broadcast, e)
        (
          refl,
          λ i c.
              rw (queue_all-at message h.clients h.client i d, c)
                (queue-IsQueued message (h.client i)),
          λ i c. rw (queue_all-at message h.clients h.client i d, c) refl,
        )

contains-keep_if :
    (p : ℕ → Bool) (i : ℕ) (xs : List ℕ) → contains i xs ≡ false → contains i (keep_if p xs) ≡ false
contains-keep_if p i [] h = refl
contains-keep_if p i (x ∷ xs) h = ground (arith, contains-keep_if p i xs)

keep_if-Distinct : (p : ℕ → Bool) (xs : List ℕ) → Distinct xs → Distinct (keep_if p xs)
keep_if-Distinct p [] d = tt
keep_if-Distinct p (x ∷ xs) d = elim (Bool-cases (p x)) [
  | inl q ↦ rw q (contains-keep_if p x xs d.0, keep_if-Distinct p xs d.1)
  | inr q ↦ rw q (keep_if-Distinct p xs d.1)
]

-- No operation makes the hub have a client twice.
add-Distinct : (i : ℕ) (h : Hub) → Distinct h.clients → Distinct (add i h).clients
unfolding add
add-Distinct i h d = elim (Bool-cases (contains i h.clients)) [
  | inl q ↦ rw q d
  | inr q ↦ rw q (q, d)
]

pub remove-Distinct : (i : ℕ) (h : Hub) → Distinct h.clients → Distinct (remove i h).clients
unfolding remove
remove-Distinct i h d = keep_if-Distinct (λ j. not (j == i)) h.clients d
