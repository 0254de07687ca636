-- ===== src/WsHub/Hub/Steps.antt =====
-- The hub and its clients as steps that interleave in any order (engine/wshub/hub.go, client.go and
-- handler.go): connections, messages that are read, departures, broadcasts, the messages of pollers,
-- and `writePump`.
use hermi_nas.Kernel.Errors.{Result-cases, Bytes, Error, Result, ok}
use hermi_nas.Prelude.{
  Bool-cases, arith, inl, inr, keep_if, length-append, ltb, not, refl, subst, sym, ◌==◌, ◌∙◌,
  ==_iff, Bool, Distinct, List, Option, String, [], contains, false, length, some, true, write, ℕ,
  ◌∷◌, ◌≡◌, ◌≤◌,
}
use hermi_nas.WsHub.Hub.{
  add, encode, handle_control_message, remove, Client, Payload, broadcast, depart, new_client,
  queue, queue_all, read_message, send, send_queue_size, serve_ws, take_out, Hub,
}
use hermi_nas.WsHub.Hub.Departure.{read_message-IsTidy}
use hermi_nas.WsHub.Hub.Queues.{remove-Distinct}
use hermi_nas.WsHub.Subscriptions.Live.{
  cancel_all-IsTidy, new-IsTidy, none-IsLive, new-silent, IsLive, IsTidy,
}
use hermi_nas.Auth.Jwt.{Claims}
use hermi_nas.WsHub.Subscriptions.{ControlMessage}

-- `New`, with a store in which nothing was subscribed to.
unfoldable pub new : Hub
unfolding new_client
new = record { clients = []; client = λ i. new_client "" 0 }

module _ (validate : Option (String → Payload → Option Error))
    (marshal : String → Payload → Result Bytes) (unmarshal : Bytes → Result ControlMessage) where
  -- One step of a goroutine. A connection gets a number that no client of the hub has; a poller may
  -- still send to a client that has left.
  pub data Step : Hub → Hub → Type 0 where
    connects :
        (h : Hub) (claims : Claims) (i now : ℕ)
        → contains i h.clients ≡ false
        → Step h (serve_ws (ok claims) (some i) now h).1
    reads :
        (h : Hub) (i now : ℕ) (message : Bytes)
        → contains i h.clients ≡ true
        → Step h (record h {
          client = write i (read_message unmarshal now message (h.client i)) h.client;
        })
    departs : (h : Hub) (i : ℕ) → contains i h.clients ≡ true → Step h (depart unmarshal i h)
    broadcasts :
        (h : Hub) (event : String) (payload : Payload)
        → Step h (broadcast validate marshal event payload h).1
    sends :
        (h : Hub) (i : ℕ) (event : String) (payload : Payload)
        → Step h (send validate marshal i event payload h).1
    writes :
        (h : Hub) (i : ℕ)
        → Step h (record h { client = write i (take_out (h.client i)).1 h.client })

  pub data Reach (from : Hub) : Hub → Type 0 where
    here : Reach from from
    next : {h h' : Hub} → Reach from h → Step h h' → Reach from h'

-- A client, with whether the hub has it.
pub record IsSound (member : Bool) (c : Client) : Type 0 where
  pub tidy : IsTidy c.subs
  pub room : length c.out ≤ send_queue_size
  pub silent : member ≡ false → (p : ℕ) → ¬ IsLive p c.subs

-- The hub has no client twice; no queue has more than its 32 messages; and no poller lives of a
-- client that the hub does not have.
pub record IsSafe (h : Hub) : Type 0 where
  pub distinct : Distinct h.clients
  pub sound : (i : ℕ) → IsSound (contains i h.clients) (h.client i)

write-IsSound :
    (member : ℕ → Bool) (i : ℕ) (c : Client) (client : ℕ → Client)
    → ((j : ℕ) → IsSound (member j) (client j))
    → IsSound (member i) c
    → (j : ℕ) → IsSound (member j) (write i c client j)
write-IsSound member i c client sound new j = elim (Bool-cases (i == j)) [
  | inl q ↦ rw q (subst (λ k. IsSound (member k) c) ((==_iff i j).0 q) new)
  | inr q ↦ rw q (sound j)
]

widen-IsSound : {m m' : Bool} {c : Client} → (m' ≡ false → m ≡ false) → IsSound m c → IsSound m' c
widen-IsSound to s = record { tidy = s.tidy; room = s.room; silent = λ q. s.silent (to q) }

queue-IsSound :
    (message : Bytes) (member : Bool) (c : Client)
    → IsSound member c
    → IsSound member (queue message c)
unfolding queue
queue-IsSound message member c s = elim (Bool-cases (ltb (length c.out) send_queue_size)) [
  | inl q ↦
      rw (queue, q)
        (record {
          tidy = s.tidy;
          room = ground (arith, q, length-append c.out (message ∷ []));
          silent = s.silent;
        })
  | inr q ↦ rw (queue, q) (record { tidy = s.tidy; room = s.room; silent = s.silent })
]

taken-IsSound : (member : Bool) (c : Client) → IsSound member c → IsSound member (take_out c).1
unfolding take_out
taken-IsSound member c s = record {
  tidy = subst (λ x. IsTidy x) (sym subs) s.tidy;
  room = ground (arith, s.room);
  silent = λ q p. subst (λ x. ¬ IsLive p x) (sym subs) (s.silent q p);
}
  where
    subs : (take_out c).1.subs ≡ c.subs
    subs = ground arith

queue_all-IsSound :
    (message : Bytes) (is : List ℕ) (member : ℕ → Bool) (client : ℕ → Client)
    → ((j : ℕ) → IsSound (member j) (client j))
    → (j : ℕ) → IsSound (member j) (queue_all message is client j)
unfolding queue_all
queue_all-IsSound message [] member client sound = sound
queue_all-IsSound message (i ∷ is) member client sound =
    let others = queue_all message is client in
    let sound' = queue_all-IsSound message is member client sound in
    write-IsSound member i (queue message (others i)) others sound'
      (queue-IsSound message (member i) (others i) (sound' i))

-- The clients that are left without one of them, and with one more.
contains-without_other :
    (i j : ℕ) (xs : List ℕ)
    → i == j ≡ false
    → contains j (keep_if (λ k. not (k == i)) xs) ≡ contains j xs
contains-without_other i j [] h = refl
contains-without_other i j (x ∷ xs) h = grind (arith, contains-without_other i j xs h)

add-IsSafe : (i : ℕ) (h : Hub) → IsSafe h → IsSafe (add i h)
unfolding add
add-IsSafe i h s = elim (Bool-cases (contains i h.clients)) [
  | inl q ↦ rw q s
  | inr q ↦ rw q (record {
    distinct = (q, s.distinct);
    sound = λ j. widen-IsSound (λ k. ground arith) (s.sound j);
  })
]

out-read_message :
    (unmarshal : Bytes → Result ControlMessage) (now : ℕ) (message : Bytes) (c : Client)
    → (read_message unmarshal now message c).out ≡ c.out
unfolding read_message handle_control_message
out-read_message unmarshal now message c = ground arith

depart-IsSafe :
    (unmarshal : Bytes → Result ControlMessage) (i : ℕ) (h : Hub)
    → IsSafe h
    → IsSafe (depart unmarshal i h)
unfolding depart remove
depart-IsSafe unmarshal i h s = record {
  distinct = remove-Distinct i h s.distinct;
  sound = λ j. elim (Bool-cases (i == j)) [
    | inl q ↦
        let here = s.sound i in
        rw (q, (==_iff i i).1 refl)
          (record {
            tidy = cancel_all-IsTidy (h.client i).subs here.tidy;
            room = here.room;
            silent = λ gone p. none-IsLive (h.client i).subs p here.tidy;
          })
    | inr q ↦ rw (q, contains-without_other i j h.clients q) (s.sound j)
  ];
}

module _ (validate : Option (String → Payload → Option Error))
    (marshal : String → Payload → Result Bytes) (unmarshal : Bytes → Result ControlMessage) where
  stored-IsSafe :
      (h : Hub) (i : ℕ) (c : Client)
      → IsSafe h
      → IsSound (contains i h.clients) c
      → IsSafe (record h { client = write i c h.client })
  stored-IsSafe h i c s new = record {
    distinct = s.distinct;
    sound = write-IsSound (λ j. contains j h.clients) i c h.client s.sound new;
  }

  Step-IsSafe : {h h' : Hub} → Step validate marshal unmarshal h h' → IsSafe h → IsSafe h'
  unfolding serve_ws broadcast send take_out new_client
  Step-IsSafe (connects h claims i now fresh) s = add-IsSafe i _ (
      stored-IsSafe h i (new_client claims.username now) s
        (record { tidy = new-IsTidy; room = omega arith; silent = λ q p. new-silent p }))
  Step-IsSafe (reads h i now message there) s =
      let old = s.sound i in
      stored-IsSafe h i (read_message unmarshal now message (h.client i)) s (record {
        tidy = read_message-IsTidy unmarshal i now message (h.client i) old.tidy;
        room = rw (out-read_message unmarshal now message (h.client i)) old.room;
        silent = λ q. absurd (let both = sym there ∙ q in cc);
      })
  Step-IsSafe (departs h i there) s = depart-IsSafe unmarshal i h s
  Step-IsSafe (broadcasts h event payload) s =
      elim (Result-cases (encode validate marshal event payload)) [
        | inr (e, q) ↦ rw (broadcast, q) s
        | inl (message, q) ↦
            rw (broadcast, q)
              (record {
                distinct = s.distinct;
                sound =
                    queue_all-IsSound message h.clients (λ j. contains j h.clients) h.client
                      s.sound;
              })
      ]
  Step-IsSafe (sends h i event payload) s =
      elim (Result-cases (encode validate marshal event payload)) [
        | inr (e, q) ↦ rw (send, q) s
        | inl (message, q) ↦
            rw (send, q)
              (stored-IsSafe h i (queue message (h.client i)) s
                (queue-IsSound message (contains i h.clients) (h.client i) (s.sound i)))
      ]
  Step-IsSafe (writes h i) s =
      stored-IsSafe h i (take_out (h.client i)).1 s
        (taken-IsSound (contains i h.clients) (h.client i) (s.sound i))

  -- However the connections, the messages, the departures, the broadcasts, the pollers and the
  -- writers of a new hub interleave: no client is in the hub twice, no queue has more than its 32
  -- messages, and no poller lives of a client that is not in the hub.
  pub Reach-IsSafe : {h : Hub} → Reach validate marshal unmarshal new h → IsSafe h
  unfolding new
  Reach-IsSafe here = record {
    distinct = tt;
    sound = λ i. record { tidy = new-IsTidy; room = omega arith; silent = λ q p. new-silent p };
  }
  Reach-IsSafe (next r step) = Step-IsSafe step (Reach-IsSafe r)
