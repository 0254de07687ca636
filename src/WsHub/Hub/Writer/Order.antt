-- ===== src/WsHub/Hub/Writer/Order.antt =====
-- What a connection carries is what was queued, in its order (engine/wshub/client.go).
use hermi_nas.Prelude.{
  ◌+◌, subst, Bool, Bool-cases, List, Option, [], ap, arith, false, if◌then◌else◌, inl, inr, length,
  ltb, none, refl, some, sym, true, ℕ, ◌++◌, ◌∙◌, ◌∷◌, ◌≡◌, ◌≤◌,
}
use mathlib.Core.List.{append-nil, append_assoc}
use hermi_nas.Kernel.Errors.{Bytes, Error}
use hermi_nas.WsHub.Hub.{Client, queue, send_queue_size, take_out}
use hermi_nas.WsHub.Hub.Writer.{
  Conn, Event, Laws, Line, accepted, all_accepted, goes_on, happen, has_room, live, ping_message,
  taken, pump, pumped, text_message, tick, write_wait, queued, woken, ticked,
}

module _ {W : Type 0} (C : Conn W) (L : Laws C) where
  -- The texts that the connection has taken, and behind them what waits in the queue.
  pub stream : Line C → List Bytes
  stream l = L.texts l.conn ++ l.client.out

  -- A pump that has ended leaves the connection's texts as they are.
  stopped_step :
      (e : Event C) (l : Line C)
      → l.running ≡ false
      → (L.texts (happen C e l).conn ≡ L.texts l.conn)
        × ((happen C e l).client.out ≡ l.client.out ++ accepted C e l)
        × ((happen C e l).running ≡ false)
  unfolding happen accepted queue has_room
  stopped_step (queued m) l s = elim (Bool-cases (ltb (length l.client.out) send_queue_size)) [
    | inl q ↦ rw q (refl, refl, s)
    | inr q ↦ rw q (L.closed l.conn, sym (append-nil l.client.out), s)
  ]
  stopped_step (woken now) l s = rw s (refl, sym (append-nil l.client.out), refl)
  stopped_step (ticked now) l s = rw s (refl, sym (append-nil l.client.out), refl)

  stopped_lem :
      (es : List (Event C)) (l : Line C)
      → l.running ≡ false
      → (L.texts (live C es l).conn ≡ L.texts l.conn)
        × ((live C es l).client.out ≡ l.client.out ++ all_accepted C es l)
        × ((live C es l).running ≡ false)
  unfolding live all_accepted
  stopped_lem [] l s = (refl, sym (append-nil l.client.out), s)
  stopped_lem (e ∷ es) l s =
      let (texts, out, off) = stopped_step e l s in
      let (texts', out', off') = stopped_lem es (happen C e l) off in
      (
        texts' ∙ texts,
        out'
            ∙ ap (λ x. x ++ all_accepted C es (happen C e l)) out
            ∙ append_assoc l.client.out (accepted C e l) (all_accepted C es (happen C e l)),
        off',
      )

  -- What is on the connection and in the queue, but for a message that was lost, is `all`.
  pub record Carries (all : List Bytes) (l : Line C) : Type 0 where
    pub lost : List Bytes
    pub whole : L.texts l.conn ++ (lost ++ l.client.out) ≡ all
    pub one : length lost ≤ 1
    pub kept : l.running ≡ true → lost ≡ []

  nothing-Carries : (l : Line C) (all : List Bytes) → stream l ≡ all → Carries all l
  unfolding stream
  nothing-Carries l all h = record { lost = []; whole = h; one = omega arith; kept = λ _. refl }

  unmoved-Carries : (l : Line C) → Carries (stream l ++ []) l
  unmoved-Carries l = nothing-Carries l (stream l ++ []) (sym (append-nil (stream l)))

  wrote-Carries :
      (l : Line C) (m : Bytes) (c : Client) (w : W) (r : Option Error × W)
      → l.client.out ≡ m ∷ c.out
      → L.texts w ≡ L.texts l.conn
      → C.write_message text_message m w ≡ r
      → Carries
          (stream l ++ [])
          (record { client = c; conn = (goes_on C r).1; running = (goes_on C r).0 })
  unfolding goes_on stream
  wrote-Carries l m c w (none, w') out same e =
      nothing-Carries (record { client = c; conn = w'; running = true }) (stream l ++ [])
        (ap (λ x. x ++ c.out) (L.written m w w' e ∙ ap (λ x. x ++ m ∷ []) same)
          ∙ append_assoc (L.texts l.conn) (m ∷ []) c.out
          ∙ ap (λ x. L.texts l.conn ++ x) (sym out)
          ∙ sym (append-nil (stream l)))
  wrote-Carries l m c w (some x, w') out same e = record {
    lost = m ∷ [];
    whole =
        ap (λ x. x ++ m ∷ c.out) (L.closed w' ∙ L.refused m w w' x e ∙ same)
        ∙ ap (λ x. L.texts l.conn ++ x) (sym out)
        ∙ sym (append-nil (stream l));
    one = omega arith;
    kept = λ on. cc;
  }

  pinged-Carries :
      (l : Line C) (w : W) (r : Option Error × W)
      → L.texts w ≡ L.texts l.conn
      → C.write_message ping_message [] w ≡ r
      → Carries
          (stream l ++ [])
          (record { client = l.client; conn = (goes_on C r).1; running = (goes_on C r).0 })
  unfolding goes_on stream
  pinged-Carries l w (none, w') same e =
      nothing-Carries (record { client = l.client; conn = w'; running = true }) (stream l ++ [])
        (ap (λ x. x ++ l.client.out) (sym (ap (λ r. L.texts r.1) e) ∙ L.pinged w ∙ same)
          ∙ sym (append-nil (stream l)))
  pinged-Carries l w (some x, w') same e =
      nothing-Carries (record { client = l.client; conn = C.close w'; running = false })
        (stream l ++ [])
        (ap (λ x. x ++ l.client.out)
            (L.closed w' ∙ sym (ap (λ r. L.texts r.1) e) ∙ L.pinged w ∙ same)
          ∙ sym (append-nil (stream l)))

  take_out-some :
      (c : Client) {c' : Client} {m : Bytes} → take_out c ≡ (some m, c') → c.out ≡ m ∷ c'.out
  unfolding take_out
  take_out-some c h = ground arith

  taken-Carries :
      (now : ℕ) (l : Line C) (r : Option Bytes × Client)
      → take_out l.client ≡ r
      → Carries (stream l ++ []) (taken C now r l)
  unfolding taken pumped pump
  taken-Carries now l (none, c) h = unmoved-Carries l
  taken-Carries now l (some m, c) h =
      let w = C.set_write_deadline (now + write_wait) l.conn in
      wrote-Carries l m c w (C.write_message text_message m w) (take_out-some l.client h)
        (L.deadline (now + write_wait) l.conn) refl

  ticked-Carries : (now : ℕ) (l : Line C) → Carries (stream l ++ []) (pumped C now tick l.client l)
  unfolding pumped pump
  ticked-Carries now l =
      let w = C.set_write_deadline (now + write_wait) l.conn in
      pinged-Carries l w (C.write_message ping_message [] w) (L.deadline (now + write_wait) l.conn)
        refl

  if-Carries :
      {all : List Bytes} {x y : Line C} (b : Bool)
      → Carries all x
      → Carries all y
      → Carries all (if b then x else y)
  if-Carries true h k = h
  if-Carries false h k = k

  step-Carries : (e : Event C) (l : Line C) → Carries (stream l ++ accepted C e l) (happen C e l)
  unfolding happen accepted stream queue has_room
  step-Carries (queued m) l = elim (Bool-cases (ltb (length l.client.out) send_queue_size)) [
    | inl q ↦ rw q (nothing-Carries _ _ (sym (append_assoc (L.texts l.conn) l.client.out (m ∷ []))))
    | inr q ↦ rw q (
        nothing-Carries _ _
          (ap (λ x. x ++ l.client.out) (L.closed l.conn) ∙ sym (append-nil (stream l))))
  ]
  step-Carries (woken now) l =
      if-Carries l.running (taken-Carries now l (take_out l.client) refl) (unmoved-Carries l)
  step-Carries (ticked now) l = if-Carries l.running (ticked-Carries now l) (unmoved-Carries l)

  -- However messages are queued and the pump is woken, and whether writes fail: the texts that the
  -- connection took and those that still wait are, one behind the other, what they were before and
  -- then each message that found room, once and in its order; but for at most one, which was at the
  -- head of the queue when its write failed, and none while the pump runs.
  pub live-Carries :
      (es : List (Event C)) (l : Line C) → Carries (stream l ++ all_accepted C es l) (live C es l)
  unfolding live all_accepted stream
  live-Carries [] l = unmoved-Carries l
  live-Carries (e ∷ es) l =
      let l1 = happen C e l in
      let s = step-Carries e l in
      let later = all_accepted C es l1 in
      elim (Bool-cases (happen C e l).running) [
        | inl on ↦
            let here : stream l1 ≡ stream l ++ accepted C e l =
              ap (λ x. L.texts l1.conn ++ (x ++ l1.client.out)) (sym (s.kept on)) ∙ s.whole in
            subst (λ all. Carries all (live C es l1))
              (ap (λ x. x ++ later) here ∙ append_assoc (stream l) (accepted C e l) later)
              (live-Carries es l1)
        | inr off ↦
            let (texts, out, off') = stopped_lem es l1 off in
            record {
              lost = s.lost;
              whole =
                  ap (λ x. x ++ (s.lost ++ (live C es l1).client.out)) texts
                  ∙ ap (λ x. L.texts l1.conn ++ (s.lost ++ x)) out
                  ∙ sym (
                      append_assoc (L.texts l1.conn) (s.lost ++ l1.client.out) later
                      ∙ ap (λ x. L.texts l1.conn ++ x) (append_assoc s.lost l1.client.out later))
                  ∙ ap (λ x. x ++ later) s.whole
                  ∙ append_assoc (stream l) (accepted C e l) later;
              one = s.one;
              kept = λ on. cc;
            }
      ]
