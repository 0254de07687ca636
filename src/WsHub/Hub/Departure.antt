-- ===== src/WsHub/Hub/Departure.antt =====
-- A connection that ends leaves nothing behind (engine/wshub/client.go).
use hermi_nas.Prelude.{
  Bool, Bool-cases, List, String, [], arith, contains, false, inl, inr, keep_if, not, refl, str_eq,
  subst, sym, true, write, ℕ, ◌==◌, ◌∷◌, ◌≡◌,
}
use hermi_nas.Kernel.Errors.{Result, Bytes, ok, err}
use hermi_nas.WsHub.RateLimit
use hermi_nas.WsHub.Subscriptions.{ControlMessage, SubscriptionSet, cancel_all}
use hermi_nas.WsHub.Subscriptions.Live.{
  IsLive, IsTidy, new-IsTidy, subscribe-IsTidy, unsubscribe-IsTidy, none-IsLive,
}
use hermi_nas.WsHub.Hub.{
  Client, new_client, Hub, remove, obeyed, handle_control_message, read_message, depart, read_pump,
}

-- `ReadMessage` fails at last.
abbrev pub fails : List (ℕ × Result Bytes) → Bool
fails [] = false
fails ((now, err e) ∷ reads) = true
fails ((now, ok message) ∷ reads) = fails reads

contains-without : (i : ℕ) (xs : List ℕ) → contains i (keep_if (λ j. not (j == i)) xs) ≡ false
contains-without i [] = refl
contains-without i (x ∷ xs) = ground (arith, contains-without i xs)

write_same : (i : ℕ) (c : Client) (client : ℕ → Client) → write i c client i ≡ c
write_same i c client = ground arith

module _ (unmarshal : Bytes → Result ControlMessage) (i : ℕ) where
  obeyed-IsTidy :
      (msg : Result ControlMessage) (s : SubscriptionSet)
      → IsTidy s
      → IsTidy (obeyed unmarshal msg s)
  unfolding obeyed
  obeyed-IsTidy (err e) s t = t
  obeyed-IsTidy (ok msg) s t = elim (Bool-cases (str_eq msg.action "subscribe")) [
    | inl q ↦ rw q (subscribe-IsTidy msg s t)
    | inr q ↦ elim (Bool-cases (str_eq msg.action "unsubscribe")) [
      | inl p ↦ rw (q, p) (unsubscribe-IsTidy msg.widget_id s t)
      | inr p ↦ rw (q, p) t
    ]
  ]

  pub read_message-IsTidy :
      (now : ℕ) (message : Bytes) (c : Client)
      → IsTidy c.subs
      → IsTidy (read_message unmarshal now message c).subs
  unfolding read_message handle_control_message
  read_message-IsTidy now message c t = elim (Bool-cases (not (RateLimit.allow now c.rl).0)) [
    | inl q ↦ rw (read_message, q) t
    | inr q ↦ rw (read_message, q) (obeyed-IsTidy (unmarshal message) c.subs t)
  ]

  -- The client is gone, its connection is closed, and none of its pollers lives.
  pub record IsGone (h : Hub) : Type 0 where
    pub removed : contains i h.clients ≡ false
    pub closed : (h.client i).closed ≡ true
    pub silent : (p : ℕ) → ¬ IsLive p (h.client i).subs

  depart-IsGone : (h : Hub) → IsTidy (h.client i).subs → IsGone (depart unmarshal i h)
  unfolding depart remove
  depart-IsGone h t =
      let left = depart unmarshal i h in
      let stopped : (left.client i).subs ≡ cancel_all (h.client i).subs = ground arith in
      record {
        removed = contains-without i h.clients;
        closed = ground arith;
        silent = λ p. subst (λ s. ¬ IsLive p s) (sym stopped) (none-IsLive (h.client i).subs p t);
      }

  read_pump_from :
      (reads : List (ℕ × Result Bytes)) (h : Hub)
      → fails reads ≡ true
      → IsTidy (h.client i).subs
      → IsGone (read_pump unmarshal i reads h)
  unfolding read_pump
  read_pump_from [] h f t = cc
  read_pump_from ((now, err e) ∷ reads) h f t = depart-IsGone h t
  read_pump_from ((now, ok message) ∷ reads) h f t =
      read_pump_from reads
        (record h { client = write i (read_message unmarshal now message (h.client i)) h.client }) f
        (subst (λ c. IsTidy c.subs)
          (sym (write_same i (read_message unmarshal now message (h.client i)) h.client))
          (read_message-IsTidy now message (h.client i) t))

  -- Whatever messages a new client sent, and whatever it subscribed to: once its connection fails,
  -- the hub does not have it any more, its connection is closed, and every poller that was started
  -- for it is cancelled.
  pub read_pump-IsGone :
      (reads : List (ℕ × Result Bytes)) (h : Hub) (user_id : String) (since : ℕ)
      → h.client i ≡ new_client user_id since
      → fails reads ≡ true
      → IsGone (read_pump unmarshal i reads h)
  unfolding new_client
  read_pump-IsGone reads h user_id since e f =
      read_pump_from reads h f (subst (λ c. IsTidy c.subs) (sym e) new-IsTidy)
