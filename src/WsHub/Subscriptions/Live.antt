-- ===== src/WsHub/Subscriptions/Live.antt =====
-- Which pollers live (engine/wshub/subscription.go).
use hermi_nas.Prelude.{
  ==_iff, Bool, Bool-cases, List, Option-cases, String, [], ap, arith, eq_iff, false, if◌then◌else◌,
  inl, inr, none, some, str_eq, subst, sym, true, write, ℕ, ◌+◌, ◌<◌, ◌==◌, ◌||◌, ◌∙◌, ◌∷◌, ◌≡◌,
  ◌≢◌,
}
use text.Mathlib.TextPositions.{eq_refl}
use hermi_nas.WsHub.Subscriptions
use hermi_nas.WsHub.Subscriptions.{
  ControlMessage, SubscriptionSet, new_subscription_set, lookup, erase, cancel_each, interval_of,
  min_interval,
}

-- The calls of the methods.
pub data Call : Type 0 where
  subscribe : ControlMessage → Call
  unsubscribe : String → Call
  cancel_all : Call

unfoldable pub call : Call → SubscriptionSet → SubscriptionSet
call (Call.subscribe msg) s = Subscriptions.subscribe msg s
call (Call.unsubscribe w) s = Subscriptions.unsubscribe w s
call Call.cancel_all s = Subscriptions.cancel_all s

unfoldable pub run : List Call → SubscriptionSet → SubscriptionSet
unfolding call
run [] s = s
run (c ∷ calls) s = run calls (call c s)

-- A poller that was started and whose context was not cancelled.
pub IsLive : ℕ → SubscriptionSet → Type 0
IsLive i s = (i < s.started) × (s.cancelled i ≡ false)

-- The pollers that live are those that the map has, each under its own widget.
pub record IsTidy (s : SubscriptionSet) : Type 0 where
  pub listed :
      (w : String) (i : ℕ) → lookup w s.subs ≡ some i → IsLive i s × ((s.message i).widget_id ≡ w)
  pub only : (i : ℕ) → IsLive i s → lookup (s.message i).widget_id s.subs ≡ some i

lookup-erase :
    (k w : String) (subs : List (String × ℕ))
    → lookup w (erase k subs) ≡ (if str_eq k w then none else lookup w subs)
unfolding lookup erase
lookup-erase k w [] = ground arith
lookup-erase k w ((j, i) ∷ subs) =
    ground (arith, lookup-erase k w subs, eq_iff j k, eq_iff j w, eq_iff k w)

cancel_each-listed :
    (subs : List (String × ℕ)) (cancelled : ℕ → Bool) (w : String) (i : ℕ)
    → lookup w subs ≡ some i
    → cancel_each subs cancelled i ≡ true
unfolding lookup
cancel_each-listed [] cancelled w i h = cc
cancel_each-listed ((k, j) ∷ subs) cancelled w i h =
    ground (arith, cancel_each-listed subs cancelled w i)

cancel_each-kept :
    (subs : List (String × ℕ)) (cancelled : ℕ → Bool) (i : ℕ)
    → cancel_each subs cancelled i ≡ false
    → cancelled i ≡ false
cancel_each-kept [] cancelled i h = h
cancel_each-kept ((k, j) ∷ subs) cancelled i h = ground (arith, cancel_each-kept subs cancelled i)

pub new-IsTidy : IsTidy new_subscription_set
unfolding lookup new_subscription_set IsLive
new-IsTidy = record { listed = λ w i h. cc; only = λ i live. absurd (omega (arith, live.0)) }

pub new-silent : (p : ℕ) → ¬ IsLive p new_subscription_set
unfolding new_subscription_set IsLive
new-silent p live = omega (arith, live.0)

-- The set without the subscription of a widget, whose poller is cancelled.
dropped : String → SubscriptionSet → SubscriptionSet
dropped w s = record s {
  subs = erase w s.subs;
  cancelled = Subscriptions.cancel (lookup w s.subs) s.cancelled;
}

-- The set with one poller more, of a widget that has none.
added : ControlMessage → SubscriptionSet → SubscriptionSet
added msg s = record {
  subs = (msg.widget_id, s.started) ∷ s.subs;
  started = s.started + 1;
  message = write s.started msg s.message;
  interval = write s.started (interval_of msg) s.interval;
  cancelled = write s.started false s.cancelled;
}

same_poller : {i j : ℕ} → some i ≡ some j → i ≡ j
same_poller h = cc

dropped-IsTidy : (w : String) (s : SubscriptionSet) → IsTidy s → IsTidy (dropped w s)
unfolding dropped IsLive
dropped-IsTidy w s t = record { listed = still_listed; only = still_only }
  where
    still_listed :
        (v : String) (i : ℕ)
        → lookup v (erase w s.subs) ≡ some i
        → IsLive i (dropped w s) × ((s.message i).widget_id ≡ v)
    still_listed v i h = elim (Bool-cases (str_eq w v)) [
      | inl q ↦ absurd (ground (arith, lookup-erase w v s.subs, q, h))
      | inr q ↦
          let there : lookup v s.subs ≡ some i = ground (arith, lookup-erase w v s.subs, q, h) in
          let (live, named) = t.listed v i there in
          elim (Option-cases (lookup w s.subs)) [
            | inl e ↦ rw e ((live.0, live.1), named)
            | inr (j, e) ↦
                let other : j ≢ i = λ same. absurd (
                  ground (
                    arith,
                    q,
                    eq_iff w v,
                    sym ((t.listed w j e).1) ∙ ap (λ k. (s.message k).widget_id) same ∙ named,
                  )) in
                rw e ((live.0, ground (arith, other, live.1)), named)
          ]
    ]

    still_only :
        (i : ℕ) → IsLive i (dropped w s) → lookup (s.message i).widget_id (erase w s.subs) ≡ some i
    still_only i live = elim (Option-cases (lookup w s.subs)) [
      | inl e ↦
          let there = t.only i (live.0, rw e at live.1) in
          ground (
            arith,
            lookup-erase w (s.message i).widget_id s.subs,
            there,
            e,
            eq_iff w (s.message i).widget_id,
            ap (λ v. lookup v s.subs),
          )
      | inr (j, e) ↦
          let gone : write j true s.cancelled i ≡ false = rw e at live.1 in
          let wi = (s.message i).widget_id in
          let there = t.only i (live.0, ground (arith, gone)) in
          elim (Bool-cases (str_eq w wi)) [
            | inl q ↦
                let same : j ≡ i =
                  same_poller (sym e ∙ ap (λ v. lookup v s.subs) ((eq_iff w wi).0 q) ∙ there) in
                absurd (ground (arith, same, gone))
            | inr q ↦ lookup-erase w wi s.subs ∙ rw q there
          ]
    ]

added-IsTidy :
    (msg : ControlMessage) (s : SubscriptionSet)
    → lookup msg.widget_id s.subs ≡ none
    → IsTidy s
    → IsTidy (added msg s)
unfolding added IsLive lookup
added-IsTidy msg s fresh t = record {
  listed = λ w i h. elim (Bool-cases (str_eq msg.widget_id w)) [
    | inl q ↦
        let same : s.started ≡ i = same_poller (rw q at h) in
        ((omega (arith, same), ground (arith, same)), ground (arith, same, eq_iff msg.widget_id w))
    | inr q ↦
        let (live, named) = t.listed w i (rw q at h) in
        let older : s.started ≢ i = λ same. absurd (omega (arith, same, live.0)) in
        ((omega (arith, live.0), ground (arith, older, live.1)), ground (arith, older, named))
  ];
  only = λ i live. elim (Bool-cases (s.started == i)) [
    | inl q ↦ rw q (rw (eq_refl msg.widget_id) (ap some ((==_iff s.started i).0 q)))
    | inr q ↦
        let there : lookup (s.message i).widget_id s.subs ≡ some i =
          t.only i (ground (arith, live.0, q), rw q at live.1) in
        let wi = (s.message i).widget_id in
        elim (Bool-cases (str_eq msg.widget_id wi)) [
          | inl p ↦
              absurd (cc (fresh, ap (λ v. lookup v s.subs) ((eq_iff msg.widget_id wi).0 p), there))
          | inr p ↦
              let moved : (added msg s).message i ≡ s.message i = ground (arith, q) in
              subst (λ m. lookup m.widget_id (added msg s).subs ≡ some i) (sym moved) (rw p there)
        ]
  ];
}

pub subscribe-IsTidy :
    (msg : ControlMessage) (s : SubscriptionSet) → IsTidy s → IsTidy (Subscriptions.subscribe msg s)
unfolding Subscriptions.subscribe added dropped
subscribe-IsTidy msg s t = elim (Bool-cases (str_eq msg.widget_id "" || str_eq msg.sql "")) [
  | inl q ↦ rw q t
  | inr q ↦ rw q (
      added-IsTidy msg (dropped msg.widget_id s)
        (lookup-erase msg.widget_id msg.widget_id s.subs ∙ ground (arith, eq_refl msg.widget_id))
        (dropped-IsTidy msg.widget_id s t))
]

pub unsubscribe-IsTidy :
    (w : String) (s : SubscriptionSet) → IsTidy s → IsTidy (Subscriptions.unsubscribe w s)
unfolding Subscriptions.unsubscribe dropped
unsubscribe-IsTidy w s t = elim (Option-cases (lookup w s.subs)) [
  | inl e ↦ rw (Subscriptions.unsubscribe, e) t
  | inr (i, e) ↦
      let dropped_tidy : IsTidy (dropped w s) = dropped-IsTidy w s t in
      rw (Subscriptions.unsubscribe, e) (rw (dropped, e) at dropped_tidy)
]

-- Behind `cancelAll` no poller lives.
pub none-IsLive : (s : SubscriptionSet) (i : ℕ) → IsTidy s → ¬ IsLive i (Subscriptions.cancel_all s)
unfolding Subscriptions.cancel_all IsLive
none-IsLive s i t live =
    let kept = cancel_each-kept s.subs s.cancelled i live.1 in
    let there = t.only i (live.0, kept) in
    cc (cancel_each-listed s.subs s.cancelled (s.message i).widget_id i there, live.1)

pub cancel_all-IsTidy : (s : SubscriptionSet) → IsTidy s → IsTidy (Subscriptions.cancel_all s)
unfolding lookup Subscriptions.cancel_all
cancel_all-IsTidy s t = record {
  listed = λ w i h. cc;
  only = λ i live. absurd (none-IsLive s i t live);
}

call-IsTidy : (c : Call) (s : SubscriptionSet) → IsTidy s → IsTidy (call c s)
unfolding call
call-IsTidy (Call.subscribe msg) s t = subscribe-IsTidy msg s t
call-IsTidy (Call.unsubscribe w) s t = unsubscribe-IsTidy w s t
call-IsTidy Call.cancel_all s t = cancel_all-IsTidy s t

run_from : (calls : List Call) (s : SubscriptionSet) → IsTidy s → IsTidy (run calls s)
unfolding run
run_from [] s t = t
run_from (c ∷ calls) s t = run_from calls (call c s) (call-IsTidy c s t)

-- After any calls of `subscribe`, `unsubscribe` and `cancelAll` of a client, the pollers that were
-- started and not cancelled are those that its map has, each under its own widget: none runs on
-- unknown to the map, and no two of one widget run.
run-IsTidy : (calls : List Call) → IsTidy (run calls new_subscription_set)
run-IsTidy calls = run_from calls new_subscription_set new-IsTidy
