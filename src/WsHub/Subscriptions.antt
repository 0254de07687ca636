-- ===== src/WsHub/Subscriptions.antt =====
-- The widget subscriptions of one client, engine/wshub/subscription.go.
-- A poller is the goroutine that `subscribe` starts. Pollers are numbered in the order in which they
-- are started; `cancelled` says which contexts were cancelled. `s.mu` makes each operation one step.
pub mod Live
use hermi_nas.Prelude.{
  Bool, List, Option, String, [], false, if◌then◌else◌, keep_if, leb, ltb, none, not, some, str_eq,
  suc, true, write, ℕ, ◌%◌, ◌&&◌, ◌*◌, ◌+◌, ◌-◌, ◌^◌, ◌||◌, ◌∷◌,
}
use hermi_nas.Prelude.Int.{ℤ, pos, negsuc}

pub record ControlMessage : Type 0 where
  pub action : String
  pub widget_id : String
  pub sql : String
  pub interval_ms : ℤ
  pub mode : String
  pub since_column : String

pub record SubscriptionSet : Type 0 where
  pub subs : List (String × ℕ)  -- the map from widgets to pollers
  pub started : ℕ
  pub message : ℕ → ControlMessage
  pub interval : ℕ → ℕ
  pub cancelled : ℕ → Bool

abbrev no_message : ControlMessage
no_message = record {
  action = "";
  widget_id = "";
  sql = "";
  interval_ms = pos 0;
  mode = "";
  since_column = "";
}

unfoldable pub new_subscription_set : SubscriptionSet
new_subscription_set = record {
  subs = [];
  started = 0;
  message = λ i. no_message;
  interval = λ i. 0;
  cancelled = λ i. false;
}

abbrev pub min_interval : ℕ
min_interval = 250 * 1000000

-- The 64 bits of an `int`, and whether they stand for a number that is not negative.
abbrev pub bits : ℤ → ℕ
bits (pos n) = n % 2 ^ 64
bits (negsuc n) = (2 ^ 64 - suc n % 2 ^ 64) % 2 ^ 64

-- `time.Duration(msg.IntervalMS) * time.Millisecond`, which wraps around, and at least the minimum.
unfoldable pub interval_of : ControlMessage → ℕ
interval_of msg =
    let interval = (bits msg.interval_ms * 1000000) % 2 ^ 64 in
    if ltb interval (2 ^ 63) && leb min_interval interval then interval else min_interval

unfoldable pub lookup : String → List (String × ℕ) → Option ℕ
lookup w [] = none
lookup w ((k, i) ∷ subs) = let rest = lookup w subs in if str_eq k w then some i else rest

unfoldable pub erase : String → List (String × ℕ) → List (String × ℕ)
erase w subs = keep_if (λ entry. not (str_eq entry.0 w)) subs

abbrev pub cancel : Option ℕ → (ℕ → Bool) → ℕ → Bool
cancel none cancelled = cancelled
cancel (some i) cancelled = write i true cancelled

unfoldable pub subscribe : ControlMessage → SubscriptionSet → SubscriptionSet
unfolding interval_of lookup erase
subscribe msg s = if str_eq msg.widget_id "" || str_eq msg.sql "" then s else record {
  subs = (msg.widget_id, s.started) ∷ erase msg.widget_id s.subs;
  started = s.started + 1;
  message = write s.started msg s.message;
  interval = write s.started (interval_of msg) s.interval;
  cancelled = write s.started false (cancel (lookup msg.widget_id s.subs) s.cancelled);
}

unfoldable pub unsubscribe : String → SubscriptionSet → SubscriptionSet
unfolding lookup erase
unsubscribe widget_id s = elim (lookup widget_id s.subs) [
  | none ↦ s
  | some i ↦ record s { subs = erase widget_id s.subs; cancelled = write i true s.cancelled }
]

abbrev cancel_each : List (String × ℕ) → (ℕ → Bool) → ℕ → Bool
cancel_each [] cancelled = cancelled
cancel_each ((w, i) ∷ subs) cancelled = write i true (cancel_each subs cancelled)

unfoldable pub cancel_all : SubscriptionSet → SubscriptionSet
cancel_all s = record s { subs = []; cancelled = cancel_each s.subs s.cancelled }
