-- ===== src/WsHub/Hub.antt =====
-- The clients of the hub and their queues, engine/wshub/hub.go, client.go and handler.go.
-- A client is a number into a store; `h.mu` makes each operation of the hub one step. encoding/json,
-- the validator of kernel/schemas, the WebSocket connection and its upgrade are parameters.
pub mod Departure
pub mod Queues
pub mod Steps
pub mod Valid
pub mod Writer
use hermi_nas.Prelude.{
  Bool, List, Option, String, [], contains, false, if◌then◌else◌, keep_if, length, ltb, none, not,
  some, str_eq, true, write, ℕ, ◌++◌, ◌==◌, ◌∷◌,
}
use hermi_nas.Kernel.Errors
use hermi_nas.Kernel.Errors.{Error, Result, Bytes, ok, err}
use hermi_nas.Auth.Jwt.{Claims}
use hermi_nas.WsHub.RateLimit
use hermi_nas.WsHub.RateLimit.{MessageRateLimiter, new_message_rate_limiter}
use hermi_nas.WsHub.Subscriptions
use hermi_nas.WsHub.Subscriptions.{
  ControlMessage, SubscriptionSet, new_subscription_set, subscribe, unsubscribe, cancel_all,
}

pub data Value : Type 0 where
  text : String → Value
  flag : Bool → Value
  raw : List Bytes → Value

-- `map[string]any`
abbrev pub Payload : Type 0
Payload = List (String × Value)

abbrev pub send_queue_size : ℕ
send_queue_size = 32

pub record Client : Type 0 where
  pub out : List Bytes
  pub closed : Bool  -- its connection
  pub subs : SubscriptionSet
  pub rl : MessageRateLimiter
  pub user_id : String

unfoldable pub new_client : String → ℕ → Client
unfolding new_message_rate_limiter
new_client user_id now = record {
  out = [];
  closed = false;
  subs = new_subscription_set;
  rl = new_message_rate_limiter 20 now;
  user_id = user_id;
}

-- A full queue closes the connection.
unfoldable pub queue : Bytes → Client → Client
queue message c =
    if ltb (length c.out) send_queue_size
    then record c { out = c.out ++ message ∷ [] }
    else record c { closed = true }

-- A message that `writePump` takes from the queue.
unfoldable pub take_out : Client → Option Bytes × Client
take_out c = elim c.out [
  | [] ↦ (none, c)
  | message ∷ rest ↦ (some message, record c { out = rest })
]

pub record Hub : Type 0 where
  pub clients : List ℕ
  pub client : ℕ → Client

unfoldable pub remove : ℕ → Hub → Hub
remove i h = record h { clients = keep_if (λ j. not (j == i)) h.clients }

unfoldable pub add : ℕ → Hub → Hub
add i h = if contains i h.clients then h else record h { clients = i ∷ h.clients }

unfoldable pub client_count : Hub → ℕ
client_count h = length h.clients

unfoldable pub queue_all : Bytes → List ℕ → (ℕ → Client) → ℕ → Client
unfolding queue
queue_all message [] client = client
queue_all message (i ∷ is) client =
    let others = queue_all message is client in write i (queue message (others i)) others

-- A hub without schemas finds nothing invalid.
abbrev pub invalid : Option (String → Payload → Option Error) → String → Payload → Option Error
invalid none event payload = none
invalid (some check) event payload = check event payload

module _ (validate : Option (String → Payload → Option Error))
    (marshal : String → Payload → Result Bytes) where
  marshalled : Result Bytes → Result Bytes
  marshalled (ok message) = ok message
  marshalled (err e) =
      err (Errors.annotated (record { format = "wshub: encode envelope: %w"; args = [] }) e)

  unfoldable pub encode : String → Payload → Result Bytes
  unfolding marshalled
  encode event payload = elim (invalid validate event payload) [
    | some e ↦ err (
        Errors.annotated
          (record {
            format = "wshub: refusing to send invalid %s message: %w";
            args = Errors.str event ∷ [];
          })
          e)
    | none ↦ marshalled (marshal event payload)
  ]

  unfoldable pub broadcast : String → Payload → Hub → Option Error × Hub
  unfolding encode queue_all
  broadcast event payload h = elim (encode event payload) [
    | err e ↦ (some e, h)
    | ok message ↦ (none, record h { client = queue_all message h.clients h.client })
  ]

  unfoldable pub send : ℕ → String → Payload → Hub → Option Error × Hub
  unfolding encode queue
  send i event payload h = elim (encode event payload) [
    | err e ↦ (some e, h)
    | ok message ↦ (none, record h { client = write i (queue message (h.client i)) h.client })
  ]

  unfoldable pub broadcast_system_health :
      String → String → String → String → Hub → Option Error × Hub
  unfolding broadcast
  broadcast_system_health service state message checked_at h =
      broadcast "system.health"
        (("service", text service)
          ∷ ("state", text state)
          ∷ ("message", text message)
          ∷ ("checked_at", text checked_at)
          ∷ [])
        h

  unfoldable pub broadcast_agent_status : String → Bool → String → String → Hub → Option Error × Hub
  unfolding broadcast
  broadcast_agent_status agent_id connected last_seen hostname h =
      broadcast "agent.status"
        (("agent_id", text agent_id)
          ∷ ("connected", flag connected)
          ∷ ("last_seen_at", text last_seen)
          ∷ ("hostname", text hostname)
          ∷ [])
        h

-- The message, and the time at which it was built as RFC 3339.
unfoldable pub dashboard_data_payload : String → List Bytes → String → Payload
dashboard_data_payload widget_id rows generated_at =
    ("widget_id", text widget_id) ∷ ("rows", raw rows) ∷ ("generated_at", text generated_at) ∷ []

module _ (unmarshal : Bytes → Result ControlMessage) where
  obeyed : Result ControlMessage → SubscriptionSet → SubscriptionSet
  obeyed (err e) s = s
  obeyed (ok msg) s =
      if str_eq msg.action "subscribe"
      then subscribe msg s
      else if str_eq msg.action "unsubscribe"
      then unsubscribe msg.widget_id s
      else s

  unfoldable pub handle_control_message : Bytes → Client → Client
  unfolding obeyed
  handle_control_message message c = record c { subs = obeyed (unmarshal message) c.subs }

  -- One message that `readPump` reads, at a time.
  unfoldable pub read_message : ℕ → Bytes → Client → Client
  unfolding handle_control_message
  read_message now message c =
      let (allowed, rl) = RateLimit.allow now c.rl in
      let c' = record c { rl = rl } in if not allowed then c' else handle_control_message message c'

  -- What `readPump` does when it returns.
  unfoldable pub depart : ℕ → Hub → Hub
  unfolding remove
  depart i h =
      let c = h.client i in
      let h' =
        remove i (record h { client = write i (record c { subs = cancel_all c.subs }) h.client }) in
      record h' { client = write i (record (h'.client i) { closed = true }) h'.client }

  -- `readPump` on what `ReadMessage` gives, with the times; it returns at the first error.
  unfoldable pub read_pump : ℕ → List (ℕ × Result Bytes) → Hub → Hub
  unfolding read_message depart
  read_pump i [] h = h
  read_pump i ((now, err e) ∷ reads) h = depart i h
  read_pump i ((now, ok message) ∷ reads) h =
      read_pump i reads
        (record h { client = write i (read_message now message (h.client i)) h.client })

-- `ServeWS`, from the claims of the request's token, the number of the upgraded connection, if the
-- upgrade works, and the time on: the error that it answers itself, and the hub.
unfoldable pub serve_ws : Result Claims → Option ℕ → ℕ → Hub → Option (ℕ × String) × Hub
unfolding add new_client
serve_ws (err e) conn now h = (some (401, "invalid or missing token"), h)
serve_ws (ok claims) none now h = (none, h)
serve_ws (ok claims) (some i) now h =
    (none, add i (record h { client = write i (new_client claims.username now) h.client }))
