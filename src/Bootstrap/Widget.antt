-- ===== src/Bootstrap/Widget.antt =====
-- The poller of a widget, `run` of engine/wshub/subscription.go, on the broker that bootstrap.go
-- gives it and on the hub.
use hermi_nas.Auth.Jwt.{Claims}
use hermi_nas.Kernel.Errors.{ok, Result-cases, Error, Result, Bytes}
use hermi_nas.Prelude.{
  Bool-cases, inl, inr, arith, ltb, write, ==_iff, sym, All, List, Option, String, [], length, none,
  refl, some, suc, true, ℕ, ◌++◌, ◌∙◌, ◌∷◌, ◌≡◌, ap,
}
use hermi_nas.WsHub.Hub.{
  add, encode, handle_control_message, new_client, queue, read_message, send_queue_size, serve_ws,
  Payload, Hub, send, dashboard_data_payload,
}
use hermi_nas.QueryBroker.Broker.Laws.{journaled_line, execute-IsJournaled}
use hermi_nas.Bootstrap.{run_query}
use hermi_nas.QueryBroker.Audit.{AuditEntry, AuditLog}
use hermi_nas.WsHub.Subscriptions.{ControlMessage}
use mathlib.Core.List.{append-nil, append_assoc}
use hermi_nas.QueryBroker.Broker.{Broker, Http, Times}
use hermi_nas.WsHub.Polling.{polled, query_of}

-- What the poller and what it uses change: the value seen last, the broker and the hub.
pub record Widget : Type 0 where
  pub last_seen : String
  pub broker : Broker
  pub hub : Hub

module _ (http : Http) (field : String → Bytes → Option String)
    (validate : Option (String → Payload → Option Error))
    (marshal : String → Payload → Result Bytes) (i : ℕ) (msg : ControlMessage) where
  pushed : String → Option (List Bytes) → Hub → Hub
  pushed generated_at none h = h
  pushed generated_at (some rows) h =
      (send validate marshal i "dashboard.data"
        (dashboard_data_payload msg.widget_id rows generated_at) h).1

  -- The user that `newSubscriptionSet` was given with the client.
  abbrev pub user : Widget → String
  user w = (w.hub.client i).user_id

  -- One `poll`, with the times of the query and of the message.
  unfoldable pub poll : Times × String → Widget → Widget
  unfolding pushed
  poll (at, generated_at) w =
      let (result, broker) = run_query http at (user w) (query_of msg w.last_seen) w.broker in
      let (rows, last_seen) = polled field msg result w.last_seen in
      record { last_seen = last_seen; broker = broker; hub = pushed generated_at rows w.hub }

  unfoldable pub polls : List (Times × String) → Widget → Widget
  unfolding poll
  polls [] w = w
  polls (tick ∷ ticks) w = polls ticks (poll tick w)

  -- The entries that the polls have added to the audit log.
  pub record IsAudited (user_id : String) (ticks : List (Times × String)) (before after : AuditLog)
      : Type 0 where
    pub entries : List AuditEntry
    pub appended : after.lines ≡ before.lines ++ entries
    pub all : length entries ≡ length ticks
    pub own : All (λ entry. entry.user_id ≡ user_id) entries

  pushed-user :
      (generated_at : String) (rows : Option (List Bytes)) (h : Hub)
      → ((pushed generated_at rows h).client i).user_id ≡ (h.client i).user_id
  unfolding pushed send queue
  pushed-user generated_at none h = refl
  pushed-user generated_at (some rows) h =
      elim (Result-cases (
        encode validate marshal "dashboard.data"
          (dashboard_data_payload msg.widget_id rows generated_at))) [
            | inr (e, q) ↦ rw (pushed, send, q) refl
            | inl (message, q) ↦ elim (Bool-cases (ltb (length (h.client i).out) send_queue_size)) [
              | inl k ↦ rw (pushed, send, q, queue, k) (ground arith)
              | inr k ↦ rw (pushed, send, q, queue, k) (ground arith)
            ]
          ]

  poll-user : (tick : Times × String) (w : Widget) → user (poll tick w) ≡ user w
  unfolding poll
  poll-user (at, generated_at) w =
      let result = (run_query http at (user w) (query_of msg w.last_seen) w.broker).0 in
      pushed-user generated_at (polled field msg result w.last_seen).0 w.hub

  polls_from :
      (user_id : String) (ticks : List (Times × String)) (w : Widget)
      → user w ≡ user_id
      → w.broker.audit.writable ≡ true
      → IsAudited user_id ticks w.broker.audit (polls ticks w).broker.audit
  unfolding polls poll run_query
  polls_from user_id [] w same h = record {
    entries = [];
    appended = sym (append-nil w.broker.audit.lines);
    all = refl;
    own = tt;
  }
  polls_from user_id ((at, generated_at) ∷ ticks) w same h =
      let j = execute-IsJournaled http at (user w) (query_of msg w.last_seen) w.broker in
      let later =
        polls_from user_id ticks (poll (at, generated_at) w) (poll-user (at, generated_at) w ∙ same)
          (j.writable ∙ h) in
      record {
        entries = j.entry ∷ later.entries;
        appended =
            later.appended
            ∙ ap (λ ls. ls ++ later.entries) (journaled_line j h)
            ∙ append_assoc w.broker.audit.lines (j.entry ∷ []) later.entries;
        all = ap suc later.all;
        own = (j.of_user ∙ same, later.own);
      }

  -- The hub in which a session has connected as the client, and its pump has then read a message.
  abbrev pub subscribed : (Bytes → Result ControlMessage) → Claims → ℕ → ℕ → Bytes → Hub → Hub
  subscribed unmarshal claims now later message h =
      let h' = (serve_ws (ok claims) (some i) now h).1 in
      record h' { client = write i (read_message unmarshal later message (h'.client i)) h'.client }

  subscribed-user :
      (unmarshal : Bytes → Result ControlMessage) (claims : Claims) (now later : ℕ)
      (message : Bytes) (h : Hub)
      → ((subscribed unmarshal claims now later message h).client i).user_id ≡ claims.username
  unfolding serve_ws new_client add read_message handle_control_message
  subscribed-user unmarshal claims now later message h = ground (arith, ==_iff i i)

  -- A session connects as a client of any hub, and sends the message that subscribes to the widget.
  -- Each poll of the widget, whether the quota refuses it, the cache answers it, ClickHouse answers
  -- or fails it, then adds exactly one entry to an audit log that can be written, under the user
  -- name in the claims of that session.
  pub polls-IsAudited :
      (unmarshal : Bytes → Result ControlMessage) (claims : Claims) (now later : ℕ)
      (message : Bytes) (h : Hub) (last_seen : String) (broker : Broker)
      (ticks : List (Times × String))
      → broker.audit.writable ≡ true
      → let hub = subscribed unmarshal claims now later message h in
        IsAudited claims.username ticks broker.audit
          (polls ticks (record { last_seen = last_seen; broker = broker; hub = hub })).broker.audit
  polls-IsAudited unmarshal claims now later message h last_seen broker ticks =
      polls_from claims.username ticks
        (record {
          last_seen = last_seen;
          broker = broker;
          hub = subscribed unmarshal claims now later message h;
        })
        (subscribed-user unmarshal claims now later message h)
