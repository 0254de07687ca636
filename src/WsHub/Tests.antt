-- ===== src/WsHub/Tests.antt =====
-- The theorems on the hub at concrete clients and messages (engine/wshub).
use hermi_nas.Prelude.{
  List, Option, ◌++◌, String, [], codes, contains, false, if◌then◌else◌, none, refl, some, str_eq,
  true, ℕ, ◌∷◌, ◌≡◌, ◌⊎◌,
}
use hermi_nas.WsHub.Hub.Writer
use hermi_nas.WsHub.Hub.Writer.{
  Conn, Line, MessageType, all_accepted, live, queued, text_message, ping_message, close_message,
  woken,
}
use hermi_nas.WsHub.Hub.Writer.Order.{Carries, stream, live-Carries}
use hermi_nas.WsHub.Hub.Steps.{
  IsSafe, Reach, Reach-IsSafe, new, here, next, connects, broadcasts, departs,
}
use hermi_nas.WsHub.Hub.{
  serve_ws, add, depart, queue_all, Hub, new_client, Payload, encode, broadcast, read_pump,
}
use hermi_nas.Auth.Jwt.{Claims}
use hermi_nas.Kernel.Permissions.{admin}
use hermi_nas.Prelude.Int.{pos}
use hermi_nas.Kernel.Errors
use hermi_nas.Kernel.Errors.{Error, Result, Bytes, ok, err}
use hermi_nas.WsHub.Subscriptions.{ControlMessage}
use hermi_nas.WsHub.Hub.Departure.{IsGone, read_pump-IsGone}
use hermi_nas.Kernel.Schemas.{Codec, WebSocketSchemas, validate_envelope, IsValid}
use hermi_nas.WsHub.Hub.Valid.{broadcast-IsValid}
use hermi_nas.WsHub.Hub.Queues.{IsQueued, broadcast-IsQueued}

abbrev watch : ControlMessage
watch = record {
  action = "subscribe";
  widget_id = "w1";
  sql = "SELECT 1";
  interval_ms = pos 1000;
  mode = "";
  since_column = "";
}

abbrev hub : Hub
hub = record { clients = 0 ∷ 1 ∷ []; client = λ i. new_client "ann" 0 }

abbrev obey : Bytes → Result ControlMessage
obey message = ok watch

abbrev ended : Error
ended = Errors.foreign (record { format = "closed"; args = [] })

read_pump-IsGone_example :
    IsGone obey 0 (read_pump obey 0 ((1, ok (codes "{}")) ∷ (2, err ended) ∷ []) hub)
read_pump-IsGone_example =
    read_pump-IsGone obey 0 ((1, ok (codes "{}")) ∷ (2, err ended) ∷ []) hub "ann" 0 refl refl

abbrev plain : String → Payload → Result Bytes
plain event payload = ok (codes event)

broadcast-IsQueued_example :
    let h' = (broadcast none plain "tick" [] hub).1 in
    (h'.clients ≡ hub.clients)
    × ((i : ℕ)
        → contains i hub.clients ≡ true
        → IsQueued (codes "tick") (hub.client i) (h'.client i))
    × ((i : ℕ) → contains i hub.clients ≡ false → h'.client i ≡ hub.client i)
unfolding encode
broadcast-IsQueued_example = broadcast-IsQueued none plain "tick" [] hub (refl, (refl, tt)) refl

abbrev codec : Codec Payload ℕ
codec = record {
  marshal_payload = λ p. ok [];
  marshal = λ v. ok [];
  unmarshal = λ text. ok 0;
  envelope_of = λ event v. v;
}

abbrev tick_only : WebSocketSchemas ℕ
tick_only = record {
  envelope = λ v. none;
  payloads = λ event. if str_eq event "tick" then some (λ v. none) else none;
}

broadcast-IsValid_example :
    let done = broadcast (some (validate_envelope codec tick_only)) plain "tick" [] hub in
    ((e : Error) × (done ≡ (some e, hub))) ⊎ ((done.0 ≡ none) × IsValid codec tick_only "tick" [])
broadcast-IsValid_example = broadcast-IsValid codec tick_only plain "tick" [] hub

abbrev claims : Claims
claims = record { subject = "ann"; username = "ann"; role = admin; issued_at = 0; expires_at = 10 }

-- A client connects, subscribes, gets a broadcast and leaves.
joined : Hub
unfolding serve_ws
joined = (serve_ws (ok claims) (some 0) 5 new).1

life : Reach none plain obey new (depart obey 0 (broadcast none plain "tick" [] joined).1)
unfolding joined new serve_ws add broadcast encode queue_all
life =
    next (next (next here (connects new claims 0 5 refl)) (broadcasts joined "tick" []))
      (departs (broadcast none plain "tick" [] joined).1 0 refl)

Reach-IsSafe_example : IsSafe (depart obey 0 (broadcast none plain "tick" [] joined).1)
Reach-IsSafe_example = Reach-IsSafe none plain obey life

-- A connection in memory, which takes no more than two texts.
abbrev deliver : MessageType → Bytes → List Bytes → Option Error × List Bytes
deliver text_message m [] = (none, m ∷ [])
deliver text_message m (a ∷ []) = (none, a ∷ m ∷ [])
deliver text_message m (a ∷ b ∷ w) = (some ended, a ∷ b ∷ w)
deliver ping_message m w = (none, w)
deliver close_message m w = (none, w)

abbrev conn : Conn (List Bytes)
conn = record { set_write_deadline = λ t w. w; write_message = deliver; close = λ w. w }

deliver-written :
    (m : Bytes) (w w' : List Bytes) → deliver text_message m w ≡ (none, w') → w' ≡ w ++ m ∷ []
deliver-written m [] w' e = cc
deliver-written m (a ∷ []) w' e = cc
deliver-written m (a ∷ b ∷ w) w' e = cc

deliver-refused :
    (m : Bytes) (w w' : List Bytes) (x : Error) → deliver text_message m w ≡ (some x, w') → w' ≡ w
deliver-refused m [] w' x e = cc
deliver-refused m (a ∷ []) w' x e = cc
deliver-refused m (a ∷ b ∷ w) w' x e = cc

conn-Laws : Writer.Laws conn
conn-Laws = record {
  texts = λ w. w;
  written = deliver-written;
  refused = deliver-refused;
  pinged = λ w. refl;
  left = λ w. refl;
  closed = λ w. refl;
  deadline = λ t w. refl;
}

abbrev line : Line conn
line = record { client = new_client "ann" 0; conn = []; running = true }

-- Two messages, the second of which still waits.
abbrev events : List (Writer.Event conn)
events = queued (codes "a") ∷ woken 1 ∷ queued (codes "b") ∷ []

live-Carries_example :
    Carries conn conn-Laws
      (stream conn conn-Laws line ++ all_accepted conn events line)
      (live conn events line)
live-Carries_example = live-Carries conn conn-Laws events line
