-- ===== src/WsHub/Hub/Writer.antt =====
-- `writePump` of engine/wshub/client.go beside the goroutines that queue messages for its client.
-- The connection of gorilla/websocket is the interface `Conn` over a state `W`; nothing closes the
-- channel of a client, so that the pump ends only where a write fails.
pub mod Order
use hermi_nas.WsHub.Hub.{broadcast, Client, queue, send_queue_size, take_out}
use hermi_nas.Prelude.{
  Bool, List, Option, [], false, if◌then◌else◌, length, ltb, none, some, true, ℕ, ◌++◌, ◌+◌, ◌∷◌,
  ◌≡◌,
}
use hermi_nas.Kernel.Errors.{Bytes, Error}

pub data MessageType : Type 0 where
  text_message : MessageType
  ping_message : MessageType
  close_message : MessageType

pub record Conn (W : Type 0) : Type 0 where
  pub set_write_deadline : ℕ → W → W
  pub write_message : MessageType → Bytes → W → Option Error × W
  pub close : W → W

-- The texts that the connection has taken, as its documentation has it: a text that is written
-- without an error is behind those before it, and nothing else adds or takes one away.
pub record Laws {W : Type 0} (C : Conn W) : Type 0 where
  pub texts : W → List Bytes
  pub written :
      (m : Bytes) (w w' : W)
      → C.write_message text_message m w ≡ (none, w')
      → texts w' ≡ texts w ++ m ∷ []
  pub refused :
      (m : Bytes) (w w' : W) (e : Error)
      → C.write_message text_message m w ≡ (some e, w')
      → texts w' ≡ texts w
  pub pinged : (w : W) → texts (C.write_message ping_message [] w).1 ≡ texts w
  pub left : (w : W) → texts (C.write_message close_message [] w).1 ≡ texts w
  pub closed : (w : W) → texts (C.close w) ≡ texts w
  pub deadline : (t : ℕ) (w : W) → texts (C.set_write_deadline t w) ≡ texts w

-- What `select` goes on with.
pub data Received : Type 0 where
  data_of : Option Bytes → Received
  tick : Received

abbrev pub write_wait : ℕ
write_wait = 10000000000

module _ {W : Type 0} (C : Conn W) where
  -- The loop ends, and the deferred `Close` runs, where a write fails.
  unfoldable pub goes_on : Option Error × W → Bool × W
  goes_on (none, w) = (true, w)
  goes_on (some e, w) = (false, C.close w)

  -- One round of the loop, with whether it goes on.
  unfoldable pub pump : ℕ → Received → W → Bool × W
  unfolding goes_on
  pump now (data_of none) w = (
    false,
    C.close (C.write_message close_message [] (C.set_write_deadline (now + write_wait) w)).1,
  )
  pump now (data_of (some message)) w =
      goes_on (C.write_message text_message message (C.set_write_deadline (now + write_wait) w))
  pump now tick w =
      goes_on (C.write_message ping_message [] (C.set_write_deadline (now + write_wait) w))

  pub record Line : Type 0 where
    pub client : Client
    pub conn : W
    pub running : Bool  -- the pump

  pub data Event : Type 0 where
    queued : Bytes → Event  -- by a broadcast or a poller
    woken : ℕ → Event
    ticked : ℕ → Event

  unfoldable pub pumped : ℕ → Received → Client → Line → Line
  unfolding pump
  pumped now r c l =
      let (on, w) = pump now r l.conn in record { client = c; conn = w; running = on }

  -- What the queue gives to the pump; from an empty queue nothing comes.
  unfoldable pub taken : ℕ → Option Bytes × Client → Line → Line
  unfolding pumped
  taken now (none, c) l = l
  taken now (some message, c) l = pumped now (data_of (some message)) c l

  unfoldable pub has_room : Client → Bool
  has_room c = ltb (length c.out) send_queue_size

  unfoldable pub happen : Event → Line → Line
  unfolding pumped taken has_room queue take_out
  happen (queued message) l = record l {
    client = queue message l.client;
    conn = if has_room l.client then l.conn else C.close l.conn;
  }
  happen (woken now) l = if l.running then taken now (take_out l.client) l else l
  happen (ticked now) l = if l.running then pumped now tick l.client l else l

  unfoldable pub live : List Event → Line → Line
  unfolding happen
  live [] l = l
  live (e ∷ es) l = live es (happen e l)

  -- The message that an event puts into the queue, if there is room for it.
  unfoldable pub accepted : Event → Line → List Bytes
  unfolding has_room
  accepted (queued message) l = if has_room l.client then message ∷ [] else []
  accepted (woken now) l = []
  accepted (ticked now) l = []

  unfoldable pub all_accepted : List Event → Line → List Bytes
  unfolding accepted happen
  all_accepted [] l = []
  all_accepted (e ∷ es) l = accepted e l ++ all_accepted es (happen e l)
