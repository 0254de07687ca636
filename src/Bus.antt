-- ===== src/Bus.antt =====
-- The event bus, engine/bus/bus.go.
-- A channel is an address in a store of channels. `Subscribe` makes one channel and one id
-- together, so the id serves as the address. `bus.mu` makes each method one step.
-- `none` is a panic of the Go runtime: a send on a closed channel, a second close, or a `make` of a
-- channel whose buffer is larger than the runtime can make.
pub mod Invariant
pub mod Delivery
pub mod Traces
mod Tests
use hermi_nas.Prelude.{
  Bool, List, Option, String, [], false, if◌then◌else◌, length, leb, ltb, none, put, some, true,
  write, ℕ, ◌%◌, ◌++◌, ◌+◌, ◌==◌, ◌>>=◌, ◌^◌, ◌∷◌,
}
use hermi_nas.Prelude.Int.{ℤ, pos_part, is_pos}

-- A Go channel: what waits in its buffer, oldest first, and whether it was closed.
pub record Chan {ℓ} (A : Type ℓ) : Type ℓ where
  pub buffer : List A
  pub closed : Bool

pub record Bus {ℓ} (A : Type ℓ) : Type ℓ where
  pub subscribers : String → List ℕ
  pub buffer_size : ℕ
  pub next_id : ℕ
  pub dropped : String → ℕ  -- uint64
  pub chans : ℕ → Chan A
  pub once : ℕ → Bool  -- the `sync.Once` of each subscription has run

abbrev pub u64 : ℕ → ℕ
u64 n = n % 2 ^ 64

-- The loop of `unsub`: the list without the first entry for the id, if there is one.
remove : ℕ → List ℕ → Option (List ℕ)
remove id [] = none
remove id (s ∷ subs) =
    let rest = (do subs' ← remove id subs; some (s ∷ subs')) in if s == id then some subs else rest

module _ {ℓ} {A : Type ℓ} where
  abbrev pub empty_chan : Chan A
  empty_chan = record { buffer = []; closed = false }

  pub new : ℤ → Bus A
  new buffer_size = record {
    subscribers = λ _. [];
    buffer_size = if is_pos buffer_size then pos_part buffer_size else 16;
    next_id = 0;
    dropped = λ _. 0;
    chans = λ _. empty_chan;
    once = λ _. false;
  }

  -- The id stands for the returned channel and, with the topic, for the returned `Unsubscribe`.
  pub subscribed : String → Bus A → ℕ × Bus A
  subscribed topic b =
      let id = b.next_id in
      (
        id,
        record b {
          next_id = b.next_id + 1;
          chans = write id empty_chan b.chans;
          subscribers = put topic (b.subscribers topic ++ id ∷ []) b.subscribers;
        },
      )

  -- With the size of the largest buffer that `make` makes.
  pub subscribe : ℕ → String → Bus A → Option (ℕ × Bus A)
  unfolding subscribed
  subscribe most topic b = if leb b.buffer_size most then some (subscribed topic b) else none

  close : ℕ → Bus A → Option (Bus A)
  close id b =
      if (b.chans id).closed
      then none
      else some (record b { chans = write id (record (b.chans id) { closed = true }) b.chans })

  detach : String → ℕ → Bus A → Option (Bus A)
  unfolding close
  detach topic id b = elim (remove id (b.subscribers topic)) [
    | none ↦ some b
    | some subs ↦ close id (record b { subscribers = put topic subs b.subscribers })
  ]

  pub unsubscribe : String → ℕ → Bus A → Option (Bus A)
  unfolding detach remove
  unsubscribe topic id b =
      if b.once id then some b else detach topic id (record b { once = write id true b.once })

  -- `select { case s.ch <- event: default: dropped[topic]++ }`
  try_send : String → A → ℕ → Bus A → Option (Bus A)
  try_send topic event id b =
      if (b.chans id).closed
      then none
      else if ltb (length (b.chans id).buffer) b.buffer_size
      then some (record b {
        chans =
            write id (record (b.chans id) { buffer = (b.chans id).buffer ++ event ∷ [] }) b.chans;
      })
      else some (record b { dropped = put topic (u64 (b.dropped topic + 1)) b.dropped })

  deliver : String → A → List ℕ → Bus A → Option (Bus A)
  unfolding try_send
  deliver topic event [] b = some b
  deliver topic event (id ∷ subs) b = do b' ← try_send topic event id b; deliver topic event subs b'

  pub publish : String → A → Bus A → Option (Bus A)
  unfolding deliver
  publish topic event b = deliver topic event (b.subscribers topic) b

  -- `<-ch` of a subscriber: the oldest event, and `none` where the receiver would wait or sees
  -- the channel closed.
  pub receive : ℕ → Bus A → Option A × Bus A
  receive id b = elim (b.chans id).buffer [
    | [] ↦ (none, b)
    | event ∷ rest ↦
        (some event, record b { chans = write id (record (b.chans id) { buffer = rest }) b.chans })
  ]

  pub dropped_count : String → Bus A → ℕ
  dropped_count topic b = b.dropped topic

  pub subscriber_count : String → Bus A → ℕ
  subscriber_count topic b = length (b.subscribers topic)
