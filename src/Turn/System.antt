-- ===== src/Turn/System.antt =====
-- The relay as main of turn_server/src/main.rs puts it together: the event loop, the shards on
-- their threads, and the kernel, as steps in any order. The two ends of a queue are one queue here:
-- the router's sender is the shard's receiver, and all shards share the sender of the loop's input.
pub mod Tally
pub mod Moves
pub mod Handlers
pub mod Valid
pub mod Steps
pub mod Sends
pub mod Completions
pub mod Safe
pub mod Capacity
pub mod Lost
mod Tests
use p2p_networking.Base.{
  true, ℕ, zero, suc, List, [], ◌∷◌, ◌++◌, Option, none, some, if◌then◌else◌, get_elem?, set,
  length, replicate,
}
use p2p_networking.Base.Fail.{◌>>=◌}
use p2p_networking.Base.Fifo.{Fifo}
use p2p_networking.Base.Map
use p2p_networking.Base.Map.{Map, nat_key}
use p2p_networking.Base.Net.{SocketAddr}
use p2p_networking.Turn.{Session, MessageType, SqeType}
use p2p_networking.Turn.Slot.{Platform, SockaddrStorage}
use p2p_networking.Turn.Pool.{BufferPool, Entry, Opcode, default}
use p2p_networking.Turn.Shard.{Shard, run_once}
use p2p_networking.Turn.Router
use p2p_networking.Turn.Ring.{Relay, Cqe, CqeResult, on_control_msg, on_sqe, on_cqe, start}

-- What a shard holds besides its two queues.
pub record Tables : Type 0 where
  pub session_table : Map ℕ Session
  pub session_id : Map SocketAddr ℕ

-- `flight`: the entries that the kernel has taken and not yet finished.
pub record World (F : Fifo) : Type 0 where
  pub relay : Relay F
  pub flight : List Entry
  pub shards : List Tables
  pub tx : F.Q SqeType

pub data Event : Type 0 where
  -- a message of the control channel reaches the loop
  controls : MessageType → Event
  -- the shard goes round its loop, with the `Uuid` that it would take
  runs : ℕ → ℕ → Event
  -- the loop takes a send, with the two times that it reads
  sends : ℕ → ℕ → Event
  -- the kernel takes the oldest submission
  submits : Event
  -- the kernel completes one of its entries: its place, the result, the flags, the source address
  -- that it writes for a receive, and the two times that the loop reads
  completes : ℕ → CqeResult → ℕ → SockaddrStorage → ℕ → ℕ → Event

module _ (F : Fifo) where
  unfoldable pub shard_at : ℕ → World F → Option (Shard F)
  shard_at k w = do
    recv ← get_elem? w.relay.router.senders k
    tables ← get_elem? w.shards k
    some (record {
      id = k;
      recv = recv;
      session_table = tables.session_table;
      session_id = tables.session_id;
      tx_out = w.tx;
    })

  -- The shard's state goes back to where it came from.
  unfoldable pub put_shard : ℕ → Shard F → World F → World F
  put_shard k s w = record w {
    relay = record (w.relay) {
      router = record (w.relay.router) { senders = set w.relay.router.senders k s.recv };
    };
    shards = set w.shards k (record { session_table = s.session_table; session_id = s.session_id });
    tx = s.tx_out;
  }

-- The entry at the place, and the others.
unfoldable pub take_at {ℓ} : {A : Type ℓ} → ℕ → List A → Option (A × List A)
take_at k [] = none
take_at zero (x ∷ xs) = some (x, xs)
take_at (suc k) (x ∷ xs) = do (y, ys) ← take_at k xs; some (y, x ∷ ys)

-- The kernel writes the source address of a datagram into the slot of its receive.
unfoldable pub write_source : ℕ → SockaddrStorage → BufferPool → BufferPool
write_source idx src pool = elim (Map.get idx pool.live_slots) [
  | none ↦ pool
  | some slot ↦ record pool {
    live_slots = Map.insert idx (record slot { addr = src }) pool.live_slots;
  }
]

module _ (F : Fifo) (t : Platform) (listen_fd : ℕ) where
  -- The completion of an entry. A receive has one; a send has one after each that announces more.
  unfoldable pub complete :
      Opcode
      → Entry
      → List Entry
      → CqeResult
      → ℕ
      → SockaddrStorage
      → ℕ
      → ℕ
      → World F
      → Option (World F)
  complete Opcode.recv_msg e rest result flags src now now' w = do
    let c : Cqe = record { user_data = e.user_data; result = result; flags = flags }
    let written : BufferPool = write_source e.msghdr src w.relay.pool
    relay' ← on_cqe F t listen_fd c now now' (record (w.relay) { pool = written })
    some (record w { relay = relay'; flight = rest })
  complete Opcode.send_msg_zc e rest result flags src now now' w = do
    let c : Cqe = record { user_data = e.user_data; result = result; flags = flags }
    relay' ← on_cqe F t listen_fd c now now' w.relay
    some (record w { relay = relay'; flight = if t.more flags then w.flight else rest })

  unfoldable pub step : World F → Event → Option (World F)
  step w (Event.controls m) = do
    relay' ← on_control_msg F t listen_fd m w.relay
    some (record w { relay = relay' })
  step w (Event.runs k uuid) = elim (shard_at F k w) [
    | none ↦ some w
    | some s ↦ some (put_shard F k (run_once F uuid s) w)
  ]
  step w (Event.sends done sent) = elim (F.dequeue SqeType w.tx) [
    | none ↦ some w
    | some (m, tx') ↦ do
      relay' ← on_sqe F t listen_fd m done sent w.relay
      some (record w { relay = relay'; tx = tx' })
  ]
  step w Event.submits = elim (F.dequeue Entry w.relay.sq) [
    | none ↦ some w
    | some (e, sq') ↦
        some (record w { relay = record (w.relay) { sq = sq' }; flight = w.flight ++ e ∷ [] })
  ]
  step w (Event.completes k result flags src now now') = elim (take_at k w.flight) [
    | none ↦ some w
    | some (e, rest) ↦ complete e.opcode e rest result flags src now now' w
  ]

  -- The loop's start-up, with a kernel that takes the buffers and the submission.
  unfoldable pub launch : World F → Option (World F)
  launch w = do relay' ← start F t listen_fd true true w.relay; some (record w { relay = relay' })

  -- Any events in any order.
  unfoldable pub run : List Event → World F → Option (World F)
  run [] w = some w
  run (e ∷ es) w = do w' ← step w e; run es w'

-- main, before the loop starts: new shards, and what the queues between the parts hold.
unfoldable pub boot : {F : Fifo} → F.Q Entry → List (F.Q MessageType) → F.Q SqeType → World F
boot {F} sq senders tx = record {
  relay = record { pool = default; router = Router.new F senders; sq = sq };
  flight = [];
  shards = replicate (length senders) (record { session_table = []; session_id = [] });
  tx = tx;
}
