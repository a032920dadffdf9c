-- ===== src/FirstImpl.antt =====
-- turn_server/src/bin/first_impl.rs, the first version of the relay: its shards and its router. A
-- shard's table gives the session of an address at once, and all packets go to shard 0. Sessions,
-- buffers, headers and tokens are those of turn_server/src/lib.rs, word for word (Turn). The
-- channels here make the sender wait for room. What does not get past a send to a full channel, or
-- panics, is none.
pub mod Same
pub mod Ring
mod Tests
use p2p_networking.Base.{ℕ, zero, suc, List, [], ◌∷◌, Option, none, some, get_elem?, set}
use p2p_networking.Base.Fail.{◌>>=◌}
use p2p_networking.Base.Fifo.{Fifo}
use p2p_networking.Base.Map
use p2p_networking.Base.Map.{Map}
use p2p_networking.Base.Net.{SocketAddr, socket_addr_key}
use p2p_networking.Turn.{Session, SqeType, route_to}

pub record Packet : Type 0 where
  pub data_at : ℕ
  pub len : ℕ
  pub src : SocketAddr
  pub buf_idx : ℕ

pub record Shard (F : Fifo) : Type 0 where
  pub id : ℕ
  pub recv : F.Q Packet
  pub session_table : Map SocketAddr Session
  pub tx_out : F.Q SqeType

pub record ShardRouter (F : Fifo) : Type 0 where
  pub senders : List (F.Q Packet)

-- The nested `if let`s of `handle_packet`.
unfoldable pub by_session : SocketAddr → Option Session → Option SocketAddr
by_session src none = none
by_session src (some session) = route_to session src

module _ (F : Fifo) where
  -- `Shard::new`
  unfoldable pub new : ℕ → F.Q Packet → F.Q SqeType → Shard F
  new id recv tx_out = record { id = id; recv = recv; session_table = []; tx_out = tx_out }

  unfoldable pub add_session : Session → Shard F → Shard F
  add_session session s = record s {
    session_table =
        Map.insert session.peer_addr session (Map.insert session.host_addr session s.session_table);
  }

  -- Where the table sends a packet from `src`.
  unfoldable pub destination : Shard F → SocketAddr → Option SocketAddr
  unfolding by_session
  destination s src = by_session src (Map.get src s.session_table)

  -- `tx_out.send(…)` waits for room.
  unfoldable pub handle_packet : Packet → Shard F → Option (Shard F)
  unfolding destination
  handle_packet p s = elim (destination s p.src) [
    | none ↦ some s
    | some dst ↦ do
      tx_out' ← F.enqueue SqeType (dst, p.len, p.buf_idx) s.tx_out
      some (record s { tx_out = tx_out' })
  ]

  -- One round of the loop of `run`; an empty queue is waited for.
  unfoldable pub run_once : Shard F → Option (Shard F)
  run_once s = elim (F.dequeue Packet s.recv) [
    | none ↦ some s
    | some (packet, recv') ↦ handle_packet packet (record s { recv = recv' })
  ]

  unfoldable pub run : ℕ → Shard F → Option (Shard F)
  run zero s = some s
  run (suc n) s = do s' ← run_once s; run n s'

  -- `shard_for` returns 0 before it comes to its hash.
  unfoldable pub shard_for : ShardRouter F → SocketAddr → ℕ
  shard_for r addr = 0

  -- `channel.send(…)` waits for room; a missing channel is a panic.
  unfoldable pub route : Packet → ShardRouter F → Option (ShardRouter F)
  unfolding shard_for
  route p r = do
    let shard_idx : ℕ = shard_for r p.src
    channel ← get_elem? r.senders shard_idx
    channel' ← F.enqueue Packet p channel
    some (record r { senders = set r.senders shard_idx channel' })
