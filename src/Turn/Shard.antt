-- ===== src/Turn/Shard.antt =====
-- `Shard` of turn_server/src/lib.rs. A new `Uuid` is an argument.
pub mod History
pub mod Relayed
pub mod Relay
use p2p_networking.Base.{ℕ, zero, suc, ◌+◌, List, [], ◌∷◌, Option, none, some, ltb, if◌then◌else◌}
use p2p_networking.Base.Fifo.{Fifo}
use p2p_networking.Base.Map
use p2p_networking.Base.Map.{Map, nat_key}
use p2p_networking.Base.Net.{SocketAddr, socket_addr_key}
use p2p_networking.Turn.{Packet, Session, MessageType, SqeType, route_to}

pub record Shard (F : Fifo) : Type 0 where
  pub id : ℕ
  pub recv : F.Q MessageType
  pub session_table : Map ℕ Session
  pub session_id : Map SocketAddr ℕ
  pub tx_out : F.Q SqeType

-- The nested `if let`s of `handle_packet`: the session of the id, and its route.
unfoldable pub by_session : SocketAddr → Option Session → Option SocketAddr
by_session src none = none
by_session src (some session) = route_to session src

unfoldable pub by_id : Map ℕ Session → SocketAddr → Option ℕ → Option SocketAddr
unfolding by_session
by_id table src none = none
by_id table src (some session_id) = by_session src (Map.get session_id table)

module _ (F : Fifo) where
  -- `Shard::new`
  unfoldable pub new : ℕ → F.Q MessageType → F.Q SqeType → Shard F
  new id recv tx_out = record {
    id = id;
    recv = recv;
    session_table = [];
    session_id = [];
    tx_out = tx_out;
  }

  unfoldable pub add_session : ℕ → Session → Shard F → Shard F
  add_session session_id session s = record s {
    session_id =
        Map.insert session.peer_addr session_id
          (Map.insert session.host_addr session_id s.session_id);
    session_table = Map.insert session_id session s.session_table;
  }

  -- The address to which the tables send a packet from `src`.
  unfoldable pub destination : Shard F → SocketAddr → Option SocketAddr
  unfolding by_id
  destination s src = by_id s.session_table src (Map.get src s.session_id)

  -- `tx_out.try_send(…)`; an error is logged, and the message is gone.
  abbrev pub try_send : SqeType → F.Q SqeType → F.Q SqeType
  try_send m q = elim (F.enqueue SqeType m q) [ none ↦ q | some q' ↦ q' ]

  unfoldable pub handle_packet : Packet → Shard F → Shard F
  unfolding destination
  handle_packet p s = elim (destination s p.src) [
    | none ↦ s
    | some dst ↦ record s { tx_out = try_send (dst, p.len, p.buf_idx) s.tx_out }
  ]

  unfoldable pub handle : ℕ → MessageType → Shard F → Shard F
  handle uuid (MessageType.add_session session) s = add_session uuid session s
  handle uuid (MessageType.transmit p) s = handle_packet p s

  -- One round of the loop of `run`, with the `Uuid` that it would take. An empty queue only idles.
  unfoldable pub run_once : ℕ → Shard F → Shard F
  run_once uuid s = elim (F.dequeue MessageType s.recv) [
    | none ↦ s
    | some (msg, recv') ↦ handle uuid msg (record s { recv = recv' })
  ]

  -- The loop of `run`, for as many rounds as there are `Uuid`s.
  unfoldable pub run : List ℕ → Shard F → Shard F
  run [] s = s
  run (uuid ∷ uuids) s = run uuids (run_once uuid s)

  -- Whether a message counts for `run_n`.
  abbrev pub counted : MessageType → ℕ
  counted (MessageType.add_session session) = 0
  counted (MessageType.transmit p) = 1

  -- One round of `run_n`: the shard, and how many packets are finished.
  unfoldable pub run_n_once : ℕ → Shard F × ℕ → Shard F × ℕ
  run_n_once uuid (s, finished) = elim (F.dequeue MessageType s.recv) [
    | none ↦ (s, finished)
    | some (msg, recv') ↦ (handle uuid msg (record s { recv = recv' }), finished + counted msg)
  ]

  -- The loop of `run_n n`: each round reads the clock (milliseconds since the start) and takes a
  -- `Uuid` if it needs one. It ends when `n` packets are finished or five seconds are over.
  unfoldable pub run_n : ℕ → List (ℕ × ℕ) → Shard F × ℕ → Shard F × ℕ
  run_n n [] (s, finished) = (s, finished)
  run_n n ((elapsed, uuid) ∷ rounds) (s, finished) =
      let rest = run_n n rounds (run_n_once uuid (s, finished)) in
      if ltb finished n then (if ltb 5000 elapsed then (s, finished) else rest) else (s, finished)
