-- ===== src/Turn/Tests.antt =====
-- The theorems about the relay on the small machine of Turn/Example.
use mathlib.Core.List.{Sublistᴰ}
use p2p_networking.Base.{
  ℕ, ◌*◌, ◌/◌, ◌^◌, ◌<◌, ◌≤◌, ◌≡◌, refl, List, [], ◌∷◌, ◌++◌, map, Option, none, some, Bool, true,
  leb, arith, length, ℕ_discrete,
}
use p2p_networking.Base.Fail.{◌>>=◌}
use p2p_networking.Base.Fifo.{Bounded, bounded, Room-bounded, offer_all}
use p2p_networking.Base.Map
use p2p_networking.Base.Map.{nat_key}
use p2p_networking.Base.Net.{SocketAddr, SocketAddr-discrete, socket_addr_key}
use p2p_networking.Turn.Example.{
  machine, host, peer, third, second_session, queue_of, channels, control, history, uuids,
  uuids-AreNew, pool_of, pool_of-memory, completion,
}
use p2p_networking.Turn.{Packet, MessageType, SqeType, buffer_size, pool_size, route_to}
use p2p_networking.Turn.Slot
use p2p_networking.Turn.Slot.{Platform, extract_src_addr, relayed, extract_src_addr-new}
use p2p_networking.Turn.Token.{
  OpType, encode_token, decode_token, decode_token-encode_token, encode_token-decode_token_iff,
}
use p2p_networking.Turn.Pool.{BufferPool, Entry, default, register_buffer_kernel, seed}
use p2p_networking.Turn.Pool.Post.{recv_entry, send_entry}
use p2p_networking.Turn.Pool.Seed.{countdown, seed_posts_all}
use p2p_networking.Turn.Shard
use p2p_networking.Turn.Shard.{destination, run}
use p2p_networking.Turn.Shard.History.{sessions, register, partner}
use p2p_networking.Turn.Shard.Relayed.{relay}
use p2p_networking.Turn.Shard.Relay.{destination-register, run_relays, run_relays_all}
use p2p_networking.Turn.Router
use p2p_networking.Turn.Router.{ShardRouter, shard_for, route, on_controls}
use p2p_networking.Turn.Router.Balance.{placed, sessions_of}
use p2p_networking.Turn.Router.Dealt.{Offered, dealt, carried_to, router_places}
use p2p_networking.Turn.Control.{CreateSessionRequest, Reply, session_of, create_sessions}
use p2p_networking.Turn.Control.Placed.{parsed, service_places}
use p2p_networking.Turn.Router.Symmetric.{shard_for-symmetric}
use p2p_networking.Turn.Ring.{Relay, on_sqe, on_cqe, start}
use p2p_networking.Turn.Ring.Start.{start_posts_all}
use p2p_networking.Turn.Ring.Timing.{send_cycle}

abbrev packet_from : SocketAddr → Packet
packet_from src = record { buf_idx = 2; len = 100; src = src }

-- Before the second session, the host's packets go to the peer; after it, to the third address.
abbrev queued : List MessageType
queued =
    MessageType.transmit (packet_from host)
    ∷ MessageType.add_session second_session
    ∷ MessageType.transmit (packet_from host)
    ∷ MessageType.transmit (packet_from peer)
    ∷ []

relay-queued :
    relay (sessions history) queued ≡ (peer, 100, 2) ∷ (third, 100, 2) ∷ (host, 100, 2) ∷ []
unfolding relay partner route_to SocketAddr-discrete ℕ_discrete
relay-queued = refl

destination-register_example :
    destination bounded
      (register bounded history (Shard.new bounded 0 (queue_of queued) (queue_of [])))
      peer
    ≡ partner (sessions history) peer
destination-register_example =
    destination-register bounded history 0 (queue_of queued) (queue_of []) peer (tt, tt)

run_relays_example :
    let s =
      run bounded uuids
        (register bounded history (Shard.new bounded 0 (queue_of queued) (queue_of []))) in
    (s.tx_out ≡ offer_all bounded SqeType (relay (sessions history) queued) (queue_of []))
    × (out : List SqeType) × (bounded.items SqeType s.tx_out ≡ [] ++ out)
    × Sublistᴰ out (relay (sessions history) queued)
    × (bounded.items MessageType s.recv ≡ [])
run_relays_example =
    run_relays bounded history uuids 0 (queue_of queued) (queue_of []) (tt, tt) uuids-AreNew
      (omega arith)

run_relays_all_example :
    bounded.items SqeType
      (run bounded uuids
        (register bounded history (Shard.new bounded 0 (queue_of queued) (queue_of [])))).tx_out
    ≡ [] ++ relay (sessions history) queued
run_relays_all_example =
    run_relays_all bounded history uuids 0 (queue_of queued) (queue_of []) (tt, tt) uuids-AreNew
      (omega arith) (Room-bounded SqeType 4 (queue_of []) (omega arith))

-- The host is in both sessions, and goes to the shard of the second.
placed-control :
    (placed 2 (sessions_of [] control) host ≡ some 1)
    × (placed 2 (sessions_of [] control) peer ≡ some 0)
unfolding placed SocketAddr-discrete ℕ_discrete
placed-control = (refl, refl)

router_places_example :
    (r : ShardRouter bounded) × (on_controls bounded control (Router.new bounded channels) ≡ some r)
    × ((a : SocketAddr) → Map.get a r.endpoint_to_shard ≡ placed 2 (sessions_of [] control) a)
    × Offered bounded (λ k. dealt 2 k (sessions_of [] control)) channels r.senders
    × ((p : Packet)
        → (r' : ShardRouter bounded) × (route bounded p r ≡ some r')
          × Offered bounded
              (λ k. carried_to k p (placed 2 (sessions_of [] control) p.src))
              r.senders
              r'.senders)
router_places_example = router_places bounded channels control (omega arith)

seed_posts_all_example :
    (pool' : BufferPool) × (sq' : Bounded Entry) × ((register_buffer_kernel 2 true (pool_of 2)
        >>= λ p. seed bounded machine 5 2 p (queue_of []))
      ≡ some (pool', sq'))
    × (sq'.held ≡ [] ++ map (recv_entry 5) (countdown 2))
    × (pool'.free_list ≡ [])
    × ((i : ℕ)
        → i < 2
        → Map.get i pool'.live_slots ≡ some (Slot.new machine (i * buffer_size) none))
    × (pool'.memory ≡ (pool_of 2).memory)
    × (pool'.timestamp ≡ [])
seed_posts_all_example =
    seed_posts_all bounded machine 5 2 (pool_of 2) (queue_of []) (pool_of-memory 2) (omega arith)
      refl (Room-bounded Entry 2 (queue_of []) (omega arith))

abbrev relay_with : BufferPool → Relay bounded
relay_with pool = record { pool = pool; router = Router.new bounded channels; sq = queue_of [] }

start_posts_all_example :
    (w' : Relay bounded) × (start bounded machine 5 true true (relay_with default) ≡ some w')
    × (w'.sq.held ≡ [] ++ map (recv_entry 5) (countdown pool_size))
    × (w'.pool.free_list ≡ [])
    × ((i : ℕ)
        → i < pool_size
        → Map.get i w'.pool.live_slots ≡ some (Slot.new machine (i * buffer_size) none))
    × (w'.pool.memory ≡ default.memory)
    × (w'.pool.timestamp ≡ default.timestamp)
    × (w'.router ≡ Router.new bounded channels)
start_posts_all_example =
    start_posts_all bounded machine 5 true true (relay_with default) refl
      (Room-bounded Entry pool_size (queue_of []) (omega arith))

send_cycle_example :
    (w1 : Relay bounded) × (w2 : Relay bounded) × (on_sqe bounded machine 5
        (peer, 100, 1)
        30
        31
        (relay_with (pool_of 2))
      ≡ some w1)
    × (on_cqe bounded machine 5 (completion OpType.send 1 1) 40 41 w1 ≡ some w1)
    × (on_cqe bounded machine 5 (completion OpType.send 1 0) 40 41 w1 ≡ some w2)
    × (w2.sq.held ≡ [] ++ send_entry 5 1 ∷ recv_entry 5 1 ∷ [])
    × (Map.get 1 w2.pool.live_slots ≡ some (Slot.new machine (1 * buffer_size) none))
    × (Map.get 1 w2.pool.timestamp ≡ none)
unfolding ℕ_discrete
send_cycle_example =
    send_cycle bounded machine 5 peer 100 1 30 31 (completion OpType.send 1 1)
      (completion OpType.send 1 0) 40 41 (relay_with (pool_of 2)) (omega arith)
      (omega (arith, pool_of-memory 2)) (Room-bounded Entry 2 (queue_of []) (omega arith)) refl refl
      refl refl

decode_token-encode_token_example : decode_token (encode_token OpType.send 700) ≡ (OpType.send, 700)
decode_token-encode_token_example = decode_token-encode_token OpType.send 700 (omega arith)

encode_token-decode_token_iff_example :
    (458757 / 2 ^ 16 ≤ 2 → encode_token (decode_token 458757).0 (decode_token 458757).1 ≡ 458757)
    × (encode_token (decode_token 458757).0 (decode_token 458757).1 ≡ 458757 → 458757 / 2 ^ 16 ≤ 2)
encode_token-decode_token_iff_example = encode_token-decode_token_iff 458757

extract_src_addr-new_example :
    extract_src_addr machine (Slot.new machine 1500 (some third)) ≡ relayed third
extract_src_addr-new_example = extract_src_addr-new machine 1500 third (omega arith)

-- Stands for the parser: an address and a port.
abbrev parse : List ℕ → Option SocketAddr
parse (ip ∷ port ∷ []) = some (SocketAddr.v4 ip port)
parse _ = none

abbrev calls : List CreateSessionRequest
calls =
    record { host_addr = 1 ∷ 2 ∷ []; peer_addr = 3 ∷ 4 ∷ [] }
    ∷ record { host_addr = []; peer_addr = 3 ∷ 4 ∷ [] }
    ∷ []

service_places_example :
    ((create_sessions parse calls []).0 ≡ Reply.success ∷ Reply.invalid_argument ∷ [])
    × (r : ShardRouter bounded) × (on_controls bounded
          (create_sessions parse calls []).1
          (Router.new bounded channels)
        ≡ some r)
    × ((a : SocketAddr) → Map.get a r.endpoint_to_shard ≡ placed 2 (parsed parse [] calls) a)
    × Offered bounded (λ k. dealt 2 k (parsed parse [] calls)) channels r.senders
unfolding session_of
service_places_example = service_places parse bounded channels calls (omega arith)

-- Addresses by their ports.
abbrev before : SocketAddr → SocketAddr → Bool
before (SocketAddr.v4 ip port) (SocketAddr.v4 ip' port') = leb port port'
before _ _ = true

shard_for-symmetric_example :
    let r = Router.new bounded channels in
    (i : ℕ) × (shard_for (λ a b. 7) before r host peer ≡ some i)
    × (shard_for (λ a b. 7) before r peer host ≡ some i)
    × (i < length r.senders)
unfolding Router.new
shard_for-symmetric_example =
    shard_for-symmetric bounded (λ a b. 7) before (Router.new bounded channels) host peer (λ e. cc)
      (λ e e'. cc) (omega arith)
