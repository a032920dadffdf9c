-- ===== src/FirstImpl/Tests.antt =====
-- The first version at concrete shards and buffers.
use p2p_networking.Base.{
  ◌≡◌, refl, List, [], ◌∷◌, ◌++◌, map, some, none, arith, take, drop, ℕ_discrete,
}
use p2p_networking.Base.Fifo.{Bounded, bounded, Room-bounded}
use p2p_networking.Base.Map
use p2p_networking.Base.Map.{nat_key}
use p2p_networking.Base.Net.{SocketAddr, SocketAddr-discrete}
use p2p_networking.Turn.{SqeType, route_to}
use p2p_networking.Turn.Token.{OpType}
use p2p_networking.Turn.Pool.{Entry}
use p2p_networking.Turn.Pool.Post.{recv_entry, send_entry}
use p2p_networking.Turn.Shard
use p2p_networking.Turn.Shard.History.{sessions, partner, register}
use p2p_networking.Turn.Shard.Relayed.{relay}
use p2p_networking.Turn.Example.{
  machine, host, peer, queue_of, history, uuids, uuids-AreNew, pool_of, pool_of-memory, completion,
}
use p2p_networking.FirstImpl.{Packet, Shard, new, destination, run}
use p2p_networking.FirstImpl.Same.{as_message, add_sessions, destinations_agree, runs_agree}
use p2p_networking.FirstImpl.Ring.{
  Loop, completed_of, on_completed, on_sqe, sqe_batch, localhost, spawned,
}
use p2p_networking.FirstImpl.Ring.Batch.{batch_takes}
use p2p_networking.FirstImpl.Ring.Cycle.{packet_of, packet_cycle}
use p2p_networking.FirstImpl.Ring.Started.{sessions_at, started_relays}

abbrev packet_from : SocketAddr → Packet
packet_from src = record { data_at = 2; len = 100; src = src; buf_idx = 2 }

abbrev packets : List Packet
packets = packet_from host ∷ packet_from (localhost 9001) ∷ packet_from peer ∷ []

destinations_agree_example :
    destination bounded
      (add_sessions bounded (sessions history) (new bounded 0 (queue_of []) (queue_of [])))
      peer
    ≡ Shard.destination bounded
        (register bounded history (Shard.new bounded 0 (queue_of []) (queue_of [])))
        peer
destinations_agree_example =
    destinations_agree bounded history 0 (queue_of []) (queue_of []) (queue_of []) (queue_of [])
      peer (tt, tt)

runs_agree_example :
    (s : Shard bounded) × (run bounded 3
        (add_sessions bounded (sessions history) (new bounded 0 (queue_of packets) (queue_of [])))
      ≡ some s)
    × (s.recv.held ≡ [])
    × (s.tx_out.held
        ≡ (Shard.run bounded uuids (
            register bounded history
              (Shard.new bounded 0 (queue_of (map as_message packets)) (queue_of [])))).tx_out.held)
runs_agree_example =
    runs_agree bounded history 3 0 uuids (queue_of packets) (queue_of (map as_message packets))
      (queue_of []) (tt, tt) uuids-AreNew refl (omega arith) (omega arith)
      (Room-bounded SqeType 3 (queue_of []) (omega arith))

-- The first shard relays between the two ports, and nothing else.
relayed_by_first : relay (sessions_at 0) (map as_message packets) ≡ (localhost 9002, 100, 2) ∷ []
unfolding relay partner route_to SocketAddr-discrete ℕ_discrete
relayed_by_first = refl

started_relays_example :
    (s : Shard bounded) × (run bounded 3 (spawned bounded 0 (queue_of packets) (queue_of []))
      ≡ some s)
    × (s.tx_out.held ≡ [] ++ relay (sessions_at 0) (map as_message packets))
    × (s.recv.held ≡ [])
started_relays_example =
    started_relays bounded 3 0 (queue_of packets) (queue_of []) (omega arith)
      (Room-bounded SqeType 3 (queue_of []) (omega arith))

abbrev loop_with : List SqeType → Loop bounded
loop_with sends = record {
  pool = pool_of 2;
  router = record { senders = queue_of [] ∷ queue_of [] ∷ [] };
  sq = queue_of [];
  sqe_rx = queue_of sends;
}

abbrev two_sends : List SqeType
two_sends = (peer, 100, 1) ∷ (host, 50, 0) ∷ []

-- The second send waits for the next batch.
batch_takes_example :
    (w : Loop bounded) × (sqe_batch bounded machine 5 1 (λ left. 30) (loop_with two_sends) ≡ some w)
    × (w.sqe_rx.held ≡ drop 1 two_sends)
    × (w.sq.held ≡ [] ++ map (λ m. send_entry 5 m.2) (take 1 two_sends))
batch_takes_example =
    batch_takes bounded machine 5 1 (λ left. 30) two_sends (loop_with two_sends) refl
      (omega (arith, pool_of-memory 2), (omega (arith, pool_of-memory 2), tt))
      (Room-bounded Entry 1 (queue_of []) (omega arith))

packet_cycle_example :
    let w = loop_with [] in
    (w1 : Loop bounded) × (w2 : Loop bounded) × (w3 : Loop bounded) × (q' : Bounded Packet)
    × (on_completed bounded machine 5 (completed_of (completion OpType.recv 1 0)) 20 21 w ≡ some w1)
    × (w1.router.senders ≡ q' ∷ queue_of [] ∷ [])
    × (q'.held ≡ [] ++ packet_of bounded machine 5 1 100 w.pool ∷ [])
    × (on_sqe bounded machine 5 (peer, 100, 1) 30 w1 ≡ some w2)
    × (on_completed bounded machine 5 (completed_of (completion OpType.send 1 0)) 40 41 w2
        ≡ some w3)
    × (w3.sq.held ≡ [] ++ send_entry 5 1 ∷ recv_entry 5 1 ∷ [])
    × (Map.get 1 w3.pool.timestamp ≡ none)
unfolding ℕ_discrete
packet_cycle_example =
    packet_cycle bounded machine 5 1 20 21 30 40 41 (completion OpType.recv 1 0)
      (completion OpType.send 1 0) peer 100 (loop_with []) (queue_of []) (queue_of [] ∷ [])
      (omega arith) (omega (arith, pool_of-memory 2)) refl refl
      (Room-bounded Packet 1 (queue_of []) (omega arith))
      (Room-bounded Entry 2 (queue_of []) (omega arith)) refl refl
