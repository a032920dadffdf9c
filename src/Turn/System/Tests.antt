-- ===== src/Turn/System/Tests.antt =====
-- The relay under a short schedule: two shards, one session, one datagram.
use p2p_networking.Base.{ℕ, ◌≤◌, ◌≡◌, refl, List, [], ◌∷◌, some, arith, replicate, length-replicate}
use p2p_networking.Base.Fail.{◌>>=◌}
use p2p_networking.Base.Fifo.{bounded, Room-bounded}
use p2p_networking.Turn.{MessageType, pool_size}
use p2p_networking.Turn.Slot.{SockaddrStorage, write_socket_addr}
use p2p_networking.Turn.Pool.{Entry}
use p2p_networking.Turn.Ring.{CqeResult}
use p2p_networking.Turn.System.{World, Event, run, boot, launch}
use p2p_networking.Turn.System.Valid.{places}
use p2p_networking.Turn.System.Safe.{relay_never_panics, lost_for_ever}
use p2p_networking.Turn.System.Lost.{Datagram, strays, strays_cost_buffers}
use p2p_networking.Turn.System.Capacity.{held, relay_queues_bounded}
use p2p_networking.Turn.Example.{machine, host, first_session, queue_of, channels}

-- A session comes, a datagram of the host, and the kernel sends it on.
abbrev events : List Event
events =
    Event.controls (MessageType.add_session first_session)
    ∷ Event.runs 0 11
    ∷ Event.submits
    ∷ Event.completes 0 (CqeResult.pos 100) 0 (write_socket_addr machine host).0 20 21
    ∷ Event.runs 0 12
    ∷ Event.sends 30 31
    ∷ Event.submits
    ∷ Event.completes 0 (CqeResult.pos 100) 0 SockaddrStorage.zeroed 40 41
    ∷ []

relay_never_panics_example :
    (w : World bounded) × ((launch bounded machine 5 (boot (queue_of []) channels (queue_of []))
        >>= run bounded machine 5 events)
      ≡ some w)
    × ((j : ℕ) → places j w ≤ 1)
    × ((j : ℕ) → pool_size ≤ j → places j w ≡ 0)
relay_never_panics_example =
    relay_never_panics bounded machine 5 (queue_of []) channels (queue_of []) events refl
      (Room-bounded Entry pool_size (queue_of []) (omega arith)) (omega arith) (refl, (refl, tt))
      refl

relay_queues_bounded_example :
    (w : World bounded) × ((launch bounded machine 5 (boot (queue_of []) channels (queue_of []))
        >>= run bounded machine 5 events)
      ≡ some w)
    × (held bounded w ≤ pool_size)
relay_queues_bounded_example =
    relay_queues_bounded bounded machine 5 (queue_of []) channels (queue_of []) events refl
      (Room-bounded Entry pool_size (queue_of []) (omega arith)) (omega arith) (refl, (refl, tt))
      refl

-- A datagram of a stranger, and then the schedule.
abbrev stranger : List Event
stranger =
    Event.submits
    ∷ Event.completes 0 (CqeResult.pos 100) 0 (write_socket_addr machine host).0 20 21
    ∷ []

lost_for_ever_example :
    (w : World bounded) × (w' : World bounded) × ((launch bounded machine 5
          (boot (queue_of []) channels (queue_of []))
        >>= run bounded machine 5 stranger)
      ≡ some w)
    × (run bounded machine 5 events w ≡ some w')
    × ((j : ℕ) → places j w ≡ 0 → places j w' ≡ 0)
lost_for_ever_example =
    lost_for_ever bounded machine 5 (queue_of []) channels (queue_of []) stranger events refl
      (Room-bounded Entry pool_size (queue_of []) (omega arith)) (omega arith) (refl, (refl, tt))
      refl

-- As many datagrams as there are buffers, and then the schedule.
abbrev stray : Datagram
stray = record {
  result = CqeResult.pos 100;
  flags = 0;
  src = (write_socket_addr machine host).0;
  now = 20;
  now' = 21;
}

abbrev flood : List Datagram
flood = replicate pool_size stray

strays_cost_buffers_example :
    (w : World bounded) × (w' : World bounded) × ((launch bounded machine 5
          (boot (queue_of []) channels (queue_of []))
        >>= run bounded machine 5 (strays flood))
      ≡ some w)
    × (run bounded machine 5 events w ≡ some w')
    × ((j : ℕ) → 0 ≤ j → places j w' ≡ 0)
strays_cost_buffers_example =
    strays_cost_buffers bounded machine 5 (queue_of []) channels (queue_of []) 0 flood events refl
      (Room-bounded Entry pool_size (queue_of []) (omega arith)) (omega arith) (refl, (refl, tt))
      refl (length-replicate pool_size stray)
