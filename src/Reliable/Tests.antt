-- ===== src/Reliable/Tests.antt =====
-- The theorems about the reliable transport at concrete endpoints.
use mathlib.Core.Option
use p2p_networking.Base.{
  ℕ, zero, suc, ◌+◌, ◌<◌, ◌≡◌, refl, List, [], ◌∷◌, ◌++◌, map, Option, none, some, inl, inr, arith,
  range, replicate, length, dec_lt, dec_le, ℕ_discrete,
}
use p2p_networking.Base.Map
use p2p_networking.Base.Map.{nat_key}
use p2p_networking.Base.Net.{SocketAddr, SocketAddr-discrete}
use p2p_networking.Base.Word.{to_be_bytes, from_be_bytes}
use p2p_networking.Reliable.{Packet, SentPacket, ReliableUdp, init, new, ack_packet}
use p2p_networking.Reliable.Wire.{
  serialize, deserialize, normal, rest_payload, deserialize-serialize, deserialize-none_iff,
}
use p2p_networking.Reliable.Receiver.Drain.{Ended, drain_ends}
use p2p_networking.Reliable.Receiver.{recv, recv_all, on_packet, accept, drain, release, hold, past}
use p2p_networking.Reliable.Receiver.Order.{received, Arrived, payloads, recv_all-in_order}
use p2p_networking.Reliable.Sender.{
  send, check_retransmission, collect_due, retransmit, send_acks, periodic_acks,
}
use p2p_networking.Reliable.Sender.Retransmit.{
  datagrams, due, refreshed, check_retransmission_exact,
}
use p2p_networking.Reliable.Sender.Storm.{ack_bytes, volley, volley_endless}
use p2p_networking.Reliable.Endpoint.{Event, run, step}
use p2p_networking.Reliable.Endpoint.Forever.{Sent, unacked_forever}
use p2p_networking.Reliable.Endpoint.Stream.{init-From}
use p2p_networking.Reliable.Endpoint.Transfer.{transfer_in_order, Delivers-Carries}

program : Unit {0}
unfolding serialize deserialize rest_payload to_be_bytes from_be_bytes received recv recv_all
    on_packet accept drain release hold past send check_retransmission collect_due retransmit
    send_acks periodic_acks run step due SocketAddr-discrete dec_lt dec_le ℕ_discrete Map.get
    Map.insert Map.remove
program = tt

abbrev at_a : SocketAddr
at_a = SocketAddr.v4 167772161 4000

abbrev at_b : SocketAddr
at_b = SocketAddr.v4 167772162 5000

-- Part 0 acknowledges; part k + 1 is the byte k.
abbrev stream : ℕ → Option (List ℕ)
stream zero = none
stream (suc n) = some (n ∷ [])

-- A payload that arrives before anything was received is held, and acknowledged.
abbrev early : Packet
early = record { header = record { seq = 3; ack = 0 }; payload = some (9 ∷ []) }

-- What happens at the sender.
abbrev events : List Event
events =
    Event.sends 0 (0 ∷ [])
    ∷ Event.sends 5 (1 ∷ [])
    ∷ Event.receives (serialize early, at_b)
    ∷ Event.acknowledges
    ∷ Event.checks 2003
    ∷ []

abbrev second_part : Packet
second_part = record { header = record { seq = 2; ack = 0 }; payload = some (1 ∷ []) }

abbrev first_part : Packet
first_part = record { header = record { seq = 1; ack = 0 }; payload = some (0 ∷ []) }

-- The acknowledgement, then the parts in the wrong order, one of them twice.
abbrev arriving : List (List ℕ × SocketAddr)
arriving =
    (serialize second_part, at_a)
    ∷ (serialize (ack_packet 0), at_a)
    ∷ (serialize first_part, at_a)
    ∷ (serialize second_part, at_a)
    ∷ []

abbrev sent : List (List ℕ × SocketAddr)
sent =
    (serialize first_part, at_b)
    ∷ (serialize second_part, at_b)
    ∷ (serialize (ack_packet 0), at_b)
    ∷ (serialize first_part, at_b)
    ∷ []

events-sent : (run at_b init events).socket ≡ sent
unfolding program
events-sent = refl

arriving-payloads :
    payloads (recv_all at_a init arriving) ≡ none ∷ some (0 ∷ []) ∷ some (1 ∷ []) ∷ []
unfolding program
arriving-payloads = refl

transfer_in_order_example :
    (payloads (recv_all at_a init arriving)
      ≡ map stream (range (recv_all at_a init arriving).state.expected_sequence))
    × ((k : ℕ)
        → k < (recv_all at_a init arriving).state.expected_sequence
        → Arrived at_a arriving k)
    × (¬ Arrived at_a arriving (recv_all at_a init arriving).state.expected_sequence)
unfolding program
transfer_in_order_example =
    transfer_in_order stream at_a at_b events arriving refl
      (refl, omega arith, omega arith, (refl, omega arith, omega arith, tt))
      (λ _. inr (inl refl), (λ _. inr (inr (inl refl)), (λ _. inl refl, (λ _. inr (inl refl), tt))))

recv_all-in_order_example :
    (payloads (recv_all at_a init arriving)
      ≡ map stream (range (recv_all at_a init arriving).state.expected_sequence))
    × ((k : ℕ)
        → k < (recv_all at_a init arriving).state.expected_sequence
        → Arrived at_a arriving k)
    × (¬ Arrived at_a arriving (recv_all at_a init arriving).state.expected_sequence)
unfolding program
recv_all-in_order_example = recv_all-in_order stream at_a arriving (
    Delivers-Carries stream at_a sent arriving
      (init-From stream refl at_b events
        (refl, omega arith, omega arith, (refl, omega arith, omega arith, tt)))
      (
        λ _. inr (inl refl),
        (λ _. inr (inr (inl refl)), (λ _. inl refl, (λ _. inr (inl refl), tt))),
      ))

deserialize-serialize_example : deserialize (serialize early) ≡ some (normal early)
deserialize-serialize_example =
    deserialize-serialize early (record { seq = omega arith; ack = omega arith })

abbrev short : List ℕ
short = 1 ∷ 2 ∷ []

deserialize-none_iff_example :
    (deserialize short ≡ none → length short < 8) × (length short < 8 → deserialize short ≡ none)
deserialize-none_iff_example = deserialize-none_iff short

-- The sender's entry from the start on.
abbrev first_entry : SentPacket
first_entry = record { packet = first_part; time_sent = 0 }

-- An endpoint with one packet sent.
abbrev busy : ReliableUdp
busy = record init {
  state = record new { next_seq = 1; unacked = (1, first_entry) ∷ [] };
  socket = (serialize first_part, at_b) ∷ [];
}

check_retransmission_exact_example :
    let r' = check_retransmission at_b 2001 busy in
    (r'.socket ≡ busy.socket ++ datagrams at_b (due 2001 busy.state.unacked))
    × ((k : ℕ)
        → Map.get k r'.state.unacked ≡ Option.map (refreshed 2001) (Map.get k busy.state.unacked))
    × ((check_retransmission at_b 2001 r').socket ≡ r'.socket)
check_retransmission_exact_example = check_retransmission_exact at_b 2001 busy

unacked_forever_example :
    let r' = run at_b busy events in
    ((e' : SentPacket) × (Map.get 1 r'.state.unacked ≡ some e') × (e'.packet ≡ first_part))
    × ((out : List (List ℕ × SocketAddr)) × ((step at_b r' (Event.checks 4010)).socket
          ≡ r'.socket ++ out)
        × Sent (serialize first_part, at_b) out)
unfolding program
unacked_forever_example =
    unacked_forever at_b busy events 1 first_entry 2003 4010 refl (omega arith) (omega arith)
      (omega arith) (omega arith, tt) (omega arith)

-- An endpoint past number 0 that has just acknowledged it.
abbrev past0 : ReliableUdp
past0 = record init {
  state = record new { expected_sequence = 1 };
  socket = (ack_bytes 0, at_b) ∷ [];
}

volley_endless_example : volley at_a at_b 3 (past0, past0) ≡ (
  record past0 { socket = past0.socket ++ replicate 3 (ack_bytes 0, at_b) },
  record past0 { socket = past0.socket ++ replicate 3 (ack_bytes 0, at_a) },
)
volley_endless_example =
    volley_endless at_a at_b 0 3 past0 past0 (omega arith) (omega arith) (omega arith) refl refl
      refl

-- Part 2 is held; after part 1 the loop hands it on.
abbrev holding : ReliableUdp
holding = record init {
  state = record new { expected_sequence = 2; recv_buffer = (2, second_part) ∷ [] };
}

drain_ends_example :
    (n : ℕ) × Ended 2 holding (drain (1 + 5) at_a 2 holding) n
    × (drain (1 + 5) at_a 2 holding ≡ drain 1 at_a 2 holding)
drain_ends_example = drain_ends at_a 5 2 holding (omega arith) (omega arith)
