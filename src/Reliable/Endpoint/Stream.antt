-- ===== src/Reliable/Endpoint/Stream.antt =====
-- What one endpoint puts on the wire, and what its peer hands on of it.
use p2p_networking.Base.{
  ℕ, zero, suc, ◌+◌, ◌≤◌, ◌<◌, ◌≡◌, refl, sym, ◌∙◌, ap, List, [], ◌∷◌, Option, none, inl, inr,
  arith, length, All, All-append, Option-cases, Bool-cases, ℕ_discrete, if_pos, if_neg,
}
use p2p_networking.Base.Map
use p2p_networking.Base.Map.{Map, nat_key}
use p2p_networking.Base.Net.{SocketAddr}
use p2p_networking.Base.Word.{u32_mod, add32, to_be_bytes}
use p2p_networking.Reliable.{AckInfo, Packet, PacketType, SentPacket, ReliableUdp, ack_packet, init}
use p2p_networking.Reliable.Wire.{serialize, rest_payload, payload_bytes}
use p2p_networking.Reliable.Receiver.{recv, release, drain, accept, hold, past, on_packet}
use p2p_networking.Reliable.Receiver.Order.{received, recv-none, recv-some}
use p2p_networking.Reliable.Receiver.Invariant.{order_cases}
use p2p_networking.Reliable.Sender.{
  is_due, send, data_packet, collect_due, check_retransmission, send_acks, periodic_acks,
}
use p2p_networking.Reliable.Sender.Retransmit.{check_retransmission_lem, due, datagrams}
use p2p_networking.Reliable.Endpoint.Forever.{periodic_acks-state}
use p2p_networking.Reliable.Endpoint.{
  Event, sends, receives, checks, acknowledges, step, run, recv-SameSender,
}

-- The packet carries its part of the stream, and fits the wire.
pub record IsPart (stream : ℕ → Option (List ℕ)) (p : Packet) : Type 0 where
  pub number : p.header.seq + 1 < u32_mod
  pub part : rest_payload (payload_bytes p.payload) ≡ stream p.header.seq
  pub short : length (serialize p) ≤ 6600

-- The datagram is a serialized part of the stream.
abbrev pub From : (ℕ → Option (List ℕ)) → List ℕ × SocketAddr → Type 0
From stream d = (p : Packet) × (d.0 ≡ serialize p) × IsPart stream p

-- The events send the stream, where `n` payloads were sent before: the next is part `n + 1`.
abbrev pub Sends : (ℕ → Option (List ℕ)) → ℕ → List Event → Type 0
Sends stream n [] = Unit {0}
Sends stream n (sends now bytes ∷ es) =
    (rest_payload bytes ≡ stream (suc n))
    × (length bytes ≤ 6592)
    × (n + 2 < u32_mod)
    × Sends stream (suc n) es
Sends stream n (receives d ∷ es) = Sends stream n es
Sends stream n (checks now ∷ es) = Sends stream n es
Sends stream n (acknowledges ∷ es) = Sends stream n es

drain-socket :
    (fuel : ℕ) (addr : SocketAddr) (next : ℕ) (r : ReliableUdp)
    → (drain fuel addr next r).socket ≡ r.socket
unfolding drain release
drain-socket zero addr next r = refl
drain-socket (suc fuel) addr next r = elim (Option-cases (Map.get next r.state.recv_buffer)) [
  | inl e ↦ rw (e, drain)
  | inr (p, e) ↦ rw (e, drain) (drain-socket fuel addr (add32 next 1) (release addr next p r))
]

accept-socket :
    (addr : SocketAddr) (p : Packet) (r : ReliableUdp) → (accept addr p r).socket ≡ r.socket
unfolding accept
accept-socket addr p r = drain-socket _ addr _ _

past-socket : (addr : SocketAddr) (p : Packet) (r : ReliableUdp) → (past addr p r).socket ≡ r.socket
unfolding past
past-socket addr p r = ground arith

module _ (stream : ℕ → Option (List ℕ)) (start : stream 0 ≡ none) where
  ack-From : (n : ℕ) (addr : SocketAddr) → From stream (serialize (ack_packet n), addr)
  unfolding serialize to_be_bytes rest_payload
  ack-From n addr =
      (ack_packet n, refl, record { number = omega arith; part = sym start; short = omega arith })

  hold-From :
      (addr : SocketAddr) (p : Packet) (r : ReliableUdp)
      → All (From stream) r.socket
      → All (From stream) (hold addr p r).socket
  unfolding hold
  hold-From addr p r h =
      All-append (From stream) r.socket _ h (ack-From r.state.receiver_acknowledged addr, tt)

  on_packet-From :
      (addr : SocketAddr) (p : Packet) (r : ReliableUdp)
      → All (From stream) r.socket
      → All (From stream) (on_packet addr p r).socket
  unfolding on_packet
  on_packet-From addr p r h = elim (order_cases p.header.seq r.state.expected_sequence) [
    | inl (c, _) ↦ rw (c, on_packet) (rw (past-socket addr p r) h)
    | inr (inl (c, _)) ↦ rw (c, on_packet) (rw (accept-socket addr p r) h)
    | inr (inr (c, _)) ↦ rw (c, on_packet) (hold-From addr p r h)
  ]

  recv-From :
      (peer : SocketAddr) (r : ReliableUdp) (d : List ℕ × SocketAddr)
      → All (From stream) r.socket
      → All (From stream) (recv peer r d).socket
  recv-From peer r d h = elim (Option-cases (received peer d)) [
    | inl e ↦ rw (recv-none peer r d e) h
    | inr (p, e) ↦ rw (recv-some peer r d p e) (on_packet-From peer p r h)
  ]

  send_acks-From :
      (queue : List AckInfo) (r : ReliableUdp)
      → All (From stream) r.socket
      → All (From stream) (send_acks queue r).socket
  unfolding send_acks
  send_acks-From [] r h = h
  send_acks-From (a ∷ queue) r h =
      send_acks-From queue _
        (All-append (From stream) r.socket _ h (ack-From a.ack_num a.peer_addr, tt))

  periodic_acks-From :
      (r : ReliableUdp) → All (From stream) r.socket → All (From stream) (periodic_acks r).socket
  unfolding periodic_acks
  periodic_acks-From r h = send_acks-From r.ack_tx _ h

  -- The packets of the unacknowledged entries are parts of the stream too.
  abbrev Queued : Map ℕ SentPacket → Type 0
  Queued = All λ e. IsPart stream e.1.packet

  insert-Queued :
      (k : ℕ) (e : SentPacket) (m : Map ℕ SentPacket)
      → IsPart stream e.packet
      → Queued m
      → Queued (Map.insert k e m)
  unfolding Map.insert
  insert-Queued k e [] h q = (h, tt)
  insert-Queued k e ((j, e') ∷ m) h q = elim (ℕ_discrete j k) [
    | yes x ↦ rw (if_pos _ x) (h, q.1)
    | no x ↦ rw (if_neg _ x) (q.0, insert-Queued k e m h q.1)
  ]

  due-From :
      (peer : SocketAddr) (now : ℕ) (m : Map ℕ SentPacket)
      → Queued m
      → All (From stream) (datagrams peer (due now m)) × Queued (collect_due now m).1
  unfolding due collect_due
  due-From peer now [] q = (tt, tt)
  due-From peer now ((k, e) ∷ m) q = elim (Bool-cases (is_due now e)) [
    | inl x ↦
        rw x
          (((e.packet, refl, q.0), (due-From peer now m q.1).0), (q.0, (due-From peer now m q.1).1))
    | inr x ↦ rw x ((due-From peer now m q.1).0, (q.0, (due-From peer now m q.1).1))
  ]

  -- What holds of the endpoint after `n` payloads.
  record Streams (n : ℕ) (r : ReliableUdp) : Type 0 where
    wire : All (From stream) r.socket
    queued : Queued r.state.unacked
    count : r.state.next_seq ≡ n

  send-Streams :
      (peer : SocketAddr) (now n : ℕ) (bytes : List ℕ) (r : ReliableUdp)
      → Streams n r
      → rest_payload bytes ≡ stream (suc n)
      → length bytes ≤ 6592
      → n + 2 < u32_mod
      → Streams (suc n) (send peer now r (PacketType.payload bytes))
  unfolding send serialize to_be_bytes
  send-Streams peer now n bytes r s part short fits = record {
    wire = All-append (From stream) r.socket _ s.wire ((_, refl, good), tt);
    queued = insert-Queued _ _ r.state.unacked good s.queued;
    count = next';
  }
    where
      next' : add32 r.state.next_seq 1 ≡ suc n
      next' = omega (arith, s.count)

      good : IsPart stream (data_packet bytes r.state)
      good = record {
        number = omega (arith, next');
        part = part ∙ ap stream (sym next');
        short = omega arith;
      }

  run-From :
      (peer : SocketAddr) (n : ℕ) (r : ReliableUdp) (es : List Event)
      → Streams n r
      → Sends stream n es
      → All (From stream) (run peer r es).socket
  unfolding run step
  run-From peer n r [] s f = s.wire
  run-From peer n r (sends now bytes ∷ es) s f =
      run-From peer (suc n) _ es (send-Streams peer now n bytes r s f.0 f.1 f.2) f.3
  run-From peer n r (receives d ∷ es) s f =
      let same = recv-SameSender peer r d in
      run-From peer n (recv peer r d) es
        (record {
          wire = recv-From peer r d s.wire;
          queued = rw same.unacked s.queued;
          count = same.next_seq ∙ s.count;
        })
        f
  run-From peer n r (checks now ∷ es) s f =
      run-From peer n (check_retransmission peer now r) es
        (rw (check_retransmission_lem peer now r) (record {
          wire =
              All-append (From stream) r.socket _ s.wire
                (due-From peer now r.state.unacked s.queued).0;
          queued = (due-From peer now r.state.unacked s.queued).1;
          count = s.count;
        }))
        f
  run-From peer n r (acknowledges ∷ es) s f =
      run-From peer n (periodic_acks r) es
        (record {
          wire = periodic_acks-From r s.wire;
          queued = rw (periodic_acks-state r) s.queued;
          count = rw (periodic_acks-state r) s.count;
        })
        f

  -- From the initial state, every datagram sent is a serialized part of the stream.
  pub init-From :
      (peer : SocketAddr) (es : List Event)
      → Sends stream 0 es
      → All (From stream) (run peer init es).socket
  init-From peer es f = run-From peer 0 init es (record { wire = tt; queued = tt; count = refl }) f
