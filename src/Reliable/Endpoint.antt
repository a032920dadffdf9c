-- ===== src/Reliable/Endpoint.antt =====
-- One endpoint over time: sends, datagrams, retransmission ticks and queued acknowledgements in
-- any order.
pub mod Forever
pub mod Stream
pub mod Transfer
pub mod Duplex
use p2p_networking.Base.{
  ℕ, zero, suc, ◌+◌, ◌≡◌, refl, List, [], ◌∷◌, inl, inr, none, some, Option-cases, compare,
  Ordering, arith, length, ◌++◌,
}
use p2p_networking.Base.Map
use p2p_networking.Base.Map.{nat_key}
use p2p_networking.Base.Net.{SocketAddr}
use p2p_networking.Base.Word.{add32}
use p2p_networking.Reliable.{Packet, PacketType, ReliableUdp, SharedState}
use p2p_networking.Reliable.Receiver.{recv, release, drain, notify, accept, hold, past, on_packet}
use p2p_networking.Reliable.Receiver.Order.{received, recv-none, recv-some}
use p2p_networking.Reliable.Sender.{send, check_retransmission, periodic_acks}

pub data Event : Type 0 where
  sends : ℕ → List ℕ → Event
  receives : List ℕ × SocketAddr → Event
  checks : ℕ → Event
  acknowledges : Event

-- One event at the endpoint whose peer is at the address.
unfoldable pub step : SocketAddr → ReliableUdp → Event → ReliableUdp
step peer r (sends now bytes) = send peer now r (PacketType.payload bytes)
step peer r (receives d) = recv peer r d
step peer r (checks now) = check_retransmission peer now r
step peer r acknowledges = periodic_acks r

unfoldable pub run : SocketAddr → ReliableUdp → List Event → ReliableUdp
run peer r [] = r
run peer r (e ∷ es) = run peer (step peer r e) es

-- The number of payloads that the events send.
abbrev pub sends_of : List Event → ℕ
sends_of [] = 0
sends_of (sends now bytes ∷ es) = suc (sends_of es)
sends_of (receives d ∷ es) = sends_of es
sends_of (checks now ∷ es) = sends_of es
sends_of (acknowledges ∷ es) = sends_of es

pub sends_of-cons :
    (e : Event) (es : List Event) → sends_of (e ∷ es) ≡ sends_of (e ∷ []) + sends_of es
sends_of-cons (sends now bytes) es = omega arith
sends_of-cons _ es = omega arith

-- The two states agree in the sender's half.
pub record SameSender (s t : SharedState) : Type 0 where
  pub next_seq : s.next_seq ≡ t.next_seq
  pub unacked : s.unacked ≡ t.unacked

drain-SameSender :
    (fuel : ℕ) (addr : SocketAddr) (next : ℕ) (r : ReliableUdp)
    → SameSender (drain fuel addr next r).state r.state
unfolding drain release
drain-SameSender zero addr next r = record { next_seq = refl; unacked = refl }
drain-SameSender (suc fuel) addr next r = elim (Option-cases (Map.get next r.state.recv_buffer)) [
  | inl e ↦ rw (e, drain) (record { next_seq = refl; unacked = refl })
  | inr (p, e) ↦
      let ih = drain-SameSender fuel addr (add32 next 1) (release addr next p r) in
      rw (e, drain) (record { next_seq = ih.next_seq; unacked = ih.unacked })
]

on_packet-SameSender :
    (addr : SocketAddr) (p : Packet) (r : ReliableUdp)
    → SameSender (on_packet addr p r).state r.state
unfolding on_packet accept hold past
on_packet-SameSender addr p r = ground (
  arith,
  drain-SameSender (length r.state.recv_buffer) addr (add32 p.header.seq 1) (
      notify p.header.seq addr (record r {
        state = record (r.state) {
          expected_sequence = add32 r.state.expected_sequence 1;
          receiver_acknowledged = p.header.seq;
        };
        output_tx = r.output_tx ++ (p, addr) ∷ [];
      })),
)

-- Receiving never touches the sender's half of the state.
pub recv-SameSender :
    (peer : SocketAddr) (r : ReliableUdp) (d : List ℕ × SocketAddr)
    → SameSender (recv peer r d).state r.state
recv-SameSender peer r d = elim (Option-cases (received peer d)) [
  | inl e ↦ rw (recv-none peer r d e) (record { next_seq = refl; unacked = refl })
  | inr (p, e) ↦ rw (recv-some peer r d p e) (on_packet-SameSender peer p r)
]
