-- ===== src/Reliable/Receiver.antt =====
-- `ReliableOneWayUDP::recv`: one round of its loop, for one datagram.
pub mod Invariant
pub mod Tracks
pub mod Under
pub mod Order
pub mod Drain
use p2p_networking.Base.{
  ℕ, zero, suc, List, [], ◌∷◌, ◌++◌, Option, none, some, length, take, compare, Ordering,
}
use p2p_networking.Base.Map
use p2p_networking.Base.Map.{nat_key}
use p2p_networking.Base.Net.{SocketAddr, SocketAddr-discrete}
use p2p_networking.Base.Word.{add32}
use p2p_networking.Reliable.{Packet, ReliableUdp, ack_packet, send_to}
use p2p_networking.Reliable.Wire.{serialize, deserialize}

-- `self.ack_tx.send(AckInfo { … })`
abbrev pub notify : ℕ → SocketAddr → ReliableUdp → ReliableUdp
notify n addr r = record r { ack_tx = r.ack_tx ++ record { ack_num = n; peer_addr = addr } ∷ [] }

-- One round of the loop over buffered packets: `p` was removed under the key `next`.
unfoldable pub release : SocketAddr → ℕ → Packet → ReliableUdp → ReliableUdp
release addr next p r = record r {
  state = record (r.state) {
    recv_buffer = Map.remove next r.state.recv_buffer;
    receiver_acknowledged = add32 r.state.receiver_acknowledged 1;
    expected_sequence = add32 r.state.expected_sequence 1;
  };
  output_tx = r.output_tx ++ (p, addr) ∷ [];
}

-- `while let Some((_, p)) = recv_buffer.remove(&next_expected)`, on fuel. `next_expected` is counted
-- by a plain `+` in the source, here and in `accept`: it wraps, as in a build without overflow checks;
-- in one with them the step past the last `u32` panics.
unfoldable pub drain : ℕ → SocketAddr → ℕ → ReliableUdp → ReliableUdp
drain zero addr next r = r
drain (suc fuel) addr next r = elim (Map.get next r.state.recv_buffer) [
  | none ↦ r
  | some p ↦ drain fuel addr (add32 next 1) (release addr next p r)
]

-- The expected packet: handed on, counted, acknowledged; then what the buffer holds next to it.
unfoldable pub accept : SocketAddr → Packet → ReliableUdp → ReliableUdp
accept addr p r = drain (length r.state.recv_buffer) addr (add32 p.header.seq 1) (
    notify p.header.seq addr (record r {
      state = record (r.state) {
        expected_sequence = add32 r.state.expected_sequence 1;
        receiver_acknowledged = p.header.seq;
      };
      output_tx = r.output_tx ++ (p, addr) ∷ [];
    }))

-- A packet from the future: buffered, and the last in-order number acknowledged at once.
unfoldable pub hold : SocketAddr → Packet → ReliableUdp → ReliableUdp
hold addr p r = send_to (serialize (ack_packet r.state.receiver_acknowledged)) addr (record r {
  state = record (r.state) { recv_buffer = Map.insert p.header.seq p r.state.recv_buffer };
})

-- A packet from the past: one with no payload is answered with its own `ack` number.
unfoldable pub past : SocketAddr → Packet → ReliableUdp → ReliableUdp
past addr p r = elim p.payload [
  | none ↦ notify p.header.ack addr r
  | some [] ↦ notify p.header.ack addr r
  | some (b ∷ bs) ↦ r
]

-- The three-way comparison of the sequence number.
unfoldable pub on_packet : SocketAddr → Packet → ReliableUdp → ReliableUdp
on_packet addr p r = elim (compare p.header.seq r.state.expected_sequence) [
  | Ordering.eq ↦ accept addr p r
  | Ordering.gt ↦ hold addr p r
  | Ordering.lt ↦ past addr p r
]

on_bytes : SocketAddr → Option Packet → ReliableUdp → ReliableUdp
on_bytes addr none r = r
on_bytes addr (some p) r = on_packet addr p r

-- One round of the loop: `recv_from` keeps 6600 bytes, other senders are ignored.
unfoldable pub recv : SocketAddr → ReliableUdp → List ℕ × SocketAddr → ReliableUdp
unfolding on_bytes
recv peer_addr r (bytes, addr) = elim (SocketAddr-discrete addr peer_addr) [
  | yes _ ↦ on_bytes addr (deserialize (take 6600 bytes)) r
  | no _ ↦ r
]

-- The loop, over the datagrams in the order in which they arrive.
unfoldable pub recv_all : SocketAddr → ReliableUdp → List (List ℕ × SocketAddr) → ReliableUdp
recv_all peer_addr r [] = r
recv_all peer_addr r (d ∷ ds) = recv_all peer_addr (recv peer_addr r d) ds
