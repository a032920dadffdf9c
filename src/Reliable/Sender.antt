-- ===== src/Reliable/Sender.antt =====
-- `ReliableOneWayUDPHandle`: sending, retransmission and acknowledgements. Time is an argument.
pub mod Retransmit
pub mod Storm
use p2p_networking.Base.{ℕ, ◌+◌, ◌-◌, List, [], ◌∷◌, ◌++◌, map, Bool, some, ltb, if◌then◌else◌}
use p2p_networking.Base.Map
use p2p_networking.Base.Map.{Map, nat_key}
use p2p_networking.Base.Net.{SocketAddr}
use p2p_networking.Base.Word.{add32}
use p2p_networking.Reliable.{
  Packet, PacketType, SentPacket, AckInfo, SharedState, ReliableUdp, ack_packet, send_to,
}
use p2p_networking.Reliable.Wire.{serialize}

-- The packet that `send` builds for a payload: the next number, and what was received so far.
abbrev pub data_packet : List ℕ → SharedState → Packet
data_packet payload s = record {
  header = record { seq = add32 s.next_seq 1; ack = s.receiver_acknowledged };
  payload = some payload;
}

-- `send`, for one message of its channel at the time `now`.
unfoldable pub send : SocketAddr → ℕ → ReliableUdp → PacketType → ReliableUdp
send addr now r (PacketType.ack n) = r
send addr now r (PacketType.payload bytes) =
    let p = data_packet bytes r.state in
    send_to (serialize p) addr (record r {
      state = record (r.state) {
        next_seq = add32 r.state.next_seq 1;
        unacked = Map.insert p.header.seq (record { packet = p; time_sent = now }) r.state.unacked;
      };
    })

-- `now.duration_since(entry.time_sent) > timeout`, with the timeout of 2000 ms
abbrev pub is_due : ℕ → SentPacket → Bool
is_due now e = ltb 2000 (now - e.time_sent)

-- The loop over `unacked`: the packets to retransmit, and the entries with their new times.
unfoldable pub collect_due : ℕ → Map ℕ SentPacket → List Packet × Map ℕ SentPacket
collect_due now [] = ([], [])
collect_due now ((k, e) ∷ m) =
    let (due, m') = collect_due now m in
    if is_due now e
    then (e.packet ∷ due, (k, record e { time_sent = now }) ∷ m')
    else (due, (k, e) ∷ m')

-- `for packet in to_retransmit`
unfoldable pub retransmit : SocketAddr → List Packet → ReliableUdp → ReliableUdp
retransmit addr [] r = r
retransmit addr (p ∷ ps) r = retransmit addr ps (send_to (serialize p) addr r)

unfoldable pub check_retransmission : SocketAddr → ℕ → ReliableUdp → ReliableUdp
unfolding collect_due retransmit
check_retransmission addr now r =
    let (due, unacked') = collect_due now r.state.unacked in
    retransmit addr due (record r { state = record (r.state) { unacked = unacked' } })

-- One round of `periodic_acks`.
abbrev pub send_ack : ReliableUdp → AckInfo → ReliableUdp
send_ack r a = send_to (serialize (ack_packet a.ack_num)) a.peer_addr r

unfoldable pub send_acks : List AckInfo → ReliableUdp → ReliableUdp
send_acks [] r = r
send_acks (a ∷ as') r = send_acks as' (send_ack r a)

-- `periodic_acks`: everything that is queued is sent, and the queue is empty.
unfoldable pub periodic_acks : ReliableUdp → ReliableUdp
unfolding send_acks
periodic_acks r = send_acks r.ack_tx (record r { ack_tx = [] })
