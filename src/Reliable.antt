-- ===== src/Reliable.antt =====
-- common/src/lib.rs and the state of common/src/singleconnection.rs. `Instant` is a number of
-- milliseconds; a channel or a socket is the list of what was put into it, oldest first.
pub mod Wire
pub mod Receiver
pub mod Sender
pub mod Endpoint
mod Tests
use p2p_networking.Base.{ℕ, Bool, Option, none, some, List, [], ◌∷◌, ◌++◌}
use p2p_networking.Base.Map.{Map}
use p2p_networking.Base.Net.{SocketAddr}

pub data PacketType : Type 0 where
  ack : ℕ → PacketType
  payload : List ℕ → PacketType

pub record Header : Type 0 where
  pub seq : ℕ
  pub ack : ℕ

pub record Packet : Type 0 where
  pub header : Header
  pub payload : Option (List ℕ)

pub record SentPacket : Type 0 where
  pub packet : Packet
  pub time_sent : ℕ

pub record AckInfo : Type 0 where
  pub ack_num : ℕ
  pub peer_addr : SocketAddr

pub record SharedState : Type 0 where
  pub expected_sequence : ℕ
  pub receiver_acknowledged : ℕ
  pub recv_buffer : Map ℕ Packet
  pub next_seq : ℕ
  pub sender_acknowdgeded : ℕ
  pub unacked : Map ℕ SentPacket

-- `SharedState::new`
abbrev pub new : SharedState
new = record {
  expected_sequence = 0;
  receiver_acknowledged = 0;
  recv_buffer = [];
  next_seq = 0;
  sender_acknowdgeded = 0;
  unacked = [];
}

-- `ReliableOneWayUDP` and its handle, which share the state and the socket.
pub record ReliableUdp : Type 0 where
  pub state : SharedState
  pub output_tx : List (Packet × SocketAddr)
  pub ack_tx : List AckInfo
  pub socket : List (List ℕ × SocketAddr)

-- `ReliableOneWayUDP::new`: nothing is queued and nothing sent.
abbrev pub init : ReliableUdp
init = record { state = new; output_tx = []; ack_tx = []; socket = [] }

-- The packet that only acknowledges: sequence number 0 and no payload.
abbrev pub ack_packet : ℕ → Packet
ack_packet n = record { header = record { seq = 0; ack = n }; payload = none }

-- `socket.send_to`; a failed send has no effect on the state.
abbrev pub send_to : List ℕ → SocketAddr → ReliableUdp → ReliableUdp
send_to bytes addr r = record r { socket = r.socket ++ (bytes, addr) ∷ [] }
