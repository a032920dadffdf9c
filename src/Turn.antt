-- ===== src/Turn.antt =====
-- turn_server/src/lib.rs: the types that the parts of the relay share. An `Instant` is a number,
-- and so is a `Uuid`.
pub mod Token
pub mod Slot
pub mod Pool
pub mod Shard
pub mod Router
pub mod Ring
pub mod Control
pub mod System
pub mod Example
mod Tests
use p2p_networking.Base.{ℕ, Option, none, some, ite}
use p2p_networking.Base.Net.{SocketAddr, SocketAddr-discrete}

abbrev pub buffer_size : ℕ
buffer_size = 1500

abbrev pub pool_size : ℕ
pool_size = 1024

pub record Packet : Type 0 where
  pub buf_idx : ℕ
  pub len : ℕ
  pub src : SocketAddr

pub record Session : Type 0 where
  pub host_addr : SocketAddr
  pub peer_addr : SocketAddr

pub data MessageType : Type 0 where
  add_session : Session → MessageType
  transmit : Packet → MessageType

-- destination, length, buffer index
abbrev pub SqeType : Type 0
SqeType = SocketAddr × ℕ × ℕ

-- `Session::route_to`
unfoldable pub route_to : Session → SocketAddr → Option SocketAddr
route_to s src =
    ite (SocketAddr-discrete src s.host_addr) (some s.peer_addr)
      (ite (SocketAddr-discrete src s.peer_addr) (some s.host_addr) none)
