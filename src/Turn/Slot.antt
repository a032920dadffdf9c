-- ===== src/Turn/Slot.antt =====
-- `MsgHdrSlot`, `write_socket_addr` and `extract_src_addr` of turn_server/src/lib.rs. What `libc`
-- and the target fix, the sizes of its structs and the byte order, is a parameter.
use p2p_networking.Base.{
  ℕ, ◌<◌, ◌≡◌, ap, ap₂, List, Option, none, some, Bool, if◌then◌else◌, Bool-cases, inl, inr,
}
use p2p_networking.Base.Net.{SocketAddr, unspecified}
use p2p_networking.Base.Word.{
  u16_mod, u32_mod, swap_bytes16, swap_bytes32, swap_bytes16-swap_bytes16,
  swap_bytes32-swap_bytes32,
}
use p2p_networking.Turn.{buffer_size}

pub record Platform : Type 0 where
  pub big_endian : Bool
  pub size_sockaddr_in : ℕ
  pub size_sockaddr_in6 : ℕ
  pub size_sockaddr_storage : ℕ
  -- `io_uring::cqueue::more`
  pub more : ℕ → Bool

-- `u16::to_be` and `u16::from_be`, `u32::to_be` and `u32::from_be`
unfoldable pub to_be16 : Platform → ℕ → ℕ
to_be16 t x = if t.big_endian then x else swap_bytes16 x

unfoldable pub from_be16 : Platform → ℕ → ℕ
from_be16 t x = if t.big_endian then x else swap_bytes16 x

unfoldable pub to_be32 : Platform → ℕ → ℕ
to_be32 t x = if t.big_endian then x else swap_bytes32 x

unfoldable pub from_be32 : Platform → ℕ → ℕ
from_be32 t x = if t.big_endian then x else swap_bytes32 x

pub record SockaddrIn : Type 0 where
  pub sin_port : ℕ
  pub s_addr : ℕ

pub record SockaddrIn6 : Type 0 where
  pub sin6_port : ℕ
  pub sin6_flowinfo : ℕ
  pub s6_addr : List ℕ
  pub sin6_scope_id : ℕ

-- `sockaddr_storage`, by its `ss_family`: AF_INET, AF_INET6, or another, as when it is zeroed.
pub data SockaddrStorage : Type 0 where
  zeroed : SockaddrStorage
  inet : SockaddrIn → SockaddrStorage
  inet6 : SockaddrIn6 → SockaddrStorage

-- `write_socket_addr`: the new contents of the storage, and the length that it returns.
unfoldable pub write_socket_addr : Platform → SocketAddr → SockaddrStorage × ℕ
write_socket_addr t (SocketAddr.v4 ip port) = (
  SockaddrStorage.inet (record { sin_port = to_be16 t port; s_addr = to_be32 t ip }),
  t.size_sockaddr_in,
)
write_socket_addr t (SocketAddr.v6 ip port flowinfo scope_id) = (
  SockaddrStorage.inet6 (record {
    sin6_port = to_be16 t port;
    sin6_flowinfo = flowinfo;
    s6_addr = ip;
    sin6_scope_id = scope_id;
  }),
  t.size_sockaddr_in6,
)

-- A field of a message header that points into its own slot.
pub data Pointer : Type 0 where
  null own_iov own_addr : Pointer

pub record MsgHdr : Type 0 where
  pub msg_name : Pointer
  pub msg_namelen : ℕ
  pub msg_iov : Pointer
  pub msg_iovlen : ℕ

-- `iov_base` is an offset into the pool's memory.
pub record IoVec : Type 0 where
  pub iov_base : ℕ
  pub iov_len : ℕ

pub record MsgHdrSlot : Type 0 where
  pub hdr : MsgHdr
  pub iov : IoVec
  pub addr : SockaddrStorage

-- `MsgHdrSlot::new`
unfoldable pub new : Platform → ℕ → Option SocketAddr → MsgHdrSlot
new t buf addr =
    let (storage, namelen) : SockaddrStorage × ℕ = elim addr [
      | none ↦ (SockaddrStorage.zeroed, t.size_sockaddr_storage)
      | some a ↦ write_socket_addr t a
    ] in
    record {
      hdr = record {
        msg_name = Pointer.own_addr;
        msg_namelen = namelen;
        msg_iov = Pointer.own_iov;
        msg_iovlen = 1;
      };
      iov = record { iov_base = buf; iov_len = buffer_size };
      addr = storage;
    }

-- `extract_src_addr`, of the slot's storage.
unfoldable pub extract_storage : Platform → SockaddrStorage → SocketAddr
extract_storage t SockaddrStorage.zeroed = unspecified
extract_storage t (SockaddrStorage.inet sin) =
    SocketAddr.v4 (from_be32 t sin.s_addr) (from_be16 t sin.sin_port)
extract_storage t (SockaddrStorage.inet6 sin6) =
    SocketAddr.v6 sin6.s6_addr (from_be16 t sin6.sin6_port) 0 0

unfoldable pub extract_src_addr : Platform → MsgHdrSlot → SocketAddr
unfolding extract_storage
extract_src_addr t slot = extract_storage t slot.addr

-- Ports and IPv4 addresses fit their machine words.
abbrev pub IsAddr : SocketAddr → Type 0
IsAddr (SocketAddr.v4 ip port) = (ip < u32_mod) × (port < u16_mod)
IsAddr (SocketAddr.v6 ip port flowinfo scope_id) = port < u16_mod

-- What a relayed address keeps: an IPv6 address loses its flow label and its scope.
abbrev pub relayed : SocketAddr → SocketAddr
relayed (SocketAddr.v4 ip port) = SocketAddr.v4 ip port
relayed (SocketAddr.v6 ip port flowinfo scope_id) = SocketAddr.v6 ip port 0 0

from_be16-to_be16 : (t : Platform) (x : ℕ) → x < u16_mod → from_be16 t (to_be16 t x) ≡ x
unfolding from_be16 to_be16
from_be16-to_be16 t x h = elim (Bool-cases t.big_endian) [
  | inl e ↦ rw e
  | inr e ↦ rw e (swap_bytes16-swap_bytes16 x h)
]

from_be32-to_be32 : (t : Platform) (x : ℕ) → x < u32_mod → from_be32 t (to_be32 t x) ≡ x
unfolding from_be32 to_be32
from_be32-to_be32 t x h = elim (Bool-cases t.big_endian) [
  | inl e ↦ rw e
  | inr e ↦ rw e (swap_bytes32-swap_bytes32 x h)
]

-- On every platform the address that a slot is built for is read back from it; of an IPv6 address
-- all but the flow label and the scope, which come back as 0.
pub extract_src_addr-new :
    (t : Platform) (buf : ℕ) (a : SocketAddr)
    → IsAddr a
    → extract_src_addr t (new t buf (some a)) ≡ relayed a
unfolding extract_src_addr new write_socket_addr
extract_src_addr-new t buf (SocketAddr.v4 ip port) h =
    ap₂ SocketAddr.v4 (from_be32-to_be32 t ip h.0) (from_be16-to_be16 t port h.1)
extract_src_addr-new t buf (SocketAddr.v6 ip port flowinfo scope_id) h =
    ap (λ x. SocketAddr.v6 ip x 0 0) (from_be16-to_be16 t port h)
