-- ===== src/Turn/Example.antt =====
-- A small machine for tests of the relay: three addresses, two shards, short queues.
use p2p_networking.Base.{
  ℕ, ◌*◌, ◌%◌, ◌≤◌, List, [], ◌∷◌, true, false, arith, length, filled, length-filled, ℕ_discrete,
}
use p2p_networking.Base.Fifo.{Bounded}
use p2p_networking.Base.Map.{nat_key}
use p2p_networking.Base.Net.{SocketAddr, socket_addr_key}
use p2p_networking.Turn.{Session, MessageType, buffer_size}
use p2p_networking.Turn.Slot.{Platform}
use p2p_networking.Turn.Token.{OpType, encode_token}
use p2p_networking.Turn.Pool.{BufferPool}
use p2p_networking.Turn.Shard.History.{History}
use p2p_networking.Turn.Shard.Relayed.{AreNew}
use p2p_networking.Turn.Ring.{Cqe, CqeResult}

-- A little-endian machine where completions with odd flags announce another.
abbrev pub machine : Platform
machine = record {
  big_endian = false;
  size_sockaddr_in = 16;
  size_sockaddr_in6 = 28;
  size_sockaddr_storage = 128;
  more = λ flags. elim (ℕ_discrete (flags % 2) 1) [ yes _ ↦ true | no _ ↦ false ];
}

abbrev pub host : SocketAddr
host = SocketAddr.v4 167772161 4000

abbrev pub peer : SocketAddr
peer = SocketAddr.v4 167772162 5000

abbrev pub third : SocketAddr
third = SocketAddr.v6 [] 6000 7 1

abbrev pub first_session : Session
first_session = record { host_addr = host; peer_addr = peer }

abbrev pub second_session : Session
second_session = record { host_addr = third; peer_addr = host }

abbrev pub queue_of : {A : Type 0} → List A → Bounded A
queue_of l = record { held = l; capacity = 2048 }

abbrev pub history : History
history = (8, first_session) ∷ []

abbrev pub uuids : List ℕ
uuids = 11 ∷ 12 ∷ 13 ∷ 14 ∷ []

pub uuids-AreNew : AreNew uuids history
uuids-AreNew = (
  ((λ e. omega arith), tt),
  ((λ e. omega arith), ((λ e. omega arith), ((λ e. omega arith), tt))),
  (
    ((λ e. omega arith), tt),
    ((λ e. omega arith), ((λ e. omega arith), tt)),
    (((λ e. omega arith), tt), ((λ e. omega arith), tt), (((λ e. omega arith), tt), tt, tt)),
  ),
)

abbrev pub control : List MessageType
control = MessageType.add_session first_session ∷ MessageType.add_session second_session ∷ []

abbrev pub channels : List (Bounded MessageType)
channels = queue_of [] ∷ queue_of [] ∷ []

-- A pool with room for `n` buffers.
abbrev pub pool_of : ℕ → BufferPool
pool_of n = record {
  memory = filled (n * buffer_size) 0;
  in_flight = 0;
  registered = false;
  free_list = [];
  timestamp = [];
  live_slots = [];
}

pub pool_of-memory : (n : ℕ) → n * buffer_size ≤ length (pool_of n).memory
pool_of-memory n = omega (arith, length-filled {A = ℕ} (n * buffer_size) 0)

abbrev pub completion : OpType → ℕ → ℕ → Cqe
completion op idx flags = record {
  user_data = encode_token op idx;
  result = CqeResult.pos 100;
  flags = flags;
}
