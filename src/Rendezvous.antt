-- ===== src/Rendezvous.antt =====
-- rendezvous_stun_server: `RelayManager` of src/lib.rs and `udp_handler` of src/udp/parser.rs. One
-- task sends to the manager's channel, and waits for the answer to a join; the channel is first in,
-- first out. So here the manager handles each message where it is sent; Tasks has the channel. The
-- shutdown channel and the keep-alive task of a lobby have the same number. `to_string` of an
-- address is a parameter, and a new `Uuid` an argument; a `Uuid` is its 16 octets.
pub mod Buffer
pub mod KeepAlive
pub mod Requests
pub mod Lobbies
pub mod Tasks
mod Tests
use native.Mathlib.Decide.{ℕ_discrete}
use p2p_networking.Base.{
  ℕ, zero, suc, ◌+◌, List, [], ◌∷◌, ◌++◌, Option, none, some, take, drop, length, replicate, filled,
  get_elem?,
}
use p2p_networking.Base.Map
use p2p_networking.Base.Map.{Map, Key, nat_key}
use p2p_networking.Base.Net.{SocketAddr}

abbrev pub Code : Type 0
Code = List ℕ

unfoldable pub Code-discrete : Discrete Code
unfolding ℕ_discrete
Code-discrete = hlevel ℕ_discrete

instance abbrev pub code_key : Key Code
code_key = record { eq? = Code-discrete }

pub record Session : Type 0 where
  pub host_addr : SocketAddr
  pub shutdown_channel : Option ℕ
  pub client_addr : Option (List SocketAddr)

pub record RelayManager : Type 0 where
  pub session : Map Code Session

-- What the server holds: the manager, the buffer of `udp_handler`, what was sent, the keep-alive
-- tasks that run, and the shutdowns that wait for their five seconds.
pub record Server : Type 0 where
  pub manager : RelayManager
  pub buf : List ℕ
  pub socket : List (List ℕ × SocketAddr)
  pub next_channel : ℕ
  pub keep_alives : Map ℕ SocketAddr
  pub closing : Map ℕ (Unit {0})

abbrev pub buf_size : ℕ
buf_size = 65535

unfoldable pub init : Server
init = record {
  manager = record { session = [] };
  buf = filled buf_size 0;
  socket = [];
  next_channel = 0;
  keep_alives = [];
  closing = [];
}

abbrev pub send_to : List ℕ → SocketAddr → Server → Server
send_to bytes addr s = record s { socket = s.socket ++ (bytes, addr) ∷ [] }

-- The sender of a shutdown channel is dropped: its keep-alive task ends.
abbrev pub drop_channel : Option Session → Map ℕ SocketAddr → Map ℕ SocketAddr
drop_channel none tasks = tasks
drop_channel (some old) tasks = elim old.shutdown_channel [
  | none ↦ tasks
  | some tx ↦ Map.remove tx tasks
]

-- `CreateLobby`; a session that is replaced drops its channel.
unfoldable pub create_lobby : Code → SocketAddr → ℕ → Server → Server
create_lobby code addr tx s = record s {
  manager = record {
    session =
        Map.insert code
          (record { host_addr = addr; shutdown_channel = some tx; client_addr = none })
          s.manager.session;
  };
  keep_alives = drop_channel (Map.get code s.manager.session) s.keep_alives;
}

-- `JoinLobby` for a session that exists: the client is set, and the shutdown is taken.
unfoldable pub join_session : Code → SocketAddr → Session → Server → Server
join_session code addr session s = record s {
  manager = record {
    session =
        Map.insert code (record session { client_addr = some (addr ∷ []); shutdown_channel = none })
          s.manager.session;
  };
  closing = elim session.shutdown_channel [
    | none ↦ s.closing
    | some tx ↦ Map.insert tx tt s.closing
  ];
}

-- `JoinLobby`: the host's address, if there is such a lobby.
unfoldable pub join_lobby : Code → SocketAddr → Server → Option SocketAddr × Server
join_lobby code addr s = elim (Map.get code s.manager.session) [
  | none ↦ (none, s)
  | some session ↦ (some session.host_addr, join_session code addr session s)
]

-- The buffer after `recv_from`: the bytes that fit, and behind them what stood there before.
unfoldable pub overlay : List ℕ → List ℕ → List ℕ
overlay bytes buf = take (length buf) bytes ++ drop (length bytes) buf

-- `&buf[1..17]`; a slice of 16 bytes is always a `Uuid`.
abbrev pub lobby_id : List ℕ → Code
lobby_id buf = take 16 (drop 1 buf)

-- The branch for LOBBY_CREATE: the lobby, the code for the host, and the keep-alive task.
unfoldable pub on_create : Code → SocketAddr → Server → Server
on_create code addr s =
    let tx = s.next_channel in
    let s' : Server =
      send_to code addr (create_lobby code addr tx (record s { next_channel = suc tx })) in
    record s' { keep_alives = Map.insert tx addr s'.keep_alives }

module _ (to_string : SocketAddr → List ℕ) where
  -- What a client and a host get when they are brought together.
  abbrev pub introductions : SocketAddr → SocketAddr → List (List ℕ × SocketAddr)
  introductions host client =
      replicate 5 (0 ∷ [], client) ++ (to_string host, client) ∷ (to_string client, host) ∷ []

  abbrev pub introduce : SocketAddr → Option SocketAddr × Server → Server
  introduce client (none, s) = s
  introduce client (some host, s) = record s { socket = s.socket ++ introductions host client }

  -- The branch for LOBBY_JOIN.
  unfoldable pub on_join : SocketAddr → Server → Server
  on_join addr s = introduce addr (join_lobby (lobby_id s.buf) addr s)

  -- The branches on `buf[0]`, with the `Uuid` that a new lobby would get.
  unfoldable pub dispatch : Code → SocketAddr → Option ℕ → Server → Server
  dispatch code addr none s = s
  dispatch code addr (some zero) s = on_create code addr s
  dispatch code addr (some (suc zero)) s = on_join addr s
  dispatch code addr (some (suc (suc n))) s = s

  -- One round of `udp_handler`.
  unfoldable pub udp_handler : Code → List ℕ × SocketAddr → Server → Server
  udp_handler code (bytes, addr) s =
      let s' : Server = record s { buf = overlay bytes s.buf } in
      dispatch code addr (get_elem? s'.buf 0) s'

  -- A list of datagrams, each with a new `Uuid`.
  unfoldable pub run : List (Code × List ℕ × SocketAddr) → Server → Server
  run [] s = s
  run ((code, bytes, addr) ∷ ds) s = run ds (udp_handler code (bytes, addr) s)

-- A tick of a keep-alive task.
unfoldable pub tick : ℕ → Server → Server
tick tx s = elim (Map.get tx s.keep_alives) [ none ↦ s | some addr ↦ send_to (0 ∷ []) addr s ]

-- The five seconds of a shutdown are over: its task ends.
unfoldable pub shut_down : ℕ → Server → Server
shut_down tx s = elim (Map.get tx s.closing) [
  | none ↦ s
  | some _ ↦ record s {
    closing = Map.remove tx s.closing;
    keep_alives = Map.remove tx s.keep_alives;
  }
]
