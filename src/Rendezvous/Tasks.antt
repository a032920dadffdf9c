-- ===== src/Rendezvous/Tasks.antt =====
-- rendezvous_stun_server: the tasks that `main` of src/main.rs starts. One handles the messages of
-- a channel (`RelayManager::handler`), `udp_handler` sends to it, and one more task starts for each
-- introduction. Their steps, the ticks of the keep-alive tasks and the ends of shutdowns come in
-- any order.
pub mod Ahead
pub mod Refined
pub mod Manager
pub mod Answered
pub mod Work
pub mod Progress
mod Tests
use p2p_networking.Base.{
  ℕ, zero, suc, ◌≡◌, List, [], ◌∷◌, ◌++◌, Option, none, some, ltb, length, if◌then◌else◌, get_elem?,
  set,
}
use p2p_networking.Base.Map
use p2p_networking.Base.Map.{nat_key}
use p2p_networking.Base.Net.{SocketAddr}
use p2p_networking.Rendezvous
use p2p_networking.Rendezvous.{
  Code, Server, send_to, create_lobby, join_lobby, overlay, lobby_id, introductions, tick,
  shut_down,
}

pub data MessageType : Type 0 where
  create_msg : Code → SocketAddr → ℕ → MessageType
  join_msg : Code → SocketAddr → MessageType

-- Where `udp_handler` stands. A message waits for room in the channel, and a reply to a host comes
-- after. `awaiting` has the answer to a join: none before the manager has handled it, then the
-- host, or none if the sender of the answer was dropped.
pub data Udp : Type 0 where
  receiving : Udp
  creating : Code → SocketAddr → ℕ → Udp
  created : Code → SocketAddr → ℕ → Udp
  joining : Code → SocketAddr → Udp
  awaiting : SocketAddr → Option (Option SocketAddr) → Udp

-- The datagrams that are still to come, each with a new `Uuid`; the channel; the tasks of the
-- introductions, each with what it has still to send; and what the server holds besides.
pub record App : Type 0 where
  pub inbox : List (Code × List ℕ × SocketAddr)
  pub channel : List MessageType
  pub udp : Udp
  pub tasks : List (List (List ℕ × SocketAddr))
  pub server : Server

abbrev pub capacity : ℕ
capacity = 50

abbrev pub boot : List (Code × List ℕ × SocketAddr) → App
boot ds = record {
  inbox = ds;
  channel = [];
  udp = Udp.receiving;
  tasks = [];
  server = Rendezvous.init;
}

-- `channel.send`, which waits while the channel is full.
unfoldable pub send_msg : MessageType → Udp → App → App
send_msg m next a =
    if ltb (length a.channel) capacity
    then record a { channel = a.channel ++ m ∷ []; udp = next }
    else a

-- The branches on `buf[0]`.
unfoldable pub begin_request : Code → SocketAddr → Option ℕ → App → App
begin_request code addr none a = a
begin_request code addr (some zero) a = record a {
  udp = Udp.creating code addr a.server.next_channel;
  server = record (a.server) { next_channel = suc a.server.next_channel };
}
begin_request code addr (some (suc zero)) a = record a {
  udp = Udp.joining (lobby_id a.server.buf) addr;
}
begin_request code addr (some (suc (suc n))) a = a

-- `recv_from`
unfoldable pub recv_next : List (Code × List ℕ × SocketAddr) → App → App
recv_next [] a = a
recv_next ((code, bytes, addr) ∷ ds) a =
    let buf = overlay bytes a.server.buf in
    begin_request code addr (get_elem? buf 0)
      (record a { inbox = ds; server = record (a.server) { buf = buf } })

-- `channel.send` of the answer; a receiver that is gone gets none.
unfoldable pub respond : Option SocketAddr → Udp → Udp
respond answer (Udp.awaiting addr none) = Udp.awaiting addr (some answer)
respond answer u = u

-- The `match` of `RelayManager::handler`.
unfoldable pub handle : MessageType → App → App
handle (create_msg code addr tx) a = record a { server = create_lobby code addr tx a.server }
handle (join_msg code addr) a = record a {
  server = (join_lobby code addr a.server).1;
  udp = respond (join_lobby code addr a.server).0 a.udp;
}

unfoldable pub manager_step : List MessageType → App → App
manager_step [] a = a
manager_step (m ∷ ms) a = handle m (record a { channel = ms })

-- The task sends its next datagram.
unfoldable pub send_next : ℕ → Option (List (List ℕ × SocketAddr)) → App → App
send_next k (some ((bytes, addr) ∷ rest)) a = record a {
  tasks = set a.tasks k rest;
  server = send_to bytes addr a.server;
}
send_next k _ a = a

pub data Step : Type 0 where
  udp manager : Step
  introduction ticks shuts_down : ℕ → Step

module _ (to_string : SocketAddr → List ℕ) where
  -- Up to its next `await`, `udp_handler` does this.
  unfoldable pub udp_step : Udp → App → App
  udp_step Udp.receiving a = recv_next a.inbox a
  udp_step (Udp.creating code addr tx) a =
      send_msg (create_msg code addr tx) (Udp.created code addr tx) a
  udp_step (Udp.created code addr tx) a = record a {
    udp = Udp.receiving;
    server = record (send_to code addr a.server) {
      keep_alives = Map.insert tx addr a.server.keep_alives;
    };
  }
  udp_step (Udp.joining code addr) a = send_msg (join_msg code addr) (Udp.awaiting addr none) a
  udp_step (Udp.awaiting addr none) a = a
  udp_step (Udp.awaiting addr (some none)) a = record a { udp = Udp.receiving }
  udp_step (Udp.awaiting addr (some (some host))) a = record a {
    udp = Udp.receiving;
    tasks = a.tasks ++ introductions to_string host addr ∷ [];
  }

  unfoldable pub step : App → Step → App
  step a Step.udp = udp_step a.udp a
  step a Step.manager = manager_step a.channel a
  step a (Step.introduction k) = send_next k (get_elem? a.tasks k) a
  step a (Step.ticks tx) = record a { server = tick tx a.server }
  step a (Step.shuts_down tx) = record a { server = shut_down tx a.server }

  unfoldable pub steps : List Step → App → App
  steps [] a = a
  steps (w ∷ ws) a = steps ws (step a w)

-- Nothing is left to do.
pub record Quiet (a : App) : Type 0 where
  pub no_inbox : a.inbox ≡ []
  pub no_message : a.channel ≡ []
  pub at_rest : a.udp ≡ Udp.receiving
  pub all_sent : (k : ℕ) (ds : List (List ℕ × SocketAddr)) → get_elem? a.tasks k ≡ some ds → ds ≡ []
