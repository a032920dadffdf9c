-- ===== src/Peer/Node/Tests.antt =====
-- A host and a client of one network that meet and chat.
use p2p_networking.Base.{
  ℕ, suc, ◌≡◌, ◌≢◌, refl, List, [], ◌∷◌, ◌++◌, Option, none, some, Bool, true, inl, inr, arith,
  filled, dec_lt, dec_le, ℕ_discrete,
}
use p2p_networking.Base.Map
use p2p_networking.Base.Net.{SocketAddr, SocketAddr-discrete}
use p2p_networking.Base.Word.{to_be_bytes, from_be_bytes}
use p2p_networking.Reliable.{Packet, ack_packet}
use p2p_networking.Reliable.Wire.{serialize, deserialize, rest_payload}
use p2p_networking.Reliable.Receiver.{recv, on_packet, accept, drain, release, hold, past}
use p2p_networking.Reliable.Receiver.Order.{received}
use p2p_networking.Reliable.Sender.{
  send, check_retransmission, collect_due, retransmit, send_acks, periodic_acks,
}
use p2p_networking.Reliable.Endpoint
use p2p_networking.Rendezvous
use p2p_networking.Rendezvous.{
  Code, udp_handler, dispatch, on_create, on_join, join_lobby, join_session, create_lobby, overlay,
  Code-discrete,
}
use p2p_networking.Peer.{listen_loop, listen_to_relay, request_loop, request_host_addr}
use p2p_networking.Peer.Meeting.{IsText, delivered}
use p2p_networking.Peer.Chat
use p2p_networking.Peer.Chat.{
  same, same_ip, hole_punch, connected, greets, on_punch, hear_punching, hear_message, hear_chat,
  on_line, on_event,
}
use p2p_networking.Peer.Chat.Lines.{texts, is_text}
use p2p_networking.Peer.Node.{Event, Args, Node, start, step, run, find_peer, main}
use p2p_networking.Peer.Node.Traced.{arrived, typed}
use p2p_networking.Peer.Node.Talk.{Network, sent, peers_talk}
use p2p_networking.Peer.Node.Program.{programs_chat, host, client, host_args, client_args}

program : Unit {0}
unfolding serialize deserialize rest_payload to_be_bytes from_be_bytes received recv on_packet
    accept drain release hold past send check_retransmission collect_due retransmit send_acks
    periodic_acks Endpoint.run Endpoint.step SocketAddr-discrete dec_lt dec_le ℕ_discrete Map.get
    Map.insert Map.remove same same_ip greets on_punch hear_punching hear_message hear_chat on_line
    on_event Chat.run Chat.step texts is_text step run find_peer main typed listen_loop
    listen_to_relay request_loop request_host_addr delivered Rendezvous.run udp_handler dispatch
    on_create on_join join_lobby join_session create_lobby overlay Rendezvous.init Code-discrete
    filled
program = tt

-- Text stands for the port alone; all addresses have one IP.
abbrev shown : SocketAddr → List ℕ
shown (SocketAddr.v4 ip port) = port ∷ []
shown (SocketAddr.v6 ip port flowinfo scope_id) = port ∷ []

abbrev port_of : List ℕ → Option SocketAddr
port_of (suc port ∷ []) = some (SocketAddr.v4 7 (suc port))
port_of _ = none

abbrev any : List ℕ → Bool
any text = true

abbrev at : ℕ → SocketAddr
at port = SocketAddr.v4 7 port

at-IsText : (n : ℕ) → IsText shown any port_of (at (suc n))
at-IsText n = record {
  is_utf8 = refl;
  parsed = refl;
  short = omega arith;
  first = n;
  rest = [];
  starts = refl;
}

abbrev lobby : Code
lobby = 1 ∷ 2 ∷ 3 ∷ 4 ∷ 5 ∷ 6 ∷ 7 ∷ 8 ∷ 9 ∷ 10 ∷ 11 ∷ 12 ∷ 13 ∷ 14 ∷ 15 ∷ 16 ∷ []

abbrev line : List ℕ
line = 104 ∷ 105 ∷ []

abbrev part : ℕ → ℕ → List ℕ → Packet
part seq ack payload = record { header = record { seq = seq; ack = ack }; payload = some payload }

abbrev punched : ℕ → List ℕ × SocketAddr
punched port = (serialize (part 1 0 hole_punch), at port)

abbrev silent : ℕ → List ℕ × SocketAddr
silent port = (serialize (ack_packet 0), at port)

-- The host's user types a line in the chat.
abbrev at_host : List Event
at_host =
    Event.punch
    ∷ Event.send 0
    ∷ Event.receive (punched 5)
    ∷ Event.receive (silent 5)
    ∷ Event.hear
    ∷ Event.hear
    ∷ Event.type_line line
    ∷ Event.send 1
    ∷ Event.send 2
    ∷ []

-- The parts come to the client in the wrong order.
abbrev at_client : List Event
at_client =
    Event.receive (punched 4)
    ∷ Event.punch
    ∷ Event.send 0
    ∷ Event.receive (silent 4)
    ∷ Event.hear
    ∷ Event.hear
    ∷ Event.receive (serialize (part 3 1 line), at 4)
    ∷ Event.receive (serialize (part 2 1 connected), at 4)
    ∷ Event.hear
    ∷ Event.hear
    ∷ []

-- What the server sends to the two, with a keep-alive for the host in between.
abbrev to_host : List (List ℕ × SocketAddr)
to_host = (lobby, at 9903) ∷ (0 ∷ [], at 9903) ∷ (5 ∷ [], at 9903) ∷ []

abbrev to_client : List (List ℕ × SocketAddr)
to_client =
    (0 ∷ [], at 9903)
    ∷ (0 ∷ [], at 9903)
    ∷ (0 ∷ [], at 9903)
    ∷ (0 ∷ [], at 9903)
    ∷ (0 ∷ [], at 9903)
    ∷ (4 ∷ [], at 9903)
    ∷ []

-- The two programs after their events.
abbrev the_host : Node
the_host = host shown any port_of (at 9903) (at 4) (at 5) lobby to_host to_client at_host at_client

abbrev the_client : Node
the_client =
    client shown any port_of (at 9903) (at 4) (at 5) lobby to_host to_client at_host at_client

abbrev host_arguments : Args
host_arguments =
    host_args shown any port_of (at 9903) (at 4) (at 5) lobby to_host to_client at_host at_client

abbrev client_arguments : Args
client_arguments =
    client_args shown any port_of (at 9903) (at 4) (at 5) lobby to_host to_client at_host at_client

client-prints : the_client.chat.printed ≡ line ∷ []
unfolding program
client-prints = refl

distinct : (n k : ℕ) → n ≢ k → at n ≢ at k
distinct n k ne e = ne cc

host-Network :
    Network
      (at 4)
      (at 5)
      (sent any port_of (at 4) (at 5) host_arguments (true, to_host) at_host at_client)
      (arrived at_client)
unfolding program
host-Network = (
  λ _. inr (inr (inl (refl, refl))),
  (
    λ _. inr (inr (inr (inl (refl, refl)))),
    (
      λ _. inr (inr (inr (inr (inr (inl (refl, refl)))))),
      (λ _. inr (inr (inr (inr (inl (refl, refl))))), tt),
    ),
  ),
)

client-Network :
    Network
      (at 5)
      (at 4)
      (sent any port_of (at 5) (at 4) client_arguments (true, to_client) at_client at_host)
      (arrived at_host)
unfolding program
client-Network = (
  λ _. inr (inr (inr (inr (inr (inr (inr (inl (refl, refl)))))))),
  (λ _. inr (inr (inr (inr (inr (inr (inl (refl, refl))))))), tt),
)

peers_talk_example :
    (rest : List (List ℕ)) × (the_client.chat.printed ++ rest
      ≡ texts any (typed any (at 5) start at_host))
unfolding program
peers_talk_example =
    peers_talk any port_of (at 4) (at 5) host_arguments (true, to_host) at_host at_client
      (distinct 9903 5 (λ e. omega (arith, e))) (omega arith, (omega arith, (omega arith, tt)))
      (omega arith) host-Network

programs_chat_example :
    (main any port_of host_arguments (true, to_host) at_host ≡ some the_host)
    × (main any port_of client_arguments (true, to_client) at_client ≡ some the_client)
    × ((rest : List (List ℕ)) × (the_client.chat.printed ++ rest
          ≡ texts any (typed any (at 5) start at_host)))
    × ((rest : List (List ℕ)) × (the_host.chat.printed ++ rest
          ≡ texts any (typed any (at 4) start at_client)))
unfolding program
programs_chat_example =
    programs_chat shown any port_of (at 9903) (at 4) (at 5) lobby to_host to_client at_host
      at_client (at-IsText 3) (at-IsText 4) refl (distinct 4 5 (λ e. omega (arith, e)))
      (distinct 9903 4 (λ e. omega (arith, e))) (distinct 9903 5 (λ e. omega (arith, e))) refl
      (refl, (inr (refl, inl (refl, tt))))
      (inl (refl, (inl (refl, (inl (refl, (inl (refl, (inl (refl, (inl (refl, tt))))))))))))
      (record { payloads = (omega arith, (omega arith, (omega arith, tt))); count = omega arith })
      (record { payloads = (omega arith, (omega arith, tt)); count = omega arith }) host-Network
      client-Network
