-- ===== src/Peer/Node/Program.antt =====
-- A host and a client run `main` of peer/src/main.rs with one rendezvous server: they meet, and
-- chat.
use p2p_networking.Base.{
  true, ℕ, ◌+◌, ◌<◌, ◌≤◌, ◌≡◌, ◌≢◌, refl, List, ◌++◌, Option, none, some, Bool, length, All,
}
use p2p_networking.Base.Net.{SocketAddr}
use p2p_networking.Base.Word.{u32_mod}
use p2p_networking.Rendezvous.{Code}
use p2p_networking.Peer.{Outcome, Incoming}
use p2p_networking.Peer.Meeting.{IsText, delivered}
use p2p_networking.Peer.Meeting.Awaited.{
  Mixed, MixedBehind, NoAddr, served, host_finds, client_finds,
}
use p2p_networking.Peer.Chat
use p2p_networking.Peer.Chat.Lines.{texts}
use p2p_networking.Peer.Node.{Mode, Args, Node, Event, start, run, find_peer, main}
use p2p_networking.Peer.Node.Traced.{arrived, typed}
use p2p_networking.Peer.Node.Talk.{Network, sent, peers_talk}

-- No payload that the chat has sent is longer than 6592 bytes, and there are fewer than 2 ^ 32 - 1.
pub record Short (p : Chat.Peer) : Type 0 where
  pub payloads : All (λ x. length x ≤ 6592) p.packet_tx
  pub count : length p.packet_tx + 1 < u32_mod

module _ (to_string : SocketAddr → List ℕ) (utf8 : List ℕ → Bool)
    (from_str : List ℕ → Option SocketAddr) (server a b : SocketAddr) (code : Code)
    (to_host to_client : List (List ℕ × SocketAddr)) (es fs : List Event) where
  abbrev pub host_args : Args
  host_args = record { mode = Mode.host; code = none; addr = server }

  abbrev pub client_args : Args
  client_args = record { mode = Mode.peer; code = some code; addr = server }

  -- The host, the client, and what they sent.
  abbrev pub host : Node
  host = run utf8 b start es

  abbrev pub client : Node
  client = run utf8 a start fs

  abbrev pub host_sent : List (List ℕ × SocketAddr)
  host_sent = sent utf8 from_str a b host_args (true, to_host) es fs

  abbrev pub client_sent : List (List ℕ × SocketAddr)
  client_sent = sent utf8 from_str b a client_args (true, to_client) fs es

  main_found :
      (args : Args) (ds : Incoming) (c : SocketAddr) (gs : List Event)
      → (find_peer utf8 from_str args.mode args ds).0 ≡ Outcome.found c
      → main utf8 from_str args ds gs ≡ some (run utf8 c start gs)
  unfolding main
  main_found args ds c gs e = rw (e, main) refl

  -- A host at `a` and a client at `b`, whose addresses' texts are read back, run `main` with one
  -- server at a third address, which opens a lobby for the host under a code of 16 bytes and lets
  -- the client join it. What the server sends arrives in order, with any number of keep-alives of
  -- one byte 0 in between, which names no address, but to the host the code is first, and its first receive succeeds. Afterwards
  -- anything happens at each of the two in whatever order, among losses, repetitions and
  -- reorderings on the network; what arrives in the name of one was sent from there to the other. No
  -- payload of the two chats is longer than 6592 bytes, and each sends fewer than 2 ^ 32 - 1. Then
  -- both programs find the other and start their tasks, and what each has printed is a first part of
  -- the texts among the lines that were typed at the other in its chat before "exit", in order.
  pub programs_chat :
      IsText to_string utf8 from_str a
      → IsText to_string utf8 from_str b
      → NoAddr to_string utf8 from_str
      → a ≢ b
      → server ≢ a
      → server ≢ b
      → length code ≡ 16
      → MixedBehind (delivered server a (served to_string utf8 from_str server a b code)) to_host
      → Mixed (delivered server b (served to_string utf8 from_str server a b code)) to_client
      → Short host.chat
      → Short client.chat
      → Network a b host_sent (arrived fs)
      → Network b a client_sent (arrived es)
      → (main utf8 from_str host_args (true, to_host) es ≡ some host)
        × (main utf8 from_str client_args (true, to_client) fs ≡ some client)
        × ((rest : List (List ℕ)) × (client.chat.printed ++ rest
              ≡ texts utf8 (typed utf8 b start es)))
        × ((rest : List (List ℕ)) × (host.chat.printed ++ rest
              ≡ texts utf8 (typed utf8 a start fs)))
  unfolding find_peer
  programs_chat ta tb no_addr ne na nb h mh mc sa sb there back = (
    main_found host_args (true, to_host) b es
        (host_finds to_string utf8 from_str server a b code to_host tb no_addr ne h mh),
    main_found client_args (true, to_client) a fs
        (client_finds to_string utf8 from_str server a b code to_client ta ne h mc),
    peers_talk utf8 from_str a b host_args (true, to_host) es fs nb sa.payloads sa.count there,
    peers_talk utf8 from_str b a client_args (true, to_client) fs es na sb.payloads sb.count back,
  )
