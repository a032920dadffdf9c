-- ===== src/Peer/Node.antt =====
-- `main` of peer/src/main.rs: a peer finds the other's address, and then runs the tasks of its
-- transport and of its chat, which share two channels. The tasks are steps in any order; arguments
-- come parsed.
pub mod Growth
pub mod Traced
pub mod Echoes
pub mod Talk
pub mod Program
mod Tests
use p2p_networking.Base.{ℕ, zero, suc, List, [], ◌∷◌, ◌++◌, Option, none, some, Bool, get_elem?}
use p2p_networking.Base.Net.{SocketAddr}
use p2p_networking.Reliable.{ReliableUdp, init}
use p2p_networking.Reliable.Endpoint
use p2p_networking.Rendezvous.{Code}
use p2p_networking.Peer.{Outcome, Run, Incoming, listen_to_relay, request_host_addr}
use p2p_networking.Peer.Chat

pub data Mode : Type 0 where
  host peer : Mode

pub record Args : Type 0 where
  pub mode : Mode
  pub code : Option Code
  pub addr : SocketAddr

-- The transport with its two channels' ends, and the chat. `sent` payloads were taken from the
-- channel of the chat, and `heard` packets from that of the receiver.
pub record Node : Type 0 where
  pub transport : ReliableUdp
  pub chat : Chat.Peer
  pub sent : ℕ
  pub heard : ℕ

abbrev pub start : Node
start = record { transport = init; chat = Chat.start; sent = 0; heard = 0 }

pub data Event : Type 0 where
  -- the tasks of `hole_punching_wan` and `start_chat`
  punch : Event
  time_out : Event
  interval_tick : Event
  type_line : List ℕ → Event
  -- they take the next packet from the receiver
  hear : Event
  -- `handle.send` takes the next payload, at the time, or scans for retransmissions
  send : ℕ → Event
  check : ℕ → Event
  -- `receiver.recv` and `periodic_acks`
  receive : List ℕ × SocketAddr → Event
  acknowledge : Event

module _ (utf8 : List ℕ → Bool) (addr : SocketAddr) where
  abbrev pub chats : Chat.Event → Node → Node
  chats e n = record n { chat = Chat.step utf8 addr n.chat e }

  abbrev pub transports : Endpoint.Event → Node → Node
  transports e n = record n { transport = Endpoint.step addr n.transport e }

  unfoldable pub step : Node → Event → Node
  step n Event.punch = chats Chat.Event.punch n
  step n Event.time_out = chats Chat.Event.time_out n
  step n Event.interval_tick = chats Chat.Event.interval_tick n
  step n (Event.type_line line) = chats (Chat.Event.type_line line) n
  step n Event.hear = elim (get_elem? n.transport.output_tx n.heard) [
    | none ↦ n
    | some o ↦ chats (Chat.Event.hear o) (record n { heard = suc n.heard })
  ]
  step n (Event.send now) = elim (get_elem? n.chat.packet_tx n.sent) [
    | none ↦ n
    | some payload ↦ transports (Endpoint.Event.sends now payload) (record n { sent = suc n.sent })
  ]
  step n (Event.check now) = transports (Endpoint.Event.checks now) n
  step n (Event.receive d) = transports (Endpoint.Event.receives d) n
  step n Event.acknowledge = transports Endpoint.Event.acknowledges n

  unfoldable pub run : Node → List Event → Node
  run n [] = n
  run n (e ∷ es) = run (step n e) es

module _ (utf8 : List ℕ → Bool) (from_str : List ℕ → Option SocketAddr) where
  -- The two arms of the `match` on the mode, up to the other's address. A client without a code
  -- does nothing.
  unfoldable pub find_peer : Mode → Args → Incoming → Run
  find_peer Mode.host args ds = listen_to_relay utf8 from_str args.addr ds
  find_peer Mode.peer args ds = elim args.code [
    | none ↦ (Outcome.error, [])
    | some code ↦ request_host_addr utf8 from_str code args.addr ds.1
  ]

  -- The program over the datagrams before it knows the other's address, and what happens after. A
  -- program that does not come that far is none.
  unfoldable pub main : Args → Incoming → List Event → Option Node
  main args ds es = elim (find_peer args.mode args ds).0 [
    | Outcome.found addr ↦ some (run utf8 addr start es)
    | Outcome.error ↦ none
    | Outcome.panic ↦ none
    | Outcome.waits ↦ none
  ]
