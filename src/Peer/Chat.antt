-- ===== src/Peer/Chat.antt =====
-- `hole_punching_wan` and `start_chat` of peer/src/main.rs: what a peer does once it knows the
-- other's address. The tasks of the two functions are steps that come in any order. What goes into
-- the channel to `ReliableOneWayUDPHandle::send` and what is printed are lists; whether bytes are
-- UTF-8 is a parameter, and a line that was typed comes trimmed.
pub mod Opening
pub mod Lines
pub mod Printing
pub mod Talk
pub mod Begin
pub mod Heard
pub mod Delivered
mod Tests
use p2p_networking.Base.{
  ℕ, zero, suc, ◌+◌, ◌==◌, List, [], ◌∷◌, ◌++◌, Option, none, some, Bool, true, false, ltb,
  if◌then◌else◌,
}
use p2p_networking.Base.Net.{SocketAddr}
use p2p_networking.Reliable.{Packet}

-- The same bytes.
unfoldable pub same : List ℕ → List ℕ → Bool
same [] [] = true
same [] (y ∷ ys) = false
same (x ∷ xs) [] = false
same (x ∷ xs) (y ∷ ys) = let rest = same xs ys in if x == y then rest else false

abbrev pub hole_punch : List ℕ
hole_punch = 72 ∷ 79 ∷ 76 ∷ 69 ∷ 95 ∷ 80 ∷ 85 ∷ 78 ∷ 67 ∷ 72 ∷ []

abbrev pub connected : List ℕ
connected = 67 ∷ 79 ∷ 78 ∷ 78 ∷ 69 ∷ 67 ∷ 84 ∷ 69 ∷ 68 ∷ []

abbrev pub keep_alive : List ℕ
keep_alive = 75 ∷ 69 ∷ 69 ∷ 80 ∷ 95 ∷ 65 ∷ 76 ∷ 73 ∷ 86 ∷ 69 ∷ []

abbrev pub goodbye : List ℕ
goodbye = 71 ∷ 79 ∷ 79 ∷ 68 ∷ 66 ∷ 89 ∷ 69 ∷ []

abbrev pub exit : List ℕ
exit = 101 ∷ 120 ∷ 105 ∷ 116 ∷ []

-- The addresses have the same IP.
unfoldable pub same_ip : SocketAddr → SocketAddr → Bool
same_ip (SocketAddr.v4 ip port) (SocketAddr.v4 ip' port') = ip == ip'
same_ip (SocketAddr.v6 ip port flow scope) (SocketAddr.v6 ip' port' flow' scope') = same ip ip'
same_ip _ _ = false

-- `gave_up` is the timeout of the hole punching; `left` follows "exit", and `closed` a goodbye.
pub data Stage : Type 0 where
  punching chatting gave_up left closed : Stage

pub record Peer : Type 0 where
  pub stage : Stage
  pub punches : ℕ
  pub packet_tx : List (List ℕ)
  pub printed : List (List ℕ)

pub data Event : Type 0 where
  -- the punch task sends once more
  punch : Event
  -- `output_rx` gives a packet
  hear : Packet × SocketAddr → Event
  -- the five seconds are over
  time_out : Event
  -- the interval of the keep-alive task ticks
  interval_tick : Event
  -- a line was typed
  type_line : List ℕ → Event

abbrev pub start : Peer
start = record { stage = Stage.punching; punches = 0; packet_tx = []; printed = [] }

-- `handle.send(PacketType::Data { payload })`
abbrev pub queue : List ℕ → Peer → Peer
queue payload p = record p { packet_tx = p.packet_tx ++ payload ∷ [] }

-- The punch task, which sends six times; a chat does not end it.
unfoldable pub on_punch : Peer → Peer
on_punch p = if ltb p.punches 6 then queue hole_punch (record p { punches = suc p.punches }) else p

-- Whether a payload opens the chat.
unfoldable pub greets : List ℕ → Bool
greets payload = if same payload hole_punch then true else same payload connected

-- A packet while punching: "HOLE_PUNCH" or "CONNECTED" is answered, and the chat starts.
unfoldable pub hear_punching : Option (List ℕ) → Peer → Peer
hear_punching none p = p
hear_punching (some payload) p =
    if greets payload then queue connected (record p { stage = Stage.chatting }) else p

-- The `match` on a message of the chat.
unfoldable pub hear_message : List ℕ → Peer → Peer
hear_message message p =
    if same message keep_alive
    then p
    else if same message goodbye
    then record p { stage = Stage.closed }
    else if greets message
    then p
    else record p { printed = p.printed ++ message ∷ [] }

module _ (utf8 : List ℕ → Bool) (peer : SocketAddr) where
  unfoldable pub hear_chat : Option (List ℕ) → SocketAddr → Peer → Peer
  hear_chat none addr p = p
  hear_chat (some payload) addr p =
      if same_ip addr peer then (if utf8 payload then hear_message payload p else p) else p

  -- A line that was typed in the chat: "exit" says goodbye and ends, an empty line does nothing.
  unfoldable pub on_line : List ℕ → Peer → Peer
  on_line [] p = p
  on_line (b ∷ bs) p =
      if same (b ∷ bs) exit
      then queue goodbye (record p { stage = Stage.left })
      else queue (b ∷ bs) p

  -- What a step does depends on the stage; after the end nothing happens any more.
  unfoldable pub on_event : Stage → Event → Peer → Peer
  on_event Stage.punching Event.punch p = on_punch p
  on_event Stage.punching (Event.hear (packet, addr)) p = hear_punching packet.payload p
  on_event Stage.punching Event.time_out p = record p { stage = Stage.gave_up }
  on_event Stage.chatting Event.punch p = on_punch p
  on_event Stage.chatting (Event.hear (packet, addr)) p = hear_chat packet.payload addr p
  on_event Stage.chatting Event.interval_tick p = queue keep_alive p
  on_event Stage.chatting (Event.type_line line) p = on_line line p
  on_event _ e p = p

  unfoldable pub step : Peer → Event → Peer
  step p e = on_event p.stage e p

  unfoldable pub run : Peer → List Event → Peer
  run p [] = p
  run p (e ∷ es) = run (step p e) es
