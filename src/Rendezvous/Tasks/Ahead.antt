-- ===== src/Rendezvous/Tasks/Ahead.antt =====
-- What is still ahead of the tasks of the rendezvous server: the messages that the manager has not
-- handled, and the datagrams that come of them.
use mathlib.Core.Option
use p2p_networking.Base.{
  ℕ, ◌≡◌, refl, sym, ◌∙◌, ap, List, [], ◌∷◌, ◌++◌, Option, none, some, inl, inr, append_assoc,
  append-nil, Option-cases,
}
use p2p_networking.Base.Map
use p2p_networking.Base.Map.{Map}
use p2p_networking.Base.Net.{SocketAddr}
use p2p_networking.Rendezvous.{
  Code, code_key, Session, Server, create_lobby, join_lobby, join_session, lobby_id, on_join,
  introductions,
}
use p2p_networking.Rendezvous.Lobbies.{on_join-none, on_join-some}
use p2p_networking.Rendezvous.Tasks.{MessageType, Udp, create_msg, join_msg}

-- The session of a lobby that is joined.
abbrev pub join_by : SocketAddr → Session → Session
join_by addr x = record x { client_addr = some (addr ∷ []); shutdown_channel = none }

-- What a message does to the sessions.
unfoldable pub enters : MessageType → Map Code Session → Map Code Session
enters (create_msg code addr tx) m =
    Map.insert code (record { host_addr = addr; shutdown_channel = some tx; client_addr = none }) m
enters (join_msg code addr) m = elim (Map.get code m) [
  | none ↦ m
  | some x ↦ Map.insert code (join_by addr x) m
]

unfoldable pub enter_all : List MessageType → Map Code Session → Map Code Session
enter_all [] m = m
enter_all (x ∷ xs) m = enter_all xs (enters x m)

pub enter_all-append :
    (xs ys : List MessageType) (m : Map Code Session)
    → enter_all (xs ++ ys) m ≡ enter_all ys (enter_all xs m)
unfolding enter_all
enter_all-append [] ys m = refl
enter_all-append (x ∷ xs) ys m = enter_all-append xs ys (enters x m)

-- The host of the lobby.
abbrev pub host_of : Code → Map Code Session → Option SocketAddr
host_of code m = Option.map (λ (x : Session). x.host_addr) (Map.get code m)

pub create_lobby-enters :
    (code : Code) (addr : SocketAddr) (tx : ℕ) (s : Server)
    → (create_lobby code addr tx s).manager.session
      ≡ enters (create_msg code addr tx) s.manager.session
unfolding create_lobby enters
create_lobby-enters code addr tx s = refl

-- The manager's side of a join.
pub record Joins (code : Code) (addr : SocketAddr) (s : Server) : Type 0 where
  pub answer : (join_lobby code addr s).0 ≡ host_of code s.manager.session
  pub session :
      (join_lobby code addr s).1.manager.session ≡ enters (join_msg code addr) s.manager.session
  pub socket : (join_lobby code addr s).1.socket ≡ s.socket
  pub buf : (join_lobby code addr s).1.buf ≡ s.buf
  pub next : (join_lobby code addr s).1.next_channel ≡ s.next_channel

pub join_lobby-Joins : (code : Code) (addr : SocketAddr) (s : Server) → Joins code addr s
unfolding join_lobby join_session enters
join_lobby-Joins code addr s = elim (Option-cases (Map.get code s.manager.session)) [
  | inl e ↦ record {
    answer = rw (e, join_lobby) refl;
    session = rw (e, join_lobby, enters) refl;
    socket = rw (e, join_lobby) refl;
    buf = rw (e, join_lobby) refl;
    next = rw (e, join_lobby) refl;
  }
  | inr (x, e) ↦ record {
    answer = rw (e, join_lobby) refl;
    session = rw (e, join_lobby, enters) refl;
    socket = rw (e, join_lobby) refl;
    buf = rw (e, join_lobby) refl;
    next = rw (e, join_lobby) refl;
  }
]

module _ (to_string : SocketAddr → List ℕ) where
  unfoldable pub answer_to : SocketAddr → Option SocketAddr → List (List ℕ × SocketAddr)
  answer_to addr none = []
  answer_to addr (some host) = introductions to_string host addr

  -- What the joins among the messages bring to the wire.
  unfoldable pub joined : List MessageType → Map Code Session → List (List ℕ × SocketAddr)
  joined [] m = []
  joined (create_msg code addr tx ∷ xs) m = joined xs (enters (create_msg code addr tx) m)
  joined (join_msg code addr ∷ xs) m =
      answer_to addr (host_of code m) ++ joined xs (enters (join_msg code addr) m)

  pub joined-append :
      (xs ys : List MessageType) (m : Map Code Session)
      → joined (xs ++ ys) m ≡ joined xs m ++ joined ys (enter_all xs m)
  unfolding joined enter_all
  joined-append [] ys m = refl
  joined-append (create_msg code addr tx ∷ xs) ys m =
      joined-append xs ys (enters (create_msg code addr tx) m)
  joined-append (join_msg code addr ∷ xs) ys m =
      ap (λ l. answer_to addr (host_of code m) ++ l)
        (joined-append xs ys (enters (join_msg code addr) m))
      ∙ sym (append_assoc (answer_to addr (host_of code m)) _ _)

  -- The branch for a join, as one step.
  pub record Joined (addr : SocketAddr) (t : Server) : Type 0 where
    pub session :
        (on_join to_string addr t).manager.session
        ≡ enters (join_msg (lobby_id t.buf) addr) t.manager.session
    pub socket :
        (on_join to_string addr t).socket
        ≡ t.socket ++ answer_to addr (host_of (lobby_id t.buf) t.manager.session)
    pub buf : (on_join to_string addr t).buf ≡ t.buf
    pub next : (on_join to_string addr t).next_channel ≡ t.next_channel

  pub on_join-Joined : (addr : SocketAddr) (t : Server) → Joined addr t
  unfolding join_session enters answer_to
  on_join-Joined addr t = elim (Option-cases (Map.get (lobby_id t.buf) t.manager.session)) [
    | inl e ↦
        let all = on_join-none to_string addr t e in
        record {
          session = ap (λ (s : Server). s.manager.session) all ∙ rw (e, enters) refl;
          socket =
              ap (λ (s : Server). s.socket) all ∙ rw (e, answer_to) (sym (append-nil t.socket));
          buf = ap (λ (s : Server). s.buf) all;
          next = ap (λ (s : Server). s.next_channel) all;
        }
    | inr (x, e) ↦
        let all = on_join-some to_string addr t x e in
        record {
          session = ap (λ (s : Server). s.manager.session) all ∙ rw (e, enters) refl;
          socket = ap (λ (s : Server). s.socket) all ∙ rw (e, answer_to) refl;
          buf = ap (λ (s : Server). s.buf) all;
          next = ap (λ (s : Server). s.next_channel) all;
        }
  ]

  -- The messages that `udp_handler` is about to send, and what it brings to the wire itself.
  abbrev pub message_of : Udp → List MessageType
  message_of (Udp.creating code addr tx) = create_msg code addr tx ∷ []
  message_of (Udp.joining code addr) = join_msg code addr ∷ []
  message_of _ = []

  abbrev pub reply_of : Udp → List (List ℕ × SocketAddr)
  reply_of Udp.receiving = []
  reply_of (Udp.creating code addr tx) = (code, addr) ∷ []
  reply_of (Udp.created code addr tx) = (code, addr) ∷ []
  reply_of (Udp.joining code addr) = []
  reply_of (Udp.awaiting addr none) = []
  reply_of (Udp.awaiting addr (some host)) = answer_to addr host

-- The messages have no join.
abbrev pub NoJoins : List MessageType → Type 0
NoJoins [] = Unit {0}
NoJoins (create_msg code addr tx ∷ xs) = NoJoins xs
NoJoins (join_msg code addr ∷ xs) = ⊥

-- The last of them is a join of the address, and the only one.
abbrev pub EndsIn : SocketAddr → List MessageType → Type 0
EndsIn addr [] = ⊥
EndsIn addr (create_msg code host tx ∷ xs) = EndsIn addr xs
EndsIn addr (join_msg code client ∷ xs) = (client ≡ addr) × (xs ≡ [])

-- A join is in the channel while `udp_handler` waits for its answer.
abbrev pub OneJoin : Udp → List MessageType → Type 0
OneJoin (Udp.awaiting addr none) ms = EndsIn addr ms
OneJoin _ ms = NoJoins ms

pub NoJoins-append :
    (ms : List MessageType) (code : Code) (addr : SocketAddr) (tx : ℕ)
    → NoJoins ms
    → NoJoins (ms ++ create_msg code addr tx ∷ [])
NoJoins-append [] code addr tx h = tt
NoJoins-append (create_msg c a n ∷ ms) code addr tx h = NoJoins-append ms code addr tx h
NoJoins-append (join_msg c a ∷ ms) code addr tx h = absurd h

pub EndsIn-append :
    (ms : List MessageType) (code : Code) (addr : SocketAddr)
    → NoJoins ms
    → EndsIn addr (ms ++ join_msg code addr ∷ [])
EndsIn-append [] code addr h = (refl, refl)
EndsIn-append (create_msg c a n ∷ ms) code addr h = EndsIn-append ms code addr h
EndsIn-append (join_msg c a ∷ ms) code addr h = absurd h
