-- ===== src/Turn/Control.antt =====
-- `RelayControlService` of turn_server/src/lib.rs. The text of a request is a list of numbers, and
-- `str::parse` for a SocketAddr a parameter. The control channel is the list of what was sent into
-- it: a send waits for room. A closed channel is ignored by the code, and has no reader.
pub mod Placed
use p2p_networking.Base.{
  ℕ, ◌≡◌, ◌⊎◌, refl, List, [], ◌∷◌, ◌++◌, Option, none, some, inl, inr, arith, Option-cases,
}
use p2p_networking.Base.Fail.{◌>>=◌}
use p2p_networking.Base.Net.{SocketAddr}
use p2p_networking.Turn.{Session, MessageType}

pub record CreateSessionRequest : Type 0 where
  pub host_addr : List ℕ
  pub peer_addr : List ℕ

-- The response with `success: true`, or the status `invalid_argument`.
pub data Reply : Type 0 where
  success : Reply
  invalid_argument : Reply

module _ (parse : List ℕ → Option SocketAddr) where
  -- The session of a request, if both addresses can be parsed.
  unfoldable pub session_of : CreateSessionRequest → Option Session
  session_of request = do
    host ← parse request.host_addr
    peer ← parse request.peer_addr
    some (record { host_addr = host; peer_addr = peer })

  unfoldable pub create_session : CreateSessionRequest → List MessageType → Reply × List MessageType
  create_session request control_tx = elim (session_of request) [
    | none ↦ (Reply.invalid_argument, control_tx)
    | some session ↦ (Reply.success, control_tx ++ MessageType.add_session session ∷ [])
  ]

  -- The requests of a run of calls.
  unfoldable pub create_sessions :
      List CreateSessionRequest → List MessageType → List Reply × List MessageType
  create_sessions [] tx = ([], tx)
  create_sessions (q ∷ qs) tx =
      let (reply, tx') = create_session q tx in
      let (replies, tx'') = create_sessions qs tx' in (reply ∷ replies, tx'')
