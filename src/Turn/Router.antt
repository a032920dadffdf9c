-- ===== src/Turn/Router.antt =====
-- `ShardRouter` of turn_server/src/lib.rs, and the registration that the event loop makes with it.
-- An index out of bounds and a remainder by zero are panics.
pub mod Balance
pub mod Dealt
pub mod Symmetric
use p2p_networking.Base.{
  ℕ, zero, suc, ◌+◌, ◌%◌, ◌==◌, List, [], ◌∷◌, ◌++◌, Option, none, some, Bool, true, false,
  if◌then◌else◌, length, get_elem?, set, compare, Ordering,
}
use p2p_networking.Base.Fail.{◌>>=◌}
use p2p_networking.Base.Fifo.{Fifo}
use p2p_networking.Base.Map
use p2p_networking.Base.Map.{Map}
use p2p_networking.Base.Net.{SocketAddr, socket_addr_key}
use p2p_networking.Turn.{Packet, Session, MessageType}

pub record ShardRouter (F : Fifo) : Type 0 where
  pub senders : List (F.Q MessageType)
  pub endpoint_to_shard : Map SocketAddr ℕ
  pub next_shard : ℕ

module _ (F : Fifo) where
  -- `ShardRouter::new`
  unfoldable pub new : List (F.Q MessageType) → ShardRouter F
  new senders = record { senders = senders; endpoint_to_shard = []; next_shard = 0 }

  -- `senders[i].enqueue(msg)`; a refusal is ignored.
  unfoldable pub send_to_shard : ℕ → MessageType → ShardRouter F → Option (ShardRouter F)
  send_to_shard i msg r = do
    channel ← get_elem? r.senders i
    elim (F.enqueue MessageType msg channel) [
      | none ↦ some r
      | some channel' ↦ some (record r { senders = set r.senders i channel' })
    ]

  unfoldable pub route : Packet → ShardRouter F → Option (ShardRouter F)
  route p r = elim (Map.get p.src r.endpoint_to_shard) [
    | none ↦ some r
    | some i ↦ send_to_shard i (MessageType.transmit p) r
  ]

  unfoldable pub next_shard : ShardRouter F → Option (ℕ × ShardRouter F)
  next_shard r =
      if length r.senders == 0
      then none
      else some (r.next_shard, record r { next_shard = (r.next_shard + 1) % length r.senders })

  -- The loop over the control channel, for one message.
  unfoldable pub on_control : ShardRouter F → MessageType → Option (ShardRouter F)
  on_control r (MessageType.transmit p) = some r
  on_control r (MessageType.add_session session) = do
    (shard, r1) ← next_shard r
    r2 ← send_to_shard shard (MessageType.add_session session) r1
    some (record r2 {
      endpoint_to_shard =
          Map.insert session.peer_addr shard
            (Map.insert session.host_addr shard r2.endpoint_to_shard);
    })

  unfoldable pub on_controls : List MessageType → ShardRouter F → Option (ShardRouter F)
  on_controls [] r = some r
  on_controls (m ∷ ms) r = do r' ← on_control r m; on_controls ms r'

-- `shard_for`, which nothing calls. The hasher and the order of addresses are parameters.
unfoldable pub shard_for :
    {F : Fifo} (hash : SocketAddr → SocketAddr → ℕ) (le : SocketAddr → SocketAddr → Bool)
    → ShardRouter F
    → SocketAddr
    → SocketAddr
    → Option ℕ
shard_for hash le r host peer =
    if length r.senders == 0
    then none
    else if le host peer
    then some (hash host peer % length r.senders)
    else some (hash peer host % length r.senders)
