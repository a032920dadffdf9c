-- ===== src/Turn/Ring.antt =====
-- `io_uring_loop` of turn_server/src/lib.rs: the handlers of its three inner loops and one round of
-- the outer loop. What the loop reads from the clock, from the control channel, from the shards'
-- output and from the completion queue in a round is an argument.
pub mod Reuse
pub mod Start
pub mod Timing
use p2p_networking.Base.{
  ℕ, zero, suc, ◌+◌, List, [], ◌∷◌, Option, none, some, Bool, true, false, if◌then◌else◌,
}
use p2p_networking.Base.Fail.{◌>>=◌}
use p2p_networking.Base.Fifo.{Fifo}
use p2p_networking.Base.Map.{nat_key}
use p2p_networking.Base.Net.{SocketAddr}
use p2p_networking.Turn.{Packet, MessageType, SqeType, pool_size}
use p2p_networking.Turn.Slot.{Platform}
use p2p_networking.Turn.Token.{OpType, decode_token}
use p2p_networking.Turn.Pool.{
  BufferPool, PacketTiming, Entry, mark_recv_for, mark_shard_done_at, mark_send_sqe_at,
  take_recv_for, get_peer_addr, post_send_sqe, release, seed, register_buffer_kernel,
}
use p2p_networking.Turn.Router.{ShardRouter, route, on_control}

-- `cqe.result()`, an `i32`: `negsuc n` is -(n + 1), an error number.
pub data CqeResult : Type 0 where
  pos : ℕ → CqeResult
  negsuc : ℕ → CqeResult

-- `cqe.result().max(0) as usize`
abbrev pub bytes_of : CqeResult → ℕ
bytes_of (CqeResult.pos n) = n
bytes_of (CqeResult.negsuc n) = 0

pub record Cqe : Type 0 where
  pub user_data : ℕ
  pub result : CqeResult
  pub flags : ℕ

-- What the loop owns: the buffers, the router with its senders, and the submission queue.
pub record Relay (F : Fifo) : Type 0 where
  pub pool : BufferPool
  pub router : ShardRouter F
  pub sq : F.Q Entry

-- The two `unwrap`s on the times of a packet whose send is complete; they feed the log alone.
unfoldable pub log_times : Option PacketTiming → Option (Unit {0})
log_times none = some tt
log_times (some t) = do shard_done_at ← t.shard_done_at; send_sqe_at ← t.send_sqe_at; some tt

module _ (F : Fifo) (t : Platform) (listen_fd : ℕ) where
  unfoldable pub on_control_msg : MessageType → Relay F → Option (Relay F)
  on_control_msg m w = do router' ← on_control F w.router m; some (record w { router = router' })

  -- A send from a shard, with the two times that are taken.
  unfoldable pub on_sqe : SqeType → ℕ → ℕ → Relay F → Option (Relay F)
  on_sqe (addr, len, idx) done sent w = do
    (pool', sq') ←
        post_send_sqe F t listen_fd len idx addr (mark_shard_done_at idx done w.pool) w.sq
    some (record w { pool = mark_send_sqe_at idx sent pool'; sq = sq' })

  -- `pool.release(…)`
  unfoldable pub on_release : ℕ → Relay F → Option (Relay F)
  on_release buf_idx w = do
    (pool', sq') ← release F t buf_idx listen_fd w.pool w.sq
    some (record w { pool = pool'; sq = sq' })

  -- A packet came in: its source is read from the slot, and it is routed.
  unfoldable pub on_recv : ℕ → ℕ → ℕ → ℕ → Relay F → Option (Relay F)
  on_recv buf_idx len now now' w = do
    let marked : BufferPool = mark_recv_for buf_idx now w.pool
    let src : SocketAddr = get_peer_addr t marked buf_idx
    let pool' : BufferPool = mark_recv_for buf_idx now' marked
    router' ← route F (record { buf_idx = buf_idx; len = len; src = src }) w.router
    some (record w { pool = pool'; router = router' })

  -- The last completion of a send gives the buffer back to the kernel.
  unfoldable pub on_send : ℕ → ℕ → Relay F → Option (Relay F)
  unfolding log_times
  on_send buf_idx flags w = if t.more flags then some w else do
    w' ← on_release buf_idx w
    let taken : Option PacketTiming × BufferPool = take_recv_for buf_idx w'.pool
    logged ← log_times taken.0
    some (record w' { pool = taken.1 })

  unfoldable pub on_op : OpType × ℕ → Cqe → ℕ → ℕ → Relay F → Option (Relay F)
  on_op (OpType.recv, buf_idx) c now now' w = on_recv buf_idx (bytes_of c.result) now now' w
  on_op (OpType.send, buf_idx) c now now' w = on_send buf_idx c.flags w
  on_op (OpType.send_notif, buf_idx) c now now' w = on_release buf_idx w

  unfoldable pub on_cqe : Cqe → ℕ → ℕ → Relay F → Option (Relay F)
  on_cqe c now now' w = on_op (decode_token c.user_data) c now now' w

  -- The three loops of one round, over what each takes in, with the times that it reads.
  unfoldable pub control_loop : List MessageType → Relay F → Option (Relay F)
  control_loop [] w = some w
  control_loop (m ∷ ms) w = do w' ← on_control_msg m w; control_loop ms w'

  unfoldable pub sqe_loop : List (SqeType × ℕ × ℕ) → Relay F → Option (Relay F)
  sqe_loop [] w = some w
  sqe_loop ((m, done, sent) ∷ ms) w = do w' ← on_sqe m done sent w; sqe_loop ms w'

  unfoldable pub cqe_loop : List (Cqe × ℕ × ℕ) → Relay F → Option (Relay F)
  cqe_loop [] w = some w
  cqe_loop ((c, now, now') ∷ cs) w = do w' ← on_cqe c now now' w; cqe_loop cs w'

  -- One round: control messages, sends, completions. Without a completion it goes round again.
  unfoldable pub round :
      List MessageType → List (SqeType × ℕ × ℕ) → List (Cqe × ℕ × ℕ) → Relay F → Option (Relay F)
  round controls sqes cqes w = do
    w1 ← control_loop controls w
    w2 ← sqe_loop sqes w1
    cqe_loop cqes w2

  -- Start-up: `register_buffer_kernel`, a receive for each of the buffers, and `submit().unwrap()`.
  -- The kernel's two answers are arguments.
  unfoldable pub start : Bool → Bool → Relay F → Option (Relay F)
  start accepted submitted w = do
    pool ← register_buffer_kernel pool_size accepted w.pool
    (pool', sq') ← seed F t listen_fd pool_size pool w.sq
    if submitted then some (record w { pool = pool'; sq = sq' }) else none
