-- ===== src/FirstImpl/Ring.antt =====
-- `io_uring_loop` and `main` of turn_server/src/bin/first_impl.rs. What a round of the loop reads
-- from the completion queue and from the clock is an argument.
pub mod Batch
pub mod Cycle
pub mod Started
use p2p_networking.Base.{
  ℕ, zero, suc, ◌+◌, ◌<◌, List, [], ◌∷◌, Option, none, some, Bool, true, false, not, ◌&&◌, ◌==◌,
  if◌then◌else◌, map,
}
use p2p_networking.Base.Fail.{◌>>=◌}
use p2p_networking.Base.Fifo.{Fifo}
use p2p_networking.Base.Map.{nat_key}
use p2p_networking.Base.Net.{SocketAddr}
use p2p_networking.Turn.{Session, SqeType, pool_size}
use p2p_networking.Turn.Slot.{Platform}
use p2p_networking.Turn.Token.{OpType, decode_token}
use p2p_networking.Turn.Pool.{
  BufferPool, PacketTiming, Entry, mark_recv_for, mark_shard_done_at, mark_send_sqe_at,
  take_recv_for, get_peer_addr, post_send_sqe, release, seed, register_buffer_kernel,
}
use p2p_networking.Turn.Ring.{Cqe, bytes_of, log_times}
use p2p_networking.FirstImpl.{Packet, Shard, ShardRouter, new, add_session, route}

-- What the loop owns: the buffers, the router, the submission queue, and the queue of sends.
pub record Loop (F : Fifo) : Type 0 where
  pub pool : BufferPool
  pub router : ShardRouter F
  pub sq : F.Q Entry
  pub sqe_rx : F.Q SqeType

-- An element of the vector `completed`: operation, buffer, bytes, flags.
abbrev pub Completed : Type 0
Completed = OpType × ℕ × ℕ × ℕ

unfoldable pub completed_of : Cqe → Completed
completed_of cqe =
    let (op, idx) = decode_token cqe.user_data in (op, idx, bytes_of cqe.result, cqe.flags)

abbrev pub max_sqe_batch : ℕ
max_sqe_batch = 32

-- The address 127.0.0.1 with a port.
abbrev pub localhost : ℕ → SocketAddr
localhost port = SocketAddr.v4 2130706433 port

module _ (F : Fifo) (t : Platform) (listen_fd : ℕ) where
  -- A send from a shard, with the time that is taken.
  unfoldable pub on_sqe : SqeType → ℕ → Loop F → Option (Loop F)
  on_sqe (addr, len, idx) sent w = do
    (pool', sq') ← post_send_sqe F t listen_fd len idx addr w.pool w.sq
    some (record w { pool = mark_send_sqe_at idx sent pool'; sq = sq' })

  -- `while pushed < MAX_SQE_BATCH`, with as many rounds left as `pushed` is short of it.
  unfoldable pub sqe_batch : ℕ → (ℕ → ℕ) → Loop F → Option (Loop F)
  sqe_batch zero now w = some w
  sqe_batch (suc left) now w = elim (F.dequeue SqeType w.sqe_rx) [
    | none ↦ some w
    | some (m, sqe_rx') ↦ do
      w' ← on_sqe m (now left) (record w { sqe_rx = sqe_rx' })
      sqe_batch left now w'
  ]

  -- A packet came in: it is routed, and the time at which the shard is done is taken at once.
  unfoldable pub on_recv : ℕ → ℕ → ℕ → ℕ → Loop F → Option (Loop F)
  on_recv buf_idx len now done w = do
    let marked : BufferPool = mark_recv_for buf_idx now w.pool
    let src : SocketAddr = get_peer_addr t marked buf_idx
    let packet : Packet = record { data_at = buf_idx; src = src; len = len; buf_idx = buf_idx }
    router' ← route F packet w.router
    some (record w { pool = mark_shard_done_at buf_idx done marked; router = router' })

  -- `pool.release(…)`
  unfoldable pub on_release : ℕ → Loop F → Option (Loop F)
  on_release buf_idx w = do
    (pool', sq') ← release F t buf_idx listen_fd w.pool w.sq
    some (record w { pool = pool'; sq = sq' })

  unfoldable pub on_send : ℕ → ℕ → Loop F → Option (Loop F)
  on_send buf_idx flags w = if t.more flags then some w else do
    w' ← on_release buf_idx w
    let taken : Option PacketTiming × BufferPool = take_recv_for buf_idx w'.pool
    logged ← log_times taken.0
    some (record w' { pool = taken.1 })

  unfoldable pub on_completed : Completed → ℕ → ℕ → Loop F → Option (Loop F)
  on_completed (OpType.recv, buf_idx, len, flags) now done w = on_recv buf_idx len now done w
  on_completed (OpType.send, buf_idx, len, flags) now done w = on_send buf_idx flags w
  on_completed (OpType.send_notif, buf_idx, len, flags) now done w = on_release buf_idx w

  -- `for … in completed`, with the two times of each.
  unfoldable pub completed_loop : List (Completed × ℕ × ℕ) → Loop F → Option (Loop F)
  completed_loop [] w = some w
  completed_loop ((c, now, done) ∷ cs) w = do w' ← on_completed c now done w; completed_loop cs w'

  -- `pushed > 0` after a batch: a send was waiting.
  unfoldable pub pushed : Loop F → Bool
  pushed w = elim (F.dequeue SqeType w.sqe_rx) [ none ↦ false | some _ ↦ true ]

  -- The completions of a round: those that are there, or, if there are none, those that are there
  -- after `submit_and_wait(0).unwrap()`, which succeeds or does not.
  unfoldable pub completions :
      List (Cqe × ℕ × ℕ) → Bool → List (Cqe × ℕ × ℕ) → Option (List (Cqe × ℕ × ℕ))
  completions [] waited later = if waited then some later else none
  completions (c ∷ cs) waited later = some (c ∷ cs)

  -- One round: a batch of sends, which `submit().unwrap()` hands to the kernel with or without
  -- success, and the completions, all of which are read before the first is processed.
  unfoldable pub round :
      Bool → Bool → (ℕ → ℕ) → List (Cqe × ℕ × ℕ) → List (Cqe × ℕ × ℕ) → Loop F → Option (Loop F)
  round submitted waited now cqes later w = do
    w' ← sqe_batch max_sqe_batch now w
    completed ← (if pushed w && not submitted then none else completions cqes waited later)
    completed_loop (map (λ c. (completed_of c.0, c.1, c.2)) completed) w'

  -- Start-up, with a kernel that takes the buffers or does not.
  unfoldable pub start : Bool → Loop F → Option (Loop F)
  start accepted w = do
    pool ← register_buffer_kernel pool_size accepted w.pool
    (pool', sq') ← seed F t listen_fd pool_size pool w.sq
    some (record w { pool = pool'; sq = sq' })

abbrev pub fixed_session : Session
fixed_session = record { host_addr = localhost 9001; peer_addr = localhost 9002 }

-- The shard that `main` starts for a channel: the first has the one session that there is.
unfoldable pub spawned : (F : Fifo) → ℕ → F.Q Packet → F.Q SqeType → Shard F
spawned F id recv tx_out =
    let shard = new F id recv tx_out in if id == 0 then add_session F fixed_session shard else shard
