-- ===== src/Turn/Ring/Start.antt =====
-- Start-up of the event loop, from the pool that the program allocates.
use p2p_networking.Base.{
  ℕ, ◌*◌, ◌≤◌, ◌<◌, ◌≡◌, refl, ◌++◌, map, Option, none, some, Bool, true, false, ◌&&◌,
  if◌then◌else◌, arith, length, length-filled, [],
}
use p2p_networking.Base.Fail.{◌>>=◌, bind_some}
use p2p_networking.Base.Fifo.{Fifo, Room}
use p2p_networking.Base.Map
use p2p_networking.Base.Map.{nat_key}
use p2p_networking.Turn.{buffer_size, pool_size}
use p2p_networking.Turn.Slot
use p2p_networking.Turn.Slot.{Platform}
use p2p_networking.Turn.Pool.{
  BufferPool, Entry, default, seed, register_from, register_buffer_kernel,
}
use p2p_networking.Turn.Pool.Post.{recv_entry}
use p2p_networking.Turn.Pool.Seed.{countdown, seed_posts_all}
use p2p_networking.Turn.Ring.{Relay, start}

pub default_memory : length default.memory ≡ pool_size * buffer_size
unfolding default
default_memory = length-filled (pool_size * buffer_size) 0

default_free : default.free_list ≡ []
unfolding default
default_free = refl

start-ran :
    (F : Fifo) (t : Platform) (listen_fd : ℕ) (submitted : Bool) (w : Relay F) (pool' : BufferPool)
    (sq' : F.Q Entry)
    → (register_buffer_kernel pool_size true w.pool >>= λ p. seed F t listen_fd pool_size p w.sq)
      ≡ some (pool', sq')
    → start F t listen_fd true submitted w
      ≡ (if submitted then some (record w { pool = pool'; sq = sq' }) else none)
unfolding start
start-ran F t listen_fd submitted w pool' sq' ran =
    bind_some (register_buffer_kernel pool_size true w.pool)
      (λ p. seed F t listen_fd pool_size p w.sq)
      (λ x. if submitted then some (record w { pool = x.0; sq = x.1 }) else none) ran

none_after : {A B : Type 0} (x : Option A) (f : A → Option B) → (x >>= (λ a. none) >>= f) ≡ none
none_after none f = refl
none_after (some a) f = refl

start_refused :
    (F : Fifo) (t : Platform) (listen_fd : ℕ) (submitted : Bool) (w : Relay F)
    → start F t listen_fd false submitted w ≡ none
unfolding start register_buffer_kernel
start_refused F t listen_fd submitted w = none_after (register_from pool_size 0 w.pool) λ pool. do
  (pool', sq') ← seed F t listen_fd pool_size pool w.sq
  if submitted then some (record w { pool = pool'; sq = sq' }) else none

-- The event loop starts on the pool that `BufferPool::default` makes, with a submission queue that
-- has room for POOL_SIZE entries. If the kernel takes the buffers and the submission, nothing
-- panics, one receive is posted for each of the POOL_SIZE buffers, the last first, the free list is
-- empty, each live slot points at its own part of the memory; memory, times and router are
-- unchanged. If the kernel refuses one of the two, the program panics.
pub start_posts_all :
    (F : Fifo) (t : Platform) (listen_fd : ℕ) (accepted submitted : Bool) (w : Relay F)
    → w.pool ≡ default
    → Room F Entry pool_size w.sq
    → (w' : Relay F) × (start F t listen_fd accepted submitted w
        ≡ (if accepted && submitted then some w' else none))
      × (F.items Entry w'.sq
          ≡ F.items Entry w.sq ++ map (recv_entry listen_fd) (countdown pool_size))
      × (w'.pool.free_list ≡ [])
      × ((i : ℕ)
          → i < pool_size
          → Map.get i w'.pool.live_slots ≡ some (Slot.new t (i * buffer_size) none))
      × (w'.pool.memory ≡ w.pool.memory)
      × (w'.pool.timestamp ≡ w.pool.timestamp)
      × (w'.router ≡ w.router)
start_posts_all F t listen_fd accepted submitted w e room =
    let memory : pool_size * buffer_size ≤ length w.pool.memory =
      rw e (rw default_memory (omega arith)) in
    let (pool', sq', ran, posted, free, slots, kept, times) =
      seed_posts_all F t listen_fd pool_size w.pool w.sq memory (omega arith) (rw e default_free)
        room in
    (
      record w { pool = pool'; sq = sq' },
      starts accepted pool' sq' ran,
      posted,
      free,
      slots,
      kept,
      times,
      refl,
    )
  where
    starts :
        (b : Bool) (pool' : BufferPool) (sq' : F.Q Entry)
        → (register_buffer_kernel pool_size true w.pool >>= λ p.
            seed F t listen_fd pool_size p w.sq)
          ≡ some (pool', sq')
        → start F t listen_fd b submitted w
          ≡ (if b && submitted then some (record w { pool = pool'; sq = sq' }) else none)
    starts true pool' sq' ran = start-ran F t listen_fd submitted w pool' sq' ran
    starts false pool' sq' ran = start_refused F t listen_fd submitted w
