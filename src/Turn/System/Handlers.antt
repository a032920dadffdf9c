-- ===== src/Turn/System/Handlers.antt =====
-- The handlers of the event loop, whatever the submission queue holds.
use p2p_networking.Base.{
  ℕ, ◌+◌, ◌*◌, ◌≤◌, ◌≡◌, ◌≢◌, refl, ◌∙◌, none, some, inl, inr, length, Option-cases,
}
use p2p_networking.Base.Fifo.{Fifo}
use p2p_networking.Base.Map
use p2p_networking.Base.Map.{Map, nat_key, get-insert_ne, get-remove_ne}
use p2p_networking.Base.Net.{SocketAddr}
use p2p_networking.Turn.{buffer_size}
use p2p_networking.Turn.Slot
use p2p_networking.Turn.Slot.{Platform, MsgHdrSlot, SockaddrStorage}
use p2p_networking.Turn.Pool.{
  BufferPool, push_entry, mark_recv_for, mark_shard_done_at, mark_send_sqe_at,
}
use p2p_networking.Turn.Pool.Post.{recv_entry, send_entry, post_recv_sqe-posts, post_send_sqe-posts}
use p2p_networking.Turn.Ring.{Relay, on_sqe, on_release}
use p2p_networking.Turn.Ring.Reuse.{marked}
use p2p_networking.Turn.Ring.Timing.{submitted, mark_shard-memory}
use p2p_networking.Turn.System.{write_source}

module _ (idx j : ℕ) (other : idx ≢ j) where
  -- The times of the other buffers stay as they are.
  pub marked-others :
      (now now' : ℕ) (pool : BufferPool)
      → Map.get j (marked idx now now' pool).timestamp ≡ Map.get j pool.timestamp
  unfolding mark_recv_for
  marked-others now now' pool =
      get-insert_ne idx j _ (mark_recv_for idx now pool).timestamp other
      ∙ get-insert_ne idx j _ pool.timestamp other

  mark_shard-others :
      (done : ℕ) (pool : BufferPool)
      → Map.get j (mark_shard_done_at idx done pool).timestamp ≡ Map.get j pool.timestamp
  unfolding mark_shard_done_at
  mark_shard-others done pool = elim (Option-cases (Map.get idx pool.timestamp)) [
    | inl e ↦ rw (e, mark_shard_done_at) refl
    | inr (p, e) ↦ rw (e, mark_shard_done_at) (get-insert_ne idx j _ pool.timestamp other)
  ]

  mark_send-others :
      (sent : ℕ) (pool : BufferPool)
      → Map.get j (mark_send_sqe_at idx sent pool).timestamp ≡ Map.get j pool.timestamp
  unfolding mark_send_sqe_at
  mark_send-others sent pool = elim (Option-cases (Map.get idx pool.timestamp)) [
    | inl e ↦ rw (e, mark_send_sqe_at) refl
    | inr (p, e) ↦ rw (e, mark_send_sqe_at) (get-insert_ne idx j _ pool.timestamp other)
  ]

  pub submitted-others :
      (done sent : ℕ) (slots : Map ℕ MsgHdrSlot) (pool : BufferPool)
      → Map.get j (submitted idx done sent slots pool).timestamp ≡ Map.get j pool.timestamp
  submitted-others done sent slots pool =
      mark_send-others sent (record (mark_shard_done_at idx done pool) { live_slots = slots })
      ∙ mark_shard-others done pool

-- What the kernel writes into a slot leaves memory and times alone.
pub write_source-keeps :
    (idx : ℕ) (src : SockaddrStorage) (pool : BufferPool)
    → ((write_source idx src pool).memory ≡ pool.memory)
      × ((write_source idx src pool).timestamp ≡ pool.timestamp)
unfolding write_source
write_source-keeps idx src pool = elim (Option-cases (Map.get idx pool.live_slots)) [
  | inl e ↦ rw (e, write_source) (refl, refl)
  | inr (s, e) ↦ rw (e, write_source) (refl, refl)
]

pub marked-memory :
    (idx now now' : ℕ) (pool : BufferPool) → (marked idx now now' pool).memory ≡ pool.memory
unfolding mark_recv_for
marked-memory idx now now' pool = refl

module _ (F : Fifo) (t : Platform) (listen_fd idx : ℕ) where
  pub on_sqe-posts :
      (addr : SocketAddr) (len done sent : ℕ) (w : Relay F)
      → idx * buffer_size + buffer_size ≤ length w.pool.memory
      → on_sqe F t listen_fd (addr, len, idx) done sent w
        ≡ some (record w {
          pool =
              submitted idx done sent
                (Map.insert idx
                  (Slot.new t (idx * buffer_size) (some addr))
                  (mark_shard_done_at idx done w.pool).live_slots)
                w.pool;
          sq = push_entry F (send_entry listen_fd idx) w.sq;
        })
  unfolding on_sqe
  on_sqe-posts addr len done sent w room =
      let done_pool : BufferPool = mark_shard_done_at idx done w.pool in
      let room' : idx * buffer_size + buffer_size ≤ length done_pool.memory =
        rw (mark_shard-memory idx done sent w.pool) room in
      rw (post_send_sqe-posts F t listen_fd len idx addr done_pool w.sq room') refl

  pub on_release-posts :
      (w : Relay F)
      → idx * buffer_size + buffer_size ≤ length w.pool.memory
      → on_release F t listen_fd idx w
        ≡ some (record w {
          pool = record (w.pool) {
            live_slots = Map.insert idx (Slot.new t (idx * buffer_size) none) w.pool.live_slots;
          };
          sq = push_entry F (recv_entry listen_fd idx) w.sq;
        })
  unfolding on_release
  on_release-posts w room = rw (post_recv_sqe-posts F t listen_fd idx none w.pool w.sq room) refl
