-- ===== src/Turn/Pool/Post.antt =====
-- What posting a receive or a send does to the pool and to the submission queue.
use p2p_networking.Base.{ℕ, ◌+◌, ◌*◌, ◌≤◌, ◌≡◌, refl, ap, Option, some, arith, length}
use p2p_networking.Base.Fifo.{Fifo}
use p2p_networking.Base.Map
use p2p_networking.Base.Map.{nat_key}
use p2p_networking.Base.Net.{SocketAddr}
use p2p_networking.Turn.{buffer_size}
use p2p_networking.Turn.Slot
use p2p_networking.Turn.Slot.{Platform}
use p2p_networking.Turn.Token.{OpType, encode_token}
use p2p_networking.Turn.Pool.{
  BufferPool, Entry, Opcode, slice_mut, push_entry, post_recv_sqe, post_send_sqe,
}

-- The entry that receives into the buffer.
abbrev pub recv_entry : ℕ → ℕ → Entry
recv_entry listen_fd idx = record {
  opcode = Opcode.recv_msg;
  fd = listen_fd;
  msghdr = idx;
  user_data = encode_token OpType.recv idx;
}

-- The entry that sends from the buffer.
abbrev pub send_entry : ℕ → ℕ → Entry
send_entry listen_fd idx = record {
  opcode = Opcode.send_msg_zc;
  fd = listen_fd;
  msghdr = idx;
  user_data = encode_token OpType.send idx;
}

pub slice_mut_lem :
    (pool : BufferPool) (idx : ℕ)
    → idx * buffer_size + buffer_size ≤ length pool.memory
    → slice_mut pool idx ≡ some (idx * buffer_size)
unfolding slice_mut
slice_mut_lem pool idx h = ground arith

module _ (F : Fifo) (t : Platform) (listen_fd : ℕ) where
  -- A post that finds its slice; the entry is gone if the queue is full.
  pub post_recv_sqe-posts :
      (idx : ℕ) (addr : Option SocketAddr) (pool : BufferPool) (sq : F.Q Entry)
      → idx * buffer_size + buffer_size ≤ length pool.memory
      → post_recv_sqe F t listen_fd idx addr pool sq
        ≡ some (
          record pool {
            live_slots = Map.insert idx (Slot.new t (idx * buffer_size) addr) pool.live_slots;
          },
          push_entry F (recv_entry listen_fd idx) sq,
        )
  unfolding post_recv_sqe
  post_recv_sqe-posts idx addr pool sq h = rw (slice_mut_lem pool idx h) refl

  pub post_send_sqe-posts :
      (len idx : ℕ) (dest : SocketAddr) (pool : BufferPool) (sq : F.Q Entry)
      → idx * buffer_size + buffer_size ≤ length pool.memory
      → post_send_sqe F t listen_fd len idx dest pool sq
        ≡ some (
          record pool {
            live_slots =
                Map.insert idx (Slot.new t (idx * buffer_size) (some dest)) pool.live_slots;
          },
          push_entry F (send_entry listen_fd idx) sq,
        )
  unfolding post_send_sqe
  post_send_sqe-posts len idx dest pool sq h = rw (slice_mut_lem pool idx h) refl

  push_entry_lem :
      (e : Entry) (sq sq' : F.Q Entry) → F.enqueue Entry e sq ≡ some sq' → push_entry F e sq ≡ sq'
  push_entry_lem e sq sq' h = rw (h, push_entry)

  -- A post that finds its slice and room in the queue.
  pub post_recv_sqe_lem :
      (idx : ℕ) (addr : Option SocketAddr) (pool : BufferPool) (sq sq' : F.Q Entry)
      → idx * buffer_size + buffer_size ≤ length pool.memory
      → F.enqueue Entry (recv_entry listen_fd idx) sq ≡ some sq'
      → post_recv_sqe F t listen_fd idx addr pool sq
        ≡ some (
          record pool {
            live_slots = Map.insert idx (Slot.new t (idx * buffer_size) addr) pool.live_slots;
          },
          sq',
        )
  unfolding post_recv_sqe
  post_recv_sqe_lem idx addr pool sq sq' h e = rw (slice_mut_lem pool idx h) (
      ap
        (λ q. some (
          record pool {
            live_slots = Map.insert idx (Slot.new t (idx * buffer_size) addr) pool.live_slots;
          },
          q,
        ))
        (push_entry_lem (recv_entry listen_fd idx) sq sq' e))

  pub post_send_sqe_lem :
      (len idx : ℕ) (dest : SocketAddr) (pool : BufferPool) (sq sq' : F.Q Entry)
      → idx * buffer_size + buffer_size ≤ length pool.memory
      → F.enqueue Entry (send_entry listen_fd idx) sq ≡ some sq'
      → post_send_sqe F t listen_fd len idx dest pool sq
        ≡ some (
          record pool {
            live_slots =
                Map.insert idx (Slot.new t (idx * buffer_size) (some dest)) pool.live_slots;
          },
          sq',
        )
  unfolding post_send_sqe
  post_send_sqe_lem len idx dest pool sq sq' h e = rw (slice_mut_lem pool idx h) (
      ap
        (λ q. some (
          record pool {
            live_slots =
                Map.insert idx (Slot.new t (idx * buffer_size) (some dest)) pool.live_slots;
          },
          q,
        ))
        (push_entry_lem (send_entry listen_fd idx) sq sq' e))
