-- ===== src/FirstImpl/Ring/Batch.antt =====
-- The batch of sends at the head of a round of the first version's loop.
use p2p_networking.Base.{
  ℕ, zero, suc, ◌+◌, ◌*◌, ◌≤◌, ◌≡◌, refl, sym, ◌∙◌, ap, List, [], ◌∷◌, ◌++◌, some, map, arith,
  length, take, drop, All, append_assoc, append-nil,
}
use p2p_networking.Base.Fifo.{Fifo, Room, dequeue_empty, dequeue_first}
use p2p_networking.Base.Map
use p2p_networking.Base.Map.{nat_key}
use p2p_networking.Turn.{SqeType, buffer_size}
use p2p_networking.Turn.Slot
use p2p_networking.Turn.Slot.{Platform}
use p2p_networking.Turn.Pool.{BufferPool, Entry, mark_send_sqe_at}
use p2p_networking.Turn.Pool.Post.{send_entry, post_send_sqe_lem}
use p2p_networking.FirstImpl.Ring.{Loop, on_sqe, sqe_batch}

-- The send's buffer lies in the memory.
abbrev pub Within : ℕ → SqeType → Type 0
Within size m = m.2 * buffer_size + buffer_size ≤ size

pub mark_send-memory :
    (idx sent : ℕ) (pool : BufferPool) → (mark_send_sqe_at idx sent pool).memory ≡ pool.memory
unfolding mark_send_sqe_at
mark_send-memory idx sent pool = ground arith

module _ (F : Fifo) (t : Platform) (listen_fd : ℕ) where
  -- A send that finds its buffer and room in the queue.
  pub on_sqe-posts :
      (m : SqeType) (sent : ℕ) (w : Loop F) (q : F.Q Entry)
      → Within (length w.pool.memory) m
      → F.enqueue Entry (send_entry listen_fd m.2) w.sq ≡ some q
      → on_sqe F t listen_fd m sent w
        ≡ some (record w {
          pool = mark_send_sqe_at m.2 sent (record (w.pool) {
            live_slots =
                Map.insert m.2 (Slot.new t (m.2 * buffer_size) (some m.0)) w.pool.live_slots;
          });
          sq = q;
        })
  unfolding on_sqe
  on_sqe-posts (addr, len, idx) sent w q h e =
      rw (post_send_sqe_lem F t listen_fd len idx addr w.pool w.sq q h e) refl

  -- A batch of at most `n` sends, whose buffers all lie in the memory, with room for `n` entries in
  -- the submission queue, does not panic. It takes the first `n` sends of the queue, or all if there
  -- are fewer, and submits a send of the buffer of each, in order; the others stay in the queue.
  pub batch_takes :
      (n : ℕ) (now : ℕ → ℕ) (ms : List SqeType) (w : Loop F)
      → F.items SqeType w.sqe_rx ≡ ms
      → All (Within (length w.pool.memory)) ms
      → Room F Entry n w.sq
      → (w' : Loop F) × (sqe_batch F t listen_fd n now w ≡ some w')
        × (F.items SqeType w'.sqe_rx ≡ drop n ms)
        × (F.items Entry w'.sq
            ≡ F.items Entry w.sq ++ map (λ m. send_entry listen_fd m.2) (take n ms))
  unfolding sqe_batch
  batch_takes zero now ms w e h room = (w, refl, e, sym (append-nil (F.items Entry w.sq)))
  batch_takes (suc n) now [] w e h room = (
    w,
    rw (dequeue_empty F SqeType w.sqe_rx e, sqe_batch) refl,
    e,
    sym (append-nil (F.items Entry w.sq)),
  )
  batch_takes (suc n) now (m ∷ ms) w e h room =
      let (rx, got, rest) = dequeue_first F SqeType w.sqe_rx m ms e in
      let (q, pushed, room') = room (send_entry listen_fd m.2) in
      let posts = on_sqe-posts m (now n) (record w { sqe_rx = rx }) q h.0 pushed in
      let slots = Map.insert m.2 (Slot.new t (m.2 * buffer_size) (some m.0)) w.pool.live_slots in
      let pool1 : BufferPool =
        mark_send_sqe_at m.2 (now n) (record (w.pool) { live_slots = slots }) in
      let w1 : Loop F = record w { pool = pool1; sq = q; sqe_rx = rx } in
      let kept : pool1.memory ≡ w.pool.memory =
        mark_send-memory m.2 (now n) (record (w.pool) { live_slots = slots }) in
      let (w', ran, left, out) = batch_takes n now ms w1 rest (rw kept h.1) room' in
      (
        w',
        rw (got, sqe_batch) (rw posts ran),
        left,
        out
            ∙ ap (λ l. l ++ map (λ m. send_entry listen_fd m.2) (take n ms))
                (F.items-enqueue Entry (send_entry listen_fd m.2) w.sq q pushed)
            ∙ append_assoc (F.items Entry w.sq) (send_entry listen_fd m.2 ∷ [])
                (map (λ m. send_entry listen_fd m.2) (take n ms)),
      )
