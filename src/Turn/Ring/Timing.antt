-- ===== src/Turn/Ring/Timing.antt =====
-- A send from a shard to its completion: no `unwrap` fails, and the buffer is received into again.
use p2p_networking.Base.{
  ℕ, ◌+◌, ◌*◌, ◌≤◌, ◌<◌, ◌≡◌, ◌∙◌, ap, [], ◌∷◌, ◌++◌, none, some, inl, inr, true, false, arith,
  length, append_assoc, Option-cases,
}
use p2p_networking.Base.Fifo.{Fifo, Room}
use p2p_networking.Base.Map
use p2p_networking.Base.Map.{Map, nat_key, get-insert_self, get-remove_self}
use p2p_networking.Base.Net.{SocketAddr}
use p2p_networking.Base.Word.{u16_mod}
use p2p_networking.Turn.{buffer_size}
use p2p_networking.Turn.Slot
use p2p_networking.Turn.Slot.{Platform, MsgHdrSlot}
use p2p_networking.Turn.Token.{OpType, encode_token, decode_token, decode_token-encode_token}
use p2p_networking.Turn.Pool.{
  BufferPool, PacketTiming, Entry, mark_shard_done_at, mark_send_sqe_at, take_recv_for,
}
use p2p_networking.Turn.Pool.Post.{recv_entry, send_entry, post_recv_sqe_lem, post_send_sqe_lem}
use p2p_networking.Turn.Ring.{Cqe, Relay, log_times, on_cqe, on_op, on_sqe, on_send, on_release}

module _ (idx done sent : ℕ) where
  pub mark_shard-get :
      (pool : BufferPool) (p : PacketTiming)
      → Map.get idx pool.timestamp ≡ some p
      → Map.get idx (mark_shard_done_at idx done pool).timestamp
        ≡ some (record p { shard_done_at = some done })
  unfolding mark_shard_done_at
  mark_shard-get pool p e = rw (e, mark_shard_done_at) (get-insert_self idx _ pool.timestamp)

  mark_shard-none :
      (pool : BufferPool)
      → Map.get idx pool.timestamp ≡ none
      → Map.get idx (mark_shard_done_at idx done pool).timestamp ≡ none
  unfolding mark_shard_done_at
  mark_shard-none pool e = rw (e, mark_shard_done_at) e

  pub mark_send-get :
      (pool : BufferPool) (p : PacketTiming)
      → Map.get idx pool.timestamp ≡ some p
      → Map.get idx (mark_send_sqe_at idx sent pool).timestamp
        ≡ some (record p { send_sqe_at = some sent })
  unfolding mark_send_sqe_at
  mark_send-get pool p e = rw (e, mark_send_sqe_at) (get-insert_self idx _ pool.timestamp)

  mark_send-none :
      (pool : BufferPool)
      → Map.get idx pool.timestamp ≡ none
      → Map.get idx (mark_send_sqe_at idx sent pool).timestamp ≡ none
  unfolding mark_send_sqe_at
  mark_send-none pool e = rw (e, mark_send_sqe_at) e

  -- The pool after a send was submitted, with the live slots `slots`.
  abbrev pub submitted : Map ℕ MsgHdrSlot → BufferPool → BufferPool
  submitted slots pool =
      mark_send_sqe_at idx sent (record (mark_shard_done_at idx done pool) { live_slots = slots })

  -- A packet whose send was submitted has both times, if it has any.
  pub submitted-logged :
      (slots : Map ℕ MsgHdrSlot) (pool : BufferPool)
      → log_times (Map.get idx (submitted slots pool).timestamp) ≡ some tt
  unfolding log_times
  submitted-logged slots pool =
      let marked : BufferPool = record (mark_shard_done_at idx done pool) { live_slots = slots } in
      elim (Option-cases (Map.get idx pool.timestamp)) [
        | inl e ↦ rw (mark_send-none marked (mark_shard-none pool e), log_times)
        | inr (p, e) ↦ rw (mark_send-get marked _ (mark_shard-get pool p e), log_times)
      ]

  pub submitted-memory :
      (slots : Map ℕ MsgHdrSlot) (pool : BufferPool) → (submitted slots pool).memory ≡ pool.memory
  unfolding mark_shard_done_at mark_send_sqe_at
  submitted-memory slots pool = ground arith

  pub mark_shard-memory :
      (pool : BufferPool) → (mark_shard_done_at idx done pool).memory ≡ pool.memory
  unfolding mark_shard_done_at
  mark_shard-memory pool = ground arith

module _ (F : Fifo) (t : Platform) (listen_fd : ℕ) (idx : ℕ) where
  on_sqe-submitted :
      (addr : SocketAddr) (len done sent : ℕ) (w : Relay F) (sq' : F.Q Entry)
      → idx * buffer_size + buffer_size ≤ length w.pool.memory
      → F.enqueue Entry (send_entry listen_fd idx) w.sq ≡ some sq'
      → on_sqe F t listen_fd (addr, len, idx) done sent w
        ≡ some (record w {
          pool =
              submitted idx done sent
                (Map.insert idx
                  (Slot.new t (idx * buffer_size) (some addr))
                  (mark_shard_done_at idx done w.pool).live_slots)
                w.pool;
          sq = sq';
        })
  unfolding on_sqe
  on_sqe-submitted addr len done sent w sq' room pushed =
      let room' : idx * buffer_size + buffer_size
          ≤ length (mark_shard_done_at idx done w.pool).memory =
        rw (mark_shard-memory idx done sent w.pool) room in
      let posted =
        post_send_sqe_lem F t listen_fd len idx addr (mark_shard_done_at idx done w.pool) w.sq sq'
          room' pushed in
      rw posted

  on_release-posted :
      (w : Relay F) (sq' : F.Q Entry)
      → idx * buffer_size + buffer_size ≤ length w.pool.memory
      → F.enqueue Entry (recv_entry listen_fd idx) w.sq ≡ some sq'
      → on_release F t listen_fd idx w
        ≡ some (record w {
          pool = record (w.pool) {
            live_slots = Map.insert idx (Slot.new t (idx * buffer_size) none) w.pool.live_slots;
          };
          sq = sq';
        })
  unfolding on_release
  on_release-posted w sq' room pushed =
      let posted = post_recv_sqe_lem F t listen_fd idx none w.pool w.sq sq' room pushed in rw posted

  pub on_cqe-send :
      (w : Relay F) (c : Cqe) (now now' : ℕ)
      → idx < u16_mod
      → c.user_data ≡ encode_token OpType.send idx
      → on_cqe F t listen_fd c now now' w ≡ on_send F t listen_fd idx c.flags w
  unfolding on_cqe on_op
  on_cqe-send w c now now' h e =
      ap (λ d. on_op F t listen_fd d c now now' w)
        (ap decode_token e ∙ decode_token-encode_token OpType.send idx h)

  pub on_send-more :
      (w : Relay F) (flags : ℕ) → t.more flags ≡ true → on_send F t listen_fd idx flags w ≡ some w
  unfolding on_send
  on_send-more w flags e = rw e

  pub on_send-last :
      (w w' : Relay F) (flags : ℕ)
      → t.more flags ≡ false
      → on_release F t listen_fd idx w ≡ some w'
      → log_times (Map.get idx w'.pool.timestamp) ≡ some tt
      → on_send F t listen_fd idx flags w
        ≡ some
            (record w' { pool = record (w'.pool) { timestamp = Map.remove idx w'.pool.timestamp } })
  unfolding on_send take_recv_for
  on_send-last w w' flags e released logged = rw (e, on_send) (rw released (rw logged))

-- A send that a shard asked for, up to its last completion. Conditions: the buffer's index is a
-- `u16` whose buffer lies in the pool's memory, the submission queue has room for two entries, and
-- two completions carry the send's token, the first announcing another and the second not. Then
-- nothing panics (the two `unwrap`s on the packet's times find them), the first completion changes
-- nothing, the queue has got the send and after it one receive into the same buffer, the buffer's
-- slot is a fresh one for that receive, and the packet's times are forgotten.
pub send_cycle :
    (F : Fifo) (t : Platform) (listen_fd : ℕ) (addr : SocketAddr) (len idx done sent : ℕ)
    (c c' : Cqe) (now now' : ℕ) (w : Relay F)
    → idx < u16_mod
    → idx * buffer_size + buffer_size ≤ length w.pool.memory
    → Room F Entry 2 w.sq
    → c.user_data ≡ encode_token OpType.send idx
    → t.more c.flags ≡ true
    → c'.user_data ≡ encode_token OpType.send idx
    → t.more c'.flags ≡ false
    → (w1 : Relay F) × (w2 : Relay F) × (on_sqe F t listen_fd (addr, len, idx) done sent w
        ≡ some w1)
      × (on_cqe F t listen_fd c now now' w1 ≡ some w1)
      × (on_cqe F t listen_fd c' now now' w1 ≡ some w2)
      × (F.items Entry w2.sq
          ≡ F.items Entry w.sq ++ send_entry listen_fd idx ∷ recv_entry listen_fd idx ∷ [])
      × (Map.get idx w2.pool.live_slots ≡ some (Slot.new t (idx * buffer_size) none))
      × (Map.get idx w2.pool.timestamp ≡ none)
send_cycle F t listen_fd addr len idx done sent c c' now now' w short room queue token more token'
      last =
    let (q1, pushed, rest) = queue (send_entry listen_fd idx) in
    let (q2, pushed', _) = rest (recv_entry listen_fd idx) in
    let slots =
      Map.insert idx (Slot.new t (idx * buffer_size) (some addr))
        (mark_shard_done_at idx done w.pool).live_slots in
    let pool1 : BufferPool = submitted idx done sent slots w.pool in
    let w1 : Relay F = record w { pool = pool1; sq = q1 } in
    let slots2 = Map.insert idx (Slot.new t (idx * buffer_size) none) pool1.live_slots in
    let w' : Relay F = record w { pool = record pool1 { live_slots = slots2 }; sq = q2 } in
    let w2 : Relay F = record w' {
      pool = record (w'.pool) { timestamp = Map.remove idx pool1.timestamp };
    } in
    let room1 : idx * buffer_size + buffer_size ≤ length pool1.memory =
      rw (submitted-memory idx done sent slots w.pool) room in
    let released = on_release-posted F t listen_fd idx w1 q2 room1 pushed' in
    let logged = submitted-logged idx done sent slots w.pool in
    (
      w1,
      w2,
      on_sqe-submitted F t listen_fd idx addr len done sent w q1 room pushed,
      on_cqe-send F t listen_fd idx w1 c now now' short token
          ∙ on_send-more F t listen_fd idx w1 c.flags more,
      on_cqe-send F t listen_fd idx w1 c' now now' short token'
          ∙ on_send-last F t listen_fd idx w1 w' c'.flags last released logged,
      F.items-enqueue Entry (recv_entry listen_fd idx) q1 q2 pushed'
          ∙ ap (λ xs. xs ++ recv_entry listen_fd idx ∷ [])
              (F.items-enqueue Entry (send_entry listen_fd idx) w.sq q1 pushed)
          ∙ append_assoc (F.items Entry w.sq) (send_entry listen_fd idx ∷ [])
              (recv_entry listen_fd idx ∷ []),
      get-insert_self idx (Slot.new t (idx * buffer_size) none) pool1.live_slots,
      get-remove_self idx pool1.timestamp,
    )
