-- ===== src/FirstImpl/Ring/Cycle.antt =====
-- A packet's way through the loop of the first version.
use p2p_networking.Base.{
  ℕ, ◌+◌, ◌*◌, ◌≤◌, ◌<◌, ◌≡◌, refl, ◌∙◌, ap, List, [], ◌∷◌, ◌++◌, some, none, false, length,
  append_assoc,
}
use p2p_networking.Base.Fifo.{Fifo, Room}
use p2p_networking.Base.Map
use p2p_networking.Base.Map.{nat_key, get-insert_self, get-remove_self}
use p2p_networking.Base.Net.{SocketAddr}
use p2p_networking.Base.Word.{u16_mod}
use p2p_networking.Turn.{buffer_size}
use p2p_networking.Turn.Slot
use p2p_networking.Turn.Slot.{Platform}
use p2p_networking.Turn.Token.{OpType, encode_token, decode_token, decode_token-encode_token}
use p2p_networking.Turn.Pool.{
  BufferPool, Entry, mark_recv_for, mark_shard_done_at, mark_send_sqe_at, take_recv_for,
  get_peer_addr,
}
use p2p_networking.Turn.Pool.Post.{recv_entry, send_entry, post_recv_sqe_lem}
use p2p_networking.Turn.Ring.{Cqe, bytes_of, log_times}
use p2p_networking.Turn.Ring.Timing.{mark_shard-get, mark_shard-memory, mark_send-get}
use p2p_networking.FirstImpl.{Packet, route}
use p2p_networking.FirstImpl.Ring.{
  Loop, completed_of, on_sqe, on_recv, on_release, on_send, on_completed,
}
use p2p_networking.FirstImpl.Ring.Batch.{on_sqe-posts, mark_send-memory}

-- A completion of the operation on the buffer.
completed_of_lem :
    (c : Cqe) (op : OpType) (idx : ℕ)
    → idx < u16_mod
    → c.user_data ≡ encode_token op idx
    → completed_of c ≡ (op, idx, bytes_of c.result, c.flags)
unfolding completed_of
completed_of_lem c op idx l e =
    ap (λ d. (d.0, d.1, bytes_of c.result, c.flags))
      (ap decode_token e ∙ decode_token-encode_token op idx l)

module _ (F : Fifo) (t : Platform) (listen_fd : ℕ) where
  -- The packet of a completed receive.
  abbrev pub packet_of : ℕ → ℕ → BufferPool → Packet
  packet_of idx len pool = record {
    data_at = idx;
    len = len;
    src = get_peer_addr t pool idx;
    buf_idx = idx;
  }

  on_recv-routes :
      (idx len now done : ℕ) (w : Loop F) (q q' : F.Q Packet) (qs : List (F.Q Packet))
      → w.router.senders ≡ q ∷ qs
      → F.enqueue Packet (packet_of idx len w.pool) q ≡ some q'
      → on_recv F t listen_fd idx len now done w
        ≡ some (record w {
          pool = mark_shard_done_at idx done (mark_recv_for idx now w.pool);
          router = record { senders = q' ∷ qs };
        })
  unfolding on_recv mark_recv_for get_peer_addr route
  on_recv-routes idx len now done w q q' qs e put = rw e (rw put refl)

  on_release-posts :
      (idx : ℕ) (w : Loop F) (sq' : F.Q Entry)
      → idx * buffer_size + buffer_size ≤ length w.pool.memory
      → F.enqueue Entry (recv_entry listen_fd idx) w.sq ≡ some sq'
      → on_release F t listen_fd idx w
        ≡ some (record w {
          pool = record (w.pool) {
            live_slots = Map.insert idx (Slot.new t (idx * buffer_size) none) w.pool.live_slots;
          };
          sq = sq';
        })
  unfolding on_release
  on_release-posts idx w sq' h put =
      rw (post_recv_sqe_lem F t listen_fd idx none w.pool w.sq sq' h put) refl

  on_send-last :
      (idx flags : ℕ) (w w' : Loop F)
      → t.more flags ≡ false
      → on_release F t listen_fd idx w ≡ some w'
      → log_times (Map.get idx w'.pool.timestamp) ≡ some tt
      → on_send F t listen_fd idx flags w
        ≡ some
            (record w' { pool = record (w'.pool) { timestamp = Map.remove idx w'.pool.timestamp } })
  unfolding on_send take_recv_for
  on_send-last idx flags w w' e released logged = rw (e, on_send) (rw released (rw logged refl))

  mark_recv-get :
      (idx now : ℕ) (pool : BufferPool)
      → Map.get idx (mark_recv_for idx now pool).timestamp
        ≡ some (record { recv_cqe_at = now; shard_done_at = none; send_sqe_at = none })
  unfolding mark_recv_for
  mark_recv-get idx now pool = get-insert_self idx _ pool.timestamp

  mark_recv-memory :
      (idx now : ℕ) (pool : BufferPool) → (mark_recv_for idx now pool).memory ≡ pool.memory
  unfolding mark_recv_for
  mark_recv-memory idx now pool = refl

  -- A packet that is received into a buffer of the memory goes to the shard of the first channel,
  -- which has room for it, with the source address that its slot names. If the loop then takes a
  -- send of that buffer, and the kernel completes it with nothing more to come, no step panics: the
  -- times that the completion unwraps are there. The send and then a fresh receive of the buffer
  -- are submitted, and no time of the packet is kept.
  pub packet_cycle :
      (idx now done sent now' done' : ℕ) (c c' : Cqe) (dst : SocketAddr) (len : ℕ) (w : Loop F)
      (q : F.Q Packet) (qs : List (F.Q Packet))
      → idx < u16_mod
      → idx * buffer_size + buffer_size ≤ length w.pool.memory
      → c.user_data ≡ encode_token OpType.recv idx
      → w.router.senders ≡ q ∷ qs
      → Room F Packet 1 q
      → Room F Entry 2 w.sq
      → c'.user_data ≡ encode_token OpType.send idx
      → t.more c'.flags ≡ false
      → (w1 : Loop F) × (w2 : Loop F) × (w3 : Loop F) × (q' : F.Q Packet) × (on_completed F t
            listen_fd
            (completed_of c)
            now
            done
            w
          ≡ some w1)
        × (w1.router.senders ≡ q' ∷ qs)
        × (F.items Packet q' ≡ F.items Packet q ++ packet_of idx (bytes_of c.result) w.pool ∷ [])
        × (on_sqe F t listen_fd (dst, len, idx) sent w1 ≡ some w2)
        × (on_completed F t listen_fd (completed_of c') now' done' w2 ≡ some w3)
        × (F.items Entry w3.sq
            ≡ F.items Entry w.sq ++ send_entry listen_fd idx ∷ recv_entry listen_fd idx ∷ [])
        × (Map.get idx w3.pool.timestamp ≡ none)
  unfolding on_completed log_times
  packet_cycle idx now done sent now' done' c c' dst len w q qs short room token senders space queue
        token' last =
      let p : Packet = packet_of idx (bytes_of c.result) w.pool in
      let (q', put, _) = space p in
      let (sq1, pushed, more) = queue (send_entry listen_fd idx) in
      let (sq2, pushed', _) = more (recv_entry listen_fd idx) in
      let received : BufferPool = mark_recv_for idx now w.pool in
      let pool1 : BufferPool = mark_shard_done_at idx done received in
      let w1 : Loop F = record w { pool = pool1; router = record { senders = q' ∷ qs } } in
      let memory1 : pool1.memory ≡ w.pool.memory =
        mark_shard-memory idx done sent received ∙ mark_recv-memory idx now w.pool in
      let room1 : idx * buffer_size + buffer_size ≤ length pool1.memory = rw memory1 room in
      let slotted : BufferPool = record pool1 {
        live_slots = Map.insert idx (Slot.new t (idx * buffer_size) (some dst)) pool1.live_slots;
      } in
      let pool2 : BufferPool = mark_send_sqe_at idx sent slotted in
      let w2 : Loop F = record w1 { pool = pool2; sq = sq1 } in
      let room2 : idx * buffer_size + buffer_size ≤ length pool2.memory =
        rw (mark_send-memory idx sent slotted) room1 in
      let w' : Loop F = record w2 {
        pool = record pool2 {
          live_slots = Map.insert idx (Slot.new t (idx * buffer_size) none) pool2.live_slots;
        };
        sq = sq2;
      } in
      let w3 : Loop F = record w' {
        pool = record (w'.pool) { timestamp = Map.remove idx pool2.timestamp };
      } in
      let times =
        mark_send-get idx done sent slotted _
          (mark_shard-get idx done sent received _ (mark_recv-get idx now w.pool)) in
      let first = completed_of_lem c OpType.recv idx short token in
      let final = completed_of_lem c' OpType.send idx short token' in
      (
        w1,
        w2,
        w3,
        q',
        rw first (on_recv-routes idx (bytes_of c.result) now done w q q' qs senders put),
        refl,
        F.items-enqueue Packet p q q' put,
        on_sqe-posts F t listen_fd (dst, len, idx) sent w1 sq1 room1 pushed,
        rw final (
            on_send-last idx c'.flags w2 w' last (on_release-posts idx w2 sq2 room2 pushed')
              (ap log_times times)),
        F.items-enqueue Entry (recv_entry listen_fd idx) sq1 sq2 pushed'
            ∙ ap (λ l. l ++ recv_entry listen_fd idx ∷ [])
                (F.items-enqueue Entry (send_entry listen_fd idx) w.sq sq1 pushed)
            ∙ append_assoc (F.items Entry w.sq) (send_entry listen_fd idx ∷ [])
                (recv_entry listen_fd idx ∷ []),
        get-remove_self idx pool2.timestamp,
      )
