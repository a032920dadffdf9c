-- ===== src/Turn/Pool/Seed.antt =====
-- Start-up: every buffer is registered, and a receive is posted for each.
use p2p_networking.Base.{
  ℕ, zero, suc, ◌+◌, ◌*◌, ◌%◌, ◌≤◌, ◌<◌, ◌≡◌, refl, sym, ◌∙◌, ap, ap₂, subst, List, [], ◌∷◌, ◌++◌,
  map, none, some, true, length, range, arith, append_assoc, append-nil, dec_lt,
}
use p2p_networking.Base.Fail.{◌>>=◌}
use p2p_networking.Base.Fifo.{Fifo, Room}
use p2p_networking.Base.Map
use p2p_networking.Base.Map.{Map, nat_key, get-insert_self, get-insert_ne}
use p2p_networking.Base.Word.{u16_mod}
use p2p_networking.Turn.{buffer_size}
use p2p_networking.Turn.Slot
use p2p_networking.Turn.Slot.{Platform, MsgHdrSlot}
use p2p_networking.Turn.Pool.Post.{recv_entry, slice_mut_lem, post_recv_sqe_lem}
use p2p_networking.Turn.Pool.{
  BufferPool, Entry, pop, acquire, seed, register_from, register_buffer_kernel,
}

-- n - 1, …, 1, 0
abbrev pub countdown : ℕ → List ℕ
countdown zero = []
countdown (suc n) = n ∷ countdown n

pop-append {ℓ} : {A : Type ℓ} (xs : List A) (x : A) → pop (xs ++ x ∷ []) ≡ some (x, xs)
unfolding pop
pop-append [] x = refl
pop-append (y ∷ xs) x = rw (pop-append xs x)

register_from_lem :
    (n i : ℕ) (pool : BufferPool)
    → (i + n) * buffer_size ≤ length pool.memory
    → i + n ≤ u16_mod
    → pool.free_list ≡ range i
    → register_from n i pool ≡ some (record pool { free_list = range (i + n) })
unfolding register_from
register_from_lem zero i pool h fits e =
    let count : i ≡ i + 0 = omega arith in
    let same : pool.free_list ≡ range (i + 0) = e ∙ ap range count in
    ap (λ l. some (record pool { free_list = l })) same
register_from_lem (suc n) i pool h fits e =
    let one_more : pool.free_list ++ (i % u16_mod) ∷ [] ≡ range (suc i) =
      ap₂ (λ l x. l ++ x ∷ []) e (omega arith) in
    let count : suc i + n ≡ i + suc n = omega arith in
    rw (slice_mut_lem pool i (omega arith)) (
      register_from_lem n (suc i) (record pool { free_list = pool.free_list ++ (i % u16_mod) ∷ [] })
        (omega arith) (omega arith) one_more
      ∙ ap (λ j. some (record pool { free_list = range j })) count)

register_buffer_kernel_lem :
    (n : ℕ) (pool : BufferPool)
    → n * buffer_size ≤ length pool.memory
    → n ≤ u16_mod
    → pool.free_list ≡ []
    → register_buffer_kernel n true pool
      ≡ some (record pool { free_list = range n; registered = true })
unfolding register_buffer_kernel
register_buffer_kernel_lem n pool h fits e =
    let count : 0 + n ≡ n = omega arith in
    rw (register_from_lem n 0 pool (omega arith) (omega arith) e)
      (ap (λ j. some (record pool { free_list = range j; registered = true })) count)

module _ (F : Fifo) (t : Platform) (listen_fd : ℕ) where
  acquire_lem :
      (n : ℕ) (pool : BufferPool)
      → pool.free_list ≡ range (suc n)
      → acquire pool ≡ some (n, record pool { free_list = range n })
  unfolding acquire
  acquire_lem n pool e =
      let last : pop pool.free_list ≡ some (n, range n) = ap pop e ∙ pop-append (range n) n in
      rw (last, acquire)

  seed_step :
      (n : ℕ) (pool : BufferPool) (sq sq' : F.Q Entry)
      → suc n * buffer_size ≤ length pool.memory
      → pool.free_list ≡ range (suc n)
      → F.enqueue Entry (recv_entry listen_fd n) sq ≡ some sq'
      → seed F t listen_fd (suc n) pool sq
        ≡ seed F t listen_fd n
            (record pool {
              free_list = range n;
              live_slots = Map.insert n (Slot.new t (n * buffer_size) none) pool.live_slots;
            })
            sq'
  unfolding seed
  seed_step n pool sq sq' h e pushed =
      let posted =
        post_recv_sqe_lem F t listen_fd n none (record pool { free_list = range n }) sq sq'
          (omega arith) pushed in
      rw (acquire_lem n pool e, seed) (rw posted)

  -- What the loop leaves behind.
  record Seeded (n : ℕ) (pool : BufferPool) (sq : F.Q Entry) (pool' : BufferPool) (sq' : F.Q Entry)
      : Type 0 where
    free : pool'.free_list ≡ []
    posted : F.items Entry sq' ≡ F.items Entry sq ++ map (recv_entry listen_fd) (countdown n)
    slots : (i : ℕ) → i < n → Map.get i pool'.live_slots ≡ some (Slot.new t (i * buffer_size) none)
    others : (i : ℕ) → n ≤ i → Map.get i pool'.live_slots ≡ Map.get i pool.live_slots
    memory : pool'.memory ≡ pool.memory
    times : pool'.timestamp ≡ pool.timestamp

  seed_lem :
      (n : ℕ) (pool : BufferPool) (sq : F.Q Entry)
      → n * buffer_size ≤ length pool.memory
      → pool.free_list ≡ range n
      → Room F Entry n sq
      → (pool' : BufferPool) × (sq' : F.Q Entry) × (seed F t listen_fd n pool sq
          ≡ some (pool', sq'))
        × Seeded n pool sq pool' sq'
  unfolding seed
  seed_lem zero pool sq h e room = (
    pool,
    sq,
    refl,
    record {
      free = e;
      posted = sym (append-nil _);
      slots = λ i l. absurd (omega arith);
      others = λ i l. refl;
      memory = refl;
      times = refl;
    },
  )
  seed_lem (suc n) pool sq h e room =
      let (sq1, pushed, room') = room (recv_entry listen_fd n) in
      let pool1 : BufferPool = record pool {
        free_list = range n;
        live_slots = Map.insert n (Slot.new t (n * buffer_size) none) pool.live_slots;
      } in
      let (pool', sq', ran, s) = seed_lem n pool1 sq1 (omega arith) refl room' in
      (
        pool',
        sq',
        seed_step n pool sq sq1 (omega arith) e pushed ∙ ran,
        record {
          free = s.free;
          posted =
              s.posted
              ∙ ap (λ l. l ++ map (recv_entry listen_fd) (countdown n))
                  (F.items-enqueue Entry (recv_entry listen_fd n) sq sq1 pushed)
              ∙ append_assoc (F.items Entry sq) (recv_entry listen_fd n ∷ [])
                  (map (recv_entry listen_fd) (countdown n));
          slots = λ i l. elim (dec_lt i n) [
            | yes x ↦ s.slots i x
            | no x ↦
                s.others i (omega arith)
                ∙ subst (λ j. Map.get j pool1.live_slots ≡ some (Slot.new t (j * buffer_size) none))
                    (omega arith) (get-insert_self n _ pool.live_slots)
          ];
          others = λ i l.
              s.others i (omega arith) ∙ get-insert_ne n i _ pool.live_slots (λ x. omega arith);
          memory = s.memory;
          times = s.times;
        },
      )

-- A pool of n buffers, n at most 2 ^ 16, whose memory has room for all of them and whose free list
-- is empty, registered with the kernel and seeded on a submission queue with room for n entries:
-- nothing panics, one receive is posted for each buffer, the last buffer first and none twice, the
-- free list is empty again, each buffer's live slot points at its own part of the memory, and the
-- memory and the packets' times are as before.
pub seed_posts_all :
    (F : Fifo) (t : Platform) (listen_fd n : ℕ) (pool : BufferPool) (sq : F.Q Entry)
    → n * buffer_size ≤ length pool.memory
    → n ≤ u16_mod
    → pool.free_list ≡ []
    → Room F Entry n sq
    → (pool' : BufferPool) × (sq' : F.Q Entry) × ((register_buffer_kernel n true pool >>= λ p.
          seed F t listen_fd n p sq)
        ≡ some (pool', sq'))
      × (F.items Entry sq' ≡ F.items Entry sq ++ map (recv_entry listen_fd) (countdown n))
      × (pool'.free_list ≡ [])
      × ((i : ℕ) → i < n → Map.get i pool'.live_slots ≡ some (Slot.new t (i * buffer_size) none))
      × (pool'.memory ≡ pool.memory)
      × (pool'.timestamp ≡ pool.timestamp)
seed_posts_all F t listen_fd n pool sq h fits e room =
    let ready : BufferPool = record pool { free_list = range n; registered = true } in
    let (pool', sq', ran, s) = seed_lem F t listen_fd n ready sq h refl room in
    (
      pool',
      sq',
      rw (register_buffer_kernel_lem n pool h fits e) ran,
      s.posted,
      s.free,
      s.slots,
      s.memory,
      s.times,
    )
