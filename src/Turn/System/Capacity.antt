-- ===== src/Turn/System/Capacity.antt =====
-- How much the queues of the relay can hold at once.
use p2p_networking.Base.{
  ℕ, zero, suc, ◌+◌, ◌≤◌, ◌<◌, ◌≡◌, refl, ◌∙◌, ap, List, [], ◌∷◌, some, arith, length, All, leb,
  ◌==◌, if◌then◌else◌, dec_lt,
}
use p2p_networking.Base.Fail.{◌>>=◌}
use p2p_networking.Base.Fifo.{Fifo, Room}
use p2p_networking.Turn.{MessageType, SqeType, pool_size}
use p2p_networking.Turn.Slot.{Platform}
use p2p_networking.Turn.Pool.{Entry}
use p2p_networking.Turn.System.{World, Event, run, boot, launch}
use p2p_networking.Turn.System.Tally.{tally, at_entry, at_message, at_send}
use p2p_networking.Turn.System.Moves.{in_queue}
use p2p_networking.Turn.System.Valid.{places, Valid}
use p2p_networking.Turn.System.Safe.{launch-Valid, run-Valid}

-- g 0 + … + g (n - 1)
sum_below : ℕ → (ℕ → ℕ) → ℕ
sum_below zero g = 0
sum_below (suc n) g = g n + sum_below n g

sum_below-le : (n : ℕ) (g : ℕ → ℕ) → ((j : ℕ) → g j ≤ 1) → sum_below n g ≤ n
unfolding sum_below
sum_below-le zero g h = omega arith
sum_below-le (suc n) g h = let a = h n in omega (arith, sum_below-le n g h)

sum_below-add : (n : ℕ) (f g : ℕ → ℕ) → sum_below n (λ j. f j + g j) ≡ sum_below n f + sum_below n g
unfolding sum_below
sum_below-add zero f g = omega arith
sum_below-add (suc n) f g = omega (arith, sum_below-add n f g)

sum_below_none : (n : ℕ) → sum_below n (λ j. 0) ≡ 0
unfolding sum_below
sum_below_none zero = refl
sum_below_none (suc n) = omega (arith, sum_below_none n)

-- The one place of `idx`.
sum_below_one :
    (n idx : ℕ) → sum_below n (λ j. if idx == j then 1 else 0) ≡ (if leb n idx then 0 else 1)
unfolding sum_below
sum_below_one zero idx = ground arith
sum_below_one (suc n) idx = ground (arith, sum_below_one n idx)

-- A list in which each element has places below `n` only, which come to its size.
module _ {ℓ} {A : Type ℓ} (n : ℕ) (at : ℕ → A → ℕ) (size : A → ℕ)
    (each : (x : A) → ((j : ℕ) → n ≤ j → at j x ≡ 0) → sum_below n (λ j. at j x) ≡ size x) where
  sum_tally :
      (l : List A)
      → ((j : ℕ) → n ≤ j → tally (at j) l ≡ 0)
      → sum_below n (λ j. tally (at j) l) ≡ tally size l
  unfolding tally
  sum_tally [] h = sum_below_none n
  sum_tally (x ∷ xs) h =
      let first = each x (λ j l. let a = h j l in omega arith) in
      let others = sum_tally xs (λ j l. let a = h j l in omega arith) in
      omega (arith, sum_below-add n (λ j. at j x) (λ j. tally (at j) xs))

tally_ones {ℓ} : {A : Type ℓ} (l : List A) → tally (λ x. 1) l ≡ length l
unfolding tally
tally_ones [] = refl
tally_ones (x ∷ xs) = omega (arith, tally_ones xs)

-- The number of packets in a shard's queue; a session is none.
abbrev pub packet_count : MessageType → ℕ
packet_count (MessageType.add_session x) = 0
packet_count (MessageType.transmit p) = 1

abbrev pub packets : (F : Fifo) → F.Q MessageType → ℕ
packets F q = tally packet_count (F.items MessageType q)

one_place :
    (n idx : ℕ)
    → ((j : ℕ) → n ≤ j → ◌≡◌ {A = ℕ} (if idx == j then 1 else 0) 0)
    → sum_below n (λ j. if idx == j then 1 else 0) ≡ 1
one_place n idx h = elim (dec_lt idx n) [
  | yes l ↦ sum_below_one n idx ∙ ground arith
  | no l ↦ let a = h idx (omega arith) in absurd (ground arith)
]

entry_place :
    (n : ℕ) (e : Entry) → ((j : ℕ) → n ≤ j → at_entry j e ≡ 0) → sum_below n (λ j. at_entry j e) ≡ 1
unfolding at_entry
entry_place n e h = one_place n e.msghdr h

message_place :
    (n : ℕ) (m : MessageType)
    → ((j : ℕ) → n ≤ j → at_message j m ≡ 0)
    → sum_below n (λ j. at_message j m) ≡ packet_count m
unfolding at_message
message_place n (MessageType.add_session x) h = sum_below_none n
message_place n (MessageType.transmit p) h = one_place n p.buf_idx h

send_place :
    (n : ℕ) (m : SqeType) → ((j : ℕ) → n ≤ j → at_send j m ≡ 0) → sum_below n (λ j. at_send j m) ≡ 1
unfolding at_send
send_place n (addr, len, idx) h = one_place n idx h

module _ (F : Fifo) where
  queue_places :
      (n : ℕ) (q : F.Q MessageType)
      → ((j : ℕ) → n ≤ j → in_queue F j q ≡ 0)
      → sum_below n (λ j. in_queue F j q) ≡ packets F q
  queue_places n q = sum_tally n at_message packet_count (message_place n) (F.items MessageType q)

  -- What the queues hold and the kernel has, all together.
  abbrev pub held : World F → ℕ
  held w =
      length (F.items Entry w.relay.sq)
      + length w.flight
      + tally (packets F) w.relay.router.senders
      + length (F.items SqeType w.tx)

  pub held-le : (n : ℕ) (w : World F) → Valid n w → held w ≤ n
  held-le n w v =
      let queue : List Entry = F.items Entry w.relay.sq in
      let txs : List SqeType = F.items SqeType w.tx in
      let in_sq : ℕ → ℕ = λ j. tally (at_entry j) queue in
      let in_flight : ℕ → ℕ = λ j. tally (at_entry j) w.flight in
      let in_senders : ℕ → ℕ = λ j. tally (in_queue F j) w.relay.router.senders in
      let in_tx : ℕ → ℕ = λ j. tally (at_send j) txs in
      let a =
        sum_tally n at_entry (λ e. 1) (entry_place n) queue
          (λ j l. let z = v.small j l in omega arith) in
      let b =
        sum_tally n at_entry (λ e. 1) (entry_place n) w.flight
          (λ j l. let z = v.small j l in omega arith) in
      let c =
        sum_tally n (in_queue F) (packets F) (queue_places n) w.relay.router.senders
          (λ j l. let z = v.small j l in omega arith) in
      let d =
        sum_tally n at_send (λ m. 1) (send_place n) txs
          (λ j l. let z = v.small j l in omega arith) in
      let ab = sum_below-add n in_sq in_flight in
      let abc = sum_below-add n (λ j. in_sq j + in_flight j) in_senders in
      let abcd = sum_below-add n (λ j. in_sq j + in_flight j + in_senders j) in_tx in
      let total = sum_below-le n (λ j. places j w) v.once in
      let la = tally_ones queue in
      let lb = tally_ones w.flight in let ld = tally_ones txs in omega arith

  -- The relay is started as above. Then after any events in any order, the submission queue, the
  -- kernel, the shards' queues (their packets) and the queue of sends hold POOL_SIZE entries
  -- altogether at most.
  pub relay_queues_bounded :
      (t : Platform) (listen_fd : ℕ) (sq : F.Q Entry) (senders : List (F.Q MessageType))
      (tx : F.Q SqeType) (es : List Event)
      → F.items Entry sq ≡ []
      → Room F Entry pool_size sq
      → 0 < length senders
      → All (λ q. F.items MessageType q ≡ []) senders
      → F.items SqeType tx ≡ []
      → (w : World F) × ((launch F t listen_fd (boot sq senders tx) >>= run F t listen_fd es)
          ≡ some w)
        × (held w ≤ pool_size)
  relay_queues_bounded t listen_fd sq senders tx es none' room some_shard idle quiet =
      let (w1, launched, v1, _, _, _, _) =
        launch-Valid F t listen_fd sq senders tx none' room some_shard idle quiet in
      let (w2, ran, v2, _) = run-Valid F t listen_fd pool_size es w1 v1 in
      (w2, ap (λ o. o >>= run F t listen_fd es) launched ∙ ran, held-le pool_size w2 v2)
