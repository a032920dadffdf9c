-- ===== src/Turn/System/Safe.antt =====
-- The relay from its start, under any schedule.
use p2p_networking.Base.{
  ℕ, zero, suc, ◌≤◌, ◌<◌, ◌≡◌, refl, sym, ◌∙◌, ap, subst, List, [], ◌∷◌, ◌++◌, map, some, true,
  arith, length, All,
}
use p2p_networking.Base.Fail.{◌>>=◌}
use p2p_networking.Base.Fifo.{Fifo, Room}
use p2p_networking.Base.Map.{nat_key}
use p2p_networking.Turn.{MessageType, SqeType, pool_size}
use p2p_networking.Turn.Slot.{Platform}
use p2p_networking.Turn.Pool.{BufferPool, Entry}
use p2p_networking.Turn.Pool.Post.{recv_entry}
use p2p_networking.Turn.Pool.Seed.{countdown}
use p2p_networking.Turn.Router
use p2p_networking.Turn.Router.{ShardRouter}
use p2p_networking.Turn.Router.Balance.{Places, new-Places}
use p2p_networking.Turn.Ring.Start.{default_memory, start_posts_all}
use p2p_networking.Turn.System.{World, Event, run, boot, launch}
use p2p_networking.Turn.System.Tally.{tally, tally-nil, at_entry, at_message, at_send}
use p2p_networking.Turn.System.Moves.{in_queue}
use p2p_networking.Turn.System.Valid.{places, Good, Valid}
use p2p_networking.Turn.System.Steps.{Goes, controls-Goes, runs-Goes, submits-Goes}
use p2p_networking.Turn.System.Sends.{sends-Goes}
use p2p_networking.Turn.System.Completions.{completes-Goes}

-- The receives of the start-up: one for each buffer below `n`.
module _ (listen_fd : ℕ) where
  abbrev pub receives : ℕ → List Entry
  receives n = map (recv_entry listen_fd) (countdown n)

  pub seeded_once :
      (n j : ℕ)
      → (tally (at_entry j) (receives n) ≤ 1) × (n ≤ j → tally (at_entry j) (receives n) ≡ 0)
  unfolding tally at_entry
  seeded_once zero j = (omega arith, λ l. refl)
  seeded_once (suc n) j =
      let (once, none') = seeded_once n j in (ground arith, λ l. ground (arith, none'))

  receives_good : (pool : BufferPool) (n : ℕ) → All (Good pool) (receives n)
  receives_good pool zero = tt
  receives_good pool (suc n) = (record { token = refl; timed = tt }, receives_good pool n)

-- Queues that hold nothing hold no buffer.
pub empty_tally :
    (F : Fifo) (j : ℕ) (senders : List (F.Q MessageType))
    → All (λ q. F.items MessageType q ≡ []) senders
    → tally (in_queue F j) senders ≡ 0
unfolding tally
empty_tally F j [] h = refl
empty_tally F j (q ∷ qs) h =
    let a = ap (tally (at_message j)) h.0 in let b = empty_tally F j qs h.1 in omega (arith, a)

module _ (F : Fifo) (t : Platform) (listen_fd : ℕ) where
  step-Goes : (n : ℕ) (w : World F) (e : Event) → Valid n w → Goes F t listen_fd n w e
  step-Goes n w (Event.controls m) v = controls-Goes F t listen_fd n m w v
  step-Goes n w (Event.runs k uuid) v = runs-Goes F t listen_fd n k uuid w v
  step-Goes n w (Event.sends done sent) v = sends-Goes F t listen_fd n done sent w v
  step-Goes n w Event.submits v = submits-Goes F t listen_fd n w v
  step-Goes n w (Event.completes k result flags src now now') v =
      completes-Goes F t listen_fd n k result flags src now now' w v

  pub run-Valid :
      (n : ℕ) (es : List Event) (w : World F)
      → Valid n w
      → (w' : World F) × (run F t listen_fd es w ≡ some w')
        × Valid n w'
        × ((j : ℕ) → places j w' ≤ places j w)
  unfolding run
  run-Valid n [] w v = (w, refl, v, λ j. omega arith)
  run-Valid n (e ∷ es) w v =
      let (w1, one, v1, less1) = step-Goes n w e v in
      let (w2, more, v2, less2) = run-Valid n es w1 v1 in
      (w2, rw one more, v2, λ j. let a = less1 j in let b = less2 j in omega arith)

  pub launch-Valid :
      (sq : F.Q Entry) (senders : List (F.Q MessageType)) (tx : F.Q SqeType)
      → F.items Entry sq ≡ []
      → Room F Entry pool_size sq
      → 0 < length senders
      → All (λ q. F.items MessageType q ≡ []) senders
      → F.items SqeType tx ≡ []
      → (w : World F) × (launch F t listen_fd (boot sq senders tx) ≡ some w)
        × Valid pool_size w
        × (F.items Entry w.relay.sq ≡ receives listen_fd pool_size)
        × (w.flight ≡ [])
        × (w.relay.router ≡ Router.new F senders)
        × (w.tx ≡ tx)
  unfolding launch boot Router.new
  launch-Valid sq senders tx none' room some_shard idle quiet =
      let w0 : World F = boot sq senders tx in
      let (relay', ran, posted, free, slots, memory, times, router) =
        start_posts_all F t listen_fd true true w0.relay refl room in
      let w : World F = record w0 { relay = relay' } in
      let items : F.Q Entry → List Entry = F.items Entry in
      let held : items relay'.sq ≡ receives listen_fd pool_size =
        posted ∙ ap (λ l. l ++ receives listen_fd pool_size) none' in
      let counts : (j : ℕ) → places j w ≡ tally (at_entry j) (receives listen_fd pool_size) = λ j.
        let a = ap (tally (at_entry j)) held in
        let b = tally-nil (at_entry j) in
        let c =
          ap (λ (r : ShardRouter F). tally (in_queue F j) r.senders) router
          ∙ empty_tally F j senders idle in
        let d = ap (tally (at_send j)) quiet ∙ tally-nil (at_send j) in omega arith in
      (
        w,
        rw ran refl,
        record {
          once = λ j. rw (counts j) (seeded_once listen_fd pool_size j).0;
          small = λ j l. counts j ∙ (seeded_once listen_fd pool_size j).1 l;
          queued =
              subst (All (Good w.relay.pool)) (sym held)
                (receives_good listen_fd w.relay.pool pool_size);
          flying = tt;
          room = rw memory (rw default_memory (omega arith));
          fits = omega arith;
          shards = length senders;
          older = [];
          routed =
              subst (Places F (length senders) []) (sym router) (new-Places F senders some_shard);
        },
        held,
        refl,
        router,
        refl,
      )

-- The relay is started by a kernel that takes the buffers and the submission of the receives, on a
-- submission queue that is empty and has room for POOL_SIZE entries, with at least one shard and
-- nothing in the queues between the parts. Then whatever happens in whatever order (control
-- messages, rounds of the shards, sends, submissions and completions, with any results, sources and
-- times), nothing panics, and each buffer of the pool stands in one place at most: in one entry
-- that the kernel has or will get, in one packet for a shard, or in one send of a shard. No index
-- outside the pool stands anywhere.
pub relay_never_panics :
    (F : Fifo) (t : Platform) (listen_fd : ℕ) (sq : F.Q Entry) (senders : List (F.Q MessageType))
    (tx : F.Q SqeType) (es : List Event)
    → F.items Entry sq ≡ []
    → Room F Entry pool_size sq
    → 0 < length senders
    → All (λ q. F.items MessageType q ≡ []) senders
    → F.items SqeType tx ≡ []
    → (w : World F) × ((launch F t listen_fd (boot sq senders tx) >>= run F t listen_fd es)
        ≡ some w)
      × ((j : ℕ) → places j w ≤ 1)
      × ((j : ℕ) → pool_size ≤ j → places j w ≡ 0)
relay_never_panics F t listen_fd sq senders tx es none' room some_shard idle quiet =
    let (w1, launched, v1, _, _, _, _) =
      launch-Valid F t listen_fd sq senders tx none' room some_shard idle quiet in
    let (w2, ran, v2, _) = run-Valid F t listen_fd pool_size es w1 v1 in
    (w2, ap (λ o. o >>= run F t listen_fd es) launched ∙ ran, v2.once, v2.small)

-- The relay is started as above, and goes through some events. A buffer that then stands nowhere,
-- in no entry that the kernel has or will get, in no packet for a shard and in no send, stands
-- nowhere after any further events either: it never receives again.
pub lost_for_ever :
    (F : Fifo) (t : Platform) (listen_fd : ℕ) (sq : F.Q Entry) (senders : List (F.Q MessageType))
    (tx : F.Q SqeType) (es more : List Event)
    → F.items Entry sq ≡ []
    → Room F Entry pool_size sq
    → 0 < length senders
    → All (λ q. F.items MessageType q ≡ []) senders
    → F.items SqeType tx ≡ []
    → (w : World F) × (w' : World F) × ((launch F t listen_fd (boot sq senders tx)
          >>= run F t listen_fd es)
        ≡ some w)
      × (run F t listen_fd more w ≡ some w')
      × ((j : ℕ) → places j w ≡ 0 → places j w' ≡ 0)
lost_for_ever F t listen_fd sq senders tx es more none' room some_shard idle quiet =
    let (w1, launched, v1, _, _, _, _) =
      launch-Valid F t listen_fd sq senders tx none' room some_shard idle quiet in
    let (w2, ran, v2, _) = run-Valid F t listen_fd pool_size es w1 v1 in
    let (w3, ran', _, less) = run-Valid F t listen_fd pool_size more w2 v2 in
    (
      w2,
      w3,
      ap (λ o. o >>= run F t listen_fd es) launched ∙ ran,
      ran',
      λ j lost. let a = less j in omega arith,
    )
