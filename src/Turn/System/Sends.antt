-- ===== src/Turn/System/Sends.antt =====
-- The step in which the loop submits a send of a shard keeps `Valid`.
use p2p_networking.Base.{
  ℕ, ◌+◌, ◌*◌, ◌≤◌, ◌≡◌, ◌≢◌, refl, ◌∙◌, ap, ◌∷◌, some, inl, inr, arith, length, Option-cases,
}
use p2p_networking.Base.Fifo.{Fifo}
use p2p_networking.Base.Map
use p2p_networking.Base.Map.{nat_key}
use p2p_networking.Base.Net.{SocketAddr}
use p2p_networking.Turn.{SqeType, buffer_size}
use p2p_networking.Turn.Slot
use p2p_networking.Turn.Slot.{Platform}
use p2p_networking.Turn.Pool.{Entry, push_entry, mark_shard_done_at}
use p2p_networking.Turn.Pool.Post.{send_entry}
use p2p_networking.Turn.Ring.Timing.{submitted, submitted-logged, submitted-memory}
use p2p_networking.Turn.System.{World, Event, step}
use p2p_networking.Turn.System.Tally.{
  tally, tally-cons, at_entry, at_send, tally-push_entry, All-push_entry,
}
use p2p_networking.Turn.System.Moves.{in_sends}
use p2p_networking.Turn.System.Handlers.{submitted-others, on_sqe-posts}
use p2p_networking.Turn.System.Valid.{places, Good, Valid, Good-others, slice_room}
use p2p_networking.Turn.System.Steps.{Goes, few, far, standing}

module _ (F : Fifo) (t : Platform) (listen_fd n : ℕ) where
  at_send-entry :
      (j idx len : ℕ) (addr : SocketAddr)
      → at_entry j (send_entry listen_fd idx) ≡ at_send j (addr, len, idx)
  unfolding at_entry at_send
  at_send-entry j idx len addr = refl

  at_send_self : (idx len : ℕ) (addr : SocketAddr) → at_send idx (addr, len, idx) ≡ 1
  unfolding at_send
  at_send_self idx len addr = ground arith

  -- The world after the loop submitted a send.
  abbrev sent_world : SocketAddr → ℕ → ℕ → ℕ → ℕ → F.Q SqeType → World F → World F
  sent_world addr len idx done sent tx' w =
      let slots =
        Map.insert idx (Slot.new t (idx * buffer_size) (some addr))
          (mark_shard_done_at idx done w.relay.pool).live_slots in
      record w {
        relay = record (w.relay) {
          pool = submitted idx done sent slots w.relay.pool;
          sq = push_entry F (send_entry listen_fd idx) w.relay.sq;
        };
        tx = tx';
      }

  sends-Valid :
      (addr : SocketAddr) (len idx done sent : ℕ) (tx' : F.Q SqeType) (w : World F)
      → Valid n w
      → F.items SqeType w.tx ≡ (addr, len, idx) ∷ F.items SqeType tx'
      → Valid n (sent_world addr len idx done sent tx' w)
        × ((j : ℕ) → places j (sent_world addr len idx done sent tx' w) ≤ places j w)
  sends-Valid addr len idx done sent tx' w v taken =
      let w' = sent_world addr len idx done sent tx' w in
      let pool' = w'.relay.pool in
      let e = send_entry listen_fd idx in
      let held : (j : ℕ) → in_sends F j w.tx ≡ at_send j (addr, len, idx) + in_sends F j tx' = λ j.
        ap (tally (at_send j)) taken
        ∙ tally-cons (at_send j) (addr, len, idx) (F.items SqeType tx') in
      let less : (j : ℕ) → places j w' ≤ places j w = λ j.
        let a = tally-push_entry F (at_entry j) e w.relay.sq in
        let b = at_send-entry j idx len addr in let c = held j in omega arith in
      let mine = at_send_self idx len addr in
      let there = held idx in
      let alone = v.once idx in
      let slots =
        Map.insert idx (Slot.new t (idx * buffer_size) (some addr))
          (mark_shard_done_at idx done w.relay.pool).live_slots in
      let same = λ (j : ℕ) (o : idx ≢ j). submitted-others idx j o done sent slots w.relay.pool in
      (
        record {
          once = few F t listen_fd n w w' v less;
          small = far F t listen_fd n w w' v less;
          queued =
              All-push_entry F (Good pool') e w.relay.sq
                (Good-others idx w.relay.pool pool' (F.items Entry w.relay.sq) same (omega arith)
                  v.queued)
                (record {
                  token = refl;
                  timed = submitted-logged idx done sent slots w.relay.pool;
                });
          flying = Good-others idx w.relay.pool pool' w.flight same (omega arith) v.flying;
          room = rw (submitted-memory idx done sent slots w.relay.pool) v.room;
          fits = v.fits;
          shards = v.shards;
          older = v.older;
          routed = v.routed;
        },
        less,
      )

  -- The loop submits a send of a shard.
  pub sends-Goes :
      (done sent : ℕ) (w : World F) → Valid n w → Goes F t listen_fd n w (Event.sends done sent)
  unfolding step
  sends-Goes done sent w v = elim (Option-cases (F.dequeue SqeType w.tx)) [
    | inl e ↦ (w, rw (e, step) refl, v, λ j. omega arith)
    | inr (((addr, len, idx), tx'), e) ↦
        let taken = F.dequeue-some SqeType w.tx tx' (addr, len, idx) e in
        let held =
          ap (tally (at_send idx)) taken
          ∙ tally-cons (at_send idx) (addr, len, idx) (F.items SqeType tx') in
        let mine = at_send_self idx len addr in
        let below = standing F t listen_fd n idx w v (omega arith) in
        let posted =
          on_sqe-posts F t listen_fd idx addr len done sent w.relay
            (slice_room n idx (length w.relay.pool.memory) v.room below) in
        (
          sent_world addr len idx done sent tx' w,
          rw (e, step) (rw posted refl),
          (sends-Valid addr len idx done sent tx' w v taken).0,
          (sends-Valid addr len idx done sent tx' w v taken).1,
        )
  ]
