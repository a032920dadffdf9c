-- ===== src/Turn/System/Steps.antt =====
-- The steps of the loop's input side, of the shards and of the kernel's intake keep `Valid`.
use p2p_networking.Base.{
  ℕ, ◌≤◌, ◌<◌, ◌≡◌, refl, ◌∙◌, ap, subst, List, [], ◌∷◌, ◌++◌, some, inl, inr, arith, All,
  All-append, Option-cases, get_elem?, dec_lt,
}
use p2p_networking.Base.Fail.{>>=-eq-some}
use p2p_networking.Base.Fifo.{Fifo}
use p2p_networking.Base.Map.{nat_key}
use p2p_networking.Turn.{MessageType, Session}
use p2p_networking.Turn.Slot.{Platform}
use p2p_networking.Turn.Pool.{Entry}
use p2p_networking.Turn.Shard.{Shard, run_once}
use p2p_networking.Turn.Router.{ShardRouter, on_control}
use p2p_networking.Turn.Router.Balance.{Places, on_control-Places, length-set}
use p2p_networking.Turn.Ring.{on_control_msg}
use p2p_networking.Turn.System.{World, Event, step, shard_at, put_shard}
use p2p_networking.Turn.System.Tally.{
  tally, tally-nil, tally-cons, tally-append, tally-set, at_entry,
}
use p2p_networking.Turn.System.Moves.{in_queue, in_sends, run_once-tally, on_control-tally}
use p2p_networking.Turn.System.Valid.{places, Good, Valid}

some_eq {ℓ} : {A : Type ℓ} {a b : A} → some a ≡ some b → a ≡ b
some_eq h = cc

module _ (F : Fifo) (t : Platform) (listen_fd n : ℕ) where
  -- The event does not panic, keeps `Valid`, and brings no buffer into more places.
  abbrev pub Goes : World F → Event → Type 0
  Goes w e =
      (w' : World F) × (step F t listen_fd w e ≡ some w')
      × Valid n w'
      × ((j : ℕ) → places j w' ≤ places j w)

  -- If no buffer is in more places than before, none is in two.
  pub few :
      (w w' : World F)
      → Valid n w
      → ((j : ℕ) → places j w' ≤ places j w)
      → (j : ℕ) → places j w' ≤ 1
  few w w' v h j = let a = h j in let b = v.once j in omega arith

  pub far :
      (w w' : World F)
      → Valid n w
      → ((j : ℕ) → places j w' ≤ places j w)
      → (j : ℕ) → n ≤ j
      → places j w' ≡ 0
  far w w' v h j l = let a = h j in let b = v.small j l in omega arith

  control_router :
      (m : MessageType) (shards : ℕ) (older : List Session) (r : ShardRouter F)
      → Places F shards older r
      → (r' : ShardRouter F) × (on_control F r m ≡ some r')
        × ((older' : List Session) × Places F shards older' r')
  unfolding on_control
  control_router (MessageType.transmit p) shards older r h = (r, refl, (older, h))
  control_router (MessageType.add_session x) shards older r h =
      let (r', e, h') = on_control-Places F shards older r x h in (r', e, (x ∷ older, h'))

  pub controls-Goes : (m : MessageType) (w : World F) → Valid n w → Goes w (Event.controls m)
  unfolding step on_control_msg
  controls-Goes m w v =
      let (r', e, (older', places')) = control_router m v.shards v.older w.relay.router v.routed in
      let w' : World F = record w { relay = record (w.relay) { router = r' } } in
      let less : (j : ℕ) → places j w' ≤ places j w =
        λ j. let moved = on_control-tally F j m w.relay.router r' e in omega arith in
      (
        w',
        rw e refl,
        record {
          once = few w w' v less;
          small = far w w' v less;
          queued = v.queued;
          flying = v.flying;
          room = v.room;
          fits = v.fits;
          shards = v.shards;
          older = older';
          routed = places';
        },
        less,
      )

  -- The kernel takes an entry from the queue.
  pub submits-Goes : (w : World F) → Valid n w → Goes w Event.submits
  unfolding step
  submits-Goes w v = elim (Option-cases (F.dequeue Entry w.relay.sq)) [
    | inl e ↦ (w, rw (e, step) refl, v, λ j. omega arith)
    | inr ((x, sq'), e) ↦
        let w' : World F = record w {
          relay = record (w.relay) { sq = sq' };
          flight = w.flight ++ x ∷ [];
        } in
        let taken = F.dequeue-some Entry w.relay.sq sq' x e in
        let same : (j : ℕ) → places j w' ≤ places j w = λ j.
          let a = ap (tally (at_entry j)) taken in
          let b = tally-cons (at_entry j) x (F.items Entry sq') in
          let c = tally-append (at_entry j) w.flight (x ∷ []) in
          let d = tally-cons (at_entry j) x [] in
          let none' = tally-nil (at_entry j) in omega arith in
        let good : All (Good w.relay.pool) (x ∷ F.items Entry sq') =
          subst (All (Good w.relay.pool)) taken v.queued in
        (
          w',
          rw (e, step) refl,
          record {
            once = few w w' v same;
            small = far w w' v same;
            queued = good.1;
            flying = All-append (Good w.relay.pool) w.flight (x ∷ []) v.flying (good.0, tt);
            room = v.room;
            fits = v.fits;
            shards = v.shards;
            older = v.older;
            routed = v.routed;
          },
          same,
        )
  ]

  shard_at-parts :
      (k : ℕ) (w : World F) (s : Shard F)
      → shard_at F k w ≡ some s
      → (get_elem? w.relay.router.senders k ≡ some s.recv) × (w.tx ≡ s.tx_out)
  unfolding shard_at
  shard_at-parts k w s h =
      let (recv, e, h1) = >>=-eq-some (get_elem? w.relay.router.senders k) _ h in
      let (tables, _, h2) = >>=-eq-some (get_elem? w.shards k) _ h1 in
      let same = some_eq h2 in
      (e ∙ ap (λ (x : Shard F). some x.recv) same, ap (λ (x : Shard F). x.tx_out) same)

  -- A shard goes round its loop.
  pub runs-Goes : (k uuid : ℕ) (w : World F) → Valid n w → Goes w (Event.runs k uuid)
  unfolding step put_shard
  runs-Goes k uuid w v = elim (Option-cases (shard_at F k w)) [
    | inl e ↦ (w, rw (e, step) refl, v, λ j. omega arith)
    | inr (s, e) ↦
        let s' = run_once F uuid s in
        let w' : World F = put_shard F k s' w in
        let (recv, tx) = shard_at-parts k w s e in
        let less : (j : ℕ) → places j w' ≤ places j w = λ j.
          let a = tally-set (in_queue F j) w.relay.router.senders k s.recv s'.recv recv in
          let b = run_once-tally F j uuid s in let c = ap (in_sends F j) tx in omega arith in
        (
          w',
          rw (e, step) refl,
          record {
            once = few w w' v less;
            small = far w w' v less;
            queued = v.queued;
            flying = v.flying;
            room = v.room;
            fits = v.fits;
            shards = v.shards;
            older = v.older;
            routed = record {
              some_shard = v.routed.some_shard;
              shards = length-set w.relay.router.senders k s'.recv ∙ v.routed.shards;
              turn = v.routed.turn;
              placing = v.routed.placing;
            };
          },
          less,
        )
  ]

  -- A buffer that stands somewhere is one of the pool's.
  pub standing : (j : ℕ) (w : World F) → Valid n w → 1 ≤ places j w → j < n
  standing j w v h = elim (dec_lt j n) [
    | yes l ↦ l
    | no l ↦ let nowhere = v.small j (omega arith) in absurd (omega arith)
  ]
