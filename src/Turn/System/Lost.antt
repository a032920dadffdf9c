-- ===== src/Turn/System/Lost.antt =====
-- Datagrams that reach the relay before any session, from addresses that it does not know.
use p2p_networking.Base.{
  ℕ, suc, ◌+◌, ◌≤◌, ◌<◌, ◌≡◌, refl, sym, ◌∙◌, ap, subst, List, [], ◌∷◌, some, inl, inr, arith,
  length, All, Option-cases,
}
use p2p_networking.Base.Fail.{◌>>=◌}
use p2p_networking.Base.Fifo.{Fifo, Room}
use p2p_networking.Base.Map
use p2p_networking.Base.Map.{nat_key}
use p2p_networking.Base.Net.{socket_addr_key}
use p2p_networking.Base.Word.{u16_mod}
use p2p_networking.Turn.{MessageType, SqeType, Packet, pool_size}
use p2p_networking.Turn.Slot.{Platform, SockaddrStorage}
use p2p_networking.Turn.Pool.{BufferPool, Entry}
use p2p_networking.Turn.Pool.Post.{recv_entry}
use p2p_networking.Turn.Router
use p2p_networking.Turn.Router.{ShardRouter}
use p2p_networking.Turn.Ring.{Relay, Cqe, CqeResult, bytes_of}
use p2p_networking.Turn.Ring.Reuse.{marked, packet_of, route_unknown, on_recv_routes, on_cqe-recv}
use p2p_networking.Turn.System.{
  World, Event, run, step, complete, take_at, write_source, boot, launch,
}
use p2p_networking.Turn.System.Tally.{tally, tally-nil, at_entry, at_send}
use p2p_networking.Turn.System.Moves.{in_queue, in_sends}
use p2p_networking.Turn.System.Valid.{places, Valid}
use p2p_networking.Turn.System.Safe.{receives, seeded_once, empty_tally, launch-Valid, run-Valid}

-- What the kernel says of a datagram that it received, and the times that the loop reads.
pub record Datagram : Type 0 where
  pub result : CqeResult
  pub flags : ℕ
  pub src : SockaddrStorage
  pub now : ℕ
  pub now' : ℕ

-- The kernel takes a receive and completes it, for one datagram after the other.
unfoldable pub strays : List Datagram → List Event
strays [] = []
strays (d ∷ ds) = Event.submits ∷ Event.completes 0 d.result d.flags d.src d.now d.now' ∷ strays ds

module _ (F : Fifo) (t : Platform) (listen_fd : ℕ) where
  -- The relay waits with `n` receives, knows no address, and has queues as `w0` has them.
  record Waits (n : ℕ) (w0 w : World F) : Type 0 where
    posted : F.items Entry w.relay.sq ≡ receives listen_fd n
    landed : w.flight ≡ []
    router : w.relay.router ≡ w0.relay.router
    tx : w.tx ≡ w0.tx

  submitted :
      (n : ℕ) (w0 w : World F)
      → Waits (suc n) w0 w
      → (sq' : F.Q Entry) × (step F t listen_fd w Event.submits
          ≡ some (record w {
            relay = record (w.relay) { sq = sq' };
            flight = recv_entry listen_fd n ∷ [];
          }))
        × (F.items Entry sq' ≡ receives listen_fd n)
  unfolding step
  submitted n w0 w v = elim (Option-cases (F.dequeue Entry w.relay.sq)) [
    | inl e ↦ let empty = F.dequeue-none Entry w.relay.sq e in let held = v.posted in absurd cc
    | inr ((x, sq'), e) ↦
        let same : x ∷ F.items Entry sq' ≡ recv_entry listen_fd n ∷ receives listen_fd n =
          sym (F.dequeue-some Entry w.relay.sq sq' x e) ∙ v.posted in
        let first : x ≡ recv_entry listen_fd n = cc in (sq', rw (e, v.landed, first, step) refl, cc)
  ]

  -- A receive that completes from an unknown address is gone.
  completed :
      (n : ℕ) (w : World F) (d : Datagram)
      → n < u16_mod
      → w.flight ≡ recv_entry listen_fd n ∷ []
      → w.relay.router.endpoint_to_shard ≡ []
      → (pool' : BufferPool) × (step F t listen_fd w
            (Event.completes 0 d.result d.flags d.src d.now d.now')
          ≡ some (record w { relay = record (w.relay) { pool = pool' }; flight = [] }))
  unfolding step complete take_at Map.get
  completed n w d h landed unknown =
      let written : BufferPool = write_source n d.src w.relay.pool in
      let w0 : Relay F = record (w.relay) { pool = written } in
      let c : Cqe = record {
        user_data = (recv_entry listen_fd n).user_data;
        result = d.result;
        flags = d.flags;
      } in
      let p : Packet = packet_of t n (bytes_of d.result) written in
      let routed = route_unknown F t listen_fd p w.relay.router (ap (Map.get p.src) unknown) in
      let ran =
        on_cqe-recv F t listen_fd w0 c n d.now d.now' h refl
        ∙ on_recv_routes F t listen_fd n (bytes_of d.result) d.now d.now' w0 w.relay.router
            routed in
      (marked n d.now d.now' written, rw landed (rw ran refl))

  lost :
      (ds : List Datagram) (n : ℕ) (w0 w : World F)
      → n + length ds ≤ u16_mod
      → w0.relay.router.endpoint_to_shard ≡ []
      → Waits (n + length ds) w0 w
      → (w' : World F) × (run F t listen_fd (strays ds) w ≡ some w') × Waits n w0 w'
  unfolding run strays
  lost [] n w0 w h unknown v = (w, refl, subst (λ m. Waits m w0 w) (omega arith) v)
  lost (d ∷ ds) n w0 w h unknown v =
      let m = n + length ds in
      let v' : Waits (suc m) w0 w = subst (λ k. Waits k w0 w) (omega arith) v in
      let (sq', one, rest) = submitted m w0 w v' in
      let w1 : World F = record w {
        relay = record (w.relay) { sq = sq' };
        flight = recv_entry listen_fd m ∷ [];
      } in
      let table = ap (λ (r : ShardRouter F). r.endpoint_to_shard) v.router ∙ unknown in
      let (pool', two) = completed m w1 d (omega arith) refl table in
      let w2 : World F = record w1 { relay = record (w1.relay) { pool = pool' }; flight = [] } in
      let (w', more, last) =
        lost ds n w0 w2 (omega arith) unknown
          (record { posted = rest; landed = refl; router = v.router; tx = v.tx }) in
      (w', rw one (rw two more), last)

-- The relay is started as for `relay_never_panics`. Before any session, some datagrams come from
-- any addresses, at most POOL_SIZE, for each of which the kernel takes a receive and completes it.
-- Let `left` be POOL_SIZE less their number. Then whatever events follow, sessions for these
-- addresses among them, nothing panics, and no buffer from `left` on stands anywhere afterwards: in
-- no entry that the kernel has or will get, in no packet for a shard and in no send. So each of the
-- datagrams has cost the relay one buffer for good, and POOL_SIZE of them cost it all.
pub strays_cost_buffers :
    (F : Fifo) (t : Platform) (listen_fd : ℕ) (sq : F.Q Entry) (senders : List (F.Q MessageType))
    (tx : F.Q SqeType) (left : ℕ) (ds : List Datagram) (more : List Event)
    → F.items Entry sq ≡ []
    → Room F Entry pool_size sq
    → 0 < length senders
    → All (λ q. F.items MessageType q ≡ []) senders
    → F.items SqeType tx ≡ []
    → left + length ds ≡ pool_size
    → (w : World F) × (w' : World F) × ((launch F t listen_fd (boot sq senders tx)
          >>= run F t listen_fd (strays ds))
        ≡ some w)
      × (run F t listen_fd more w ≡ some w')
      × ((j : ℕ) → left ≤ j → places j w' ≡ 0)
unfolding Router.new
strays_cost_buffers F t listen_fd sq senders tx left ds more none' room some_shard idle quiet
      count =
    let (w0, launched, v0, held, landed, router, same_tx) =
      launch-Valid F t listen_fd sq senders tx none' room some_shard idle quiet in
    let waits : Waits F t listen_fd (left + length ds) w0 w0 = record {
      posted = held ∙ ap (receives listen_fd) (sym count);
      landed = landed;
      router = refl;
      tx = refl;
    } in
    let table = ap (λ (r : ShardRouter F). r.endpoint_to_shard) router in
    let (w1, ran, last) = lost F t listen_fd ds left w0 w0 (omega (arith, count)) table waits in
    let (w1', again, v1, _) = run-Valid F t listen_fd pool_size (strays ds) w0 v0 in
    let same : w1' ≡ w1 = cc in
    let (w2, ran', _, less) =
      run-Valid F t listen_fd pool_size more w1 (subst (Valid pool_size) same v1) in
    (
      w1,
      w2,
      ap (λ o. o >>= run F t listen_fd (strays ds)) launched ∙ ran,
      ran',
      λ j far.
          let a = ap (tally (at_entry j)) last.posted ∙ (seeded_once listen_fd left j).1 far in
          let b = ap (tally (at_entry j)) last.landed ∙ tally-nil (at_entry j) in
          let c =
            ap (λ (r : ShardRouter F). tally (in_queue F j) r.senders) (last.router ∙ router)
            ∙ empty_tally F j senders idle in
          let d =
            ap (in_sends F j) (last.tx ∙ same_tx)
            ∙ ap (tally (at_send j)) quiet
            ∙ tally-nil (at_send j) in
          let e = less j in omega arith,
    )
