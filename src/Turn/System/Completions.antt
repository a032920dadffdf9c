-- ===== src/Turn/System/Completions.antt =====
-- The completions of the kernel keep `Valid`, and the loop's handlers of them do not panic.
use p2p_networking.Base.{
  ℕ, ◌+◌, ◌*◌, ◌≤◌, ◌<◌, ◌≡◌, ◌≢◌, ◌⊎◌, refl, ◌∙◌, ap, subst, List, none, some, inl, inr, arith,
  true, false, Bool-cases, length, All, Option-cases,
}
use p2p_networking.Base.Fifo.{Fifo}
use p2p_networking.Base.Map
use p2p_networking.Base.Map.{nat_key, get-remove_ne}
use p2p_networking.Turn.{Packet, MessageType, buffer_size}
use p2p_networking.Turn.Slot
use p2p_networking.Turn.Slot.{Platform, SockaddrStorage}
use p2p_networking.Turn.Token.{OpType, encode_token}
use p2p_networking.Turn.Pool.{BufferPool, Entry, Opcode, push_entry}
use p2p_networking.Turn.Pool.Post.{recv_entry}
use p2p_networking.Turn.Router.Balance.{route-Places}
use p2p_networking.Turn.Ring.{Relay, Cqe, CqeResult, bytes_of, log_times}
use p2p_networking.Turn.Ring.Reuse.{marked, packet_of, on_recv_routes, on_cqe-recv}
use p2p_networking.Turn.Ring.Timing.{on_cqe-send, on_send-more, on_send-last}
use p2p_networking.Turn.System.{World, Event, step, complete, take_at, write_source}
use p2p_networking.Turn.System.Tally.{tally, at_entry, at_message, tally-push_entry, All-push_entry}
use p2p_networking.Turn.System.Moves.{take_at-tally, take_at-All, route-tally}
use p2p_networking.Turn.System.Handlers.{
  marked-others, marked-memory, write_source-keeps, on_release-posts,
}
use p2p_networking.Turn.System.Valid.{
  places, Good, Valid, Good-others, at_entry_self, slice_room, op_of, Timed,
}
use p2p_networking.Turn.System.Steps.{Goes, few, far, standing}

Opcode-cases : (op : Opcode) → (op ≡ Opcode.recv_msg) ⊎ (op ≡ Opcode.send_msg_zc)
Opcode-cases Opcode.recv_msg = inl refl
Opcode-cases Opcode.send_msg_zc = inr refl

-- An entry of the kernel's, and what is known of its buffer.
module _ (F : Fifo) (t : Platform) (listen_fd n : ℕ) (w : World F) (v : Valid n w) (k : ℕ)
    (e : Entry) (rest : List Entry) (taken : take_at k w.flight ≡ some (e, rest)) where
  flight_tally : (j : ℕ) → tally (at_entry j) w.flight ≡ at_entry j e + tally (at_entry j) rest
  flight_tally j = take_at-tally (at_entry j) k w.flight rest e taken

  good_flight : Good w.relay.pool e × All (Good w.relay.pool) rest
  good_flight = take_at-All (Good w.relay.pool) k w.flight rest e taken v.flying

  below : e.msghdr < n
  below =
      let a = flight_tally e.msghdr in
      let b = at_entry_self e.msghdr e refl in standing F t listen_fd n e.msghdr w v (omega arith)

  -- The buffer of the entry stands nowhere else.
  alone :
      (tally (at_entry e.msghdr) (F.items Entry w.relay.sq) ≡ 0)
      × (tally (at_entry e.msghdr) rest ≡ 0)
  alone =
      let a = flight_tally e.msghdr in
      let b = at_entry_self e.msghdr e refl in let c = v.once e.msghdr in (omega arith, omega arith)

  same_buffer :
      (j len : ℕ) (pool : BufferPool)
      → at_message j (MessageType.transmit (packet_of t e.msghdr len pool)) ≡ at_entry j e
  unfolding at_message at_entry
  same_buffer j len pool = refl

  recv_entry-at : (j : ℕ) → at_entry j (recv_entry listen_fd e.msghdr) ≡ at_entry j e
  unfolding at_entry
  recv_entry-at j = refl

  module _ (result : CqeResult) (flags : ℕ) (src : SockaddrStorage) (now now' : ℕ) where
    cqe : Cqe
    cqe = record { user_data = e.user_data; result = result; flags = flags }

    pub recv_completes :
        e.opcode ≡ Opcode.recv_msg
        → (w' : World F) × (complete F t listen_fd Opcode.recv_msg e rest result flags src now now'
              w
            ≡ some w')
          × Valid n w'
          × ((j : ℕ) → places j w' ≤ places j w)
    unfolding complete cqe
    recv_completes op =
        let idx = e.msghdr in
        let written : BufferPool = write_source idx src w.relay.pool in
        let w0 : Relay F = record (w.relay) { pool = written } in
        let p : Packet = packet_of t idx (bytes_of result) written in
        let (r', routed, places') = route-Places F v.shards v.older w.relay.router p v.routed in
        let pool' : BufferPool = marked idx now now' written in
        let w' : World F = record w {
          relay = record w0 { pool = pool'; router = r' };
          flight = rest;
        } in
        let token : e.user_data ≡ encode_token OpType.recv idx =
          good_flight.0.token ∙ ap (λ o. encode_token (op_of o) idx) op in
        let ran =
          on_cqe-recv F t listen_fd w0 cqe idx now now' (omega (arith, below, v.fits)) token
          ∙ on_recv_routes F t listen_fd idx (bytes_of result) now now' w0 r' routed in
        let (memory, times) = write_source-keeps idx src w.relay.pool in
        let less : (j : ℕ) → places j w' ≤ places j w = λ j.
          let a = route-tally F j p w.relay.router r' routed in
          let b = flight_tally j in
          let c = same_buffer j (bytes_of result) written in omega arith in
        let same =
          λ (j : ℕ) (o : idx ≢ j). marked-others idx j o now now' written ∙ ap (Map.get j) times in
        (
          w',
          rw ran refl,
          record {
            once = few F t listen_fd n w w' v less;
            small = far F t listen_fd n w w' v less;
            queued =
                Good-others idx w.relay.pool pool' (F.items Entry w.relay.sq) same alone.0 v.queued;
            flying = Good-others idx w.relay.pool pool' rest same alone.1 good_flight.1;
            room = rw (marked-memory idx now now' written) (rw memory v.room);
            fits = v.fits;
            shards = v.shards;
            older = v.older;
            routed = places';
          },
          less,
        )

    -- The last completion of a send.
    send_ends :
        e.opcode ≡ Opcode.send_msg_zc
        → t.more flags ≡ false
        → (w' : World F) × (complete F t listen_fd Opcode.send_msg_zc e rest result flags src now
              now' w
            ≡ some w')
          × Valid n w'
          × ((j : ℕ) → places j w' ≤ places j w)
    unfolding complete cqe
    send_ends op last =
        let idx = e.msghdr in
        let pool : BufferPool = w.relay.pool in
        let w1 : Relay F = record (w.relay) {
          pool = record pool {
            live_slots = Map.insert idx (Slot.new t (idx * buffer_size) none) pool.live_slots;
          };
          sq = push_entry F (recv_entry listen_fd idx) w.relay.sq;
        } in
        let w2 : Relay F = record w1 {
          pool = record (w1.pool) { timestamp = Map.remove idx pool.timestamp };
        } in
        let w' : World F = record w { relay = w2; flight = rest } in
        let token : e.user_data ≡ encode_token OpType.send idx =
          good_flight.0.token ∙ ap (λ o. encode_token (op_of o) idx) op in
        let logged : log_times (Map.get idx w1.pool.timestamp) ≡ some tt =
          subst (λ o. Timed pool o idx) op good_flight.0.timed in
        let released =
          on_release-posts F t listen_fd idx w.relay
            (slice_room n idx (length pool.memory) v.room below) in
        let ran =
          on_cqe-send F t listen_fd idx w.relay cqe now now' (omega (arith, below, v.fits)) token
          ∙ on_send-last F t listen_fd idx w.relay w1 flags last released logged in
        let less : (j : ℕ) → places j w' ≤ places j w = λ j.
          let a = tally-push_entry F (at_entry j) (recv_entry listen_fd idx) w.relay.sq in
          let b = flight_tally j in let c = recv_entry-at j in omega arith in
        let same = λ (j : ℕ) (o : idx ≢ j). get-remove_ne idx j pool.timestamp o in
        (
          w',
          rw ran (rw last refl),
          record {
            once = few F t listen_fd n w w' v less;
            small = far F t listen_fd n w w' v less;
            queued =
                All-push_entry F (Good w2.pool) (recv_entry listen_fd idx) w.relay.sq
                  (Good-others idx pool w2.pool (F.items Entry w.relay.sq) same alone.0 v.queued)
                  (record { token = refl; timed = tt });
            flying = Good-others idx pool w2.pool rest same alone.1 good_flight.1;
            room = v.room;
            fits = v.fits;
            shards = v.shards;
            older = v.older;
            routed = v.routed;
          },
          less,
        )

    -- A completion of a send that announces another changes nothing.
    send_goes_on :
        e.opcode ≡ Opcode.send_msg_zc
        → t.more flags ≡ true
        → complete F t listen_fd Opcode.send_msg_zc e rest result flags src now now' w ≡ some w
    unfolding complete cqe
    send_goes_on op more =
        let idx = e.msghdr in
        let token : e.user_data ≡ encode_token OpType.send idx =
          good_flight.0.token ∙ ap (λ o. encode_token (op_of o) idx) op in
        let ran =
          on_cqe-send F t listen_fd idx w.relay cqe now now' (omega (arith, below, v.fits)) token
          ∙ on_send-more F t listen_fd idx w.relay flags more in
        rw ran (rw more refl)

    pub completes :
        (w' : World F) × (complete F t listen_fd e.opcode e rest result flags src now now' w
          ≡ some w')
        × Valid n w'
        × ((j : ℕ) → places j w' ≤ places j w)
    completes = elim (Opcode-cases e.opcode) [
      | inl op ↦
          let (w', ran, v', less) = recv_completes op in
          (
            w',
            ap (λ o. complete F t listen_fd o e rest result flags src now now' w) op ∙ ran,
            v',
            less,
          )
      | inr op ↦
          let opened = ap (λ o. complete F t listen_fd o e rest result flags src now now' w) op in
          elim (Bool-cases (t.more flags)) [
            | inl more ↦ (w, opened ∙ send_goes_on op more, v, λ j. omega arith)
            | inr last ↦ let (w', ran, v', less) = send_ends op last in (w', opened ∙ ran, v', less)
          ]
    ]

module _ (F : Fifo) (t : Platform) (listen_fd n : ℕ) where
  pub completes-Goes :
      (k : ℕ) (result : CqeResult) (flags : ℕ) (src : SockaddrStorage) (now now' : ℕ) (w : World F)
      → Valid n w
      → Goes F t listen_fd n w (Event.completes k result flags src now now')
  unfolding step
  completes-Goes k result flags src now now' w v = elim (Option-cases (take_at k w.flight)) [
    | inl e ↦ (w, rw (e, step) refl, v, λ j. omega arith)
    | inr ((e, rest), taken) ↦
        let (w', ran, v', less) =
          completes F t listen_fd n w v k e rest taken result flags src now now' in
        (w', rw (taken, step) ran, v', less)
  ]
