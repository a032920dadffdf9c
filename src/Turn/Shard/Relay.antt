-- ===== src/Turn/Shard/Relay.antt =====
-- What a shard sends for the messages in its queue.
use mathlib.Core.List.{Sublistᴰ}
use p2p_networking.Base.{
  ℕ, ◌≤◌, ◌≡◌, refl, sym, ◌∙◌, ap, subst, List, [], ◌∷◌, ◌++◌, some, inl, inr, arith, length,
  Option-cases,
}
use p2p_networking.Base.Fifo.{Fifo, Room, offer_all, dequeue_empty, dequeue_first}
use p2p_networking.Base.Map.{nat_key}
use p2p_networking.Base.Net.{SocketAddr, socket_addr_key}
use p2p_networking.Turn.{Packet, Session, MessageType, SqeType}
use p2p_networking.Turn.Shard.{
  Shard, new, add_session, destination, try_send, handle_packet, handle, run_once, run,
}
use p2p_networking.Turn.Shard.History.{
  History, sessions, partner, AreFresh, Stands, register, add_session-Stands,
}
use p2p_networking.Turn.Shard.Relayed.{
  relay, AreNew, AreNew-cons, Stands-recv, Stands-tx_out, register-Stands, Relayed, Relayed-nil,
  Relayed-skip, Relayed-send,
}

module _ (F : Fifo) where
  -- Where the loop goes after the rounds left.
  abbrev pub Ends : List ℕ → List Session → List MessageType → F.Q SqeType → Shard F → Type 0
  Ends us older ms q s =
      Relayed F older ms q (run F us s).tx_out × (F.items MessageType (run F us s).recv ≡ [])

  transmit-Ends :
      (us : List ℕ) (h : History) (p : Packet) (ms : List MessageType) (s : Shard F)
      → Stands F h s
      → ((s' : Shard F) → Stands F h s' → s'.recv ≡ s.recv → Ends us (sessions h) ms s'.tx_out s')
      → Ends us (sessions h) (MessageType.transmit p ∷ ms) s.tx_out (handle_packet F p s)
  unfolding handle_packet relay
  transmit-Ends us h p ms s t next = elim (Option-cases (partner (sessions h) p.src)) [
    | inl e ↦
        let stays : handle_packet F p s ≡ s = rw (t.dests p.src ∙ e, handle_packet) in
        let (r, d) = next s t refl in
        subst (Ends us (sessions h) (MessageType.transmit p ∷ ms) s.tx_out) (sym stays) (
          Relayed-skip F (sessions h) (sessions h) (MessageType.transmit p) ms s.tx_out
              (run F us s).tx_out (rw (e, relay)) r,
          d,
        )
    | inr (dst, e) ↦
        let m : SqeType = (dst, p.len, p.buf_idx) in
        let s1 : Shard F = record s { tx_out = try_send F m s.tx_out } in
        let sends : handle_packet F p s ≡ s1 = rw (t.dests p.src ∙ e, handle_packet) in
        let (r, d) = next s1 (Stands-tx_out F h s (try_send F m s.tx_out) t) refl in
        subst (Ends us (sessions h) (MessageType.transmit p ∷ ms) s.tx_out) (sym sends) (
          Relayed-send F (sessions h) (MessageType.transmit p) ms m s.tx_out (run F us s1).tx_out
              (rw (e, relay)) r,
          d,
        )
  ]

  run_once_idle : (u : ℕ) (s : Shard F) → F.items MessageType s.recv ≡ [] → run_once F u s ≡ s
  unfolding run_once
  run_once_idle u s e = rw (dequeue_empty F MessageType s.recv e, run_once)

  run_once_next :
      (u : ℕ) (s : Shard F) (m : MessageType) (q : F.Q MessageType)
      → F.dequeue MessageType s.recv ≡ some (m, q)
      → run_once F u s ≡ handle F u m (record s { recv = q })
  unfolding run_once
  run_once_next u s m q e = rw (e, run_once)

  run-Ends :
      (us : List ℕ) (h : History) (ms : List MessageType) (s : Shard F)
      → Stands F h s
      → AreNew us h
      → F.items MessageType s.recv ≡ ms
      → length ms ≤ length us
      → Ends us (sessions h) ms s.tx_out s
  unfolding run handle add_session relay
  run-Ends [] h [] s t new e enough = (Relayed-nil F (sessions h) s.tx_out, e)
  run-Ends [] h (m ∷ ms) s t new e enough = absurd (omega arith)
  run-Ends (u ∷ us) h [] s t new e enough =
      subst (λ x. Ends us (sessions h) [] s.tx_out x) (sym (run_once_idle u s e))
        (run-Ends us h [] s t new.2 e (omega arith))
  run-Ends (u ∷ us) h (MessageType.add_session x ∷ ms) s t new e enough =
      let (q, got, rest) = dequeue_first F MessageType s.recv (MessageType.add_session x) ms e in
      let s1 : Shard F = add_session F u x (record s { recv = q }) in
      let t1 = add_session-Stands F u x h (record s { recv = q }) new.0 (Stands-recv F h s q t) in
      let (r, d) =
        run-Ends us ((u, x) ∷ h) ms s1 t1 (AreNew-cons us u x h new.1 new.2) rest (omega arith) in
      subst (λ y. Ends us (sessions h) (MessageType.add_session x ∷ ms) s.tx_out y)
        (sym (run_once_next u s (MessageType.add_session x) q got))
        (
          Relayed-skip F (sessions h) (x ∷ sessions h) (MessageType.add_session x) ms s.tx_out
              (run F us s1).tx_out refl r,
          d,
        )
  run-Ends (u ∷ us) h (MessageType.transmit p ∷ ms) s t new e enough =
      let (q, got, rest) = dequeue_first F MessageType s.recv (MessageType.transmit p) ms e in
      let s1 : Shard F = record s { recv = q } in
      subst (λ y. Ends us (sessions h) (MessageType.transmit p ∷ ms) s.tx_out y)
        (sym (run_once_next u s (MessageType.transmit p) q got))
        (transmit-Ends us h p ms s1 (Stands-recv F h s q t) (λ s' t' same.
          run-Ends us h ms s' t' new.2 (ap (F.items MessageType) same ∙ rest) (omega arith)))

  register-recv : (h : History) (s : Shard F) → (register F h s).recv ≡ s.recv
  unfolding register add_session
  register-recv [] s = refl
  register-recv ((j, x) ∷ h) s = register-recv h s

  register-tx_out : (h : History) (s : Shard F) → (register F h s).tx_out ≡ s.tx_out
  unfolding register add_session
  register-tx_out [] s = refl
  register-tx_out ((j, x) ∷ h) s = register-tx_out h s

-- After any registrations under distinct ids, a packet's destination by the two tables is the
-- partner of its source in the newest session that has the source as host or as peer, and there is
-- none if no session has.
pub destination-register :
    (F : Fifo) (h : History) (id : ℕ) (recv : F.Q MessageType) (tx : F.Q SqeType) (src : SocketAddr)
    → AreFresh F h
    → destination F (register F h (new F id recv tx)) src ≡ partner (sessions h) src
destination-register F h id recv tx src f = (register-Stands F h id recv tx f).dests src

module _ (F : Fifo) where
  run-register :
      (h : History) (uuids : List ℕ) (id : ℕ) (recv : F.Q MessageType) (tx : F.Q SqeType)
      → AreFresh F h
      → AreNew uuids h
      → length (F.items MessageType recv) ≤ length uuids
      → Ends F uuids (sessions h) (F.items MessageType recv) tx (register F h (new F id recv tx))
  unfolding new
  run-register h uuids id recv tx f new' enough =
      let fresh : Shard F = new F id recv tx in
      let s : Shard F = register F h fresh in
      subst (λ q. Ends F uuids (sessions h) (F.items MessageType recv) q s)
        (register-tx_out F h fresh)
        (run-Ends F uuids h (F.items MessageType recv) s (register-Stands F h id recv tx f) new'
          (ap (F.items MessageType) (register-recv F h fresh)) enough)

-- A shard with the sessions `h` registered runs for at least as many rounds as its queue has
-- messages, with new distinct ids. Then it has emptied the queue, and has offered to its output, in
-- order, exactly the sends of `relay`: each packet to the partner of its source among the sessions
-- registered before it, under its own length and buffer. A send that the output refuses is missing,
-- and all others were added.
pub run_relays :
    (F : Fifo) (h : History) (uuids : List ℕ) (id : ℕ) (recv : F.Q MessageType) (tx : F.Q SqeType)
    → AreFresh F h
    → AreNew uuids h
    → length (F.items MessageType recv) ≤ length uuids
    → let s = run F uuids (register F h (new F id recv tx)) in
      (s.tx_out ≡ offer_all F SqeType (relay (sessions h) (F.items MessageType recv)) tx)
      × (out : List SqeType) × (F.items SqeType s.tx_out ≡ F.items SqeType tx ++ out)
      × Sublistᴰ out (relay (sessions h) (F.items MessageType recv))
      × (F.items MessageType s.recv ≡ [])
run_relays F h uuids id recv tx f new' enough =
    let (r, emptied) = run-register F h uuids id recv tx f new' enough in
    (r.offered, r.out, r.added, r.part, emptied)

-- Under the same conditions, and if the output has room for as many sends as there are messages,
-- the shard has added exactly the sends of `relay`, in order.
pub run_relays_all :
    (F : Fifo) (h : History) (uuids : List ℕ) (id : ℕ) (recv : F.Q MessageType) (tx : F.Q SqeType)
    → AreFresh F h
    → AreNew uuids h
    → length (F.items MessageType recv) ≤ length uuids
    → Room F SqeType (length (F.items MessageType recv)) tx
    → F.items SqeType (run F uuids (register F h (new F id recv tx))).tx_out
      ≡ F.items SqeType tx ++ relay (sessions h) (F.items MessageType recv)
run_relays_all F h uuids id recv tx f new' enough room =
    let (r, _) = run-register F h uuids id recv tx f new' enough in
    r.added ∙ ap (λ l. F.items SqeType tx ++ l) (r.all room)
