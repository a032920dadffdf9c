-- ===== src/FirstImpl/Same.antt =====
-- The first version's shard and that of turn_server/src/lib.rs send the same.
use p2p_networking.Base.{
  ℕ, zero, suc, ◌≤◌, ◌≡◌, refl, sym, ◌∙◌, ap, List, [], ◌∷◌, ◌++◌, Option, some, inl, inr, arith,
  length, length-map, map, ap₂, subst, Option-cases, append_assoc, append-nil,
}
use p2p_networking.Base.Fail.{◌>>=◌}
use p2p_networking.Base.Fifo.{Fifo, Room, dequeue_empty, dequeue_first}
use p2p_networking.Base.Map
use p2p_networking.Base.Map.{Map, get-insert}
use p2p_networking.Base.Net.{SocketAddr, socket_addr_key}
use p2p_networking.Turn.{Session, MessageType, SqeType, route_to}
use p2p_networking.Turn.Shard
use p2p_networking.Turn.Shard.History.{History, sessions, partner, AreFresh, register}
use p2p_networking.Turn.Shard.Relayed.{AreNew, Room-pred, relay}
use p2p_networking.Turn.Shard.Relay.{destination-register, run_relays_all}
use p2p_networking.FirstImpl.{
  Packet, Shard, by_session, new, add_session, destination, handle_packet, run_once, run,
}

-- The packet without the index that it holds twice.
abbrev pub as_message : Packet → MessageType
as_message p = MessageType.transmit (record { buf_idx = p.buf_idx; len = p.len; src = p.src })

module _ (F : Fifo) where
  -- Register the sessions, the oldest first; the newest is at the head.
  unfoldable pub add_sessions : List Session → Shard F → Shard F
  add_sessions [] s = s
  add_sessions (x ∷ older) s = add_session F x (add_sessions older s)

  add_session-destination :
      (x : Session) (older : List Session) (s : Shard F) (src : SocketAddr)
      → destination F s src ≡ partner older src
      → destination F (add_session F x s) src ≡ partner (x ∷ older) src
  unfolding add_session destination partner route_to by_session
  add_session-destination x older s src e = ground (
    arith,
    get-insert x.peer_addr src x (Map.insert x.host_addr x s.session_table),
    get-insert x.host_addr src x s.session_table,
  )

  pub add_sessions-destination :
      (older : List Session) (id : ℕ) (recv : F.Q Packet) (tx : F.Q SqeType) (src : SocketAddr)
      → destination F (add_sessions older (new F id recv tx)) src ≡ partner older src
  unfolding add_sessions destination new partner Map.get
  add_sessions-destination [] id recv tx src = refl
  add_sessions-destination (x ∷ older) id recv tx src =
      add_session-destination x older (add_sessions older (new F id recv tx)) src
        (add_sessions-destination older id recv tx src)

  -- The shard's table sends each packet to its partner.
  abbrev pub Partners : List Session → Shard F → Type 0
  Partners older s = (src : SocketAddr) → destination F s src ≡ partner older src

  -- A round on an empty queue, and on one with a packet.
  run_once_idle : (s : Shard F) → F.items Packet s.recv ≡ [] → run_once F s ≡ some s
  unfolding run_once
  run_once_idle s e = rw (dequeue_empty F Packet s.recv e, run_once) refl

  run_once_next :
      (s : Shard F) (p : Packet) (q : F.Q Packet)
      → F.dequeue Packet s.recv ≡ some (p, q)
      → run_once F s ≡ handle_packet F p (record s { recv = q })
  unfolding run_once
  run_once_next s p q e = rw (e, run_once) refl

  -- What a run has done: the sends of the packets are added, and the queue is empty.
  abbrev pub Sent : ℕ → List Session → List Packet → F.Q SqeType → Option (Shard F) → Type 0
  Sent n older ps q next =
      (s' : Shard F) × ((next >>= run F n) ≡ some s')
      × (F.items SqeType s'.tx_out ≡ F.items SqeType q ++ relay older (map as_message ps))
      × (F.items Packet s'.recv ≡ [])

  sends_packet :
      (n : ℕ) (older : List Session) (p : Packet) (ps : List Packet) (s : Shard F)
      → Partners older s
      → Room F SqeType (suc (length ps)) s.tx_out
      → ((s' : Shard F)
          → Partners older s'
          → s'.recv ≡ s.recv
          → Room F SqeType (length ps) s'.tx_out
          → Sent n older ps s'.tx_out (some s'))
      → Sent n older (p ∷ ps) s.tx_out (handle_packet F p s)
  unfolding handle_packet relay destination
  sends_packet n older p ps s t room next = elim (Option-cases (partner older p.src)) [
    | inl e ↦
        let stays : handle_packet F p s ≡ some s = rw (t p.src ∙ e, handle_packet) refl in
        rw (stays, e, relay) (next s t refl (Room-pred F (length ps) s.tx_out room))
    | inr (dst, e) ↦
        let m : SqeType = (dst, p.len, p.buf_idx) in
        let (q, sent, room') = room m in
        let s1 : Shard F = record s { tx_out = q } in
        let sends : handle_packet F p s ≡ some s1 =
          rw (t p.src ∙ e, handle_packet) (rw sent refl) in
        let (s', ran, out, done) = next s1 t refl room' in
        rw (sends, e, relay)
          (
            s',
            ran,
            out
                ∙ ap (λ l. l ++ relay older (map as_message ps))
                    (F.items-enqueue SqeType m s.tx_out q sent)
                ∙ append_assoc (F.items SqeType s.tx_out) (m ∷ [])
                    (relay older (map as_message ps)),
            done,
          )
  ]

  pub run_sends :
      (n : ℕ) (older : List Session) (ps : List Packet) (s : Shard F)
      → Partners older s
      → F.items Packet s.recv ≡ ps
      → length ps ≤ n
      → Room F SqeType (length ps) s.tx_out
      → Sent n older ps s.tx_out (some s)
  unfolding run relay destination
  run_sends zero older [] s t e l room = (s, refl, sym (append-nil (F.items SqeType s.tx_out)), e)
  run_sends zero older (p ∷ ps) s t e l room = absurd (omega arith)
  run_sends (suc n) older [] s t e l room =
      rw (run_once_idle s e) (run_sends n older [] s t e (omega arith) room)
  run_sends (suc n) older (p ∷ ps) s t e l room =
      let (q, got, rest) = dequeue_first F Packet s.recv p ps e in
      rw (run_once_next s p q got) (
        sends_packet n older p ps (record s { recv = q }) t room
          (λ s' t' same room'.
            run_sends n older ps s' t' (ap (F.items Packet) same ∙ rest) (omega arith) room'))

  pub add_sessions-recv :
      (older : List Session) (s : Shard F) → (add_sessions older s).recv ≡ s.recv
  unfolding add_sessions add_session
  add_sessions-recv [] s = refl
  add_sessions-recv (x ∷ older) s = add_sessions-recv older s

  pub add_sessions-tx_out :
      (older : List Session) (s : Shard F) → (add_sessions older s).tx_out ≡ s.tx_out
  unfolding add_sessions add_session
  add_sessions-tx_out [] s = refl
  add_sessions-tx_out (x ∷ older) s = add_sessions-tx_out older s

  -- After the same registrations, under distinct ids in turn_server/src/lib.rs, the two versions of
  -- a shard have the same destination for each source.
  pub destinations_agree :
      (h : History) (id : ℕ) (recv : F.Q Packet) (recv' : F.Q MessageType) (tx tx' : F.Q SqeType)
      (src : SocketAddr)
      → AreFresh F h
      → destination F (add_sessions (sessions h) (new F id recv tx)) src
        ≡ Shard.destination F (register F h (Shard.new F id recv' tx')) src
  destinations_agree h id recv recv' tx tx' src f =
      add_sessions-destination (sessions h) id recv tx src
      ∙ sym (destination-register F h id recv' tx' src f)

  -- The two versions of a shard have the same sessions, the same packets in their queues, the same
  -- output with room for as many sends as there are packets, and at least as many rounds. Then the
  -- first version waits for nothing, its queue is empty, and its output has the items that the
  -- output of the other has.
  pub runs_agree :
      (h : History) (n id : ℕ) (uuids : List ℕ) (recv : F.Q Packet) (recv' : F.Q MessageType)
      (tx : F.Q SqeType)
      → AreFresh F h
      → AreNew uuids h
      → F.items MessageType recv' ≡ map as_message (F.items Packet recv)
      → length (F.items Packet recv) ≤ n
      → length (F.items MessageType recv') ≤ length uuids
      → Room F SqeType (length (F.items MessageType recv')) tx
      → (s : Shard F) × (run F n (add_sessions (sessions h) (new F id recv tx)) ≡ some s)
        × (F.items Packet s.recv ≡ [])
        × (F.items SqeType s.tx_out
            ≡ F.items SqeType (Shard.run F uuids (register F h (Shard.new F id recv' tx))).tx_out)
  unfolding new
  runs_agree h n id uuids recv recv' tx f new' same enough enough' room =
      let s0 : Shard F = add_sessions (sessions h) (new F id recv tx) in
      let queue : s0.recv ≡ recv = add_sessions-recv (sessions h) (new F id recv tx) in
      let output : s0.tx_out ≡ tx = add_sessions-tx_out (sessions h) (new F id recv tx) in
      let count : length (F.items MessageType recv') ≡ length (F.items Packet recv) =
        ap length same ∙ length-map as_message (F.items Packet recv) in
      let room' : Room F SqeType (length (F.items Packet recv)) s0.tx_out =
        rw output (subst (λ k. Room F SqeType k tx) count room) in
      let (s, ran, out, done) =
        run_sends n (sessions h) (F.items Packet recv) s0
          (add_sessions-destination (sessions h) id recv tx) (ap (F.items Packet) queue) enough
          room' in
      (
        s,
        ran,
        done,
        out
            ∙ ap₂ (λ q ms. F.items SqeType q ++ relay (sessions h) ms) output (sym same)
            ∙ sym (run_relays_all F h uuids id recv' tx f new' enough' room),
      )
