-- ===== src/Peer/Chat/Begin.antt =====
-- How the chat begins: a peer that hears the other in time answers, and is in the chat.
use p2p_networking.Base.{
  ℕ, zero, suc, ◌≡◌, refl, sym, ◌∙◌, ap, subst, Bool, true, List, [], ◌∷◌, ◌++◌, Option, none, some,
  inl, inr, arith, take, All, append_assoc, ltb, Bool-cases, Option-cases,
}
use p2p_networking.Base.Net.{SocketAddr}
use p2p_networking.Peer.Chat.{
  Peer, Stage, Event, start, connected, keep_alive, hole_punch, goodbye, exit, same, greets, queue,
  on_punch, hear_punching, hear_message, hear_chat, on_line, on_event, step, run,
}
use p2p_networking.Peer.Chat.Opening.{Greets, start-Opened, hear_chat-queue, run-event}
use p2p_networking.Peer.Chat.Lines.{heard}
use p2p_networking.Peer.Chat.Talk.{talker, listener}

-- The event is not the end of the five seconds.
abbrev pub InTime : Event → Type 0
InTime Event.time_out = ⊥
InTime _ = Unit {0}

abbrev pub Later : Stage → Type 0
Later Stage.punching = ⊥
Later Stage.gave_up = ⊥
Later _ = Unit {0}

-- The peer is past the hole punching, and has answered.
abbrev pub Begun : Peer → Type 0
Begun p =
    Later p.stage
    × ((before : List (List ℕ)) × (after : List (List ℕ)) × (p.packet_tx
          ≡ before ++ connected ∷ after))

queue-Begun : (x : List ℕ) (p : Peer) → Begun p → Begun (queue x p)
queue-Begun x p (later, (before, after, e)) = (
  later,
  (
    before,
    after ++ x ∷ [],
    ap (λ l. l ++ x ∷ []) e ∙ append_assoc before (connected ∷ after) (x ∷ []),
  ),
)

-- What leaves the queue alone.
same-Begun : (p p' : Peer) → p'.packet_tx ≡ p.packet_tx → Later p'.stage → Begun p → Begun p'
same-Begun p p' e l (later, (before, after, q)) = (l, (before, after, e ∙ q))

on_punch-Begun : (p : Peer) → Begun p → Begun (on_punch p)
unfolding on_punch
on_punch-Begun p b = elim (Bool-cases (ltb p.punches 6)) [
  | inl e ↦ rw e (queue-Begun hole_punch (record p { punches = suc p.punches }) b)
  | inr e ↦ rw e b
]

module _ (utf8 : List ℕ → Bool) (peer : SocketAddr) where
  hear_chat-Later :
      (x : Option (List ℕ)) (addr : SocketAddr) (p : Peer)
      → Later p.stage
      → Later (hear_chat utf8 peer x addr p).stage
  unfolding hear_chat hear_message
  hear_chat-Later none addr p l = l
  hear_chat-Later (some x) addr p l = ground (arith, l)

  on_line-Begun : (line : List ℕ) (p : Peer) → Begun p → Begun (on_line utf8 peer line p)
  unfolding on_line
  on_line-Begun [] p b = b
  on_line-Begun (x ∷ xs) p b = elim (Bool-cases (same (x ∷ xs) exit)) [
    | inl e ↦ rw e (
        queue-Begun goodbye (record p { stage = Stage.left })
          (same-Begun p (record p { stage = Stage.left }) refl tt b))
    | inr e ↦ rw e (queue-Begun (x ∷ xs) p b)
  ]

  on_event-Begun :
      (s : Stage) (e : Event) (p : Peer) → p.stage ≡ s → Begun p → Begun (on_event utf8 peer s e p)
  unfolding on_event
  on_event-Begun Stage.punching e p c b = absurd (subst Later c b.0)
  on_event-Begun Stage.gave_up e p c b = absurd (subst Later c b.0)
  on_event-Begun Stage.chatting Event.punch p c b = on_punch-Begun p b
  on_event-Begun Stage.chatting (Event.hear (packet, addr)) p c b =
      same-Begun p (hear_chat utf8 peer packet.payload addr p)
        (hear_chat-queue utf8 peer packet.payload addr p)
        (hear_chat-Later packet.payload addr p b.0) b
  on_event-Begun Stage.chatting Event.time_out p c b = b
  on_event-Begun Stage.chatting Event.interval_tick p c b = queue-Begun keep_alive p b
  on_event-Begun Stage.chatting (Event.type_line line) p c b = on_line-Begun line p b
  on_event-Begun Stage.left e p c b = b
  on_event-Begun Stage.closed e p c b = b

  run-Begun : (es : List Event) (p : Peer) → Begun p → Begun (run utf8 peer p es)
  unfolding run step
  run-Begun [] p b = b
  run-Begun (e ∷ es) p b = run-Begun es (step utf8 peer p e) (on_event-Begun p.stage e p refl b)

  stepping :
      (s : Stage) (e : Event) (es : List Event) (p : Peer)
      → p.stage ≡ s
      → Begun (run utf8 peer (on_event utf8 peer s e p) es)
      → Begun (run utf8 peer p (e ∷ es))
  stepping s e es p c = subst Begun (sym (run-event utf8 peer s e es p c))

  on_punch-stage : (p : Peer) → (on_punch p).stage ≡ p.stage
  unfolding on_punch
  on_punch-stage p = ground arith

  cons_head : {x y : List ℕ} {xs ys : List (List ℕ)} → x ∷ xs ≡ y ∷ ys → x ≡ y
  cons_head e = cc

  -- While punching, the first payload that is heard in time begins the chat.
  punching-Begun :
      (es : List Event) (p : Peer) (x : List ℕ) (xs : List (List ℕ))
      → All InTime es
      → heard es ≡ x ∷ xs
      → greets x ≡ true
      → p.stage ≡ Stage.punching
      → Begun (run utf8 peer p es)
  unfolding on_event hear_punching
  punching-Begun [] p x xs quiet e g c = absurd (cc)
  punching-Begun (Event.punch ∷ es) p x xs quiet e g c =
      stepping Stage.punching Event.punch es p c
        (punching-Begun es (on_punch p) x xs quiet.1 e g (on_punch-stage p ∙ c))
  punching-Begun (Event.hear (packet, addr) ∷ es) p x xs quiet e g c =
      stepping Stage.punching (Event.hear (packet, addr)) es p c
        (elim (Option-cases packet.payload) [
          | inl n ↦
              let later : heard es ≡ x ∷ xs =
                ap (λ o. elim o [ none ↦ heard es | some y ↦ y ∷ heard es ]) (sym n) ∙ e in
              rw (n, hear_punching) (punching-Begun es p x xs quiet.1 later g c)
          | inr (y, n) ↦
              let first : y ∷ heard es ≡ x ∷ xs =
                ap (λ o. elim o [ none ↦ heard es | some y ↦ y ∷ heard es ]) (sym n) ∙ e in
              let opens : greets y ≡ true = ap greets (cons_head first) ∙ g in
              rw (n, hear_punching)
                (rw opens (
                  run-Begun es (queue connected (record p { stage = Stage.chatting }))
                    (tt, (p.packet_tx, [], refl))))
        ])
  punching-Begun (Event.time_out ∷ es) p x xs quiet e g c = absurd quiet.0
  punching-Begun (Event.interval_tick ∷ es) p x xs quiet e g c =
      stepping Stage.punching Event.interval_tick es p c (punching-Begun es p x xs quiet.1 e g c)
  punching-Begun (Event.type_line line ∷ es) p x xs quiet e g c =
      stepping Stage.punching (Event.type_line line) es p c (punching-Begun es p x xs quiet.1 e g c)

  take_first :
      (n : ℕ) (l : List (List ℕ)) (x : List ℕ) (xs : List (List ℕ))
      → take n l ≡ x ∷ xs
      → Greets l
      → greets x ≡ true
  take_first zero l x xs e g = absurd (cc)
  take_first (suc n) [] x xs e g = absurd (cc)
  take_first (suc n) (y ∷ l) x xs e g = ap greets (sym (cons_head e)) ∙ g

module _ (utf8 : List ℕ → Bool) (a b : SocketAddr) (es fs : List Event) where
  -- Two peers start their hole punching. The second hears, among whatever else happens to it, the
  -- first payloads that the first has sent, in order and at least one, and does not come to the end
  -- of its five seconds. Then it is past the hole punching, has not given up, and has sent
  -- "CONNECTED" among its payloads.
  pub chat_begins :
      (n : ℕ) (x : List ℕ) (xs : List (List ℕ))
      → heard fs ≡ x ∷ xs
      → heard fs ≡ take n (talker utf8 a b es fs).packet_tx
      → All InTime fs
      → Begun (listener utf8 a b es fs)
  chat_begins n x xs some' all quiet =
      punching-Begun utf8 a fs start x xs quiet some'
        (take_first utf8 a n (talker utf8 a b es fs).packet_tx x xs (sym all ∙ some')
          (start-Opened utf8 b es).opens)
        refl
