-- ===== src/Peer/Chat/Printing.antt =====
-- What a peer prints of what it hears.
use p2p_networking.Base.{
  ℕ, ◌≡◌, ◌⊎◌, subst, refl, sym, ◌∙◌, ap, List, [], ◌∷◌, ◌++◌, Option, none, some, Bool, true,
  arith, append_assoc, append-nil, All, Bool-cases, Option-cases, inl, inr,
}
use p2p_networking.Base.Net.{SocketAddr}
use p2p_networking.Peer.Chat.{
  Peer, Stage, Event, same, same_ip, goodbye, keep_alive, connected, exit, greets, queue, on_punch,
  hear_punching, hear_message, hear_chat, on_line, on_event, step, run,
}
use p2p_networking.Peer.Chat.Opening.{Greets, run-event}
use p2p_networking.Peer.Chat.Lines.{heard, FromPeer, is_text, texts, texts-append}

module _ (utf8 : List ℕ → Bool) (peer : SocketAddr) where
  -- Of the texts `hs`, the peer has printed the first; all, if it is still in the chat.
  abbrev pub Prints : List (List ℕ) → List (List ℕ) → Peer → Type 0
  Prints before hs p =
      (rest : List (List ℕ)) × (p.printed ++ rest ≡ before ++ texts utf8 hs)
      × (p.stage ≡ Stage.chatting → rest ≡ [])

  -- A peer that has ended.
  abbrev IsEnded : Peer → Type 0
  IsEnded p = (p.stage ≡ Stage.gave_up) ⊎ ((p.stage ≡ Stage.left) ⊎ (p.stage ≡ Stage.closed))

  step_ended : (p : Peer) (e : Event) → IsEnded p → step utf8 peer p e ≡ p
  unfolding step on_event
  step_ended p e (inl h) = rw h refl
  step_ended p e (inr (inl h)) = rw h refl
  step_ended p e (inr (inr h)) = rw h refl

  run_ended : (es : List Event) (p : Peer) → IsEnded p → run utf8 peer p es ≡ p
  unfolding run
  run_ended [] p h = refl
  run_ended (e ∷ es) p h = rw (step_ended p e h) (run_ended es p h)

  not_chatting : (p : Peer) → IsEnded p → ¬ (p.stage ≡ Stage.chatting)
  not_chatting p (inl h) e = cc
  not_chatting p (inr (inl h)) e = cc
  not_chatting p (inr (inr h)) e = cc

  ended-Prints :
      (es : List Event) (p : Peer) (hs : List (List ℕ))
      → IsEnded p
      → Prints p.printed hs (run utf8 peer p es)
  ended-Prints es p hs h =
      rw (run_ended es p h) (texts utf8 hs, refl, λ e. absurd (not_chatting p h e))

  on_punch-kept : (p : Peer) → ((on_punch p).stage ≡ p.stage) × ((on_punch p).printed ≡ p.printed)
  unfolding on_punch
  on_punch-kept p = (ground arith, ground arith)

  -- A goodbye ends the chat; anything else from the peer is printed if it is a text.
  hear_chat-cases :
      (x : List ℕ) (addr : SocketAddr) (p : Peer)
      → same_ip addr peer ≡ true
      → (((hear_chat utf8 peer (some x) addr p).stage ≡ Stage.closed)
          × ((hear_chat utf8 peer (some x) addr p).printed ≡ p.printed))
        ⊎ (((hear_chat utf8 peer (some x) addr p).stage ≡ p.stage)
            × ((hear_chat utf8 peer (some x) addr p).printed ≡ p.printed ++ texts utf8 (x ∷ [])))
  unfolding hear_chat hear_message texts is_text
  hear_chat-cases x addr p h =
      let none_new = append-nil p.printed in
      elim (Bool-cases (same x keep_alive)) [
        | inl k ↦ inr (ground arith, ground (arith, none_new))
        | inr k ↦ elim (Bool-cases (same x goodbye)) [
          | inl g ↦ elim (Bool-cases (utf8 x)) [
            | inl u ↦ inl (ground arith, ground arith)
            | inr u ↦ inr (ground arith, ground (arith, none_new))
          ]
          | inr g ↦ inr (ground arith, ground (arith, none_new))
        ]
      ]

  on_line-cases :
      (line : List ℕ) (p : Peer)
      → (((on_line utf8 peer line p).stage ≡ Stage.left)
          ⊎ ((on_line utf8 peer line p).stage ≡ p.stage))
        × ((on_line utf8 peer line p).printed ≡ p.printed)
  unfolding on_line
  on_line-cases [] p = (inr refl, refl)
  on_line-cases (b ∷ bs) p = elim (Bool-cases (same (b ∷ bs) exit)) [
    | inl e ↦ rw e (inl refl, refl)
    | inr e ↦ rw e (inr refl, refl)
  ]

  -- A step that prints nothing and hears nothing.
  Prints-same :
      (p p' : Peer) (hs : List (List ℕ)) (q : Peer)
      → p'.printed ≡ p.printed
      → Prints p'.printed hs q
      → Prints p.printed hs q
  Prints-same p p' hs q e h = subst (λ l. Prints l hs q) e h

  -- A step that prints what it hears.
  Prints-more :
      (p p' : Peer) (x : List ℕ) (hs : List (List ℕ)) (q : Peer)
      → p'.printed ≡ p.printed ++ texts utf8 (x ∷ [])
      → Prints p'.printed hs q
      → Prints p.printed (x ∷ hs) q
  Prints-more p p' x hs q e (rest, split, done) = (
    rest,
    split
        ∙ ap (λ l. l ++ texts utf8 hs) e
        ∙ append_assoc p.printed (texts utf8 (x ∷ [])) (texts utf8 hs)
        ∙ ap (λ l. p.printed ++ l) (sym (texts-append utf8 (x ∷ []) hs)),
    done,
  )

  stepping :
      (s : Stage) (e : Event) (es : List Event) (p : Peer) (before hs : List (List ℕ))
      → p.stage ≡ s
      → Prints before hs (run utf8 peer (on_event utf8 peer s e p) es)
      → Prints before hs (run utf8 peer p (e ∷ es))
  stepping s e es p before hs c = subst (Prints before hs) (sym (run-event utf8 peer s e es p c))

  -- What the chat prints from an event on.
  abbrev Goes : List Event → Peer → Type 0
  Goes es p = p.stage ≡ Stage.chatting → Prints p.printed (heard es) (run utf8 peer p es)

  hear_chat-Prints :
      (x : List ℕ) (addr : SocketAddr) (es : List Event) (p : Peer)
      → p.stage ≡ Stage.chatting
      → same_ip addr peer ≡ true
      → ((p' : Peer) → Goes es p')
      → Prints p.printed (x ∷ heard es) (run utf8 peer (hear_chat utf8 peer (some x) addr p) es)
  hear_chat-Prints x addr es p c own next =
      let p' : Peer = hear_chat utf8 peer (some x) addr p in
      elim (hear_chat-cases x addr p own) [
        | inl (ended, kept) ↦
            Prints-same p p' (x ∷ heard es) (run utf8 peer p' es) kept
              (ended-Prints es p' (x ∷ heard es) (inr (inr ended)))
        | inr (stays, more) ↦
            Prints-more p p' x (heard es) (run utf8 peer p' es) more (next p' (stays ∙ c))
      ]

  chat-Prints : (es : List Event) (p : Peer) → All (FromPeer peer) es → Goes es p
  unfolding run on_event texts hear_chat
  chat-Prints [] p own c = ([], refl, λ e. refl)
  chat-Prints (Event.punch ∷ es) p own c =
      let (stays, kept) = on_punch-kept p in
      stepping Stage.chatting Event.punch es p p.printed (heard es) c (
        Prints-same p (on_punch p) (heard es) (run utf8 peer (on_punch p) es) kept
          (chat-Prints es (on_punch p) own.1 (stays ∙ c)))
  chat-Prints (Event.hear (packet, addr) ∷ es) p own c =
      stepping Stage.chatting (Event.hear (packet, addr)) es p p.printed
        (heard (Event.hear (packet, addr) ∷ es)) c
        (elim (Option-cases packet.payload) [
          | inl e ↦ rw (e, hear_chat) (chat-Prints es p own.1 c)
          | inr (x, e) ↦ rw e (hear_chat-Prints x addr es p c own.0 (λ p'. chat-Prints es p' own.1))
        ])
  chat-Prints (Event.time_out ∷ es) p own c =
      stepping Stage.chatting Event.time_out es p p.printed (heard es) c (chat-Prints es p own.1 c)
  chat-Prints (Event.interval_tick ∷ es) p own c =
      stepping Stage.chatting Event.interval_tick es p p.printed (heard es) c
        (chat-Prints es (queue keep_alive p) own.1 c)
  chat-Prints (Event.type_line line ∷ es) p own c =
      let p' : Peer = on_line utf8 peer line p in
      let (stage, kept) = on_line-cases line p in
      stepping Stage.chatting (Event.type_line line) es p p.printed (heard es) c (
        Prints-same p p' (heard es) (run utf8 peer p' es) kept (elim stage [
          | inl ended ↦ ended-Prints es p' (heard es) (inr (inl ended))
          | inr stays ↦ chat-Prints es p' own.1 (stays ∙ c)
        ]))

  greets-texts :
      (x : List ℕ) (xs : List (List ℕ)) → greets x ≡ true → texts utf8 (x ∷ xs) ≡ texts utf8 xs
  unfolding texts is_text
  greets-texts x xs e = ground arith

  -- From the hole punching on, if the first payload that is heard opens the chat.
  pub punching-Prints :
      (es : List Event) (p : Peer)
      → All (FromPeer peer) es
      → Greets (heard es)
      → p.stage ≡ Stage.punching
      → Prints p.printed (heard es) (run utf8 peer p es)
  unfolding run on_event texts hear_punching
  punching-Prints [] p own g c = ([], refl, λ e. refl)
  punching-Prints (Event.punch ∷ es) p own g c =
      let (stays, kept) = on_punch-kept p in
      stepping Stage.punching Event.punch es p p.printed (heard es) c (
        Prints-same p (on_punch p) (heard es) (run utf8 peer (on_punch p) es) kept
          (punching-Prints es (on_punch p) own.1 g (stays ∙ c)))
  punching-Prints (Event.hear (packet, addr) ∷ es) p own g c =
      let greeted : (o : Option (List ℕ))
          → packet.payload ≡ o
          → Greets (elim o [ none ↦ heard es | some x ↦ x ∷ heard es ]) =
        λ o e. subst (λ o. Greets (elim o [ none ↦ heard es | some x ↦ x ∷ heard es ])) e g in
      stepping Stage.punching (Event.hear (packet, addr)) es p p.printed
        (heard (Event.hear (packet, addr) ∷ es)) c
        (elim (Option-cases packet.payload) [
          | inl e ↦ rw (e, hear_punching) (punching-Prints es p own.1 (greeted none e) c)
          | inr (x, e) ↦
              let opens : greets x ≡ true = greeted (some x) e in
              let p' : Peer = queue connected (record p { stage = Stage.chatting }) in
              let (rest, split, done) = chat-Prints es p' own.1 refl in
              rw (e, hear_punching)
                (rw opens (
                  rest,
                  split ∙ ap (λ l. p.printed ++ l) (sym (greets-texts x (heard es) opens)),
                  done,
                ))
        ])
  punching-Prints (Event.time_out ∷ es) p own g c =
      stepping Stage.punching Event.time_out es p p.printed (heard es) c
        (ended-Prints es (record p { stage = Stage.gave_up }) (heard es) (inl refl))
  punching-Prints (Event.interval_tick ∷ es) p own g c =
      stepping Stage.punching Event.interval_tick es p p.printed (heard es) c
        (punching-Prints es p own.1 g c)
  punching-Prints (Event.type_line line ∷ es) p own g c =
      stepping Stage.punching (Event.type_line line) es p p.printed (heard es) c
        (punching-Prints es p own.1 g c)
