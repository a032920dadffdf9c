-- ===== src/Peer/Chat/Lines.antt =====
-- What a peer sends of the lines that are typed, and what the other prints of what it hears.
use p2p_networking.Base.{
  ℕ, ◌≡◌, refl, sym, ◌∙◌, ap, List, [], ◌∷◌, ◌++◌, Option, none, some, Bool, true, false, arith,
  if◌then◌else◌, append_assoc, append-nil, Bool-cases, inl, inr, ℕ_discrete,
}
use p2p_networking.Base.Net.{SocketAddr}
use p2p_networking.Peer.Chat.Opening.{hear_chat-queue}
use p2p_networking.Peer.Chat.{
  Peer, Stage, Event, same, same_ip, hole_punch, connected, keep_alive, goodbye, exit, greets,
  queue, on_punch, hear_punching, hear_chat, on_line, on_event, step, run,
}

-- The payloads that the packets heard carry.
abbrev pub heard : List Event → List (List ℕ)
heard [] = []
heard (Event.hear (packet, addr) ∷ es) = elim packet.payload [
  | none ↦ heard es
  | some x ↦ x ∷ heard es
]
heard (_ ∷ es) = heard es

-- What is heard comes from the IP.
abbrev pub FromPeer : SocketAddr → Event → Type 0
FromPeer peer (Event.hear (packet, addr)) = same_ip addr peer ≡ true
FromPeer peer _ = Unit {0}

module _ (utf8 : List ℕ → Bool) where
  -- A text, and none of the words that the programs send each other.
  unfoldable pub is_text : List ℕ → Bool
  is_text x =
      if same x keep_alive
      then false
      else if same x goodbye
      then false
      else if greets x
      then false
      else utf8 x

  unfoldable pub texts : List (List ℕ) → List (List ℕ)
  texts [] = []
  texts (x ∷ xs) = let rest = texts xs in if is_text x then x ∷ rest else rest

  pub texts-append : (xs ys : List (List ℕ)) → texts (xs ++ ys) ≡ texts xs ++ texts ys
  unfolding texts
  texts-append [] ys = refl
  texts-append (x ∷ xs) ys = elim (Bool-cases (is_text x)) [
    | inl e ↦ rw e (ap (◌∷◌ x) (texts-append xs ys))
    | inr e ↦ rw e (texts-append xs ys)
  ]

  texts-queue :
      (x : List ℕ) (p : Peer) → is_text x ≡ false → texts (queue x p).packet_tx ≡ texts p.packet_tx
  unfolding texts
  texts-queue x p e =
      texts-append p.packet_tx (x ∷ []) ∙ rw (e, texts) (append-nil (texts p.packet_tx))

  words :
      (is_text hole_punch ≡ false)
      × (is_text connected ≡ false)
      × (is_text keep_alive ≡ false)
      × (is_text goodbye ≡ false)
  unfolding is_text same greets ℕ_discrete
  words = (refl, refl, refl, refl)

  -- The lines that are typed in the chat before "exit", but for empty ones.
  abbrev pub line_of : List ℕ → List (List ℕ)
  line_of [] = []
  line_of (b ∷ bs) = if same (b ∷ bs) exit then [] else (b ∷ bs) ∷ []

  abbrev pub said_at : Stage → Event → List (List ℕ)
  said_at Stage.chatting (Event.type_line line) = line_of line
  said_at _ e = []

  unfoldable pub said : SocketAddr → Peer → List Event → List (List ℕ)
  said peer p [] = []
  said peer p (e ∷ es) = said_at p.stage e ++ said peer (step utf8 peer p e) es

  nothing_more :
      (p p' : Peer)
      → texts p'.packet_tx ≡ texts p.packet_tx
      → texts p'.packet_tx ≡ texts p.packet_tx ++ texts []
  unfolding texts
  nothing_more p p' e = e ∙ sym (append-nil (texts p.packet_tx))

  on_punch-texts : (p : Peer) → texts (on_punch p).packet_tx ≡ texts p.packet_tx
  unfolding on_punch
  on_punch-texts p = ground (arith, texts-queue hole_punch p words.0)

  hear_punching-texts :
      (o : Option (List ℕ)) (p : Peer) → texts (hear_punching o p).packet_tx ≡ texts p.packet_tx
  unfolding hear_punching
  hear_punching-texts none p = refl
  hear_punching-texts (some x) p = ground (arith, texts-queue connected p words.1)

  on_line-texts :
      (peer : SocketAddr) (line : List ℕ) (p : Peer)
      → texts (on_line utf8 peer line p).packet_tx ≡ texts p.packet_tx ++ texts (line_of line)
  unfolding on_line
  on_line-texts peer [] p = nothing_more p p refl
  on_line-texts peer (b ∷ bs) p = elim (Bool-cases (same (b ∷ bs) exit)) [
    | inl e ↦ rw e (nothing_more p (queue goodbye p) (texts-queue goodbye p words.3))
    | inr e ↦ rw e (texts-append p.packet_tx ((b ∷ bs) ∷ []))
  ]

  on_event-texts :
      (peer : SocketAddr) (s : Stage) (e : Event) (p : Peer)
      → texts (on_event utf8 peer s e p).packet_tx ≡ texts p.packet_tx ++ texts (said_at s e)
  unfolding on_event
  on_event-texts peer Stage.punching Event.punch p = nothing_more p (on_punch p) (on_punch-texts p)
  on_event-texts peer Stage.punching (Event.hear (packet, addr)) p =
      nothing_more p (hear_punching packet.payload p) (hear_punching-texts packet.payload p)
  on_event-texts peer Stage.punching Event.time_out p = nothing_more p p refl
  on_event-texts peer Stage.punching Event.interval_tick p = nothing_more p p refl
  on_event-texts peer Stage.punching (Event.type_line line) p = nothing_more p p refl
  on_event-texts peer Stage.chatting Event.punch p = nothing_more p (on_punch p) (on_punch-texts p)
  on_event-texts peer Stage.chatting (Event.hear (packet, addr)) p =
      nothing_more p (hear_chat utf8 peer packet.payload addr p)
        (ap texts (hear_chat-queue utf8 peer packet.payload addr p))
  on_event-texts peer Stage.chatting Event.time_out p = nothing_more p p refl
  on_event-texts peer Stage.chatting Event.interval_tick p =
      nothing_more p (queue keep_alive p) (texts-queue keep_alive p words.2)
  on_event-texts peer Stage.chatting (Event.type_line line) p = on_line-texts peer line p
  on_event-texts peer Stage.gave_up e p = nothing_more p p refl
  on_event-texts peer Stage.left e p = nothing_more p p refl
  on_event-texts peer Stage.closed e p = nothing_more p p refl

  -- Of what a peer sends, the texts are those among the lines that were typed, in order.
  pub run-texts :
      (peer : SocketAddr) (es : List Event) (p : Peer)
      → texts (run utf8 peer p es).packet_tx ≡ texts p.packet_tx ++ texts (said peer p es)
  unfolding run said step
  run-texts peer [] p = nothing_more p p refl
  run-texts peer (e ∷ es) p =
      run-texts peer es (step utf8 peer p e)
      ∙ ap (λ l. l ++ texts (said peer (step utf8 peer p e) es)) (on_event-texts peer p.stage e p)
      ∙ append_assoc (texts p.packet_tx) (texts (said_at p.stage e))
          (texts (said peer (step utf8 peer p e) es))
      ∙ ap (λ l. texts p.packet_tx ++ l)
          (sym (texts-append (said_at p.stage e) (said peer (step utf8 peer p e) es)))
