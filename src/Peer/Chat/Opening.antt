-- ===== src/Peer/Chat/Opening.antt =====
-- What a peer sends first.
use p2p_networking.Base.{
  ap, ℕ, suc, ◌<◌, ◌≡◌, ◌⊎◌, refl, List, [], ◌∷◌, ◌++◌, Option, none, some, Bool, true, arith,
  length, length-append, All, All-append, Bool-cases, inl, inr, ℕ_discrete, ltb,
}
use p2p_networking.Base.Net.{SocketAddr}
use p2p_networking.Peer.Chat.{
  Peer, Stage, Event, start, same, hole_punch, connected, keep_alive, goodbye, exit, greets, queue,
  on_punch, hear_punching, hear_message, hear_chat, on_line, on_event, step, run,
}

-- The first payload opens the chat.
abbrev pub Greets : List (List ℕ) → Type 0
Greets [] = Unit {0}
Greets (x ∷ xs) = greets x ≡ true

-- The peer's first payload opens the chat of the other, in the chat it has sent one, and it sends
-- no empty payload.
pub record Opened (p : Peer) : Type 0 where
  pub opens : Greets p.packet_tx
  pub begun : p.stage ≡ Stage.chatting → 0 < length p.packet_tx
  pub full : All (λ x. 0 < length x) p.packet_tx

greetings : (greets hole_punch ≡ true) × (greets connected ≡ true)
unfolding greets same ℕ_discrete
greetings = (refl, refl)

Greets-append :
    (x : List ℕ) (l : List (List ℕ))
    → Greets l
    → (greets x ≡ true) ⊎ (0 < length l)
    → Greets (l ++ x ∷ [])
Greets-append x [] g (inl h) = h
Greets-append x [] g (inr h) = absurd (omega arith)
Greets-append x (y ∷ l) g h = g

-- One more payload: one that opens, or not the first.
queue-Opened :
    (x : List ℕ) (p : Peer)
    → Greets p.packet_tx
    → All (λ y. 0 < length y) p.packet_tx
    → 0 < length x
    → (greets x ≡ true) ⊎ (0 < length p.packet_tx)
    → Opened (queue x p)
queue-Opened x p opens full some_bytes h = record {
  opens = Greets-append x p.packet_tx opens h;
  begun = λ e. omega (arith, length-append p.packet_tx (x ∷ []));
  full = All-append (λ y. 0 < length y) p.packet_tx (x ∷ []) full (some_bytes, tt);
}

on_punch-Opened : (p : Peer) → Opened p → Opened (on_punch p)
unfolding on_punch
on_punch-Opened p o = elim (Bool-cases (ltb p.punches 6)) [
  | inl e ↦ rw e (
      queue-Opened hole_punch (record p { punches = suc p.punches }) o.opens o.full (omega arith)
        (inl greetings.0))
  | inr e ↦ rw e o
]

hear_punching-Opened : (x : Option (List ℕ)) (p : Peer) → Opened p → Opened (hear_punching x p)
unfolding hear_punching
hear_punching-Opened none p o = o
hear_punching-Opened (some x) p o = elim (Bool-cases (greets x)) [
  | inl e ↦ rw e (
      queue-Opened connected (record p { stage = Stage.chatting }) o.opens o.full (omega arith)
        (inl greetings.1))
  | inr e ↦ rw e o
]

-- What leaves the queue alone, and does not start the chat.
same-Opened :
    (p p' : Peer)
    → p'.packet_tx ≡ p.packet_tx
    → (p'.stage ≡ Stage.chatting → p.stage ≡ Stage.chatting)
    → Opened p
    → Opened p'
same-Opened p p' e later o = record {
  opens = rw e o.opens;
  begun = λ c. rw e (o.begun (later c));
  full = rw e o.full;
}

module _ (utf8 : List ℕ → Bool) (peer : SocketAddr) where
  pub hear_chat-queue :
      (x : Option (List ℕ)) (addr : SocketAddr) (p : Peer)
      → (hear_chat utf8 peer x addr p).packet_tx ≡ p.packet_tx
  unfolding hear_chat hear_message
  hear_chat-queue none addr p = refl
  hear_chat-queue (some x) addr p = ground arith

  on_line-Opened :
      (line : List ℕ) (p : Peer)
      → 0 < length p.packet_tx
      → Opened p
      → Opened (on_line utf8 peer line p)
  unfolding on_line
  on_line-Opened [] p l o = o
  on_line-Opened (b ∷ bs) p l o = elim (Bool-cases (same (b ∷ bs) exit)) [
    | inl e ↦ rw e (
        queue-Opened goodbye (record p { stage = Stage.left }) o.opens o.full (omega arith) (inr l))
    | inr e ↦ rw e (queue-Opened (b ∷ bs) p o.opens o.full (omega arith) (inr l))
  ]

  on_event-Opened :
      (s : Stage) (e : Event) (p : Peer)
      → p.stage ≡ s
      → Opened p
      → Opened (on_event utf8 peer s e p)
  unfolding on_event
  on_event-Opened Stage.punching Event.punch p c o = on_punch-Opened p o
  on_event-Opened Stage.punching (Event.hear (packet, addr)) p c o =
      hear_punching-Opened packet.payload p o
  on_event-Opened Stage.punching Event.time_out p c o =
      same-Opened p (record p { stage = Stage.gave_up }) refl (λ e. cc) o
  on_event-Opened Stage.punching Event.interval_tick p c o = o
  on_event-Opened Stage.punching (Event.type_line line) p c o = o
  on_event-Opened Stage.chatting Event.punch p c o = on_punch-Opened p o
  on_event-Opened Stage.chatting (Event.hear (packet, addr)) p c o =
      same-Opened p (hear_chat utf8 peer packet.payload addr p)
        (hear_chat-queue packet.payload addr p) (λ e. c) o
  on_event-Opened Stage.chatting Event.time_out p c o = o
  on_event-Opened Stage.chatting Event.interval_tick p c o =
      queue-Opened keep_alive p o.opens o.full (omega arith) (inr (o.begun c))
  on_event-Opened Stage.chatting (Event.type_line line) p c o = on_line-Opened line p (o.begun c) o
  on_event-Opened Stage.gave_up e p c o = o
  on_event-Opened Stage.left e p c o = o
  on_event-Opened Stage.closed e p c o = o

  run-Opened : (es : List Event) (p : Peer) → Opened p → Opened (run utf8 peer p es)
  unfolding run step
  run-Opened [] p o = o
  run-Opened (e ∷ es) p o = run-Opened es (step utf8 peer p e) (on_event-Opened p.stage e p refl o)

  pub start-Opened : (es : List Event) → Opened (run utf8 peer start es)
  start-Opened es = run-Opened es start (record { opens = tt; begun = λ e. absurd (cc); full = tt })

  -- An event in a stage that is known.
  pub run-event :
      (s : Stage) (e : Event) (es : List Event) (p : Peer)
      → p.stage ≡ s
      → run utf8 peer p (e ∷ es) ≡ run utf8 peer (on_event utf8 peer s e p) es
  unfolding run step
  run-event s e es p c = ap (λ x. run utf8 peer (on_event utf8 peer x e p) es) c
