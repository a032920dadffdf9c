-- ===== src/Peer/Node/Growth.antt =====
-- What the receiver hands on and what the chat sends only grows.
use p2p_networking.Base.{
  ℕ, zero, suc, ◌≡◌, refl, sym, ◌∙◌, ap, List, [], ◌∷◌, ◌++◌, Option, none, some, inl, inr, Bool,
  length, Bool-cases, Option-cases, append_assoc, append-nil, get_elem?, drop, ltb,
}
use p2p_networking.Base.Map
use p2p_networking.Base.Map.{nat_key}
use p2p_networking.Base.Net.{SocketAddr}
use p2p_networking.Base.Word.{add32}
use p2p_networking.Reliable.{Packet, ReliableUdp}
use p2p_networking.Reliable.Receiver.{release, drain, accept, hold, on_packet, recv}
use p2p_networking.Reliable.Receiver.Tracks.{past-output}
use p2p_networking.Reliable.Receiver.Invariant.{order_cases}
use p2p_networking.Reliable.Receiver.Order.{received, recv-none, recv-some}
use p2p_networking.Reliable.Endpoint
use p2p_networking.Reliable.Endpoint.Duplex.{
  send-SameReceiver, check-SameReceiver, acks-SameReceiver,
}
use p2p_networking.Peer.Chat
use p2p_networking.Peer.Chat.{Peer, Stage, same, exit, greets, on_punch, hear_punching, on_line}
use p2p_networking.Peer.Chat.Opening.{hear_chat-queue}

module _ {ℓ} {A : Type ℓ} where
  -- The second list begins with the first.
  pub record Begins (l l' : List A) : Type ℓ where
    pub more : List A
    pub grown : l' ≡ l ++ more

  pub Begins-refl : {l l' : List A} → l' ≡ l → Begins l l'
  Begins-refl {l} e = record { more = []; grown = e ∙ sym (append-nil l) }

  Begins-more : (l more : List A) → Begins l (l ++ more)
  Begins-more l more = record { more = more; grown = refl }

  pub Begins-trans : {l l' l'' : List A} → Begins l l' → Begins l' l'' → Begins l l''
  Begins-trans {l} b c = record {
    more = b.more ++ c.more;
    grown = c.grown ∙ ap (λ x. x ++ c.more) b.grown ∙ append_assoc l b.more c.more;
  }

  get_elem_append :
      (k : ℕ) (l more : List A) (x : A)
      → get_elem? l k ≡ some x
      → drop k (l ++ more) ≡ x ∷ drop (suc k) (l ++ more)
  get_elem_append k [] more x e = cc
  get_elem_append zero (y ∷ l) more x e = cc
  get_elem_append (suc k) (y ∷ l) more x e = get_elem_append k l more x e

  -- An element stays where it is.
  pub Begins-drop :
      (k : ℕ) (x : A) {l l' : List A}
      → Begins l l'
      → get_elem? l k ≡ some x
      → drop k l' ≡ x ∷ drop (suc k) l'
  Begins-drop k x {l} b g = rw b.grown (get_elem_append k l b.more x g)

drain-Begins :
    (fuel : ℕ) (addr : SocketAddr) (next : ℕ) (r : ReliableUdp)
    → Begins r.output_tx (drain fuel addr next r).output_tx
unfolding drain release
drain-Begins zero addr next r = Begins-refl refl
drain-Begins (suc fuel) addr next r = elim (Option-cases (Map.get next r.state.recv_buffer)) [
  | inl e ↦ rw (e, drain) (Begins-refl refl)
  | inr (p, e) ↦
      rw (e, drain)
        (Begins-trans (Begins-more r.output_tx ((p, addr) ∷ []))
          (drain-Begins fuel addr (add32 next 1) (release addr next p r)))
]

accept-Begins :
    (addr : SocketAddr) (p : Packet) (r : ReliableUdp)
    → Begins r.output_tx (accept addr p r).output_tx
unfolding accept
accept-Begins addr p r =
    Begins-trans (Begins-more r.output_tx ((p, addr) ∷ []))
      (drain-Begins (length r.state.recv_buffer) addr (add32 p.header.seq 1) _)

on_packet-Begins :
    (addr : SocketAddr) (p : Packet) (r : ReliableUdp)
    → Begins r.output_tx (on_packet addr p r).output_tx
unfolding on_packet hold
on_packet-Begins addr p r = elim (order_cases p.header.seq r.state.expected_sequence) [
  | inl (c, _) ↦ rw (c, on_packet) (Begins-refl (past-output addr p r))
  | inr (inl (c, _)) ↦ rw (c, on_packet) (accept-Begins addr p r)
  | inr (inr (c, _)) ↦ rw (c, on_packet) (Begins-refl refl)
]

recv-Begins :
    (addr : SocketAddr) (d : List ℕ × SocketAddr) (r : ReliableUdp)
    → Begins r.output_tx (recv addr r d).output_tx
recv-Begins addr d r = elim (Option-cases (received addr d)) [
  | inl e ↦ rw (recv-none addr r d e) (Begins-refl refl)
  | inr (p, e) ↦ rw (recv-some addr r d p e) (on_packet-Begins addr p r)
]

pub output-Begins :
    (addr : SocketAddr) (ts : List Endpoint.Event) (r : ReliableUdp)
    → Begins r.output_tx (Endpoint.run addr r ts).output_tx
unfolding Endpoint.run Endpoint.step
output-Begins addr [] r = Begins-refl refl
output-Begins addr (Endpoint.Event.sends now bytes ∷ ts) r =
    Begins-trans (Begins-refl (send-SameReceiver addr now bytes r).output) (output-Begins addr ts _)
output-Begins addr (Endpoint.Event.receives d ∷ ts) r =
    Begins-trans (recv-Begins addr d r) (output-Begins addr ts (recv addr r d))
output-Begins addr (Endpoint.Event.checks now ∷ ts) r =
    Begins-trans (Begins-refl (check-SameReceiver addr now r).output) (output-Begins addr ts _)
output-Begins addr (Endpoint.Event.acknowledges ∷ ts) r =
    Begins-trans (Begins-refl (acks-SameReceiver r).output) (output-Begins addr ts _)

on_punch-Begins : (p : Peer) → Begins p.packet_tx (on_punch p).packet_tx
unfolding on_punch
on_punch-Begins p = elim (Bool-cases (ltb p.punches 6)) [
  | inl e ↦ rw e (Begins-more p.packet_tx _)
  | inr e ↦ rw e (Begins-refl refl)
]

hear_punching-Begins :
    (o : Option (List ℕ)) (p : Peer) → Begins p.packet_tx (hear_punching o p).packet_tx
unfolding hear_punching
hear_punching-Begins none p = Begins-refl refl
hear_punching-Begins (some x) p = elim (Bool-cases (greets x)) [
  | inl e ↦ rw e (Begins-more p.packet_tx _)
  | inr e ↦ rw e (Begins-refl refl)
]

module _ (utf8 : List ℕ → Bool) (peer : SocketAddr) where
  on_line-Begins :
      (line : List ℕ) (p : Peer) → Begins p.packet_tx (on_line utf8 peer line p).packet_tx
  unfolding on_line
  on_line-Begins [] p = Begins-refl refl
  on_line-Begins (b ∷ bs) p = elim (Bool-cases (same (b ∷ bs) exit)) [
    | inl e ↦ rw e (Begins-more p.packet_tx _)
    | inr e ↦ rw e (Begins-more p.packet_tx _)
  ]

  on_event-Begins :
      (s : Stage) (e : Chat.Event) (p : Peer)
      → Begins p.packet_tx (Chat.on_event utf8 peer s e p).packet_tx
  unfolding Chat.on_event
  on_event-Begins Stage.punching Chat.Event.punch p = on_punch-Begins p
  on_event-Begins Stage.punching (Chat.Event.hear (packet, addr)) p =
      hear_punching-Begins packet.payload p
  on_event-Begins Stage.punching Chat.Event.time_out p = Begins-refl refl
  on_event-Begins Stage.punching Chat.Event.interval_tick p = Begins-refl refl
  on_event-Begins Stage.punching (Chat.Event.type_line line) p = Begins-refl refl
  on_event-Begins Stage.chatting Chat.Event.punch p = on_punch-Begins p
  on_event-Begins Stage.chatting (Chat.Event.hear (packet, addr)) p =
      Begins-refl (hear_chat-queue utf8 peer packet.payload addr p)
  on_event-Begins Stage.chatting Chat.Event.time_out p = Begins-refl refl
  on_event-Begins Stage.chatting Chat.Event.interval_tick p = (Begins-more p.packet_tx _)
  on_event-Begins Stage.chatting (Chat.Event.type_line line) p = on_line-Begins line p
  on_event-Begins Stage.gave_up e p = Begins-refl refl
  on_event-Begins Stage.left e p = Begins-refl refl
  on_event-Begins Stage.closed e p = Begins-refl refl

  pub payloads-Begins :
      (es : List Chat.Event) (p : Peer) → Begins p.packet_tx (Chat.run utf8 peer p es).packet_tx
  unfolding Chat.run Chat.step
  payloads-Begins [] p = Begins-refl refl
  payloads-Begins (e ∷ es) p =
      Begins-trans (on_event-Begins p.stage e p) (payloads-Begins es (Chat.step utf8 peer p e))
