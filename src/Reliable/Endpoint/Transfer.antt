-- ===== src/Reliable/Endpoint/Transfer.antt =====
-- From one endpoint's sends to the other's output, over a network that loses, repeats and reorders.
use p2p_networking.Base.{
  ℕ, ◌+◌, ◌<◌, ◌≡◌, sym, ◌∙◌, ap, List, [], ◌∷◌, map, Option, none, some, ◌⊎◌, inl, inr, All,
  All-map, range, arith, ap₂,
}
use p2p_networking.Base.Net.{SocketAddr}
use p2p_networking.Base.Word.{u32_mod}
use p2p_networking.Reliable.{Packet, init}
use p2p_networking.Reliable.Wire.{serialize}
use p2p_networking.Reliable.Receiver.{recv_all}
use p2p_networking.Reliable.Receiver.Order.{
  received, received-serialize_seq, Arrived, Carries, payloads, recv_all-in_order,
}
use p2p_networking.Reliable.Endpoint.{Event, run}
use p2p_networking.Reliable.Endpoint.Stream.{IsPart, From, Sends, init-From}

some_eq : {p q : Packet} → some p ≡ some q → p ≡ q
some_eq h = cc

-- The bytes are those of a datagram of the list.
abbrev pub SentBy : List ℕ → List (List ℕ × SocketAddr) → Type 0
SentBy bytes [] = ⊥
SentBy bytes (d ∷ ds) = (bytes ≡ d.0) ⊎ SentBy bytes ds

-- What arrives in the peer's name was sent by it.
abbrev pub Delivers : SocketAddr → List (List ℕ × SocketAddr) → List (List ℕ × SocketAddr) → Type 0
Delivers peer socket = All λ d. d.1 ≡ peer → SentBy d.0 socket

module _ (stream : ℕ → Option (List ℕ)) (peer : SocketAddr) where
  SentBy-IsPart :
      (bytes : List ℕ) (socket : List (List ℕ × SocketAddr))
      → All (From stream) socket
      → SentBy bytes socket
      → (p : Packet) × (bytes ≡ serialize p) × IsPart stream p
  SentBy-IsPart bytes (d ∷ ds) h (inl e) = let (p, q, g) = h.0 in (p, e ∙ q, g)
  SentBy-IsPart bytes (d ∷ ds) h (inr m) = SentBy-IsPart bytes ds h.1 m
  SentBy-IsPart bytes [] h m = absurd m

  pub received-sender :
      (d : List ℕ × SocketAddr) (p : Packet) → received peer d ≡ some p → d.1 ≡ peer
  unfolding received
  received-sender (bytes, addr) p h = ground arith

  part-received :
      (p q : Packet)
      → IsPart stream p
      → received peer (serialize p, peer) ≡ some q
      → (q.header.seq + 1 < u32_mod) × (q.payload ≡ stream q.header.seq)
  part-received p q g e =
      let (q', e', number, payload) =
        received-serialize_seq peer p (omega (arith, g.number)) g.short in
      let same : q ≡ q' = some_eq (sym e ∙ e') in
      let number' : q.header.seq ≡ p.header.seq = rw same number in
      (
        rw number' g.number,
        ap (λ (x : Packet). x.payload) same ∙ payload ∙ g.part ∙ ap stream (sym number'),
      )

  pub part-arrived :
      (socket : List (List ℕ × SocketAddr)) (d : List ℕ × SocketAddr) (q : Packet)
      → All (From stream) socket
      → (d.1 ≡ peer → SentBy d.0 socket)
      → received peer d ≡ some q
      → (q.header.seq + 1 < u32_mod) × (q.payload ≡ stream q.header.seq)
  part-arrived socket d q h m e =
      let own = received-sender d q e in
      let (p, bytes, g) = SentBy-IsPart d.0 socket h (m own) in
      part-received p q g (ap₂ (λ x y. received peer (x, y)) (sym bytes) (sym own) ∙ e)

  pub Delivers-Carries :
      (socket ds : List (List ℕ × SocketAddr))
      → All (From stream) socket
      → Delivers peer socket ds
      → Carries stream peer ds
  Delivers-Carries socket ds h = All-map (λ d m q e. part-arrived socket d q h m e) ds

-- One endpoint, from its initial state, sends a stream of payloads in any interleaving with
-- datagrams, retransmissions and acknowledgements; part 0 of the stream is an acknowledgement,
-- which has no payload. The other endpoint receives datagrams in any order, with losses and
-- repetitions, and those in the sender's name were sent by it. Then the receiver hands on exactly
-- the first e parts, in order, where e, its expected number, is the least number not yet arrived.
pub transfer_in_order :
    (stream : ℕ → Option (List ℕ)) (sender receiver : SocketAddr) (es : List Event)
    (ds : List (List ℕ × SocketAddr))
    → stream 0 ≡ none
    → Sends stream 0 es
    → Delivers sender (run receiver init es).socket ds
    → (payloads (recv_all sender init ds)
        ≡ map stream (range (recv_all sender init ds).state.expected_sequence))
      × ((k : ℕ) → k < (recv_all sender init ds).state.expected_sequence → Arrived sender ds k)
      × (¬ Arrived sender ds (recv_all sender init ds).state.expected_sequence)
transfer_in_order stream sender receiver es ds start f m = recv_all-in_order stream sender ds (
    Delivers-Carries stream sender (run receiver init es).socket ds
      (init-From stream start receiver es f) m)
