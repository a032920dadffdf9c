-- ===== src/Reliable/Receiver/Order.antt =====
-- What a whole run of the receiver hands on, whatever arrives in whatever order.
use p2p_networking.Base.{
  ℕ, suc, ◌+◌, ◌<◌, ◌≤◌, length, take_of_length-le, ◌≡◌, refl, ◌⊎◌, inl, inr, List, [], ◌∷◌, map,
  Option, none, some, take, All, range, arith, ap, ap₂, subst, sym, ◌∙◌, Option-cases,
}
use p2p_networking.Base.Map.{nat_key}
use p2p_networking.Base.Map
use p2p_networking.Base.Net.{SocketAddr, SocketAddr-discrete}
use p2p_networking.Base.Word.{u32_mod}
use p2p_networking.Reliable.{Packet, ReliableUdp, init}
use p2p_networking.Reliable.Wire.{
  serialize, deserialize, IsWire, normal, deserialize-serialize, deserialize-serialize_seq,
  rest_payload, payload_bytes,
}
use p2p_networking.Reliable.Receiver.{on_packet, recv, recv_all}
use p2p_networking.Reliable.Receiver.Invariant.{Tracks, numbers}
use p2p_networking.Reliable.Receiver.Tracks.{on_packet-Tracks}

-- The packet that a datagram brings: none from a stranger, none if it is too short.
unfoldable pub received : SocketAddr → List ℕ × SocketAddr → Option Packet
received peer (bytes, addr) = elim (SocketAddr-discrete addr peer) [
  | yes _ ↦ deserialize (take 6600 bytes)
  | no _ ↦ none
]

-- Some datagram of the list brings the sequence number `k`.
abbrev pub Arrived : SocketAddr → List (List ℕ × SocketAddr) → ℕ → Type 0
Arrived peer [] k = ⊥
Arrived peer (d ∷ ds) k =
    ((p : Packet) × (received peer d ≡ some p) × (k ≡ p.header.seq)) ⊎ Arrived peer ds k

-- Every packet that a datagram brings satisfies `P`, and its number is not the last `u32`.
abbrev pub Brings : (Packet → Type 0) → SocketAddr → List (List ℕ × SocketAddr) → Type 0
Brings P peer =
    All λ d. (p : Packet) → received peer d ≡ some p → (p.header.seq + 1 < u32_mod) × P p

pub recv-none :
    (peer : SocketAddr) (r : ReliableUdp) (d : List ℕ × SocketAddr)
    → received peer d ≡ none
    → recv peer r d ≡ r
unfolding recv received
recv-none peer r (bytes, addr) h = ground arith

pub recv-some :
    (peer : SocketAddr) (r : ReliableUdp) (d : List ℕ × SocketAddr) (p : Packet)
    → received peer d ≡ some p
    → recv peer r d ≡ on_packet peer p r
unfolding recv received
recv-some peer r (bytes, addr) p h = ground arith

-- A datagram of the peer with a serialized packet brings that packet.
pub received-serialize :
    (peer : SocketAddr) (p : Packet)
    → IsWire p
    → length (serialize p) ≤ 6600
    → received peer (serialize p, peer) ≡ some (normal p)
unfolding received
received-serialize peer p w h =
    ground (arith, take_of_length-le 6600 (serialize p) h, deserialize-serialize p w)

-- The same of the number and the payload alone, where the acknowledged number need not fit.
pub received-serialize_seq :
    (peer : SocketAddr) (p : Packet)
    → p.header.seq < u32_mod
    → length (serialize p) ≤ 6600
    → (q : Packet) × (received peer (serialize p, peer) ≡ some q)
      × (q.header.seq ≡ p.header.seq)
      × (q.payload ≡ rest_payload (payload_bytes p.payload))
unfolding received
received-serialize_seq peer p fits h =
    let (q, e, s, y) = deserialize-serialize_seq p fits in
    (q, ground (arith, take_of_length-le 6600 (serialize p) h), s, y)

seq_eq : {p q : Packet} → some p ≡ some q → p.header.seq ≡ q.header.seq
seq_eq h = cc

pub Tracks-map :
    {S S' : ℕ → Type 0} {P : Packet → Type 0} {lo : ℕ} {r : ReliableUdp}
    → ((k : ℕ) → S k → S' k)
    → ((k : ℕ) → S' k → S k)
    → Tracks S P lo r
    → Tracks S' P lo r
Tracks-map {S} {S'} {P} {lo} {r} f g t = record {
  bound = t.bound;
  ordered = t.ordered;
  genuine = t.genuine;
  ahead = λ k p h. let (a, b, c, d, e) = t.ahead k p h in (a, b, c, d, f k e);
  below = λ k h. f k (t.below k h);
  kept = λ k s. t.kept k (g k s);
}

module _ (P : Packet → Type 0) (peer : SocketAddr) where
  abbrev pub Brought : (ℕ → Type 0) → List ℕ × SocketAddr → ℕ → Type 0
  Brought S d k = S k ⊎ ((p : Packet) × (received peer d ≡ some p) × (k ≡ p.header.seq))

  pub recv-Tracks :
      (S : ℕ → Type 0) (r : ReliableUdp) (d : List ℕ × SocketAddr)
      → Tracks S P (suc r.state.expected_sequence) r
      → ((p : Packet) → received peer d ≡ some p → (p.header.seq + 1 < u32_mod) × P p)
      → Tracks (Brought S d) P (suc (recv peer r d).state.expected_sequence) (recv peer r d)
  recv-Tracks S r d t b = elim (Option-cases (received peer d)) [
    | inl e ↦
        subst (λ x. Tracks (Brought S d) P (suc x.state.expected_sequence) x)
          (sym (recv-none peer r d e))
          (Tracks-map (λ k s. inl s) (λ k s. elim s [ inl x ↦ x | inr (p, q, _) ↦ cc ]) t)
    | inr (p, e) ↦
        subst (λ x. Tracks (Brought S d) P (suc x.state.expected_sequence) x)
          (sym (recv-some peer r d p e))
          (Tracks-map (λ k s. elim s [ inl x ↦ inl x | inr x ↦ inr (p, e, x) ])
            (λ k s. elim s [ inl x ↦ inl x | inr (p', e', x) ↦ inr (x ∙ seq_eq (sym e' ∙ e)) ])
            (on_packet-Tracks S P peer p r t (b p e).0 (b p e).1))
  ]

  recv_all-Tracks :
      (S : ℕ → Type 0) (r : ReliableUdp) (ds : List (List ℕ × SocketAddr))
      → Tracks S P (suc r.state.expected_sequence) r
      → Brings P peer ds
      → Tracks
          (λ k. S k ⊎ Arrived peer ds k)
          P
          (suc (recv_all peer r ds).state.expected_sequence)
          (recv_all peer r ds)
  unfolding recv_all
  recv_all-Tracks S r [] t b =
      Tracks-map (λ k s. inl s) (λ k s. elim s [ inl x ↦ x | inr x ↦ absurd x ]) t
  recv_all-Tracks S r (d ∷ ds) t b =
      Tracks-map
        (λ k s. elim s [ inl (inl x) ↦ inl x | inl (inr x) ↦ inr (inl x) | inr x ↦ inr (inr x) ])
        (λ k s. elim s [ inl x ↦ inl (inl x) | inr (inl x) ↦ inl (inr x) | inr (inr x) ↦ inr x ])
        (recv_all-Tracks (Brought S d) (recv peer r d) ds (recv-Tracks S r d t b.0) b.1)

pub init-Tracks : (P : Packet → Type 0) → Tracks (λ k. ⊥) P 1 init
unfolding Map.get
init-Tracks P = record {
  bound = omega arith;
  ordered = refl;
  genuine = tt;
  ahead = λ k p h. absurd (cc);
  below = λ k h. absurd (omega arith);
  kept = λ k s. absurd s;
}

-- The payloads that the receiver hands on, in order.
abbrev pub payloads : ReliableUdp → List (Option (List ℕ))
payloads r = map (λ o. o.0.payload) r.output_tx

pub payloads-numbers :
    (stream : ℕ → Option (List ℕ)) (out : List (Packet × SocketAddr))
    → All (λ o. o.0.payload ≡ stream o.0.header.seq) out
    → map (λ o. o.0.payload) out ≡ map stream (numbers out)
payloads-numbers stream [] h = refl
payloads-numbers stream ((p, a) ∷ out) h = ap₂ ◌∷◌ h.0 (payloads-numbers stream out h.1)

-- The datagrams of the peer carry the stream: a packet numbered k has the payload `stream k`.
abbrev pub Carries : (ℕ → Option (List ℕ)) → SocketAddr → List (List ℕ × SocketAddr) → Type 0
Carries stream = Brings λ p. p.payload ≡ stream p.header.seq

-- From the initial state, let datagrams arrive that may be lost, repeated, reordered or sent by
-- strangers, where those of the peer carry a stream and none has the last `u32` as its number.
-- Then the receiver has handed on exactly stream 0, …, stream (e - 1), in that order, where e, its
-- expected number, is the least number that has not arrived.
pub recv_all-in_order :
    (stream : ℕ → Option (List ℕ)) (peer : SocketAddr) (ds : List (List ℕ × SocketAddr))
    → Carries stream peer ds
    → (payloads (recv_all peer init ds)
        ≡ map stream (range (recv_all peer init ds).state.expected_sequence))
      × ((k : ℕ) → k < (recv_all peer init ds).state.expected_sequence → Arrived peer ds k)
      × (¬ Arrived peer ds (recv_all peer init ds).state.expected_sequence)
recv_all-in_order stream peer ds c = (
  payloads-numbers stream _ t.genuine ∙ ap (map stream) t.ordered,
  λ k h. elim (t.below k h) [ inl x ↦ absurd x | inr x ↦ x ],
  λ x. elim (t.kept _ (inr x)) [
    | inl h ↦ omega arith
    | inr (p, h) ↦ let a = (t.ahead _ p h).0 in omega arith
  ],
)
  where
    t :
        Tracks
          (λ k. ⊥ ⊎ Arrived peer ds k)
          (λ p. p.payload ≡ stream p.header.seq)
          (suc (recv_all peer init ds).state.expected_sequence)
          (recv_all peer init ds)
    t = recv_all-Tracks _ peer (λ k. ⊥) init ds (init-Tracks _) c
