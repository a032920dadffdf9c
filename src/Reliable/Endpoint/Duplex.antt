-- ===== src/Reliable/Endpoint/Duplex.antt =====
-- Two endpoints that both send and receive: what each hands on of the other's stream.
use p2p_networking.Base.{
  ℕ, suc, ◌≡◌, ◌⊎◌, refl, ◌∙◌, ap, List, [], ◌∷◌, Option, inl, inr, map, range,
}
use p2p_networking.Base.Map.{nat_key}
use p2p_networking.Base.Net.{SocketAddr}
use p2p_networking.Reliable.{AckInfo, Packet, PacketType, ReliableUdp, init}
use p2p_networking.Reliable.Receiver.{recv}
use p2p_networking.Reliable.Receiver.Invariant.{Tracks}
use p2p_networking.Reliable.Receiver.Under.{Under, recv-Under}
use p2p_networking.Reliable.Receiver.Order.{
  Arrived, Carries, Brings, Brought, Tracks-map, recv-Tracks, init-Tracks, payloads,
  payloads-numbers,
}
use p2p_networking.Reliable.Sender.{send, check_retransmission, send_acks, periodic_acks}
use p2p_networking.Reliable.Sender.Retransmit.{check_retransmission_lem}
use p2p_networking.Reliable.Endpoint.{Event, sends, receives, checks, acknowledges, step, run}
use p2p_networking.Reliable.Endpoint.Forever.{periodic_acks-state}

-- The datagrams that reach the endpoint.
abbrev pub arrivals : List Event → List (List ℕ × SocketAddr)
arrivals [] = []
arrivals (receives d ∷ es) = d ∷ arrivals es
arrivals (_ ∷ es) = arrivals es

-- The two endpoints agree in the receiver's half.
pub record SameReceiver (r' r : ReliableUdp) : Type 0 where
  pub expected : r'.state.expected_sequence ≡ r.state.expected_sequence
  pub buffer : r'.state.recv_buffer ≡ r.state.recv_buffer
  pub output : r'.output_tx ≡ r.output_tx

pub send-SameReceiver :
    (peer : SocketAddr) (now : ℕ) (bytes : List ℕ) (r : ReliableUdp)
    → SameReceiver (send peer now r (PacketType.payload bytes)) r
unfolding send
send-SameReceiver peer now bytes r = record { expected = refl; buffer = refl; output = refl }

pub check-SameReceiver :
    (peer : SocketAddr) (now : ℕ) (r : ReliableUdp)
    → SameReceiver (check_retransmission peer now r) r
check-SameReceiver peer now r =
    rw (check_retransmission_lem peer now r)
      (record { expected = refl; buffer = refl; output = refl })

send_acks-output :
    (queue : List AckInfo) (r : ReliableUdp) → (send_acks queue r).output_tx ≡ r.output_tx
unfolding send_acks
send_acks-output [] r = refl
send_acks-output (a ∷ queue) r = send_acks-output queue _

pub acks-SameReceiver : (r : ReliableUdp) → SameReceiver (periodic_acks r) r
unfolding periodic_acks
acks-SameReceiver r = record {
  expected = ap (λ s. s.expected_sequence) (periodic_acks-state r);
  buffer = ap (λ s. s.recv_buffer) (periodic_acks-state r);
  output = send_acks-output r.ack_tx _;
}

Tracks-same :
    {S : ℕ → Type 0} {P : Packet → Type 0} {r' r : ReliableUdp}
    → SameReceiver r' r
    → Tracks S P (suc r.state.expected_sequence) r
    → Tracks S P (suc r'.state.expected_sequence) r'
Tracks-same s t = record {
  bound = rw s.expected t.bound;
  ordered = rw (s.output, s.expected) t.ordered;
  genuine = rw s.output t.genuine;
  ahead = rw (s.buffer, s.expected) t.ahead;
  below = rw s.expected t.below;
  kept = rw (s.buffer, s.expected) t.kept;
}

module _ (P : Packet → Type 0) (peer : SocketAddr) where
  run-Tracks :
      (S : ℕ → Type 0) (es : List Event) (r : ReliableUdp)
      → Tracks S P (suc r.state.expected_sequence) r
      → Brings P peer (arrivals es)
      → Tracks
          (λ k. S k ⊎ Arrived peer (arrivals es) k)
          P
          (suc (run peer r es).state.expected_sequence)
          (run peer r es)
  unfolding run step
  run-Tracks S [] r t b =
      Tracks-map (λ k s. inl s) (λ k s. elim s [ inl x ↦ x | inr x ↦ absurd x ]) t
  run-Tracks S (sends now bytes ∷ es) r t b =
      run-Tracks S es _ (Tracks-same (send-SameReceiver peer now bytes r) t) b
  run-Tracks S (receives d ∷ es) r t b =
      Tracks-map
        (λ k s. elim s [ inl (inl x) ↦ inl x | inl (inr x) ↦ inr (inl x) | inr x ↦ inr (inr x) ])
        (λ k s. elim s [ inl x ↦ inl (inl x) | inr (inl x) ↦ inl (inr x) | inr (inr x) ↦ inr x ])
        (run-Tracks (Brought P peer S d) es (recv peer r d) (recv-Tracks P peer S r d t b.0) b.1)
  run-Tracks S (checks now ∷ es) r t b =
      run-Tracks S es _ (Tracks-same (check-SameReceiver peer now r) t) b
  run-Tracks S (acknowledges ∷ es) r t b = run-Tracks S es _ (Tracks-same (acks-SameReceiver r) t) b

run-Under :
    (peer : SocketAddr) (es : List Event) (r : ReliableUdp)
    → Under peer r
    → Under peer (run peer r es)
unfolding run step
run-Under peer [] r u = u
run-Under peer (sends now bytes ∷ es) r u =
    run-Under peer es _ (rw (send-SameReceiver peer now bytes r).output u)
run-Under peer (receives d ∷ es) r u = run-Under peer es (recv peer r d) (recv-Under peer d r u)
run-Under peer (checks now ∷ es) r u =
    run-Under peer es _ (rw (check-SameReceiver peer now r).output u)
run-Under peer (acknowledges ∷ es) r u = run-Under peer es _ (rw (acks-SameReceiver r).output u)

-- From its initial state, whatever it sends itself, an endpoint hands on the parts of its peer's
-- stream in order, up to the number that it expects, and all under the peer's address.
pub run-in_order :
    (stream : ℕ → Option (List ℕ)) (peer : SocketAddr) (es : List Event)
    → Carries stream peer (arrivals es)
    → (payloads (run peer init es) ≡ map stream (range (run peer init es).state.expected_sequence))
      × Under peer (run peer init es)
run-in_order stream peer es c =
    (payloads-numbers stream _ t.genuine ∙ ap (map stream) t.ordered, run-Under peer es init tt)
  where
    t :
        Tracks
          (λ k. ⊥ ⊎ Arrived peer (arrivals es) k)
          (λ p. p.payload ≡ stream p.header.seq)
          (suc (run peer init es).state.expected_sequence)
          (run peer init es)
    t = run-Tracks _ peer (λ k. ⊥) es init (init-Tracks _) c
