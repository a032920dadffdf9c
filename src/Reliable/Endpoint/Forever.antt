-- ===== src/Reliable/Endpoint/Forever.antt =====
-- Nothing leaves `unacked`: no operation of the source removes an entry, and so every packet is
-- sent again and again.
use mathlib.Core.Option
use p2p_networking.Base.{
  ◌++◌, ◌⊎◌, inl, inr, true, subst, Bool-cases, ℕ_discrete, sym, ℕ, ◌+◌, ◌≤◌, ◌<◌, ◌≡◌, ◌≢◌, refl,
  ◌∙◌, ap, List, [], ◌∷◌, some, arith,
}
use p2p_networking.Base.Map
use p2p_networking.Base.Map.{Map, nat_key, get-insert_ne}
use p2p_networking.Base.Net.{SocketAddr}
use p2p_networking.Base.Word.{u32_mod, add32}
use p2p_networking.Reliable.{AckInfo, Packet, SentPacket, ReliableUdp, SharedState}
use p2p_networking.Reliable.Wire.{serialize}
use p2p_networking.Reliable.Sender.{is_due, send, send_acks, periodic_acks}
use p2p_networking.Reliable.Sender.Retransmit.{
  due, datagrams, check_retransmission_lem, get-collect_due, refreshed,
}
use p2p_networking.Reliable.Endpoint.{
  Event, sends, receives, checks, acknowledges, step, run, sends_of, sends_of-cons, recv-SameSender,
}

-- The state holds the packet under the number, which has been given out; it was sent at `t` or
-- before.
pub record Holds (k : ℕ) (p : Packet) (t : ℕ) (s : SharedState) : Type 0 where
  pub given : k ≤ s.next_seq
  pub entry : (e : SentPacket) × (Map.get k s.unacked ≡ some e) × (e.packet ≡ p) × (e.time_sent ≤ t)

-- The scans of the events are at the time `t` or before.
abbrev pub ScansBy : ℕ → List Event → Type 0
ScansBy t [] = Unit {0}
ScansBy t (checks now ∷ es) = (now ≤ t) × ScansBy t es
ScansBy t (_ ∷ es) = ScansBy t es

-- The datagram is in the list.
abbrev pub Sent : List ℕ × SocketAddr → List (List ℕ × SocketAddr) → Type 0
Sent d [] = ⊥
Sent d (x ∷ xs) = (d ≡ x) ⊎ Sent d xs

due-Sent :
    (peer : SocketAddr) (now k : ℕ) (m : Map ℕ SentPacket) (e : SentPacket)
    → Map.get k m ≡ some e
    → is_due now e ≡ true
    → Sent (serialize e.packet, peer) (datagrams peer (due now m))
unfolding due Map.get
due-Sent peer now k [] e h d = absurd (cc)
due-Sent peer now k ((j, x) ∷ m) e h d = elim (ℕ_discrete j k) [
  | yes q ↦
      let same : x ≡ e = ground (arith, h) in
      let now_due : is_due now x ≡ true = ap (is_due now) same ∙ d in
      rw now_due (inl (ap (λ (y : SentPacket). (serialize y.packet, peer)) (sym same)))
  | no q ↦
      let rest = due-Sent peer now k m e (ground (arith, h)) d in
      elim (Bool-cases (is_due now x)) [ inl b ↦ rw b (inr rest) | inr b ↦ rw b rest ]
]

is_due-late : (now : ℕ) (e : SentPacket) → e.time_sent + 2000 < now → is_due now e ≡ true
is_due-late now e h = ground arith

send_acks-state : (queue : List AckInfo) (r : ReliableUdp) → (send_acks queue r).state ≡ r.state
unfolding send_acks
send_acks-state [] r = refl
send_acks-state (a ∷ queue) r = send_acks-state queue _

pub periodic_acks-state : (r : ReliableUdp) → (periodic_acks r).state ≡ r.state
unfolding periodic_acks
periodic_acks-state r = send_acks-state r.ack_tx _

refreshed-packet :
    (now t : ℕ) (e : SentPacket)
    → now ≤ t
    → e.time_sent ≤ t
    → ((refreshed now e).packet ≡ e.packet) × ((refreshed now e).time_sent ≤ t)
refreshed-packet now t e h l = (ground arith, ground arith)

ScansBy-cons :
    (t : ℕ) (e : Event) (es : List Event) → ScansBy t (e ∷ es) → ScansBy t (e ∷ []) × ScansBy t es
ScansBy-cons t (sends now bytes) es h = (tt, h)
ScansBy-cons t (receives d) es h = (tt, h)
ScansBy-cons t (checks now) es h = ((h.0, tt), h.1)
ScansBy-cons t acknowledges es h = (tt, h)

module _ (peer : SocketAddr) (k : ℕ) (p : Packet) (t : ℕ) where
  step-Holds :
      (r : ReliableUdp) (e : Event)
      → Holds k p t r.state
      → r.state.next_seq + sends_of (e ∷ []) < u32_mod
      → ScansBy t (e ∷ [])
      → Holds k p t (step peer r e).state
        × ((step peer r e).state.next_seq ≡ r.state.next_seq + sends_of (e ∷ []))
  unfolding step send
  step-Holds r (sends now bytes) h fits by =
      let next' : add32 r.state.next_seq 1 ≡ r.state.next_seq + 1 = omega arith in
      let other : add32 r.state.next_seq 1 ≢ k = λ q. omega (arith, h.given) in
      (
        record {
          given = omega (arith, h.given);
          entry = (
            h.entry.0,
            get-insert_ne (add32 r.state.next_seq 1) k _ r.state.unacked other ∙ h.entry.1,
            h.entry.2,
            h.entry.3,
          );
        },
        next',
      )
  step-Holds r (receives d) h fits by =
      let same = recv-SameSender peer r d in
      (
        record { given = rw same.next_seq h.given; entry = rw same.unacked h.entry },
        same.next_seq ∙ omega arith,
      )
  step-Holds r (checks now) h fits by =
      let once = check_retransmission_lem peer now r in
      (
        record {
          given = rw once h.given;
          entry = (
            refreshed now h.entry.0,
            rw once
                (get-collect_due now k r.state.unacked ∙ ap (Option.map (refreshed now)) h.entry.1),
            (refreshed-packet now t h.entry.0 by.0 h.entry.3).0 ∙ h.entry.2,
            (refreshed-packet now t h.entry.0 by.0 h.entry.3).1,
          );
        },
        rw once (omega arith),
      )
  step-Holds r acknowledges h fits by =
      let same = periodic_acks-state r in
      (record { given = rw same h.given; entry = rw same h.entry }, rw same (omega arith))

  run-Holds :
      (r : ReliableUdp) (es : List Event)
      → Holds k p t r.state
      → r.state.next_seq + sends_of es < u32_mod
      → ScansBy t es
      → Holds k p t (run peer r es).state
  unfolding run
  run-Holds r [] h fits by = h
  run-Holds r (e ∷ es) h fits by =
      let (first, rest) = ScansBy-cons t e es by in
      let (h', next') = step-Holds r e h (omega (arith, sends_of-cons e es)) first in
      run-Holds (step peer r e) es h' (omega (arith, sends_of-cons e es)) rest

-- A packet that was sent stays in `unacked` whatever happens at the endpoint, acknowledgements of
-- it included, for as long as the sequence numbers do not wrap. And it is sent again: whatever
-- happened up to a time, a scan more than 2000 ms later adds its datagram to what was sent.
pub unacked_forever :
    (peer : SocketAddr) (r : ReliableUdp) (es : List Event) (k : ℕ) (e : SentPacket) (t now : ℕ)
    → Map.get k r.state.unacked ≡ some e
    → k ≤ r.state.next_seq
    → r.state.next_seq + sends_of es < u32_mod
    → e.time_sent ≤ t
    → ScansBy t es
    → t + 2000 < now
    → let r' = run peer r es in
      ((e' : SentPacket) × (Map.get k r'.state.unacked ≡ some e') × (e'.packet ≡ e.packet))
      × ((out : List (List ℕ × SocketAddr)) × ((step peer r' (checks now)).socket
            ≡ r'.socket ++ out)
          × Sent (serialize e.packet, peer) out)
unfolding step
unacked_forever peer r es k e t now h given fits before by late =
    let r' = run peer r es in
    let (e', kept, same, time) =
      (run-Holds peer k e.packet t r es (record { given = given; entry = (e, h, refl, before) })
        fits by).entry in
    (
      (e', kept, same),
      (
        datagrams peer (due now r'.state.unacked),
        ap (λ (x : ReliableUdp). x.socket) (check_retransmission_lem peer now r'),
        subst (λ p. Sent (serialize p, peer) (datagrams peer (due now r'.state.unacked))) same
            (due-Sent peer now k r'.state.unacked e' kept
              (is_due-late now e' (omega (arith, time)))),
      ),
    )
