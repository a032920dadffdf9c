-- ===== src/Reliable/Receiver/Tracks.antt =====
-- That accepting, holding and what is past keep the invariant of the receiver.
use p2p_networking.Base.{
  dec_lt, ℕ, suc, ◌+◌, ◌≤◌, ◌<◌, ◌≡◌, refl, sym, ap, ◌∙◌, ◌⊎◌, inl, inr, [], ◌∷◌, some, length,
  All-append, range, arith,
}
use p2p_networking.Base.Map
use p2p_networking.Base.Map.{
  Map, nat_key, get-remove, get-insert, get-insert_self, get-insert_ne, get-remove_ne,
  length-remove-lt,
}
use p2p_networking.Base.Net.{SocketAddr}
use p2p_networking.Base.Word.{u32_mod, add32}
use p2p_networking.Reliable.{Packet, ReliableUdp}
use p2p_networking.Reliable.Receiver.{accept, hold, past, on_packet}
use p2p_networking.Reliable.Receiver.Invariant.{
  Kept, Tracks, order_cases, insert-Kept, numbers-append, drain-Tracks,
}

past-same : (addr : SocketAddr) (p : Packet) (r : ReliableUdp) → (past addr p r).state ≡ r.state
unfolding past
past-same addr p r = ground arith

pub past-output :
    (addr : SocketAddr) (p : Packet) (r : ReliableUdp) → (past addr p r).output_tx ≡ r.output_tx
unfolding past
past-output addr p r = ground arith

-- One more number has arrived.
abbrev pub Arrives : (ℕ → Type 0) → ℕ → ℕ → Type 0
Arrives S n k = S k ⊎ (k ≡ n)

module _ (S : ℕ → Type 0) (P : Packet → Type 0) (addr : SocketAddr) (p : Packet) (r : ReliableUdp)
    (t : Tracks S P (suc r.state.expected_sequence) r) (fits : p.header.seq + 1 < u32_mod)
    (good : P p) where
  accept-Tracks :
      p.header.seq ≡ r.state.expected_sequence
      → Tracks
          (Arrives S p.header.seq)
          P
          (suc (accept addr p r).state.expected_sequence)
          (accept addr p r)
  unfolding accept
  accept-Tracks e =
      let next' : add32 p.header.seq 1 ≡ suc p.header.seq = omega arith in
      let expected' : add32 r.state.expected_sequence 1 ≡ suc p.header.seq = omega arith in
      rw next' (
        drain-Tracks (Arrives S p.header.seq) P addr (length r.state.recv_buffer) (suc p.header.seq)
          _
          (record {
            bound = omega arith;
            ordered = rw expected' (
                numbers-append r.output_tx p addr p.header.seq (t.ordered ∙ ap range (sym e)) refl);
            genuine = All-append (λ o. P o.0) r.output_tx ((p, addr) ∷ []) t.genuine (good, tt);
            ahead = λ k q h. (ground (arith, t.ahead k q h));
            below = λ k h. below' k h;
            kept = λ k s. rw expected' (kept' k s);
          })
          expected' (omega arith))
    where
      below' : (k : ℕ) → k < add32 r.state.expected_sequence 1 → Arrives S p.header.seq k
      below' k h = elim (dec_lt k r.state.expected_sequence) [
        | yes q ↦ inl (t.below k q)
        | no q ↦ inr (omega arith)
      ]

      kept' : (k : ℕ) → Arrives S p.header.seq k → Kept (suc p.header.seq) r.state.recv_buffer k
      kept' k (inl s) = elim (t.kept k s) [ inl h ↦ inl (omega arith) | inr h ↦ inr h ]
      kept' k (inr h) = inl (omega arith)

  hold-Tracks :
      r.state.expected_sequence < p.header.seq
      → Tracks
          (Arrives S p.header.seq)
          P
          (suc (hold addr p r).state.expected_sequence)
          (hold addr p r)
  unfolding hold
  hold-Tracks e = record {
    bound = t.bound;
    ordered = t.ordered;
    genuine = t.genuine;
    ahead = λ k q h. ground (arith, t.ahead k q, get-insert p.header.seq k p r.state.recv_buffer);
    below = λ k h. inl (t.below k h);
    kept = λ k s. insert-Kept _ p.header.seq k p r.state.recv_buffer (kept' k s);
  }
    where
      kept' :
          (k : ℕ)
          → Arrives S p.header.seq k
          → Kept r.state.expected_sequence r.state.recv_buffer k ⊎ (k ≡ p.header.seq)
      kept' k (inl s) = inl (t.kept k s)
      kept' k (inr h) = inr h

  -- What leaves the receiver's state and its output alone.
  same-Tracks :
      (r' : ReliableUdp)
      → r'.state ≡ r.state
      → r'.output_tx ≡ r.output_tx
      → p.header.seq < r.state.expected_sequence
      → Tracks (Arrives S p.header.seq) P (suc r'.state.expected_sequence) r'
  same-Tracks r' e o h = record {
    bound = rw e t.bound;
    ordered = rw (e, o) t.ordered;
    genuine = rw o t.genuine;
    ahead = rw e ahead';
    below = rw e (λ k h. inl (t.below k h));
    kept = rw e kept';
  }
    where
      kept' :
          (k : ℕ) → Arrives S p.header.seq k → Kept r.state.expected_sequence r.state.recv_buffer k
      kept' k (inl s) = t.kept k s
      kept' k (inr q) = inl (omega arith)

      ahead' :
          (k : ℕ) (q : Packet)
          → Map.get k r.state.recv_buffer ≡ some q
          → (suc r.state.expected_sequence ≤ k)
            × (q.header.seq ≡ k)
            × (k + 1 < u32_mod)
            × P q
            × Arrives S p.header.seq k
      ahead' k q h = let (a, b, c, d, e) = t.ahead k q h in (a, b, c, d, inl e)

  -- Every packet that fits keeps the invariant, whichever way it compares.
  pub on_packet-Tracks :
      Tracks
        (Arrives S p.header.seq)
        P
        (suc (on_packet addr p r).state.expected_sequence)
        (on_packet addr p r)
  unfolding on_packet
  on_packet-Tracks = elim (order_cases p.header.seq r.state.expected_sequence) [
    | inl (c, h) ↦
        rw (c, on_packet)
          (same-Tracks (past addr p r) (past-same addr p r) (past-output addr p r) h)
    | inr (inl (c, h)) ↦ rw (c, on_packet) (accept-Tracks h)
    | inr (inr (c, h)) ↦ rw (c, on_packet) (hold-Tracks h)
  ]
