-- ===== src/Reliable/Receiver/Drain.antt =====
-- That the loop which empties the receive buffer ends.
use p2p_networking.Base.{
  ℕ, zero, suc, ◌+◌, ◌≤◌, ◌<◌, ◌≡◌, refl, ◌∙◌, [], ◌∷◌, none, inl, inr, arith, length,
  length-append, Option-cases,
}
use p2p_networking.Base.Map
use p2p_networking.Base.Map.{Map, nat_key, length-remove-lt}
use p2p_networking.Base.Net.{SocketAddr}
use p2p_networking.Base.Word.{u32_mod, add32}
use p2p_networking.Reliable.{ReliableUdp}
use p2p_networking.Reliable.Receiver.Invariant.{get-nil_of_length}
use p2p_networking.Reliable.Receiver.{release, drain}

-- `n` rounds were made from `next` and `r` to `r'`, and there is no next packet.
abbrev pub Ended : ℕ → ReliableUdp → ReliableUdp → ℕ → Type 0
Ended next r r' n =
    (n + length r'.state.recv_buffer ≤ length r.state.recv_buffer)
    × (Map.get (add32 next n) r'.state.recv_buffer ≡ none)
    × (r'.state.expected_sequence ≡ add32 r.state.expected_sequence n)
    × (length r'.output_tx ≡ length r.output_tx + n)

module _ (addr : SocketAddr) where
  pub stops :
      (fuel next : ℕ) (r : ReliableUdp)
      → Map.get next r.state.recv_buffer ≡ none
      → drain fuel addr next r ≡ r
  unfolding drain
  stops zero next r none' = refl
  stops (suc fuel) next r none' = rw (none', drain) refl

  still :
      (next : ℕ) (r : ReliableUdp)
      → next < u32_mod
      → r.state.expected_sequence < u32_mod
      → Map.get next r.state.recv_buffer ≡ none
      → Ended next r r 0
  still next r l l' none' =
      let same : add32 next 0 ≡ next = omega arith in
      (omega arith, rw same none', omega arith, omega arith)

  drain-Ended :
      (fuel : ℕ) (next : ℕ) (r : ReliableUdp)
      → next < u32_mod
      → r.state.expected_sequence < u32_mod
      → length r.state.recv_buffer ≤ fuel
      → (n : ℕ) × Ended next r (drain fuel addr next r) n
  unfolding drain release
  drain-Ended zero next r l l' enough =
      (0, still next r l l' (get-nil_of_length next r.state.recv_buffer enough))
  drain-Ended (suc fuel) next r l l' enough =
      elim (Option-cases (Map.get next r.state.recv_buffer)) [
        | inl none' ↦ (0, rw (none', drain) (still next r l l' none'))
        | inr (p, found) ↦
            let shorter = length-remove-lt next p r.state.recv_buffer found in
            let (n, ended) =
              drain-Ended fuel (add32 next 1) (release addr next p r) (omega arith) (omega arith)
                (omega arith) in
            let (count, gone, expected, out) = ended in
            let longer = length-append r.output_tx ((p, addr) ∷ []) in
            let number : add32 next (suc n) ≡ add32 (add32 next 1) n = omega arith in
            (
              suc n,
              rw (found, drain) (omega arith, rw number gone, expected ∙ omega arith, omega arith),
            )
      ]

  more_fuel :
      (fuel extra next : ℕ) (r : ReliableUdp)
      → length r.state.recv_buffer ≤ fuel
      → drain (fuel + extra) addr next r ≡ drain fuel addr next r
  unfolding drain release
  more_fuel zero extra next r enough =
      let sum : zero + extra ≡ extra = omega arith in
      rw sum (stops extra next r (get-nil_of_length next r.state.recv_buffer enough))
  more_fuel (suc fuel) extra next r enough =
      let sum : suc fuel + extra ≡ suc (fuel + extra) = omega arith in
      rw sum (elim (Option-cases (Map.get next r.state.recv_buffer)) [
        | inl none' ↦ rw (none', drain) refl
        | inr (p, found) ↦
            let shorter = length-remove-lt next p r.state.recv_buffer found in
            rw (found, drain)
              (more_fuel fuel extra (add32 next 1) (release addr next p r) (omega arith))
      ])

  -- With as much fuel as the receive buffer has entries, or more, the loop that empties the buffer
  -- ends: there are `n` rounds, no more than entries, and each takes a packet out, hands it on and
  -- counts the expected number up. It ends because the number after these is not in the buffer.
  pub drain_ends :
      (extra next : ℕ) (r : ReliableUdp)
      → next < u32_mod
      → r.state.expected_sequence < u32_mod
      → (n : ℕ) × Ended next r (drain (length r.state.recv_buffer + extra) addr next r) n
        × (drain (length r.state.recv_buffer + extra) addr next r
            ≡ drain (length r.state.recv_buffer) addr next r)
  drain_ends extra next r l l' =
      let (n, ended) = drain-Ended (length r.state.recv_buffer + extra) next r l l' (omega arith) in
      (n, ended, more_fuel (length r.state.recv_buffer) extra next r (omega arith))
