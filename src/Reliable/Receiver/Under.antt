-- ===== src/Reliable/Receiver/Under.antt =====
-- What the receiver hands on is under its peer's address.
use p2p_networking.Base.{
  ℕ, zero, suc, ◌≡◌, refl, sym, subst, List, [], ◌∷◌, inl, inr, arith, length, All, All-append,
  Option-cases,
}
use p2p_networking.Base.Map
use p2p_networking.Base.Map.{nat_key}
use p2p_networking.Base.Net.{SocketAddr}
use p2p_networking.Base.Word.{add32}
use p2p_networking.Reliable.{Packet, ReliableUdp}
use p2p_networking.Reliable.Receiver.{release, drain, accept, hold, on_packet, recv, recv_all}
use p2p_networking.Reliable.Receiver.Tracks.{past-output}
use p2p_networking.Reliable.Receiver.Order.{received, recv-none, recv-some}

-- All that the receiver has handed on is under the address.
abbrev pub Under : SocketAddr → ReliableUdp → Type 0
Under addr r = All (λ o. o.1 ≡ addr) r.output_tx

pub drain-Under :
    (fuel : ℕ) (addr : SocketAddr) (next : ℕ) (r : ReliableUdp)
    → Under addr r
    → Under addr (drain fuel addr next r)
unfolding drain release
drain-Under zero addr next r u = u
drain-Under (suc fuel) addr next r u = elim (Option-cases (Map.get next r.state.recv_buffer)) [
  | inl e ↦ rw (e, drain) u
  | inr (p, e) ↦
      rw (e, drain)
        (drain-Under fuel addr (add32 next 1) (release addr next p r)
          (All-append (λ o. o.1 ≡ addr) r.output_tx ((p, addr) ∷ []) u (refl, tt)))
]

pub accept-Under :
    (addr : SocketAddr) (p : Packet) (r : ReliableUdp) → Under addr r → Under addr (accept addr p r)
unfolding accept
accept-Under addr p r u =
    drain-Under (length r.state.recv_buffer) addr (add32 p.header.seq 1) _
      (All-append (λ o. o.1 ≡ addr) r.output_tx ((p, addr) ∷ []) u (refl, tt))

pub on_packet-Under :
    (addr : SocketAddr) (p : Packet) (r : ReliableUdp)
    → Under addr r
    → Under addr (on_packet addr p r)
unfolding on_packet hold
on_packet-Under addr p r u = ground (arith, accept-Under addr p r u, past-output addr p r)

pub recv-Under :
    (addr : SocketAddr) (d : List ℕ × SocketAddr) (r : ReliableUdp)
    → Under addr r
    → Under addr (recv addr r d)
recv-Under addr d r u = elim (Option-cases (received addr d)) [
  | inl e ↦ subst (Under addr) (sym (recv-none addr r d e)) u
  | inr (p, e) ↦ subst (Under addr) (sym (recv-some addr r d p e)) (on_packet-Under addr p r u)
]

pub recv_all-Under :
    (addr : SocketAddr) (ds : List (List ℕ × SocketAddr)) (r : ReliableUdp)
    → Under addr r
    → Under addr (recv_all addr r ds)
unfolding recv_all
recv_all-Under addr [] r u = u
recv_all-Under addr (d ∷ ds) r u = recv_all-Under addr ds (recv addr r d) (recv-Under addr d r u)
