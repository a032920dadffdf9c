-- ===== src/Reliable/Sender/Storm.antt =====
-- How a receiver past number 0 treats packets that only acknowledge.
use p2p_networking.Base.{
  ℕ, zero, suc, ◌<◌, ◌≡◌, refl, sym, ◌∙◌, ap, List, [], ◌∷◌, ◌++◌, some, arith, replicate, ap₂,
  append-nil, append_assoc,
}
use p2p_networking.Base.Net.{SocketAddr}
use p2p_networking.Base.Word.{u32_mod, to_be_bytes}
use p2p_networking.Reliable.{AckInfo, ReliableUdp, ack_packet, send_to}
use p2p_networking.Reliable.Wire.{serialize, rest_payload}
use p2p_networking.Reliable.Receiver.{recv, on_packet, past, notify}
use p2p_networking.Reliable.Receiver.Order.{received, recv-some, received-serialize}
use p2p_networking.Reliable.Sender.{periodic_acks}

-- The datagram that acknowledges `n`.
abbrev pub ack_bytes : ℕ → List ℕ
ack_bytes n = serialize (ack_packet n)

-- One datagram is received, then the queued acknowledgements are sent.
abbrev pub answer : SocketAddr → ReliableUdp → List ℕ → ReliableUdp
answer peer r bytes = periodic_acks (recv peer r (bytes, peer))

received-ack :
    (peer : SocketAddr) (n : ℕ)
    → n < u32_mod
    → received peer (ack_bytes n, peer) ≡ some (ack_packet n)
unfolding serialize to_be_bytes rest_payload
received-ack peer n h =
    received-serialize peer (ack_packet n) (record { seq = omega arith; ack = h }) (omega arith)

on_ack :
    (peer : SocketAddr) (n : ℕ) (r : ReliableUdp)
    → 0 < r.state.expected_sequence
    → on_packet peer (ack_packet n) r ≡ notify n peer r
unfolding on_packet past
on_ack peer n r h = ground arith

send_only :
    (r : ReliableUdp) (a : AckInfo) (queued : List AckInfo)
    → queued ≡ []
    → periodic_acks (record r { ack_tx = queued ++ a ∷ [] })
      ≡ send_to (ack_bytes a.ack_num) a.peer_addr (record r { ack_tx = queued })
unfolding periodic_acks
send_only r a queued h = rw h

-- An endpoint that has received the packet numbered 0 and has no acknowledgement queued answers
-- each acknowledgement with the same bytes, and is otherwise unchanged.
answer_ack :
    (peer : SocketAddr) (n : ℕ) (r : ReliableUdp)
    → n < u32_mod
    → 0 < r.state.expected_sequence
    → r.ack_tx ≡ []
    → answer peer r (ack_bytes n) ≡ send_to (ack_bytes n) peer r
answer_ack peer n r fits past0 idle =
    ap periodic_acks (recv-some peer r _ _ (received-ack peer n fits) ∙ on_ack peer n r past0)
    ∙ send_only r (record { ack_num = n; peer_addr = peer }) r.ack_tx idle

-- The bytes of the datagram that was sent last.
abbrev pub last_bytes : List (List ℕ × SocketAddr) → List ℕ
last_bytes [] = []
last_bytes (d ∷ []) = d.0
last_bytes (d ∷ e ∷ ds) = last_bytes (e ∷ ds)

last_bytes-append :
    (ds : List (List ℕ × SocketAddr)) (d : List ℕ × SocketAddr) → last_bytes (ds ++ d ∷ []) ≡ d.0
last_bytes-append [] d = refl
last_bytes-append (e ∷ []) d = refl
last_bytes-append (e ∷ f ∷ ds) d = last_bytes-append (f ∷ ds) d

-- `k` rounds: the endpoint `b` answers what the endpoint `a` sent last, and `a` answers that.
unfoldable pub volley :
    SocketAddr → SocketAddr → ℕ → ReliableUdp × ReliableUdp → ReliableUdp × ReliableUdp
volley at_a at_b zero (a, b) = (a, b)
volley at_a at_b (suc k) (a, b) =
    let b' = answer at_a b (last_bytes a.socket) in
    let a' = answer at_b a (last_bytes b'.socket) in volley at_a at_b k (a', b')

-- Two endpoints that have both received the packet numbered 0 and have no acknowledgement queued
-- never stop once one of them has sent an acknowledgement: after k rounds each has sent it k times
-- more, and nothing else has changed.
pub volley_endless :
    (at_a at_b : SocketAddr) (n k : ℕ) (a b : ReliableUdp)
    → n < u32_mod
    → 0 < a.state.expected_sequence
    → 0 < b.state.expected_sequence
    → a.ack_tx ≡ []
    → b.ack_tx ≡ []
    → last_bytes a.socket ≡ ack_bytes n
    → volley at_a at_b k (a, b) ≡ (
      record a { socket = a.socket ++ replicate k (ack_bytes n, at_b) },
      record b { socket = b.socket ++ replicate k (ack_bytes n, at_a) },
    )
unfolding volley
volley_endless at_a at_b n zero a b fits pa pb ia ib sent =
    ap₂ (λ s t. (record a { socket = s }, record b { socket = t })) (sym (append-nil a.socket))
      (sym (append-nil b.socket))
volley_endless at_a at_b n (suc k) a b fits pa pb ia ib sent =
    ap₂ (λ x y. volley at_a at_b k (x, y)) from_a from_b
    ∙ volley_endless at_a at_b n k (send_to (ack_bytes n) at_b a) (send_to (ack_bytes n) at_a b)
        fits pa pb ia ib (last_bytes-append a.socket (ack_bytes n, at_b))
    ∙ ap₂ (λ s t. (record a { socket = s }, record b { socket = t }))
        (append_assoc a.socket ((ack_bytes n, at_b) ∷ []) (replicate k (ack_bytes n, at_b)))
        (append_assoc b.socket ((ack_bytes n, at_a) ∷ []) (replicate k (ack_bytes n, at_a)))
  where
    from_b : answer at_a b (last_bytes a.socket) ≡ send_to (ack_bytes n) at_a b
    from_b = ap (answer at_a b) sent ∙ answer_ack at_a n b fits pb ib

    from_a :
        answer at_b a (last_bytes (answer at_a b (last_bytes a.socket)).socket)
        ≡ send_to (ack_bytes n) at_b a
    from_a =
        ap (λ (x : ReliableUdp). answer at_b a (last_bytes x.socket)) from_b
        ∙ ap (answer at_b a) (last_bytes-append b.socket (ack_bytes n, at_a))
        ∙ answer_ack at_b n a fits pa ia
