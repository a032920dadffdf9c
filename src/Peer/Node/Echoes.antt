-- ===== src/Peer/Node/Echoes.antt =====
-- What a peer of peer/src/main.rs sends while it looks for the other: `listen_to_relay` and
-- `request_host_addr` echo one byte to whoever sends.
use p2p_networking.Base.{
  true, false, ℕ, zero, suc, ◌==◌, ◌≡◌, ◌≢◌, ◌⊎◌, List, [], ◌∷◌, ◌++◌, Option, Bool, length, inl,
  inr, Option-cases, Bool-cases, take, get_elem?, filled,
}
use p2p_networking.Base.Net.{SocketAddr}
use p2p_networking.Rendezvous.{overlay}
use p2p_networking.Reliable.Endpoint.Transfer.{SentBy}
use p2p_networking.Peer.{
  Incoming, buf_size, read_addr, read_host, listen_loop, listen_to_relay, request_loop,
  request_host_addr,
}
use p2p_networking.Peer.Node.{Mode, Args, find_peer}

-- The bytes are sent to the address.
abbrev pub SentTo : SocketAddr → List ℕ → List (List ℕ × SocketAddr) → Type 0
SentTo dest bytes [] = ⊥
SentTo dest bytes (d ∷ ds) = ((bytes ≡ d.0) × (d.1 ≡ dest)) ⊎ SentTo dest bytes ds

pub SentTo-append :
    (dest : SocketAddr) (bytes : List ℕ) (ds out : List (List ℕ × SocketAddr))
    → SentTo dest bytes (ds ++ out)
    → SentTo dest bytes ds ⊎ SentBy bytes out
SentTo-append dest bytes [] [] s = absurd s
SentTo-append dest bytes [] (d ∷ out) (inl (e, _)) = inr (inl e)
SentTo-append dest bytes [] (d ∷ out) (inr s) = elim (SentTo-append dest bytes [] out s) [
  | inl x ↦ absurd x
  | inr x ↦ inr (inr x)
]
SentTo-append dest bytes (d ∷ ds) out (inl e) = inl (inl e)
SentTo-append dest bytes (d ∷ ds) out (inr s) = elim (SentTo-append dest bytes ds out s) [
  | inl x ↦ inl (inr x)
  | inr x ↦ inr x
]

-- What is sent to the address is the one byte.
abbrev Echoes : SocketAddr → List (List ℕ × SocketAddr) → Type 0
Echoes dest out = (bytes : List ℕ) → SentTo dest bytes out → bytes ≡ 2 ∷ []

module _ (utf8 : List ℕ → Bool) (from_str : List ℕ → Option SocketAddr) (dest : SocketAddr) where
  Echoes-cons :
      (addr : SocketAddr) (out : List (List ℕ × SocketAddr))
      → Echoes dest out
      → Echoes dest ((2 ∷ [], addr) ∷ out)
  Echoes-cons addr out h bytes (inl (e, _)) = e
  Echoes-cons addr out h bytes (inr s) = h bytes s

  Echoes-other :
      (first : List ℕ) (addr : SocketAddr) (out : List (List ℕ × SocketAddr))
      → addr ≢ dest
      → Echoes dest out
      → Echoes dest ((first, addr) ∷ out)
  Echoes-other first addr out ne h bytes (inl (_, e)) = absurd (ne e)
  Echoes-other first addr out ne h bytes (inr s) = h bytes s

  listen_loop-Echoes :
      (ds : List (List ℕ × SocketAddr)) → Echoes dest (listen_loop utf8 from_str ds).1
  unfolding listen_loop
  listen_loop-Echoes [] = λ bytes s. absurd s
  listen_loop-Echoes ((text, addr) ∷ ds) =
      elim (Option-cases (read_addr utf8 from_str (take buf_size text))) [
        | inl e ↦ rw (e, listen_loop) (Echoes-cons addr _ (listen_loop-Echoes ds))
        | inr (peer, e) ↦ rw (e, listen_loop) (λ bytes s. absurd s)
      ]

  listen_to_relay-Echoes :
      (server : SocketAddr) (ds : Incoming)
      → server ≢ dest
      → Echoes dest (listen_to_relay utf8 from_str server ds).1
  unfolding listen_to_relay
  listen_to_relay-Echoes server (false, ds) ne =
      Echoes-other (0 ∷ []) server _ ne (listen_loop-Echoes ds)
  listen_to_relay-Echoes server (true, []) ne =
      Echoes-other (0 ∷ []) server [] ne (λ bytes s. absurd s)
  listen_to_relay-Echoes server (true, (code, addr) ∷ ds) ne =
      elim (Bool-cases (length (take buf_size code) == 16)) [
        | inl e ↦ rw e (Echoes-other (0 ∷ []) server _ ne (listen_loop-Echoes ds))
        | inr e ↦ rw e (Echoes-other (0 ∷ []) server [] ne (λ bytes s. absurd s))
      ]

  request_loop-Echoes :
      (ds : List (List ℕ × SocketAddr)) (buf : List ℕ)
      → Echoes dest (request_loop utf8 from_str buf ds).1
  unfolding request_loop
  request_loop-Echoes [] buf = λ bytes s. absurd s
  request_loop-Echoes ((text, addr) ∷ ds) buf =
      let ih = request_loop-Echoes ds (overlay text buf) in
      elim (Option-cases (get_elem? (overlay text buf) 0)) [
        | inl e ↦
            rw (e, request_loop)
              (elim (Option-cases (read_host utf8 from_str (take buf_size text))) [
                | inl e' ↦ rw e' ih
                | inr (o, e') ↦ rw e' (λ bytes s. absurd s)
              ])
        | inr (zero, e) ↦ rw (e, request_loop) (Echoes-cons addr _ ih)
        | inr (suc x, e) ↦
            rw (e, request_loop)
              (elim (Option-cases (read_host utf8 from_str (take buf_size text))) [
                | inl e' ↦ rw e' ih
                | inr (o, e') ↦ rw e' (λ bytes s. absurd s)
              ])
      ]

  -- A peer sends the other nothing but the echoes, before it knows the other's address.
  pub find_peer-Echoes :
      (mode : Mode) (args : Args) (ds : Incoming)
      → args.addr ≢ dest
      → Echoes dest (find_peer utf8 from_str mode args ds).1
  unfolding find_peer request_host_addr
  find_peer-Echoes Mode.host args ds ne = listen_to_relay-Echoes args.addr ds ne
  find_peer-Echoes Mode.peer args ds ne = elim (Option-cases args.code) [
    | inl e ↦ rw e (λ bytes s. absurd s)
    | inr (code, e) ↦
        rw e (Echoes-other (1 ∷ code) args.addr _ ne (request_loop-Echoes ds.1 (filled buf_size 0)))
  ]
