-- ===== src/Peer/Meeting/Awaited.antt =====
-- A host and a client that meet while the rendezvous server keeps the lobby alive.
use p2p_networking.Base.{
  true, ℕ, zero, suc, ◌≡◌, ◌≢◌, ◌⊎◌, refl, ◌∙◌, ap, subst, List, [], ◌∷◌, ◌++◌, Option, none, Bool,
  inl, inr, arith, length, take, replicate, filled, Bool-cases, All,
}
use p2p_networking.Base.Net.{SocketAddr}
use p2p_networking.Rendezvous
use p2p_networking.Rendezvous.{Code, run, overlay, introductions}
use p2p_networking.Rendezvous.Lobbies.{server_answers}
use p2p_networking.Peer.{
  Outcome, read_addr, listen_loop, listen_to_relay, request_loop, request_host_addr,
}
use p2p_networking.Peer.Meeting.{
  IsText, meeting, delivered, answers-meeting, request_text, listen_text, listen_to_relay-code,
  delivered-host, delivered-client,
}

-- The second list is the first, with keep-alives of one byte 0 in between.
abbrev pub Mixed : List (List ℕ × SocketAddr) → List (List ℕ × SocketAddr) → Type 0
Mixed [] ds = All (λ d. d.0 ≡ 0 ∷ []) ds
Mixed (o ∷ out) [] = ⊥
Mixed (o ∷ out) (d ∷ ds) = ((d ≡ o) × Mixed out ds) ⊎ ((d.0 ≡ 0 ∷ []) × Mixed (o ∷ out) ds)

-- The same, but for the first place.
abbrev pub MixedBehind : List (List ℕ × SocketAddr) → List (List ℕ × SocketAddr) → Type 0
MixedBehind [] ds = All (λ d. d.0 ≡ 0 ∷ []) ds
MixedBehind (o ∷ out) [] = ⊥
MixedBehind (o ∷ out) (d ∷ ds) = (d ≡ o) × Mixed out ds

take_nil : (n : ℕ) → take {A = ℕ} n [] ≡ []
take_nil zero = refl
take_nil (suc n) = refl

module _ (to_string : SocketAddr → List ℕ) (utf8 : List ℕ → Bool)
    (from_str : List ℕ → Option SocketAddr) where
  -- The byte 0 names no address.
  abbrev pub NoAddr : Type 0
  NoAddr = from_str (0 ∷ []) ≡ none

  listen_keep_alive :
      (addr : SocketAddr) (ds : List (List ℕ × SocketAddr))
      → NoAddr
      → (listen_loop utf8 from_str ((0 ∷ [], addr) ∷ ds)).0 ≡ (listen_loop utf8 from_str ds).0
  unfolding listen_loop
  listen_keep_alive addr ds no_addr =
      let read : read_addr utf8 from_str (0 ∷ []) ≡ none = elim (Bool-cases (utf8 (0 ∷ []))) [
        | inl e ↦ rw (e, read_addr) no_addr
        | inr e ↦ rw (e, read_addr) refl
      ] in
      rw (read, listen_loop) refl

  listen_awaits :
      (server a : SocketAddr) (ds : List (List ℕ × SocketAddr))
      → IsText to_string utf8 from_str a
      → NoAddr
      → Mixed ((to_string a, server) ∷ []) ds
      → (listen_loop utf8 from_str ds).0 ≡ Outcome.found a
  listen_awaits server a [] t no_addr m = absurd m
  listen_awaits server a (d ∷ ds) t no_addr (inl (e, _)) =
      ap (λ x. (listen_loop utf8 from_str (x ∷ ds)).0) e
      ∙ listen_text to_string utf8 from_str server a ds t
  listen_awaits server a ((bytes, addr) ∷ ds) t no_addr (inr (e, m)) =
      ap (λ x. (listen_loop utf8 from_str ((x, addr) ∷ ds)).0) e
      ∙ listen_keep_alive addr ds no_addr
      ∙ listen_awaits server a ds t no_addr m

  request_keep_alive :
      (addr : SocketAddr) (x : ℕ) (xs : List ℕ) (ds : List (List ℕ × SocketAddr))
      → (request_loop utf8 from_str (x ∷ xs) ((0 ∷ [], addr) ∷ ds)).0
        ≡ (request_loop utf8 from_str (0 ∷ xs) ds).0
  unfolding request_loop overlay
  request_keep_alive addr x xs ds =
      ap (λ l. (request_loop utf8 from_str (0 ∷ l ++ xs) ds).0) (take_nil (length xs))

  request_awaits :
      (server a : SocketAddr) (n x : ℕ) (xs : List ℕ) (ds : List (List ℕ × SocketAddr))
      → IsText to_string utf8 from_str a
      → Mixed (replicate n (0 ∷ [], server) ++ (to_string a, server) ∷ []) ds
      → (request_loop utf8 from_str (x ∷ xs) ds).0 ≡ Outcome.found a
  request_awaits server a zero x xs [] t m = absurd m
  request_awaits server a (suc n) x xs [] t m = absurd m
  request_awaits server a zero x xs (d ∷ ds) t (inl (e, _)) =
      ap (λ y. (request_loop utf8 from_str (x ∷ xs) (y ∷ ds)).0) e
      ∙ request_text to_string utf8 from_str server a x xs ds t
  request_awaits server a (suc n) x xs (d ∷ ds) t (inl (e, m)) =
      ap (λ y. (request_loop utf8 from_str (x ∷ xs) (y ∷ ds)).0) e
      ∙ request_keep_alive server x xs ds
      ∙ request_awaits server a n 0 xs ds t m
  request_awaits server a zero x xs ((bytes, addr) ∷ ds) t (inr (e, m)) =
      ap (λ y. (request_loop utf8 from_str (x ∷ xs) ((y, addr) ∷ ds)).0) e
      ∙ request_keep_alive addr x xs ds
      ∙ request_awaits server a zero 0 xs ds t m
  request_awaits server a (suc n) x xs ((bytes, addr) ∷ ds) t (inr (e, m)) =
      ap (λ y. (request_loop utf8 from_str (x ∷ xs) ((y, addr) ∷ ds)).0) e
      ∙ request_keep_alive addr x xs ds
      ∙ request_awaits server a (suc n) 0 xs ds t m

  module _ (server host client : SocketAddr) (code : Code) where
    -- What the server sends for the host's lobby and the client that joins it.
    abbrev pub served : List (List ℕ × SocketAddr)
    served =
        (run to_string (meeting to_string utf8 from_str code host client) Rendezvous.init).socket

    served_lem : length code ≡ 16 → served ≡ (code, host) ∷ introductions to_string host client
    served_lem h =
        server_answers to_string (meeting to_string utf8 from_str code host client)
          (omega arith, ((omega (arith, h), omega (arith, h)), tt))
        ∙ answers-meeting to_string utf8 from_str code host client h

    pub host_finds :
        (ds : List (List ℕ × SocketAddr))
        → IsText to_string utf8 from_str client
        → NoAddr
        → host ≢ client
        → length code ≡ 16
        → MixedBehind (delivered server host served) ds
        → (listen_to_relay utf8 from_str server (true, ds)).0 ≡ Outcome.found client
    host_finds ds t no_addr ne h m = behind ds (
        subst (λ out. MixedBehind out ds)
          (ap (delivered server host) (served_lem h)
            ∙ delivered-host to_string utf8 from_str server host client code ne)
          m)
      where
        behind :
            (gs : List (List ℕ × SocketAddr))
            → MixedBehind ((code, server) ∷ (to_string client, server) ∷ []) gs
            → (listen_to_relay utf8 from_str server (true, gs)).0 ≡ Outcome.found client
        behind [] m = absurd m
        behind (g ∷ gs) m =
            ap (λ x. (listen_to_relay utf8 from_str server (true, x ∷ gs)).0) m.0
            ∙ listen_to_relay-code to_string utf8 from_str server code gs h
            ∙ listen_awaits server client gs t no_addr m.1

    pub client_finds :
        (ds : List (List ℕ × SocketAddr))
        → IsText to_string utf8 from_str host
        → host ≢ client
        → length code ≡ 16
        → Mixed (delivered server client served) ds
        → (request_host_addr utf8 from_str code server ds).0 ≡ Outcome.found host
    unfolding request_host_addr filled
    client_finds ds t ne h m = request_awaits server host 5 0 (replicate 119 0) ds t (
        subst (λ out. Mixed out ds)
          (ap (delivered server client) (served_lem h)
            ∙ delivered-client to_string utf8 from_str server host client code ne)
          m)
