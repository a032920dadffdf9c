-- ===== src/Peer/Node/Talk.antt =====
-- Two programs of peer/src/main.rs that have found each other: what one user types, and what the
-- other reads.
use p2p_networking.Base.{
  ℕ, ◌+◌, ◌<◌, ◌≤◌, ◌≡◌, ◌≢◌, refl, sym, ◌∙◌, ap, subst, Bool, List, [], ◌∷◌, ◌++◌, Option, none,
  some, inl, inr, arith, length, append_assoc, map, map-append, take, drop, All, All-map,
}
use p2p_networking.Base.Net.{SocketAddr}
use p2p_networking.Base.Word.{u32_mod}
use p2p_networking.Reliable.{Packet, ReliableUdp, init}
use p2p_networking.Reliable.Wire.{deserialize}
use p2p_networking.Reliable.Receiver.Order.{received, Carries}
use p2p_networking.Reliable.Endpoint
use p2p_networking.Reliable.Endpoint.Stream.{From, init-From}
use p2p_networking.Reliable.Endpoint.Transfer.{part-arrived, received-sender}
use p2p_networking.Reliable.Endpoint.Duplex.{arrivals, run-in_order}
use p2p_networking.Peer.Chat
use p2p_networking.Peer.Chat.Opening.{start-Opened}
use p2p_networking.Peer.Chat.Lines.{heard, FromPeer, texts}
use p2p_networking.Peer.Chat.Talk.{take-append-drop, chat_in_order}
use p2p_networking.Peer.Chat.Heard.{hears, somes, somes-append, heard-hears, hears-FromPeer}
use p2p_networking.Peer.Chat.Delivered.{
  sent_by, carried, carried-prefix, Fits, All-short, Sends-carried,
}
use p2p_networking.Peer.{Incoming}
use p2p_networking.Peer.Node.{Args, Node, Event, start, run, find_peer}
use p2p_networking.Peer.Node.Traced.{arrived, typed, trace}
use p2p_networking.Peer.Node.Echoes.{SentTo, SentTo-append, find_peer-Echoes}

-- What arrives in the name of `a` was sent from there to `b`.
abbrev pub Network :
    SocketAddr → SocketAddr → List (List ℕ × SocketAddr) → List (List ℕ × SocketAddr) → Type 0
Network a b sent = All λ d. d.1 ≡ a → SentTo b d.0 sent

received-short :
    (a : SocketAddr) (d : List ℕ × SocketAddr) (q : Packet)
    → d.0 ≡ 2 ∷ []
    → received a d ≡ some q
    → ⊥
unfolding received deserialize
received-short a (bytes, addr) q e h =
    let short : deserialize (take 6600 bytes) ≡ none = ap (λ x. deserialize (take 6600 x)) e in
    ground (arith, short)

abbrev payloads_of : List (Packet × SocketAddr) → List (Option (List ℕ))
payloads_of out = map (λ o. o.0.payload) out

first_part {ℓ} : {A : Type ℓ} (xs ys l : List A) → xs ++ ys ≡ l → xs ≡ take (length xs) l
first_part [] ys l e = refl
first_part (x ∷ xs) ys [] e = cc
first_part (x ∷ xs) ys (y ∷ l) e = let ih = first_part xs ys l cc in cc

All-first :
    (P : Packet × SocketAddr → Type 0) (xs ys : List (Packet × SocketAddr))
    → All P (xs ++ ys)
    → All P xs
All-first P [] ys h = tt
All-first P (x ∷ xs) ys h = (h.0, All-first P xs ys h.1)

module _ (utf8 : List ℕ → Bool) (from_str : List ℕ → Option SocketAddr) (a b : SocketAddr)
    (args : Args) (before : Incoming) (es fs : List Event) where
  -- The peer at `a`, which was started with `args` and got `before` until it knew the other, and the one at
  -- `b`.
  abbrev pub first : Node
  first = run utf8 b start es

  abbrev pub second : Node
  second = run utf8 a start fs

  -- All that the first sent.
  abbrev pub sent : List (List ℕ × SocketAddr)
  sent = (find_peer utf8 from_str args.mode args before).1 ++ first.transport.socket

  abbrev stream : ℕ → Option (List ℕ)
  stream = carried first.chat.packet_tx

  Network-Carries :
      args.addr ≢ b
      → All (λ x. length x ≤ 6592) first.chat.packet_tx
      → length first.chat.packet_tx + 1 < u32_mod
      → Network a b sent (arrived fs)
      → Carries stream a (arrived fs)
  Network-Carries ne short small network =
      let l : List (List ℕ) = first.chat.packet_tx in
      let t = trace utf8 b es start in
      let own : l ≡ sent_by t.ts ++ drop first.sent l = sym t.sent in
      let fits : All Fits l =
        All-short l
          (subst (λ (p : Chat.Peer). All (λ x. 0 < length x) p.packet_tx) (sym t.chat)
            (start-Opened utf8 b t.fs).full)
          short in
      let wire : All (From stream) first.transport.socket =
        subst (λ (r : ReliableUdp). All (From stream) r.socket) (sym t.transport)
          (init-From stream refl b t.ts
            (Sends-carried l t.ts [] (drop first.sent l) own fits small)) in
      All-map (λ d m q e. part d m q e wire) (arrived fs) network
    where
      part :
          (d : List ℕ × SocketAddr)
          → (d.1 ≡ a → SentTo b d.0 sent)
          → (q : Packet) → received a d ≡ some q
          → All (From stream) first.transport.socket
          → (q.header.seq + 1 < u32_mod) × (q.payload ≡ stream q.header.seq)
      part d m q e wire = elim (SentTo-append b d.0 _ _ (m (received-sender stream a d q e))) [
        | inl s ↦ absurd (
            received-short a d q (find_peer-Echoes utf8 from_str b args.mode args before ne d.0 s)
              e)
        | inr s ↦ part-arrived stream a first.transport.socket d q wire (λ _. s) e
      ]

  heard-first :
      (gs : List Chat.Event) (later : List (Packet × SocketAddr)) (n : ℕ)
      → somes (payloads_of (hears gs ++ later)) ≡ take n first.chat.packet_tx
      → heard gs ≡ take (length (heard gs)) first.chat.packet_tx
  heard-first gs later n e =
      let l : List (List ℕ) = first.chat.packet_tx in
      let more : List (List ℕ) = somes (payloads_of later) in
      let front : heard gs ++ more ≡ take n l =
        ap (λ x. x ++ more) (heard-hears gs)
        ∙ sym (somes-append (payloads_of (hears gs)) (payloads_of later))
        ∙ ap somes (sym (map-append (λ o. o.0.payload) (hears gs) later))
        ∙ e in
      first_part (heard gs) (more ++ drop n l) l (
        sym (append_assoc (heard gs) more (drop n l))
        ∙ ap (λ x. x ++ drop n l) front
        ∙ take-append-drop n l)

  -- The two programs run, and each has found the other's address; the server has another. Whatever
  -- happens at each in whatever order, among losses, repetitions and reorderings on the network,
  -- what arrives at the second in the name of the first was sent by it. No payload that the chat at
  -- the first sends is longer than 6592 bytes, and there are fewer than 2 ^ 32 - 1. Then what the
  -- second has printed is a first part of the texts among the lines that were typed at the first in
  -- its chat before "exit", in order.
  pub peers_talk :
      args.addr ≢ b
      → All (λ x. length x ≤ 6592) first.chat.packet_tx
      → length first.chat.packet_tx + 1 < u32_mod
      → Network a b sent (arrived fs)
      → (rest : List (List ℕ)) × (second.chat.printed ++ rest ≡ texts utf8 (typed utf8 b start es))
  peers_talk ne short small network =
      let t = trace utf8 b es start in
      let u = trace utf8 a fs start in
      let out : List (Packet × SocketAddr) = second.transport.output_tx in
      let later : List (Packet × SocketAddr) = drop second.heard out in
      let c : Carries stream a (arrivals u.ts) =
        subst (Carries stream a) (sym u.reached) (Network-Carries ne short small network) in
      let r : ReliableUdp = Endpoint.run a init u.ts in
      let (order, under) = run-in_order stream a u.ts c in
      let (n, prefix) = carried-prefix first.chat.packet_tx r.state.expected_sequence in
      let whole : hears u.fs ++ later ≡ r.output_tx =
        u.taken ∙ ap (λ (x : ReliableUdp). x.output_tx) u.transport in
      let own : All (FromPeer a) u.fs = hears-FromPeer a u.fs (
        All-first (λ o. o.1 ≡ a) (hears u.fs) later
          (subst (All (λ o. o.1 ≡ a)) (sym whole) under)) in
      let all : heard u.fs ≡ take (length (heard u.fs)) first.chat.packet_tx =
        heard-first u.fs later n (ap somes (ap payloads_of whole ∙ order) ∙ prefix) in
      let (rest, split, _) =
        chat_in_order utf8 a b t.fs u.fs (length (heard u.fs))
          (all ∙ ap (λ (p : Chat.Peer). take (length (heard u.fs)) p.packet_tx) t.chat) own in
      (rest, ap (λ (p : Chat.Peer). p.printed ++ rest) u.chat ∙ split ∙ ap (texts utf8) t.lines)
