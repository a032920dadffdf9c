-- ===== src/Peer/Chat/Delivered.antt =====
-- The chat over the reliable transport, on a network that loses, repeats and reorders.
use p2p_networking.Base.{
  ℕ, zero, suc, ◌+◌, ◌<◌, ◌≤◌, ◌≡◌, refl, sym, ◌∙◌, ap, subst, Bool, List, [], ◌∷◌, ◌++◌, Option,
  none, some, arith, length, length-append, append_assoc, map, map-append, take, range, get_elem?,
  All,
}
use p2p_networking.Base.Map.{nat_key}
use p2p_networking.Base.Net.{SocketAddr}
use p2p_networking.Base.Word.{u32_mod}
use p2p_networking.Reliable.{ReliableUdp, init}
use p2p_networking.Reliable.Wire.{rest_payload}
use p2p_networking.Reliable.Receiver.{recv_all}
use p2p_networking.Reliable.Endpoint
use p2p_networking.Reliable.Endpoint.Stream.{Sends}
use p2p_networking.Reliable.Endpoint.Transfer.{Delivers, transfer_in_order}
use p2p_networking.Peer.Chat.{Event, start}
use p2p_networking.Peer.Chat.Opening.{start-Opened}
use p2p_networking.Peer.Chat.Lines.{heard, FromPeer, texts, said}
use p2p_networking.Peer.Chat.Talk.{talker, listener, chat_in_order}
use p2p_networking.Reliable.Receiver.Under.{recv_all-Under}
use p2p_networking.Peer.Chat.Heard.{hears, somes, somes-append, heard-hears, hears-FromPeer}

-- The stream that carries the payloads: part 0 is an acknowledgement, part k + 1 the payload k.
abbrev pub carried : List (List ℕ) → ℕ → Option (List ℕ)
carried l zero = none
carried l (suc k) = get_elem? l k

take-suc : (k : ℕ) (l : List (List ℕ)) → take (suc k) l ≡ take k l ++ somes (get_elem? l k ∷ [])
take-suc zero [] = refl
take-suc zero (x ∷ l) = refl
take-suc (suc k) [] = refl
take-suc (suc k) (x ∷ l) = ap (◌∷◌ x) (take-suc k l)

somes-carried : (l : List (List ℕ)) (k : ℕ) → somes (map (carried l) (range (suc k))) ≡ take k l
somes-carried l zero = refl
somes-carried l (suc k) =
    ap somes (map-append (carried l) (range (suc k)) (suc k ∷ []))
    ∙ somes-append (map (carried l) (range (suc k))) (get_elem? l k ∷ [])
    ∙ ap (λ x. x ++ somes (get_elem? l k ∷ [])) (somes-carried l k)
    ∙ sym (take-suc k l)

pub carried-prefix :
    (l : List (List ℕ)) (e : ℕ) → (n : ℕ) × (somes (map (carried l) (range e)) ≡ take n l)
carried-prefix l zero = (0, refl)
carried-prefix l (suc k) = (k, somes-carried l k)

-- The payloads that the events of an endpoint send.
abbrev pub sent_by : List Endpoint.Event → List (List ℕ)
sent_by [] = []
sent_by (Endpoint.Event.sends now bytes ∷ ts) = bytes ∷ sent_by ts
sent_by (_ ∷ ts) = sent_by ts

get_elem_at :
    (before : List (List ℕ)) (x : List ℕ) (l : List (List ℕ))
    → get_elem? (before ++ x ∷ l) (length before) ≡ some x
get_elem_at [] x l = refl
get_elem_at (y ∷ before) x l = get_elem_at before x l

rest_payload-some : (x : List ℕ) → 0 < length x → rest_payload x ≡ some x
unfolding rest_payload
rest_payload-some [] h = absurd (omega arith)
rest_payload-some (b ∷ x) h = refl

-- A payload that fits a datagram, and is not empty.
abbrev pub Fits : List ℕ → Type 0
Fits x = (0 < length x) × (length x ≤ 6592)

All_at :
    (P : List ℕ → Type 0) (before : List (List ℕ)) (x : List ℕ) (l : List (List ℕ))
    → All P (before ++ x ∷ l)
    → P x
All_at P [] x l h = h.0
All_at P (y ∷ before) x l h = All_at P before x l h.1

-- The events send the stream of the payloads, `before` of which were sent already.
pub Sends-carried :
    (l : List (List ℕ)) (ts : List Endpoint.Event) (before later : List (List ℕ))
    → l ≡ before ++ (sent_by ts ++ later)
    → All Fits l
    → length l + 1 < u32_mod
    → Sends (carried l) (length before) ts
Sends-carried l [] before later e h small = tt
Sends-carried l (Endpoint.Event.sends now bytes ∷ ts) before later e h small =
    let rest : List (List ℕ) = sent_by ts ++ later in
    let at : get_elem? l (length before) ≡ some bytes =
      ap (λ x. get_elem? x (length before)) e ∙ get_elem_at before bytes rest in
    let fits : Fits bytes = All_at Fits before bytes rest (subst (All Fits) e h) in
    let count : length l ≡ length before + suc (length rest) =
      ap length e ∙ length-append before (bytes ∷ rest) in
    let next : length (before ++ bytes ∷ []) ≡ suc (length before) =
      length-append before (bytes ∷ []) ∙ omega arith in
    (
      rest_payload-some bytes fits.0 ∙ sym at,
      fits.1,
      omega arith,
      subst (λ n. Sends (carried l) n ts) next
          (Sends-carried l ts (before ++ bytes ∷ []) later
            (e ∙ sym (append_assoc before (bytes ∷ []) rest)) h small),
    )
Sends-carried l (Endpoint.Event.receives d ∷ ts) before later e h small =
    Sends-carried l ts before later e h small
Sends-carried l (Endpoint.Event.checks now ∷ ts) before later e h small =
    Sends-carried l ts before later e h small
Sends-carried l (Endpoint.Event.acknowledges ∷ ts) before later e h small =
    Sends-carried l ts before later e h small

pub All-short :
    (l : List (List ℕ)) → All (λ x. 0 < length x) l → All (λ x. length x ≤ 6592) l → All Fits l
All-short [] h g = tt
All-short (x ∷ l) h g = ((h.0, g.0), All-short l h.1 g.1)

module _ (utf8 : List ℕ → Bool) (a b : SocketAddr) (es fs : List Event) where
  -- The peer at `a` runs the chat over an endpoint of the reliable transport, whose events send a
  -- first part of the payloads of its channel in order, in any interleaving with datagrams,
  -- retransmissions and acknowledgements. No payload is longer than 6592 bytes, and there are fewer
  -- than 2 ^ 32 - 1. The other peer receives datagrams in any order, with losses and repetitions;
  -- those in the name of `a` were sent by it. It takes from its receiver all that this hands on,
  -- among anything else that happens to it. Then what it has printed is a first part of the texts
  -- among the lines that were typed at the first in its chat before "exit", in order.
  pub chat_over_transport :
      (ts : List Endpoint.Event) (later : List (List ℕ)) (ds : List (List ℕ × SocketAddr))
      → (talker utf8 a b es fs).packet_tx ≡ sent_by ts ++ later
      → All (λ x. length x ≤ 6592) (talker utf8 a b es fs).packet_tx
      → length (talker utf8 a b es fs).packet_tx + 1 < u32_mod
      → Delivers a (Endpoint.run b init ts).socket ds
      → hears fs ≡ (recv_all a init ds).output_tx
      → (rest : List (List ℕ)) × ((listener utf8 a b es fs).printed ++ rest
          ≡ texts utf8 (said utf8 b start es))
  chat_over_transport ts later ds queued short small network taken =
      let sent : List (List ℕ) = (talker utf8 a b es fs).packet_tx in
      let r : ReliableUdp = recv_all a init ds in
      let fits : All Fits sent = All-short sent (start-Opened utf8 b es).full short in
      let (order, _, _) =
        transfer_in_order (carried sent) a b ts ds refl
          (Sends-carried sent ts [] later queued fits small) network in
      let (n, prefix) = carried-prefix sent r.state.expected_sequence in
      let own : All (FromPeer a) fs =
        hears-FromPeer a fs
          (subst (All (λ o. o.1 ≡ a)) (sym taken) (recv_all-Under a ds init tt)) in
      let all : heard fs ≡ take n sent =
        heard-hears fs
        ∙ ap (λ l. somes (map (λ o. o.0.payload) l)) taken
        ∙ ap somes order
        ∙ prefix in
      let (rest, split, _) = chat_in_order utf8 a b es fs n all own in (rest, split)
