-- ===== src/Peer/Chat/Talk.antt =====
-- What one peer prints of what the other's user types.
use p2p_networking.Base.{
  ℕ, zero, suc, ◌≤◌, ◌≡◌, refl, sym, ◌∙◌, ap, subst, Bool, List, [], ◌∷◌, ◌++◌, arith, length, take,
  drop, All, append_assoc,
}
use p2p_networking.Base.Net.{SocketAddr}
use p2p_networking.Peer.Chat.{Peer, Stage, Event, start, run}
use p2p_networking.Peer.Chat.Opening.{Greets, Opened, start-Opened}
use p2p_networking.Peer.Chat.Lines.{heard, FromPeer, texts, texts-append, said, run-texts}
use p2p_networking.Peer.Chat.Printing.{punching-Prints}

Greets-take : (n : ℕ) (l : List (List ℕ)) → Greets l → Greets (take n l)
Greets-take zero l g = tt
Greets-take (suc n) [] g = tt
Greets-take (suc n) (x ∷ l) g = g

pub take-append-drop {ℓ} : {A : Type ℓ} (n : ℕ) (l : List A) → take n l ++ drop n l ≡ l
take-append-drop zero l = refl
take-append-drop (suc n) [] = refl
take-append-drop (suc n) (x ∷ l) = ap (◌∷◌ x) (take-append-drop n l)

drop_all {ℓ} : {A : Type ℓ} (n : ℕ) (l : List A) → length l ≤ n → drop n l ≡ []
drop_all zero [] h = refl
drop_all zero (x ∷ l) h = absurd (omega arith)
drop_all (suc n) [] h = refl
drop_all (suc n) (x ∷ l) h = drop_all n l (omega arith)

module _ (utf8 : List ℕ → Bool) (a b : SocketAddr) (es fs : List Event) where
  -- The peer at `a`, and the other one at `b`.
  abbrev pub talker : Peer
  talker = run utf8 b start es

  abbrev pub listener : Peer
  listener = run utf8 a start fs

  -- Two peers start their hole punching, and whatever happens at each in whatever order, the second
  -- hears the first `n` payloads that the first has sent, in order and from its IP. Then what the
  -- second has printed is a first part of the texts among the lines that were typed at the first in
  -- its chat before "exit", in order. If the second is in its chat and has heard all, it has printed
  -- all of these.
  pub chat_in_order :
      (n : ℕ)
      → heard fs ≡ take n talker.packet_tx
      → All (FromPeer a) fs
      → (rest : List (List ℕ)) × (listener.printed ++ rest ≡ texts utf8 (said utf8 b start es))
        × (listener.stage ≡ Stage.chatting → length talker.packet_tx ≤ n → rest ≡ [])
  unfolding texts
  chat_in_order n all own =
      let sent : List (List ℕ) = talker.packet_tx in
      let o : Opened talker = start-Opened utf8 b es in
      let greeted : Greets (heard fs) = subst Greets (sym all) (Greets-take n sent o.opens) in
      let (rest, split, done) = punching-Prints utf8 a fs start own greeted refl in
      let later : List (List ℕ) = texts utf8 (drop n sent) in
      (
        rest ++ later,
        sym (append_assoc listener.printed rest later)
            ∙ ap (λ l. l ++ later) (split ∙ ap (texts utf8) all)
            ∙ sym (texts-append utf8 (take n sent) (drop n sent))
            ∙ ap (texts utf8) (take-append-drop n sent)
            ∙ run-texts utf8 b es start,
        λ c l. ap (λ r. r ++ later) (done c) ∙ ap (texts utf8) (drop_all n sent l),
      )
