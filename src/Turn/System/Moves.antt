-- ===== src/Turn/System/Moves.antt =====
-- Which buffers the parts of the relay pass on: no part makes one up.
use p2p_networking.Base.{
  ℕ, zero, suc, ◌+◌, ◌≤◌, ◌≡◌, refl, sym, ◌∙◌, ap, subst, List, [], ◌∷◌, none, some, inl, inr,
  arith, ◌==◌, get_elem?, set, length, All, Option-cases, Bool-cases,
}
use p2p_networking.Base.Fail.{>>=-eq-some}
use p2p_networking.Base.Fifo.{Fifo}
use p2p_networking.Base.Map
use p2p_networking.Base.Map.{nat_key}
use p2p_networking.Base.Net.{socket_addr_key}
use p2p_networking.Turn.{Packet, MessageType, SqeType}
use p2p_networking.Turn.Shard.{Shard, run_once, handle, handle_packet, destination, add_session}
use p2p_networking.Turn.Router.{ShardRouter, send_to_shard, route, next_shard, on_control}
use p2p_networking.Turn.System.{take_at}
use p2p_networking.Turn.System.Tally.{
  tally, at_message, at_send, tally-set, tally-cons, tally-append, tally-try_send,
}

some_eq {ℓ} : {A : Type ℓ} {a b : A} → some a ≡ some b → a ≡ b
some_eq h = cc

none-some {ℓ} : {A : Type ℓ} {a : A} → none ≡ some a → ⊥
none-some h = cc

module _ {ℓ} {A : Type ℓ} where
  -- What `take_at` finds and leaves.
  pub take_at-tally :
      (weight : A → ℕ) (k : ℕ) (xs ys : List A) (x : A)
      → take_at k xs ≡ some (x, ys)
      → tally weight xs ≡ weight x + tally weight ys
  unfolding take_at tally
  take_at-tally weight k [] ys x h = cc
  take_at-tally weight zero (z ∷ xs) ys x h = ground arith
  take_at-tally weight (suc k) (z ∷ xs) ys x h = elim (Option-cases (take_at k xs)) [
    | inl e ↦ ground arith
    | inr ((y, zs), e) ↦ ground (arith, take_at-tally weight k xs zs y e)
  ]

  pub take_at-All {κ} :
      (P : A → Type κ) (k : ℕ) (xs ys : List A) (x : A)
      → take_at k xs ≡ some (x, ys)
      → All P xs
      → P x × All P ys
  unfolding take_at
  take_at-All P k [] ys x h a = cc
  take_at-All P zero (z ∷ xs) ys x h a = subst (λ p. P p.0 × All P p.1) (some_eq h) a
  take_at-All P (suc k) (z ∷ xs) ys x h a = elim (Option-cases (take_at k xs)) [
    | inl e ↦
        let missing : take_at (suc k) (z ∷ xs) ≡ none = rw (e, take_at) refl in
        absurd (none-some (sym missing ∙ h))
    | inr ((y, zs), e) ↦
        let there : take_at (suc k) (z ∷ xs) ≡ some (y, z ∷ zs) = rw (e, take_at) refl in
        let (p, others) = take_at-All P k xs zs y e a.1 in
        subst (λ q. P q.0 × All P q.1) (some_eq (sym there ∙ h)) (p, (a.0, others))
  ]

module _ (F : Fifo) (j : ℕ) where
  -- How often the buffer stands in a shard's queue.
  abbrev pub in_queue : F.Q MessageType → ℕ
  in_queue q = tally (at_message j) (F.items MessageType q)

  abbrev pub in_sends : F.Q SqeType → ℕ
  in_sends q = tally (at_send j) (F.items SqeType q)

  handle_packet-tally :
      (p : Packet) (s : Shard F)
      → (in_sends (handle_packet F p s).tx_out
          ≤ in_sends s.tx_out + at_message j (MessageType.transmit p))
        × ((handle_packet F p s).recv ≡ s.recv)
  unfolding handle_packet at_message at_send
  handle_packet-tally p s = elim (Option-cases (destination F s p.src)) [
    | inl e ↦ rw (e, handle_packet) (omega arith, refl)
    | inr (dst, e) ↦
        let sent = tally-try_send F (at_send j) (dst, p.len, p.buf_idx) s.tx_out in
        rw (e, handle_packet) (sent, refl)
  ]

  handle-tally :
      (uuid : ℕ) (m : MessageType) (s : Shard F)
      → (in_sends (handle F uuid m s).tx_out ≤ in_sends s.tx_out + at_message j m)
        × ((handle F uuid m s).recv ≡ s.recv)
  unfolding handle add_session
  handle-tally uuid (MessageType.add_session x) s = (omega arith, refl)
  handle-tally uuid (MessageType.transmit p) s = handle_packet-tally p s

  pub run_once-tally :
      (uuid : ℕ) (s : Shard F)
      → in_queue (run_once F uuid s).recv + in_sends (run_once F uuid s).tx_out
        ≤ in_queue s.recv + in_sends s.tx_out
  unfolding run_once
  run_once-tally uuid s = elim (Option-cases (F.dequeue MessageType s.recv)) [
    | inl e ↦ rw (e, run_once) (omega arith)
    | inr ((m, recv'), e) ↦
        let (sent, same) = handle-tally uuid m (record s { recv = recv' }) in
        let first : in_queue s.recv ≡ at_message j m + in_queue recv' =
          ap (tally (at_message j)) (F.dequeue-some MessageType s.recv recv' m e)
          ∙ tally-cons (at_message j) m (F.items MessageType recv') in
        rw (e, run_once) (rw same (omega arith))
  ]

  pub send_to_shard-tally :
      (i : ℕ) (m : MessageType) (r r' : ShardRouter F)
      → send_to_shard F i m r ≡ some r'
      → tally in_queue r'.senders ≤ tally in_queue r.senders + at_message j m
  unfolding send_to_shard tally
  send_to_shard-tally i m r r' h = elim (Option-cases (get_elem? r.senders i)) [
    | inl e ↦
        let missing : send_to_shard F i m r ≡ none = rw (e, send_to_shard) refl in
        absurd (none-some (sym missing ∙ h))
    | inr (q, e) ↦ elim (Option-cases (F.enqueue MessageType m q)) [
      | inl full ↦
          let there : send_to_shard F i m r ≡ some r = rw (e, send_to_shard) (rw full refl) in
          let same : r ≡ r' = some_eq (sym there ∙ h) in
          subst (λ x. tally in_queue x.senders ≤ tally in_queue r.senders + at_message j m) same
            (omega arith)
      | inr (q', put) ↦
          let r1 : ShardRouter F = record r { senders = set r.senders i q' } in
          let there : send_to_shard F i m r ≡ some r1 = rw (e, send_to_shard) (rw put refl) in
          let grown : in_queue q' ≡ in_queue q + tally (at_message j) (m ∷ []) =
            ap (tally (at_message j)) (F.items-enqueue MessageType m q q' put)
            ∙ tally-append (at_message j) (F.items MessageType q) (m ∷ []) in
          let moved = tally-set in_queue r.senders i q q' e in
          subst (λ x. tally in_queue x.senders ≤ tally in_queue r.senders + at_message j m)
            (some_eq (sym there ∙ h)) (omega arith)
    ]
  ]

  pub route-tally :
      (p : Packet) (r r' : ShardRouter F)
      → route F p r ≡ some r'
      → tally in_queue r'.senders ≤ tally in_queue r.senders + at_message j (MessageType.transmit p)
  unfolding route
  route-tally p r r' h = elim (Option-cases (Map.get p.src r.endpoint_to_shard)) [
    | inl e ↦
        let there : route F p r ≡ some r = rw (e, route) refl in
        subst
          (λ x.
            tally in_queue x.senders
            ≤ tally in_queue r.senders + at_message j (MessageType.transmit p))
          (some_eq (sym there ∙ h)) (omega arith)
    | inr (i, e) ↦
        let there : route F p r ≡ send_to_shard F i (MessageType.transmit p) r =
          rw (e, route) refl in
        send_to_shard-tally i (MessageType.transmit p) r r' (sym there ∙ h)
  ]

  next_shard-senders :
      (i : ℕ) (r r' : ShardRouter F) → next_shard F r ≡ some (i, r') → r'.senders ≡ r.senders
  unfolding next_shard
  next_shard-senders i r r' h = elim (Bool-cases (length r.senders == 0)) [
    | inl e ↦
        let missing : next_shard F r ≡ none = rw (e, next_shard) refl in
        absurd (none-some (sym missing ∙ h))
    | inr e ↦ ground arith
  ]

  pub on_control-tally :
      (m : MessageType) (r r' : ShardRouter F)
      → on_control F r m ≡ some r'
      → tally in_queue r'.senders ≤ tally in_queue r.senders
  unfolding on_control at_message
  on_control-tally (MessageType.transmit p) r r' h =
      subst (λ x. tally in_queue x.senders ≤ tally in_queue r.senders) (some_eq h) (omega arith)
  on_control-tally (MessageType.add_session x) r r' h =
      let ((i, r1), turn, h1) = >>=-eq-some (next_shard F r) _ h in
      let (r2, sent, h2) = >>=-eq-some (send_to_shard F i (MessageType.add_session x) r1) _ h1 in
      let added = send_to_shard-tally i (MessageType.add_session x) r1 r2 sent in
      let kept = ap (tally in_queue) (next_shard-senders i r r1 turn) in
      subst (λ y. tally in_queue y.senders ≤ tally in_queue r.senders) (some_eq h2) (omega arith)
