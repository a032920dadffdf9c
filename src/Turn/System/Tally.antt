-- ===== src/Turn/System/Tally.antt =====
-- How often a buffer stands in the queues of the relay.
use p2p_networking.Base.{
  ℕ, ◌+◌, ◌≤◌, ap, [], ◌∷◌, inl, inr, arith, ◌==◌, if◌then◌else◌, All, All-append, Option-cases,
}
use p2p_networking.Base.Fifo.{Fifo}
use p2p_networking.Turn.{MessageType, SqeType}
use p2p_networking.Turn.Pool.{Entry, push_entry}
use p2p_networking.Turn.Shard.{try_send}
unfoldable pub use p2p_networking.Base.Tally.{tally}
pub use p2p_networking.Base.Tally.{tally-nil, tally-cons, tally-append, tally-set}

-- Whether the entry, the message, the send is about the buffer `j`.
unfoldable pub at_entry : ℕ → Entry → ℕ
at_entry j e = if e.msghdr == j then 1 else 0

unfoldable pub at_message : ℕ → MessageType → ℕ
at_message j (MessageType.add_session x) = 0
at_message j (MessageType.transmit p) = if p.buf_idx == j then 1 else 0

unfoldable pub at_send : ℕ → SqeType → ℕ
at_send j (addr, len, idx) = if idx == j then 1 else 0

module _ (F : Fifo) where
  -- What a full queue does to a tally and to a property of its items: nothing.
  pub tally-push_entry :
      (weight : Entry → ℕ) (e : Entry) (sq : F.Q Entry)
      → tally weight (F.items Entry (push_entry F e sq))
        ≤ tally weight (F.items Entry sq) + weight e
  unfolding tally
  tally-push_entry weight e sq = elim (Option-cases (F.enqueue Entry e sq)) [
    | inl full ↦ rw (full, push_entry) (omega arith)
    | inr (sq', put) ↦
        let total = tally-append weight (F.items Entry sq) (e ∷ []) in
        let added = ap (tally weight) (F.items-enqueue Entry e sq sq' put) in
        rw (put, push_entry) (omega arith)
  ]

  pub All-push_entry :
      (P : Entry → Type 0) (e : Entry) (sq : F.Q Entry)
      → All P (F.items Entry sq)
      → P e
      → All P (F.items Entry (push_entry F e sq))
  All-push_entry P e sq h p = elim (Option-cases (F.enqueue Entry e sq)) [
    | inl full ↦ rw (full, push_entry) h
    | inr (sq', put) ↦
        rw (put, push_entry)
          (rw (F.items-enqueue Entry e sq sq' put)
            (All-append P (F.items Entry sq) (e ∷ []) h (p, tt)))
  ]

  pub tally-try_send :
      (weight : SqeType → ℕ) (m : SqeType) (q : F.Q SqeType)
      → tally weight (F.items SqeType (try_send F m q))
        ≤ tally weight (F.items SqeType q) + weight m
  unfolding tally
  tally-try_send weight m q = elim (Option-cases (F.enqueue SqeType m q)) [
    | inl full ↦ rw (full, try_send) (omega arith)
    | inr (q', put) ↦
        let total = tally-append weight (F.items SqeType q) (m ∷ []) in
        let added = ap (tally weight) (F.items-enqueue SqeType m q q' put) in
        rw (put, try_send) (omega arith)
  ]
