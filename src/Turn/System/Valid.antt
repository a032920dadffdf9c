-- ===== src/Turn/System/Valid.antt =====
-- What holds of the relay between two events: each buffer is in one place at most, and the entries
-- that the kernel has or will get are those of `encode_token`, with the times that a send needs.
use p2p_networking.Base.{
  ℕ, ◌+◌, ◌*◌, ◌≤◌, ◌<◌, ◌≡◌, ◌≢◌, sym, ◌∙◌, ap, List, [], ◌∷◌, some, arith, length, All, All-map,
}
use p2p_networking.Base.Fifo.{Fifo}
use p2p_networking.Base.Map
use p2p_networking.Base.Map.{nat_key}
use p2p_networking.Base.Word.{u16_mod}
use p2p_networking.Turn.{Session, buffer_size}
use p2p_networking.Turn.Token.{OpType, encode_token}
use p2p_networking.Turn.Pool.{BufferPool, Entry, Opcode}
use p2p_networking.Turn.Router.Balance.{Places}
use p2p_networking.Turn.Ring.{log_times}
use p2p_networking.Turn.System.{World}
use p2p_networking.Turn.System.Tally.{tally, tally-cons, at_entry}
use p2p_networking.Turn.System.Moves.{in_queue, in_sends}

-- How often the buffer stands in the queues and at the kernel.
abbrev pub places : {F : Fifo} → ℕ → World F → ℕ
places {F} j w =
    tally (at_entry j) (F.items Entry w.relay.sq)
    + tally (at_entry j) w.flight
    + tally (in_queue F j) w.relay.router.senders
    + in_sends F j w.tx

abbrev pub op_of : Opcode → OpType
op_of Opcode.recv_msg = OpType.recv
op_of Opcode.send_msg_zc = OpType.send

-- A send has both of its packet's times, or the packet has none.
abbrev pub Timed : BufferPool → Opcode → ℕ → Type 0
Timed pool Opcode.recv_msg idx = Unit {0}
Timed pool Opcode.send_msg_zc idx = log_times (Map.get idx pool.timestamp) ≡ some tt

pub record Good (pool : BufferPool) (e : Entry) : Type 0 where
  pub token : e.user_data ≡ encode_token (op_of e.opcode) e.msghdr
  pub timed : Timed pool e.opcode e.msghdr

pub record Valid {F : Fifo} (n : ℕ) (w : World F) : Type 0 where
  pub once : (j : ℕ) → places j w ≤ 1
  pub small : (j : ℕ) → n ≤ j → places j w ≡ 0
  pub queued : All (Good w.relay.pool) (F.items Entry w.relay.sq)
  pub flying : All (Good w.relay.pool) w.flight
  pub room : n * buffer_size ≤ length w.relay.pool.memory
  pub fits : n ≤ u16_mod
  pub shards : ℕ
  pub older : List Session
  pub routed : Places F shards older w.relay.router

-- The two pools agree on the times of all buffers but one.
abbrev pub SameTimes : ℕ → BufferPool → BufferPool → Type 0
SameTimes idx pool pool' = (j : ℕ) → idx ≢ j → Map.get j pool'.timestamp ≡ Map.get j pool.timestamp

Timed-same :
    (pool pool' : BufferPool) (op : Opcode) (j : ℕ)
    → Map.get j pool'.timestamp ≡ Map.get j pool.timestamp
    → Timed pool op j
    → Timed pool' op j
Timed-same pool pool' Opcode.recv_msg j e h = tt
Timed-same pool pool' Opcode.send_msg_zc j e h = ap log_times e ∙ h

pub at_entry_self : (idx : ℕ) (e : Entry) → e.msghdr ≡ idx → at_entry idx e ≡ 1
unfolding at_entry
at_entry_self idx e h = ground arith

-- Entries of other buffers stay good.
pub Good-others :
    (idx : ℕ) (pool pool' : BufferPool) (es : List Entry)
    → SameTimes idx pool pool'
    → tally (at_entry idx) es ≡ 0
    → All (Good pool) es
    → All (Good pool') es
Good-others idx pool pool' [] same none' h = tt
Good-others idx pool pool' (e ∷ es) same none' h =
    let total = tally-cons (at_entry idx) e es in
    let other : idx ≢ e.msghdr = λ q. let once = at_entry_self idx e (sym q) in omega arith in
    (
      record {
        token = h.0.token;
        timed = Timed-same pool pool' e.opcode e.msghdr (same e.msghdr other) h.0.timed;
      },
      Good-others idx pool pool' es same (omega arith) h.1,
    )

-- If no time changes at all, all entries stay good.
pub Good-all :
    (pool pool' : BufferPool) (es : List Entry)
    → pool'.timestamp ≡ pool.timestamp
    → All (Good pool) es
    → All (Good pool') es
Good-all pool pool' es e =
    All-map
      (λ x g. record {
        token = g.token;
        timed = Timed-same pool pool' x.opcode x.msghdr (ap (Map.get x.msghdr) e) g.timed;
      })
      es

-- A buffer below `n` lies in a memory with room for `n` of them.
pub slice_room :
    (n idx size : ℕ) → n * buffer_size ≤ size → idx < n → idx * buffer_size + buffer_size ≤ size
slice_room n idx size h l = omega arith
