-- ===== src/Turn/Pool.antt =====
-- `BufferPool` of turn_server/src/lib.rs. A method that can panic returns an option.
pub mod Post
pub mod Seed
use p2p_networking.Base.{
  ℕ, zero, suc, ◌+◌, ◌*◌, ◌%◌, List, [], ◌∷◌, ◌++◌, Option, none, some, Bool, true, false, leb,
  if◌then◌else◌, length, filled,
}
use p2p_networking.Base.Fail.{◌>>=◌}
use p2p_networking.Base.Fifo.{Fifo}
use p2p_networking.Base.Map
use p2p_networking.Base.Map.{Map, nat_key}
use p2p_networking.Base.Net.{SocketAddr, unspecified}
use p2p_networking.Base.Word.{u16_mod}
use p2p_networking.Turn.{buffer_size, pool_size}
use p2p_networking.Turn.Slot
use p2p_networking.Turn.Slot.{Platform, MsgHdrSlot, extract_src_addr}
use p2p_networking.Turn.Token.{OpType, encode_token}

pub record PacketTiming : Type 0 where
  pub recv_cqe_at : ℕ
  pub shard_done_at : Option ℕ
  pub send_sqe_at : Option ℕ

pub record BufferPool : Type 0 where
  pub memory : List ℕ
  pub in_flight : ℕ
  pub registered : Bool
  pub free_list : List ℕ
  pub timestamp : Map ℕ PacketTiming
  pub live_slots : Map ℕ MsgHdrSlot

-- `BufferPool::default`
unfoldable pub default : BufferPool
default = record {
  memory = filled (pool_size * buffer_size) 0;
  in_flight = 0;
  registered = false;
  free_list = [];
  timestamp = [];
  live_slots = [];
}

pub data Opcode : Type 0 where
  recv_msg send_msg_zc : Opcode

-- A submission: the message header is that of the live slot under the index `msghdr`.
pub record Entry : Type 0 where
  pub opcode : Opcode
  pub fd : ℕ
  pub msghdr : ℕ
  pub user_data : ℕ

-- `&mut self.memory[start..start + BUFFER_SIZE]`: its offset, or a panic.
unfoldable pub slice_mut : BufferPool → ℕ → Option ℕ
slice_mut pool idx =
    let start = idx * buffer_size in
    if leb (start + buffer_size) (length pool.memory) then some start else none

unfoldable pub msghdr_ptr_for : Platform → BufferPool → ℕ → Option SocketAddr → Option MsgHdrSlot
unfolding slice_mut
msghdr_ptr_for t pool idx addr = do buf_ptr ← slice_mut pool idx; some (Slot.new t buf_ptr addr)

-- `free_list.pop()`: the last element, and the others.
unfoldable pub pop {ℓ} : {A : Type ℓ} → List A → Option (A × List A)
pop [] = none
pop (x ∷ xs) = elim (pop xs) [ none ↦ some (x, []) | some (y, ys) ↦ some (y, x ∷ ys) ]

unfoldable pub acquire : BufferPool → Option (ℕ × BufferPool)
acquire pool = elim (pop pool.free_list) [
  | none ↦ none
  | some (idx, rest) ↦ some (idx, record pool { free_list = rest })
]

unfoldable pub mark_recv_for : ℕ → ℕ → BufferPool → BufferPool
mark_recv_for buf_idx now pool =
    let t : PacketTiming = record { recv_cqe_at = now; shard_done_at = none; send_sqe_at = none } in
    record pool { timestamp = Map.insert buf_idx t pool.timestamp }

unfoldable pub mark_shard_done_at : ℕ → ℕ → BufferPool → BufferPool
mark_shard_done_at buf_idx now pool = elim (Map.get buf_idx pool.timestamp) [
  | none ↦ pool
  | some t ↦ record pool {
    timestamp = Map.insert buf_idx (record t { shard_done_at = some now }) pool.timestamp;
  }
]

unfoldable pub mark_send_sqe_at : ℕ → ℕ → BufferPool → BufferPool
mark_send_sqe_at buf_idx now pool = elim (Map.get buf_idx pool.timestamp) [
  | none ↦ pool
  | some t ↦ record pool {
    timestamp = Map.insert buf_idx (record t { send_sqe_at = some now }) pool.timestamp;
  }
]

unfoldable pub take_recv_for : ℕ → BufferPool → Option PacketTiming × BufferPool
take_recv_for buf_idx pool =
    (Map.get buf_idx pool.timestamp, record pool { timestamp = Map.remove buf_idx pool.timestamp })

unfoldable pub get_peer_addr : Platform → BufferPool → ℕ → SocketAddr
get_peer_addr t pool buf_idx = elim (Map.get buf_idx pool.live_slots) [
  | none ↦ unspecified
  | some slot ↦ extract_src_addr t slot
]

-- The loop of `register_buffer_kernel` over the indices from `i` on: each slice is taken, and the
-- index goes to the free list as a `u16`.
unfoldable pub register_from : ℕ → ℕ → BufferPool → Option BufferPool
unfolding slice_mut
register_from zero i pool = some pool
register_from (suc n) i pool = do
  start ← slice_mut pool i
  register_from n (suc i) (record pool { free_list = pool.free_list ++ (i % u16_mod) ∷ [] })

-- `register_buffer_kernel` for `n` buffers, POOL_SIZE in the program. `accepted`: the kernel takes
-- the buffers; if it does not, the code panics.
unfoldable pub register_buffer_kernel : ℕ → Bool → BufferPool → Option BufferPool
register_buffer_kernel n accepted pool = do
  pool' ← register_from n 0 pool
  if accepted then some (record pool' { registered = true }) else none

module _ (F : Fifo) where
  -- `sqe.push(&entry)`; a full queue is logged, and the entry is gone.
  abbrev pub push_entry : Entry → F.Q Entry → F.Q Entry
  push_entry e sq = elim (F.enqueue Entry e sq) [ none ↦ sq | some sq' ↦ sq' ]

  unfoldable pub post_recv_sqe :
      Platform
      → ℕ
      → ℕ
      → Option SocketAddr
      → BufferPool
      → F.Q Entry
      → Option (BufferPool × F.Q Entry)
  unfolding msghdr_ptr_for
  post_recv_sqe t listen_fd idx addr pool sq = do
    slot ← msghdr_ptr_for t pool idx addr
    let pool' : BufferPool = record pool { live_slots = Map.insert idx slot pool.live_slots }
    let entry : Entry = record {
      opcode = Opcode.recv_msg;
      fd = listen_fd;
      msghdr = idx;
      user_data = encode_token OpType.recv idx;
    }
    some (pool', push_entry entry sq)

  -- `len` is not used.
  unfoldable pub post_send_sqe :
      Platform → ℕ → ℕ → ℕ → SocketAddr → BufferPool → F.Q Entry → Option (BufferPool × F.Q Entry)
  unfolding msghdr_ptr_for
  post_send_sqe t listen_fd len idx dest pool sq = do
    slot ← msghdr_ptr_for t pool idx (some dest)
    let pool' : BufferPool = record pool { live_slots = Map.insert idx slot pool.live_slots }
    let entry : Entry = record {
      opcode = Opcode.send_msg_zc;
      fd = listen_fd;
      msghdr = idx;
      user_data = encode_token OpType.send idx;
    }
    some (pool', push_entry entry sq)

  abbrev pub release : Platform → ℕ → ℕ → BufferPool → F.Q Entry → Option (BufferPool × F.Q Entry)
  release t idx listen_fd pool sq = post_recv_sqe t listen_fd idx none pool sq

  -- The loop that posts a receive for each free buffer.
  unfoldable pub seed : Platform → ℕ → ℕ → BufferPool → F.Q Entry → Option (BufferPool × F.Q Entry)
  seed t listen_fd zero pool sq = some (pool, sq)
  seed t listen_fd (suc n) pool sq = elim (acquire pool) [
    | none ↦ seed t listen_fd n pool sq
    | some (idx, pool') ↦ do
      (pool'', sq') ← post_recv_sqe t listen_fd idx none pool' sq
      seed t listen_fd n pool'' sq'
  ]
