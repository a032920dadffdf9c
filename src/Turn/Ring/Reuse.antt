-- ===== src/Turn/Ring/Reuse.antt =====
-- Which completions give a buffer back to the kernel.
use p2p_networking.Base.{ℕ, ◌<◌, ◌≡◌, refl, ◌∙◌, ap, none, some}
use p2p_networking.Base.Fifo.{Fifo}
use p2p_networking.Base.Map
use p2p_networking.Base.Map.{nat_key}
use p2p_networking.Base.Net.{socket_addr_key}
use p2p_networking.Base.Word.{u16_mod}
use p2p_networking.Turn.{Packet}
use p2p_networking.Turn.Slot.{Platform}
use p2p_networking.Turn.Token.{OpType, encode_token, decode_token, decode_token-encode_token}
use p2p_networking.Turn.Pool.{BufferPool, mark_recv_for, get_peer_addr}
use p2p_networking.Turn.Router.{ShardRouter, route}
use p2p_networking.Turn.Ring.{Cqe, Relay, on_cqe, on_op, on_recv, bytes_of}

-- Both times are written, the second over the first.
abbrev pub marked : ℕ → ℕ → ℕ → BufferPool → BufferPool
marked idx now now' pool = mark_recv_for idx now' (mark_recv_for idx now pool)

-- The packet of a completed receive.
abbrev pub packet_of : Platform → ℕ → ℕ → BufferPool → Packet
packet_of t idx len pool = record { buf_idx = idx; len = len; src = get_peer_addr t pool idx }

module _ (F : Fifo) (t : Platform) (listen_fd : ℕ) where
  -- A packet from an address that is not in the table goes nowhere.
  pub route_unknown :
      (p : Packet) (r : ShardRouter F)
      → Map.get p.src r.endpoint_to_shard ≡ none
      → route F p r ≡ some r
  unfolding route
  route_unknown p r e = rw (e, route)

  peer_addr-slots :
      (p q : BufferPool) (idx : ℕ)
      → p.live_slots ≡ q.live_slots
      → get_peer_addr t p idx ≡ get_peer_addr t q idx
  unfolding get_peer_addr
  peer_addr-slots p q idx e = rw (e, get_peer_addr)

  pub on_recv_routes :
      (idx len now now' : ℕ) (w : Relay F) (r : ShardRouter F)
      → route F (packet_of t idx len w.pool) w.router ≡ some r
      → on_recv F t listen_fd idx len now now' w
        ≡ some (record w { pool = marked idx now now' w.pool; router = r })
  unfolding on_recv mark_recv_for
  on_recv_routes idx len now now' w r e =
      let src : get_peer_addr t (mark_recv_for idx now w.pool) idx ≡ get_peer_addr t w.pool idx =
        peer_addr-slots (mark_recv_for idx now w.pool) w.pool idx refl in
      let routed =
        ap (λ a. route F (record { buf_idx = idx; len = len; src = a }) w.router) src ∙ e in
      rw routed

  pub on_cqe-recv :
      (w : Relay F) (c : Cqe) (idx now now' : ℕ)
      → idx < u16_mod
      → c.user_data ≡ encode_token OpType.recv idx
      → on_cqe F t listen_fd c now now' w ≡ on_recv F t listen_fd idx (bytes_of c.result) now now' w
  unfolding on_cqe on_op
  on_cqe-recv w c idx now now' h e =
      ap (λ d. on_op F t listen_fd d c now now' w)
        (ap decode_token e ∙ decode_token-encode_token OpType.recv idx h)
