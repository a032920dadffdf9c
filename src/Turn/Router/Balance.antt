-- ===== src/Turn/Router/Balance.antt =====
-- The router never panics once it has a shard, and deals the sessions out in turn.
use native.Mathlib.Nat.{mod-lt, mod-eq_of_lt, mod-add-mod}
use native.Mathlib.Numerals.{add-one}
use p2p_networking.Base.{
  ℕ, zero, suc, ◌+◌, ◌%◌, ◌<◌, ◌≡◌, refl, sym, ◌∙◌, ap, ap₂, ◌==◌, List, [], ◌∷◌, Option, none,
  some, inl, inr, arith, ite, length, get_elem?, set, Option-cases, false,
}
use p2p_networking.Base.Fifo.{Fifo}
use p2p_networking.Base.Map
use p2p_networking.Base.Map.{Map, get-insert}
use p2p_networking.Base.Net.{SocketAddr, SocketAddr-discrete, socket_addr_key}
use p2p_networking.Turn.{Packet, Session, MessageType}
use p2p_networking.Turn.Router.{
  ShardRouter, new, send_to_shard, route, next_shard, on_control, on_controls,
}

-- The shard of an address among `n`, where the sessions are given newest first: that of the newest
-- session with the address, and the first session went to shard 0.
unfoldable pub placed : ℕ → List Session → SocketAddr → Option ℕ
placed n [] a = none
placed n (x ∷ older) a =
    ite (SocketAddr-discrete x.peer_addr a) (some (length older % n))
      (ite (SocketAddr-discrete x.host_addr a) (some (length older % n)) (placed n older a))

-- The sessions of the messages on top of the older ones.
abbrev pub sessions_of : List Session → List MessageType → List Session
sessions_of older [] = older
sessions_of older (MessageType.add_session x ∷ ms) = sessions_of (x ∷ older) ms
sessions_of older (MessageType.transmit p ∷ ms) = sessions_of older ms

pub placed-lt :
    (n : ℕ) (older : List Session) (a : SocketAddr) (i : ℕ)
    → 0 < n
    → placed n older a ≡ some i
    → i < n
unfolding placed
placed-lt n [] a i h e = cc
placed-lt n (x ∷ older) a i h e = ground (arith, placed-lt n older a i, mod-lt (length older) h)

pub get_elem?_total {ℓ} :
    {A : Type ℓ} (xs : List A) (i : ℕ) → i < length xs → (x : A) × (get_elem? xs i ≡ some x)
get_elem?_total [] i h = absurd (omega arith)
get_elem?_total (x ∷ xs) zero h = (x, refl)
get_elem?_total (x ∷ xs) (suc i) h = get_elem?_total xs i (omega arith)

pub length-set {ℓ} : {A : Type ℓ} (xs : List A) (i : ℕ) (v : A) → length (set xs i v) ≡ length xs
length-set [] i v = refl
length-set (x ∷ xs) zero v = refl
length-set (x ∷ xs) (suc i) v = ap suc (length-set xs i v)

module _ (F : Fifo) where
  -- The router has `n` shards and has registered the sessions, newest first.
  pub record Places (n : ℕ) (older : List Session) (r : ShardRouter F) : Type 0 where
    pub some_shard : 0 < n
    pub shards : length r.senders ≡ n
    pub turn : r.next_shard ≡ length older % n
    pub placing : (a : SocketAddr) → Map.get a r.endpoint_to_shard ≡ placed n older a

  -- A send to a shard that is there does not panic, and changes queues only.
  pub record Sent (r r' : ShardRouter F) : Type 0 where
    pub shards : length r'.senders ≡ length r.senders
    pub turn : r'.next_shard ≡ r.next_shard
    pub table : r'.endpoint_to_shard ≡ r.endpoint_to_shard

  pub send_to_shard-Sent :
      (i : ℕ) (m : MessageType) (r : ShardRouter F)
      → i < length r.senders
      → (r' : ShardRouter F) × (send_to_shard F i m r ≡ some r') × Sent r r'
  unfolding send_to_shard
  send_to_shard-Sent i m r h =
      let (q, e) = get_elem?_total r.senders i h in
      elim (Option-cases (F.enqueue MessageType m q)) [
        | inl full ↦ (r, rw e (rw full), record { shards = refl; turn = refl; table = refl })
        | inr (q', put) ↦ (
          record r { senders = set r.senders i q' },
          rw e (rw put),
          record { shards = length-set r.senders i q'; turn = refl; table = refl },
        )
      ]

  module _ (n : ℕ) (older : List Session) (r : ShardRouter F) (t : Places n older r) where
    pub next_shard-some :
        next_shard F r ≡ some (length older % n, record r { next_shard = suc (length older) % n })
    unfolding next_shard
    next_shard-some =
        let nonempty : (length r.senders == 0) ≡ false = ground (arith, t.some_shard, t.shards) in
        rw (nonempty, next_shard)
          (ap₂ (λ i j. some (i, record r { next_shard = j })) t.turn advance)
      where
        wrapped : (length older % n + 1) % n ≡ (length older + 1) % n
        wrapped = mod-add-mod (length older) n 1

        advance : (r.next_shard + 1) % length r.senders ≡ suc (length older) % n
        advance =
            ap₂ (λ i j. (i + 1) % j) t.turn t.shards
            ∙ wrapped
            ∙ ap (λ i. i % n) (add-one (length older))

  pub on_control-Places :
      (n : ℕ) (older : List Session) (r : ShardRouter F) (x : Session)
      → Places n older r
      → (r' : ShardRouter F) × (on_control F r (MessageType.add_session x) ≡ some r')
        × Places n (x ∷ older) r'
  unfolding on_control placed
  on_control-Places n older r x t =
      let i = length older % n in
      let r1 : ShardRouter F = record r { next_shard = suc (length older) % n } in
      let (r2, sent, s) =
        send_to_shard-Sent i (MessageType.add_session x) r1
          (rw t.shards (mod-lt (length older) t.some_shard)) in
      (
        record r2 {
          endpoint_to_shard =
              Map.insert x.peer_addr i (Map.insert x.host_addr i r2.endpoint_to_shard);
        },
        rw (next_shard-some n older r t) (rw sent),
        record {
          some_shard = t.some_shard;
          shards = s.shards ∙ t.shards;
          turn = s.turn;
          placing = λ a. twice r2.endpoint_to_shard i a (ap (Map.get a) s.table ∙ t.placing a) refl;
        },
      )
    where
      twice :
          (m : Map SocketAddr ℕ) (i : ℕ) (a : SocketAddr)
          → Map.get a m ≡ placed n older a
          → i ≡ length older % n
          → Map.get a (Map.insert x.peer_addr i (Map.insert x.host_addr i m))
            ≡ placed n (x ∷ older) a
      twice m i a e j = ground (
        arith,
        get-insert x.peer_addr a i (Map.insert x.host_addr i m),
        get-insert x.host_addr a i m,
      )

  pub on_control_ignores :
      (r : ShardRouter F) (p : Packet) → on_control F r (MessageType.transmit p) ≡ some r
  unfolding on_control
  on_control_ignores r p = refl

  Sent-Places :
      (n : ℕ) (older : List Session) (r r' : ShardRouter F)
      → Places n older r
      → Sent r r'
      → Places n older r'
  Sent-Places n older r r' t s = record {
    some_shard = t.some_shard;
    shards = s.shards ∙ t.shards;
    turn = s.turn ∙ t.turn;
    placing = λ a. ap (Map.get a) s.table ∙ t.placing a;
  }

  pub route_known :
      (p : Packet) (r : ShardRouter F) (i : ℕ)
      → Map.get p.src r.endpoint_to_shard ≡ some i
      → route F p r ≡ send_to_shard F i (MessageType.transmit p) r
  unfolding route
  route_known p r i e = rw (e, route)

  -- Routing a packet does not panic, and moves no session.
  pub route-Places :
      (n : ℕ) (older : List Session) (r : ShardRouter F) (p : Packet)
      → Places n older r
      → (r' : ShardRouter F) × (route F p r ≡ some r') × Places n older r'
  unfolding route
  route-Places n older r p t = elim (Option-cases (Map.get p.src r.endpoint_to_shard)) [
    | inl e ↦ (r, rw (e, route), t)
    | inr (i, e) ↦
        let bound = placed-lt n older p.src i t.some_shard (sym (t.placing p.src) ∙ e) in
        let (r', sent, s) = send_to_shard-Sent i (MessageType.transmit p) r (rw t.shards bound) in
        (r', route_known p r i e ∙ sent, Sent-Places n older r r' t s)
  ]

  pub on_controls-Places :
      (n : ℕ) (older : List Session) (r : ShardRouter F) (ms : List MessageType)
      → Places n older r
      → (r' : ShardRouter F) × (on_controls F ms r ≡ some r') × Places n (sessions_of older ms) r'
  unfolding on_controls
  on_controls-Places n older r [] t = (r, refl, t)
  on_controls-Places n older r (MessageType.add_session x ∷ ms) t =
      let (r1, one, t1) = on_control-Places n older r x t in
      let (r2, more, t2) = on_controls-Places n (x ∷ older) r1 ms t1 in (r2, rw one more, t2)
  on_controls-Places n older r (MessageType.transmit p ∷ ms) t =
      let (r2, more, t2) = on_controls-Places n older r ms t in
      (r2, rw (on_control_ignores r p) more, t2)

pub new-Places :
    (F : Fifo) (senders : List (F.Q MessageType))
    → 0 < length senders
    → Places F (length senders) [] (new F senders)
unfolding new placed Map.get
new-Places F senders h = record {
  some_shard = h;
  shards = refl;
  turn = omega (arith, mod-eq_of_lt h);
  placing = λ a. refl;
}
