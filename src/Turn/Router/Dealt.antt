-- ===== src/Turn/Router/Dealt.antt =====
-- What the router puts into the shards' queues: each session into one, in turn, and each packet into
-- that of the newest session with its source.
use mathlib.Core.Option
use native.Mathlib.Nat.{mod-lt}
use p2p_networking.Base.{
  ℕ, zero, suc, ◌%◌, ◌<◌, ◌≡◌, refl, sym, ◌∙◌, ap, subst, ◌==◌, List, [], ◌∷◌, ◌++◌, Option, none,
  some, inl, inr, arith, length, get_elem?, set, Option-cases, if◌then◌else◌,
}
use p2p_networking.Base.Fail.{◌>>=◌}
use p2p_networking.Base.Fifo.{Fifo, offer, offer_all, offer_all-append}
use p2p_networking.Base.Map
use p2p_networking.Base.Map.{Map}
use p2p_networking.Base.Net.{SocketAddr, socket_addr_key}
use p2p_networking.Turn.{Packet, Session, MessageType}
use p2p_networking.Turn.Router.{ShardRouter, new, send_to_shard, route, on_control, on_controls}
use p2p_networking.Turn.Router.Balance.{
  placed, placed-lt, sessions_of, get_elem?_total, Places, next_shard-some, on_control-Places,
  on_controls-Places, on_control_ignores, route_known, new-Places,
}

-- What shard `k` of `n` is to get of the sessions, which are given newest first: those whose number
-- is `k` after the numbers wrap at `n`, oldest first.
unfoldable pub dealt : ℕ → ℕ → List Session → List MessageType
dealt n k [] = []
dealt n k (x ∷ older) =
    dealt n k older ++ (if length older % n == k then MessageType.add_session x ∷ [] else [])

-- What shard `k` is to get of a packet that is placed at a shard, if at any.
unfoldable pub carried_to : ℕ → Packet → Option ℕ → List MessageType
carried_to k p none = []
carried_to k p (some i) = if i == k then MessageType.transmit p ∷ [] else []

module _ (F : Fifo) where
  -- From the queues `qs` to `rs`, shard `k` was offered the messages `given k`, in order.
  abbrev pub Offered :
      (ℕ → List MessageType) → List (F.Q MessageType) → List (F.Q MessageType) → Type 0
  Offered given qs rs =
      (k : ℕ) → get_elem? rs k ≡ Option.map (offer_all F MessageType (given k)) (get_elem? qs k)

  -- One message, for one shard.
  abbrev only : ℕ → MessageType → ℕ → List MessageType
  only i m k = if i == k then m ∷ [] else []

  nothing_offered : (o : Option (F.Q MessageType)) → o ≡ Option.map (offer_all F MessageType []) o
  unfolding offer_all
  nothing_offered none = refl
  nothing_offered (some q) = refl

  no_offer :
      (given : List MessageType) (o : Option (F.Q MessageType))
      → given ≡ []
      → o ≡ Option.map (offer_all F MessageType given) o
  no_offer given o e = rw e (nothing_offered o)

  set-Offered :
      (qs : List (F.Q MessageType)) (i : ℕ) (q : F.Q MessageType) (m : MessageType)
      → get_elem? qs i ≡ some q
      → Offered (only i m) qs (set qs i (offer F MessageType m q))
  unfolding offer_all
  set-Offered [] i q m e k = refl
  set-Offered (x ∷ qs) zero q m e zero = cc
  set-Offered (x ∷ qs) zero q m e (suc k) =
      no_offer (only 0 m (suc k)) (get_elem? qs k) (ground arith)
  set-Offered (x ∷ qs) (suc i) q m e zero = no_offer (only (suc i) m 0) (some x) (ground arith)
  set-Offered (x ∷ qs) (suc i) q m e (suc k) =
      let same : only (suc i) m (suc k) ≡ only i m k = ground arith in
      set-Offered qs i q m e k
      ∙ ap (λ l. Option.map (offer_all F MessageType l) (get_elem? qs k)) (sym same)

  set_same :
      (qs : List (F.Q MessageType)) (i : ℕ) (q : F.Q MessageType)
      → get_elem? qs i ≡ some q
      → set qs i q ≡ qs
  set_same [] i q e = refl
  set_same (x ∷ qs) zero q e = cc
  set_same (x ∷ qs) (suc i) q e = ap (◌∷◌ x) (set_same qs i q e)

  send_to_shard-Offered :
      (i : ℕ) (m : MessageType) (r : ShardRouter F)
      → i < length r.senders
      → (r' : ShardRouter F) × (send_to_shard F i m r ≡ some r')
        × Offered (only i m) r.senders r'.senders
  unfolding send_to_shard offer
  send_to_shard-Offered i m r h =
      let (q, e) = get_elem?_total r.senders i h in
      let given = set-Offered r.senders i q m e in
      elim (Option-cases (F.enqueue MessageType m q)) [
        | inl full ↦
            let kept : set r.senders i (offer F MessageType m q) ≡ r.senders =
              ap (set r.senders i) (rw (full, offer) refl) ∙ set_same r.senders i q e in
            (r, rw e (rw full refl), subst (Offered (only i m) r.senders) kept given)
        | inr (q', put) ↦
            let took : set r.senders i (offer F MessageType m q) ≡ set r.senders i q' =
              ap (set r.senders i) (rw (put, offer) refl) in
            (
              record r { senders = set r.senders i q' },
              rw e (rw put refl),
              subst (Offered (only i m) r.senders) took given,
            )
      ]

  then-Offered :
      (g g' : ℕ → List MessageType) (qs rs ts : List (F.Q MessageType))
      → Offered g qs rs
      → Offered g' rs ts
      → Offered (λ k. g k ++ g' k) qs ts
  then-Offered g g' qs rs ts o o' k =
      o' k ∙ ap (Option.map (offer_all F MessageType (g' k))) (o k) ∙ both (get_elem? qs k)
    where
      both :
          (x : Option (F.Q MessageType))
          → Option.map
              (offer_all F MessageType (g' k))
              (Option.map (offer_all F MessageType (g k)) x)
            ≡ Option.map (offer_all F MessageType (g k ++ g' k)) x
      both none = refl
      both (some q) = ap some (sym (offer_all-append F MessageType (g k) (g' k) q))

  some_eq : {r r' : ShardRouter F} → some r ≡ some r' → r ≡ r'
  some_eq h = cc

  on_control-Offered :
      (n : ℕ) (older : List Session) (r r' : ShardRouter F) (x : Session)
      → Places F n older r
      → on_control F r (MessageType.add_session x) ≡ some r'
      → Offered (only (length older % n) (MessageType.add_session x)) r.senders r'.senders
  unfolding on_control
  on_control-Offered n older r r' x t ran =
      let i = length older % n in
      let r1 : ShardRouter F = record r { next_shard = suc (length older) % n } in
      let (r2, sent, given) =
        send_to_shard-Offered i (MessageType.add_session x) r1
          (rw t.shards (mod-lt (length older) t.some_shard)) in
      let done : on_control F r (MessageType.add_session x)
          ≡ some (record r2 {
            endpoint_to_shard =
                Map.insert x.peer_addr i (Map.insert x.host_addr i r2.endpoint_to_shard);
          }) =
        rw (next_shard-some F n older r t) (rw sent refl) in
      let same = some_eq (sym done ∙ ran) in
      subst
        (λ (y : ShardRouter F). Offered (only i (MessageType.add_session x)) r.senders y.senders)
        same given

  -- The queues hold what was dealt of the sessions, after what they held at the start.
  pub on_controls-Offered :
      (n : ℕ) (qs : List (F.Q MessageType)) (older : List Session) (r r' : ShardRouter F)
      (ms : List MessageType)
      → Places F n older r
      → on_controls F ms r ≡ some r'
      → Offered (λ k. dealt n k older) qs r.senders
      → Offered (λ k. dealt n k (sessions_of older ms)) qs r'.senders
  unfolding on_controls dealt
  on_controls-Offered n qs older r r' [] t ran o = rw (sym (some_eq ran)) o
  on_controls-Offered n qs older r r' (MessageType.add_session x ∷ ms) t ran o =
      let (r1, one, t1) = on_control-Places F n older r x t in
      on_controls-Offered n qs (x ∷ older) r1 r' ms t1
        (ap (λ y. y >>= on_controls F ms) (sym one) ∙ ran)
        (then-Offered (λ k. dealt n k older) (only (length older % n) (MessageType.add_session x))
          qs r.senders r1.senders o (on_control-Offered n older r r1 x t one))
  on_controls-Offered n qs older r r' (MessageType.transmit p ∷ ms) t ran o =
      on_controls-Offered n qs older r r' ms t
        (ap (λ y. y >>= on_controls F ms) (sym (on_control_ignores F r p)) ∙ ran) o

  -- A packet is offered to the shard where its source is placed, and to no other.
  pub route-Offered :
      (n : ℕ) (older : List Session) (r : ShardRouter F) (p : Packet)
      → Places F n older r
      → (r' : ShardRouter F) × (route F p r ≡ some r')
        × Offered (λ k. carried_to k p (placed n older p.src)) r.senders r'.senders
  unfolding route carried_to
  route-Offered n older r p t = elim (Option-cases (Map.get p.src r.endpoint_to_shard)) [
    | inl e ↦
        let nowhere : placed n older p.src ≡ none = sym (t.placing p.src) ∙ e in
        (r, rw (e, route) refl, rw nowhere (λ k. nothing_offered (get_elem? r.senders k)))
    | inr (i, e) ↦
        let there : placed n older p.src ≡ some i = sym (t.placing p.src) ∙ e in
        let bound = placed-lt n older p.src i t.some_shard there in
        let (r', sent, given) =
          send_to_shard-Offered i (MessageType.transmit p) r (rw t.shards bound) in
        (
          r',
          route_known F p r i e ∙ sent,
          subst (λ o. Offered (λ k. carried_to k p o) r.senders r'.senders) (sym there) given,
        )
  ]

-- A new router over n shards, n not 0, takes any control messages and then any packet without a
-- panic. The sessions are dealt to the shards 0, 1, …, n - 1, 0, … in turn: each shard is offered
-- those that are its own, oldest first, and nothing else. An address is routed to the shard of the
-- newest session that has it, and to none if no session has; the packet is offered to the shard to
-- which its source is routed, and to no other. A queue that is full refuses an offer, and keeps the
-- others.
pub router_places :
    (F : Fifo) (senders : List (F.Q MessageType)) (ms : List MessageType)
    → 0 < length senders
    → let n = length senders in
      (r : ShardRouter F) × (on_controls F ms (new F senders) ≡ some r)
      × ((a : SocketAddr) → Map.get a r.endpoint_to_shard ≡ placed n (sessions_of [] ms) a)
      × Offered F (λ k. dealt n k (sessions_of [] ms)) senders r.senders
      × ((p : Packet)
          → (r' : ShardRouter F) × (route F p r ≡ some r')
            × Offered F
                (λ k. carried_to k p (placed n (sessions_of [] ms) p.src))
                r.senders
                r'.senders)
unfolding new dealt
router_places F senders ms h =
    let n = length senders in
    let (r, ran, t) = on_controls-Places F n [] (new F senders) ms (new-Places F senders h) in
    (
      r,
      ran,
      t.placing,
      on_controls-Offered F n senders [] (new F senders) r ms (new-Places F senders h) ran
          (λ k. nothing_offered F (get_elem? senders k)),
      λ p. route-Offered F n (sessions_of [] ms) r p t,
    )
