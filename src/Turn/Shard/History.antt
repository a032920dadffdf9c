-- ===== src/Turn/Shard/History.antt =====
-- What the two tables of a shard mean: the sessions in the order of their registration.
use p2p_networking.Base.{
  ℕ, ◌≡◌, ◌≢◌, refl, ◌∙◌, ap, List, [], ◌∷◌, Option, none, some, arith, ite, subst, ℕ_discrete,
}
use p2p_networking.Base.Fifo.{Fifo}
use p2p_networking.Base.Map
use p2p_networking.Base.Map.{Map, nat_key, get-insert, get-insert_self, get-insert_ne}
use p2p_networking.Base.Net.{SocketAddr, SocketAddr-discrete, socket_addr_key}
use p2p_networking.Turn.{Session, route_to}
use p2p_networking.Turn.Shard.{Shard, add_session, destination, by_id, by_session}

-- The partner of an address in the newest session that it belongs to.
unfoldable pub partner : List Session → SocketAddr → Option SocketAddr
partner [] src = none
partner (s ∷ older) src = elim (route_to s src) [ none ↦ partner older src | some dst ↦ some dst ]

-- Registered sessions with their ids, newest first.
abbrev pub History : Type 0
History = List (ℕ × Session)

abbrev pub sessions : History → List Session
sessions [] = []
sessions ((id, s) ∷ h) = s ∷ sessions h

-- The id is not among those of the history.
abbrev pub IsFresh : ℕ → History → Type 0
IsFresh id [] = Unit {0}
IsFresh id ((j, s) ∷ h) = (j ≢ id) × IsFresh id h

module _ (F : Fifo) where
  -- Register a history, the oldest session first.
  unfoldable pub register : History → Shard F → Shard F
  register [] s = s
  register ((id, x) ∷ h) s = add_session F id x (register h s)

  abbrev pub AreFresh : History → Type 0
  AreFresh [] = Unit {0}
  AreFresh ((id, s) ∷ h) = IsFresh id h × AreFresh h

  -- The tables of `s` stand for the history.
  pub record Stands (h : History) (s : Shard F) : Type 0 where
    pub ids : (id : ℕ) → IsFresh id h → Map.get id s.session_table ≡ none
    pub dests : (src : SocketAddr) → destination F s src ≡ partner (sessions h) src
    pub known :
        (src : SocketAddr) (id : ℕ)
        → Map.get src s.session_id ≡ some id
        → (x : Session) × (Map.get id s.session_table ≡ some x)

  pub add_session-Stands :
      (id : ℕ) (x : Session) (h : History) (s : Shard F)
      → IsFresh id h
      → Stands h s
      → Stands ((id, x) ∷ h) (add_session F id x s)
  unfolding add_session destination partner route_to
  add_session-Stands id x h s f t = record {
    ids = λ j g. get-insert_ne id j x s.session_table g.0 ∙ t.ids j g.1;
    dests = dests';
    known = known';
  }
    where
      looked_up :
          (src : SocketAddr)
          → Map.get src (add_session F id x s).session_id
            ≡ ite
                (SocketAddr-discrete x.peer_addr src)
                (some id)
                (ite (SocketAddr-discrete x.host_addr src) (some id) (Map.get src s.session_id))
      looked_up src = ground (
        arith,
        get-insert x.peer_addr src id (Map.insert x.host_addr id s.session_id),
        get-insert x.host_addr src id s.session_id,
      )

      known' :
          (src : SocketAddr) (j : ℕ)
          → Map.get src (add_session F id x s).session_id ≡ some j
          → (y : Session) × (Map.get j (add_session F id x s).session_table ≡ some y)
      known' src j g = elim (ℕ_discrete id j) [
        | yes q ↦ (
          x,
          subst (λ k. Map.get k (Map.insert id x s.session_table) ≡ some x) q
              (get-insert_self id x s.session_table),
        )
        | no q ↦
            let old : Map.get src s.session_id ≡ some j = ground (arith, looked_up src) in
            let (y, e) = t.known src j old in (y, get-insert_ne id j x s.session_table q ∙ e)
      ]

      fresh_id : Map.get id s.session_table ≡ none
      fresh_id = t.ids id f

      old_id :
          (src : SocketAddr) (o : Option ℕ)
          → Map.get src s.session_id ≡ o
          → by_id (Map.insert id x s.session_table) src o ≡ by_id s.session_table src o
      old_id src none e = refl
      old_id src (some j) e =
          let (y, g) = t.known src j e in
          let other : id ≢ j = λ q. cc fresh_id in
          ap (by_session src) (get-insert_ne id j x s.session_table other)

      dests' :
          (src : SocketAddr)
          → destination F (add_session F id x s) src ≡ partner (x ∷ sessions h) src
      dests' src = ground (
        arith,
        looked_up src,
        t.dests src,
        get-insert_self id x s.session_table,
        old_id src (Map.get src s.session_id) refl,
      )
