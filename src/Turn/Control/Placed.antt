-- ===== src/Turn/Control/Placed.antt =====
-- From the requests to the control service to the router's table.
use mathlib.Core.Option
use p2p_networking.Base.{
  get_elem?, ℕ, ◌<◌, ◌≡◌, refl, ◌∙◌, ap, List, [], ◌∷◌, ◌++◌, Option, none, some, inl, inr,
  Option-cases, length, map,
}
use p2p_networking.Base.Fifo.{Fifo, offer_all}
use p2p_networking.Base.Map
use p2p_networking.Base.Net.{SocketAddr, socket_addr_key}
use p2p_networking.Turn.{Session, MessageType}
use p2p_networking.Turn.Control.{
  CreateSessionRequest, Reply, session_of, create_session, create_sessions,
}
use p2p_networking.Turn.Router
use p2p_networking.Turn.Router.{ShardRouter, on_controls}
use p2p_networking.Turn.Router.Balance.{placed, sessions_of}
use p2p_networking.Turn.Router.Dealt.{Offered, dealt, router_places}

sessions_of-append :
    (older : List Session) (tx : List MessageType) (x : Session)
    → sessions_of older (tx ++ MessageType.add_session x ∷ []) ≡ x ∷ sessions_of older tx
sessions_of-append older [] x = refl
sessions_of-append older (MessageType.add_session y ∷ tx) x = sessions_of-append (y ∷ older) tx x
sessions_of-append older (MessageType.transmit p ∷ tx) x = sessions_of-append older tx x

module _ (parse : List ℕ → Option SocketAddr) where
  -- The sessions of the requests that can be parsed, newest first, on top of the older ones.
  unfoldable pub parsed : List Session → List CreateSessionRequest → List Session
  parsed older [] = older
  parsed older (q ∷ qs) = elim (session_of parse q) [
    | none ↦ parsed older qs
    | some x ↦ parsed (x ∷ older) qs
  ]

  -- Whether the request can be parsed.
  abbrev pub reply_to : CreateSessionRequest → Reply
  reply_to q = elim (session_of parse q) [ none ↦ Reply.invalid_argument | some x ↦ Reply.success ]

  create_sessions-parsed :
      (qs : List CreateSessionRequest) (tx : List MessageType)
      → sessions_of [] (create_sessions parse qs tx).1 ≡ parsed (sessions_of [] tx) qs
  unfolding create_sessions create_session parsed
  create_sessions-parsed [] tx = refl
  create_sessions-parsed (q ∷ qs) tx = elim (Option-cases (session_of parse q)) [
    | inl e ↦ rw (e, create_session, parsed) (create_sessions-parsed qs tx)
    | inr (x, e) ↦
        rw (e, create_session, parsed)
          (create_sessions-parsed qs (tx ++ MessageType.add_session x ∷ [])
            ∙ ap (λ l. parsed l qs) (sessions_of-append [] tx x))
  ]

  create_sessions-replies :
      (qs : List CreateSessionRequest) (tx : List MessageType)
      → (create_sessions parse qs tx).0 ≡ map reply_to qs
  unfolding create_sessions create_session
  create_sessions-replies [] tx = refl
  create_sessions-replies (q ∷ qs) tx = elim (Option-cases (session_of parse q)) [
    | inl e ↦
        rw (e, create_session, reply_to)
          (ap (◌∷◌ Reply.invalid_argument) (create_sessions-replies qs tx))
    | inr (x, e) ↦
        rw (e, create_session, reply_to)
          (ap (◌∷◌ Reply.success)
            (create_sessions-replies qs (tx ++ MessageType.add_session x ∷ [])))
  ]

-- The control service gets any requests, and a new router over at least one shard then takes what
-- the service sent. Each request is answered with success or invalid_argument as its two addresses
-- can be parsed or not. The router does not panic; it deals the requested sessions to the shards in
-- turn, so that each shard is offered those that are its own, oldest first, and nothing else; and it
-- routes each address to the shard of the newest of these sessions that has it.
pub service_places :
    (parse : List ℕ → Option SocketAddr) (F : Fifo) (senders : List (F.Q MessageType))
    (qs : List CreateSessionRequest)
    → 0 < length senders
    → ((create_sessions parse qs []).0 ≡ map (reply_to parse) qs)
      × (r : ShardRouter F) × (on_controls F (create_sessions parse qs []).1 (Router.new F senders)
          ≡ some r)
      × ((a : SocketAddr)
          → Map.get a r.endpoint_to_shard ≡ placed (length senders) (parsed parse [] qs) a)
      × Offered F (λ k. dealt (length senders) k (parsed parse [] qs)) senders r.senders
service_places parse F senders qs h =
    let (r, ran, places, deals, _) = router_places F senders (create_sessions parse qs []).1 h in
    (
      create_sessions-replies parse qs [],
      r,
      ran,
      λ a. places a ∙ ap (λ l. placed (length senders) l a) (create_sessions-parsed parse qs []),
      λ k.
          deals k
          ∙ ap
              (λ l.
                Option.map (offer_all F MessageType (dealt (length senders) k l))
                  (get_elem? senders k))
              (create_sessions-parsed parse qs []),
    )
