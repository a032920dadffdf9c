-- ===== src/Rendezvous/KeepAlive/Always.antt =====
-- The rendezvous server at any time: which keep-alive tasks run.
use p2p_networking.Base.{
  ℕ, zero, suc, ◌≡◌, refl, sym, subst, List, [], ◌∷◌, ◌++◌, Option, none, some, inl, inr,
  Option-cases, get_elem?,
}
use p2p_networking.Base.Map
use p2p_networking.Base.Map.{
  Map, nat_key, get-insert_self, get-insert_ne, get-insert_cases, get-remove_ne, get-remove_self,
}
use p2p_networking.Base.Net.{SocketAddr}
use p2p_networking.Rendezvous.{
  Code, code_key, Session, Server, init, overlay, lobby_id, on_join, join_session, dispatch,
  udp_handler, tick, introductions,
}
use p2p_networking.Rendezvous.Lobbies.{on_join-none, on_join-some}
use p2p_networking.Rendezvous.KeepAlive.{
  Event, step, run_events, Open, Kept, none-some, same_tables, tick-Kept, shut_down-Kept,
}
use p2p_networking.Rendezvous.KeepAlive.Joins.{join_session-Kept}
use p2p_networking.Rendezvous.KeepAlive.Creates.{on_create-Kept}

module _ (to_string : SocketAddr → List ℕ) where
  on_join-Kept : (addr : SocketAddr) (s : Server) → Kept s → Kept (on_join to_string addr s)
  on_join-Kept addr s t = elim (Option-cases (Map.get (lobby_id s.buf) s.manager.session)) [
    | inl e ↦ subst Kept (sym (on_join-none to_string addr s e)) t
    | inr (x, e) ↦
        let s' = join_session (lobby_id s.buf) addr x s in
        subst Kept (sym (on_join-some to_string addr s x e)) (
          same_tables s' s'.buf (s.socket ++ introductions to_string x.host_addr addr)
            (join_session-Kept (lobby_id s.buf) addr x s e t))
  ]

  dispatch-Kept :
      (code : Code) (addr : SocketAddr) (kind : Option ℕ) (s : Server)
      → Kept s
      → Kept (dispatch to_string code addr kind s)
  unfolding dispatch
  dispatch-Kept code addr none s t = t
  dispatch-Kept code addr (some zero) s t = on_create-Kept code addr s t
  dispatch-Kept code addr (some (suc zero)) s t = on_join-Kept addr s t
  dispatch-Kept code addr (some (suc (suc n))) s t = t

  step-Kept : (s : Server) (e : Event) → Kept s → Kept (step to_string s e)
  unfolding step udp_handler
  step-Kept s (Event.datagram code bytes addr) t =
      dispatch-Kept code addr (get_elem? (overlay bytes s.buf) 0)
        (record s { buf = overlay bytes s.buf }) (same_tables s (overlay bytes s.buf) s.socket t)
  step-Kept s (Event.ticks tx) t = tick-Kept tx s t
  step-Kept s (Event.shuts_down tx) t = shut_down-Kept tx s t

  run_events-Kept : (es : List Event) (s : Server) → Kept s → Kept (run_events to_string es s)
  unfolding run_events
  run_events-Kept [] s t = t
  run_events-Kept (e ∷ es) s t = run_events-Kept es (step to_string s e) (step-Kept s e t)

init-Kept : Kept init
unfolding init Map.get
init-Kept = record {
  numbered = λ c x tx o. absurd (none-some o.there);
  running = λ c x tx o. absurd (none-some o.there);
  waiting = λ c x tx o. refl;
  apart = λ c c' x x' tx o o'. absurd (none-some o.there);
  joined = λ c x h d. absurd (none-some h);
  stopping = λ tx h. absurd (none-some h);
}

tick-running :
    (tx : ℕ) (addr : SocketAddr) (s : Server)
    → Map.get tx s.keep_alives ≡ some addr
    → (tick tx s).socket ≡ s.socket ++ (0 ∷ [], addr) ∷ []
unfolding tick
tick-running tx addr s e = rw (e, tick) refl

-- After any datagrams, ticks and shutdowns since the start, in any order, a lobby that nobody has
-- joined still has its shutdown channel, no shutdown of it waits, and its keep-alive task runs: its
-- tick sends the one byte 0 to the lobby's host.
pub unjoined_kept_alive :
    (to_string : SocketAddr → List ℕ) (es : List Event) (c : Code) (x : Session)
    → Map.get c (run_events to_string es init).manager.session ≡ some x
    → x.client_addr ≡ none
    → let s = run_events to_string es init in
      (tx : ℕ) × (x.shutdown_channel ≡ some tx)
      × (Map.get tx s.closing ≡ none)
      × ((tick tx s).socket ≡ s.socket ++ (0 ∷ [], x.host_addr) ∷ [])
unjoined_kept_alive to_string es c x h alone =
    let s = run_events to_string es init in
    let t : Kept s = run_events-Kept to_string es init init-Kept in
    elim (Option-cases x.shutdown_channel) [
      | inl d ↦ absurd (t.joined c x h d alone)
      | inr (tx, d) ↦
          let o : Open s.manager.session c x tx = record { there = h; channel = d } in
          (tx, d, t.waiting c x tx o, tick-running tx x.host_addr s (t.running c x tx o))
    ]
