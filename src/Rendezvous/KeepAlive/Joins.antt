-- ===== src/Rendezvous/KeepAlive/Joins.antt =====
-- What a join changes: RelayManager::handler of rendezvous_stun_server/src/lib.rs, `JoinLobby`.
use p2p_networking.Base.{
  ℕ, ◌<◌, ◌≡◌, ◌≢◌, refl, sym, ◌∙◌, ap, subst, none, some, inl, inr, Option-cases,
}
use p2p_networking.Base.Map
use p2p_networking.Base.Map.{
  Map, nat_key, get-insert_self, get-insert_ne, get-insert_cases, get-remove_ne, get-remove_self,
}
use p2p_networking.Base.Net.{SocketAddr}
use p2p_networking.Rendezvous.{Code, code_key, Session, Server, join_session}
use p2p_networking.Rendezvous.KeepAlive.{Open, Kept, none-some}

module _ (code : Code) (addr : SocketAddr) (x0 : Session) (s : Server) where
  -- A lobby that waits after a join waited before it, and is another.
  Open-join :
      (c : Code) (x : Session) (tx : ℕ)
      → Open (join_session code addr x0 s).manager.session c x tx
      → (code ≢ c) × Open s.manager.session c x tx
  unfolding join_session
  Open-join c x tx o = elim (get-insert_cases code c _ x s.manager.session o.there) [
    | inl (q, e) ↦ absurd (none-some (ap (λ (y : Session). y.shutdown_channel) e ∙ o.channel))
    | inr (n, e) ↦ (n, record { there = e; channel = o.channel })
  ]

  closing_none : x0.shutdown_channel ≡ none → (join_session code addr x0 s).closing ≡ s.closing
  unfolding join_session
  closing_none d = rw d refl

  closing_some :
      (k : ℕ)
      → x0.shutdown_channel ≡ some k
      → (join_session code addr x0 s).closing ≡ Map.insert k tt s.closing
  unfolding join_session
  closing_some k d = rw d refl

  closing-join :
      (tx : ℕ)
      → Map.get code s.manager.session ≡ some x0
      → Map.get tx (join_session code addr x0 s).closing ≡ some tt
      → Kept s
      → tx < s.next_channel
  closing-join tx e h t = elim (Option-cases x0.shutdown_channel) [
    | inl d ↦ t.stopping tx (sym (ap (Map.get tx) (closing_none d)) ∙ h)
    | inr (k, d) ↦
        elim (get-insert_cases k tx tt tt s.closing
          (sym (ap (Map.get tx) (closing_some k d)) ∙ h)) [
            | inl (q, _) ↦
                subst (λ j. j < s.next_channel) q
                  (t.numbered code x0 k (record { there = e; channel = d }))
            | inr (_, w) ↦ t.stopping tx w
          ]
  ]

  waiting-join :
      (c : Code) (x : Session) (tx : ℕ)
      → Map.get code s.manager.session ≡ some x0
      → Kept s
      → code ≢ c
      → Open s.manager.session c x tx
      → Map.get tx (join_session code addr x0 s).closing ≡ none
  waiting-join c x tx e t n o = elim (Option-cases x0.shutdown_channel) [
    | inl d ↦ ap (Map.get tx) (closing_none d) ∙ t.waiting c x tx o
    | inr (k, d) ↦
        let other : k ≢ tx =
          λ q. n (t.apart code c x0 x tx (record { there = e; channel = d ∙ ap some q }) o) in
        ap (Map.get tx) (closing_some k d)
        ∙ get-insert_ne k tx tt s.closing other
        ∙ t.waiting c x tx o
  ]

  pub join_session-Kept :
      Map.get code s.manager.session ≡ some x0 → Kept s → Kept (join_session code addr x0 s)
  unfolding join_session
  join_session-Kept e t = record {
    numbered = λ c x tx o. t.numbered c x tx (Open-join c x tx o).1;
    running = λ c x tx o. t.running c x tx (Open-join c x tx o).1;
    waiting = λ c x tx o. let (n, o') = Open-join c x tx o in waiting-join c x tx e t n o';
    apart =
        λ c c' x x' tx o o'. t.apart c c' x x' tx (Open-join c x tx o).1 (Open-join c' x' tx o').1;
    joined = λ c x h d. elim (get-insert_cases code c _ x s.manager.session h) [
      | inl (q, w) ↦ λ no. none-some (sym no ∙ ap (λ (y : Session). y.client_addr) (sym w))
      | inr (n, w) ↦ t.joined c x w d
    ];
    stopping = λ tx h. closing-join tx e h t;
  }
