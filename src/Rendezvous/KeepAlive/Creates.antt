-- ===== src/Rendezvous/KeepAlive/Creates.antt =====
-- What a new lobby changes: RelayManager::handler of rendezvous_stun_server/src/lib.rs,
-- `CreateLobby`, and the branch LOBBY_CREATE of src/udp/parser.rs.
use p2p_networking.Base.{
  ℕ, ◌≡◌, ◌≢◌, ◌⊎◌, refl, sym, ◌∙◌, ap, none, some, inl, inr, arith, Option-cases,
}
use p2p_networking.Base.Map
use p2p_networking.Base.Map.{
  Map, nat_key, get-insert_self, get-insert_ne, get-insert_cases, get-remove_ne, get-remove_self,
}
use p2p_networking.Base.Net.{SocketAddr}
use p2p_networking.Rendezvous.{
  Code, code_key, Session, Server, on_create, create_lobby, drop_channel,
}
use p2p_networking.Rendezvous.KeepAlive.{Open, Kept, none-some, some_eq}

-- A new lobby, before its keep-alive task runs and its code is sent.
module _ (code : Code) (addr : SocketAddr) (s : Server) (t : Kept s) where
  made : Session
  made = record { host_addr = addr; shutdown_channel = some s.next_channel; client_addr = none }

  made_sessions : Map Code Session
  made_sessions = Map.insert code made s.manager.session

  -- A lobby that waits is the new one, or another that waited before.
  Open-create :
      (c : Code) (x : Session) (tx : ℕ)
      → Open made_sessions c x tx
      → ((code ≡ c) × (made ≡ x) × (s.next_channel ≡ tx))
        ⊎ ((code ≢ c) × Open s.manager.session c x tx)
  unfolding made made_sessions
  Open-create c x tx o = elim (get-insert_cases code c made x s.manager.session o.there) [
    | inl (q, e) ↦ inl (q, e, some_eq (ap (λ (y : Session). y.shutdown_channel) e ∙ o.channel))
    | inr (n, e) ↦ inr (n, record { there = e; channel = o.channel })
  ]

  -- The task of another lobby is not dropped with a lobby that is replaced.
  drop_channel-get :
      (c : Code) (x : Session) (tx : ℕ)
      → code ≢ c
      → Open s.manager.session c x tx
      → Map.get tx (drop_channel (Map.get code s.manager.session) s.keep_alives)
        ≡ Map.get tx s.keep_alives
  drop_channel-get c x tx n o = elim (Option-cases (Map.get code s.manager.session)) [
    | inl e ↦ rw (e, drop_channel) refl
    | inr (y, e) ↦ elim (Option-cases y.shutdown_channel) [
      | inl d ↦ rw (e, drop_channel) (rw d refl)
      | inr (k, d) ↦
          let other : k ≢ tx =
            λ q. n (t.apart code c y x tx (record { there = e; channel = d ∙ ap some q }) o) in
          rw (e, drop_channel) (rw d (get-remove_ne k tx s.keep_alives other))
    ]
  ]

  pub on_create-Kept : Kept (on_create code addr s)
  unfolding on_create create_lobby made made_sessions
  on_create-Kept = record {
    numbered = λ c x tx o. elim (Open-create c x tx o) [
      | inl (_, _, q) ↦ omega (arith, q)
      | inr (_, o') ↦ let old = t.numbered c x tx o' in omega arith
    ];
    running = λ c x tx o.
        let tasks = drop_channel (Map.get code s.manager.session) s.keep_alives in
        elim (Open-create c x tx o) [
          | inl (_, w, q) ↦
              ap (λ j. Map.get j (Map.insert s.next_channel addr tasks)) (sym q)
              ∙ get-insert_self s.next_channel addr tasks
              ∙ ap (λ (y : Session). some y.host_addr) w
          | inr (n, o') ↦
              let old = t.numbered c x tx o' in
              get-insert_ne s.next_channel tx addr tasks (λ q. omega arith)
              ∙ drop_channel-get c x tx n o'
              ∙ t.running c x tx o'
        ];
    waiting = λ c x tx o. elim (Open-create c x tx o) [
      | inl (_, _, q) ↦ elim (Option-cases (Map.get tx s.closing)) [
        | inl none' ↦ none'
        | inr (tt, e) ↦ let old = t.stopping tx e in absurd (omega (arith, q))
      ]
      | inr (_, o') ↦ t.waiting c x tx o'
    ];
    apart = λ c c' x x' tx o o'. elim (Open-create c x tx o) [
      | inl (p, _, q) ↦ elim (Open-create c' x' tx o') [
        | inl (p', _, _) ↦ sym p ∙ p'
        | inr (_, w) ↦ let old = t.numbered c' x' tx w in absurd (omega (arith, q))
      ]
      | inr (_, v) ↦ elim (Open-create c' x' tx o') [
        | inl (_, _, q) ↦ let old = t.numbered c x tx v in absurd (omega (arith, q))
        | inr (_, w) ↦ t.apart c c' x x' tx v w
      ]
    ];
    joined = λ c x h d. elim (get-insert_cases code c made x s.manager.session h) [
      | inl (q, w) ↦ absurd (none-some (sym d ∙ ap (λ (y : Session). y.shutdown_channel) (sym w)))
      | inr (n, w) ↦ t.joined c x w d
    ];
    stopping = λ tx h. let old = t.stopping tx h in omega arith;
  }
