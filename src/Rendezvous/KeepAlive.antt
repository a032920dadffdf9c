-- ===== src/Rendezvous/KeepAlive.antt =====
-- The keep-alive tasks and the shutdowns of the rendezvous server, as events in any order, and what
-- holds of them at any time.
pub mod Joins
pub mod Creates
pub mod Always
use p2p_networking.Base.{
  ℕ, zero, suc, ◌<◌, ◌≡◌, ◌≢◌, ◌⊎◌, refl, sym, ◌∙◌, ap, subst, List, [], ◌∷◌, ◌++◌, Option, none,
  some, inl, inr, arith, Option-cases, get_elem?, ℕ_discrete,
}
use p2p_networking.Base.Map
use p2p_networking.Base.Map.{
  Map, nat_key, get-insert_self, get-insert_ne, get-insert_cases, get-remove_ne, get-remove_self,
}
use p2p_networking.Base.Net.{SocketAddr}
use p2p_networking.Rendezvous.{
  Code, code_key, Session, Server, init, overlay, lobby_id, on_create, on_join, join_session,
  create_lobby, drop_channel, dispatch, udp_handler, tick, shut_down, introductions,
}
use p2p_networking.Rendezvous.Lobbies.{on_join-none, on_join-some}

pub data Event : Type 0 where
  datagram : Code → List ℕ → SocketAddr → Event
  ticks : ℕ → Event
  shuts_down : ℕ → Event

unfoldable pub step : (SocketAddr → List ℕ) → Server → Event → Server
step to_string s (Event.datagram code bytes addr) = udp_handler to_string code (bytes, addr) s
step to_string s (Event.ticks tx) = tick tx s
step to_string s (Event.shuts_down tx) = shut_down tx s

unfoldable pub run_events : (SocketAddr → List ℕ) → List Event → Server → Server
run_events to_string [] s = s
run_events to_string (e ∷ es) s = run_events to_string es (step to_string s e)

-- In the table the lobby with the code has the session, and its shutdown channel has the number.
pub record Open (m : Map Code Session) (c : Code) (x : Session) (tx : ℕ) : Type 0 where
  pub there : Map.get c m ≡ some x
  pub channel : x.shutdown_channel ≡ some tx

pub record Kept (s : Server) : Type 0 where
  pub numbered :
      (c : Code) (x : Session) (tx : ℕ) → Open s.manager.session c x tx → tx < s.next_channel
  pub running :
      (c : Code) (x : Session) (tx : ℕ)
      → Open s.manager.session c x tx
      → Map.get tx s.keep_alives ≡ some x.host_addr
  pub waiting :
      (c : Code) (x : Session) (tx : ℕ)
      → Open s.manager.session c x tx
      → Map.get tx s.closing ≡ none
  pub apart :
      (c c' : Code) (x x' : Session) (tx : ℕ)
      → Open s.manager.session c x tx
      → Open s.manager.session c' x' tx
      → c ≡ c'
  pub joined :
      (c : Code) (x : Session)
      → Map.get c s.manager.session ≡ some x
      → x.shutdown_channel ≡ none
      → x.client_addr ≢ none
  pub stopping : (tx : ℕ) → Map.get tx s.closing ≡ some tt → tx < s.next_channel

pub none-some {ℓ} : {A : Type ℓ} {a : A} → none ≡ some a → ⊥
none-some h = cc

pub some_eq {ℓ} : {A : Type ℓ} {a b : A} → some a ≡ some b → a ≡ b
some_eq h = cc

-- What does not touch the tables keeps the invariant.
pub same_tables :
    (s : Server) (buf : List ℕ) (socket : List (List ℕ × SocketAddr))
    → Kept s
    → Kept (record s { buf = buf; socket = socket })
same_tables s buf socket t = record {
  numbered = t.numbered;
  running = t.running;
  waiting = t.waiting;
  apart = t.apart;
  joined = t.joined;
  stopping = t.stopping;
}

pub tick-Kept : (tx : ℕ) (s : Server) → Kept s → Kept (tick tx s)
unfolding tick
tick-Kept tx s t = elim (Option-cases (Map.get tx s.keep_alives)) [
  | inl e ↦ rw (e, tick) t
  | inr (a, e) ↦ rw (e, tick) (same_tables s s.buf (s.socket ++ (0 ∷ [], a) ∷ []) t)
]

pub shut_down-Kept : (tx : ℕ) (s : Server) → Kept s → Kept (shut_down tx s)
unfolding shut_down
shut_down-Kept tx s t = elim (Option-cases (Map.get tx s.closing)) [
  | inl e ↦ rw (e, shut_down) t
  | inr (_, e) ↦
      let other : (c : Code) (x : Session) (j : ℕ) → Open s.manager.session c x j → tx ≢ j =
        λ c x j o q.
          none-some (sym (t.waiting c x j o) ∙ ap (λ k. Map.get k s.closing) (sym q) ∙ e) in
      rw (e, shut_down)
        (record {
          numbered = t.numbered;
          running = λ c x j o. get-remove_ne tx j s.keep_alives (other c x j o) ∙ t.running c x j o;
          waiting = λ c x j o. get-remove_ne tx j s.closing (other c x j o) ∙ t.waiting c x j o;
          apart = t.apart;
          joined = t.joined;
          stopping = λ j h. elim (ℕ_discrete tx j) [
            | yes q ↦ absurd (
                none-some (
                  sym (get-remove_self j s.closing)
                  ∙ ap (λ k. Map.get j (Map.remove k s.closing)) (sym q)
                  ∙ h))
            | no n ↦ t.stopping j (sym (get-remove_ne tx j s.closing n) ∙ h)
          ];
        })
]
