-- ===== src/Rendezvous/Tasks/Refined.antt =====
-- The tasks of the rendezvous server refine the server that handles each datagram at once: between
-- any two steps, what was sent and what is still ahead make up what that server has sent.
use p2p_networking.Base.{
  ℕ, zero, suc, ◌+◌, ◌≡◌, refl, sym, ◌∙◌, ap, ap₂, subst, List, [], ◌∷◌, ◌++◌, Option, none, some,
  inl, inr, arith, length, ltb, Bool-cases,
}
use p2p_networking.Base.Map.{Map, nat_key}
use p2p_networking.Base.Net.{SocketAddr}
use p2p_networking.Base.Tally.{tally, tally-nil, tally-cons, tally-append}
use p2p_networking.Rendezvous.{
  Code, code_key, Session, Server, create_lobby, lobby_id, on_create, on_join, dispatch,
  introductions,
}
use p2p_networking.Rendezvous.Tasks.{
  MessageType, Udp, App, join_msg, capacity, send_msg, begin_request, udp_step,
}
use p2p_networking.Rendezvous.Tasks.Ahead.{
  enters, enter_all, enter_all-append, host_of, answer_to, joined, joined-append, on_join-Joined,
  message_of, reply_of, OneJoin,
}

-- The server that handles each datagram at once, after those that `udp_handler` has taken; the
-- datagrams that the keep-alive tasks have sent; and those that are still to come.
pub record View : Type 0 where
  pub server : Server
  pub kept : List (List ℕ × SocketAddr)
  pub inbox : List (Code × List ℕ × SocketAddr)

module _ (to_string : SocketAddr → List ℕ) where
  -- The sessions, once the messages in the channel are handled.
  abbrev pub after_channel : App → Map Code Session
  after_channel a = enter_all a.channel a.server.manager.session

  -- The weight of what is still ahead while `udp_handler` stands at `u`.
  unfoldable pub ahead : (List ℕ × SocketAddr → ℕ) → Udp → App → ℕ
  ahead weight u a =
      tally (tally weight) a.tasks
      + tally weight (joined to_string a.channel a.server.manager.session)
      + tally weight (joined to_string (message_of to_string u) (after_channel a))
      + tally weight (reply_of to_string u)

  -- The tasks, with `udp_handler` at `u`, and the server that handles each datagram at once.
  pub record Refines (u : Udp) (a : App) (v : View) : Type 0 where
    pub session : enter_all (message_of to_string u) (after_channel a) ≡ v.server.manager.session
    pub sent :
        (weight : List ℕ × SocketAddr → ℕ)
        → tally weight a.server.socket + ahead weight u a
          ≡ tally weight v.server.socket + tally weight v.kept
    pub buf : a.server.buf ≡ v.server.buf
    pub next : a.server.next_channel ≡ v.server.next_channel
    pub inbox : a.inbox ≡ v.inbox
    pub one : OneJoin u a.channel

  abbrev pub Simulates : App → View → Type 0
  Simulates a v = Refines a.udp a v

  create-Refines :
      (code : Code) (addr : SocketAddr) (a : App) (v : View)
      → Refines Udp.receiving a v
      → Simulates
          (begin_request code addr (some 0) a)
          (record v { server = on_create code addr v.server })
  unfolding begin_request on_create create_lobby enter_all enters ahead joined
  create-Refines code addr a v r = record {
    session = rw (sym r.session, sym r.next) refl;
    sent = λ weight. omega (
      arith,
      r.sent weight,
      tally-append weight v.server.socket ((code, addr) ∷ []),
      tally-nil weight,
    );
    buf = r.buf;
    next = ap suc r.next;
    inbox = r.inbox;
    one = r.one;
  }

  join-Refines :
      (code : Code) (addr : SocketAddr) (a : App) (v : View)
      → Refines Udp.receiving a v
      → Simulates
          (begin_request code addr (some 1) a)
          (record v { server = on_join to_string addr v.server })
  unfolding begin_request enter_all ahead joined
  join-Refines code addr a v r =
      let t : Server = v.server in
      let j = on_join-Joined to_string addr t in
      let answer = answer_to to_string addr (host_of (lobby_id t.buf) t.manager.session) in
      let same : answer_to to_string addr (host_of (lobby_id a.server.buf) (after_channel a))
          ≡ answer =
        ap₂ (λ b m. answer_to to_string addr (host_of (lobby_id b) m)) r.buf r.session in
      record {
        session =
            ap₂ (λ b m. enters (join_msg (lobby_id b) addr) m) r.buf r.session ∙ sym j.session;
        sent = λ weight. omega (
          arith,
          r.sent weight,
          ap (λ l. tally weight (l ++ [])) same,
          tally-append weight answer [],
          tally-nil weight,
          ap (tally weight) j.socket,
          tally-append weight t.socket answer,
        );
        buf = r.buf ∙ sym j.buf;
        next = r.next ∙ sym j.next;
        inbox = r.inbox;
        one = r.one;
      }

  pub begin-Refines :
      (k : Option ℕ) (code : Code) (addr : SocketAddr) (a : App) (v : View)
      → a.udp ≡ Udp.receiving
      → Simulates a v
      → Simulates
          (begin_request code addr k a)
          (record v { server = dispatch to_string code addr k v.server })
  unfolding begin_request dispatch
  begin-Refines none code addr a v e r = r
  begin-Refines (some zero) code addr a v e r =
      create-Refines code addr a v (subst (λ u. Refines u a v) e r)
  begin-Refines (some (suc zero)) code addr a v e r =
      join-Refines code addr a v (subst (λ u. Refines u a v) e r)
  begin-Refines (some (suc (suc n))) code addr a v e r = r

  pub send_msg-Refines :
      (m : MessageType) (u u' : Udp) (a : App) (v : View)
      → message_of to_string u ≡ m ∷ []
      → message_of to_string u' ≡ []
      → reply_of to_string u' ≡ reply_of to_string u
      → OneJoin u' (a.channel ++ m ∷ [])
      → a.udp ≡ u
      → Simulates a v
      → Simulates (send_msg m u' a) v
  unfolding send_msg enter_all ahead joined
  send_msg-Refines m u u' a v own quiet same one e r =
      elim (Bool-cases (ltb (length a.channel) capacity)) [
        | inl h ↦ rw h (room (subst (λ u. Refines u a v) e r))
        | inr h ↦ rw h r
      ]
    where
      room : Refines u a v → Refines u' (record a { channel = a.channel ++ m ∷ []; udp = u' }) v
      room r =
          let m0 = a.server.manager.session in
          let all = enter_all-append a.channel (m ∷ []) m0 in
          record {
            session =
                ap (λ l. enter_all l (enter_all (a.channel ++ m ∷ []) m0)) quiet
                ∙ all
                ∙ ap (λ l. enter_all l (after_channel a)) (sym own)
                ∙ r.session;
            sent = λ weight. omega (
              arith,
              r.sent weight,
              ap (λ l. tally weight (joined to_string l (enter_all (a.channel ++ m ∷ []) m0)))
                  quiet,
              ap (λ l. tally weight (joined to_string l (after_channel a))) own,
              ap (tally weight) (joined-append to_string a.channel (m ∷ []) m0),
              tally-append weight (joined to_string a.channel m0)
                  (joined to_string (m ∷ []) (after_channel a)),
              ap (tally weight) same,
              tally-nil weight,
            );
            buf = r.buf;
            next = r.next;
            inbox = r.inbox;
            one = one;
          }

  pub created-Refines :
      (code : Code) (addr : SocketAddr) (tx : ℕ) (a : App) (v : View)
      → Refines (Udp.created code addr tx) a v
      → Simulates (udp_step to_string (Udp.created code addr tx) a) v
  unfolding udp_step ahead joined
  created-Refines code addr tx a v r = record {
    session = r.session;
    sent = λ weight. omega (
      arith,
      r.sent weight,
      tally-append weight a.server.socket ((code, addr) ∷ []),
      tally-nil weight,
    );
    buf = r.buf;
    next = r.next;
    inbox = r.inbox;
    one = r.one;
  }

  pub answered-Refines :
      (addr : SocketAddr) (answer : Option SocketAddr) (a : App) (v : View)
      → Refines (Udp.awaiting addr (some answer)) a v
      → Simulates (udp_step to_string (Udp.awaiting addr (some answer)) a) v
  unfolding udp_step ahead joined answer_to
  answered-Refines addr none a v r = record {
    session = r.session;
    sent = r.sent;
    buf = r.buf;
    next = r.next;
    inbox = r.inbox;
    one = r.one;
  }
  answered-Refines addr (some host) a v r =
      let out = introductions to_string host addr in
      record {
        session = r.session;
        sent = λ weight. omega (
          arith,
          r.sent weight,
          tally-append (tally weight) a.tasks (out ∷ []),
          tally-cons (tally weight) out [],
          tally-nil (tally weight),
          tally-nil weight,
        );
        buf = r.buf;
        next = r.next;
        inbox = r.inbox;
        one = r.one;
      }
