-- ===== src/Rendezvous/Tasks/Manager.antt =====
-- The steps of the rendezvous server's manager and of the tasks that only send refine the server
-- that handles each datagram at once.
use p2p_networking.Base.{
  ℕ, ◌≡◌, sym, ◌∙◌, ap, ap₂, subst, List, [], ◌∷◌, ◌++◌, Option, none, some, inl, inr, arith,
  Option-cases, get_elem?,
}
use p2p_networking.Base.Map
use p2p_networking.Base.Map.{nat_key}
use p2p_networking.Base.Net.{SocketAddr}
use p2p_networking.Base.Tally.{tally, tally-nil, tally-cons, tally-append, tally-set}
use p2p_networking.Rendezvous.{Code, create_lobby, join_lobby, tick, shut_down}
use p2p_networking.Rendezvous.Tasks.{
  MessageType, Udp, App, create_msg, join_msg, respond, handle, manager_step, send_next,
}
use p2p_networking.Rendezvous.Tasks.Ahead.{
  enters, enter_all, host_of, join_lobby-Joins, answer_to, joined, NoJoins, OneJoin,
}
use p2p_networking.Rendezvous.Tasks.Refined.{View, Refines, Simulates, ahead}

OneJoin-create :
    (u : Udp) (code : Code) (addr : SocketAddr) (tx : ℕ) (ms : List MessageType)
    → OneJoin u (create_msg code addr tx ∷ ms)
    → OneJoin u ms
OneJoin-create Udp.receiving code addr tx ms h = h
OneJoin-create (Udp.creating c a n) code addr tx ms h = h
OneJoin-create (Udp.created c a n) code addr tx ms h = h
OneJoin-create (Udp.joining c a) code addr tx ms h = h
OneJoin-create (Udp.awaiting a none) code addr tx ms h = h
OneJoin-create (Udp.awaiting a (some answer)) code addr tx ms h = h

-- The keep-alive of a tick, if any.
abbrev pub ticked : ℕ → App → List (List ℕ × SocketAddr)
ticked tx a = elim (Map.get tx a.server.keep_alives) [ none ↦ [] | some addr ↦ (0 ∷ [], addr) ∷ [] ]

module _ (to_string : SocketAddr → List ℕ) where
  created-handle :
      (code : Code) (addr : SocketAddr) (tx : ℕ) (ms : List MessageType) (a : App) (v : View)
      → Simulates to_string (record a { channel = create_msg code addr tx ∷ ms }) v
      → Simulates to_string (handle (create_msg code addr tx) (record a { channel = ms })) v
  unfolding handle create_lobby enter_all enters ahead joined
  created-handle code addr tx ms a v r = record {
    session = r.session;
    sent = r.sent;
    buf = r.buf;
    next = r.next;
    inbox = r.inbox;
    one = OneJoin-create a.udp code addr tx ms r.one;
  }

  joined-respond :
      (code : Code) (addr : SocketAddr) (ms : List MessageType) (u w : Udp) (a : App) (v : View)
      → Refines to_string u (record a { channel = join_msg code addr ∷ ms }) v
      → Refines to_string
          (respond (join_lobby code addr a.server).0 u)
          (record a { channel = ms; udp = w; server = (join_lobby code addr a.server).1 })
          v
  unfolding respond enter_all ahead joined
  joined-respond code addr ms Udp.receiving w a v r = absurd r.one
  joined-respond code addr ms (Udp.creating c d n) w a v r = absurd r.one
  joined-respond code addr ms (Udp.created c d n) w a v r = absurd r.one
  joined-respond code addr ms (Udp.joining c d) w a v r = absurd r.one
  joined-respond code addr ms (Udp.awaiting d (some answer)) w a v r = absurd r.one
  joined-respond code addr ms (Udp.awaiting d none) w a v r =
      let m = a.server.manager.session in
      let j = join_lobby-Joins code addr a.server in
      let answer = answer_to to_string addr (host_of code m) in
      let later = joined to_string ms (enters (join_msg code addr) m) in
      let same : answer_to to_string d (join_lobby code addr a.server).0 ≡ answer =
        ap₂ (answer_to to_string) (sym r.one.0) j.answer in
      record {
        session = ap (enter_all ms) j.session ∙ r.session;
        sent = λ weight. omega (
          arith,
          r.sent weight,
          tally-append weight answer later,
          ap (tally weight) same,
          ap (λ l. tally weight (joined to_string ms l)) j.session,
          ap (tally weight) j.socket,
          tally-nil weight,
        );
        buf = j.buf ∙ r.buf;
        next = j.next ∙ r.next;
        inbox = r.inbox;
        one = subst NoJoins (sym r.one.1) tt;
      }

  pub manager_step-Refines :
      (ms : List MessageType) (a : App) (v : View)
      → a.channel ≡ ms
      → Simulates to_string a v
      → Simulates to_string (manager_step ms a) v
  unfolding manager_step handle
  manager_step-Refines [] a v e r = r
  manager_step-Refines (create_msg code addr tx ∷ ms) a v e r =
      created-handle code addr tx ms a v
        (subst (λ ch. Simulates to_string (record a { channel = ch }) v) e r)
  manager_step-Refines (join_msg code addr ∷ ms) a v e r =
      joined-respond code addr ms a.udp _ a v
        (subst (λ ch. Simulates to_string (record a { channel = ch }) v) e r)

  pub send_next-Refines :
      (k : ℕ) (o : Option (List (List ℕ × SocketAddr))) (a : App) (v : View)
      → get_elem? a.tasks k ≡ o
      → Simulates to_string a v
      → Simulates to_string (send_next k o a) v
  unfolding send_next ahead
  send_next-Refines k none a v e r = r
  send_next-Refines k (some []) a v e r = r
  send_next-Refines k (some ((bytes, addr) ∷ rest)) a v e r = record {
    session = r.session;
    sent = λ weight. omega (
      arith,
      r.sent weight,
      tally-set (tally weight) a.tasks k ((bytes, addr) ∷ rest) rest e,
      tally-cons weight (bytes, addr) rest,
      tally-append weight a.server.socket ((bytes, addr) ∷ []),
      tally-cons weight (bytes, addr) [],
      tally-nil weight,
    );
    buf = r.buf;
    next = r.next;
    inbox = r.inbox;
    one = r.one;
  }

  pub tick-Refines :
      (tx : ℕ) (a : App) (v : View)
      → Simulates to_string a v
      → Simulates to_string
          (record a { server = tick tx a.server })
          (record v { kept = v.kept ++ ticked tx a })
  unfolding tick ahead
  tick-Refines tx a v r = elim (Option-cases (Map.get tx a.server.keep_alives)) [
    | inl e ↦
        rw (e, tick, ticked)
          (record {
            session = r.session;
            sent = λ weight.
                omega (arith, r.sent weight, tally-append weight v.kept [], tally-nil weight);
            buf = r.buf;
            next = r.next;
            inbox = r.inbox;
            one = r.one;
          })
    | inr (addr, e) ↦
        rw (e, tick, ticked)
          (record {
            session = r.session;
            sent = λ weight. omega (
              arith,
              r.sent weight,
              tally-append weight v.kept ((0 ∷ [], addr) ∷ []),
              tally-append weight a.server.socket ((0 ∷ [], addr) ∷ []),
            );
            buf = r.buf;
            next = r.next;
            inbox = r.inbox;
            one = r.one;
          })
  ]

  pub shut_down-Refines :
      (tx : ℕ) (a : App) (v : View)
      → Simulates to_string a v
      → Simulates to_string (record a { server = shut_down tx a.server }) v
  unfolding shut_down ahead
  shut_down-Refines tx a v r = elim (Option-cases (Map.get tx a.server.closing)) [
    | inl e ↦ rw (e, shut_down) r
    | inr (x, e) ↦
        rw (e, shut_down)
          (record {
            session = r.session;
            sent = r.sent;
            buf = r.buf;
            next = r.next;
            inbox = r.inbox;
            one = r.one;
          })
  ]
