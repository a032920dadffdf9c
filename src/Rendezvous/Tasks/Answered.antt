-- ===== src/Rendezvous/Tasks/Answered.antt =====
-- A run of the tasks of the rendezvous server, from its start: what it has sent when nothing is
-- left to do.
use p2p_networking.Base.{
  ℕ, suc, ◌+◌, ◌≡◌, refl, sym, ◌∙◌, ap, subst, List, [], ◌∷◌, ◌++◌, none, some, inl, inr, arith,
  Option-cases, get_elem?, All, All-append,
}
use p2p_networking.Base.Map
use p2p_networking.Base.Map.{nat_key}
use p2p_networking.Base.Net.{SocketAddr}
use p2p_networking.Base.Tally.{tally, tally-nil, tally-cons}
use p2p_networking.Rendezvous
use p2p_networking.Rendezvous.{Code, Server, overlay, dispatch, udp_handler, run}
use p2p_networking.Rendezvous.Tasks.{
  Udp, App, Step, create_msg, join_msg, boot, recv_next, udp_step, step, steps, Quiet,
}
use p2p_networking.Rendezvous.Tasks.Ahead.{enter_all, joined, NoJoins-append, EndsIn-append}
use p2p_networking.Rendezvous.Tasks.Refined.{
  View, Refines, Simulates, ahead, begin-Refines, send_msg-Refines, created-Refines,
  answered-Refines,
}
use p2p_networking.Rendezvous.Tasks.Manager.{
  ticked, manager_step-Refines, send_next-Refines, tick-Refines, shut_down-Refines,
}

-- The datagram is a keep-alive.
abbrev pub IsKeepAlive : List ℕ × SocketAddr → Type 0
IsKeepAlive d = d.0 ≡ 0 ∷ []

module _ (to_string : SocketAddr → List ℕ) where
  -- The server that handles each datagram at once, at the end of the datagrams, is `last`.
  pub record Reaches (last : Server) (a : App) : Type 0 where
    pub view : View
    pub rest : run to_string view.inbox view.server ≡ last
    pub alive : All IsKeepAlive view.kept
    pub refines : Simulates to_string a view

  read-Refines :
      (code : Code) (bytes : List ℕ) (addr : SocketAddr) (ds : List (Code × List ℕ × SocketAddr))
      (a : App) (v : View)
      → a.udp ≡ Udp.receiving
      → Simulates to_string a v
      → Simulates to_string
          (recv_next ((code, bytes, addr) ∷ ds) a)
          (record v { server = udp_handler to_string code (bytes, addr) v.server; inbox = ds })
  unfolding recv_next udp_handler ahead
  read-Refines code bytes addr ds a v e r =
      let buf : List ℕ = overlay bytes a.server.buf in
      let a' : App = record a { inbox = ds; server = record (a.server) { buf = buf } } in
      let v' : View = record v {
        inbox = ds;
        server = record (v.server) { buf = overlay bytes v.server.buf };
      } in
      let r' : Simulates to_string a' v' = record {
        session = r.session;
        sent = r.sent;
        buf = ap (overlay bytes) r.buf;
        next = r.next;
        inbox = refl;
        one = r.one;
      } in
      subst
        (λ b.
          Simulates to_string (recv_next ((code, bytes, addr) ∷ ds) a)
            (record v' { server = dispatch to_string code addr (get_elem? b 0) v'.server }))
        (ap (overlay bytes) r.buf) (begin-Refines to_string (get_elem? buf 0) code addr a' v' e r')

  module _ (last : Server) where
    same_view : (a a' : App) (r : Reaches last a) → Simulates to_string a' r.view → Reaches last a'
    same_view a a' r s = record { view = r.view; rest = r.rest; alive = r.alive; refines = s }

    recv_next-Reaches :
        (ds : List (Code × List ℕ × SocketAddr)) (a : App)
        → a.inbox ≡ ds
        → a.udp ≡ Udp.receiving
        → Reaches last a
        → Reaches last (recv_next ds a)
    unfolding run recv_next
    recv_next-Reaches [] a q e r = r
    recv_next-Reaches ((code, bytes, addr) ∷ ds) a q e r = record {
      view = record (r.view) {
        server = udp_handler to_string code (bytes, addr) r.view.server;
        inbox = ds;
      };
      rest = ap (λ l. run to_string l r.view.server) (sym q ∙ r.refines.inbox) ∙ r.rest;
      alive = r.alive;
      refines = read-Refines code bytes addr ds a r.view e r.refines;
    }

    udp_step-Reaches :
        (u : Udp) (a : App) → a.udp ≡ u → Reaches last a → Reaches last (udp_step to_string u a)
    unfolding udp_step
    udp_step-Reaches Udp.receiving a e r = recv_next-Reaches a.inbox a refl e r
    udp_step-Reaches (Udp.creating code addr tx) a e r =
        let own = subst (λ u. Refines to_string u a r.view) e r.refines in
        same_view a _ r (
          send_msg-Refines to_string (create_msg code addr tx) (Udp.creating code addr tx)
            (Udp.created code addr tx) a r.view refl refl refl
            (NoJoins-append a.channel code addr tx own.one) e r.refines)
    udp_step-Reaches (Udp.created code addr tx) a e r = same_view a _ r (
        created-Refines to_string code addr tx a r.view
          (subst (λ u. Refines to_string u a r.view) e r.refines))
    udp_step-Reaches (Udp.joining code addr) a e r =
        let own = subst (λ u. Refines to_string u a r.view) e r.refines in
        same_view a _ r (
          send_msg-Refines to_string (join_msg code addr) (Udp.joining code addr)
            (Udp.awaiting addr none) a r.view refl refl refl
            (EndsIn-append a.channel code addr own.one) e r.refines)
    udp_step-Reaches (Udp.awaiting addr none) a e r = r
    udp_step-Reaches (Udp.awaiting addr (some answer)) a e r = same_view a _ r (
        answered-Refines to_string addr answer a r.view
          (subst (λ u. Refines to_string u a r.view) e r.refines))

    ticked-alive : (tx : ℕ) (a : App) → All IsKeepAlive (ticked tx a)
    ticked-alive tx a = elim (Option-cases (Map.get tx a.server.keep_alives)) [
      | inl e ↦ rw (e, ticked) tt
      | inr (addr, e) ↦ rw (e, ticked) (refl, tt)
    ]

    pub step-Reaches : (w : Step) (a : App) → Reaches last a → Reaches last (step to_string a w)
    unfolding step
    step-Reaches Step.udp a r = udp_step-Reaches a.udp a refl r
    step-Reaches Step.manager a r =
        same_view a _ r (manager_step-Refines to_string a.channel a r.view refl r.refines)
    step-Reaches (Step.introduction k) a r =
        same_view a _ r
          (send_next-Refines to_string k (get_elem? a.tasks k) a r.view refl r.refines)
    step-Reaches (Step.ticks tx) a r = record {
      view = record (r.view) { kept = r.view.kept ++ ticked tx a };
      rest = r.rest;
      alive = All-append IsKeepAlive r.view.kept (ticked tx a) r.alive (ticked-alive tx a);
      refines = tick-Refines to_string tx a r.view r.refines;
    }
    step-Reaches (Step.shuts_down tx) a r =
        same_view a _ r (shut_down-Refines to_string tx a r.view r.refines)

    pub steps-Reaches :
        (ws : List Step) (a : App) → Reaches last a → Reaches last (steps to_string ws a)
    unfolding steps
    steps-Reaches [] a r = r
    steps-Reaches (w ∷ ws) a r = steps-Reaches ws (step to_string a w) (step-Reaches w a r)

  pub boot-Reaches :
      (ds : List (Code × List ℕ × SocketAddr))
      → Reaches (run to_string ds Rendezvous.init) (boot ds)
  unfolding enter_all ahead joined Rendezvous.init
  boot-Reaches ds = record {
    view = record { server = Rendezvous.init; kept = []; inbox = ds };
    rest = refl;
    alive = tt;
    refines = record {
      session = refl;
      sent = λ weight. omega (arith, tally-nil weight, tally-nil (tally weight));
      buf = refl;
      next = refl;
      inbox = refl;
      one = tt;
    };
  }

  all_sent-tally :
      (tasks : List (List (List ℕ × SocketAddr))) (weight : List ℕ × SocketAddr → ℕ)
      → ((k : ℕ) (ds : List (List ℕ × SocketAddr)) → get_elem? tasks k ≡ some ds → ds ≡ [])
      → tally (tally weight) tasks ≡ 0
  all_sent-tally [] weight h = tally-nil (tally weight)
  all_sent-tally (ds ∷ tasks) weight h =
      let none_left = all_sent-tally tasks weight (λ k. h (suc k)) in
      omega (
        arith,
        tally-cons (tally weight) ds tasks,
        ap (tally weight) (h 0 ds refl),
        tally-nil weight,
        none_left,
      )

-- The tasks of the server start with datagrams to come, and take their steps in any order. Once
-- nothing is left to do, the sessions are those of the server that handles each datagram at once,
-- in their order. And what was sent is what that server sends, besides keep-alives of one byte 0:
-- whatever is counted in the datagrams, the two counts agree.
pub tasks_refine_server :
    (to_string : SocketAddr → List ℕ) (ds : List (Code × List ℕ × SocketAddr)) (ws : List Step)
    → Quiet (steps to_string ws (boot ds))
    → let a = steps to_string ws (boot ds) in
      let s = run to_string ds Rendezvous.init in
      (a.server.manager.session ≡ s.manager.session)
      × ((kept : List (List ℕ × SocketAddr)) × All IsKeepAlive kept
          × ((weight : List ℕ × SocketAddr → ℕ)
              → tally weight a.server.socket ≡ tally weight s.socket + tally weight kept))
unfolding ahead enter_all joined run
tasks_refine_server to_string ds ws q =
    let a = steps to_string ws (boot ds) in
    let r = steps-Reaches to_string _ ws (boot ds) (boot-Reaches to_string ds) in
    let v : View = r.view in
    let own = subst (λ u. Refines to_string u a v) q.at_rest r.refines in
    let last : v.server ≡ run to_string ds Rendezvous.init =
      ap (λ l. run to_string l v.server) (sym q.no_inbox ∙ r.refines.inbox) ∙ r.rest in
    (
      ap (λ l. enter_all l a.server.manager.session) (sym q.no_message)
          ∙ own.session
          ∙ ap (λ (s : Server). s.manager.session) last,
      (
        v.kept,
        r.alive,
        λ weight. omega (
          arith,
          own.sent weight,
          all_sent-tally to_string a.tasks weight q.all_sent,
          ap (λ l. tally weight (joined to_string l a.server.manager.session)) q.no_message,
          tally-nil weight,
          ap (λ (s : Server). tally weight s.socket) last,
        ),
      ),
    )
