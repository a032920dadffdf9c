-- ===== src/Rendezvous/Tasks/Progress.antt =====
-- The tasks of the rendezvous server never wait for each other for ever.
use p2p_networking.Base.{
  ℕ, zero, suc, ◌+◌, ◌≤◌, ◌<◌, ◌≡◌, ◌⊎◌, refl, sym, ap, subst, List, [], ◌∷◌, Option, none, some,
  inl, inr, arith, get_elem?, length, dec_lt,
}
use p2p_networking.Base.Map.{nat_key}
use p2p_networking.Base.Net.{SocketAddr}
use p2p_networking.Base.Tally.{tally-nil, tally-cons, tally-append}
use p2p_networking.Rendezvous
use p2p_networking.Rendezvous.{Code, Server, overlay, join_lobby, run, introductions}
use p2p_networking.Rendezvous.Tasks.{
  MessageType, Udp, App, Step, create_msg, join_msg, capacity, boot, send_msg, recv_next,
  manager_step, send_next, udp_step, step, steps, Quiet,
}
use p2p_networking.Rendezvous.Tasks.Ahead.{OneJoin}
use p2p_networking.Rendezvous.Tasks.Answered.{Reaches, step-Reaches, steps-Reaches, boot-Reaches}
use p2p_networking.Rendezvous.Tasks.Work.{
  effort, work, recv_next-work, send_msg-work, manager_step-work, send_next-work,
}

behind :
    (tasks : List (List (List ℕ × SocketAddr)))
    → ((k : ℕ) (ds : List (List ℕ × SocketAddr)) → get_elem? tasks k ≡ some ds → ds ≡ [])
    → (k : ℕ) (ds : List (List ℕ × SocketAddr)) → get_elem? ([] ∷ tasks) k ≡ some ds
    → ds ≡ []
behind tasks h zero ds e = cc
behind tasks h (suc k) ds e = h k ds e

-- A task has something to send, or none has.
unsent :
    (tasks : List (List (List ℕ × SocketAddr)))
    → ((k : ℕ) × (d : List ℕ × SocketAddr) × (ds : List (List ℕ × SocketAddr)) × (get_elem? tasks k
          ≡ some (d ∷ ds)))
      ⊎ ((k : ℕ) (ds : List (List ℕ × SocketAddr)) → get_elem? tasks k ≡ some ds → ds ≡ [])
unsent [] = inr (λ k ds e. cc)
unsent ((d ∷ ds) ∷ tasks) = inl (0, d, ds, refl)
unsent ([] ∷ tasks) = elim (unsent tasks) [
  | inl (k, d, ds, e) ↦ inl (suc k, d, ds, e)
  | inr h ↦ inr (behind tasks h)
]

module _ (to_string : SocketAddr → List ℕ) where
  -- A step that leaves less to do.
  abbrev pub Advances : App → Type 0
  Advances a = (w : Step) × (work (step to_string a w) < work a)

  udp-Advances :
      (u : Udp) (a : App) → a.udp ≡ u → work (udp_step to_string u a) < work a → Advances a
  unfolding step
  udp-Advances u a e h = (Step.udp, subst (λ x. work (udp_step to_string x a) < work a) (sym e) h)

  manager-Advances :
      (m : MessageType) (ms : List MessageType) (a : App) → a.channel ≡ m ∷ ms → Advances a
  unfolding step
  manager-Advances m ms a e = (
    Step.manager,
    subst (λ l. work (manager_step l a) < work a) (sym e) (manager_step-work m ms a e),
  )

  full-Advances :
      (ms : List MessageType) (a : App) → a.channel ≡ ms → capacity ≤ length a.channel → Advances a
  full-Advances [] a e h = absurd (omega (arith, ap length e))
  full-Advances (m ∷ ms) a e h = manager-Advances m ms a e

  sends-Advances :
      (m : MessageType) (u u' : Udp) (a : App)
      → a.udp ≡ u
      → effort u' + 1 < effort u
      → work (udp_step to_string u a) ≡ work (send_msg m u' a)
      → Advances a
  sends-Advances m u u' a e h same = elim (dec_lt (length a.channel) capacity) [
    | yes room ↦ udp-Advances u a e (rw same (send_msg-work m u' a room (rw e h)))
    | no full ↦ full-Advances a.channel a refl (omega (arith, full))
  ]

  waits-Advances :
      (addr : SocketAddr) (ms : List MessageType) (a : App)
      → a.channel ≡ ms
      → OneJoin (Udp.awaiting addr none) ms
      → Advances a
  waits-Advances addr [] a e h = absurd h
  waits-Advances addr (m ∷ ms) a e h = manager-Advances m ms a e

  rest-Advances :
      (ds : List (Code × List ℕ × SocketAddr)) (ms : List MessageType) (a : App)
      → a.udp ≡ Udp.receiving
      → a.inbox ≡ ds
      → a.channel ≡ ms
      → Quiet a ⊎ Advances a
  unfolding udp_step step
  rest-Advances (d ∷ ds) ms a e q c = inr (
      udp-Advances Udp.receiving a e
        (subst (λ l. work (recv_next l a) < work a) (sym q) (recv_next-work d ds a q e)))
  rest-Advances [] (m ∷ ms) a e q c = inr (manager-Advances m ms a c)
  rest-Advances [] [] a e q c = elim (unsent a.tasks) [
    | inl (k, d, ds, h) ↦ inr (
      Step.introduction k,
      subst (λ o. work (send_next k o a) < work a) (sym h) (send_next-work k d ds a h),
    )
    | inr h ↦ inl (record { no_inbox = q; no_message = c; at_rest = e; all_sent = h })
  ]

  created-work :
      (code : Code) (addr : SocketAddr) (tx : ℕ) (a : App)
      → a.udp ≡ Udp.created code addr tx
      → work (udp_step to_string (Udp.created code addr tx) a) < work a
  unfolding udp_step effort work
  created-work code addr tx a e = omega (arith, ap effort e)

  answered-work :
      (addr : SocketAddr) (answer : Option SocketAddr) (a : App)
      → a.udp ≡ Udp.awaiting addr (some answer)
      → work (udp_step to_string (Udp.awaiting addr (some answer)) a) < work a
  unfolding udp_step effort work
  answered-work addr none a e = omega (arith, ap effort e)
  answered-work addr (some host) a e =
      let out = introductions to_string host addr in
      let size = length {A = List ℕ × SocketAddr} in
      omega (
        arith,
        ap effort e,
        tally-append size a.tasks (out ∷ []),
        tally-cons size out [],
        tally-nil size,
      )

  advances : (u : Udp) (a : App) → a.udp ≡ u → OneJoin u a.channel → Quiet a ⊎ Advances a
  unfolding udp_step effort
  advances Udp.receiving a e h = rest-Advances a.inbox a.channel a e refl refl
  advances (Udp.creating code addr tx) a e h =
      inr (
        sends-Advances (create_msg code addr tx) _ (Udp.created code addr tx) a e (omega arith)
          refl)
  advances (Udp.created code addr tx) a e h =
      inr (udp-Advances _ a e (created-work code addr tx a e))
  advances (Udp.joining code addr) a e h =
      inr (sends-Advances (join_msg code addr) _ (Udp.awaiting addr none) a e (omega arith) refl)
  advances (Udp.awaiting addr none) a e h = inr (waits-Advances addr a.channel a refl h)
  advances (Udp.awaiting addr (some answer)) a e h =
      inr (udp-Advances _ a e (answered-work addr answer a e))

  recv_next-le :
      (ds : List (Code × List ℕ × SocketAddr)) (a : App)
      → a.inbox ≡ ds
      → a.udp ≡ Udp.receiving
      → work (recv_next ds a) ≤ work a
  unfolding recv_next
  recv_next-le [] a q e = omega arith
  recv_next-le (d ∷ ds) a q e = omega (arith, recv_next-work d ds a q e)

  send_msg-le :
      (m : MessageType) (u : Udp) (a : App)
      → effort u + 1 < effort a.udp
      → work (send_msg m u a) ≤ work a
  unfolding send_msg
  send_msg-le m u a h = elim (dec_lt (length a.channel) capacity) [
    | yes room ↦ omega (arith, send_msg-work m u a room h)
    | no full ↦ ground (arith, full)
  ]

  udp_step-le : (u : Udp) (a : App) → a.udp ≡ u → work (udp_step to_string u a) ≤ work a
  unfolding udp_step effort
  udp_step-le Udp.receiving a e = recv_next-le a.inbox a refl e
  udp_step-le (Udp.creating code addr tx) a e =
      send_msg-le (create_msg code addr tx) _ a (omega (arith, ap effort e))
  udp_step-le (Udp.created code addr tx) a e = omega (arith, created-work code addr tx a e)
  udp_step-le (Udp.joining code addr) a e =
      send_msg-le (join_msg code addr) _ a (omega (arith, ap effort e))
  udp_step-le (Udp.awaiting addr none) a e = omega arith
  udp_step-le (Udp.awaiting addr (some answer)) a e = omega (arith, answered-work addr answer a e)

  manager_step-le :
      (ms : List MessageType) (a : App) → a.channel ≡ ms → work (manager_step ms a) ≤ work a
  unfolding manager_step
  manager_step-le [] a e = omega arith
  manager_step-le (m ∷ ms) a e = omega (arith, manager_step-work m ms a e)

  send_next-le :
      (k : ℕ) (o : Option (List (List ℕ × SocketAddr))) (a : App)
      → get_elem? a.tasks k ≡ o
      → work (send_next k o a) ≤ work a
  unfolding send_next
  send_next-le k none a e = omega arith
  send_next-le k (some []) a e = omega arith
  send_next-le k (some (d ∷ ds)) a e = omega (arith, send_next-work k d ds a e)

  step-le : (w : Step) (a : App) → work (step to_string a w) ≤ work a
  unfolding step work
  step-le Step.udp a = udp_step-le a.udp a refl
  step-le Step.manager a = manager_step-le a.channel a refl
  step-le (Step.introduction k) a = send_next-le k (get_elem? a.tasks k) a refl
  step-le (Step.ticks tx) a = omega arith
  step-le (Step.shuts_down tx) a = omega arith

  -- With enough steps in hand, something is done until nothing is left.
  finish :
      (last : Server) (n : ℕ) (a : App)
      → Reaches to_string last a
      → work a ≤ n
      → (ws : List Step) × (length ws ≤ work a) × Quiet (steps to_string ws a)
  unfolding steps
  finish last zero a r h = elim (advances a.udp a refl r.refines.one) [
    | inl q ↦ ([], omega arith, q)
    | inr (w, l) ↦ absurd (omega (arith, l))
  ]
  finish last (suc n) a r h = elim (advances a.udp a refl r.refines.one) [
    | inl q ↦ ([], omega arith, q)
    | inr (w, l) ↦
        let (ws, short, q) =
          finish last n (step to_string a w) (step-Reaches to_string last w a r)
            (omega (arith, l)) in
        (w ∷ ws, omega (arith, l, short), q)
  ]

-- The tasks of the server start with datagrams to come, and take any steps in any order. Then no
-- step makes what is left to do more, and some further steps, no more than what is left to do, bring
-- the tasks to where nothing is left: neither does the channel block them nor an answer fail to come.
pub tasks_finish :
    (to_string : SocketAddr → List ℕ) (ds : List (Code × List ℕ × SocketAddr)) (ws : List Step)
    → let a = steps to_string ws (boot ds) in
      ((w : Step) → work (step to_string a w) ≤ work a)
      × ((ws' : List Step) × (length ws' ≤ work a) × Quiet (steps to_string ws' a))
tasks_finish to_string ds ws =
    let a = steps to_string ws (boot ds) in
    let last = run to_string ds Rendezvous.init in
    (
      λ w. step-le to_string w a,
      finish to_string last (work a) a
          (steps-Reaches to_string last ws (boot ds) (boot-Reaches to_string ds)) (omega arith),
    )
