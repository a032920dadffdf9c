-- ===== src/Rendezvous/Tasks/Tests.antt =====
-- A host and a client at the tasks of the rendezvous server.
use p2p_networking.Base.{
  ℕ, zero, suc, ◌+◌, ◌≤◌, ◌≡◌, refl, List, [], ◌∷◌, some, length, get_elem?, filled, dec_lt, All,
}
use p2p_networking.Base.Map
use p2p_networking.Base.Net.{SocketAddr}
use p2p_networking.Base.Tally.{tally}
use p2p_networking.Rendezvous
use p2p_networking.Rendezvous.{
  Code, Code-discrete, create_lobby, join_lobby, join_session, overlay, tick, shut_down, run,
}
use p2p_networking.Rendezvous.Tasks.{
  Step, boot, send_msg, begin_request, recv_next, respond, handle, manager_step, send_next,
  udp_step, step, steps, Quiet,
}
use p2p_networking.Rendezvous.Tasks.Answered.{IsKeepAlive, tasks_refine_server}
use p2p_networking.Rendezvous.Tasks.Work.{work}
use p2p_networking.Rendezvous.Tasks.Progress.{tasks_finish}

program : Unit {0}
unfolding send_msg begin_request recv_next respond handle manager_step send_next udp_step step steps
    create_lobby join_lobby join_session overlay tick shut_down Rendezvous.init Map.get Map.insert
    Map.remove Code-discrete filled dec_lt
program = tt

-- Stands for `to_string`: the port alone.
abbrev shown : SocketAddr → List ℕ
shown (SocketAddr.v4 ip port) = port ∷ []
shown (SocketAddr.v6 ip port flowinfo scope_id) = port ∷ []

abbrev host : SocketAddr
host = SocketAddr.v4 167772161 4000

abbrev client : SocketAddr
client = SocketAddr.v4 167772162 5000

abbrev lobby : Code
lobby = 1 ∷ 2 ∷ 3 ∷ 4 ∷ 5 ∷ 6 ∷ 7 ∷ 8 ∷ 9 ∷ 10 ∷ 11 ∷ 12 ∷ 13 ∷ 14 ∷ 15 ∷ 16 ∷ []

abbrev requests : List (Code × List ℕ × SocketAddr)
requests = (lobby, 0 ∷ [], host) ∷ ([], 1 ∷ lobby, client) ∷ ([], 2 ∷ [], host) ∷ []

-- The host has its code before the manager knows of the lobby, and the introduction goes on while
-- the next datagram is read.
abbrev schedule : List Step
schedule =
    Step.udp
    ∷ Step.udp
    ∷ Step.udp
    ∷ Step.ticks 0
    ∷ Step.udp
    ∷ Step.udp
    ∷ Step.udp
    ∷ Step.manager
    ∷ Step.manager
    ∷ Step.udp
    ∷ Step.introduction 0
    ∷ Step.introduction 0
    ∷ Step.udp
    ∷ Step.introduction 0
    ∷ Step.introduction 0
    ∷ Step.introduction 0
    ∷ Step.shuts_down 0
    ∷ Step.introduction 0
    ∷ Step.introduction 0
    ∷ []

none_left : (k : ℕ) (ds : List (List ℕ × SocketAddr)) → get_elem? ([] ∷ []) k ≡ some ds → ds ≡ []
none_left zero ds e = cc
none_left (suc k) ds e = cc

schedule-Quiet : Quiet (steps shown schedule (boot requests))
unfolding program
schedule-Quiet = record { no_inbox = refl; no_message = refl; at_rest = refl; all_sent = none_left }

tasks_refine_server_example :
    let a = steps shown schedule (boot requests) in
    let s = run shown requests Rendezvous.init in
    (a.server.manager.session ≡ s.manager.session)
    × ((kept : List (List ℕ × SocketAddr)) × All IsKeepAlive kept
        × ((weight : List ℕ × SocketAddr → ℕ)
            → tally weight a.server.socket ≡ tally weight s.socket + tally weight kept))
tasks_refine_server_example = tasks_refine_server shown requests schedule schedule-Quiet

tasks_finish_example :
    let a = steps shown (Step.udp ∷ Step.udp ∷ []) (boot requests) in
    ((w : Step) → work (step shown a w) ≤ work a)
    × ((ws' : List Step) × (length ws' ≤ work a) × Quiet (steps shown ws' a))
tasks_finish_example = tasks_finish shown requests (Step.udp ∷ Step.udp ∷ [])
