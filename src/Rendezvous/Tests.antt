-- ===== src/Rendezvous/Tests.antt =====
-- The theorems about the rendezvous server for one lobby and two addresses.
use p2p_networking.Base.{ℕ, ◌≡◌, refl, List, [], ◌∷◌, ◌++◌, none, some, arith, ℕ_discrete, filled}
use p2p_networking.Base.Map
use p2p_networking.Base.Map.{nat_key}
use p2p_networking.Base.Net.{SocketAddr}
use p2p_networking.Rendezvous.{
  Code, Code-discrete, code_key, Session, init, run, udp_handler, dispatch, overlay, on_create,
  create_lobby, tick, shut_down,
}
use p2p_networking.Rendezvous.KeepAlive.{Event, run_events, step}
use p2p_networking.Rendezvous.KeepAlive.Always.{unjoined_kept_alive}
use p2p_networking.Rendezvous.Buffer.{init_buf, udp_handler-stale}
use p2p_networking.Rendezvous.Requests.{answers}
use p2p_networking.Rendezvous.Lobbies.{server_answers}

-- Stands for `to_string`: the port alone.
abbrev shown : SocketAddr → List ℕ
shown (SocketAddr.v4 ip port) = port ∷ []
shown (SocketAddr.v6 ip port flowinfo scope_id) = port ∷ []

abbrev host : SocketAddr
host = SocketAddr.v4 167772161 4000

abbrev client : SocketAddr
client = SocketAddr.v4 167772162 5000

abbrev lobby : Code
lobby = 1 ∷ 2 ∷ 3 ∷ 4 ∷ 5 ∷ 6 ∷ 7 ∷ 8 ∷ 9 ∷ 10 ∷ 11 ∷ 12 ∷ 13 ∷ 14 ∷ 15 ∷ 16 ∷ []

abbrev requests : List (Code × List ℕ × SocketAddr)
requests = (lobby, 0 ∷ [], host) ∷ ([], 1 ∷ lobby, client) ∷ ([], 2 ∷ [], host) ∷ []

answers-requests :
    answers shown [] requests
    ≡ (lobby, host)
      ∷ (0 ∷ [], client)
      ∷ (0 ∷ [], client)
      ∷ (0 ∷ [], client)
      ∷ (0 ∷ [], client)
      ∷ (0 ∷ [], client)
      ∷ (4000 ∷ [], client)
      ∷ (5000 ∷ [], host)
      ∷ []
unfolding answers Map.get Code-discrete ℕ_discrete
answers-requests = refl

server_answers_example : (run shown requests init).socket ≡ answers shown [] requests
server_answers_example =
    server_answers shown requests (omega arith, ((omega arith, omega arith), (omega arith, tt)))

udp_handler-stale_example :
    udp_handler shown [] (1 ∷ [], host) (udp_handler shown [] (1 ∷ lobby, client) init)
    ≡ udp_handler shown [] (1 ∷ lobby, host) (udp_handler shown [] (1 ∷ lobby, client) init)
udp_handler-stale_example =
    udp_handler-stale shown (1 ∷ []) lobby client host [] [] init (omega (arith, init_buf))

abbrev events : List Event
events =
    Event.datagram lobby (0 ∷ []) host
    ∷ Event.ticks 0
    ∷ Event.datagram [] (2 ∷ []) client
    ∷ Event.shuts_down 0
    ∷ []

abbrev opened_session : Session
opened_session = record { host_addr = host; shutdown_channel = some 0; client_addr = none }

unjoined_kept_alive_example :
    let s = run_events shown events init in
    (tx : ℕ) × (opened_session.shutdown_channel ≡ some tx)
    × (Map.get tx s.closing ≡ none)
    × ((tick tx s).socket ≡ s.socket ++ (0 ∷ [], host) ∷ [])
unfolding run_events step tick shut_down udp_handler dispatch overlay on_create create_lobby init
    filled Map.get Map.insert Map.remove Code-discrete ℕ_discrete
unjoined_kept_alive_example = unjoined_kept_alive shown events lobby opened_session refl refl
