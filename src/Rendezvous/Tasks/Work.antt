-- ===== src/Rendezvous/Tasks/Work.antt =====
-- What is left to do for the tasks of the rendezvous server, and that steps make it less.
use p2p_networking.Base.{
  ℕ, zero, suc, ◌+◌, ◌*◌, ◌≤◌, ◌<◌, ◌≡◌, ap, List, [], ◌∷◌, Option, none, some, arith, get_elem?,
  length, length-append,
}
use p2p_networking.Base.Map.{nat_key}
use p2p_networking.Base.Net.{SocketAddr}
use p2p_networking.Base.Tally.{tally, tally-set}
use p2p_networking.Rendezvous.{Code, overlay, join_lobby}
use p2p_networking.Rendezvous.Tasks.{
  MessageType, Udp, App, create_msg, join_msg, capacity, send_msg, begin_request, recv_next,
  respond, handle, manager_step, send_next,
}

-- How much `udp_handler` has still to do for a datagram, and the tasks that it starts.
unfoldable pub effort : Udp → ℕ
effort Udp.receiving = 0
effort (Udp.creating code addr tx) = 3
effort (Udp.created code addr tx) = 1
effort (Udp.joining code addr) = 11
effort (Udp.awaiting addr none) = 9
effort (Udp.awaiting addr (some answer)) = 8

-- A bound on the steps up to where nothing is left to do.
unfoldable pub work : App → ℕ
work a = 12 * length a.inbox + length a.channel + tally length a.tasks + effort a.udp

begin_request-work :
    (code : Code) (addr : SocketAddr) (k : Option ℕ) (a : App)
    → a.udp ≡ Udp.receiving
    → work (begin_request code addr k a) < work a + 12
unfolding begin_request work effort
begin_request-work code addr none a e = omega arith
begin_request-work code addr (some zero) a e = omega arith
begin_request-work code addr (some (suc zero)) a e = omega arith
begin_request-work code addr (some (suc (suc n))) a e = omega arith

pub recv_next-work :
    (d : Code × List ℕ × SocketAddr) (ds : List (Code × List ℕ × SocketAddr)) (a : App)
    → a.inbox ≡ d ∷ ds
    → a.udp ≡ Udp.receiving
    → work (recv_next (d ∷ ds) a) < work a
unfolding recv_next work
recv_next-work (code, bytes, addr) ds a q e =
    let taken =
      begin_request-work code addr (get_elem? (overlay bytes a.server.buf) 0)
        (record a { inbox = ds; server = record (a.server) { buf = overlay bytes a.server.buf } })
        e in
    omega (arith, taken, ap length q)

pub send_msg-work :
    (m : MessageType) (u : Udp) (a : App)
    → length a.channel < capacity
    → effort u + 1 < effort a.udp
    → work (send_msg m u a) < work a
unfolding send_msg work
send_msg-work m u a h e = ground (arith, length-append a.channel (m ∷ []))

pub respond-effort : (answer : Option SocketAddr) (u : Udp) → effort (respond answer u) ≤ effort u
unfolding respond effort
respond-effort answer Udp.receiving = omega arith
respond-effort answer (Udp.creating c a n) = omega arith
respond-effort answer (Udp.created c a n) = omega arith
respond-effort answer (Udp.joining c a) = omega arith
respond-effort answer (Udp.awaiting a none) = omega arith
respond-effort answer (Udp.awaiting a (some x)) = omega arith

pub manager_step-work :
    (m : MessageType) (ms : List MessageType) (a : App)
    → a.channel ≡ m ∷ ms
    → work (manager_step (m ∷ ms) a) < work a
unfolding manager_step handle work
manager_step-work (create_msg code addr tx) ms a e = omega (arith, ap length e)
manager_step-work (join_msg code addr) ms a e =
    omega (arith, ap length e, respond-effort (join_lobby code addr a.server).0 a.udp)

pub send_next-work :
    (k : ℕ) (d : List ℕ × SocketAddr) (ds : List (List ℕ × SocketAddr)) (a : App)
    → get_elem? a.tasks k ≡ some (d ∷ ds)
    → work (send_next k (some (d ∷ ds)) a) < work a
unfolding send_next work
send_next-work k (bytes, addr) ds a e =
    omega (arith, tally-set length a.tasks k ((bytes, addr) ∷ ds) ds e)
