-- ===== src/Reliable/Sender/Retransmit.antt =====
-- What `check_retransmission` sends and keeps, and that nothing ever leaves `unacked`.
use mathlib.Core.Option
use p2p_networking.Base.{
  ℕ, ◌≡◌, refl, sym, ◌∙◌, ap, List, [], ◌∷◌, ◌++◌, map, if◌then◌else◌, arith, append_assoc,
  append-nil,
}
use p2p_networking.Base.Map
use p2p_networking.Base.Map.{Map, nat_key}
use p2p_networking.Base.Net.{SocketAddr}
use p2p_networking.Reliable.{Packet, SentPacket, ReliableUdp, send_to}
use p2p_networking.Reliable.Wire.{serialize}
use p2p_networking.Reliable.Sender.{is_due, collect_due, retransmit, check_retransmission}

-- An entry after the scan at the time `now`.
abbrev pub refreshed : ℕ → SentPacket → SentPacket
refreshed now e = if is_due now e then record e { time_sent = now } else e

-- The datagrams of a list of packets.
abbrev pub datagrams : SocketAddr → List Packet → List (List ℕ × SocketAddr)
datagrams addr = map λ p. (serialize p, addr)

-- The packets of the entries that are due.
unfoldable pub due : ℕ → Map ℕ SentPacket → List Packet
due now [] = []
due now ((k, e) ∷ m) = if is_due now e then e.packet ∷ due now m else due now m

collect_due-due : (now : ℕ) (m : Map ℕ SentPacket) → (collect_due now m).0 ≡ due now m
unfolding collect_due due
collect_due-due now [] = refl
collect_due-due now ((k, e) ∷ m) = ground (arith, collect_due-due now m)

pub get-collect_due :
    (now k : ℕ) (m : Map ℕ SentPacket)
    → Map.get k (collect_due now m).1 ≡ Option.map (refreshed now) (Map.get k m)
unfolding collect_due Map.get
get-collect_due now k [] = refl
get-collect_due now k ((j, e) ∷ m) = ground (arith, get-collect_due now k m)

pub due-collect_due : (now : ℕ) (m : Map ℕ SentPacket) → due now (collect_due now m).1 ≡ []
unfolding collect_due due
due-collect_due now [] = refl
due-collect_due now ((k, e) ∷ m) = ground (arith, due-collect_due now m)

retransmit_lem :
    (addr : SocketAddr) (ps : List Packet) (r : ReliableUdp)
    → retransmit addr ps r ≡ record r { socket = r.socket ++ datagrams addr ps }
unfolding retransmit
retransmit_lem addr [] r = ap (λ s. record r { socket = s }) (sym (append-nil r.socket))
retransmit_lem addr (p ∷ ps) r =
    retransmit_lem addr ps (send_to (serialize p) addr r)
    ∙ ap (λ s. record r { socket = s })
        (append_assoc r.socket ((serialize p, addr) ∷ []) (datagrams addr ps))

pub check_retransmission_lem :
    (addr : SocketAddr) (now : ℕ) (r : ReliableUdp)
    → check_retransmission addr now r ≡ record r {
      state = record (r.state) { unacked = (collect_due now r.state.unacked).1 };
      socket = r.socket ++ datagrams addr (due now r.state.unacked);
    }
unfolding check_retransmission
check_retransmission_lem addr now r =
    retransmit_lem addr (collect_due now r.state.unacked).0
      (record r { state = record (r.state) { unacked = (collect_due now r.state.unacked).1 } })
    ∙ ap
        (λ ps. record r {
          state = record (r.state) { unacked = (collect_due now r.state.unacked).1 };
          socket = r.socket ++ datagrams addr ps;
        })
        (collect_due-due now r.state.unacked)

-- `check_retransmission` sends the packets of exactly the entries of `unacked` that were sent more
-- than 2000 ms ago, once each and after what was sent before; it sets their times to now, keeps
-- every entry under its number, and done again at the same time it sends nothing.
pub check_retransmission_exact :
    (addr : SocketAddr) (now : ℕ) (r : ReliableUdp)
    → let r' = check_retransmission addr now r in
      (r'.socket ≡ r.socket ++ datagrams addr (due now r.state.unacked))
      × ((k : ℕ)
          → Map.get k r'.state.unacked ≡ Option.map (refreshed now) (Map.get k r.state.unacked))
      × ((check_retransmission addr now r').socket ≡ r'.socket)
check_retransmission_exact addr now r = (
  ap (λ (x : ReliableUdp). x.socket) once,
  λ k. rw once (get-collect_due now k r.state.unacked),
  ap (λ (x : ReliableUdp). x.socket)
        (check_retransmission_lem addr now (check_retransmission addr now r))
      ∙ ap (λ ps. (check_retransmission addr now r).socket ++ datagrams addr ps) nothing_due
      ∙ append-nil (check_retransmission addr now r).socket,
)
  where
    once : check_retransmission addr now r ≡ record r {
      state = record (r.state) { unacked = (collect_due now r.state.unacked).1 };
      socket = r.socket ++ datagrams addr (due now r.state.unacked);
    }
    once = check_retransmission_lem addr now r

    nothing_due : due now (check_retransmission addr now r).state.unacked ≡ []
    nothing_due = rw once (due-collect_due now r.state.unacked)
