-- ===== src/Peer/Tests.antt =====
-- A host and a client of one network that meet.
use p2p_networking.Base.{
  ℕ, ◌≡◌, ◌≢◌, refl, suc, List, [], ◌∷◌, Option, none, some, Bool, true, arith,
}
use p2p_networking.Base.Net.{SocketAddr}
use p2p_networking.Rendezvous
use p2p_networking.Rendezvous.{Code, run}
use p2p_networking.Peer.{Outcome, listen_to_relay, request_host_addr}
use p2p_networking.Peer.Meeting.{IsText, meeting, delivered, meeting_found}

-- Text stands for the port alone; all addresses have one IP.
abbrev shown : SocketAddr → List ℕ
shown (SocketAddr.v4 ip port) = port ∷ []
shown (SocketAddr.v6 ip port flowinfo scope_id) = port ∷ []

abbrev port_of : List ℕ → Option SocketAddr
port_of (port ∷ []) = some (SocketAddr.v4 7 port)
port_of _ = none

abbrev any : List ℕ → Bool
any text = true

abbrev at : ℕ → SocketAddr
at port = SocketAddr.v4 7 port

at-IsText : (n : ℕ) → IsText shown any port_of (at (suc n))
at-IsText n = record {
  is_utf8 = refl;
  parsed = refl;
  short = omega arith;
  first = n;
  rest = [];
  starts = refl;
}

apart : at 4 ≢ at 5
apart e = cc

abbrev lobby : Code
lobby = 1 ∷ 2 ∷ 3 ∷ 4 ∷ 5 ∷ 6 ∷ 7 ∷ 8 ∷ 9 ∷ 10 ∷ 11 ∷ 12 ∷ 13 ∷ 14 ∷ 15 ∷ 16 ∷ []

meeting_found_example :
    let out = (run shown (meeting shown any port_of lobby (at 4) (at 5)) Rendezvous.init).socket in
    ((listen_to_relay any port_of (at 9903) (true, delivered (at 9903) (at 4) out)).0
      ≡ Outcome.found (at 5))
    × ((request_host_addr any port_of lobby (at 9903) (delivered (at 9903) (at 5) out)).0
        ≡ Outcome.found (at 4))
meeting_found_example =
    meeting_found shown any port_of (at 9903) (at 4) (at 5) lobby (at-IsText 3) (at-IsText 4) apart
      refl
