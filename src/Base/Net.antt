-- ===== src/Base/Net.antt =====
-- `std::net::SocketAddr`: an IPv4 address is its 32-bit value, an IPv6 address its 16 octets.
use Prim.Native.Nat.{ℕ}
use mathlib.Core.List.{List}
use native.Mathlib.Decide.{ℕ_discrete}
use p2p_networking.Base.Map.{Key}

pub data SocketAddr : Type 0 where
  -- ip, port
  v4 : ℕ → ℕ → SocketAddr
  -- ip, port, flowinfo, scope_id
  v6 : List ℕ → ℕ → ℕ → ℕ → SocketAddr

unfoldable pub SocketAddr-discrete : Discrete SocketAddr
unfolding ℕ_discrete
SocketAddr-discrete = hlevel ℕ_discrete

instance abbrev pub socket_addr_key : Key SocketAddr
socket_addr_key = record { eq? = SocketAddr-discrete }

-- `"0.0.0.0:0"`
abbrev pub unspecified : SocketAddr
unspecified = SocketAddr.v4 0 0
