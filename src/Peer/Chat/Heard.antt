-- ===== src/Peer/Chat/Heard.antt =====
-- What a peer hears from the receiver of its transport.
use p2p_networking.Base.{
  ℕ, ◌≡◌, refl, ap, true, List, [], ◌∷◌, ◌++◌, Option, none, some, inl, inr, arith, map, All,
  Option-cases,
}
use p2p_networking.Base.Map.{nat_key}
use p2p_networking.Base.Net.{SocketAddr}
use p2p_networking.Reliable.{Packet}
use p2p_networking.Peer.Chat.{Event, same, same_ip}
use p2p_networking.Peer.Chat.Lines.{heard, FromPeer}

pub same_self : (l : List ℕ) → same l l ≡ true
unfolding same
same_self [] = refl
same_self (x ∷ l) = ground (arith, same_self l)

pub same_ip_self : (a : SocketAddr) → same_ip a a ≡ true
unfolding same_ip
same_ip_self (SocketAddr.v4 ip port) = ground arith
same_ip_self (SocketAddr.v6 ip port flow scope) = same_self ip

-- The packets that a peer takes from `output_rx`.
abbrev pub hears : List Event → List (Packet × SocketAddr)
hears [] = []
hears (Event.hear o ∷ es) = o ∷ hears es
hears (_ ∷ es) = hears es

abbrev pub somes : List (Option (List ℕ)) → List (List ℕ)
somes [] = []
somes (none ∷ os) = somes os
somes (some x ∷ os) = x ∷ somes os

pub somes-append : (os os' : List (Option (List ℕ))) → somes (os ++ os') ≡ somes os ++ somes os'
somes-append [] os' = refl
somes-append (none ∷ os) os' = somes-append os os'
somes-append (some x ∷ os) os' = ap (◌∷◌ x) (somes-append os os')

pub heard-hears : (es : List Event) → heard es ≡ somes (map (λ o. o.0.payload) (hears es))
heard-hears [] = refl
heard-hears (Event.punch ∷ es) = heard-hears es
heard-hears (Event.hear (packet, addr) ∷ es) = elim (Option-cases packet.payload) [
  | inl e ↦ rw e (heard-hears es)
  | inr (x, e) ↦ rw e (ap (◌∷◌ x) (heard-hears es))
]
heard-hears (Event.time_out ∷ es) = heard-hears es
heard-hears (Event.interval_tick ∷ es) = heard-hears es
heard-hears (Event.type_line line ∷ es) = heard-hears es

pub hears-FromPeer :
    (a : SocketAddr) (es : List Event) → All (λ o. o.1 ≡ a) (hears es) → All (FromPeer a) es
hears-FromPeer a [] u = tt
hears-FromPeer a (Event.punch ∷ es) u = (tt, hears-FromPeer a es u)
hears-FromPeer a (Event.hear (packet, addr) ∷ es) u =
    (rw u.0 (same_ip_self a), hears-FromPeer a es u.1)
hears-FromPeer a (Event.time_out ∷ es) u = (tt, hears-FromPeer a es u)
hears-FromPeer a (Event.interval_tick ∷ es) u = (tt, hears-FromPeer a es u)
hears-FromPeer a (Event.type_line line ∷ es) u = (tt, hears-FromPeer a es u)
