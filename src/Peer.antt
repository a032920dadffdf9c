-- ===== src/Peer.antt =====
-- peer/src/main.rs: how a host and a client learn each other's address from the rendezvous server,
-- `listen_to_relay` and `request_host_addr`. Whether bytes are UTF-8 and what address a text names
-- are parameters; the datagrams that come in are an argument. A failed socket call changes nothing,
-- but for the first receive of `listen_to_relay`, which is not waited for again.
pub mod Meeting
pub mod Chat
pub mod Node
mod Tests
use p2p_networking.Base.{
  ℕ, zero, suc, ◌==◌, List, [], ◌∷◌, ◌++◌, Option, none, some, Bool, true, false, if◌then◌else◌,
  take, length, get_elem?, filled,
}
use p2p_networking.Base.Net.{SocketAddr}
use p2p_networking.Rendezvous.{overlay}

abbrev pub buf_size : ℕ
buf_size = 120

-- How a loop ends: an address, an error, a panic, or not within the datagrams that came.
pub data Outcome : Type 0 where
  found : SocketAddr → Outcome
  error : Outcome
  panic : Outcome
  waits : Outcome

-- The outcome, and what was sent.
abbrev pub Run : Type 0
Run = Outcome × List (List ℕ × SocketAddr)

-- Whether the first `recv_from` succeeds, and the datagrams that come.
abbrev pub Incoming : Type 0
Incoming = Bool × List (List ℕ × SocketAddr)

-- One more datagram is sent before what a run sends.
abbrev pub sends : List ℕ → SocketAddr → Run → Run
sends bytes addr (o, out) = (o, (bytes, addr) ∷ out)

module _ (utf8 : List ℕ → Bool) (from_str : List ℕ → Option SocketAddr) where
  -- `str::from_utf8`, then `SocketAddr::from_str`
  abbrev pub read_addr : List ℕ → Option SocketAddr
  read_addr text = if utf8 text then from_str text else none

  -- The loop of `listen_to_relay`: everything that is not an address is echoed.
  unfoldable pub listen_loop : List (List ℕ × SocketAddr) → Run
  listen_loop [] = (Outcome.waits, [])
  listen_loop ((bytes, addr) ∷ ds) =
      let rest = listen_loop ds in
      elim (read_addr (take buf_size bytes)) [
        | none ↦ sends (2 ∷ []) addr rest
        | some peer ↦ (Outcome.found peer, [])
      ]

  -- `listen_to_relay`: the first datagram must be a code of 16 bytes, or `expect` panics. If the
  -- first receive fails, no code is waited for.
  unfoldable pub listen_to_relay : SocketAddr → Incoming → Run
  listen_to_relay server (false, ds) = sends (0 ∷ []) server (listen_loop ds)
  listen_to_relay server (true, []) = sends (0 ∷ []) server (Outcome.waits, [])
  listen_to_relay server (true, (code, addr) ∷ ds) =
      sends (0 ∷ []) server
        (if length (take buf_size code) == 16 then listen_loop ds else (Outcome.panic, []))

  -- What `request_host_addr` makes of a text that does not begin with 0; none goes on.
  abbrev pub read_host : List ℕ → Option Outcome
  read_host text =
      if utf8 text
      then elim (from_str text) [
        | none ↦ some Outcome.error
        | some host ↦ some (Outcome.found host)
      ]
      else none

  -- The loop of `request_host_addr` with its buffer.
  unfoldable pub request_loop : List ℕ → List (List ℕ × SocketAddr) → Run
  request_loop buf [] = (Outcome.waits, [])
  request_loop buf ((bytes, addr) ∷ ds) =
      let buf' = overlay bytes buf in
      let rest = request_loop buf' ds in
      elim (get_elem? buf' 0) [
        | some zero ↦ sends (2 ∷ []) addr rest
        | _ ↦ elim (read_host (take buf_size bytes)) [ none ↦ rest | some o ↦ (o, []) ]
      ]

  unfoldable pub request_host_addr : List ℕ → SocketAddr → List (List ℕ × SocketAddr) → Run
  request_host_addr code server ds = sends (1 ∷ code) server (request_loop (filled buf_size 0) ds)
