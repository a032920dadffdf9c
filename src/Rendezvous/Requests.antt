-- ===== src/Rendezvous/Requests.antt =====
-- What the rendezvous server is to answer: a specification over the list of its lobbies.
use p2p_networking.Base.{
  ℕ, zero, suc, ◌≤◌, ◌<◌, List, [], ◌∷◌, ◌++◌, none, some, length, take, replicate,
}
use p2p_networking.Base.Map
use p2p_networking.Base.Map.{Map, get-insert, nat_key}
use p2p_networking.Base.Net.{SocketAddr}
use p2p_networking.Rendezvous.{Code, code_key, buf_size}

-- What a datagram asks for.
pub data Request : Type 0 where
  create : Request
  join : Code → Request
  other : Request

abbrev pub request : List ℕ → Request
request [] = Request.other
request (zero ∷ rest) = Request.create
request (suc zero ∷ rest) = Request.join (take 16 rest)
request (suc (suc n) ∷ rest) = Request.other

-- The datagram is not empty, fits into the buffer, and has a whole code if it is a join.
abbrev pub IsRequest : List ℕ → Type 0
IsRequest [] = ⊥
IsRequest (zero ∷ rest) = length rest < buf_size
IsRequest (suc zero ∷ rest) = (16 ≤ length rest) × (length rest < buf_size)
IsRequest (suc (suc n) ∷ rest) = length rest < buf_size

-- The lobbies, newest first, and the answers to a list of datagrams, each with a new `Uuid`.
abbrev pub Lobbies : Type 0
Lobbies = Map Code SocketAddr

module _ (to_string : SocketAddr → List ℕ) where
  abbrev pub answer : Lobbies → Code → SocketAddr → Request → List (List ℕ × SocketAddr)
  answer lobbies code addr Request.create = (code, addr) ∷ []
  answer lobbies code addr (Request.join joined) = elim (Map.get joined lobbies) [
    | none ↦ []
    | some host ↦ replicate 5 (0 ∷ [], addr) ++ (to_string host, addr) ∷ (to_string addr, host) ∷ []
  ]
  answer lobbies code addr Request.other = []

  abbrev pub opened : Lobbies → Code → SocketAddr → Request → Lobbies
  opened lobbies code addr Request.create = (code, addr) ∷ lobbies
  opened lobbies code addr _ = lobbies

  unfoldable pub answers : Lobbies → List (Code × List ℕ × SocketAddr) → List (List ℕ × SocketAddr)
  answers lobbies [] = []
  answers lobbies ((code, bytes, addr) ∷ ds) =
      answer lobbies code addr (request bytes)
      ++ answers (opened lobbies code addr (request bytes)) ds
