-- ===== src/Peer/Meeting.antt =====
-- A host and a client that meet by way of the rendezvous server.
pub mod Awaited
use p2p_networking.Base.{
  ℕ, suc, ◌≤◌, ◌≡◌, ◌≢◌, refl, ◌∙◌, ap, List, [], ◌∷◌, ◌++◌, Option, some, Bool, true, arith, ite,
  length, take, take_of_length-le, replicate, filled, get_elem?,
}
use p2p_networking.Base.Map
use p2p_networking.Base.Net.{SocketAddr, SocketAddr-discrete}
use p2p_networking.Rendezvous
use p2p_networking.Rendezvous.{Code, code_key, run, overlay, introductions}
use p2p_networking.Rendezvous.Requests.{answers}
use p2p_networking.Rendezvous.Lobbies.{server_answers}
use p2p_networking.Peer.{
  Outcome, buf_size, read_addr, read_host, listen_loop, listen_to_relay, request_loop,
  request_host_addr,
}

-- What arrives at `a` of the datagrams that `server` sent, in order.
unfoldable pub delivered :
    SocketAddr → SocketAddr → List (List ℕ × SocketAddr) → List (List ℕ × SocketAddr)
delivered server a [] = []
delivered server a ((bytes, dest) ∷ ds) =
    ite (SocketAddr-discrete dest a) ((bytes, server) ∷ delivered server a ds)
      (delivered server a ds)

module _ (to_string : SocketAddr → List ℕ) (utf8 : List ℕ → Bool)
    (from_str : List ℕ → Option SocketAddr) where
  -- The text of the address is UTF-8, fits into a buffer, begins with no 0, and names the address.
  pub record IsText (a : SocketAddr) : Type 0 where
    pub is_utf8 : utf8 (to_string a) ≡ true
    pub parsed : from_str (to_string a) ≡ some a
    pub short : length (to_string a) ≤ buf_size
    pub first : ℕ
    pub rest : List ℕ
    pub starts : to_string a ≡ suc first ∷ rest

  -- A lobby is opened by `host` under the code, and joined by `client`.
  abbrev pub meeting : Code → SocketAddr → SocketAddr → List (Code × List ℕ × SocketAddr)
  meeting code host client = (code, 0 ∷ [], host) ∷ ([], 1 ∷ code, client) ∷ []

  pub answers-meeting :
      (code : Code) (host client : SocketAddr)
      → length code ≡ 16
      → answers to_string [] (meeting code host client)
        ≡ (code, host) ∷ introductions to_string host client
  unfolding answers Map.get
  answers-meeting code host client h =
      let whole : take 16 code ≡ code = take_of_length-le 16 code (omega arith) in
      ground (arith, whole)

  pub request_text :
      (server a : SocketAddr) (x : ℕ) (xs : List ℕ) (ds : List (List ℕ × SocketAddr))
      → IsText a
      → (request_loop utf8 from_str (x ∷ xs) ((to_string a, server) ∷ ds)).0 ≡ Outcome.found a
  unfolding request_loop overlay
  request_text server a x xs ds t =
      let whole : take buf_size (to_string a) ≡ to_string a =
        take_of_length-le buf_size (to_string a) t.short in
      let head : get_elem? (overlay (to_string a) (x ∷ xs)) 0 ≡ some (suc t.first) =
        ap (λ l. get_elem? (overlay l (x ∷ xs)) 0) t.starts in
      let read : read_host utf8 from_str (take buf_size (to_string a)) ≡ some (Outcome.found a) =
        ap (read_host utf8 from_str) whole ∙ rw (t.is_utf8, read_host) (rw t.parsed refl) in
      rw head (rw read refl)

  pub listen_text :
      (server a : SocketAddr) (ds : List (List ℕ × SocketAddr))
      → IsText a
      → (listen_loop utf8 from_str ((to_string a, server) ∷ ds)).0 ≡ Outcome.found a
  unfolding listen_loop
  listen_text server a ds t =
      let whole : take buf_size (to_string a) ≡ to_string a =
        take_of_length-le buf_size (to_string a) t.short in
      let read : read_addr utf8 from_str (take buf_size (to_string a)) ≡ some a =
        ap (read_addr utf8 from_str) whole ∙ rw (t.is_utf8, read_addr) t.parsed in
      rw (read, listen_loop) refl

  pub listen_to_relay-code :
      (server : SocketAddr) (code : Code) (ds : List (List ℕ × SocketAddr))
      → length code ≡ 16
      → (listen_to_relay utf8 from_str server (true, (code, server) ∷ ds)).0
        ≡ (listen_loop utf8 from_str ds).0
  unfolding listen_to_relay
  listen_to_relay-code server code ds h =
      let whole : length (take buf_size code) ≡ 16 =
        ap length (take_of_length-le buf_size code (omega arith)) ∙ h in
      ground arith

  pub delivered-host :
      (server host client : SocketAddr) (code : Code)
      → host ≢ client
      → delivered server host ((code, host) ∷ introductions to_string host client)
        ≡ (code, server) ∷ (to_string client, server) ∷ []
  unfolding delivered
  delivered-host server host client code ne = ground arith

  pub delivered-client :
      (server host client : SocketAddr) (code : Code)
      → host ≢ client
      → delivered server client ((code, host) ∷ introductions to_string host client)
        ≡ replicate 5 (0 ∷ [], server) ++ (to_string host, server) ∷ []
  unfolding delivered
  delivered-client server host client code ne = ground arith

  request_host_addr-echoes :
      (server a : SocketAddr) (code : Code)
      → IsText a
      → (request_host_addr utf8 from_str code server
          (replicate 5 (0 ∷ [], server) ++ (to_string a, server) ∷ [])).0
        ≡ Outcome.found a
  unfolding request_host_addr request_loop overlay filled
  request_host_addr-echoes server a code t = request_text server a 0 (replicate 119 0) [] t

-- A host and a client at different addresses whose texts are read back, and a code of 16 bytes. The
-- server, from its start, gets the host's request for a lobby, opens it under the code, and gets
-- the client's request to join it. What it sends arrives in order, and the host's first receive succeeds. Then `listen_to_relay` at the
-- host finds the client's address, and `request_host_addr` at the client finds the host's.
pub meeting_found :
    (to_string : SocketAddr → List ℕ) (utf8 : List ℕ → Bool) (from_str : List ℕ → Option SocketAddr)
    (server host client : SocketAddr) (code : Code)
    → IsText to_string utf8 from_str host
    → IsText to_string utf8 from_str client
    → host ≢ client
    → length code ≡ 16
    → let out =
        (run to_string (meeting to_string utf8 from_str code host client) Rendezvous.init).socket in
      ((listen_to_relay utf8 from_str server (true, delivered server host out)).0
        ≡ Outcome.found client)
      × ((request_host_addr utf8 from_str code server (delivered server client out)).0
          ≡ Outcome.found host)
meeting_found to_string utf8 from_str server host client code th tc ne h =
    let requests = meeting to_string utf8 from_str code host client in
    let sent =
      server_answers to_string requests (omega arith, ((omega (arith, h), omega (arith, h)), tt))
      ∙ answers-meeting to_string utf8 from_str code host client h in
    (
      ap (λ out. (listen_to_relay utf8 from_str server (true, delivered server host out)).0) sent
          ∙ ap (λ ds. (listen_to_relay utf8 from_str server (true, ds)).0)
              (delivered-host to_string utf8 from_str server host client code ne)
          ∙ listen_to_relay-code to_string utf8 from_str server code
              ((to_string client, server) ∷ []) h
          ∙ listen_text to_string utf8 from_str server client [] tc,
      ap (λ out. (request_host_addr utf8 from_str code server (delivered server client out)).0) sent
          ∙ ap (λ ds. (request_host_addr utf8 from_str code server ds).0)
              (delivered-client to_string utf8 from_str server host client code ne)
          ∙ request_host_addr-echoes to_string utf8 from_str server host code th,
    )
