-- ===== src/Rendezvous/Lobbies.antt =====
-- What the server answers: each joined lobby is the newest with its code.
use mathlib.Core.Option
use p2p_networking.Base.{
  ℕ, zero, suc, ◌≤◌, ◌≡◌, refl, sym, ◌∙◌, ap, subst, List, [], ◌∷◌, ◌++◌, none, some, inl, inr,
  arith, length, take, append_assoc, append-nil, get_elem?, Option-cases, All,
}
use p2p_networking.Base.Map
use p2p_networking.Base.Map.{Map, get-insert, nat_key}
use p2p_networking.Base.Net.{SocketAddr}
use p2p_networking.Rendezvous.{
  Code, code_key, Session, Server, init, buf_size, overlay, lobby_id, on_create, on_join,
  join_lobby, join_session, create_lobby, dispatch, udp_handler, run, introductions,
}
use p2p_networking.Rendezvous.Buffer.{
  overlay_lem, length-overlay, lobby_id-overlay, init_buf, udp_handler-buf,
}
use p2p_networking.Rendezvous.Requests.{
  Request, request, IsRequest, Lobbies, answer, opened, answers,
}

module _ (to_string : SocketAddr → List ℕ) where
  -- The server's sessions have the hosts of the lobbies, and its buffer its size.
  record Hosts (lobbies : Lobbies) (s : Server) : Type 0 where
    hosts :
        (c : Code)
        → Option.map (λ (x : Session). x.host_addr) (Map.get c s.manager.session)
          ≡ Map.get c lobbies
    size : length s.buf ≡ buf_size

  -- One datagram: what is sent, and which lobbies there are then.
  record Answers (lobbies : Lobbies) (code : Code) (addr : SocketAddr) (q : Request) (s s' : Server)
      : Type 0 where
    sent : s'.socket ≡ s.socket ++ answer to_string lobbies code addr q
    kept :
        (c : Code)
        → Option.map (λ (x : Session). x.host_addr) (Map.get c s'.manager.session)
          ≡ Map.get c (opened to_string lobbies code addr q)

  on_create-Answers :
      (lobbies : Lobbies) (code : Code) (addr : SocketAddr) (s : Server)
      → Hosts lobbies s
      → Answers lobbies code addr Request.create s (on_create code addr s)
  unfolding on_create create_lobby Map.get
  on_create-Answers lobbies code addr s t = record {
    sent = refl;
    kept = λ c.
        let e =
          get-insert code c
            (record {
              host_addr = addr;
              shutdown_channel = some s.next_channel;
              client_addr = none;
            })
            s.manager.session in
        ground (arith, t.hosts c, e);
  }

  pub on_join-none :
      (addr : SocketAddr) (s : Server)
      → Map.get (lobby_id s.buf) s.manager.session ≡ none
      → on_join to_string addr s ≡ s
  unfolding on_join join_lobby
  on_join-none addr s e = rw (e, join_lobby)

  pub on_join-some :
      (addr : SocketAddr) (s : Server) (x : Session)
      → Map.get (lobby_id s.buf) s.manager.session ≡ some x
      → on_join to_string addr s ≡ record (join_session (lobby_id s.buf) addr x s) {
        socket = s.socket ++ introductions to_string x.host_addr addr;
      }
  unfolding on_join join_lobby join_session
  on_join-some addr s x e = rw (e, join_lobby)

  on_join-Answers :
      (lobbies : Lobbies) (code : Code) (addr : SocketAddr) (s : Server)
      → Hosts lobbies s
      → Answers lobbies code addr (Request.join (lobby_id s.buf)) s (on_join to_string addr s)
  unfolding join_session
  on_join-Answers lobbies code addr s t =
      let c = lobby_id s.buf in
      let A = Answers lobbies code addr (Request.join c) s in
      elim (Option-cases (Map.get c s.manager.session)) [
        | inl e ↦
            let missing : Map.get c lobbies ≡ none =
              sym (t.hosts c) ∙ ap (Option.map (λ (x : Session). x.host_addr)) e in
            subst A (sym (on_join-none addr s e))
              (record { sent = rw (missing, answer) (sym (append-nil s.socket)); kept = t.hosts })
        | inr (x, e) ↦
            let found : Map.get c lobbies ≡ some x.host_addr =
              sym (t.hosts c) ∙ ap (Option.map (λ (y : Session). y.host_addr)) e in
            subst A (sym (on_join-some addr s x e)) (record {
              sent = rw (found, answer);
              kept = λ j.
                  let e' =
                    get-insert c j
                      (record x { client_addr = some (addr ∷ []); shutdown_channel = none })
                      s.manager.session in
                  ground (arith, t.hosts j, e', e, found);
            })
      ]

  -- The state in which a datagram is dispatched.
  abbrev read : List ℕ → Server → Server
  read bytes s = record s { buf = overlay bytes s.buf }

  udp_handler-dispatch :
      (code : Code) (addr : SocketAddr) (kind : ℕ) (rest : List ℕ) (s : Server)
      → length (kind ∷ rest) ≤ length s.buf
      → udp_handler to_string code (kind ∷ rest, addr) s
        ≡ dispatch to_string code addr (some kind) (read (kind ∷ rest) s)
  unfolding udp_handler
  udp_handler-dispatch code addr kind rest s h =
      ap (λ l. dispatch to_string code addr (get_elem? l 0) (read (kind ∷ rest) s))
        (overlay_lem (kind ∷ rest) s.buf h)

  read-Hosts :
      (lobbies : Lobbies) (bytes : List ℕ) (s : Server)
      → Hosts lobbies s
      → length bytes ≤ length s.buf
      → Hosts lobbies (read bytes s)
  read-Hosts lobbies bytes s t h = record {
    hosts = t.hosts;
    size = length-overlay bytes s.buf h ∙ t.size;
  }

  from_read :
      (lobbies : Lobbies) (code : Code) (addr : SocketAddr) (q : Request) (bytes : List ℕ)
      (s s' : Server)
      → Answers lobbies code addr q (read bytes s) s'
      → Answers lobbies code addr q s s'
  from_read lobbies code addr q bytes s s' a = record { sent = a.sent; kept = a.kept }

  udp_handler-Answers :
      (lobbies : Lobbies) (code : Code) (addr : SocketAddr) (bytes : List ℕ) (s : Server)
      → Hosts lobbies s
      → IsRequest bytes
      → Answers lobbies code addr (request bytes) s (udp_handler to_string code (bytes, addr) s)
        × (length bytes ≤ buf_size)
  unfolding dispatch
  udp_handler-Answers lobbies code addr [] s t r = absurd r
  udp_handler-Answers lobbies code addr (zero ∷ rest) s t r =
      let fits : length (zero ∷ rest) ≤ length s.buf = omega (arith, t.size) in
      let t' : Hosts lobbies (read (zero ∷ rest) s) = read-Hosts lobbies (zero ∷ rest) s t fits in
      (
        subst (Answers lobbies code addr Request.create s)
            (sym (udp_handler-dispatch code addr 0 rest s fits))
            (from_read lobbies code addr Request.create (zero ∷ rest) s _
              (on_create-Answers lobbies code addr (read (zero ∷ rest) s) t')),
        omega arith,
      )
  udp_handler-Answers lobbies code addr (suc zero ∷ rest) s t r =
      let fits : length (suc zero ∷ rest) ≤ length s.buf = omega (arith, t.size, r.1) in
      let t' : Hosts lobbies (read (suc zero ∷ rest) s) =
        read-Hosts lobbies (suc zero ∷ rest) s t fits in
      (
        subst (Answers lobbies code addr (Request.join (take 16 rest)) s)
            (sym (udp_handler-dispatch code addr 1 rest s fits))
            (subst
              (λ c.
                Answers lobbies code addr (Request.join c) s
                  (on_join to_string addr (read (1 ∷ rest) s)))
              (lobby_id-overlay 1 rest s.buf fits r.0)
              (from_read lobbies code addr _ (1 ∷ rest) s _
                (on_join-Answers lobbies code addr (read (1 ∷ rest) s) t'))),
        omega (arith, r.1),
      )
  udp_handler-Answers lobbies code addr (suc (suc n) ∷ rest) s t r =
      let fits : length (suc (suc n) ∷ rest) ≤ length s.buf = omega (arith, t.size) in
      (
        subst (Answers lobbies code addr Request.other s)
            (sym (udp_handler-dispatch code addr (suc (suc n)) rest s fits))
            (record { sent = sym (append-nil s.socket); kept = t.hosts }),
        omega arith,
      )

  run-answers :
      (lobbies : Lobbies) (ds : List (Code × List ℕ × SocketAddr)) (s : Server)
      → Hosts lobbies s
      → All (λ d. IsRequest d.1) ds
      → (run to_string ds s).socket ≡ s.socket ++ answers to_string lobbies ds
  unfolding run answers
  run-answers lobbies [] s t r = sym (append-nil s.socket)
  run-answers lobbies ((code, bytes, addr) ∷ ds) s t r =
      let q = request bytes in
      let s' = udp_handler to_string code (bytes, addr) s in
      let (a, fits) = udp_handler-Answers lobbies code addr bytes s t r.0 in
      let size : length s'.buf ≡ buf_size =
        ap length (udp_handler-buf to_string code bytes addr s)
        ∙ length-overlay bytes s.buf (omega (arith, t.size))
        ∙ t.size in
      run-answers (opened to_string lobbies code addr q) ds s'
        (record { hosts = a.kept; size = size }) r.1
      ∙ ap (λ l. l ++ answers to_string (opened to_string lobbies code addr q) ds) a.sent
      ∙ append_assoc s.socket (answer to_string lobbies code addr q)
          (answers to_string (opened to_string lobbies code addr q) ds)

-- From its start, the server gets datagrams none of which is empty or longer than its buffer, and
-- where a join has a whole code. Then it has sent exactly `answers`: its new code to each host that
-- opens a lobby; for a join, five packets of one byte 0 to the client, the host's address to the
-- client and the client's address to the host, where the host is that of the newest lobby with the
-- code; and nothing for a code without a lobby or for any other datagram.
pub server_answers :
    (to_string : SocketAddr → List ℕ) (ds : List (Code × List ℕ × SocketAddr))
    → All (λ d. IsRequest d.1) ds
    → (run to_string ds init).socket ≡ answers to_string [] ds
unfolding init Map.get
server_answers to_string ds r =
    run-answers to_string [] ds init (record { hosts = λ c. refl; size = init_buf }) r
