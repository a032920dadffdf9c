-- ===== src/Rendezvous/Buffer.antt =====
-- The buffer that `udp_handler` keeps from one datagram to the next.
use p2p_networking.Base.{
  ℕ, zero, suc, ◌≤◌, ◌≡◌, refl, sym, ◌∙◌, ap, List, ◌∷◌, ◌++◌, Option, none, some, arith, length,
  take, drop, take_of_length-le, length-drop, length-append, append_assoc, drop_prefix, take_prefix,
  get_elem?, length-filled,
}
use p2p_networking.Base.Net.{SocketAddr}
use p2p_networking.Rendezvous.{
  Code, code_key, Server, overlay, lobby_id, on_create, on_join, join_lobby, join_session,
  create_lobby, dispatch, udp_handler, introduce, init, buf_size,
}

pub overlay_lem :
    (bytes buf : List ℕ)
    → length bytes ≤ length buf
    → overlay bytes buf ≡ bytes ++ drop (length bytes) buf
unfolding overlay
overlay_lem bytes buf h =
    ap (λ l. l ++ drop (length bytes) buf) (take_of_length-le (length buf) bytes h)

-- The buffer keeps its size.
pub length-overlay :
    (bytes buf : List ℕ) → length bytes ≤ length buf → length (overlay bytes buf) ≡ length buf
length-overlay bytes buf h =
    let total = length-append bytes (drop (length bytes) buf) in
    let rest = length-drop (length bytes) buf in rw (overlay_lem bytes buf h) (omega arith)

-- The code of a join is read from the datagram, if it is all there.
pub lobby_id-overlay :
    (kind : ℕ) (rest buf : List ℕ)
    → length (kind ∷ rest) ≤ length buf
    → 16 ≤ length rest
    → lobby_id (overlay (kind ∷ rest) buf) ≡ take 16 rest
lobby_id-overlay kind rest buf h enough =
    ap lobby_id (overlay_lem (kind ∷ rest) buf h)
    ∙ take_prefix 16 rest (drop (length (kind ∷ rest)) buf) enough

-- What the buffer begins with changes nothing.
overlay-append : (l rest : List ℕ) → overlay l (l ++ rest) ≡ l ++ rest
overlay-append l rest =
    overlay_lem l (l ++ rest) (omega (arith, length-append l rest))
    ∙ ap (λ x. l ++ x) (drop_prefix l rest)

overlay-prefix :
    (l m buf : List ℕ)
    → length (l ++ m) ≤ length buf
    → overlay l (overlay (l ++ m) buf) ≡ overlay (l ++ m) (overlay (l ++ m) buf)
overlay-prefix l m buf h =
    let rest = drop (length (l ++ m)) buf in
    let whole : overlay (l ++ m) buf ≡ (l ++ m) ++ rest = overlay_lem (l ++ m) buf h in
    let split : (l ++ m) ++ rest ≡ l ++ (m ++ rest) = append_assoc l m rest in
    ap (overlay l) (whole ∙ split)
    ∙ overlay-append l (m ++ rest)
    ∙ sym split
    ∙ sym (overlay-append (l ++ m) rest)
    ∙ ap (overlay (l ++ m)) (sym whole)

pub init_buf : length init.buf ≡ buf_size
unfolding init
init_buf = length-filled buf_size 0

module _ (to_string : SocketAddr → List ℕ) where
  introduce-buf :
      (client : SocketAddr) (o : Option SocketAddr) (s : Server)
      → (introduce to_string client (o, s)).buf ≡ s.buf
  introduce-buf client none s = refl
  introduce-buf client (some host) s = refl

  join_lobby-buf :
      (code : Code) (addr : SocketAddr) (s : Server) → (join_lobby code addr s).1.buf ≡ s.buf
  unfolding join_lobby join_session
  join_lobby-buf code addr s = ground arith

  dispatch-buf :
      (code : Code) (addr : SocketAddr) (kind : Option ℕ) (s : Server)
      → (dispatch to_string code addr kind s).buf ≡ s.buf
  unfolding dispatch on_create on_join create_lobby
  dispatch-buf code addr none s = refl
  dispatch-buf code addr (some zero) s = refl
  dispatch-buf code addr (some (suc zero)) s =
      let joined = join_lobby (lobby_id s.buf) addr s in
      introduce-buf addr joined.0 joined.1 ∙ join_lobby-buf (lobby_id s.buf) addr s
  dispatch-buf code addr (some (suc (suc n))) s = refl

  pub udp_handler-buf :
      (code : Code) (bytes : List ℕ) (addr : SocketAddr) (s : Server)
      → (udp_handler to_string code (bytes, addr) s).buf ≡ overlay bytes s.buf
  unfolding udp_handler
  udp_handler-buf code bytes addr s =
      dispatch-buf code addr (get_elem? (overlay bytes s.buf) 0)
        (record s { buf = overlay bytes s.buf })

same_overlay :
    (to_string : SocketAddr → List ℕ) (l l' : List ℕ) (b : SocketAddr) (k : Code) (s : Server)
    → overlay l s.buf ≡ overlay l' s.buf
    → udp_handler to_string k (l, b) s ≡ udp_handler to_string k (l', b) s
unfolding udp_handler
same_overlay to_string l l' b k s e =
    ap (λ x. dispatch to_string k b (get_elem? x 0) (record s { buf = x })) e

-- A datagram that is no longer than the buffer has been handled. Then a datagram with only the
-- first bytes of it (even none of them), from any address and with any new Uuid, is handled as if
-- the whole of it had come from that address: the rest is read from the buffer. So the single byte
-- LOBBY_JOIN joins the lobby that was joined last, and an empty datagram repeats the last request.
pub udp_handler-stale :
    (to_string : SocketAddr → List ℕ) (l m : List ℕ) (a b : SocketAddr) (k k' : Code) (s : Server)
    → length (l ++ m) ≤ length s.buf
    → udp_handler to_string k' (l, b) (udp_handler to_string k (l ++ m, a) s)
      ≡ udp_handler to_string k' (l ++ m, b) (udp_handler to_string k (l ++ m, a) s)
udp_handler-stale to_string l m a b k k' s h =
    let t = udp_handler to_string k (l ++ m, a) s in
    let held : t.buf ≡ overlay (l ++ m) s.buf = udp_handler-buf to_string k (l ++ m) a s in
    same_overlay to_string l (l ++ m) b k' t
      (ap (overlay l) held ∙ overlay-prefix l m s.buf h ∙ sym (ap (overlay (l ++ m)) held))
