-- ===== src/Peer/Node/Traced.antt =====
-- A run of a peer is a run of its chat and one of its endpoint, which meet in the two channels.
use p2p_networking.Base.{
  ℕ, suc, ◌≡◌, refl, sym, ◌∙◌, ap, List, [], ◌∷◌, ◌++◌, some, inl, inr, Bool, Option-cases,
  get_elem?, drop, subst, ap₂,
}
use p2p_networking.Reliable.{Packet}
use p2p_networking.Base.Net.{SocketAddr}
use p2p_networking.Reliable.Endpoint
use p2p_networking.Reliable.Endpoint.Duplex.{arrivals}
use p2p_networking.Peer.Chat
use p2p_networking.Peer.Chat.Lines.{said_at, said}
use p2p_networking.Peer.Chat.Heard.{hears}
use p2p_networking.Peer.Chat.Delivered.{sent_by}
use p2p_networking.Peer.Node.{Node, Event, chats, transports, step, run}
use p2p_networking.Peer.Node.Growth.{Begins, Begins-drop, output-Begins, payloads-Begins}

-- The datagrams that reach the peer.
abbrev pub arrived : List Event → List (List ℕ × SocketAddr)
arrived [] = []
arrived (Event.receive d ∷ es) = d ∷ arrived es
arrived (_ ∷ es) = arrived es

module _ (utf8 : List ℕ → Bool) (addr : SocketAddr) where
  abbrev pub typed_at : Chat.Stage → Event → List (List ℕ)
  typed_at s (Event.type_line line) = said_at utf8 s (Chat.Event.type_line line)
  typed_at s _ = []

  -- The lines that are typed in the chat before "exit", but for empty ones.
  unfoldable pub typed : Node → List Event → List (List ℕ)
  typed n [] = []
  typed n (e ∷ es) = typed_at n.chat.stage e ++ typed (step utf8 addr n e) es

  -- The two runs that make up the way from `n` to `n'`.
  pub record Trace (n n' : Node) (es : List Event) : Type 0 where
    pub fs : List Chat.Event
    pub ts : List Endpoint.Event
    pub chat : n'.chat ≡ Chat.run utf8 addr n.chat fs
    pub transport : n'.transport ≡ Endpoint.run addr n.transport ts
    pub taken :
        hears fs ++ drop n'.heard n'.transport.output_tx ≡ drop n.heard n'.transport.output_tx
    pub sent : sent_by ts ++ drop n'.sent n'.chat.packet_tx ≡ drop n.sent n'.chat.packet_tx
    pub reached : arrivals ts ≡ arrived es
    pub lines : said utf8 addr n.chat fs ≡ typed n es

  -- A step that waits.
  idle-Trace :
      (e : Event) (es : List Event) (n n' : Node)
      → step utf8 addr n e ≡ n
      → arrived (e ∷ es) ≡ arrived es
      → typed_at n.chat.stage e ≡ []
      → Trace n n' es
      → Trace n n' (e ∷ es)
  unfolding typed
  idle-Trace e es n n' idle apart line t = record {
    fs = t.fs;
    ts = t.ts;
    chat = t.chat;
    transport = t.transport;
    taken = t.taken;
    sent = t.sent;
    reached = t.reached ∙ sym apart;
    lines = t.lines ∙ ap₂ (λ l m. l ++ typed m es) (sym line) (sym idle);
  }

  quiet :
      (s : Chat.Stage)
      → (said_at utf8 s Chat.Event.punch ≡ [])
        × (said_at utf8 s Chat.Event.time_out ≡ [])
        × (said_at utf8 s Chat.Event.interval_tick ≡ [])
        × ((o : Packet × SocketAddr) → said_at utf8 s (Chat.Event.hear o) ≡ [])
  quiet Chat.Stage.punching = (refl, refl, refl, λ o. refl)
  quiet Chat.Stage.chatting = (refl, refl, refl, λ o. refl)
  quiet Chat.Stage.gave_up = (refl, refl, refl, λ o. refl)
  quiet Chat.Stage.left = (refl, refl, refl, λ o. refl)
  quiet Chat.Stage.closed = (refl, refl, refl, λ o. refl)

  -- A step of the chat that hears nothing.
  chat-Trace :
      (f : Chat.Event) (e : Event) (es : List Event) (n n' : Node)
      → ((fs : List Chat.Event) → hears (f ∷ fs) ≡ hears fs)
      → arrived (e ∷ es) ≡ arrived es
      → said_at utf8 n.chat.stage f ++ typed (chats utf8 addr f n) es ≡ typed n (e ∷ es)
      → Trace (chats utf8 addr f n) n' es
      → Trace n n' (e ∷ es)
  unfolding Chat.run said
  chat-Trace f e es n n' silent apart line t = record {
    fs = f ∷ t.fs;
    ts = t.ts;
    chat = t.chat;
    transport = t.transport;
    taken = ap (λ l. l ++ drop n'.heard n'.transport.output_tx) (silent t.fs) ∙ t.taken;
    sent = t.sent;
    reached = t.reached ∙ sym apart;
    lines = ap (λ l. said_at utf8 n.chat.stage f ++ l) t.lines ∙ line;
  }

  -- A step of the transport that sends nothing.
  transport-Trace :
      (e : Endpoint.Event) (e' : Event) (es : List Event) (n n' : Node)
      → ((ts : List Endpoint.Event) → sent_by (e ∷ ts) ≡ sent_by ts)
      → ((ts : List Endpoint.Event)
          → arrivals ts ≡ arrived es
          → arrivals (e ∷ ts) ≡ arrived (e' ∷ es))
      → typed (transports utf8 addr e n) es ≡ typed n (e' ∷ es)
      → Trace (transports utf8 addr e n) n' es
      → Trace n n' (e' ∷ es)
  unfolding Endpoint.run
  transport-Trace e e' es n n' silent apart line t = record {
    fs = t.fs;
    ts = e ∷ t.ts;
    chat = t.chat;
    transport = t.transport;
    taken = t.taken;
    sent = ap (λ l. l ++ drop n'.sent n'.chat.packet_tx) (silent t.ts) ∙ t.sent;
    reached = apart t.ts t.reached;
    lines = t.lines ∙ line;
  }

  hear-Trace :
      (o : Packet × SocketAddr) (es : List Event) (n n' : Node)
      → get_elem? n.transport.output_tx n.heard ≡ some o
      → Trace (chats utf8 addr (Chat.Event.hear o) (record n { heard = suc n.heard })) n' es
      → Trace n n' (Event.hear ∷ es)
  unfolding Chat.run said typed step
  hear-Trace o es n n' e t = record {
    fs = Chat.Event.hear o ∷ t.fs;
    ts = t.ts;
    chat = t.chat;
    transport = t.transport;
    taken =
        ap (◌∷◌ o) t.taken
        ∙ sym (
            Begins-drop n.heard o
              (subst (λ r. Begins n.transport.output_tx r.output_tx) (sym t.transport)
                (output-Begins addr t.ts n.transport))
              e);
    sent = t.sent;
    reached = t.reached;
    lines =
        ap (λ l. l ++ said utf8 addr (Chat.step utf8 addr n.chat (Chat.Event.hear o)) t.fs)
          ((quiet n.chat.stage).3 o)
        ∙ t.lines
        ∙ rw (e, step) refl;
  }

  send-Trace :
      (now : ℕ) (payload : List ℕ) (es : List Event) (n n' : Node)
      → get_elem? n.chat.packet_tx n.sent ≡ some payload
      → Trace
          (transports utf8 addr (Endpoint.Event.sends now payload) (record n { sent = suc n.sent }))
          n'
          es
      → Trace n n' (Event.send now ∷ es)
  unfolding Endpoint.run typed step
  send-Trace now payload es n n' e t = record {
    fs = t.fs;
    ts = Endpoint.Event.sends now payload ∷ t.ts;
    chat = t.chat;
    transport = t.transport;
    taken = t.taken;
    sent =
        ap (◌∷◌ payload) t.sent
        ∙ sym (
            Begins-drop n.sent payload
              (subst (λ p. Begins n.chat.packet_tx p.packet_tx) (sym t.chat)
                (payloads-Begins utf8 addr t.fs n.chat))
              e);
    reached = t.reached;
    lines = rw (e, step) t.lines;
  }

  pub trace : (es : List Event) (n : Node) → Trace n (run utf8 addr n es) es
  unfolding run step Chat.run Endpoint.run said typed
  trace [] n = record {
    fs = [];
    ts = [];
    chat = refl;
    transport = refl;
    taken = refl;
    sent = refl;
    reached = refl;
    lines = refl;
  }
  trace (Event.punch ∷ es) n =
      chat-Trace Chat.Event.punch Event.punch es n _ (λ fs. refl) refl
        (ap (λ l. l ++ typed (step utf8 addr n Event.punch) es) (quiet n.chat.stage).0)
        (trace es (step utf8 addr n Event.punch))
  trace (Event.time_out ∷ es) n =
      chat-Trace Chat.Event.time_out Event.time_out es n _ (λ fs. refl) refl
        (ap (λ l. l ++ typed (step utf8 addr n Event.time_out) es) (quiet n.chat.stage).1)
        (trace es (step utf8 addr n Event.time_out))
  trace (Event.interval_tick ∷ es) n =
      chat-Trace Chat.Event.interval_tick Event.interval_tick es n _ (λ fs. refl) refl
        (ap (λ l. l ++ typed (step utf8 addr n Event.interval_tick) es) (quiet n.chat.stage).2)
        (trace es (step utf8 addr n Event.interval_tick))
  trace (Event.type_line line ∷ es) n =
      chat-Trace (Chat.Event.type_line line) (Event.type_line line) es n _ (λ fs. refl) refl refl
        (trace es (step utf8 addr n (Event.type_line line)))
  trace (Event.hear ∷ es) n = elim (Option-cases (get_elem? n.transport.output_tx n.heard)) [
    | inl e ↦ rw (e, step) (idle-Trace Event.hear es n _ (rw (e, step) refl) refl refl (trace es n))
    | inr (o, e) ↦ rw (e, step) (hear-Trace o es n _ e (trace es _))
  ]
  trace (Event.send now ∷ es) n = elim (Option-cases (get_elem? n.chat.packet_tx n.sent)) [
    | inl e ↦
        rw (e, step) (idle-Trace (Event.send now) es n _ (rw (e, step) refl) refl refl (trace es n))
    | inr (payload, e) ↦ rw (e, step) (send-Trace now payload es n _ e (trace es _))
  ]
  trace (Event.check now ∷ es) n =
      transport-Trace (Endpoint.Event.checks now) (Event.check now) es n _ (λ ts. refl) (λ ts h. h)
        refl (trace es (step utf8 addr n (Event.check now)))
  trace (Event.receive d ∷ es) n =
      transport-Trace (Endpoint.Event.receives d) (Event.receive d) es n _ (λ ts. refl)
        (λ ts h. ap (◌∷◌ d) h) refl (trace es (step utf8 addr n (Event.receive d)))
  trace (Event.acknowledge ∷ es) n =
      transport-Trace Endpoint.Event.acknowledges Event.acknowledge es n _ (λ ts. refl) (λ ts h. h)
        refl (trace es (step utf8 addr n Event.acknowledge))
