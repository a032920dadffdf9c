-- ===== src/Peer/Chat/Tests.antt =====
-- Two peers that chat: one types a line, the other prints it.
use p2p_networking.Base.{
  ℕ, ◌≤◌, ◌≡◌, refl, List, [], ◌∷◌, ◌++◌, some, Bool, true, inl, inr, arith, length, dec_lt, dec_le,
  ℕ_discrete,
}
use p2p_networking.Base.Map
use p2p_networking.Base.Net.{SocketAddr, SocketAddr-discrete}
use p2p_networking.Base.Word.{to_be_bytes, from_be_bytes}
use p2p_networking.Reliable.{Packet, ack_packet}
use p2p_networking.Reliable.Wire.{serialize, deserialize, rest_payload}
use p2p_networking.Reliable.Receiver.{recv, recv_all, on_packet, accept, drain, release, hold, past}
use p2p_networking.Reliable.Receiver.Order.{received}
use p2p_networking.Reliable.Sender.{
  send, check_retransmission, collect_due, retransmit, send_acks, periodic_acks,
}
use p2p_networking.Reliable.Endpoint
use p2p_networking.Peer.Chat.{
  Event, Stage, start, same, same_ip, hole_punch, connected, greets, on_punch, hear_punching,
  hear_message, hear_chat, on_line, on_event, step, run,
}
use p2p_networking.Peer.Chat.Lines.{said, texts, is_text}
use p2p_networking.Peer.Chat.Talk.{talker, listener, chat_in_order}
use p2p_networking.Peer.Chat.Begin.{Begun, chat_begins}
use p2p_networking.Peer.Chat.Delivered.{chat_over_transport}

program : Unit {0}
unfolding serialize deserialize rest_payload to_be_bytes from_be_bytes received recv recv_all
    on_packet accept drain release hold past send check_retransmission collect_due retransmit
    send_acks periodic_acks Endpoint.run Endpoint.step SocketAddr-discrete dec_lt dec_le ℕ_discrete
    Map.get Map.insert Map.remove same same_ip greets on_punch hear_punching hear_message hear_chat
    on_line on_event step run said texts is_text
program = tt

abbrev any : List ℕ → Bool
any text = true

abbrev at_a : SocketAddr
at_a = SocketAddr.v4 7 4

abbrev at_b : SocketAddr
at_b = SocketAddr.v4 8 5

abbrev line : List ℕ
line = 104 ∷ 105 ∷ []

abbrev part : ℕ → List ℕ → Packet
part seq payload = record { header = record { seq = seq; ack = 0 }; payload = some payload }

abbrev silent : Packet
silent = ack_packet 0

-- The first peer punches, hears the other, and its user types a line.
abbrev talk : List Event
talk = Event.punch ∷ Event.hear (part 1 hole_punch, at_b) ∷ Event.type_line line ∷ []

abbrev payloads : List (List ℕ)
payloads = hole_punch ∷ connected ∷ line ∷ []

talk-payloads : (talker any at_a at_b talk []).packet_tx ≡ payloads
unfolding program
talk-payloads = refl

-- Its endpoint, which is made to acknowledge before it sends all.
abbrev traffic : List Endpoint.Event
traffic =
    Endpoint.Event.sends 0 hole_punch
    ∷ Endpoint.Event.receives (serialize (part 1 hole_punch), at_b)
    ∷ Endpoint.Event.sends 1 connected
    ∷ Endpoint.Event.sends 2 line
    ∷ []

-- The parts in the wrong order.
abbrev arriving : List (List ℕ × SocketAddr)
arriving =
    (serialize (part 2 connected), at_a)
    ∷ (serialize silent, at_a)
    ∷ (serialize (part 1 hole_punch), at_a)
    ∷ (serialize (part 3 line), at_a)
    ∷ []

-- The other peer hears what its receiver hands on, while it punches and keeps alive.
abbrev listening : List Event
listening =
    Event.punch
    ∷ Event.hear (silent, at_a)
    ∷ Event.hear (part 1 hole_punch, at_a)
    ∷ Event.interval_tick
    ∷ Event.hear (part 2 connected, at_a)
    ∷ Event.hear (part 3 line, at_a)
    ∷ []

listening-prints : (listener any at_a at_b talk listening).printed ≡ line ∷ []
unfolding program
listening-prints = refl

chat_in_order_example :
    (rest : List (List ℕ)) × ((listener any at_a at_b talk listening).printed ++ rest
      ≡ texts any (said any at_b start talk))
    × ((listener any at_a at_b talk listening).stage ≡ Stage.chatting
        → length (talker any at_a at_b talk listening).packet_tx ≤ 3
        → rest ≡ [])
unfolding program
chat_in_order_example =
    chat_in_order any at_a at_b talk listening 3 refl (tt, (refl, (refl, (tt, (refl, (refl, tt))))))

chat_over_transport_example :
    (rest : List (List ℕ)) × ((listener any at_a at_b talk listening).printed ++ rest
      ≡ texts any (said any at_b start talk))
unfolding program
chat_over_transport_example =
    chat_over_transport any at_a at_b talk listening traffic [] arriving refl
      (omega arith, (omega arith, (omega arith, tt))) (omega arith)
      (
        λ _. inr (inr (inl refl)),
        (λ _. inr (inl refl), (λ _. inl refl, (λ _. inr (inr (inr (inl refl))), tt))),
      )
      refl

chat_begins_example : Begun (listener any at_a at_b talk listening)
unfolding program
chat_begins_example =
    chat_begins any at_a at_b talk listening 3 hole_punch (connected ∷ line ∷ []) refl refl
      (tt, (tt, (tt, (tt, (tt, (tt, tt))))))
