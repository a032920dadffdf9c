-- ===== src/Reliable/Wire.antt =====
-- `serialize` and `deserialize` of common/src/singleconnection.rs. A byte is a number below 256.
use p2p_networking.Base.{ℕ, ◌<◌, ◌≡◌, refl, List, [], ◌∷◌, ◌++◌, Option, none, some, length, arith}
use p2p_networking.Base.Word.{u32_mod, to_be_bytes, from_be_bytes, from_be_bytes-to_be_bytes}
use p2p_networking.Reliable.{Packet}

-- The bytes that the payload adds.
abbrev pub payload_bytes : Option (List ℕ) → List ℕ
payload_bytes none = []
payload_bytes (some payload) = payload

unfoldable pub serialize : Packet → List ℕ
serialize p = to_be_bytes p.header.seq ++ (to_be_bytes p.header.ack ++ payload_bytes p.payload)

-- `if buf.len() > 8 { Some(buf[8..].to_vec()) } else { None }`, of what follows the header.
unfoldable pub rest_payload : List ℕ → Option (List ℕ)
rest_payload [] = none
rest_payload (b ∷ bs) = some (b ∷ bs)

-- `none` is the error "Buffer too short".
unfoldable pub deserialize : List ℕ → Option Packet
unfolding rest_payload
deserialize (a ∷ b ∷ c ∷ d ∷ e ∷ f ∷ g ∷ h ∷ rest) = some (record {
  header = record { seq = from_be_bytes a b c d; ack = from_be_bytes e f g h };
  payload = rest_payload rest;
})
deserialize _ = none

-- Both numbers fit a `u32`.
pub record IsWire (p : Packet) : Type 0 where
  pub seq : p.header.seq < u32_mod
  pub ack : p.header.ack < u32_mod

-- What the receiver makes of an empty payload: no payload.
abbrev pub normal : Packet → Packet
normal p = record p { payload = rest_payload (payload_bytes p.payload) }

-- Every packet whose header fits is read back, but for an empty payload, which comes back as none.
pub deserialize-serialize : (p : Packet) → IsWire p → deserialize (serialize p) ≡ some (normal p)
unfolding deserialize serialize to_be_bytes
deserialize-serialize p w =
    let s = from_be_bytes-to_be_bytes p.header.seq w.seq in
    let a = from_be_bytes-to_be_bytes p.header.ack w.ack in cc

-- If only the sequence number fits, it and the payload come back.
pub deserialize-serialize_seq :
    (p : Packet)
    → p.header.seq < u32_mod
    → (q : Packet) × (deserialize (serialize p) ≡ some q)
      × (q.header.seq ≡ p.header.seq)
      × (q.payload ≡ rest_payload (payload_bytes p.payload))
unfolding deserialize serialize to_be_bytes
deserialize-serialize_seq p h = (_, refl, from_be_bytes-to_be_bytes p.header.seq h, refl)

-- Exactly the buffers of fewer than eight bytes are refused.
pub deserialize-none_iff :
    (bytes : List ℕ)
    → (deserialize bytes ≡ none → length bytes < 8) × (length bytes < 8 → deserialize bytes ≡ none)
unfolding deserialize
deserialize-none_iff (a ∷ b ∷ c ∷ d ∷ e ∷ f ∷ g ∷ h ∷ rest) = ((λ x. cc), λ x. absurd (omega arith))
deserialize-none_iff [] = ((λ x. omega arith), λ x. refl)
deserialize-none_iff _ = ((λ x. omega arith), λ x. refl)
