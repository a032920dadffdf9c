-- ===== src/Turn/Token.antt =====
-- The completion tokens of turn_server/src/lib.rs: an operation and a buffer index in a `u64`.
use Prim.Native.Nat.{bit_and, bit_or}
use p2p_networking.Base.{
  ℕ, ◌+◌, ◌*◌, ◌/◌, ◌%◌, ◌^◌, ◌<◌, ◌≤◌, zero, suc, ◌≡◌, refl, ◌∙◌, ap, arith, ap₂, ◌==◌,
  if◌then◌else◌,
}
use p2p_networking.Base.Bits.{bit_or_shl16, bit_and_mask16}
use p2p_networking.Base.Word.{u16_mod}

pub data OpType : Type 0 where
  recv send send_notif : OpType

unfoldable pub op_bits : OpType → ℕ
op_bits OpType.recv = 0
op_bits OpType.send = 1
op_bits OpType.send_notif = 2

-- `(op_bits << 16) | buf_idx as u64`: the shifted number is below 2 ^ 18 and does not wrap.
unfoldable pub encode_token : OpType → ℕ → ℕ
unfolding op_bits
encode_token op buf_idx = bit_or (op_bits op * 2 ^ 16) buf_idx

unfoldable pub decode_op : ℕ → OpType
decode_op n =
    if n == 0
    then OpType.recv
    else if n == 1
    then OpType.send
    else if n == 2
    then OpType.send_notif
    else OpType.send

unfoldable pub decode_token : ℕ → OpType × ℕ
unfolding decode_op
decode_token token = (decode_op (token / 2 ^ 16), bit_and token 0xFFFF % u16_mod)

decode_op-op_bits : (op : OpType) → decode_op (op_bits op) ≡ op
unfolding decode_op op_bits
decode_op-op_bits OpType.recv = refl
decode_op-op_bits OpType.send = refl
decode_op-op_bits OpType.send_notif = refl

token_parts :
    (token high low : ℕ)
    → token ≡ high * 2 ^ 16 + low
    → low < u16_mod
    → (token / 2 ^ 16 ≡ high) × (bit_and token 0xFFFF % u16_mod ≡ low)
token_parts token high low e h = (omega arith, omega (arith, bit_and_mask16 token))

-- Every operation and every `u16` index come back from their token.
pub decode_token-encode_token :
    (op : OpType) (buf_idx : ℕ)
    → buf_idx < u16_mod
    → decode_token (encode_token op buf_idx) ≡ (op, buf_idx)
unfolding decode_token encode_token
decode_token-encode_token op buf_idx h =
    let (high, low) =
      token_parts (encode_token op buf_idx) (op_bits op) buf_idx
        (bit_or_shl16 (op_bits op) buf_idx h) h in
    ap₂ (λ a b. (a, b)) (ap decode_op high ∙ decode_op-op_bits op) low

op_bits-decode_op : (n : ℕ) → n ≤ 2 → op_bits (decode_op n) ≡ n
unfolding op_bits decode_op
op_bits-decode_op zero h = refl
op_bits-decode_op (suc zero) h = refl
op_bits-decode_op (suc (suc zero)) h = refl
op_bits-decode_op (suc (suc (suc n))) h = absurd (omega arith)

op_bits-le : (op : OpType) → op_bits op ≤ 2
unfolding op_bits
op_bits-le OpType.recv = omega arith
op_bits-le OpType.send = omega arith
op_bits-le OpType.send_notif = omega arith

-- A number is the token of its decoding exactly if its operation number is one of the three.
pub encode_token-decode_token_iff :
    (token : ℕ)
    → let (op, buf_idx) = decode_token token in
      (token / 2 ^ 16 ≤ 2 → encode_token op buf_idx ≡ token)
      × (encode_token op buf_idx ≡ token → token / 2 ^ 16 ≤ 2)
unfolding decode_token encode_token
encode_token-decode_token_iff token =
    let low : bit_and token 0xFFFF % u16_mod ≡ token % u16_mod =
      omega (arith, bit_and_mask16 token) in
    let op = decode_op (token / 2 ^ 16) in
    let whole = bit_or_shl16 (op_bits op) (bit_and token 0xFFFF % u16_mod) (omega (arith, low)) in
    (
      λ h. omega (arith, whole, low, op_bits-decode_op (token / 2 ^ 16) h),
      λ e. omega (arith, whole, low, e, op_bits-le op),
    )
