-- ===== src/Turn/Router/Symmetric.antt =====
-- The shard that `shard_for` computes for the two addresses of a session.
use native.Mathlib.Nat.{mod-lt}
use p2p_networking.Base.{
  ℕ, ◌<◌, ◌%◌, ◌≡◌, sym, ◌∙◌, ap₂, some, Bool, true, false, Bool-cases, inl, inr, arith, length,
}
use p2p_networking.Base.Fifo.{Fifo}
use p2p_networking.Base.Net.{SocketAddr}
use p2p_networking.Turn.Router.{ShardRouter, shard_for}

module _ {F : Fifo} (hash : SocketAddr → SocketAddr → ℕ) (le : SocketAddr → SocketAddr → Bool)
    (r : ShardRouter F) (host peer : SocketAddr) (some_shard : 0 < length r.senders) where
  shard_for-le :
      le host peer ≡ true → shard_for hash le r host peer ≡ some (hash host peer % length r.senders)
  unfolding shard_for
  shard_for-le e = ground arith

  shard_for-gt :
      le host peer ≡ false
      → shard_for hash le r host peer ≡ some (hash peer host % length r.senders)
  unfolding shard_for
  shard_for-gt e = ground arith

-- Let the order be total and antisymmetric on the two addresses, and let there be a shard. Then `shard_for`
-- gives the index of a shard, and the same one whichever of the two addresses is named first.
pub shard_for-symmetric :
    (F : Fifo) (hash : SocketAddr → SocketAddr → ℕ) (le : SocketAddr → SocketAddr → Bool)
    (r : ShardRouter F) (host peer : SocketAddr)
    → (le host peer ≡ false → le peer host ≡ true)
    → (le host peer ≡ true → le peer host ≡ true → host ≡ peer)
    → 0 < length r.senders
    → (i : ℕ) × (shard_for hash le r host peer ≡ some i)
      × (shard_for hash le r peer host ≡ some i)
      × (i < length r.senders)
shard_for-symmetric F hash le r host peer total antisym h =
    let n = length r.senders in
    elim (Bool-cases (le host peer)) [
      | inl e ↦ elim (Bool-cases (le peer host)) [
        | inl e' ↦
            let same = antisym e e' in
            (
              hash host peer % n,
              shard_for-le hash le r host peer h e,
              shard_for-le hash le r peer host h e'
                  ∙ ap₂ (λ a b. some (hash a b % n)) (sym same) same,
              mod-lt (hash host peer) h,
            )
        | inr e' ↦ (
          hash host peer % n,
          shard_for-le hash le r host peer h e,
          shard_for-gt hash le r peer host h e',
          mod-lt (hash host peer) h,
        )
      ]
      | inr e ↦ (
        hash peer host % n,
        shard_for-gt hash le r host peer h e,
        shard_for-le hash le r peer host h (total e),
        mod-lt (hash peer host) h,
      )
    ]
