-- ===== src/Base/Tally.antt =====
-- The sum of weights over a list, which tells how often something stands in it.
use p2p_networking.Base.{
  ℕ, zero, suc, ◌+◌, ◌≡◌, refl, some, List, [], ◌∷◌, ◌++◌, arith, get_elem?, set,
}

-- The sum of the weights.
unfoldable pub tally {ℓ} : {A : Type ℓ} → (A → ℕ) → List A → ℕ
tally weight [] = 0
tally weight (x ∷ xs) = weight x + tally weight xs

module _ {ℓ} {A : Type ℓ} (weight : A → ℕ) where
  pub tally-nil : tally weight [] ≡ 0
  unfolding tally
  tally-nil = refl

  pub tally-cons : (x : A) (xs : List A) → tally weight (x ∷ xs) ≡ weight x + tally weight xs
  unfolding tally
  tally-cons x xs = refl

  pub tally-append : (xs ys : List A) → tally weight (xs ++ ys) ≡ tally weight xs + tally weight ys
  unfolding tally
  tally-append [] ys = omega arith
  tally-append (x ∷ xs) ys = omega (arith, tally-append xs ys)

  pub tally-set :
      (xs : List A) (k : ℕ) (x y : A)
      → get_elem? xs k ≡ some x
      → tally weight (set xs k y) + weight x ≡ tally weight xs + weight y
  unfolding tally
  tally-set [] k x y h = cc
  tally-set (z ∷ xs) zero x y h = let same : z ≡ x = cc in rw same (omega arith)
  tally-set (z ∷ xs) (suc k) x y h = omega (arith, tally-set xs k x y h)
