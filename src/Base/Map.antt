-- ===== src/Base/Map.antt =====
-- `HashMap` and `DashMap` as association lists in which a key stands at most once.
use Prim.Native.Nat.{ℕ, ◌≤◌, ◌<◌}
use mathlib.Core.List.{List, [], ◌∷◌}
use mathlib.Core.Logic.{ite, ◌≢◌, ◌⊎◌, inl, inr}
use mathlib.Core.Option.{Option, none, some}
use mathlib.Core.Path.{◌≡◌, refl, sym, ap, ◌∙◌}
use native.Mathlib.Decide.{ℕ_discrete}
use native.Mathlib.Omega.{arith}
use p2p_networking.Base.Lists.{length}

-- A type of keys: `Eq` and `Hash` in the source.
pub record Key {ℓ} (K : Type ℓ) : Type ℓ where
  pub eq? : Discrete K

instance abbrev pub nat_key : Key ℕ
nat_key = record { eq? = ℕ_discrete }

abbrev pub Map {ℓ} : Type ℓ → Type ℓ → Type ℓ
Map K V = List (K × V)

some_eq {ℓ} : {A : Type ℓ} {a b : A} → some a ≡ some b → a ≡ b
some_eq h = cc

module _ {ℓ} {K V : Type ℓ} ⦃k : Key K⦄ where
  unfoldable pub get : K → Map K V → Option V
  get q [] = none
  get q ((j, v) ∷ m) = ite (k.eq? j q) (some v) (get q m)

  unfoldable pub remove : K → Map K V → Map K V
  remove q [] = []
  remove q ((j, v) ∷ m) = ite (k.eq? j q) (remove q m) ((j, v) ∷ remove q m)

  unfoldable pub insert : K → V → Map K V → Map K V
  insert q v [] = (q, v) ∷ []
  insert q v ((j, w) ∷ m) = ite (k.eq? j q) ((q, v) ∷ m) ((j, w) ∷ insert q v m)

  pub get-insert :
      (q j : K) (v : V) (m : Map K V) → get j (insert q v m) ≡ ite (k.eq? q j) (some v) (get j m)
  unfolding get insert
  get-insert q j v [] = refl
  get-insert q j v ((i, w) ∷ m) = ground (arith, get-insert q j v m)

  pub get-remove : (q j : K) (m : Map K V) → get j (remove q m) ≡ ite (k.eq? q j) none (get j m)
  unfolding get remove
  get-remove q j [] = ground arith
  get-remove q j ((i, w) ∷ m) = ground (arith, get-remove q j m)

  pub get-insert_self : (q : K) (v : V) (m : Map K V) → get q (insert q v m) ≡ some v
  get-insert_self q v m = ground (arith, get-insert q q v m)

  pub get-insert_ne : (q j : K) (v : V) (m : Map K V) → q ≢ j → get j (insert q v m) ≡ get j m
  get-insert_ne q j v m h = ground (arith, get-insert q j v m)

  pub get-remove_self : (q : K) (m : Map K V) → get q (remove q m) ≡ none
  get-remove_self q m = ground (arith, get-remove q q m)

  pub length-remove-le : (q : K) (m : Map K V) → length (remove q m) ≤ length m
  unfolding remove
  length-remove-le q [] = omega arith
  length-remove-le q ((j, w) ∷ m) = ground (arith, length-remove-le q m)

  pub length-remove-lt :
      (q : K) (v : V) (m : Map K V) → get q m ≡ some v → length (remove q m) < length m
  unfolding get remove
  length-remove-lt q v [] h = cc
  length-remove-lt q v ((j, w) ∷ m) h = ground (arith, length-remove-le q m, length-remove-lt q v m)

  pub get-remove_ne : (q j : K) (m : Map K V) → q ≢ j → get j (remove q m) ≡ get j m
  get-remove_ne q j m h = ground (arith, get-remove q j m)

  -- Where an entry comes from after an insertion.
  pub get-insert_cases :
      (q j : K) (v x : V) (m : Map K V)
      → get j (insert q v m) ≡ some x
      → ((q ≡ j) × (v ≡ x)) ⊎ ((q ≢ j) × (get j m ≡ some x))
  get-insert_cases q j v x m h = elim (k.eq? q j) [
    | yes e ↦
        inl (e, some_eq (sym (ap (λ a. get a (insert q v m)) (sym e) ∙ get-insert_self q v m) ∙ h))
    | no n ↦ inr (n, sym (get-insert_ne q j v m n) ∙ h)
  ]
