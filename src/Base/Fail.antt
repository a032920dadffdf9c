-- ===== src/Base/Fail.antt =====
-- Code that can panic: `none` is a panic, and a chain of such steps is a `do` block.
use mathlib.Core.Option.{Option, none, some}
use mathlib.Core.Path.{◌≡◌, ap, refl}

infixl 5 ◌>>=◌
abbrev pub ◌>>=◌ {ℓ κ} : {A : Type ℓ} {B : Type κ} → Option A → (A → Option B) → Option B
none >>= f = none
some a >>= f = f a

-- A chain whose first steps give `b` goes on with `b`.
pub bind_some {ℓ κ μ} :
    {A : Type ℓ} {B : Type κ} {C : Type μ} (x : Option A) (f : A → Option B) (g : B → Option C)
    {b : B}
    → (x >>= f) ≡ some b
    → (x >>= λ a. f a >>= g) ≡ g b
bind_some none f g h = cc
bind_some (some a) f g h = ap (λ y. y >>= g) h

-- A chain that does not panic: its first step gives something, from which it goes on.
pub >>=-eq-some {ℓ κ} :
    {A : Type ℓ} {B : Type κ} (x : Option A) (f : A → Option B) {b : B}
    → (x >>= f) ≡ some b
    → (a : A) × (x ≡ some a) × (f a ≡ some b)
>>=-eq-some none f h = absurd (cc)
>>=-eq-some (some a) f h = (a, refl, h)
