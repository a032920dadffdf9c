-- ===== src/Base/Fifo.antt =====
-- The queues of the crates heapless, tokio and io_uring, as the program relies on them: first in,
-- first out; a send may be refused, and then changes nothing.
use Prim.Native.Nat.{ℕ, zero, suc, ◌+◌, ◌≤◌, ◌<◌}
use mathlib.Core.List.{List, [], ◌∷◌, ◌++◌}
use mathlib.Core.Logic.{ite, inl, inr, if_pos}
use mathlib.Core.Option.{Option, none, some}
use mathlib.Core.Path.{◌≡◌, refl, sym, ap, ◌∙◌}
use native.Mathlib.Decide.{dec_lt}
use native.Mathlib.Omega.{arith}
use p2p_networking.Base.Lists.{length, length-append}
use p2p_networking.Base.Tests.{Option-cases}

pub record Fifo : Type 1 where
  pub Q : Type 0 → Type 0
  pub items : (A : Type 0) → Q A → List A
  pub enqueue : (A : Type 0) → A → Q A → Option (Q A)
  pub dequeue : (A : Type 0) → Q A → Option (A × Q A)
  pub items-enqueue :
      (A : Type 0) (a : A) (q q' : Q A) → enqueue A a q ≡ some q' → items A q' ≡ items A q ++ a ∷ []
  pub dequeue-none : (A : Type 0) (q : Q A) → dequeue A q ≡ none → items A q ≡ []
  pub dequeue-some :
      (A : Type 0) (q q' : Q A) (a : A) → dequeue A q ≡ some (a, q') → items A q ≡ a ∷ items A q'

-- There is room for `n` more items, whichever they are.
abbrev pub Room : (F : Fifo) (A : Type 0) → ℕ → F.Q A → Type 0
Room F A zero q = Unit {0}
Room F A (suc n) q = (a : A) → (q' : F.Q A) × (F.enqueue A a q ≡ some q') × Room F A n q'

-- What a queue is after an item was offered to it, and after several: a refused one is gone.
unfoldable pub offer : (F : Fifo) (A : Type 0) → A → F.Q A → F.Q A
offer F A a q = elim (F.enqueue A a q) [ none ↦ q | some q' ↦ q' ]

unfoldable pub offer_all : (F : Fifo) (A : Type 0) → List A → F.Q A → F.Q A
offer_all F A [] q = q
offer_all F A (a ∷ as') q = offer_all F A as' (offer F A a q)

pub offer_all-append :
    (F : Fifo) (A : Type 0) (xs ys : List A) (q : F.Q A)
    → offer_all F A (xs ++ ys) q ≡ offer_all F A ys (offer_all F A xs q)
unfolding offer_all
offer_all-append F A [] ys q = refl
offer_all-append F A (x ∷ xs) ys q = offer_all-append F A xs ys (offer F A x q)

-- A list with a bound meets the interface.
pub record Bounded (A : Type 0) : Type 0 where
  pub held : List A
  pub capacity : ℕ

abbrev pub bounded_enqueue : (A : Type 0) → A → Bounded A → Option (Bounded A)
bounded_enqueue A a q =
    ite (dec_lt (length q.held) q.capacity) (some (record q { held = q.held ++ a ∷ [] })) none

abbrev pub bounded_next : (A : Type 0) → List A → ℕ → Option (A × Bounded A)
bounded_next A [] n = none
bounded_next A (a ∷ as') n = some (a, record { held = as'; capacity = n })

pub bounded_items-enqueue :
    (A : Type 0) (a : A) (q q' : Bounded A)
    → bounded_enqueue A a q ≡ some q'
    → q'.held ≡ q.held ++ a ∷ []
bounded_items-enqueue A a q q' h = ground arith

pub bounded_next-none : (A : Type 0) (q : List A) (n : ℕ) → bounded_next A q n ≡ none → q ≡ []
bounded_next-none A [] n h = refl
bounded_next-none A (a ∷ q) n h = cc

pub bounded_next-some :
    (A : Type 0) (q : List A) (n : ℕ) (q' : Bounded A) (a : A)
    → bounded_next A q n ≡ some (a, q')
    → q ≡ a ∷ q'.held
bounded_next-some A [] n q' a h = cc
bounded_next-some A (b ∷ q) n q' a h = ground arith

abbrev pub bounded : Fifo
bounded = record {
  Q = Bounded;
  items = λ A q. q.held;
  enqueue = bounded_enqueue;
  dequeue = λ A q. bounded_next A q.held q.capacity;
  items-enqueue = bounded_items-enqueue;
  dequeue-none = λ A q. bounded_next-none A q.held q.capacity;
  dequeue-some = λ A q q' a. bounded_next-some A q.held q.capacity q' a;
}

-- The bounded list has room for what fits below its capacity.
pub Room-bounded :
    (A : Type 0) (n : ℕ) (q : Bounded A) → length q.held + n ≤ q.capacity → Room bounded A n q
Room-bounded A zero q h = tt
Room-bounded A (suc n) q h = λ a.
    let q' : Bounded A = record q { held = q.held ++ a ∷ [] } in
    let fits : length q.held < q.capacity = omega arith in
    (
      q',
      if_pos (dec_lt (length q.held) q.capacity) fits (some q') none,
      Room-bounded A n q' (omega (arith, length-append q.held (a ∷ []))),
    )

head_eq {ℓ} : {A : Type ℓ} {a b : A} {xs ys : List A} → a ∷ xs ≡ b ∷ ys → a ≡ b
head_eq h = cc

tail_eq {ℓ} : {A : Type ℓ} {a b : A} {xs ys : List A} → a ∷ xs ≡ b ∷ ys → xs ≡ ys
tail_eq h = cc

module _ (F : Fifo) (A : Type 0) where
  -- A queue that holds nothing gives nothing.
  pub dequeue_empty : (q : F.Q A) → F.items A q ≡ [] → F.dequeue A q ≡ none
  dequeue_empty q e = elim (Option-cases (F.dequeue A q)) [
    | inl h ↦ h
    | inr ((a, q'), h) ↦ let first = F.dequeue-some A q q' a h in cc
  ]

  -- A queue that holds something gives the oldest item.
  pub dequeue_first :
      (q : F.Q A) (a : A) (rest : List A)
      → F.items A q ≡ a ∷ rest
      → (q' : F.Q A) × (F.dequeue A q ≡ some (a, q')) × (F.items A q' ≡ rest)
  dequeue_first q a rest e = elim (Option-cases (F.dequeue A q)) [
    | inl h ↦ let empty = F.dequeue-none A q h in cc
    | inr ((b, q'), h) ↦
        let first = F.dequeue-some A q q' b h in
        (q', h ∙ ap (λ x. some (x, q')) (head_eq (sym first ∙ e)), tail_eq (sym first ∙ e))
  ]
