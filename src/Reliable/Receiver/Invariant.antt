-- ===== src/Reliable/Receiver/Invariant.antt =====
-- The invariant of the receiver, and that draining its buffer keeps it.
use mathlib.Core.List.{map-append}
use p2p_networking.Base.{
  ℕ_discrete, dec_lt, subst, ℕ, zero, suc, ◌+◌, ◌≤◌, ◌<◌, ◌≡◌, refl, sym, ap, ◌∙◌, ◌⊎◌, inl, inr,
  List, [], ◌∷◌, ◌++◌, map, none, some, length, All, All-append, range, arith, Option-cases,
  compare, Ordering,
}
use p2p_networking.Base.Map
use p2p_networking.Base.Map.{
  Map, nat_key, get-remove, get-insert, get-insert_self, get-insert_ne, get-remove_ne,
  length-remove-lt,
}
use p2p_networking.Base.Net.{SocketAddr}
use p2p_networking.Base.Word.{u32_mod, add32}
use p2p_networking.Reliable.{Packet, ReliableUdp}
use p2p_networking.Reliable.Receiver.{release, drain}

-- The sequence numbers of what was handed on.
abbrev pub numbers : List (Packet × SocketAddr) → List ℕ
numbers = map (λ o. o.0.header.seq)

-- The number `k` was handed on, or waits in the buffer.
abbrev pub Kept : ℕ → Map ℕ Packet → ℕ → Type 0
Kept n m k = (k < n) ⊎ ((p : Packet) × (Map.get k m ≡ some p))

-- `S k`: the number `k` has arrived. `P`: what every arriving packet satisfies. Buffered numbers
-- are at least `lo`.
pub record Tracks (S : ℕ → Type 0) (P : Packet → Type 0) (lo : ℕ) (r : ReliableUdp) : Type 0 where
  pub bound : r.state.expected_sequence < u32_mod
  pub ordered : numbers r.output_tx ≡ range r.state.expected_sequence
  pub genuine : All (λ o. P o.0) r.output_tx
  pub ahead :
      (k : ℕ) (p : Packet)
      → Map.get k r.state.recv_buffer ≡ some p
      → (lo ≤ k) × (p.header.seq ≡ k) × (k + 1 < u32_mod) × P p × S k
  pub below : (k : ℕ) → k < r.state.expected_sequence → S k
  pub kept : (k : ℕ) → S k → Kept r.state.expected_sequence r.state.recv_buffer k

pub order_cases :
    (a b : ℕ)
    → ((compare a b ≡ Ordering.lt) × (a < b))
      ⊎ (((compare a b ≡ Ordering.eq) × (a ≡ b)) ⊎ ((compare a b ≡ Ordering.gt) × (b < a)))
order_cases a b = ground arith

pub get-nil_of_length : (k : ℕ) (m : Map ℕ Packet) → length m ≤ 0 → Map.get k m ≡ none
unfolding Map.get
get-nil_of_length k [] h = refl
get-nil_of_length k (x ∷ m) h = absurd (omega arith)

pub remove-Kept :
    (next k : ℕ) (m : Map ℕ Packet) → Kept next m k → Kept (suc next) (Map.remove next m) k
remove-Kept next k m (inl h) = inl (omega arith)
remove-Kept next k m (inr (p, e)) = elim (ℕ_discrete next k) [
  | yes q ↦ inl (omega arith)
  | no q ↦ inr (p, get-remove_ne next k m q ∙ e)
]

pub insert-Kept :
    (n q k : ℕ) (p : Packet) (m : Map ℕ Packet) → Kept n m k ⊎ (k ≡ q) → Kept n (Map.insert q p m) k
insert-Kept n q k p m (inl (inl h)) = inl h
insert-Kept n q k p m (inl (inr (p', e))) = elim (ℕ_discrete q k) [
  | yes h ↦ inr (p, subst (λ j. Map.get j (Map.insert q p m) ≡ some p) h (get-insert_self q p m))
  | no h ↦ inr (p', get-insert_ne q k p m h ∙ e)
]
insert-Kept n q k p m (inr h) =
    inr (p, subst (λ j. Map.get j (Map.insert q p m) ≡ some p) (sym h) (get-insert_self q p m))

pub numbers-append :
    (out : List (Packet × SocketAddr)) (p : Packet) (addr : SocketAddr) (n : ℕ)
    → numbers out ≡ range n
    → p.header.seq ≡ n
    → numbers (out ++ (p, addr) ∷ []) ≡ range (suc n)
numbers-append out p addr n h e = simp map-append (cc)

module _ (S : ℕ → Type 0) (P : Packet → Type 0) (addr : SocketAddr) where
  pub release-Tracks :
      (next : ℕ) (p : Packet) (r : ReliableUdp)
      → Tracks S P next r
      → r.state.expected_sequence ≡ next
      → Map.get next r.state.recv_buffer ≡ some p
      → Tracks S P (suc next) (release addr next p r)
        × ((release addr next p r).state.expected_sequence ≡ suc next)
  unfolding release
  release-Tracks next p r t e found = (
    record {
      bound = ground (arith, t.ahead next p found);
      ordered = rw next' (
          numbers-append r.output_tx p addr next (t.ordered ∙ ap range e) (t.ahead next p found).1);
      genuine =
          All-append (λ o. P o.0) r.output_tx ((p, addr) ∷ []) t.genuine
            ((t.ahead next p found).3, tt);
      ahead = λ k q h. ground (arith, get-remove next k r.state.recv_buffer, t.ahead k q);
      below = λ k h. elim (dec_lt k next) [
        | yes q ↦ t.below k (omega arith)
        | no q ↦ subst S (omega arith) (t.ahead next p found).4
      ];
      kept = λ k s. rw next' (
          remove-Kept next k r.state.recv_buffer
            (subst (λ n. Kept n r.state.recv_buffer k) e (t.kept k s)));
    },
    next',
  )
    where
      next' : add32 r.state.expected_sequence 1 ≡ suc next
      next' = omega (arith, (t.ahead next p found).2)

  pub settle-Tracks :
      (next : ℕ) (r : ReliableUdp)
      → Tracks S P next r
      → r.state.expected_sequence ≡ next
      → Map.get next r.state.recv_buffer ≡ none
      → Tracks S P (suc r.state.expected_sequence) r
  settle-Tracks next r t e missing = record {
    bound = t.bound;
    ordered = t.ordered;
    genuine = t.genuine;
    ahead = λ k q h. ground (arith, t.ahead k q h);
    below = t.below;
    kept = t.kept;
  }

  pub length-release-lt :
      (next : ℕ) (p : Packet) (r : ReliableUdp)
      → Map.get next r.state.recv_buffer ≡ some p
      → length (release addr next p r).state.recv_buffer < length r.state.recv_buffer
  unfolding release
  length-release-lt next p r found = length-remove-lt next p r.state.recv_buffer found

  -- With fuel for the whole buffer the loop ends at a number that is not buffered.
  pub drain-Tracks :
      (fuel next : ℕ) (r : ReliableUdp)
      → Tracks S P next r
      → r.state.expected_sequence ≡ next
      → length r.state.recv_buffer ≤ fuel
      → Tracks S P (suc (drain fuel addr next r).state.expected_sequence) (drain fuel addr next r)
  unfolding drain
  drain-Tracks zero next r t e h =
      settle-Tracks next r t e (get-nil_of_length next r.state.recv_buffer h)
  drain-Tracks (suc fuel) next r t e h = elim (Option-cases (Map.get next r.state.recv_buffer)) [
    | inl missing ↦ rw (missing, drain) (settle-Tracks next r t e missing)
    | inr (p, found) ↦
        let (t', e') = release-Tracks next p r t e found in
        let next' : add32 next 1 ≡ suc next = omega (arith, (t.ahead next p found).2) in
        rw (found, drain, next')
          (drain-Tracks fuel (suc next) (release addr next p r) t' e'
            (omega (arith, length-release-lt next p r found)))
  ]
