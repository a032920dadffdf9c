-- ===== src/Turn/Shard/Relayed.antt =====
-- What is added to the output of a shard.
use mathlib.Core.List.{Sublistᴰ}
use p2p_networking.Base.{
  ℕ, zero, suc, ◌≡◌, ◌≢◌, refl, sym, ◌∙◌, ap, List, [], ◌∷◌, ◌++◌, none, some, inl, inr, length,
  All, Option-cases, append_assoc, append-nil,
}
use p2p_networking.Base.Fifo.{Fifo, Room, offer, offer_all}
use p2p_networking.Base.Map
use p2p_networking.Base.Map.{Map, nat_key}
use p2p_networking.Base.Net.{socket_addr_key}
use p2p_networking.Turn.{Session, MessageType, SqeType}
use p2p_networking.Turn.Shard.{Shard, new, destination, try_send}
use p2p_networking.Turn.Shard.History.{
  History, partner, IsFresh, AreFresh, Stands, register, add_session-Stands,
}

-- The sends for a list of messages, where `older` are the sessions so far, newest first: each
-- packet goes to the partner of its source, under its own length and buffer.
unfoldable pub relay : List Session → List MessageType → List SqeType
relay older [] = []
relay older (MessageType.add_session x ∷ ms) = relay (x ∷ older) ms
relay older (MessageType.transmit p ∷ ms) = elim (partner older p.src) [
  | none ↦ relay older ms
  | some dst ↦ (dst, p.len, p.buf_idx) ∷ relay older ms
]

-- The ids are distinct and not in the history.
abbrev pub AreNew : List ℕ → History → Type 0
AreNew [] h = Unit {0}
AreNew (u ∷ us) h = IsFresh u h × All (λ v. u ≢ v) us × AreNew us h

pub AreNew-cons :
    (us : List ℕ) (u : ℕ) (x : Session) (h : History)
    → All (λ v. u ≢ v) us
    → AreNew us h
    → AreNew us ((u, x) ∷ h)
AreNew-cons [] u x h d n = tt
AreNew-cons (v ∷ us) u x h d n = ((d.0, n.0), n.1, AreNew-cons us u x h d.1 n.2)

pub none-some {ℓ} : {A : Type ℓ} {a : A} → none ≡ some a → ⊥
none-some h = cc

module _ (F : Fifo) where
  pub Stands-recv :
      (h : History) (s : Shard F) (q : F.Q MessageType)
      → Stands F h s
      → Stands F h (record s { recv = q })
  unfolding destination
  Stands-recv h s q t = record { ids = t.ids; dests = t.dests; known = t.known }

  pub Stands-tx_out :
      (h : History) (s : Shard F) (q : F.Q SqeType)
      → Stands F h s
      → Stands F h (record s { tx_out = q })
  unfolding destination
  Stands-tx_out h s q t = record { ids = t.ids; dests = t.dests; known = t.known }

  pub new-Stands :
      (id : ℕ) (recv : F.Q MessageType) (tx : F.Q SqeType) → Stands F [] (new F id recv tx)
  unfolding new destination partner Map.get
  new-Stands id recv tx = record {
    ids = λ j f. refl;
    dests = λ src. refl;
    known = λ src j e. absurd (cc);
  }

  pub register-Stands :
      (h : History) (id : ℕ) (recv : F.Q MessageType) (tx : F.Q SqeType)
      → AreFresh F h
      → Stands F h (register F h (new F id recv tx))
  unfolding register
  register-Stands [] id recv tx f = new-Stands id recv tx
  register-Stands ((j, x) ∷ h) id recv tx f =
      add_session-Stands F j x h (register F h (new F id recv tx)) f.0
        (register-Stands h id recv tx f.1)

  -- From the output queue `q` to `q'` the sends were offered, and those that were not refused were
  -- added, in order; all, if there is room.
  pub record Relayed (older : List Session) (ms : List MessageType) (q q' : F.Q SqeType)
      : Type 0 where
    pub offered : q' ≡ offer_all F SqeType (relay older ms) q
    pub out : List SqeType
    pub added : F.items SqeType q' ≡ F.items SqeType q ++ out
    pub part : Sublistᴰ out (relay older ms)
    pub all : Room F SqeType (length ms) q → out ≡ relay older ms

  pub Room-pred : (n : ℕ) (q : F.Q SqeType) → Room F SqeType (suc n) q → Room F SqeType n q
  Room-pred zero q r = tt
  Room-pred (suc n) q r = λ a. let (q', e, r') = r a in (q', e, Room-pred n q' r')

  pub Relayed-nil : (older : List Session) (q : F.Q SqeType) → Relayed older [] q q
  unfolding relay offer_all
  Relayed-nil older q = record {
    offered = refl;
    out = [];
    added = sym (append-nil (F.items SqeType q));
    part = Sublistᴰ.slnil;
    all = λ r. refl;
  }

  pub Relayed-skip :
      (older older' : List Session) (m : MessageType) (ms : List MessageType) (q q' : F.Q SqeType)
      → relay older (m ∷ ms) ≡ relay older' ms
      → Relayed older' ms q q'
      → Relayed older (m ∷ ms) q q'
  Relayed-skip older older' m ms q q' e r = record {
    offered = rw e r.offered;
    out = r.out;
    added = r.added;
    part = rw e r.part;
    all = λ room. r.all (Room-pred (length ms) q room) ∙ sym e;
  }

  pub Relayed-send :
      (older : List Session) (m : MessageType) (ms : List MessageType) (d : SqeType)
      (q q' : F.Q SqeType)
      → relay older (m ∷ ms) ≡ d ∷ relay older ms
      → Relayed older ms (try_send F d q) q'
      → Relayed older (m ∷ ms) q q'
  unfolding offer_all offer
  Relayed-send older m ms d q q' e r = elim (Option-cases (F.enqueue SqeType d q)) [
    | inl refused ↦
        let same : try_send F d q ≡ q = rw (refused, try_send) in
        record {
          offered = rw e r.offered;
          out = r.out;
          added = r.added ∙ ap (λ x. F.items SqeType x ++ r.out) same;
          part = rw e (Sublistᴰ.cons r.part);
          all = λ room. let (q1, sent, _) = room d in absurd (none-some (sym refused ∙ sent));
        }
    | inr (q1, sent) ↦
        let same : try_send F d q ≡ q1 = rw (sent, try_send) in
        record {
          offered = rw e r.offered;
          out = d ∷ r.out;
          added =
              r.added
              ∙ ap (λ x. F.items SqeType x ++ r.out) same
              ∙ ap (λ l. l ++ r.out) (F.items-enqueue SqeType d q q1 sent)
              ∙ append_assoc (F.items SqeType q) (d ∷ []) r.out;
          part = rw e (Sublistᴰ.cons-cons refl r.part);
          all = λ room.
              let (q2, sent', room') = room d in
              let again : try_send F d q ≡ q2 = rw (sent', try_send) in
              ap (◌∷◌ d) (r.all (rw again room')) ∙ sym e;
        }
  ]
