-- ===== src/FirstImpl/Ring/Started.antt =====
-- The shards that `main` of the first version starts.
use p2p_networking.Base.{
  ℕ, ◌≤◌, ◌≡◌, refl, ◌∙◌, ap, List, [], ◌∷◌, ◌++◌, some, Bool-cases, inl, inr, ◌==◌, if◌then◌else◌,
  length, map,
}
use p2p_networking.Base.Fifo.{Fifo, Room}
use p2p_networking.Turn.{Session, SqeType}
use p2p_networking.Turn.Shard.Relayed.{relay}
use p2p_networking.FirstImpl.{Packet, Shard, new, run}
use p2p_networking.FirstImpl.Same.{
  as_message, add_sessions, add_sessions-destination, add_sessions-recv, add_sessions-tx_out,
  run_sends,
}
use p2p_networking.FirstImpl.Ring.{fixed_session, spawned}

-- The sessions of a shard that is started.
abbrev pub sessions_at : ℕ → List Session
sessions_at id = if id == 0 then fixed_session ∷ [] else []

module _ (F : Fifo) where
  spawned_sessions :
      (id : ℕ) (recv : F.Q Packet) (tx : F.Q SqeType)
      → spawned F id recv tx ≡ add_sessions F (sessions_at id) (new F id recv tx)
  unfolding spawned add_sessions
  spawned_sessions id recv tx = elim (Bool-cases (id == 0)) [
    | inl e ↦ rw (e, spawned) refl
    | inr e ↦ rw (e, spawned) refl
  ]

  -- A shard that main starts, with room in the output for as many sends as its channel has packets,
  -- relays all of these packets, in as many rounds or more. The first shard relays them between the
  -- two ports of its fixed session; any other one drops them.
  pub started_relays :
      (n id : ℕ) (recv : F.Q Packet) (tx : F.Q SqeType)
      → length (F.items Packet recv) ≤ n
      → Room F SqeType (length (F.items Packet recv)) tx
      → (s : Shard F) × (run F n (spawned F id recv tx) ≡ some s)
        × (F.items SqeType s.tx_out
            ≡ F.items SqeType tx ++ relay (sessions_at id) (map as_message (F.items Packet recv)))
        × (F.items Packet s.recv ≡ [])
  unfolding new
  started_relays n id recv tx enough room =
      let s0 : Shard F = add_sessions F (sessions_at id) (new F id recv tx) in
      let queue : s0.recv ≡ recv = add_sessions-recv F (sessions_at id) (new F id recv tx) in
      let output : s0.tx_out ≡ tx = add_sessions-tx_out F (sessions_at id) (new F id recv tx) in
      let (s, ran, out, done) =
        run_sends F n (sessions_at id) (F.items Packet recv) s0
          (add_sessions-destination F (sessions_at id) id recv tx) (ap (F.items Packet) queue)
          enough (rw output room) in
      (
        s,
        rw (spawned_sessions id recv tx) ran,
        out
            ∙ ap
                (λ q.
                  F.items SqeType q
                  ++ relay (sessions_at id) (map as_message (F.items Packet recv)))
                output,
        done,
      )
