-- ===== src/Host/Pump/Ignored.antt =====
-- The messages of an expelled peer in a round.
use augusta.Common.{
  ℕ, ◌≡◌, refl, sym, ap, ◌∙◌, inl, inr, true, not, some, List, [], ◌∷◌, ◌==◌, ==_iff, keep_if, Vec3,
  Option-cases, Bool-cases, arith,
}
use augusta.Host.PeerGate.{was_expelled}
use augusta.Host.Network.{Impl, PeerMessage, handle_message}
use augusta.Host.Network.Expelled.{handle_message-Keeps}
use augusta.Host.Pump.{handle_messages}

-- The messages of all other peers.
abbrev pub without_peer : ℕ → List PeerMessage → List PeerMessage
without_peer p ms = keep_if (λ m. not (m.from == p)) ms

module _ (ids : ℕ → ℕ) (vec_length : Vec3 → ℕ) where
  handle_messages-heard :
      (h : Impl) (now : ℕ) (m : PeerMessage) (ms ns : List PeerMessage)
      → ((k : Impl)
          → handle_message ids vec_length h m now ≡ some k
          → handle_messages ids vec_length k now ms ≡ handle_messages ids vec_length k now ns)
      → handle_messages ids vec_length h now ms ≡ handle_messages ids vec_length h now ns
      → handle_messages ids vec_length h now (m ∷ ms)
        ≡ handle_messages ids vec_length h now (m ∷ ns)
  unfolding handle_messages
  handle_messages-heard h now m ms ns after here = elim (Bool-cases (was_expelled h.gate m.from)) [
    | inl out ↦ ground (arith, here)
    | inr in_round ↦ elim (Option-cases (handle_message ids vec_length h m now)) [
      | inl thrown ↦ ground arith
      | inr (k, done) ↦ ground (arith, after k done)
    ]
  ]

  -- Once a peer is expelled, the rest of the round's messages have the outcome that they would have
  -- without any of that peer's, whatever the others send.
  pub handle_messages-without_peer :
      (h : Impl) (now p : ℕ) (ms : List PeerMessage)
      → was_expelled h.gate p ≡ true
      → handle_messages ids vec_length h now ms
        ≡ handle_messages ids vec_length h now (without_peer p ms)
  unfolding handle_messages
  handle_messages-without_peer h now p [] e = refl
  handle_messages-without_peer h now p (m ∷ ms) e = elim (Bool-cases (m.from == p)) [
    | inl own ↦
        let same : m.from ≡ p = (==_iff m.from p).0 own in
        let out : was_expelled h.gate m.from ≡ true = rw same e in
        ground (arith, handle_messages-without_peer h now p ms e)
    | inr other ↦
        let kept : without_peer p (m ∷ ms) ≡ m ∷ without_peer p ms = ground arith in
        handle_messages-heard h now m ms (without_peer p ms)
          (λ k done.
            handle_messages-without_peer k now p ms
              (handle_message-Keeps ids vec_length h k m now done p e))
          (handle_messages-without_peer h now p ms e)
        ∙ ap (handle_messages ids vec_length h now) (sym kept)
  ]
