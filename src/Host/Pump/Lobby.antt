-- ===== src/Host/Pump/Lobby.antt =====
-- The Lobby through a round of network work.
use mathlib.Core.Path.{subst}
use augusta.Common.{
  ℕ, ◌≡◌, sym, inl, inr, Option, none, some, List, [], ◌∷◌, Option-cases, Bool-cases, Vec3,
  Expected, value, unexpected, arith,
}
use augusta.Failure.{Failure}
use augusta.Failure.Latch.{FailureLatch, record_failure}
use augusta.Host.Match.{Match, JoinRequest, join, leave, ready}
use augusta.Host.PeerGate.{was_expelled, take_overdue}
use augusta.Host.Network.{Impl, PeerMessage, expel, handle_message, caught}
use augusta.Host.Network.Lobby.{
  Keeps, handle_disconnect-keeps, expel-keeps, handle_message-Keeps, settled-Keeps,
}
use augusta.Host.Pump.{
  PeerEvent, connect_requested, connected, disconnected, handle_event, handle_events, expel_all,
  finish_round, handle_messages, with_latch, finished, heard, pump_network,
}

module _ {ℓ} (ids : ℕ → ℕ) (P : Match → Type ℓ)
    (on_join : (m : Match) (p : ℕ) (r : JoinRequest) → P m → P (join ids m p r).0)
    (on_leave : (m : Match) (p : ℕ) → P m → P (leave m p).0)
    (on_ready : (m : Match) (p v : ℕ) → P m → P (ready m p v).0) (vec_length : Vec3 → ℕ) where
  handle_events-keeps :
      (h : Impl) (now : ℕ) (es : List PeerEvent) → P h.lobby → P (handle_events h now es).lobby
  handle_events-keeps h now [] v = v
  handle_events-keeps h now (connect_requested p ∷ es) v =
      handle_events-keeps (handle_event h now (connect_requested p)) now es v
  handle_events-keeps h now (connected p ∷ es) v = handle_events-keeps h now es v
  handle_events-keeps h now (disconnected p ∷ es) v =
      handle_events-keeps (handle_event h now (disconnected p)) now es
        (handle_disconnect-keeps ids P on_join on_leave on_ready h p v)

  expel_all-keeps : (h : Impl) (ps : List ℕ) → P h.lobby → P (expel_all h ps).lobby
  expel_all-keeps h [] v = v
  expel_all-keeps h (p ∷ ps) v =
      expel_all-keeps (expel h p) ps (expel-keeps ids P on_join on_leave on_ready h p v)

  finish_round-keeps : (h : Impl) (now : ℕ) → P h.lobby → P (finish_round h now).lobby
  unfolding finish_round
  finish_round-keeps h now v =
      expel_all-keeps (record h { gate = (take_overdue h.gate now).0 }) (take_overdue h.gate now).1
        v

  abbrev Kept : Option Impl → Type ℓ
  Kept o = Keeps ids P on_join on_leave on_ready vec_length o

  handle_messages-keeps :
      (h : Impl) (now : ℕ) (ms : List PeerMessage)
      → P h.lobby
      → Kept (handle_messages ids vec_length h now ms)
  unfolding handle_messages
  handle_messages-keeps h now [] v = v
  handle_messages-keeps h now (m ∷ ms) v = elim (Bool-cases (was_expelled h.gate m.from)) [
    | inl out ↦
        let goes : handle_messages ids vec_length h now (m ∷ ms)
            ≡ handle_messages ids vec_length h now ms =
          ground arith in
        subst Kept (sym goes) (handle_messages-keeps h now ms v)
    | inr in_round ↦
        let one = handle_message-Keeps ids P on_join on_leave on_ready vec_length h m now v in
        elim (Option-cases (handle_message ids vec_length h m now)) [
          | inl thrown ↦
              let goes : handle_messages ids vec_length h now (m ∷ ms) ≡ none = ground arith in
              subst Kept (sym goes) tt
          | inr (after, done) ↦
              let goes : handle_messages ids vec_length h now (m ∷ ms)
                  ≡ handle_messages ids vec_length after now ms =
                ground arith in
              subst Kept (sym goes) (handle_messages-keeps after now ms (subst Kept done one))
        ]
  ]

  abbrev KeptOut : Option (Impl × FailureLatch) → Type ℓ
  KeptOut none = Unit
  KeptOut (some r) = P r.0.lobby

  with_latch-keeps :
      (latch : FailureLatch) (o : Option Impl)
      → Kept o
      → KeptOut (with_latch ids vec_length latch o)
  with_latch-keeps latch none v = tt
  with_latch-keeps latch (some h) v = v

  finished-keeps :
      (now : ℕ) (latch : FailureLatch) (o : Option Impl)
      → Kept o
      → KeptOut (finished ids vec_length now latch o)
  finished-keeps now latch none v = tt
  finished-keeps now latch (some h) v = with_latch-keeps latch (caught (finish_round h now)) (
      settled-Keeps ids P on_join on_leave on_ready vec_length (some (finish_round h now))
        (finish_round-keeps h now v))

  heard-keeps :
      (now : ℕ) (latch : FailureLatch) (ms : List PeerMessage) (o : Option Impl)
      → Kept o
      → KeptOut (heard ids vec_length now latch ms o)
  heard-keeps now latch ms none v = tt
  heard-keeps now latch ms (some h) v =
      finished-keeps now latch (handle_messages ids vec_length h now ms)
        (handle_messages-keeps h now ms v)

  caught_events-keeps :
      (h : Impl) (now : ℕ) (es : List PeerEvent)
      → P h.lobby
      → Kept (caught (handle_events h now es))
  caught_events-keeps h now es v =
      settled-Keeps ids P on_join on_leave on_ready vec_length (some (handle_events h now es))
        (handle_events-keeps h now es v)

  -- What Join, Leave and Ready each keep of the Lobby, a round of network work keeps.
  pub pump_network-keeps :
      (h : Impl) (latch : FailureLatch) (now : ℕ) (events : List PeerEvent)
      (received : Expected (List PeerMessage) Failure) (after : Impl) (l : FailureLatch)
      → pump_network ids vec_length h latch now events received ≡ some (after, l)
      → P h.lobby
      → P after.lobby
  unfolding pump_network
  pump_network-keeps h latch now events (unexpected f) after l e v = subst KeptOut e (
      with_latch-keeps (record_failure latch f) (caught (handle_events h now events))
        (caught_events-keeps h now events v))
  pump_network-keeps h latch now events (value ms) after l e v = subst KeptOut e (
      heard-keeps now latch ms (caught (handle_events h now events))
        (caught_events-keeps h now events v))
