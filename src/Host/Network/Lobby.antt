-- ===== src/Host/Network/Lobby.antt =====
-- The Lobby through the network side's handlers, as Join, Leave and Ready change it.
use mathlib.Core.Path.{subst}
use augusta.Common.{
  ℕ, ◌≡◌, refl, sym, inl, inr, Option, none, some, List, [], ◌∷◌, lookup, is_some, Option-cases,
  Bool-cases, Vec3, erase, Expected, value, unexpected, arith,
}
use augusta.Host.Match.{
  Match, JoinRequest, Departure, not_joined, from_lobby, from_match, ended_match, join, leave,
  ready, session_of, is_playing, not_a_replay_server, Admission, JoinRefusal,
}
use augusta.Host.Commands.{SequencedCommand, try_enqueue}
use augusta.Host.Misbehaviour.{
  Verdict, keep, disconnect, PeerRejection, join_refused, undecodable, not_a_client_message,
  stale_ready, commands_before_joining, commands_outside_match,
}
use augusta.Host.PeerGate.{judge as gate_judge, expel as gate_expel, left, admitted}
use augusta.Host.Network.{
  Impl, PeerMessage, ClientMessage, join_request, sequenced_commands, ready_for, replay_request,
  handle_disconnect, leaves, departed, expel, judge, judged, handle_ready, does, disconnected,
  replied_refusal, replied_admission, handle_join_request, joins, seated, take_commands,
  handle_commands, refuse_as_no_replay_server, handle_said, handle_message, take_message, settled,
}
use augusta.Host.Network.Seats.{send_roster-same}
use augusta.Host.Network.Messages.{take_commands-step, refilled}

module _ {ℓ} (ids : ℕ → ℕ) (P : Match → Type ℓ)
    (on_join : (m : Match) (p : ℕ) (r : JoinRequest) → P m → P (join ids m p r).0)
    (on_leave : (m : Match) (p : ℕ) → P m → P (leave m p).0)
    (on_ready : (m : Match) (p v : ℕ) → P m → P (ready m p v).0) where
  departed-lobby : (h : Impl) (d : Departure) → (departed h d).lobby ≡ h.lobby
  unfolding departed
  departed-lobby h not_joined = refl
  departed-lobby h from_lobby = (send_roster-same h).0
  departed-lobby h from_match = refl
  departed-lobby h ended_match = refl

  leaves-keeps : (h : Impl) (p : ℕ) (o : Option ℕ) → P h.lobby → P (leaves h p o).lobby
  unfolding leaves
  leaves-keeps h p none v = v
  leaves-keeps h p (some s) v =
      rw
        (departed-lobby (record h { lobby = (leave h.lobby p).0; players = erase s h.players })
          (leave h.lobby p).1)
        (on_leave h.lobby p v)

  pub handle_disconnect-keeps : (h : Impl) (p : ℕ) → P h.lobby → P (handle_disconnect h p).lobby
  unfolding handle_disconnect
  handle_disconnect-keeps h p v =
      leaves-keeps (record h { gate = left h.gate p }) p (session_of h.lobby p) v

  pub expel-keeps : (h : Impl) (p : ℕ) → P h.lobby → P (expel h p).lobby
  unfolding expel
  expel-keeps h p v =
      handle_disconnect-keeps (does (record h { gate = gate_expel h.gate p }) (disconnected p)) p v

  judged-keeps : (h : Impl) (p : ℕ) (verdict : Verdict) → P h.lobby → P (judged h p verdict).0.lobby
  judged-keeps h p keep v = v
  judged-keeps h p disconnect v = expel-keeps h p v

  judge-keeps :
      (h : Impl) (p : ℕ) (r : PeerRejection) (now : ℕ) → P h.lobby → P (judge h p r now).0.lobby
  unfolding judge
  judge-keeps h p r now v =
      judged-keeps (record h { gate = (gate_judge h.gate p r now).0 }) p
        (gate_judge h.gate p r now).1 v

  handle_ready-keeps :
      (h : Impl) (p version now : ℕ) → P h.lobby → P (handle_ready h p version now).lobby
  unfolding handle_ready
  handle_ready-keeps h p version now v =
      let after = on_ready h.lobby p version v in
      elim (Bool-cases (ready h.lobby p version).1) [
        | inl taken ↦ rw taken after
        | inr not_taken ↦
            rw not_taken (
              judge-keeps (record h { lobby = (ready h.lobby p version).0 }) p stale_ready now
                after)
      ]

  seated-lobby : (h : Impl) (p : ℕ) (a : Admission) → (seated h p a).lobby ≡ h.lobby
  unfolding seated
  seated-lobby h p a = elim (Bool-cases (is_some (lookup a.session h.players))) [
    | inl known ↦ rw (known, seated) refl
    | inr new ↦ rw (new, seated) (send_roster-same _).0
  ]

  joins-keeps :
      (h : Impl) (p now : ℕ) (answer : Expected Admission JoinRefusal)
      → P h.lobby
      → P (joins h p now answer).lobby
  unfolding joins
  joins-keeps h p now (unexpected why) v =
      judge-keeps (does h (replied_refusal p why)) p join_refused now v
  joins-keeps h p now (value a) v =
      rw (seated-lobby (does (record h { gate = admitted h.gate p }) (replied_admission p a)) p a) v

  module _ (vec_length : Vec3 → ℕ) where
    -- An outcome without an exception keeps it.
    abbrev pub Keeps : Option Impl → Type ℓ
    Keeps none = Unit
    Keeps (some after) = P after.lobby

    handle_join_request-keeps :
        (h : Impl) (p : ℕ) (r : JoinRequest) (now : ℕ)
        → P h.lobby
        → P (handle_join_request ids vec_length h p r now).lobby
    unfolding handle_join_request
    handle_join_request-keeps h p r now v =
        joins-keeps (record h { lobby = (join ids h.lobby p r).0 }) p now (join ids h.lobby p r).1
          (on_join h.lobby p r v)

    take_commands-Keeps :
        (h : Impl) (p s : ℕ) (cs : List SequencedCommand) (now : ℕ)
        → P h.lobby
        → Keeps (take_commands ids vec_length h p s cs now)
    unfolding take_commands
    take_commands-Keeps h p s [] now v = v
    take_commands-Keeps h p s (c ∷ cs) now v = elim (Option-cases (lookup s h.players)) [
      | inl absent ↦
          let goes : take_commands ids vec_length h p s (c ∷ cs) now ≡ none = ground arith in
          subst Keeps (sym goes) tt
      | inr (pl, found) ↦
          let taken = refilled h s (try_enqueue vec_length pl.commands c).0 in
          elim (take_commands-step ids vec_length h p s c cs now pl found) [
            | inl go ↦ subst Keeps (sym go) (take_commands-Keeps taken p s cs now v)
            | inr (r, inr stop) ↦ subst Keeps (sym stop) (judge-keeps taken p r now v)
            | inr (r, inl (keeps, go)) ↦ subst Keeps (sym go) (
                take_commands-Keeps (judge taken p r now).0 p s cs now
                  (judge-keeps taken p r now v))
          ]
    ]

    handle_commands-Keeps :
        (h : Impl) (p : ℕ) (cs : List SequencedCommand) (now : ℕ)
        → P h.lobby
        → Keeps (handle_commands ids vec_length h p cs now)
    unfolding handle_commands
    handle_commands-Keeps h p cs now v = elim (Option-cases (session_of h.lobby p)) [
      | inl absent ↦
          let goes : handle_commands ids vec_length h p cs now
              ≡ some (judge h p commands_before_joining now).0 =
            ground arith in
          subst Keeps (sym goes) (judge-keeps h p commands_before_joining now v)
      | inr (s, e) ↦ elim (Bool-cases (is_playing h.lobby s)) [
        | inr idle ↦
            let goes : handle_commands ids vec_length h p cs now
                ≡ some (judge h p commands_outside_match now).0 =
              ground arith in
            subst Keeps (sym goes) (judge-keeps h p commands_outside_match now v)
        | inl playing ↦ elim (Option-cases (lookup s h.players)) [
          | inl absent ↦
              let goes : handle_commands ids vec_length h p cs now ≡ none = ground arith in
              subst Keeps (sym goes) tt
          | inr (pl, found) ↦
              let goes : handle_commands ids vec_length h p cs now
                  ≡ take_commands ids vec_length h p s cs now =
                ground arith in
              subst Keeps (sym goes) (take_commands-Keeps h p s cs now v)
        ]
      ]
    ]

    handle_said-Keeps :
        (h : Impl) (p now : ℕ) (said : ClientMessage)
        → P h.lobby
        → Keeps (handle_said ids vec_length h p now said)
    unfolding refuse_as_no_replay_server
    handle_said-Keeps h p now (join_request r) v = handle_join_request-keeps h p r now v
    handle_said-Keeps h p now (sequenced_commands cs) v = handle_commands-Keeps h p cs now v
    handle_said-Keeps h p now (ready_for version) v = handle_ready-keeps h p version now v
    handle_said-Keeps h p now replay_request v =
        judge-keeps (does h (replied_refusal p not_a_replay_server)) p join_refused now v

    take_message-Keeps :
        (h : Impl) (m : PeerMessage) (now : ℕ)
        → P h.lobby
        → Keeps (take_message ids vec_length h m now)
    unfolding take_message
    take_message-Keeps h m now v = elim (Bool-cases m.decodes) [
      | inr garbage ↦
          let goes : take_message ids vec_length h m now ≡ some (judge h m.from undecodable now).0 =
            ground arith in
          subst Keeps (sym goes) (judge-keeps h m.from undecodable now v)
      | inl decodes ↦ elim (Option-cases m.message) [
        | inl other ↦
            let goes : take_message ids vec_length h m now
                ≡ some (judge h m.from not_a_client_message now).0 =
              ground arith in
            subst Keeps (sym goes) (judge-keeps h m.from not_a_client_message now v)
        | inr (said, e) ↦
            let goes : take_message ids vec_length h m now
                ≡ handle_said ids vec_length h m.from now said =
              ground arith in
            subst Keeps (sym goes) (handle_said-Keeps h m.from now said v)
      ]
    ]

    pub settled-Keeps : (o : Option Impl) → Keeps o → Keeps (settled o)
    settled-Keeps none v = tt
    settled-Keeps (some h) v = elim (Bool-cases h.thrown) [
      | inl threw ↦ rw threw tt
      | inr calm ↦ rw calm v
    ]

    pub handle_message-Keeps :
        (h : Impl) (m : PeerMessage) (now : ℕ)
        → P h.lobby
        → Keeps (handle_message ids vec_length h m now)
    unfolding handle_message
    handle_message-Keeps h m now v =
        settled-Keeps (take_message ids vec_length h m now) (take_message-Keeps h m now v)
