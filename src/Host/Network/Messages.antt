-- ===== src/Host/Network/Messages.antt =====
-- Members, their players and what is thrown, through each message.
use augusta.Common.{
  ℕ, suc, ◌<◌, ◌≡◌, refl, ap, ◌∙◌, ◌⊎◌, inl, inr, Option, none, some, List, [], ◌∷◌, lookup, modify,
  lookup-modify, Option-cases, Bool-cases, Vec3, false, Expected, value, unexpected, arith,
}
use augusta.Host.Match.{Match, JoinRequest, join, session_of, is_playing, not_a_replay_server}
use augusta.Host.Match.Entries.{join-IsMap}
use augusta.Host.Match.Queries.{NewMember, join-cases}
use augusta.Host.Commands.{SequencedCommand, CommandQueue, try_enqueue}
use augusta.Host.Misbehaviour.{
  Verdict, keep, disconnect, PeerRejection, join_refused, undecodable, not_a_client_message,
  commands_before_joining, commands_outside_match,
}
use augusta.Host.PeerGate.{judge as gate_judge}
use augusta.Host.Network.{
  Impl, Player, PeerMessage, ClientMessage, join_request, sequenced_commands, ready_for,
  replay_request, judge, judged, handle_join_request, take_commands, handle_commands,
  refuse_as_no_replay_server, handle_said, take_message, handle_message, settled, caught, joins,
  seated, does, replied_refusal, to_peer_rejection,
}
use augusta.Host.Network.Seats.{
  peer_of, Seated, Inv, Inv-other, send_roster-Inv, judge-Inv, handle_ready-Inv,
}

Expected-cases :
    {A E : Type 0} (x : Expected A E) → ((a : A) × (x ≡ value a)) ⊎ ((e : E) × (x ≡ unexpected e))
Expected-cases (value a) = inl (a, refl)
Expected-cases (unexpected e) = inr (e, refl)

Verdict-cases : (v : Verdict) → (v ≡ keep) ⊎ (v ≡ disconnect)
Verdict-cases keep = inl refl
Verdict-cases disconnect = inr refl

judged-keep : (h : Impl) (p : ℕ) (v : Verdict) → (judged h p v).1 ≡ keep → (judged h p v).0 ≡ h
judged-keep h p keep e = refl
judged-keep h p disconnect e = cc

pub judge-keep :
    (h : Impl) (p : ℕ) (r : PeerRejection) (now : ℕ)
    → (judge h p r now).1 ≡ keep
    → (judge h p r now).0 ≡ record h { gate = (gate_judge h.gate p r now).0 }
unfolding judge
judge-keep h p r now e =
    judged-keep (record h { gate = (gate_judge h.gate p r now).0 }) p (gate_judge h.gate p r now).1
      e

-- The queue of one player replaced.
abbrev pub refilled : Impl → ℕ → CommandQueue → Impl
refilled h s queue = record h { players = modify s (λ q. record q { commands = queue }) h.players }

refilled-Inv :
    (ids : ℕ → ℕ) (h : Impl) (s : ℕ) (queue : CommandQueue)
    → Inv ids h
    → Inv ids (refilled h s queue)
refilled-Inv ids h s queue v = record {
  seats = record {
    seat = λ q t e. ground (
      arith,
      lookup-modify s t (λ p. record p { commands = queue }) h.players,
      v.seats.seat q t e,
    );
    earlier = v.seats.earlier;
    unseated = λ t b. ground (
      arith,
      lookup-modify s t (λ p. record p { commands = queue }) h.players,
      v.seats.unseated t b,
    );
  };
  one_entry = v.one_entry;
  calm = v.calm;
}

seated-player : (o : Option Player) (p : ℕ) → peer_of o ≡ some p → (pl : Player) × (o ≡ some pl)
seated-player none p e = cc
seated-player (some pl) p e = (pl, refl)

pub caught-calm : (h : Impl) → h.thrown ≡ false → caught h ≡ some h
caught-calm h calm = rw calm refl

-- Handling that throws nothing and keeps the seats.
abbrev Handled : (ℕ → ℕ) → Option Impl → Type 0
Handled ids o = (after : Impl) × (o ≡ some after) × Inv ids after

module _ (ids : ℕ → ℕ) (vec_length : Vec3 → ℕ) where
  -- One command of the loop.
  pub take_commands-step :
      (h : Impl) (p s : ℕ) (c : SequencedCommand) (cs : List SequencedCommand) (now : ℕ)
      (pl : Player)
      → lookup s h.players ≡ some pl
      → let taken = refilled h s (try_enqueue vec_length pl.commands c).0 in
        (take_commands ids vec_length h p s (c ∷ cs) now
          ≡ take_commands ids vec_length taken p s cs now)
        ⊎ ((r : PeerRejection) × (((judge taken p r now).1 ≡ keep)
                × (take_commands ids vec_length h p s (c ∷ cs) now
                    ≡ take_commands ids vec_length (judge taken p r now).0 p s cs now)
              ⊎ (take_commands ids vec_length h p s (c ∷ cs) now ≡ some (judge taken p r now).0)))
  unfolding take_commands
  take_commands-step h p s c cs now pl found =
      let taken = refilled h s (try_enqueue vec_length pl.commands c).0 in
      elim (Expected-cases (try_enqueue vec_length pl.commands c).1) [
        | inl (how, ok) ↦ inl (ground arith)
        | inr (why, bad) ↦ inr (
          to_peer_rejection why,
          elim (Verdict-cases (judge taken p (to_peer_rejection why) now).1) [
            | inl kept ↦ inl (kept, ground arith)
            | inr gone ↦ inr (ground arith)
          ],
        )
      ]

  take_commands-Handled :
      (h : Impl) (p s : ℕ) (cs : List SequencedCommand) (now : ℕ)
      → session_of h.lobby p ≡ some s
      → Inv ids h
      → Handled ids (take_commands ids vec_length h p s cs now)
  unfolding take_commands
  take_commands-Handled h p s [] now e v = (h, refl, v)
  take_commands-Handled h p s (c ∷ cs) now e v =
      let (pl, found) = seated-player (lookup s h.players) p (v.seats.seat p s e) in
      let taken = refilled h s (try_enqueue vec_length pl.commands c).0 in
      let kept = refilled-Inv ids h s (try_enqueue vec_length pl.commands c).0 v in
      elim (take_commands-step h p s c cs now pl found) [
        | inl go ↦
            let (after, done, w) = take_commands-Handled taken p s cs now e kept in
            (after, go ∙ done, w)
        | inr (r, inr stop) ↦ ((judge taken p r now).0, stop, judge-Inv ids taken p r now kept)
        | inr (r, inl (keeps, go)) ↦
            let same = judge-keep taken p r now keeps in
            let counted = record taken { gate = (gate_judge h.gate p r now).0 } in
            let (after, done, w) =
              take_commands-Handled counted p s cs now e
                (Inv-other ids taken counted refl refl refl kept) in
            (after, go ∙ ap (λ k. take_commands ids vec_length k p s cs now) same ∙ done, w)
      ]

  handle_commands-Handled :
      (h : Impl) (p : ℕ) (cs : List SequencedCommand) (now : ℕ)
      → Inv ids h
      → Handled ids (handle_commands ids vec_length h p cs now)
  unfolding handle_commands
  handle_commands-Handled h p cs now v = elim (Option-cases (session_of h.lobby p)) [
    | inl absent ↦ (
      (judge h p commands_before_joining now).0,
      ground arith,
      judge-Inv ids h p commands_before_joining now v,
    )
    | inr (s, e) ↦ elim (Bool-cases (is_playing h.lobby s)) [
      | inr idle ↦ (
        (judge h p commands_outside_match now).0,
        ground arith,
        judge-Inv ids h p commands_outside_match now v,
      )
      | inl playing ↦
          let (pl, found) = seated-player (lookup s h.players) p (v.seats.seat p s e) in
          let (after, done, w) = take_commands-Handled h p s cs now e v in
          let goes : handle_commands ids vec_length h p cs now
              ≡ take_commands ids vec_length h p s cs now =
            ground arith in
          (after, goes ∙ done, w)
    ]
  ]

module _ (ids : ℕ → ℕ) (later : (n : ℕ) → ids n < ids (suc n)) (vec_length : Vec3 → ℕ) where
  newcomer-Inv :
      (h : Impl) (m : Match) (p s : ℕ) (pl : Player)
      → pl.peer ≡ p
      → NewMember ids h.lobby m p s
      → Seated (ids h.lobby.ids_taken) h.lobby h.players
      → Seated (ids m.ids_taken) m ((s, pl) ∷ h.players)
  unfolding lookup
  newcomer-Inv h m p s pl e n v = record {
    seat = λ q t k. ground (arith, n.sessions q, n.next_id, v.seat q t, v.earlier q t);
    earlier = λ q t k.
        rw n.taken
          (ground (arith, n.sessions q, n.next_id, v.earlier q t, later h.lobby.ids_taken));
    unseated =
        λ t b. ground (arith, n.next_id, later h.lobby.ids_taken, rw n.taken at b, v.unseated t);
  }

  handle_join_request-Inv :
      (h : Impl) (p : ℕ) (r : JoinRequest) (now : ℕ)
      → Inv ids h
      → Inv ids (handle_join_request ids vec_length h p r now)
  unfolding handle_join_request joins
  handle_join_request-Inv h p r now v = elim (join-cases ids h.lobby p r) [
    | inl (why, e, same) ↦
        let told = does h (replied_refusal p why) in
        rw (e, same) (judge-Inv ids told p join_refused now (Inv-other ids h told refl refl refl v))
    | inr (a, e, inl (same, session)) ↦
        let (pl, found) =
          seated-player (lookup a.session h.players) p (v.seats.seat p a.session session) in
        rw (e, same, found, seated) (Inv-other ids h _ refl refl refl v)
    | inr (a, e, inr n) ↦
        let absent : lookup a.session h.players ≡ none =
          v.seats.unseated a.session (omega (arith, n.next_id)) in
        rw (e, absent, seated)
          (send_roster-Inv ids _ (record {
            seats = newcomer-Inv h (join ids h.lobby p r).0 p a.session _ refl n v.seats;
            one_entry = join-IsMap ids h.lobby p r v.one_entry;
            calm = v.calm;
          }))
  ]

  handle_said-Handled :
      (h : Impl) (p now : ℕ) (said : ClientMessage)
      → Inv ids h
      → Handled ids (handle_said ids vec_length h p now said)
  unfolding refuse_as_no_replay_server
  handle_said-Handled h p now (join_request r) v = (_, refl, handle_join_request-Inv h p r now v)
  handle_said-Handled h p now (sequenced_commands cs) v =
      handle_commands-Handled ids vec_length h p cs now v
  handle_said-Handled h p now (ready_for version) v =
      (_, refl, handle_ready-Inv ids h p version now v)
  handle_said-Handled h p now replay_request v =
      let told = does h (replied_refusal p not_a_replay_server) in
      (_, refl, judge-Inv ids told p join_refused now (Inv-other ids h told refl refl refl v))

  take_message-Handled :
      (h : Impl) (m : PeerMessage) (now : ℕ)
      → Inv ids h
      → Handled ids (take_message ids vec_length h m now)
  unfolding take_message
  take_message-Handled h m now v = elim (Bool-cases m.decodes) [
    | inr garbled ↦
        ((judge h m.from undecodable now).0, ground arith, judge-Inv ids h m.from undecodable now v)
    | inl sound ↦ elim (Option-cases m.message) [
      | inl foreign ↦ (
        (judge h m.from not_a_client_message now).0,
        ground arith,
        judge-Inv ids h m.from not_a_client_message now v,
      )
      | inr (said, e) ↦
          let (after, done, w) = handle_said-Handled h m.from now said v in
          let goes : take_message ids vec_length h m now
              ≡ handle_said ids vec_length h m.from now said =
            ground arith in
          (after, goes ∙ done, w)
    ]
  ]

  pub handle_message-Handled :
      (h : Impl) (m : PeerMessage) (now : ℕ)
      → Inv ids h
      → (after : Impl) × (handle_message ids vec_length h m now ≡ some after) × Inv ids after
  unfolding handle_message
  handle_message-Handled h m now v =
      let (after, done, w) = take_message-Handled h m now v in
      (after, ap settled done ∙ caught-calm after w.calm, w)
