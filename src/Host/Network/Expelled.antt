-- ===== src/Host/Network/Expelled.antt =====
-- Who is expelled, through each message of a round.
use augusta.Common.{
  ℕ, ◌≡◌, sym, ap, ◌∙◌, inl, inr, true, is_some, Option, none, some, List, [], ◌∷◌, Vec3,
  Option-cases, Bool-cases, Expected, value, unexpected, lookup, arith,
}
use augusta.Host.Match.{
  Departure, not_joined, from_lobby, from_match, ended_match, join, leave, ready, session_of,
  is_playing, Admission, JoinRefusal, not_a_replay_server,
}
use augusta.Host.Misbehaviour.{
  PeerRejection, Verdict, keep, disconnect, stale_ready, join_refused, commands_before_joining,
  commands_outside_match, undecodable, not_a_client_message,
}
use augusta.Host.Commands.{SequencedCommand, try_enqueue}
use augusta.Host.PeerGate.{was_expelled, judge as gate_judge, expel as gate_expel, left, admitted}
use augusta.Host.Network.{
  Impl, does, replied_refusal, PeerMessage, ClientMessage, join_request, sequenced_commands,
  ready_for, replay_request, handle_message, take_message, settled, handle_said, handle_disconnect,
  leaves, departed, expel, judge, judged, seated, joins, handle_join_request, handle_ready,
  handle_commands, take_commands, refuse_as_no_replay_server,
}
use augusta.Host.Network.Seats.{send_roster-same}
use augusta.Host.Network.Messages.{refilled, judge-keep, take_commands-step}

-- Whoever was expelled before is expelled after.
abbrev pub Keeps : Impl → Impl → Type 0
Keeps h k = (p : ℕ) → was_expelled h.gate p ≡ true → was_expelled k.gate p ≡ true

departed-Keeps : (h : Impl) (d : Departure) → Keeps h (departed h d)
unfolding departed
departed-Keeps h not_joined p e = e
departed-Keeps h from_lobby p e = rw ((send_roster-same h).1) e
departed-Keeps h from_match p e = e
departed-Keeps h ended_match p e = e

leaves-Keeps : (h : Impl) (q : ℕ) (o : Option ℕ) → Keeps h (leaves h q o)
unfolding leaves
leaves-Keeps h q none p e = e
leaves-Keeps h q (some s) p e = departed-Keeps _ (leave h.lobby q).1 p e

handle_disconnect-Keeps : (h : Impl) (q : ℕ) → Keeps h (handle_disconnect h q)
unfolding handle_disconnect left
handle_disconnect-Keeps h q p e =
    leaves-Keeps (record h { gate = left h.gate q }) q (session_of h.lobby q) p e

expel-Keeps : (h : Impl) (q : ℕ) → Keeps h (expel h q)
unfolding expel gate_expel
expel-Keeps h q p e = handle_disconnect-Keeps _ q p (ground arith)

judged-Keeps : (h : Impl) (q : ℕ) (v : Verdict) → Keeps h (judged h q v).0
judged-Keeps h q keep p e = e
judged-Keeps h q disconnect p e = expel-Keeps h q p e

judge-Keeps : (h : Impl) (q : ℕ) (r : PeerRejection) (now : ℕ) → Keeps h (judge h q r now).0
unfolding judge gate_judge
judge-Keeps h q r now p e =
    judged-Keeps (record h { gate = (gate_judge h.gate q r now).0 }) q (gate_judge h.gate q r now).1
      p e

handle_ready-Keeps : (h : Impl) (q version now : ℕ) → Keeps h (handle_ready h q version now)
unfolding handle_ready
handle_ready-Keeps h q version now p e =
    ground
      (arith, judge-Keeps (record h { lobby = (ready h.lobby q version).0 }) q stale_ready now p e)

seated-Keeps : (h : Impl) (q : ℕ) (a : Admission) → Keeps h (seated h q a)
unfolding seated
seated-Keeps h q a p e = elim (Bool-cases (is_some (lookup a.session h.players))) [
  | inl known ↦ rw (known, seated) e
  | inr new ↦ rw (new, seated, (send_roster-same _).1) e
]

joins-Keeps :
    (h : Impl) (q now : ℕ) (answer : Expected Admission JoinRefusal)
    → Keeps h (joins h q now answer)
unfolding admitted joins
joins-Keeps h q now (unexpected why) p e = judge-Keeps _ q join_refused now p e
joins-Keeps h q now (value a) p e = seated-Keeps _ q a p e

some-injective : (h k : Impl) → some h ≡ some k → h ≡ k
some-injective h k e = ground arith

judged_result-Keeps :
    (h k : Impl) (q : ℕ) (r : PeerRejection) (now : ℕ)
    → some (judge h q r now).0 ≡ some k
    → Keeps h k
judged_result-Keeps h k q r now e p was = rw (some-injective _ k e) at (judge-Keeps h q r now p was)

module _ (ids : ℕ → ℕ) (vec_length : Vec3 → ℕ) where
  take_commands-Keeps :
      (h k : Impl) (q s : ℕ) (cs : List SequencedCommand) (now : ℕ)
      → take_commands ids vec_length h q s cs now ≡ some k
      → Keeps h k
  unfolding take_commands
  take_commands-Keeps h k q s [] now e p was = rw (some-injective h k e) at was
  take_commands-Keeps h k q s (c ∷ cs) now e p was = elim (Option-cases (lookup s h.players)) [
    | inl gone ↦ absurd (ground arith)
    | inr (pl, found) ↦
        let taken = refilled h s (try_enqueue vec_length pl.commands c).0 in
        elim (take_commands-step ids vec_length h q s c cs now pl found) [
          | inl go ↦ take_commands-Keeps taken k q s cs now (sym go ∙ e) p was
          | inr (r, inr stop) ↦ judged_result-Keeps taken k q r now (sym stop ∙ e) p was
          | inr (r, inl (keeps, go)) ↦
              let same = judge-keep taken q r now keeps in
              let kept = rw same at (judge-Keeps taken q r now p was) in
              take_commands-Keeps (record taken { gate = (gate_judge h.gate q r now).0 }) k q s cs
                now (ap (λ x. take_commands ids vec_length x q s cs now) (sym same) ∙ sym go ∙ e) p
                kept
        ]
  ]

  handle_commands-Keeps :
      (h k : Impl) (q : ℕ) (cs : List SequencedCommand) (now : ℕ)
      → handle_commands ids vec_length h q cs now ≡ some k
      → Keeps h k
  unfolding handle_commands
  handle_commands-Keeps h k q cs now e = elim (Option-cases (session_of h.lobby q)) [
    | inl absent ↦ judged_result-Keeps h k q commands_before_joining now (ground arith)
    | inr (s, at) ↦ elim (Bool-cases (is_playing h.lobby s)) [
      | inr idle ↦ judged_result-Keeps h k q commands_outside_match now (ground arith)
      | inl playing ↦ elim (Option-cases (lookup s h.players)) [
        | inl gone ↦ absurd (ground arith)
        | inr (pl, found) ↦ take_commands-Keeps h k q s cs now (ground arith)
      ]
    ]
  ]

  handle_said-Keeps :
      (h k : Impl) (q now : ℕ) (said : ClientMessage)
      → handle_said ids vec_length h q now said ≡ some k
      → Keeps h k
  unfolding handle_join_request refuse_as_no_replay_server
  handle_said-Keeps h k q now (join_request r) e p was = rw (some-injective _ k e) at (
      joins-Keeps (record h { lobby = (join ids h.lobby q r).0 }) q now (join ids h.lobby q r).1 p
        was)
  handle_said-Keeps h k q now (sequenced_commands cs) e p was =
      handle_commands-Keeps h k q cs now e p was
  handle_said-Keeps h k q now (ready_for version) e p was =
      rw (some-injective _ k e) at (handle_ready-Keeps h q version now p was)
  handle_said-Keeps h k q now replay_request e p was =
      judged_result-Keeps (does h (replied_refusal q not_a_replay_server)) k q join_refused now e p
        was

  take_message-Keeps :
      (h k : Impl) (m : PeerMessage) (now : ℕ)
      → take_message ids vec_length h m now ≡ some k
      → Keeps h k
  unfolding take_message
  take_message-Keeps h k m now e = elim (Bool-cases m.decodes) [
    | inr garbled ↦ judged_result-Keeps h k m.from undecodable now (ground arith)
    | inl sound ↦ elim (Option-cases m.message) [
      | inl foreign ↦ judged_result-Keeps h k m.from not_a_client_message now (ground arith)
      | inr (said, says) ↦ handle_said-Keeps h k m.from now said (ground arith)
    ]
  ]

  settled-taken : (o : Option Impl) (k : Impl) → settled o ≡ some k → o ≡ some k
  settled-taken none k e = cc
  settled-taken (some h) k e = ground arith

  pub handle_message-Keeps :
      (h k : Impl) (m : PeerMessage) (now : ℕ)
      → handle_message ids vec_length h m now ≡ some k
      → Keeps h k
  unfolding handle_message
  handle_message-Keeps h k m now e = take_message-Keeps h k m now (settled-taken _ k e)
