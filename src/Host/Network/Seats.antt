-- ===== src/Host/Network/Seats.antt =====
-- Members and their players, and what a departure, a judgement and the Roster's sending leave of them.
use mathlib.Core.Path.{subst}
use mathlib.Core.Bool.{false≢true}
use augusta.Common.{
  ℕ, ◌≤◌, ◌<◌, ◌≡◌, refl, sym, ◌∙◌, inl, inr, Option, none, some, List, lookup, erase, lookup-erase,
  Bool-cases, Option-cases, All, IsMap, is_some, true, false, map, [], ◌∷◌, ==_refl, arith,
}
use augusta.Host.Match.{
  Member, get_roster, Match, Departure, leave, ready, session_of, not_joined, from_lobby,
  from_match, ended_match,
}
use augusta.Host.Match.Queries.{
  session_of-leave, ids_taken-leave, session_of-ready, ids_taken-ready,
}
use augusta.Host.Match.Entries.{leave-IsMap, ready-IsMap}
use augusta.Host.Match.Members.{roster-All}
use augusta.Host.Misbehaviour.{Verdict, keep, disconnect, PeerRejection, stale_ready}
use augusta.Host.PeerGate.{judge as gate_judge, expel as gate_expel, left}
use augusta.Host.Network.{
  Impl, Player, handle_disconnect, leaves, departed, expel, judge, judged, handle_ready, does,
  disconnected, peers_at, send_roster, sent_roster,
}

abbrev pub peer_of : Option Player → Option ℕ
peer_of none = none
peer_of (some p) = some p.peer

-- What a Lobby and a map of players have in common, given the next Session ID.
pub record Seated (next : ℕ) (m : Match) (players : List (ℕ × Player)) : Type 0 where
  pub seat : (p s : ℕ) → session_of m p ≡ some s → peer_of (lookup s players) ≡ some p
  pub earlier : (p s : ℕ) → session_of m p ≡ some s → s < next
  pub unseated : (s : ℕ) → next ≤ s → lookup s players ≡ none

Seated-leave :
    (next : ℕ) (m : Match) (players : List (ℕ × Player)) (p s : ℕ)
    → session_of m p ≡ some s
    → Seated next m players
    → Seated next (leave m p).0 (erase s players)
Seated-leave next m players p s e v = record {
  seat = λ q t h.
      ground (arith, session_of-leave m p q, lookup-erase s t players, v.seat q t, v.seat p s e);
  earlier = λ q t h. ground (arith, session_of-leave m p q, v.earlier q t);
  unseated = λ t h. ground (arith, lookup-erase s t players, v.unseated t h);
}

-- A session has a player.
abbrev pub HasPlayer : List (ℕ × Player) → ℕ → Type 0
HasPlayer players s = is_some (lookup s players) ≡ true

pub some_of {ℓ} : {A : Type ℓ} (o : Option A) → is_some o ≡ true → (a : A) × (o ≡ some a)
some_of none h = absurd (false≢true h)
some_of (some a) h = (a, refl)

pub peers_at-total :
    (players : List (ℕ × Player)) (ss : List ℕ)
    → All (HasPlayer players) ss
    → (peers : List ℕ) × (peers_at players ss ≡ some peers)
unfolding peers_at
peers_at-total players [] h = ([], refl)
peers_at-total players (s ∷ ss) h =
    let (peers, e) = peers_at-total players ss h.1 in
    let (p, found) = some_of (lookup s players) h.0 in (p.peer ∷ peers, ground (arith, found, e))

members_seated :
    (players : List (ℕ × Player)) (es : List (ℕ × Member))
    → IsMap es
    → ((p : ℕ) (e : Member) → lookup p es ≡ some e → peer_of (lookup e.session players) ≡ some p)
    → All (λ e. HasPlayer players e.1.session) es
unfolding lookup
members_seated players [] u f = tt
members_seated players ((p, e) ∷ es) u f = (
  ground (arith, f p e, ==_refl p),
  members_seated players es u.1 (λ q x found. f q x (ground (arith, u.0, found))),
)

pub Seated-All :
    (next : ℕ) (m : Match) (players : List (ℕ × Player))
    → Seated next m players
    → IsMap m.members
    → All (λ e. HasPlayer players e.1.session) m.members
unfolding session_of
Seated-All next m players v one =
    members_seated players m.members one
      (λ p e found. v.seat p e.session (rw (found, session_of) refl))

-- Sending the Roster finds every session that it lists.
send_roster-sent :
    (next : ℕ) (h : Impl)
    → Seated next h.lobby h.players
    → IsMap h.lobby.members
    → (peers : List ℕ) × (send_roster h ≡ does h (sent_roster peers (get_roster h.lobby)))
unfolding send_roster
send_roster-sent next h v one =
    let (peers, e) =
      peers_at-total h.players (map (λ e. e.session) (get_roster h.lobby).players)
        (roster-All (HasPlayer h.players) h.lobby (Seated-All next h.lobby h.players v one)) in
    (peers, ground (arith, e))

pub send_roster-same :
    (h : Impl) → ((send_roster h).lobby ≡ h.lobby) × ((send_roster h).gate ≡ h.gate)
unfolding send_roster
send_roster-same h =
    ground
      (arith, Option-cases (peers_at h.players (map (λ e. e.session) (get_roster h.lobby).players)))

-- The server's own: its Match's next Session ID bounds the seats, each peer has one entry, and
-- nothing has thrown.
pub record Inv (ids : ℕ → ℕ) (h : Impl) : Type 0 where
  pub seats : Seated (ids h.lobby.ids_taken) h.lobby h.players
  pub one_entry : IsMap h.lobby.members
  pub calm : h.thrown ≡ false

pub send_roster-Inv : (ids : ℕ → ℕ) (h : Impl) → Inv ids h → Inv ids (send_roster h)
send_roster-Inv ids h v =
    let (peers, e) = send_roster-sent (ids h.lobby.ids_taken) h v.seats v.one_entry in
    subst (Inv ids) (sym e) (record { seats = v.seats; one_entry = v.one_entry; calm = v.calm })

departed-Inv : (ids : ℕ → ℕ) (h : Impl) (d : Departure) → Inv ids h → Inv ids (departed h d)
unfolding departed
departed-Inv ids h not_joined v = v
departed-Inv ids h from_lobby v = send_roster-Inv ids h v
departed-Inv ids h from_match v = v
departed-Inv ids h ended_match v = record {
  seats = v.seats;
  one_entry = v.one_entry;
  calm = v.calm;
}

-- The same Lobby, players and throws: only the gate and what was sent differ.
pub Inv-other :
    (ids : ℕ → ℕ) (h k : Impl)
    → k.lobby ≡ h.lobby
    → k.players ≡ h.players
    → k.thrown ≡ h.thrown
    → Inv ids h
    → Inv ids k
Inv-other ids h k l p t v = record {
  seats = rw (l, p) v.seats;
  one_entry = rw l v.one_entry;
  calm = t ∙ v.calm;
}

module _ (ids : ℕ → ℕ) where
  leaves-Inv :
      (h : Impl) (p : ℕ) (o : Option ℕ)
      → session_of h.lobby p ≡ o
      → Inv ids h
      → Inv ids (leaves h p o)
  unfolding leaves
  leaves-Inv h p none e v = v
  leaves-Inv h p (some s) e v =
      let gone = Seated-leave (ids h.lobby.ids_taken) h.lobby h.players p s e v.seats in
      departed-Inv ids (record h { lobby = (leave h.lobby p).0; players = erase s h.players })
        (leave h.lobby p).1
        (record {
          seats =
              subst (λ n. Seated (ids n) (leave h.lobby p).0 (erase s h.players))
                (sym (ids_taken-leave h.lobby p)) gone;
          one_entry = leave-IsMap h.lobby p v.one_entry;
          calm = v.calm;
        })

  pub handle_disconnect-Inv : (h : Impl) (p : ℕ) → Inv ids h → Inv ids (handle_disconnect h p)
  unfolding handle_disconnect
  handle_disconnect-Inv h p v =
      leaves-Inv (record h { gate = left h.gate p }) p (session_of h.lobby p) refl
        (Inv-other ids h (record h { gate = left h.gate p }) refl refl refl v)

  pub expel-Inv : (h : Impl) (p : ℕ) → Inv ids h → Inv ids (expel h p)
  unfolding expel
  expel-Inv h p v =
      let told = does (record h { gate = gate_expel h.gate p }) (disconnected p) in
      handle_disconnect-Inv told p (Inv-other ids h told refl refl refl v)

  judged-Inv : (h : Impl) (p : ℕ) (verdict : Verdict) → Inv ids h → Inv ids (judged h p verdict).0
  judged-Inv h p keep v = v
  judged-Inv h p disconnect v = expel-Inv h p v

  pub judge-Inv :
      (h : Impl) (p : ℕ) (r : PeerRejection) (now : ℕ) → Inv ids h → Inv ids (judge h p r now).0
  unfolding judge
  judge-Inv h p r now v =
      let counted = record h { gate = (gate_judge h.gate p r now).0 } in
      judged-Inv counted p (gate_judge h.gate p r now).1 (Inv-other ids h counted refl refl refl v)

  pub handle_ready-Inv :
      (h : Impl) (p version now : ℕ) → Inv ids h → Inv ids (handle_ready h p version now)
  unfolding handle_ready
  handle_ready-Inv h p version now v =
      let after : Inv ids (record h { lobby = (ready h.lobby p version).0 }) = record {
        seats = record {
          seat = λ q s e. v.seats.seat q s (sym (session_of-ready h.lobby p q version) ∙ e);
          earlier = λ q s e.
              rw (ids_taken-ready h.lobby p version)
                (v.seats.earlier q s (sym (session_of-ready h.lobby p q version) ∙ e));
          unseated = λ s b. v.seats.unseated s (rw (ids_taken-ready h.lobby p version) at b);
        };
        one_entry = ready-IsMap h.lobby p version v.one_entry;
        calm = v.calm;
      } in
      elim (Bool-cases (ready h.lobby p version).1) [
        | inl taken ↦ rw taken after
        | inr not_taken ↦
            rw not_taken
              (judge-Inv (record h { lobby = (ready h.lobby p version).0 }) p stale_ready now after)
      ]
