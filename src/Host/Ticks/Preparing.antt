-- ===== src/Host/Ticks/Preparing.antt =====
-- PrepareTick: its parts in turn, and what it takes.
use mathlib.Core.Bool.{false≢true}
use augusta.Common.{
  ℕ, suc, ◌≤◌, ◌<◌, ◌≡◌, refl, sym, ap, ◌∙◌, true, false, not, ◌&&◌, inl, inr, some, List, [], All,
  All-map, All-both, keep_if, Bool-cases, arith, Vec3,
}
use augusta.Host.Match
use augusta.Host.Match.{playing, is_playing}
use augusta.Host.Match.Rooms.{Roomed-bodies, HasBody}
use augusta.Host.Match.Members.{playing-All, is_playing-All, tick-same}
use augusta.Host.Network.Seats.{HasPlayer}
use augusta.Host.Ticks.{
  Server, Entrant, TickInput, take_out_ended_match, remove_left, settle_bodies, tick_lobby,
  prepare_tick, start_match_if_ready,
}
use augusta.Host.Ticks.Lookups.{HasEntity, keep_if-HasEntity}
use augusta.Host.Ticks.Taking.{Taken, take_commands_of-total}
use augusta.Host.Ticks.Players.{playing-Distinct}
use augusta.Host.Ticks.Ending.{Inv, Seated-same, seated-All}
use augusta.Host.Ticks.Starting.{start_match_if_ready-total}

module _ (ids : ℕ → ℕ) where
  take_out-Inv :
      (s : Server) → s.host.lobby.in_match ≡ false → Inv ids s → Inv ids (take_out_ended_match s)
  unfolding take_out_ended_match
  take_out-Inv s lobby v = record {
    seats = v.seats;
    calm = v.calm;
    rooms =
        Roomed-bodies s.characters s.simulating_match false s.bodies [] s.host.lobby v.rooms
          (λ on. absurd (false≢true (sym lobby ∙ on))) (λ on. absurd (false≢true (sym lobby ∙ on)));
  }

  remove_left-Inv : (s : Server) → Inv ids s → Inv ids (remove_left s)
  unfolding remove_left
  remove_left-Inv s v = record {
    seats = v.seats;
    calm = v.calm;
    rooms =
        Roomed-bodies s.characters s.simulating_match s.simulating_match s.bodies
          (keep_if (λ b. is_playing s.host.lobby b.0) s.bodies) s.host.lobby v.rooms
          v.rooms.simulated
          (λ on.
            All-map (λ e. (is_playing s.host.lobby e.1.session ≡ true) × HasBody s.bodies e.1)
              s.host.lobby.members
              (λ e h. keep_if-HasEntity (is_playing s.host.lobby) e.1.session s.bodies h.0 h.1)
              (All-both (λ e. is_playing s.host.lobby e.1.session ≡ true)
                (λ e. HasBody s.bodies e.1) s.host.lobby.members (is_playing-All s.host.lobby on)
                (v.rooms.bodied on)));
  }

  settle_bodies-Inv : (s : Server) → Inv ids s → Inv ids (settle_bodies s)
  unfolding settle_bodies
  settle_bodies-Inv s v = elim (Bool-cases (s.simulating_match && not s.host.lobby.in_match)) [
    | inr going ↦ rw going (remove_left-Inv s v)
    | inl ended ↦
        let lobby : s.host.lobby.in_match ≡ false = ground arith in
        rw ended (remove_left-Inv (take_out_ended_match s) (take_out-Inv s lobby v))
  ]

  tick_lobby-Inv : (s : Server) → Inv ids s → Inv ids (tick_lobby s)
  tick_lobby-Inv s v =
      let (members, in_match, characters, taken) = tick-same s.host.lobby in
      let same_id : ids s.host.lobby.ids_taken ≤ ids (Match.tick s.host.lobby).ids_taken =
        rw taken (omega arith) in
      record {
        seats =
            Seated-same (ids s.host.lobby.ids_taken) (ids (Match.tick s.host.lobby).ids_taken)
              s.host.lobby (Match.tick s.host.lobby) s.host.players s.host.players members same_id
              (λ t. refl) v.seats;
        calm = v.calm;
        rooms = record {
          one_entry = rw members v.rooms.one_entry;
          same_names = characters ∙ v.rooms.same_names;
          known = rw members v.rooms.known;
          simulated = λ on. v.rooms.simulated (sym in_match ∙ on);
          bodied = λ on. rw members (v.rooms.bodied (sym in_match ∙ on));
        };
      }

-- What a PrepareTick takes of the server that its Match, if one was to start, has started on: for each
-- session that plays, in their order, the command that Next of its queue gives, for its body, to be
-- answered to its player's peer; those queues have moved on, and no other.
pub record Prepared (ids : ℕ → ℕ) (spawns_of : List Entrant → List Vec3) (before after : Server)
    (input : TickInput) : Type 0 where
  pub started : Server
  pub starting :
      start_match_if_ready spawns_of ids (tick_lobby (settle_bodies before)) ≡ some started
  pub taken : Taken started after (playing started.host.lobby) input
  pub players : All (HasPlayer started.host.players) (playing started.host.lobby)
  pub bodies : All (HasEntity started.bodies) (playing started.host.lobby)
  pub inv : Inv ids after

module _ (ids : ℕ → ℕ) (later : (n : ℕ) → ids n < ids (suc n))
    (spawns_of : List Entrant → List Vec3) where
  Taken-Inv :
      (s after : Server) (ss : List ℕ) (input : TickInput)
      → Inv ids s
      → Taken s after ss input
      → Inv ids after
  Taken-Inv s after ss input v taken =
      let members : after.host.lobby.members ≡ s.host.lobby.members =
        ap (λ m. m.members) taken.lobby in
      let same_id : ids s.host.lobby.ids_taken ≤ ids after.host.lobby.ids_taken =
        rw taken.lobby (omega arith) in
      record {
        seats =
            Seated-same (ids s.host.lobby.ids_taken) (ids after.host.lobby.ids_taken) s.host.lobby
              after.host.lobby s.host.players after.host.players members same_id taken.peers
              v.seats;
        calm = taken.calm ∙ v.calm;
        rooms = rw (taken.characters, taken.simulating, taken.bodies, taken.lobby) v.rooms;
      }

  pub prepare_tick-total :
      (s : Server)
      → Inv ids s
      → (after : Server) × (input : TickInput) × (prepare_tick spawns_of ids s
          ≡ some (after, input))
        × Prepared ids spawns_of s after input
  unfolding prepare_tick
  prepare_tick-total s v =
      let ready = tick_lobby-Inv ids (settle_bodies s) (settle_bodies-Inv ids s v) in
      let (started, goes, w) =
        start_match_if_ready-total spawns_of ids later (tick_lobby (settle_bodies s)) ready in
      let ss = playing started.host.lobby in
      let players : All (HasPlayer started.host.players) ss =
        playing-All (HasPlayer started.host.players) started.host.lobby
          (λ on. seated-All ids started w) in
      let bodies : All (HasEntity started.bodies) ss =
        playing-All (HasEntity started.bodies) started.host.lobby w.rooms.bodied in
      let (after, input, done, taken) =
        take_commands_of-total started ss
          (playing-Distinct (ids started.host.lobby.ids_taken) started.host.lobby
            started.host.players w.seats w.rooms.one_entry)
          players bodies in
      let inv = Taken-Inv started after ss input w taken in
      (
        after,
        input,
        ground (arith, goes, done),
        record {
          started = started;
          starting = goes;
          taken = taken;
          players = players;
          bodies = bodies;
          inv = inv;
        },
      )
