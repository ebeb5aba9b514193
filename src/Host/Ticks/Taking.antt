-- ===== src/Host/Ticks/Taking.antt =====
-- Taking the commands of a tick: one Next of each queue, and what it gives.
use mathlib.Core.Path.{subst, ap₂}
use augusta.Common.{
  ℕ, ◌%◌, ◌≡◌, refl, sym, ap, ◌∙◌, Bool, true, false, inl, inr, Option, none, some, List, [], ◌∷◌,
  map, length, All, All-map, any_of, lookup, lookup-modify, Bool-cases, arith, ◌==◌, ==_iff,
  ==_refl,
}
use augusta.Host.Commands.{next}
use augusta.Host.Network.{Player}
use augusta.Host.Network.Seats.{HasPlayer, some_of}
use augusta.Host.Ticks.{
  Server, PlayerCommand, Recipient, TickInput, take_commands_of, command_taken, input_with,
}
use augusta.Host.Ticks.Lookups.{HasEntity, SamePeers, HasPlayer-same, modify-SamePeers}

abbrev pub among : ℕ → List ℕ → Bool
among t ss = any_of (λ u. u == t) ss

abbrev pub Distinct : List ℕ → Type 0
Distinct [] = Unit {0}
Distinct (t ∷ ss) = (among t ss ≡ false) × Distinct ss

-- What a tick is to hand the simulation for a session, given its player and its body: the command
-- that Next of the player's queue gives.
abbrev pub command_for : Option Player → Option ℕ → Option PlayerCommand
command_for none body = none
command_for (some p) none = none
command_for (some p) (some entity) =
    some (record { entity = entity; command = (next p.commands).1.command })

abbrev pub recipient_for : Option Player → Option ℕ → Option Recipient
recipient_for none body = none
recipient_for (some p) none = none
recipient_for (some p) (some entity) = some (record {
  entity = entity;
  acknowledged_sequence = (next p.commands).1.acknowledged_sequence;
  queued_commands = length (next p.commands).0.queue % 256;
  peer = p.peer;
})

-- A player after a tick: its queue is what Next leaves, if it plays.
abbrev pub advanced : Bool → Option Player → Option Player
advanced plays none = none
advanced false (some p) = some p
advanced true (some p) = some (record p { commands = (next p.commands).0 })

-- What taking the commands of sessions leaves, and the commands it takes: one of each session's
-- body, in their order, as its queue gives it; each of their queues has moved on once, no other has.
pub record Taken (before after : Server) (ss : List ℕ) (input : TickInput) : Type 0 where
  pub lobby : after.host.lobby ≡ before.host.lobby
  pub calm : after.host.thrown ≡ before.host.thrown
  pub characters : after.characters ≡ before.characters
  pub simulating : after.simulating_match ≡ before.simulating_match
  pub bodies : after.bodies ≡ before.bodies
  pub peers : SamePeers before.host.players after.host.players
  pub commands :
      map some input.commands
      ≡ map (λ t. command_for (lookup t before.host.players) (lookup t before.bodies)) ss
  pub recipients :
      map some input.recipients
      ≡ map (λ t. recipient_for (lookup t before.host.players) (lookup t before.bodies)) ss
  pub queues :
      (t : ℕ) → lookup t after.host.players ≡ advanced (among t ss) (lookup t before.host.players)

map-same_on {ℓ} :
    {A : Type ℓ} (f g : ℕ → A) (t : ℕ) (ss : List ℕ)
    → among t ss ≡ false
    → ((u : ℕ) → (t == u) ≡ false → f u ≡ g u)
    → map f ss ≡ map g ss
map-same_on f g t [] apart same = refl
map-same_on f g t (u ∷ ss) apart same =
    ap (λ a. a ∷ map f ss) (same u (ground arith))
    ∙ ap (◌∷◌ (g u)) (map-same_on f g t ss (ground arith) same)

command_taken-SamePeers :
    (s : Server) (t entity : ℕ) (player : Player)
    → SamePeers s.host.players (command_taken s t entity player).host.players
unfolding command_taken
command_taken-SamePeers s t entity player =
    modify-SamePeers t (λ q. record q { commands = (next player.commands).0 }) s.host.players
      (λ q. refl)

command_taken-other :
    (s : Server) (t entity u : ℕ) (player : Player)
    → (t == u) ≡ false
    → lookup u (command_taken s t entity player).host.players ≡ lookup u s.host.players
unfolding command_taken
command_taken-other s t entity u player apart = ground (
  arith,
  lookup-modify t u (λ q. record q { commands = (next player.commands).0 }) s.host.players,
)

command_taken-own :
    (s : Server) (t entity : ℕ) (player : Player)
    → lookup t s.host.players ≡ some player
    → lookup t (command_taken s t entity player).host.players
      ≡ some (record player { commands = (next player.commands).0 })
unfolding command_taken
command_taken-own s t entity player found = ground (
  arith,
  lookup-modify t t (λ q. record q { commands = (next player.commands).0 }) s.host.players,
)

command_taken-queues :
    (s after : Server) (t entity : ℕ) (player : Player) (ss : List ℕ)
    → lookup t s.host.players ≡ some player
    → among t ss ≡ false
    → ((u : ℕ)
        → lookup u after.host.players
          ≡ advanced (among u ss) (lookup u (command_taken s t entity player).host.players))
    → (u : ℕ) → lookup u after.host.players ≡ advanced (among u (t ∷ ss)) (lookup u s.host.players)
command_taken-queues s after t entity player ss found apart rest u = elim (Bool-cases (t == u)) [
  | inl own ↦
      let advances : advanced (among t (t ∷ ss)) (lookup t s.host.players)
          ≡ some (record player { commands = (next player.commands).0 }) =
        rw (found, ==_refl t) refl in
      subst
        (λ v. lookup v after.host.players ≡ advanced (among v (t ∷ ss)) (lookup v s.host.players))
        ((==_iff t u).0 own)
        (rest t
          ∙ ap (λ b. advanced b (lookup t (command_taken s t entity player).host.players)) apart
          ∙ ap (advanced false) (command_taken-own s t entity player found)
          ∙ sym advances)
  | inr other ↦
      rw other (rest u ∙ ap (advanced (among u ss)) (command_taken-other s t entity u player other))
]

pub take_commands_of-total :
    (s : Server) (ss : List ℕ)
    → Distinct ss
    → All (HasPlayer s.host.players) ss
    → All (HasEntity s.bodies) ss
    → (after : Server) × (input : TickInput) × (take_commands_of s ss ≡ some (after, input))
      × Taken s after ss input
unfolding take_commands_of
take_commands_of-total s [] d h k = (
  s,
  record { commands = []; recipients = [] },
  refl,
  record {
    lobby = refl;
    calm = refl;
    characters = refl;
    simulating = refl;
    bodies = refl;
    peers = λ t. refl;
    commands = refl;
    recipients = refl;
    queues = λ t. ground arith;
  },
)
take_commands_of-total s (t ∷ ss) d h k =
    let (player, found) = some_of (lookup t s.host.players) h.0 in
    let (entity, body) = some_of (lookup t s.bodies) k.0 in
    let one = command_taken s t entity player in
    let same : SamePeers s.host.players one.host.players =
      command_taken-SamePeers s t entity player in
    let players : All (HasPlayer one.host.players) ss =
      All-map (HasPlayer s.host.players) ss
        (λ u has. HasPlayer-same s.host.players one.host.players u same has) h.1 in
    let still : one.bodies ≡ s.bodies = unfold command_taken in refl in
    let (after, input, done, taken) = take_commands_of-total one ss d.1 players (rw still k.1) in
    (
      after,
      input_with entity player input,
      ground (arith, found, body, done),
      record {
        lobby = taken.lobby ∙ unfold command_taken in refl;
        calm = taken.calm ∙ unfold command_taken in refl;
        characters = taken.characters ∙ unfold command_taken in refl;
        simulating = taken.simulating ∙ unfold command_taken in refl;
        bodies = taken.bodies ∙ still;
        peers = λ u. taken.peers u ∙ same u;
        commands =
            ap₂ (λ x xs. x ∷ xs) (sym (ap₂ command_for found body))
              (taken.commands
                ∙ map-same_on (λ u. command_for (lookup u one.host.players) (lookup u s.bodies))
                    (λ u. command_for (lookup u s.host.players) (lookup u s.bodies)) t ss d.0
                    (λ u apart.
                      ap (λ p. command_for p (lookup u s.bodies))
                        (command_taken-other s t entity u player apart)));
        recipients =
            ap₂ (λ x xs. x ∷ xs) (sym (ap₂ recipient_for found body))
              (taken.recipients
                ∙ map-same_on (λ u. recipient_for (lookup u one.host.players) (lookup u s.bodies))
                    (λ u. recipient_for (lookup u s.host.players) (lookup u s.bodies)) t ss d.0
                    (λ u apart.
                      ap (λ p. recipient_for p (lookup u s.bodies))
                        (command_taken-other s t entity u player apart)));
        queues = command_taken-queues s after t entity player ss found d.0 taken.queues;
      },
    )
