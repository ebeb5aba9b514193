-- ===== src/Link/Commands.antt =====
-- A message of commands, read back.
use mathlib.Core.Path.{ap₂}
use augusta.Common.{
  length, drop, ℕ, ◌+◌, ◌-◌, ◌≤◌, ◌≡◌, refl, ap, ◌∙◌, Bool, List, [], ◌∷◌, map, min, max, arith,
}
use augusta.Command.{Command, Stance, standing, crouching, prone}
use augusta.Host.Commands.{SequencedCommand}
use augusta.Link.{
  stance_to_wire, stance_from_wire, flag, has_flag, command_to_wire, command_from_wire, newest_seen,
  sequenced_to_wire, sequenced_from_wire, one_message, carried, commands_to_wire,
  commands_from_wire,
}

stance_from_wire-stance_to_wire : (s : Stance) → stance_from_wire (stance_to_wire s) ≡ s
unfolding stance_from_wire stance_to_wire
stance_from_wire-stance_to_wire standing = refl
stance_from_wire-stance_to_wire crouching = refl
stance_from_wire-stance_to_wire prone = refl

has_flag-first : (a b c d : Bool) → has_flag (flag 1 a + flag 2 b + flag 4 c + flag 8 d) 1 ≡ a
has_flag-first a b c d = ground arith

has_flag-second : (a b c d : Bool) → has_flag (flag 1 a + flag 2 b + flag 4 c + flag 8 d) 2 ≡ b
has_flag-second a b c d = ground arith

has_flag-third : (a b c d : Bool) → has_flag (flag 1 a + flag 2 b + flag 4 c + flag 8 d) 4 ≡ c
has_flag-third a b c d = ground arith

has_flag-fourth : (a b c d : Bool) → has_flag (flag 1 a + flag 2 b + flag 4 c + flag 8 d) 8 ≡ d
has_flag-fourth a b c d = ground arith

-- A Seen tick as a message's ages can say it: at most the message's, and no more than 255 before it.
abbrev pub within : ℕ → ℕ → ℕ
within t seen = min t (max seen (t - 255))

-- A Command, written with a message's Seen tick and read with it, comes back as it was, its own
-- Seen tick brought within 255 ticks of the message's.
pub command_from_wire-command_to_wire :
    (c : Command) (t : ℕ)
    → command_from_wire (command_to_wire c t) t ≡ record c { seen_tick = within t c.seen_tick }
unfolding command_from_wire command_to_wire
command_from_wire-command_to_wire c t =
    rw
      (
        has_flag-first c.movement.sprint c.ads c.fire c.reload,
        has_flag-second c.movement.sprint c.ads c.fire c.reload,
        has_flag-third c.movement.sprint c.ads c.fire c.reload,
        has_flag-fourth c.movement.sprint c.ads c.fire c.reload,
        stance_from_wire-stance_to_wire c.movement.desired_stance,
      )
      (ap (λ n. record c { seen_tick = n }) (ground arith))

newest_seen-le : (t : ℕ) (cs : List SequencedCommand) → t ≤ newest_seen t cs
newest_seen-le t [] = omega arith
newest_seen-le t (c ∷ cs) = omega (arith, newest_seen-le (max t c.command.seen_tick) cs)

-- A command as a message of that Seen tick gives it.
abbrev pub aged : ℕ → SequencedCommand → SequencedCommand
aged t c = record c { command = record c.command { seen_tick = max c.command.seen_tick (t - 255) } }

sequenced-read :
    (t : ℕ) (c : SequencedCommand)
    → c.command.seen_tick ≤ t
    → sequenced_from_wire t (sequenced_to_wire t c) ≡ aged t c
sequenced-read t c h =
    ap (λ k. record c { command = k })
      (command_from_wire-command_to_wire c.command t
        ∙ ap (λ n. record c.command { seen_tick = n }) (omega arith))

commands-read :
    (n t : ℕ) (cs : List SequencedCommand)
    → newest_seen n cs ≤ t
    → map (sequenced_from_wire t) (map (sequenced_to_wire t) cs) ≡ map (aged t) cs
commands-read n t [] h = refl
commands-read n t (c ∷ cs) h =
    let seen = newest_seen-le (max n c.command.seen_tick) cs in
    ap₂ (λ x xs. x ∷ xs) (sequenced-read t c (omega (arith, h, seen)))
      (commands-read (max n c.command.seen_tick) t cs h)

-- A message that the client's Link makes of commands, before the protocol rounds its floats to
-- encode it, is to the server's Link the newest eight of them, in order and as they were, but for a
-- Seen tick more than 255 before the newest of theirs, which is brought up to 255 before it.
pub commands_from_wire-commands_to_wire :
    (cs : List SequencedCommand)
    → commands_from_wire (commands_to_wire cs)
      ≡ map (aged (newest_seen 0 (drop (length cs - 8) cs))) (drop (length cs - 8) cs)
unfolding commands_from_wire commands_to_wire one_message carried
commands_from_wire-commands_to_wire cs =
    let newest : length cs - min (length cs) 8 ≡ length cs - 8 = omega arith in
    rw newest (
      commands-read 0 (newest_seen 0 (drop (length cs - 8) cs)) (drop (length cs - 8) cs)
        (omega arith))
