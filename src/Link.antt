-- ===== src/Link.antt =====
-- src/modules/link/link_messages.cpp: a player's commands, to and from the protocol's types
-- (src/modules/protocol/include/augusta/protocol.h).
mod Commands
pub mod CaptureRecords
mod Examples
use augusta.Common.{
  ℕ, ◌+◌, ◌*◌, ◌-◌, ◌/◌, ◌%◌, Bool, List, [], ◌∷◌, map, ltb, ◌==◌, if◌then◌else◌, length, drop, min,
  max, Vec3,
}
use augusta.Command.{Command, Stance, standing, crouching, prone}
use augusta.Host.Commands.{SequencedCommand}

pub data StanceWire : Type 0 where
  standing_wire crouching_wire prone_wire : StanceWire

pub record CommandWire : Type 0 where
  pub direction : Vec3
  pub yaw : ℕ
  pub pitch : ℕ
  pub seen_fraction : ℕ
  pub flags : ℕ
  pub desired_stance : StanceWire
  pub seen_age : ℕ

pub record SequencedCommandWire : Type 0 where
  pub sequence : ℕ
  pub command : CommandWire

pub record CommandsWire : Type 0 where
  pub commands : List SequencedCommandWire
  pub seen_tick : ℕ

unfoldable pub stance_to_wire : Stance → StanceWire
stance_to_wire standing = standing_wire
stance_to_wire crouching = crouching_wire
stance_to_wire prone = prone_wire

unfoldable pub stance_from_wire : StanceWire → Stance
stance_from_wire standing_wire = standing
stance_from_wire crouching_wire = crouching
stance_from_wire prone_wire = prone

-- kSprint, kAds, kFire and kReload, as the places of their bits.
abbrev pub flag : ℕ → Bool → ℕ
flag bit held = if held then bit else 0

-- Whether flags has a bit of those.
abbrev pub has_flag : ℕ → ℕ → Bool
has_flag flags bit = (flags / bit) % 2 == 1

-- The four flags are distinct bits, so their `|` is a sum.
unfoldable pub command_to_wire : Command → ℕ → CommandWire
unfolding stance_to_wire
command_to_wire c seen_tick =
    let age = if ltb c.seen_tick seen_tick then seen_tick - c.seen_tick else 0 in
    record {
      direction = c.movement.direction;
      yaw = c.yaw;
      pitch = c.pitch;
      seen_fraction = c.seen_fraction;
      flags = flag 1 c.movement.sprint + flag 2 c.ads + flag 4 c.fire + flag 8 c.reload;
      desired_stance = stance_to_wire c.movement.desired_stance;
      seen_age = min age 255;
    }

unfoldable pub command_from_wire : CommandWire → ℕ → Command
unfolding stance_from_wire
command_from_wire c seen_tick = record {
  movement = record {
    direction = c.direction;
    sprint = has_flag c.flags 1;
    desired_stance = stance_from_wire c.desired_stance;
  };
  yaw = c.yaw;
  pitch = c.pitch;
  ads = has_flag c.flags 2;
  fire = has_flag c.flags 4;
  reload = has_flag c.flags 8;
  seen_tick = seen_tick - min c.seen_age seen_tick;
  seen_fraction = c.seen_fraction;
}

-- The newest Seen tick of some commands, from one on.
abbrev pub newest_seen : ℕ → List SequencedCommand → ℕ
newest_seen t [] = t
newest_seen t (c ∷ cs) = newest_seen (max t c.command.seen_tick) cs

abbrev pub sequenced_to_wire : ℕ → SequencedCommand → SequencedCommandWire
sequenced_to_wire t c = record { sequence = c.sequence; command = command_to_wire c.command t }

unfoldable pub one_message : List SequencedCommand → CommandsWire
unfolding command_to_wire
one_message cs = record {
  commands = map (sequenced_to_wire (newest_seen 0 cs)) cs;
  seen_tick = newest_seen 0 cs;
}

abbrev pub max_commands_per_message : ℕ
max_commands_per_message = 8

-- Carried: the newest commands, as many as a message may hold.
unfoldable pub carried : List SequencedCommand → List SequencedCommand
carried cs = drop (length cs - min (length cs) max_commands_per_message) cs

unfoldable pub commands_to_wire : List SequencedCommand → CommandsWire
unfolding one_message carried
commands_to_wire cs = one_message (carried cs)

abbrev pub sequenced_from_wire : ℕ → SequencedCommandWire → SequencedCommand
sequenced_from_wire t c = record { sequence = c.sequence; command = command_from_wire c.command t }

unfoldable pub commands_from_wire : CommandsWire → List SequencedCommand
unfolding command_from_wire
commands_from_wire message = map (sequenced_from_wire message.seen_tick) message.commands
