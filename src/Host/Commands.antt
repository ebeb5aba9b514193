-- ===== src/Host/Commands.antt =====
-- src/modules/host/command_queue.cpp and its header, with command::Command and the rest it takes:
-- the gate that a client's commands pass, and the queue that hands each tick its command.
-- A float is its bit pattern. glm's length of a vector is the parameter `vec_length`.
pub mod Order
pub mod Handing
pub mod Ticks
mod Examples
use augusta.Common.{
  ℕ, suc, ◌+◌, ◌*◌, ◌/◌, ◌≡◌, Bool, true, false, not, ◌&&◌, ◌||◌, Option, none, some, List, [], ◌∷◌,
  ◌++◌, leb, ltb, if◌then◌else◌, length, Vec3, zero_vec, is_finite_float, fabs, float_gt, Expected,
  value, unexpected,
}
use augusta.Command.{Command, Stance, standing, idle_command, held_ticks_at}

pub record SequencedCommand : Type 0 where
  pub sequence : ℕ
  pub command : Command

pub data Rejection : Type 0 where
  stale non_finite out_of_range : Rejection

pub data Enqueued : Type 0 where
  queued dropped_oldest : Enqueued

pub record TickCommand : Type 0 where
  pub command : Command
  pub acknowledged_sequence : ℕ
  pub sent : Bool

-- The bit patterns of 2.0F, 1.6F and 3.2F.
abbrev pub max_movement_magnitude : ℕ
max_movement_magnitude = 0x40000000

abbrev pub max_pitch : ℕ
max_pitch = 0x3FCCCCCD

abbrev pub max_yaw : ℕ
max_yaw = 0x404CCCCD

abbrev pub max_queued_commands : ℕ
max_queued_commands = 16

pub record CommandQueue : Type 0 where
  pub queue : List SequencedCommand
  pub last : Option Command
  pub max_held_ticks : ℕ
  pub held_ticks : ℕ
  pub last_offered : ℕ
  pub acknowledged : ℕ

pub make_queue : ℕ → CommandQueue
unfolding held_ticks_at
make_queue tick_rate_hz = record {
  queue = [];
  last = none;
  max_held_ticks = held_ticks_at tick_rate_hz;
  held_ticks = 0;
  last_offered = 0;
  acknowledged = 0;
}

pub is_finite : Vec3 → Bool
is_finite v = is_finite_float v.x && is_finite_float v.y && is_finite_float v.z

pub without_actions : Command → Command
without_actions c = record c { fire = false; reload = false }

-- `queued_.pop_front()`.
abbrev pop_front : List SequencedCommand → List SequencedCommand
pop_front [] = []
pop_front (c ∷ cs) = cs

-- TryEnqueue past its validation.
pub offer : CommandQueue → SequencedCommand → CommandQueue × Enqueued
offer q c =
    let grown = q.queue ++ c ∷ [] in
    if ltb max_queued_commands (length grown)
    then (record q { last_offered = c.sequence; queue = pop_front grown }, dropped_oldest)
    else (record q { last_offered = c.sequence; queue = grown }, queued)

abbrev enqueued : CommandQueue × Enqueued → CommandQueue × Expected Enqueued Rejection
enqueued (q, how) = (q, value how)

module _ (vec_length : Vec3 → ℕ) where
  pub validate : SequencedCommand → ℕ → Option Rejection
  unfolding is_finite
  validate c last_sequence =
      if leb c.sequence last_sequence
      then some stale
      else if not (is_finite c.command.movement.direction)
          || not (is_finite_float c.command.yaw)
          || not (is_finite_float c.command.pitch)
          || not (is_finite_float c.command.seen_fraction)
      then some non_finite
      else if float_gt (vec_length c.command.movement.direction) max_movement_magnitude
          || float_gt (fabs c.command.pitch) max_pitch
          || float_gt (fabs c.command.yaw) max_yaw
      then some out_of_range
      else none

  pub try_enqueue : CommandQueue → SequencedCommand → CommandQueue × Expected Enqueued Rejection
  unfolding offer
  try_enqueue q c = elim (validate c q.last_offered) [
    | some why ↦ (q, unexpected why)
    | none ↦ enqueued (offer q c)
  ]

-- Next on an empty queue that has handed out a command before: the last movement, held or stopped.
pub hold : CommandQueue → Command → CommandQueue × TickCommand
unfolding without_actions
hold q before =
    let command = without_actions before in
    if ltb q.held_ticks q.max_held_ticks
    then (
      record q { held_ticks = q.held_ticks + 1 },
      record { command = command; acknowledged_sequence = q.acknowledged; sent = false },
    )
    else (
      q,
      record {
        command = record command {
          movement = record command.movement { direction = zero_vec; sprint = false };
        };
        acknowledged_sequence = q.acknowledged;
        sent = false;
      },
    )

next_queued : CommandQueue → List SequencedCommand → CommandQueue × TickCommand
unfolding hold
next_queued q (c ∷ rest) = (
  record q { queue = rest; last = some c.command; held_ticks = 0; acknowledged = c.sequence },
  record { command = c.command; acknowledged_sequence = c.sequence; sent = true },
)
next_queued q [] = elim q.last [
  | none ↦
      (q, record { command = idle_command; acknowledged_sequence = q.acknowledged; sent = false })
  | some before ↦ hold q before
]

pub next : CommandQueue → CommandQueue × TickCommand
unfolding next_queued
next q = next_queued q q.queue
