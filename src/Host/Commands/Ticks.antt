-- ===== src/Host/Commands/Ticks.antt =====
-- What a tick gets when its client's commands are late.
use mathlib.Core.Path.{ap₂}
use augusta.Common.{
  ℕ, zero, suc, ◌+◌, ◌*◌, ◌≤◌, ◌<◌, ◌≡◌, ap, ◌∙◌, ltb, false, some, [], arith, if◌then◌else◌,
  zero_vec,
}
use augusta.Command.{Command, held_ticks_at}
use augusta.Host.Commands.{CommandQueue, TickCommand, next, next_queued, hold, without_actions}

-- At any tick rate the hold in ticks lasts at least 100 ms and less than a tick longer.
pub held_ticks_at_bounds :
    (rate : ℕ)
    → (100 * rate ≤ 1000 * held_ticks_at rate) × (1000 * held_ticks_at rate < 100 * rate + 1000)
unfolding held_ticks_at
held_ticks_at_bounds rate = omega arith

-- The n-th tick after a queue ran dry.
pub nth_dry : ℕ → CommandQueue → TickCommand
nth_dry zero q = (next q).1
nth_dry (suc n) q = nth_dry n (next q).0

last_held :
    (q : CommandQueue) (before : Command) → q.last ≡ some before → next_queued q [] ≡ hold q before
unfolding next_queued
last_held q before h = simp (h, next_queued)

-- The last movement stopped in its place: no direction, no sprint, no action.
abbrev pub stopped : Command → Command
stopped c = record c {
  fire = false;
  reload = false;
  movement = record c.movement { direction = zero_vec; sprint = false };
}

-- The last movement going on: its direction, sprint, stance and view, and no action.
abbrev pub going_on : Command → Command
going_on c = record c { fire = false; reload = false }

module _ (q : CommandQueue) (before : Command) (empty : q.queue ≡ [])
    (held : q.last ≡ some before) where
  next-hold : next q ≡ hold q before
  unfolding next next_queued
  next-hold = ap (next_queued q) empty ∙ last_held q before held

  dry-next :
      ((next q).0.queue ≡ [])
      × ((next q).0.last ≡ some before)
      × ((next q).0.max_held_ticks ≡ q.max_held_ticks)
      × ((next q).0.acknowledged ≡ q.acknowledged)
      × ((next q).0.held_ticks
          ≡ (if ltb q.held_ticks q.max_held_ticks then q.held_ticks + 1 else q.held_ticks))
  unfolding hold
  dry-next = rw next-hold (ground arith)

  dry_command : (next q).1 ≡ record {
    command = if ltb q.held_ticks q.max_held_ticks then going_on before else stopped before;
    acknowledged_sequence = q.acknowledged;
    sent = false;
  }
  unfolding hold without_actions
  dry_command = rw next-hold (ground arith)

-- The command of a tick on a dry queue that has held for `held` ticks.
abbrev pub dry_tick : Command → ℕ → ℕ → ℕ → TickCommand
dry_tick before held max acknowledged = record {
  command = if ltb held max then going_on before else stopped before;
  acknowledged_sequence = acknowledged;
  sent = false;
}

dry_tick_eq :
    (before : Command) (a b max ack : ℕ)
    → ltb a max ≡ ltb b max
    → dry_tick before a max ack ≡ dry_tick before b max ack
dry_tick_eq before a b max ack h = rw h

later_tick :
    (held max n : ℕ) {held' : ℕ}
    → held' ≡ (if ltb held max then held + 1 else held)
    → ltb (held' + n) max ≡ ltb (held + suc n) max
later_tick held max n h = ground arith

-- On an empty queue that has handed out a command, the n-th tick gets that command with fire and
-- reload off and all else as it was while the hold lasts, and without direction and sprint too from
-- then on; it acknowledges nothing new.
pub nth_dry_lem :
    (n : ℕ) (q : CommandQueue) (before : Command)
    → q.queue ≡ []
    → q.last ≡ some before
    → nth_dry n q ≡ dry_tick before (q.held_ticks + n) q.max_held_ticks q.acknowledged
unfolding nth_dry
nth_dry_lem zero q before e l =
    dry_command q before e l ∙ dry_tick_eq before _ _ q.max_held_ticks q.acknowledged (ground arith)
nth_dry_lem (suc n) q before e l =
    let d = dry-next q before e l in
    nth_dry_lem n (next q).0 before d.0 d.1
    ∙ ap₂ (λ max ack. dry_tick before ((next q).0.held_ticks + n) max ack) d.2 d.3
    ∙ dry_tick_eq before _ _ q.max_held_ticks q.acknowledged
        (later_tick q.held_ticks q.max_held_ticks n d.4)
