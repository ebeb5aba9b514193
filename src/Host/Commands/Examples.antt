-- ===== src/Host/Commands/Examples.antt =====
-- A queue with a command or two, and each theorem about queues at it.
use augusta.Common.{
  ℕ, ◌-◌, ◌≡◌, refl, true, none, some, List, [], ◌∷◌, ◌++◌, length, drop, arith, Vec3,
}
use augusta.Command.{Command, idle_command}
use augusta.Host.Commands.{
  CommandQueue, SequencedCommand, dropped_oldest, make_queue, offer, max_queued_commands,
}
use augusta.Host.Commands.Order.{
  Inv, make_queue-Inv, Call, offers, takes, run, handed, run-Inv, offer_lem,
}
use augusta.Host.Commands.Handing.{Acknowledging, Within, sent_of, accepted, handed_lem}
use augusta.Host.Commands.Ticks.{nth_dry, dry_tick, nth_dry_lem}

-- glm's length of a vector along the x axis.
abbrev x_length : Vec3 → ℕ
x_length v = v.x

abbrev firing : Command
firing = record idle_command { fire = true; yaw = 0x3F800000 }

abbrev numbered : ℕ → SequencedCommand
numbered n = record { sequence = n; command = firing }

abbrev calls : List Call
calls = offers (numbered 3) ∷ takes ∷ offers (numbered 2) ∷ takes ∷ offers (numbered 5) ∷ takes ∷ []

run-Inv_example : Inv (run x_length (make_queue 60) calls)
run-Inv_example = run-Inv x_length (make_queue 60) calls (make_queue-Inv 60)

handed_lem_example :
    Within
      (sent_of (handed x_length (make_queue 60) calls))
      ((make_queue 60).queue ++ accepted x_length (make_queue 60) calls)
    × Acknowledging (make_queue 60).acknowledged (handed x_length (make_queue 60) calls)
handed_lem_example = handed_lem x_length (make_queue 60) calls (make_queue-Inv 60)

abbrev empty_queue : CommandQueue
empty_queue = record {
  queue = [];
  last = none;
  max_held_ticks = 6;
  held_ticks = 0;
  last_offered = 0;
  acknowledged = 0;
}

abbrev sixteen : List SequencedCommand
sixteen =
    numbered 1
    ∷ numbered 2
    ∷ numbered 3
    ∷ numbered 4
    ∷ numbered 5
    ∷ numbered 6
    ∷ numbered 7
    ∷ numbered 8
    ∷ numbered 9
    ∷ numbered 10
    ∷ numbered 11
    ∷ numbered 12
    ∷ numbered 13
    ∷ numbered 14
    ∷ numbered 15
    ∷ numbered 16
    ∷ []

abbrev full_queue : CommandQueue
full_queue = record empty_queue { queue = sixteen; last_offered = 16 }

full_queue-Inv : Inv full_queue
full_queue-Inv = ground arith

offer_lem_example :
    ((offer full_queue (numbered 17)).0.queue
      ≡ drop
          (length (sixteen ++ numbered 17 ∷ []) - max_queued_commands)
          (sixteen ++ numbered 17 ∷ []))
    × ((offer full_queue (numbered 17)).1 ≡ dropped_oldest → length sixteen ≡ max_queued_commands)
offer_lem_example = offer_lem full_queue (numbered 17) full_queue-Inv

abbrev dry_queue : CommandQueue
dry_queue = record empty_queue { last = some firing; held_ticks = 2; acknowledged = 9 }

nth_dry_lem_example : nth_dry 3 dry_queue ≡ dry_tick firing 5 6 9
nth_dry_lem_example = nth_dry_lem 3 dry_queue firing refl refl
