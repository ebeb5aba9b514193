-- ===== src/Weapon/Rounds.antt =====
-- The rounds of the rifle's magazine, and those of its Burst.
use augusta.Common.{
  ℕ, suc, ◌+◌, ◌*◌, ◌≤◌, ◌≡◌, ◌⊎◌, true, false, List, [], ◌∷◌, arith, if◌then◌else◌, FloatOps,
}
use augusta.Command.{Command}
use augusta.Weapon.{
  Rifle, State, starts_reload, reloading, trigger, fires, fire_round, rest, cool, reload_tick, step,
  loaded,
}

-- What a rifle of a one-byte magazine holds and has fired of its Burst fits the magazine.
pub record Inv (rifle : Rifle) (s : State) : Type 0 where
  pub magazine_byte : rifle.magazine_capacity ≤ 255
  pub held : s.rounds + s.burst_index ≤ rifle.magazine_capacity

pub loaded-Inv : (rifle : Rifle) → rifle.magazine_capacity ≤ 255 → Inv rifle (loaded rifle)
unfolding loaded
loaded-Inv rifle h = ground arith

distrib : (a b c : ℕ) → (a + b) * c ≡ a * c + b * c
distrib a b c = grind arith

module _ (ops : FloatOps) (rifle : Rifle) (dt : ℕ) where
  -- Where the rounds held and the Burst's count together fit a magazine of at most 255, a tick
  -- keeps them so, and neither byte wraps: a shot takes one round and adds one to the Burst, and
  -- any other tick leaves the rounds or fills the magazine.
  pub step_rounds :
      (s : State) (c : Command)
      → Inv rifle s
      → let r = step ops rifle s c dt in
        Inv rifle r.state
        × (r.fired ≡ true
            → (suc r.state.rounds ≡ s.rounds) × (r.state.burst_index ≡ suc s.burst_index))
        × (r.fired ≡ false
            → (r.state.rounds ≡ s.rounds) ⊎ (r.state.rounds ≡ rifle.magazine_capacity))
  unfolding step starts_reload reloading trigger fires fire_round rest cool reload_tick
  step_rounds s c v = ground (arith, v.held, v.magazine_byte)

  -- The shots of a history of ticks, and the rifle after it.
  unfoldable pub run : List Command → State → State × ℕ
  run [] s = (s, 0)
  run (c ∷ cs) s =
      let r = step ops rifle s c dt in
      let after = run cs r.state in (after.0, (if r.fired then 1 else 0) + after.1)

  pub run-Inv : (cs : List Command) (s : State) → Inv rifle s → Inv rifle (run cs s).0
  unfolding run
  run-Inv [] s v = v
  run-Inv (c ∷ cs) s v = run-Inv cs (step ops rifle s c dt).state (step_rounds s c v).0

  -- One while a reload is under way.
  abbrev under_way : State → ℕ
  under_way s = if ops.lt 0 s.reload_remaining then 1 else 0

  -- How many of the commands press reload.
  abbrev pub presses : List Command → ℕ
  presses [] = 0
  presses (c ∷ cs) = (if c.reload then 1 else 0) + presses cs

  -- The rounds held, with a magazine for a reload under way, grow by a magazine for a press at most.
  step_budget :
      (s : State) (c : Command)
      → ops.lt 0 0 ≡ false
      → Inv rifle s
      → let r = step ops rifle s c dt in
        let cap = rifle.magazine_capacity in
        (if r.fired then 1 else 0) + r.state.rounds + under_way r.state * cap
        ≤ s.rounds + under_way s * cap + (if c.reload then 1 else 0) * cap
  unfolding step starts_reload reloading trigger fires fire_round rest cool reload_tick
  step_budget s c law v = ground (arith, v.held, v.magazine_byte)

  run_budget :
      (cs : List Command) (s : State)
      → ops.lt 0 0 ≡ false
      → Inv rifle s
      → (run cs s).1
        ≤ s.rounds + under_way s * rifle.magazine_capacity + presses cs * rifle.magazine_capacity
  unfolding run
  run_budget [] s law v = omega arith
  run_budget (c ∷ cs) s law v =
      let r = step ops rifle s c dt in
      omega (
        arith,
        step_budget s c law v,
        run_budget cs r.state law (step_rounds s c v).0,
        distrib (if c.reload then 1 else 0) (presses cs) rifle.magazine_capacity,
      )

  -- Where 0 is not below 0 in the arithmetic, a rifle that starts with a full magazine of at most
  -- 255 rounds fires, over any history of ticks, no more than that magazine and one more for each
  -- command that presses reload.
  pub shots_le :
      (cs : List Command)
      → ops.lt 0 0 ≡ false
      → rifle.magazine_capacity ≤ 255
      → (run cs (loaded rifle)).1 ≤ rifle.magazine_capacity + presses cs * rifle.magazine_capacity
  unfolding loaded
  shots_le cs law h = ground (arith, run_budget cs (loaded rifle) law (loaded-Inv rifle h))
