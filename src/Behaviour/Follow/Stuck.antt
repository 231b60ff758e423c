-- ===== src/Behaviour/Follow/Stuck.antt =====
-- behaviour/follow.go: a body that does not get closer.
use headless_minecraft.Base.{
  zero, suc, ◌+◌, ◌-◌, ◌≡◌, ◌≤◌, ◌<◌, refl, arith, Bool, true, false, not, ◌&&◌, none, some, List,
  [], ◌∷◌, ltb, leb, Bool-cases, Option-cases, inl, inr, length, drop, All,
}
use headless_minecraft.Version.Actions.{Action}
use headless_minecraft.World.Entities.{Entity}
use headless_minecraft.Behaviour.{
  run, Run, ended, status_stopped, reason_stuck, decided, running, stopped,
}
use headless_minecraft.Behaviour.Observed.{Snapshot, get}
use headless_minecraft.Behaviour.Follow.{
  Geometry, Vec3, Follow, body_of, position, progress, step_toward, follow_tick,
}

module _ {F32 F64 Value : Type 0} (g : Geometry F32 F64) where
  -- Whether the body and the target are known, the target is not given up, and it is not closer than it
  -- has been. So it is of a body that is caught on something, and of one that holds its distance.
  abbrev pub held_up : Follow F64 → Snapshot F32 F64 Value → Bool
  held_up f observed = elim (body_of observed) [
    | none ↦ false
    | some self ↦ elim (get observed.entities f.target) [
      | none ↦ false
      | some entity ↦
          let distance = g.horizontal_distance self (position entity) in
          not (g.above f.motion.give_up g.zero && g.above distance f.motion.give_up)
          && not (g.above (g.sub f.closest g.progress_epsilon) distance)
    ]
  ]

  held_up_shape :
      (f : Follow F64) (o : Snapshot F32 F64 Value)
      → held_up f o ≡ true
      → (self : Vec3 F64) × (entity : Entity F32 F64 Value) × (body_of o ≡ some self)
        × (get o.entities f.target ≡ some entity)
        × (let distance = g.horizontal_distance self (position entity) in
            ((g.above f.motion.give_up g.zero && g.above distance f.motion.give_up) ≡ false)
            × (g.above (g.sub f.closest g.progress_epsilon) distance ≡ false))
  held_up_shape f o h = elim (Option-cases (body_of o)) [
    | inl unknown ↦ absurd (ground (arith, h, unknown))
    | inr (self, known) ↦ elim (Option-cases (get o.entities f.target)) [
      | inl lost ↦ absurd (ground (arith, h, known, lost))
      | inr (entity, tracked) ↦ (
        self,
        entity,
        known,
        tracked,
        (ground (arith, h, known, tracked), ground (arith, h, known, tracked)),
      )
    ]
  ]

module _ (F32 F64 Value Claim Err : Type 0) (g : Geometry F32 F64) where
  abbrev is_over : Follow F64 → Bool
  is_over f = ltb 0 f.motion.patience && leb f.motion.patience (f.idle + 1)

  last :
      (f : Follow F64)
      → f.idle < f.motion.patience
      → is_over f ≡ true
      → f.motion.patience - f.idle ≡ suc zero
  last f short over = ground (arith, short, over)

  one_less :
      (f : Follow F64)
      → f.idle < f.motion.patience
      → is_over f ≡ false
      → f.motion.patience - f.idle ≡ suc (f.motion.patience - (f.idle + 1))
  one_less f short more = ground (arith, short, more)

  -- A tick that is held up counts, and stops or goes on.
  tick_over :
      (f : Follow F64) (o : Snapshot F32 F64 Value)
      → f.started ≡ true
      → held_up g f o ≡ true
      → is_over f ≡ true
      → follow_tick {Claim = Claim} {Err = Err} g f o
        ≡ (record f { idle = f.idle + 1 }, decided (stopped reason_stuck))
  unfolding follow_tick progress
  tick_over f o started held over =
      let (self, entity, known, tracked, (near, no_closer)) = held_up_shape g f o held in
      rw (follow_tick, known, tracked, near, no_closer, started, over) refl

  tick_more :
      (f : Follow F64) (o : Snapshot F32 F64 Value)
      → f.started ≡ true
      → held_up g f o ≡ true
      → is_over f ≡ false
      → (sent : List (Action F32 F64 Claim)) × (follow_tick {Claim = Claim} {Err = Err} g f o
          ≡ (record f { idle = f.idle + 1 }, decided (running sent)))
  unfolding follow_tick progress
  tick_more f o started held more =
      let (self, entity, known, tracked, (near, no_closer)) = held_up_shape g f o held in
      go self entity known tracked near no_closer
    where
      go :
          (self : Vec3 F64) (entity : Entity F32 F64 Value)
          → body_of o ≡ some self
          → get o.entities f.target ≡ some entity
          → let distance = g.horizontal_distance self (position entity) in
            (g.above f.motion.give_up g.zero && g.above distance f.motion.give_up) ≡ false
            → g.above (g.sub f.closest g.progress_epsilon) distance ≡ false
            → (sent : List (Action F32 F64 Claim)) × (follow_tick {Claim = Claim} {Err = Err} g f o
                ≡ (record f { idle = f.idle + 1 }, decided (running sent)))
      go self entity known tracked near no_closer =
          elim (Bool-cases
            (g.at_most (g.horizontal_distance self (position entity)) f.motion.arrive)) [
              | inl close ↦
                  ([], rw (follow_tick, known, tracked, near, no_closer, started, more, close) refl)
              | inr far ↦ (
                step_toward g f.motion self (position entity) ∷ [],
                rw (follow_tick, known, tracked, near, no_closer, started, more, far) refl,
              )
            ]

  -- A follow with a patience, whose body has been closest to the target at some distance and has been idle
  -- for less than its patience, stops as stuck on the very tick where it has been idle for as long as
  -- that, if on every tick until then the body, the target and a distance that is not given up are known,
  -- and the distance is not less than the closest; the observations after that one are left. This is so of
  -- a body that has arrived and waits too: arriving does not keep a follow from stopping as stuck.
  pub run_stuck :
      (f : Follow F64) (seen : List (Snapshot F32 F64 Value))
      → f.started ≡ true
      → f.idle < f.motion.patience
      → f.motion.patience ≤ f.idle + length seen
      → All (λ o. held_up g f o ≡ true) seen
      → let r : Run (Snapshot F32 F64 Value) (Action F32 F64 Claim) Err =
          run (follow_tick g) f seen in
        r.ending ≡ ended status_stopped reason_stuck (drop (f.motion.patience - f.idle) seen)
  unfolding run
  run_stuck f [] started short enough held = ground (arith, short, enough)
  run_stuck f (o ∷ rest) started short enough held = elim (Bool-cases (is_over f)) [
    | inl over ↦ rw (tick_over f o started held.0 over) (rw (last f short over) refl)
    | inr more ↦
        let (sent, ticked) = tick_more f o started held.0 more in
        rw (ticked, one_less f short more)
          (run_stuck (record f { idle = f.idle + 1 }) rest started (ground (arith, short, more))
            (ground (arith, enough)) held.1)
  ]
