-- ===== src/Behaviour/Eat/Meals.antt =====
-- behaviour/consume.go: what a meal sends, and when it ends.
use headless_minecraft.Base.{
  ℕ, ◌+◌, ◌≡◌, ◌≤◌, ◌<◌, refl, arith, true, not, ◌||◌, List, [], ◌∷◌, ℤ, ltb, int_leb, Bool-cases,
  inl, inr,
}
use headless_minecraft.Version.Actions.{Action, Hand, main_hand}
use headless_minecraft.Behaviour.{
  run, has_ended, Run, Ending, unfinished, ended, status_complete, status_stopped, reason_none,
  reason_failed, reason_out_of_resources,
}
use headless_minecraft.Behaviour.Observed.{Snapshot, known_ticks}
use headless_minecraft.Behaviour.Eat.{Eat, unfed, eat_tick}

module _ (F32 F64 Value Claim Err : Type 0) where
  -- What is sent from the tick after the item was taken up, and how the run ends: the item is let go, in a
  -- meal that fed the body and in one that did not, or the body died, or the run goes on.
  pub data IsHeld (hand : Hand)
      : List (Action F32 F64 Claim) → Ending (Snapshot F32 F64 Value) Err → Type 0 where
    eating : IsHeld hand [] unfinished
    dead :
        (rest : List (Snapshot F32 F64 Value))
        → IsHeld hand [] (ended status_stopped reason_failed rest)
    eaten :
        (rest : List (Snapshot F32 F64 Value))
        → IsHeld hand (Action.release_use hand ∷ []) (ended status_complete reason_none rest)
    inedible :
        (rest : List (Snapshot F32 F64 Value))
        → IsHeld hand
            (Action.release_use hand ∷ [])
            (ended status_stopped reason_out_of_resources rest)

  -- A whole meal: nothing is sent, or the slot is selected, its item is used once, and the rest follows.
  pub data IsMeal (slot : ℕ) (hand : Hand)
      : List (Action F32 F64 Claim) → Ending (Snapshot F32 F64 Value) Err → Type 0 where
    waiting : IsMeal slot hand [] unfinished
    dead_already :
        (rest : List (Snapshot F32 F64 Value))
        → IsMeal slot hand [] (ended status_stopped reason_failed rest)
    fed_already :
        (rest : List (Snapshot F32 F64 Value))
        → IsMeal slot hand [] (ended status_complete reason_none rest)
    taken :
        {actions : List (Action F32 F64 Claim)} {ending : Ending (Snapshot F32 F64 Value) Err}
        → IsHeld hand actions ending
        → IsMeal slot hand (Action.held_slot slot ∷ Action.use_item hand ∷ actions) ending

  abbrev pub eat_run :
      Eat → List (Snapshot F32 F64 Value) → Run (Snapshot F32 F64 Value) (Action F32 F64 Claim) Err
  eat_run e seen = run eat_tick e seen

  run-IsHeld :
      (e : Eat) (seen : List (Snapshot F32 F64 Value))
      → e.held ≡ true
      → IsHeld e.hand (eat_run e seen).actions (eat_run e seen).ending
  unfolding run eat_tick
  run-IsHeld e [] held = eating
  run-IsHeld e (o ∷ rest) held = elim (Bool-cases o.player.known) [
    | inr unknown ↦ rw unknown (run-IsHeld e rest held)
    | inl known ↦ elim (Bool-cases o.player.dead) [
      | inl died ↦ rw (known, died) (dead rest)
      | inr lives ↦
          elim (Bool-cases
            (not (int_leb o.player.food e.started) || int_leb e.full o.player.food)) [
              | inl fed ↦ rw (known, lives, held, fed) (eaten rest)
              | inr hungry ↦ elim (Bool-cases (ltb (e.waited + 1) e.ticks)) [
                | inl early ↦
                    rw (known, lives, held, hungry, early)
                      (run-IsHeld (record e { held = true; waited = e.waited + 1 }) rest refl)
                | inr last ↦ rw (known, lives, held, hungry, last) (inedible rest)
              ]
            ]
    ]
  ]

  -- Whatever a meal observes: it sends nothing, or it selects the slot and uses the item once, and lets go
  -- of it once where it ends, except where the body dies while the item is held.
  pub run-IsMeal :
      (slot : ℕ) (full : ℤ) (ticks : ℕ) (seen : List (Snapshot F32 F64 Value))
      → let r = eat_run (unfed slot full ticks) seen in IsMeal slot main_hand r.actions r.ending
  unfolding run eat_tick
  run-IsMeal slot full ticks [] = waiting
  run-IsMeal slot full ticks (o ∷ rest) =
      let e = unfed slot full ticks in
      let holding = record e { held = true; started = o.player.food; waited = 0 } in
      elim (Bool-cases o.player.known) [
        | inr unknown ↦ rw unknown (run-IsMeal slot full ticks rest)
        | inl known ↦ elim (Bool-cases o.player.dead) [
          | inl died ↦ rw (known, died) (dead_already rest)
          | inr lives ↦ elim (Bool-cases (int_leb full o.player.food)) [
            | inl fed ↦ rw (known, lives, fed) (fed_already rest)
            | inr hungry ↦ rw (known, lives, hungry) (taken (run-IsHeld holding rest refl))
          ]
        ]
      ]

  run_held_ends :
      (e : Eat) (seen : List (Snapshot F32 F64 Value))
      → e.held ≡ true
      → e.waited < e.ticks
      → e.ticks ≤ e.waited + known_ticks seen
      → has_ended (eat_run e seen) ≡ true
  unfolding run eat_tick known_ticks
  run_held_ends e [] held short enough = ground arith
  run_held_ends e (o ∷ rest) held short enough = elim (Bool-cases o.player.known) [
    | inr unknown ↦ rw unknown (run_held_ends e rest held short (ground arith))
    | inl known ↦ elim (Bool-cases o.player.dead) [
      | inl died ↦ rw (known, died) refl
      | inr lives ↦
          elim (Bool-cases
            (not (int_leb o.player.food e.started) || int_leb e.full o.player.food)) [
              | inl fed ↦ rw (known, lives, held, fed) refl
              | inr hungry ↦ elim (Bool-cases (ltb (e.waited + 1) e.ticks)) [
                | inl early ↦
                    rw (known, lives, held, hungry, early)
                      (run_held_ends (record e { held = true; waited = e.waited + 1 }) rest refl
                        (ground arith) (ground arith))
                | inr last ↦ rw (known, lives, held, hungry, last) refl
              ]
            ]
    ]
  ]

  -- A meal of at least one tick ends, in one way or another, before more than its ticks have passed since
  -- the tick that used the item: one more observation of a known player is enough.
  pub run_ends :
      (slot : ℕ) (full : ℤ) (ticks : ℕ) (seen : List (Snapshot F32 F64 Value))
      → 1 ≤ ticks
      → ticks < known_ticks seen
      → has_ended (eat_run (unfed slot full ticks) seen) ≡ true
  unfolding run eat_tick known_ticks
  run_ends slot full ticks [] some_ticks enough = ground arith
  run_ends slot full ticks (o ∷ rest) some_ticks enough =
      let e = unfed slot full ticks in
      let holding = record e { held = true; started = o.player.food; waited = 0 } in
      elim (Bool-cases o.player.known) [
        | inr unknown ↦ rw unknown (run_ends slot full ticks rest some_ticks (ground arith))
        | inl known ↦ elim (Bool-cases o.player.dead) [
          | inl died ↦ rw (known, died) refl
          | inr lives ↦ elim (Bool-cases (int_leb full o.player.food)) [
            | inl fed ↦ rw (known, lives, fed) refl
            | inr hungry ↦
                rw (known, lives, hungry)
                  (run_held_ends holding rest refl (ground arith) (ground arith))
          ]
        ]
      ]
