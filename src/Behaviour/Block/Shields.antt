-- ===== src/Behaviour/Block/Shields.antt =====
-- behaviour/consume.go: the shield over any history of ticks and calls of `Lower`.
use headless_minecraft.Base.{
  ◌≡◌, arith, Bool, true, false, ◌&&◌, List, [], ◌∷◌, ◌++◌, All, Bool-cases, inl, inr,
}
use headless_minecraft.Version.Actions.{Action, Hand}
use headless_minecraft.Behaviour.{Ticked, decided, erred}
use headless_minecraft.Behaviour.Observed.{Snapshot}
use headless_minecraft.Behaviour.Block.{Block, lower, block_tick}

module _ (F32 F64 Value : Type 0) where
  -- What the caller does: `Lower`, or a tick.
  pub data Call : Type 0 where
    lowers : Call
    ticks : Snapshot F32 F64 Value → Call

  -- No tick sees a dead player that is known.
  abbrev pub IsAlive : Call → Type 0
  IsAlive lowers = Unit
  IsAlive (ticks o) = (o.player.known && o.player.dead) ≡ false

module _ (F32 F64 Value Claim Err : Type 0) where
  abbrev sent : Ticked (Action F32 F64 Claim) Err → List (Action F32 F64 Claim)
  sent (decided outcome) = outcome.actions
  sent (erred e) = []

  abbrev step : Block → Call F32 F64 Value → Block × List (Action F32 F64 Claim)
  step b lowers = (lower b, [])
  step b (ticks o) =
      let t : Block × Ticked (Action F32 F64 Claim) Err = block_tick b o in (t.0, sent t.1)

  unfoldable pub block_steps :
      Block → List (Call F32 F64 Value) → Block × List (Action F32 F64 Claim)
  block_steps b [] = (b, [])
  block_steps b (call ∷ calls) =
      let (next, first) = step b call in
      let (last, rest) = block_steps next calls in (last, first ++ rest)

  -- Uses and releases of a hand by turns, from a hand in use or not to one in use or not.
  pub data IsToggled (hand : Hand) : Bool → List (Action F32 F64 Claim) → Bool → Type 0 where
    nothing : {held : Bool} → IsToggled hand held [] held
    raise :
        {actions : List (Action F32 F64 Claim)} {held : Bool}
        → IsToggled hand true actions held
        → IsToggled hand false (Action.use_item hand ∷ actions) held
    release :
        {actions : List (Action F32 F64 Claim)} {held : Bool}
        → IsToggled hand false actions held
        → IsToggled hand true (Action.release_use hand ∷ actions) held

  -- Over any history of ticks and calls of `Lower` in which the player does not die, the shield's hand is
  -- used and released by turns, and the behaviour's mark says truly whether it is in use.
  pub block_steps-IsToggled :
      (b : Block) (calls : List (Call F32 F64 Value))
      → All (IsAlive F32 F64 Value) calls
      → let (last, actions) = block_steps b calls in IsToggled b.hand b.raised actions last.raised
  unfolding block_steps block_tick lower
  block_steps-IsToggled b [] alive = nothing
  block_steps-IsToggled b (lowers ∷ calls) alive = block_steps-IsToggled (lower b) calls alive.1
  block_steps-IsToggled b (ticks o ∷ calls) alive =
      let drops = record b { raised = false } in
      let raises = record b { raised = true } in
      elim (Bool-cases o.player.known) [
        | inr unknown ↦ rw unknown (block_steps-IsToggled b calls alive.1)
        | inl known ↦ elim (Bool-cases b.lowered) [
          | inl down ↦ elim (Bool-cases b.raised) [
            | inl up ↦
                rw (known, down, up)
                  (release (block_steps-IsToggled (record drops { lowered = true }) calls alive.1))
            | inr idle ↦
                rw (known, down, idle)
                  (block_steps-IsToggled (record drops { lowered = true }) calls alive.1)
          ]
          | inr still ↦ elim (Bool-cases b.raised) [
            | inl up ↦
                rw (known, still, lives known, up)
                  (block_steps-IsToggled (record raises { lowered = false }) calls alive.1)
            | inr idle ↦
                rw (known, still, lives known, idle)
                  (raise (block_steps-IsToggled (record raises { lowered = false }) calls alive.1))
          ]
        ]
      ]
    where
      lives : o.player.known ≡ true → o.player.dead ≡ false
      lives known = ground (arith, alive.0, known)
