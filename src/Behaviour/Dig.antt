-- ===== src/Behaviour/Dig.antt =====
-- behaviour/mine.go: breaking one block. A dig is built with at least one tick, so its count of ticks is
-- a number.
pub mod Ticks
use headless_minecraft.Base.{
  ℕ, ◌+◌, Bool, true, false, not, List, [], ◌∷◌, ℤ, pos, negsuc, ltb, if◌then◌else◌,
}
use headless_minecraft.Safety.{
  Unicode, Text, Authorization, scope_observe, scope_dig, scope_inventory,
}
use headless_minecraft.Version.Actions.{Action, BlockPos, Face, DigStage}
use headless_minecraft.Behaviour.{Ticked, decided, running, complete, require_scopes}
use headless_minecraft.Behaviour.Observed.{Snapshot, Built, built, refused, no_ticks, authorized}

pub record Dig : Type 0 where
  pub at : BlockPos
  pub face : Face
  pub slot : ℕ
  pub ticks : ℕ
  pub started : Bool
  pub waited : ℕ
  pub revision : ℕ

abbrev pub unstarted : BlockPos → Face → ℕ → ℕ → Dig
unstarted at face slot ticks = record {
  at = at;
  face = face;
  slot = slot;
  ticks = ticks;
  started = false;
  waited = 0;
  revision = 0;
}

unfoldable pub new_dig :
    {Err : Type 0} → Unicode → Authorization → Text → BlockPos → Face → ℕ → ℤ → Built Dig Err
new_dig u a endpoint at face slot ticks =
    authorized (require_scopes u a endpoint (scope_observe ∷ scope_dig ∷ scope_inventory ∷ []))
      (elim ticks [
        | negsuc n ↦ refused (no_ticks (negsuc n))
        | pos n ↦ if ltb 0 n then built (unstarted at face slot n) else refused (no_ticks (pos n))
      ])

module _ {F32 F64 Claim : Type 0} where
  abbrev pub start_dig : Dig → Action F32 F64 Claim
  start_dig d = Action.dig d.at d.face DigStage.start

  abbrev pub finish_dig : Dig → Action F32 F64 Claim
  finish_dig d = Action.dig d.at d.face DigStage.finish

module _ {F32 F64 Value Claim Err : Type 0} where
  -- `Tick`
  unfoldable pub dig_tick : Dig → Snapshot F32 F64 Value → Dig × Ticked (Action F32 F64 Claim) Err
  dig_tick d observed =
      if not observed.player.known
      then (d, decided (running []))
      else if not d.started
      then (
        record d { started = true; revision = observed.revision; waited = 0 },
        decided (running (Action.held_slot d.slot ∷ start_dig d ∷ [])),
      )
      else let d = record d { waited = d.waited + 1 } in
        if ltb d.waited d.ticks
        then (d, decided (running []))
        else (d, decided (complete (finish_dig d ∷ [])))
