-- ===== src/Behaviour/Eat.antt =====
-- behaviour/consume.go: holding a food item until the body is fed. A meal is built with at least one
-- tick, so its count of ticks is a number.
pub mod Meals
use headless_minecraft.Base.{
  ℕ, ◌+◌, Bool, true, false, not, ◌||◌, List, [], ◌∷◌, ℤ, pos, negsuc, ltb, int_leb, if◌then◌else◌,
}
use headless_minecraft.Safety.{
  Unicode, Text, Authorization, scope_observe, scope_inventory, scope_interact,
}
use headless_minecraft.Version.Actions.{Action, Hand, main_hand}
use headless_minecraft.Behaviour.{
  Ticked, decided, running, complete, stopped, status_stopped, reason_failed,
  reason_out_of_resources, require_scopes,
}
use headless_minecraft.Behaviour.Observed.{
  Snapshot, Built, built, refused, no_ticks, bad_hotbar_slot, authorized,
}

pub record Eat : Type 0 where
  pub slot : ℕ
  pub hand : Hand
  pub ticks : ℕ
  pub full : ℤ
  pub held : Bool
  pub waited : ℕ
  pub started : ℤ

abbrev pub unfed : ℕ → ℤ → ℕ → Eat
unfed slot full ticks = record {
  slot = slot;
  hand = main_hand;
  ticks = ticks;
  full = full;
  held = false;
  waited = 0;
  started = pos 0;
}

unfoldable pub new_eat : {Err : Type 0} → Unicode → Authorization → Text → ℕ → ℤ → ℤ → Built Eat Err
new_eat u a endpoint slot full ticks =
    authorized (require_scopes u a endpoint (scope_observe ∷ scope_inventory ∷ scope_interact ∷ []))
      (if ltb 8 slot then refused (bad_hotbar_slot slot) else elim ticks [
        | negsuc n ↦ refused (no_ticks (negsuc n))
        | pos n ↦ if ltb 0 n then built (unfed slot full n) else refused (no_ticks (pos n))
      ])

module _ {F32 F64 Value Claim Err : Type 0} where
  -- `Tick`
  unfoldable pub eat_tick : Eat → Snapshot F32 F64 Value → Eat × Ticked (Action F32 F64 Claim) Err
  eat_tick e observed =
      if not observed.player.known
      then (e, decided (running []))
      else if observed.player.dead
      then (e, decided (stopped reason_failed))
      else if not e.held
      then if int_leb e.full observed.player.food then (e, decided (complete [])) else (
        record e { held = true; started = observed.player.food; waited = 0 },
        decided (running (Action.held_slot e.slot ∷ Action.use_item e.hand ∷ [])),
      )
      else if not (int_leb observed.player.food e.started) || int_leb e.full observed.player.food
      then (record e { held = false }, decided (complete (Action.release_use e.hand ∷ [])))
      else let e = record e { waited = e.waited + 1 } in
        if ltb e.waited e.ticks then (e, decided (running [])) else (
          record e { held = false },
          decided (record {
            actions = Action.release_use e.hand ∷ [];
            status = status_stopped;
            reason = reason_out_of_resources;
          }),
        )
