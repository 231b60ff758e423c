-- ===== src/Behaviour/Block.antt =====
-- behaviour/consume.go: raising a shield and holding it. The adapter is what `EncodeAction` answers on a
-- hand swap, if there is an adapter.
pub mod Shields
use headless_minecraft.Base.{
  Bool, true, false, not, Option, none, some, List, [], ◌∷◌, if◌then◌else◌,
}
use headless_minecraft.Safety.{Unicode, Text, Authorization, scope_observe, scope_interact}
use headless_minecraft.Version.Actions.{Action, Hand, off_hand}
use headless_minecraft.Behaviour.{
  Ticked, decided, running, complete, stopped, reason_failed, require_scopes,
}
use headless_minecraft.Behaviour.Observed.{
  Snapshot, Built, built, refused, no_adapter, no_off_hand, off_hand_unknown, authorized,
}

pub record Block : Type 0 where
  pub hand : Hand
  pub raised : Bool
  pub lowered : Bool

-- What an adapter answers to an action: it encodes it, does not support it, or fails.
pub data Encoding (Err : Type 0) : Type 0 where
  encoded : Encoding Err
  unsupported : Encoding Err
  encode_failed : Err → Encoding Err

unfoldable pub new_block :
    {Err : Type 0} → Unicode → Authorization → Text → Option (Encoding Err) → Built Block Err
new_block u a endpoint adapter =
    authorized (require_scopes u a endpoint (scope_observe ∷ scope_interact ∷ [])) (elim adapter [
      | none ↦ refused no_adapter
      | some encoded ↦ built (record { hand = off_hand; raised = false; lowered = false })
      | some unsupported ↦ refused no_off_hand
      | some (encode_failed e) ↦ refused (off_hand_unknown e)
    ])

unfoldable pub lower : Block → Block
lower b = record b { lowered = true }

module _ {F32 F64 Value Claim Err : Type 0} where
  -- `Tick`
  unfoldable pub block_tick :
      Block → Snapshot F32 F64 Value → Block × Ticked (Action F32 F64 Claim) Err
  block_tick b observed =
      if not observed.player.known
      then (b, decided (running []))
      else if b.lowered
      then if not b.raised
        then (b, decided (complete []))
        else (record b { raised = false }, decided (complete (Action.release_use b.hand ∷ [])))
      else if observed.player.dead
      then (record b { raised = false }, decided (stopped reason_failed))
      else if not b.raised
      then (record b { raised = true }, decided (running (Action.use_item b.hand ∷ [])))
      else (b, decided (running []))
