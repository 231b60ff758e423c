-- ===== src/Behaviour/Observed.antt =====
-- world/snapshot.go and world/entities.go, as far as the behaviours read them, and the errors of their
-- constructors.
use headless_minecraft.Base.{
  ℕ, suc, Option, none, some, ℤ, pos, negsuc, List, [], ◌∷◌, int_key, if◌then◌else◌,
}
use headless_minecraft.Base.Map
use headless_minecraft.World.Player.{Player}
use headless_minecraft.World.Entities.{Entities, Entity}
use headless_minecraft.Safety.{Scope, Text}

-- `Snapshot`, the parts that behaviours read. The views copy the stores.
pub record Snapshot (F32 F64 Value : Type 0) : Type 0 where
  pub revision : ℕ
  pub player : Player F32 F64
  pub entities : Entities F32 F64 Value

module _ {F32 F64 Value : Type 0} where
  -- `Get`
  abbrev pub get : Entities F32 F64 Value → ℤ → Option (Entity F32 F64 Value)
  get view id = Map.lookup id view.tracked

  -- How many of the observations have a known player.
  unfoldable pub known_ticks : List (Snapshot F32 F64 Value) → ℕ
  known_ticks [] = 0
  known_ticks (o ∷ rest) = let more = known_ticks rest in if o.player.known then suc more else more

-- An `int` that the source only asks for being positive and, if so, compares with a count: none below
-- zero is told from zero.
abbrev pub at_least_zero : ℤ → ℕ
at_least_zero (pos n) = n
at_least_zero (negsuc n) = 0

-- Why a constructor refuses.
pub data Refusal (Err : Type 0) : Type 0 where
  unauthorized : List Scope → Text → Refusal Err
  no_stages : Refusal Err
  nil_stage : Refusal Err
  no_ticks : ℤ → Refusal Err
  bad_hotbar_slot : ℕ → Refusal Err
  no_adapter : Refusal Err
  no_off_hand : Refusal Err
  off_hand_unknown : Err → Refusal Err
  no_bite_detector : Refusal Err
  no_placement : Refusal Err
  no_target : Refusal Err

pub data Built {ℓ} (B : Type ℓ) (Err : Type 0) : Type ℓ where
  built : B → Built B Err
  refused : Refusal Err → Built B Err

module _ {ℓ} {B : Type ℓ} {Err : Type 0} where
  -- `if err := RequireScopes(...); err != nil { return nil, err }` before the rest of a constructor.
  abbrev pub authorized : Option (List Scope × Text) → Built B Err → Built B Err
  authorized none rest = rest
  authorized (some (scopes, endpoint)) rest = refused (Refusal.unauthorized scopes endpoint)
