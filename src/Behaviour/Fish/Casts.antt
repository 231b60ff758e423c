-- ===== src/Behaviour/Fish/Casts.antt =====
-- behaviour/fish.go: how long fishing takes.
use headless_minecraft.Base.{
  ℕ, zero, suc, ◌+◌, ◌-◌, ◌≡◌, ◌≤◌, ◌<◌, true, false, if◌then◌else◌, List, [], ◌∷◌, int_key,
}
use headless_minecraft.Version.Actions.{Action}
use headless_minecraft.Behaviour.{run, has_ended, Run}
use headless_minecraft.Behaviour.Fish.{Fish, Tick, angle}

-- The most ticks that so many casts can take, and the one that sees the count is reached.
unfoldable pub budget : ℕ → ℕ → ℕ
budget patience zero = 1
budget patience (suc casts) = let rest = budget patience casts in patience + 1 + rest

module _ {F32 F64 Value : Type 0} where
  -- How many of the ticks see a known player.
  unfoldable pub known_angles : List (Tick F32 F64 Value) → ℕ
  known_angles [] = 0
  known_angles (t ∷ rest) =
      let more = known_angles rest in if t.1.player.known then suc more else more

module _ (F32 F64 Value Claim Err : Type 0) where
  abbrev pub fish_run :
      Fish F32 F64 Value
      → List (Tick F32 F64 Value)
      → Run (Tick F32 F64 Value) (Action F32 F64 Claim) Err
  fish_run f seen = run angle f seen

  -- A line that is out with `left` casts to come, or one that is in.
  abbrev IsOut : Fish F32 F64 Value → ℕ → ℕ → Type 0
  IsOut f left ticks =
      (f.out ≡ true)
      × (f.casts ≡ f.reeled + suc left)
      × (f.waited < f.patience)
      × (f.patience - f.waited + budget f.patience left ≤ ticks)

  abbrev IsIn : Fish F32 F64 Value → ℕ → ℕ → Type 0
  IsIn f left ticks =
      (f.out ≡ false)
      × (f.casts ≡ f.reeled + left)
      × (1 ≤ f.casts)
      × (1 ≤ f.patience)
      × (budget f.patience left ≤ ticks)

  -- The runs that are known to end, for lines that are out and lines that are in.
  abbrev OutEnds : List (Tick F32 F64 Value) → Type 0
  OutEnds seen =
      (f : Fish F32 F64 Value) (left : ℕ)
      → IsOut f left (known_angles seen)
      → has_ended (fish_run f seen) ≡ true

  abbrev InEnds : List (Tick F32 F64 Value) → Type 0
  InEnds seen =
      (f : Fish F32 F64 Value) (left : ℕ)
      → IsIn f left (known_angles seen)
      → has_ended (fish_run f seen) ≡ true
