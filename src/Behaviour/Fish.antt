-- ===== src/Behaviour/Fish.antt =====
-- behaviour/fish.go: casting a rod, waiting for a bite, and reeling in. The detector is what `Bit`
-- answers on a snapshot and a bobber's number.
pub mod Casts
pub mod Reels
pub mod Bobbers
use headless_minecraft.Base.{
  ℕ, ◌+◌, Bool, true, false, not, ◌&&◌, Option, none, some, List, [], ◌∷◌, ℤ, pos, ltb, leb,
  is_some, if◌then◌else◌, ◌==◌, int_key,
}
use headless_minecraft.Safety.{
  Unicode, Text, Authorization, scope_observe, scope_inventory, scope_interact,
}
use headless_minecraft.Version.Actions.{Action, Hand, main_hand}
use headless_minecraft.Behaviour.{
  Ticked, decided, running, complete, stopped, status_stopped, reason_failed,
  reason_out_of_resources, require_scopes,
}
use headless_minecraft.Behaviour.Observed.{
  Snapshot, get, at_least_zero, Built, built, refused, no_bite_detector, bad_hotbar_slot,
  authorized,
}

-- `Bite`
abbrev pub Bite : Type 0 → Type 0 → Type 0 → Type 0
Bite F32 F64 Value = Snapshot F32 F64 Value → ℤ → Bool

module _ (F32 F64 Value : Type 0) where
  pub record Fish : Type 0 where
    pub slot : ℕ
    pub hand : Hand
    pub detector : Bite F32 F64 Value
    pub casts : ℕ
    pub bobber : ℤ
    pub out : Bool
    pub reeled : ℕ
    pub waited : ℕ
    pub patience : ℕ

module _ {F32 F64 Value : Type 0} where
  abbrev pub uncast : ℕ → Bite F32 F64 Value → ℕ → ℕ → Fish F32 F64 Value
  uncast slot detector casts patience = record {
    slot = slot;
    hand = main_hand;
    detector = detector;
    casts = casts;
    bobber = pos 0;
    out = false;
    reeled = 0;
    waited = 0;
    patience = patience;
  }

  unfoldable pub new_fish :
      {Err : Type 0}
      → Unicode
      → Authorization
      → Text
      → ℕ
      → Option (Bite F32 F64 Value)
      → ℤ
      → ℤ
      → Built (Fish F32 F64 Value) Err
  new_fish u a endpoint slot detector casts patience =
      authorized
        (require_scopes u a endpoint (scope_observe ∷ scope_inventory ∷ scope_interact ∷ []))
        (elim detector [
          | none ↦ refused no_bite_detector
          | some bit ↦
              if ltb 8 slot
              then refused (bad_hotbar_slot slot)
              else built (uncast slot bit (at_least_zero casts) (at_least_zero patience))
        ])

  -- `Bobber`
  unfoldable pub set_bobber : Fish F32 F64 Value → ℤ → Fish F32 F64 Value
  set_bobber f id = record f { bobber = id }

module _ {F32 F64 Value Claim Err : Type 0} where
  -- The end of `Tick`, where no bobber is known or none dips.
  unfoldable pub wait_for_bite :
      Fish F32 F64 Value → Fish F32 F64 Value × Ticked (Action F32 F64 Claim) Err
  wait_for_bite f =
      let f = record f { waited = f.waited + 1 } in
      if ltb 0 f.patience && leb f.patience f.waited
      then (
        record f { out = false },
        decided (record {
          actions = Action.use_item f.hand ∷ [];
          status = status_stopped;
          reason = reason_failed;
        }),
      )
      else (f, decided (running []))

  -- `Tick`
  unfoldable pub fish_tick :
      Fish F32 F64 Value
      → Snapshot F32 F64 Value
      → Fish F32 F64 Value × Ticked (Action F32 F64 Claim) Err
  fish_tick f observed =
      if not observed.player.known
      then (f, decided (running []))
      else if observed.player.dead
      then (f, decided (stopped reason_failed))
      else if not f.out
      then if ltb 0 f.casts && leb f.casts f.reeled then (f, decided (complete [])) else (
        record f { out = true; waited = 0 },
        decided (running (Action.held_slot f.slot ∷ Action.use_item f.hand ∷ [])),
      )
      else if f.bobber == pos 0
      then wait_for_bite f
      else if not (is_some (get observed.entities f.bobber))
      then (f, decided (stopped reason_out_of_resources))
      else if f.detector observed f.bobber
      then (
        record f { out = false; reeled = f.reeled + 1 },
        decided (running (Action.use_item f.hand ∷ [])),
      )
      else wait_for_bite f

-- What the caller does at a tick: it may first name the bobber, then it ticks.
abbrev pub Tick : Type 0 → Type 0 → Type 0 → Type 0
Tick F32 F64 Value = Option ℤ × Snapshot F32 F64 Value

module _ {F32 F64 Value : Type 0} where
  abbrev pub tell : Fish F32 F64 Value → Option ℤ → Fish F32 F64 Value
  tell f none = f
  tell f (some id) = set_bobber f id

module _ {F32 F64 Value Claim Err : Type 0} where
  abbrev pub angle :
      Fish F32 F64 Value
      → Tick F32 F64 Value
      → Fish F32 F64 Value × Ticked (Action F32 F64 Claim) Err
  angle f t = fish_tick (tell f t.0) t.1
