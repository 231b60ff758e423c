-- ===== src/Behaviour/Fish/Bobbers.antt =====
-- behaviour/fish.go: the cast after a bite, while the bobber is still the one of the last cast.
use headless_minecraft.Base.{
  ◌≡◌, refl, true, false, ◌&&◌, List, ◌∷◌, ltb, leb, ◌==◌, int_key, pos, is_some, ◌+◌,
}
use headless_minecraft.Version.Actions.{Action}
use headless_minecraft.Behaviour.{run, Run, ended, status_stopped, reason_out_of_resources}
use headless_minecraft.Behaviour.Observed.{Snapshot, get}
use headless_minecraft.Behaviour.Fish.{Fish, fish_tick}

module _ (F32 F64 Value Claim Err : Type 0) where
  -- A tick whose player is known and alive.
  abbrev pub IsFishing : Snapshot F32 F64 Value → Type 0
  IsFishing o = (o.player.known ≡ true) × (o.player.dead ≡ false)

  -- A fish that bites is reeled in and the line cast again, where casts are left; if on the tick after the
  -- cast the caller has not named the new bobber and the entity of the old one is gone, the behaviour
  -- stops for want of a rod.
  pub run_recast :
      (f : Fish F32 F64 Value) (bite cast after : Snapshot F32 F64 Value)
      (rest : List (Snapshot F32 F64 Value))
      → IsFishing bite
      → IsFishing cast
      → IsFishing after
      → f.out ≡ true
      → (f.bobber == pos 0) ≡ false
      → is_some (get bite.entities f.bobber) ≡ true
      → f.detector bite f.bobber ≡ true
      → (ltb 0 f.casts && leb f.casts (f.reeled + 1)) ≡ false
      → is_some (get after.entities f.bobber) ≡ false
      → let r : Run (Snapshot F32 F64 Value) (Action F32 F64 Claim) Err =
          run fish_tick f (bite ∷ cast ∷ after ∷ rest) in
        r.ending ≡ ended status_stopped reason_out_of_resources rest
  unfolding run fish_tick
  run_recast f bite cast after rest b c a out named there bites more gone =
      rw (bites, b.0, b.1, out, named, there, c.0, c.1, more, a.0, a.1, named, gone) refl
