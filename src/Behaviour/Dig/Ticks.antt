-- ===== src/Behaviour/Dig/Ticks.antt =====
-- behaviour/mine.go: what a dig sends, and when it completes.
use headless_minecraft.Base.{
  ℕ, suc, ◌+◌, ◌≡◌, ◌≤◌, ◌<◌, refl, arith, true, List, [], ◌∷◌, ◌++◌, ltb, leb, if◌then◌else◌,
  Bool-cases, inl, inr,
}
use headless_minecraft.Version.Actions.{Action, BlockPos, Face}
use headless_minecraft.Behaviour.{run, completed, Run}
use headless_minecraft.Behaviour.Observed.{Snapshot, known_ticks}
use headless_minecraft.Behaviour.Dig.{Dig, unstarted, dig_tick, start_dig, finish_dig}

one_more : (n k : ℕ) → n + suc k ≡ n + 1 + k
one_more n k = omega arith

module _ (F32 F64 Value Claim Err : Type 0) where
  -- A run of a dig over what the ticks observe.
  abbrev pub dig_run :
      Dig → List (Snapshot F32 F64 Value) → Run (Snapshot F32 F64 Value) (Action F32 F64 Claim) Err
  dig_run d seen = run dig_tick d seen

  run_started :
      (d : Dig) (seen : List (Snapshot F32 F64 Value))
      → d.started ≡ true
      → d.waited < d.ticks
      → ((dig_run d seen).actions
          ≡ (if leb d.ticks (d.waited + known_ticks seen) then finish_dig d ∷ [] else []))
        × (completed (dig_run d seen) ≡ leb d.ticks (d.waited + known_ticks seen))
  unfolding run dig_tick known_ticks
  run_started d [] started short = ground arith
  run_started d (o ∷ rest) started short = elim (Bool-cases o.player.known) [
    | inr unknown ↦ rw unknown (run_started d rest started short)
    | inl known ↦ elim (Bool-cases (ltb (d.waited + 1) d.ticks)) [
      | inl early ↦
          rw (known, started, early, one_more d.waited (known_ticks rest))
            (run_started (record d { started = true; waited = d.waited + 1 }) rest refl
              (ground arith))
      | inr last ↦ rw (known, started, last) (ground arith)
    ]
  ]

  -- A dig of at least one tick selects the tool and starts on the first tick that knows the player,
  -- sends nothing on the waiting ticks, and finishes on the tick where `ticks` more have known the
  -- player, never before: it completes exactly if that many observations come.
  pub run-unstarted :
      (at : BlockPos) (face : Face) (slot ticks : ℕ) (seen : List (Snapshot F32 F64 Value))
      → 1 ≤ ticks
      → let d = unstarted at face slot ticks in
        let begun = Action.held_slot slot ∷ start_dig d ∷ [] in
        ((dig_run d seen).actions ≡ (
          if ltb ticks (known_ticks seen)
          then begun ++ finish_dig d ∷ []
          else if ltb 0 (known_ticks seen)
          then begun
          else []))
        × (completed (dig_run d seen) ≡ ltb ticks (known_ticks seen))
  unfolding run dig_tick known_ticks
  run-unstarted at face slot ticks [] some_ticks = ground arith
  run-unstarted at face slot ticks (o ∷ rest) some_ticks =
      let d = unstarted at face slot ticks in
      let going = record d { started = true; revision = o.revision; waited = 0 } in
      elim (Bool-cases o.player.known) [
        | inr unknown ↦ rw unknown (run-unstarted at face slot ticks rest some_ticks)
        | inl known ↦ rw known (ground (arith, run_started going rest refl))
      ]
