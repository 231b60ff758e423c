-- ===== src/Behaviour/Sequence.antt =====
-- behaviour/mine.go: behaviours run one after another, each until it completes.
pub mod Stages
use headless_minecraft.Base.{
  ℕ, suc, Option, none, some, List, [], ◌∷◌, leb, length, get_elem?, set, if◌then◌else◌,
}
use headless_minecraft.Behaviour.{
  Behaviour, Ticked, decided, erred, running, complete, status_running, status_complete,
  status_stopped,
}
use headless_minecraft.Behaviour.Observed.{Built, built, refused, Refusal, no_stages, nil_stage}

pub record Sequence (O A Err : Type 0) : Type 1 where
  pub stages : List (Behaviour O A Err)
  pub at : ℕ

module _ {O A Err : Type 0} where
  -- The stages, unless one is nil.
  unfoldable pub all_present : List (Option (Behaviour O A Err)) → Option (List (Behaviour O A Err))
  all_present [] = some []
  all_present (none ∷ stages) = none
  all_present (some stage ∷ stages) = elim (all_present stages) [
    | none ↦ none
    | some rest ↦ some (stage ∷ rest)
  ]

  -- A stage after its tick left it in a state.
  abbrev pub moved : (stage : Behaviour O A Err) → stage.State → Behaviour O A Err
  moved stage next = record { State = stage.State; now = next; tick = stage.tick }

  -- The switch on the status of the stage's outcome.
  abbrev pub hand_over : Sequence O A Err → Ticked A Err → Sequence O A Err × Ticked A Err
  hand_over s (erred e) = (s, erred e)
  hand_over s (decided outcome) = elim outcome.status [
    | status_running ↦ (s, decided outcome)
    | status_complete ↦
        let later = record s { at = suc s.at } in
        if leb (length s.stages) (suc s.at)
        then (later, decided outcome)
        else (later, decided (running outcome.actions))
    | status_stopped ↦ (s, decided outcome)
  ]

  -- `Tick`
  unfoldable pub sequence_tick : Sequence O A Err → O → Sequence O A Err × Ticked A Err
  sequence_tick s observed = elim (get_elem? s.stages s.at) [
    | none ↦ (s, decided (complete []))
    | some stage ↦
        let (next, ticked) = stage.tick stage.now observed in
        hand_over (record s { stages = set s.stages s.at (moved stage next) }) ticked
  ]

-- `NewSequence`
unfoldable pub new_sequence :
    {O A Err : Type 0} → List (Option (Behaviour O A Err)) → Built (Sequence O A Err) Err
new_sequence [] = refused no_stages
new_sequence (stage ∷ stages) = elim (all_present (stage ∷ stages)) [
  | none ↦ refused nil_stage
  | some present ↦ built (record { stages = present; at = 0 })
]
