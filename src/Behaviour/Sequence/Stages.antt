-- ===== src/Behaviour/Sequence/Stages.antt =====
-- behaviour/mine.go: a sequence is its stages, one after another.
use mathlib.Core.List.{append_assoc}
use headless_minecraft.Base.{
  suc, ◌≡◌, refl, ap, arith, List, [], ◌∷◌, drop, set, length, get_elem?-drop, drop-set,
  drop-suc_of, length-drop_of, leb, is_empty, map, some,
}
use headless_minecraft.Behaviour.{
  Behaviour, Ticked, decided, erred, Status, status_running, status_complete, status_stopped, Run,
  Ending, run, after, follow, ended, unfinished, broken,
}
use headless_minecraft.Behaviour.Observed.{built}
use headless_minecraft.Behaviour.Sequence.{
  Sequence, sequence_tick, new_sequence, all_present, moved, hand_over,
}

module _ {O A Err : Type 0} where
  -- A stage on its own.
  abbrev pub run_stage : Behaviour O A Err → List O → Run O A Err
  run_stage stage seen = run stage.tick stage.now seen

  -- What follows a run that completed starts on the observations it left.
  abbrev pub then_run : Run O A Err → (List O → Run O A Err) → Run O A Err
  then_run r later = elim r.ending [
    | unfinished ↦ r
    | ended status_complete reason rest ↦ after r.actions (later rest)
    | ended _ reason rest ↦ r
    | broken e rest ↦ r
  ]

  -- The stages, each run on its own over what the stages before it left.
  unfoldable pub run_stages : Behaviour O A Err → List (Behaviour O A Err) → List O → Run O A Err
  run_stages stage [] seen = run_stage stage seen
  run_stages stage (next ∷ stages) seen =
      then_run (run_stage stage seen) (λ rest. run_stages next stages rest)

  then_run-after :
      (actions : List A) (r : Run O A Err) (later : List O → Run O A Err)
      → then_run (after actions r) later ≡ after actions (then_run r later)
  then_run-after actions r later = go r.actions r.ending
    where
      go :
          (sent : List A) (e : Ending O Err)
          → let r : Run O A Err = record { actions = sent; ending = e } in
            then_run (after actions r) later ≡ after actions (then_run r later)
      go sent unfinished = refl
      go sent (ended status_running reason rest) = refl
      go sent (ended status_complete reason rest) =
          ap (λ all. record (later rest) { actions = all })
            (append_assoc actions sent (later rest).actions)
      go sent (ended status_stopped reason rest) = refl
      go sent (broken e rest) = refl

  -- The run of a stage, before the later stages.
  abbrev and_then : Run O A Err → List (Behaviour O A Err) → Run O A Err
  and_then r [] = r
  and_then r (next ∷ stages) = then_run r (λ rest. run_stages next stages rest)

  and_then-after :
      (actions : List A) (r : Run O A Err) (stages : List (Behaviour O A Err))
      → and_then (after actions r) stages ≡ after actions (and_then r stages)
  and_then-after actions r [] = refl
  and_then-after actions r (next ∷ stages) =
      then_run-after actions r (λ rest. run_stages next stages rest)

  run_stages-and_then :
      (stage : Behaviour O A Err) (stages : List (Behaviour O A Err)) (seen : List O)
      → run_stages stage stages seen ≡ and_then (run_stage stage seen) stages
  unfolding run_stages
  run_stages-and_then stage [] seen = refl
  run_stages-and_then stage (next ∷ stages) seen = refl

  -- One tick, if what follows it is as claimed.
  run-hand_over_step :
      (seen : List O)
      → ((s : Sequence O A Err) (stage : Behaviour O A Err) (stages : List (Behaviour O A Err))
          → drop s.at s.stages ≡ stage ∷ stages
          → run sequence_tick s seen ≡ and_then (run_stage stage seen) stages)
      → (s : Sequence O A Err) (stage : Behaviour O A Err) (stages : List (Behaviour O A Err))
      → drop s.at s.stages ≡ stage ∷ stages
      → (t : Ticked A Err)
      → follow (hand_over s t).1 seen (run sequence_tick (hand_over s t).0 seen)
        ≡ and_then (follow t seen (run_stage stage seen)) stages
  run-hand_over_step seen ih s stage stages h (erred e) = go stages
    where
      go :
          (stages : List (Behaviour O A Err))
          → let r : Run O A Err = record { actions = []; ending = broken e seen } in
            r ≡ and_then r stages
      go [] = refl
      go (next ∷ stages) = refl
  run-hand_over_step seen ih s stage stages h (decided outcome) = go outcome.status stages h
    where
      left :
          (stages : List (Behaviour O A Err))
          → drop s.at s.stages ≡ stage ∷ stages
          → leb (length s.stages) (suc s.at) ≡ is_empty stages
      left [] h = ground (arith, length-drop_of stage s.stages s.at [] h)
      left (next ∷ stages) h = ground (arith, length-drop_of stage s.stages s.at (next ∷ stages) h)

      go :
          (status : Status) (stages : List (Behaviour O A Err))
          → drop s.at s.stages ≡ stage ∷ stages
          → let t : Ticked A Err = decided (record outcome { status = status }) in
            follow (hand_over s t).1 seen (run sequence_tick (hand_over s t).0 seen)
            ≡ and_then (follow t seen (run_stage stage seen)) stages
      go status_running stages h =
          rw (ih s stage stages h, and_then-after outcome.actions (run_stage stage seen) stages)
            refl
      go status_complete [] h = rw (left [] h) refl
      go status_complete (next ∷ stages) h =
          let later : Sequence O A Err = record s { at = suc s.at } in
          rw
            (
              left (next ∷ stages) h,
              ih later next stages (drop-suc_of stage s.stages s.at (next ∷ stages) h),
              run_stages-and_then next stages seen,
            )
            refl
      go status_stopped [] h = refl
      go status_stopped (next ∷ stages) h = refl

  run-hand_over :
      (s : Sequence O A Err) (stage : Behaviour O A Err) (stages : List (Behaviour O A Err))
      (seen : List O)
      → drop s.at s.stages ≡ stage ∷ stages
      → run sequence_tick s seen ≡ and_then (run_stage stage seen) stages
  unfolding run sequence_tick
  run-hand_over s stage [] [] h = refl
  run-hand_over s stage (next ∷ stages) [] h = refl
  run-hand_over s stage stages (o ∷ seen) h =
      let later = moved stage (stage.tick stage.now o).0 in
      rw (sequence_tick, get_elem?-drop stage s.stages s.at stages h)
        (run-hand_over_step seen (λ s stage stages. run-hand_over s stage stages seen)
          (record s { stages = set s.stages s.at later }) later stages
          (drop-set stage s.stages s.at stages later h) (stage.tick stage.now o).1)

  all_present-map :
      (stages : List (Behaviour O A Err)) → all_present (map some stages) ≡ some stages
  unfolding all_present
  all_present-map [] = refl
  all_present-map (stage ∷ stages) = rw (all_present-map stages) refl

  -- A sequence is built from any stages that are all present. Run over any observations, it sends and ends
  -- as its stages do when each is run on its own over the observations that the stages before it left, up
  -- to the first stage that does not complete.
  pub run-new_sequence :
      (stage : Behaviour O A Err) (stages : List (Behaviour O A Err)) (seen : List O)
      → (s : Sequence O A Err) × (new_sequence {Err = Err} (map some (stage ∷ stages)) ≡ built s)
        × (run sequence_tick s seen ≡ run_stages stage stages seen)
  unfolding new_sequence all_present
  run-new_sequence stage stages seen =
      let s : Sequence O A Err = record { stages = stage ∷ stages; at = 0 } in
      (
        s,
        rw (new_sequence, all_present-map stages) refl,
        rw (run_stages-and_then stage stages seen) (run-hand_over s stage stages seen refl),
      )
