-- ===== src/Behaviour.antt =====
-- behaviour/behaviour.go and behaviour/scope.go: tasks of many ticks, asked once per tick. A behaviour
-- is a state and its `Tick`; a pointer's mutation is the state returned, also where a tick fails. `O` is
-- what a tick observes and `A` an action. `run` is the caller's loop over the ticks.
pub mod Observed
pub mod Sequence
pub mod Dig
pub mod Eat
pub mod Block
pub mod Fish
pub mod Build
pub mod Follow
mod Tests
use headless_minecraft.Base.{
  String, Bool, true, false, Option, none, some, List, [], ◌∷◌, ◌++◌, if◌then◌else◌, is_empty,
}
use headless_minecraft.Safety.{Scope, Text, Unicode, Authorization, allows}

pub data Status : Type 0 where
  status_running : Status
  status_complete : Status
  status_stopped : Status

-- `String` of a status.
abbrev pub status_name : Status → String
status_name status_running = "running"
status_name status_complete = "complete"
status_name status_stopped = "stopped"

pub data Reason : Type 0 where
  reason_none : Reason
  reason_blocked : Reason
  reason_stuck : Reason
  reason_world_changed : Reason
  reason_failed : Reason
  reason_unauthorized : Reason
  reason_out_of_resources : Reason

-- `String` of a reason.
abbrev pub reason_name : Reason → String
reason_name reason_none = "none"
reason_name reason_blocked = "blocked"
reason_name reason_stuck = "stuck"
reason_name reason_world_changed = "world-changed"
reason_name reason_failed = "failed"
reason_name reason_unauthorized = "unauthorized"
reason_name reason_out_of_resources = "out-of-resources"

pub record Outcome (A : Type 0) : Type 0 where
  pub actions : List A
  pub status : Status
  pub reason : Reason

module _ {A : Type 0} where
  abbrev pub running : List A → Outcome A
  running actions = record { actions = actions; status = status_running; reason = reason_none }

  abbrev pub complete : List A → Outcome A
  complete actions = record { actions = actions; status = status_complete; reason = reason_none }

  abbrev pub stopped : Reason → Outcome A
  stopped reason = record { actions = []; status = status_stopped; reason = reason }

-- What `Tick` returns: an outcome or an error.
pub data Ticked (A Err : Type 0) : Type 0 where
  decided : Outcome A → Ticked A Err
  erred : Err → Ticked A Err

-- `Behaviour`
pub record Behaviour (O A Err : Type 0) : Type 1 where
  pub State : Type 0
  pub now : State
  pub tick : State → O → State × Ticked A Err

-- How a run of ticks went: the actions sent, and how it ended, with the observations left.
pub data Ending (O Err : Type 0) : Type 0 where
  unfinished : Ending O Err
  ended : Status → Reason → List O → Ending O Err
  broken : Err → List O → Ending O Err

pub record Run (O A Err : Type 0) : Type 0 where
  pub actions : List A
  pub ending : Ending O Err

module _ {O A Err : Type 0} where
  -- These actions before those of a run.
  abbrev pub after : List A → Run O A Err → Run O A Err
  after actions r = record r { actions = actions ++ r.actions }

  -- A tick's outcome, with the run that follows a running one.
  abbrev pub continue : Outcome A → List O → Run O A Err → Run O A Err
  continue outcome rest later = elim outcome.status [
    | status_running ↦ after outcome.actions later
    | _ ↦ record { actions = outcome.actions; ending = ended outcome.status outcome.reason rest }
  ]

  abbrev pub follow : Ticked A Err → List O → Run O A Err → Run O A Err
  follow (decided outcome) rest later = continue outcome rest later
  follow (erred e) rest later = record { actions = []; ending = broken e rest }

  -- Whether a run ended with its behaviour complete.
  abbrev pub completed : Run O A Err → Bool
  completed r = elim r.ending [ ended status_complete _ _ ↦ true | _ ↦ false ]

  -- Whether a run ended, in whatever way.
  abbrev pub has_ended : Run O A Err → Bool
  has_ended r = elim r.ending [ unfinished ↦ false | _ ↦ true ]

  unfoldable pub run {ℓ} : {S : Type ℓ} → (S → O → S × Ticked A Err) → S → List O → Run O A Err
  run tick s [] = record { actions = []; ending = unfinished }
  run tick s (o ∷ rest) =
      let (next, ticked) = tick s o in let later = run tick next rest in follow ticked rest later

-- The scopes that an authorization does not allow, in the order asked for.
unfoldable pub missing : Unicode → Authorization → Text → List Scope → List Scope
missing u a endpoint [] = []
missing u a endpoint (scope ∷ rest) =
    let more = missing u a endpoint rest in if allows u a endpoint scope then more else scope ∷ more

-- `RequireScopes`: the error names the scopes that are missing and the endpoint.
unfoldable pub require_scopes :
    Unicode → Authorization → Text → List Scope → Option (List Scope × Text)
require_scopes u a endpoint scopes =
    let lacking = missing u a endpoint scopes in
    if is_empty lacking then none else some (lacking, endpoint)
