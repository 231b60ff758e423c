-- ===== src/Client/Loop/Ends/Reports.antt =====
-- client/close.go: how a session's end is reported.
use headless_minecraft.Base.{
  ℕ, ◌≡◌, refl, arith, inl, inr, Bool, true, false, ◌||◌, Option, none, some, List, String,
  Bool-cases, if◌then◌else◌, is_some,
}
use headless_minecraft.Event.{Event, Collector, one}
use headless_minecraft.Version.Packet.{Packet}
use headless_minecraft.Version.Batch.{Batcher}
use headless_minecraft.Version.Outbox.{Outbox}
use headless_minecraft.Client.Actions.{Client}
use headless_minecraft.Client.Subscription.{Fanout, publish}
use headless_minecraft.Client.Loop.{Session, LoopError, Turn}
use headless_minecraft.Client.Loop.Turns.{run_loop}
use headless_minecraft.Client.Loop.Turns.Announcements.{
  Phase, unplaced, advance_all, Watches, IsPhased, run_loop-IsPhased, watched_next,
}
use headless_minecraft.Client.Loop.Turns.Publishing.{
  publish_each, has_ended, IsTold, run_loop-IsTold,
}
use headless_minecraft.Client.Loop.Ends.{
  start_loop, loop_finished, publish_disconnect, reason_of, current_state,
}

module _ {P E H R Others Err Item : Type 0} (event : Event E) (session : Session P E H R Err)
    (is_ended : LoopError Err → Bool) (text : LoopError Err → String) (err : Option (LoopError Err))
    (stream : Option String) (c : Client P E Others Err P Item) where
  loop_finished-fanout :
      (closing : Bool) (heard : Fanout E) (said : Bool)
      → c.fanout ≡ heard
      → c.reported_end ≡ said
      → let last = record c { is_closed = closing } in
        (loop_finished event session is_ended text err stream last).fanout ≡ (
          if closing || said
          then heard
          else publish event heard (
              one
                (session.disconnected (reason_of is_ended text err) (current_state stream last))
                0))
  unfolding loop_finished publish_disconnect
  loop_finished-fanout true heard said told reported = told
  loop_finished-fanout false heard true told reported =
      simp (loop_finished, publish_disconnect, reported, told) refl
  loop_finished-fanout false heard false told reported =
      simp (loop_finished, publish_disconnect, reported, told) refl

module _ {P E H R Others Err Item : Type 0} (event : Event E) (fields : Packet P)
    (session : Session P E H R Err) (c : Client P E Others Err P Item) (grace : ℕ)
    (batcher : Batcher P) (collector : Collector E) (outbox : Outbox P) (handlers : H)
    (rule : R) where
  start_loop-IsPhased : IsPhased event (start_loop c grace batcher collector outbox handlers rule)
  unfolding start_loop advance_all Watches
  start_loop-IsPhased = record {
    phase = unplaced;
    reached = refl;
    sent = refl;
    watched = λ w watching. elim (Bool-cases (is_some c.world)) [
      | inl sees ↦
          watched_next event unplaced
            (record { grace = grace; ready_at = none; seen = false; said = false }) w
            (rw sees at watching) (refl, refl, refl)
      | inr blind ↦ absurd (ground (arith, rw blind at watching))
    ];
  }

  start_loop-IsTold :
      IsTold event c.fanout c.reported_end
        (start_loop c grace batcher collector outbox handlers rule)
  unfolding start_loop publish_each has_ended
  start_loop-IsTold = record { fanout = refl; reported = ground arith }

  -- From the loop's start, over any receipts at any times, and whatever the handlers, the readiness rule,
  -- the writer and the reducers do, the loop's publications take the phases: each batch is one, Ready
  -- comes at most once, and the missing terrain is reported at most once, only after Ready, and only
  -- where no batch since Ready loaded a chunk.
  pub advance_all-run_loop :
      (ts : List (Turn P Err))
      → let l =
          (run_loop event fields session ts
            (start_loop c grace batcher collector outbox handlers rule)).0 in
        (phase : Phase) × (advance_all event unplaced l.published ≡ some phase)
  advance_all-run_loop ts =
      let held = run_loop-IsPhased event fields session ts _ start_loop-IsPhased in
      (held.phase, held.reached)

  -- After any receipts, whatever error the loop stopped on: the subscriptions have received the loop's
  -- publications, and then a Disconnected of the transport exactly where the client is not being closed
  -- and neither an earlier session nor a batch of this one has reported the end.
  pub loop_finished-run_loop :
      (is_ended : LoopError Err → Bool) (text : LoopError Err → String) (ts : List (Turn P Err))
      (err : Option (LoopError Err)) (stream : Option String) (closing : Bool)
      → let l =
          (run_loop event fields session ts
            (start_loop c grace batcher collector outbox handlers rule)).0 in
        let last = record l.client { is_closed = closing } in
        let heard = publish_each event c.fanout l.published in
        (loop_finished event session is_ended text err stream last).fanout ≡ (
          if closing || (c.reported_end || has_ended event l.published)
          then heard
          else publish event heard (
              one
                (session.disconnected (reason_of is_ended text err) (current_state stream last))
                0))
  loop_finished-run_loop is_ended text ts err stream closing =
      let l =
        (run_loop event fields session ts
          (start_loop c grace batcher collector outbox handlers rule)).0 in
      let told =
        run_loop-IsTold event fields session c.fanout c.reported_end ts _ start_loop-IsTold in
      loop_finished-fanout event session is_ended text err stream l.client closing _ _ told.fanout
        told.reported
