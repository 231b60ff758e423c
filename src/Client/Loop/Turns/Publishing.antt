-- ===== src/Client/Loop/Turns/Publishing.antt =====
-- client/loop.go: the fanout after some turns, and whether the server has said why the session ends.
use headless_minecraft.Base.{
  ℕ, ◌≡◌, refl, arith, inl, inr, Bool, false, not, ◌&&◌, ◌||◌, some, List, [], ◌∷◌, ◌++◌,
  Bool-cases, Option-cases,
}
use headless_minecraft.Event.{Event, Stamped, events, one}
use headless_minecraft.Version.Packet.{Packet}
use headless_minecraft.Client.Actions.{enter_play}
use headless_minecraft.Client.Subscription.{Fanout, publish}
use headless_minecraft.Client.Loop.{
  session_disconnected, has_name, observe, Session, Loop, Turn, ReadyState, Publication, of_batch,
  of_terrain, of_ready, events_of,
}
use headless_minecraft.Client.Loop.Turns.{
  say, note_end, watch_terrain, set_placed, announce, report, run_loop,
}
use headless_minecraft.Client.Loop.Turns.Quiet.{IsQuiet, run_loop-keeps}

module _ {E : Type 0} (event : Event E) where
  -- The fanout after some publications, one after the other.
  unfoldable pub publish_each : Fanout E → List (Publication E) → Fanout E
  publish_each f [] = f
  publish_each f (p ∷ ps) = publish_each (publish event f (events_of p)) ps

  -- Whether a batch carried the server's reason for ending.
  unfoldable pub has_ended : List (Publication E) → Bool
  has_ended [] = false
  has_ended (of_batch es ∷ ps) = has_name event session_disconnected es || has_ended ps
  has_ended (p ∷ ps) = has_ended ps

  publish_each-++ :
      (f : Fanout E) (ps rs : List (Publication E))
      → publish_each f (ps ++ rs) ≡ publish_each (publish_each f ps) rs
  unfolding publish_each
  publish_each-++ f [] rs = refl
  publish_each-++ f (p ∷ ps) rs = publish_each-++ (publish event f (events_of p)) ps rs

  has_ended-++ :
      (ps rs : List (Publication E)) → has_ended (ps ++ rs) ≡ has_ended ps || has_ended rs
  unfolding has_ended
  has_ended-++ [] rs = refl
  has_ended-++ (of_batch es ∷ ps) rs = elim (Bool-cases (has_name event session_disconnected es)) [
    | inl ends ↦ rw (has_ended, ends) refl
    | inr goes ↦ rw (has_ended, goes) (has_ended-++ ps rs)
  ]
  has_ended-++ (of_terrain es ∷ ps) rs = has_ended-++ ps rs
  has_ended-++ (of_ready es ∷ ps) rs = has_ended-++ ps rs

module _ {P E H R Others Err Item : Type 0} (event : Event E) (f : Fanout E) (ended : Bool) where
  -- A loop whose fanout has received what the loop published, from the one that it began with, and that
  -- knows whether the end was reported.
  pub record IsTold (l : Loop P E H R Others Err Item) : Type 0 where
    pub fanout : l.client.fanout ≡ publish_each event f l.published
    pub reported : l.client.reported_end ≡ ended || has_ended event l.published

  IsTold-quiet : (l m : Loop P E H R Others Err Item) → IsQuiet l m → IsTold l → IsTold m
  IsTold-quiet l m same told = record {
    fanout = rw (same.fanout, same.published) told.fanout;
    reported = rw (same.reported_end, same.published) told.reported;
  }

module _ {P E H R Others Err Item : Type 0} (event : Event E) (fields : Packet P)
    (session : Session P E H R Err) (f : Fanout E) (ended : Bool) where
  -- A publication on which the mark of the end is kept.
  say-IsTold :
      (p : Publication E) (l : Loop P E H R Others Err Item)
      → IsTold event f ended l
      → has_ended event (p ∷ []) ≡ false
      → IsTold event f ended (say event fields session p l)
  unfolding say publish_each
  say-IsTold p l told other = record {
    fanout = rw (told.fanout, publish_each-++ event f l.published (p ∷ [])) refl;
    reported = rw (has_ended-++ event l.published (p ∷ []), other, told.reported) (ground arith);
  }

  batch-IsTold :
      (es : List (Stamped E)) (l : Loop P E H R Others Err Item)
      → IsTold event f ended l
      → IsTold event f ended
          (note_end event fields session es (say event fields session (of_batch es) l))
  unfolding say note_end publish_each has_ended
  batch-IsTold es l told = elim (Bool-cases (has_name event session_disconnected es)) [
    | inl ends ↦
        rw (note_end, ends)
          (record {
            fanout = rw (told.fanout, publish_each-++ event f l.published (of_batch es ∷ [])) refl;
            reported =
                rw (has_ended-++ event l.published (of_batch es ∷ []), has_ended, ends)
                  (ground arith);
          })
    | inr goes ↦ rw (note_end, goes) (say-IsTold (of_batch es) l told (rw (has_ended, goes) refl))
  ]

  watch_terrain-IsTold :
      (now revision : ℕ) (es : List (Stamped E)) (l : Loop P E H R Others Err Item)
      → IsTold event f ended l
      → IsTold event f ended (watch_terrain event fields session now es revision l)
  unfolding watch_terrain has_ended
  watch_terrain-IsTold now revision es l told = elim (Option-cases l.watch) [
    | inl blind ↦ rw (watch_terrain, blind) told
    | inr (w, watching) ↦
        let r = observe event w now es in
        let m = record l { watch = some r.0 } in
        let same : IsTold event f ended m = record {
          fanout = told.fanout;
          reported = told.reported;
        } in
        elim (Option-cases r.1) [
          | inl quiet ↦ rw (watch_terrain, watching, quiet) same
          | inr (since, missing) ↦
              rw (watch_terrain, watching, missing)
                (say-IsTold (of_terrain (one (session.observation_missing since) revision)) m same
                  refl)
        ]
  ]

  announce-IsTold :
      (state : ReadyState) (now : ℕ) (l : Loop P E H R Others Err Item)
      → IsTold event f ended l
      → IsTold event f ended (announce event fields session state now l)
  unfolding announce has_ended enter_play
  announce-IsTold state now l told = elim (Bool-cases (state.ready && not l.ready_sent)) [
    | inr again ↦ rw (announce, again) told
    | inl goes ↦
        rw (announce, goes)
          (say-IsTold (of_ready (one (session.ready state) 0))
            (set_placed event fields session state now l)
            (record { fanout = told.fanout; reported = told.reported }) refl)
  ]

  report-IsTold :
      (t : Turn P Err) (state : ReadyState) (revision : ℕ) (l : Loop P E H R Others Err Item)
      → IsTold event f ended l
      → IsTold event f ended (report event fields session t state revision l)
  unfolding report
  report-IsTold t state revision l told =
      let es = events l.collector revision in
      let noted = note_end event fields session es (say event fields session (of_batch es) l) in
      announce-IsTold state t.placed
        (watch_terrain event fields session t.checked es revision noted)
        (watch_terrain-IsTold t.checked revision es noted (batch-IsTold es l told))

  pub run_loop-IsTold :
      (ts : List (Turn P Err)) (l : Loop P E H R Others Err Item)
      → IsTold event f ended l
      → IsTold event f ended (run_loop event fields session ts l).0
  run_loop-IsTold ts l told =
      run_loop-keeps event fields session (IsTold event f ended) (IsTold-quiet event f ended)
        report-IsTold ts l told
