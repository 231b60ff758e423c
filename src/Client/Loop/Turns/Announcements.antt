-- ===== src/Client/Loop/Turns/Announcements.antt =====
-- client/loop.go: what the read loop publishes, and in which order.
use mathlib.Core.List.{append_assoc}
use headless_minecraft.Base.{
  ℕ, ◌-◌, ◌≡◌, refl, arith, inl, inr, Bool, true, false, not, ◌&&◌, Option, none, some, List, [],
  ◌∷◌, ◌++◌, Bool-cases, Option-cases, if◌then◌else◌, leb,
}
use headless_minecraft.Event.{Event, Stamped, events, one}
use headless_minecraft.Version.Packet.{Packet}
use headless_minecraft.Client.Loop.{
  TerrainWatch, chunk_loaded, session_disconnected, has_name, observe, observe_since, Session, Loop,
  Turn, ReadyState, Publication, of_batch, of_terrain, of_ready,
}
use headless_minecraft.Client.Loop.Turns.{say, note_end, watch_terrain, announce, report, run_loop}
use headless_minecraft.Client.Loop.Turns.Quiet.{IsQuiet, run_loop-keeps}

-- How far a session has come, by what was published: before Ready; after it, with no chunk since;
-- after it, with a chunk; and with the missing terrain reported.
pub data Phase : Type 0 where
  unplaced : Phase
  placed : Phase
  settled : Phase
  told : Phase

abbrev is_unplaced : Phase → Bool
is_unplaced q = elim q [ unplaced ↦ true | _ ↦ false ]

unplaced_of : (q : Phase) → not (is_unplaced q) ≡ false → q ≡ unplaced
unplaced_of unplaced e = refl
unplaced_of placed e = absurd (ground (arith, e))
unplaced_of settled e = absurd (ground (arith, e))
unplaced_of told e = absurd (ground (arith, e))

module _ {E : Type 0} (event : Event E) where
  -- What may be published in a phase, and the phase after it.
  unfoldable pub advance : Phase → Publication E → Option Phase
  advance unplaced (of_batch es) = some unplaced
  advance unplaced (of_ready es) = some placed
  advance placed (of_batch es) =
      if has_name event chunk_loaded es then some settled else some placed
  advance placed (of_terrain es) = some told
  advance settled (of_batch es) = some settled
  advance told (of_batch es) = some told
  advance _ _ = none

  unfoldable pub advance_all : Phase → List (Publication E) → Option Phase
  unfolding advance
  advance_all q [] = some q
  advance_all q (p ∷ ps) = elim (advance q p) [ none ↦ none | some r ↦ advance_all r ps ]

  advance_all-++ :
      (q : Phase) (ps rs : List (Publication E))
      → advance_all q (ps ++ rs)
        ≡ elim (advance_all q ps) [ none ↦ none | some r ↦ advance_all r rs ]
  unfolding advance_all
  advance_all-++ q [] rs = refl
  advance_all-++ q (p ∷ ps) rs = elim (Option-cases (advance q p)) [
    | inl refused ↦ rw (advance_all, refused) refl
    | inr (m, goes) ↦ rw (advance_all, goes) (advance_all-++ m ps rs)
  ]

  -- What the watch knows in a phase.
  unfoldable pub Watches : Phase → TerrainWatch → Type 0
  Watches unplaced w = (w.seen ≡ false) × (w.said ≡ false) × (w.ready_at ≡ none)
  Watches placed w = (w.seen ≡ false) × (w.said ≡ false) × (at : ℕ) × (w.ready_at ≡ some at)
  Watches settled w = w.seen ≡ true
  Watches told w = (w.seen ≡ false) × (w.said ≡ true)

  pub watched_next : (q : Phase) (w v : TerrainWatch) → some w ≡ some v → Watches q w → Watches q v
  watched_next q w v same held = let e : w ≡ v = ground (arith, same) in rw⁻¹ e held

  -- The report of an observation, with the events that it publishes.
  abbrev report_of : (ℕ → List (Stamped E)) → Option ℕ → List (Publication E)
  report_of say_missing missing = elim missing [
    | none ↦ []
    | some since ↦ of_terrain (say_missing since) ∷ []
  ]

  -- A batch and what the watch says to it.
  record IsFollowed (q : Phase) (es : List (Stamped E)) (say_missing : ℕ → List (Stamped E))
      (r : TerrainWatch × Option ℕ) : Type 0 where
    pub next : Phase
    pub steps : advance_all q (of_batch es ∷ report_of say_missing r.1) ≡ some next
    pub watches : Watches next r.0
    pub same : is_unplaced next ≡ is_unplaced q

  observe-IsFollowed :
      (q : Phase) (w : TerrainWatch) (now : ℕ) (es : List (Stamped E))
      (say_missing : ℕ → List (Stamped E))
      → Watches q w
      → IsFollowed q es say_missing (observe event w now es)
  unfolding observe observe_since advance_all Watches
  observe-IsFollowed unplaced w now es say_missing (unseen, unsaid, unready) =
      rw (observe, unseen, unsaid, unready)
        (record { next = unplaced; steps = refl; watches = (unseen, unsaid, unready); same = refl })
  observe-IsFollowed placed w now es say_missing (unseen, unsaid, at, ready) =
      elim (Bool-cases (has_name event chunk_loaded es)) [
        | inl chunk ↦
            rw (observe, unseen, unsaid, ready, chunk)
              (record {
                next = settled;
                steps = rw (advance_all, advance, chunk) refl;
                watches = refl;
                same = refl;
              })
        | inr missing ↦ elim (Bool-cases (leb w.grace (now - at))) [
          | inl late ↦
              rw (observe, unseen, unsaid, ready, missing, observe_since, late)
                (record {
                  next = told;
                  steps = rw (advance_all, advance, missing) refl;
                  watches = (unseen, refl);
                  same = refl;
                })
          | inr early ↦
              rw (observe, unseen, unsaid, ready, missing, observe_since, early)
                (record {
                  next = placed;
                  steps = rw (advance_all, advance, missing) refl;
                  watches = (unseen, unsaid, at, ready);
                  same = refl;
                })
        ]
      ]
  observe-IsFollowed settled w now es say_missing seen =
      rw (observe, seen) (record { next = settled; steps = refl; watches = refl; same = refl })
  observe-IsFollowed told w now es say_missing (unseen, said) =
      rw (observe, unseen, said)
        (record { next = told; steps = refl; watches = (refl, refl); same = refl })

  -- A batch where nothing watches.
  batch-next :
      (q : Phase) (es : List (Stamped E))
      → (next : Phase) × ((advance_all q (of_batch es ∷ []) ≡ some next)
          × (is_unplaced next ≡ is_unplaced q))
  unfolding advance_all
  batch-next unplaced es = (unplaced, (refl, refl))
  batch-next placed es = elim (Bool-cases (has_name event chunk_loaded es)) [
    | inl chunk ↦ (settled, (rw (advance_all, advance, chunk) refl, refl))
    | inr missing ↦ (placed, (rw (advance_all, advance, missing) refl, refl))
  ]
  batch-next settled es = (settled, (refl, refl))
  batch-next told es = (told, (refl, refl))

module _ {P E H R Others Err Item : Type 0} (event : Event E) where
  -- A loop that has published what its variables say.
  pub record IsPhased (l : Loop P E H R Others Err Item) : Type 0 where
    pub phase : Phase
    pub reached : advance_all event unplaced l.published ≡ some phase
    pub sent : l.ready_sent ≡ not (is_unplaced phase)
    pub watched : (w : TerrainWatch) → l.watch ≡ some w → Watches event phase w

  IsPhased-quiet : (l m : Loop P E H R Others Err Item) → IsQuiet l m → IsPhased l → IsPhased m
  IsPhased-quiet l m same held = record {
    phase = held.phase;
    reached = rw (same.published) held.reached;
    sent = rw (same.ready_sent) held.sent;
    watched = λ w watching. held.watched w (rw (same.watch) at watching);
  }

module _ {P E H R Others Err Item : Type 0} (event : Event E) (fields : Packet P)
    (session : Session P E H R Err) where
  -- The phase after some more publications.
  later-IsPhased :
      (l m : Loop P E H R Others Err Item) (held : IsPhased event l) (ps : List (Publication E))
      (next : Phase)
      → m.published ≡ l.published ++ ps
      → m.ready_sent ≡ l.ready_sent
      → advance_all event held.phase ps ≡ some next
      → is_unplaced next ≡ is_unplaced held.phase
      → ((w : TerrainWatch) → m.watch ≡ some w → Watches event next w)
      → IsPhased event m
  later-IsPhased l m held ps next published sent steps same watched = record {
    phase = next;
    reached = rw (published, advance_all-++ event unplaced l.published ps, held.reached) steps;
    sent = rw (sent, same) held.sent;
    watched = watched;
  }

  -- What the watch says to a batch that was published.
  watch_terrain-IsPhased :
      (now revision : ℕ) (es : List (Stamped E)) (l m : Loop P E H R Others Err Item)
      → IsPhased event l
      → m.published ≡ l.published ++ of_batch es ∷ []
      → m.ready_sent ≡ l.ready_sent
      → m.watch ≡ l.watch
      → IsPhased event (watch_terrain event fields session now es revision m)
  unfolding watch_terrain say
  watch_terrain-IsPhased now revision es l m held published sent watch =
      elim (Option-cases m.watch) [
        | inl blind ↦
            let (next, (steps, same)) = batch-next event held.phase es in
            rw (watch_terrain, blind)
              (later-IsPhased l m held (of_batch es ∷ []) next published sent steps same
                (λ w watching. absurd (ground (arith, blind, watching))))
        | inr (w, watching) ↦
            let r = observe event w now es in
            let f =
              observe-IsFollowed event held.phase w now es
                (λ since. one (session.observation_missing since) revision)
                (held.watched w (ground (arith, watch, watching))) in
            elim (Option-cases r.1) [
              | inl quiet ↦
                  rw (watch_terrain, watching, quiet)
                    (later-IsPhased l (record m { watch = some r.0 }) held (of_batch es ∷ []) f.next
                      published sent (rw quiet at f.steps) f.same
                      (λ v now_watching. watched_next event f.next r.0 v now_watching f.watches))
              | inr (since, missing) ↦
                  rw (watch_terrain, watching, missing)
                    (later-IsPhased l
                      (say event fields session
                        (of_terrain (one (session.observation_missing since) revision))
                        (record m { watch = some r.0 }))
                      held
                      (of_batch es
                        ∷ of_terrain (one (session.observation_missing since) revision)
                        ∷ [])
                      f.next
                      (rw
                        (
                          published,
                          append_assoc l.published (of_batch es ∷ [])
                              (of_terrain (one (session.observation_missing since) revision) ∷ []),
                        )
                        refl)
                      sent (rw missing at f.steps) f.same
                      (λ v now_watching. watched_next event f.next r.0 v now_watching f.watches))
            ]
      ]

  batch-IsPhased :
      (now revision : ℕ) (es : List (Stamped E)) (l : Loop P E H R Others Err Item)
      → IsPhased event l
      → IsPhased event (
          watch_terrain event fields session now es revision
            (note_end event fields session es (say event fields session (of_batch es) l)))
  unfolding note_end say
  batch-IsPhased now revision es l held =
      elim (Bool-cases (has_name event session_disconnected es)) [
        | inl ends ↦
            rw (note_end, ends) (watch_terrain-IsPhased now revision es l _ held refl refl refl)
        | inr goes ↦
            rw (note_end, goes) (watch_terrain-IsPhased now revision es l _ held refl refl refl)
      ]

  announce-IsPhased :
      (state : ReadyState) (now : ℕ) (l : Loop P E H R Others Err Item)
      → IsPhased event l
      → IsPhased event (announce event fields session state now l)
  unfolding announce say advance_all Watches
  announce-IsPhased state now l held = elim (Bool-cases (state.ready && not l.ready_sent)) [
    | inr again ↦ rw (announce, again) held
    | inl goes ↦
        let before = unplaced_of held.phase (ground (arith, goes, held.sent)) in
        let es = one (session.ready state) 0 in
        rw (announce, goes)
          (record {
            phase = placed;
            reached =
                rw
                  (
                    advance_all-++ event unplaced l.published (of_ready es ∷ []),
                    held.reached,
                    before,
                  )
                  refl;
            sent = refl;
            watched = λ w watching. elim (Option-cases l.watch) [
              | inl blind ↦ absurd (ground (arith, rw blind at watching))
              | inr (v, sees) ↦
                  let (unseen, unsaid, unready) = rw before at held.watched v sees in
                  watched_next event placed (record v { ready_at = some now }) w
                    (rw sees at watching) (unseen, unsaid, now, refl)
            ];
          })
  ]

  report-IsPhased :
      (t : Turn P Err) (state : ReadyState) (revision : ℕ) (l : Loop P E H R Others Err Item)
      → IsPhased event l
      → IsPhased event (report event fields session t state revision l)
  unfolding report
  report-IsPhased t state revision l held =
      let es = events l.collector revision in
      announce-IsPhased state t.placed
        (watch_terrain event fields session t.checked es revision
          (note_end event fields session es (say event fields session (of_batch es) l)))
        (batch-IsPhased t.checked revision es l held)

  -- The whole loop keeps to the phases.
  pub run_loop-IsPhased :
      (ts : List (Turn P Err)) (l : Loop P E H R Others Err Item)
      → IsPhased event l
      → IsPhased event (run_loop event fields session ts l).0
  run_loop-IsPhased ts l held =
      run_loop-keeps event fields session (IsPhased event) (IsPhased-quiet event) report-IsPhased ts
        l held
