-- ===== src/Client/Loop/Turns.antt =====
-- client/loop.go: the body of `runLoop` and what it calls.
pub mod Quiet
pub mod Announcements
pub mod Publishing
use headless_minecraft.Base.{
  ℕ, zero, suc, ◌+◌, ◌-◌, String, string_key, Bool, true, false, not, ◌&&◌, ◌||◌, Option, none,
  some, List, [], ◌∷◌, ◌++◌, leb, if◌then◌else◌, ◌==◌, is_some, ℤ,
}
use headless_minecraft.Base.Map
use headless_minecraft.Base.Map.{Map}
use headless_minecraft.Event.{Event, Stamped, Collector, new_collector, emit, events, reset, one}
use headless_minecraft.Version.Packet.{Packet}
use headless_minecraft.Version.Batch.{
  Batch, Batcher, Accepted, incomplete, complete, too_large, accept, finish,
}
use headless_minecraft.Version.Outbox.{Outbox, drain}
use headless_minecraft.World.Core.{World, WorldError, apply}
use headless_minecraft.World.Containers.{Containers}
use headless_minecraft.Client.Subscription.{Fanout, publish, close_all}
use headless_minecraft.Client.Actions.{Client, enter_play}
use headless_minecraft.Client.Loop.{
  TerrainWatch, chunk_loaded, session_disconnected, has_name, observe, ReadyState, LoopError,
  receive_failed, bundle_too_large, bundle_unterminated, dispatch_failed, write_failed,
  readiness_failed, apply_failed, Receipt, packet, end_of_file, failed, Turn, Ending, waiting,
  returned, Publication, of_batch, of_terrain, of_ready, Handled, Handler, Session, Loop, Step,
  and_then, events_of, ending_of,
}

module _ {P E H R Others Err Item : Type 0} (event : Event E) (fields : Packet P)
    (session : Session P E H R Err) where
  unfoldable pub say : Publication E → Loop P E H R Others Err Item → Loop P E H R Others Err Item
  say p l = record l {
    client = record l.client { fanout = publish event l.client.fanout (events_of p) };
    published = l.published ++ p ∷ [];
  }

  -- The state of a packet, noted where it changes: `noteState`.
  unfoldable pub note_state : String → Loop P E H R Others Err Item → Loop P E H R Others Err Item
  note_state state l =
      if state == l.packet_state
      then l
      else record l { packet_state = state; client = record l.client { last_state = state } }

  -- `tableDispatcher.Dispatch`, which a nil dispatcher has none of.
  unfoldable pub dispatch : P → Loop P E H R Others Err Item → Step P E H R Others Err Item
  dispatch p l = elim session.handlers [
    | none ↦ (l, none)
    | some table ↦ elim (Map.lookup (fields.name p) table) [
      | none ↦ (l, none)
      | some handle ↦
          let h = handle p l.handlers l.collector l.outbox in
          (
            record l { handlers = h.handlers; collector = h.collector; outbox = h.outbox },
            elim h.failure [ none ↦ none | some e ↦ some (dispatch_failed e) ],
          )
    ]
  ]

  unfoldable pub collect : E → Loop P E H R Others Err Item → Loop P E H R Others Err Item
  collect e l = record l { collector = emit l.collector e }

  unfoldable pub take_packet :
      Bool → P → Loop P E H R Others Err Item → Step P E H R Others Err Item
  take_packet bundled p l =
      and_then (dispatch p (note_state (fields.state p) l))
        (λ m. (collect (session.packet_received p bundled) m, none))

  -- The loop over a batch's packets.
  unfoldable pub take_packets :
      Bool → List P → Loop P E H R Others Err Item → Step P E H R Others Err Item
  take_packets bundled [] l = (l, none)
  take_packets bundled (p ∷ ps) l =
      let s = take_packet bundled p l in
      let rest = take_packets bundled ps s.0 in elim s.1 [ none ↦ rest | some e ↦ s ]

  unfoldable pub write_one : P → Loop P E H R Others Err Item → Step P E H R Others Err Item
  write_one p l = elim (session.write p) [
    | some e ↦ (l, some (write_failed e))
    | none ↦ (
      collect (session.packet_sent p)
          (record l { client = record l.client { written = l.client.written ++ p ∷ [] } }),
      none,
    )
  ]

  -- `send`
  unfoldable pub send : List P → Loop P E H R Others Err Item → Step P E H R Others Err Item
  send [] l = (l, none)
  send (p ∷ ps) l =
      let s = write_one p l in let rest = send ps s.0 in elim s.1 [ none ↦ rest | some e ↦ s ]

  -- What the handlers queued, which leaves the outbox empty.
  unfoldable pub send_queued : Loop P E H R Others Err Item → Step P E H R Others Err Item
  send_queued l =
      let (packets, emptied) = drain l.outbox in send packets (record l { outbox = emptied })

  -- `noteEnd`
  unfoldable pub note_end :
      List (Stamped E) → Loop P E H R Others Err Item → Loop P E H R Others Err Item
  note_end es l =
      if has_name event session_disconnected es
      then record l { client = record l.client { reported_end = true } }
      else l

  -- `watchTerrain`
  unfoldable pub watch_terrain :
      ℕ → List (Stamped E) → ℕ → Loop P E H R Others Err Item → Loop P E H R Others Err Item
  watch_terrain now es revision l = elim l.watch [
    | none ↦ l
    | some w ↦
        let (next, missing) = observe event w now es in
        elim missing [
          | none ↦ record l { watch = some next }
          | some since ↦
              say (of_terrain (one (session.observation_missing since) revision))
                (record l { watch = some next })
        ]
  ]

  abbrev pub set_placed :
      ReadyState → ℕ → Loop P E H R Others Err Item → Loop P E H R Others Err Item
  set_placed state now l = record l {
    ready_sent = true;
    signalled = some state;
    watch = elim l.watch [ none ↦ none | some w ↦ some (record w { ready_at = some now }) ];
    client = enter_play l.client;
  }

  -- What the loop does the first time that the rule reports readiness.
  unfoldable pub announce :
      ReadyState → ℕ → Loop P E H R Others Err Item → Loop P E H R Others Err Item
  announce state now l =
      if state.ready && not l.ready_sent
      then say (of_ready (one (session.ready state) 0)) (set_placed state now l)
      else l

  -- From the application to the world on.
  unfoldable pub report :
      Turn P Err → ReadyState → ℕ → Loop P E H R Others Err Item → Loop P E H R Others Err Item
  report t state revision l =
      let es = events l.collector revision in
      announce state t.placed
        (watch_terrain t.checked es revision (note_end es (say (of_batch es) l)))

  unfoldable pub apply_batch :
      Turn P Err
      → Batch P
      → ReadyState
      → Loop P E H R Others Err Item
      → Step P E H R Others Err Item
  apply_batch t batch state l = elim l.client.world [
    | none ↦ (report t state 0 l, none)
    | some w ↦
        let (next, c, revision, failure) = apply w batch l.collector in
        let applied = record l { collector = c; client = record l.client { world = some next } } in
        elim failure [
          | some e ↦ (applied, some (apply_failed e))
          | none ↦ (report t state revision applied, none)
        ]
  ]

  unfoldable pub answer_readiness :
      Turn P Err → Batch P → Loop P E H R Others Err Item → Step P E H R Others Err Item
  answer_readiness t batch l =
      let (rule, state, reply, failure) = session.observe_readiness batch l.rule in
      elim failure [
        | some e ↦ (record l { rule = rule }, some (readiness_failed e))
        | none ↦ and_then (send reply (record l { rule = rule })) (apply_batch t batch state)
      ]

  -- A complete batch: both buffers are emptied first.
  unfoldable pub take_batch :
      Turn P Err → Batch P → Loop P E H R Others Err Item → Step P E H R Others Err Item
  take_batch t batch l =
      and_then
        (and_then
          (take_packets batch.bundled batch.packets
            (record l { collector = reset l.collector; outbox = (drain l.outbox).1 }))
          send_queued)
        (answer_readiness t batch)

  unfoldable pub take_accepted :
      Turn P Err
      → Accepted P
      → Loop P E H R Others Err Item
      → Loop P E H R Others Err Item × Ending Err
  take_accepted t incomplete l = (l, waiting)
  take_accepted t (too_large n) l = (l, returned (some (bundle_too_large n)))
  take_accepted t (complete batch) l = let s = take_batch t batch l in (s.0, ending_of s.1)

  -- One pass through the loop's body.
  unfoldable pub turn :
      Turn P Err → Loop P E H R Others Err Item → Loop P E H R Others Err Item × Ending Err
  turn t l = elim t.receipt [
    | end_of_file ↦ (
      l,
      returned (elim (finish l.batcher) [ none ↦ none | some n ↦ some (bundle_unterminated n) ]),
    )
    | failed e ↦ (l, returned (some (receive_failed e)))
    | packet p ↦
        let (next, accepted) = accept fields l.batcher p in
        take_accepted t accepted (record l { batcher = next })
  ]

  -- `runLoop` over the receipts so far.
  unfoldable pub run_loop :
      List (Turn P Err) → Loop P E H R Others Err Item → Loop P E H R Others Err Item × Ending Err
  run_loop [] l = (l, waiting)
  run_loop (t ∷ ts) l =
      let (m, ending) = turn t l in
      let rest = run_loop ts m in elim ending [ waiting ↦ rest | returned e ↦ (m, returned e) ]
