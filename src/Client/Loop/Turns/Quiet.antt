-- ===== src/Client/Loop/Turns/Quiet.antt =====
-- client/loop.go: the parts of a turn that publish nothing keep whatever does not depend on what they
-- change, and so a property that they and the reports keep is kept by the whole loop.
use headless_minecraft.Base.{
  ℕ, ◌≡◌, refl, ◌⊎◌, inl, inr, Bool, Option, none, some, List, [], ◌∷◌, ◌++◌, String, Bool-cases,
  Option-cases, ◌==◌, string_key,
}
use headless_minecraft.Base.Map
use headless_minecraft.Event.{Event, reset}
use headless_minecraft.Version.Packet.{Packet}
use headless_minecraft.Version.Batch.{Batch, Accepted, accept, incomplete, complete, too_large}
use headless_minecraft.Version.Outbox.{drain}
use headless_minecraft.World.Core.{apply}
use headless_minecraft.Client.Loop.{
  Session, Loop, Step, Turn, packet, end_of_file, failed, ReadyState, Receipt, and_then, LoopError,
  Ending, waiting, returned,
}
use headless_minecraft.Client.Loop.Turns.{
  note_state, dispatch, collect, take_packet, take_packets, write_one, send, send_queued, report,
  apply_batch, answer_readiness, take_batch, take_accepted, turn, run_loop,
}

module _ {P E H R Others Err Item : Type 0} where
  -- What publishing depends on is the same.
  pub record IsQuiet (l m : Loop P E H R Others Err Item) : Type 0 where
    pub fanout : m.client.fanout ≡ l.client.fanout
    pub reported_end : m.client.reported_end ≡ l.client.reported_end
    pub watch : m.watch ≡ l.watch
    pub ready_sent : m.ready_sent ≡ l.ready_sent
    pub published : m.published ≡ l.published

  abbrev still :
      {l m : Loop P E H R Others Err Item}
      → m.client.fanout ≡ l.client.fanout
      → m.client.reported_end ≡ l.client.reported_end
      → m.watch ≡ l.watch
      → m.ready_sent ≡ l.ready_sent
      → m.published ≡ l.published
      → IsQuiet l m
  still a b c d e = record {
    fanout = a;
    reported_end = b;
    watch = c;
    ready_sent = d;
    published = e;
  }

Ending-cases :
    {Err : Type 0} (x : Ending Err)
    → (x ≡ waiting) ⊎ ((e : Option (LoopError Err)) × (x ≡ returned e))
Ending-cases waiting = inl refl
Ending-cases (returned e) = inr (e, refl)

module _ {P E H R Others Err Item : Type 0} (event : Event E) (fields : Packet P)
    (session : Session P E H R Err) (Q : Loop P E H R Others Err Item → Type 0)
    (quiet : (l m : Loop P E H R Others Err Item) → IsQuiet l m → Q l → Q m) where
  and_then-keeps :
      (s : Step P E H R Others Err Item)
      (f : Loop P E H R Others Err Item → Step P E H R Others Err Item)
      → Q s.0
      → ((l : Loop P E H R Others Err Item) → Q l → Q (f l).0)
      → Q (and_then s f).0
  and_then-keeps s f held keeps = elim (Option-cases s.1) [
    | inl fine ↦ rw (and_then, fine) (keeps s.0 held)
    | inr (e, failing) ↦ rw (and_then, failing) held
  ]

  note_state-keeps :
      (state : String) (l : Loop P E H R Others Err Item)
      → Q l
      → Q (note_state event fields session state l)
  unfolding note_state
  note_state-keeps state l held = elim (Bool-cases (state == l.packet_state)) [
    | inl same ↦ rw (note_state, same) held
    | inr other ↦
        rw (note_state, other)
          (quiet l
            (record l { packet_state = state; client = record l.client { last_state = state } })
            (still refl refl refl refl refl) held)
  ]

  dispatch-keeps :
      (p : P) (l : Loop P E H R Others Err Item) → Q l → Q (dispatch event fields session p l).0
  unfolding dispatch
  dispatch-keeps p l held = elim (Option-cases session.handlers) [
    | inl missing ↦ rw (dispatch, missing) held
    | inr (table, given) ↦ elim (Option-cases (Map.lookup (fields.name p) table)) [
      | inl unknown ↦ rw (dispatch, given, unknown) held
      | inr (handle, found) ↦
          let h = handle p l.handlers l.collector l.outbox in
          rw (dispatch, given, found)
            (quiet l
              (record l { handlers = h.handlers; collector = h.collector; outbox = h.outbox })
              (still refl refl refl refl refl) held)
    ]
  ]

  collect-keeps :
      (e : E) (l : Loop P E H R Others Err Item) → Q l → Q (collect event fields session e l)
  unfolding collect
  collect-keeps e l held =
      quiet l (collect event fields session e l) (still refl refl refl refl refl) held

  take_packet-keeps :
      (bundled : Bool) (p : P) (l : Loop P E H R Others Err Item)
      → Q l
      → Q (take_packet event fields session bundled p l).0
  unfolding take_packet
  take_packet-keeps bundled p l held =
      let noted = note_state event fields session (fields.state p) l in
      and_then-keeps (dispatch event fields session p noted)
        (λ m. (collect event fields session (session.packet_received p bundled) m, none))
        (dispatch-keeps p noted (note_state-keeps (fields.state p) l held))
        (λ m. collect-keeps (session.packet_received p bundled) m)

  take_packets-keeps :
      (bundled : Bool) (ps : List P) (l : Loop P E H R Others Err Item)
      → Q l
      → Q (take_packets event fields session bundled ps l).0
  unfolding take_packets
  take_packets-keeps bundled [] l held = held
  take_packets-keeps bundled (p ∷ ps) l held =
      let s = take_packet event fields session bundled p l in
      let first = take_packet-keeps bundled p l held in
      elim (Option-cases s.1) [
        | inl fine ↦ rw (take_packets, fine) (take_packets-keeps bundled ps s.0 first)
        | inr (e, failing) ↦ rw (take_packets, failing) first
      ]

  write_one-keeps :
      (p : P) (l : Loop P E H R Others Err Item) → Q l → Q (write_one event fields session p l).0
  unfolding write_one
  write_one-keeps p l held = elim (Option-cases (session.write p)) [
    | inl fine ↦
        let m = record l { client = record l.client { written = l.client.written ++ p ∷ [] } } in
        rw (write_one, fine)
          (collect-keeps (session.packet_sent p) m
            (quiet l m (still refl refl refl refl refl) held))
    | inr (e, failing) ↦ rw (write_one, failing) held
  ]

  send-keeps :
      (ps : List P) (l : Loop P E H R Others Err Item) → Q l → Q (send event fields session ps l).0
  unfolding send
  send-keeps [] l held = held
  send-keeps (p ∷ ps) l held =
      let s = write_one event fields session p l in
      let first = write_one-keeps p l held in
      elim (Option-cases s.1) [
        | inl fine ↦ rw (send, fine) (send-keeps ps s.0 first)
        | inr (e, failing) ↦ rw (send, failing) first
      ]

  send_queued-keeps :
      (l : Loop P E H R Others Err Item) → Q l → Q (send_queued event fields session l).0
  unfolding send_queued
  send_queued-keeps l held =
      let m = record l { outbox = (drain l.outbox).1 } in
      send-keeps (drain l.outbox).0 m (quiet l m (still refl refl refl refl refl) held)

  module _
      (reports : (t : Turn P Err) (state : ReadyState) (revision : ℕ)
          (l : Loop P E H R Others Err Item)
        → Q l
        → Q (report event fields session t state revision l)) where
    apply_batch-keeps :
        (t : Turn P Err) (batch : Batch P) (state : ReadyState) (l : Loop P E H R Others Err Item)
        → Q l
        → Q (apply_batch event fields session t batch state l).0
    unfolding apply_batch
    apply_batch-keeps t batch state l held = elim (Option-cases l.client.world) [
      | inl missing ↦ rw (apply_batch, missing) (reports t state 0 l held)
      | inr (w, given) ↦
          let r = apply w batch l.collector in
          let m = record l { collector = r.1; client = record l.client { world = some r.0 } } in
          let applied = quiet l m (still refl refl refl refl refl) held in
          elim (Option-cases r.3) [
            | inl fine ↦ rw (apply_batch, given, fine) (reports t state r.2 m applied)
            | inr (e, failing) ↦ rw (apply_batch, given, failing) applied
          ]
    ]

    answer_readiness-keeps :
        (t : Turn P Err) (batch : Batch P) (l : Loop P E H R Others Err Item)
        → Q l
        → Q (answer_readiness event fields session t batch l).0
    unfolding answer_readiness
    answer_readiness-keeps t batch l held =
        let r = session.observe_readiness batch l.rule in
        let m = record l { rule = r.0 } in
        let observed = quiet l m (still refl refl refl refl refl) held in
        elim (Option-cases r.3) [
          | inl fine ↦
              rw (answer_readiness, fine)
                (and_then-keeps (send event fields session r.2 m)
                  (apply_batch event fields session t batch r.1) (send-keeps r.2 m observed)
                  (apply_batch-keeps t batch r.1))
          | inr (e, failing) ↦ rw (answer_readiness, failing) observed
        ]

    take_batch-keeps :
        (t : Turn P Err) (batch : Batch P) (l : Loop P E H R Others Err Item)
        → Q l
        → Q (take_batch event fields session t batch l).0
    unfolding take_batch
    take_batch-keeps t batch l held =
        let m = record l { collector = reset l.collector; outbox = (drain l.outbox).1 } in
        let taken = take_packets event fields session batch.bundled batch.packets m in
        and_then-keeps (and_then taken (send_queued event fields session))
          (answer_readiness event fields session t batch)
          (and_then-keeps taken (send_queued event fields session)
            (take_packets-keeps batch.bundled batch.packets m
              (quiet l m (still refl refl refl refl refl) held))
            send_queued-keeps)
          (answer_readiness-keeps t batch)

    take_accepted-keeps :
        (t : Turn P Err) (a : Accepted P) (l : Loop P E H R Others Err Item)
        → Q l
        → Q (take_accepted event fields session t a l).0
    unfolding take_accepted
    take_accepted-keeps t incomplete l held = held
    take_accepted-keeps t (too_large n) l held = held
    take_accepted-keeps t (complete batch) l held = take_batch-keeps t batch l held

    turn-keeps :
        (receipt : Receipt P Err) (checked placed : ℕ) (l : Loop P E H R Others Err Item)
        → Q l
        → let t : Turn P Err = record { receipt = receipt; checked = checked; placed = placed } in
          Q (turn event fields session t l).0
    unfolding turn
    turn-keeps end_of_file checked placed l held = held
    turn-keeps (failed e) checked placed l held = held
    turn-keeps (packet p) checked placed l held =
        let r = accept fields l.batcher p in
        let t : Turn P Err = record { receipt = packet p; checked = checked; placed = placed } in
        take_accepted-keeps t r.1 (record l { batcher = r.0 })
          (quiet l (record l { batcher = r.0 }) (still refl refl refl refl refl) held)

    pub run_loop-keeps :
        (ts : List (Turn P Err)) (l : Loop P E H R Others Err Item)
        → Q l
        → Q (run_loop event fields session ts l).0
    unfolding run_loop
    run_loop-keeps [] l held = held
    run_loop-keeps (t ∷ ts) l held =
        let first = turn-keeps t.receipt t.checked t.placed l held in
        elim (Ending-cases (turn event fields session t l).1) [
          | inl goes ↦
              rw (run_loop, goes) (run_loop-keeps ts (turn event fields session t l).0 first)
          | inr (e, ends) ↦ rw (run_loop, ends) first
        ]
