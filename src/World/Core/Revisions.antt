-- ===== src/World/Core/Revisions.antt =====
-- The revision counter and the poison of world/world.go, over any sequence of calls.
use headless_minecraft.Base.{
  ℕ, zero, suc, ◌+◌, ◌%◌, ◌^◌, ◌≡◌, refl, sym, ap, subst, true, Option, none, some, List, [], ◌∷◌,
  ◌++◌, arith, Option-cases, inl, inr, ◌⊎◌,
}
use headless_minecraft.Event.{Collector, new_collector}
use headless_minecraft.Version.Batch.{Batch}
use headless_minecraft.World.Core.{
  World, Reducer, Mutate, WorldError, world_poisoned, next_revision, register, reduce_all, start,
  settle, apply, amend, snapshot,
}

-- The calls that change a world.
pub data Call (P E Menus Others Err : Type 0) : Type 0 where
  registers : Option (Reducer P E Menus Others Err) → Call P E Menus Others Err
  applies : Batch P → Call P E Menus Others Err
  amends : Mutate E Menus Err → Call P E Menus Others Err

-- The revision that a call's events carry, if it succeeds.
unfoldable issued : {Err : Type 0} → ℕ → Option (WorldError Err) → List ℕ
issued r none = r ∷ []
issued r (some e) = []

-- The `n` numbers after `r` modulo 2 ^ 64, and the last of them, or `r` where there is none.
abbrev pub revisions_after : ℕ → ℕ → List ℕ
revisions_after r zero = []
revisions_after r (suc n) = (r + 1) % 2 ^ 64 ∷ revisions_after ((r + 1) % 2 ^ 64) n

abbrev pub last_revision : ℕ → ℕ → ℕ
last_revision r zero = r
last_revision r (suc n) = last_revision ((r + 1) % 2 ^ 64) n

module _ {P E Menus Others Err : Type 0} where
  unfoldable pub perform :
      World P E Menus Others Err → Call P E Menus Others Err → World P E Menus Others Err × List ℕ
  unfolding issued
  perform w (registers r) = ((register w r).0, [])
  perform w (applies batch) =
      let (t, c, revision, err) = apply w batch new_collector in (t, issued revision err)
  perform w (amends mutate) = let (t, events, err) = amend w mutate in (t, issued t.revision err)

  unfoldable pub perform_all :
      World P E Menus Others Err
      → List (Call P E Menus Others Err)
      → World P E Menus Others Err × List ℕ
  perform_all w [] = (w, [])
  perform_all w (call ∷ rest) =
      let (t, now) = perform w call in let (u, later) = perform_all t rest in (u, now ++ later)

  -- A call issues nothing and leaves the revision, or it issues the next one.
  Advances : World P E Menus Others Err → World P E Menus Others Err × List ℕ → Type 0
  Advances w (t, issued) =
      ((issued ≡ []) × (t.revision ≡ w.revision))
      ⊎ ((issued ≡ next_revision w.revision ∷ []) × (t.revision ≡ next_revision w.revision))

  -- Once a world is poisoned and started, every call leaves it as it is and issues nothing.
  perform_poisoned :
      (w : World P E Menus Others Err) (e : Err) (call : Call P E Menus Others Err)
      → w.poisoned ≡ some e
      → w.started ≡ true
      → perform w call ≡ (w, [])
  unfolding perform register apply amend issued
  perform_poisoned w e (registers none) h started = refl
  perform_poisoned w e (registers (some r)) h started = simp (started, register) refl
  perform_poisoned w e (applies batch) h started = simp (h, apply) refl
  perform_poisoned w e (amends mutate) h started = simp (h, amend) refl

  perform_all_poisoned :
      (w : World P E Menus Others Err) (e : Err) (calls : List (Call P E Menus Others Err))
      → w.poisoned ≡ some e
      → w.started ≡ true
      → perform_all w calls ≡ (w, [])
  unfolding perform_all
  perform_all_poisoned w e [] h started = refl
  perform_all_poisoned w e (call ∷ rest) h started =
      rw (perform_poisoned w e call h started, perform_all_poisoned w e rest h started) refl

  -- A reducer's error leaves the revision and the local player's reference as they were, and poisons
  -- the world for good: no later sequence of calls changes it or issues a revision, and the snapshot
  -- is refused with the same error.
  pub apply_fails :
      (w t : World P E Menus Others Err) (batch : Batch P) (c d : Collector E) (revision : ℕ)
      (e : Err)
      → w.poisoned ≡ none
      → apply w batch c ≡ (t, d, revision, some (world_poisoned e))
      → (revision ≡ w.revision)
        × (t.revision ≡ w.revision)
        × (t.local ≡ w.local)
        × ((calls : List (Call P E Menus Others Err)) → perform_all t calls ≡ (t, []))
        × (snapshot t ≡ (none, some (world_poisoned e)))
  unfolding apply settle snapshot
  apply_fails w t batch c d revision e clean run =
      let out = reduce_all w.reducers batch (start w batch c) in
      elim (Option-cases out.failure) [
        | inl h ↦ cc (rw (clean, apply, h, settle) at run)
        | inr (x, h) ↦
            let poisoned_world : World P E Menus Others Err = record w {
              started = true;
              menus = out.menus;
              others = out.others;
              poisoned = some x;
            } in
            let ran : (poisoned_world, out.collector, w.revision, some (world_poisoned x))
                ≡ (t, d, revision, some (world_poisoned e)) =
              simp (clean, apply, h, settle) at run in
            let same : poisoned_world ≡ t =
              ap
                (λ (r : World P E Menus Others Err × Collector E × ℕ × Option (WorldError Err)).
                  r.0)
                ran in
            let why : x ≡ e = ground (arith, ran) in
            (
              sym (
                  ap
                    (λ (r : World P E Menus Others Err × Collector E × ℕ × Option (WorldError Err)).
                      r.2)
                    ran),
              ap (λ (u : World P E Menus Others Err). u.revision) (sym same),
              ap (λ (u : World P E Menus Others Err). u.local) (sym same),
              λ calls.
                  subst (λ u. perform_all u calls ≡ (u, [])) same
                    (perform_all_poisoned poisoned_world x calls refl refl),
              subst (λ u. snapshot u ≡ (none, some (world_poisoned e))) same
                  (ap (λ y. (none, some (world_poisoned y))) why),
            )
      ]
