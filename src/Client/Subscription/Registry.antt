-- ===== src/Client/Subscription/Registry.antt =====
-- The fanout of client/subscription.go over its heap of subscriptions.
use headless_minecraft.Base.{
  ℕ, ◌≡◌, refl, ◌∙◌, subst, Bool, false, ◌||◌, Option, none, some, List, [], ◌∷◌, ◌++◌,
  if◌then◌else◌, ◌==◌, ==_iff, nat_key, keep, arith, Bool-cases, Option-cases, inl, inr,
}
use headless_minecraft.Base.Map
use headless_minecraft.Base.Map.{
  Map, AllValues, AllValues-insert, AllValues-lookup, lookup-insert, lookup-insert_self,
}
use headless_minecraft.Event.{Event, Stamped}
use headless_minecraft.Client.Subscription.{
  Subscription, Fanout, deliver_all, publish_to, publish_from, publish,
}

unfoldable pub member : ℕ → List ℕ → Bool
member j [] = false
member j (x ∷ xs) = x == j || member j xs

abbrev pub Distinct : List ℕ → Type 0
Distinct [] = Unit
Distinct (x ∷ xs) = (member x xs ≡ false) × Distinct xs

module _ {E : Type 0} (event : Event E) where
  abbrev pub published : List (Stamped E) → Option (Subscription E) → Option (Subscription E)
  published es none = none
  published es (some s) = some (deliver_all event s es).0

  abbrev pub stays_at : List (Stamped E) → Option (Subscription E) → Bool
  stays_at es none = false
  stays_at es (some s) = (deliver_all event s es).1

  abbrev pub stays : Map ℕ (Subscription E) → List (Stamped E) → ℕ → Bool
  stays heap es i = stays_at es (Map.lookup i heap)

  publish_to_lem :
      (es : List (Stamped E)) (heap : Map ℕ (Subscription E)) (i j : ℕ)
      (o : Option (Subscription E))
      → Map.lookup i heap ≡ o
      → Map.lookup j (publish_to event es heap i o).0
        ≡ (if i == j then published es (Map.lookup j heap) else Map.lookup j heap)
  unfolding publish_to
  publish_to_lem es heap i j none h = elim (Bool-cases (i == j)) [
    | inl e ↦ rw e (rw (← ((==_iff i j).0 e), h))
    | inr e ↦ rw e
  ]
  publish_to_lem es heap i j (some s) h = elim (Bool-cases (i == j)) [
    | inl e ↦ rw (lookup-insert i j _ heap, e) (rw (← ((==_iff i j).0 e), h))
    | inr e ↦ rw (lookup-insert i j _ heap, e)
  ]

  publish_from_lem :
      (es : List (Stamped E)) (heap : Map ℕ (Subscription E)) (is : List ℕ) (j : ℕ)
      → Distinct is
      → Map.lookup j (publish_from event es heap is).0
        ≡ (if member j is then published es (Map.lookup j heap) else Map.lookup j heap)
  unfolding publish_from member
  publish_from_lem es heap [] j d = refl
  publish_from_lem es heap (i ∷ is) j d =
      let next : Map ℕ (Subscription E) = (publish_to event es heap i (Map.lookup i heap)).0 in
      publish_from_lem es next is j d.1 ∙ elim (Bool-cases (i == j)) [
        | inl e ↦
            let gone : member j is ≡ false =
              subst (λ x. member x is ≡ false) ((==_iff i j).0 e) d.0 in
            rw (gone, e) (publish_to_lem es heap i j (Map.lookup i heap) refl ∙ rw e)
        | inr e ↦
            let same : Map.lookup j next ≡ Map.lookup j heap =
              publish_to_lem es heap i j (Map.lookup i heap) refl ∙ rw e in
            rw (same, e)
      ]

  stays_other :
      (es : List (Stamped E)) (heap : Map ℕ (Subscription E)) (i j : ℕ)
      → (i == j) ≡ false
      → stays (publish_to event es heap i (Map.lookup i heap)).0 es j ≡ stays heap es j
  stays_other es heap i j ne =
      let same : Map.lookup j (publish_to event es heap i (Map.lookup i heap)).0
          ≡ Map.lookup j heap =
        publish_to_lem es heap i j (Map.lookup i heap) refl ∙ rw ne in
      rw same

  keep-stays_other :
      (es : List (Stamped E)) (heap : Map ℕ (Subscription E)) (i : ℕ) (is : List ℕ)
      → member i is ≡ false
      → keep (stays (publish_to event es heap i (Map.lookup i heap)).0 es) is
        ≡ keep (stays heap es) is
  unfolding member keep
  keep-stays_other es heap i [] n = refl
  keep-stays_other es heap i (j ∷ is) n =
      let ne : (i == j) ≡ false = ground (arith, ==_iff i j, ==_iff j i) in
      rw (stays_other es heap i j ne, keep-stays_other es heap i is (ground arith))

  kept_one :
      (es : List (Stamped E)) (heap : Map ℕ (Subscription E)) (i : ℕ) (rest : List ℕ)
      → (publish_to event es heap i (Map.lookup i heap)).1 ++ rest
        ≡ (if stays heap es i then i ∷ rest else rest)
  unfolding publish_to
  kept_one es heap i rest = elim (Option-cases (Map.lookup i heap)) [
    | inl e ↦ rw (e, publish_to)
    | inr (s, e) ↦
        rw (e, publish_to)
          (elim (Bool-cases (deliver_all event s es).1) [ inl h ↦ rw h | inr h ↦ rw h ])
  ]

  pub publish_from_kept :
      (es : List (Stamped E)) (heap : Map ℕ (Subscription E)) (is : List ℕ)
      → Distinct is
      → (publish_from event es heap is).1 ≡ keep (stays heap es) is
  unfolding publish_from keep
  publish_from_kept es heap [] d = refl
  publish_from_kept es heap (i ∷ is) d =
      rw
        (
          publish_from_kept es (publish_to event es heap i (Map.lookup i heap)).0 is d.1,
          keep-stays_other es heap i is d.0,
        )
        (kept_one es heap i (keep (stays heap es) is))

  -- A publication of at least one event delivers to every subscription of the fanout exactly once,
  -- touches no other, and keeps subscribed, in order, those whose delivery did not end.
  pub publish_lem :
      (f : Fanout E) (e : Stamped E) (es : List (Stamped E))
      → Distinct f.subs
      → ((j : ℕ)
          → Map.lookup j (publish event f (e ∷ es)).heap ≡ (
              if member j f.subs
              then published (e ∷ es) (Map.lookup j f.heap)
              else Map.lookup j f.heap))
        × ((publish event f (e ∷ es)).subs ≡ keep (stays f.heap (e ∷ es)) f.subs)
  unfolding publish
  publish_lem f e es d = (
    (λ j. publish_from_lem (e ∷ es) f.heap f.subs j d),
    publish_from_kept (e ∷ es) f.heap f.subs d,
  )
