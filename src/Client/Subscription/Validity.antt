-- ===== src/Client/Subscription/Validity.antt =====
-- The invariant of the fanout of client/subscription.go: numbers and channel bounds.
use headless_minecraft.Base.{
  ℕ, suc, ◌+◌, ◌≤◌, ◌<◌, ◌≡◌, refl, Bool, false, some, List, [], ◌∷◌, ◌++◌, ◌≢◌, nat_key, length,
  length-append, keep, arith, Bool-cases, Option-cases, inl, inr, All, pos,
}
use headless_minecraft.Base.Map
use headless_minecraft.Base.Map.{
  Map, AllValues, AllValues-insert, AllValues-lookup, lookup-insert, lookup-insert_self,
}
use headless_minecraft.Event.{Event, Stamped, Domain}
use headless_minecraft.Client.Subscription.{
  Subscription, Fanout, subscribed, new_subscription, allocate, subscribe, deliver, deliver_all,
  selects, publish_to, publish_from, publish,
}
use headless_minecraft.Client.Subscription.Registry.{member, Distinct, publish_from_kept}

-- The fanout's numbers are distinct and were all handed out, and no channel exceeds its capacity.
pub record FanoutIsValid {E : Type 0} (f : Fanout E) : Type 0 where
  pub distinct : Distinct f.subs
  pub issued : All (λ i. i < f.next) f.subs
  pub within : AllValues (λ (s : Subscription E). length s.channel ≤ s.capacity) f.heap

member-keep :
    (p : ℕ → Bool) (j : ℕ) (is : List ℕ) → member j is ≡ false → member j (keep p is) ≡ false
unfolding member keep
member-keep p j [] h = refl
member-keep p j (i ∷ is) h = ground (arith, member-keep p j is)

Distinct-keep : (p : ℕ → Bool) (is : List ℕ) → Distinct is → Distinct (keep p is)
unfolding keep
Distinct-keep p [] d = tt
Distinct-keep p (i ∷ is) d = elim (Bool-cases (p i)) [
  | inl h ↦ rw h (member-keep p i is d.0, Distinct-keep p is d.1)
  | inr h ↦ rw h (Distinct-keep p is d.1)
]

All-keep {ℓ} : (P : ℕ → Type ℓ) (p : ℕ → Bool) (is : List ℕ) → All P is → All P (keep p is)
unfolding keep
All-keep P p [] h = tt
All-keep P p (i ∷ is) h = elim (Bool-cases (p i)) [
  | inl e ↦ rw e (h.0, All-keep P p is h.1)
  | inr e ↦ rw e (All-keep P p is h.1)
]

issued_member : (n : ℕ) (is : List ℕ) → All (λ i. i < n) is → member n is ≡ false
unfolding member
issued_member n [] h = refl
issued_member n (i ∷ is) h = ground (arith, issued_member n is h.1)

Distinct-append :
    (n : ℕ) (is : List ℕ) → All (λ i. i < n) is → Distinct is → Distinct (is ++ n ∷ [])
unfolding member
Distinct-append n [] h d = (refl, tt)
Distinct-append n (i ∷ is) h d = (fresh is d.0 h.0, Distinct-append n is h.1 d.1)
  where
    fresh : (js : List ℕ) → member i js ≡ false → i < n → member i (js ++ n ∷ []) ≡ false
    fresh [] m lt = ground arith
    fresh (j ∷ js) m lt = ground (arith, fresh js)

issued-append : (n : ℕ) (is : List ℕ) → All (λ i. i < n) is → All (λ i. i < n + 1) (is ++ n ∷ [])
issued-append n [] h = (omega arith, tt)
issued-append n (i ∷ is) h = (omega arith, issued-append n is h.1)

module _ {E : Type 0} (event : Event E) where
  deliver_within :
      (s : Subscription E) (e : Stamped E)
      → length s.channel ≤ s.capacity
      → length (deliver s e).0.channel ≤ (deliver s e).0.capacity
  unfolding deliver
  deliver_within s e h = ground (arith, length-append s.channel (e ∷ []))

  deliver_all_within :
      (s : Subscription E) (es : List (Stamped E))
      → length s.channel ≤ s.capacity
      → length (deliver_all event s es).0.channel ≤ (deliver_all event s es).0.capacity
  unfolding deliver_all
  deliver_all_within s [] h = h
  deliver_all_within s (e ∷ es) h = elim (Bool-cases (selects event s.selector e)) [
    | inr miss ↦ rw miss (deliver_all_within s es h)
    | inl hit ↦ rw hit (elim (Bool-cases (deliver s e).1) [
      | inl alive ↦ rw alive (deliver_all_within (deliver s e).0 es (deliver_within s e h))
      | inr dead ↦ rw dead (deliver_within s e h)
    ])
  ]

  publish_from_within :
      (es : List (Stamped E)) (heap : Map ℕ (Subscription E)) (is : List ℕ)
      → AllValues (λ (s : Subscription E). length s.channel ≤ s.capacity) heap
      → AllValues
          (λ (s : Subscription E). length s.channel ≤ s.capacity)
          (publish_from event es heap is).0
  unfolding publish_from publish_to
  publish_from_within es heap [] h = h
  publish_from_within es heap (i ∷ is) h = elim (Option-cases (Map.lookup i heap)) [
    | inl e ↦ rw (e, publish_to) (publish_from_within es heap is h)
    | inr (s, e) ↦
        rw (e, publish_to)
          (publish_from_within es (Map.insert i (deliver_all event s es).0 heap) is (
            AllValues-insert _ i _ heap h
              (deliver_all_within s es (AllValues-lookup _ i s heap h e))))
  ]

  -- A publication, of any events, keeps the fanout valid: its numbers stay distinct and no channel
  -- grows past its capacity.
  pub publish-FanoutIsValid :
      (f : Fanout E) (es : List (Stamped E)) → FanoutIsValid f → FanoutIsValid (publish event f es)
  unfolding publish
  publish-FanoutIsValid f [] v = v
  publish-FanoutIsValid f (e ∷ es) v =
      let kept = publish_from_kept event (e ∷ es) f.heap f.subs v.distinct in
      record {
        distinct = rw kept (Distinct-keep _ f.subs v.distinct);
        issued = rw kept (All-keep _ _ f.subs v.issued);
        within = publish_from_within (e ∷ es) f.heap f.subs v.within;
      }

module _ {E : Type 0} where
  -- A new subscription gets an unused number and an empty channel of its capacity, and the fanout
  -- stays valid; a buffer that is not positive and an empty selector are refused.
  pub subscribe-FanoutIsValid :
      (f : Fanout E) (selector : Domain) (buffer : ℕ)
      → FanoutIsValid f
      → selector ≢ 0
      → (g : Fanout E) × (subscribe f selector (pos (suc buffer)) ≡ subscribed f.next g)
        × (Map.lookup f.next g.heap ≡ some (new_subscription selector (suc buffer)))
        × (member f.next f.subs ≡ false)
        × FanoutIsValid g
  unfolding subscribe allocate new_subscription
  subscribe-FanoutIsValid f selector buffer v ne = (
    allocate f selector (suc buffer),
    ground arith,
    lookup-insert_self f.next _ f.heap,
    issued_member f.next f.subs v.issued,
    record {
      distinct = Distinct-append f.next f.subs v.issued v.distinct;
      issued = issued-append f.next f.subs v.issued;
      within = AllValues-insert _ f.next _ f.heap v.within (omega arith);
    },
  )
