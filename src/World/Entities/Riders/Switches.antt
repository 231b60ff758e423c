-- ===== src/World/Entities/Riders/Switches.antt =====
-- What a list of passengers does to every entity, and what is left of a rider that changed vehicles.
use headless_minecraft.Base.{
  ◌≡◌, refl, sym, ap, ◌∙◌, Bool, true, false, ◌||◌, none, some, List, [], ◌∷◌, ℤ, pos,
  if◌then◌else◌, ◌==◌, ==_iff, ==_apart, ==_refl, int_key, arith, Option-cases, Bool-cases, inl,
  inr,
}
use headless_minecraft.Base.Map
use headless_minecraft.Base.Map.{Map, lookup-insert_same, lookup-insert_apart}
use headless_minecraft.World.Floats.{Floats}
use headless_minecraft.World.Entities.{
  Entity, Entities, Events, put, new_entity, tracked_at, track, modify,
}
use headless_minecraft.World.Entities.Riders.{dismount_one, dismount, mount, passengers_changed}

abbrev pub rides : ℤ → List ℤ → Bool
rides j [] = false
rides j (r ∷ rs) = r == j || rides j rs

module _ {F32 F64 : Type 0} (floats : Floats F32 F64) {Value : Type 0} where
  tracked_at-put :
      (s : Entities F32 F64 Value) (id j : ℤ) (e : Entity F32 F64 Value)
      → tracked_at floats (put s id e) j ≡ (if id == j then e else tracked_at floats s j)
  unfolding tracked_at
  tracked_at-put s id j e = elim (Bool-cases (id == j)) [
    | inl h ↦ rw (h, tracked_at, lookup-insert_same id j e s.tracked ((==_iff id j).0 h)) refl
    | inr h ↦ rw (h, tracked_at, lookup-insert_apart id j e s.tracked h) refl
  ]

  tracked_at_missing :
      (s : Entities F32 F64 Value) (i j : ℤ)
      → Map.lookup i s.tracked ≡ none
      → i ≡ j
      → tracked_at floats s j ≡ new_entity floats j
  unfolding tracked_at
  tracked_at_missing s i j h e =
      let there : Map.lookup j s.tracked ≡ none = rw (← e) h in rw (there, tracked_at) refl

  tracked_at_found :
      (s : Entities F32 F64 Value) (i j : ℤ) (x : Entity F32 F64 Value)
      → Map.lookup i s.tracked ≡ some x
      → i ≡ j
      → tracked_at floats s j ≡ x
  unfolding tracked_at
  tracked_at_found s i j x h e =
      let there : Map.lookup j s.tracked ≡ some x = rw (← e) h in rw (there, tracked_at) refl

  tracked_at-track :
      (s : Entities F32 F64 Value) (id j : ℤ)
      → tracked_at floats (track floats s id) j ≡ tracked_at floats s j
  unfolding track
  tracked_at-track s id j = elim (Option-cases (Map.lookup id s.tracked)) [
    | inr (e, h) ↦ rw (h, track) refl
    | inl h ↦ rw (h, track) (tracked_at-put s id j (new_entity floats id) ∙ fresh h (id == j) refl)
  ]
    where
      fresh :
          Map.lookup id s.tracked ≡ none
          → (b : Bool) → (id == j) ≡ b
          → (if b then new_entity floats id else tracked_at floats s j) ≡ tracked_at floats s j
      fresh h false q = refl
      fresh h true q =
          let same = (==_iff id j).0 q in
          ap (new_entity floats) same ∙ sym (tracked_at_missing s id j h same)

  vehicle-dismount_one :
      (s : Entities F32 F64 Value) (r j : ℤ)
      → ((tracked_at floats (dismount_one floats s r) j).vehicle
          ≡ (if r == j then pos 0 else (tracked_at floats s j).vehicle))
        × ((tracked_at floats (dismount_one floats s r) j).passengers
            ≡ (tracked_at floats s j).passengers)
  unfolding dismount_one
  vehicle-dismount_one s r j = elim (Bool-cases (r == j)) [
    | inl q ↦ elim (Option-cases (Map.lookup r s.tracked)) [
      | inl h ↦
          rw (h, dismount_one, q)
            (
              ap (λ (x : Entity F32 F64 Value). x.vehicle)
                  (tracked_at_missing s r j h ((==_iff r j).0 q)),
              refl,
            )
      | inr (x, h) ↦
          rw (h, dismount_one, tracked_at-put s r j (record x { vehicle = pos 0 }), q)
            (
              refl,
              ap (λ (x : Entity F32 F64 Value). x.passengers)
                  (sym (tracked_at_found s r j x h ((==_iff r j).0 q))),
            )
    ]
    | inr q ↦ elim (Option-cases (Map.lookup r s.tracked)) [
      | inl h ↦ rw (h, dismount_one, q) (refl, refl)
      | inr (x, h) ↦
          rw (h, dismount_one, tracked_at-put s r j (record x { vehicle = pos 0 }), q) (refl, refl)
    ]
  ]

  vehicle-dismount :
      (s : Entities F32 F64 Value) (rs : List ℤ) (j : ℤ)
      → ((tracked_at floats (dismount floats s rs) j).vehicle
          ≡ (if rides j rs then pos 0 else (tracked_at floats s j).vehicle))
        × ((tracked_at floats (dismount floats s rs) j).passengers
            ≡ (tracked_at floats s j).passengers)
  unfolding dismount
  vehicle-dismount s [] j = (refl, refl)
  vehicle-dismount s (r ∷ rs) j =
      let (vehicle, passengers) = vehicle-dismount (dismount_one floats s r) rs j in
      let (one, same) = vehicle-dismount_one s r j in
      (ground (arith, vehicle, one), passengers ∙ same)

  vehicle-modify :
      (s : Entities F32 F64 Value) (id r j : ℤ)
      → let t = modify floats s r (λ e. record e { vehicle = id }) in
        ((tracked_at floats t j).vehicle ≡ (if r == j then id else (tracked_at floats s j).vehicle))
        × ((tracked_at floats t j).passengers ≡ (tracked_at floats s j).passengers)
  unfolding modify
  vehicle-modify s id r j = elim (Bool-cases (r == j)) [
    | inl q ↦
        rw (tracked_at-put s r j (record (tracked_at floats s r) { vehicle = id }), q)
          (refl, ap (λ i. (tracked_at floats s i).passengers) ((==_iff r j).0 q))
    | inr q ↦
        rw (tracked_at-put s r j (record (tracked_at floats s r) { vehicle = id }), q) (refl, refl)
  ]

  vehicle-mount :
      (s : Entities F32 F64 Value) (id : ℤ) (rs : List ℤ) (j : ℤ)
      → ((tracked_at floats (mount floats s id rs) j).vehicle
          ≡ (if rides j rs then id else (tracked_at floats s j).vehicle))
        × ((tracked_at floats (mount floats s id rs) j).passengers
            ≡ (tracked_at floats s j).passengers)
  unfolding mount
  vehicle-mount s id [] j = (refl, refl)
  vehicle-mount s id (r ∷ rs) j =
      let t = modify floats s r (λ e. record e { vehicle = id }) in
      let (vehicle, passengers) = vehicle-mount t id rs j in
      let (one, same) = vehicle-modify s id r j in (ground (arith, vehicle, one), passengers ∙ same)

  passengers-modify :
      (s : Entities F32 F64 Value) (id j : ℤ) (riders : List ℤ)
      → let t = modify floats s id (λ e. record e { passengers = riders }) in
        ((tracked_at floats t j).vehicle ≡ (tracked_at floats s j).vehicle)
        × ((tracked_at floats t j).passengers
            ≡ (if id == j then riders else (tracked_at floats s j).passengers))
  unfolding modify
  passengers-modify s id j riders = elim (Bool-cases (id == j)) [
    | inl q ↦
        rw (tracked_at-put s id j (record (tracked_at floats s id) { passengers = riders }), q)
          (ap (λ i. (tracked_at floats s i).vehicle) ((==_iff id j).0 q), refl)
    | inr q ↦
        rw (tracked_at-put s id j (record (tracked_at floats s id) { passengers = riders }), q)
          (refl, refl)
  ]

  -- A list of passengers gives each of them the vehicle, and no vehicle to those of the old list who
  -- are not in the new one; it leaves every other vehicle and every other list.
  pub passengers_changed_lem :
      (s : Entities F32 F64 Value) (c : Events F32 F64) (id : ℤ) (riders : List ℤ) (j : ℤ)
      → let t = (passengers_changed floats s c id riders).0 in
        ((tracked_at floats t j).vehicle ≡ (
          if rides j riders
          then id
          else if rides j (tracked_at floats s id).passengers
          then pos 0
          else (tracked_at floats s j).vehicle))
        × ((tracked_at floats t j).passengers
            ≡ (if id == j then riders else (tracked_at floats s j).passengers))
  unfolding passengers_changed
  passengers_changed_lem s c id riders j =
      let old = (tracked_at floats s id).passengers in
      let tracked = track floats s id in
      let emptied = dismount floats tracked old in
      let listed = modify floats emptied id (λ e. record e { passengers = riders }) in
      let (mounted, kept) = vehicle-mount listed id riders j in
      let (same, now) = passengers-modify emptied id j riders in
      let (left, before) = vehicle-dismount tracked old j in
      let here = tracked_at-track s id j in
      (
        mounted
            ∙ ap (λ v. if rides j riders then id else v)
                (same ∙ left ∙ ap (λ e. if rides j old then pos 0 else Entity.vehicle e) here),
        kept
            ∙ now
            ∙ ap (λ l. if id == j then riders else l) (before ∙ ap (λ e. Entity.passengers e) here),
      )

  -- A rider that leaves one vehicle for another, where the list of the new vehicle arrives before the
  -- emptied list of the old one, is left without a vehicle, though the new vehicle still lists it.
  pub vehicle-passengers_changed :
      (s : Entities F32 F64 Value) (c : Events F32 F64) (old new rider : ℤ)
      → (old == new) ≡ false
      → let t = passengers_changed floats s c old (rider ∷ []) in
        let u = passengers_changed floats t.0 t.1 new (rider ∷ []) in
        let v = passengers_changed floats u.0 u.1 old [] in
        ((tracked_at floats v.0 rider).vehicle ≡ pos 0)
        × ((tracked_at floats v.0 new).passengers ≡ rider ∷ [])
  vehicle-passengers_changed s c old new rider apart =
      let t = passengers_changed floats s c old (rider ∷ []) in
      let u = passengers_changed floats t.0 t.1 new (rider ∷ []) in
      let back : (new == old) ≡ false = elim (Bool-cases (new == old)) [
        | inl q ↦ absurd (==_apart old new apart (sym ((==_iff new old).0 q)))
        | inr q ↦ q
      ] in
      let boarded : (tracked_at floats t.0 old).passengers ≡ rider ∷ [] =
        (passengers_changed_lem s c old (rider ∷ []) old).1 ∙ rw (==_refl old) refl in
      let stale : (tracked_at floats u.0 old).passengers ≡ rider ∷ [] =
        (passengers_changed_lem t.0 t.1 new (rider ∷ []) old).1 ∙ rw back boarded in
      let switched : (tracked_at floats u.0 new).passengers ≡ rider ∷ [] =
        (passengers_changed_lem t.0 t.1 new (rider ∷ []) new).1 ∙ rw (==_refl new) refl in
      (
        (passengers_changed_lem u.0 u.1 old [] rider).0 ∙ rw stale (rw (==_refl rider) refl),
        (passengers_changed_lem u.0 u.1 old [] new).1 ∙ rw apart switched,
      )
