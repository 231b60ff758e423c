-- ===== src/Client/Subscription/Delivery.antt =====
-- What one subscription receives from a publication.
use mathlib.Core.List.{append_assoc, append-nil}
use headless_minecraft.Base.{
  suc, ◌+◌, ◌-◌, ◌≤◌, ◌≡◌, refl, ◌∙◌, ap, Bool, true, false, some, List, [], ◌∷◌, ◌++◌, leb, ltb,
  if◌then◌else◌, nat_key, length, length-append, take, keep, arith, Bool-cases, inl, inr,
}
use headless_minecraft.Event.{Event, Stamped}
use headless_minecraft.Client.Subscription.{Subscription, deliver_all, selects}

module _ {E : Type 0} (event : Event E) where
  abbrev pub selected : Subscription E → List (Stamped E) → List (Stamped E)
  selected s es = keep (selects event s.selector) es

  -- What a publication makes of an open subscription: all that it selects fits, or it is dropped.
  unfoldable pub delivered : Subscription E → List (Stamped E) → Subscription E × Bool
  delivered s new =
      if leb (length s.channel + length new) s.capacity
      then (record s { channel = s.channel ++ new }, true)
      else (
        record s {
          channel = s.channel ++ take (s.capacity - length s.channel) new;
          is_closed = true;
          err = some s.capacity;
        },
        false,
      )

  keep_miss :
      (s : Subscription E) (e : Stamped E) (es : List (Stamped E))
      → selects event s.selector e ≡ false
      → selected s (e ∷ es) ≡ selected s es
  unfolding keep
  keep_miss s e es h = rw h

  keep_hit :
      (s : Subscription E) (e : Stamped E) (es : List (Stamped E))
      → selects event s.selector e ≡ true
      → selected s (e ∷ es) ≡ e ∷ selected s es
  unfolding keep
  keep_hit s e es h = rw h

  deliver_all_miss :
      (s : Subscription E) (e : Stamped E) (es : List (Stamped E))
      → selects event s.selector e ≡ false
      → deliver_all event s (e ∷ es) ≡ deliver_all event s es
  unfolding deliver_all
  deliver_all_miss s e es h = rw h

  deliver_all_room :
      (s : Subscription E) (e : Stamped E) (es : List (Stamped E))
      → selects event s.selector e ≡ true
      → s.is_closed ≡ false
      → ltb (length s.channel) s.capacity ≡ true
      → deliver_all event s (e ∷ es)
        ≡ deliver_all event (record s { channel = s.channel ++ e ∷ [] }) es
  unfolding deliver_all
  deliver_all_room s e es h o room = simp (h, o, room)

  deliver_all_full :
      (s : Subscription E) (e : Stamped E) (es : List (Stamped E))
      → selects event s.selector e ≡ true
      → s.is_closed ≡ false
      → ltb (length s.channel) s.capacity ≡ false
      → deliver_all event s (e ∷ es) ≡ (record s { is_closed = true; err = some s.capacity }, false)
  unfolding deliver_all
  deliver_all_full s e es h o full = simp (h, o, full)

  delivered_one :
      (s : Subscription E) (e : Stamped E) (new : List (Stamped E))
      → ltb (length s.channel) s.capacity ≡ true
      → delivered (record s { channel = s.channel ++ e ∷ [] }) new ≡ delivered s (e ∷ new)
  unfolding delivered
  delivered_one s e new room =
      let longer : length (s.channel ++ e ∷ []) ≡ length s.channel + 1 =
        length-append s.channel (e ∷ []) in
      let total : length (s.channel ++ e ∷ []) + length new ≡ length s.channel + suc (length new) =
        omega arith in
      let left : s.capacity - length s.channel ≡ suc (s.capacity - length (s.channel ++ e ∷ [])) =
        ground arith in
      rw (total, left, append_assoc s.channel (e ∷ []) new)
        (ap
          (λ (xs : List (Stamped E)).
            if leb (length s.channel + suc (length new)) s.capacity
            then (record s { channel = s.channel ++ e ∷ new }, true)
            else (record s { channel = xs; is_closed = true; err = some s.capacity }, false))
          (append_assoc s.channel (e ∷ []) _))

  delivered_full :
      (s : Subscription E) (e : Stamped E) (new : List (Stamped E))
      → ltb (length s.channel) s.capacity ≡ false
      → length s.channel ≤ s.capacity
      → (record s { is_closed = true; err = some s.capacity }, false) ≡ delivered s (e ∷ new)
  unfolding delivered
  delivered_full s e new full room =
      let over : leb (length s.channel + suc (length new)) s.capacity ≡ false = ground arith in
      let none_left : s.capacity - length s.channel ≡ 0 = ground arith in
      rw (over, none_left, append-nil s.channel)

  -- A closed subscription receives nothing more and stays closed, with the error that it has.
  pub deliver_all_closed :
      (s : Subscription E) (es : List (Stamped E))
      → s.is_closed ≡ true
      → (deliver_all event s es).0 ≡ s
  unfolding deliver_all
  deliver_all_closed s [] c = refl
  deliver_all_closed s (e ∷ es) c = elim (Bool-cases (selects event s.selector e)) [
    | inr miss ↦ rw miss (deliver_all_closed s es c)
    | inl hit ↦ simp (hit, c)
  ]

  -- An open subscription whose channel is within its capacity receives, in order, all the events
  -- whose domain it selects, if they fit; else it receives those that fit, and is closed with
  -- the error on an overflow. It stays subscribed in the first case only.
  pub deliver_all-delivered :
      (s : Subscription E) (es : List (Stamped E))
      → s.is_closed ≡ false
      → length s.channel ≤ s.capacity
      → deliver_all event s es ≡ delivered s (selected s es)
  deliver_all-delivered s [] o room =
      unfold deliver_all delivered keep in
      (let fits : leb (length s.channel + 0) s.capacity ≡ true = ground arith in
        rw (fits, append-nil s.channel))
  deliver_all-delivered s (e ∷ es) o room = elim (Bool-cases (selects event s.selector e)) [
    | inr miss ↦
        rw (deliver_all_miss s e es miss, keep_miss s e es miss) (deliver_all-delivered s es o room)
    | inl hit ↦ elim (Bool-cases (ltb (length s.channel) s.capacity)) [
      | inl more ↦
          rw (deliver_all_room s e es hit o more, keep_hit s e es hit)
            (deliver_all-delivered (record s { channel = s.channel ++ e ∷ [] }) es o
                (ground (arith, length-append s.channel (e ∷ [])))
              ∙ delivered_one s e (selected s es) more)
      | inr full ↦
          rw (deliver_all_full s e es hit o full, keep_hit s e es hit)
            (delivered_full s e (selected s es) full room)
    ]
  ]
