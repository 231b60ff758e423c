-- ===== src/Client/Subscription.antt =====
-- client/subscription.go: subscriptions to events and the fanout that publishes to them. A channel
-- with a buffer is the list of the events in it, oldest first. The fanout and the callers share
-- `*Subscription` pointers, so subscriptions stand in a heap and the fanout holds their numbers.
pub mod Delivery
pub mod Registry
pub mod Validity
mod Tests
use Prim.Native.Nat.{bit_and}
use headless_minecraft.Base.{
  ℕ, zero, suc, ◌+◌, ◌≡◌, Bool, true, false, not, Option, none, some, List, [], ◌∷◌, ◌++◌, ℤ, pos,
  negsuc, leb, ltb, if◌then◌else◌, ◌==◌, nat_key, length,
}
use headless_minecraft.Base.Map
use headless_minecraft.Base.Map.{Map}
use headless_minecraft.Event.{Event, Stamped, Domain}

pub record Subscription (E : Type 0) : Type 0 where
  pub selector : Domain
  pub channel : List (Stamped E)
  pub capacity : ℕ
  pub is_closed : Bool
  -- ErrOverflow, with the capacity
  pub err : Option ℕ

module _ {E : Type 0} where
  unfoldable pub finish : Subscription E → Option ℕ → Subscription E
  finish s err = if s.is_closed then s else record s { is_closed = true; err = err }

  -- `Close`
  unfoldable pub close : Subscription E → Subscription E
  unfolding finish
  close s = finish s none

  -- The subscriber's receive from `C()`: the oldest event, or nothing to read.
  unfoldable pub receive : Subscription E → Option (Stamped E) × Subscription E
  receive s = elim s.channel [ [] ↦ (none, s) | e ∷ rest ↦ (some e, record s { channel = rest }) ]

  unfoldable pub deliver : Subscription E → Stamped E → Subscription E × Bool
  deliver s e =
      if s.is_closed
      then (s, false)
      else if ltb (length s.channel) s.capacity
      then (record s { channel = s.channel ++ e ∷ [] }, true)
      else (record s { is_closed = true; err = some s.capacity }, false)

-- `subscribe` fails on a buffer that is not positive, and where no domain is selected.
pub data SubscribeError : Type 0 where
  bad_buffer : ℤ → SubscribeError
  no_domain : SubscribeError

-- The number of the new subscription and the fanout with it, or the refusal.
pub data Subscribed (F : Type 0) : Type 0 where
  subscribed : ℕ → F → Subscribed F
  refused : SubscribeError → Subscribed F

pub record Fanout (E : Type 0) : Type 0 where
  pub heap : Map ℕ (Subscription E)
  pub next : ℕ
  pub subs : List ℕ

module _ {E : Type 0} where
  unfoldable pub new_subscription : Domain → ℕ → Subscription E
  new_subscription selector buffer = record {
    selector = selector;
    channel = [];
    capacity = buffer;
    is_closed = false;
    err = none;
  }

  unfoldable pub allocate : Fanout E → Domain → ℕ → Fanout E
  unfolding new_subscription
  allocate f selector buffer = record {
    heap = Map.insert f.next (new_subscription selector buffer) f.heap;
    next = f.next + 1;
    subs = f.subs ++ f.next ∷ [];
  }

  unfoldable pub subscribe : Fanout E → Domain → ℤ → Subscribed (Fanout E)
  unfolding allocate
  subscribe f selector (pos (suc n)) =
      if selector == 0 then refused no_domain else subscribed f.next (allocate f selector (suc n))
  subscribe f selector buffer = refused (bad_buffer buffer)

  -- A call on one subscription, through its pointer.
  unfoldable pub at :
      (Subscription E → Subscription E) → Map ℕ (Subscription E) → ℕ → Map ℕ (Subscription E)
  at g heap i = elim (Map.lookup i heap) [ none ↦ heap | some s ↦ Map.insert i (g s) heap ]

  unfoldable pub close_all_from : Map ℕ (Subscription E) → List ℕ → Map ℕ (Subscription E)
  unfolding at close
  close_all_from heap [] = heap
  close_all_from heap (i ∷ is) = close_all_from (at close heap i) is

  -- `closeAll`
  unfoldable pub close_all : Fanout E → Fanout E
  unfolding close_all_from
  close_all f = record f { subs = []; heap = close_all_from f.heap f.subs }

module _ {E : Type 0} (event : Event E) where
  -- Whether a subscription selects the domain of an event.
  abbrev pub selects : Domain → Stamped E → Bool
  selects selector e = not (bit_and selector (event.domain e.event) == 0)

  -- The loop over the events for one subscription; the flag says that it stays subscribed.
  unfoldable pub deliver_all : Subscription E → List (Stamped E) → Subscription E × Bool
  unfolding deliver
  deliver_all s [] = (s, true)
  deliver_all s (e ∷ es) =
      let (t, alive) = (if selects s.selector e then deliver s e else (s, true)) in
      let rest = deliver_all t es in if alive then rest else (t, false)

  unfoldable pub publish_to :
      List (Stamped E)
      → Map ℕ (Subscription E)
      → ℕ
      → Option (Subscription E)
      → Map ℕ (Subscription E) × List ℕ
  unfolding deliver_all
  publish_to es heap i none = (heap, [])
  publish_to es heap i (some s) =
      let (t, alive) = deliver_all s es in (Map.insert i t heap, (if alive then i ∷ [] else []))

  unfoldable pub publish_from :
      List (Stamped E) → Map ℕ (Subscription E) → List ℕ → Map ℕ (Subscription E) × List ℕ
  unfolding publish_to
  publish_from es heap [] = (heap, [])
  publish_from es heap (i ∷ is) =
      let (heap', kept) = publish_to es heap i (Map.lookup i heap) in
      let (heap'', rest) = publish_from es heap' is in (heap'', kept ++ rest)

  unfoldable pub publish : Fanout E → List (Stamped E) → Fanout E
  unfolding publish_from
  publish f [] = f
  publish f (e ∷ es) =
      let (heap, live) = publish_from (e ∷ es) f.heap f.subs in
      record f { heap = heap; subs = live }
