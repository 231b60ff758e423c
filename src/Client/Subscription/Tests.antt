-- ===== src/Client/Subscription/Tests.antt =====
-- Concrete publications through client/subscription.go.
use headless_minecraft.Base.{
  ℕ, ◌≡◌, refl, false, none, List, [], ◌∷◌, nat_key, arith, if◌then◌else◌, keep,
}
use headless_minecraft.Base.Map
use headless_minecraft.Event.{Event, Stamped, domain_chat, domain_world}
use headless_minecraft.Client.Subscription.{Subscription, Fanout, deliver_all, publish}
use headless_minecraft.Client.Subscription.Delivery.{selected, delivered, deliver_all-delivered}
use headless_minecraft.Client.Subscription.Registry.{member, published, stays, publish_lem}
use headless_minecraft.Client.Subscription.Validity.{FanoutIsValid}

-- An event that is its own domain.
abbrev plain : Event ℕ
plain = record { name = λ e. "event"; domain = λ e. e }

abbrev at_one : ℕ → Stamped ℕ
at_one e = record { revision = 1; event = e }

abbrev chat_of_one : Subscription ℕ
chat_of_one = record {
  selector = domain_chat;
  channel = [];
  capacity = 1;
  is_closed = false;
  err = none;
}

abbrev burst : List (Stamped ℕ)
burst = at_one domain_chat ∷ at_one domain_world ∷ at_one domain_chat ∷ []

abbrev two : Fanout ℕ
two = record {
  heap = (0, chat_of_one) ∷ (1, record chat_of_one { selector = domain_world }) ∷ [];
  next = 2;
  subs = 0 ∷ 1 ∷ [];
}

-- The second chat event does not fit.
burst_overflows : (deliver_all plain chat_of_one burst).1 ≡ false
unfolding deliver_all
burst_overflows = refl

deliver_all-delivered_example :
    deliver_all plain chat_of_one burst
    ≡ delivered plain chat_of_one (selected plain chat_of_one burst)
deliver_all-delivered_example = deliver_all-delivered plain chat_of_one burst refl (omega arith)

publish_lem_example :
    ((j : ℕ)
      → Map.lookup j (publish plain two burst).heap ≡ (
          if member j two.subs
          then published plain burst (Map.lookup j two.heap)
          else Map.lookup j two.heap))
    × ((publish plain two burst).subs ≡ keep (stays plain two.heap burst) two.subs)
unfolding member
publish_lem_example =
    publish_lem plain two (at_one domain_chat) (at_one domain_world ∷ at_one domain_chat ∷ [])
      (refl, (refl, tt))

two-FanoutIsValid : FanoutIsValid two
unfolding member
two-FanoutIsValid = record {
  distinct = (refl, (refl, tt));
  issued = omega arith;
  within = omega arith;
}
