-- ===== src/World/Raw/Bounds.antt =====
-- What the bound of world/raw.go keeps, and what it lets through.
use headless_minecraft.Base.{
  ◌≤◌, ◌≡◌, String, some, List, [], ◌∷◌, if◌then◌else◌, string_key, arith, ◌==◌, ==_iff,
}
use headless_minecraft.Base.Map
use headless_minecraft.Base.Map.{Map, size-insert, lookup-insert}
use headless_minecraft.World.Raw.{Payloads, store, received, max_payload_channels}

module _ {Bytes : Type 0} where
  -- The messages of a connection, in their order.
  pub received_all : Payloads Bytes → List (String × Bytes) → Payloads Bytes
  received_all s [] = s
  received_all s ((channel, payload) ∷ rest) = received_all (received s channel payload) rest

  pub record IsBounded (s : Payloads Bytes) : Type 0 where
    pub same_max : s.raw.max ≡ max_payload_channels
    pub within : Map.size s.raw.values ≤ max_payload_channels

  received-IsBounded :
      (s : Payloads Bytes) (channel : String) (payload : Bytes)
      → IsBounded s
      → IsBounded (received s channel payload)
  unfolding received
  received-IsBounded s channel payload v =
      ground (arith, size-insert channel payload s.raw.values, v.same_max, v.within)

  -- However many messages arrive, a connection keeps at most 256 channels.
  pub received_all-IsBounded :
      (s : Payloads Bytes) (messages : List (String × Bytes))
      → IsBounded s
      → IsBounded (received_all s messages)
  unfolding received_all
  received_all-IsBounded s [] v = v
  received_all-IsBounded s ((channel, payload) ∷ rest) v =
      received_all-IsBounded (received s channel payload) rest
        (received-IsBounded s channel payload v)

  -- The last message on a channel, or `old` if there is none.
  abbrev pub last_on : String → Bytes → List (String × Bytes) → Bytes
  last_on channel old [] = old
  last_on channel old ((name, payload) ∷ rest) =
      last_on channel (if name == channel then payload else old) rest

  lookup-received :
      (s : Payloads Bytes) (name channel : String) (payload old : Bytes)
      → Map.lookup channel s.raw.values ≡ some old
      → Map.lookup channel (received s name payload).raw.values
        ≡ some (if name == channel then payload else old)
  unfolding received store
  lookup-received s name channel payload old known =
      ground (arith, lookup-insert name channel payload s.raw.values, ==_iff name channel)

  -- A channel that the store holds has its last message after any others, the bound reached or not.
  pub lookup-received_all :
      (s : Payloads Bytes) (channel : String) (old : Bytes) (messages : List (String × Bytes))
      → Map.lookup channel s.raw.values ≡ some old
      → Map.lookup channel (received_all s messages).raw.values
        ≡ some (last_on channel old messages)
  unfolding received_all
  lookup-received_all s channel old [] known = known
  lookup-received_all s channel old ((name, payload) ∷ rest) known =
      lookup-received_all (received s name payload) channel
        (if name == channel then payload else old) rest
        (lookup-received s name channel payload old known)
