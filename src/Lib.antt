-- ===== src/Lib.antt =====
-- headless-minecraft, a Minecraft client for Go, as pure functions over explicit state.
--
-- The client decodes the packets of a server into batches (version/), applies each batch to what it
-- has observed (world/) through reducers that version adapters supply, stamps the events of the batch
-- (event/) with the revision that the batch produced, and publishes them to subscribers (client/).
-- A caller may also change the menus itself, to predict a click, and roll the prediction back. The
-- package crafting/ works out from a grid what a recipe makes and what it leaves.
--
-- Files and the code that they model:
--   Base          shared names; lists and tests over native numbers, keys with a decidable equality,
--                 Go maps as association lists (Base/Map), and `slices.Sort` (Base/Sort)
--   Event         event/domain.go, event/collector.go; a child for the events of each domain
--                 (event/containers.go, registry.go, chat.go, entities.go, player.go, world.go and
--                 damage.go), with the names of event/taxonomy.go
--   Version/Batch version/batch.go: Batcher.Accept is `accept`, Batcher.Finish is `finish`, and the
--                 read loop's use of them over a stream (client/loop.go) is `accept_all`
--   Version/Outbox  version/outbox.go
--   Client/Subscription  client/subscription.go: a channel with a buffer, the heap of subscriptions
--                 that the fanout and the callers share, deliver, publish, subscribe, closeAll
--   World/Core    world/world.go, reducer.go, snapshot.go: Register, Apply, Amend, SnapshotErr
--   World/Containers  world/containers.go and, in Clicks, world/containers_click.go: the menus, the
--                 cursor, the recipe book, and Snapshot, Click, Confirm, Reject, Superseded
--   World/Chunks  world/chunks.go: sections, columns and reading or writing a block
--   World/Registries  world/registry.go
--   World/Chat    world/chat.go; boss bars, scoreboards and teams in Chat/Boards
--   World/Raw     world/raw.go
--   World/Player  world/player.go
--   World/Environment  world/environment.go: clock and border, the rest in Simulation
--   World/Entities  world/entities.go: movement in Moves, passengers in Riders, the rest in Facts
--   Crafting      crafting/grid.go (Grid, over the general Board), crafting/match.go (Match) and
--                 crafting/craft.go (Craft)
--   Safety        safety/profile.go, safety/authorization.go: scopes, endpoints, Authorize, Allows
--   Version/Actions  version/action.go, action_dig.go, action_hand.go, action_interact.go,
--                 action_state.go, action_window.go: the intents as one sum
--   Client/Actions  client/action.go: outbound, enterPlay and Do
--   Client/Windows  client/window.go: Click, CloseWindow and the plan of a click, with
--                 CraftingLayout and Crafter of version/craft.go and Stacks of version/stack.go
--   Client/Loop   client/loop.go: the terrain watch; the loop's body in Turns; how a session starts
--                 and ends (client/close.go) in Ends. A loop is given a list of receipts, one per turn
--   Client/Construction  client/client.go: the options and New, with Validate of version/profile.go
--   Client/Hands  client/attack.go, dig.go, place.go
--   Behaviour     behaviour/behaviour.go, scope.go; what a behaviour sees of a snapshot in
--                 Behaviour/Observed; Sequence and Dig (behaviour/mine.go), Eat and Block
--                 (behaviour/consume.go), Fish, Build, Follow and Flee (behaviour/follow.go). A route's
--                 edges come from minecraft-simulation; Build/Cells has the cell that each is to fill
-- Names are the source's, in lower case with underscores: `Containers.SlotsChanged` is
-- `slots_changed`, `maxPending` is `max_pending`.
--
-- How the code is represented. A method on a pointer is a function that returns the changed value; a
-- store and the collector are passed through every mutator. A Go map is an association list, and
-- where the source ranges over a map, the order of the visit is an argument. `int32` values that are
-- only stored and compared are integers in two constructors; `int` counters of packets are natural
-- numbers without a bound; the uint64 revision wraps at 2 ^ 64. Floats are types of their own, with
-- a zero where one is needed. A nil interface value is `none`. A mutex makes each call atomic, so a
-- history of calls is a list. Shift-crafting loops until a condition on the grid: it is given fuel,
-- and as every craft takes an item from the grid, more fuel than the grid has items is enough. The
-- other loops are structural.
--
-- Parameters: the packets, recipes, ingredients and recipe results of minecraft-protocol with the
-- fields that the source reads; the section decoder and the rule by which an ingredient is satisfied,
-- which belong to a version; the reducers; the wire of a client with the adapter's encoder; the tables of
-- Unicode; the bite detector, and the routes of minecraft-simulation.
--
-- Not modelled: opening a connection, authentication and the goroutines; the version adapters, whose
-- packet types minecraft-protocol generates, with their readiness rules; movement prediction, which is
-- physics in floats; the examples and the test servers. The views of a snapshot copy the
-- stores, so they are the stores' own values here.
pub mod Base
pub mod Behaviour
pub mod Client
pub mod Crafting
pub mod Event
pub mod Safety
pub mod Version
pub mod World
