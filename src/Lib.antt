-- ===== src/Lib.antt =====
-- Verification of the combat, synchronisation, composition and runtime code of roost-skill.
--
-- The repository compiles and runs skills for a game server. Modelled are parts of four of its
-- packages: combat, which computes what a skill's commands do to combatants; skillsync, which filters
-- what the runtime tells a client (visibility), holds the packets until they are acknowledged (outbox)
-- and applies them in order on the client's side (applier); skillcompose with its contracts and causal
-- graphs; and of skill the runtime's integer math, its scheduler, its values and its state changes.
--
-- Combat/FixedMath models combat/combat.go: the saturating int64 operations and ScaleBasisPoints.
-- Combat/Attributes models combat/attributes.go: AttributeSet with SetBase, SetBounds, Grant, Revoke,
-- Current, Snapshot, BaseState and RestoreBase. A Go map is an association list (Common/Maps), and the
-- observer is the list of the calls that it got.
-- Combat/Combatant, Combat/Damage and Combat/Healing model combat/damage.go: the stages of
-- ResolveDamage are functions on a run (target, source, the world behind the hooks, outcome, amount),
-- composed in the order of the source. The hooks are a record of functions on the state of the world,
-- and the source may be the target itself.
-- Combat/Buffs models combat/buffs.go: BuffContainer with Apply (Buffs), Dispel, Remove, SetStacks,
-- SetDueTick, Tick, State and RestoreBuffContainer (Buffs/Removal). It grants and revokes the modifiers
-- of its instances in the attribute set that it is linked to.
-- Combat/Roll models combat/roll.go, with HMAC-SHA-256 as a parameter.
-- Outbox models skillsync/outbox.go: Put (Outbox), PutBatch and Reconcile (Outbox/Batch), Acknowledge
-- and DiscardObserver (Outbox/Removal), NewOutbox (Outbox/Options), PublishDue and PublishNow
-- (Outbox/Publish). The store and the publisher are parameters on a state of the world outside, the
-- clock and the length of a packet's JSON are arguments.
-- Applier models skillsync/applier.go: NewApplier and the admission (Applier), applyRecord
-- (Applier/Records) with its consumers and transactions (Applier/Consumers), Apply with its locked end
-- (Applier/Application). The decoder of JSON and the consumers are parameters. Applier/Interleaving has
-- the applications that overlap, as a relation whose steps are the parts of Apply under the lock.
-- Schema models skillsync/schema.go: NegotiateSchema and the SchemaRegistry, whose Migrate the applier
-- calls as its migrator.
-- Visibility models skillsync/visibility.go: FilterStateSnapshot (Visibility), FilterStateMutation and
-- FilterPresentation (Visibility/Mutations). It calls RedactRuntimeValue of
-- skill/runtime_value_redaction.go, which Skill/Values models.
-- Skill/IntegerMath models skill/fixed_math.go: isqrt64, the distances and (Ratio) mulDivRounded.
-- Skill/Tasks and Skill/Scheduler model skill/scheduler.go: the queue of tasks and the operations of
-- the runtime that schedule and cancel. The Pop of container/heap is a parameter, with its contract
-- by Less in Skill/Scheduler/Heap.
-- Skill/Mutations models the diff of keyed states of skill/runtime_mutation.go (diffPersistentStates)
-- and what ApplyStateMutation does with its mutations.
-- Compose models skillcompose/contract_validate.go, canonical.go and matcher.go: ValidateContract, with
-- the JSON and SHA-256 of a contract as a parameter, and MatchFeatures. Compose/Graph models
-- skillcompose/graph.go: ReachesSink and GraphFromProfile.
-- Common holds what they share: integers on the native numbers with int64 wrap-around, maps, lists.
--
-- An int64 is an integer whose operations wrap (Common/Int); a uint64 is a number with `% 2 ^ 64`. The
-- loops are structural recursions on the lists that they walk, the retry loop on the number of
-- attempts, and the loop of isqrt64 a recursion on its falling root. On fuel run the searches of
-- ReachesSink and of MigrationPath: a round takes a node from the queue, and an edge puts one there at
-- most once, so that one more than the first nodes and the edges is enough; bits.Len64 with 64 rounds,
-- one for a bit; and big.Int's Sqrt with 66, which are enough for the squares of distances.
--
-- Not modelled: of the package skill the compiler, the execution of programs (and with it Advance) and
-- the hosts; of skillsync the coordinator, the file outbox, the projector and the metrics (they read
-- and write JSON and files over the syncstream package of roost-core); the rest of skillcompose; and
-- combatcomponent, which joins combat to the entities of roost-core. What other callers do while the
-- outbox publishes is not modelled, nor what a filter returns beside an error.
pub mod Common
pub mod Combat
pub mod Outbox
pub mod Applier
pub mod Schema
pub mod Skill
pub mod Visibility
pub mod Compose
