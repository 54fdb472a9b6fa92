-- ===== src/Lib.antt =====
-- A verification library for the nomad on-demand scaler, which adds nodes to pools when nomad has
-- blocked evaluations, and removes empty ones.
--
-- The program is a set of goroutines around four pieces of state. main.go feeds nomad's events in.
-- processEvals.go collects blocked evaluations into chains, one for each job, and a timer turns each
-- chain into a scaling event on the queue of queue.go. The threads of scalingAction.go take events,
-- estimate with estimateRequiredNodes.go the nodes that are wanting, and have the pools of pool.go
-- updated; then they report the chain as done, over a channel of ten places. Node and allocation
-- events go to the pools, which tell the rounds of updates that wait for them.
--
-- What stands for what:
--   Prelude        shared names; Prelude/Dict.antt is Go's map with string keys, a list of pairs
--                  whose order is that of `range`; Prelude/Int.antt is `int` where it may be negative, and
--                  Prelude/Bytes.antt a text as its bytes
--   Nomad.antt     the fields of nomad's structs that are read, and nomad's own code as parameters:
--                  the scheduler's stack and the copies between API structs and scheduler structs
--   Queue.antt     queue.go. A panic of a slice index is `none`. Queue/Valid.antt has the index's
--                  invariant, Queue/Fifo.antt the effect of each call, Queue/Refine.antt sequences of
--                  calls, and Queue/Producer.antt the goroutine of `NewQueue` with its signal
--   Pool.antt      pool.go: `tryNomadNode`; Pool/Allocations.antt has `tryNomadAllocation`,
--                  Pool/Update.antt `Update`, `WarmUp` and `RemoveNode`. Pool/Valid.antt,
--                  Pool/Round.antt, Pool/Waiting.antt and Pool/Placing.antt have the proofs
--   Pools.antt     all pools together: `processNodes` and `processAllocs` of main.go, and `createPools`
--                  of pool.go; the proofs are in Pools/Events.antt and Pools/Made.antt. Pools/Creating.antt
--                  has `NewPool`, Pools/Listing.antt the queries for nodes
--   Stat.antt      stateStat.go, and the gauges of sendStats.go
--   Config.antt    types.go, configParse.go and decodeToTimeDuration.go, proved in Config/Defaults.antt and
--                  Config/Durations.antt
--   Start.antt     main.go up to its goroutines, proved in Start/Panics.antt
--   Stream.antt    what main.go does with a stream of nomad's events; Stream/Forever.antt has the main loop, which
--                  opens one stream after another. The proofs are in Stream/Read.antt, Stream/Delays.antt
--                  and Stream/Forever/Runs.antt
--   JobFile.antt   parseJobFile.go
--   DumpState.antt dumpState_linux.go, what is reported of a pool; proved in DumpState/Counted.antt
--   Retry.antt     the queries of util.go that are repeated on errors and stale answers
--   Scaling/Estimate.antt
--                  estimateRequiredNodes.go, proved in Filling.antt and Enough.antt of Scaling/Estimate
--   Scaling/Action.antt
--                  scalingAction.go, up to the plan of an event; proved in Scaling/Action/Planned.antt
--   Scaling/Threads.antt
--                  scalingAction.go, its goroutines from their start in main.go on. Counted.antt beside it has the
--                  proof on the counter of free threads, and Refine.antt that of what processEvals.go sees
--   Evals.antt     processEvals.go. `none` is a panic: a nil evaluation or an empty chain that is
--                  read. Evals/Guarded.antt, Evals/Chains.antt, Evals/Judging.antt and Evals/Ticks.antt
--                  have the proofs of one branch of the loop, Evals/Single.antt and Evals/System.antt
--                  those of the loop beside scalingAction.go, and Evals/Placed.antt that of the loop with
--                  the answers of PoolSpec/Suitable.antt and Feasible.antt
--   PoolSpec.antt  poolnodespec.go: the specification of a pool. PoolSpec/ToNode.antt has `GetNode`,
--                  PoolSpec/FromNode.antt `GetSpectFromNode`, PoolSpec/Suitable.antt `getSuitableNodes` and
--                  `GetOptimalPoolSpec`. The proofs are in RoundTrip.antt with Labelled.antt and
--                  Attributes.antt, in Sound.antt with Known.antt and Barred.antt, and in Class.antt.
--                  PoolSpec/Parse.antt has parsePoolSpecDefinition.go, proved in PoolSpec/Converted.antt, and
--                  PoolSpec/Dump.antt dumppoolspectoyml.go, proved in Sorted.antt and Shuffled.antt beside it
--   Feasible.antt  feasiblePoolByConstraint.go, proved in Feasible/Groups.antt
--   Slices.antt    the helpers of util.go on slices and texts; Slices/Bounds.antt has their proofs
--   Gc.antt        gcAction.go: one cycle. Gc/Counting.antt and Gc/Streaks.antt have the proofs of what is
--                  counted over the cycles, Gc/Allowance.antt of how many nodes are removed
--   Variant.antt   variantype.go, and `variantToTypes` of util.go; the proofs are in Variant/Yaml.antt
--   NodeProvider/Aws.antt
--                  nodeprovider/awsautoscalegroupv2.go and the helpers of nodeprovider/util.go that it
--                  calls. NodeProvider/Aws/Calls.antt has the removal of instances and the setting of the
--                  size, Creating.antt the creation; Seen.antt, Batches.antt and Endless.antt have the proofs
--   NodeProvider/Karpenter.antt
--                  nodeprovider/karpenter.go: the plugin's answers are arguments. Its goroutine is `add_loop`
--                  and then `finish_adding`. Removing.antt, Sizes.antt and Adding.antt beside it have the proofs.
--                  Racing.antt has the provider beside all its goroutines, proved in Tracked.antt, and Creating.antt
--                  karpenter_create.go, proved in Divided.antt and Begun.antt below it
--   NodeProvider/AnyNode.antt
--                  nodeprovider/anynodetest.go
--   NodeProvider/Util.antt
--                  the other helpers of nodeprovider/util.go
--   Tests          concrete states on which the theorems are applied
--
-- Fuel and bounds. `dequeue` is given the number of tokens that the goroutine hands out; a call that
-- has not returned is `none`, and one token is enough on a valid queue with an item. The estimate is
-- given fuel, and any fuel above twice the number of allocations is enough if a new node of the
-- pool has room for one. The batches of the AWS provider are cut with the number of ids as fuel, which is enough.
-- A call that waits for AWS or for Kubernetes is given the answers, and is `none` while it still waits.
-- `int` and `int32` are taken as unbounded: the values are lengths of lists, counts of allocations and
-- sizes in megabytes. The counters of Stat.antt, the durations of Config.antt and the division of
-- karpenter_create.go are 64 bits wide, with their wrap-around.
--
-- What is not modelled. The interleaving of `processNodes` and `processAllocs`, which run side by side:
-- each is a function of the pools, and the sections of `tryNomadAllocation` are functions of their own.
-- Time: a timer is a signal that may come once it is armed. Logging, and the
-- metrics of scalingAction.go. The layout of the report of dumpState_linux.go. The parsing of the
-- command line, of HCL and of YAML, and the filling in of structs, which are calls of libraries. The
-- start of the Kubernetes plugin as a process, and the calls that are passed on to it. The regular
-- expressions that take ids from an error message of AWS. The contexts of events, but for the list of
-- the chains that were canceled. The resources inside an allocation, which only nomad's scheduler
-- reads. Nomad's API, the cloud's and Kubernetes' are parameters, or answers that an operation is
-- given.
pub mod Prelude
pub mod Nomad
pub mod Queue
pub mod Pool
pub mod Scaling
pub mod Evals
pub mod Pools
pub mod Stat
pub mod Config
pub mod Start
pub mod Stream
pub mod Retry
pub mod JobFile
pub mod DumpState
pub mod NodeProvider
pub mod Variant
pub mod PoolSpec
pub mod Slices
pub mod Feasible
pub mod Gc
pub mod Tests
