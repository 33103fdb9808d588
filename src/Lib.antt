-- ===== src/Lib.antt =====
-- The model of lazily-go, a library of lazy reactive primitives in Go: the reactive kernel, queues,
-- coordination and fault-tolerance primitives, and the clock and the stamp frontiers of the
-- distributed plane. Paths below are those of the repository.
--
-- Kernel is core.go: `Context`, the nodes `Source`, `Computed` and `Effect` with their edges, and the
-- walk that marks the cone below a written node. Nodes stand in a list, and a handle is a place in
-- it. The walk is a loop over a stack: it takes fuel, and the bound that Kernel/Mark uses (the stack,
-- and for every node the entries that it can still push) is shown to be enough.
--
-- Kernel/Pull is the pull half of core.go: `Get`, `refresh` and `recomputeNow`. It takes the order in
-- which `range` visits the dependencies as an argument, and fuel, a level of the graph for a unit.
--
-- Hlc is hlc.go, the hybrid logical clock. Crdt is the runtime half of crdt.go, with the wire types of
-- ipc.go that it converts to: stamp frontiers and the plane that owns a clock, a frontier and a
-- membership.
--
-- Coordination is coordination.go: the lease with its fencing token, the leader and the lock on top of
-- it, the semaphore and the barrier. Resilience is resilience.go: the circuit breaker, the retry
-- policy, the bulkhead and the timeout. Cell is the `Source` that their projections write.
--
-- Topic is the `TopicCell` of queue.go: Topic/Log says which log of published values a topic stands for,
-- Topic/Refines runs the calls, Topic/Collect is about `GC`, and Topic/Saved and Topic/Snapshot about
-- snapshots. Offsets are `int`s in two's complement.
--
-- Queue is the `QueueCell` of queue.go over its `VecDequeStorage`: Queue/Readers is about the memoized
-- readers, Queue/Fifo runs the calls. Other storages behind the interface are not modelled.
--
-- WorkQueue is work_queue.go: competing consumers. WorkQueue/Conserve counts where an item is, and
-- WorkQueue/Bounds and WorkQueue/Attempts the attempts of an item; WorkQueue/Runs runs the calls, and
-- WorkQueue/Deliveries counts what a run hands out.
--
-- Sync is reliable_sync.go: the coordinator of a receiver (Sync/Resync), the outbox of a sender, which
-- is durable_outbox_store.go over the in-memory store (Sync/Outbox), and the driver of a connection
-- (Sync/Driver), with its sink, source, clock, snapshot provider and codec as parameters. Sync/Driver
-- has child modules for what a tick keeps (Safe), any calls (Runs), delivery (Live) and what the host
-- is handed (Folds). Sync/Liveness has the liveness cells, OrSet and WireLwwRegister.
--
-- KeyedOrder is keyed_order.go: the present set of a reactive map with the order of its keys. `none`
-- stands for the panic of a slice read out of range.
--
-- Window is windowing.go with the policies of merge.go: windows by count, by time, sliding, and by
-- sessions. The operators of the number type of `Sum` and `Max` are an argument. The loop of the time
-- window takes fuel; Window/Boundary shows that two more than the time of the tick is enough.
--
-- Membership is membership.go: the detector's window of samples, the states of the peers with their
-- change events, and the cell that projects the alive set. The floating-point formula of `Phi` is a
-- parameter.
--
-- Presence is presence.go: values that lapse on the logical clock, one or a map of them
-- (Presence/Lapses), without the cells over them.
--
-- RateShape is rateshape.go without the probabilistic sampler: debounce, throttle and sample.
--
-- Registers is the multi-value register of registers.go.
--
-- Base holds what the others share: tests, lists, equality (`Comparable` is Go's `comparable`), Go maps
-- as association lists (Base/Assoc), `sort.Slice` (Base/Sort) and machine integers (Base/Word). In Hlc,
-- Crdt and Sync an `int64` x is the number x + 2^63, so that order and wrap-around are those of the
-- numbers; an `int` or `int64` that the code keeps at 0 or above is the number itself.
--
-- Not modelled: goroutines, locks and channels, the foreign interfaces, the JSON and MessagePack
-- encodings, the shared-memory and network transports, and the simulation tools, which are input and
-- output or belong to the run-time. Also not modelled: the relay, ingress and the command plane, state
-- machines and charts, the tree, text and sequence CRDTs, reactive maps, causal receipts, services, and
-- the asynchronous and thread-safe contexts.
pub mod Base
pub mod Kernel
pub mod KeyedOrder
pub mod Cell
pub mod Coordination
pub mod Resilience
pub mod Sync
pub mod Topic
pub mod Window
pub mod WorkQueue
pub mod Membership
pub mod Presence
pub mod Queue
pub mod RateShape
pub mod Registers
pub mod Hlc
pub mod Crdt
