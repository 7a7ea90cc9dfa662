-- ===== src/Lib.antt =====
-- citor: a header-only C++20 thread pool (include/citor). The pool runs synchronous fan-out
-- primitives (parallelFor, parallelReduce, parallelScan, parallelChain, runPlex, forkJoin) and
-- detached tasks. A producer publishes a job descriptor, workers claim blocks of its range, and
-- forkJoin tasks move through one work-stealing deque for each worker.
--
-- Deque/ models include/citor/detail/chase_lev_deque.h. Deque/Array is the nested ring of slots
-- (`store`, `load`, `allocateArray`); Deque/Defs has the operations run alone (`push`, `pop`,
-- `steal`, `grow`, `reserveOwner`, `roundUpPow2`); Deque/Protocol has `push`, `pop` and `steal` as a
-- step relation with one owner and any number of thieves, a shared access to a step, in any order.
-- Deque/Spec is the list that the deque promises. Indices are natural numbers; `m_bottom` is an
-- integer, since `pop` at 0 stores -1.
--
-- Blocks/ models the dispatch of a range: Blocks/Shape is `ceilDiv`, `fillBlockShape` and
-- `reduceChunkSize` of include/citor/thread_pool.h; Blocks/Defs is the descriptor of
-- include/citor/detail/job_descriptor.h (the fields that the loops read) and the claims and loops of
-- include/citor/detail/dispatch_static.h (`BlockClaim`, `runPartition`, `runPartitionTypedHinted`,
-- `runContiguousRankPartitionTyped`, `tryClaimRank`). A body is a function from a range to the
-- exception it throws, if any; what a rank sees of the others (an exception, a stop request) is a
-- function of the block, so that it may be seen at any block. The static loop has fuel for one round
-- more than there are blocks, which is enough since each round moves to a later block. The dynamic
-- loops are one state for all ranks, changed by their rounds in any order; a round claims a block and then
-- runs its body or leaves by an exception, a stop or a throw. The order of the fields in memory is not
-- modelled.
--
-- Slots/ models the ranges that parallelChain, runPlex and parallelScan give to their slots:
-- `mulDiv64` of include/citor/detail/cpu_relax.h, `slotRange` and `dynamicBlockRange` of
-- chain_state.h, plex_state.h and scan_state.h in include/citor/detail, and the count of the slots on
-- the producer's core complex in `initScanScratch`.
--
-- Reduce/ models parallelReduce: Reduce/Tree is `pairwiseTreeCombine` of
-- include/citor/detail/reduce_tree.h on an array with a size, with fuel for one round per element,
-- which is enough since every round moves on; Reduce/Inline is `runReduceInlineImpl` of
-- include/citor/thread_pool.h without Kahan compensation, where the token is what its polls give;
-- Reduce/Parallel is `runReduceParallel` from the slots on that the dispatch has filled.
--
-- Scan/Lookback models `lookbackWalk` of include/citor/detail/lookback_scan.h: what the walk's loads
-- of each tile's flag give is a list, and a walk that runs out of loads returns nothing.
--
-- Scan/TwoPass models the body wrapper of `runScanParallel` of include/citor/thread_pool.h, on the
-- state of include/citor/detail/scan_state.h, without the path by clusters: a step relation with one
-- access to a shared atomic a step, in which a wait has a step only when its condition holds. Defs
-- has the steps, Roles what holds at each place, Reduce the sequential reduce, Values, Moves and Seeds
-- what the slots pass on, Progress, Bound and Ends that the waits end. `body` in Pass 1 and `prefix` are
-- functions that return or raise; Pass 2 may raise at any slot, and the token may be found stopped at
-- any poll. The token and the exceptions are numbers and answers, not objects.
--
-- Chain/ models `parallelChain`. The static path is `runChainStageForSlot`, `waitAllSlotsDone` and
-- `waitProducerSerialBarrier` of include/citor/thread_pool.h, on the state of
-- include/citor/detail/chain_state.h and for any list of stages, in the same way: Defs has the steps, Roles
-- and Steps what holds at each place, Order the barriers, Once the bodies that have run. What a body
-- computes is not modelled, only that it returns or throws; nor are the ranges of rows, on which no step
-- depends, so that a call on no rows takes the same steps. Chain/Dynamic has the dynamic path,
-- `runDynamicChainStageForSlot`, in the same way: Claims counts who holds or has run a block, and Chunks is
-- `chainDynamicChunkSize` with the ranges of the blocks. The inline fallback is left out.
--
-- Plex/ models the wrapper body of `runPlexParallel` of include/citor/thread_pool.h, on the state of
-- include/citor/detail/plex_state.h, in the same way. Slot 0, which runs the hooks and publishes the
-- phases, has places and steps of its own. A worker that finds the plex cancelled may have read an
-- older `currentPhase` before. Phases begins with what runs at the same time.
--
-- Epochs models the reservation of epochs that scans, chains and plexes repeat, with its wrap guard; the
-- three step relations start from any state whose stamps are at most the base. Failure is the
-- capture of the first exception, which they share.
--
-- Gate/ models the lock of the dispatch gate as built for Windows, `dispatchGateTryLock`,
-- `dispatchGateLock` and `dispatchGateUnlock` of include/citor/thread_pool.h, for any number of
-- threads. WaitOnAddress and WakeByAddressSingle are as documented: a wait begins only if the word
-- still has the value given to it and may end at any time, and a wake ends one wait, if there is one.
-- On other systems the gate is a std::mutex.
--
-- Probe/ models the blob and the cache of the coherence probe, `serializeCoherenceProbe`,
-- `deserializeCoherenceProbe`, `cachedCoherenceProbe` and what they call, of
-- include/citor/detail/coherence_probe.h, and `importCoherenceProbe` of
-- include/citor/coherence_cache.h. Bytes are numbers below 256, a double is its 64 bits, the live
-- measurement is a parameter, and the cache is an association list.
--
-- Placement/ models `reserveProducerCpuFirst` of include/citor/detail/topology.h and the choice of
-- `preferredCcd` in `detectTopology`, from what the system files gave.
--
-- Token/ models `CancellationToken` of include/citor/cancellation.h: copies of a token share an address
-- in a store of flags.
--
-- Dispatch/ models how a call of `parallelFor` reaches the workers: the guarded writes to the
-- producer's thread-local descriptor, `reuseSafe` and the publication in
-- `dispatchOneStaticLockedBody` (include/citor/thread_pool.h), the caches of the worker's loop
-- (include/citor/detail/worker_loop.h) and of `typedWorkerEntry`. The dispatch gate puts the calls
-- in order, and every worker runs each published phase; cold collapse is not modelled.
--
-- Ranges counts how often half-open ranges cover an index; Blocks and Slots state their theorems
-- with it.
--
-- Memory is sequentially consistent in every model of concurrency: the memory orders of the source
-- are not modelled. Counters of 64 bits that only count operations are not wrapped.
pub mod Prelude
pub mod Failure
pub mod Epochs
pub mod Ranges
pub mod Deque
pub mod Blocks
pub mod Slots
pub mod Reduce
pub mod Dispatch
pub mod Scan
pub mod Probe
pub mod Gate
pub mod Placement
pub mod Chain
pub mod Plex
pub mod Token
