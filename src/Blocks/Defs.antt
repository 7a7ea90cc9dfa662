-- ===== src/Blocks/Defs.antt =====
-- include/citor/detail/dispatch_static.h: how a rank claims blocks and runs them. The descriptor is
-- that of include/citor/detail/job_descriptor.h, with the fields that the loops read.
use citor.Prelude.{
  ℕ, zero, suc, ◌+◌, ◌-◌, ◌*◌, ◌/◌, ◌%◌, ◌^◌, Bool, true, false, ◌&&◌, Option, none, some, ◌==◌,
  leb, ltb, if◌then◌else◌, min, List, [], ◌∷◌,
}
use citor.Blocks.Shape.{block_range}

-- kNoBlock, static_cast<std::size_t>(-1)
abbrev pub no_block : ℕ
no_block = 2 ^ 64 - 1

-- An exception that a body throws is named by a number.
pub record JobDescriptor : Type 0 where
  pub first : ℕ
  pub last : ℕ
  pub chunk : ℕ
  pub block_count : ℕ
  pub participants : ℕ
  pub next_block : ℕ
  pub first_exception : Option ℕ
  pub exception_worker_id : ℕ

-- BlockClaim<StaticUniform>::next, and nextTypedBlock at that balance.
unfoldable pub static_next : JobDescriptor → (rank prev : ℕ) → ℕ
static_next d rank prev =
    let cand = if prev == no_block then rank else (prev + d.participants) % 2 ^ 64 in
    if ltb cand d.block_count then cand else no_block

-- BlockClaim<DynamicChunked>::next, and nextTypedBlock at that balance; `fetch_add` is atomic.
unfoldable pub dynamic_next : JobDescriptor → (rank prev : ℕ) → ℕ × JobDescriptor
dynamic_next d rank prev =
    if prev == no_block && (ltb rank d.block_count && ltb rank d.participants)
    then (rank, d)
    else if leb d.block_count d.participants
    then (no_block, d)
    else (
      (if ltb d.next_block d.block_count then d.next_block else no_block),
      record d { next_block = (d.next_block + 1) % 2 ^ 64 },
    )

-- tryClaimRank: the worker's `claimedAt`, and whether this caller raised it. A compare-exchange that
-- another caller's write defeats is tried again, so alone it succeeds at once.
unfoldable pub try_claim_rank : (claimed_at current_gen : ℕ) → ℕ × Bool
try_claim_rank claimed_at current_gen =
    if ltb claimed_at current_gen then (current_gen, true) else (claimed_at, false)

-- The compare-exchange on `firstException`, after a body threw `e`.
unfoldable pub capture_exception : JobDescriptor → (rank e : ℕ) → JobDescriptor
capture_exception d rank e = elim d.first_exception [
  | none ↦ record d { first_exception = some e; exception_worker_id = rank }
  | some other ↦ d
]

-- What a rank meets before and in block `b`: whether another rank's exception is seen there, whether
-- the token is seen stopped there, and what the body does on [lo, hi).
pub record Surroundings : Type 0 where
  pub exception_seen : ℕ → Bool
  pub stop_seen : ℕ → Bool
  pub body : ℕ → ℕ → Option ℕ

pub data Outcome : Type 0 where
  drained : Outcome
  saw_exception : Outcome
  saw_stop : Outcome
  threw : ℕ → Outcome
  out_of_fuel : Outcome

module _ (env : Surroundings) (d : JobDescriptor) where
  -- The body's calls with the ranges, in order, and how the loop ended.
  abbrev call : ℕ → List (ℕ × ℕ) × Outcome → List (ℕ × ℕ) × Outcome
  call b rest =
      let r = block_range d.first d.last d.chunk b in
      elim (env.body r.0 r.1) [ none ↦ (r ∷ rest.0, rest.1) | some e ↦ (r ∷ [], threw e) ]

  -- One round of the loop on block `b`, given what the rounds after it do.
  abbrev round : ℕ → List (ℕ × ℕ) × Outcome → List (ℕ × ℕ) × Outcome
  round b rest =
      if b == no_block
      then ([], drained)
      else if env.exception_seen b
      then ([], saw_exception)
      else if env.stop_seen b
      then ([], saw_stop)
      else call b rest

  -- runPartition and runPartitionTyped at StaticUniform, from the block before.
  unfoldable pub run_static : (fuel rank prev : ℕ) → List (ℕ × ℕ) × Outcome
  run_static zero rank prev = ([], out_of_fuel)
  run_static (suc fuel) rank prev =
      let b = static_next d rank prev in let rest = run_static fuel rank b in round b rest

  -- runStaticPartition: each round takes another block, so `block_count + 1` rounds are enough.
  unfoldable pub run_static_partition : (rank : ℕ) → List (ℕ × ℕ) × Outcome
  run_static_partition rank = run_static (d.block_count + 1) rank no_block

  -- runSingleRankBlockTyped, of a body that may throw, with the token polled.
  unfoldable pub run_single_rank_block : (rank : ℕ) → List (ℕ × ℕ) × Outcome
  run_single_rank_block rank =
      if ltb rank d.block_count then round rank ([], drained) else ([], drained)

  -- runPartitionTypedHinted at StaticUniform
  unfoldable pub run_partition_hinted : (rank : ℕ) → List (ℕ × ℕ) × Outcome
  run_partition_hinted rank =
      if leb d.block_count d.participants
      then run_single_rank_block rank
      else run_static_partition rank

  -- The blocks from `begin` on, with the blocks left first.
  unfoldable pub run_blocks : (count begin : ℕ) → List (ℕ × ℕ) × Outcome
  run_blocks zero begin = ([], drained)
  run_blocks (suc count) begin =
      let rest = run_blocks count (begin + 1) in
      if env.stop_seen begin then ([], saw_stop) else call begin rest

-- contiguousRankBlockSpan
unfoldable pub contiguous_rank_block_span : (block_count participants rank : ℕ) → ℕ × ℕ
contiguous_rank_block_span block_count participants rank =
    let base = block_count / participants in
    let extra = block_count % participants in
    let begin = rank * base + min rank extra in
    if leb participants rank
    then (block_count, block_count)
    else (begin, begin + base + (if ltb rank extra then 1 else 0))

-- runContiguousRankPartitionTyped, of a body that may throw: the exception slot is read once.
unfoldable pub run_contiguous : Surroundings → JobDescriptor → ℕ → List (ℕ × ℕ) × Outcome
run_contiguous env d rank =
    let (begin, end) = contiguous_rank_block_span d.block_count d.participants rank in
    if env.exception_seen begin then ([], saw_exception) else run_blocks env d (end - begin) begin
