-- ===== src/Blocks/Hinted.antt =====
-- The fast path of runPartitionTypedHinted, for ranks with one block at most.
use native.Mathlib.Nat.{mod-eq_of_lt}
use citor.Prelude.{
  ℕ, zero, suc, ◌+◌, ◌^◌, ◌<◌, ◌≤◌, ◌≡◌, refl, ap, arith, dec_lt, lt→ltb, le→ltb, ne→==, le→leb,
  lt→leb, [],
}
use citor.Blocks.Defs.{
  JobDescriptor, Surroundings, drained, no_block, static_next, run_static, run_static_partition,
  run_single_rank_block, run_partition_hinted,
}
use citor.Blocks.Static.{IsReady}

module _ (env : Surroundings) (d : JobDescriptor) (ready : IsReady d) (rank : ℕ)
    (h : rank < d.participants) where
  next_first : rank < d.block_count → static_next d rank no_block ≡ rank
  unfolding static_next
  next_first l = rw (lt→ltb rank d.block_count l) refl

  next_none : d.block_count ≤ rank → static_next d rank no_block ≡ no_block
  unfolding static_next
  next_none l = rw (le→ltb rank d.block_count l) refl

  next_last :
      rank < d.block_count → d.block_count ≤ d.participants → static_next d rank rank ≡ no_block
  unfolding static_next
  next_last l few =
      rw
        (
          ne→== rank no_block (omega (arith, ready.room)),
          mod-eq_of_lt {n = rank + d.participants} {m = 2 ^ 64} (omega (arith, ready.room)),
          le→ltb (rank + d.participants) d.block_count (omega arith),
        )
        refl

  run_last :
      (fuel : ℕ)
      → rank < d.block_count
      → d.block_count ≤ d.participants
      → run_static env d (suc fuel) rank rank ≡ ([], drained)
  unfolding run_static
  run_last fuel l few = rw (next_last l few) refl

  single :
      (fuel : ℕ)
      → fuel ≡ d.block_count
      → d.block_count ≤ d.participants
      → run_single_rank_block env d rank ≡ run_static env d (suc fuel) rank no_block
  unfolding run_static run_single_rank_block
  single zero e few = rw (next_none (omega arith), le→ltb rank d.block_count (omega arith)) refl
  single (suc fuel) e few = elim (dec_lt rank d.block_count) [
    | yes l ↦ rw (next_first l, lt→ltb rank d.block_count l, run_last fuel l few) refl
    | no l ↦ rw (next_none (omega arith), le→ltb rank d.block_count (omega arith)) refl
  ]

  -- Whatever a rank meets, the fast path for at most one block per rank calls the body with the same
  -- ranges and ends in the same way as the loop it stands in for.
  pub hinted_same : run_partition_hinted env d rank ≡ run_static_partition env d rank
  unfolding run_partition_hinted run_static_partition
  hinted_same = elim (dec_lt d.participants d.block_count) [
    | yes many ↦ rw (lt→leb d.block_count d.participants many) refl
    | no few ↦ rw (le→leb d.block_count d.participants (omega arith)) (
        rw
          (ap (λ f. run_static env d f rank no_block) {x = d.block_count + 1}
            {y = suc d.block_count} (omega arith))
          (single d.block_count refl (omega arith)))
  ]
