-- ===== src/Reduce/Tests.antt =====
-- Runs of the reduction at concrete inputs.
use citor.Prelude.{ℕ, ◌+◌, ◌-◌, ◌≡◌, refl, arith, true, false, ◌==◌, List, [], ◌∷◌, ◌++◌}
use citor.Blocks.Shape.{ceil_div, reduce_chunk_size, IsCut, block_range}
use citor.Reduce.Tree.{combine_pass, combine_steps, pairwise_tree_combine}
use citor.Reduce.Parallel.{run_reduce_parallel, run_reduce_parallel_lem}
use citor.Reduce.Inline.{Token, value, cancelled, Splits, run_reduce_inline, chunks_mapped}

-- The tree keeps the order of the partials.
tree_order : pairwise_tree_combine {A = List ℕ} ◌++◌ 5 (λ i. i ∷ []) ≡ 0 ∷ 1 ∷ 2 ∷ 3 ∷ 4 ∷ []
unfolding pairwise_tree_combine combine_steps combine_pass
tree_order = refl

abbrev size : ℕ → ℕ → ℕ
size lo hi = hi - lo

size-Splits : Splits ◌+◌ size 5 15
unfolding Splits
size-Splits a b c h l m k = omega arith

-- The token is seen stopped before the third chunk.
abbrev stopping : Token
stopping = record { can_stop = true; stopped_at_entry = false; stopped_before = λ b. b == 2 }

cut : IsCut 5 15 (reduce_chunk_size 10 3) (ceil_div 10 (reduce_chunk_size 10 3))
unfolding reduce_chunk_size ceil_div
cut = record {
  nonzero = omega arith;
  covers = omega arith;
  exact = omega arith;
  forwards = omega arith;
  unwrapped = omega arith;
}

stopped : run_reduce_inline ◌+◌ size 5 15 100 3 stopping ≡ cancelled 106
unfolding run_reduce_inline chunks_mapped pairwise_tree_combine ceil_div reduce_chunk_size
    combine_steps combine_pass block_range
stopped = refl

run_reduce_parallel_lem_example :
    run_reduce_parallel ◌+◌ size 5 15 100 3 (λ b. true) ≡ value (100 + size 5 15)
run_reduce_parallel_lem_example =
    run_reduce_parallel_lem ◌+◌ size (λ a b c. omega arith) 5 15 size-Splits 3 100 (λ b. true) cut
      (λ b h. refl)
