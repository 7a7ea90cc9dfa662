-- ===== src/Blocks/Tests.antt =====
-- Runs of the block schedules at concrete inputs.
use citor.Prelude.{
  ℕ, ◌+◌, ◌-◌, ◌/◌, ◌%◌, ◌^◌, ◌<◌, ◌≤◌, ◌≡◌, ◌⊎◌, refl, arith, true, false, none, some, ◌==◌, zero,
  suc, All, if◌then◌else◌, List, [], ◌∷◌,
}
use citor.Ranges.{hits, total}
use citor.Blocks.Shape.{ceil_div, fill_block_shape, IsCut}
use citor.Blocks.Defs.{
  JobDescriptor, Surroundings, drained, run_static_partition, run_partition_hinted, run_contiguous,
  dynamic_next,
}
use citor.Blocks.Sizes.{fill_block_shape-IsCut}
use citor.Blocks.Static.{quiet, IsReady, static_exactly_once}
use citor.Blocks.Hinted.{hinted_same}
use citor.Blocks.Cutoff.{stride, after_stride, Returns, EndsAt, run_static_partition_lem}
use citor.Blocks.Contiguous.{contiguous_exactly_once}
use citor.Blocks.Dynamic.{
  Met, body_returned, body_threw, count, run_schedule, begin_claims, dynamic_exactly_once, claim,
  meet, carry_out, take_turn,
}

-- Ten indices in blocks of three, for three ranks.
abbrev job : JobDescriptor
job = record {
  first = 5;
  last = 15;
  chunk = 3;
  block_count = 4;
  participants = 3;
  next_block = 3;
  first_exception = none;
  exception_worker_id = 0;
}

job-IsReady : IsReady job
job-IsReady = record {
  cut = record {
    nonzero = omega arith;
    covers = omega arith;
    exact = omega arith;
    forwards = omega arith;
    unwrapped = omega arith;
  };
  staffed = omega arith;
  room = omega arith;
}

-- The body throws exception 7 on the block that begins at 5.
abbrev faulty : Surroundings
faulty = record {
  exception_seen = λ b. false;
  stop_seen = λ b. b == 2;
  body = λ lo hi. if lo == 5 then some 7 else none;
}

small_fit : 15 + (fill_block_shape (15 - 5) 3 0 true).chunk < 2 ^ 64
unfolding fill_block_shape ceil_div
small_fit = omega arith

fill_block_shape-IsCut_example :
    IsCut 5 15
      (fill_block_shape (15 - 5) 3 0 true).chunk
      (fill_block_shape (15 - 5) 3 0 true).block_count
fill_block_shape-IsCut_example =
    fill_block_shape-IsCut 5 15 3 0 true (omega arith) (omega arith) small_fit

static_exactly_once_example :
    (hits 14 (run_static_partition quiet job 0).0 ≡ (if 0 == (14 - 5) / 3 % 3 then 1 else 0))
    × ((run_static_partition quiet job 0).1 ≡ drained)
static_exactly_once_example =
    static_exactly_once job job-IsReady 14 (omega arith) (omega arith) 0 (omega arith)

run_static_partition_lem_example :
    (n : ℕ) × All (Returns faulty job) (stride faulty job n 0)
    × EndsAt faulty job
        (stride faulty job n 0)
        (after_stride faulty job n 0)
        (run_static_partition faulty job 0)
run_static_partition_lem_example = run_static_partition_lem faulty job 0 job-IsReady

hinted_same_example : run_partition_hinted faulty job 0 ≡ run_static_partition faulty job 0
hinted_same_example = hinted_same faulty job job-IsReady 0 (omega arith)

contiguous_exactly_once_example : total 3 (λ r. hits 14 (run_contiguous quiet job r).0) ≡ 1
contiguous_exactly_once_example =
    contiguous_exactly_once job job-IsReady 14 (omega arith) (omega arith)

-- The ranks and what each meets, undisturbed.
abbrev calls : List (ℕ × Met)
calls =
    (1, body_returned)
    ∷ (0, body_returned)
    ∷ (1, body_returned)
    ∷ (2, body_returned)
    ∷ (1, body_returned)
    ∷ (0, body_returned)
    ∷ (2, body_returned)
    ∷ []

calls_staffed : All (λ e. e.0 < 3) calls
calls_staffed = ground arith

all_ended : (r : ℕ) → r < 3 → (run_schedule job calls (begin_claims job 3)).ended r ≡ true
unfolding run_schedule take_turn carry_out claim meet dynamic_next
all_ended zero h = refl
all_ended (suc zero) h = refl
all_ended (suc (suc zero)) h = refl
all_ended (suc (suc (suc r))) h = absurd (omega arith)

-- Rank 1 throws in its first block.
cut_short :
    (run_schedule job
      ((1, body_threw) ∷ (0, body_returned) ∷ (1, body_returned) ∷ [])
      (begin_claims job 3)).called
    ≡ 0 ∷ 1 ∷ []
unfolding run_schedule take_turn carry_out claim meet dynamic_next
cut_short = refl

dynamic_exactly_once_example :
    (count 3 (run_schedule job calls (begin_claims job 3)).called ≤ 1)
    × ((count 3 (run_schedule job calls (begin_claims job 3)).called ≡ 1)
        ⊎ ((run_schedule job calls (begin_claims job 3)).cut_off ≡ true))
dynamic_exactly_once_example =
    dynamic_exactly_once job (omega arith) calls 3 calls_staffed (λ h. (refl, omega arith))
      (omega arith) all_ended 3 (omega arith)
