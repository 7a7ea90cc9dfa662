-- ===== src/Blocks/Contiguous.antt =====
-- The contiguous schedule of parallelReduce: each rank runs one span of blocks, and the spans tile
-- the blocks in the order of the ranks.
use native.Mathlib.Nat.{mod-lt, div-add-mod}
use citor.Prelude.{
  ℕ, zero, suc, ◌+◌, ◌-◌, ◌*◌, ◌/◌, ◌%◌, ◌<◌, ◌≤◌, ◌≡◌, ap, ap₂, ◌∙◌, arith, if◌then◌else◌, min,
  lt→leb,
}
use citor.Ranges.{hits, hits-nil, hits-cons, total, within, total-within}
use citor.Blocks.Shape.{holds-block_range, block_of-lt}
use citor.Blocks.Defs.{JobDescriptor, run_blocks, run_contiguous, contiguous_rank_block_span}
use citor.Blocks.Static.{quiet, IsReady, block_of}

module _ (count participants : ℕ) (staffed : 0 < participants) where
  -- Where the span of rank `r` begins.
  abbrev begin : ℕ → ℕ
  begin r = r * (count / participants) + min r (count % participants)

  begin_grows : (r : ℕ) → begin r ≤ begin (suc r)
  begin_grows r = omega arith

  begin_mono : (n r : ℕ) → begin r ≤ begin (r + n)
  begin_mono zero r = ground arith
  begin_mono (suc n) r = omega (
    arith,
    begin_mono n r,
    begin_grows (r + n),
    ap begin {x = suc (r + n)} {y = r + suc n} (omega arith),
  )

  begin_last : begin participants ≡ count
  begin_last = omega (arith, div-add-mod count participants, mod-lt count staffed)

  span_bounds :
      (r : ℕ)
      → r < participants
      → contiguous_rank_block_span count participants r ≡ (begin r, begin (suc r))
  unfolding contiguous_rank_block_span
  span_bounds r h = rw (lt→leb participants r h) (ap (λ e. (begin r, e)) (ground arith))

module _ (d : JobDescriptor) (ready : IsReady d) (i : ℕ) (lo : d.first ≤ i) (hi : i < d.last) where
  run_blocks-hits :
      (count b : ℕ)
      → b + count ≤ d.block_count
      → hits i (run_blocks quiet d count b).0 ≡ within b (block_of d ready i lo hi) (b + count)
  unfolding run_blocks
  run_blocks-hits zero b h = hits-nil i ∙ ground arith
  run_blocks-hits (suc count) b h =
      hits-cons i _ _
      ∙ ap₂ (λ x n. (if x then 1 else 0) + n)
          (holds-block_range d.first d.last d.chunk i b d.block_count ready.cut lo hi (omega arith))
          (run_blocks-hits count (b + 1) (omega arith))
      ∙ ground arith

  run_contiguous-hits :
      (r : ℕ)
      → r < d.participants
      → hits i (run_contiguous quiet d r).0
        ≡ within
            (begin d.block_count d.participants ready.staffed r)
            (block_of d ready i lo hi)
            (begin d.block_count d.participants ready.staffed (suc r))
  unfolding run_contiguous
  run_contiguous-hits r h = rw (span_bounds d.block_count d.participants ready.staffed r h) (
      run_blocks-hits (f (suc r) - f r) (f r) (omega (arith, grows, bounded))
      ∙ ap (within (f r) (block_of d ready i lo hi)) (omega (arith, grows)))
    where
      f : ℕ → ℕ
      f = begin d.block_count d.participants ready.staffed

      grows : f r ≤ f (suc r)
      grows = begin_grows d.block_count d.participants ready.staffed r

      bounded : f (suc r) ≤ d.block_count
      bounded = omega (
        arith,
        begin_mono d.block_count d.participants ready.staffed (d.participants - suc r) (suc r),
        ap f {x = suc r + (d.participants - suc r)} {y = d.participants} (omega arith),
        begin_last d.block_count d.participants ready.staffed,
      )

  -- Every index is run exactly once, over all the ranks.
  pub contiguous_exactly_once : total d.participants (λ r. hits i (run_contiguous quiet d r).0) ≡ 1
  contiguous_exactly_once =
      total-within d.participants (block_of d ready i lo hi) f _ run_contiguous-hits (omega arith)
        (begin_grows d.block_count d.participants ready.staffed)
      ∙ ground (
        arith,
        begin_last d.block_count d.participants ready.staffed,
        block_of-lt d.first d.last d.chunk i d.block_count ready.cut lo hi,
      )
    where
      f : ℕ → ℕ
      f = begin d.block_count d.participants ready.staffed
