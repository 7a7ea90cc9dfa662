-- ===== src/Chain/Dynamic/Chunks.antt =====
-- The blocks that the dynamic path of a chain cuts the rows into: `chainDynamicChunkSize`, and
-- `dynamicBlockRange` on the blocks of `dynamicBlockCount`.
use native.Mathlib.Nat.{mul-le-mul_right, suc-mul}
use citor.Prelude.{
  ℕ, suc, ◌*◌, ◌%◌, ◌^◌, ◌<◌, ◌≤◌, ◌≡◌, ◌∙◌, arith, ◌==◌, ltb, if◌then◌else◌, min, dec_lt,
}
use citor.Ranges.{holds, within, total, total-within}
use citor.Blocks.Shape.{ceil_div, ceil_div_bounds}
use citor.Slots.Defs.{dynamic_block_range}
use citor.Slots.Uniform.{dynamic_block_range-min}

unfoldable pub chain_dynamic_chunk_size : (n participants hint_chunk : ℕ) → ℕ
chain_dynamic_chunk_size n participants hint_chunk =
    if hint_chunk == 0 then ceil_div n (participants * 2 % 2 ^ 64) else hint_chunk

chunk_pos :
    (n participants hint_chunk : ℕ)
    → 0 < n
    → 0 < participants
    → participants < 2 ^ 32
    → 0 < chain_dynamic_chunk_size n participants hint_chunk
unfolding chain_dynamic_chunk_size
chunk_pos n participants hint_chunk hn hp few =
    ground (arith, ceil_pos n (participants * 2 % 2 ^ 64) (omega (arith, hp, few)) hn)
  where
    ceil_pos : (a b : ℕ) → 0 < b → 0 < a → 0 < ceil_div a b
    ceil_pos a b hb ha = elim (dec_lt 0 (ceil_div a b)) [
      | yes p ↦ p
      | no p ↦ absurd (
          omega (
            arith,
            (ceil_div_bounds a b hb).0,
            mul-le-mul_right {m = ceil_div a b} {n = 0} b (omega arith),
          ))
    ]

module _ (n chunk : ℕ) (some_chunk : 0 < chunk) where
  -- Where block `b` begins, cut off at `n`.
  begin_at : ℕ → ℕ
  begin_at b = min (b * chunk) n

  begins_below : (b : ℕ) → b < ceil_div n chunk → b * chunk < n
  begins_below b l =
      let h = (ceil_div_bounds n chunk some_chunk).1 in
      let m = mul-le-mul_right {m = suc b} {n = ceil_div n chunk} chunk l in
      let s = suc-mul b chunk in omega (arith, h, m, s)

  begins_on : (b : ℕ) → begin_at b ≤ begin_at (suc b)
  unfolding begin_at
  begins_on b = let s = suc-mul b chunk in ground (arith, s)

  starts_at : begin_at 0 ≡ 0
  unfolding begin_at
  starts_at = ground arith

  ends_at : begin_at (ceil_div n chunk) ≡ n
  unfolding begin_at
  ends_at = let h = (ceil_div_bounds n chunk some_chunk).0 in ground (arith, h)

  block_within :
      (i b : ℕ)
      → n < 2 ^ 64
      → b < ceil_div n chunk
      → (if holds i (dynamic_block_range n chunk b) then 1 else 0)
        ≡ within (begin_at b) i (begin_at (suc b))
  unfolding begin_at
  block_within i b room l =
      let below = begins_below b l in
      let s = suc-mul b chunk in
      rw (dynamic_block_range-min n chunk b room below) (ground (arith, below, s))

-- For a chain of at least one row, and whatever the hint, each row is in exactly one of the blocks that the
-- stages' counters hand out, and no index past the rows is in one.
pub dynamic_blocks_exactly_once :
    (n participants hint_chunk i : ℕ)
    → 0 < n
    → n < 2 ^ 64
    → 0 < participants
    → participants < 2 ^ 32
    → let chunk = chain_dynamic_chunk_size n participants hint_chunk in
      total (ceil_div n chunk) (λ b. if holds i (dynamic_block_range n chunk b) then 1 else 0)
      ≡ (if ltb i n then 1 else 0)
dynamic_blocks_exactly_once n participants hint_chunk i hn room hp few =
    let chunk = chain_dynamic_chunk_size n participants hint_chunk in
    let pos = chunk_pos n participants hint_chunk hn hp few in
    total-within (ceil_div n chunk) i (begin_at n chunk pos) _
      (λ b l. block_within n chunk pos i b room l) (starts_at n chunk pos) (begins_on n chunk pos)
    ∙ rw (ends_at n chunk pos) (ground arith)
