-- ===== src/Slots/Uniform.antt =====
-- The uniform split: the slots' ranges lie in slot order and cover each index once.
use native.Mathlib.Nat.{mod-eq_of_lt}
use citor.Prelude.{
  ℕ, suc, ◌+◌, ◌-◌, ◌*◌, ◌%◌, ◌^◌, ◌<◌, ◌≡◌, ap, ap₂, ◌∙◌, arith, ltb, if◌then◌else◌, min,
}
use citor.Ranges.{holds, total, total-within}
use citor.Slots.Defs.{mul_div64, slot_range, dynamic_block_range}
use citor.Slots.Split.{point, point_first, point_last, point_grows, mul_div64-point}

module _ (n participants : ℕ) (staffed : 0 < participants) (few : participants < 2 ^ 32)
    (room : n < 2 ^ 64) where
  slot_range-points :
      (slot : ℕ)
      → slot < participants
      → slot_range n participants slot
        ≡ (point n participants slot, point n participants (suc slot))
  unfolding slot_range
  slot_range-points slot h =
      ap₂ (λ a b. (a, b)) (mul_div64-point n participants slot (omega arith) staffed room)
        (ap (λ s. mul_div64 n s participants) {x = (slot + 1) % 2 ^ 32} {y = suc slot} (omega arith)
          ∙ mul_div64-point n participants (suc slot) h staffed room)

  -- Each index below `n` is in the range of one slot, and an index past it in none.
  pub uniform_exactly_once :
      (i : ℕ)
      → total participants (λ slot. if holds i (slot_range n participants slot) then 1 else 0)
        ≡ (if ltb i n then 1 else 0)
  uniform_exactly_once i =
      total-within participants i (point n participants) _
        (λ slot h. ap (λ r. if holds i r then 1 else 0) (slot_range-points slot h))
        (point_first n participants) (point_grows n participants)
      ∙ rw (point_last n participants staffed) (ground arith)

-- For a block that begins below `n`, dynamicBlockRange stops at `n` and never wraps around, however
-- near the block's end lies to 2 ^ 64.
pub dynamic_block_range-min :
    (n dynamic_chunk block : ℕ)
    → n < 2 ^ 64
    → block * dynamic_chunk < n
    → dynamic_block_range n dynamic_chunk block
      ≡ (block * dynamic_chunk, min (block * dynamic_chunk + dynamic_chunk) n)
unfolding dynamic_block_range
dynamic_block_range-min n dynamic_chunk block room h =
    rw (mod-eq_of_lt {n = block * dynamic_chunk} {m = 2 ^ 64} (omega arith), left)
      (ap (λ e. (block * dynamic_chunk, e))
        (ground (arith, mod-eq_of_lt {n = block * dynamic_chunk + dynamic_chunk} {m = 2 ^ 64})))
  where
    left : (n + 2 ^ 64 - block * dynamic_chunk) % 2 ^ 64 ≡ n - block * dynamic_chunk
    left = omega arith
