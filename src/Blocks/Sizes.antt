-- ===== src/Blocks/Sizes.antt =====
-- The block shapes that the dispatchers choose cut the range into blocks that cover it.
use native.Mathlib.Nat.{mul-le-mul_right}
use citor.Prelude.{
  ℕ, ◌+◌, ◌-◌, ◌*◌, ◌^◌, ◌<◌, ◌≤◌, arith, Bool, true, false, dec_lt, le→leb, lt→leb,
}
use citor.Blocks.Shape.{
  ceil_div, ceil_div_bounds, fill_block_shape, reduce_max_chunks, reduce_chunk_size, IsCut,
}

ceil_div-pos : (a b : ℕ) → 0 < b → 0 < a → 0 < ceil_div a b
ceil_div-pos a b hb ha = elim (dec_lt 0 (ceil_div a b)) [
  | yes p ↦ p
  | no p ↦ absurd (
      omega (
        arith,
        (ceil_div_bounds a b hb).0,
        mul-le-mul_right {m = ceil_div a b} {n = 0} b (omega arith),
      ))
]

fill_block_shape-pos :
    (n participants hint_chunk : ℕ) (oversubscribe : Bool)
    → 0 < n
    → 0 < participants
    → 0 < (fill_block_shape n participants hint_chunk oversubscribe).chunk
unfolding fill_block_shape
fill_block_shape-pos n participants hint_chunk true hn hp =
    ground (arith, ceil_div-pos n (participants * 2) (omega arith) hn)
fill_block_shape-pos n participants hint_chunk false hn hp =
    ground (arith, ceil_div-pos n participants hp hn)

-- fillBlockShape cuts every range of at least one index into blocks that cover it, and no block
-- begins past its end, whatever the grain hint and the balance, if no index plus a grain wraps.
pub fill_block_shape-IsCut :
    (first last participants hint_chunk : ℕ) (oversubscribe : Bool)
    → first < last
    → 0 < participants
    → last + (fill_block_shape (last - first) participants hint_chunk oversubscribe).chunk < 2 ^ 64
    → IsCut first last
        (fill_block_shape (last - first) participants hint_chunk oversubscribe).chunk
        (fill_block_shape (last - first) participants hint_chunk oversubscribe).block_count
unfolding fill_block_shape
fill_block_shape-IsCut first last participants hint_chunk oversubscribe h hp room = record {
  nonzero = pos;
  covers = (bounds pos).0;
  exact = (bounds pos).1;
  forwards = h;
  unwrapped = room;
}
  where
    pos : 0 < (fill_block_shape (last - first) participants hint_chunk oversubscribe).chunk
    pos = fill_block_shape-pos (last - first) participants hint_chunk oversubscribe (omega arith) hp

    bounds :
        0 < (fill_block_shape (last - first) participants hint_chunk oversubscribe).chunk
        → (last - first
            ≤ ceil_div
                (last - first)
                (fill_block_shape (last - first) participants hint_chunk oversubscribe).chunk
              * (fill_block_shape (last - first) participants hint_chunk oversubscribe).chunk)
          × (ceil_div
                  (last - first)
                  (fill_block_shape (last - first) participants hint_chunk oversubscribe).chunk
                * (fill_block_shape (last - first) participants hint_chunk oversubscribe).chunk
              < last
                - first
                + (fill_block_shape (last - first) participants hint_chunk oversubscribe).chunk)
    bounds =
        ceil_div_bounds (last - first)
          (fill_block_shape (last - first) participants hint_chunk oversubscribe).chunk

few_chunks : (n c : ℕ) → 0 < c → n ≤ c * 64 → ceil_div n c ≤ 64
few_chunks n c h large = elim (dec_lt 64 (ceil_div n c)) [
  | yes p ↦
      absurd
        (omega (arith, (ceil_div_bounds n c h).1, mul-le-mul_right {m = 65} {n = ceil_div n c} c p))
  | no p ↦ omega arith
]

-- Without a hint parallelReduce cuts any range of at least one index into at most kReduceMaxChunks
-- chunks, of at least one index each.
pub reduce_chunk_bounds :
    (n : ℕ)
    → 0 < n
    → (0 < reduce_chunk_size n 0) × (ceil_div n (reduce_chunk_size n 0) ≤ reduce_max_chunks)
unfolding reduce_chunk_size
reduce_chunk_bounds n h = elim (dec_lt reduce_max_chunks n) [
  | yes p ↦ rw (lt→leb n reduce_max_chunks p) (
    ceil_div-pos n 64 (omega arith) h,
    few_chunks n (ceil_div n 64) (ceil_div-pos n 64 (omega arith) h)
        (omega (arith, ceil_div_bounds n 64 (omega arith))),
  )
  | no p ↦
      rw (le→leb n reduce_max_chunks (omega arith))
        (omega arith, omega (arith, ceil_div_bounds n 1 (omega arith)))
]
