-- ===== src/Blocks/Shape.antt =====
-- How a range is cut into blocks: `ceilDiv`, `fillBlockShape` and `reduceChunkSize` of
-- include/citor/thread_pool.h, and the bounds of a block in the loops of
-- include/citor/detail/dispatch_static.h. `std::size_t` has 64 bits.
use native.Mathlib.Nat.{mul-le-mul_right, div-add-mod, mod-lt}
use citor.Prelude.{
  ℕ, ◌+◌, ◌-◌, ◌*◌, ◌/◌, ◌%◌, ◌^◌, ◌<◌, ◌≤◌, ◌≡◌, arith, Bool, ◌==◌, leb, if◌then◌else◌, min,
  dec_lt, ne→==,
}
use citor.Ranges.{holds}

unfoldable pub ceil_div : ℕ → ℕ → ℕ
ceil_div a b = a / b + (if a % b == 0 then 0 else 1)

-- `chunk` and `blockCount`
pub record Shape : Type 0 where
  pub chunk : ℕ
  pub block_count : ℕ

unfoldable pub fill_block_shape : (n participants hint_chunk : ℕ) → Bool → Shape
fill_block_shape n participants hint_chunk oversubscribe = record {
  chunk = chunk';
  block_count = ceil_div n chunk';
}
  where
    chunk' : ℕ
    chunk' =
        if hint_chunk == 0
        then ceil_div n (if oversubscribe then participants * 2 else participants)
        else hint_chunk

-- kReduceMaxChunks
abbrev pub reduce_max_chunks : ℕ
reduce_max_chunks = 64

unfoldable pub reduce_chunk_size : (n hint_chunk : ℕ) → ℕ
reduce_chunk_size n hint_chunk =
    if hint_chunk == 0
    then (if leb n reduce_max_chunks then 1 else ceil_div n reduce_max_chunks)
    else hint_chunk

-- lo = first + blockId * chunk, hi = std::min(lo + chunk, last)
unfoldable pub block_range : (first last chunk block : ℕ) → ℕ × ℕ
block_range first last chunk block =
    let lo = (first + block * chunk) % 2 ^ 64 in (lo, min ((lo + chunk) % 2 ^ 64) last)

pub ceil_div_bounds : (a b : ℕ) → 0 < b → (a ≤ ceil_div a b * b) × (ceil_div a b * b < a + b)
unfolding ceil_div
ceil_div_bounds a b h = elim (dec_lt 0 (a % b)) [
  | yes p ↦
      rw (ne→== (a % b) 0 (omega arith))
        (omega (arith, div-add-mod a b, mod-lt a h), omega (arith, div-add-mod a b, mod-lt a h))
  | no p ↦
      let e : a % b ≡ 0 = omega arith in
      rw e (omega (arith, div-add-mod a b), omega (arith, div-add-mod a b))
]

-- A range whose blocks do not wrap around.
pub record IsCut (first last chunk block_count : ℕ) : Type 0 where
  pub nonzero : 0 < chunk
  pub covers : last - first ≤ block_count * chunk
  pub exact : block_count * chunk < last - first + chunk
  pub forwards : first < last
  pub unwrapped : last + chunk < 2 ^ 64

-- An index lies in the block that its offset names, and in no other.
pub holds-block_range :
    (first last chunk i b n : ℕ)
    → IsCut first last chunk n
    → first ≤ i
    → i < last
    → b < n
    → holds i (block_range first last chunk b) ≡ (b == (i - first) / chunk)
unfolding block_range
holds-block_range first last chunk i b n cut lo hi lt = ground (
  arith,
  cut.exact,
  cut.unwrapped,
  div-add-mod (i - first) chunk,
  mod-lt (i - first) cut.nonzero,
  mul-le-mul_right chunk lt,
  below,
  above,
)
  where
    q : ℕ
    q = (i - first) / chunk

    below : b < q → b * chunk + chunk ≤ q * chunk
    below h = omega (arith, mul-le-mul_right chunk h)

    above : q < b → q * chunk + chunk ≤ b * chunk
    above h = omega (arith, mul-le-mul_right chunk h)

pub block_of-lt :
    (first last chunk i n : ℕ)
    → IsCut first last chunk n
    → first ≤ i
    → i < last
    → (i - first) / chunk < n
block_of-lt first last chunk i n cut lo hi = elim (dec_lt ((i - first) / chunk) n) [
  | yes p ↦ p
  | no p ↦ absurd (
      omega (
        arith,
        cut.covers,
        div-add-mod (i - first) chunk,
        mul-le-mul_right {m = n} {n = (i - first) / chunk} chunk (omega arith),
      ))
]
