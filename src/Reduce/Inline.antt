-- ===== src/Reduce/Inline.antt =====
-- `runReduceInlineImpl` of include/citor/thread_pool.h, for a combine that is called on the partials
-- themselves (every determinism but KahanCompensated).
use native.Mathlib.Nat.{mul-le-mul_right, mod-eq_of_lt}
use citor.Prelude.{
  ℕ, zero, suc, ◌+◌, ◌-◌, ◌*◌, ◌%◌, ◌^◌, ◌<◌, ◌≤◌, ◌≡◌, ap, ap₂, ◌∙◌, arith, Bool, ◌&&◌, ◌==◌, ltb,
  if◌then◌else◌, min,
}
use citor.Blocks.Shape.{ceil_div, reduce_chunk_size, block_range, IsCut}
use citor.Reduce.Tree.{pairwise_tree_combine}
use citor.Reduce.Fold.{span, tree_is_fold}

-- What the call returns, or the value of the cancelled_value_exception it throws.
pub data Reduced {ℓ} (A : Type ℓ) : Type ℓ where
  value : A → Reduced A
  cancelled : A → Reduced A

-- The token: `canStop`, what `stop_requested` gives at the entry, and before each chunk.
pub record Token : Type 0 where
  pub can_stop : Bool
  pub stopped_at_entry : Bool
  pub stopped_before : ℕ → Bool

-- How many of the chunks from `b` on are mapped before the loop breaks.
unfoldable pub chunks_mapped : Token → (left b : ℕ) → ℕ
chunks_mapped tok zero b = 0
chunks_mapped tok (suc left) b =
    let rest = chunks_mapped tok left (b + 1) in
    if tok.can_stop && tok.stopped_before b then 0 else 1 + rest

module _ {ℓ} {A : Type ℓ} (combine : A → A → A) (mapped : ℕ → ℕ → A) where
  -- `partials`
  abbrev pub partial : (first last chunk : ℕ) → ℕ → A
  partial first last chunk b = let r = block_range first last chunk b in mapped r.0 r.1

  unfoldable pub run_reduce_inline : (first last : ℕ) → A → (chunk_hint : ℕ) → Token → Reduced A
  run_reduce_inline first last init chunk_hint tok =
      let chunk = reduce_chunk_size (last - first) chunk_hint in
      let n_chunks = ceil_div (last - first) chunk in
      let count = chunks_mapped tok n_chunks 0 in
      let combined =
        combine init (pairwise_tree_combine combine count (partial first last chunk)) in
      if tok.stopped_at_entry
      then cancelled init
      else if count == 0
      then cancelled init
      else if ltb count n_chunks
      then cancelled combined
      else value combined

  -- Mapping two neighbouring ranges and combining the results maps the range they make up.
  unfoldable pub Splits : (first last : ℕ) → Type ℓ
  Splits first last =
      (a b c : ℕ)
      → first ≤ a
      → a < b
      → b < c
      → c ≤ last
      → combine (mapped a b) (mapped b c) ≡ mapped a c

  module _ (first last chunk n : ℕ) (cut : IsCut first last chunk n) where
    begins : (b : ℕ) → b < n → b * chunk < last - first
    begins b h = omega (arith, mul-le-mul_right chunk h, cut.exact, cut.nonzero)

    partial_at :
        (b : ℕ)
        → b < n
        → partial first last chunk b
          ≡ mapped (first + b * chunk) (min (first + b * chunk + chunk) last)
    unfolding block_range
    partial_at b h =
        ap₂ mapped low (ap (λ l. min ((l + chunk) % 2 ^ 64) last) low ∙ ap (λ l. min l last) high)
      where
        low : (first + b * chunk) % 2 ^ 64 ≡ first + b * chunk
        low = mod-eq_of_lt {m = 2 ^ 64} (omega (arith, begins b h, cut.unwrapped))

        high : (first + b * chunk + chunk) % 2 ^ 64 ≡ first + b * chunk + chunk
        high = mod-eq_of_lt {m = 2 ^ 64} (omega (arith, begins b h, cut.unwrapped))

    span-mapped :
        Splits first last
        → (count b : ℕ) → b + count < n
        → span combine (partial first last chunk) b count
          ≡ mapped (first + b * chunk) (min (first + (b + count) * chunk + chunk) last)
    unfolding span Splits
    span-mapped splits zero b h =
        partial_at b (omega arith) ∙ ap (mapped (first + b * chunk)) (omega arith)
    span-mapped splits (suc count) b h =
        ap₂ combine
          (partial_at b (omega arith)
            ∙ ap (mapped (first + b * chunk)) {y = first + (b + 1) * chunk}
                (omega (arith, begins (b + 1) (omega arith))))
          (span-mapped splits count (b + 1) (omega arith))
        ∙ splits (first + b * chunk) (first + (b + 1) * chunk)
            (min (first + (b + 1 + count) * chunk + chunk) last) (omega arith)
            (omega (arith, cut.nonzero))
            (omega (arith, begins (b + 1) (omega arith), cut.nonzero, cut.forwards)) (omega arith)
        ∙ ap (mapped (first + b * chunk)) (omega arith)

    module _ (assoc : (a b c : A) → combine (combine a b) c ≡ combine a (combine b c)) where
      pub tree_maps :
          Splits first last
          → (count : ℕ) → 0 < count
          → count ≤ n
          → pairwise_tree_combine combine count (partial first last chunk)
            ≡ mapped first (min (first + count * chunk) last)
      tree_maps splits count some h =
          tree_is_fold combine assoc count (partial first last chunk) some
          ∙ span-mapped splits (count - 1) 0 (omega arith)
          ∙ ap₂ mapped (omega arith) (ap (λ e. min e last) (omega (arith, last_row)))
        where
          last_row : (0 + (count - 1)) * chunk + chunk ≡ count * chunk
          last_row =
              omega (arith, ap (λ k. k * chunk) {x = count - 1 + 1} {y = count} (omega arith))

module _ {ℓ} {A : Type ℓ} (combine : A → A → A) (mapped : ℕ → ℕ → A)
    (assoc : (a b c : A) → combine (combine a b) c ≡ combine a (combine b c)) (first last : ℕ)
    (splits : Splits combine mapped first last) (chunk_hint : ℕ) where
  abbrev pub chunk : ℕ
  chunk = reduce_chunk_size (last - first) chunk_hint

  abbrev pub n_chunks : ℕ
  n_chunks = ceil_div (last - first) chunk
