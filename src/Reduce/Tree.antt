-- ===== src/Reduce/Tree.antt =====
-- `pairwiseTreeCombine` of include/citor/detail/reduce_tree.h.
use citor.Prelude.{ℕ, zero, suc, ◌+◌, ◌*◌, ◌==◌, ltb, if◌then◌else◌}

-- partials[i] = value
abbrev pub assign {ℓ} : {A : Type ℓ} → (ℕ → A) → ℕ → A → ℕ → A
assign partials i value j = if i == j then value else partials j

module _ {ℓ} {A : Type ℓ} (combine : A → A → A) where
  -- The inner loop from `i` on.
  unfoldable pub combine_pass : (fuel size step i : ℕ) → (ℕ → A) → ℕ → A
  combine_pass zero size step i partials = partials
  combine_pass (suc fuel) size step i partials =
      let rest =
        combine_pass fuel size step (i + step * 2)
          (assign partials i (combine (partials i) (partials (i + step)))) in
      if ltb (i + step) size then rest else partials

  -- The outer loop from `step` on; a pass has fuel for one round per element.
  unfoldable pub combine_steps : (fuel size step : ℕ) → (ℕ → A) → ℕ → A
  combine_steps zero size step partials = partials
  combine_steps (suc fuel) size step partials =
      let rest = combine_steps fuel size (step * 2) (combine_pass size size step 0 partials) in
      if ltb step size then rest else partials

  -- The tree over `size` partials, of which there is at least one; `step` doubles, so that `size`
  -- rounds are enough.
  unfoldable pub pairwise_tree_combine : (size : ℕ) → (ℕ → A) → A
  pairwise_tree_combine size partials = combine_steps size size 1 partials 0
