-- ===== src/Scan/Tests.antt =====
-- Runs of the look-back at concrete inputs.
use mathlib.Core.List.{append_assoc, append-nil}
use citor.Prelude.{
  ℕ, zero, suc, ◌<◌, ◌≡◌, ◌≢◌, refl, arith, ◌==◌, if◌then◌else◌, none, some, List, [], ◌∷◌, ◌++◌,
}
use citor.Scan.Lookback.{
  initialized, aggregate_available, prefix_available, LookbackTile, await_payload, lookback_walk,
  total_before, IsPublished, lookback_walk_lem,
}

-- Tile 1 is seen with its prefix after one wait, the others with their aggregates only.
abbrev tiles : ℕ → LookbackTile (List ℕ)
tiles i = record {
  flags =
      if i == 1
      then initialized ∷ prefix_available ∷ []
      else initialized ∷ aggregate_available ∷ [];
  aggregate = i ∷ [];
  prefix = if i == 1 then 0 ∷ [] else [];
}

tiles-IsPublished : IsPublished ◌++◌ tiles [] 3
unfolding await_payload total_before
tiles-IsPublished = record { seen = seen; right = right }
  where
    seen : (tile : ℕ) → tile < 3 → await_payload (tiles tile).flags ≢ none
    seen zero h e = cc
    seen (suc zero) h e = cc
    seen (suc (suc zero)) h e = cc
    seen (suc (suc (suc tile))) h e = absurd (omega arith)

    right :
        (tile : ℕ)
        → tile < 3
        → await_payload (tiles tile).flags ≡ some prefix_available
        → (tiles tile).prefix ≡ total_before ◌++◌ tiles [] tile
    right zero h e = refl
    right (suc zero) h e = refl
    right (suc (suc zero)) h e = cc
    right (suc (suc (suc tile))) h e = absurd (omega arith)

lookback_walk_lem_example : lookback_walk ◌++◌ tiles 3 [] ≡ some (total_before ◌++◌ tiles [] 3)
lookback_walk_lem_example =
    lookback_walk_lem ◌++◌ (λ a b c. append_assoc a b c) [] (λ a. refl) (λ a. append-nil a) tiles 3
      tiles-IsPublished
