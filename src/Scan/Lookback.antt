-- ===== src/Scan/Lookback.antt =====
-- The decoupled look-back of include/citor/detail/lookback_scan.h.
use citor.Prelude.{
  ℕ, zero, suc, ◌<◌, ◌≡◌, ◌≢◌, sym, ap, ◌∙◌, arith, Option, none, some, List, [], ◌∷◌, Option-cases,
  inl, inr,
}

-- LookbackTile::Flag
pub data Flag : Type 0 where
  initialized : Flag
  aggregate_available : Flag
  prefix_available : Flag

-- A tile as a walk sees it: what its loads of the flag give in turn, and the payload.
pub record LookbackTile {ℓ} (A : Type ℓ) : Type ℓ where
  pub flags : List Flag
  pub aggregate : A
  pub prefix : A

-- The loop on one tile: the first flag that shows a payload, if the loads get that far.
unfoldable pub await_payload : List Flag → Option Flag
await_payload [] = none
await_payload (initialized ∷ flags) = await_payload flags
await_payload (aggregate_available ∷ flags) = some aggregate_available
await_payload (prefix_available ∷ flags) = some prefix_available

-- What the walk does at a tile, given the result if it stops there and the result if it walks on.
unfoldable pub visit {ℓ} : {A : Type ℓ} → Option Flag → (stop further : Option A) → Option A
visit none stop further = none
visit (some initialized) stop further = none
visit (some aggregate_available) stop further = further
visit (some prefix_available) stop further = stop

never_initialized : (flags : List Flag) → await_payload flags ≢ some initialized
unfolding await_payload
never_initialized [] e = cc
never_initialized (initialized ∷ flags) e = never_initialized flags e
never_initialized (aggregate_available ∷ flags) e = cc
never_initialized (prefix_available ∷ flags) e = cc

module _ {ℓ} {A : Type ℓ} (combine : A → A → A) where
  -- The walk from tile `cursor` - 1 down; nothing if it waits for a tile for ever.
  unfoldable pub walk : (tiles : ℕ → LookbackTile A) → (cursor : ℕ) → (accum : A) → Option A
  walk tiles zero accum = some accum
  walk tiles (suc cursor) accum =
      visit (await_payload (tiles cursor).flags)
        (some (combine (combine (tiles cursor).prefix (tiles cursor).aggregate) accum))
        (walk tiles cursor (combine (tiles cursor).aggregate accum))

  -- lookbackWalk
  unfoldable pub lookback_walk :
      (tiles : ℕ → LookbackTile A) → (my_tile : ℕ) → (identity : A) → Option A
  lookback_walk tiles my_tile identity = walk tiles my_tile identity

  -- The aggregates of the tiles below, combined from the first one on.
  unfoldable pub total_before : (tiles : ℕ → LookbackTile A) → (identity : A) → ℕ → A
  total_before tiles identity zero = identity
  total_before tiles identity (suc tile) =
      combine (total_before tiles identity tile) (tiles tile).aggregate

  -- The walk sees each tile below published, and a tile that is seen with its prefix has the right
  -- one.
  pub record IsPublished (tiles : ℕ → LookbackTile A) (identity : A) (my_tile : ℕ) : Type ℓ where
    pub seen : (tile : ℕ) → tile < my_tile → await_payload (tiles tile).flags ≢ none
    pub right :
        (tile : ℕ)
        → tile < my_tile
        → await_payload (tiles tile).flags ≡ some prefix_available
        → (tiles tile).prefix ≡ total_before tiles identity tile

  module _ (assoc : (a b c : A) → combine (combine a b) c ≡ combine a (combine b c)) (identity : A)
      (unit_left : (a : A) → combine identity a ≡ a) (unit_right : (a : A) → combine a identity ≡ a)
      (tiles : ℕ → LookbackTile A) (my_tile : ℕ)
      (published : IsPublished tiles identity my_tile) where
    walk_total :
        (cursor : ℕ) (accum : A)
        → cursor < suc my_tile
        → walk tiles cursor accum ≡ some (combine (total_before tiles identity cursor) accum)
    unfolding walk visit total_before
    walk_total zero accum h = ap some (sym (unit_left accum))
    walk_total (suc cursor) accum h = elim (Option-cases (await_payload (tiles cursor).flags)) [
      | inl e ↦ absurd (published.seen cursor (omega arith) e)
      | inr (initialized, e) ↦ absurd (never_initialized (tiles cursor).flags e)
      | inr (aggregate_available, e) ↦ rw e (
          walk_total cursor (combine (tiles cursor).aggregate accum) (omega arith)
          ∙ ap some (sym (assoc _ _ _)))
      | inr (prefix_available, e) ↦ rw e (
          ap (λ p. some (combine (combine p (tiles cursor).aggregate) accum))
            (published.right cursor (omega arith) e))
    ]

    -- For an associative combine with a unit, the walk returns the total of all tiles before its own,
    -- in their order, whichever of them it sees with a prefix and whichever with an aggregate only.
    pub lookback_walk_lem :
        lookback_walk tiles my_tile identity ≡ some (total_before tiles identity my_tile)
    unfolding lookback_walk
    lookback_walk_lem = walk_total my_tile identity (omega arith) ∙ ap some (unit_right _)
