-- ===== src/Blocks/Ranks.antt =====
-- `tryClaimRank`: the producer and a worker race for one rank of a dispatch.
use citor.Prelude.{ℕ, ◌+◌, ◌≤◌, ◌≡◌, refl, arith, if◌then◌else◌, List, [], ◌∷◌, ◌==◌}
use citor.Blocks.Defs.{try_claim_rank}

-- The claims of one rank in the order of their compare-exchanges, each for a generation: how many
-- for generation `g` win, and what `claimedAt` holds in the end.
unfoldable pub race : (g claimed_at : ℕ) → List ℕ → ℕ × ℕ
race g claimed_at [] = (0, claimed_at)
race g claimed_at (h ∷ hs) =
    let (now, won) = try_claim_rank claimed_at h in
    let (wins, last) = race g now hs in
    ((if h == g then (if won then 1 else 0) else 0) + wins, last)

race_old : (g c : ℕ) (hs : List ℕ) → g ≤ c → (race g c hs).0 ≡ 0
unfolding race try_claim_rank
race_old g c [] h = refl
race_old g c (k ∷ hs) h = ground (arith, race_old g c hs h, race_old g k hs)

-- However the claims for one rank are ordered, at most one claim for a generation wins.
pub claim_at_most_once : (g c : ℕ) (hs : List ℕ) → (race g c hs).0 ≤ 1
unfolding race try_claim_rank
claim_at_most_once g c [] = omega arith
claim_at_most_once g c (k ∷ hs) =
    ground (arith, claim_at_most_once g c hs, claim_at_most_once g k hs, race_old g g hs)

race_raises : (g c : ℕ) (hs : List ℕ) → c ≤ (race g c hs).1
unfolding race try_claim_rank
race_raises g c [] = omega arith
race_raises g c (k ∷ hs) = ground (arith, race_raises g c hs, race_raises g k hs)
