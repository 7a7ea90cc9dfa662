-- ===== src/Gate/Progress.antt =====
-- While a thread sleeps, some other thread can go on.
use citor.Prelude.{ℕ, ◌≡◌, ◌≢◌, refl, sym, ◌∙◌, true, ◌==◌, Bool-cases, inl, inr, ==_iff, ==_ne}
use citor.Gate.Defs.{
  Place, outside, trying, spinning, looping, loaded, parking, parked, holding, waking, Gate,
  has_waiter, Step, load, retry, skip_mark, sleep, no_sleep, unlock_waiter, wake_one, Reach,
}
use citor.Gate.Exclusion.{holds}
use citor.Gate.Wake.{contends, no_lost_wake}

-- Some thread that does not sleep has a step.
abbrev pub Moves : Gate → Type 0
Moves s = (j : ℕ) × (s' : Gate) × (s.place j ≢ parked) × Step s j s'

up : (s : Gate) {j : ℕ} {p : Place} → s.place j ≡ p → p ≢ parked → s.place j ≢ parked
up s at not e = not (sym at ∙ e)

holder : (p : Place) → holds p ≡ true → p ≡ holding
unfolding holds
holder holding h = refl
holder outside h = cc
holder trying h = cc
holder (spinning n) h = cc
holder looping h = cc
holder (loaded cur) h = cc
holder (parking cur) h = cc
holder parked h = cc
holder waking h = cc

contender_moves :
    (s : Gate) (i j : ℕ) (p : Place)
    → s.place i ≡ parked
    → s.place j ≡ p
    → contends p ≡ true
    → Moves s
unfolding contends
contender_moves s i j looping q at c = (j, _, up s at (λ e. cc), load at)
contender_moves s i j (loaded cur) q at c = elim (Bool-cases (has_waiter cur)) [
  | inl full ↦ (j, _, up s at (λ e. cc), skip_mark at full)
  | inr bare ↦ (j, _, up s at (λ e. cc), retry at bare)
]
contender_moves s i j (parking cur) q at c = elim (Bool-cases (s.word == cur)) [
  | inl same ↦ (j, _, up s at (λ e. cc), sleep at ((==_iff s.word cur).0 same))
  | inr other ↦ (j, _, up s at (λ e. cc), no_sleep at (==_ne s.word cur other))
]
contender_moves s i j waking q at c = (j, _, up s at (λ e. cc), wake_one at q)
contender_moves s i j outside q at c = cc
contender_moves s i j trying q at c = cc
contender_moves s i j (spinning n) q at c = cc
contender_moves s i j parked q at c = cc
contender_moves s i j holding q at c = cc

-- In every state that any interleaving reaches from a free gate, while a thread sleeps, some thread
-- that does not sleep has a step: sleepers alone never block the gate.
pub parked_progress : {s : Gate} (i : ℕ) → Reach s → s.place i ≡ parked → Moves s
parked_progress {s} i r p = elim (no_lost_wake i r p) [
  | inl (full, (j, h)) ↦ (
    j,
    _,
    up s (holder (s.place j) h) (λ e. cc),
    unlock_waiter (holder (s.place j) h) (rw full refl),
  )
  | inr (j, c) ↦ contender_moves s i j (s.place j) p refl c
]
