-- ===== src/Ranges.antt =====
-- Half-open ranges of indices: how often an index is covered, and sums over ranks and slots.
use citor.Prelude.{
  ℕ, zero, suc, ◌+◌, ◌<◌, ◌≤◌, ◌≡◌, refl, ap₂, ◌∙◌, arith, Bool, ◌&&◌, leb, ltb, if◌then◌else◌,
  List, [], ◌∷◌,
}

-- How many of the half-open ranges hold index `i`.
abbrev pub holds : ℕ → ℕ × ℕ → Bool
holds i r = leb r.0 i && ltb i r.1

pub hits : ℕ → List (ℕ × ℕ) → ℕ
hits i [] = 0
hits i (r ∷ rs) = (if holds i r then 1 else 0) + hits i rs

pub hits-nil : (i : ℕ) → hits i [] ≡ 0
unfolding hits
hits-nil i = refl

pub hits-cons :
    (i : ℕ) (r : ℕ × ℕ) (rs : List (ℕ × ℕ))
    → hits i (r ∷ rs) ≡ (if holds i r then 1 else 0) + hits i rs
unfolding hits
hits-cons i r rs = refl

-- f 0 + … + f (n - 1)
pub total : ℕ → (ℕ → ℕ) → ℕ
total zero f = 0
total (suc n) f = total n f + f n

-- 1 if lo ≤ q < hi, else 0
abbrev pub within : ℕ → ℕ → ℕ → ℕ
within lo q hi = if leb lo q && ltb q hi then 1 else 0

-- Consecutive spans add up.
pub total-within :
    (n q : ℕ) (f g : ℕ → ℕ)
    → ((r : ℕ) → r < n → g r ≡ within (f r) q (f (suc r)))
    → f 0 ≡ 0
    → ((r : ℕ) → f r ≤ f (suc r))
    → total n g ≡ within 0 q (f n)
unfolding total
total-within zero q f g h z mono = ground arith
total-within (suc n) q f g h z mono =
    ap₂ ◌+◌ (total-within n q f g (λ r lt. h r (omega arith)) z mono) (h n (omega arith))
    ∙ ground (arith, mono n)

-- Two runs of consecutive spans add up, of which each step moves one.
pub total-within_two :
    (n q c : ℕ) (f h g : ℕ → ℕ)
    → ((r : ℕ) → r < n → g r ≡ within (f r) q (f (suc r)) + within (h r) q (h (suc r)))
    → f 0 ≡ 0
    → h 0 ≡ c
    → ((r : ℕ) → f r ≤ f (suc r))
    → ((r : ℕ) → h r ≤ h (suc r))
    → total n g ≡ within 0 q (f n) + within c q (h n)
unfolding total
total-within_two zero q c f h g e z w mono mono' = ground arith
total-within_two (suc n) q c f h g e z w mono mono' =
    ap₂ ◌+◌ (total-within_two n q c f h g (λ r lt. e r (omega arith)) z w mono mono')
      (e n (omega arith))
    ∙ ground (arith, mono n, mono' n, from_c n)
  where
    from_c : (n : ℕ) → c ≤ h n
    from_c zero = omega (arith, w)
    from_c (suc n) = omega (arith, from_c n, mono' n)
