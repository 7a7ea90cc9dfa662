-- ===== src/Slots/Split.antt =====
-- Splitting n things into k consecutive shares at the points n * s / k.
use native.Mathlib.Nat.{
  mul-div_cancel, div-add-mod, mod-lt, zero-div, div-zero, mod-eq_of_lt, mul-le-mul_left, mul-suc,
}
use citor.Prelude.{ℕ, zero, suc, ◌*◌, ◌/◌, ◌^◌, ◌<◌, ◌≤◌, ◌≡◌, ap, ◌∙◌, arith, dec_lt}
use citor.Slots.Defs.{mul_div64}

div_mono : (a b k : ℕ) → a ≤ b → a / k ≤ b / k
div_mono a b zero h = omega (arith, div-zero a, div-zero b)
div_mono a b (suc k) h = elim (dec_lt (b / suc k) (a / suc k)) [
  | yes p ↦ absurd (
      omega (
        arith,
        div-add-mod a (suc k),
        div-add-mod b (suc k),
        mod-lt b {m = suc k} (omega arith),
        mul-le-mul_left (suc k) p,
        mul-suc (suc k) (b / suc k),
      ))
  | no p ↦ omega arith
]

-- The point where share `s` begins.
abbrev pub point : (n k s : ℕ) → ℕ
point n k s = n * s / k

pub point_first : (n k : ℕ) → point n k 0 ≡ 0
point_first n k = ap (λ m. m / k) {x = n * 0} {y = 0} (omega arith) ∙ zero-div k

pub point_last : (n k : ℕ) → 0 < k → point n k k ≡ n
point_last n k h = mul-div_cancel n h

pub point_grows : (n k s : ℕ) → point n k s ≤ point n k (suc s)
point_grows n k s = div_mono (n * s) (n * suc s) k (omega (arith, mul-suc n s))

pub point_bound : (n k s : ℕ) → s ≤ k → 0 < k → point n k s ≤ n
point_bound n k s h hk =
    omega (arith, point_last n k hk, div_mono (n * s) (n * k) k (mul-le-mul_left n h))

pub mul_div64-point : (n k s : ℕ) → s ≤ k → 0 < k → n < 2 ^ 64 → mul_div64 n s k ≡ point n k s
unfolding mul_div64
mul_div64-point n k s h hk room =
    mod-eq_of_lt {n = n * s / k} {m = 2 ^ 64} (omega (arith, point_bound n k s h hk))
