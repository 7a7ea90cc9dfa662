-- ===== src/Prelude/Bits.antt =====
-- `x & (2 ^ k - 1)` is `x % 2 ^ k`: masking by a power of two, at every width.
use Prim.Native.Nat.{
  ℕ, zero, suc, ◌+◌, ◌-◌, ◌*◌, ◌/◌, ◌%◌, ◌^◌, ◌≤◌, ◌<◌, min, bit_and, digits, bit_and-bitwise,
}
use mathlib.Core.Path.{◌≡◌, sym, ap, ◌∙◌}
use native.Mathlib.Nat.{pow-suc, div-add-mod, mul-add-mod_self_left, mod-eq_of_lt, mod-lt}
use native.Mathlib.Omega.{arith}

pub two-pow_pos : (k : ℕ) → 0 < 2 ^ k
two-pow_pos zero = omega arith
two-pow_pos (suc k) = omega (arith, pow-suc 2 k, two-pow_pos k)

-- The lowest digit of a remainder, and the others.
mod_split : (a p : ℕ) → 0 < p → a / 2 % p * 2 + a % 2 ≡ a % (p * 2)
mod_split a p h =
    let s : ℕ = a / 2 % p * 2 + a % 2 in
    let e : a ≡ p * 2 * (a / 2 / p) + s =
      omega (arith, ap (λ (t : ℕ). t * 2) (div-add-mod (a / 2) p)) in
    let bound : s < p * 2 = omega (arith, mod-lt (a / 2) h) in
    sym (ap (λ t. t % (p * 2)) e ∙ mul-add-mod_self_left (p * 2) (a / 2 / p) s ∙ mod-eq_of_lt bound)

-- The digit recursion behind `bit_and`, on a mask of `k` ones.
masked_digits : (fuel k a : ℕ) → a ≤ fuel → digits (λ b. zero) min fuel a (2 ^ k - 1) ≡ a % 2 ^ k
masked_digits zero k zero h = omega (arith, mod-eq_of_lt (two-pow_pos k))
masked_digits zero k (suc a) h = absurd (omega arith)
masked_digits (suc fuel) k zero h = omega (arith, mod-eq_of_lt (two-pow_pos k))
masked_digits (suc fuel) zero (suc a) h =
    omega (arith, masked_digits fuel zero (suc a / 2) (omega arith))
masked_digits (suc fuel) (suc k) (suc a) h = omega (
  arith,
  masked_digits fuel k (suc a / 2) (omega arith),
  ap (digits (λ b. zero) min fuel (suc a / 2)) half,
  mod_split (suc a) (2 ^ k) (two-pow_pos k),
  ap (λ t. suc a % t) (pow-suc 2 k),
  two-pow_pos k,
  pow-suc 2 k,
)
  where
    half : (2 ^ suc k - 1) / 2 ≡ 2 ^ k - 1
    half = omega (arith, pow-suc 2 k, two-pow_pos k)

pub bit_and-mask : (k a : ℕ) → bit_and a (2 ^ k - 1) ≡ a % 2 ^ k
bit_and-mask k a = bit_and-bitwise a (2 ^ k - 1) ∙ masked_digits a k a (omega arith)
