-- ===== src/Prelude/Int.antt =====
-- Signed 64-bit counters as integers: the operations that the deque uses.
use Prim.Native.Nat.{ℕ, zero, suc, ◌-◌}
use mathlib.Core.Path.{◌≡◌, refl}
use mathlib.Core.Bool.{Bool, true, false}
use native.Mathlib.Omega.{arith}
use citor.Prelude.Tests.{ltb, leb, ◌==◌}

-- `negsuc n` is -(n + 1).
pub data ℤ : Type 0 where
  pos : ℕ → ℤ
  negsuc : ℕ → ℤ

-- x + 1
abbrev pub inc : ℤ → ℤ
inc (pos n) = pos (suc n)
inc (negsuc zero) = pos 0
inc (negsuc (suc n)) = negsuc n

-- x - 1
abbrev pub dec : ℤ → ℤ
dec (pos zero) = negsuc 0
dec (pos (suc n)) = pos n
dec (negsuc n) = negsuc (suc n)

abbrev pub int_ltb : ℤ → ℤ → Bool
int_ltb (pos a) (pos b) = ltb a b
int_ltb (pos a) (negsuc b) = false
int_ltb (negsuc a) (pos b) = true
int_ltb (negsuc a) (negsuc b) = ltb b a

abbrev pub int_leb : ℤ → ℤ → Bool
int_leb (pos a) (pos b) = leb a b
int_leb (pos a) (negsuc b) = false
int_leb (negsuc a) (pos b) = true
int_leb (negsuc a) (negsuc b) = leb b a

abbrev pub int_eqb : ℤ → ℤ → Bool
int_eqb (pos a) (pos b) = a == b
int_eqb (pos a) (negsuc b) = false
int_eqb (negsuc a) (pos b) = false
int_eqb (negsuc a) (negsuc b) = a == b

-- A value that is not negative, as a natural number.
abbrev pub to_nat : ℤ → ℕ
to_nat (pos n) = n
to_nat (negsuc n) = 0

-- How often `for (i = t; i < b; ++i)` runs, from a `t` that is not negative.
abbrev pub rounds : ℕ → ℤ → ℕ
rounds t (pos b) = b - t
rounds t (negsuc b) = 0

-- x - 1 + 1
pub inc-dec : (x : ℤ) → inc (dec x) ≡ x
inc-dec (pos zero) = refl
inc-dec (pos (suc n)) = refl
inc-dec (negsuc n) = refl

-- What the tests say of `n - 1`, which may be -1.
pub ltb-dec : (n t : ℕ) → int_ltb (dec (pos n)) (pos t) ≡ leb n t
ltb-dec zero t = ground arith
ltb-dec (suc n) t = ground arith

pub leb-dec : (n t : ℕ) → int_leb (dec (pos n)) (pos t) ≡ leb n (suc t)
leb-dec zero t = ground arith
leb-dec (suc n) t = ground arith

pub eqb-dec : (n t : ℕ) → int_eqb (pos t) (dec (pos n)) ≡ (n == suc t)
eqb-dec zero t = ground arith
eqb-dec (suc n) t = ground arith
