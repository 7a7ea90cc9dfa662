-- ===== src/Prelude/Families.antt =====
-- Families of values indexed by threads, ranks or slots.
use Prim.Native.Nat.{ℕ}
use mathlib.Core.Path.{◌≡◌, refl, subst}
use mathlib.Core.Bool.{false}
use mathlib.Core.Logic.{inl, inr}
use citor.Prelude.Tests.{◌==◌, if◌then◌else◌, ==_self, ==_iff, Bool-cases}

abbrev pub put {ℓ} : {A : Type ℓ} → (ℕ → A) → ℕ → A → ℕ → A
put f i a j = if i == j then a else f j

pub put_self {ℓ} : {A : Type ℓ} (f : ℕ → A) (i : ℕ) (a : A) → put f i a i ≡ a
put_self f i a = rw (==_self i) refl

pub put_other {ℓ} :
    {A : Type ℓ} (f : ℕ → A) (i j : ℕ) (a : A) → (i == j) ≡ false → put f i a j ≡ f j
put_other f i j a h = rw h refl

-- A property of every value, after one has been replaced.
pub at_put {ℓ ℓ'} :
    {A : Type ℓ} (P : ℕ → A → Type ℓ') (f : ℕ → A) (i : ℕ) (a : A)
    → P i a
    → ((j : ℕ) → P j (f j))
    → (j : ℕ) → P j (put f i a j)
at_put P f i a h k j = elim (Bool-cases (i == j)) [
  | inl e ↦ rw e (subst (λ k. P k a) ((==_iff i j).0 e) h)
  | inr e ↦ rw e (k j)
]
