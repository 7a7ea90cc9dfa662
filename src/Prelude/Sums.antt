-- ===== src/Prelude/Sums.antt =====
-- Sums over the first threads, ranks or slots.
use citor.Prelude.{
  ℕ, zero, suc, ◌+◌, ◌*◌, ◌≤◌, ◌<◌, ◌≡◌, ◌≢◌, refl, sym, subst, ap, ap₂, ◌∙◌, arith, false, ltb,
  ◌==◌, put, put_self, put_other, Bool-cases, ==_iff, ==_ne, ne→==, inl, inr,
}
use native.Mathlib.Nat.{suc-mul}

pub lt_of : (j k : ℕ) → j < suc k → j ≢ k → j < k
lt_of j k m d = ground arith

pub ltb_next : (m k : ℕ) → (m == k) ≡ false → ltb m (suc k) ≡ ltb m k
ltb_next m k e = ground arith

-- What holds below `n` and at `n` holds below `n + 1`.
pub up_to {ℓ} : (P : ℕ → Type ℓ) (n : ℕ) → ((k : ℕ) → k < n → P k) → P n → (k : ℕ) → k < suc n → P k
up_to P n h p k l = elim (Bool-cases (k == n)) [
  | inl e ↦ subst P (sym ((==_iff k n).0 e)) p
  | inr e ↦ h k (lt_of k n l (==_ne k n e))
]

unfoldable pub sum : (ℕ → ℕ) → ℕ → ℕ
sum f zero = 0
sum f (suc n) = f n + sum f n

pub sum_same : (f g : ℕ → ℕ) (n : ℕ) → ((j : ℕ) → j < n → f j ≡ g j) → sum f n ≡ sum g n
unfolding sum
sum_same f g zero h = refl
sum_same f g (suc n) h =
    ap₂ (λ a b. a + b) (h n (omega arith)) (sum_same f g n (λ j l. h j (omega arith)))

-- A new value at one place.
pub sum_moves {ℓ} :
    {A : Type ℓ} (g : A → ℕ) (f : ℕ → A) (i : ℕ) (q : A) (n : ℕ)
    → i < n
    → sum (λ j. g (put f i q j)) n + g (f i) ≡ sum (λ j. g (f j)) n + g q
unfolding sum
sum_moves g f i q zero l = absurd (omega (arith, l))
sum_moves g f i q (suc n) l = elim (Bool-cases (i == n)) [
  | inl e ↦
      let at = (==_iff i n).0 e in
      let head = ap g (ap (put f i q) (sym at) ∙ put_self f i q) in
      let tail =
        sum_same (λ j. g (put f i q j)) (λ j. g (f j)) n
          (λ j m. ap g (put_other f i j q (ne→== i j (λ x. omega (arith, x, m, at))))) in
      let old = ap (λ k. g (f k)) at in omega (arith, head, tail, old)
  | inr e ↦
      let head = ap g (put_other f i n q e) in
      let tail = sum_moves g f i q n (lt_of i n l (==_ne i n e)) in omega (arith, head, tail)
]

-- A value that goes down takes the sum down with it.
pub sum-put {ℓ} :
    {A : Type ℓ} (g : A → ℕ) (f : ℕ → A) (i : ℕ) (q : A) (n : ℕ)
    → i < n
    → g q < g (f i)
    → sum (λ j. g (put f i q j)) n < sum (λ j. g (f j)) n
sum-put g f i q n l h = let m = sum_moves g f i q n l in omega (arith, m, h)

pub sum_zero : (f : ℕ → ℕ) (n : ℕ) → ((j : ℕ) → j < n → f j ≡ 0) → sum f n ≡ 0
unfolding sum
sum_zero f zero h = refl
sum_zero f (suc n) h =
    let head = h n (omega arith) in
    let tail = sum_zero f n (λ j l. h j (omega (arith, l))) in omega (arith, head, tail)

pub sum_le : (g : ℕ → ℕ) (m n : ℕ) → ((j : ℕ) → g j ≤ m) → sum g n ≤ n * m
unfolding sum
sum_le g m zero h = omega arith
sum_le g m (suc n) h =
    let head = h n in
    let tail = sum_le g m n h in let size = suc-mul n m in omega (arith, head, tail, size)
