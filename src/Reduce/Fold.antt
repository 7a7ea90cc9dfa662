-- ===== src/Reduce/Fold.antt =====
-- The tree of pairs combines what a fold from left to right combines.
use native.Mathlib.Nat.{mul-le-mul_right}
use citor.Prelude.{
  ℕ, zero, suc, ◌+◌, ◌-◌, ◌*◌, ◌<◌, ◌≤◌, ◌≡◌, refl, sym, ap, ap₂, subst, ◌∙◌, arith, true, ◌==◌,
  ltb, leb, ◌&&◌, if◌then◌else◌, dec_lt, min, lt→ltb, le→ltb, ne→==, lt→leb, le→leb,
}
use citor.Reduce.Tree.{assign, combine_pass, combine_steps, pairwise_tree_combine}

eq→== : (a b : ℕ) → a ≡ b → (a == b) ≡ true
eq→== a b h = ground arith

module _ {ℓ} {A : Type ℓ} (combine : A → A → A) where
  -- f lo, …, f (lo + count), combined from the right.
  unfoldable pub span : (f : ℕ → A) (lo count : ℕ) → A
  span f lo zero = f lo
  span f lo (suc count) = combine (f lo) (span f (lo + 1) count)

  pass_at :
      (fuel size step k m : ℕ) (p : ℕ → A)
      → 0 < step
      → size ≤ k * (step * 2) + fuel
      → combine_pass combine fuel size step (k * (step * 2)) p (m * (step * 2)) ≡ (
          if leb k m && ltb (m * (step * 2) + step) size
          then combine (p (m * (step * 2))) (p (m * (step * 2) + step))
          else p (m * (step * 2)))
  unfolding combine_pass
  pass_at zero size step k m p pos enough = ground (arith, later)
    where
      later : k ≤ m → k * (step * 2) ≤ m * (step * 2)
      later h = mul-le-mul_right (step * 2) h
  pass_at (suc fuel) size step k m p pos enough = elim (dec_lt (k * (step * 2) + step) size) [
    | yes h ↦ rw (lt→ltb (k * (step * 2) + step) size h) (
        ap (λ i. combine_pass combine fuel size step i p' (m * (step * 2)))
          {x = k * (step * 2) + step * 2} {y = suc k * (step * 2)} (omega arith)
        ∙ pass_at fuel size step (suc k) m p' pos (omega arith)
        ∙ settled h)
    | no h ↦ rw (le→ltb (k * (step * 2) + step) size (omega arith)) (ground (arith, later))
  ]
    where
      p' : ℕ → A
      p' = assign p (k * (step * 2)) (combine (p (k * (step * 2))) (p (k * (step * 2) + step)))

      later : k ≤ m → k * (step * 2) ≤ m * (step * 2)
      later h = mul-le-mul_right (step * 2) h

      after : k < m → k * (step * 2) + step * 2 ≤ m * (step * 2)
      after h = omega (arith, mul-le-mul_right (step * 2) h)

      before : m < k → m * (step * 2) + step * 2 ≤ k * (step * 2)
      before h = omega (arith, mul-le-mul_right (step * 2) h)

      settled :
          k * (step * 2) + step < size
          → (if leb (suc k) m && ltb (m * (step * 2) + step) size
              then combine (p' (m * (step * 2))) (p' (m * (step * 2) + step))
              else p' (m * (step * 2)))
            ≡ (if leb k m && ltb (m * (step * 2) + step) size
                then combine (p (m * (step * 2))) (p (m * (step * 2) + step))
                else p (m * (step * 2)))
      settled h = elim (dec_lt m k) [
        | yes l ↦
            rw
              (
                lt→leb (suc k) m (omega arith),
                lt→leb k m l,
                ne→== (k * (step * 2)) (m * (step * 2)) (omega (arith, before l)),
              )
              refl
        | no l ↦ elim (dec_lt k m) [
          | yes g ↦
              rw
                (
                  le→leb (suc k) m g,
                  le→leb k m (omega arith),
                  ne→== (k * (step * 2)) (m * (step * 2)) (omega (arith, after g)),
                  ne→== (k * (step * 2)) (m * (step * 2) + step) (omega (arith, after g)),
                )
                refl
          | no g ↦
              let e : k ≡ m = omega arith in
              let row : k * (step * 2) ≡ m * (step * 2) = ap (λ k. k * (step * 2)) e in
              rw
                (
                  lt→leb (suc k) m (omega arith),
                  le→leb k m (omega arith),
                  lt→ltb (m * (step * 2) + step) size (omega (arith, row)),
                  eq→== (k * (step * 2)) (m * (step * 2)) row,
                )
                (ap (λ k. combine (p (k * (step * 2))) (p (k * (step * 2) + step))) e)
        ]
      ]

  -- Every `step`-th partial holds what the partials from it up to the next combine to.
  Covers : (size step : ℕ) → (f p : ℕ → A) → Type ℓ
  Covers size step f p =
      (k : ℕ) → k * step < size → p (k * step) ≡ span f (k * step) (min step (size - k * step) - 1)

  module _ (assoc : (a b c : A) → combine (combine a b) c ≡ combine a (combine b c)) where
    span-append :
        (f : ℕ → A) (lo a b : ℕ)
        → combine (span f lo a) (span f (lo + a + 1) b) ≡ span f lo (a + 1 + b)
    unfolding span
    span-append f lo zero b =
        ap (λ x. combine (f lo) (span f x b)) {x = lo + 0 + 1} {y = lo + 1} (omega arith)
        ∙ ap (span f lo) {x = suc b} {y = 0 + 1 + b} (omega arith)
    span-append f lo (suc a) b =
        assoc (f lo) (span f (lo + 1) a) (span f (lo + suc a + 1) b)
        ∙ ap (combine (f lo)) (
            ap (λ x. combine (span f (lo + 1) a) (span f x b)) {x = lo + suc a + 1}
              {y = lo + 1 + a + 1} (omega arith)
            ∙ span-append f (lo + 1) a b)
        ∙ ap (span f lo) {x = suc (a + 1 + b)} {y = suc a + 1 + b} (omega arith)

    span-join :
        (f : ℕ → A) (lo mid a b c : ℕ)
        → mid ≡ lo + a + 1
        → c ≡ a + 1 + b
        → combine (span f lo a) (span f mid b) ≡ span f lo c
    span-join f lo mid a b c e g =
        ap (λ m. combine (span f lo a) (span f m b)) e
        ∙ span-append f lo a b
        ∙ ap (span f lo) (sym g)

    pass-Covers :
        (size step : ℕ) (f p : ℕ → A)
        → 0 < step
        → Covers size step f p
        → Covers size (step * 2) f (combine_pass combine size size step 0 p)
    unfolding Covers
    pass-Covers size step f p pos covers m h =
        ap (λ i. combine_pass combine size size step i p (m * (step * 2))) {x = 0}
          {y = 0 * (step * 2)} (omega arith)
        ∙ pass_at size size step 0 m p pos (omega arith)
        ∙ both
      where
        even : 2 * m * step ≡ m * (step * 2)
        even = omega arith

        odd : (2 * m + 1) * step ≡ m * (step * 2) + step
        odd = omega arith

        left : p (m * (step * 2)) ≡ span f (m * (step * 2)) (min step (size - m * (step * 2)) - 1)
        left =
            subst (λ x. p x ≡ span f x (min step (size - x) - 1)) even
              (covers (2 * m) (omega (arith, even)))

        right :
            m * (step * 2) + step < size
            → p (m * (step * 2) + step)
              ≡ span f (m * (step * 2) + step) (min step (size - (m * (step * 2) + step)) - 1)
        right l =
            subst (λ x. p x ≡ span f x (min step (size - x) - 1)) odd
              (covers (2 * m + 1) (omega (arith, odd)))

        both :
            (if leb 0 m && ltb (m * (step * 2) + step) size
              then combine (p (m * (step * 2))) (p (m * (step * 2) + step))
              else p (m * (step * 2)))
            ≡ span f (m * (step * 2)) (min (step * 2) (size - m * (step * 2)) - 1)
        both = elim (dec_lt (m * (step * 2) + step) size) [
          | yes l ↦
              rw (le→leb 0 m (omega arith), lt→ltb (m * (step * 2) + step) size l)
                (ap₂ combine left (right l)
                  ∙ span-join f (m * (step * 2)) (m * (step * 2) + step) _ _ _ (omega arith)
                      (omega arith))
          | no l ↦
              rw (le→leb 0 m (omega arith), le→ltb (m * (step * 2) + step) size (omega arith))
                (left ∙ ap (span f (m * (step * 2))) (omega arith))
        ]

    first :
        (size step : ℕ) (f p : ℕ → A)
        → 0 < size
        → Covers size step f p
        → p 0 ≡ span f 0 (min step (size - 0) - 1)
    unfolding Covers
    first size step f p some covers =
        subst (λ x. p x ≡ span f x (min step (size - x) - 1)) {x = 0 * step} {y = 0} (omega arith)
          (covers 0 (omega arith))

    steps-span :
        (fuel size step : ℕ) (f p : ℕ → A)
        → 0 < step
        → 0 < size
        → size ≤ step + fuel
        → Covers size step f p
        → combine_steps combine fuel size step p 0 ≡ span f 0 (size - 1)
    unfolding combine_steps Covers
    steps-span zero size step f p pos some enough covers =
        first size step f p some covers ∙ ap (span f 0) (omega arith)
    steps-span (suc fuel) size step f p pos some enough covers = elim (dec_lt step size) [
      | yes h ↦ rw (lt→ltb step size h) (
          steps-span fuel size (step * 2) f (combine_pass combine size size step 0 p) (omega arith)
            some (omega arith) (pass-Covers size step f p pos covers))
      | no h ↦
          rw (le→ltb step size (omega arith))
            (first size step f p some covers ∙ ap (span f 0) (omega arith))
    ]

    -- For an associative combine, and any number of partials but none, the tree of pairs gives what
    -- combining the partials from the first to the last gives.
    pub tree_is_fold :
        (size : ℕ) (f : ℕ → A)
        → 0 < size
        → pairwise_tree_combine combine size f ≡ span f 0 (size - 1)
    unfolding pairwise_tree_combine Covers span
    tree_is_fold size f some = steps-span size size 1 f f (omega arith) some (omega arith) singles
      where
        singles : Covers size 1 f f
        singles k h = ap (span f (k * 1)) {x = 0} {y = min 1 (size - k * 1) - 1} (omega arith)
