-- ===== src/Deque/Window.antt =====
-- The run of elements that an array holds from one logical index on, and what the array's
-- operations do to it.
use citor.Prelude.{
  ℕ, zero, suc, ◌+◌, ◌-◌, ◌^◌, ◌≤◌, ◌<◌, ◌≡◌, refl, sym, ap, ap₂, ◌∙◌, List, [], ◌∷◌, ◌++◌, arith,
  dec_lt, length,
}
use citor.Prelude.Int.{pos}
use citor.Deque.Array.{
  Array, IsArray, allocate_array, allocate_array-IsArray, store, load, copy_range, mod-ne,
  load-store_self, load-store_ne, store-IsArray,
}

module _ {ℓ} {A : Type ℓ} (empty : A) where
  -- The `k` elements from logical index `t` on.
  abbrev pub window : Array A → ℕ → ℕ → List A
  window a t zero = []
  window a t (suc k) = load empty a (pos t) ∷ window a (t + 1) k

  pub length-window : (a : Array A) (t k : ℕ) → length (window a t k) ≡ k
  length-window a t zero = refl
  length-window a t (suc k) = ap suc (length-window a (t + 1) k)

  -- Windows over arrays that agree on the indices in question are equal.
  pub window_ext :
      (a b : Array A) (t k : ℕ)
      → ((i : ℕ) → t ≤ i → i < t + k → load empty a (pos i) ≡ load empty b (pos i))
      → window a t k ≡ window b t k
  window_ext a b t zero h = refl
  window_ext a b t (suc k) h =
      ap₂ ◌∷◌ (h t (omega arith) (omega arith))
        (window_ext a b (t + 1) k (λ i lo hi. h i (omega arith) (omega arith)))

  pub window-snoc :
      (a : Array A) (t k : ℕ)
      → window a t (suc k) ≡ window a t k ++ (load empty a (pos (t + k)) ∷ [])
  window-snoc a t zero = ap (λ i. load empty a (pos i) ∷ []) (omega arith)
  window-snoc a t (suc k) =
      ap (λ w. load empty a (pos t) ∷ w)
        (window-snoc a (t + 1) k
          ∙ ap (λ i. window a (t + 1) k ++ (load empty a (pos i) ∷ [])) (omega arith))

  pub copy_range-IsArray :
      (n t : ℕ) (old : Array A) {new : Array A}
      → IsArray new
      → IsArray (copy_range empty n t old new)
  unfolding copy_range
  copy_range-IsArray zero t old v = v
  copy_range-IsArray (suc n) t old v =
      copy_range-IsArray n (t + 1) old (store-IsArray v (pos t) (load empty old (pos t)))

  pub capacity-copy_range :
      (n t : ℕ) (old new : Array A) → (copy_range empty n t old new).capacity ≡ new.capacity
  unfolding copy_range store
  capacity-copy_range zero t old new = refl
  capacity-copy_range (suc n) t old new = capacity-copy_range n (t + 1) old _

  pub capacity-store : (a : Array A) (i : ℕ) (x : A) → (store a (pos i) x).capacity ≡ a.capacity
  unfolding store
  capacity-store a i x = refl

  -- Indices below the copied range, less than a capacity away, are left alone.
  load-copy_range_below :
      (n t i : ℕ) (old : Array A) {new : Array A}
      → IsArray new
      → i < t
      → t + n ≤ i + new.capacity
      → load empty (copy_range empty n t old new) (pos i) ≡ load empty new (pos i)
  unfolding copy_range
  load-copy_range_below zero t i old v lt fit = refl
  load-copy_range_below (suc n) t i old {new} v lt fit =
      load-copy_range_below n (t + 1) i old (store-IsArray v (pos t) x) (omega arith) fit'
      ∙ load-store_ne v empty x t i (λ e. mod-ne i t new.capacity lt (omega arith) (sym e))
    where
      x : A
      x = load empty old (pos t)

      fit' : t + 1 + n ≤ i + (store new (pos t) x).capacity
      fit' = omega (arith, capacity-store new t x)

  -- `grow` keeps every live element.
  pub load-copy_range :
      (n t i : ℕ) (old : Array A) {new : Array A}
      → IsArray new
      → n ≤ new.capacity
      → t ≤ i
      → i < t + n
      → load empty (copy_range empty n t old new) (pos i) ≡ load empty old (pos i)
  unfolding copy_range
  load-copy_range zero t i old v fit lo hi = absurd (omega arith)
  load-copy_range (suc n) t i old {new} v fit lo hi = elim (dec_lt t i) [
    | yes p ↦
        load-copy_range n (t + 1) i old (store-IsArray v (pos t) x)
          (omega (arith, capacity-store new t x)) (omega arith) (omega arith)
    | no p ↦
        let e : i ≡ t = omega arith in
        rw e (
          load-copy_range_below n (t + 1) t old (store-IsArray v (pos t) x) (omega arith)
            (omega (arith, capacity-store new t x))
          ∙ load-store_self v empty x t)
  ]
    where
      x : A
      x = load empty old (pos t)

  -- The new array of `grow` and `reserveOwner`: 2 ^ m slots, the `k` elements from `t` on kept.
  abbrev pub grown : ℕ → ℕ → ℕ → Array A → Array A
  grown m k t old = copy_range empty k t old (allocate_array empty (2 ^ m))

  pub grown-IsArray : (m k t : ℕ) (old : Array A) → IsArray (grown m k t old)
  grown-IsArray m k t old = copy_range-IsArray k t old (allocate_array-IsArray empty m)

  pub capacity-grown : (m k t : ℕ) (old : Array A) → (grown m k t old).capacity ≡ 2 ^ m
  unfolding allocate_array
  capacity-grown m k t old = capacity-copy_range k t old _

  pub load-grown :
      (m k t i : ℕ) (old : Array A)
      → k ≤ 2 ^ m
      → t ≤ i
      → i < t + k
      → load empty (grown m k t old) (pos i) ≡ load empty old (pos i)
  unfolding allocate_array
  load-grown m k t i old fit lo hi =
      load-copy_range k t i old (allocate_array-IsArray empty m) fit lo hi

  pub window-grown :
      (m k t : ℕ) (old : Array A) → k ≤ 2 ^ m → window (grown m k t old) t k ≡ window old t k
  window-grown m k t old fit = window_ext _ old t k (λ i lo hi. load-grown m k t i old fit lo hi)

  -- The elements at the logical indices t, …, n - 1.
  abbrev pub span : Array A → ℕ → ℕ → List A
  span a t n = window a t (n - t)

  pub span-empty : (a : Array A) (t n : ℕ) → n ≤ t → span a t n ≡ []
  span-empty a t n h = ap (window a t) {y = 0} (omega arith)

  pub span-cons :
      (a : Array A) (t n : ℕ) → t < n → span a t n ≡ load empty a (pos t) ∷ span a (t + 1) n
  span-cons a t n h = ap (window a t) {y = suc (n - (t + 1))} (omega arith)

  pub span-snoc :
      (a : Array A) (t n : ℕ) → t ≤ n → span a t (suc n) ≡ span a t n ++ (load empty a (pos n) ∷ [])
  span-snoc a t n h =
      ap (window a t) {y = suc (n - t)} (omega arith)
      ∙ window-snoc a t (n - t)
      ∙ ap (λ i. span a t n ++ (load empty a (pos i) ∷ [])) (omega arith)

  -- A write past the span, less than a capacity away, leaves it alone.
  pub span-store_ne :
      {a : Array A} (v : IsArray a) (x : A) (t n : ℕ)
      → n < t + a.capacity
      → span (store a (pos n) x) t n ≡ span a t n
  span-store_ne {a} v x t n fit = window_ext _ a t (n - t) λ i lo hi.
      load-store_ne v empty x n i (λ e. mod-ne i n a.capacity (omega arith) (omega arith) (sym e))

  pub span-store :
      {a : Array A} (v : IsArray a) (x : A) (t n : ℕ)
      → t ≤ n
      → n < t + a.capacity
      → span (store a (pos n) x) t (suc n) ≡ span a t n ++ (x ∷ [])
  span-store {a} v x t n h fit =
      span-snoc (store a (pos n) x) t n h
      ∙ ap₂ (λ w y. w ++ (y ∷ [])) (span-store_ne v x t n fit) (load-store_self v empty x n)

  -- `grow` copies from an index that thieves may have passed.
  pub span-grown_from :
      (m k u t n : ℕ) (old : Array A)
      → u ≤ t
      → n ≤ u + k
      → k ≤ 2 ^ m
      → span (grown m k u old) t n ≡ span old t n
  span-grown_from m k u t n old h fit small =
      window_ext _ old t (n - t) λ i lo hi. load-grown m k u i old small (omega arith) (omega arith)

  pub span-grown :
      (m k t n : ℕ) (old : Array A)
      → k ≡ n - t
      → k ≤ 2 ^ m
      → span (grown m k t old) t n ≡ span old t n
  span-grown m k t n old e fit =
      ap (window (grown m k t old) t) (sym e) ∙ window-grown m k t old fit ∙ ap (window old t) e
