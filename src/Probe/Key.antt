-- ===== src/Probe/Key.antt =====
-- `coherenceProbeCacheKey` of include/citor/detail/coherence_probe.h: std::sort, then std::unique.
use citor.Prelude.{
  ℕ, suc, ◌<◌, ◌≤◌, ◌≡◌, refl, sym, ap, ap₂, subst, ◌∙◌, arith, Bool, false, ◌||◌, List, [], ◌∷◌,
  leb, ◌==◌, if◌then◌else◌, Bool-cases, inl, inr,
}

unfoldable pub insert : ℕ → List ℕ → List ℕ
insert a [] = a ∷ []
insert a (x ∷ xs) = if leb a x then a ∷ x ∷ xs else x ∷ insert a xs

unfoldable pub sort : List ℕ → List ℕ
sort [] = []
sort (x ∷ xs) = insert x (sort xs)

-- One element of each run of equal ones.
unfoldable pub unique : List ℕ → List ℕ
unique [] = []
unique (x ∷ []) = x ∷ []
unique (x ∷ y ∷ ys) = let rest = unique (y ∷ ys) in if x == y then rest else x ∷ rest

unfoldable pub cache_key : List ℕ → List ℕ
cache_key cpus = unique (sort cpus)

unfoldable pub contains : ℕ → List ℕ → Bool
contains a [] = false
contains a (x ∷ xs) = a == x || contains a xs

-- The elements rise from `b` on; `Climbs` without repeats.
abbrev Rises : ℕ → List ℕ → Type 0
Rises b [] = Unit
Rises b (x ∷ xs) = (b ≤ x) × Rises x xs

abbrev Climbs : ℕ → List ℕ → Type 0
Climbs b [] = Unit
Climbs b (x ∷ xs) = (b ≤ x) × Climbs (suc x) xs

insert-Rises : (a b : ℕ) (xs : List ℕ) → b ≤ a → Rises b xs → Rises b (insert a xs)
unfolding insert
insert-Rises a b [] h r = (h, tt)
insert-Rises a b (x ∷ xs) h r = elim (Bool-cases (leb a x)) [
  | inl e ↦ rw e (h, (ground (arith, e), r.1))
  | inr e ↦ rw e (r.0, insert-Rises a x xs (ground (arith, e)) r.1)
]

sort-Rises : (xs : List ℕ) → Rises 0 (sort xs)
unfolding sort
sort-Rises [] = tt
sort-Rises (x ∷ xs) = insert-Rises x 0 (sort xs) (omega arith) (sort-Rises xs)

unique-Climbs : (b : ℕ) (xs : List ℕ) → Rises b xs → Climbs b (unique xs)
unfolding unique
unique-Climbs b [] r = tt
unique-Climbs b (x ∷ []) r = (r.0, tt)
unique-Climbs b (x ∷ y ∷ ys) r = elim (Bool-cases (x == y)) [
  | inl e ↦ rw e (unique-Climbs b (y ∷ ys) (omega arith, r.1.1))
  | inr e ↦ rw e (r.0, unique-Climbs (suc x) (y ∷ ys) (ground (arith, e), r.1.1))
]

contains-insert : (a z : ℕ) (xs : List ℕ) → contains z (insert a xs) ≡ (z == a || contains z xs)
unfolding insert contains
contains-insert a z [] = refl
contains-insert a z (x ∷ xs) = ground (arith, contains-insert a z xs)

contains-sort : (z : ℕ) (xs : List ℕ) → contains z (sort xs) ≡ contains z xs
unfolding sort contains
contains-sort z [] = refl
contains-sort z (x ∷ xs) =
    contains-insert x z (sort xs) ∙ ap (λ b. z == x || b) (contains-sort z xs)

contains-unique : (z : ℕ) (xs : List ℕ) → contains z (unique xs) ≡ contains z xs
unfolding unique contains
contains-unique z [] = refl
contains-unique z (x ∷ []) = refl
contains-unique z (x ∷ y ∷ ys) = ground (arith, contains-unique z (y ∷ ys))

below_all : (z b : ℕ) (xs : List ℕ) → z < b → Climbs b xs → contains z xs ≡ false
unfolding contains
below_all z b [] h c = refl
below_all z b (x ∷ xs) h c = ground (arith, below_all z (suc x) xs)

-- Two climbing lists of the same elements are equal.
climbing_eq :
    (b : ℕ) (xs ys : List ℕ)
    → Climbs b xs
    → Climbs b ys
    → ((z : ℕ) → contains z xs ≡ contains z ys)
    → xs ≡ ys
unfolding contains
climbing_eq b [] [] c d h = refl
climbing_eq b [] (y ∷ ys) c d h = ground (arith, h y)
climbing_eq b (x ∷ xs) [] c d h = ground (arith, h x)
climbing_eq b (x ∷ xs) (y ∷ ys) c d h =
    ap₂ (λ a l. a ∷ l) same
      (climbing_eq (suc x) xs ys c.1 (subst (λ k. Climbs (suc k) ys) (sym same) d.1)
        (λ z. ground (arith, h z, same, below_all z (suc x) xs, below_all z (suc y) ys)))
  where
    same : x ≡ y
    same = ground (arith, h x, h y, below_all x (suc y) ys, below_all y (suc x) xs)

-- Two lists of the same CPUs have the same key, in whatever order and however often each CPU stands
-- in them.
pub cache_key_same :
    (cpus others : List ℕ)
    → ((cpu : ℕ) → contains cpu cpus ≡ contains cpu others)
    → cache_key cpus ≡ cache_key others
unfolding cache_key
cache_key_same cpus others h =
    climbing_eq 0 (unique (sort cpus)) (unique (sort others))
      (unique-Climbs 0 (sort cpus) (sort-Rises cpus))
      (unique-Climbs 0 (sort others) (sort-Rises others))
      (λ z.
        contains-unique z (sort cpus)
        ∙ contains-sort z cpus
        ∙ h z
        ∙ sym (contains-sort z others)
        ∙ sym (contains-unique z (sort others)))
