-- ===== src/Placement/Preferred.antt =====
-- The preferred core complex has the largest L3 cache, of all or of those off the complex of CPU 0.
use citor.Prelude.{
  ℕ, suc, ◌+◌, ◌*◌, ◌%◌, ◌^◌, ◌<◌, ◌≤◌, ◌≡◌, ◌≢◌, refl, sym, ap, subst, ◌∙◌, arith, Bool, true,
  false, ◌&&◌, ◌||◌, ◌==◌, ltb, ltb→lt, ltb→le, List, [], ◌∷◌, length, get_or, Bool-cases, ==_iff,
  ==_ne, inl, inr, ◌⊎◌,
}
use citor.Prelude.Sums.{up_to}
use citor.Placement.Defs.{no_cpu, largest_l3, best_other, bsp_ccd, preferred_ccd_of}

-- The list is `f` from `n` on.
abbrev Agrees : (ℕ → ℕ) → ℕ → List ℕ → Type 0
Agrees f n [] = Unit
Agrees f n (k ∷ ks) = (f n ≡ k) × Agrees f (suc n) ks

get_or-Agrees :
    (f : ℕ → ℕ) (n : ℕ) (ks : List ℕ) → ((j : ℕ) → f (n + j) ≡ get_or ks j 0) → Agrees f n ks
get_or-Agrees f n [] h = tt
get_or-Agrees f n (k ∷ ks) h =
    (ap f (omega arith) ∙ h 0, get_or-Agrees f (suc n) ks (λ j. ap f (omega arith) ∙ h (suc j)))

-- The largest of the first `n`, and where it stands.
abbrev Best : (ℕ → ℕ) → ℕ → (largest idx : ℕ) → Type 0
Best f n largest idx =
    ((k : ℕ) → k < n → f k ≤ largest)
    × (((largest ≡ 0) × (idx ≡ 0)) ⊎ ((largest ≡ f idx) × (idx < n)))

larger-Best :
    (f : ℕ → ℕ) (n largest idx : ℕ) → largest < f n → Best f n largest idx → Best f (suc n) (f n) n
larger-Best f n largest idx up (all, place) = (
  up_to (λ k. f k ≤ f n) n (λ k l. let h = all k l in omega (arith, h, up)) (omega arith),
  inr (refl, omega arith),
)

kept-Best :
    (f : ℕ → ℕ) (n largest idx : ℕ)
    → f n ≤ largest
    → Best f n largest idx
    → Best f (suc n) largest idx
kept-Best f n largest idx low (all, place) = (
  up_to (λ k. f k ≤ largest) n all low,
  elim place [ inl h ↦ inl h | inr (e, l) ↦ inr (e, omega (arith, l)) ],
)

largest_l3-Best :
    (f : ℕ → ℕ) (n : ℕ) (ks : List ℕ) (m largest second idx : ℕ)
    → n + length ks ≡ m
    → Agrees f n ks
    → Best f n largest idx
    → Best f m (largest_l3 n ks largest second idx).0 (largest_l3 n ks largest second idx).2
unfolding largest_l3
largest_l3-Best f n [] m largest second idx size a b =
    subst (λ m. Best f m largest idx) (omega (arith, size)) b
largest_l3-Best f n (k ∷ ks) m largest second idx size (at, a) b =
    elim (Bool-cases (ltb largest k)) [
      | inl e ↦ rw e (
          largest_l3-Best f (suc n) ks m k largest n (omega (arith, size)) a (
            subst (λ v. Best f (suc n) v n) at
              (larger-Best f n largest idx (let h = ltb→lt largest k e in omega (arith, h, at)) b)))
      | inr e ↦
          let kept =
            kept-Best f n largest idx (let h = ltb→le largest k e in omega (arith, h, at)) b in
          elim (Bool-cases (ltb second k)) [
            | inl g ↦
                rw e
                  (rw g (largest_l3-Best f (suc n) ks m largest k idx (omega (arith, size)) a kept))
            | inr g ↦ rw e (
                rw g
                  (largest_l3-Best f (suc n) ks m largest second idx (omega (arith, size)) a kept))
          ]
    ]

-- The same among those off the complex `bsp`, with no index while there are none.
abbrev Other : (ℕ → ℕ) → (bsp n best idx : ℕ) → Type 0
Other f bsp n best idx =
    ((best ≡ 0) × (idx ≡ no_cpu) × ((k : ℕ) → k < n → k ≡ bsp))
    ⊎ ((best ≡ f idx) × (idx < n) × (idx ≢ bsp) × ((k : ℕ) → k < n → k ≢ bsp → f k ≤ best))

skip_bsp :
    (f : ℕ → ℕ) (bsp n best idx : ℕ)
    → n ≡ bsp
    → Other f bsp n best idx
    → Other f bsp (suc n) best idx
skip_bsp f bsp n best idx same (inl (z, e, all)) = inl (z, e, up_to (λ k. k ≡ bsp) n all same)
skip_bsp f bsp n best idx same (inr (e, l, d, all)) =
    inr (
      e,
      omega (arith, l),
      d,
      up_to (λ k. k ≢ bsp → f k ≤ best) n all (λ other. absurd (other same)),
    )

take-Other :
    (f : ℕ → ℕ) (bsp n best idx : ℕ)
    → n ≢ bsp
    → best ≤ f n
    → Other f bsp n best idx
    → Other f bsp (suc n) (f n) n
take-Other f bsp n best idx other up o = inr (
  refl,
  omega arith,
  other,
  up_to (λ k. k ≢ bsp → f k ≤ f n) n (λ k l d. below o k l d) (λ d. omega arith),
)
  where
    below : Other f bsp n best idx → (k : ℕ) → k < n → k ≢ bsp → f k ≤ f n
    below (inl (z, e, all)) k l d = absurd (d (all k l))
    below (inr (e, l', d', all)) k l d = let h = all k l d in omega (arith, h, up)

skip-Other :
    (f : ℕ → ℕ) (bsp n best idx : ℕ)
    → f n ≤ best
    → ((f n == best) && (idx == no_cpu)) ≡ false
    → Other f bsp n best idx
    → Other f bsp (suc n) best idx
skip-Other f bsp n best idx low fresh (inl (z, e, all)) = absurd (
    both (f n == best) (idx == no_cpu) ((==_iff (f n) best).1 (omega (arith, z, low)))
      ((==_iff idx no_cpu).1 e) fresh)
  where
    both : (a b : Bool) → a ≡ true → b ≡ true → (a && b) ≢ false
    both a b h k neither = cc (h, k, neither)
skip-Other f bsp n best idx low fresh (inr (e, l, d, all)) =
    inr (e, omega (arith, l), d, up_to (λ k. k ≢ bsp → f k ≤ best) n all (λ _. low))

taken_above : (best k : ℕ) (c : Bool) → (ltb best k || ((k == best) && c)) ≡ true → best ≤ k
taken_above best k c h = elim (Bool-cases (ltb best k)) [
  | inl e ↦ let l = ltb→lt best k e in omega (arith, l)
  | inr e ↦ elim (Bool-cases (k == best)) [
    | inl g ↦ let same = (==_iff k best).0 g in omega (arith, same)
    | inr g ↦ absurd (cc (rw g at (rw e at h)))
  ]
]

not_taken : (a b : Bool) → (a || b) ≡ false → (a ≡ false) × (b ≡ false)
not_taken true b h = absurd (cc h)
not_taken false b h = (refl, h)

best_other-Other :
    (f : ℕ → ℕ) (bsp n : ℕ) (ks : List ℕ) (m best idx : ℕ)
    → n + length ks ≡ m
    → Agrees f n ks
    → Other f bsp n best idx
    → (b : ℕ) × Other f bsp m b (best_other bsp n ks best idx)
unfolding best_other
best_other-Other f bsp n [] m best idx size a o =
    (best, subst (λ m. Other f bsp m best idx) (omega (arith, size)) o)
best_other-Other f bsp n (k ∷ ks) m best idx size (at, a) o = elim (Bool-cases (n == bsp)) [
  | inl e ↦ rw e (
      best_other-Other f bsp (suc n) ks m best idx (omega (arith, size)) a
        (skip_bsp f bsp n best idx ((==_iff n bsp).0 e) o))
  | inr e ↦ elim (Bool-cases (ltb best k || ((k == best) && (idx == no_cpu)))) [
    | inl g ↦
        let up = taken_above best k (idx == no_cpu) g in
        rw e (
          rw g (
            best_other-Other f bsp (suc n) ks m k n (omega (arith, size)) a (
              subst (λ v. Other f bsp (suc n) v n) at
                (take-Other f bsp n best idx (==_ne n bsp e) (omega (arith, up, at)) o))))
    | inr g ↦
        let (low, fresh) = not_taken (ltb best k) ((k == best) && (idx == no_cpu)) g in
        let below = ltb→le best k low in
        rw e (
          rw g (
            best_other-Other f bsp (suc n) ks m best idx (omega (arith, size)) a (
              skip-Other f bsp n best idx (omega (arith, below, at))
                (subst (λ v. ((v == best) && (idx == no_cpu)) ≡ false) (sym at) fresh) o)))
  ]
]

abbrev pub l3 : List ℕ → ℕ → ℕ
l3 sizes ccd = get_or sizes ccd 0

-- What the choice promises of a complex.
abbrev pub IsPreferred : (sizes ccd_of_cpu : List ℕ) → ℕ → Type 0
IsPreferred sizes ccd_of_cpu ccd =
    (ccd < length sizes)
    × (((k : ℕ) → k < length sizes → l3 sizes k ≤ l3 sizes ccd)
        ⊎ ((ccd ≢ bsp_ccd ccd_of_cpu)
            × ((k : ℕ) → k < length sizes → k ≢ bsp_ccd ccd_of_cpu → l3 sizes k ≤ l3 sizes ccd)))

-- On a machine with a core complex, and with fewer than 2 ^ 32 - 1, the preferred complex exists, and
-- its L3 cache is the largest of all, or it is not the complex of CPU 0 and its cache is the
-- largest of those off that complex.
pub preferred_ccd_of-IsPreferred :
    (sizes ccd_of_cpu : List ℕ)
    → 0 < length sizes
    → length sizes < no_cpu
    → IsPreferred sizes ccd_of_cpu (preferred_ccd_of sizes ccd_of_cpu)
unfolding preferred_ccd_of
preferred_ccd_of-IsPreferred sizes ccd_of_cpu some_ccd few =
    elim (Bool-cases ((scan.1 == 0) || ltb (scan.1 * 3 % 2 ^ 64) (scan.0 * 2 % 2 ^ 64))) [
      | inl e ↦ rw e largest
      | inr e ↦ elim (Bool-cases (other == no_cpu)) [
        | inl g ↦ rw e (rw g largest)
        | inr g ↦ rw e (rw g (elsewhere (==_ne other no_cpu g) found.1))
      ]
    ]
  where
    agree : Agrees (l3 sizes) 0 sizes
    agree = get_or-Agrees (l3 sizes) 0 sizes (λ j. ap (l3 sizes) (omega arith))

    scan : ℕ × ℕ × ℕ
    scan = largest_l3 0 sizes 0 0 0

    other : ℕ
    other = best_other (bsp_ccd ccd_of_cpu) 0 sizes 0 no_cpu

    best : Best (l3 sizes) (length sizes) scan.0 scan.2
    best =
        largest_l3-Best (l3 sizes) 0 sizes (length sizes) 0 0 0 (omega arith) agree
          (λ k l. absurd (omega (arith, l)), inl (refl, refl))

    largest : IsPreferred sizes ccd_of_cpu scan.2
    largest = elim best.1 [
      | inl (z, i) ↦
          (omega (arith, i, some_ccd), inl (λ k l. let h = best.0 k l in omega (arith, h, z)))
      | inr (e, l) ↦ (l, inl (λ k m. let h = best.0 k m in omega (arith, h, e)))
    ]

    found : (b : ℕ) × Other (l3 sizes) (bsp_ccd ccd_of_cpu) (length sizes) b other
    found =
        best_other-Other (l3 sizes) (bsp_ccd ccd_of_cpu) 0 sizes (length sizes) 0 no_cpu
          (omega arith) agree (inl (refl, refl, λ k l. absurd (omega (arith, l))))

    elsewhere :
        other ≢ no_cpu
        → Other (l3 sizes) (bsp_ccd ccd_of_cpu) (length sizes) found.0 other
        → IsPreferred sizes ccd_of_cpu other
    elsewhere some_other (inl (z, e, all)) = absurd (some_other e)
    elsewhere some_other (inr (e, l, d, all)) =
        (l, inr (d, λ k m n. let h = all k m n in omega (arith, h, e)))
