-- ===== src/Placement/Extends.antt =====
-- Lists that keep what another has, and gain new CPUs only once.
use citor.Prelude.{
  ℕ, suc, ◌+◌, ◌≡◌, refl, sym, ap, subst, ◌∙◌, arith, Bool, true, false, not, ◌==◌, if◌then◌else◌,
  List, [], ◌∷◌, ◌++◌, Bool-cases, ==_iff, inl, inr, ◌⊎◌,
}
use citor.Placement.Defs.{has, keep, replace_first}

-- How often a CPU stands in a list.
unfoldable pub count : ℕ → List ℕ → ℕ
count x [] = 0
count x (y ∷ ys) = if y == x then suc (count x ys) else count x ys

pub count-append : (x : ℕ) (l m : List ℕ) → count x (l ++ m) ≡ count x l + count x m
unfolding count
count-append x [] m = omega arith
count-append x (y ∷ l) m = elim (Bool-cases (y == x)) [
  | inl e ↦ rw e (let h = count-append x l m in omega (arith, h))
  | inr e ↦ rw e (count-append x l m)
]

pub count-keep :
    (x : ℕ) (p : ℕ → Bool) (l : List ℕ)
    → count x (keep p l) + count x (keep (λ y. not (p y)) l) ≡ count x l
unfolding count keep
count-keep x p [] = omega arith
count-keep x p (y ∷ l) =
    let h = count-keep x p l in
    elim (Bool-cases (p y)) [
      | inl e ↦ elim (Bool-cases (y == x)) [
        | inl f ↦ rw e (rw f (omega (arith, h)))
        | inr f ↦ rw e (rw f h)
      ]
      | inr e ↦ elim (Bool-cases (y == x)) [
        | inl f ↦ rw e (rw f (omega (arith, h)))
        | inr f ↦ rw e (rw f h)
      ]
    ]

has-count : (x : ℕ) (l : List ℕ) → has l x ≡ false → count x l ≡ 0
unfolding count has
has-count x [] h = refl
has-count x (y ∷ l) h = elim (Bool-cases (y == x)) [
  | inl e ↦ cc (rw e at h)
  | inr e ↦ rw e (has-count x l (rw e at h))
]

unfoldable pub once : ℕ → ℕ → ℕ
once x y = if y == x then 1 else 0

pub count-cons : (x y : ℕ) (l : List ℕ) → count x (y ∷ l) ≡ once x y + count x l
unfolding count once
count-cons x y l = elim (Bool-cases (y == x)) [
  | inl e ↦ rw e (omega arith)
  | inr e ↦ rw e (omega arith)
]

pub count-pair : (x y z : ℕ) (l : List ℕ) → count x (y ∷ z ∷ l) ≡ once x y + (once x z + count x l)
count-pair x y z l =
    let h = count-cons x y (z ∷ l) in let k = count-cons x z l in omega (arith, h, k)

pub count-nil : (x : ℕ) → count x [] ≡ 0
unfolding count
count-nil x = refl

-- The exchange of `b`, before the list, with the first `a` in it.
pub count-replace_first :
    (x a b : ℕ) (l : List ℕ) → has l a ≡ true → count x (a ∷ replace_first a b l) ≡ count x (b ∷ l)
unfolding has replace_first
count-replace_first x a b [] h = absurd (cc h)
count-replace_first x a b (y ∷ l) h = elim (Bool-cases (y == a)) [
  | inl e ↦
      let now = count-pair x a b l in
      let old = count-pair x b y l in
      let same = ap (once x) ((==_iff y a).0 e) in rw e (omega (arith, now, old, same))
  | inr e ↦
      let now = count-pair x a y (replace_first a b l) in
      let old = count-pair x b y l in
      let rest = count-replace_first x a b l (rw e at h) in
      let this = count-cons x a (replace_first a b l) in
      let that = count-cons x b l in rw e (omega (arith, now, old, rest, this, that))
]

-- `m` has what `l` has, as often, and what is new in it only once.
abbrev pub Extends : List ℕ → List ℕ → Type 0
Extends l m = (x : ℕ) → (count x m ≡ count x l) ⊎ ((count x l ≡ 0) × (count x m ≡ 1))

pub Extends-same : (l m n : List ℕ) → ((x : ℕ) → count x m ≡ count x l) → Extends m n → Extends l n
Extends-same l m n h k x = elim (k x) [
  | inl e ↦ inl (e ∙ h x)
  | inr (z, o) ↦ inr (sym (h x) ∙ z, o)
]

once_same : (x a : ℕ) → (a == x) ≡ true → once x a ≡ 1
unfolding once
once_same x a e = rw e refl

once_other : (x a : ℕ) → (a == x) ≡ false → once x a ≡ 0
unfolding once
once_other x a e = rw e refl

-- A new CPU in the list, wherever it is put.
pub Extends-new :
    (l m n : List ℕ) (a : ℕ)
    → Extends l m
    → has m a ≡ false
    → ((x : ℕ) → count x n ≡ once x a + count x m)
    → Extends l n
Extends-new l m n a h new put x = elim (Bool-cases (a == x)) [
  | inl e ↦
      let more = put x in
      let one = once_same x a e in
      let unseen = subst (λ y. count y m ≡ 0) ((==_iff a x).0 e) (has-count a m new) in
      elim (h x) [
        | inl same ↦ inr (omega (arith, same, unseen), omega (arith, more, one, unseen))
        | inr (z, o) ↦ absurd (omega (arith, o, unseen))
      ]
  | inr e ↦
      let more = put x in
      let no = once_other x a e in
      elim (h x) [
        | inl same ↦ inl (omega (arith, more, no, same))
        | inr (z, o) ↦ inr (z, omega (arith, more, no, o))
      ]
]

pub Extends-equal : (l m : List ℕ) → ((x : ℕ) → count x m ≡ count x l) → Extends l m
Extends-equal l m h x = inl (h x)
