-- ===== src/Placement/Counts.antt =====
-- No CPU is lost or doubled by the order of the pins.
use citor.Prelude.{
  ℕ, ◌≡◌, refl, sym, ◌∙◌, arith, Bool, true, false, not, ◌&&◌, ◌||◌, ◌==◌, ltb, if◌then◌else◌,
  Option, none, some, List, [], ◌∷◌, ◌++◌, length, Bool-cases, ==_ne, ne→==, inl, inr, Option-cases,
}
use citor.Placement.Defs.{
  get_elem?, no_cpu, Topology, has, keep, on_preferred, prefer_ccd, sibling, replace_first,
  sibling_second, pair_up, preferred_match, append_sibling, append_siblings, place_siblings,
  reserve_producer_cpu_first,
}
use citor.Placement.Extends.{
  Extends, count, count-append, count-keep, count-cons, count-pair, count-nil, count-replace_first,
  Extends-same, Extends-new, Extends-equal,
}

prefer_ccd-count :
    (topo : Topology) (pins : List ℕ) (x : ℕ) → count x (prefer_ccd topo pins) ≡ count x pins
unfolding prefer_ccd
prefer_ccd-count topo pins x = elim (Bool-cases (ltb topo.preferred_ccd (length topo.ccd_groups))) [
  | inl e ↦ elim (Bool-cases (length parts == length pins)) [
    | inl f ↦ rw e (rw f both)
    | inr f ↦ rw e (rw f refl)
  ]
  | inr e ↦ rw e refl
]
  where
    parts : List ℕ
    parts = keep (on_preferred topo) pins ++ keep (λ cpu. not (on_preferred topo cpu)) pins

    both : count x parts ≡ count x pins
    both =
        count-append x (keep (on_preferred topo) pins)
          (keep (λ cpu. not (on_preferred topo cpu)) pins)
        ∙ count-keep x (on_preferred topo) pins

has_later : (y a : ℕ) (l : List ℕ) → (y == a) ≡ false → has (y ∷ l) a ≡ true → has l a ≡ true
unfolding has
has_later y a l e h = rw e at h

sibling_second-Extends :
    (p : ℕ) (rest : List ℕ) (sib : ℕ)
    → (p == sib) ≡ false
    → Extends (p ∷ rest) (sibling_second (p ∷ rest) sib)
unfolding sibling_second
sibling_second-Extends p [] sib e = elim (Bool-cases (has (p ∷ []) sib)) [
  | inl h ↦ rw h (Extends-equal (p ∷ []) (p ∷ []) (λ x. refl))
  | inr h ↦ rw h (
      Extends-new (p ∷ []) (p ∷ []) (p ∷ sib ∷ []) sib (Extends-equal (p ∷ []) (p ∷ []) (λ x. refl))
        h
        (λ x.
          let now = count-pair x p sib [] in
          let old = count-cons x p [] in omega (arith, now, old)))
]
sibling_second-Extends p (q ∷ rest) sib e = elim (Bool-cases (has (p ∷ q ∷ rest) sib)) [
  | inl h ↦ elim (Bool-cases (q == sib)) [
    | inl f ↦ rw h (rw f (Extends-equal (p ∷ q ∷ rest) (p ∷ q ∷ rest) (λ x. refl)))
    | inr f ↦ rw h (
        rw f (
          Extends-equal (p ∷ q ∷ rest) (p ∷ sib ∷ replace_first sib q rest) (λ x.
            let now = count-cons x p (sib ∷ replace_first sib q rest) in
            let old = count-cons x p (q ∷ rest) in
            let swap =
              count-replace_first x sib q rest
                (has_later q sib rest f (has_later p sib (q ∷ rest) e h)) in
            omega (arith, now, old, swap))))
  ]
  | inr h ↦ rw h (
      Extends-new (p ∷ q ∷ rest) (p ∷ q ∷ rest) (p ∷ sib ∷ q ∷ rest) sib
        (Extends-equal (p ∷ q ∷ rest) (p ∷ q ∷ rest) (λ x. refl)) h
        (λ x.
          let now = count-pair x p sib (q ∷ rest) in
          let old = count-cons x p (q ∷ rest) in omega (arith, now, old)))
]

other_cpu :
    (b c : Bool) (sib x : ℕ)
    → (if b || c then none else some x) ≡ some sib
    → (c ≡ false) × (x ≡ sib)
other_cpu true c sib x h = absurd (cc h)
other_cpu false true sib x h = absurd (cc h)
other_cpu false false sib x h = (refl, cc h)

sibling_ne : (topo : Topology) (cpu sib : ℕ) → sibling topo cpu ≡ some sib → (cpu == sib) ≡ false
unfolding sibling
sibling_ne topo cpu sib h = elim (Option-cases (get_elem? topo.smt_sibling_of_cpu cpu)) [
  | inl e ↦ absurd (cc (rw (sibling, e) at h))
  | inr (x, e) ↦
      let (other, same) = other_cpu (x == no_cpu) (x == cpu) sib x (rw (sibling, e) at h) in
      ne→== cpu sib (λ z. ==_ne x cpu other (same ∙ sym z))
]

pair_up-Extends : (topo : Topology) (pins : List ℕ) → Extends pins (pair_up topo pins)
unfolding pair_up
pair_up-Extends topo [] = Extends-equal [] [] (λ x. refl)
pair_up-Extends topo (p ∷ rest) = elim (Option-cases (sibling topo p)) [
  | inl e ↦ rw (pair_up, e) (Extends-equal (p ∷ rest) (p ∷ rest) (λ x. refl))
  | inr (sib, e) ↦ rw (pair_up, e) (sibling_second-Extends p rest sib (sibling_ne topo p sib e))
]

append_sibling-Extends :
    (topo : Topology) (first_pass : Bool) (l pins : List ℕ) (o : Option ℕ)
    → Extends l pins
    → Extends l (append_sibling topo first_pass pins o)
unfolding append_sibling
append_sibling-Extends topo first_pass l pins none h = h
append_sibling-Extends topo first_pass l pins (some sib) h =
    elim (Bool-cases
      (if first_pass then preferred_match topo sib else not (preferred_match topo sib))) [
        | inl e ↦ elim (Bool-cases (has pins sib)) [
          | inl f ↦ rw e (rw f h)
          | inr f ↦ rw e (
              rw f (
                Extends-new l pins (pins ++ (sib ∷ [])) sib h f (λ x.
                  let now = count-append x pins (sib ∷ []) in
                  let one = count-cons x sib [] in
                  let nil = count-nil x in omega (arith, now, one, nil))))
        ]
        | inr e ↦ rw e h
      ]

append_siblings-Extends :
    (topo : Topology) (first_pass : Bool) (l base pins : List ℕ)
    → Extends l pins
    → Extends l (append_siblings topo first_pass base pins)
unfolding append_siblings
append_siblings-Extends topo first_pass l [] pins h = h
append_siblings-Extends topo first_pass l (cpu ∷ base) pins h =
    append_siblings-Extends topo first_pass l base _
      (append_sibling-Extends topo first_pass l pins (sibling topo cpu) h)

place_siblings-Extends :
    (topo : Topology) (participants : ℕ) (pins : List ℕ)
    → Extends pins (place_siblings topo participants pins)
unfolding place_siblings
place_siblings-Extends topo participants pins =
    elim (Bool-cases ((participants == 2) && ltb 0 (length topo.smt_sibling_of_cpu))) [
      | inl e ↦ rw e (pair_up-Extends topo pins)
      | inr e ↦
          elim (Bool-cases
            (ltb (length pins) participants && ltb 0 (length topo.smt_sibling_of_cpu))) [
              | inl f ↦ rw e (
                  rw f (
                    append_siblings-Extends topo false pins pins _
                      (append_siblings-Extends topo true pins pins pins (λ x. inl refl))))
              | inr f ↦ rw e (rw f (λ x. inl refl))
            ]
    ]

-- The pins that reserveProducerCpuFirst gives, for any topology, have every given CPU as often as it
-- was given, and any other CPU at most once: no CPU is dropped, and none is pinned twice that was not
-- given twice.
pub reserve_producer_cpu_first-Extends :
    (pins : List ℕ) (participants : ℕ) (standalone : Bool) (topo : Topology)
    → Extends pins (reserve_producer_cpu_first pins participants standalone topo)
unfolding reserve_producer_cpu_first
reserve_producer_cpu_first-Extends pins participants standalone topo =
    elim (Bool-cases (ltb 1 (length pins))) [
      | inl e ↦ elim (Bool-cases standalone) [
        | inl f ↦ rw e (
            rw f (
              Extends-same pins (prefer_ccd topo pins) _ (prefer_ccd-count topo pins)
                (place_siblings-Extends topo participants (prefer_ccd topo pins))))
        | inr f ↦ rw e (rw f (place_siblings-Extends topo participants pins))
      ]
      | inr e ↦ rw e (λ x. inl refl)
    ]
