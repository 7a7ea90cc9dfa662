-- ===== src/Placement/Order.antt =====
-- Which CPU comes first.
use citor.Prelude.{
  ℕ, ◌+◌, ◌≡◌, refl, sym, ap, subst, ◌∙◌, arith, Bool, true, false, not, ◌&&◌, ◌==◌, ltb, lt→ltb,
  ◌<◌, if◌then◌else◌, Option, none, some, List, [], ◌∷◌, ◌++◌, length, length-append, Bool-cases,
  ==_iff, inl, inr, Option-cases,
}
use citor.Placement.Defs.{
  Topology, has, keep, on_preferred, prefer_ccd, sibling, replace_first, sibling_second, pair_up,
  preferred_match, append_sibling, append_siblings, place_siblings, reserve_producer_cpu_first,
}

-- The list begins with `p`.
abbrev pub StartsWith : ℕ → List ℕ → Type 0
StartsWith p l = (rest : List ℕ) × (l ≡ p ∷ rest)

sibling_second-StartsWith :
    (p : ℕ) (rest : List ℕ) (sib : ℕ) → StartsWith p (sibling_second (p ∷ rest) sib)
unfolding sibling_second
sibling_second-StartsWith p [] sib = elim (Bool-cases (has (p ∷ []) sib)) [
  | inl h ↦ rw h ([], refl)
  | inr h ↦ rw h (sib ∷ [], refl)
]
sibling_second-StartsWith p (q ∷ rest) sib = elim (Bool-cases (has (p ∷ q ∷ rest) sib)) [
  | inl h ↦ elim (Bool-cases (q == sib)) [
    | inl f ↦ rw h (rw f (q ∷ rest, refl))
    | inr f ↦ rw h (rw f (sib ∷ replace_first sib q rest, refl))
  ]
  | inr h ↦ rw h (sib ∷ q ∷ rest, refl)
]

pair_up-StartsWith :
    (topo : Topology) (p : ℕ) (rest : List ℕ) → StartsWith p (pair_up topo (p ∷ rest))
unfolding pair_up
pair_up-StartsWith topo p rest = elim (Option-cases (sibling topo p)) [
  | inl e ↦ (rest, rw (pair_up, e) refl)
  | inr (sib, e) ↦ rw (pair_up, e) (sibling_second-StartsWith p rest sib)
]

append_sibling-StartsWith :
    (topo : Topology) (first_pass : Bool) (p : ℕ) (pins : List ℕ) (o : Option ℕ)
    → StartsWith p pins
    → StartsWith p (append_sibling topo first_pass pins o)
unfolding append_sibling
append_sibling-StartsWith topo first_pass p pins none h = h
append_sibling-StartsWith topo first_pass p pins (some sib) (rest, h) =
    elim (Bool-cases
      (if first_pass then preferred_match topo sib else not (preferred_match topo sib))) [
        | inl e ↦ elim (Bool-cases (has pins sib)) [
          | inl f ↦ rw e (rw f (rest, h))
          | inr f ↦ rw e (rw f (rest ++ (sib ∷ []), ap (λ l. l ++ (sib ∷ [])) h))
        ]
        | inr e ↦ rw e (rest, h)
      ]

append_siblings-StartsWith :
    (topo : Topology) (first_pass : Bool) (p : ℕ) (base pins : List ℕ)
    → StartsWith p pins
    → StartsWith p (append_siblings topo first_pass base pins)
unfolding append_siblings
append_siblings-StartsWith topo first_pass p [] pins h = h
append_siblings-StartsWith topo first_pass p (cpu ∷ base) pins h =
    append_siblings-StartsWith topo first_pass p base _
      (append_sibling-StartsWith topo first_pass p pins (sibling topo cpu) h)

place_siblings-StartsWith :
    (topo : Topology) (participants p : ℕ) (rest : List ℕ)
    → StartsWith p (place_siblings topo participants (p ∷ rest))
unfolding place_siblings
place_siblings-StartsWith topo participants p rest =
    elim (Bool-cases ((participants == 2) && ltb 0 (length topo.smt_sibling_of_cpu))) [
      | inl e ↦ rw e (pair_up-StartsWith topo p rest)
      | inr e ↦
          elim (Bool-cases
            (ltb (length (p ∷ rest)) participants && ltb 0 (length topo.smt_sibling_of_cpu))) [
              | inl f ↦ rw e (
                  rw f (
                    append_siblings-StartsWith topo false p (p ∷ rest) _
                      (append_siblings-StartsWith topo true p (p ∷ rest) (p ∷ rest) (rest, refl))))
              | inr f ↦ rw e (rw f (rest, refl))
            ]
    ]

-- The list begins with a CPU that the test accepts.
abbrev pub Leads : (ℕ → Bool) → List ℕ → Type 0
Leads test l = (p : ℕ) × (test p ≡ true) × StartsWith p l

keep-Leads :
    (test : ℕ → Bool) (l : List ℕ) (cpu : ℕ)
    → has l cpu ≡ true
    → test cpu ≡ true
    → Leads test (keep test l)
unfolding has keep
keep-Leads test [] cpu h t = absurd (cc h)
keep-Leads test (x ∷ l) cpu h t = elim (Bool-cases (test x)) [
  | inl e ↦ rw e (x, e, (keep test l, refl))
  | inr e ↦ elim (Bool-cases (x == cpu)) [
    | inl f ↦ absurd (cc (ap test ((==_iff x cpu).0 f), t, e))
    | inr f ↦ rw e (keep-Leads test l cpu (rw f at h) t)
  ]
]

length-keep :
    (test : ℕ → Bool) (l : List ℕ)
    → length (keep test l) + length (keep (λ x. not (test x)) l) ≡ length l
unfolding keep
length-keep test [] = omega arith
length-keep test (x ∷ l) =
    let h = length-keep test l in
    elim (Bool-cases (test x)) [ inl e ↦ rw e (omega (arith, h)) | inr e ↦ rw e (omega (arith, h)) ]

append-Leads : (test : ℕ → Bool) (l m : List ℕ) → Leads test l → Leads test (l ++ m)
append-Leads test l m (p, t, (rest, h)) = (p, t, (rest ++ m, ap (λ k. k ++ m) h))

prefer_ccd-Leads :
    (topo : Topology) (pins : List ℕ) (cpu : ℕ)
    → topo.preferred_ccd < length topo.ccd_groups
    → has pins cpu ≡ true
    → on_preferred topo cpu ≡ true
    → Leads (on_preferred topo) (prefer_ccd topo pins)
unfolding prefer_ccd
prefer_ccd-Leads topo pins cpu valid h on =
    rw (lt→ltb topo.preferred_ccd (length topo.ccd_groups) valid) (
      rw ((==_iff (length (first ++ second)) (length pins)).1 whole) (
        append-Leads (on_preferred topo) first second
          (keep-Leads (on_preferred topo) pins cpu h on)))
  where
    first : List ℕ
    first = keep (on_preferred topo) pins

    second : List ℕ
    second = keep (λ cpu. not (on_preferred topo cpu)) pins

    whole : length (first ++ second) ≡ length pins
    whole = length-append first second ∙ length-keep (on_preferred topo) pins

place_siblings-Leads :
    (topo : Topology) (participants : ℕ) (pins : List ℕ) (test : ℕ → Bool)
    → Leads test pins
    → Leads test (place_siblings topo participants pins)
place_siblings-Leads topo participants pins test (p, t, (rest, h)) = (
  p,
  t,
  subst (λ l. StartsWith p (place_siblings topo participants l)) (sym h)
      (place_siblings-StartsWith topo participants p rest),
)

-- In a standalone pool of two pins or more, where some pin stands on the preferred core complex and
-- that complex exists, the first pin, which is the producer's, stands on it, whatever the number
-- of participants.
pub reserve_producer_cpu_first-Leads :
    (pins : List ℕ) (participants : ℕ) (topo : Topology) (cpu : ℕ)
    → 1 < length pins
    → topo.preferred_ccd < length topo.ccd_groups
    → has pins cpu ≡ true
    → on_preferred topo cpu ≡ true
    → Leads (on_preferred topo) (reserve_producer_cpu_first pins participants true topo)
unfolding reserve_producer_cpu_first
reserve_producer_cpu_first-Leads pins participants topo cpu many valid h on =
    rw (lt→ltb 1 (length pins) many) (
      place_siblings-Leads topo participants (prefer_ccd topo pins) (on_preferred topo)
        (prefer_ccd-Leads topo pins cpu valid h on))
