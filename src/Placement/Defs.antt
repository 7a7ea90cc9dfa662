-- ===== src/Placement/Defs.antt =====
-- `reserveProducerCpuFirst` and the choice of the preferred core complex in `detectTopology`, of
-- include/citor/detail/topology.h.
use citor.Prelude.{
  ℕ, suc, ◌*◌, ◌^◌, ◌%◌, ◌-◌, Bool, true, false, not, ◌&&◌, ◌||◌, ◌==◌, ltb, if◌then◌else◌, Option,
  none, some, List, [], ◌∷◌, ◌++◌, length,
}

-- The fields of Topology that the order of the CPUs depends on.
pub record Topology : Type 0 where
  pub ccd_groups : List (List ℕ)
  pub ccd_of_cpu : List ℕ
  pub preferred_ccd : ℕ
  pub smt_sibling_of_cpu : List ℕ

-- UINT32_MAX
abbrev pub no_cpu : ℕ
no_cpu = 4294967295

unfoldable pub get_elem? {ℓ} : {A : Type ℓ} → List A → ℕ → Option A
get_elem? [] i = none
get_elem? (x ∷ xs) i = if i == 0 then some x else get_elem? xs (i - 1)

unfoldable pub has : List ℕ → ℕ → Bool
has [] x = false
has (y ∷ ys) x = (y == x) || has ys x

unfoldable pub keep : (ℕ → Bool) → List ℕ → List ℕ
keep p [] = []
keep p (x ∷ xs) = if p x then x ∷ keep p xs else keep p xs

abbrev pub is_some_eq : Option ℕ → ℕ → Bool
is_some_eq none x = false
is_some_eq (some y) x = y == x

-- Whether a CPU stands on the preferred complex.
unfoldable pub on_preferred : Topology → ℕ → Bool
on_preferred topo cpu = is_some_eq (get_elem? topo.ccd_of_cpu cpu) topo.preferred_ccd

-- The reorder of a standalone pool.
unfoldable pub prefer_ccd : Topology → List ℕ → List ℕ
prefer_ccd topo pins =
    let reordered =
      keep (on_preferred topo) pins ++ keep (λ cpu. not (on_preferred topo cpu)) pins in
    if ltb topo.preferred_ccd (length topo.ccd_groups)
    then (if length reordered == length pins then reordered else pins)
    else pins

-- The SMT sibling of a CPU, where it has another one.
unfoldable pub sibling : Topology → ℕ → Option ℕ
sibling topo cpu = elim (get_elem? topo.smt_sibling_of_cpu cpu) [
  | none ↦ none
  | some sib ↦ if (sib == no_cpu) || (sib == cpu) then none else some sib
]

-- std::iter_swap of `b`, which stands before the list, with the first `a` in it: what the list becomes.
unfoldable pub replace_first : (a b : ℕ) → List ℕ → List ℕ
replace_first a b [] = []
replace_first a b (x ∷ xs) = if x == a then b ∷ xs else x ∷ replace_first a b xs

-- Exception A: the sibling in slot 1.
unfoldable pub sibling_second : List ℕ → ℕ → List ℕ
sibling_second [] sib = []
sibling_second (p ∷ []) sib = if has (p ∷ []) sib then p ∷ [] else p ∷ sib ∷ []
sibling_second (p ∷ q ∷ rest) sib =
    if has (p ∷ q ∷ rest) sib
    then (if q == sib then p ∷ q ∷ rest else p ∷ sib ∷ replace_first sib q rest)
    else p ∷ sib ∷ q ∷ rest

unfoldable pub pair_up : Topology → List ℕ → List ℕ
pair_up topo [] = []
pair_up topo (p ∷ rest) = elim (sibling topo p) [
  | none ↦ p ∷ rest
  | some sib ↦ sibling_second (p ∷ rest) sib
]

-- Whether a sibling belongs to the first pass of exception B.
unfoldable pub preferred_match : Topology → ℕ → Bool
preferred_match topo sib = ltb topo.preferred_ccd (length topo.ccd_groups) && on_preferred topo sib

-- The body of the loop of exception B, in the first pass or in the second.
unfoldable pub append_sibling : Topology → (first_pass : Bool) → List ℕ → Option ℕ → List ℕ
append_sibling topo first_pass pins none = pins
append_sibling topo first_pass pins (some sib) =
    if (if first_pass then preferred_match topo sib else not (preferred_match topo sib))
    then (if has pins sib then pins else pins ++ (sib ∷ []))
    else pins

-- The loop over the `base` pins of one pass.
unfoldable pub append_siblings : Topology → (first_pass : Bool) → (base pins : List ℕ) → List ℕ
append_siblings topo first_pass [] pins = pins
append_siblings topo first_pass (cpu ∷ base) pins =
    append_siblings topo first_pass base (append_sibling topo first_pass pins (sibling topo cpu))

-- What follows the reorder: exception A, exception B or neither.
unfoldable pub place_siblings : Topology → (participants : ℕ) → List ℕ → List ℕ
place_siblings topo participants pins =
    let any = ltb 0 (length topo.smt_sibling_of_cpu) in
    if (participants == 2) && any
    then pair_up topo pins
    else if ltb (length pins) participants && any
    then append_siblings topo false pins (append_siblings topo true pins pins)
    else pins

unfoldable pub reserve_producer_cpu_first :
    (cpu_pins : List ℕ) (participants : ℕ) (standalone : Bool) → Topology → List ℕ
reserve_producer_cpu_first pins participants standalone topo =
    if ltb 1 (length pins)
    then place_siblings topo participants (if standalone then prefer_ccd topo pins else pins)
    else pins

-- The scan for the two largest L3 caches: the largest, the second and the index of the largest.
unfoldable pub largest_l3 : (ccd : ℕ) → List ℕ → (largest second idx : ℕ) → ℕ × ℕ × ℕ
largest_l3 ccd [] largest second idx = (largest, second, idx)
largest_l3 ccd (k ∷ ks) largest second idx =
    let bigger = largest_l3 (suc ccd) ks k largest ccd in
    let next = largest_l3 (suc ccd) ks largest k idx in
    let same = largest_l3 (suc ccd) ks largest second idx in
    if ltb largest k then bigger else if ltb second k then next else same

-- The scan for the largest L3 off the complex of CPU 0: the best so far and its index.
unfoldable pub best_other : (bsp ccd : ℕ) → List ℕ → (best idx : ℕ) → ℕ
best_other bsp ccd [] best idx = idx
best_other bsp ccd (k ∷ ks) best idx =
    let take = best_other bsp (suc ccd) ks k ccd in
    let skip = best_other bsp (suc ccd) ks best idx in
    if ccd == bsp
    then skip
    else if ltb best k || ((k == best) && (idx == no_cpu))
    then take
    else skip

-- The complex of CPU 0.
abbrev pub bsp_ccd : List ℕ → ℕ
bsp_ccd [] = no_cpu
bsp_ccd (c ∷ cs) = c

-- `topo.preferredCcd`, from `topo.l3KibOfCcd` and `topo.ccdOfCpu`, with 64-bit products.
unfoldable pub preferred_ccd_of : (l3_kib_of_ccd ccd_of_cpu : List ℕ) → ℕ
preferred_ccd_of l3 ccd_of_cpu =
    let (largest, second, idx) = largest_l3 0 l3 0 0 0 in
    let other = best_other (bsp_ccd ccd_of_cpu) 0 l3 0 no_cpu in
    if (second == 0) || ltb (second * 3 % 2 ^ 64) (largest * 2 % 2 ^ 64)
    then idx
    else if other == no_cpu
    then idx
    else other
