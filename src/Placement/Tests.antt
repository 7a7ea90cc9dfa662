-- ===== src/Placement/Tests.antt =====
-- The pins of a machine with two core complexes of two cores with two threads each.
use citor.Prelude.{ℕ, ◌≡◌, refl, true, List, [], ◌∷◌, ◌⊎◌}
use citor.Placement.Defs.{
  Topology, get_elem?, has, keep, on_preferred, prefer_ccd, sibling, sibling_second, pair_up,
  preferred_match, append_sibling, append_siblings, place_siblings, reserve_producer_cpu_first,
  largest_l3, best_other, preferred_ccd_of,
}
use citor.Placement.Extends.{count}
use citor.Placement.Counts.{reserve_producer_cpu_first-Extends}

-- CPUs 0 to 3 are the first threads, 4 to 7 the second ones; 2, 3, 6 and 7 are preferred.
abbrev machine : Topology
machine = record {
  ccd_groups = (0 ∷ 1 ∷ []) ∷ (2 ∷ 3 ∷ []) ∷ [];
  ccd_of_cpu = 0 ∷ 0 ∷ 1 ∷ 1 ∷ 0 ∷ 0 ∷ 1 ∷ 1 ∷ [];
  preferred_ccd = 1;
  smt_sibling_of_cpu = 4 ∷ 5 ∷ 6 ∷ 7 ∷ 0 ∷ 1 ∷ 2 ∷ 3 ∷ [];
}

abbrev cores : List ℕ
cores = 0 ∷ 1 ∷ 2 ∷ 3 ∷ []

four : reserve_producer_cpu_first cores 4 true machine ≡ 2 ∷ 3 ∷ 0 ∷ 1 ∷ []
unfolding reserve_producer_cpu_first place_siblings prefer_ccd keep on_preferred get_elem?
four = refl

two : reserve_producer_cpu_first cores 2 true machine ≡ 2 ∷ 6 ∷ 3 ∷ 0 ∷ 1 ∷ []
unfolding reserve_producer_cpu_first place_siblings pair_up sibling_second sibling has prefer_ccd
    keep on_preferred get_elem?
two = refl

six : reserve_producer_cpu_first cores 6 true machine ≡ 2 ∷ 3 ∷ 0 ∷ 1 ∷ 6 ∷ 7 ∷ 4 ∷ 5 ∷ []
unfolding reserve_producer_cpu_first place_siblings append_siblings append_sibling sibling has
    prefer_ccd keep on_preferred get_elem? preferred_match
six = refl

preferred_cache : preferred_ccd_of (32 ∷ 96 ∷ []) (0 ∷ 0 ∷ 1 ∷ 1 ∷ []) ≡ 1
unfolding preferred_ccd_of largest_l3 best_other
preferred_cache = refl

reserve_producer_cpu_first-Extends_example :
    (count 6 (reserve_producer_cpu_first cores 2 true machine) ≡ count 6 cores)
    ⊎ ((count 6 cores ≡ 0) × (count 6 (reserve_producer_cpu_first cores 2 true machine) ≡ 1))
reserve_producer_cpu_first-Extends_example =
    reserve_producer_cpu_first-Extends cores 2 true machine 6

abbrev caches : List ℕ
caches = 32 ∷ 40 ∷ 36 ∷ []
