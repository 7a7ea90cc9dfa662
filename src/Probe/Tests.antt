-- ===== src/Probe/Tests.antt =====
-- Runs of the probe's blob and cache at concrete inputs.
use citor.Prelude.{ℕ, ◌≡◌, refl, arith, true, false, none, some, List, [], ◌∷◌, ◌++◌}
use citor.Probe.Bytes.{write_pod}
use citor.Probe.Defs.{
  CoherenceProbe, serialize, deserialize, consistent, rows_have, write_elements, write_vector,
  write_rows, write_matrix,
}
use citor.Probe.RoundTrip.{IsEncodable, deserialize-serialize}
use citor.Probe.Reject.{deserialize_truncated, IsConsistent, deserialize-IsConsistent}
use citor.Probe.Key.{contains}
use citor.Probe.Cache.{cached_probe, import_probe, cached_probe-import_probe}

-- Two CPUs, 7 and 3, in one cluster each.
abbrev two_cpus : CoherenceProbe
two_cpus = record {
  valid = true;
  matrix = record {
    cpus = 7 ∷ 3 ∷ [];
    matrix = (0 ∷ 300 ∷ []) ∷ (300 ∷ 0 ∷ []) ∷ [];
    valid = true;
  };
  clusters = record {
    cluster_id_of_cpu_index = 0 ∷ 1 ∷ [];
    num_clusters = 2;
    cluster_distance_ns = (10 ∷ 300 ∷ []) ∷ (300 ∷ 12 ∷ []) ∷ [];
  };
  max_cross_over_intra_ratio = 25;
}

two_cpus-IsEncodable : IsEncodable two_cpus
unfolding consistent rows_have
two_cpus-IsEncodable = record {
  ratio = omega arith;
  cpus = omega arith;
  matrix = omega arith;
  ids = omega arith;
  count = omega arith;
  distances = omega arith;
  sizes = refl;
}

deserialize-serialize_example : deserialize (serialize two_cpus ++ (9 ∷ [])) ≡ some two_cpus
deserialize-serialize_example = deserialize-serialize two_cpus (9 ∷ []) two_cpus-IsEncodable

-- All bytes but the last one.
front : List ℕ → List ℕ
front [] = []
front (x ∷ []) = []
front (x ∷ y ∷ xs) = x ∷ front (y ∷ xs)

cut_short : serialize two_cpus ≡ front (serialize two_cpus) ++ (0 ∷ [])
unfolding serialize front write_pod write_elements write_vector write_rows write_matrix
cut_short = refl

deserialize_truncated_example : deserialize (front (serialize two_cpus)) ≡ none
deserialize_truncated_example =
    deserialize_truncated two_cpus (front (serialize two_cpus)) 0 [] two_cpus-IsEncodable cut_short

deserialize-IsConsistent_example : IsConsistent two_cpus
deserialize-IsConsistent_example =
    deserialize-IsConsistent (serialize two_cpus ++ (9 ∷ [])) two_cpus deserialize-serialize_example

swapped : (cpu : ℕ) → contains cpu (7 ∷ 3 ∷ []) ≡ contains cpu (3 ∷ 7 ∷ 3 ∷ [])
unfolding contains
swapped cpu = ground arith

cached_probe-import_probe_example :
    cached_probe
      (λ cpus. record two_cpus { valid = false })
      (3 ∷ 7 ∷ 3 ∷ [])
      (import_probe (serialize two_cpus ++ []) []).1
      []
    ≡ (false, two_cpus, (import_probe (serialize two_cpus ++ []) []).1)
cached_probe-import_probe_example =
    cached_probe-import_probe (λ cpus. record two_cpus { valid = false }) two_cpus []
      (3 ∷ 7 ∷ 3 ∷ []) [] [] two_cpus-IsEncodable swapped
