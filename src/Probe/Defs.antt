-- ===== src/Probe/Defs.antt =====
-- The blob of include/citor/detail/coherence_probe.h: `serializeCoherenceProbe` and
-- `deserializeCoherenceProbe`.
use citor.Prelude.{
  ℕ, zero, suc, Bool, true, ◌&&◌, not, Option, none, some, List, [], ◌∷◌, ◌++◌, length, ◌==◌,
  if◌then◌else◌,
}
use citor.Probe.Bytes.{Read, ◌>>=◌, ◌>>◌, pure, guard, fits, write_pod, read_pod}

pub record LatencyMatrix : Type 0 where
  pub cpus : List ℕ
  pub matrix : List (List ℕ)
  pub valid : Bool

pub record ClusterResult : Type 0 where
  pub cluster_id_of_cpu_index : List ℕ
  pub num_clusters : ℕ
  pub cluster_distance_ns : List (List ℕ)

pub record CoherenceProbe : Type 0 where
  pub valid : Bool
  pub matrix : LatencyMatrix
  pub clusters : ClusterResult
  pub max_cross_over_intra_ratio : ℕ

abbrev pub probe_magic : ℕ
probe_magic = 0x434F4850

abbrev pub probe_format_version : ℕ
probe_format_version = 1

unfoldable pub write_elements : (size : ℕ) → List ℕ → List ℕ
write_elements size [] = []
write_elements size (x ∷ xs) = write_pod size x ++ write_elements size xs

-- coherenceProbeWriteU32Vector at size 4, coherenceProbeWriteF64Vector at size 8
unfoldable pub write_vector : (size : ℕ) → List ℕ → List ℕ
write_vector size v = write_pod 8 (length v) ++ write_elements size v

unfoldable pub write_rows : List (List ℕ) → List ℕ
write_rows [] = []
write_rows (row ∷ rows) = write_vector 8 row ++ write_rows rows

-- coherenceProbeWriteF64Matrix
unfoldable pub write_matrix : List (List ℕ) → List ℕ
write_matrix m = write_pod 8 (length m) ++ write_rows m

abbrev pub byte_of : Bool → ℕ
byte_of b = if b then 1 else 0

-- serializeCoherenceProbe
unfoldable pub serialize : CoherenceProbe → List ℕ
serialize probe =
    write_pod 4 probe_magic
    ++ (write_pod 4 probe_format_version
        ++ (write_pod 1 (byte_of probe.valid)
            ++ (write_pod 8 probe.max_cross_over_intra_ratio
                ++ (write_pod 1 (byte_of probe.matrix.valid)
                    ++ (write_vector 4 probe.matrix.cpus
                        ++ (write_matrix probe.matrix.matrix
                            ++ (write_vector 4 probe.clusters.cluster_id_of_cpu_index
                                ++ (write_pod 4 probe.clusters.num_clusters
                                    ++ write_matrix probe.clusters.cluster_distance_ns))))))))

unfoldable pub read_elements : (size count : ℕ) → Read (List ℕ)
read_elements size zero = pure []
read_elements size (suc count) = do x ← read_pod size; xs ← read_elements size count; pure (x ∷ xs)

-- coherenceProbeReadU32Vector at size 4, coherenceProbeReadF64Vector at size 8
unfoldable pub read_vector : (size : ℕ) → Read (List ℕ)
read_vector size = do count ← read_pod 8; fits count size; read_elements size count

unfoldable pub read_rows : (count : ℕ) → Read (List (List ℕ))
read_rows zero = pure []
read_rows (suc count) = do row ← read_vector 8; rows ← read_rows count; pure (row ∷ rows)

-- coherenceProbeReadF64Matrix
unfoldable pub read_matrix : Read (List (List ℕ))
read_matrix = do count ← read_pod 8; fits count 8; read_rows count

-- Every row has `n` entries.
unfoldable pub rows_have : (n : ℕ) → List (List ℕ) → Bool
rows_have n [] = true
rows_have n (row ∷ rows) = length row == n && rows_have n rows

-- The checks of deserializeCoherenceProbe after the last read.
unfoldable pub consistent : CoherenceProbe → Bool
consistent probe =
    let n = length probe.matrix.cpus in
    let k = probe.clusters.num_clusters in
    length probe.matrix.matrix == n
    && (rows_have n probe.matrix.matrix
        && (length probe.clusters.cluster_id_of_cpu_index == n
            && (length probe.clusters.cluster_distance_ns == k
                && rows_have k probe.clusters.cluster_distance_ns)))

-- The reads of deserializeCoherenceProbe in their order, and its checks.
unfoldable pub read_probe : Read CoherenceProbe
read_probe = do
  magic ← read_pod 4
  version ← read_pod 4
  guard (magic == probe_magic && version == probe_format_version)
  probe_valid ← read_pod 1
  ratio ← read_pod 8
  matrix_valid ← read_pod 1
  cpus ← read_vector 4
  matrix ← read_matrix
  ids ← read_vector 4
  num_clusters ← read_pod 4
  distances ← read_matrix
  let probe : CoherenceProbe = record {
    valid = not (probe_valid == 0);
    matrix = record { cpus = cpus; matrix = matrix; valid = not (matrix_valid == 0) };
    clusters = record {
      cluster_id_of_cpu_index = ids;
      num_clusters = num_clusters;
      cluster_distance_ns = distances;
    };
    max_cross_over_intra_ratio = ratio;
  }
  guard (consistent probe)
  pure probe

-- deserializeCoherenceProbe: the bytes after the last field are not looked at.
unfoldable pub deserialize : List ℕ → Option CoherenceProbe
deserialize bytes = elim (read_probe bytes) [ none ↦ none | some (probe, rest) ↦ some probe ]
