-- ===== src/Probe/RoundTrip.antt =====
-- What `serializeCoherenceProbe` writes, `deserializeCoherenceProbe` reads back.
use mathlib.Core.List.{append_assoc}
use native.Mathlib.Nat.{le-div_iff_mul-le}
use citor.Prelude.{
  ℕ, ◌*◌, ◌/◌, ◌^◌, ◌<◌, ◌≤◌, ◌≡◌, refl, sym, ap, ap₂, ◌∙◌, subst, arith, Bool, true, false, not,
  Option, none, some, List, [], ◌∷◌, ◌++◌, length, length-append, ◌==◌, All, le→ltb,
}
use citor.Probe.Bytes.{
  Read, ◌>>=◌, ◌>>◌, pure, guard, fits, write_pod, read_pod, read_pod-write_pod, length-write_pod,
  then_read,
}
use citor.Probe.Defs.{
  CoherenceProbe, probe_magic, probe_format_version, byte_of, write_elements, write_vector,
  write_rows, write_matrix, serialize, read_elements, read_vector, read_rows, read_matrix,
  consistent, read_probe, deserialize,
}

-- `n` elements of `size` bytes need that many bytes.
fits_lem :
    (n size : ℕ) (bytes : List ℕ)
    → 0 < size
    → n * size ≤ length bytes
    → fits n size bytes ≡ some (tt, bytes)
unfolding fits
fits_lem n size bytes pos h = rw (le→ltb (length bytes / size) n ((le-div_iff_mul-le pos).1 h))

-- A read of what a write has put in front of `t`.
next_read {ℓ κ} :
    {A : Type ℓ} {B : Type κ} (m : Read A) (f : A → Read B) (w t rest : List ℕ) {a : A}
    {r : Option (B × List ℕ)}
    → ((more : List ℕ) → m (w ++ more) ≡ some (a, more))
    → f a (t ++ rest) ≡ r
    → (m >>= f) ((w ++ t) ++ rest) ≡ r
next_read m f w t rest reads h = then_read m f (ap m (append_assoc w t rest) ∙ reads (t ++ rest)) h

-- The elements of a vector fit in `size` bytes, and its length in 64 bits.
abbrev pub IsVector : (size : ℕ) → List ℕ → Type 0
IsVector size v = (length v < 2 ^ 64) × All (λ x. x < 256 ^ size) v

abbrev pub IsMatrix : List (List ℕ) → Type 0
IsMatrix m = (length m < 2 ^ 64) × All (IsVector 8) m

length-write_elements : (size : ℕ) (v : List ℕ) → length (write_elements size v) ≡ length v * size
unfolding write_elements
length-write_elements size [] = omega arith
length-write_elements size (x ∷ xs) = omega (
  arith,
  length-append (write_pod size x) (write_elements size xs),
  length-write_pod size x,
  length-write_elements size xs,
)

read_elements-write_elements :
    (size : ℕ) (v rest : List ℕ)
    → All (λ x. x < 256 ^ size) v
    → read_elements size (length v) (write_elements size v ++ rest) ≡ some (v, rest)
unfolding read_elements write_elements
read_elements-write_elements size [] rest h = refl
read_elements-write_elements size (x ∷ xs) rest h =
    next_read (read_pod size) _ (write_pod size x) (write_elements size xs) rest
      (λ more. read_pod-write_pod size x more h.0)
      (then_read (read_elements size (length xs)) _ (read_elements-write_elements size xs rest h.1)
        refl)

read_vector-write_vector :
    (size : ℕ) (v rest : List ℕ)
    → 0 < size
    → IsVector size v
    → read_vector size (write_vector size v ++ rest) ≡ some (v, rest)
unfolding read_vector write_vector
read_vector-write_vector size v rest pos h =
    next_read (read_pod 8) _ (write_pod 8 (length v)) (write_elements size v) rest
      (λ more. read_pod-write_pod 8 (length v) more (omega (arith, h.0)))
      (then_read (fits (length v) size) _
        (fits_lem (length v) size (write_elements size v ++ rest) pos
          (omega (arith, length-append (write_elements size v) rest, length-write_elements size v)))
        (read_elements-write_elements size v rest h.1))

-- Every row has a length prefix of eight bytes.
length-write_rows : (m : List (List ℕ)) → length m * 8 ≤ length (write_rows m)
unfolding write_rows write_vector
length-write_rows [] = omega arith
length-write_rows (row ∷ rows) = omega (
  arith,
  length-append (write_pod 8 (length row) ++ write_elements 8 row) (write_rows rows),
  length-append (write_pod 8 (length row)) (write_elements 8 row),
  length-write_pod 8 (length row),
  length-write_rows rows,
)

read_rows-write_rows :
    (m : List (List ℕ)) (rest : List ℕ)
    → All (IsVector 8) m
    → read_rows (length m) (write_rows m ++ rest) ≡ some (m, rest)
unfolding read_rows write_rows
read_rows-write_rows [] rest h = refl
read_rows-write_rows (row ∷ rows) rest h =
    next_read (read_vector 8) _ (write_vector 8 row) (write_rows rows) rest
      (λ more. read_vector-write_vector 8 row more (omega arith) h.0)
      (then_read (read_rows (length rows)) _ (read_rows-write_rows rows rest h.1) refl)

read_matrix-write_matrix :
    (m : List (List ℕ)) (rest : List ℕ)
    → IsMatrix m
    → read_matrix (write_matrix m ++ rest) ≡ some (m, rest)
unfolding read_matrix write_matrix
read_matrix-write_matrix m rest h =
    next_read (read_pod 8) _ (write_pod 8 (length m)) (write_rows m) rest
      (λ more. read_pod-write_pod 8 (length m) more (omega (arith, h.0)))
      (then_read (fits (length m) 8) _
        (fits_lem (length m) 8 (write_rows m ++ rest) (omega arith)
          (omega (arith, length-append (write_rows m) rest, length-write_rows m)))
        (read_rows-write_rows m rest h.1))

-- The fields fit their types, and the sizes agree.
pub record IsEncodable (probe : CoherenceProbe) : Type 0 where
  pub ratio : probe.max_cross_over_intra_ratio < 2 ^ 64
  pub cpus : IsVector 4 probe.matrix.cpus
  pub matrix : IsMatrix probe.matrix.matrix
  pub ids : IsVector 4 probe.clusters.cluster_id_of_cpu_index
  pub count : probe.clusters.num_clusters < 2 ^ 32
  pub distances : IsMatrix probe.clusters.cluster_distance_ns
  pub sizes : consistent probe ≡ true

byte_of-bound : (b : Bool) → byte_of b < 256 ^ 1
byte_of-bound true = omega arith
byte_of-bound false = omega arith

byte_of-back : (b : Bool) → not (byte_of b == 0) ≡ b
byte_of-back true = refl
byte_of-back false = refl

-- The flags as the reads give them.
flags_back :
    (probe : CoherenceProbe)
    → probe ≡ record probe {
      valid = not (byte_of probe.valid == 0);
      matrix = record probe.matrix { valid = not (byte_of probe.matrix.valid == 0) };
    }
flags_back probe =
    ap₂ (λ a b. record probe { valid = a; matrix = record probe.matrix { valid = b } })
      (sym (byte_of-back probe.valid)) (sym (byte_of-back probe.matrix.valid))

checked :
    (probe : CoherenceProbe) (rest : List ℕ)
    → consistent probe ≡ true
    → (guard (consistent probe) >> pure probe) rest ≡ some (probe, rest)
checked probe rest h = then_read (guard (consistent probe)) _ (ap (λ b. guard b rest) h) refl

-- The bytes that follow the blob are left.
pub read_probe-serialize :
    (probe : CoherenceProbe) (rest : List ℕ)
    → IsEncodable probe
    → read_probe (serialize probe ++ rest) ≡ some (probe, rest)
unfolding read_probe serialize
read_probe-serialize probe rest ok =
    next_read (read_pod 4) _ (write_pod 4 probe_magic) _ rest
      (λ more. read_pod-write_pod 4 probe_magic more (omega arith))
      (next_read (read_pod 4) _ (write_pod 4 probe_format_version) _ rest
        (λ more. read_pod-write_pod 4 probe_format_version more (omega arith))
        (next_read (read_pod 1) _ (write_pod 1 (byte_of probe.valid)) _ rest
          (λ more. read_pod-write_pod 1 _ more (byte_of-bound probe.valid))
          (next_read (read_pod 8) _ (write_pod 8 probe.max_cross_over_intra_ratio) _ rest
            (λ more. read_pod-write_pod 8 _ more (omega (arith, ok.ratio)))
            (next_read (read_pod 1) _ (write_pod 1 (byte_of probe.matrix.valid)) _ rest
              (λ more. read_pod-write_pod 1 _ more (byte_of-bound probe.matrix.valid))
              (next_read (read_vector 4) _ (write_vector 4 probe.matrix.cpus) _ rest
                (λ more. read_vector-write_vector 4 _ more (omega arith) ok.cpus)
                (next_read read_matrix _ (write_matrix probe.matrix.matrix) _ rest
                  (λ more. read_matrix-write_matrix _ more ok.matrix)
                  (next_read (read_vector 4) _
                    (write_vector 4 probe.clusters.cluster_id_of_cpu_index) _ rest
                    (λ more. read_vector-write_vector 4 _ more (omega arith) ok.ids)
                    (next_read (read_pod 4) _ (write_pod 4 probe.clusters.num_clusters) _ rest
                      (λ more. read_pod-write_pod 4 _ more (omega (arith, ok.count)))
                      (then_read read_matrix _
                        (read_matrix-write_matrix probe.clusters.cluster_distance_ns rest
                          ok.distances)
                        (subst (λ q. (guard (consistent q) >> pure q) rest ≡ some (probe, rest))
                          (flags_back probe) (checked probe rest ok.sizes)))))))))))

-- A probe whose fields fit their types and whose sizes agree is read back from its blob, also where
-- more bytes follow.
pub deserialize-serialize :
    (probe : CoherenceProbe) (rest : List ℕ)
    → IsEncodable probe
    → deserialize (serialize probe ++ rest) ≡ some probe
unfolding deserialize
deserialize-serialize probe rest ok =
    ap (λ o. elim o [ none ↦ none | some (probe, rest) ↦ some probe ])
      (read_probe-serialize probe rest ok)
