-- ===== src/Probe/Reject.antt =====
-- Which blobs `deserializeCoherenceProbe` takes: none that is cut short, and none whose sizes do not
-- agree.
use mathlib.Core.List.{append-nil}
use native.Mathlib.Nat.{le-div_iff_mul-le}
use citor.Prelude.{
  ℕ, zero, suc, ◌+◌, ◌*◌, ◌/◌, ◌<◌, ◌≤◌, ◌≡◌, refl, sym, ap, ap₂, ◌∙◌, subst, arith, Bool, true,
  false, ◌&&◌, Option, none, some, List, [], ◌∷◌, ◌++◌, length, length-append, ltb, ◌==◌, All,
  le→ltb, ltb→le, Bool-cases, Option-cases, inl, inr,
}
use citor.Probe.Bytes.{Read, ◌>>=◌, ◌>>◌, pure, guard, fits, copy_pod, advance, read_pod, then_read}
use citor.Probe.Defs.{
  CoherenceProbe, serialize, read_elements, read_vector, read_rows, read_matrix, rows_have,
  consistent, read_probe, deserialize, probe_magic, probe_format_version,
}
use citor.Probe.RoundTrip.{IsEncodable, read_probe-serialize}

-- What a read gives is not changed by bytes further on.
Extends {ℓ} : {A : Type ℓ} → Read A → Type ℓ
Extends {A} r =
    (bytes more : List ℕ) (a : A) (rest : List ℕ)
    → r bytes ≡ some (a, rest)
    → r (bytes ++ more) ≡ some (a, rest ++ more)

-- A read that begins with another one, taken apart.
read_first {ℓ κ} :
    {A : Type ℓ} {B : Type κ} (m : Read A) (f : A → Read B) {bytes rest : List ℕ} {b : B}
    → (m >>= f) bytes ≡ some (b, rest)
    → (a : A) × (left : List ℕ) × (m bytes ≡ some (a, left)) × (f a left ≡ some (b, rest))
read_first m f {bytes} h = elim (Option-cases (m bytes)) [
  | inl e ↦ cc (sym (ap (λ o. elim o [ none ↦ none | some (a, rest) ↦ f a rest ]) e) ∙ h)
  | inr ((a, left), e) ↦
      (a, left, e, sym (ap (λ o. elim o [ none ↦ none | some (a, rest) ↦ f a rest ]) e) ∙ h)
]

extend {ℓ} :
    {A : Type ℓ} (r : Read A)
    → Extends r
    → (bytes more : List ℕ) (a : A) (rest : List ℕ) → r bytes ≡ some (a, rest)
    → r (bytes ++ more) ≡ some (a, rest ++ more)
unfolding Extends
extend r h = h

Extends-bind {ℓ κ} :
    {A : Type ℓ} {B : Type κ} (m : Read A) (f : A → Read B)
    → Extends m
    → ((a : A) → Extends (f a))
    → Extends (m >>= f)
unfolding Extends
Extends-bind m f hm hf bytes more b rest h =
    let (a, left, e, g) = read_first m f h in
    then_read m f (hm bytes more a left e) (hf a left more b rest g)

some_injective {ℓ} : {A : Type ℓ} {a b : A} → some a ≡ some b → a ≡ b
some_injective e = cc

then_more {ℓ} :
    {A : Type ℓ} (bytes more : List ℕ) {a b : A} {rest : List ℕ}
    → ◌≡◌ {A = Option (A × List ℕ)} (some (a, bytes)) (some (b, rest))
    → ◌≡◌ {A = Option (A × List ℕ)} (some (a, bytes ++ more)) (some (b, rest ++ more))
then_more bytes more e = ap (λ o. elim o [ none ↦ none | some (a, r) ↦ some (a, r ++ more) ]) e

Extends-pure {ℓ} : {A : Type ℓ} (a : A) → Extends (pure a)
unfolding Extends
Extends-pure a bytes more b rest h = then_more bytes more h

Extends-guard : (b : Bool) → Extends (guard b)
unfolding Extends
Extends-guard true bytes more a rest h = then_more bytes more h
Extends-guard false bytes more a rest h = cc

copy_pod-append :
    (size : ℕ) (bytes more : List ℕ)
    → size ≤ length bytes
    → copy_pod size (bytes ++ more) ≡ copy_pod size bytes
unfolding copy_pod
copy_pod-append zero bytes more h = refl
copy_pod-append (suc size) [] more h = absurd (omega arith)
copy_pod-append (suc size) (b ∷ bytes) more h =
    ap (λ n. b + 256 * n) (copy_pod-append size bytes more (omega arith))

advance-more :
    (size : ℕ) (bytes more : List ℕ)
    → size ≤ length bytes
    → advance size (bytes ++ more) ≡ advance size bytes ++ more
unfolding advance
advance-more zero bytes more h = refl
advance-more (suc size) [] more h = absurd (omega arith)
advance-more (suc size) (b ∷ bytes) more h = advance-more size bytes more (omega arith)

Extends-read_pod : (size : ℕ) → Extends (read_pod size)
unfolding Extends read_pod
Extends-read_pod size bytes more a rest h = elim (Bool-cases (ltb (length bytes) size)) [
  | inl short ↦ cc (rw short at h)
  | inr enough ↦
      let enough' : size ≤ length bytes = ltb→le (length bytes) size enough in
      rw (le→ltb (length (bytes ++ more)) size (omega (arith, length-append bytes more, enough'))) (
        ap₂ (λ c r. some (c, r)) (copy_pod-append size bytes more enough')
          (advance-more size bytes more enough')
        ∙ then_more (advance size bytes) more (rw enough at h))
]

Extends-fits : (count size : ℕ) → 0 < size → Extends (fits count size)
unfolding Extends fits
Extends-fits count size pos bytes more a rest h =
    elim (Bool-cases (ltb (length bytes / size) count)) [
      | inl short ↦ cc (rw short at h)
      | inr enough ↦
          rw
            (le→ltb (length (bytes ++ more) / size) count
              (still (ltb→le (length bytes / size) count enough)))
            (then_more bytes more (rw enough at h))
    ]
  where
    still : count ≤ length bytes / size → count ≤ length (bytes ++ more) / size
    still k =
        (le-div_iff_mul-le pos).1
          (omega (arith, (le-div_iff_mul-le pos).0 k, length-append bytes more))

Extends-read_elements : (size count : ℕ) → Extends (read_elements size count)
unfolding read_elements
Extends-read_elements size zero = Extends-pure []
Extends-read_elements size (suc count) =
    Extends-bind (read_pod size) _ (Extends-read_pod size) (λ x.
      Extends-bind (read_elements size count) _ (Extends-read_elements size count)
        (λ xs. Extends-pure (x ∷ xs)))

Extends-read_vector : (size : ℕ) → 0 < size → Extends (read_vector size)
unfolding read_vector
Extends-read_vector size pos = Extends-bind (read_pod 8) _ (Extends-read_pod 8) (λ n.
    Extends-bind (fits n size) _ (Extends-fits n size pos) (λ _. Extends-read_elements size n))

Extends-read_rows : (count : ℕ) → Extends (read_rows count)
unfolding read_rows
Extends-read_rows zero = Extends-pure []
Extends-read_rows (suc count) =
    Extends-bind (read_vector 8) _ (Extends-read_vector 8 (omega arith)) (λ row.
      Extends-bind (read_rows count) _ (Extends-read_rows count)
        (λ rows. Extends-pure (row ∷ rows)))

Extends-read_matrix : Extends read_matrix
unfolding read_matrix
Extends-read_matrix =
    Extends-bind (read_pod 8) _ (Extends-read_pod 8)
      (λ n. Extends-bind (fits n 8) _ (Extends-fits n 8 (omega arith)) (λ _. Extends-read_rows n))

Extends-read_probe : Extends read_probe
unfolding read_probe
Extends-read_probe = Extends-bind (read_pod 4) _ (Extends-read_pod 4) (λ magic.
    Extends-bind (read_pod 4) _ (Extends-read_pod 4) (λ version.
      Extends-bind (guard (magic == probe_magic && version == probe_format_version)) _
        (Extends-guard _)
        (λ _. Extends-bind (read_pod 1) _ (Extends-read_pod 1) (λ valid.
          Extends-bind (read_pod 8) _ (Extends-read_pod 8) (λ ratio.
            Extends-bind (read_pod 1) _ (Extends-read_pod 1) (λ matrix_valid.
              Extends-bind (read_vector 4) _ (Extends-read_vector 4 (omega arith)) (λ cpus.
                Extends-bind read_matrix _ Extends-read_matrix (λ matrix.
                  Extends-bind (read_vector 4) _ (Extends-read_vector 4 (omega arith)) (λ ids.
                    Extends-bind (read_pod 4) _ (Extends-read_pod 4) (λ count.
                      Extends-bind read_matrix _ Extends-read_matrix (λ distances.
                        Extends-bind (guard _) _ (Extends-guard _) (λ _. Extends-pure _))))))))))))

-- No blob that was cut short is taken: `deserializeCoherenceProbe` refuses every proper prefix of
-- what `serializeCoherenceProbe` wrote for a probe whose fields fit their types and whose sizes
-- agree.
pub deserialize_truncated :
    (probe : CoherenceProbe) (front : List ℕ) (b : ℕ) (back : List ℕ)
    → IsEncodable probe
    → serialize probe ≡ front ++ (b ∷ back)
    → deserialize front ≡ none
unfolding deserialize
deserialize_truncated probe front b back ok e = elim (Option-cases (read_probe front)) [
  | inl refused ↦ ap (λ o. elim o [ none ↦ none | some (probe, rest) ↦ some probe ]) refused
  | inr ((q, left), taken) ↦ absurd (
      too_long left (
        ap (λ (p : CoherenceProbe × List ℕ). length p.1)
          (some_injective (sym (longer q left taken) ∙ whole))))
]
  where
    whole : read_probe (front ++ (b ∷ back)) ≡ some (probe, [])
    whole =
        ap read_probe (sym e ∙ sym (append-nil (serialize probe)))
        ∙ read_probe-serialize probe [] ok

    longer :
        (q : CoherenceProbe) (left : List ℕ)
        → read_probe front ≡ some (q, left)
        → read_probe (front ++ (b ∷ back)) ≡ some (q, left ++ (b ∷ back))
    longer q left taken = extend read_probe Extends-read_probe front (b ∷ back) q left taken

    too_long : (left : List ℕ) → ¬ (length (left ++ (b ∷ back)) ≡ 0)
    too_long left h = omega (arith, length-append left (b ∷ back))

-- The latency matrix is square over the CPUs, each CPU has a cluster, and the distances are square
-- over the clusters.
pub record IsConsistent (probe : CoherenceProbe) : Type 0 where
  pub rows : length probe.matrix.matrix ≡ length probe.matrix.cpus
  pub columns : All (λ row. length row ≡ length probe.matrix.cpus) probe.matrix.matrix
  pub ids : length probe.clusters.cluster_id_of_cpu_index ≡ length probe.matrix.cpus
  pub distances : length probe.clusters.cluster_distance_ns ≡ probe.clusters.num_clusters
  pub distance_columns :
      All (λ row. length row ≡ probe.clusters.num_clusters) probe.clusters.cluster_distance_ns

rows_have_lem : (n : ℕ) (m : List (List ℕ)) → rows_have n m ≡ true → All (λ row. length row ≡ n) m
unfolding rows_have
rows_have_lem n [] h = tt
rows_have_lem n (row ∷ rows) h = (ground arith, rows_have_lem n rows (ground arith))

consistent-IsConsistent : (probe : CoherenceProbe) → consistent probe ≡ true → IsConsistent probe
unfolding consistent
consistent-IsConsistent probe h = record {
  rows = ground arith;
  columns = rows_have_lem (length probe.matrix.cpus) probe.matrix.matrix (ground arith);
  ids = ground arith;
  distances = ground arith;
  distance_columns =
      rows_have_lem probe.clusters.num_clusters probe.clusters.cluster_distance_ns (ground arith);
}

-- Whatever a read gives satisfies `P`.
Gives {ℓ κ} : {A : Type ℓ} → (A → Type κ) → Read A → Type (ℓ ⊔ κ)
Gives {A} P r = (bytes rest : List ℕ) (a : A) → r bytes ≡ some (a, rest) → P a

Gives-bind {ℓ κ ℓ'} :
    {A : Type ℓ} {B : Type κ} (P : B → Type ℓ') (m : Read A) (f : A → Read B)
    → ((a : A) → Gives P (f a))
    → Gives P (m >>= f)
unfolding Gives
Gives-bind P m f hf bytes rest b h = let (a, left, e, g) = read_first m f h in hf a left rest b g

Gives-checked :
    (q : CoherenceProbe) → Gives (λ p. consistent p ≡ true) (guard (consistent q) >> pure q)
unfolding Gives
Gives-checked q bytes rest p h = elim (Bool-cases (consistent q)) [
  | inl good ↦
      sym (
        ap (λ (o : CoherenceProbe × List ℕ). consistent o.0)
          (some_injective (sym (passed good) ∙ h)))
      ∙ good
  | inr bad ↦ cc (sym (ap (λ b. (guard b >> pure q) bytes) bad) ∙ h)
]
  where
    passed : consistent q ≡ true → (guard (consistent q) >> pure q) bytes ≡ some (q, bytes)
    passed good = ap (λ b. (guard b >> pure q) bytes) good

Gives-read_probe : Gives (λ p. consistent p ≡ true) read_probe
unfolding read_probe
Gives-read_probe = Gives-bind _ (read_pod 4) _ (λ magic. Gives-bind _ (read_pod 4) _ (λ version.
    Gives-bind _ (guard _) _ (λ _. Gives-bind _ (read_pod 1) _ (λ valid.
      Gives-bind _ (read_pod 8) _ (λ ratio. Gives-bind _ (read_pod 1) _ (λ matrix_valid.
        Gives-bind _ (read_vector 4) _ (λ cpus. Gives-bind _ read_matrix _ (λ matrix.
          Gives-bind _ (read_vector 4) _ (λ ids.
            Gives-bind _ (read_pod 4) _
              (λ count. Gives-bind _ read_matrix _ (λ distances. Gives-checked _)))))))))))

-- Whatever bytes it is given, a probe that `deserializeCoherenceProbe` takes has a square latency
-- matrix over its CPUs, a cluster for each CPU, and square distances over its clusters.
pub deserialize-IsConsistent :
    (bytes : List ℕ) (probe : CoherenceProbe) → deserialize bytes ≡ some probe → IsConsistent probe
unfolding deserialize Gives
deserialize-IsConsistent bytes probe h = elim (Option-cases (read_probe bytes)) [
  | inl refused ↦
      cc (sym (ap (λ o. elim o [ none ↦ none | some (probe, rest) ↦ some probe ]) refused) ∙ h)
  | inr ((q, left), taken) ↦
      subst IsConsistent
        (some_injective
          (sym (ap (λ o. elim o [ none ↦ none | some (probe, rest) ↦ some probe ]) taken) ∙ h))
        (consistent-IsConsistent q (Gives-read_probe bytes left q taken))
]
