-- ===== src/Probe/Cache.antt =====
-- The process-wide cache of probes: `cachedCoherenceProbe` and `seedCoherenceProbeCache` of
-- include/citor/detail/coherence_probe.h, and `importCoherenceProbe` of
-- include/citor/coherence_cache.h. std::map is an association list.
use citor.Prelude.{
  ℕ, ◌≡◌, refl, sym, ap, ◌∙◌, arith, Bool, true, false, ◌&&◌, Option, none, some, List, [], ◌∷◌,
  ◌++◌, ◌==◌, if◌then◌else◌, ==_self,
}
use citor.Probe.Defs.{CoherenceProbe, serialize, deserialize}
use citor.Probe.RoundTrip.{IsEncodable, deserialize-serialize}
use citor.Probe.Key.{cache_key, contains, cache_key_same}

abbrev pub Cache : Type 0
Cache = List (List ℕ × CoherenceProbe)

unfoldable pub same_key : List ℕ → List ℕ → Bool
same_key [] [] = true
same_key [] (y ∷ ys) = false
same_key (x ∷ xs) [] = false
same_key (x ∷ xs) (y ∷ ys) = x == y && same_key xs ys

unfoldable pub find : List ℕ → Cache → Option CoherenceProbe
find key [] = none
find key ((k, p) ∷ entries) = if same_key k key then some p else find key entries

unfoldable pub insert_or_assign : List ℕ → CoherenceProbe → Cache → Cache
insert_or_assign key probe [] = (key, probe) ∷ []
insert_or_assign key probe ((k, p) ∷ entries) =
    if same_key k key then (k, probe) ∷ entries else (k, p) ∷ insert_or_assign key probe entries

-- Inserts only where the key is missing, and returns the entry's value.
unfoldable pub emplace : List ℕ → CoherenceProbe → Cache → CoherenceProbe × Cache
emplace key probe entries = elim (find key entries) [
  | none ↦ (probe, insert_or_assign key probe entries)
  | some p ↦ (p, entries)
]

-- seedCoherenceProbeCache
unfoldable pub seed : List ℕ → CoherenceProbe → Cache → Cache
seed cpus probe entries = insert_or_assign (cache_key cpus) probe entries

-- importCoherenceProbe
unfoldable pub import_probe : List ℕ → Cache → Bool × Cache
import_probe bytes entries = elim (deserialize bytes) [
  | none ↦ (false, entries)
  | some probe ↦ (true, seed probe.matrix.cpus probe entries)
]

-- cachedCoherenceProbe: `run` is the live probe, and `later` what the cache holds when the lock is
-- taken again after it. The flag says whether the live probe ran.
unfoldable pub cached_probe :
    (run : List ℕ → CoherenceProbe)
    → List ℕ
    → (entries later : Cache) → Bool × CoherenceProbe × Cache
cached_probe run cpus entries later = elim (find (cache_key cpus) entries) [
  | none ↦
      let (probe, entries') = emplace (cache_key cpus) (run cpus) later in (true, probe, entries')
  | some probe ↦ (false, probe, entries)
]

same_key_self : (key : List ℕ) → same_key key key ≡ true
unfolding same_key
same_key_self [] = refl
same_key_self (x ∷ xs) = rw (==_self x, same_key_self xs) refl

find-insert_or_assign :
    (key : List ℕ) (probe : CoherenceProbe) (entries : Cache)
    → find key (insert_or_assign key probe entries) ≡ some probe
unfolding find insert_or_assign
find-insert_or_assign key probe [] = rw (same_key_self key) refl
find-insert_or_assign key probe ((k, p) ∷ entries) =
    ground (arith, find-insert_or_assign key probe entries)

import_taken :
    (bytes : List ℕ) (entries : Cache) {probe : CoherenceProbe}
    → deserialize bytes ≡ some probe
    → import_probe bytes entries ≡ (true, seed probe.matrix.cpus probe entries)
unfolding import_probe
import_taken bytes entries e =
    ap
      (λ o. elim o [
        | none ↦ (false, entries)
        | some probe ↦ (true, seed probe.matrix.cpus probe entries)
      ])
      e

cached_hit :
    (run : List ℕ → CoherenceProbe) (cpus : List ℕ) (entries later : Cache) {probe : CoherenceProbe}
    → find (cache_key cpus) entries ≡ some probe
    → cached_probe run cpus entries later ≡ (false, probe, entries)
unfolding cached_probe
cached_hit run cpus entries later e =
    ap
      (λ o. elim o [
        | none ↦
            let (probe, entries') = emplace (cache_key cpus) (run cpus) later in
            (true, probe, entries')
        | some probe ↦ (false, probe, entries)
      ])
      e

find-seed :
    (cpus others : List ℕ) (probe : CoherenceProbe) (entries : Cache)
    → ((cpu : ℕ) → contains cpu cpus ≡ contains cpu others)
    → find (cache_key others) (seed cpus probe entries) ≡ some probe
unfolding seed
find-seed cpus others probe entries same =
    ap (λ k. find k (insert_or_assign (cache_key cpus) probe entries))
      (sym (cache_key_same cpus others same))
    ∙ find-insert_or_assign (cache_key cpus) probe entries

-- After an import of the blob of an encodable probe, whatever the cache held, a pool on the same CPUs,
-- in whatever order, gets that probe, and the live probe is not run.
pub cached_probe-import_probe :
    (run : List ℕ → CoherenceProbe) (probe : CoherenceProbe) (rest cpus : List ℕ)
    (entries later : Cache)
    → IsEncodable probe
    → ((cpu : ℕ) → contains cpu probe.matrix.cpus ≡ contains cpu cpus)
    → cached_probe run cpus (import_probe (serialize probe ++ rest) entries).1 later
      ≡ (false, probe, (import_probe (serialize probe ++ rest) entries).1)
cached_probe-import_probe run probe rest cpus entries later ok same =
    cached_hit run cpus (import_probe (serialize probe ++ rest) entries).1 later (
      ap (λ (c : Bool × Cache). find (cache_key cpus) c.1)
        (import_taken (serialize probe ++ rest) entries (deserialize-serialize probe rest ok))
      ∙ find-seed probe.matrix.cpus cpus probe entries same)
