-- ===== src/Probe/Bytes.antt =====
-- Bytes of a blob in include/citor/detail/coherence_probe.h: `coherenceProbeWritePod` and
-- `CoherenceProbeReader::readPod`, with the low byte first. A scalar of w bytes is a number below
-- 256 ^ w, a `double` the number that its bits spell.
use native.Mathlib.Nat.{pow-suc}
use citor.Prelude.{
  ℕ, zero, suc, ◌+◌, ◌*◌, ◌/◌, ◌%◌, ◌^◌, ◌<◌, ◌≡◌, refl, sym, ap, ap₂, ◌∙◌, arith, Bool, true,
  false, Option, none, some, List, [], ◌∷◌, ◌++◌, length, length-append, ltb, if◌then◌else◌, le→ltb,
}

unfoldable pub write_pod : (size value : ℕ) → List ℕ
write_pod zero value = []
write_pod (suc size) value = (value % 256) ∷ write_pod size (value / 256)

-- memcpy of `size` bytes into a scalar
unfoldable pub copy_pod : (size : ℕ) → List ℕ → ℕ
copy_pod zero bytes = 0
copy_pod (suc size) [] = 0
copy_pod (suc size) (b ∷ bytes) = b + 256 * copy_pod size bytes

-- cur += size
unfoldable pub advance : (size : ℕ) → List ℕ → List ℕ
advance zero bytes = bytes
advance (suc size) [] = []
advance (suc size) (b ∷ bytes) = advance size bytes

-- A read of the bytes from `cur` to `end`: the value and the bytes left, or nothing once `ok` is
-- false, which every caller answers by returning false.
abbrev pub Read {ℓ} : Type ℓ → Type ℓ
Read A = List ℕ → Option (A × List ℕ)

infixl 5 ◌>>=◌ ◌>>◌
abbrev pub ◌>>=◌ {ℓ κ} : {A : Type ℓ} {B : Type κ} → Read A → (A → Read B) → Read B
◌>>=◌ m f bytes = elim (m bytes) [ none ↦ none | some (a, rest) ↦ f a rest ]

abbrev pub ◌>>◌ {ℓ} : {B : Type ℓ} → Read (Unit {0}) → Read B → Read B
m >> k = m >>= λ _. k

abbrev pub pure {ℓ} : {A : Type ℓ} → A → Read A
pure a bytes = some (a, bytes)

abbrev pub guard : Bool → Read (Unit {0})
guard true bytes = some (tt, bytes)
guard false bytes = none

-- Fail unless `count` elements of at least `size` bytes each may be left.
unfoldable pub fits : (count size : ℕ) → Read (Unit {0})
fits count size bytes = if ltb (length bytes / size) count then none else some (tt, bytes)

unfoldable pub read_pod : (size : ℕ) → Read ℕ
read_pod size bytes =
    if ltb (length bytes) size then none else some (copy_pod size bytes, advance size bytes)

pub length-write_pod : (size value : ℕ) → length (write_pod size value) ≡ size
unfolding write_pod
length-write_pod zero value = refl
length-write_pod (suc size) value = ap suc (length-write_pod size (value / 256))

copy_pod-write_pod :
    (size value : ℕ) (rest : List ℕ)
    → value < 256 ^ size
    → copy_pod size (write_pod size value ++ rest) ≡ value
unfolding write_pod copy_pod
copy_pod-write_pod zero value rest h = omega arith
copy_pod-write_pod (suc size) value rest h =
    omega (arith, copy_pod-write_pod size (value / 256) rest (omega (arith, pow-suc 256 size)))

advance-append : (bytes rest : List ℕ) → advance (length bytes) (bytes ++ rest) ≡ rest
unfolding advance
advance-append [] rest = refl
advance-append (b ∷ bytes) rest = advance-append bytes rest

advance-write_pod :
    (size value : ℕ) (rest : List ℕ) → advance size (write_pod size value ++ rest) ≡ rest
advance-write_pod size value rest =
    ap (λ n. advance n (write_pod size value ++ rest)) (sym (length-write_pod size value))
    ∙ advance-append (write_pod size value) rest

-- A scalar that was written is read back, with what follows it left.
pub read_pod-write_pod :
    (size value : ℕ) (rest : List ℕ)
    → value < 256 ^ size
    → read_pod size (write_pod size value ++ rest) ≡ some (value, rest)
unfolding read_pod
read_pod-write_pod size value rest h =
    rw
      (le→ltb (length (write_pod size value ++ rest)) size
        (omega (arith, length-append (write_pod size value) rest, length-write_pod size value)))
      (ap₂ (λ a b. some (a, b)) (copy_pod-write_pod size value rest h)
        (advance-write_pod size value rest))

-- A read that begins with one whose result is known.
pub then_read {ℓ κ} :
    {A : Type ℓ} {B : Type κ} (m : Read A) (f : A → Read B) {bytes rest : List ℕ} {a : A}
    {r : Option (B × List ℕ)}
    → m bytes ≡ some (a, rest)
    → f a rest ≡ r
    → (m >>= f) bytes ≡ r
then_read m f e h = ap (λ o. elim o [ none ↦ none | some (a, rest) ↦ f a rest ]) e ∙ h
