-- ===== src/Scan/TwoPass/Values.antt =====
-- The values that the slots pass on: Pass 2 runs only from prefixes.
use citor.Prelude.{
  ℕ, ◌+◌, ◌≤◌, ◌<◌, ◌≡◌, ◌≢◌, subst, Bool, true, false, ◌==◌, some, put, Bool-cases, ==_iff, ==_ne,
  inl, inr, ◌⊎◌,
}
use citor.Failure.{failed}
use citor.Scan.TwoPass.Defs.{
  returned, Call, Place, pass_one, failing, releasing, abandoned, joining, publishing, waiting,
  choosing, second, stamping, finished, Scan,
}
use citor.Scan.TwoPass.Reduce.{exclusive}

-- Slot 0 has not reduced yet.
unfoldable pub before : Place → Bool
before pass_one = true
before (joining k) = true
before failing = false
before releasing = false
before (abandoned k) = false
before publishing = false
before waiting = false
before choosing = false
before second = false
before stamping = false
before finished = false

unfoldable pub passed : Place → Bool
passed pass_one = false
passed (joining k) = true
passed failing = true
passed releasing = true
passed (abandoned k) = true
passed publishing = true
passed waiting = true
passed choosing = true
passed second = true
passed stamping = true
passed finished = true

-- The place of slot 0 after a step: that of the slot that moved, or the old one.
pub at_producer {ℓ'} :
    (P : Place → Type ℓ') (f : ℕ → Place) (i : ℕ) (q : Place)
    → (i ≡ 0 → P q)
    → (i ≢ 0 → P (f 0))
    → P (put f i q 0)
at_producer P f i q h k = elim (Bool-cases (i == 0)) [
  | inl e ↦ rw e (h ((==_iff i 0).0 e))
  | inr e ↦ rw e (k (==_ne i 0 e))
]

-- What the new place at slot 0 was before, given what it is.
pub from_producer {ℓ' ℓ''} :
    (P : Place → Type ℓ') (X : Type ℓ'') (f : ℕ → Place) (i : ℕ) (q : Place)
    → (i ≡ 0 → P q → X)
    → (i ≢ 0 → P (f 0) → X)
    → P (put f i q 0)
    → X
from_producer P X f i q h k = at_producer (λ p. P p → X) f i q h k

pub zeroth {ℓ} :
    {A : Type ℓ} (s : Scan A) (i : ℕ) {p : Place} → s.place i ≡ p → i ≡ 0 → s.place 0 ≡ p
zeroth s i {p} e z = subst (λ k. s.place k ≡ p) z e

module _ {ℓ} {A : Type ℓ} (c : Call A) where
  -- `partials` holds the prefixes, and no slot writes it any more.
  pub record Seeded (s : Scan A) : Type ℓ where
    pub over : before (s.place 0) ≡ false
    pub all : (k : ℕ) → k < c.participants → passed (s.place k) ≡ true
    pub prefixes : (k : ℕ) → k < c.participants → exclusive c k ≡ returned (s.partials k)
    pub whole : exclusive c c.participants ≡ returned s.acc

  abbrev pub Good : Scan A → Type ℓ
  Good s = (failed s.first_exception ≡ true) ⊎ Seeded s

  pub record Valued (s : Scan A) : Type ℓ where
    pub wrote :
        before (s.place 0) ≡ true
        → (k : ℕ) → c.epoch_base + 1 ≤ s.done k
        → (failed s.first_exception ≡ true) ⊎ (c.body k c.identity ≡ returned (s.partials k))
    pub alarm : failed s.first_exception ≡ true → s.cancelled ≡ true
    pub good : before (s.place 0) ≡ false → Good s
    pub over : s.published ≡ true → before (s.place 0) ≡ false
    pub running : (i : ℕ) → s.place i ≡ second → Seeded s
    pub seeded : (i : ℕ) (x : A) → s.seeds i ≡ some x → exclusive c i ≡ returned x
    pub result :
        s.place 0 ≡ finished → (failed s.first_exception ≡ true) ⊎ (s.inclusive_total ≡ s.acc)
