-- ===== src/Scan/TwoPass/Progress.antt =====
-- The waits of the two passes: none lasts for ever.
use citor.Prelude.{
  ℕ, ◌+◌, ◌≤◌, ◌<◌, ◌≡◌, ◌≢◌, refl, ap, arith, Bool, true, false, Bool-cases, inl, inr, leb, leb→le,
  leb→lt,
}
use citor.Failure.{failed}
use citor.Scan.TwoPass.Defs.{
  Ended, Call, Place, pass_one, failing, releasing, abandoned, joining, publishing, waiting,
  choosing, second, stamping, finished, Scan, Step, one_done, one_threw, stamp_failed, release,
  abandon_next, abandon_over, join_next, skip_reduce, reduce_done, reduce_threw, publish,
  see_published, go_two, skip_two, two_done, stamp, Reach, reduce_from,
}
use citor.Scan.TwoPass.Reduce.{Ended-cases}
use citor.Scan.TwoPass.Roles.{Fits, Reach-Roles, Roles, at_own}

module _ {ℓ} {A : Type ℓ} (c : Call A) (s : Scan A) where
  abbrev pub Moves : Type ℓ
  Moves = (i : ℕ) × (s' : Scan A) × (i < c.participants) × Step c s i s'

  -- A slot in a place without a wait.
  unfoldable free : Place → Bool
  free (abandoned k) = false
  free (joining k) = false
  free waiting = false
  free finished = false
  free pass_one = true
  free failing = true
  free releasing = true
  free publishing = true
  free choosing = true
  free second = true
  free stamping = true

  free_moves : (i : ℕ) (p : Place) → i < c.participants → s.place i ≡ p → free p ≡ true → Moves
  unfolding free
  free_moves i pass_one l e h = elim (Ended-cases (c.body i c.identity)) [
    | inl (t, b) ↦ (i, _, l, one_done e b)
    | inr (x, b) ↦ (i, _, l, one_threw e b)
  ]
  free_moves i failing l e h = (i, _, l, stamp_failed e)
  free_moves i releasing l e h = (i, _, l, release e)
  free_moves i publishing l e h = (i, _, l, publish e)
  free_moves i choosing l e h = elim (Bool-cases s.cancelled) [
    | inl x ↦ (i, _, l, skip_two false e (rw x refl))
    | inr x ↦ (i, _, l, go_two e x)
  ]
  free_moves i second l e h = (i, _, l, two_done e)
  free_moves i stamping l e h = (i, _, l, stamp e)
  free_moves i (abandoned k) l e h = cc
  free_moves i (joining k) l e h = cc
  free_moves i waiting l e h = cc
  free_moves i finished l e h = cc

  -- The end of the join, whether a slot has thrown or `prefix` throws.
  join_ends : (i k : ℕ) → i < c.participants → s.place i ≡ joining k → c.participants ≤ k → Moves
  join_ends i k l e m = elim (Bool-cases (failed s.first_exception)) [
    | inl f ↦ (i, _, l, skip_reduce e m f)
    | inr f ↦ elim (Ended-cases run.1) [
      | inl (t, r) ↦ (i, _, l, reduce_done e m f (ap (λ o. (run.0, o)) r))
      | inr (x, r) ↦ (i, _, l, reduce_threw s.acc e m f (ap (λ o. (run.0, o)) r))
    ]
  ]
    where
      run : (ℕ → A) × Ended A
      run = reduce_from c c.participants 0 c.identity s.partials

  -- A slot whose Pass 1 is awaited.
  late_moves :
      (k : ℕ) (p : Place)
      → k < c.participants
      → 0 < k
      → s.place k ≡ p
      → Fits c s k p
      → s.done k < c.epoch_base + 1
      → Moves
  unfolding free
  late_moves k pass_one l n e f d = free_moves k pass_one l e refl
  late_moves k failing l n e f d = free_moves k failing l e refl
  late_moves k releasing l n e f d = free_moves k releasing l e refl
  late_moves k publishing l n e f d = free_moves k publishing l e refl
  late_moves k choosing l n e f d = free_moves k choosing l e refl
  late_moves k second l n e f d = free_moves k second l e refl
  late_moves k stamping l n e f d = free_moves k stamping l e refl
  late_moves k (abandoned m) l n e f d = absurd (omega (arith, f.0, n))
  late_moves k (joining m) l n e f d = absurd (omega (arith, f.0, n))
  late_moves k waiting l n e (z, f) d = absurd (omega (arith, f, d))
  late_moves k finished l n e (f, b) d = absurd (omega (arith, f, d))

  -- A slot whose end is awaited, when the prefixes are published.
  later_moves :
      (k : ℕ) (p : Place)
      → k < c.participants
      → 0 < k
      → s.place k ≡ p
      → Fits c s k p
      → s.published ≡ true
      → s.done k < c.epoch_base + 2
      → Moves
  unfolding free
  later_moves k pass_one l n e f b d = free_moves k pass_one l e refl
  later_moves k failing l n e f b d = free_moves k failing l e refl
  later_moves k releasing l n e f b d = free_moves k releasing l e refl
  later_moves k publishing l n e f b d = free_moves k publishing l e refl
  later_moves k choosing l n e f b d = free_moves k choosing l e refl
  later_moves k second l n e f b d = free_moves k second l e refl
  later_moves k stamping l n e f b d = free_moves k stamping l e refl
  later_moves k (abandoned m) l n e f b d = absurd (omega (arith, f.0, n))
  later_moves k (joining m) l n e f b d = absurd (omega (arith, f.0, n))
  later_moves k waiting l n e f b d = (k, _, l, see_published e b)
  later_moves k finished l n e (f, z) b d = absurd (omega (arith, f, d))

  join_moves : (r : Roles c s) (i k : ℕ) → i < c.participants → s.place i ≡ joining k → Moves
  join_moves r i k l e = elim (Bool-cases (leb c.participants k)) [
    | inl m ↦ join_ends i k l e (leb→le c.participants k m)
    | inr m ↦ elim (Bool-cases (leb (c.epoch_base + 1) (s.done k))) [
      | inl d ↦ (
        i,
        _,
        l,
        join_next e (leb→lt c.participants k m) (leb→le (c.epoch_base + 1) (s.done k) d),
      )
      | inr d ↦
          late_moves k (s.place k) (leb→lt c.participants k m) (at_own c s i r e).2 refl (r.fits k)
            (leb→lt (c.epoch_base + 1) (s.done k) d)
    ]
  ]

  abandon_moves : (r : Roles c s) (i k : ℕ) → i < c.participants → s.place i ≡ abandoned k → Moves
  abandon_moves r i k l e = elim (Bool-cases (leb c.participants k)) [
    | inl m ↦ (i, _, l, abandon_over e (leb→le c.participants k m))
    | inr m ↦ elim (Bool-cases (leb (c.epoch_base + 2) (s.done k))) [
      | inl d ↦ (
        i,
        _,
        l,
        abandon_next e (leb→lt c.participants k m) (leb→le (c.epoch_base + 2) (s.done k) d),
      )
      | inr d ↦
          later_moves k (s.place k) (leb→lt c.participants k m) (at_own c s i r e).4 refl (r.fits k)
            (at_own c s i r e).3 (leb→lt (c.epoch_base + 2) (s.done k) d)
    ]
  ]

  -- Slot 0, while the prefixes are not published.
  producer_moves :
      (r : Roles c s) (p : Place) → 0 < c.participants → s.place 0 ≡ p → s.published ≡ false → Moves
  unfolding free
  producer_moves r pass_one l e b = free_moves 0 pass_one l e refl
  producer_moves r failing l e b = free_moves 0 failing l e refl
  producer_moves r releasing l e b = free_moves 0 releasing l e refl
  producer_moves r publishing l e b = free_moves 0 publishing l e refl
  producer_moves r choosing l e b = free_moves 0 choosing l e refl
  producer_moves r second l e b = free_moves 0 second l e refl
  producer_moves r stamping l e b = free_moves 0 stamping l e refl
  producer_moves r (abandoned m) l e b = abandon_moves r 0 m l e
  producer_moves r (joining m) l e b = join_moves r 0 m l e
  producer_moves r waiting l e b = absurd ((at_own c s 0 r e).0 refl)
  producer_moves r finished l e b = cc ((at_own c s 0 r e).1 refl, b)

  slot_moves :
      (r : Roles c s) (i : ℕ) (p : Place)
      → i < c.participants
      → s.place i ≡ p
      → p ≢ finished
      → Moves
  unfolding free
  slot_moves r i pass_one l e n = free_moves i pass_one l e refl
  slot_moves r i failing l e n = free_moves i failing l e refl
  slot_moves r i releasing l e n = free_moves i releasing l e refl
  slot_moves r i publishing l e n = free_moves i publishing l e refl
  slot_moves r i choosing l e n = free_moves i choosing l e refl
  slot_moves r i second l e n = free_moves i second l e refl
  slot_moves r i stamping l e n = free_moves i stamping l e refl
  slot_moves r i (abandoned m) l e n = abandon_moves r i m l e
  slot_moves r i (joining m) l e n = join_moves r i m l e
  slot_moves r i waiting l e n = elim (Bool-cases s.published) [
    | inl b ↦ (i, _, l, see_published e b)
    | inr b ↦ producer_moves r (s.place 0) (omega (arith, l)) refl b
  ]
  slot_moves r i finished l e n = absurd (n refl)

-- In every state that any interleaving of the slots reaches, also after throws of the body or of
-- `prefix` and after a stop of the token, if some slot is not done then some slot has a step: the
-- waits of the two passes never block each other.
pub scan_progress {ℓ} :
    {A : Type ℓ} (c : Call A) {n : ℕ} {s : Scan A} (i : ℕ)
    → Reach c n s
    → i < c.participants
    → s.place i ≢ finished
    → Moves c s
scan_progress c {s = s} i r l e = slot_moves c s (Reach-Roles c r) i (s.place i) l refl e
