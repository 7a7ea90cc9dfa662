-- ===== src/Plex/Roles.antt =====
-- What holds at each place of a plex.
use citor.Prelude.{
  ℕ, suc, ◌+◌, ◌-◌, ◌≤◌, ◌<◌, ◌≡◌, sym, ap, subst, ◌∙◌, arith, true, false, if◌then◌else◌,
}
use citor.Failure.{failed}
use citor.Plex.Defs.{
  Call, Lead, opening, in_hook, publishing, abandoning, leading, lead_stamping, last_stamping,
  joining, lead_finished, lead_stopped, Place, awaiting, seen, running, stamping, draining,
  stopping, stopped, finished, Plex,
}

module _ (c : Call) where
  -- Every worker has closed the phases up to `v`.
  abbrev pub Joined : (ℕ → ℕ) → ℕ → Type 0
  Joined done v = (j : ℕ) → 0 < j → j < c.participants → 0 < v → c.epoch_base + v ≤ done j

  -- The producer has published phase `p`, and the workers have closed those before.
  abbrev pub Led : Plex → ℕ → Type 0
  Led s p = (0 < p) × (p ≤ c.n_phases) × (s.current_phase ≡ p) × Joined s.done (p - 1)

  -- Phase `p` is the next one to publish.
  abbrev pub Next : Plex → ℕ → Type 0
  Next s p = (p ≤ c.n_phases) × (suc s.current_phase ≡ p) × Joined s.done s.current_phase

  abbrev pub Leads : Plex → Lead → Type 0
  Leads s (opening p) =
      (s.current_phase ≤ c.n_phases)
      × (suc s.current_phase ≡ p)
      × Joined s.done s.current_phase
      × (s.prepared ≡ s.current_phase)
  Leads s (in_hook p) = Next s p × (s.phase_cancelled ≡ false) × (s.prepared ≡ s.current_phase)
  Leads s (publishing p) = Next s p × (s.phase_cancelled ≡ false) × (s.prepared ≡ p)
  Leads s (abandoning p threw) = Next s p × (s.phase_cancelled ≡ true)
  Leads s (leading p) = Led s p × (s.prepared ≡ p)
  Leads s (lead_stamping p) = Led s p × (s.prepared ≡ p)
  Leads s (last_stamping p) = Led s p × (s.phase_cancelled ≡ true)
  Leads s (joining p step last) =
      Led s p
      × (if last then s.phase_cancelled ≡ true else s.prepared ≡ p)
      × (0 < step)
      × ((t : ℕ) → 0 < t → t < step → c.epoch_base + p ≤ s.done t)
  Leads s lead_finished =
      (s.current_phase ≡ c.n_phases) × Joined s.done c.n_phases × (s.prepared ≡ c.n_phases)
  Leads s lead_stopped = (s.phase_cancelled ≡ true) × Joined s.done s.current_phase

  -- A worker has closed the phases before `p`.
  abbrev pub Before : ℕ → ℕ → Type 0
  Before d p = (0 < p) × (d ≤ c.epoch_base + (p - 1)) × (1 < p → c.epoch_base + (p - 1) ≤ d)

  abbrev pub Works : Plex → ℕ → Place → Type 0
  Works s i (awaiting p) = Before (s.done i) p × (p ≤ suc c.n_phases) × (p ≤ suc s.current_phase)
  Works s i (seen p) =
      Before (s.done i) p
      × (p ≤ c.n_phases)
      × (p ≤ s.current_phase)
      × (s.phase_cancelled ≡ false → p ≤ s.prepared)
  Works s i (running p) =
      Before (s.done i) p × (p ≤ c.n_phases) × (p ≤ s.current_phase) × (p ≤ s.prepared)
  Works s i (stamping p) = Before (s.done i) p × (p ≤ c.n_phases) × (p ≤ s.current_phase)
  Works s i (draining p) = Before (s.done i) p × (p ≤ c.n_phases) × (s.phase_cancelled ≡ true)
  Works s i stopping = (s.done i ≤ c.epoch_base + c.n_phases) × (s.phase_cancelled ≡ true)
  Works s i stopped = (c.epoch_base + c.n_phases ≤ s.done i) × (s.phase_cancelled ≡ true)
  Works s i finished = Before (s.done i) (suc c.n_phases)

  pub record Roles (s : Plex) : Type 0 where
    pub leads : Leads s s.producer
    pub works : (i : ℕ) → 0 < i → i < c.participants → Works s i (s.worker i)
    pub excepted : s.phase_cancelled ≡ false → failed s.first_exception ≡ false

  -- What steps never take back.
  pub record Later (s s' : Plex) : Type 0 where
    pub cancelled_on : s.phase_cancelled ≡ true → s'.phase_cancelled ≡ true
    pub cancelled_off : s'.phase_cancelled ≡ false → s.phase_cancelled ≡ false
    pub published_on : s.current_phase ≤ s'.current_phase
    pub prepared_on : s.prepared ≤ s'.prepared

  pub later-Works :
      (s s' : Plex) (j : ℕ) (p : Place)
      → Later s s'
      → s'.done j ≡ s.done j
      → Works s j p
      → Works s' j p
  later-Works s s' j (awaiting p) l d (b, n, m) =
      (rw d b, n, let h = l.published_on in omega (arith, h, m))
  later-Works s s' j (seen p) l d (b, n, m, q) = (
    rw d b,
    n,
    let h = l.published_on in omega (arith, h, m),
    λ o. let h = l.prepared_on in let k = q (l.cancelled_off o) in omega (arith, h, k),
  )
  later-Works s s' j (running p) l d (b, n, m, q) = (
    rw d b,
    n,
    let h = l.published_on in omega (arith, h, m),
    let h = l.prepared_on in omega (arith, h, q),
  )
  later-Works s s' j (stamping p) l d (b, n, m) =
      (rw d b, n, let h = l.published_on in omega (arith, h, m))
  later-Works s s' j (draining p) l d (b, n, x) = (rw d b, n, l.cancelled_on x)
  later-Works s s' j stopping l d (b, x) = (rw d b, l.cancelled_on x)
  later-Works s s' j stopped l d (b, x) = (rw d b, l.cancelled_on x)
  later-Works s s' j finished l d b = rw d b

  later-Joined : (d d' : ℕ → ℕ) (v : ℕ) → ((j : ℕ) → d j ≤ d' j) → Joined d v → Joined d' v
  later-Joined d d' v up h j o l z = let a = h j o l z in let b = up j in omega (arith, a, b)

  module _ (s s' : Plex) (up : (j : ℕ) → s.done j ≤ s'.done j)
      (published_same : s'.current_phase ≡ s.current_phase)
      (prepared_same : s'.prepared ≡ s.prepared)
      (cancelled_on : s.phase_cancelled ≡ true → s'.phase_cancelled ≡ true)
      (between : (p : ℕ) → Next s p → s'.phase_cancelled ≡ s.phase_cancelled) where
    later-Led : (p : ℕ) → Led s p → Led s' p
    later-Led p (z, n, e, j) = (z, n, published_same ∙ e, later-Joined s.done s'.done (p - 1) up j)

    later-Next : (p : ℕ) → Next s p → Next s' p
    later-Next p (n, e, j) = (
      n,
      ap suc published_same ∙ e,
      rw published_same (later-Joined s.done s'.done s.current_phase up j),
    )

    -- A step of a worker leaves the producer's part alone. Between two phases it does not cancel the plex.
    pub later-Leads : (l : Lead) → Leads s l → Leads s' l
    later-Leads (opening p) (n, e, j, q) = (
      rw published_same n,
      ap suc published_same ∙ e,
      rw published_same (later-Joined s.done s'.done s.current_phase up j),
      prepared_same ∙ q ∙ sym published_same,
    )
    later-Leads (in_hook p) (n, x, q) =
        (later-Next p n, between p n ∙ x, prepared_same ∙ q ∙ sym published_same)
    later-Leads (publishing p) (n, x, q) = (later-Next p n, between p n ∙ x, prepared_same ∙ q)
    later-Leads (abandoning p threw) (n, x) = (later-Next p n, cancelled_on x)
    later-Leads (leading p) (n, q) = (later-Led p n, prepared_same ∙ q)
    later-Leads (lead_stamping p) (n, q) = (later-Led p n, prepared_same ∙ q)
    later-Leads (last_stamping p) (n, x) = (later-Led p n, cancelled_on x)
    later-Leads (joining p step true) (n, x, z, m) = (
      later-Led p n,
      cancelled_on x,
      z,
      λ t o l. let a = m t o l in let b = up t in omega (arith, a, b),
    )
    later-Leads (joining p step false) (n, q, z, m) = (
      later-Led p n,
      prepared_same ∙ q,
      z,
      λ t o l. let a = m t o l in let b = up t in omega (arith, a, b),
    )
    later-Leads lead_finished (e, j, q) =
        (published_same ∙ e, later-Joined s.done s'.done c.n_phases up j, prepared_same ∙ q)
    later-Leads lead_stopped (x, j) =
        (cancelled_on x, rw published_same (later-Joined s.done s'.done s.current_phase up j))

  -- Unless the plex is cancelled, the hook of the published phase has returned.
  pub hooked :
      (s : Plex) (l : Lead) → Leads s l → s.phase_cancelled ≡ false → s.current_phase ≤ s.prepared
  hooked s (opening p) (n, e, j, q) o = omega (arith, q)
  hooked s (in_hook p) (n, x, q) o = omega (arith, q)
  hooked s (publishing p) ((n, e, j), x, q) o = omega (arith, e, q)
  hooked s (abandoning p threw) (n, x) o = absurd (cc (x, o))
  hooked s (leading p) ((z, n, e, j), q) o = omega (arith, e, q)
  hooked s (lead_stamping p) ((z, n, e, j), q) o = omega (arith, e, q)
  hooked s (last_stamping p) (n, x) o = absurd (cc (x, o))
  hooked s (joining p step true) (n, x, z, m) o = absurd (cc (x, o))
  hooked s (joining p step false) ((z, n, e, j), q, f, m) o = omega (arith, e, q)
  hooked s lead_finished (e, j, q) o = omega (arith, e, q)
  hooked s lead_stopped (x, j) o = absurd (cc (x, o))

  -- A worker that has not closed the published phase is not met between two phases.
  pub late_worker :
      (s : Plex) (i p q : ℕ)
      → 0 < i
      → i < c.participants
      → Before (s.done i) q
      → q ≤ s.current_phase
      → ¬ Next s p
  late_worker s i p q z l (f, u, d) m (n, e, j) =
      let h = j i z l (omega (arith, f, m)) in omega (arith, f, h, u, m)

  pub at_own :
      (s : Plex) (i : ℕ) {p : Place}
      → Roles s
      → 0 < i
      → i < c.participants
      → s.worker i ≡ p
      → Works s i p
  at_own s i r z l e = subst (Works s i) e (r.works i z l)

  pub at_lead : (s : Plex) {l : Lead} → Roles s → s.producer ≡ l → Leads s l
  at_lead s r e = subst (Leads s) e r.leads
