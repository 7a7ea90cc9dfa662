-- ===== src/Plex/Phases.antt =====
-- The phases of a plex, one after the other.
use citor.Prelude.{
  ◌==◌, ◌⊎◌, inl, inr, Bool-cases, ==_iff, ==_ne, ℕ, zero, suc, ◌+◌, ◌-◌, ◌≤◌, ◌<◌, ◌≡◌, arith, ◌≢◌,
  false, refl, sym, subst, ◌∙◌, Option, none, some,
}
use citor.Failure.{failed}
use citor.Plex.Defs.{
  Call, Lead, opening, in_hook, publishing, abandoning, leading, lead_stamping, last_stamping,
  joining, lead_finished, lead_stopped, Place, awaiting, seen, running, stamping, draining,
  stopping, stopped, finished, Plex, Reach,
}
use citor.Plex.Roles.{Joined, Led, Leads, Before, at_own, at_lead, late_worker}
use citor.Plex.Steps.{Reach-Roles}

module _ (c : Call) (s : Plex) (i p : ℕ) (z : 0 < i) (l : i < c.participants) where
  -- A worker late at phase `p` is at the published phase.
  late_at : (q : ℕ) → Before c (s.done i) p → p ≤ q → Joined c s.done (q - 1) → q ≡ p
  late_at q (f, u, d) m j =
      let h : (0 < q - 1) → c.epoch_base + (q - 1) ≤ s.done i = j i z l in ground arith

  not_closed : Before c (s.done i) p → p ≤ s.current_phase → Joined c s.done s.current_phase → ⊥
  not_closed (f, u, d) m j = let h = j i z l (omega (arith, f, m)) in omega (arith, f, h, u, m)

  at_published :
      (q : ℕ)
      → Led c s q
      → Before c (s.done i) p
      → p ≤ s.current_phase
      → (s.current_phase ≡ p) × Joined c s.done (p - 1)
  at_published q (f, n, e, j) b m =
      let h = late_at q b (omega (arith, e, m)) j in
      (e ∙ h, subst (λ v. Joined c s.done (v - 1)) h j)

  published :
      (k : Lead)
      → Leads c s k
      → Before c (s.done i) p
      → p ≤ s.current_phase
      → (s.current_phase ≡ p) × Joined c s.done (p - 1)
  published (opening q) (n, e, j, h) b m = absurd (not_closed b m j)
  published (in_hook q) ((n, e, j), h, x) b m = absurd (not_closed b m j)
  published (publishing q) ((n, e, j), h, x) b m = absurd (not_closed b m j)
  published (abandoning q threw) ((n, e, j), h) b m = absurd (not_closed b m j)
  published (leading q) (n, h) b m = at_published q n b m
  published (lead_stamping q) (n, h) b m = at_published q n b m
  published (last_stamping q) (n, h) b m = at_published q n b m
  published (joining q step last) (n, h, x, y) b m = at_published q n b m
  published lead_finished (e, j, h) b m =
      absurd (not_closed b m (subst (Joined c s.done) (sym e) j))
  published lead_stopped (x, j) b m = absurd (not_closed b m j)

-- The phase whose body the producer runs, and a worker.
unfoldable pub lead_body : Lead → Option ℕ
lead_body (opening p) = none
lead_body (in_hook p) = none
lead_body (publishing p) = none
lead_body (abandoning p threw) = none
lead_body (leading p) = some p
lead_body (lead_stamping p) = none
lead_body (last_stamping p) = none
lead_body (joining p step last) = none
lead_body lead_finished = none
lead_body lead_stopped = none

unfoldable pub work_body : Place → Option ℕ
work_body (awaiting p) = none
work_body (seen p) = none
work_body (running p) = some p
work_body (stamping p) = none
work_body (draining p) = none
work_body stopping = none
work_body stopped = none
work_body finished = none

-- The phase whose body a slot runs.
unfoldable pub body_of : Plex → (slot : ℕ) → Option ℕ
body_of s zero = lead_body s.producer
body_of s (suc i) = work_body (s.worker (suc i))

lead_at : (l : Lead) (p : ℕ) → lead_body l ≡ some p → l ≡ leading p
unfolding lead_body
lead_at (leading q) p e = cc e
lead_at l p e = absurd (cc e)

work_at : (w : Place) (p : ℕ) → work_body w ≡ some p → w ≡ running p
unfolding work_body
work_at (running q) p e = cc e
work_at w p e = absurd (cc e)

no_body : (o : Option ℕ) → ((p : ℕ) → o ≢ some p) → o ≡ none
no_body none h = refl
no_body (some p) h = absurd (h p refl)

first_or {ℓ} : {A : Type ℓ} (p : ℕ) → 0 < p → (1 < p → A) → (p ≡ 1) ⊎ A
first_or p z h = elim (Bool-cases (p == 1)) [
  | inl e ↦ inl ((==_iff p 1).0 e)
  | inr e ↦ let d = ==_ne p 1 e in inr (h (ground (arith, z, d)))
]

-- In every state that any interleaving of the slots reaches, also after throws and stops, a body that a
-- slot runs is of the published phase, whose hook has returned, and every worker has closed the phases
-- before it: bodies of different phases never run at the same time.
pub plex_phase :
    (c : Call) {n : ℕ} {s : Plex} (i p j : ℕ)
    → Reach c n s
    → i < c.participants
    → body_of s i ≡ some p
    → 0 < j
    → j < c.participants
    → (s.current_phase ≡ p) × (p ≤ s.prepared) × ((p ≡ 1) ⊎ (c.epoch_base + (p - 1) ≤ s.done j))
unfolding body_of
plex_phase c {s = s} zero p j r l e z m =
    let roles = Reach-Roles c r in
    let ((f, n, q, d), h) = at_lead c s roles (lead_at s.producer p e) in
    (q, omega (arith, h), first_or p f (λ o. d j z m (omega (arith, o))))
plex_phase c {s = s} (suc i) p j r l e z m =
    let roles = Reach-Roles c r in
    let (b, n, a, h) = at_own c s (suc i) roles (omega arith) l (work_at (s.worker (suc i)) p e) in
    let (q, d) = published c s (suc i) p (omega arith) l s.producer roles.leads b a in
    (q, h, first_or p b.0 (λ o. d j z m (omega (arith, o))))

-- In every state that any interleaving of the slots reaches, while the hook of a phase runs, nothing has
-- been thrown and the plex is not cancelled, no slot runs a body, and every worker has closed
-- the phases before.
pub plex_hook :
    (c : Call) {n : ℕ} {s : Plex} (p i j : ℕ)
    → Reach c n s
    → s.producer ≡ in_hook p
    → i < c.participants
    → 0 < j
    → j < c.participants
    → (s.phase_cancelled ≡ false)
      × (failed s.first_exception ≡ false)
      × (body_of s i ≡ none)
      × ((p ≡ 1) ⊎ (c.epoch_base + (p - 1) ≤ s.done j))
unfolding body_of
plex_hook c {s = s} p i j r e own z m =
    let roles = Reach-Roles c r in
    let ((n, q, d), x, h) = at_lead c s roles e in
    (
      x,
      roles.excepted x,
      no_body (body_of s i) (idle i own),
      first_or p (omega (arith, q))
          (λ o. let a = d j z m (omega (arith, o, q)) in omega (arith, a, q)),
    )
  where
    idle : (i : ℕ) → i < c.participants → (q : ℕ) → body_of s i ≢ some q
    idle zero l q o = let f = lead_at s.producer q o in cc (sym e ∙ f)
    idle (suc i) l q o =
        let roles = Reach-Roles c r in
        let (b, n, m, h) =
          at_own c s (suc i) roles (omega arith) l (work_at (s.worker (suc i)) q o) in
        late_worker c s (suc i) p q (omega arith) l b m (at_lead c s roles e).0
