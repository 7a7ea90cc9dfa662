-- ===== src/Plex/Moves.antt =====
-- What a step of a plex leaves as it was.
use citor.Prelude.{
  ℕ, ◌≤◌, ◌<◌, ◌≡◌, refl, sym, ap, subst, ◌∙◌, arith, true, false, ◌==◌, put, Bool-cases, ==_iff,
  inl, inr,
}
use citor.Failure.{failed}
use citor.Plex.Defs.{Call, Lead, Place, Plex, lead_to, go}
use citor.Plex.Roles.{Leads, Works, Roles, Later, later-Works, later-Leads}

module _ (c : Call) where
  -- After a step of the producer, it is enough to look at its new place.
  pub lead_moves :
      (s s' : Plex) (l : Lead)
      → Roles c s
      → Later c s s'
      → s'.worker ≡ s.worker
      → ((j : ℕ) → 0 < j → s'.done j ≡ s.done j)
      → (s'.phase_cancelled ≡ false → s'.first_exception ≡ s.first_exception)
      → s'.producer ≡ l
      → Leads c s' l
      → Roles c s'
  lead_moves s s' l r up w d x e new = record {
    leads = subst (Leads c s') (sym e) new;
    works = λ i z m.
        subst (Works c s' i) (ap (λ f. f i) (sym w))
          (later-Works c s s' i (s.worker i) up (d i z) (r.works i z m));
    excepted = λ o. ap failed (x o) ∙ r.excepted (up.cancelled_off o);
  }

  -- After a step of the worker of slot `i` that calls off nothing.
  pub work_moves :
      (s s' : Plex) (i : ℕ) (q : Place)
      → Roles c s
      → Later c s s'
      → ((j : ℕ) → s'.worker j ≡ put s.worker i q j)
      → ((j : ℕ) → (i == j) ≡ false → s'.done j ≡ s.done j)
      → (s'.phase_cancelled ≡ false → s'.first_exception ≡ s.first_exception)
      → Leads c s' s'.producer
      → Works c s' i q
      → Roles c s'
  work_moves s s' i q r up w d x l new = record {
    leads = l;
    works = λ j z m. subst (Works c s' j) (sym (w j)) (moved j z m);
    excepted = λ o. ap failed (x o) ∙ r.excepted (up.cancelled_off o);
  }
    where
      moved : (j : ℕ) → 0 < j → j < c.participants → Works c s' j (put s.worker i q j)
      moved j z m = elim (Bool-cases (i == j)) [
        | inl e ↦ rw e (subst (λ k. Works c s' k q) ((==_iff i j).0 e) new)
        | inr e ↦ rw e (later-Works c s s' j (s.worker j) up (d j e) (r.works j z m))
      ]

  pub growing_later :
      (s s' : Plex)
      → s'.phase_cancelled ≡ s.phase_cancelled
      → s.current_phase ≤ s'.current_phase
      → s.prepared ≤ s'.prepared
      → Later c s s'
  growing_later s s' x p q = record {
    cancelled_on = λ h. x ∙ h;
    cancelled_off = λ h. sym x ∙ h;
    published_on = p;
    prepared_on = q;
  }

  pub failing_later :
      (s s' : Plex)
      → s'.phase_cancelled ≡ true
      → s.current_phase ≤ s'.current_phase
      → s'.prepared ≡ s.prepared
      → Later c s s'
  failing_later s s' x p q = record {
    cancelled_on = λ h. x;
    cancelled_off = λ h. absurd (cc (x, h));
    published_on = p;
    prepared_on = rw q (omega arith);
  }

  -- A step of the producer that moves it only.
  pub lead_calm :
      (s : Plex) (l : Lead) → Roles c s → Leads c (lead_to s l) l → Roles c (lead_to s l)
  lead_calm s l r new =
      lead_moves s (lead_to s l) l r
        (growing_later s (lead_to s l) refl (omega arith) (omega arith)) refl (λ j z. refl)
        (λ o. refl) refl new

  pub work_calm :
      (s : Plex) (i : ℕ) (q : Place) → Roles c s → Works c (go s i q) i q → Roles c (go s i q)
  work_calm s i q r new =
      work_moves s (go s i q) i q r (growing_later s (go s i q) refl (omega arith) (omega arith))
        (λ j. refl) (λ j o. refl) (λ o. refl)
        (later-Leads c s (go s i q) (λ j. omega arith) refl refl (λ x. x) (λ p n. refl) s.producer
          r.leads)
        new
