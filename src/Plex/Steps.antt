-- ===== src/Plex/Steps.antt =====
-- Every step of a worker of a plex, and so every run, keeps what holds at the places.
use citor.Prelude.{
  ℕ, suc, ◌+◌, ◌≤◌, ◌<◌, ◌≡◌, refl, sym, ap, subst, ◌∙◌, arith, true, ltb, ltb→le, if◌then◌else◌,
  put_self, put_other, at_put, Bool-cases, inl, inr,
}
use citor.Plex.Defs.{
  Call, Place, awaiting, seen, running, stamping, draining, stopping, stopped, finished, Plex, go,
  stamp_slot, WorkStep, see_phase, see_cancelled, go_on, drain, body_done, body_threw, stamp,
  stamp_drained, stamp_final, leave, lead, work, Reach, start, next,
}
use citor.Plex.Roles.{Next, Leads, Before, Works, Roles, later-Leads, hooked, late_worker, at_own}
use citor.Plex.Moves.{work_moves, growing_later, failing_later, work_calm}
use citor.Plex.LeadSteps.{Lead-Roles}

module _ (c : Call) where
  no_worker :
      (s : Plex) (i q : ℕ)
      → 0 < i
      → i < c.participants
      → Before c (s.done i) q
      → q ≤ s.current_phase
      → (p : ℕ) → ¬ Next c s p
  no_worker s i q z l b m p = late_worker c s i p q z l b m

  -- The stamp of a worker.
  work_stamped :
      (s : Plex) (i v : ℕ) (q : Place)
      → Roles c s
      → s.done i ≤ v
      → Works c (go (stamp_slot s i v) i q) i q
      → Roles c (go (stamp_slot s i v) i q)
  work_stamped s i v q r u new =
      let s' = go (stamp_slot s i v) i q in
      work_moves c s s' i q r (growing_later c s s' refl (omega arith) (omega arith)) (λ j. refl)
        (λ j o. put_other s.done i j v o) (λ o. refl)
        (later-Leads c s s' (at_put (λ k w. s.done k ≤ w) s.done i v u (λ k. omega arith)) refl refl
          (λ x. x) (λ p n. refl) s.producer r.leads)
        new

  drained :
      (s : Plex) (i p : ℕ)
      → p ≤ c.n_phases
      → s.phase_cancelled ≡ true
      → let q = if ltb p c.n_phases then stopping else stopped in
        Works c (go (stamp_slot s i (c.epoch_base + p)) i q) i q
  drained s i p n x = elim (Bool-cases (ltb p c.n_phases)) [
    | inl e ↦ rw (e, put_self s.done i (c.epoch_base + p)) (omega (arith, n), x)
    | inr e ↦
        let h = ltb→le p c.n_phases e in
        rw (e, put_self s.done i (c.epoch_base + p)) (omega (arith, h), x)
  ]

  Work-Roles :
      {s : Plex} (i : ℕ) {s' : Plex}
      → WorkStep c s i s'
      → 0 < i
      → i < c.participants
      → Roles c s
      → Roles c s'
  Work-Roles {s} i (see_phase {p = p} e n m) z l r =
      let (b, k, d) = at_own c s i r z l e in
      work_calm c s i (seen p) r
        (b, n, m, λ o. let h = hooked c s s.producer r.leads o in omega (arith, h, m))
  Work-Roles {s} i (see_cancelled {p = p} e n x) z l r =
      let ((f, u, d), k, m) = at_own c s i r z l e in
      work_calm c s i stopping r (omega (arith, u, n), x)
  Work-Roles {s} i (go_on {p = p} e x) z l r =
      let (b, n, m, h) = at_own c s i r z l e in work_calm c s i (running p) r (b, n, m, h x)
  Work-Roles {s} i (drain {p = p} e x) z l r =
      let (b, n, m, h) = at_own c s i r z l e in work_calm c s i (draining p) r (b, n, x)
  Work-Roles {s} i {s'} (body_done {p = p} e) z l r =
      let (b, n, m, h) = at_own c s i r z l e in
      work_moves c s _ i (stamping p) r (growing_later c s _ refl (omega arith) (omega arith))
        (λ j. refl) (λ j o. refl) (λ o. refl)
        (later-Leads c s s' (λ j. omega arith) refl refl (λ x. x) (λ p n. refl) s.producer r.leads)
        (b, n, m)
  Work-Roles {s} i {s'} (body_threw {p = p} e f) z l r =
      let ((k, u, d), n, m, h) = at_own c s i r z l f in
      work_moves c s _ i stopping r (failing_later c s _ refl (omega arith) refl) (λ j. refl)
        (λ j o. refl) (λ o. absurd (cc o))
        (later-Leads c s s' (λ j. omega arith) refl refl (λ x. refl)
          (λ q o. absurd (no_worker s i p z l (k, u, d) m q o)) s.producer r.leads)
        (omega (arith, u, n), refl)
  Work-Roles {s} i (stamp {p = p} e) z l r =
      let ((k, u, d), n, m) = at_own c s i r z l e in
      work_stamped s i (c.epoch_base + p) (awaiting (suc p)) r (omega (arith, u)) (
        rw (put_self s.done i (c.epoch_base + p))
          ((omega arith, omega arith, λ o. omega arith), omega (arith, n), omega (arith, m)))
  Work-Roles {s} i (stamp_drained {p = p} e) z l r =
      let ((k, u, d), n, x) = at_own c s i r z l e in
      work_stamped s i (c.epoch_base + p) _ r (omega (arith, u)) (drained s i p n x)
  Work-Roles {s} i (stamp_final e) z l r =
      let (u, x) = at_own c s i r z l e in
      work_stamped s i (c.epoch_base + c.n_phases) stopped r u
        (rw (put_self s.done i (c.epoch_base + c.n_phases)) (omega arith, x))
  Work-Roles {s} i (leave {p = p} e n) z l r =
      let (b, k, m) = at_own c s i r z l e in
      work_calm c s i finished r (subst (Before c (s.done i)) (omega (arith, n, k)) b)

  pub Reach-Roles : {n : ℕ} {s : Plex} → Reach c n s → Roles c s
  Reach-Roles (start {s = s} f) = record {
    leads =
        let z = f.unpublished in
        subst (Leads c s) (sym f.leads) (
          omega (arith, z),
          ap suc z,
          λ j o l k. absurd (omega (arith, z, k)),
          f.unprepared ∙ sym z,
        );
    works = λ i z l. subst (Works c s i) (sym (f.all_wait i)) (
      (omega arith, let u = f.stamps i in omega (arith, u), λ o. absurd (omega (arith, o))),
      omega arith,
      omega arith,
    );
    excepted = λ o. f.clean;
  }
  Reach-Roles (next r (lead st)) = Lead-Roles c st (Reach-Roles r)
  Reach-Roles (next r (work i z l st)) = Work-Roles i st z l (Reach-Roles r)
