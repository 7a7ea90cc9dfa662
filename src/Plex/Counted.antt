-- ===== src/Plex/Counted.antt =====
-- How many bodies the slots of a plex have run at each place.
use citor.Prelude.{
  ℕ, suc, ◌<◌, ◌≡◌, refl, sym, ap, subst, ◌∙◌, arith, Bool, true, false, ◌&&◌, ◌==◌, ltb, lt→ltb,
  le→ltb, if◌then◌else◌, put, put_self, put_other, Bool-cases, ==_iff, ==_ne, ne→==, inl, inr,
}
use citor.Prelude.Sums.{ltb_next}
use citor.Plex.Defs.{
  Call, Lead, opening, in_hook, publishing, abandoning, leading, lead_stamping, last_stamping,
  joining, lead_finished, lead_stopped, Place, awaiting, seen, running, stamping, draining,
  stopping, stopped, finished, Plex, LeadStep, open_phase, abandon, hook_done, hook_threw, publish,
  publish_last, lead_done, lead_threw, lead_stamp, last_stamp, join_next, join_over, lead_leave,
  WorkStep, see_phase, see_cancelled, go_on, drain, body_done, body_threw, stamp, stamp_drained,
  stamp_final, leave, lead, work, Reach, start, next,
}
use citor.Plex.Roles.{Roles, at_own, at_lead}
use citor.Plex.Steps.{Reach-Roles}

-- Each phase before `p` once, and none from `p` on.
abbrev pub Ran : (ℕ → ℕ) → (p : ℕ) → Type 0
Ran f p = (m : ℕ) → f m ≡ (if ltb 0 m && ltb m p then 1 else 0)

suc-Ran : (f : ℕ → ℕ) (p : ℕ) → 0 < p → Ran f p → Ran (put f p (suc (f p))) (suc p)
suc-Ran f p z h m = elim (Bool-cases (m == p)) [
  | inl e ↦
      subst (λ m. put f p (suc (f p)) m ≡ (if ltb 0 m && ltb m (suc p) then 1 else 0))
        (sym ((==_iff m p).0 e))
        (put_self f p (suc (f p))
          ∙ rw (lt→ltb 0 p z, lt→ltb p (suc p) (omega arith))
              (ap suc (h p ∙ rw (le→ltb p p (omega arith), lt→ltb 0 p z) refl)))
  | inr e ↦
      put_other f p m (suc (f p)) (ne→== p m (λ q. ==_ne m p e (sym q))) ∙ rw (ltb_next m p e) (h m)
]

module _ (c : Call) where
  -- The phases before `p` are the ones that the producer, or a worker, has run.
  abbrev pub LeadUpto : Lead → ℕ → Type 0
  LeadUpto (opening q) p = p ≡ q
  LeadUpto (in_hook q) p = p ≡ q
  LeadUpto (publishing q) p = p ≡ q
  LeadUpto (abandoning q threw) p = p ≡ q
  LeadUpto (leading q) p = p ≡ q
  LeadUpto (lead_stamping q) p = p ≡ suc q
  LeadUpto (last_stamping q) p = p ≡ q
  LeadUpto (joining q step last) p = p ≡ (if last then q else suc q)
  LeadUpto lead_finished p = p ≡ suc c.n_phases
  LeadUpto lead_stopped p = p ≡ p

  abbrev pub WorkUpto : Place → ℕ → Type 0
  WorkUpto (awaiting q) p = p ≡ q
  WorkUpto (seen q) p = p ≡ q
  WorkUpto (running q) p = p ≡ q
  WorkUpto (stamping q) p = p ≡ suc q
  WorkUpto (draining q) p = p ≡ q
  WorkUpto stopping p = p ≡ p
  WorkUpto stopped p = p ≡ p
  WorkUpto finished p = p ≡ suc c.n_phases

  pub record Once (s : Plex) : Type 0 where
    pub lead_ran : (p : ℕ) × LeadUpto s.producer p × Ran (s.ran 0) p
    pub work_ran :
        (i : ℕ) → 0 < i → i < c.participants → (p : ℕ) × WorkUpto (s.worker i) p × Ran (s.ran i) p

  lead_same :
      (s s' : Plex) {l : Lead}
      → Once s
      → s.producer ≡ l
      → s'.worker ≡ s.worker
      → s'.ran ≡ s.ran
      → ((p : ℕ) → LeadUpto l p → LeadUpto s'.producer p)
      → Once s'
  lead_same s s' o e w f h =
      let (p, u, r) = o.lead_ran in
      record {
        lead_ran = (p, h p (subst (λ l. LeadUpto l p) e u), rw f r);
        work_ran = λ i z l. rw (w, f) (o.work_ran i z l);
      }

  apart : (i j : ℕ) → i < j → (i == j) ≡ false
  apart i j l = ground arith

  Lead-Once : {s s' : Plex} → LeadStep c s s' → Roles c s → Once s → Once s'
  Lead-Once {s} (open_phase e n x) r o = lead_same s _ o e refl refl (λ p h. h)
  Lead-Once {s} (abandon stop e n x) r o = lead_same s _ o e refl refl (λ p h. h)
  Lead-Once {s} (hook_done e) r o = lead_same s _ o e refl refl (λ p h. h)
  Lead-Once {s} (hook_threw e f) r o = lead_same s _ o f refl refl (λ p h. h)
  Lead-Once {s} (publish e) r o = lead_same s _ o e refl refl (λ p h. h)
  Lead-Once {s} (publish_last {threw = true} e) r o = lead_same s _ o e refl refl (λ p h. h)
  Lead-Once {s} (publish_last {threw = false} e) r o = lead_same s _ o e refl refl (λ p h. h)
  Lead-Once {s} (lead_done {p = p} e) r o =
      let (q, u, h) = o.lead_ran in
      let at : q ≡ p = subst (λ l. LeadUpto l q) e u in
      let z = (at_lead c s r e).0.0 in
      record {
        lead_ran = (suc p, refl, suc-Ran (s.ran 0) p z (subst (Ran (s.ran 0)) at h));
        work_ran = λ i z l.
            let (q, u, h) = o.work_ran i z l in
            (q, u, rw (put_other s.ran 0 i (put (s.ran 0) p (suc (s.ran 0 p))) (apart 0 i z)) h);
      }
  Lead-Once {s} (lead_threw e f) r o = lead_same s _ o f refl refl (λ p h. h)
  Lead-Once {s} (lead_stamp e) r o = lead_same s _ o e refl refl (λ p h. h)
  Lead-Once {s} (last_stamp e) r o = lead_same s _ o e refl refl (λ p h. h)
  Lead-Once {s} (join_next e l d) r o = lead_same s _ o e refl refl (λ p h. h)
  Lead-Once {s} (join_over {last = true} e l) r o = lead_same s _ o e refl refl (λ p h. refl)
  Lead-Once {s} (join_over {last = false} e l) r o = lead_same s _ o e refl refl (λ p h. h)
  Lead-Once {s} (lead_leave e l) r o =
      let (m, q, j, k) = at_lead c s r e in
      lead_same s _ o e refl refl (λ p h. omega (arith, m, q, l, h))

  work_same :
      (s s' : Plex) (i : ℕ) {w : Place} (q : Place)
      → Once s
      → s.worker i ≡ w
      → s'.producer ≡ s.producer
      → s'.worker ≡ put s.worker i q
      → s'.ran ≡ s.ran
      → ((p : ℕ) → WorkUpto w p → WorkUpto q p)
      → Once s'
  work_same s s' i q o e d w f h = record {
    lead_ran = rw (d, f) o.lead_ran;
    work_ran = λ j z l. rw (w, f) (moved j z l);
  }
    where
      moved :
          (j : ℕ)
          → 0 < j
          → j < c.participants
          → (p : ℕ) × WorkUpto (put s.worker i q j) p × Ran (s.ran j) p
      moved j z l =
          let (p, u, r) = o.work_ran j z l in
          elim (Bool-cases (i == j)) [
            | inl k ↦ (
              p,
              rw k (h p (subst (λ w. WorkUpto w p) (sym (ap s.worker ((==_iff i j).0 k)) ∙ e) u)),
              r,
            )
            | inr k ↦ (p, rw k u, r)
          ]

  either : (over : Bool) (p : ℕ) → WorkUpto (if over then stopping else stopped) p
  either true p = refl
  either false p = refl

  -- A body of worker `i` has returned.
  counted :
      (s : Plex) (i p : ℕ)
      → Once s
      → 0 < p
      → s.worker i ≡ running p
      → (j : ℕ) → 0 < j
      → j < c.participants
      → (q : ℕ) × WorkUpto (put s.worker i (stamping p) j) q
        × Ran (put s.ran i (put (s.ran i) p (suc (s.ran i p))) j) q
  counted s i p o f e j z l =
      let (q, u, h) = o.work_ran j z l in
      elim (Bool-cases (i == j)) [
        | inl k ↦
            let own = (==_iff i j).0 k in
            let at : q ≡ p = subst (λ w. WorkUpto w q) (ap s.worker (sym own) ∙ e) u in
            (
              suc p,
              rw k refl,
              rw k (
                  suc-Ran (s.ran i) p f
                    (subst (λ j. Ran (s.ran j) p) (sym own) (subst (Ran (s.ran j)) at h))),
            )
        | inr k ↦ (q, rw k u, rw k h)
      ]

  Work-Once :
      {s : Plex} (i : ℕ) {s' : Plex}
      → WorkStep c s i s'
      → 0 < i
      → i < c.participants
      → Roles c s
      → Once s
      → Once s'
  Work-Once {s} i (see_phase e n m) z l r o = work_same s _ i _ o e refl refl refl (λ p h. h)
  Work-Once {s} i (see_cancelled e n x) z l r o = work_same s _ i _ o e refl refl refl (λ p h. refl)
  Work-Once {s} i (go_on e x) z l r o = work_same s _ i _ o e refl refl refl (λ p h. h)
  Work-Once {s} i (drain e x) z l r o = work_same s _ i _ o e refl refl refl (λ p h. h)
  Work-Once {s} i (body_done {p = p} e) z l r o = record {
    lead_ran =
        let (q, u, h) = o.lead_ran in
        (
          q,
          u,
          rw
              (put_other s.ran i 0 (put (s.ran i) p (suc (s.ran i p)))
                (ne→== i 0 (omega (arith, z))))
              h,
        );
    work_ran = counted s i p o (at_own c s i r z l e).0.0 e;
  }
  Work-Once {s} i (body_threw e f) z l r o = work_same s _ i _ o f refl refl refl (λ p h. refl)
  Work-Once {s} i (stamp e) z l r o = work_same s _ i _ o e refl refl refl (λ p h. h)
  Work-Once {s} i (stamp_drained {p = p} e) z l r o =
      work_same s _ i _ o e refl refl refl (λ q h. either (ltb p c.n_phases) q)
  Work-Once {s} i (stamp_final e) z l r o = work_same s _ i _ o e refl refl refl (λ p h. h)
  Work-Once {s} i (leave e n) z l r o =
      let (b, k, m) = at_own c s i r z l e in
      work_same s _ i _ o e refl refl refl (λ p h. omega (arith, k, n, h))

  pub Reach-Once : {n : ℕ} {s : Plex} → Reach c n s → Once s
  Reach-Once (start {s = s} f) = record {
    lead_ran = (1, subst (λ l. LeadUpto l 1) (sym f.leads) refl, λ m. f.unrun 0 m ∙ none_yet m);
    work_ran = λ i z l.
        (1, subst (λ w. WorkUpto w 1) (sym (f.all_wait i)) refl, λ m. f.unrun i m ∙ none_yet m);
  }
    where
      none_yet : (m : ℕ) → ◌≡◌ {A = ℕ} 0 (if ltb 0 m && ltb m 1 then 1 else 0)
      none_yet m = ground arith
  Reach-Once (next r (lead st)) = Lead-Once st (Reach-Roles c r) (Reach-Once r)
  Reach-Once (next r (work i z l st)) = Work-Once i st z l (Reach-Roles c r) (Reach-Once r)
