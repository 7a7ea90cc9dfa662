-- ===== src/Plex/Bound.antt =====
-- The steps of a plex are counted down.
use citor.Prelude.{
  ℕ, suc, ◌+◌, ◌*◌, ◌-◌, ◌≤◌, ◌<◌, ◌≡◌, sym, ap, subst, arith, true, false, ltb, put, Bool-cases,
  inl, inr,
}
use native.Mathlib.Nat.{suc-mul}
use citor.Prelude.Sums.{sum, sum-put, sum_le}
use citor.Plex.Defs.{
  Call, Lead, opening, in_hook, publishing, abandoning, leading, lead_stamping, last_stamping,
  joining, lead_finished, lead_stopped, Place, awaiting, seen, running, stamping, draining,
  stopping, stopped, finished, Plex, LeadStep, open_phase, abandon, hook_done, hook_threw, publish,
  publish_last, lead_done, lead_threw, lead_stamp, last_stamp, join_next, join_over, lead_leave,
  WorkStep, see_phase, see_cancelled, go_on, drain, body_done, body_threw, stamp, stamp_drained,
  stamp_final, leave, Step, lead, work, Reach, start, next,
}

module _ (c : Call) where
  -- More than the steps of one phase.
  abbrev width : ℕ
  width = c.participants + 8

  -- The steps after phase `p`.
  abbrev left_after : ℕ → ℕ
  left_after p = 4 + (c.n_phases - p) * width

  abbrev left : ℕ → ℕ
  left p = 4 + (suc c.n_phases - p) * width

  -- The steps that the producer may still take.
  unfoldable lead_rank : Lead → ℕ
  lead_rank (opening p) = left p
  lead_rank (in_hook p) = c.participants + 7 + left_after p
  lead_rank (publishing p) = c.participants + 6 + left_after p
  lead_rank (abandoning p threw) = c.participants + 6 + left_after p
  lead_rank (leading p) = c.participants + 5 + left_after p
  lead_rank (lead_stamping p) = c.participants + 4 + left_after p
  lead_rank (last_stamping p) = c.participants + 4 + left_after p
  lead_rank (joining p step last) = c.participants - step + 3 + left_after p
  lead_rank lead_finished = 0
  lead_rank lead_stopped = 0

  -- The steps that a worker may still take.
  unfoldable work_rank : Place → ℕ
  work_rank (awaiting p) = left p
  work_rank (seen p) = 7 + left_after p
  work_rank (running p) = 6 + left_after p
  work_rank (stamping p) = 5 + left_after p
  work_rank (draining p) = 2
  work_rank stopping = 1
  work_rank stopped = 0
  work_rank finished = 0

  -- Worker `j` is the one of slot `j`; slot 0 stands for the producer.
  abbrev ranks : Lead → (ℕ → Place) → ℕ
  ranks l w = lead_rank l + sum (λ j. work_rank (w j)) c.participants

  -- A phase has room for its steps.
  phase_left : (p : ℕ) → p ≤ c.n_phases → left p ≡ width + left_after p
  phase_left p l =
      let h = suc-mul (c.n_phases - p) width in
      let e = ap (λ x. x * width) (one_more p l) in omega (arith, h, e)
    where
      one_more : (p : ℕ) → p ≤ c.n_phases → suc c.n_phases - p ≡ suc (c.n_phases - p)
      one_more p l = omega (arith, l)

  next_left : (p : ℕ) → (suc c.n_phases - suc p) * width ≡ (c.n_phases - p) * width
  next_left p = ap (λ x. x * width) (omega arith)

  first_left : (suc c.n_phases - 1) * width ≡ c.n_phases * width
  first_left = ap (λ x. x * width) (omega arith)

  lead_lower :
      (s : Plex) {l : Lead} (l' : Lead)
      → s.producer ≡ l
      → lead_rank l' < lead_rank l
      → ranks l' s.worker < ranks s.producer s.worker
  lead_lower s l' e h = rw e (omega (arith, h))

  Lead-ranks :
      {s s' : Plex} → LeadStep c s s' → ranks s'.producer s'.worker < ranks s.producer s.worker
  unfolding lead_rank
  Lead-ranks {s} (open_phase {p = p} e n x) =
      lead_lower s (in_hook p) e (let h = phase_left p n in omega (arith, h))
  Lead-ranks {s} (abandon {p = p} stop e n x) =
      lead_lower s (abandoning p false) e (let h = phase_left p n in omega (arith, h))
  Lead-ranks {s} (hook_done {p = p} e) = lead_lower s (publishing p) e (omega arith)
  Lead-ranks {s} (hook_threw {p = p} e f) = lead_lower s (abandoning p true) f (omega arith)
  Lead-ranks {s} (publish {p = p} e) = lead_lower s (leading p) e (omega arith)
  Lead-ranks {s} (publish_last {p = p} {threw = true} e) =
      lead_lower s (last_stamping p) e (omega arith)
  Lead-ranks {s} (publish_last {p = p} {threw = false} e) =
      lead_lower s (joining p 1 true) e (omega arith)
  Lead-ranks {s} (lead_done {p = p} e) = lead_lower s (lead_stamping p) e (omega arith)
  Lead-ranks {s} (lead_threw {p = p} e f) = lead_lower s (last_stamping p) f (omega arith)
  Lead-ranks {s} (lead_stamp {p = p} e) = lead_lower s (joining p 1 false) e (omega arith)
  Lead-ranks {s} (last_stamp {p = p} e) = lead_lower s (joining p 1 true) e (omega arith)
  Lead-ranks {s} (join_next {p = p} {step = step} {last = last} e l d) =
      lead_lower s (joining p (suc step) last) e (omega (arith, l))
  Lead-ranks {s} (join_over {p = p} {last = true} e l) = lead_lower s lead_stopped e (omega arith)
  Lead-ranks {s} (join_over {p = p} {last = false} e l) =
      lead_lower s (opening (suc p)) e (let h = next_left p in omega (arith, h))
  Lead-ranks {s} (lead_leave e l) = lead_lower s lead_finished e (omega arith)

  work_lower :
      (s : Plex) (i : ℕ) {p : Place} (q : Place)
      → s.worker i ≡ p
      → i < c.participants
      → work_rank q < work_rank p
      → ranks s.producer (put s.worker i q) < ranks s.producer s.worker
  work_lower s i q e l h =
      let g =
        sum-put work_rank s.worker i q c.participants l
          (subst (λ r. work_rank q < work_rank r) (sym e) h) in
      omega (arith, g)

  Work-ranks :
      {s : Plex} (i : ℕ) {s' : Plex}
      → WorkStep c s i s'
      → i < c.participants
      → ranks s'.producer s'.worker < ranks s.producer s.worker
  unfolding work_rank
  Work-ranks {s} i (see_phase {p = p} e n m) l =
      work_lower s i (seen p) e l (let h = phase_left p n in omega (arith, h))
  Work-ranks {s} i (see_cancelled {p = p} e n x) l = work_lower s i stopping e l (omega arith)
  Work-ranks {s} i (go_on {p = p} e x) l = work_lower s i (running p) e l (omega arith)
  Work-ranks {s} i (drain {p = p} e x) l = work_lower s i (draining p) e l (omega arith)
  Work-ranks {s} i (body_done {p = p} e) l = work_lower s i (stamping p) e l (omega arith)
  Work-ranks {s} i (body_threw {p = p} e f) l = work_lower s i stopping f l (omega arith)
  Work-ranks {s} i (stamp {p = p} e) l =
      work_lower s i (awaiting (suc p)) e l (let h = next_left p in omega (arith, h))
  Work-ranks {s} i (stamp_drained {p = p} e) l = elim (Bool-cases (ltb p c.n_phases)) [
    | inl o ↦ work_lower s i _ e l (rw o (omega arith))
    | inr o ↦ work_lower s i _ e l (rw o (omega arith))
  ]
  Work-ranks {s} i (stamp_final e) l = work_lower s i stopped e l (omega arith)
  Work-ranks {s} i (leave e n) l = work_lower s i finished e l (omega arith)

  Step-ranks : {s s' : Plex} → Step c s s' → ranks s'.producer s'.worker < ranks s.producer s.worker
  Step-ranks (lead st) = Lead-ranks st
  Step-ranks (work i z l st) = Work-ranks i st l

  Reach-ranks :
      {n : ℕ} {s : Plex}
      → Reach c n s
      → n + ranks s.producer s.worker ≤ suc c.participants * (4 + c.n_phases * width)
  unfolding lead_rank work_rank
  Reach-ranks (start {s = s} f) =
      let all =
        sum_le (λ j. work_rank (s.worker j)) (4 + c.n_phases * width) c.participants
          (λ j. rw (f.all_wait j) (omega (arith, first_left))) in
      let more = suc-mul c.participants (4 + c.n_phases * width) in
      rw f.leads (omega (arith, all, more, first_left))
  Reach-ranks (next r st) =
      let before = Reach-ranks r in let down = Step-ranks st in omega (arith, before, down)

-- With `p` participants and `n` phases, no run of a plex has more than (p + 1) * (4 + n * (p + 8)) steps of
-- the producer and the workers, whatever the interleaving, the throws and the token: every run ends.
pub plex_terminates :
    (c : Call) {n : ℕ} {s : Plex}
    → Reach c n s
    → n ≤ suc c.participants * (4 + c.n_phases * (c.participants + 8))
plex_terminates c r = let h = Reach-ranks c r in omega (arith, h)
