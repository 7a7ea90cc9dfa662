-- ===== src/Chain/Bound.antt =====
-- The steps of a chain are counted down.
use citor.Prelude.{
  ℕ, suc, ◌+◌, ◌*◌, ◌-◌, ◌≤◌, ◌<◌, ◌≡◌, sym, ap, subst, ◌∙◌, arith, true, false, ◌==◌, put,
  Bool-cases, inl, inr,
}
use native.Mathlib.Nat.{suc-mul}
use citor.Prelude.Sums.{sum, sum-put, sum_le}
use citor.Chain.Defs.{
  Call, Place, arriving, scanning, serial_waiting, at_gate, running, stamping, bailing, bailed,
  finished, Chain, Step, pass, begin_scan, scan_next, scan_over, begin_serial, serial_over, go_on,
  bail, body_done, body_threw, stamp, stamp_bailed, leave, Reach, start, next,
}

module _ (c : Call) where
  -- More than the steps of one stage.
  abbrev width : ℕ
  width = c.participants + 8

  abbrev left_after : ℕ → ℕ
  left_after k = (c.n_stages - suc k) * width

  -- The steps that a slot may still take.
  unfoldable rank : Place → ℕ
  rank finished = 0
  rank bailed = 0
  rank bailing = 1
  rank (arriving k) = 2 + (c.n_stages - k) * width
  rank (stamping k) = 3 + left_after k
  rank (running k) = 4 + left_after k
  rank (at_gate k runs_body) = 5 + left_after k
  rank (serial_waiting k) = 6 + left_after k
  rank (scanning k step) = 6 + (c.participants - step) + left_after k

  abbrev ranks : (ℕ → Place) → ℕ
  ranks f = sum (λ j. rank (f j)) c.participants

  lower :
      (f : ℕ → Place) (i : ℕ) {p : Place} (q : Place)
      → f i ≡ p
      → i < c.participants
      → rank q < rank p
      → ranks (put f i q) < ranks f
  lower f i q e l h = sum-put rank f i q c.participants l (subst (λ r. rank q < rank r) (sym e) h)

  -- A stage has room for its steps.
  stage_left : (k : ℕ) → k < c.n_stages → (c.n_stages - k) * width ≡ left_after k + width
  stage_left k l = ap (λ x. x * width) (omega (arith, l)) ∙ suc-mul (c.n_stages - suc k) width

  Step-ranks :
      {s : Chain} (i : ℕ) {s' : Chain}
      → Step c s i s'
      → i < c.participants
      → ranks s'.place < ranks s.place
  unfolding rank
  Step-ranks {s} i (pass {k = k} p l b) own =
      lower s.place i (at_gate k true) p own (let h = stage_left k l in omega (arith, h))
  Step-ranks {s} i (begin_scan {k = k} p l b) own =
      lower s.place i (scanning k 1) p own (let h = stage_left k l in omega (arith, h))
  Step-ranks {s} i (scan_next {k = k} {step = step} p l d) own =
      lower s.place i (scanning k (suc step)) p own (omega (arith, l))
  Step-ranks {s} i (scan_over {k = k} p l) own =
      lower s.place i (at_gate k true) p own (omega arith)
  Step-ranks {s} i (begin_serial {k = k} p l b) own =
      let h = stage_left k l in
      elim (Bool-cases (i == 0)) [
        | inl e ↦ lower s.place i _ p own (rw e (omega (arith, h)))
        | inr e ↦ lower s.place i _ p own (rw e (omega (arith, h)))
      ]
  Step-ranks {s} i (serial_over {k = k} p d) own =
      lower s.place i (at_gate k false) p own (omega arith)
  Step-ranks {s} i (go_on {k = k} {runs_body = true} p x) own =
      lower s.place i (running k) p own (omega arith)
  Step-ranks {s} i (go_on {k = k} {runs_body = false} p x) own =
      lower s.place i (stamping k) p own (omega arith)
  Step-ranks {s} i (bail stopped p x) own = lower s.place i bailing p own (omega arith)
  Step-ranks {s} i (body_done {k = k} p) own = lower s.place i (stamping k) p own (omega arith)
  Step-ranks {s} i (body_threw e p) own = lower s.place i bailing p own (omega arith)
  Step-ranks {s} i (stamp {k = k} p) own = lower s.place i (arriving (suc k)) p own (omega arith)
  Step-ranks {s} i (stamp_bailed p) own = lower s.place i bailed p own (omega arith)
  Step-ranks {s} i (leave p l) own = lower s.place i finished p own (omega arith)

  whole : (c.n_stages - 0) * width ≡ c.n_stages * width
  whole = ap (λ x. x * width) (omega arith)

  Reach-ranks :
      {n : ℕ} {s : Chain}
      → Reach c n s
      → n + ranks s.place ≤ c.participants * (2 + c.n_stages * width)
  unfolding rank
  Reach-ranks (start {s = s} f) =
      let all =
        sum_le (λ j. rank (s.place j)) (2 + c.n_stages * width) c.participants
          (λ j. rw (f.all_first j) (omega (arith, whole))) in
      omega (arith, all)
  Reach-ranks (next {n = n} i r l st) =
      let before = Reach-ranks r in let down = Step-ranks i st l in omega (arith, before, down)

-- With `p` participants and `n` stages, no run of a chain has more than p * (2 + n * (p + 8)) steps of
-- the slots, whatever the interleaving, the throws and the token: every run ends.
pub chain_terminates :
    (c : Call) {n : ℕ} {s : Chain}
    → Reach c n s
    → n ≤ c.participants * (2 + c.n_stages * (c.participants + 8))
chain_terminates c r = let h = Reach-ranks c r in omega (arith, h)
