-- ===== src/Chain/Dynamic/Bound.antt =====
-- The steps of the dynamic path of a chain are counted down.
use citor.Prelude.{
  ℕ, suc, ◌+◌, ◌*◌, ◌-◌, ◌≤◌, ◌<◌, ◌≡◌, ap, ◌∙◌, arith, ltb, ltb→lt, put, Bool-cases, inl, inr,
}
use native.Mathlib.Nat.{suc-mul}
use citor.Prelude.Sums.{sum, sum_moves, sum_le}
use citor.Chain.Defs.{Call}
use citor.Chain.Dynamic.Defs.{
  Place, arriving, scanning, at_gate, looping, claiming, running, stamping, bailing, bailed,
  finished, Chain, claimed, Step, first, begin_scan, scan_next, scan_over, go_on, bail, look, drain,
  claim, body_done, body_threw, stamp, stamp_bailed, leave, Reach, start, next,
}
use citor.Chain.Dynamic.Roles.{Roles, at_own}
use citor.Chain.Dynamic.Steps.{Reach-Roles}

module _ (c : Call) (n_blocks : ℕ) where
  -- More than the steps of one stage, but for those of its blocks.
  abbrev width : ℕ
  width = c.participants + 9

  abbrev left_after : ℕ → ℕ
  left_after k = (c.n_stages - suc k) * width

  -- The steps that a slot may still take, but for those of the blocks that it may claim.
  unfoldable rank : Place → ℕ
  rank finished = 0
  rank bailed = 0
  rank bailing = 1
  rank (arriving k) = 2 + (c.n_stages - k) * width
  rank (stamping k) = 3 + left_after k
  rank (claiming k) = 4 + left_after k
  rank (looping k) = 5 + left_after k
  rank (running k b) = 6 + left_after k
  rank (at_gate k) = 6 + left_after k
  rank (scanning k step) = 7 + (c.participants - step) + left_after k

  abbrev ranks : (ℕ → Place) → ℕ
  ranks f = sum (λ j. rank (f j)) c.participants

  -- Three steps for each block that is left.
  abbrev blocks : (ℕ → ℕ) → ℕ
  blocks f = sum (λ k. (n_blocks - f k) * 3) c.n_stages

  lower :
      (f : ℕ → Place) (i : ℕ) {p : Place} (q : Place)
      → f i ≡ p
      → i < c.participants
      → rank q < rank p
      → ranks (put f i q) < ranks f
  lower f i q e l h =
      let m = sum_moves rank f i q c.participants l in let o = ap rank e in omega (arith, m, o, h)

  stage_left : (k : ℕ) → k < c.n_stages → (c.n_stages - k) * width ≡ left_after k + width
  stage_left k l = ap (λ x. x * width) (omega (arith, l)) ∙ suc-mul (c.n_stages - suc k) width

  -- A claim takes a block or ends the loop.
  claim_lower :
      (s : Chain) (i k : ℕ)
      → s.place i ≡ claiming k
      → i < c.participants
      → k < c.n_stages
      → ranks (put s.place i (claimed n_blocks k (s.next_block k)))
          + blocks (put s.next_block k (suc (s.next_block k)))
        < ranks s.place + blocks s.next_block
  unfolding rank
  claim_lower s i k e l n =
      let b =
        sum_moves (λ x. (n_blocks - x) * 3) s.next_block k (suc (s.next_block k)) c.n_stages n in
      elim (Bool-cases (ltb (s.next_block k) n_blocks)) [
        | inl o ↦
            let q = running k (s.next_block k) in
            let m = sum_moves rank s.place i q c.participants l in
            let w = ltb→lt (s.next_block k) n_blocks o in
            let d = ap rank e in rw o (omega (arith, b, m, d, w))
        | inr o ↦
            let m = sum_moves rank s.place i (stamping k) c.participants l in
            let d = ap rank e in rw o (omega (arith, b, m, d))
      ]

  Step-lower :
      {s : Chain} (i : ℕ) {s' : Chain}
      → Step c n_blocks s i s'
      → i < c.participants
      → Roles c n_blocks s
      → ranks s'.place + blocks s'.next_block < ranks s.place + blocks s.next_block
  unfolding rank
  Step-lower {s} i (first e m) l r =
      let w = stage_left 0 m in
      let h = lower s.place i (at_gate 0) e l (omega (arith, w)) in omega (arith, h)
  Step-lower {s} i (begin_scan {k = k} e m) l r =
      let w = stage_left (suc k) m in
      let h = lower s.place i (scanning (suc k) 1) e l (omega (arith, w)) in omega (arith, h)
  Step-lower {s} i (scan_next {k = k} {step = step} e m d) l r =
      let h = lower s.place i (scanning k (suc step)) e l (omega (arith, m)) in omega (arith, h)
  Step-lower {s} i (scan_over {k = k} e m) l r =
      let h = lower s.place i (at_gate k) e l (omega arith) in omega (arith, h)
  Step-lower {s} i (go_on {k = k} e x) l r =
      let h = lower s.place i (looping k) e l (omega arith) in omega (arith, h)
  Step-lower {s} i (bail stopped e x) l r =
      let h = lower s.place i bailing e l (omega arith) in omega (arith, h)
  Step-lower {s} i (look {k = k} e x) l r =
      let h = lower s.place i (claiming k) e l (omega arith) in omega (arith, h)
  Step-lower {s} i (drain {k = k} e x) l r =
      let h = lower s.place i (stamping k) e l (omega arith) in omega (arith, h)
  Step-lower {s} i (claim {k = k} e) l r = claim_lower s i k e l (at_own c n_blocks s i r e).0
  Step-lower {s} i (body_done {k = k} e) l r =
      let h = lower s.place i (looping k) e l (omega arith) in omega (arith, h)
  Step-lower {s} i (body_threw x e) l r =
      let h = lower s.place i bailing e l (omega arith) in omega (arith, h)
  Step-lower {s} i (stamp {k = k} e) l r =
      let h = lower s.place i (arriving (suc k)) e l (omega arith) in omega (arith, h)
  Step-lower {s} i (stamp_bailed e) l r =
      let h = lower s.place i bailed e l (omega arith) in omega (arith, h)
  Step-lower {s} i (leave e m) l r =
      let h = lower s.place i finished e l (omega arith) in omega (arith, h)

  whole : (c.n_stages - 0) * width ≡ c.n_stages * width
  whole = ap (λ x. x * width) (omega arith)

  Reach-lower :
      {n : ℕ} {s : Chain}
      → Reach c n_blocks n s
      → n + (ranks s.place + blocks s.next_block)
        ≤ c.participants * (2 + c.n_stages * width) + c.n_stages * (n_blocks * 3)
  unfolding rank
  Reach-lower (start {s = s} f) =
      let all =
        sum_le (λ j. rank (s.place j)) (2 + c.n_stages * width) c.participants
          (λ j. rw (f.all_first j) (omega (arith, whole))) in
      let more =
        sum_le (λ k. (n_blocks - s.next_block k) * 3) (n_blocks * 3) c.n_stages
          (λ k. omega arith) in
      omega (arith, all, more)
  Reach-lower (next {n = n} i r l st) =
      let before = Reach-lower r in
      let down = Step-lower i st l (Reach-Roles c n_blocks r) in omega (arith, before, down)

pub dynamic_chain_terminates :
    (c : Call) (n_blocks : ℕ) {n : ℕ} {s : Chain}
    → Reach c n_blocks n s
    → n ≤ c.participants * (2 + c.n_stages * (c.participants + 9)) + c.n_stages * (n_blocks * 3)
dynamic_chain_terminates c n_blocks r = let h = Reach-lower c n_blocks r in omega (arith, h)
