-- ===== src/Scan/TwoPass/Bound.antt =====
-- The steps of a scan are counted down.
use citor.Prelude.{
  ℕ, suc, ◌+◌, ◌*◌, ◌-◌, ◌≤◌, ◌<◌, ◌≡◌, sym, subst, arith, ◌==◌, put, Bool-cases, inl, inr,
}
use citor.Prelude.Sums.{sum, sum-put, sum_le}
use citor.Scan.TwoPass.Defs.{
  Call, Place, pass_one, failing, releasing, abandoned, joining, publishing, waiting, choosing,
  second, stamping, finished, Scan, Step, one_done, one_threw, stamp_failed, release, abandon_next,
  abandon_over, join_next, skip_reduce, reduce_done, reduce_threw, publish, see_published, go_two,
  skip_two, two_done, two_threw, stamp, Reach, start, next,
}

module _ (p : ℕ) where
  -- The steps that a slot may still take.
  unfoldable rank : Place → ℕ
  rank finished = 0
  rank stamping = 1
  rank second = 2
  rank choosing = 3
  rank waiting = 4
  rank publishing = 4
  rank (joining k) = 5 + (p - k)
  rank (abandoned k) = 1 + (p - k)
  rank releasing = p + 3
  rank failing = p + 4
  rank pass_one = p + 7

abbrev ranks : (p : ℕ) → (ℕ → Place) → ℕ
ranks p f = sum (λ j. rank p (f j)) p

module _ {ℓ} {A : Type ℓ} (c : Call A) where
  lower :
      (f : ℕ → Place) (i : ℕ) {p : Place} (q : Place)
      → f i ≡ p
      → i < c.participants
      → rank c.participants q < rank c.participants p
      → ranks c.participants (put f i q) < ranks c.participants f
  lower f i q e l h =
      sum-put (rank c.participants) f i q c.participants l
        (subst (λ r. rank c.participants q < rank c.participants r) (sym e) h)

  Step-ranks :
      {s : Scan A} (i : ℕ) {s' : Scan A}
      → Step c s i s'
      → i < c.participants
      → ranks c.participants s'.place < ranks c.participants s.place
  unfolding rank
  Step-ranks {s} i (one_done p b) l = elim (Bool-cases (i == 0)) [
    | inl e ↦ lower s.place i _ p l (rw e (omega arith))
    | inr e ↦ lower s.place i _ p l (rw e (omega arith))
  ]
  Step-ranks {s} i (one_threw p b) l = lower s.place i failing p l (omega arith)
  Step-ranks {s} i (stamp_failed p) l = elim (Bool-cases (i == 0)) [
    | inl e ↦ lower s.place i _ p l (rw e (omega arith))
    | inr e ↦ lower s.place i _ p l (rw e (omega arith))
  ]
  Step-ranks {s} i (release p) l = lower s.place i (abandoned 1) p l (omega arith)
  Step-ranks {s} i (abandon_next {k = k} p m d) l =
      lower s.place i (abandoned (suc k)) p l (omega arith)
  Step-ranks {s} i (abandon_over p m) l = lower s.place i finished p l (omega arith)
  Step-ranks {s} i (join_next {k = k} p m d) l = lower s.place i (joining (suc k)) p l (omega arith)
  Step-ranks {s} i (skip_reduce p m f) l = lower s.place i publishing p l (omega arith)
  Step-ranks {s} i (reduce_done p m f h) l = lower s.place i publishing p l (omega arith)
  Step-ranks {s} i (reduce_threw rest p m f h) l = lower s.place i publishing p l (omega arith)
  Step-ranks {s} i (publish p) l = lower s.place i choosing p l (omega arith)
  Step-ranks {s} i (see_published p h) l = lower s.place i choosing p l (omega arith)
  Step-ranks {s} i (go_two p x) l = lower s.place i second p l (omega arith)
  Step-ranks {s} i (skip_two stopped p x) l = lower s.place i stamping p l (omega arith)
  Step-ranks {s} i (two_done p) l = lower s.place i stamping p l (omega arith)
  Step-ranks {s} i (two_threw e p) l = lower s.place i stamping p l (omega arith)
  Step-ranks {s} i (stamp p) l = lower s.place i finished p l (omega arith)

  Reach-ranks :
      {n : ℕ} {s : Scan A}
      → Reach c n s
      → n + ranks c.participants s.place ≤ c.participants * (c.participants + 7)
  unfolding rank
  Reach-ranks (start {s = s} f) =
      let all =
        sum_le (λ j. rank c.participants (s.place j)) (c.participants + 7) c.participants
          (λ j. rw (f.all_one j) (omega arith)) in
      omega (arith, all)
  Reach-ranks (next {n = n} i r l st) =
      let before = Reach-ranks r in let down = Step-ranks i st l in omega (arith, before, down)

-- With `p` participants, no run of a scan has more than p * (p + 7) steps of the slots, whatever the
-- interleaving, the throws and the token: every run of the two passes ends.
pub scan_terminates {ℓ} :
    {A : Type ℓ} (c : Call A) {n : ℕ} {s : Scan A}
    → Reach c n s
    → n ≤ c.participants * (c.participants + 7)
scan_terminates c r = let h = Reach-ranks c r in omega (arith, h)
