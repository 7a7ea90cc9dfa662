-- ===== src/Chain/Dynamic/Claims.antt =====
-- The blocks of a stage: each is handed out once, and either runs or has run.
use citor.Prelude.{
  ℕ, suc, ◌+◌, ◌≤◌, ◌<◌, ◌≡◌, refl, sym, subst, ◌∙◌, arith, Bool, true, false, ◌||◌, ◌&&◌, ◌==◌,
  ltb, lt→ltb, le→ltb, ltb→le, if◌then◌else◌, put, put_self, put_other, Bool-cases, ==_iff, ==_self,
  inl, inr,
}
use citor.Prelude.Sums.{sum, sum_moves, sum_zero}
use citor.Chain.Defs.{Call}
use citor.Chain.Dynamic.Defs.{
  Place, arriving, scanning, at_gate, looping, claiming, running, stamping, bailing, bailed,
  finished, Chain, claimed, Step, first, begin_scan, scan_next, scan_over, go_on, bail, look, drain,
  claim, body_done, body_threw, stamp, stamp_bailed, leave, Reach, start, next,
}

-- 1 for a slot that runs the block.
unfoldable pub in_hand : (stage block : ℕ) → Place → ℕ
in_hand k b (running k' b') = if (k == k') && (b == b') then 1 else 0
in_hand k b (arriving k') = 0
in_hand k b (scanning k' step) = 0
in_hand k b (at_gate k') = 0
in_hand k b (looping k') = 0
in_hand k b (claiming k') = 0
in_hand k b (stamping k') = 0
in_hand k b bailing = 0
in_hand k b bailed = 0
in_hand k b finished = 0

module _ (c : Call) (n_blocks : ℕ) where
  abbrev pub holders : (ℕ → Place) → (stage block : ℕ) → ℕ
  holders f k b = sum (λ j. in_hand k b (f j)) c.participants

  -- Whether the counter of the stage is past the block.
  abbrev pub handed : Chain → (stage block : ℕ) → ℕ
  handed s k b = if ltb b (s.next_block k) then 1 else 0

  pub record Balance (s : Chain) : Type 0 where
    pub at_most : (k b : ℕ) → b < n_blocks → s.ran k b + holders s.place k b ≤ handed s k b
    pub exact :
        s.chain_cancelled ≡ false
        → (k b : ℕ) → b < n_blocks
        → s.ran k b + holders s.place k b ≡ handed s k b

  holders_moves :
      (f : ℕ → Place) (i : ℕ) {p : Place} (q : Place) (k b : ℕ)
      → i < c.participants
      → f i ≡ p
      → holders (put f i q) k b + in_hand k b p ≡ holders f k b + in_hand k b q
  holders_moves f i q k b l e =
      subst (λ p. holders (put f i q) k b + in_hand k b p ≡ holders f k b + in_hand k b q) e
        (sum_moves (in_hand k b) f i q c.participants l)

  -- A step that adds the same to both sides.
  balanced :
      (s s' : Chain)
      → (s'.chain_cancelled ≡ false → s.chain_cancelled ≡ false)
      → ((k b : ℕ)
          → b < n_blocks
          → s'.ran k b + holders s'.place k b + handed s k b
            ≡ s.ran k b + holders s.place k b + handed s' k b)
      → Balance s
      → Balance s'
  balanced s s' x h v = record {
    at_most = λ k b l. let a = h k b l in let m = v.at_most k b l in omega (arith, a, m);
    exact = λ o k b l. let a = h k b l in let m = v.exact (x o) k b l in omega (arith, a, m);
  }

  -- A step to and from places that hold no block.
  idle :
      (s : Chain) (i : ℕ) {p : Place} (q : Place)
      → Balance s
      → i < c.participants
      → s.place i ≡ p
      → ((k b : ℕ) → in_hand k b p ≡ 0)
      → ((k b : ℕ) → in_hand k b q ≡ 0)
      → (s' : Chain) → (s'.chain_cancelled ≡ false → s.chain_cancelled ≡ false)
      → s'.ran ≡ s.ran
      → s'.next_block ≡ s.next_block
      → s'.place ≡ put s.place i q
      → Balance s'
  idle s i q v l e o n s' x r f w =
      balanced s s' x
        (λ k b m.
          rw (r, f, w)
            (let a = holders_moves s.place i q k b l e in
              let z = o k b in let y = n k b in omega (arith, a, z, y)))
        v

  flip : (m k : ℕ) → (m == k) ≡ false → (k == m) ≡ false
  flip m k e = ground arith

  own_claim :
      (k b n : ℕ)
      → b < n_blocks
      → in_hand k b (claimed n_blocks k n) + (if ltb b n then 1 else 0)
        ≡ (if ltb b (suc n) then 1 else 0)
  unfolding in_hand
  own_claim k b n w = elim (Bool-cases (ltb n n_blocks)) [
    | inl x ↦ rw (x, ==_self k) (ground arith)
    | inr x ↦
        let h = ltb→le n n_blocks x in
        rw (x, lt→ltb b n (omega (arith, w, h)), lt→ltb b (suc n) (omega (arith, w, h))) refl
  ]

  other_claim : (m k b n x : ℕ) → (m == k) ≡ false → in_hand m b (claimed n_blocks k n) + x ≡ x
  unfolding in_hand
  other_claim m k b n x e = elim (Bool-cases (ltb n n_blocks)) [
    | inl y ↦ rw (y, e) (omega arith)
    | inr y ↦ rw y (omega arith)
  ]

  -- A claim moves the counter past the block that it gives.
  claims_one :
      (f : ℕ → ℕ) (k m b : ℕ)
      → b < n_blocks
      → in_hand m b (claimed n_blocks k (f k)) + (if ltb b (f m) then 1 else 0)
        ≡ (if ltb b (put f k (suc (f k)) m) then 1 else 0)
  unfolding in_hand
  claims_one f k m b w = elim (Bool-cases (m == k)) [
    | inl e ↦
        subst
          (λ m.
            in_hand m b (claimed n_blocks k (f k)) + (if ltb b (f m) then 1 else 0)
            ≡ (if ltb b (put f k (suc (f k)) m) then 1 else 0))
          (sym ((==_iff m k).0 e)) (rw (put_self f k (suc (f k))) (own_claim k b (f k) w))
    | inr e ↦
        rw (put_other f k m (suc (f k)) (flip m k e))
          (other_claim m k b (f k) (if ltb b (f m) then 1 else 0) e)
  ]

  row_counts : (f : ℕ → ℕ) (b d : ℕ) → put f b (suc (f b)) d ≡ f d + (if d == b then 1 else 0)
  row_counts f b d = elim (Bool-cases (d == b)) [
    | inl e ↦
        subst (λ d. put f b (suc (f b)) d ≡ f d + (if d == b then 1 else 0))
          (sym ((==_iff d b).0 e)) (rw (put_self f b (suc (f b)), ==_self b) (omega arith))
    | inr e ↦ rw (put_other f b d (suc (f b)) (flip d b e), e) (omega arith)
  ]

  -- The return of a body counts the block that the slot in_hand.
  counts_one :
      (f : ℕ → ℕ → ℕ) (k b m d : ℕ)
      → put f k (put (f k) b (suc (f k b))) m d ≡ f m d + in_hand m d (running k b)
  unfolding in_hand
  counts_one f k b m d =
      let row = put (f k) b (suc (f k b)) in
      elim (Bool-cases (m == k)) [
        | inl e ↦
            subst (λ m. put f k row m d ≡ f m d + (if (m == k) && (d == b) then 1 else 0))
              (sym ((==_iff m k).0 e)) (rw (put_self f k row, ==_self k) (row_counts (f k) b d))
        | inr e ↦ rw (put_other f k m row (flip m k e), e) (omega arith)
      ]

  or_off : (a b : Bool) → (a || b) ≡ false → a ≡ false
  or_off true b e = absurd (cc e)
  or_off false b e = refl

  Step-Balance :
      {s : Chain} (i : ℕ) {s' : Chain}
      → Step c n_blocks s i s'
      → i < c.participants
      → Balance s
      → Balance s'
  unfolding in_hand
  Step-Balance {s} i (first e m) l v =
      idle s i (at_gate 0) v l e (λ k b. refl) (λ k b. refl) _ (λ o. o) refl refl refl
  Step-Balance {s} i (begin_scan {k = k} e m) l v =
      idle s i (scanning (suc k) 1) v l e (λ k b. refl) (λ k b. refl) _ (λ o. o) refl refl refl
  Step-Balance {s} i (scan_next {k = k} {step = step} e m d) l v =
      idle s i (scanning k (suc step)) v l e (λ k b. refl) (λ k b. refl) _ (λ o. o) refl refl refl
  Step-Balance {s} i (scan_over {k = k} e m) l v =
      idle s i (at_gate k) v l e (λ k b. refl) (λ k b. refl) _ (λ o. o) refl refl refl
  Step-Balance {s} i (go_on {k = k} e x) l v =
      idle s i (looping k) v l e (λ k b. refl) (λ k b. refl) _ (λ o. o) refl refl refl
  Step-Balance {s} i {s'} (bail stopped e x) l v =
      idle s i bailing v l e (λ k b. refl) (λ k b. refl) s' (or_off s.chain_cancelled stopped) refl
        refl refl
  Step-Balance {s} i (look {k = k} e x) l v =
      idle s i (claiming k) v l e (λ k b. refl) (λ k b. refl) _ (λ o. o) refl refl refl
  Step-Balance {s} i (drain {k = k} e x) l v =
      idle s i (stamping k) v l e (λ k b. refl) (λ k b. refl) _ (λ o. o) refl refl refl
  Step-Balance {s} i {s'} (claim {k = k} e) l v =
      balanced s s' (λ o. o)
        (λ m b w.
          let a = holders_moves s.place i (claimed n_blocks k (s.next_block k)) m b l e in
          let h = claims_one s.next_block k m b w in omega (arith, a, h))
        v
  Step-Balance {s} i {s'} (body_done {k = k} {b = b} e) l v =
      balanced s s' (λ o. o)
        (λ m d w.
          let a = holders_moves s.place i (looping k) m d l e in
          let h = counts_one s.ran k b m d in omega (arith, a, h))
        v
  Step-Balance {s} i {s'} (body_threw {k = k} {b = b} x e) l v = record {
    at_most = λ m d w.
        let a = holders_moves s.place i bailing m d l e in
        let h = v.at_most m d w in omega (arith, a, h);
    exact = λ o. absurd (cc o);
  }
  Step-Balance {s} i {s'} (stamp {k = k} e) l v =
      idle s i (arriving (suc k)) v l e (λ k b. refl) (λ k b. refl) s' (λ o. o) refl refl refl
  Step-Balance {s} i {s'} (stamp_bailed e) l v =
      idle s i bailed v l e (λ k b. refl) (λ k b. refl) s' (λ o. o) refl refl refl
  Step-Balance {s} i (leave {k = k} e m) l v =
      idle s i finished v l e (λ k b. refl) (λ k b. refl) _ (λ o. o) refl refl refl

  pub Reach-Balance : {n : ℕ} {s : Chain} → Reach c n_blocks n s → Balance s
  unfolding in_hand
  Reach-Balance (start {s = s} f) = record {
    at_most = λ k b l. let e = none k b in omega (arith, e);
    exact = λ o k b l. none k b ∙ sym (unhanded k b);
  }
    where
      unhanded : (k b : ℕ) → handed s k b ≡ 0
      unhanded k b = rw (f.unclaimed k, le→ltb b 0 (omega arith)) refl

      none : (k b : ℕ) → s.ran k b + holders s.place k b ≡ 0
      none k b =
          let a = f.unrun k b in
          let h =
            sum_zero (λ j. in_hand k b (s.place j)) c.participants
              (λ j l. rw (f.all_first j) refl) in
          omega (arith, a, h)
  Reach-Balance (next i r l st) = Step-Balance i st l (Reach-Balance r)
