-- ===== src/Chain/Dynamic/Steps.antt =====
-- Every step of a slot on the dynamic path keeps what holds at its place.
use citor.Prelude.{
  ℕ, suc, ◌+◌, ◌≤◌, ◌<◌, ◌≡◌, refl, sym, subst, arith, false, ltb, ltb→le, put, put_self,
  Bool-cases, inl, inr,
}
use citor.Prelude.Sums.{up_to}
use citor.Chain.Defs.{Call, peer}
use citor.Chain.Roles.{met}
use citor.Chain.Dynamic.Defs.{
  Place, arriving, scanning, at_gate, looping, claiming, running, stamping, bailing, bailed,
  finished, Chain, go, claimed, Step, first, begin_scan, scan_next, scan_over, go_on, bail, look,
  drain, claim, body_done, body_threw, stamp, stamp_bailed, leave, Reach, start, next,
}
use citor.Chain.Dynamic.Roles.{
  Drained, Here, Entered, Fits, later-Drained, move, at_own, quiet, calm, stamped, counted, Roles,
}

module _ (c : Call) (n_blocks : ℕ) where
  -- What a loop leaves behind, once it is over.
  up_to_stage :
      (s : Chain) (k : ℕ)
      → ((m : ℕ) → m < k → Drained c n_blocks s m)
      → Drained c n_blocks s k
      → (m : ℕ) → m < suc k
      → Drained c n_blocks s m
  up_to_stage s k h e = up_to (Drained c n_blocks s) k h e

  -- The state after a claim.
  abbrev after_claim : Chain → (slot stage : ℕ) → Place → Chain
  after_claim s i k q = record s {
    next_block = put s.next_block k (suc (s.next_block k));
    place = put s.place i q;
  }

  claim-Roles :
      (s : Chain) (i k : ℕ)
      → Roles c n_blocks s
      → k < c.n_stages
      → Here c n_blocks s i k k
      → Entered c n_blocks s i k
      → Roles c n_blocks (after_claim s i k (claimed n_blocks k (s.next_block k)))
  claim-Roles s i k r n (u, d, b) w = elim (Bool-cases (ltb (s.next_block k) n_blocks)) [
    | inl o ↦
        let q = running k (s.next_block k) in
        rw o (
          move c n_blocks s (after_claim s i k q) i q r (counted c n_blocks s i k q) (λ j. refl)
            (n, (u, kept q, b), w))
    | inr o ↦
        let q = stamping k in
        rw o (
          move c n_blocks s (after_claim s i k q) i q r (counted c n_blocks s i k q) (λ j. refl)
            (n, (u, up_to_stage (after_claim s i k q) k (kept q) (inl (full o)), b), w))
  ]
    where
      kept : (q : Place) (m : ℕ) → m < k → Drained c n_blocks (after_claim s i k q) m
      kept q m z =
          later-Drained c n_blocks s (after_claim s i k q) m (counted c n_blocks s i k q) (d m z)

      full :
          ltb (s.next_block k) n_blocks ≡ false
          → n_blocks ≤ put s.next_block k (suc (s.next_block k)) k
      full o =
          let h = ltb→le (s.next_block k) n_blocks o in
          rw (put_self s.next_block k (suc (s.next_block k))) (omega (arith, h))

  Step-Roles :
      {s : Chain} (i : ℕ) {s' : Chain}
      → Step c n_blocks s i s'
      → i < c.participants
      → Roles c n_blocks s
      → Roles c n_blocks s'
  Step-Roles {s} i (first e m) own r =
      calm c n_blocks s i (at_gate 0) r
        (m, (at_own c n_blocks s i r e).1, λ z. absurd (omega (arith, z)))
  Step-Roles {s} i (begin_scan {k = k} e m) own r = calm c n_blocks s i (scanning (suc k) 1) r (
    m,
    (at_own c n_blocks s i r e).1,
    omega arith,
    omega arith,
    λ t z w. absurd (omega (arith, z, w)),
  )
  Step-Roles {s} i (scan_next {k = k} {step = step} e m d) own r =
      let (n, h, g, f, seen) = at_own c n_blocks s i r e in
      calm c n_blocks s i (scanning k (suc step)) r (
        n,
        h,
        g,
        omega arith,
        λ t z w.
            up_to (λ t. 0 < t → c.epoch_base + k ≤ s.done (peer c i t)) step (λ t w z. seen t z w)
              (λ _. d) t w z,
      )
  Step-Roles {s} i (scan_over {k = k} {step = step} e m) own r =
      let (n, h, g, f, seen) = at_own c n_blocks s i r e in
      calm c n_blocks s i (at_gate k) r
        (n, h, λ _. met c s.done i (c.epoch_base + k) step own m seen)
  Step-Roles {s} i (go_on {k = k} e x) own r =
      calm c n_blocks s i (looping k) r (at_own c n_blocks s i r e)
  Step-Roles {s} i (bail {k = k} stopped e x) own r =
      let (n, (u, d, b), w) = at_own c n_blocks s i r e in
      move c n_blocks s _ i bailing r (quiet c n_blocks s _ i (λ z. rw z refl) refl refl)
        (λ j. refl) (x, omega (arith, u, n))
  Step-Roles {s} i (look {k = k} e x) own r =
      calm c n_blocks s i (claiming k) r (at_own c n_blocks s i r e)
  Step-Roles {s} i (drain {k = k} e x) own r =
      let (n, (u, d, b), w) = at_own c n_blocks s i r e in
      calm c n_blocks s i (stamping k) r
        (n, (u, up_to_stage (go s i (stamping k)) k d (inr x), b), w)
  Step-Roles {s} i (claim {k = k} e) own r =
      let (n, h, w) = at_own c n_blocks s i r e in claim-Roles s i k r n h w
  Step-Roles {s} i (body_done {k = k} {b = b} e) own r =
      move c n_blocks s _ i (looping k) r (quiet c n_blocks s _ i (λ z. z) refl refl) (λ j. refl)
        (at_own c n_blocks s i r e)
  Step-Roles {s} i (body_threw {k = k} x e) own r =
      let (n, (u, d, b), w) = at_own c n_blocks s i r e in
      move c n_blocks s _ i bailing r (quiet c n_blocks s _ i (λ z. refl) refl refl) (λ j. refl)
        (refl, omega (arith, u, n))
  Step-Roles {s} i (stamp {k = k} e) own r =
      let (n, (u, d, b), w) = at_own c n_blocks s i r e in
      move c n_blocks s _ i (arriving (suc k)) r
        (stamped c n_blocks s i (c.epoch_base + (k + 1)) _ (omega (arith, u))) (λ j. refl)
        (
          omega (arith, n),
          (
            rw (put_self s.done i (c.epoch_base + (k + 1))) (omega arith),
            d,
            λ _. rw (put_self s.done i (c.epoch_base + (k + 1))) (omega arith),
          ),
        )
  Step-Roles {s} i (stamp_bailed e) own r =
      let (x, u) = at_own c n_blocks s i r e in
      move c n_blocks s _ i bailed r (stamped c n_blocks s i (c.epoch_base + c.n_stages) bailed u)
        (λ j. refl) (x, rw (put_self s.done i (c.epoch_base + c.n_stages)) (omega arith))
  Step-Roles {s} i (leave {k = k} e m) own r =
      let (n, (u, d, b)) = at_own c n_blocks s i r e in
      let at : k ≡ c.n_stages = omega (arith, n, m) in
      calm c n_blocks s i finished r
        (λ t w. d t (omega (arith, w, m)), subst (λ k. 0 < k → c.epoch_base + k ≤ s.done i) at b)

  pub Reach-Roles : {n : ℕ} {s : Chain} → Reach c n_blocks n s → Roles c n_blocks s
  Reach-Roles (start {s = s} f) = record {
    fits = λ i. subst (Fits c n_blocks s i) (sym (f.all_first i)) (
      omega arith,
      (
        let u = f.stamps i in omega (arith, u),
        λ m w. absurd (omega (arith, w)),
        λ w. absurd (omega (arith, w)),
      ),
    );
  }
  Reach-Roles (next i r l st) = Step-Roles i st l (Reach-Roles r)
