-- ===== src/Chain/Steps.antt =====
-- Every step of a slot keeps what holds at its place.
use citor.Prelude.{
  ℕ, suc, ◌+◌, ◌≤◌, ◌<◌, ◌≡◌, refl, sym, subst, ◌∙◌, arith, true, false, ◌&&◌, ◌==◌, ltb, lt→ltb,
  le→ltb, if◌then◌else◌, put, put_self, put_other, at_put, Bool-cases, ==_iff, ==_ne, ne→==, inl,
  inr,
}
use citor.Prelude.Sums.{up_to, ltb_next}
use citor.Chain.Defs.{
  Call, Place, arriving, scanning, at_gate, running, stamping, bailing, bailed, finished, Chain,
  prev_barrier, stamp_needed, peer, Step, pass, begin_scan, scan_next, scan_over, begin_serial,
  serial_over, go_on, bail, body_done, body_threw, stamp, stamp_bailed, leave, IsFresh, Reach,
  start, next,
}
use citor.Chain.Roles.{
  runs, Fits, move, at_own, quiet, calm-Roles, at_zero, met, no_wait, rendezvous_runs, serial_runs,
  Here, Roles, Later, not_both,
}

module _ (c : Call) where
  -- The slot is past the body of its stage.
  past-Here :
      (d k i : ℕ) (f f' : ℕ → ℕ)
      → Here c d f i k k
      → f' k ≡ f k + (if runs c i k then 1 else 0)
      → ((m : ℕ) → (m == k) ≡ false → f' m ≡ f m)
      → Here c d f' i k (suc k)
  past-Here d k i f f' h e o = record {
    up = h.up;
    low = h.low;
    did = λ m. elim (Bool-cases (m == k)) [
      | inl q ↦
          subst (λ m. f' m ≡ (if ltb m (suc k) && runs c i m then 1 else 0))
            (sym ((==_iff m k).0 q)) there
      | inr q ↦ rw (ltb_next m k q) (o m q ∙ h.did m)
    ];
  }
    where
      before : f k ≡ 0
      before = h.did k ∙ rw (le→ltb k k (omega arith)) refl

      there : f' k ≡ (if ltb k (suc k) && runs c i k then 1 else 0)
      there = rw (lt→ltb k (suc k) (omega arith)) (omega (arith, e, before))

  stamped-Here :
      (d k i : ℕ) (f : ℕ → ℕ)
      → Here c d f i k (suc k)
      → Here c (c.epoch_base + (k + 1)) f i (suc k) (suc k)
  stamped-Here d k i f h = record { up = omega arith; low = λ m l e. omega (arith, l); did = h.did }

  unstamped-Here :
      (d k i : ℕ) (f : ℕ → ℕ)
      → Here c d f i k (suc k)
      → stamp_needed c i k ≡ false
      → Here c d f i (suc k) (suc k)
  unstamped-Here d k i f h o = record {
    up = let u = h.up in omega (arith, u);
    low =
        up_to (λ m. stamp_needed c i m ≡ true → c.epoch_base + (m + 1) ≤ d) k h.low
          (λ e. absurd (cc (e, o)));
    did = h.did;
  }

  -- The step that writes the stamp of slot `i`.
  stamped :
      (s : Chain) (i d : ℕ) (q : Place)
      → s.done i ≤ d
      → Later c i s (record s { done = put s.done i d; place = put s.place i q })
  stamped s i d q up = record {
    cancelled_on = λ z. z;
    done_on = at_put (λ k w. s.done k ≤ w) s.done i d up (λ k. omega arith);
    done_same = λ j o. put_other s.done i j d o;
    ran_same = λ j o. refl;
  }

  at_end :
      {d i : ℕ} {f : ℕ → ℕ} (k : ℕ)
      → k ≤ c.n_stages
      → c.n_stages ≤ k
      → Here c d f i k k
      → Here c d f i c.n_stages c.n_stages
  at_end {d} {i} {f} k n l h = subst (λ m. Here c d f i m m) (omega (arith, n, l)) h

  Step-Roles :
      {s : Chain} (i : ℕ) {s' : Chain} → Step c s i s' → i < c.participants → Roles c s → Roles c s'
  Step-Roles {s} i (pass {k = k} p l e) own r =
      let (n, h) = at_own c s i r p in
      let (w, b) = no_wait c k i s.done e in calm-Roles c s i (at_gate k true) r (l, h, w, b)
  Step-Roles {s} i (begin_scan {k = k} p l e) own r =
      let (n, h) = at_own c s i r p in
      calm-Roles c s i (scanning k 1) r
        (l, h, e, λ t z m. absurd (omega (arith, z, m)), omega arith)
  Step-Roles {s} i (scan_next {k = k} {step = step} p l d) own r =
      let (n, h, e, seen, f) = at_own c s i r p in
      calm-Roles c s i (scanning k (suc step)) r (
        n,
        h,
        e,
        λ t z m.
            up_to (λ t. 0 < t → c.epoch_base + k ≤ s.done (peer c i t)) step (λ t m z. seen t z m)
              (λ _. d) t m z,
        omega arith,
      )
  Step-Roles {s} i (scan_over {k = k} {step = step} p l) own r =
      let (n, h, e, seen, f) = at_own c s i r p in
      calm-Roles c s i (at_gate k true) r (
        n,
        h,
        record {
          all_there = λ _. met c s.done i (c.epoch_base + k) step own l seen;
          producer_done = λ z. absurd (not_both (prev_barrier c k) e z);
        },
        rendezvous_runs c k i e,
      )
  Step-Roles {s} i {s'} (begin_serial {k = k} p l e) own r =
      let (n, h) = at_own c s i r p in
      calm-Roles c s i _ r (
        at_zero c (Fits c s' i) i
          (λ z. (
            l,
            h,
            record {
              all_there = λ a. absurd (not_both (prev_barrier c k) a e);
              producer_done = λ _ o. absurd (o z);
            },
            serial_runs c k i e ((==_iff i 0).1 z),
          ))
          (λ z. (l, h, e, z)))
  Step-Roles {s} i (serial_over {k = k} p d) own r =
      let (n, h, e, z) = at_own c s i r p in
      calm-Roles c s i (at_gate k false) r (
        n,
        h,
        record {
          all_there = λ a. absurd (not_both (prev_barrier c k) a e);
          producer_done = λ _ _. d;
        },
        serial_runs c k i e (ne→== i 0 z),
      )
  Step-Roles {s} i (go_on {k = k} {runs_body = true} p x) own r =
      calm-Roles c s i (running k) r (at_own c s i r p)
  Step-Roles {s} i (go_on {k = k} {runs_body = false} p x) own r =
      let (n, h, e, b) = at_own c s i r p in
      calm-Roles c s i (stamping k) r
        (n, past-Here (s.done i) k i (s.ran i) (s.ran i) h (rw b (omega arith)) (λ m o. refl), e)
  Step-Roles {s} i (bail {k = k} stopped p x) own r =
      let (n, h, e, b) = at_own c s i r p in
      move c s _ i bailing r (quiet c s _ i (λ z. rw z refl) refl refl) (λ j. refl)
        (x, let u = h.up in omega (arith, u, n))
  Step-Roles {s} i (body_done {k = k} p) own r =
      let (n, h, w, b) = at_own c s i r p in
      move c s _ i (stamping k) r
        (record {
          cancelled_on = λ z. z;
          done_on = λ j. omega arith;
          done_same = λ j o. refl;
          ran_same = λ j o. put_other s.ran i j _ o;
        })
        (λ j. refl)
        (
          n,
          rw (put_self s.ran i (put (s.ran i) k (suc (s.ran i k)))) (
              past-Here (s.done i) k i (s.ran i) (put (s.ran i) k (suc (s.ran i k))) h
                (rw b (put_self (s.ran i) k (suc (s.ran i k)) ∙ omega arith))
                (λ m o. put_other (s.ran i) k m _ (ne→== k m (λ q. ==_ne m k o (sym q))))),
          w,
        )
  Step-Roles {s} i (body_threw {k = k} e p) own r =
      let (n, h, w, b) = at_own c s i r p in
      move c s _ i bailing r (quiet c s _ i (λ z. refl) refl refl) (λ j. refl)
        (refl, let u = h.up in omega (arith, u, n))
  Step-Roles {s} i (stamp {k = k} p) own r =
      let (n, h, w) = at_own c s i r p in
      elim (Bool-cases (stamp_needed c i k)) [
        | inl e ↦ rw e (
            move c s _ i (arriving (suc k)) r
              (stamped s i (c.epoch_base + (k + 1)) _ (let u = h.up in omega (arith, u)))
              (λ j. refl)
              (
                omega (arith, n),
                rw (put_self s.done i (c.epoch_base + (k + 1)))
                    (stamped-Here (s.done i) k i (s.ran i) h),
              ))
        | inr e ↦ rw e (
            calm-Roles c s i (arriving (suc k)) r
              (omega (arith, n), unstamped-Here (s.done i) k i (s.ran i) h e))
      ]
  Step-Roles {s} i (stamp_bailed p) own r =
      let (x, u) = at_own c s i r p in
      move c s _ i bailed r (stamped s i (c.epoch_base + c.n_stages) bailed u) (λ j. refl)
        (x, rw (put_self s.done i (c.epoch_base + c.n_stages)) (omega arith))
  Step-Roles {s} i (leave {k = k} p l) own r =
      let (n, h) = at_own c s i r p in calm-Roles c s i finished r (at_end k n l h)

  pub Reach-Roles : {n : ℕ} {s : Chain} → Reach c n s → Roles c s
  Reach-Roles (start {s = s} f) = record {
    fits = λ i. subst (Fits c s i) (sym (f.all_first i)) (omega arith, first s i f);
  }
    where
      first : (s : Chain) (i : ℕ) → IsFresh c s → Here c (s.done i) (s.ran i) i 0 0
      first s i f = record {
        up = let u = f.stamps i in omega (arith, u);
        low = λ m l. absurd (omega (arith, l));
        did = λ m. rw (le→ltb m 0 (omega arith)) (f.unrun i m);
      }
  Reach-Roles (next i r l st) = Step-Roles i st l (Reach-Roles r)
