-- ===== src/Scan/TwoPass/Moves.antt =====
-- Each kind of step keeps the values.
use citor.Prelude.{
  ℕ, ◌+◌, ◌≤◌, ◌<◌, ◌≡◌, ◌≢◌, refl, ap, subst, ◌∙◌, Bool, true, false, ◌==◌, Option, some, put,
  at_put, Bool-cases, ==_iff, inl, inr, ◌⊎◌,
}
use citor.Failure.{failed}
use citor.Scan.TwoPass.Defs.{returned, Call, Place, pass_one, publishing, second, finished, Scan}
use citor.Scan.TwoPass.Reduce.{exclusive}
use citor.Scan.TwoPass.Values.{
  before, passed, Seeded, Good, Valued, at_producer, from_producer, zeroth,
}

module _ {ℓ} {A : Type ℓ} (c : Call A) where
  module _ (s : Scan A) (v : Valued c s) (i : ℕ) (l : i < c.participants) where
    -- No slot runs Pass 2 while one is in Pass 1.
    unseeded : s.place i ≡ pass_one → ¬ Seeded c s
    unfolding passed
    unseeded p h = cc (h.all i l, ap passed p)

    pub one-Valued :
        (t : A) (q : Place)
        → s.place i ≡ pass_one
        → c.body i c.identity ≡ returned t
        → (i ≡ 0 → before q ≡ true)
        → q ≢ second
        → q ≢ finished
        → Valued c (record s {
          partials = put s.partials i t;
          done = put s.done i (c.epoch_base + 1);
          place = put s.place i q;
        })
    unfolding before
    one-Valued t q p b first busy more = record {
      wrote = λ h k d. elim (Bool-cases (i == k)) [
        | inl e ↦ inr (rw e (subst (λ k. c.body k c.identity ≡ returned t) ((==_iff i k).0 e) b))
        | inr e ↦ elim (v.wrote (still h) k (rw e at d)) [ inl f ↦ inl f | inr w ↦ inr (rw e w) ]
      ];
      alarm = v.alarm;
      good = λ h. inl (lost h);
      over = λ h.
          at_producer (λ p. before p ≡ false) s.place i q
            (λ z. cc (ap before (zeroth s i p z), v.over h)) (λ z. v.over h);
      running = λ k h. absurd (unseeded p (ran k h));
      seeded = v.seeded;
      result = λ h.
          from_producer (λ p. p ≡ finished) _ s.place i q (λ z e. absurd (more e))
            (λ z e. v.result e) h;
    }
      where
        still : before (put s.place i q 0) ≡ true → before (s.place 0) ≡ true
        still h =
            from_producer (λ p. before p ≡ true) (before (s.place 0) ≡ true) s.place i q
              (λ z _. ap before (zeroth s i p z)) (λ z h. h) h

        lost : before (put s.place i q 0) ≡ false → failed s.first_exception ≡ true
        lost h =
            from_producer (λ p. before p ≡ false) (failed s.first_exception ≡ true) s.place i q
              (λ z h. cc (first z, h))
              (λ z h. elim (v.good h) [ inl f ↦ f | inr g ↦ absurd (unseeded p g) ]) h

        ran : (k : ℕ) → put s.place i q k ≡ second → Seeded c s
        ran k h = elim (Bool-cases (i == k)) [
          | inl e ↦ absurd (busy (rw e at h))
          | inr e ↦ v.running k (rw e at h)
        ]

    -- The end of the sequential reduce.
    pub reduce-Valued :
        (ps : ℕ → A) (a : A) (x : Bool) (o : Option ℕ)
        → i ≡ 0
        → before (s.place i) ≡ true
        → (failed o ≡ true → x ≡ true)
        → Good c (record s {
          partials = ps;
          acc = a;
          cancelled = x;
          first_exception = o;
          place = put s.place i publishing;
        })
        → Valued c (record s {
          partials = ps;
          acc = a;
          cancelled = x;
          first_exception = o;
          place = put s.place i publishing;
        })
    unfolding before
    reduce-Valued ps a x o z yet alarm g = record {
      wrote = λ h. absurd (moved h);
      alarm = alarm;
      good = λ _. g;
      over = λ _.
          at_producer (λ p. before p ≡ false) s.place i publishing (λ _. refl) (λ n. absurd (n z));
      running = λ k h. absurd (unready (ran k h));
      seeded = v.seeded;
      result = λ h.
          from_producer (λ p. p ≡ finished) _ s.place i publishing (λ z e. cc) (λ n. absurd (n z))
            h;
    }
      where
        unready : ¬ Seeded c s
        unready h = cc (h.over, subst (λ k. before (s.place k) ≡ true) z yet)

        moved : before (put s.place i publishing 0) ≢ true
        moved h =
            from_producer (λ p. before p ≡ true) ⊥ s.place i publishing (λ _ e. cc)
              (λ n. absurd (n z)) h

        ran : (k : ℕ) → put s.place i publishing k ≡ second → Seeded c s
        ran k h = elim (Bool-cases (i == k)) [
          | inl e ↦ cc (rw e at h)
          | inr e ↦ v.running k (rw e at h)
        ]

    still :
        (q : Place)
        → (before q ≡ true → (i ≡ 0) × (before (s.place i) ≡ true))
        → before (put s.place i q 0) ≡ true
        → before (s.place 0) ≡ true
    still q back h =
        from_producer (λ p. before p ≡ true) (before (s.place 0) ≡ true) s.place i q
          (λ e h. subst (λ k. before (s.place k) ≡ true) e (back h).1) (λ e h. h) h

    gone :
        (q : Place)
        → (before q ≡ true → (i ≡ 0) × (before (s.place i) ≡ true))
        → before (s.place 0) ≡ false
        → before (put s.place i q 0) ≡ false
    gone q back h = elim (Bool-cases (before (put s.place i q 0))) [
      | inl e ↦ cc (still q back e, h)
      | inr e ↦ e
    ]

    pub seeded_on :
        (q : Place) {d : ℕ → ℕ} {b x : Bool} {o : Option ℕ} {z : ℕ → Option A} {n : A}
        → passed q ≡ true
        → (before q ≡ true → (i ≡ 0) × (before (s.place i) ≡ true))
        → Seeded c s
        → Seeded c (record s {
          done = d;
          published = b;
          cancelled = x;
          first_exception = o;
          seeds = z;
          inclusive_total = n;
          place = put s.place i q;
        })
    seeded_on q pass back g = record {
      over = gone q back g.over;
      all = at_put (λ k p. k < c.participants → passed p ≡ true) s.place i q (λ _. pass) g.all;
      prefixes = g.prefixes;
      whole = g.whole;
    }

    -- Every other step: the values stay, and the new place keeps what the invariant needs.
    pub keep-Valued :
        (q : Place) (d : ℕ → ℕ) (b x : Bool) (o : Option ℕ) (z : ℕ → Option A) (n : A)
        → passed q ≡ true
        → (before q ≡ true → (i ≡ 0) × (before (s.place i) ≡ true))
        → (i ≡ 0 → before q ≡ false → (before (s.place i) ≡ false) ⊎ (failed o ≡ true))
        → (failed s.first_exception ≡ true → failed o ≡ true)
        → (failed o ≡ true → x ≡ true)
        → (b ≡ true → (s.published ≡ true) ⊎ ((i ≡ 0) × (before q ≡ false)))
        → ((k : ℕ)
            → c.epoch_base + 1 ≤ d k
            → (failed o ≡ true) ⊎ ((s.published ≡ true) ⊎ (c.epoch_base + 1 ≤ s.done k)))
        → (q ≡ second → Seeded c s)
        → ((k : ℕ) (y : A) → z k ≡ some y → exclusive c k ≡ returned y)
        → (q ≡ finished → i ≡ 0 → (failed o ≡ true) ⊎ (n ≡ s.acc))
        → (i ≢ 0 → n ≡ s.inclusive_total)
        → Valued c (record s {
          done = d;
          published = b;
          cancelled = x;
          first_exception = o;
          seeds = z;
          inclusive_total = n;
          place = put s.place i q;
        })
    keep-Valued q d b x o z n pass back forth mono alarm news late busy seeded fin total = record {
      wrote = λ h k e. elim (late k e) [
        | inl f ↦ inl f
        | inr (inl w) ↦ cc (v.over w, still q back h)
        | inr (inr w) ↦ elim (v.wrote (still q back h) k w) [ inl f ↦ inl (mono f) | inr t ↦ inr t ]
      ];
      alarm = alarm;
      good = λ h. elim (fresh h) [
        | inl f ↦ inl f
        | inr w ↦ elim (v.good w) [ inl f ↦ inl (mono f) | inr g ↦ inr (seeded_on q pass back g) ]
      ];
      over = λ h. elim (news h) [
        | inl w ↦ gone q back (v.over w)
        | inr (e, w) ↦ at_producer (λ p. before p ≡ false) s.place i q (λ _. w) (λ n. absurd (n e))
      ];
      running = λ k h. seeded_on q pass back (ran k h);
      seeded = seeded;
      result = λ h.
          from_producer (λ p. p ≡ finished) _ s.place i q (λ e f. fin f e)
            (λ e f. ended e (v.result f)) h;
    }
      where
        fresh :
            before (put s.place i q 0) ≡ false → (failed o ≡ true) ⊎ (before (s.place 0) ≡ false)
        fresh h =
            from_producer (λ p. before p ≡ false) ((failed o ≡ true) ⊎ (before (s.place 0) ≡ false))
              s.place i q
              (λ e h. elim (forth e h) [
                | inl w ↦ inr (subst (λ k. before (s.place k) ≡ false) e w)
                | inr f ↦ inl f
              ])
              (λ e h. inr h) h

        ran : (k : ℕ) → put s.place i q k ≡ second → Seeded c s
        ran k h = elim (Bool-cases (i == k)) [
          | inl e ↦ busy (rw e at h)
          | inr e ↦ v.running k (rw e at h)
        ]

        ended :
            i ≢ 0
            → (failed s.first_exception ≡ true) ⊎ (s.inclusive_total ≡ s.acc)
            → (failed o ≡ true) ⊎ (n ≡ s.acc)
        ended e (inl f) = inl (mono f)
        ended e (inr w) = inr (total e ∙ w)
