-- ===== src/Dispatch/Fresh.antt =====
-- A dispatch never runs a worker with the parameters of an earlier call.
use citor.Prelude.{
  ℕ, ◌≡◌, ◌≢◌, refl, sym, ap, ◌∙◌, subst, Bool, true, false, ◌||◌, ◌==◌, leb, if◌then◌else◌, Option,
  none, some, Bool-cases, ◌⊎◌, inl, inr, arith, List, [], ◌∷◌, ==_self, ==_iff,
}
use citor.Dispatch.Reuse.{
  Key, Desc, Worker, Pool, Hints, key_matches, points_to, shape_of, write_desc, reuse_safe,
  run_phase, typed_worker_entry, written, publish, dispatch, run_calls, new_pool,
}

same_fields :
    (a b : Key)
    → key_matches a b ≡ true
    → (a.first ≡ b.first)
      × (a.last ≡ b.last)
      × (a.participants ≡ b.participants)
      × (a.priority ≡ b.priority)
      × (a.fn_ptr ≡ b.fn_ptr)
      × (a.worker_entry ≡ b.worker_entry)
      × (a.worker_state_base ≡ b.worker_state_base)
unfolding key_matches
same_fields a b h = ground arith

same_key : (a b : Key) → key_matches a b ≡ true → a ≡ b
same_key a b h =
    let (e1, e2, e3, e4, e5, e6, e7) = same_fields a b h in
    λ i. record {
      first = e1 i;
      last = e2 i;
      participants = e3 i;
      priority = e4 i;
      fn_ptr = e5 i;
      worker_entry = e6 i;
      worker_state_base = e7 i;
    }

points : (o : Option ℕ) (p : ℕ) → points_to o p ≡ true → o ≡ some p
unfolding points_to
points none p h = cc
points (some q) p h = ap some (ground arith)

some_injective : {a b : ℕ} → some a ≡ some b → a ≡ b
some_injective e = cc

not_both : true ≢ false
not_both e = cc

points_self : (p : ℕ) → points_to (some p) p ≡ true
unfolding points_to
points_self p = ==_self p

-- The worker's caches hold descriptor `p` with the fields of `d`.
Holds : Worker → ℕ → Desc → Type 0
Holds w p d =
    (w.cached_desc ≡ some p)
    × (w.cached_worker_entry ≡ d.key.worker_entry)
    × (w.cached_for d.key.worker_entry ≡ some d)

module _ (hints : Hints) where
  -- What a call is to run with.
  abbrev pub fresh : Key → Desc
  fresh key = record { key = key; shape = shape_of hints key }

  record Inv (s : Pool) : Type 0 where
    shaped :
        (p : ℕ)
        → ((s.descs p).shape.chunk == 0 || (s.descs p).shape.block_count == 0) ≡ false
        → (s.descs p).shape ≡ shape_of hints (s.descs p).key
    filled : (p : ℕ) → s.last_published ≡ some p → s.descs p ≡ fresh (s.descs p).key
    primed :
        (p i : ℕ)
        → s.last_published ≡ some p
        → leb (s.descs p).shape.block_count 1 ≡ false
        → Holds (s.worker i) p (s.descs p)

  write_desc-fresh :
      (old : Desc) (key : Key)
      → ((old.shape.chunk == 0 || old.shape.block_count == 0) ≡ false
          → old.shape ≡ shape_of hints old.key)
      → write_desc hints old key ≡ fresh key
  unfolding write_desc
  write_desc-fresh old key h = elim (Bool-cases (key_matches old.key key)) [
    | inr differs ↦ rw differs refl
    | inl same ↦ elim (Bool-cases (old.shape.chunk == 0 || old.shape.block_count == 0)) [
      | inl empty ↦ rw (same, empty) refl
      | inr full ↦
          rw (same, full)
            (ap (λ s. record { key = key; shape = s })
              (h full ∙ ap (shape_of hints) (same_key old.key key same)))
    ]
  ]

run_reused :
    (descs : ℕ → Desc) (w : Worker) (p : ℕ) (d : Desc)
    → Holds w p d
    → ((run_phase descs true w).1 ≡ d) × Holds (run_phase descs true w).0 p d
unfolding run_phase typed_worker_entry Holds
run_reused descs w p d (hd, he, hf) =
    rw (hd, points_self p, he, hf) (refl, (refl, refl, rw (==_self d.key.worker_entry) refl))

run_full :
    (descs : ℕ → Desc) (w : Worker) (p : ℕ)
    → w.mailbox_desc ≡ p
    → ((run_phase descs false w).1 ≡ descs p) × Holds (run_phase descs false w).0 p (descs p)
unfolding run_phase typed_worker_entry Holds
run_full descs w p e = rw e (refl, (refl, refl, rw (==_self (descs p).key.worker_entry) refl))

module _ (hints : Hints) (s : Pool) (inv : Inv hints s) (q : ℕ) (eligible : Bool) (key : Key) where
  written_self : (written hints s q key).descs q ≡ fresh hints key
  unfolding written
  written_self = rw (==_self q) (write_desc-fresh hints (s.descs q) key (inv.shaped q))

  reuse_holds :
      reuse_safe s q eligible key ≡ true
      → (s.last_published ≡ some q) × (s.descs q ≡ fresh hints key)
  unfolding reuse_safe
  reuse_holds h =
      let last = points s.last_published q (ground arith) in
      (last, inv.filled q last ∙ ap (fresh hints) (same_key (s.descs q).key key (ground arith)))

  published :
      (i : ℕ)
      → leb (shape_of hints key).block_count 1 ≡ false
      → ((publish hints s q eligible key i).1 ≡ fresh hints key)
        × Holds (publish hints s q eligible key i).0 q (fresh hints key)
  unfolding publish
  published i many = elim (Bool-cases (reuse_safe s q eligible key)) [
    | inl reuse ↦
        rw reuse
          (run_reused (written hints s q key).descs (s.worker i) q (fresh hints key) (still reuse))
    | inr full ↦ rw full (
        subst
          (λ d.
            ((run_phase (written hints s q key).descs false
                (record (s.worker i) { mailbox_desc = q })).1
              ≡ d)
            × Holds
                (run_phase (written hints s q key).descs false
                  (record (s.worker i) { mailbox_desc = q })).0
                q d)
          written_self
          (run_full (written hints s q key).descs (record (s.worker i) { mailbox_desc = q }) q
            refl))
  ]
    where
      still : reuse_safe s q eligible key ≡ true → Holds (s.worker i) q (fresh hints key)
      still reuse =
          let (last, same) = reuse_holds reuse in
          subst (Holds (s.worker i) q) same
            (inv.primed q i last (rw (ap (λ d. d.shape.block_count) same) many))

  written_other : (p : ℕ) → (p == q) ≡ false → (written hints s q key).descs p ≡ s.descs p
  unfolding written
  written_other p e = rw e refl

  written_last : (written hints s q key).last_published ≡ s.last_published
  unfolding written
  written_last = refl

  written_worker : (i : ℕ) → s.worker i ≡ (written hints s q key).worker i
  unfolding written
  written_worker i = refl

  written_cases :
      (p : ℕ)
      → ((written hints s q key).descs p ≡ fresh hints key)
        ⊎ ((written hints s q key).descs p ≡ s.descs p)
  written_cases p = elim (Bool-cases (p == q)) [
    | inl e ↦ inl (
        subst (λ p. (written hints s q key).descs p ≡ fresh hints key) (sym ((==_iff p q).0 e))
          written_self)
    | inr e ↦ inr (written_other p e)
  ]

  written-shaped :
      (p : ℕ)
      → (((written hints s q key).descs p).shape.chunk == 0
          || ((written hints s q key).descs p).shape.block_count == 0)
        ≡ false
      → ((written hints s q key).descs p).shape
        ≡ shape_of hints ((written hints s q key).descs p).key
  written-shaped p = elim (written_cases p) [
    | inl e ↦
        subst
          (λ d.
            (d.shape.chunk == 0 || d.shape.block_count == 0) ≡ false
            → d.shape ≡ shape_of hints d.key)
          (sym e) (λ _. refl)
    | inr e ↦
        subst
          (λ d.
            (d.shape.chunk == 0 || d.shape.block_count == 0) ≡ false
            → d.shape ≡ shape_of hints d.key)
          (sym e) (inv.shaped p)
  ]

  written-filled :
      (p : ℕ)
      → s.last_published ≡ some p
      → (written hints s q key).descs p ≡ fresh hints ((written hints s q key).descs p).key
  written-filled p last = elim (written_cases p) [
    | inl e ↦ subst (λ d. d ≡ fresh hints d.key) (sym e) refl
    | inr e ↦ subst (λ d. d ≡ fresh hints d.key) (sym e) (inv.filled p last)
  ]

  -- The descriptor of an inlined call has one block at most.
  inlined-Inv : leb (shape_of hints key).block_count 1 ≡ true → Inv hints (written hints s q key)
  inlined-Inv few = record {
    shaped = written-shaped;
    filled = λ p last. written-filled p (kept last);
    primed = λ p i last many. primed p i (kept last) many (written_cases p);
  }
    where
      kept : {p : ℕ} → (written hints s q key).last_published ≡ some p → s.last_published ≡ some p
      kept e = sym written_last ∙ e

      primed :
          (p i : ℕ)
          → s.last_published ≡ some p
          → leb ((written hints s q key).descs p).shape.block_count 1 ≡ false
          → ((written hints s q key).descs p ≡ fresh hints key)
            ⊎ ((written hints s q key).descs p ≡ s.descs p)
          → Holds ((written hints s q key).worker i) p ((written hints s q key).descs p)
      primed p i last many (inl e) =
          absurd (not_both (sym few ∙ sym (ap (λ d. leb d.shape.block_count 1) e) ∙ many))
      primed p i last many (inr e) =
          subst (λ w. Holds w p ((written hints s q key).descs p)) (written_worker i)
            (subst (Holds (s.worker i) p) (sym e)
              (inv.primed p i last (sym (ap (λ d. leb d.shape.block_count 1) e) ∙ many)))

  -- The descriptor of a call that was published is the last published one.
  published-Inv :
      leb (shape_of hints key).block_count 1 ≡ false
      → Inv hints (record (written hints s q key) {
        worker = λ i. (publish hints s q eligible key i).0;
        last_published = if reuse_safe s q eligible key then s.last_published else some q;
      })
  published-Inv many = record {
    shaped = written-shaped;
    filled = λ p last.
        subst
          (λ p. (written hints s q key).descs p ≡ fresh hints ((written hints s q key).descs p).key)
          (here p last) (subst (λ d. d ≡ fresh hints d.key) (sym written_self) refl);
    primed = λ p i last _.
        subst (λ p. Holds (publish hints s q eligible key i).0 p ((written hints s q key).descs p))
          (here p last)
          (subst (Holds (publish hints s q eligible key i).0 q) (sym written_self)
            (published i many).1);
  }
    where
      last_is : (if reuse_safe s q eligible key then s.last_published else some q) ≡ some q
      last_is = elim (Bool-cases (reuse_safe s q eligible key)) [
        | inl reuse ↦ rw reuse (reuse_holds reuse).0
        | inr full ↦ rw full refl
      ]

      here :
          (p : ℕ)
          → (if reuse_safe s q eligible key then s.last_published else some q) ≡ some p
          → q ≡ p
      here p last = some_injective (sym last_is ∙ last)

  dispatch-Inv : Inv hints (dispatch hints s q eligible key)
  unfolding dispatch
  dispatch-Inv = elim (Bool-cases (leb (shape_of hints key).block_count 1)) [
    | inl few ↦ rw (ap (λ d. leb d.shape.block_count 1) written_self ∙ few) (inlined-Inv few)
    | inr many ↦ rw (ap (λ d. leb d.shape.block_count 1) written_self ∙ many) (published-Inv many)
  ]

module _ (hints : Hints) where
  new_pool-Inv : Inv hints new_pool
  new_pool-Inv = record { shaped = λ p h. cc; filled = λ p h. cc; primed = λ p i h. cc }

  run_calls-Inv :
      (calls : List (ℕ × Bool × Key)) (s : Pool) → Inv hints s → Inv hints (run_calls hints s calls)
  unfolding run_calls
  run_calls-Inv [] s inv = inv
  run_calls-Inv ((q, eligible, key) ∷ calls) s inv =
      run_calls-Inv calls (dispatch hints s q eligible key)
        (dispatch-Inv hints s inv q eligible key)

  -- After any calls by any producers, a call that is not inlined runs every worker with the call's own
  -- key and with the shape that the key gives, also where the worker reads its cache and not the
  -- descriptor.
  pub publish_fresh :
      (calls : List (ℕ × Bool × Key)) (q : ℕ) (eligible : Bool) (key : Key) (i : ℕ)
      → leb (shape_of hints key).block_count 1 ≡ false
      → (publish hints (run_calls hints new_pool calls) q eligible key i).1 ≡ fresh hints key
  publish_fresh calls q eligible key i many =
      (published hints (run_calls hints new_pool calls) (run_calls-Inv calls new_pool new_pool-Inv)
        q eligible key i many).0
