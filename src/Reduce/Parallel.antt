-- ===== src/Reduce/Parallel.antt =====
-- `runReduceParallel` of include/citor/thread_pool.h, for a combine that is called on the partials
-- themselves: what is done once the dispatch of the chunks has returned.
use citor.Prelude.{
  ℕ, zero, suc, ◌+◌, ◌-◌, ◌*◌, ◌<◌, ◌≡◌, ◌≢◌, refl, dec_lt, sym, ap, ap₂, ◌∙◌, arith, Bool, true,
  false, ◌==◌, if◌then◌else◌, Bool-cases, inl, inr, ne→==,
}
use citor.Blocks.Shape.{ceil_div, reduce_chunk_size, IsCut}
use citor.Reduce.Tree.{assign, pairwise_tree_combine}
use citor.Reduce.Fold.{span, tree_is_fold}
use citor.Reduce.Inline.{Reduced, value, cancelled, partial, Splits, tree_maps}

-- The loop over the slots: `flat`, as its size and elements, and `anyMissed`.
pub record Collected {ℓ} (A : Type ℓ) : Type ℓ where
  pub size : ℕ
  pub flat : ℕ → A
  pub any_missed : Bool

not_both : true ≢ false
not_both e = cc

module _ {ℓ} {A : Type ℓ} (done : ℕ → Bool) (slot : ℕ → A) where
  -- The first `count` slots; `empty` stands where `flat` has no element.
  unfoldable pub collect : (empty : ℕ → A) → (count : ℕ) → Collected A
  collect empty zero = record { size = 0; flat = empty; any_missed = false }
  collect empty (suc count) =
      let c = collect empty count in
      if done count
      then record {
        size = c.size + 1;
        flat = assign c.flat c.size (slot count);
        any_missed = c.any_missed;
      }
      else record { size = c.size; flat = c.flat; any_missed = true }

  collect-size :
      (empty : ℕ → A) (count : ℕ)
      → ((b : ℕ) → b < count → done b ≡ true)
      → (collect empty count).size ≡ count
  unfolding collect
  collect-size empty zero h = refl
  collect-size empty (suc count) h =
      rw (h count (omega arith))
        (omega (arith, collect-size empty count (λ b lt. h b (omega arith))))

  collect-missed :
      (empty : ℕ → A) (count : ℕ)
      → ((b : ℕ) → b < count → done b ≡ true)
      → (collect empty count).any_missed ≡ false
  unfolding collect
  collect-missed empty zero h = refl
  collect-missed empty (suc count) h =
      rw (h count (omega arith)) (collect-missed empty count (λ b lt. h b (omega arith)))

  collect-flat :
      (empty : ℕ → A) (count b : ℕ)
      → ((b : ℕ) → b < count → done b ≡ true)
      → b < count
      → (collect empty count).flat b ≡ slot b
  unfolding collect
  collect-flat empty zero b h lt = absurd (omega arith)
  collect-flat empty (suc count) b h lt =
      rw (h count (omega arith), collect-size empty count (λ b lt. h b (omega arith)))
        (elim (Bool-cases (count == b)) [
          | inl e ↦ rw e (ap slot (ground (arith, e)))
          | inr e ↦
              rw e (collect-flat empty count b (λ b lt. h b (omega arith)) (ground (arith, e)))
        ])

  collect-some :
      (empty : ℕ → A) (count b : ℕ)
      → b < count
      → done b ≡ false
      → (collect empty count).any_missed ≡ true
  unfolding collect
  collect-some empty zero b lt e = absurd (omega arith)
  collect-some empty (suc count) b lt e = elim (Bool-cases (done count)) [
    | inl d ↦ rw d (collect-some empty count b (before d) e)
    | inr d ↦ rw d refl
  ]
    where
      before : done count ≡ true → b < count
      before d = elim (dec_lt b count) [
        | yes h ↦ h
        | no h ↦ absurd (not_both (sym d ∙ ap done {x = count} {y = b} (omega arith) ∙ e))
      ]

span-cong {ℓ} :
    {A : Type ℓ} (combine : A → A → A) (f g : ℕ → A) (count lo : ℕ)
    → ((b : ℕ) → b < lo + count + 1 → f b ≡ g b)
    → span combine f lo count ≡ span combine g lo count
unfolding span
span-cong combine f g zero lo h = h lo (omega arith)
span-cong combine f g (suc count) lo h =
    ap₂ combine (h lo (omega arith))
      (span-cong combine f g count (lo + 1) (λ b lt. h b (omega arith)))

module _ {ℓ} {A : Type ℓ} (combine : A → A → A) (mapped : ℕ → ℕ → A) where
  -- `done` says which chunks a rank has run before the dispatch returns.
  unfoldable pub run_reduce_parallel :
      (first last : ℕ) → A → (chunk_hint : ℕ) → (done : ℕ → Bool) → Reduced A
  run_reduce_parallel first last init chunk_hint done =
      let size = reduce_chunk_size (last - first) chunk_hint in
      let c =
        collect done (partial combine mapped first last size) (λ b. init)
          (ceil_div (last - first) size) in
      let combined = combine init (pairwise_tree_combine combine c.size c.flat) in
      if c.size == 0
      then cancelled init
      else if c.any_missed
      then cancelled combined
      else value combined

  module _ (assoc : (a b c : A) → combine (combine a b) c ≡ combine a (combine b c))
      (first last : ℕ) (splits : Splits combine mapped first last) (chunk_hint : ℕ) (init : A)
      (done : ℕ → Bool)
      (cut : IsCut first last
        (reduce_chunk_size (last - first) chunk_hint)
        (ceil_div (last - first) (reduce_chunk_size (last - first) chunk_hint))) where
    abbrev size : ℕ
    size = reduce_chunk_size (last - first) chunk_hint

    abbrev chunks : ℕ
    chunks = ceil_div (last - first) size

    abbrev slots : ℕ → A
    slots = partial combine mapped first last size

    some_chunk : 0 < chunks
    some_chunk = elim (dec_lt 0 chunks) [
      | yes h ↦ h
      | no h ↦ absurd (
          omega (
            arith,
            cut.covers,
            cut.forwards,
            ap (λ k. k * size) {x = chunks} {y = 0} (omega arith),
          ))
    ]

    whole : pairwise_tree_combine combine chunks slots ≡ mapped first last
    whole =
        tree_maps combine mapped first last size chunks cut assoc splits chunks some_chunk
          (omega arith)
        ∙ ap (mapped first) (omega (arith, cut.covers, cut.forwards))

    same_tree :
        (flat : ℕ → A)
        → ((b : ℕ) → b < chunks → flat b ≡ slots b)
        → pairwise_tree_combine combine chunks flat ≡ pairwise_tree_combine combine chunks slots
    same_tree flat h =
        tree_is_fold combine assoc chunks flat some_chunk
        ∙ span-cong combine flat slots (chunks - 1) 0 (λ b lt. h b (omega (arith, some_chunk)))
        ∙ sym (tree_is_fold combine assoc chunks slots some_chunk)

    -- For an associative combine and a map that splits over neighbouring ranges, the parallel
    -- reduction returns the initial value combined with the map of the whole range, if every chunk
    -- was run.
    pub run_reduce_parallel_lem :
        ((b : ℕ) → b < chunks → done b ≡ true)
        → run_reduce_parallel first last init chunk_hint done
          ≡ value (combine init (mapped first last))
    unfolding run_reduce_parallel
    run_reduce_parallel_lem h =
        rw
          (
            collect-size done slots (λ b. init) chunks h,
            collect-missed done slots (λ b. init) chunks h,
            ne→== chunks 0 (omega (arith, some_chunk)),
          )
          (ap (λ t. value (combine init t))
            (same_tree (collect done slots (λ b. init) chunks).flat
                (λ b lt. collect-flat done slots (λ b. init) chunks b h lt)
              ∙ whole))

    -- If a chunk was not run, the parallel reduction throws what it has and returns nothing.
    run_reduce_parallel_missed :
        (b : ℕ)
        → b < chunks
        → done b ≡ false
        → (kept : A) × (run_reduce_parallel first last init chunk_hint done ≡ cancelled kept)
    unfolding run_reduce_parallel
    run_reduce_parallel_missed b lt e = elim (Bool-cases (c.size == 0)) [
      | inl none ↦ (init, rw none refl)
      | inr some ↦ (
        combine init (pairwise_tree_combine combine c.size c.flat),
        rw (some, collect-some done slots (λ b. init) chunks b lt e) refl,
      )
    ]
      where
        c : Collected A
        c = collect done slots (λ b. init) chunks
