-- ===== src/Scan/TwoPass/Reduce.antt =====
-- The sequential reduce against the prefixes of the partial results.
use citor.Prelude.{
  ℕ, zero, suc, ◌+◌, ◌≤◌, ◌<◌, ◌≡◌, refl, sym, ap, ◌∙◌, arith, ◌==◌, put, put_other, Bool-cases,
  ==_iff, inl, inr, ne→==, ==_ne, subst, ◌≢◌, ◌⊎◌,
}
use citor.Scan.TwoPass.Defs.{Ended, returned, raised, Call, reduce_from}

pub Ended-cases {ℓ} :
    {A : Type ℓ} (o : Ended A) → ((a : A) × (o ≡ returned a)) ⊎ ((e : ℕ) × (o ≡ raised e))
Ended-cases (returned a) = inl (a, refl)
Ended-cases (raised e) = inr (e, refl)

module _ {ℓ} {A : Type ℓ} (c : Call A) where
  -- What the body and `prefix` give for the slots before `k`, or the first throw.
  unfoldable pub exclusive : ℕ → Ended A
  exclusive zero = returned c.identity
  exclusive (suc k) = elim (exclusive k) [
    | raised e ↦ raised e
    | returned acc ↦ elim (c.body k c.identity) [
      | raised e ↦ raised e
      | returned t ↦ c.prefix acc t
    ]
  ]

  exclusive-suc :
      (k : ℕ) {acc t next : A}
      → exclusive k ≡ returned acc
      → c.body k c.identity ≡ returned t
      → c.prefix acc t ≡ returned next
      → exclusive (suc k) ≡ returned next
  unfolding exclusive
  exclusive-suc k h b p = rw h (rw b p)

  -- From partials that Pass 1 wrote, and with the prefixes before `slot` in place, the loop leaves a
  -- prefix at each slot.
  pub reduce_from_lem :
      (left slot p : ℕ) (acc : A) (f ps : ℕ → A) (total : A)
      → slot + left ≡ p
      → ((k : ℕ) → slot ≤ k → k < p → c.body k c.identity ≡ returned (f k))
      → ((k : ℕ) → k < slot → exclusive k ≡ returned (f k))
      → exclusive slot ≡ returned acc
      → reduce_from c left slot acc f ≡ (ps, returned total)
      → ((k : ℕ) → k < p → exclusive k ≡ returned (ps k)) × (exclusive p ≡ returned total)
  unfolding reduce_from
  reduce_from_lem zero slot p acc f ps total size wrote seeded here e = (
    λ k l. seeded k (omega arith) ∙ ap (λ r. returned (r.0 k)) e,
    subst (λ q. exclusive q ≡ returned total) (omega arith) (here ∙ ap (λ r. r.1) e),
  )
  reduce_from_lem (suc left) slot p acc f ps total size wrote seeded here e =
      elim (Ended-cases (c.prefix acc (f slot))) [
        | inl (acc', h) ↦
            reduce_from_lem left (suc slot) p acc' (put f slot acc) ps total (omega arith)
              (λ k l m.
                wrote k (omega arith) m
                ∙ ap returned
                    (sym (put_other f slot k acc (ne→== slot k (λ e. omega (arith, e, l))))))
              (λ k l. before k l)
              (exclusive-suc slot here (wrote slot (omega arith) (omega arith)) h)
              (rw (reduce_from, h) at e)
        | inr (x, h) ↦ cc (ap (λ r. r.1) (rw (reduce_from, h) at e))
      ]
    where
      below : (k : ℕ) → k < suc slot → slot ≢ k → k < slot
      below k l d = ground arith

      before : (k : ℕ) → k < suc slot → exclusive k ≡ returned (put f slot acc k)
      before k l = elim (Bool-cases (slot == k)) [
        | inl same ↦ rw same (subst (λ q. exclusive q ≡ returned acc) ((==_iff slot k).0 same) here)
        | inr other ↦ rw other (seeded k (below k l (==_ne slot k other)))
      ]
