-- ===== src/Chain/Dynamic/Once.antt =====
-- The stages of the dynamic path of a chain, one after the other.
use citor.Prelude.{
  ℕ, suc, ◌+◌, ◌≤◌, ◌<◌, ◌≡◌, refl, sym, ap, subst, ◌∙◌, arith, Bool, true, false, ◌==◌, ◌&&◌, ltb,
  ltb→lt, lt→ltb, if◌then◌else◌, Bool-cases, ==_iff, ==_ne, inl, inr, ◌⊎◌,
}
use citor.Prelude.Sums.{sum_zero}
use citor.Chain.Defs.{Call}
use citor.Chain.Dynamic.Defs.{
  Place, arriving, scanning, at_gate, looping, claiming, running, stamping, bailing, bailed,
  finished, Chain, Reach,
}
use citor.Chain.Dynamic.Claims.{in_hand, holders, handed, Balance, Reach-Balance}
use citor.Chain.Dynamic.Roles.{Fits, Roles, at_own}
use citor.Chain.Dynamic.Steps.{Reach-Roles}

-- Past the loop of stage `k`.
unfoldable past : (stage : ℕ) → Place → Bool
past k (arriving m) = ltb k m
past k (scanning m step) = ltb k m
past k (at_gate m) = ltb k m
past k (looping m) = ltb k m
past k (claiming m) = ltb k m
past k (running m b) = ltb k m
past k (stamping m) = ltb k m
past k bailing = false
past k bailed = false
past k finished = true

module _ (c : Call) (n_blocks : ℕ) (s : Chain) where
  -- A slot with the stamp of a stage is past it, or the chain is cancelled.
  stamped_past :
      (j m : ℕ) (p : Place)
      → Fits c n_blocks s j p
      → c.epoch_base + (m + 1) ≤ s.done j
      → (past m p ≡ true) ⊎ (s.chain_cancelled ≡ true)
  unfolding past
  stamped_past j m (arriving k) (n, (u, h, w)) d = inl (lt→ltb m k (omega (arith, u, d)))
  stamped_past j m (scanning k step) (n, (u, h, w), f, g, o) d =
      inl (lt→ltb m k (omega (arith, u, d)))
  stamped_past j m (at_gate k) (n, (u, h, w), f) d = inl (lt→ltb m k (omega (arith, u, d)))
  stamped_past j m (looping k) (n, (u, h, w), f) d = inl (lt→ltb m k (omega (arith, u, d)))
  stamped_past j m (claiming k) (n, (u, h, w), f) d = inl (lt→ltb m k (omega (arith, u, d)))
  stamped_past j m (running k b) (n, (u, h, w), f) d = inl (lt→ltb m k (omega (arith, u, d)))
  stamped_past j m (stamping k) (n, (u, h, w), f) d = inl (lt→ltb m k (omega (arith, u, d)))
  stamped_past j m bailing (x, u) d = inr x
  stamped_past j m bailed (x, u) d = inr x
  stamped_past j m finished h d = inl refl

  differs : (m k : ℕ) → m < k → (m == k) ≡ false
  differs m k l = ground arith

  -- A slot past a stage holds none of its blocks.
  past_free : (m b : ℕ) (p : Place) → past m p ≡ true → in_hand m b p ≡ 0
  unfolding past in_hand
  past_free m b (running k b') e = rw (differs m k (ltb→lt m k e)) refl
  past_free m b (arriving k) e = refl
  past_free m b (scanning k step) e = refl
  past_free m b (at_gate k) e = refl
  past_free m b (looping k) e = refl
  past_free m b (claiming k) e = refl
  past_free m b (stamping k) e = refl
  past_free m b bailing e = refl
  past_free m b bailed e = refl
  past_free m b finished e = refl

  -- When the loop of a stage is over and no slot holds one of its blocks, each has run once.
  all_ran :
      (m b : ℕ)
      → Balance c n_blocks s
      → s.chain_cancelled ≡ false
      → n_blocks ≤ s.next_block m
      → ((j : ℕ) → j < c.participants → past m (s.place j) ≡ true)
      → b < n_blocks
      → s.ran m b ≡ 1
  all_ran m b v x full h l =
      let e = v.exact x m b l in
      let z =
        sum_zero (λ j. in_hand m b (s.place j)) c.participants
          (λ j w. past_free m b (s.place j) (h j w)) in
      let o : handed c n_blocks s m b ≡ 1 =
        rw (lt→ltb b (s.next_block m) (omega (arith, l, full))) refl in
      omega (arith, e, z, o)

  -- Every slot is past the stage before the one of a body.
  all_past :
      (i k b : ℕ)
      → Roles c n_blocks s
      → s.place i ≡ running (suc k) b
      → s.chain_cancelled ≡ false
      → (j : ℕ) → j < c.participants
      → past k (s.place j) ≡ true
  unfolding past
  all_past i k b r e x j l = elim (Bool-cases (i == j)) [
    | inl q ↦
        subst (λ p. past k p ≡ true) (sym (ap s.place (sym ((==_iff i j).0 q)) ∙ e))
          (lt→ltb k (suc k) (omega arith))
    | inr q ↦
        let there = (at_own c n_blocks s i r e).2 (omega arith) j l (==_ne i j q) in
        elim (stamped_past j k (s.place j) (r.fits j) (omega (arith, there))) [
          | inl h ↦ h
          | inr y ↦ absurd (cc (x, y))
        ]
  ]

at_most_one : (b : Bool) → (if b then 1 else 0) ≤ 1
at_most_one true = omega arith
at_most_one false = omega arith

-- A slot that holds a block runs it.
in_hand-running : (k b : ℕ) (p : Place) → (in_hand k b p ≡ 0) ⊎ (p ≡ running k b)
unfolding in_hand
in_hand-running k b (running k' b') = elim (Bool-cases ((k == k') && (b == b'))) [
  | inl q ↦ inr (ground (arith, q))
  | inr q ↦ inl (rw q refl)
]
in_hand-running k b (arriving k') = inl refl
in_hand-running k b (scanning k' step) = inl refl
in_hand-running k b (at_gate k') = inl refl
in_hand-running k b (looping k') = inl refl
in_hand-running k b (claiming k') = inl refl
in_hand-running k b (stamping k') = inl refl
in_hand-running k b bailing = inl refl
in_hand-running k b bailed = inl refl
in_hand-running k b finished = inl refl

-- While a slot runs a block of a stage, each block of the stage before has run once.
stage_before_ran :
    (c : Call) (n_blocks : ℕ) {n : ℕ} {s : Chain} (i k b d : ℕ)
    → Reach c n_blocks n s
    → s.place i ≡ running (suc k) b
    → d < n_blocks
    → (s.ran k d ≡ 1) ⊎ (s.chain_cancelled ≡ true)
stage_before_ran c n_blocks {s = s} i k b d r e l =
    let v = Reach-Balance c n_blocks r in
    let roles = Reach-Roles c n_blocks r in
    elim (Bool-cases s.chain_cancelled) [
      | inl x ↦ inr x
      | inr x ↦ elim ((at_own c n_blocks s i roles e).1.1 k (omega arith)) [
        | inl full ↦
            inl (all_ran c n_blocks s k d v x full (all_past c n_blocks s i k b roles e x) l)
        | inr y ↦ inr y
      ]
    ]

-- In every state that any interleaving of the slots reaches, the body of no block of any stage has returned or
-- runs more than once, and either the slot `i` does not run the block `b` of the stage after `k`, or each block
-- of stage `k` has been run exactly once, or the chain is cancelled.
pub dynamic_chain_once :
    (c : Call) (n_blocks : ℕ) {n : ℕ} {s : Chain} (i k b d m : ℕ)
    → Reach c n_blocks n s
    → d < n_blocks
    → (s.ran m d + holders c n_blocks s.place m d ≤ 1)
      × ((in_hand (suc k) b (s.place i) ≡ 0) ⊎ ((s.ran k d ≡ 1) ⊎ (s.chain_cancelled ≡ true)))
dynamic_chain_once c n_blocks {s = s} i k b d m r l = (
  let h = (Reach-Balance c n_blocks r).at_most m d l in
      let o = at_most_one (ltb d (s.next_block m)) in omega (arith, h, o),
  elim (in_hand-running (suc k) b (s.place i)) [
    | inl z ↦ inl z
    | inr e ↦ inr (stage_before_ran c n_blocks i k b d r e l)
  ],
)

-- When every slot has left after the last stage, each block of each stage has been run exactly once,
-- unless the chain is cancelled.
pub dynamic_chain_complete :
    (c : Call) (n_blocks : ℕ) {n : ℕ} {s : Chain} (k d : ℕ)
    → Reach c n_blocks n s
    → 0 < c.participants
    → ((j : ℕ) → j < c.participants → s.place j ≡ finished)
    → k < c.n_stages
    → d < n_blocks
    → (s.ran k d ≡ 1) ⊎ (s.chain_cancelled ≡ true)
unfolding past
dynamic_chain_complete c n_blocks {s = s} k d r z e m l =
    let roles = Reach-Roles c n_blocks r in
    elim (Bool-cases s.chain_cancelled) [
      | inl x ↦ inr x
      | inr x ↦ elim ((at_own c n_blocks s 0 roles (e 0 z)).0 k m) [
        | inl full ↦ inl (
            all_ran c n_blocks s k d (Reach-Balance c n_blocks r) x full
              (λ j w. ap (past k) (e j w)) l)
        | inr y ↦ inr y
      ]
    ]
