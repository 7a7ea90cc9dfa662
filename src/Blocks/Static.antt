-- ===== src/Blocks/Static.antt =====
-- The static schedule: rank r runs blocks r, r + P, r + 2P, … and every index is run exactly once.
use native.Mathlib.Nat.{mod-eq-sub-mod, mod-eq_of_lt, mod-lt, div-add-mod, mul-add-mod_self_left}
use citor.Prelude.{
  ℕ, zero, suc, ◌+◌, ◌-◌, ◌*◌, ◌/◌, ◌%◌, ◌^◌, ◌<◌, ◌≤◌, ◌≡◌, refl, sym, ap, ap₂, ◌∙◌, arith, false,
  ◌&&◌, ◌==◌, leb, if◌then◌else◌, dec_lt, none, ne→==, lt→ltb, le→ltb,
}
use citor.Ranges.{hits, hits-nil, hits-cons}
use citor.Blocks.Shape.{IsCut, holds-block_range, block_of-lt}
use citor.Blocks.Defs.{
  JobDescriptor, Surroundings, drained, no_block, static_next, run_static, run_static_partition,
}

-- No other rank's exception, no stop request, and a body that does not throw.
abbrev pub quiet : Surroundings
quiet = record { exception_seen = λ b. false; stop_seen = λ b. false; body = λ lo hi. none }

-- 1 if the strides of `p` from `c` on meet `q`, else 0.
abbrev meets : ℕ → ℕ → ℕ → ℕ
meets c p q = if leb c q && ((q - c) % p == 0) then 1 else 0

meets_step : (c p q : ℕ) → 0 < p → meets c p q ≡ (if c == q then 1 else 0) + meets (c + p) p q
meets_step c p q h = elim (dec_lt q (c + p)) [
  | yes near ↦ ground (arith, mod-eq_of_lt {n = q - c} {m = p} (omega arith))
  | no far ↦ ground (arith, again)
]
  where
    again : c + p ≤ q → (q - c) % p ≡ (q - (c + p)) % p
    again k = mod-eq-sub-mod {n = q - c} {m = p} (omega arith) ∙ ap (λ m. m % p) (omega arith)

meets_past : (c p q : ℕ) → q < c → meets c p q ≡ 0
meets_past c p q h = ground arith

meets_rank : (r p q : ℕ) → r < p → meets r p q ≡ (if r == q % p then 1 else 0)
meets_rank r p q h = elim (dec_lt q r) [
  | yes before ↦ ground (arith, mod-eq_of_lt {n = q} {m = p} (omega arith))
  | no after ↦ elim (dec_lt (q % p) r) [
    | yes low ↦ ground (arith, low_rest low (omega arith))
    | no high ↦ ground (arith, high_rest (omega arith) (omega arith))
  ]
]
  where
    high_rest : r ≤ q → r ≤ q % p → (q - r) % p ≡ q % p - r
    high_rest k l =
        let split : q - r ≡ p * (q / p) + (q % p - r) = omega (arith, div-add-mod q p) in
        ap (λ t. t % p) split
        ∙ mul-add-mod_self_left p (q / p) (q % p - r)
        ∙ mod-eq_of_lt (omega (arith, mod-lt q {m = p} (omega arith)))

    low_rest : q % p < r → r ≤ q → (q - r) % p ≡ p + q % p - r
    low_rest l k =
        let whole : p * (q / p) ≡ p * (q / p - 1) + p =
          carry (q / p) (omega (arith, div-add-mod q p)) in
        let split : q - r ≡ p * (q / p - 1) + (p + q % p - r) =
          omega (arith, div-add-mod q p, whole) in
        ap (λ t. t % p) split
        ∙ mul-add-mod_self_left p (q / p - 1) (p + q % p - r)
        ∙ mod-eq_of_lt (omega arith)
      where
        carry : (k : ℕ) → 0 < p * k → p * k ≡ p * (k - 1) + p
        carry zero z = absurd (omega arith)
        carry (suc k) z = omega (arith, ap (λ m. p * m) {x = suc k - 1} {y = k} (omega arith))

-- What a descriptor of a cut range has, with no stride past the end of `std::size_t`.
pub record IsReady (d : JobDescriptor) : Type 0 where
  pub cut : IsCut d.first d.last d.chunk d.block_count
  pub staffed : 0 < d.participants
  pub room : d.block_count + d.participants < 2 ^ 64

module _ (d : JobDescriptor) (ready : IsReady d) (i : ℕ) (lo : d.first ≤ i) (hi : i < d.last) where
  -- The block of index `i`.
  abbrev pub block_of : ℕ
  block_of = (i - d.first) / d.chunk

  abbrev cand : ℕ → ℕ → ℕ
  cand rank prev = if prev == no_block then rank else (prev + d.participants) % 2 ^ 64

  run_static-hits :
      (fuel rank prev c : ℕ)
      → cand rank prev ≡ c
      → 0 < fuel
      → d.block_count < c + fuel
      → (hits i (run_static quiet d fuel rank prev).0 ≡ meets c d.participants block_of)
        × ((run_static quiet d fuel rank prev).1 ≡ drained)
  unfolding run_static static_next
  run_static-hits zero rank prev c e some_fuel enough = absurd (omega arith)
  run_static-hits (suc fuel) rank prev c e some_fuel enough = elim (dec_lt c d.block_count) [
    | yes p ↦
        let next : cand rank c ≡ c + d.participants =
          rw (ne→== c no_block (omega (arith, ready.room))) (omega (arith, ready.room)) in
        let (run, ends) =
          run_static-hits fuel rank c (c + d.participants) next (omega arith)
            (omega (arith, ready.staffed)) in
        rw (e, lt→ltb c d.block_count p, ne→== c no_block (omega (arith, ready.room)))
          (
            hits-cons i _ _
                ∙ ap₂ (λ b n. (if b then 1 else 0) + n)
                    (holds-block_range d.first d.last d.chunk i c d.block_count ready.cut lo hi p)
                    run
                ∙ sym (meets_step c d.participants block_of ready.staffed),
            ends,
          )
    | no p ↦
        rw (e, le→ltb c d.block_count (omega arith))
          (hits-nil i ∙ sym (meets_past c d.participants block_of (omega (arith, below))), refl)
  ]
    where
      below : block_of < d.block_count
      below = block_of-lt d.first d.last d.chunk i d.block_count ready.cut lo hi

  -- Index `i` is run by rank (block of i) % P, once, and by no other; each rank's loop ends.
  pub static_exactly_once :
      (rank : ℕ)
      → rank < d.participants
      → (hits i (run_static_partition quiet d rank).0
          ≡ (if rank == block_of % d.participants then 1 else 0))
        × ((run_static_partition quiet d rank).1 ≡ drained)
  unfolding run_static_partition
  static_exactly_once rank h =
      let (run, ends) =
        run_static-hits (d.block_count + 1) rank no_block rank refl (omega arith) (omega arith) in
      (run ∙ meets_rank rank d.participants block_of h, ends)
