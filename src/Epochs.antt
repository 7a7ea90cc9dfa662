-- ===== src/Epochs.antt =====
-- The epochs that `runScanParallel`, `parallelChainImplWithRuntimeHints` and `runPlexParallel` of
-- include/citor/thread_pool.h reserve for a call.
use citor.Prelude.{
  ℕ, ◌+◌, ◌-◌, ◌^◌, ◌%◌, ◌≤◌, ◌<◌, ◌≡◌, sym, subst, refl, arith, ltb, ltb→le, if◌then◌else◌,
  Bool-cases, inl, inr,
}
use native.Mathlib.Nat.{mod-eq_of_lt}
mod Tests

-- `m_chainEpochBase`, or `m_plexEpochBase`, and the stamps of the pool's slots, 0 past the last one.
pub record Epochs : Type 0 where
  pub epoch_base : ℕ
  pub done : ℕ → ℕ

abbrev pub epoch_limit : ℕ
epoch_limit = 18446744073709551615 - 1024

abbrev pub reset : ℕ → Epochs → Epochs
reset participants e = record {
  epoch_base = 0;
  done = λ k. if ltb k participants then 0 else e.done k;
}

-- The wrap guard, and the interval of a call: its base, and what it leaves. `advance` is 3 for a scan, and
-- one more than the stages of a chain or the phases of a plex.
unfoldable pub reserve_epochs : (participants advance : ℕ) → Epochs → ℕ × Epochs
reserve_epochs participants advance e =
    let e' = if ltb epoch_limit e.epoch_base then reset participants e else e in
    (e'.epoch_base, record e' { epoch_base = (e'.epoch_base + advance) % 2 ^ 64 })

-- No stamp is past the base, and the slots past the last are not stamped.
pub record Stamped (participants : ℕ) (e : Epochs) : Type 0 where
  pub behind : (k : ℕ) → e.done k ≤ e.epoch_base
  pub unused : (k : ℕ) → participants ≤ k → e.done k ≡ 0

cleared :
    (participants : ℕ) (e : Epochs)
    → Stamped participants e
    → (k : ℕ) → (if ltb k participants then 0 else e.done k) ≤ 0
cleared participants e st k = elim (Bool-cases (ltb k participants)) [
  | inl l ↦ rw l (omega arith)
  | inr l ↦ let h = st.unused k (ltb→le k participants l) in rw l (omega (arith, h))
]

-- The next base does not wrap.
renewed :
    (participants base advance : ℕ) (d f : ℕ → ℕ)
    → base ≤ epoch_limit
    → advance ≤ 1024
    → ((k : ℕ) → f k ≤ base)
    → ((k : ℕ) → d k ≤ base + advance)
    → ((k : ℕ) → participants ≤ k → d k ≡ 0)
    → ((k : ℕ) → f k ≤ base)
      × (base + advance < 2 ^ 64)
      × Stamped participants (record { epoch_base = (base + advance) % 2 ^ 64; done = d })
renewed participants base advance d f low room old new past =
    let fits : base + advance < 2 ^ 64 = omega (arith, low, room) in
    (
      old,
      fits,
      record {
        behind = λ k. subst (λ b. d k ≤ b) (sym (mod-eq_of_lt fits)) (new k);
        unused = past;
      },
    )

-- When no stamp is past the base, at most 1024 epochs are asked for, and the call stamps its slots `d`
-- below the end of its interval: no stamp from before is past the base that the call gets, so none satisfies its
-- waits, the interval fits in 64 bits, and again no stamp is past the base that it leaves.
pub epochs_renewed :
    (participants advance : ℕ) (e : Epochs) (d : ℕ → ℕ)
    → Stamped participants e
    → advance ≤ 1024
    → ((k : ℕ) → d k ≤ (reserve_epochs participants advance e).0 + advance)
    → ((k : ℕ) → participants ≤ k → d k ≡ 0)
    → ((k : ℕ)
        → (reserve_epochs participants advance e).1.done k
          ≤ (reserve_epochs participants advance e).0)
      × ((reserve_epochs participants advance e).0 + advance < 2 ^ 64)
      × Stamped participants (record (reserve_epochs participants advance e).1 { done = d })
unfolding reserve_epochs
epochs_renewed participants advance e d st room new past =
    elim (Bool-cases (ltb epoch_limit e.epoch_base)) [
      | inl over ↦ rw over (
          renewed participants 0 advance d (λ k. if ltb k participants then 0 else e.done k)
            (omega arith) room (cleared participants e st) (rw over at new) past)
      | inr low ↦ rw low (
          renewed participants e.epoch_base advance d e.done (ltb→le epoch_limit e.epoch_base low)
            room st.behind (rw low at new) past)
    ]
