-- ===== src/Epochs/Tests.antt =====
-- A reservation at concrete inputs.
use citor.Prelude.{ℕ, ◌+◌, ◌^◌, ◌≤◌, ◌<◌, ◌≡◌, refl, arith, ltb, if◌then◌else◌}
use citor.Epochs.{Epochs, reserve_epochs, Stamped, epochs_renewed}

-- A plex of three phases and two slots, past the wrap guard.
abbrev worn : Epochs
worn = record {
  epoch_base = 18446744073709550600;
  done = λ k. if ltb k 2 then 18446744073709550599 else 0;
}

worn-Stamped : Stamped 2 worn
worn-Stamped = record { behind = λ k. ground arith; unused = λ k l. ground arith }

reserved : (reserve_epochs 2 4 worn).0 ≡ 0
unfolding reserve_epochs
reserved = refl

epochs_renewed_example :
    ((k : ℕ) → (reserve_epochs 2 4 worn).1.done k ≤ (reserve_epochs 2 4 worn).0)
    × ((reserve_epochs 2 4 worn).0 + 4 < 2 ^ 64)
    × Stamped 2 (record (reserve_epochs 2 4 worn).1 { done = λ k. if ltb k 2 then 3 else 0 })
epochs_renewed_example =
    epochs_renewed 2 4 worn (λ k. if ltb k 2 then 3 else 0) worn-Stamped (omega arith)
      (λ k. rw reserved (ground arith)) (λ k l. ground arith)
