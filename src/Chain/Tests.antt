-- ===== src/Chain/Tests.antt =====
-- Runs of a chain at concrete inputs.
use citor.Prelude.{ℕ, zero, suc, ◌≤◌, ◌≡◌, refl, arith, true, false, ◌⊎◌, none}
use citor.Failure.{failed}
use citor.Chain.Defs.{
  BarrierKind, no_barrier, producer_serial, Call, arriving, Chain, pass, begin_scan, scan_next,
  scan_over, begin_serial, serial_over, go_on, body_done, stamp, leave, IsFresh, Reach, start, next,
}
use citor.Chain.Progress.{Moves, live}
use citor.Chain.Ends.{chain_ends}
use citor.Chain.Order.{past, chain_barrier, chain_serial}
use citor.Chain.Once.{chain_complete}

-- Two slots and three stages, the last one serial.
abbrev barriers : ℕ → BarrierKind
barriers zero = BarrierKind.global
barriers (suc zero) = producer_serial
barriers (suc (suc k)) = no_barrier

abbrev three_stages : Call
three_stages = record { participants = 2; n_stages = 3; epoch_base = 5; barrier = barriers }

abbrev fresh : Chain
fresh = record {
  done = λ k. 5;
  chain_cancelled = false;
  first_exception = none;
  ran = λ k m. 0;
  place = λ k. arriving 0;
}

fresh-IsFresh : IsFresh three_stages fresh
unfolding failed
fresh-IsFresh = record {
  stamps = λ k. omega arith;
  going = refl;
  clean = refl;
  unrun = λ k m. refl;
  all_first = λ k. refl;
}

-- Slot 1 is through stage 0, slot 0 is not.
abbrev slot_1_waits : (s : Chain) × Reach three_stages 5 s
slot_1_waits =
    let a = next 1 (start fresh-IsFresh) (omega arith) (pass refl (omega arith) refl) in
    let b = next 1 a (omega arith) (go_on refl refl) in
    let d = next 1 b (omega arith) (body_done refl) in
    let e = next 1 d (omega arith) (stamp refl) in
    (_, next 1 e (omega arith) (begin_scan refl (omega arith) refl))

chain_ends_example : Moves three_stages slot_1_waits.0 × (5 ≤ 64)
unfolding live
chain_ends_example = chain_ends three_stages 1 slot_1_waits.1 (omega arith) refl

-- Slot 0 enters stage 1.
abbrev slot_0_enters : (s : Chain) × Reach three_stages 13 s
slot_0_enters =
    let a = next 0 slot_1_waits.1 (omega arith) (pass refl (omega arith) refl) in
    let b = next 0 a (omega arith) (go_on refl refl) in
    let d = next 0 b (omega arith) (body_done refl) in
    let e = next 0 d (omega arith) (stamp refl) in
    let f = next 0 e (omega arith) (begin_scan refl (omega arith) refl) in
    let g = next 0 f (omega arith) (scan_next refl (omega arith) (omega arith)) in
    let h = next 0 g (omega arith) (scan_over refl (omega arith)) in
    (_, next 0 h (omega arith) (go_on refl refl))

chain_barrier_example :
    (past 0 (slot_0_enters.0.place 1) ≡ true) ⊎ (slot_0_enters.0.chain_cancelled ≡ true)
chain_barrier_example = chain_barrier three_stages 0 1 0 slot_0_enters.1 refl refl (omega arith)

-- Slot 0 runs the serial stage, which slot 1 skips.
abbrev slot_1_ends : (s : Chain) × Reach three_stages 29 s
slot_1_ends =
    let a = next 0 slot_0_enters.1 (omega arith) (body_done refl) in
    let b = next 0 a (omega arith) (stamp refl) in
    let d = next 0 b (omega arith) (begin_serial refl (omega arith) refl) in
    let e = next 0 d (omega arith) (go_on refl refl) in
    let f = next 0 e (omega arith) (body_done refl) in
    let g = next 0 f (omega arith) (stamp refl) in
    let h = next 1 g (omega arith) (scan_next refl (omega arith) (omega arith)) in
    let i = next 1 h (omega arith) (scan_over refl (omega arith)) in
    let j = next 1 i (omega arith) (go_on refl refl) in
    let k = next 1 j (omega arith) (body_done refl) in
    let l = next 1 k (omega arith) (stamp refl) in
    let m = next 1 l (omega arith) (begin_serial refl (omega arith) refl) in
    let n = next 1 m (omega arith) (serial_over refl (omega arith)) in
    let o = next 1 n (omega arith) (go_on refl refl) in
    let p = next 1 o (omega arith) (stamp refl) in
    (_, next 1 p (omega arith) (leave refl (omega arith)))

chain_serial_example :
    (past 2 (slot_1_ends.0.place 0) ≡ true) ⊎ (slot_1_ends.0.chain_cancelled ≡ true)
unfolding past
chain_serial_example =
    chain_serial three_stages 1 1 slot_1_ends.1 refl (omega arith) (omega arith) refl

chain_complete_example : slot_1_ends.0.ran 1 2 ≡ 0
chain_complete_example = chain_complete three_stages 1 2 slot_1_ends.1 refl (omega arith)
