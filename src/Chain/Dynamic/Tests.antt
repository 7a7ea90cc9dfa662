-- ===== src/Chain/Dynamic/Tests.antt =====
-- A run of the dynamic path of a chain at concrete inputs.
use citor.Prelude.{
  ℕ, zero, suc, ◌+◌, ◌≤◌, ◌<◌, ◌≡◌, refl, arith, if◌then◌else◌, true, false, ◌⊎◌, none,
}
use citor.Failure.{failed}
use citor.Chain.Defs.{BarrierKind, Call}
use citor.Chain.Dynamic.Defs.{
  arriving, finished, Chain, first, begin_scan, scan_next, scan_over, go_on, look, claim, body_done,
  stamp, leave, IsFresh, Reach, start, next,
}
use citor.Chain.Dynamic.Claims.{in_hand, holders}
use citor.Ranges.{holds, total}
use citor.Blocks.Shape.{ceil_div}
use citor.Slots.Defs.{dynamic_block_range}
use citor.Chain.Dynamic.Chunks.{chain_dynamic_chunk_size, dynamic_blocks_exactly_once}
use citor.Chain.Dynamic.Progress.{live, Moves}
use citor.Chain.Dynamic.Ends.{dynamic_chain_ends}
use citor.Chain.Dynamic.Once.{dynamic_chain_once, dynamic_chain_complete}

-- Two slots and two stages of two blocks.
abbrev two_stages : Call
two_stages = record {
  participants = 2;
  n_stages = 2;
  epoch_base = 5;
  barrier = λ k. BarrierKind.global;
}

abbrev fresh : Chain
fresh = record {
  done = λ k. 5;
  chain_cancelled = false;
  first_exception = none;
  next_block = λ k. 0;
  ran = λ k b. 0;
  place = λ k. arriving 0;
}

fresh-IsFresh : IsFresh two_stages fresh
unfolding failed
fresh-IsFresh = record {
  stamps = λ k. omega arith;
  going = refl;
  clean = refl;
  unclaimed = λ k. refl;
  unrun = λ k b. refl;
  all_first = λ k. refl;
}

-- Slot 0 runs both blocks of stage 0, and slot 1 finds none left.
abbrev first_stage : (s : Chain) × Reach two_stages 2 16 s
first_stage =
    let z : Reach two_stages 2 0 fresh = start fresh-IsFresh in
    let a = next 0 z (omega arith) (first refl (omega arith)) in
    let b = next 0 a (omega arith) (go_on refl refl) in
    let d = next 0 b (omega arith) (look refl refl) in
    let e = next 0 d (omega arith) (claim refl) in
    let f = next 0 e (omega arith) (body_done refl) in
    let g = next 0 f (omega arith) (look refl refl) in
    let h = next 0 g (omega arith) (claim refl) in
    let i = next 1 h (omega arith) (first refl (omega arith)) in
    let j = next 1 i (omega arith) (go_on refl refl) in
    let k = next 1 j (omega arith) (look refl refl) in
    let l = next 1 k (omega arith) (claim refl) in
    let m = next 1 l (omega arith) (stamp refl) in
    let n = next 0 m (omega arith) (body_done refl) in
    let o = next 0 n (omega arith) (look refl refl) in
    let p = next 0 o (omega arith) (claim refl) in (_, next 0 p (omega arith) (stamp refl))

-- Slot 1 runs a block of stage 1.
abbrev second_stage : (s : Chain) × Reach two_stages 2 22 s
second_stage =
    let a = next 1 first_stage.1 (omega arith) (begin_scan refl (omega arith)) in
    let b = next 1 a (omega arith) (scan_next refl (omega arith) (omega arith)) in
    let d = next 1 b (omega arith) (scan_over refl (omega arith)) in
    let e = next 1 d (omega arith) (go_on refl refl) in
    let f = next 1 e (omega arith) (look refl refl) in (_, next 1 f (omega arith) (claim refl))

dynamic_chain_once_example :
    (second_stage.0.ran 1 1 + holders two_stages 2 second_stage.0.place 1 1 ≤ 1)
    × ((in_hand 1 0 (second_stage.0.place 1) ≡ 0)
        ⊎ ((second_stage.0.ran 0 1 ≡ 1) ⊎ (second_stage.0.chain_cancelled ≡ true)))
dynamic_chain_once_example = dynamic_chain_once two_stages 2 1 0 0 1 1 second_stage.1 (omega arith)

dynamic_chain_ends_example : Moves two_stages 2 second_stage.0 × (22 ≤ 60)
unfolding live
dynamic_chain_ends_example = dynamic_chain_ends two_stages 2 0 second_stage.1 (omega arith) refl

-- Both slots have left.
abbrev over : (s : Chain) × Reach two_stages 2 38 s
over =
    let a = next 1 second_stage.1 (omega arith) (body_done refl) in
    let b = next 1 a (omega arith) (look refl refl) in
    let d = next 1 b (omega arith) (claim refl) in
    let e = next 1 d (omega arith) (body_done refl) in
    let f = next 1 e (omega arith) (look refl refl) in
    let g = next 1 f (omega arith) (claim refl) in
    let h = next 1 g (omega arith) (stamp refl) in
    let i = next 1 h (omega arith) (leave refl (omega arith)) in
    let j = next 0 i (omega arith) (begin_scan refl (omega arith)) in
    let k = next 0 j (omega arith) (scan_next refl (omega arith) (omega arith)) in
    let l = next 0 k (omega arith) (scan_over refl (omega arith)) in
    let m = next 0 l (omega arith) (go_on refl refl) in
    let n = next 0 m (omega arith) (look refl refl) in
    let o = next 0 n (omega arith) (claim refl) in
    let p = next 0 o (omega arith) (stamp refl) in
    (_, next 0 p (omega arith) (leave refl (omega arith)))

all_finished : (j : ℕ) → j < 2 → over.0.place j ≡ finished
all_finished zero l = refl
all_finished (suc zero) l = refl
all_finished (suc (suc j)) l = absurd (omega (arith, l))

dynamic_chain_complete_example : (over.0.ran 1 0 ≡ 1) ⊎ (over.0.chain_cancelled ≡ true)
dynamic_chain_complete_example =
    dynamic_chain_complete two_stages 2 1 0 over.1 (omega arith) all_finished (omega arith)
      (omega arith)

-- Ten rows in blocks of three.
dynamic_blocks_exactly_once_example :
    let chunk = chain_dynamic_chunk_size 10 2 0 in
    total (ceil_div 10 chunk) (λ b. if holds 9 (dynamic_block_range 10 chunk b) then 1 else 0) ≡ 1
dynamic_blocks_exactly_once_example =
    dynamic_blocks_exactly_once 10 2 0 9 (omega arith) (omega arith) (omega arith) (omega arith)
