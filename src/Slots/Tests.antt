-- ===== src/Slots/Tests.antt =====
-- Runs of the splits at concrete inputs.
use citor.Prelude.{◌≤◌, ◌≡◌, refl, arith, true, false, ◌==◌, ltb, if◌then◌else◌}
use citor.Ranges.{holds, total}
use citor.Slots.Defs.{
  slot_range, ScanState, is_producer_ccd, asymmetric_slot_range, count_producer_slots,
}
use citor.Slots.Uniform.{uniform_exactly_once}
use citor.Slots.Asymmetric.{IsSplit, asymmetric_exactly_once, asymmetric_out_of_order}

uniform_exactly_once_example :
    total 3 (λ slot. if holds 4 (slot_range 10 3 slot) then 1 else 0) ≡ (if ltb 4 10 then 1 else 0)
uniform_exactly_once_example = uniform_exactly_once 10 3 (omega arith) (omega arith) (omega arith) 4

-- Slots 0 and 2 are on the producer's complex, slots 1 and 3 are not.
abbrev mixed : ScanState
mixed = record {
  n = 32;
  participants = 4;
  ccd_of_slot = λ slot. if slot == 0 then 7 else if slot == 2 then 7 else 8;
  producer_ccd = 7;
  slots_on_producer_ccd = 2;
  asymmetric_num = 10;
}

mixed-IsSplit : IsSplit mixed
unfolding count_producer_slots
mixed-IsSplit = record {
  counted = refl;
  some_near = omega arith;
  some_far = omega arith;
  few = omega arith;
  room = omega arith;
  share = omega arith;
}

mixed_one : is_producer_ccd mixed 1 ≡ false
unfolding is_producer_ccd
mixed_one = refl

mixed_two : is_producer_ccd mixed 2 ≡ true
unfolding is_producer_ccd
mixed_two = refl

asymmetric_exactly_once_example :
    total 4 (λ slot. if holds 21 (asymmetric_slot_range mixed slot) then 1 else 0)
    ≡ (if ltb 21 32 then 1 else 0)
asymmetric_exactly_once_example = asymmetric_exactly_once mixed mixed-IsSplit 21

asymmetric_out_of_order_example :
    (asymmetric_slot_range mixed 2).1 ≤ (asymmetric_slot_range mixed 1).0
asymmetric_out_of_order_example =
    asymmetric_out_of_order mixed mixed-IsSplit 1 2 (omega arith) (omega arith) mixed_one mixed_two
