-- ===== src/Slots/Defs.antt =====
-- `mulDiv64` of include/citor/detail/cpu_relax.h, and the `slotRange` and `dynamicBlockRange` of
-- ChainState, PlexState and ScanState in include/citor/detail. `std::size_t` has 64 bits,
-- `std::uint32_t` has 32.
use citor.Prelude.{
  ℕ, zero, suc, ◌+◌, ◌-◌, ◌*◌, ◌/◌, ◌%◌, ◌^◌, Bool, true, false, ◌&&◌, ◌==◌, ltb, if◌then◌else◌,
}

-- The product has 128 bits, which two factors of 64 bits do not exceed.
unfoldable pub mul_div64 : (a b c : ℕ) → ℕ
mul_div64 a b c = a * b / c % 2 ^ 64

-- ChainState::slotRange, PlexState::slotRange, and ScanState::slotRange where `ccdOfSlot` is null.
unfoldable pub slot_range : (n participants slot : ℕ) → ℕ × ℕ
slot_range n participants slot =
    (mul_div64 n slot participants, mul_div64 n ((slot + 1) % 2 ^ 32) participants)

-- What ChainState::dynamicBlockRange subtracts wraps around where a block begins past `n`.
unfoldable pub dynamic_block_range : (n dynamic_chunk block : ℕ) → ℕ × ℕ
dynamic_block_range n dynamic_chunk block =
    let lo = block * dynamic_chunk % 2 ^ 64 in
    (
      lo,
      (if ltb dynamic_chunk ((n + 2 ^ 64 - lo) % 2 ^ 64) then (lo + dynamic_chunk) % 2 ^ 64 else n),
    )

-- ScanState, with the fields that slotRange reads; `ccdOfSlot` is not null.
pub record ScanState : Type 0 where
  pub n : ℕ
  pub participants : ℕ
  pub ccd_of_slot : ℕ → ℕ
  pub producer_ccd : ℕ
  pub slots_on_producer_ccd : ℕ
  pub asymmetric_num : ℕ

unfoldable pub is_producer_ccd : ScanState → ℕ → Bool
is_producer_ccd s slot = s.ccd_of_slot slot == s.producer_ccd

unfoldable pub same_side : Bool → Bool → Bool
same_side true side = side
same_side false true = false
same_side false false = true

-- The loop that counts `indexInGroup`: the slots before `slot` that stand as `side` says.
unfoldable pub index_in_group : ScanState → Bool → (slot : ℕ) → ℕ
index_in_group s side zero = 0
index_in_group s side (suc slot) =
    index_in_group s side slot + (if same_side (is_producer_ccd s slot) side then 1 else 0)

-- ScanState::slotRange where `ccdOfSlot` is not null.
unfoldable pub asymmetric_slot_range : ScanState → (slot : ℕ) → ℕ × ℕ
asymmetric_slot_range s slot =
    let producer_volume = mul_div64 s.n s.asymmetric_num 16 in
    let num_producer = s.slots_on_producer_ccd in
    let num_cross = (s.participants + 2 ^ 32 - s.slots_on_producer_ccd) % 2 ^ 32 in
    let own = is_producer_ccd s slot in
    let index = index_in_group s own slot in
    if own && ltb 0 num_producer
    then (
      mul_div64 producer_volume index num_producer,
      mul_div64 producer_volume ((index + 1) % 2 ^ 32) num_producer,
    )
    else if ltb 0 num_cross
    then (
      (producer_volume + mul_div64 (s.n - producer_volume) index num_cross) % 2 ^ 64,
      (producer_volume + mul_div64 (s.n - producer_volume) ((index + 1) % 2 ^ 32) num_cross)
          % 2 ^ 64,
    )
    else (0, 0)

-- The count of `slotsOnProducerCcd` in initScanScratch.
unfoldable pub count_producer_slots : (ccd_of_slot : ℕ → ℕ) (producer_ccd participants : ℕ) → ℕ
count_producer_slots ccd_of_slot producer_ccd zero = 0
count_producer_slots ccd_of_slot producer_ccd (suc participants) =
    count_producer_slots ccd_of_slot producer_ccd participants
    + (if ccd_of_slot participants == producer_ccd then 1 else 0)
