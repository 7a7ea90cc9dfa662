-- ===== src/Slots/Asymmetric.antt =====
-- The split by core complex of parallelScan: the slots on the producer's complex share a prefix of
-- the indices, the others share the rest, each group in slot order.
use citor.Prelude.{
  ℕ, zero, suc, ◌+◌, ◌-◌, ◌%◌, ◌^◌, ◌<◌, ◌≤◌, ◌≡◌, refl, ap, ap₂, ◌∙◌, arith, Bool, true, false,
  not, ltb, if◌then◌else◌, lt→ltb, Bool-cases, inl, inr,
}
use citor.Ranges.{holds, total, within, total-within_two}
use citor.Slots.Defs.{
  mul_div64, ScanState, is_producer_ccd, same_side, index_in_group, asymmetric_slot_range,
  count_producer_slots,
}
use citor.Slots.Split.{point, point_first, point_last, point_grows, point_bound, mul_div64-point}

-- What parallelScan has tested before it sets `ccdOfSlot`, and the ranges of the types.
pub record IsSplit (s : ScanState) : Type 0 where
  pub counted :
      count_producer_slots s.ccd_of_slot s.producer_ccd s.participants ≡ s.slots_on_producer_ccd
  pub some_near : 0 < s.slots_on_producer_ccd
  pub some_far : s.slots_on_producer_ccd < s.participants
  pub few : s.participants < 2 ^ 32
  pub room : s.n < 2 ^ 64
  pub share : s.asymmetric_num ≤ 16

index-near :
    (s : ScanState) (k : ℕ)
    → index_in_group s true k ≡ count_producer_slots s.ccd_of_slot s.producer_ccd k
unfolding index_in_group count_producer_slots is_producer_ccd same_side
index-near s zero = refl
index-near s (suc k) = ap₂ ◌+◌ (index-near s k) (ground arith)

index-far : (s : ScanState) (k : ℕ) → index_in_group s true k + index_in_group s false k ≡ k
unfolding index_in_group same_side
index-far s zero = refl
index-far s (suc k) = ground (arith, index-far s k)

index_grows :
    (s : ScanState) (side : Bool) (k : ℕ) → index_in_group s side k ≤ index_in_group s side (suc k)
unfolding index_in_group
index_grows s side k = omega arith

index_mono :
    (s : ScanState) (side : Bool) (k m : ℕ)
    → index_in_group s side k ≤ index_in_group s side (k + m)
index_mono s side k zero =
    omega (arith, ap (index_in_group s side) {x = k} {y = k + 0} (omega arith))
index_mono s side k (suc m) = omega (
  arith,
  index_mono s side k m,
  index_grows s side (k + m),
  ap (index_in_group s side) {x = suc (k + m)} {y = k + suc m} (omega arith),
)

one_more : (n k s : ℕ) → point n k (suc s) ≡ point n k (s + 1)
one_more n k s = ap (point n k) {x = suc s} {y = s + 1} (omega arith)

index_in :
    (s : ScanState) (side : Bool) (k : ℕ)
    → is_producer_ccd s k ≡ side
    → index_in_group s side (suc k) ≡ index_in_group s side k + 1
unfolding index_in_group same_side
index_in s true k e = rw e refl
index_in s false k e = rw e refl

index_out :
    (s : ScanState) (side : Bool) (k : ℕ)
    → is_producer_ccd s k ≡ not side
    → index_in_group s side (suc k) ≡ index_in_group s side k
unfolding index_in_group same_side
index_out s true k e = rw e (omega arith)
index_out s false k e = rw e (omega arith)

module _ (s : ScanState) (split : IsSplit s) where
  abbrev near : ℕ
  near = s.slots_on_producer_ccd

  abbrev far : ℕ
  far = s.participants - s.slots_on_producer_ccd

  -- `producerVolume`
  abbrev volume : ℕ
  volume = point s.n 16 s.asymmetric_num

  volume-bound : volume ≤ s.n
  volume-bound = point_bound s.n 16 s.asymmetric_num split.share (omega arith)

  near_point : ℕ → ℕ
  near_point k = point volume near (index_in_group s true k)

  far_point : ℕ → ℕ
  far_point k = volume + point (s.n - volume) far (index_in_group s false k)

  near_size : index_in_group s true s.participants ≡ near
  near_size = index-near s s.participants ∙ split.counted

  far_size : index_in_group s false s.participants ≡ far
  far_size = omega (arith, index-far s s.participants, near_size)

  index_bound :
      (side : Bool) (slot : ℕ)
      → slot ≤ s.participants
      → index_in_group s side slot ≤ index_in_group s side s.participants
  index_bound side slot h = omega (
    arith,
    index_mono s side slot (s.participants - slot),
    ap (index_in_group s side) {x = slot + (s.participants - slot)} {y = s.participants}
        (omega arith),
  )

  near_share :
      (k : ℕ)
      → k ≤ near
      → mul_div64 (mul_div64 s.n s.asymmetric_num 16) k near ≡ point volume near k
  near_share k h =
      ap (λ v. mul_div64 v k near)
        (mul_div64-point s.n 16 s.asymmetric_num split.share (omega arith) split.room)
      ∙ mul_div64-point volume near k h split.some_near (omega (arith, volume-bound, split.room))

  far_share :
      (k : ℕ)
      → k ≤ far
      → (mul_div64 s.n s.asymmetric_num 16
            + mul_div64
                (s.n - mul_div64 s.n s.asymmetric_num 16)
                k
                ((s.participants + 2 ^ 32 - s.slots_on_producer_ccd) % 2 ^ 32))
          % 2 ^ 64
        ≡ volume + point (s.n - volume) far k
  far_share k h =
      rw
        (
          mul_div64-point s.n 16 s.asymmetric_num split.share (omega arith) split.room,
          far_count,
          mul_div64-point (s.n - volume) far k h (omega (arith, split.some_far))
              (omega (arith, split.room)),
        )
        (omega (
          arith,
          volume-bound,
          split.room,
          point_bound (s.n - volume) far k h (omega (arith, split.some_far)),
        ))
    where
      far_count : (s.participants + 2 ^ 32 - s.slots_on_producer_ccd) % 2 ^ 32 ≡ far
      far_count = omega (arith, split.some_far, split.some_near, split.few)

  near_range :
      (slot : ℕ)
      → slot < s.participants
      → is_producer_ccd s slot ≡ true
      → asymmetric_slot_range s slot ≡ (near_point slot, near_point (suc slot))
  unfolding asymmetric_slot_range near_point
  near_range slot h e =
      rw (e, lt→ltb 0 near split.some_near, index_in s true slot e, wrap)
        (ap₂ (λ a b. (a, b)) (near_share (index_in_group s true slot) (omega (arith, room)))
          (near_share (index_in_group s true slot + 1) room))
    where
      room : index_in_group s true slot + 1 ≤ near
      room = omega (arith, index_bound true (suc slot) h, near_size, index_in s true slot e)

      wrap : (index_in_group s true slot + 1) % 2 ^ 32 ≡ index_in_group s true slot + 1
      wrap = omega (arith, room, split.some_far, split.few)

  far_range :
      (slot : ℕ)
      → slot < s.participants
      → is_producer_ccd s slot ≡ false
      → asymmetric_slot_range s slot ≡ (far_point slot, far_point (suc slot))
  unfolding asymmetric_slot_range far_point
  far_range slot h e =
      rw
        (
          e,
          lt→ltb 0 ((s.participants + 2 ^ 32 - s.slots_on_producer_ccd) % 2 ^ 32) some,
          index_in s false slot e,
          wrap,
        )
        (ap₂ (λ a b. (a, b)) (far_share (index_in_group s false slot) (omega (arith, room)))
          (far_share (index_in_group s false slot + 1) room))
    where
      room : index_in_group s false slot + 1 ≤ far
      room = omega (arith, index_bound false (suc slot) h, far_size, index_in s false slot e)

      some : 0 < (s.participants + 2 ^ 32 - s.slots_on_producer_ccd) % 2 ^ 32
      some = omega (arith, split.some_far, split.some_near, split.few)

      wrap : (index_in_group s false slot + 1) % 2 ^ 32 ≡ index_in_group s false slot + 1
      wrap = omega (arith, room, split.some_far, split.few)

  far_still : (slot : ℕ) → is_producer_ccd s slot ≡ true → far_point (suc slot) ≡ far_point slot
  unfolding far_point
  far_still slot e = rw (index_out s false slot e) refl

  near_still : (slot : ℕ) → is_producer_ccd s slot ≡ false → near_point (suc slot) ≡ near_point slot
  unfolding near_point
  near_still slot e = rw (index_out s true slot e) refl

  near_grows : (slot : ℕ) → near_point slot ≤ near_point (suc slot)
  unfolding near_point
  near_grows slot = elim (Bool-cases (is_producer_ccd s slot)) [
    | inl e ↦ rw (index_in s true slot e) (
        omega (
          arith,
          point_grows volume near (index_in_group s true slot),
          one_more volume near (index_in_group s true slot),
        ))
    | inr e ↦ rw (index_out s true slot e) (omega arith)
  ]

  far_grows : (slot : ℕ) → far_point slot ≤ far_point (suc slot)
  unfolding far_point
  far_grows slot = elim (Bool-cases (is_producer_ccd s slot)) [
    | inl e ↦ rw (index_out s false slot e) (omega arith)
    | inr e ↦ rw (index_in s false slot e) (
        omega (
          arith,
          point_grows (s.n - volume) far (index_in_group s false slot),
          one_more (s.n - volume) far (index_in_group s false slot),
        ))
  ]

  -- One slot moves the points of its own group only.
  covers_once :
      (i slot : ℕ)
      → slot < s.participants
      → (if holds i (asymmetric_slot_range s slot) then 1 else 0)
        ≡ within (near_point slot) i (near_point (suc slot))
          + within (far_point slot) i (far_point (suc slot))
  covers_once i slot h = elim (Bool-cases (is_producer_ccd s slot)) [
    | inl e ↦ rw (near_range slot h e) (ground (arith, far_still slot e))
    | inr e ↦ rw (far_range slot h e) (ground (arith, near_still slot e))
  ]

  near_first : near_point 0 ≡ 0
  unfolding near_point index_in_group
  near_first = point_first volume near

  past_volume : (slot : ℕ) → volume ≤ far_point slot
  unfolding far_point
  past_volume slot = omega arith

  far_first : far_point 0 ≡ volume
  unfolding far_point index_in_group
  far_first = omega (arith, point_first (s.n - volume) far)

  near_last : near_point s.participants ≡ volume
  unfolding near_point
  near_last = rw near_size (point_last volume near split.some_near)

  far_last : far_point s.participants ≡ s.n
  unfolding far_point
  far_last =
      rw far_size
        (omega (arith, volume-bound, point_last (s.n - volume) far (omega (arith, split.some_far))))

  -- Each index below `n` is in the range of one slot, and an index past it in none, wherever the
  -- slots on the producer's complex stand among the others.
  pub asymmetric_exactly_once :
      (i : ℕ)
      → total s.participants (λ slot. if holds i (asymmetric_slot_range s slot) then 1 else 0)
        ≡ (if ltb i s.n then 1 else 0)
  asymmetric_exactly_once i =
      total-within_two s.participants i volume near_point far_point _ (covers_once i) near_first
        far_first near_grows far_grows
      ∙ rw (near_last, far_last) (ground (arith, volume-bound))

  near_upto : (slot : ℕ) → slot ≤ s.participants → near_point slot ≤ volume
  unfolding near_point
  near_upto slot h =
      point_bound volume near (index_in_group s true slot)
        (omega (arith, index_bound true slot h, near_size)) split.some_near

  -- Where a slot on another complex comes before one on the producer's, the indices of the earlier
  -- slot lie past those of the later one.
  pub asymmetric_out_of_order :
      (slot later : ℕ)
      → slot < later
      → later < s.participants
      → is_producer_ccd s slot ≡ false
      → is_producer_ccd s later ≡ true
      → (asymmetric_slot_range s later).1 ≤ (asymmetric_slot_range s slot).0
  asymmetric_out_of_order slot later h lt far_away close =
      rw (near_range later lt close, far_range slot (omega arith) far_away)
        (omega (arith, near_upto (suc later) lt, past_volume slot))
