-- ===== src/Deque/Defs.antt =====
-- include/citor/detail/chase_lev_deque.h: the operations of `ChaseLevDeque`, each run with no other
-- thread's step in between (Deque/Protocol has the interleavings). Payload `T{}` is the section's
-- `empty`. The counters are 64-bit in the source; a run would need 2 ^ 63 pushes to wrap them.
use Prim.Native.Nat.{bit_or}
use citor.Prelude.{
  ℕ, zero, suc, ◌+◌, ◌-◌, ◌*◌, ◌/◌, ◌%◌, ◌^◌, ◌≡◌, refl, Bool, true, false, Option, none, some,
  List, [], ◌∷◌, max, leb, ltb, if◌then◌else◌,
}
use citor.Prelude.Int.{ℤ, pos, inc, dec, int_ltb, int_leb, int_eqb, rounds}
use citor.Deque.Array.{Array, allocate_array, store, load, copy_range}

-- kInitialCapacity
abbrev pub initial_capacity : ℕ
initial_capacity = 64

-- v |= v >> s
abbrev smear : ℕ → ℕ → ℕ
smear s v = bit_or v (v / 2 ^ s)

-- `roundUpPow2` at a 64-bit `std::size_t`, whose last addition wraps.
unfoldable pub round_up_pow2 : ℕ → ℕ
round_up_pow2 v =
    if leb v 1
    then 1
    else (smear 32 (smear 16 (smear 8 (smear 4 (smear 2 (smear 1 (v - 1)))))) + 1) % 2 ^ 64

-- `m_bottom`, `m_top`, `m_array` and `m_freelist`, the newest retired array first. `m_top` starts at
-- 0 and is only incremented, so it is a natural number; `m_bottom` is -1 in a `pop` at 0.
pub record Deque {ℓ} (A : Type ℓ) : Type ℓ where
  pub bottom : ℤ
  pub top : ℕ
  pub array : Array A
  pub freelist : List (Array A)

module _ {ℓ} {A : Type ℓ} where
  -- b - t >= capacity - 1, with the subtractions brought to the other sides
  abbrev pub is_full : Deque A → Bool
  is_full d = int_leb (pos (d.array.capacity - 1 + d.top)) d.bottom

module _ {ℓ} {A : Type ℓ} (empty : A) where
  -- the constructor
  unfoldable pub make : ℕ → Deque A
  make wanted = record {
    bottom = pos 0;
    top = 0;
    array = allocate_array empty (max (round_up_pow2 request) initial_capacity);
    freelist = [];
  }
    where
      request : ℕ
      request = if ltb 0 wanted then wanted else initial_capacity

  -- `grow` and the tail of `reserveOwner`: a new array of capacity `cap` with the live elements
  -- copied, the old one put on the freelist.
  unfoldable pub replace_array : ℕ → Deque A → Deque A
  replace_array cap d = record d {
    array = copy_range empty (rounds d.top d.bottom) d.top d.array (allocate_array empty cap);
    freelist = d.array ∷ d.freelist;
  }

  unfoldable pub grow : Deque A → Deque A
  grow d = replace_array (d.array.capacity * 2 % 2 ^ 64) d

  -- while (newCap < needed + 1U) newCap *= 2, on fuel
  unfoldable pub double_until : ℕ → ℕ → ℕ → ℕ
  double_until zero target cap = cap
  double_until (suc fuel) target cap =
      let next = double_until fuel target (cap * 2 % 2 ^ 64) in if ltb cap target then next else cap

  unfoldable pub reserve_owner : ℕ → Deque A → Deque A
  reserve_owner needed d =
      if leb target d.array.capacity
      then d
      else replace_array (double_until 64 target d.array.capacity) d
    where
      target : ℕ
      target = (needed + 1) % 2 ^ 64

  unfoldable pub push : A → Deque A → Deque A
  push value d = record roomy { array = store roomy.array d.bottom value; bottom = inc d.bottom }
    where
      roomy : Deque A
      roomy = if is_full d then grow d else d

  -- With no other thread in between, the compare-exchange on the last item succeeds.
  unfoldable pub pop : Deque A → Option A × Deque A
  pop d =
      if int_ltb b (pos d.top)
      then (none, record d { bottom = inc b })
      else if not_last
      then (some (load empty d.array b), record d { bottom = b })
      else (some (load empty d.array b), record d { top = d.top + 1; bottom = inc b })
    where
      b : ℤ
      b = dec d.bottom

      not_last : Bool
      not_last = if int_eqb (pos d.top) b then false else true

  unfoldable pub steal : Deque A → Option A × Deque A
  steal d =
      if int_leb d.bottom (pos d.top)
      then (none, d)
      else (some (load empty d.array (pos d.top)), record d { top = d.top + 1 })

module _ {ℓ} {A : Type ℓ} where
  unfoldable pub is_empty : Deque A → Bool
  is_empty d = int_leb d.bottom (pos d.top)

  unfoldable pub size : Deque A → ℕ
  size d = if int_ltb (pos d.top) d.bottom then rounds d.top d.bottom else 0

  unfoldable pub capacity : Deque A → ℕ
  capacity d = d.array.capacity

-- A request is rounded up, and never below 64.
make_capacities :
    (capacity {A = ℕ} (make 0 0) ≡ 64)
    × (capacity {A = ℕ} (make 0 64) ≡ 64)
    × (capacity {A = ℕ} (make 0 65) ≡ 128)
unfolding capacity make allocate_array round_up_pow2
make_capacities = (refl, refl, refl)

three : Deque ℕ
unfolding make push grow replace_array copy_range store allocate_array round_up_pow2
three = push 0 9 (push 0 8 (push 0 7 (make 0 0)))

pop_then_steal : ((pop 0 three).0 ≡ some 9) × ((steal 0 (pop 0 three).1).0 ≡ some 7)
unfolding three pop steal load
pop_then_steal = (refl, refl)
