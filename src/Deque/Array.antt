-- ===== src/Deque/Array.antt =====
-- include/citor/detail/chase_lev_deque.h: the nested `Array`, a ring of slots indexed modulo its
-- capacity, with `allocateArray` and the copy loop that `grow` and `reserveOwner` share.
use Prim.Native.Nat.{bit_and}
use native.Mathlib.Nat.{mod-lt, div-add-mod}
use citor.Prelude.{
  ℕ, zero, suc, ◌+◌, ◌-◌, ◌*◌, ◌/◌, ◌%◌, ◌^◌, ◌≤◌, ◌<◌, ◌≡◌, refl, sym, ap, ◌∙◌, ◌≢◌, List, [], ◌∷◌,
  arith, length, get_or, set, length-set, get_or-set_self, get_or-set_ne, bit_and-mask, two-pow_pos,
  dec_lt,
}
use citor.Prelude.Int.{ℤ, pos, negsuc}

-- `capacity`, `mask` and the trailing `slots`. The chain of retired arrays (`next`) is the list
-- `freelist` of the deque.
pub record Array {ℓ} (A : Type ℓ) : Type ℓ where
  pub capacity : ℕ
  pub mask : ℕ
  pub slots : List A

-- static_cast<std::size_t>(i) & mask: a negative index wraps modulo 2 ^ 64.
abbrev pub slot_index : ℕ → ℤ → ℕ
slot_index mask (pos n) = bit_and n mask
slot_index mask (negsuc n) = bit_and (2 ^ 64 - suc n) mask

module _ {ℓ} {A : Type ℓ} where
  abbrev replicate : ℕ → A → List A
  replicate zero a = []
  replicate (suc n) a = a ∷ replicate n a

  length-replicate : (n : ℕ) (a : A) → length (replicate n a) ≡ n
  length-replicate zero a = refl
  length-replicate (suc n) a = ap suc (length-replicate n a)

  -- Every slot starts as `T{}`.
  unfoldable pub allocate_array : A → ℕ → Array A
  allocate_array empty cap = record { capacity = cap; mask = cap - 1; slots = replicate cap empty }

  unfoldable pub store : Array A → ℤ → A → Array A
  store a i v = record a { slots = set a.slots (slot_index a.mask i) v }

  -- `empty` is read outside the slots, which no access of the deque does.
  unfoldable pub load : A → Array A → ℤ → A
  load empty a i = get_or a.slots (slot_index a.mask i) empty

  -- for (i = t; i < b; ++i) newArr->store(i, oldArr->load(i)), with the rounds left first
  unfoldable pub copy_range : A → ℕ → ℕ → Array A → Array A → Array A
  copy_range empty zero t old new = new
  copy_range empty (suc n) t old new =
      copy_range empty n (t + 1) old (store new (pos t) (load empty old (pos t)))

-- An array as `allocateArray` makes it from a power of two.
pub record IsArray {ℓ} {A : Type ℓ} (a : Array A) : Type 0 where
  pub log : ℕ
  pub power : a.capacity ≡ 2 ^ log
  pub masked : a.mask ≡ a.capacity - 1
  pub sized : length a.slots ≡ a.capacity

mul-le-mul_left : (c a b : ℕ) → a ≤ b → c * a ≤ c * b
mul-le-mul_left c a b h = grind arith

module _ {ℓ} {A : Type ℓ} where
  pub allocate_array-IsArray : (empty : A) (m : ℕ) → IsArray (allocate_array empty (2 ^ m))
  unfolding allocate_array
  allocate_array-IsArray empty m = record {
    log = m;
    power = refl;
    masked = refl;
    sized = length-replicate (2 ^ m) empty;
  }

-- Two positions that are less than a capacity apart have different slots.
pub mod-ne : (i j c : ℕ) → i < j → j < i + c → i % c ≢ j % c
mod-ne i j c h k e = elim (dec_lt (i / c) (j / c)) [
  | yes p ↦
      omega (
        arith,
        div-add-mod i c,
        div-add-mod j c,
        mul-le-mul_left c (i / c + 1) (j / c) (omega arith),
      )
  | no p ↦
      omega
        (arith, div-add-mod i c, div-add-mod j c, mul-le-mul_left c (j / c) (i / c) (omega arith))
]

module _ {ℓ} {A : Type ℓ} {a : Array A} (v : IsArray a) where
  slot_index-mod : (i : ℕ) → slot_index a.mask (pos i) ≡ i % a.capacity
  slot_index-mod i =
      ap (bit_and i) (v.masked ∙ ap (λ c. c - 1) v.power)
      ∙ bit_and-mask v.log i
      ∙ ap (λ c. i % c) (sym v.power)

  pub capacity_pos : 0 < a.capacity
  capacity_pos = omega (arith, v.power, two-pow_pos v.log)

  -- No access is out of bounds.
  slot_index-lt : (i : ℕ) → slot_index a.mask (pos i) < length a.slots
  slot_index-lt i = omega (arith, slot_index-mod i, v.sized, mod-lt i capacity_pos)

  pub store-IsArray : (i : ℤ) (x : A) → IsArray (store a i x)
  unfolding store
  store-IsArray i x = record {
    log = v.log;
    power = v.power;
    masked = v.masked;
    sized = length-set a.slots (slot_index a.mask i) x ∙ v.sized;
  }

  pub load-store_self : (empty x : A) (i : ℕ) → load empty (store a (pos i) x) (pos i) ≡ x
  unfolding load store
  load-store_self empty x i = get_or-set_self a.slots _ x empty (slot_index-lt i)

  pub load-store_ne :
      (empty x : A) (i j : ℕ)
      → i % a.capacity ≢ j % a.capacity
      → load empty (store a (pos i) x) (pos j) ≡ load empty a (pos j)
  unfolding load store
  load-store_ne empty x i j h =
      get_or-set_ne a.slots x empty (λ e. h (sym (slot_index-mod i) ∙ e ∙ slot_index-mod j))
