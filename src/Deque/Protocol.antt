-- ===== src/Deque/Protocol.antt =====
-- include/citor/detail/chase_lev_deque.h, `push`, `pop` and `steal` as interleaved steps: one owner,
-- any number of thieves, one access to shared memory a step. Memory is sequentially consistent; the
-- memory orders of the source are not modelled. Accesses to what only the owner writes (`m_bottom`
-- read by the owner, `m_array` read by the owner, the slots of a new array, the freelist) are taken
-- together with the shared access beside them.
mod Invariant
mod Frame
mod Push
mod Write
mod Pop
mod Steal
pub mod Refine
pub mod Conserve
use mathlib.Core.Logic.{ite}
use citor.Prelude.{
  ℕ, suc, ◌+◌, ◌-◌, ◌*◌, ◌%◌, ◌^◌, ◌<◌, ◌≡◌, ◌≢◌, Bool, true, false, Option, none, some, List, [],
  ◌∷◌, ℕ_discrete,
}
use citor.Prelude.Int.{ℤ, pos, inc, dec, int_ltb, int_leb, int_eqb, rounds}
use citor.Deque.Spec.{Label, silent, pushes, pops, steals}
use citor.Deque.Array.{Array, allocate_array, store, load, copy_range}

abbrev pub update {ℓ} : {A : Type ℓ} → (ℕ → A) → ℕ → A → ℕ → A
update f i a j = ite (ℕ_discrete i j) a (f j)

-- Where the owner stands, with the locals that are live there.
pub data Owner {ℓ} (A : Type ℓ) : Type ℓ where
  idle : Owner A
  pushing : (value : A) (t : ℕ) → Owner A  -- `push` has loaded `m_top`
  storing : (value : A) → Owner A  -- before `arr->store(b, value)`
  publishing : (value : A) → Owner A  -- before `m_bottom.store(b + 1)` of `push`
  popping : Owner A  -- `pop` has stored `b` to `m_bottom`
  racing : (value : A) (t : ℕ) → Owner A  -- before the compare-exchange of `pop`
  restoring : (result : Option A) → Owner A  -- before `m_bottom.store(b + 1)` of `pop`

-- Where a thief stands in `steal`.
pub data Thief {ℓ} (A : Type ℓ) : Type ℓ where
  resting : Thief A
  saw_top : (t : ℕ) → Thief A
  saw_bottom : (t : ℕ) → Thief A
  has_array : (t arr : ℕ) → Thief A
  has_value : (t : ℕ) (value : A) → Thief A

-- Arrays live at addresses; those at `fresh` and above are not allocated yet.
pub record System {ℓ} (A : Type ℓ) : Type ℓ where
  pub bottom : ℤ
  pub top : ℕ
  pub active : ℕ
  pub freelist : List ℕ
  pub heap : ℕ → Array A
  pub fresh : ℕ
  pub owner : Owner A
  pub thieves : ℕ → Thief A

module _ {ℓ} {A : Type ℓ} where
  abbrev pub array : System A → Array A
  array s = s.heap s.active

module _ {ℓ} {A : Type ℓ} (empty : A) where
  -- The array that `grow` publishes, with the elements from the loaded `t` on.
  abbrev pub bigger : System A → ℕ → Array A
  bigger s t =
      copy_range empty (rounds t s.bottom) t (array s)
        (allocate_array empty ((array s).capacity * 2 % 2 ^ 64))

  pub data Step (s : System A) : Label A → System A → Type ℓ where
    -- push
    push_load : (x : A) → s.owner ≡ idle → Step s silent (record s { owner = pushing x s.top })
    push_room :
        {x : A} {t : ℕ}
        → s.owner ≡ pushing x t
        → int_leb (pos ((array s).capacity - 1 + t)) s.bottom ≡ false
        → Step s silent (record s { owner = storing x })
    -- An array of 2 ^ 63 slots is never allocated.
    push_grow :
        {x : A} {t : ℕ}
        → s.owner ≡ pushing x t
        → int_leb (pos ((array s).capacity - 1 + t)) s.bottom ≡ true
        → (array s).capacity < 2 ^ 63
        → Step s silent (record s {
          owner = storing x;
          heap = update s.heap s.fresh (bigger s t);
          active = s.fresh;
          fresh = suc s.fresh;
          freelist = s.active ∷ s.freelist;
        })
    push_store :
        {x : A}
        → s.owner ≡ storing x
        → Step s silent (record s {
          owner = publishing x;
          heap = update s.heap s.active (store (array s) s.bottom x);
        })
    push_publish :
        {x : A}
        → s.owner ≡ publishing x
        → Step s (pushes x) (record s { owner = idle; bottom = inc s.bottom })
    -- pop
    pop_claim : s.owner ≡ idle → Step s silent (record s { owner = popping; bottom = dec s.bottom })
    pop_empty :
        s.owner ≡ popping
        → int_ltb s.bottom (pos s.top) ≡ true
        → Step s (pops none) (record s { owner = restoring none })
    pop_many :
        s.owner ≡ popping
        → int_ltb s.bottom (pos s.top) ≡ false
        → int_eqb (pos s.top) s.bottom ≡ false
        → Step s (pops (some (load empty (array s) s.bottom))) (record s { owner = idle })
    pop_last :
        s.owner ≡ popping
        → int_ltb s.bottom (pos s.top) ≡ false
        → int_eqb (pos s.top) s.bottom ≡ true
        → Step s silent (record s { owner = racing (load empty (array s) s.bottom) s.top })
    pop_won :
        {x : A} {t : ℕ}
        → s.owner ≡ racing x t
        → s.top ≡ t
        → Step s (pops (some x)) (record s { owner = restoring (some x); top = t + 1 })
    pop_lost :
        {x : A} {t : ℕ}
        → s.owner ≡ racing x t
        → s.top ≢ t
        → Step s (pops none) (record s { owner = restoring none })
    pop_restore :
        {r : Option A}
        → s.owner ≡ restoring r
        → Step s silent (record s { owner = idle; bottom = inc s.bottom })
    -- steal, by thief `i`
    steal_top :
        (i : ℕ)
        → s.thieves i ≡ resting
        → Step s silent (record s { thieves = update s.thieves i (saw_top s.top) })
    steal_none :
        (i : ℕ) {t : ℕ}
        → s.thieves i ≡ saw_top t
        → int_leb s.bottom (pos t) ≡ true
        → Step s silent (record s { thieves = update s.thieves i resting })
    steal_bottom :
        (i : ℕ) {t : ℕ}
        → s.thieves i ≡ saw_top t
        → int_leb s.bottom (pos t) ≡ false
        → Step s silent (record s { thieves = update s.thieves i (saw_bottom t) })
    steal_array :
        (i : ℕ) {t : ℕ}
        → s.thieves i ≡ saw_bottom t
        → Step s silent (record s { thieves = update s.thieves i (has_array t s.active) })
    steal_slot :
        (i : ℕ) {t a : ℕ}
        → s.thieves i ≡ has_array t a
        → Step s silent (record s {
          thieves = update s.thieves i (has_value t (load empty (s.heap a) (pos t)));
        })
    steal_won :
        (i : ℕ) {t : ℕ} {x : A}
        → s.thieves i ≡ has_value t x
        → s.top ≡ t
        → Step s (steals x) (record s { top = t + 1; thieves = update s.thieves i resting })
    steal_lost :
        (i : ℕ) {t : ℕ} {x : A}
        → s.thieves i ≡ has_value t x
        → s.top ≢ t
        → Step s silent (record s { thieves = update s.thieves i resting })

  -- The constructor, with 2 ^ log slots.
  abbrev pub init : ℕ → System A
  init log = record {
    bottom = pos 0;
    top = 0;
    active = 0;
    freelist = [];
    heap = λ _. allocate_array empty (2 ^ log);
    fresh = 1;
    owner = idle;
    thieves = λ _. resting;
  }

  -- Runs, with the labels in order, the last first.
  pub data Reach (log : ℕ) : List (Label A) → System A → Type ℓ where
    start : Reach log [] (init log)
    next :
        {tr : List (Label A)} {s s' : System A} (l : Label A)
        → Reach log tr s
        → Step s l s'
        → Reach log (l ∷ tr) s'
