-- ===== src/Chain/Dynamic/Progress.antt =====
-- The dynamic path of a chain: no wait lasts for ever.
use citor.Prelude.{
  ℕ, zero, suc, ◌+◌, ◌≤◌, ◌<◌, ◌≡◌, refl, arith, Bool, true, false, ltb, ltb→lt, ltb→le, leb,
  leb→le, leb→lt, Bool-cases, inl, inr,
}
use citor.Chain.Defs.{Call, peer}
use citor.Chain.Dynamic.Defs.{
  Place, arriving, scanning, at_gate, looping, claiming, running, stamping, bailing, bailed,
  finished, Chain, Step, first, begin_scan, scan_next, scan_over, go_on, bail, look, drain, claim,
  body_done, stamp, stamp_bailed, leave, Reach,
}
use citor.Chain.Dynamic.Roles.{Here, Fits, Roles, at_own}
use citor.Chain.Dynamic.Steps.{Reach-Roles}

-- Still at work.
unfoldable pub live : Place → Bool
live (arriving k) = true
live (scanning k step) = true
live (at_gate k) = true
live (looping k) = true
live (claiming k) = true
live (running k b) = true
live (stamping k) = true
live bailing = true
live bailed = false
live finished = false

unfoldable level : Place → ℕ
level (arriving k) = k
level (scanning k step) = k
level (at_gate k) = k
level (looping k) = k
level (claiming k) = k
level (running k b) = k
level (stamping k) = k
level bailing = 0
level bailed = 0
level finished = 0

module _ (c : Call) (n_blocks : ℕ) (s : Chain) where
  abbrev pub Moves : Type 0
  Moves = (i : ℕ) × (s' : Chain) × (i < c.participants) × Step c n_blocks s i s'

  arriving_moves : (i k : ℕ) → i < c.participants → s.place i ≡ arriving k → Moves
  arriving_moves i zero l e = elim (Bool-cases (ltb 0 c.n_stages)) [
    | inl m ↦ (i, _, l, first e (ltb→lt 0 c.n_stages m))
    | inr m ↦ (i, _, l, leave e (ltb→le 0 c.n_stages m))
  ]
  arriving_moves i (suc k) l e = elim (Bool-cases (ltb (suc k) c.n_stages)) [
    | inl m ↦ (i, _, l, begin_scan e (ltb→lt (suc k) c.n_stages m))
    | inr m ↦ (i, _, l, leave e (ltb→le (suc k) c.n_stages m))
  ]

  gate_moves : (i k : ℕ) → i < c.participants → s.place i ≡ at_gate k → Moves
  gate_moves i k l e = elim (Bool-cases s.chain_cancelled) [
    | inl x ↦ (i, _, l, bail false e (rw x refl))
    | inr x ↦ (i, _, l, go_on e x)
  ]

  loop_moves : (i k : ℕ) → i < c.participants → s.place i ≡ looping k → Moves
  loop_moves i k l e = elim (Bool-cases s.chain_cancelled) [
    | inl x ↦ (i, _, l, drain e x)
    | inr x ↦ (i, _, l, look e x)
  ]

  not_past : (j k m r : ℕ) → Here c n_blocks s j k r → s.done j < c.epoch_base + (m + 1) → k ≤ m
  not_past j k m r (u, d, b) late = elim (Bool-cases (ltb m k)) [
    | inl l ↦
        let o = ltb→lt m k l in let a = b (omega (arith, o)) in absurd (omega (arith, a, o, late))
    | inr l ↦ ltb→le m k l
  ]

  -- A slot whose stamp of stage `m` is missing is at work on that stage or on one before it.
  behind :
      (j m : ℕ) (p : Place)
      → Fits c n_blocks s j p
      → m < c.n_stages
      → s.done j < c.epoch_base + (m + 1)
      → (live p ≡ true) × (level p ≤ m)
  unfolding live level
  behind j m (arriving k) f n d = (refl, not_past j k m k f.1 d)
  behind j m (scanning k step) f n d = (refl, not_past j k m k f.1 d)
  behind j m (at_gate k) f n d = (refl, not_past j k m k f.1 d)
  behind j m (looping k) f n d = (refl, not_past j k m k f.1 d)
  behind j m (claiming k) f n d = (refl, not_past j k m k f.1 d)
  behind j m (running k b) f n d = (refl, not_past j k m k f.1 d)
  behind j m (stamping k) f n d = (refl, not_past j k m (suc k) f.1 d)
  behind j m bailing f n d = (refl, omega arith)
  behind j m bailed f n d = let h = f.1 in absurd (omega (arith, h, n, d))
  behind j m finished f n d = let h = f.1 (omega (arith, n)) in absurd (omega (arith, h, n, d))

  peer_bound :
      (i step : ℕ) → i < c.participants → step < c.participants → peer c i step < c.participants
  peer_bound i step l m = ground arith

  -- Some slot moves, if one at a stage below `b` is at work.
  moves_below :
      (r : Roles c n_blocks s) (b i : ℕ) (p : Place)
      → i < c.participants
      → s.place i ≡ p
      → live p ≡ true
      → level p < b
      → Moves
  unfolding live level
  moves_below r zero i p l e w m = absurd (omega (arith, m))
  moves_below r (suc b) i (arriving k) l e w m = arriving_moves i k l e
  moves_below r (suc b) i (at_gate k) l e w m = gate_moves i k l e
  moves_below r (suc b) i (looping k) l e w m = loop_moves i k l e
  moves_below r (suc b) i (claiming k) l e w m = (i, _, l, claim e)
  moves_below r (suc b) i (running k d) l e w m = (i, _, l, body_done e)
  moves_below r (suc b) i (stamping k) l e w m = (i, _, l, stamp e)
  moves_below r (suc b) i bailing l e w m = (i, _, l, stamp_bailed e)
  moves_below r (suc b) i bailed l e w m = absurd (cc w)
  moves_below r (suc b) i finished l e w m = absurd (cc w)
  moves_below r (suc b) i (scanning zero step) l e w m =
      let f = (at_own c n_blocks s i r e).2 in absurd (omega (arith, f))
  moves_below r (suc b) i (scanning (suc k) step) l e w m =
      elim (Bool-cases (leb c.participants step)) [
        | inl o ↦ (i, _, l, scan_over e (leb→le c.participants step o))
        | inr o ↦
            let n = (at_own c n_blocks s i r e).0 in
            let j = peer c i step in
            elim (Bool-cases (leb (c.epoch_base + suc k) (s.done j))) [
              | inl d ↦ (
                i,
                _,
                l,
                scan_next e (leb→lt c.participants step o)
                    (leb→le (c.epoch_base + suc k) (s.done j) d),
              )
              | inr d ↦
                  let late = leb→lt (c.epoch_base + suc k) (s.done j) d in
                  let (v, low) =
                    behind j k (s.place j) (r.fits j) (omega (arith, n)) (omega (arith, late)) in
                  moves_below r b j (s.place j) (peer_bound i step l (leb→lt c.participants step o))
                    refl v (omega (arith, low, m))
            ]
      ]

pub dynamic_chain_progress :
    (c : Call) (n_blocks : ℕ) {n : ℕ} {s : Chain} (i : ℕ)
    → Reach c n_blocks n s
    → i < c.participants
    → live (s.place i) ≡ true
    → Moves c n_blocks s
dynamic_chain_progress c n_blocks {s = s} i r l w =
    moves_below c n_blocks s (Reach-Roles c n_blocks r) (suc (level (s.place i))) i (s.place i) l
      refl w (omega arith)
