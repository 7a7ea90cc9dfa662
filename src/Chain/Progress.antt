-- ===== src/Chain/Progress.antt =====
-- The barriers of a chain: no wait lasts for ever.
use citor.Prelude.{
  ℕ, zero, suc, ◌+◌, ◌≤◌, ◌<◌, ◌≡◌, refl, subst, arith, Bool, true, false, ◌||◌, ◌==◌, ltb, ltb→lt,
  ltb→le, leb, leb→le, leb→lt, Bool-cases, ==_iff, ==_ne, inl, inr, ◌⊎◌,
}
use citor.Prelude.Sums.{lt_of}
use citor.Chain.Defs.{
  BarrierKind, no_barrier, deterministic_reduce, producer_serial, Call, Place, arriving, scanning,
  serial_waiting, at_gate, running, stamping, bailing, bailed, finished, Chain, prev_barrier,
  is_rendezvous, is_serial, stamp_needed, peer, Step, pass, begin_scan, scan_next, scan_over,
  begin_serial, serial_over, go_on, bail, body_done, stamp, stamp_bailed, leave, Reach,
}
use citor.Chain.Roles.{Here, Fits, Roles, at_own, not_both}
use citor.Chain.Steps.{Reach-Roles}

-- Still at work.
unfoldable pub live : Place → Bool
live (arriving k) = true
live (scanning k step) = true
live (serial_waiting k) = true
live (at_gate k runs_body) = true
live (running k) = true
live (stamping k) = true
live bailing = true
live bailed = false
live finished = false

unfoldable level : Place → ℕ
level (arriving k) = k
level (scanning k step) = k
level (serial_waiting k) = k
level (at_gate k runs_body) = k
level (running k) = k
level (stamping k) = k
level bailing = 0
level bailed = 0
level finished = 0

barrier_kinds :
    (b : BarrierKind) → (b ≡ no_barrier) ⊎ ((is_rendezvous b ≡ true) ⊎ (is_serial b ≡ true))
barrier_kinds no_barrier = inl refl
barrier_kinds BarrierKind.global = inr (inl refl)
barrier_kinds deterministic_reduce = inr (inl refl)
barrier_kinds producer_serial = inr (inr refl)

or_true : (b : Bool) → (b || true) ≡ true
or_true true = refl
or_true false = refl

module _ (c : Call) (s : Chain) where
  abbrev pub Moves : Type 0
  Moves = (i : ℕ) × (s' : Chain) × (i < c.participants) × Step c s i s'

  arriving_moves : (i k : ℕ) → i < c.participants → s.place i ≡ arriving k → Moves
  arriving_moves i k l e = elim (Bool-cases (ltb k c.n_stages)) [
    | inl m ↦ elim (barrier_kinds (prev_barrier c k)) [
      | inl b ↦ (i, _, l, pass e (ltb→lt k c.n_stages m) b)
      | inr (inl b) ↦ (i, _, l, begin_scan e (ltb→lt k c.n_stages m) b)
      | inr (inr b) ↦ (i, _, l, begin_serial e (ltb→lt k c.n_stages m) b)
    ]
    | inr m ↦ (i, _, l, leave e (ltb→le k c.n_stages m))
  ]

  gate_moves :
      (i k : ℕ) (runs_body : Bool) → i < c.participants → s.place i ≡ at_gate k runs_body → Moves
  gate_moves i k runs_body l e = elim (Bool-cases s.chain_cancelled) [
    | inl x ↦ (i, _, l, bail false e (rw x refl))
    | inr x ↦ (i, _, l, go_on e x)
  ]

  not_past :
      (j k r m : ℕ)
      → Here c (s.done j) (s.ran j) j k r
      → stamp_needed c j m ≡ true
      → s.done j < c.epoch_base + (m + 1)
      → k ≤ m
  not_past j k r m h e d = elim (Bool-cases (ltb m k)) [
    | inl l ↦ let a = h.low m (ltb→lt m k l) e in absurd (omega (arith, a, d))
    | inr l ↦ ltb→le m k l
  ]

  -- A slot whose stamp of stage `m` is missing is at work on that stage or on one before it.
  behind :
      (j m : ℕ) (p : Place)
      → Fits c s j p
      → m < c.n_stages
      → stamp_needed c j m ≡ true
      → s.done j < c.epoch_base + (m + 1)
      → (live p ≡ true) × (level p ≤ m)
  unfolding live level
  behind j m (arriving k) f n e d = (refl, not_past j k k m f.1 e d)
  behind j m (scanning k step) f n e d = (refl, not_past j k k m f.1 e d)
  behind j m (serial_waiting k) f n e d = (refl, not_past j k k m f.1 e d)
  behind j m (at_gate k runs_body) f n e d = (refl, not_past j k k m f.1 e d)
  behind j m (running k) f n e d = (refl, not_past j k k m f.1 e d)
  behind j m (stamping k) f n e d = (refl, not_past j k (suc k) m f.1 e d)
  behind j m bailing f n e d = (refl, omega arith)
  behind j m bailed f n e d = let h = f.1 in absurd (omega (arith, h, n, d))
  behind j m finished f n e d =
      let h = not_past j c.n_stages c.n_stages m f e d in absurd (omega (arith, h, n))

  peer_bound :
      (i step : ℕ) → i < c.participants → step < c.participants → peer c i step < c.participants
  peer_bound i step l m = ground arith

  serial_needed : (k : ℕ) → is_serial (prev_barrier c k) ≡ true → stamp_needed c 0 k ≡ true
  serial_needed k a = rw a (or_true (is_rendezvous (c.barrier k) || is_serial (c.barrier k)))

  -- Slot 0, awaited at a serial stage, has no wait at that stage.
  producer_moves :
      (r : Roles c s) (k : ℕ) (q : Place)
      → 0 < c.participants
      → s.place 0 ≡ q
      → live q ≡ true
      → level q ≤ k
      → is_serial (prev_barrier c k) ≡ true
      → ((q : Place) → s.place 0 ≡ q → live q ≡ true → level q < k → Moves)
      → Moves
  unfolding live level
  producer_moves r k (arriving m) l e v o a below = arriving_moves 0 m l e
  producer_moves r k (at_gate m runs_body) l e v o a below = gate_moves 0 m runs_body l e
  producer_moves r k (running m) l e v o a below = (0, _, l, body_done e)
  producer_moves r k (stamping m) l e v o a below = (0, _, l, stamp e)
  producer_moves r k bailing l e v o a below = (0, _, l, stamp_bailed e)
  producer_moves r k bailed l e v o a below = absurd (cc v)
  producer_moves r k finished l e v o a below = absurd (cc v)
  producer_moves r k (serial_waiting m) l e v o a below = absurd ((at_own c s 0 r e).3 refl)
  producer_moves r k (scanning m step) l e v o a below = elim (Bool-cases (m == k)) [
    | inl q ↦
        let z =
          subst (λ m. is_rendezvous (prev_barrier c m) ≡ true) ((==_iff m k).0 q)
            (at_own c s 0 r e).2 in
        absurd (not_both (prev_barrier c k) z a)
    | inr q ↦ below (scanning m step) e refl (lt_of m k (omega (arith, o)) (==_ne m k q))
  ]

  -- Some slot moves, if one at a stage below `b` is at work.
  moves_below :
      (r : Roles c s) (b i : ℕ) (p : Place)
      → i < c.participants
      → s.place i ≡ p
      → live p ≡ true
      → level p < b
      → Moves
  unfolding live level
  moves_below r zero i p l e w m = absurd (omega (arith, m))
  moves_below r (suc b) i (arriving k) l e w m = arriving_moves i k l e
  moves_below r (suc b) i (at_gate k runs_body) l e w m = gate_moves i k runs_body l e
  moves_below r (suc b) i (running k) l e w m = (i, _, l, body_done e)
  moves_below r (suc b) i (stamping k) l e w m = (i, _, l, stamp e)
  moves_below r (suc b) i bailing l e w m = (i, _, l, stamp_bailed e)
  moves_below r (suc b) i bailed l e w m = absurd (cc w)
  moves_below r (suc b) i finished l e w m = absurd (cc w)
  moves_below r (suc b) i (scanning zero step) l e w m = absurd (cc (at_own c s i r e).2)
  moves_below r (suc b) i (scanning (suc k) step) l e w m =
      elim (Bool-cases (leb c.participants step)) [
        | inl o ↦ (i, _, l, scan_over e (leb→le c.participants step o))
        | inr o ↦
            let (n, h, a, seen, f) = at_own c s i r e in
            let j = peer c i step in
            elim (Bool-cases (leb (c.epoch_base + suc k) (s.done j))) [
              | inl d ↦ (
                i,
                _,
                l,
                scan_next e (leb→lt c.participants step o)
                    (leb→le (c.epoch_base + suc k) (s.done j) d),
              )
              | inr d ↦
                  let late = leb→lt (c.epoch_base + suc k) (s.done j) d in
                  let (v, low) =
                    behind j k (s.place j) (r.fits j) (omega (arith, n)) (rw a refl)
                      (omega (arith, late)) in
                  moves_below r b j (s.place j) (peer_bound i step l (leb→lt c.participants step o))
                    refl v (omega (arith, low, m))
            ]
      ]
  moves_below r (suc b) i (serial_waiting k) l e w m =
      elim (Bool-cases (leb (c.epoch_base + (k + 1)) (s.done 0))) [
        | inl d ↦ (i, _, l, serial_over e (leb→le (c.epoch_base + (k + 1)) (s.done 0) d))
        | inr d ↦
            let (n, h, a, z) = at_own c s i r e in
            let (v, low) =
              behind 0 k (s.place 0) (r.fits 0) n (serial_needed k a)
                (leb→lt (c.epoch_base + (k + 1)) (s.done 0) d) in
            producer_moves r k (s.place 0) (omega (arith, l)) refl v low a
              (λ q f u o. moves_below r b 0 q (omega (arith, l)) f u (omega (arith, o, m)))
      ]

-- In every state that any interleaving of the slots reaches, for any stages, also after throws of the
-- bodies and after a stop of the token, if some slot is still at work then some slot has a step: the
-- barriers of a chain never block each other.
pub chain_progress :
    (c : Call) {n : ℕ} {s : Chain} (i : ℕ)
    → Reach c n s
    → i < c.participants
    → live (s.place i) ≡ true
    → Moves c s
chain_progress c {s = s} i r l w =
    moves_below c s (Reach-Roles c r) (suc (level (s.place i))) i (s.place i) l refl w (omega arith)
