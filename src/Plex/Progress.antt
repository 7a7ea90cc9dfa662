-- ===== src/Plex/Progress.antt =====
-- No wait of a plex lasts for ever.
use citor.Prelude.{
  ℕ, zero, suc, ◌+◌, ◌-◌, ◌≤◌, ◌<◌, ◌≡◌, refl, arith, Bool, true, false, leb, leb→le, leb→lt,
  Bool-cases, inl, inr, ◌⊎◌,
}
use citor.Plex.Defs.{
  Call, Lead, opening, in_hook, publishing, abandoning, leading, lead_stamping, last_stamping,
  joining, lead_finished, lead_stopped, Place, awaiting, seen, running, stamping, draining,
  stopping, stopped, finished, Plex, open_phase, abandon, hook_done, publish, publish_last,
  lead_done, lead_stamp, last_stamp, join_next, join_over, lead_leave, see_phase, see_cancelled,
  go_on, drain, body_done, stamp, stamp_drained, stamp_final, leave, Step, lead, work, Reach,
}
use citor.Plex.Roles.{Leads, Works, Roles, at_own, at_lead}
use citor.Plex.Steps.{Reach-Roles}

-- Still at work.
unfoldable pub lead_live : Lead → Bool
lead_live (opening p) = true
lead_live (in_hook p) = true
lead_live (publishing p) = true
lead_live (abandoning p threw) = true
lead_live (leading p) = true
lead_live (lead_stamping p) = true
lead_live (last_stamping p) = true
lead_live (joining p step last) = true
lead_live lead_finished = false
lead_live lead_stopped = false

unfoldable pub work_live : Place → Bool
work_live (awaiting p) = true
work_live (seen p) = true
work_live (running p) = true
work_live (stamping p) = true
work_live (draining p) = true
work_live stopping = true
work_live stopped = false
work_live finished = false

-- Whether a slot is still at work.
unfoldable pub live : Plex → (slot : ℕ) → Bool
live s zero = lead_live s.producer
live s (suc i) = work_live (s.worker (suc i))

module _ (c : Call) (s : Plex) where
  abbrev pub Moves : Type 0
  Moves = (s' : Plex) × Step c s s'

  -- A worker moves if the plex is cancelled or the phase that it waits for is published.
  worker_moves :
      (i : ℕ) (w : Place)
      → 0 < i
      → i < c.participants
      → s.worker i ≡ w
      → work_live w ≡ true
      → ((p : ℕ)
          → w ≡ awaiting p
          → p ≤ c.n_phases
          → (p ≤ s.current_phase) ⊎ (s.phase_cancelled ≡ true))
      → Moves
  unfolding work_live
  worker_moves i (awaiting p) z l e v h = elim (Bool-cases (leb p c.n_phases)) [
    | inl n ↦
        let m = leb→le p c.n_phases n in
        elim (h p refl m) [
          | inl o ↦ (_, work i z l (see_phase e m o))
          | inr x ↦ (_, work i z l (see_cancelled e m x))
        ]
    | inr n ↦ (_, work i z l (leave e (leb→lt p c.n_phases n)))
  ]
  worker_moves i (seen p) z l e v h = elim (Bool-cases s.phase_cancelled) [
    | inl x ↦ (_, work i z l (drain e x))
    | inr x ↦ (_, work i z l (go_on e x))
  ]
  worker_moves i (running p) z l e v h = (_, work i z l (body_done e))
  worker_moves i (stamping p) z l e v h = (_, work i z l (stamp e))
  worker_moves i (draining p) z l e v h = (_, work i z l (stamp_drained e))
  worker_moves i stopping z l e v h = (_, work i z l (stamp_final e))
  worker_moves i stopped z l e v h = absurd (cc v)
  worker_moves i finished z l e v h = absurd (cc v)

  -- A worker whose stamp of the published phase is missing is still at work.
  late_live :
      (i p : ℕ) (w : Place)
      → Works c s i w
      → 0 < p
      → p ≤ c.n_phases
      → s.done i < c.epoch_base + p
      → work_live w ≡ true
  unfolding work_live
  late_live i p stopped (u, x) z n d = absurd (omega (arith, u, n, d))
  late_live i p finished (f, u, g) z n d =
      let h = g (omega (arith, z, n)) in absurd (omega (arith, h, n, d))
  late_live i p (awaiting q) h z n d = refl
  late_live i p (seen q) h z n d = refl
  late_live i p (running q) h z n d = refl
  late_live i p (stamping q) h z n d = refl
  late_live i p (draining q) h z n d = refl
  late_live i p stopping h z n d = refl

  not_later :
      (q p d : ℕ)
      → 0 < p
      → 0 < q
      → (1 < q → c.epoch_base + (q - 1) ≤ d)
      → d < c.epoch_base + p
      → s.current_phase ≡ p
      → q ≤ s.current_phase
  not_later q p d z f g late e = elim (Bool-cases (leb q s.current_phase)) [
    | inl h ↦ leb→le q s.current_phase h
    | inr h ↦
        let over = leb→lt q s.current_phase h in
        let low = g (omega (arith, over, e, z)) in absurd (omega (arith, over, low, late, e))
  ]

  joining_moves : (p step : ℕ) (last : Bool) → Roles c s → s.producer ≡ joining p step last → Moves
  joining_moves p step last r e = elim (Bool-cases (leb c.participants step)) [
    | inl o ↦ (_, lead (join_over e (leb→le c.participants step o)))
    | inr o ↦ elim (Bool-cases (leb (c.epoch_base + p) (s.done step))) [
      | inl d ↦ (
        _,
        lead (
            join_next e (leb→lt c.participants step o) (leb→le (c.epoch_base + p) (s.done step) d)),
      )
      | inr d ↦
          let ((f, n, q, j), h, z, m) = at_lead c s r e in
          let l = leb→lt c.participants step o in
          let late = leb→lt (c.epoch_base + p) (s.done step) d in
          let own = r.works step z l in
          worker_moves step (s.worker step) z l refl (late_live step p (s.worker step) own f n late)
            (λ p' a n'.
              let ((f', u, g), y, y') = at_own c s step r z l a in
              inl (not_later p' p (s.done step) f f' g late q))
    ]
  ]

  producer_moves : (l : Lead) → Roles c s → s.producer ≡ l → lead_live l ≡ true → Moves
  unfolding lead_live
  producer_moves (opening p) r e v = elim (Bool-cases (leb p c.n_phases)) [
    | inl n ↦ elim (Bool-cases s.phase_cancelled) [
      | inl x ↦ (_, lead (abandon false e (leb→le p c.n_phases n) x))
      | inr x ↦ (_, lead (open_phase e (leb→le p c.n_phases n) x))
    ]
    | inr n ↦ (_, lead (lead_leave e (leb→lt p c.n_phases n)))
  ]
  producer_moves (in_hook p) r e v = (_, lead (hook_done e))
  producer_moves (publishing p) r e v = (_, lead (publish e))
  producer_moves (abandoning p threw) r e v = (_, lead (publish_last e))
  producer_moves (leading p) r e v = (_, lead (lead_done e))
  producer_moves (lead_stamping p) r e v = (_, lead (lead_stamp e))
  producer_moves (last_stamping p) r e v = (_, lead (last_stamp e))
  producer_moves (joining p step last) r e v = joining_moves p step last r e
  producer_moves lead_finished r e v = absurd (cc v)
  producer_moves lead_stopped r e v = absurd (cc v)

  -- Once the producer has left, the workers leave.
  all_published :
      (l : Lead)
      → Leads c s l
      → lead_live l ≡ false
      → (p : ℕ) → p ≤ c.n_phases
      → (p ≤ s.current_phase) ⊎ (s.phase_cancelled ≡ true)
  unfolding lead_live
  all_published lead_finished (e, h, k) v p n = inl (omega (arith, e, n))
  all_published lead_stopped (x, h) v p n = inr x
  all_published l h v p n = absurd (cc v)

-- In every state that any interleaving of the slots reaches, also after throws and stops, if some slot is
-- still at work then the producer or a worker has a step: a plex never deadlocks.
pub plex_progress :
    (c : Call) {n : ℕ} {s : Plex} (i : ℕ)
    → Reach c n s
    → i < c.participants
    → live s i ≡ true
    → Moves c s
unfolding live
plex_progress c {s = s} zero r l v = producer_moves c s s.producer (Reach-Roles c r) refl v
plex_progress c {s = s} (suc i) r l v =
    let roles = Reach-Roles c r in
    elim (Bool-cases (lead_live s.producer)) [
      | inl o ↦ producer_moves c s s.producer roles refl o
      | inr o ↦
          worker_moves c s (suc i) (s.worker (suc i)) (omega arith) l refl v
            (λ p a n. all_published c s s.producer roles.leads o p n)
    ]
