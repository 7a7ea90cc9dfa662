-- ===== src/Plex/LeadSteps.antt =====
-- Every step of the producer of a plex keeps what holds at the places.
use citor.Prelude.{
  ℕ, suc, ◌+◌, ◌-◌, ◌≤◌, ◌<◌, ◌≡◌, refl, sym, ap, subst, ◌∙◌, arith, Bool, true, false,
  if◌then◌else◌, put, put_other,
}
use citor.Prelude.Sums.{up_to}
use citor.Plex.Defs.{
  Call, opening, in_hook, publishing, abandoning, leading, lead_stamping, last_stamping, joining,
  lead_finished, lead_stopped, Plex, lead_to, stamp_slot, LeadStep, open_phase, abandon, hook_done,
  hook_threw, publish, publish_last, lead_done, lead_threw, lead_stamp, last_stamp, join_next,
  join_over, lead_leave,
}
use citor.Plex.Roles.{Joined, Led, Next, Roles, at_lead}
use citor.Plex.Moves.{lead_moves, growing_later, failing_later, lead_calm}

module _ (c : Call) where
  zero_other : (d : ℕ → ℕ) (v j : ℕ) → 0 < j → put d 0 v j ≡ d j
  zero_other d v j z = put_other d 0 j v (ground arith)

  Joined_zero : (d : ℕ → ℕ) (w v : ℕ) → Joined c d v → Joined c (put d 0 w) v
  Joined_zero d w v h j z l o = rw (zero_other d w j z) (h j z l o)

  Led-stamp : (s : Plex) (p w : ℕ) → Led c s p → Led c (stamp_slot s 0 w) p
  Led-stamp s p w (z, n, e, j) = (z, n, e, Joined_zero s.done w (p - 1) j)

  lead_stamped :
      (s : Plex) (p v : ℕ) (last : Bool)
      → Roles c s
      → Led c s p
      → (if last then s.phase_cancelled ≡ true else s.prepared ≡ p)
      → Roles c (lead_to (stamp_slot s 0 v) (joining p 1 last))
  lead_stamped s p v last r n h =
      let s' = lead_to (stamp_slot s 0 v) (joining p 1 last) in
      lead_moves c s s' (joining p 1 last) r (growing_later c s s' refl (omega arith) (omega arith))
        refl (zero_other s.done v) (λ o. refl) refl
        (Led-stamp s p v n, h, omega arith, λ t z m. absurd (omega (arith, z, m)))

  publish-Led : (s : Plex) (p : ℕ) → Next c s p → Led c (record s { current_phase = p }) p
  publish-Led s p (n, e, j) =
      (omega (arith, e), n, refl, subst (Joined c s.done) (omega (arith, e)) j)

  published_below : (s : Plex) (p : ℕ) → Next c s p → s.current_phase ≤ p
  published_below s p (n, e, j) = omega (arith, e)

  pub Lead-Roles : {s s' : Plex} → LeadStep c s s' → Roles c s → Roles c s'
  Lead-Roles {s} (open_phase {p = p} e n x) r =
      let (m, q, j, h) = at_lead c s r e in lead_calm c s (in_hook p) r ((n, q, j), x, h)
  Lead-Roles {s} (abandon {p = p} stop e n x) r =
      let (m, q, j, h) = at_lead c s r e in
      lead_moves c s _ (abandoning p false) r (failing_later c s _ refl (omega arith) refl) refl
        (λ j z. refl) (λ o. refl) refl ((n, q, j), refl)
  Lead-Roles {s} (hook_done {p = p} e) r =
      let ((n, q, j), x, h) = at_lead c s r e in
      lead_moves c s _ (publishing p) r (growing_later c s _ refl (omega arith) (omega arith)) refl
        (λ j z. refl) (λ o. refl) refl ((n, q, j), x, omega (arith, h, q))
  Lead-Roles {s} (hook_threw {p = p} e f) r =
      let (n, x, h) = at_lead c s r f in
      lead_moves c s _ (abandoning p true) r (failing_later c s _ refl (omega arith) refl) refl
        (λ j z. refl) (λ o. absurd (cc o)) refl (n, refl)
  Lead-Roles {s} (publish {p = p} e) r =
      let (n, x, h) = at_lead c s r e in
      lead_moves c s _ (leading p) r
        (growing_later c s _ refl (published_below s p n) (omega arith)) refl (λ j z. refl)
        (λ o. refl) refl (publish-Led s p n, h)
  Lead-Roles {s} (publish_last {p = p} {threw = true} e) r =
      let (n, x) = at_lead c s r e in
      lead_moves c s _ (last_stamping p) r
        (growing_later c s _ refl (published_below s p n) (omega arith)) refl (λ j z. refl)
        (λ o. refl) refl (publish-Led s p n, x)
  Lead-Roles {s} (publish_last {p = p} {threw = false} e) r =
      let (n, x) = at_lead c s r e in
      lead_moves c s _ (joining p 1 true) r
        (growing_later c s _ refl (published_below s p n) (omega arith)) refl (λ j z. refl)
        (λ o. refl) refl (publish-Led s p n, x, omega arith, λ t z m. absurd (omega (arith, z, m)))
  Lead-Roles {s} (lead_done {p = p} e) r =
      let h = at_lead c s r e in
      lead_moves c s _ (lead_stamping p) r (growing_later c s _ refl (omega arith) (omega arith))
        refl (λ j z. refl) (λ o. refl) refl h
  Lead-Roles {s} (lead_threw {p = p} e f) r =
      let (n, h) = at_lead c s r f in
      lead_moves c s _ (last_stamping p) r (failing_later c s _ refl (omega arith) refl) refl
        (λ j z. refl) (λ o. absurd (cc o)) refl (n, refl)
  Lead-Roles {s} (lead_stamp {p = p} e) r =
      let (n, h) = at_lead c s r e in lead_stamped s p (c.epoch_base + p) false r n h
  Lead-Roles {s} (last_stamp {p = p} e) r =
      let (n, h) = at_lead c s r e in lead_stamped s p (c.epoch_base + p) true r n h
  Lead-Roles {s} (join_next {p = p} {step = step} {last = last} e l d) r =
      let (n, h, z, m) = at_lead c s r e in
      lead_calm c s (joining p (suc step) last) r (
        n,
        h,
        omega arith,
        λ t z l.
            up_to (λ t. 0 < t → c.epoch_base + p ≤ s.done t) step (λ t l z. m t z l) (λ _. d) t l z,
      )
  Lead-Roles {s} (join_over {p = p} {step = step} {last = true} e l) r =
      let ((f, n, q, j), h, z, m) = at_lead c s r e in
      lead_calm c s lead_stopped r
        (h, λ i o k _. let a = m i o (omega (arith, k, l)) in omega (arith, a, q))
  Lead-Roles {s} (join_over {p = p} {step = step} {last = false} e l) r =
      let ((f, n, q, j), h, z, m) = at_lead c s r e in
      lead_calm c s (opening (suc p)) r (
        omega (arith, q, n),
        ap suc q,
        λ i o k _. let a = m i o (omega (arith, k, l)) in omega (arith, a, q),
        h ∙ sym q,
      )
  Lead-Roles {s} (lead_leave {p = p} e l) r =
      let (m, q, j, h) = at_lead c s r e in
      let at : s.current_phase ≡ c.n_phases = omega (arith, m, q, l) in
      lead_calm c s lead_finished r (at, subst (Joined c s.done) at j, h ∙ at)
