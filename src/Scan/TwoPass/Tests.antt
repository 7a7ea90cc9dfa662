-- ===== src/Scan/TwoPass/Tests.antt =====
-- Runs of the two passes at concrete inputs.
use citor.Prelude.{ℕ, ◌+◌, ◌≤◌, ◌≡◌, refl, arith, false, ◌==◌, if◌then◌else◌, none, some}
use citor.Failure.{failed}
use citor.Scan.TwoPass.Defs.{
  returned, raised, Call, pass_one, finished, Scan, one_done, one_threw, join_next, reduce_done,
  publish, see_published, go_two, two_done, stamp, IsFresh, Reach, start, next, scan_result,
  reduce_from,
}
use citor.Scan.TwoPass.Reduce.{exclusive}
use citor.Scan.TwoPass.Seeds.{scan_seeds, scan_total}
use citor.Scan.TwoPass.Progress.{Moves}
use citor.Scan.TwoPass.Ends.{scan_ends}

-- Two slots, whose partial sums are 10 and 11.
abbrev sums : Call ℕ
sums = record {
  participants = 2;
  epoch_base = 5;
  identity = 0;
  body = λ slot initial. returned (initial + 10 + slot);
  prefix = λ a b. returned (a + b);
}

abbrev fresh : Scan ℕ
fresh = record {
  partials = λ k. 0;
  done = λ k. 5;
  published = false;
  cancelled = false;
  first_exception = none;
  seeds = λ k. none;
  acc = 0;
  inclusive_total = 0;
  place = λ k. pass_one;
}

fresh-IsFresh : IsFresh sums fresh
unfolding failed
fresh-IsFresh = record {
  producer = omega arith;
  stamps = λ k. omega arith;
  unpublished = refl;
  going = refl;
  clean = refl;
  unseeded = λ k. refl;
  all_one = λ k. refl;
}

-- A whole run, in which slot 1 ends first.
whole_run :
    (s : Scan ℕ) × Reach sums 12 s
    × (s.seeds 1 ≡ some 10)
    × (s.place 0 ≡ finished)
    × (scan_result s ≡ returned 21)
unfolding failed reduce_from
whole_run =
    let a = next 0 (start fresh-IsFresh) (omega arith) (one_done refl refl) in
    let b = next 1 a (omega arith) (one_done refl refl) in
    let d = next 0 b (omega arith) (join_next refl (omega arith) (omega arith)) in
    let e = next 0 d (omega arith) (reduce_done refl (omega arith) refl refl) in
    let f = next 0 e (omega arith) (publish refl) in
    let g = next 1 f (omega arith) (see_published refl refl) in
    let h = next 1 g (omega arith) (go_two refl refl) in
    let i = next 1 h (omega arith) (two_done refl) in
    let j = next 1 i (omega arith) (stamp refl) in
    let k = next 0 j (omega arith) (go_two refl refl) in
    let l = next 0 k (omega arith) (two_done refl) in
    (_, next 0 l (omega arith) (stamp refl), refl, refl, refl)

scan_seeds_example : exclusive sums 1 ≡ returned 10
scan_seeds_example = scan_seeds sums 1 10 whole_run.1 whole_run.2

scan_total_example : exclusive sums 2 ≡ returned 21
scan_total_example = scan_total sums 21 whole_run.1 whole_run.3 whole_run.4

-- Slot 0 throws in Pass 1.
abbrev throwing : Call ℕ
throwing = record sums { body = λ slot initial. if slot == 0 then raised 7 else returned initial }

throwing-IsFresh : IsFresh throwing fresh
unfolding failed
throwing-IsFresh = record {
  producer = omega arith;
  stamps = λ k. omega arith;
  unpublished = refl;
  going = refl;
  clean = refl;
  unseeded = λ k. refl;
  all_one = λ k. refl;
}

thrown : (s : Scan ℕ) × Reach throwing 1 s × (s.place 1 ≡ pass_one)
thrown = (_, next 0 (start throwing-IsFresh) (omega arith) (one_threw {e = 7} refl refl), refl)

scan_ends_example : Moves throwing thrown.0 × (1 ≤ 18)
scan_ends_example = scan_ends throwing 1 thrown.1 (omega arith) (λ e. cc (thrown.2, e))
