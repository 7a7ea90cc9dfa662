-- ===== src/Failure.antt =====
-- `captureFirstException` of include/citor/thread_pool.h, which the engines share.
use citor.Prelude.{ℕ, ◌≡◌, refl, Bool, true, false, Option, none, some}

abbrev pub capture : Option ℕ → ℕ → Option ℕ
capture none e = some e
capture (some first) e = some first

unfoldable pub failed : Option ℕ → Bool
failed none = false
failed (some e) = true

pub failed-capture : (o : Option ℕ) (e : ℕ) → failed (capture o e) ≡ true
unfolding failed
failed-capture none e = refl
failed-capture (some first) e = refl
