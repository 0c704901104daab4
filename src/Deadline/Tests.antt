-- ===== src/Deadline/Tests.antt =====
-- A small deadline of src/runtime/deadline.ts.
use kiro_fabric.Prelude.{◌≤◌, [], ◌∷◌, some, arith}
use kiro_fabric.Deadline.{make_deadline, extend_to}
use kiro_fabric.Deadline.Laws.{extends, expires, deadline_run, Follows, make_deadline_run-Follows}

expired_soon :
    (deadline_run (extends 3_000 (some 40) ∷ []) (make_deadline 5 20 1_000)).expires_at ≤ 30_000
unfolding deadline_run extend_to make_deadline
expired_soon = omega arith

make_deadline_run-Follows_example :
    Follows
      (make_deadline 5 20 1_000)
      (deadline_run (extends 3_000 (some 40) ∷ []) (make_deadline 5 20 1_000))
    × ((deadline_run
          (extends 31_000 (some 90) ∷ expires ∷ [])
          (deadline_run (extends 3_000 (some 40) ∷ []) (make_deadline 5 20 1_000))).expires_at
        ≤ 30_000)
make_deadline_run-Follows_example =
    make_deadline_run-Follows 5 20 1_000 30_000 (extends 3_000 (some 40) ∷ [])
      (extends 31_000 (some 90) ∷ expires ∷ []) expired_soon (omega arith, (tt, tt))
