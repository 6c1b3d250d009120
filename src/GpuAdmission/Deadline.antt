-- ===== src/GpuAdmission/Deadline.antt =====
-- The wait is bounded, by a deadline that is priced once, at entry.
use monty_pod.Common.{Bool, Option, arith, false, length, min, none, ℕ, ◌*◌, ◌+◌, ◌≡◌, ◌≤◌}
use monty_pod.GpuAdmission.{
  Ledger, Waiter, enter, heavy_op_ceiling_s, heavy_park_ceiling_s, is_admissible, park_deadline_s,
  queued, take_turn, timed_out,
}

-- The park deadline grants each of the operations ahead and admitted, up to four of them, its
-- whole ceiling of 140 s, and is never under one ceiling nor over four.
park_deadline_bounds :
    (ahead admitted : ℕ)
    → (heavy_op_ceiling_s ≤ park_deadline_s ahead admitted)
      × (park_deadline_s ahead admitted ≤ heavy_park_ceiling_s)
      × (min (ahead + admitted) 4 * heavy_op_ceiling_s ≤ park_deadline_s ahead admitted)
unfolding park_deadline_s
park_deadline_bounds ahead admitted = (omega arith, omega arith, omega arith)

-- A waiter that left its deadline to the queue policy times out no sooner than its start plus the
-- park deadline for those ahead of it and those admitted when it entered, whatever the ledger is
-- by then, and only where it cannot be admitted; the turn changes nothing in the ledger.
pub waits_out_its_deadline :
    (budget : ℕ) (need : Option ℕ) (started now : ℕ) (l l' k : Ledger) (w : Waiter) (parks : Bool)
    → enter budget need none started l ≡ (queued w parks, l')
    → (take_turn now w k).0 ≡ timed_out
    → (started + park_deadline_s (length l.queue) (length l.live) ≤ now)
      × (is_admissible w.token w.need w.budget k ≡ false)
      × ((take_turn now w k).1 ≡ k)
unfolding enter take_turn
waits_out_its_deadline budget need started now l l' k w parks h t =
    (ground arith, ground arith, ground arith)
