-- ===== src/Agent/Drained.antt =====
-- The drain before a restart comes to its end.
use monty_pod.Common.{List, String, false, is_empty, some, true, ℕ, ◌<◌, ◌≡◌, ◌≤◌, ◌⊎◌}
use monty_pod.Agent.Coordinator.{Coordinator, Pool, drain_pending, in_flight, pending_futures}

-- What the round `j` that ends the drain has found.
pub record IsDrained (clock : ℕ → ℕ) (seen : ℕ → Coordinator) (deadline first j : ℕ)
    (left : List (Pool × String)) : Type 0 where
  pub found : left ≡ in_flight (pending_futures (seen j))
  pub over : (is_empty (pending_futures (seen j)) ≡ true) ⊎ (deadline ≤ clock j)
  pub later : first ≤ j
  pub waited :
      (i : ℕ)
      → first ≤ i
      → i < j
      → (is_empty (pending_futures (seen i)) ≡ false) × (clock i < deadline)

module _ (clock : ℕ → ℕ) (seen : ℕ → Coordinator) (deadline : ℕ) where
  abbrev EndsFrom : ℕ → ℕ → Type 0
  EndsFrom n i =
      (left : List (Pool × String)) × (j : ℕ) × (drain_pending clock seen deadline n i ≡ some left)
      × IsDrained clock seen deadline i j left
