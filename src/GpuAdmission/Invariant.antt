-- ===== src/GpuAdmission/Invariant.antt =====
-- What holds of the ledger and of the parked threads in every reachable state.
use monty_pod.Common.{All, List, Option, [], length, map, none, some, ℕ, ◌+◌, ◌<◌, ◌∷◌, ◌≡◌, ◌≤◌}
use monty_pod.GpuAdmission.{Waiter, live_mib, max_parked, nvenc_session_mib, vram_reserve_mb}
use monty_pod.GpuAdmission.System.{System}

-- No reading of the card leaves more than `card` once the reserve is kept back.
abbrev pub Fits : ℕ → Option ℕ → Type 0
Fits card none = nvenc_session_mib ≤ card
Fits card (some mib) = (nvenc_session_mib ≤ card) × (mib ≤ card + vram_reserve_mb)

abbrev pub CachedWithin : ℕ → Option ℕ → Type 0
CachedWithin card none = Unit
CachedWithin card (some b) = b ≤ card

abbrev pub FitsBudget : ℕ → Waiter → Type 0
FitsBudget card w = (0 < w.need) × (w.need ≤ w.budget) × (w.budget ≤ card)

-- Tokens rise along the queue.
abbrev pub Ascending : List Waiter → Type 0
Ascending [] = Unit
Ascending (w ∷ ws) = All (λ (v : Waiter). w.token < v.token) ws × Ascending ws

abbrev pub Below : ℕ → List Waiter → Type 0
Below n = All (λ (w : Waiter). w.token < n)

abbrev pub Older : List Waiter → ℕ × ℕ → Type 0
Older ws e = All (λ (w : Waiter). e.0 < w.token) ws

abbrev pub tokens : List Waiter → List ℕ
tokens = map (λ (w : Waiter). w.token)

pub record IsValid (card : ℕ) (s : System) : Type 0 where
  pub parked_are_queue : s.ledger.queue ≡ tokens s.parked
  pub bounded : length s.parked ≤ max_parked
  pub needs_fit : All (FitsBudget card) s.parked
  pub arrivals : Ascending s.parked
  pub fresh : Below s.ledger.next s.parked
  pub live_fresh : All (λ (e : ℕ × ℕ). e.0 < s.ledger.next) s.ledger.live
  pub live_older : All (Older s.parked) s.ledger.live
  pub within : live_mib s.ledger.live ≤ card
  pub cached : CachedWithin card s.ledger.budget
  pub priced_within : All (λ (b : ℕ). b ≤ card) s.priced
