-- ===== src/GpuAdmission/Budget.antt =====
-- Pricing: what a budget can be, and when a reading of the card may replace it.
use monty_pod.Common.{Option, arith, false, none, refl, some, true, ℕ, ◌≡◌, ◌≤◌, ◌⊎◌}
use monty_pod.GpuAdmission.{
  Ledger, budget_mib, is_idle, measure_budget, refresh_store, store_budget, store_if_idle,
}
use monty_pod.GpuAdmission.Invariant.{CachedWithin, Fits}

module _ (card : ℕ) where
  pub measure_budget-Fits :
      (free read : Option ℕ) → Fits card free → Fits card read → measure_budget free read ≤ card
  unfolding measure_budget
  measure_budget-Fits (some f) read h k = omega arith
  measure_budget-Fits none (some f) h k = omega arith
  measure_budget-Fits none none h k = omega arith

  Fits-floor : (read : Option ℕ) → Fits card read → Fits card none
  Fits-floor none h = h
  Fits-floor (some f) h = h.0

  pub budget_mib-within :
      (read : Option ℕ) (l : Ledger)
      → Fits card read
      → CachedWithin card l.budget
      → CachedWithin card (budget_mib read l).0.budget × ((budget_mib read l).1 ≤ card)
  unfolding budget_mib store_budget
  budget_mib-within read l h k = ground (arith, measure_budget-Fits none read (Fits-floor read h) h)

  pub refresh_store-within :
      (cached read reread : Option ℕ) (l : Ledger)
      → Fits card read
      → Fits card reread
      → CachedWithin card l.budget
      → CachedWithin card (refresh_store cached read reread l).0.budget
  unfolding refresh_store store_if_idle
  refresh_store-within (some c) none reread l h r k = k
  refresh_store-within none none reread l h r k =
      ground (arith, measure_budget-Fits none reread h r)
  refresh_store-within cached (some free) reread l h r k =
      ground (arith, measure_budget-Fits (some free) reread h r)

-- A cached budget stays while anything is reserved or parked and when it is pinned, whatever the
-- card then reports.
pub refresh_keeps_busy :
    (cached read reread : Option ℕ) (l : Ledger) {b : ℕ}
    → l.budget ≡ some b
    → (is_idle l ≡ false) ⊎ (l.pinned ≡ true)
    → (refresh_store cached read reread l).0 ≡ l
unfolding refresh_store store_if_idle
refresh_keeps_busy (some c) none reread l e busy = refl
refresh_keeps_busy none none reread l e busy = ground arith
refresh_keeps_busy cached (some free) reread l e busy = ground arith
