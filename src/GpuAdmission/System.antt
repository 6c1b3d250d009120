-- ===== src/GpuAdmission/System.antt =====
-- The threads that reserve, wait and release, interleaved in any order at the critical sections.
use monty_pod.Common.{Bool, Has, List, Option, [], if◌then◌else◌, ℕ, ◌++◌, ◌==◌, ◌∷◌, ◌≡◌}
use monty_pod.GpuAdmission.{
  Ledger, Waiter, budget_mib, enter, hold, leave, queued, refresh_store, release, reserved,
  take_turn, unwind,
}

-- `priced`: what `budget_mib` has returned to threads that have not entered the queue yet.
-- `parked`: the threads in the waiting loop, by arrival.
pub record System : Type 0 where
  pub ledger : Ledger
  pub parked : List Waiter
  pub priced : List ℕ

-- The parked threads but one.
unfoldable pub dismiss : ℕ → List Waiter → List Waiter
dismiss token [] = []
dismiss token (w ∷ ws) = if w.token == token then ws else w ∷ dismiss token ws

-- `fits`: the readings of the card that are possible.
module _ (fits : Option ℕ → Type 0) where
  pub data Step (s : System) : System → Type 0 where
    price :
        (read : Option ℕ)
        → fits read
        → Step s (record s {
          ledger = (budget_mib read s.ledger).0;
          priced = (budget_mib read s.ledger).1 ∷ s.priced;
        })
    refresh :
        (cached read reread : Option ℕ)
        → fits read
        → fits reread
        → Step s (record s { ledger = (refresh_store cached read reread s.ledger).0 })
    arrive :
        (budget : ℕ) (need deadline : Option ℕ) (started : ℕ) (w : Waiter) (parks : Bool)
        (l : Ledger)
        → Has budget s.priced
        → enter budget need deadline started s.ledger ≡ (queued w parks, l)
        → Step s (record s { ledger = l; parked = s.parked ++ w ∷ [] })
    admit :
        (now : ℕ) (w : Waiter) (l : Ledger)
        → Has w s.parked
        → take_turn now w s.ledger ≡ (reserved, l)
        → Step s (record s { ledger = l; parked = dismiss w.token s.parked })
    give_up :
        (w : Waiter)
        → Has w s.parked
        → Step s (record s { ledger = unwind w.token s.ledger; parked = dismiss w.token s.parked })
    free : (token : ℕ) → Step s (record s { ledger = release token s.ledger })
    enter_body : (me : ℕ) → Step s (record s { ledger = hold me s.ledger })
    leave_body : (me : ℕ) → Step s (record s { ledger = leave me s.ledger })

  pub data Reach (s : System) : System → Type 0 where
    here : Reach s s
    next : {t u : System} → Reach s t → Step t u → Reach s u
