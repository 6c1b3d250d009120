-- ===== src/GpuAdmission/Turns.antt =====
-- What a thread that enters the queue or is admitted has changed.
use monty_pod.Common.{
  Bool, Option, [], arith, head?, length, some, tail, ℕ, ◌++◌, ◌+◌, ◌<◌, ◌∷◌, ◌≡◌, ◌≤◌,
}
use monty_pod.GpuAdmission.{Ledger, Waiter, assign, enter, live_mib, queued, reserved, take_turn}

-- What a successful entry has checked and written.
pub record Entered (l : Ledger) (budget : ℕ) (w : Waiter) (l' : Ledger) : Type 0 where
  pub wrote : l' ≡ record l { queue = l.queue ++ w.token ∷ []; next = l.next + 1 }
  pub newest : w.token ≡ l.next
  pub priced : w.budget ≡ budget
  pub wanted : 0 < w.need
  pub affordable : w.need ≤ w.budget
  pub room : length l.queue < 8

pub enter-Entered :
    (budget : ℕ) (need deadline : Option ℕ) (started : ℕ) (l : Ledger) {w : Waiter} {parks : Bool}
    {l' : Ledger}
    → enter budget need deadline started l ≡ (queued w parks, l')
    → Entered l budget w l'
unfolding enter
enter-Entered budget need deadline started l h = record {
  wrote = ground arith;
  newest = ground arith;
  priced = ground arith;
  wanted = ground arith;
  affordable = ground arith;
  room = ground arith;
}

pub record Admitted (l : Ledger) (w : Waiter) (l' : Ledger) : Type 0 where
  pub wrote : l' ≡ record l { queue = tail l.queue; live = assign w.token w.need l.live }
  pub led : head? l.queue ≡ some w.token
  pub fitted : live_mib l.live + w.need ≤ w.budget

pub take_turn-Admitted :
    (now : ℕ) (w : Waiter) (l : Ledger) {l' : Ledger}
    → take_turn now w l ≡ (reserved, l')
    → Admitted l w l'
unfolding take_turn
take_turn-Admitted now w l h = record {
  wrote = ground arith;
  led = ground arith;
  fitted = ground arith;
}
