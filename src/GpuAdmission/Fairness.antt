-- ===== src/GpuAdmission/Fairness.antt =====
-- Who is admitted next, and what a thread that gives up leaves behind.
use monty_pod.Common.{
  All, All-Has, All-map, Bool, Has, List, Option, [], ap, arith, ℕ, ◌++◌, ◌+◌, ◌<◌, ◌∷◌, ◌≡◌,
}
use monty_pod.GpuAdmission.{Ledger, Waiter, enter, queued, remove, reserved, take_turn, unwind}
use monty_pod.GpuAdmission.System.{Reach, System, dismiss}
use monty_pod.GpuAdmission.Invariant.{Below, Fits, Older, tokens}
use monty_pod.GpuAdmission.Order.{head_oldest}
use monty_pod.GpuAdmission.Safety.{reachable-IsValid, start}
use monty_pod.GpuAdmission.Turns.{enter-Entered, take_turn-Admitted}

Turn-reserved :
    (now : ℕ) (w : Waiter) (l : Ledger)
    → (take_turn now w l).0 ≡ reserved
    → take_turn now w l ≡ (reserved, (take_turn now w l).1)
Turn-reserved now w l h = ap (λ t. (t, (take_turn now w l).1)) h

-- A thread that is admitted, in any reachable state, arrived before every thread that still waits
-- and after every thread that holds a reservation.
pub admitted_in_order :
    (card : ℕ) (s : System) (now : ℕ) (w : Waiter)
    → Reach (Fits card) start s
    → Has w s.parked
    → (take_turn now w s.ledger).0 ≡ reserved
    → All (λ (v : Waiter). w.token < v.token) (dismiss w.token s.parked)
      × All (λ (e : ℕ × ℕ). e.0 < w.token) s.ledger.live
admitted_in_order card s now w r m h =
    let v = reachable-IsValid card r in
    let a = take_turn-Admitted now w s.ledger (Turn-reserved now w s.ledger h) in
    (
      head_oldest w.token s.parked v.arrivals (rw v.parked_are_queue at a.led),
      All-map (Older s.parked) (λ e. e.0 < w.token)
          (λ e o. All-Has (λ u. e.0 < u.token) w s.parked o m) s.ledger.live v.live_older,
    )

remove-append : (ws : List Waiter) (n : ℕ) → Below n ws → remove n (tokens ws ++ n ∷ []) ≡ tokens ws
unfolding remove
remove-append [] n b = ground arith
remove-append (w ∷ ws) n b = ground (arith, remove-append ws n b.1)

-- A thread that enters the queue and unwinds before it is admitted, by a timeout or any other
-- exception, leaves the queue and the reservations as they were.
unwind-enter :
    (card : ℕ) (s : System) (budget : ℕ) (need deadline : Option ℕ) (started : ℕ) (w : Waiter)
    (parks : Bool) (l : Ledger)
    → Reach (Fits card) start s
    → enter budget need deadline started s.ledger ≡ (queued w parks, l)
    → unwind w.token l ≡ record (s.ledger) { next = s.ledger.next + 1 }
unfolding unwind
unwind-enter card s budget need deadline started w parks l r h =
    let v = reachable-IsValid card r in
    let e = enter-Entered budget need deadline started s.ledger h in
    let q = remove-append s.parked s.ledger.next v.fresh in
    ground (arith, e.wrote, e.newest, v.parked_are_queue, q)
