-- ===== src/GpuAdmission/Tests.antt =====
-- Concrete runs of the admission ledger: two waiters on a card of one session.
use monty_pod.Common.{
  All, [], arith, false, inl, none, refl, some, true, ℕ, ◌+◌, ◌<◌, ◌∷◌, ◌≡◌, ◌≤◌,
}
use monty_pod.GpuAdmission.{
  Ledger, Waiter, assign, budget_mib, enter, is_admissible, live_mib, measure_budget,
  park_deadline_s, refresh_store, reset_for_tests, store_budget, store_if_idle, take_turn, unwind,
}
use monty_pod.GpuAdmission.System.{Reach, System, arrive, dismiss, here, next, price}
use monty_pod.GpuAdmission.Invariant.{Fits}
use monty_pod.GpuAdmission.Budget.{refresh_keeps_busy}
use monty_pod.GpuAdmission.Safety.{start}
use monty_pod.GpuAdmission.Fairness.{admitted_in_order}
use monty_pod.GpuAdmission.Deadline.{waits_out_its_deadline}
use monty_pod.GpuAdmission.Admission.{BooksWhole, World, open_admission, whole_budget_admission}

program : Unit {0}
unfolding budget_mib store_budget measure_budget enter take_turn unwind dismiss live_mib assign
    refresh_store store_if_idle is_admissible park_deadline_s
program = tt

abbrev waiter : ℕ → Waiter
waiter n = record {
  token = n;
  need = 500;
  budget = 960;
  deadline = 140;
  position = n + 1;
  ahead = n;
  admitted = 0;
}

abbrev second : Waiter
second = record (waiter 1) { deadline = 150; position = 2; ahead = 1 }

abbrev two_wait : System
two_wait = record {
  ledger = record {
    queue = 0 ∷ 1 ∷ [];
    live = [];
    holders = [];
    budget = some 960;
    pinned = false;
    next = 2;
  };
  parked = waiter 0 ∷ second ∷ [];
  priced = 960 ∷ [];
}

two_wait_reached : Reach (Fits 960) start two_wait
unfolding program
two_wait_reached =
    next
      (next (next here (price none (omega arith)))
        (arrive 960 (some 500) none 0 (waiter 0) false _ (inl refl) refl))
      (arrive 960 (some 500) none 10 second true _ (inl refl) refl)

admitted_in_order_example :
    All (λ (v : Waiter). 0 < v.token) (dismiss 0 two_wait.parked)
    × All (λ (e : ℕ × ℕ). e.0 < 0) two_wait.ledger.live
unfolding program
admitted_in_order_example =
    admitted_in_order 960 two_wait 5 (waiter 0) two_wait_reached (inl refl) refl

abbrev third : Waiter
third = record (waiter 2) { deadline = 300; position = 3; ahead = 2 }

abbrev three_wait : Ledger
three_wait = record (two_wait.ledger) { queue = 0 ∷ 1 ∷ 2 ∷ []; next = 3 }

refresh_keeps_busy_example :
    (refresh_store (some 960) (some 9000) none two_wait.ledger).0 ≡ two_wait.ledger
refresh_keeps_busy_example =
    refresh_keeps_busy (some 960) (some 9000) none two_wait.ledger {b = 960} refl (inl refl)

waits_out_its_deadline_example :
    (20 + park_deadline_s 2 0 ≤ 300)
    × (is_admissible 2 500 960 three_wait ≡ false)
    × ((take_turn 300 third three_wait).1 ≡ three_wait)
unfolding program
waits_out_its_deadline_example =
    waits_out_its_deadline 960 (some 500) 20 300 two_wait.ledger three_wait three_wait third true
      refl refl

abbrev quiet : Ledger
quiet = reset_for_tests none

abbrev world : World
world = record { read = some 6000; reread = none; pricing = none; started = 0; now = 0 }

whole_budget_admission_example : BooksWhole 7 [] (open_admission 7 none none world quiet)
whole_budget_admission_example = whole_budget_admission 7 none world quiet refl refl refl tt
