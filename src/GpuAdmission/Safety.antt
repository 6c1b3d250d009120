-- ===== src/GpuAdmission/Safety.antt =====
-- Every interleaving of the threads keeps the invariant of the ledger.
use monty_pod.Common.{
  All-Has, All-append, All-map, All-map₂, Has, [], ap, arith, head?, length, length-append, none,
  refl, some, ℕ, ◌++◌, ◌+◌, ◌<◌, ◌∷◌, ◌≡◌, ◌≤◌,
}
use monty_pod.GpuAdmission.{Ledger, Waiter, budget_mib, live_mib, reset_for_tests, unwind}
use monty_pod.GpuAdmission.System.{
  Reach, Step, System, admit, arrive, dismiss, enter_body, free, give_up, here, leave_body, next,
  price, refresh,
}
use monty_pod.GpuAdmission.Invariant.{Below, Fits, FitsBudget, IsValid, Older, tokens}
use monty_pod.GpuAdmission.Budget.{budget_mib-within, refresh_store-within}
use monty_pod.GpuAdmission.Order.{
  All-assign, append-Ascending, head_oldest, length-tokens, live_mib-assign-le, tail-dismiss,
  tokens-append,
}
use monty_pod.GpuAdmission.Keep.{
  budget_mib-SameQueue, free-IsValid, give_up-IsValid, hold-IsValid, leave-IsValid,
  refresh_store-SameQueue, reprice-IsValid,
}
use monty_pod.GpuAdmission.Turns.{Admitted, Entered, enter-Entered, take_turn-Admitted}

module _ (card : ℕ) where
  arrive-IsValid :
      (s : System) (budget : ℕ) (w : Waiter) {l' : Ledger}
      → Has budget s.priced
      → Entered s.ledger budget w l'
      → IsValid card s
      → IsValid card (record s { ledger = l'; parked = s.parked ++ w ∷ [] })
  arrive-IsValid s budget w m e v =
      let below : Below w.token s.parked = rw e.newest v.fresh in
      let within : budget ≤ card = All-Has (λ b. b ≤ card) budget s.priced v.priced_within m in
      let room : length s.ledger.queue < 8 = e.room in
      rw e.wrote (record {
        parked_are_queue = rw (v.parked_are_queue, tokens-append);
        bounded = omega (
          arith,
          length-append s.parked (w ∷ []),
          length-tokens s.parked,
          ap length v.parked_are_queue,
        );
        needs_fit =
            All-append (FitsBudget card) s.parked (w ∷ []) v.needs_fit
              ((e.wanted, e.affordable, omega (arith, e.priced)), tt);
        arrivals = append-Ascending s.parked w v.arrivals below;
        fresh =
            All-append (λ u. u.token < s.ledger.next + 1) s.parked (w ∷ [])
              (All-map (λ u. u.token < s.ledger.next) (λ u. u.token < s.ledger.next + 1)
                (λ u h. omega arith) s.parked v.fresh)
              (omega (arith, e.newest), tt);
        live_fresh =
            All-map (λ p. p.0 < s.ledger.next) (λ p. p.0 < s.ledger.next + 1) (λ p h. omega arith)
              s.ledger.live v.live_fresh;
        live_older =
            All-map₂ (λ p. p.0 < s.ledger.next) (Older s.parked) (Older (s.parked ++ w ∷ []))
              (λ p h k.
                All-append (λ u. p.0 < u.token) s.parked (w ∷ []) k (omega (arith, e.newest), tt))
              s.ledger.live v.live_fresh v.live_older;
        within = v.within;
        cached = v.cached;
        priced_within = v.priced_within;
      })

  admit-IsValid :
      (s : System) (w : Waiter) {l' : Ledger}
      → Has w s.parked
      → Admitted s.ledger w l'
      → IsValid card s
      → IsValid card (record s { ledger = l'; parked = dismiss w.token s.parked })
  unfolding unwind
  admit-IsValid s w m a v =
      let led : head? (tokens s.parked) ≡ some w.token = rw v.parked_are_queue at a.led in
      let fits : FitsBudget card w = All-Has (FitsBudget card) w s.parked v.needs_fit m in
      let kept = give_up-IsValid card s w v in
      rw a.wrote (record {
        parked_are_queue = rw v.parked_are_queue (tail-dismiss w.token s.parked led);
        bounded = kept.bounded;
        needs_fit = kept.needs_fit;
        arrivals = kept.arrivals;
        fresh = kept.fresh;
        live_fresh =
            All-assign (λ e. e.0 < s.ledger.next) w.token w.need s.ledger.live
              (All-Has (λ u. u.token < s.ledger.next) w s.parked v.fresh m) v.live_fresh;
        live_older =
            All-assign (Older (dismiss w.token s.parked)) w.token w.need s.ledger.live
              (head_oldest w.token s.parked v.arrivals led) kept.live_older;
        within =
            omega
              (arith, a.fitted, fits.1, fits.2, live_mib-assign-le w.token w.need s.ledger.live);
        cached = v.cached;
        priced_within = v.priced_within;
      })

  pub Step-IsValid : {s t : System} → Step (Fits card) s t → IsValid card s → IsValid card t
  Step-IsValid {s} (price read f) v =
      let b = budget_mib-within card read s.ledger f v.cached in
      reprice-IsValid card s (budget_mib read s.ledger).0 _ (budget_mib-SameQueue read s.ledger) b.0
        (b.1, v.priced_within) v
  Step-IsValid {s} (refresh cached read reread f g) v =
      reprice-IsValid card s _ s.priced (refresh_store-SameQueue cached read reread s.ledger)
        (refresh_store-within card cached read reread s.ledger f g v.cached) v.priced_within v
  Step-IsValid {s} (arrive budget need deadline started w parks l m e) v =
      arrive-IsValid s budget w m (enter-Entered budget need deadline started s.ledger e) v
  Step-IsValid {s} (admit now w l m e) v =
      admit-IsValid s w m (take_turn-Admitted now w s.ledger e) v
  Step-IsValid {s} (give_up w m) v = give_up-IsValid card s w v
  Step-IsValid {s} (free token) v = free-IsValid card s token v
  Step-IsValid {s} (enter_body me) v = hold-IsValid card s me v
  Step-IsValid {s} (leave_body me) v = leave-IsValid card s me v

  pub Reach-IsValid : {s t : System} → IsValid card s → Reach (Fits card) s t → IsValid card t
  Reach-IsValid v here = v
  Reach-IsValid v (next r st) = Step-IsValid st (Reach-IsValid v r)

abbrev pub start : System
start = record { ledger = reset_for_tests none; parked = []; priced = [] }

pub reachable-IsValid : (card : ℕ) {s : System} → Reach (Fits card) start s → IsValid card s
unfolding live_mib
reachable-IsValid card r =
    Reach-IsValid card
      (record {
        parked_are_queue = refl;
        bounded = omega arith;
        needs_fit = tt;
        arrivals = tt;
        fresh = tt;
        live_fresh = tt;
        live_older = tt;
        within = omega arith;
        cached = tt;
        priced_within = tt;
      })
      r
