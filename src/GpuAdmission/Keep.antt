-- ===== src/GpuAdmission/Keep.antt =====
-- Pricing, releasing and leaving keep the invariant of the ledger.
use monty_pod.Common.{
  All, All-map, Bool-cases, List, Option, arith, inl, inr, none, some, ℕ, ◌<◌, ◌∙◌, ◌∷◌, ◌≡◌, ◌≤◌,
}
use monty_pod.GpuAdmission.{
  Ledger, Waiter, budget_mib, hold, holds, leave, refresh_store, release, remove, store_budget,
  store_if_idle, unwind,
}
use monty_pod.GpuAdmission.System.{System, dismiss}
use monty_pod.GpuAdmission.Invariant.{CachedWithin, FitsBudget, IsValid, Older}
use monty_pod.GpuAdmission.Order.{
  All-dismiss, All-pop, dismiss-Ascending, length-dismiss-le, live_mib-pop-le, tokens-dismiss,
}

-- Only the cached budget differs.
abbrev pub SameQueue : Ledger → Ledger → Type 0
SameQueue l k = (l.queue ≡ k.queue) × (l.live ≡ k.live) × (l.next ≡ k.next)

pub budget_mib-SameQueue : (read : Option ℕ) (l : Ledger) → SameQueue (budget_mib read l).0 l
unfolding budget_mib store_budget
budget_mib-SameQueue read l = ground arith

pub refresh_store-SameQueue :
    (cached read reread : Option ℕ) (l : Ledger)
    → SameQueue (refresh_store cached read reread l).0 l
unfolding refresh_store store_if_idle
refresh_store-SameQueue (some c) none reread l = ground arith
refresh_store-SameQueue none none reread l = ground arith
refresh_store-SameQueue cached (some f) reread l = ground arith

module _ (card : ℕ) where
  -- A section that leaves the queue alone keeps the invariant.
  pub reprice-IsValid :
      (s : System) (l : Ledger) (priced : List ℕ)
      → SameQueue l s.ledger
      → CachedWithin card l.budget
      → All (λ (b : ℕ). b ≤ card) priced
      → IsValid card s
      → IsValid card (record s { ledger = l; priced = priced })
  reprice-IsValid s l priced same c p v = record {
    parked_are_queue = same.0 ∙ v.parked_are_queue;
    bounded = v.bounded;
    needs_fit = v.needs_fit;
    arrivals = v.arrivals;
    fresh = rw same.2 v.fresh;
    live_fresh = rw (same.1, same.2) v.live_fresh;
    live_older = rw same.1 v.live_older;
    within = rw same.1 v.within;
    cached = c;
    priced_within = p;
  }

  pub give_up-IsValid :
      (s : System) (w : Waiter)
      → IsValid card s
      → IsValid card
          (record s { ledger = unwind w.token s.ledger; parked = dismiss w.token s.parked })
  unfolding unwind
  give_up-IsValid s w v = record {
    parked_are_queue = rw (v.parked_are_queue, tokens-dismiss);
    bounded = omega (arith, v.bounded, length-dismiss-le w.token s.parked);
    needs_fit = All-dismiss (FitsBudget card) w.token s.parked v.needs_fit;
    arrivals = dismiss-Ascending w.token s.parked v.arrivals;
    fresh = All-dismiss (λ u. u.token < s.ledger.next) w.token s.parked v.fresh;
    live_fresh = v.live_fresh;
    live_older =
        All-map (Older s.parked) (Older (dismiss w.token s.parked))
          (λ e h. All-dismiss (λ u. e.0 < u.token) w.token s.parked h) s.ledger.live v.live_older;
    within = v.within;
    cached = v.cached;
    priced_within = v.priced_within;
  }

  pub free-IsValid :
      (s : System) (token : ℕ)
      → IsValid card s
      → IsValid card (record s { ledger = release token s.ledger })
  unfolding release
  free-IsValid s token v = record {
    parked_are_queue = v.parked_are_queue;
    bounded = v.bounded;
    needs_fit = v.needs_fit;
    arrivals = v.arrivals;
    fresh = v.fresh;
    live_fresh = All-pop (λ e. e.0 < s.ledger.next) token s.ledger.live v.live_fresh;
    live_older = All-pop (Older s.parked) token s.ledger.live v.live_older;
    within = omega (arith, v.within, live_mib-pop-le token s.ledger.live);
    cached = v.cached;
    priced_within = v.priced_within;
  }

  pub holders-IsValid :
      (s : System) (holders : List ℕ)
      → IsValid card s
      → IsValid card (record s { ledger = record (s.ledger) { holders = holders } })
  holders-IsValid s holders v = record {
    parked_are_queue = v.parked_are_queue;
    bounded = v.bounded;
    needs_fit = v.needs_fit;
    arrivals = v.arrivals;
    fresh = v.fresh;
    live_fresh = v.live_fresh;
    live_older = v.live_older;
    within = v.within;
    cached = v.cached;
    priced_within = v.priced_within;
  }

  pub hold-IsValid :
      (s : System) (me : ℕ) → IsValid card s → IsValid card (record s { ledger = hold me s.ledger })
  unfolding hold
  hold-IsValid s me v = elim (Bool-cases (holds me s.ledger.holders)) [
    | inl e ↦ rw (e, hold) v
    | inr e ↦ rw (e, hold) (holders-IsValid s (me ∷ s.ledger.holders) v)
  ]

  pub leave-IsValid :
      (s : System) (me : ℕ)
      → IsValid card s
      → IsValid card (record s { ledger = leave me s.ledger })
  unfolding leave
  leave-IsValid s me v = holders-IsValid s (remove me s.ledger.holders) v
