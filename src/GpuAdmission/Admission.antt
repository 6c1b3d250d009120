-- ===== src/GpuAdmission/Admission.antt =====
-- `refresh_budget` and `admission` as one thread runs them with no other thread in between.
use monty_pod.Common.{
  List, Option, [], arith, false, if◌then◌else◌, none, refl, some, subst, ℕ, ◌<◌, ◌∙◌, ◌∷◌, ◌≡◌,
}
use monty_pod.GpuAdmission.{
  Entry, Ledger, Refusal, Turn, Waiter, assign, budget_mib, enter, hold, holds, holds_already,
  leave, live_mib, measure_budget, pop, queued, refresh_cached, refresh_store, refused,
  refuses_holder, release, remove, reserved, store_if_idle, take_turn, timed_out, unwind, waiting,
}

pub refresh_budget : Option ℕ → Option ℕ → Ledger → Ledger × ℕ
unfolding refresh_cached refresh_store
refresh_budget read reread l = elim (refresh_cached l) [
  | some b ↦ (l, b)
  | none ↦ refresh_store l.budget read reread l
]

pub data Door : Type 0 where
  denied : Refusal → Door
  outside : Waiter → Turn → Door
  inside : Waiter → Door

-- What the readings of the card and the clock are while the thread opens the admission.
pub record World : Type 0 where
  pub read : Option ℕ
  pub reread : Option ℕ
  pub pricing : Option ℕ
  pub started : ℕ
  pub now : ℕ

abbrev turn_away : ℕ → Waiter → Turn × Ledger → Door × Ledger
turn_away me w (reserved, l) = (inside w, hold me l)
turn_away me w (timed_out, l) = (outside w timed_out, unwind w.token l)
turn_away me w (waiting, l) = (outside w waiting, l)

abbrev after_entry : ℕ → World → Entry × Ledger → Door × Ledger
after_entry me world (refused r, l) = (denied r, l)
after_entry me world (queued w parks, l) = turn_away me w (take_turn world.now w l)

-- `admission` up to the `yield`, or up to the first wait of `reserve`.
pub open_admission : ℕ → Option ℕ → Option ℕ → World → Ledger → Door × Ledger
open_admission me deadline_s need_mib world l =
    let (l', _) = refresh_budget world.read world.reread l in
    let (l'', budget) = budget_mib world.pricing l' in
    if refuses_holder me l
    then (denied holds_already, l)
    else after_entry me world (enter budget need_mib deadline_s world.started l'')

-- Its `finally`.
pub close_admission : ℕ → ℕ → Ledger → Ledger
unfolding leave release
close_admission me token l = release token (leave me l)

abbrev pub Positive : Option ℕ → Type 0
Positive none = Unit
Positive (some b) = 0 < b

-- The thread is inside with the whole cached budget booked, and its exit frees everything.
abbrev pub BooksWhole : ℕ → List ℕ → Door × Ledger → Type 0
BooksWhole me before (denied r, l') = ⊥
BooksWhole me before (outside w t, l') = ⊥
BooksWhole me before (inside w, l') =
    (l'.budget ≡ some w.need)
    × (l'.live ≡ (w.token, w.need) ∷ [])
    × (l'.queue ≡ [])
    × ((close_admission me w.token l').live ≡ [])
    × ((close_admission me w.token l').holders ≡ before)

SameRest : Ledger → Ledger → Type 0
SameRest l k = (l.queue ≡ k.queue) × (l.live ≡ k.live) × (l.holders ≡ k.holders)

store_if_idle-priced :
    (measured : ℕ) (l : Ledger)
    → 0 < measured
    → Positive l.budget
    → let r = store_if_idle measured l in (r.0.budget ≡ some r.1) × (0 < r.1) × SameRest r.0 l
unfolding store_if_idle SameRest
store_if_idle-priced measured l m p = ground arith

measure_budget-pos : (free read : Option ℕ) → 0 < measure_budget free read
unfolding measure_budget
measure_budget-pos (some f) read = omega arith
measure_budget-pos none (some f) = omega arith
measure_budget-pos none none = omega arith

refresh_store-priced :
    (cached read reread : Option ℕ) (l : Ledger)
    → l.budget ≡ cached
    → Positive l.budget
    → let r = refresh_store cached read reread l in
      (r.0.budget ≡ some r.1) × (0 < r.1) × SameRest r.0 l
unfolding refresh_store SameRest
refresh_store-priced (some c) none reread l e p = ground arith
refresh_store-priced none none reread l e p =
    store_if_idle-priced _ l (measure_budget-pos none reread) p
refresh_store-priced cached (some f) reread l e p =
    store_if_idle-priced _ l (measure_budget-pos (some f) reread) p

refresh_budget-priced :
    (read reread : Option ℕ) (l : Ledger)
    → Positive l.budget
    → let r = refresh_budget read reread l in (r.0.budget ≡ some r.1) × (0 < r.1) × SameRest r.0 l
unfolding refresh_budget refresh_cached SameRest
refresh_budget-priced read reread l p =
    ground (arith, refresh_store-priced l.budget read reread l refl p)

-- `budget_mib` right after the refresh answers from the cache.
budget_mib-cached :
    (read : Option ℕ) (l : Ledger) {b : ℕ} → l.budget ≡ some b → budget_mib read l ≡ (l, b)
unfolding budget_mib
budget_mib-cached read l e = ground arith

enter_whole :
    (me b : ℕ) (deadline : Option ℕ) (world : World) (l : Ledger)
    → 0 < b
    → l.queue ≡ []
    → l.live ≡ []
    → l.budget ≡ some b
    → holds me l.holders ≡ false
    → BooksWhole me l.holders (after_entry me world (enter b none deadline world.started l))
unfolding enter take_turn hold unwind live_mib assign close_admission pop remove
enter_whole me b deadline world l p q e c h = ground arith

-- On an idle ledger a self-sizing operation is admitted at once with the whole budget booked,
-- whatever the card reports; its exit leaves no reservation and the holders as they were.
pub whole_budget_admission :
    (me : ℕ) (deadline : Option ℕ) (world : World) (l : Ledger)
    → l.queue ≡ []
    → l.live ≡ []
    → holds me l.holders ≡ false
    → Positive l.budget
    → BooksWhole me l.holders (open_admission me deadline none world l)
unfolding open_admission refuses_holder SameRest
whole_budget_admission me deadline world l q e h p =
    let r = refresh_budget world.read world.reread l in
    let (cached, positive, same) = refresh_budget-priced world.read world.reread l p in
    let free = rw (← same.2) at h in
    let books =
      enter_whole me r.1 deadline world r.0 positive (same.0 ∙ q) (same.1 ∙ e) cached free in
    rw (h, budget_mib-cached world.pricing r.0 cached)
      (subst
        (λ hs. BooksWhole me hs (after_entry me world (enter r.1 none deadline world.started r.0)))
        same.2 books)
