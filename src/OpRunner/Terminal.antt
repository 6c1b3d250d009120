-- ===== src/OpRunner/Terminal.antt =====
-- What the terminal of a chain says of its steps, and when there is one.
use monty_pod.Common.{
  Bool, Bool-cases, Has, List, Option, String, [], ap, arith, contains, false, inl, inr, refl,
  string_eq, subst, sym, true, ℕ, ◌∙◌, ◌≡◌, ◌⊎◌,
}
use monty_pod.OpRunner.Envelope.{OpStep, dag_is_sound, ids}
use monty_pod.OpRunner.Registry.{Checked, err, ok}
use monty_pod.OpRunner.Binding.{Outputs}
use monty_pod.OpRunner.Schedule.{
  ChainEnd, Sched, chain_error, done_ids, finished, is_optional, schedule, stalled, unfinished,
}
use monty_pod.OpRunner.Dropping.{Lost}
use monty_pod.OpRunner.Progress.{Ends, schedule-Ends}
use monty_pod.OpRunner.Drain.{
  PutEntry, Terminal, conclude_chain, concluded, drop_unput, enqueued, run_steps, wait,
}
use monty_pod.OpRunner.Waiting.{enqueued-entry, wait-named, wait-ok}
use monty_pod.OpRunner.Unput.{drop_unput-done, drop_unput-failed}

module _ (steps : List OpStep) (returned well : String → Bool) where
  start_drain-entry :
      (st : Sched) (e : PutEntry)
      → Has e (enqueued steps (done_ids st) (record { entries = []; stuck = [] })).entries
      → (e.optional ≡ is_optional steps e.step) × (contains e.step (ids steps) ≡ true)
  start_drain-entry st e m = elim (enqueued-entry steps (done_ids st) _ e m) [
    | inl none_there ↦ elim none_there [ ]
    | inr same ↦ same
  ]

  failed_put_optional :
      (st : Sched) (ks : List String) (k : String)
      → wait returned well (enqueued steps (done_ids st) (record { entries = []; stuck = [] }))
        ≡ ok ks
      → contains k ks ≡ true
      → is_optional steps k ≡ true
  failed_put_optional st ks k h m =
      let (e, there, same, opt) = wait-named returned well _ ks k h m in
      ap (is_optional steps) (sym same) ∙ sym (start_drain-entry st e there).0 ∙ opt

concluded_from :
    (st : Sched) (r : Checked (List String)) (t : Terminal)
    → concluded st r ≡ ok t
    → (ks : List String) × (r ≡ ok ks)
      × (t ≡ record { steps = done_ids (drop_unput ks st); skipped = (drop_unput ks st).failed })
concluded_from st (ok ks) t h = (ks, refl, cc)
concluded_from st (err f) t h = absurd (cc)

-- Where a terminal has a step: it delivered, or it is an optional one that was skipped.
abbrev pub IsTold : List OpStep → (String → Option Outputs) → Terminal → String → Type 0
IsTold steps results t k =
    ((contains k t.steps ≡ true) × (contains k t.skipped ≡ false) × (¬ Lost steps results k))
    ⊎ ((contains k t.skipped ≡ true) × (contains k t.steps ≡ false) × (is_optional steps k ≡ true))

module _ (steps : List OpStep) (results : String → Option Outputs) where
  drop_unput-IsTold :
      (st : Sched) (ks : List String) (k : String)
      → (contains k ks ≡ true → is_optional steps k ≡ true)
      → Ends steps results (finished st)
      → contains k (ids steps) ≡ true
      → IsTold steps results
          (record { steps = done_ids (drop_unput ks st); skipped = (drop_unput ks st).failed })
          k
  drop_unput-IsTold st ks k excused ends here =
      let a = drop_unput-done k ks st in
      let b = drop_unput-failed k ks st in
      elim (ends k here) [
        | inr (bad, undone, opt, gone) ↦ inr (ground (arith), ground (arith), opt)
        | inl (done, fine, kept) ↦ elim (Bool-cases (contains k ks)) [
          | inl put ↦ inr (ground (arith), ground (arith), excused put)
          | inr out ↦ inl (ground (arith), ground (arith), kept)
        ]
      ]

  conclude_chain-IsTold :
      (returned well : String → Bool) (end : ChainEnd) (t : Terminal)
      → Ends steps results end
      → conclude_chain steps returned well end ≡ ok t
      → (k : String) → contains k (ids steps) ≡ true
      → IsTold steps results t k
  unfolding conclude_chain
  conclude_chain-IsTold returned well (finished st) t ends h k here =
      let (ks, waited, same) = concluded_from st _ t h in
      subst (λ (x : Terminal). IsTold steps results x k) (sym same)
        (drop_unput-IsTold st ks k (failed_put_optional steps returned well st ks k waited) ends
          here)
  conclude_chain-IsTold returned well chain_error t ends h k here = absurd (cc)
  conclude_chain-IsTold returned well stalled t ends h k here = absurd (cc)
  conclude_chain-IsTold returned well unfinished t ends h k here = absurd (cc)

  conclude_chain-ok :
      (returned well : String → Bool) (end : ChainEnd)
      → Ends steps results end
      → ((k : String)
          → contains k (ids steps) ≡ true
          → is_optional steps k ≡ false
          → ¬ Lost steps results k)
      → ((k : String)
          → contains k (ids steps) ≡ true
          → is_optional steps k ≡ false
          → (returned k ≡ true) × (well k ≡ true))
      → (t : Terminal) × (conclude_chain steps returned well end ≡ ok t)
  unfolding conclude_chain
  conclude_chain-ok returned well (finished st) ends able puts =
      let (ks, waited) =
        wait-ok returned well (enqueued steps (done_ids st) (record { entries = []; stuck = [] }))
          (λ e m req.
            let (opt, listed) = start_drain-entry steps returned well st e m in
            puts e.step listed (sym opt ∙ req)) in
      (
        record { steps = done_ids (drop_unput ks st); skipped = (drop_unput ks st).failed },
        ap (concluded st) waited,
      )
  conclude_chain-ok returned well chain_error (k, here, required, gone) able puts =
      absurd (able k here required gone)
  conclude_chain-ok returned well stalled ends able puts = absurd ends
  conclude_chain-ok returned well unfinished ends able puts = absurd ends

-- The terminal of a chain whose steps are a sound dag names each step once: as delivered, and then
-- the step can deliver, or as skipped, and then the step is optional. This holds whichever step comes
-- back first and whichever deferred PUTs fail or hang.
pub terminal_names_every_step :
    (steps : List OpStep) (results : String → Option Outputs) (picks : ℕ → ℕ)
    (returned well : String → Bool) (t : Terminal)
    → dag_is_sound steps ≡ true
    → run_steps steps results picks returned well ≡ ok t
    → (k : String) → contains k (ids steps) ≡ true
    → IsTold steps results t k
unfolding run_steps
terminal_names_every_step steps results picks returned well t sound h k here =
    conclude_chain-IsTold steps results returned well (schedule steps results picks) t
      (schedule-Ends steps results picks sound) h k here

required_told :
    (steps : List OpStep) (results : String → Option Outputs) (t : Terminal) (k : String)
    → is_optional steps k ≡ false
    → IsTold steps results t k
    → contains k t.steps ≡ true
required_told steps results t k required (inl (there, out, kept)) = there
required_told steps results t k required (inr (out, there, opt)) = absurd (ground (arith))

-- A chain whose steps are a sound dag has a terminal, with every required step delivered, where no
-- required step is lost and the deferred PUTs of the required steps return in time and are well:
-- optional steps and their PUTs cannot fail it.
pub optional_arms_cannot_fail :
    (steps : List OpStep) (results : String → Option Outputs) (picks : ℕ → ℕ)
    (returned well : String → Bool)
    → dag_is_sound steps ≡ true
    → ((k : String)
        → contains k (ids steps) ≡ true
        → is_optional steps k ≡ false
        → ¬ Lost steps results k)
    → ((k : String)
        → contains k (ids steps) ≡ true
        → is_optional steps k ≡ false
        → (returned k ≡ true) × (well k ≡ true))
    → (t : Terminal) × (run_steps steps results picks returned well ≡ ok t)
      × ((k : String)
          → contains k (ids steps) ≡ true
          → is_optional steps k ≡ false
          → contains k t.steps ≡ true)
unfolding run_steps
optional_arms_cannot_fail steps results picks returned well sound able puts =
    let (t, got) =
      conclude_chain-ok steps results returned well (schedule steps results picks)
        (schedule-Ends steps results picks sound) able puts in
    (
      t,
      got,
      λ k here required.
          required_told steps results t k required
            (terminal_names_every_step steps results picks returned well t sound got k here),
    )
