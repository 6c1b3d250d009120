-- ===== src/OpRunner/Progress.antt =====
-- The scheduling loop comes to its end, and what it has then.
use Prim.Native.String.{String}
use monty_pod.Common.{
  Bool-cases, List, Option, [], all_known, ap, arith, contains, contains-append, false, inl, inr,
  is_empty, length, none, refl, select, some, string_eq, suc, true, zero, ℕ, ◌&&◌, ◌+◌, ◌<◌, ◌∷◌,
  ◌≡◌, ◌⊎◌,
}
use monty_pod.OpRunner.Envelope.{OpStep, dag_is_sound, deps_of, ids}
use monty_pod.OpRunner.Schedule.{
  ChainEnd, Sched, chain_error, complete, done_ids, finished, is_optional, next_back, run_loop,
  schedule, stalled, submit, unfinished,
}
use monty_pod.OpRunner.Dropping.{Blamed, Inv, IsClean, Lost, Settled, empty_contains}
use monty_pod.OpRunner.Steps.{length-ids}
use monty_pod.OpRunner.Sound.{IsDag, dag_is_sound_iff, deps_ranked}
use monty_pod.OpRunner.Dag.{contains_nonempty, some_ready}
use monty_pod.OpRunner.Binding.{Outputs}
use monty_pod.OpRunner.Completing.{
  loop_start, next_back-length, nonempty-append, some_member, submit-length,
}

-- A finished chain has produced the steps that can deliver, and the others are optional and failed;
-- an error names a required step that cannot deliver.
abbrev pub Ends : List OpStep → (String → Option Outputs) → ChainEnd → Type 0
Ends steps results (finished st) =
    (k : String)
    → contains k (ids steps) ≡ true
    → ((contains k (done_ids st) ≡ true)
        × (contains k st.failed ≡ false)
        × (¬ Lost steps results k))
      ⊎ ((contains k st.failed ≡ true)
          × (contains k (done_ids st) ≡ false)
          × (is_optional steps k ≡ true)
          × Lost steps results k)
Ends steps results chain_error = Blamed steps results
Ends steps results stalled = ⊥
Ends steps results unfinished = ⊥

module _ (steps : List OpStep) (results : String → Option Outputs) where
  finished-Ends :
      (st : Sched)
      → Inv steps results st
      → (is_empty st.pending && is_empty st.running) ≡ true
      → Ends steps results (finished st)
  finished-Ends st v over k here =
      let old = v.placed k here in
      let a = empty_contains k st.pending (ground (arith)) in
      let b = empty_contains k st.running (ground (arith)) in
      elim (Bool-cases (contains k (done_ids st))) [
        | inl done ↦ elim (Bool-cases (contains k st.failed)) [
          | inl bad ↦ absurd (v.ran k done (v.lost k bad).1)
          | inr fine ↦ inl (done, fine, v.ran k done)
        ]
        | inr not_done ↦
            let bad : contains k st.failed ≡ true = ground (arith) in
            let (opt, gone) = v.lost k bad in inr (bad, not_done, opt, gone)
      ]

  waits_below :
      (st : Sched) (g : IsDag steps)
      → Inv steps results st
      → IsClean steps st
      → is_empty st.running ≡ true
      → (k d : String) → contains k st.pending ≡ true
      → contains d (deps_of steps k) ≡ true
      → (contains d (done_ids st) ≡ true) ⊎ ((contains d st.pending ≡ true) × (g.rank d < g.rank k))
  waits_below st g v clean idle k d waits dep =
      let (here, below) = deps_ranked steps g k d (v.listed k (ground (arith))) dep in
      let old = v.placed d here in
      let not_failed = clean k d waits dep in
      let not_running = empty_contains d st.running idle in
      elim (Bool-cases (contains d (done_ids st))) [
        | inl done ↦ inl done
        | inr not_done ↦ inr (ground (arith), below)
      ]

  never_stalls :
      (st : Sched)
      → IsDag steps
      → Inv steps results st
      → IsClean steps st
      → (is_empty st.pending && is_empty st.running) ≡ false
      → is_empty (submit steps st).running ≡ false
  unfolding submit
  never_stalls st g v clean more = elim (Bool-cases (is_empty st.running)) [
    | inr busy ↦ nonempty-append st.running _ busy
    | inl idle ↦
        let (k, here) = some_member st.pending (ground (arith)) in
        let (j, now) =
          some_ready (deps_of steps) g.rank (done_ids st) st.pending
            (λ i d waits dep. waits_below st g v clean idle i d waits dep) (g.rank k + 1) k here
            (omega arith) in
        let c =
          contains-append j st.running
            (select (λ i. all_known (done_ids st) (deps_of steps i)) st.pending) in
        contains_nonempty j _ (ground (arith))
  ]

  loop_next :
      (picks : ℕ → ℕ) (n : ℕ) (from : Sched) (end : Option Sched)
      → length from.pending + length from.running < n
      → ((next : Sched)
          → Inv steps results next
          → IsClean steps next
          → length next.pending + length next.running < n
          → Ends steps results (run_loop steps results picks n next))
      → Settled steps results from end
      → Ends steps results
          (elim end [ none ↦ chain_error | some next ↦ run_loop steps results picks n next ])
  loop_next picks n from none few again h = h
  loop_next picks n from (some next) few again (v, clean, fewer, same) =
      let e = ap (λ (ks : List String). length ks) same in again next v clean (omega arith)

  loop_round :
      (picks : ℕ → ℕ) (n : ℕ) (st : Sched) (running : List String)
      → (submit steps st).running ≡ running
      → Inv steps results st
      → IsClean steps st
      → length st.pending + length st.running < suc n
      → is_empty running ≡ false
      → ((next : Sched)
          → Inv steps results next
          → IsClean steps next
          → length next.pending + length next.running < n
          → Ends steps results (run_loop steps results picks n next))
      → Ends steps results (elim running [
        | [] ↦ stalled
        | k ∷ others ↦
            elim (complete steps
              (next_back (picks n) k others).0
              (results (next_back (picks n) k others).0)
              (record (submit steps st) { running = (next_back (picks n) k others).1 })) [
                | none ↦ chain_error
                | some next ↦ run_loop steps results picks n next
              ]
      ])
  loop_round picks n st [] e v clean few some_run again = absurd (ground (arith))
  loop_round picks n st (k ∷ others) e v clean few some_run again =
      let a = submit-length steps results st in
      let b = ap (λ (ks : List String). length ks) e in
      let c = next_back-length (picks n) k others in
      loop_next picks n (record (submit steps st) { running = (next_back (picks n) k others).1 }) _
        (omega arith) again (loop_start steps results st v clean k others e (picks n))

  start-Inv :
      Inv steps results (record { pending = ids steps; running = []; produced = []; failed = [] })
  unfolding contains
  start-Inv = record {
    placed = λ k m. ground (arith);
    listed = λ k m. ground (arith);
    ran = λ k m. absurd (ground (arith));
    lost = λ k m. absurd (ground (arith));
    fed = λ k d m dep. absurd (ground (arith));
  }

  run_loop-Ends :
      (picks : ℕ → ℕ) (n : ℕ) (st : Sched)
      → IsDag steps
      → Inv steps results st
      → IsClean steps st
      → length st.pending + length st.running < n
      → Ends steps results (run_loop steps results picks n st)
  unfolding run_loop
  run_loop-Ends picks zero st g v clean few = absurd (omega arith)
  run_loop-Ends picks (suc n) st g v clean few =
      elim (Bool-cases (is_empty st.pending && is_empty st.running)) [
        | inl over ↦ rw (over, run_loop) (finished-Ends st v over)
        | inr more ↦
            rw (more, run_loop)
              (loop_round picks n st (submit steps st).running refl v clean few
                (never_stalls st g v clean more)
                (λ next w c le. run_loop-Ends picks n next g w c le))
      ]

-- A chain that `_dag_is_sound` accepts runs to its end, whichever of the running steps comes back
-- first: the loop never stalls, and one round for each step and a last one are enough. A chain that
-- finishes has produced exactly the steps that can deliver, those that neither raise nor need one
-- that cannot, while all others are optional and failed; a chain that ends in an error has a
-- required step that cannot deliver.
pub schedule-Ends :
    (steps : List OpStep) (results : String → Option Outputs) (picks : ℕ → ℕ)
    → dag_is_sound steps ≡ true
    → Ends steps results (schedule steps results picks)
unfolding schedule contains
schedule-Ends steps results picks sound =
    let few = length-ids steps in
    run_loop-Ends steps results picks (suc (length steps)) _ ((dag_is_sound_iff steps).0 sound)
      (start-Inv steps results) (λ k d m dep. refl) (omega arith)
