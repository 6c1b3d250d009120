-- ===== src/OpRunner/Schedule.antt =====
-- The scheduling loop of `run_chain`: which steps run, and what a failed one takes with it. Which
-- running step comes back next (`picks`) and what each gives (`results`; `none` where it raises) are
-- arguments. Sets are lists here; where a step of several that are doomed at once is required, which
-- of them the error names is left open.
use Prim.Native.String.{String}
use monty_pod.Common.{
  Bool, List, Option, [], all_known, any_known, discard, false, if◌then◌else◌, insert, is_empty,
  length, map, none, not, select, some, string_eq, suc, true, zero, ℕ, ◌&&◌, ◌++◌, ◌∷◌,
}
use monty_pod.OpRunner.Binding.{Outputs}
use monty_pod.OpRunner.Envelope.{OpStep, by_id, deps_of, ids}

pub record Sched : Type 0 where
  pub pending : List String
  pub running : List String
  pub produced : List (String × Outputs)
  pub failed : List String

abbrev pub done_ids : Sched → List String
done_ids st = map (λ (x : String × Outputs). x.0) st.produced

-- `by_id[sid].optional`
unfoldable pub is_optional : List OpStep → String → Bool
unfolding by_id
is_optional steps k = elim (by_id k steps) [ none ↦ false | some s ↦ s.optional ]

-- The steps whose dependencies are produced start.
unfoldable pub submit : List OpStep → Sched → Sched
unfolding select
submit steps st = record (st) {
  pending = select (λ k. not (all_known (done_ids st) (deps_of steps k))) st.pending;
  running = st.running ++ select (λ k. all_known (done_ids st) (deps_of steps k)) st.pending;
}

abbrev pub doomed_of : List OpStep → Sched → List String
doomed_of steps st = select (λ k. any_known st.failed (deps_of steps k)) st.pending

-- One round of `_drop_dependents_of_failed`; none: the chain has lost a step it requires.
unfoldable pub drop_each : List OpStep → List String → Sched → Option Sched
drop_each steps [] st = some st
drop_each steps (k ∷ doomed) st =
    let rest =
      drop_each steps doomed
        (record (st) { pending = discard k st.pending; failed = k ∷ st.failed }) in
    if is_optional steps k then rest else none

-- `_drop_dependents_of_failed`, of which `n` rounds may be left.
unfoldable pub drop_dependents : List OpStep → ℕ → Sched → Option Sched
drop_dependents steps zero st = some st
drop_dependents steps (suc n) st = elim (is_empty (doomed_of steps st)) [
  | true ↦ some st
  | false ↦ elim (drop_each steps (doomed_of steps st) st) [
    | none ↦ none
    | some next ↦ drop_dependents steps n next
  ]
]

-- A step that has come back.
unfoldable pub complete : List OpStep → String → Option Outputs → Sched → Option Sched
complete steps k (some outs) st = some (record (st) { produced = insert k outs st.produced })
complete steps k none st =
    if is_optional steps k
    then drop_dependents steps (length st.pending) (record (st) { failed = k ∷ st.failed })
    else none

-- The next of the running steps to come back, and the others.
unfoldable pub next_back : ℕ → String → List String → String × List String
next_back n k [] = (k, [])
next_back zero k (j ∷ others) = (k, j ∷ others)
next_back (suc n) k (j ∷ others) = let (back, left) = next_back n j others in (back, k ∷ left)

-- `chain_error`: a required step failed or lost one that it needs. `unfinished`: the fuel is spent.
pub data ChainEnd : Type 0 where
  finished : Sched → ChainEnd
  chain_error stalled unfinished : ChainEnd

unfoldable pub run_loop : List OpStep → (String → Option Outputs) → (ℕ → ℕ) → ℕ → Sched → ChainEnd
run_loop steps results picks zero st = unfinished
run_loop steps results picks (suc n) st = elim (is_empty st.pending && is_empty st.running) [
  | true ↦ finished st
  | false ↦ elim (submit steps st).running [
    | [] ↦ stalled
    | k ∷ others ↦
        elim (complete steps (next_back (picks n) k others).0
          (results (next_back (picks n) k others).0)
          (record (submit steps st) { running = (next_back (picks n) k others).1 })) [
            | none ↦ chain_error
            | some next ↦ run_loop steps results picks n next
          ]
  ]
]

-- The loop of `run_chain`, from the state it begins with.
unfoldable pub schedule : List OpStep → (String → Option Outputs) → (ℕ → ℕ) → ChainEnd
schedule steps results picks =
    run_loop steps results picks (suc (length steps))
      (record { pending = ids steps; running = []; produced = []; failed = [] })
