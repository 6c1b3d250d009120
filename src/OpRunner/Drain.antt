-- ===== src/OpRunner/Drain.antt =====
-- `_PutDrain`, `_sibling_url_readers`, and how `run_chain` ends. A step enqueues at most one PUT, so
-- its id stands for the future. Which of them return within a window, and which then turn out well, is
-- for the store to say.
use Prim.Native.String.{String}
use monty_pod.Common.{
  Bool, List, Option, [], all, contains, erase, false, if◌then◌else◌, insert, is_empty, is_some,
  lookup, map, none, not, select, some, string_eq, true, ℕ, ◌&&◌, ◌++◌, ◌||◌, ◌∷◌,
}
use monty_pod.OpRunner.Envelope.{OpBinding, OpStep, by_id}
use monty_pod.OpRunner.Registry.{Checked, err, ok, put_failed, put_hung, scheduling_failed}
use monty_pod.OpRunner.Binding.{Outputs}
use monty_pod.OpRunner.Schedule.{
  ChainEnd, Sched, chain_error, done_ids, finished, schedule, stalled, unfinished,
}

pub record PutEntry : Type 0 where
  pub step : String
  pub optional : Bool

pub record Drain : Type 0 where
  pub entries : List PutEntry
  pub stuck : List String

unfoldable pub enqueue : PutEntry → Drain → Drain
enqueue e d = record (d) { entries = d.entries ++ e ∷ [] }

abbrev pub steps_of : List PutEntry → List String
steps_of es = map (λ (e : PutEntry). e.step) es

-- `_poll`: what is outstanding when its window ends; `skip`: leave out what an earlier one gave up on.
unfoldable pub poll : (String → Bool) → Bool → Drain → List PutEntry × Drain
unfolding select contains
poll returned skip d =
    let pending =
      select (λ (e : PutEntry). not (returned e.step) && not (skip && contains e.step d.stuck))
        d.entries in
    (pending, record (d) { stuck = d.stuck ++ steps_of pending })

unfoldable pub settle_puts : (String → Bool) → Drain → Drain
unfolding poll
settle_puts returned d = (poll returned true d).1

abbrev pub failing : String → Checked (List String) → Checked (List String)
failing k (ok ks) = ok (k ∷ ks)
failing k (err f) = err f

-- The loop of `wait` over the entries: the optional steps that failed.
unfoldable pub collect : (String → Bool) → (String → Bool) → List PutEntry → Checked (List String)
collect returned well [] = ok []
collect returned well (e ∷ es) =
    let rest = collect returned well es in
    if not (returned e.step)
    then failing e.step rest
    else if well e.step
    then rest
    else if e.optional
    then failing e.step rest
    else err put_failed

unfoldable pub wait : (String → Bool) → (String → Bool) → Drain → Checked (List String)
unfolding poll select collect
wait returned well d =
    if is_empty (select (λ (e : PutEntry). not e.optional) (poll returned false d).0)
    then collect returned well d.entries
    else err put_hung

-- The addresses that an output binds.
abbrev or_no_urls : Option (List String) → List String
or_no_urls none = []
or_no_urls (some us) = us

abbrev addresses : OpBinding → List String
addresses b = elim b.url [ none ↦ or_no_urls b.urls | some u ↦ u ∷ or_no_urls b.urls ]

unfoldable pub add_urls : String → List String → List (String × String) → List (String × String)
unfolding insert
add_urls k [] d = d
add_urls k (u ∷ us) d = add_urls k us (insert u k d)

unfoldable pub add_outputs :
    String → List OpBinding → List (String × String) → List (String × String)
unfolding add_urls
add_outputs k [] d = d
add_outputs k (b ∷ bs) d = add_outputs k bs (add_urls k (addresses b) d)

-- `produced_urls`: a later step takes the address over.
unfoldable pub produced_urls : List OpStep → List (String × String) → List (String × String)
unfolding add_outputs
produced_urls [] d = d
produced_urls (s ∷ steps) d = produced_urls steps (add_outputs s.id s.outputs d)

abbrev read_url : List (String × String) → OpBinding → Option String
read_url d b = elim b.from_step [
  | some p ↦ none
  | none ↦ elim b.url [ none ↦ none | some u ↦ lookup u d ]
]

unfoldable pub hazards_in : List (String × String) → List OpBinding → List String
unfolding lookup
hazards_in d [] = []
hazards_in d (b ∷ bs) = elim (read_url d b) [
  | none ↦ hazards_in d bs
  | some k ↦ k ∷ hazards_in d bs
]

unfoldable pub hazards_from : List (String × String) → List OpStep → List String
unfolding hazards_in
hazards_from d [] = []
hazards_from d (s ∷ steps) = hazards_in d s.inputs ++ hazards_from d steps

-- `_sibling_url_readers`
unfoldable pub sibling_url_readers : List OpStep → List String
unfolding produced_urls hazards_from
sibling_url_readers steps = hazards_from (produced_urls steps []) steps

-- Whether a step has anything to put, or to keep on the box.
unfoldable pub is_durable : OpStep → Bool
unfolding all
is_durable s =
    not (all (λ (b : OpBinding). not (is_some b.url || is_some b.urls || b.retain)) s.outputs)

-- The drain after the loop: a produced step enqueued its PUT, unless it did it at once.
unfoldable pub enqueued : List OpStep → List String → Drain → Drain
unfolding by_id is_durable enqueue
enqueued steps [] d = d
enqueued steps (k ∷ ks) d = elim (by_id k steps) [
  | none ↦ enqueued steps ks d
  | some s ↦
      if is_durable s && not (contains k (sibling_url_readers steps))
      then enqueued steps ks (enqueue (record { step = k; optional = s.optional }) d)
      else enqueued steps ks d
]

-- The terminal: the steps that delivered, and those that were skipped.
pub record Terminal : Type 0 where
  pub steps : List String
  pub skipped : List String

-- `failed.add(sid)` and `produced.pop(sid, None)`
unfoldable pub drop_unput : List String → Sched → Sched
unfolding erase
drop_unput [] st = st
drop_unput (k ∷ ks) st =
    drop_unput ks (record (st) { produced = erase k st.produced; failed = k ∷ st.failed })

abbrev pub concluded : Sched → Checked (List String) → Checked Terminal
concluded st (err f) = err f
concluded st (ok ks) =
    ok (record { steps = done_ids (drop_unput ks st); skipped = (drop_unput ks st).failed })

unfoldable pub conclude_chain :
    List OpStep → (String → Bool) → (String → Bool) → ChainEnd → Checked Terminal
unfolding enqueued wait drop_unput
conclude_chain steps returned well (finished st) =
    concluded st
      (wait returned well (enqueued steps (done_ids st) (record { entries = []; stuck = [] })))
conclude_chain steps returned well chain_error = err scheduling_failed
conclude_chain steps returned well stalled = err scheduling_failed
conclude_chain steps returned well unfinished = err scheduling_failed

-- The loop of `run_chain`, its drain, and its terminal.
unfoldable pub run_steps :
    List OpStep
    → (String → Option Outputs)
    → (ℕ → ℕ)
    → (String → Bool)
    → (String → Bool)
    → Checked Terminal
unfolding conclude_chain
run_steps steps results picks returned well =
    conclude_chain steps returned well (schedule steps results picks)
