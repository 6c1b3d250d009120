-- ===== src/Agent/Refusal.antt =====
-- Once a fault of the card is reported, no job runs on it.
use monty_pod.Common.{
  Bool, Bool-cases, List, Option, Option-cases, [], ap, arith, false, if◌then◌else◌, inl, inr,
  is_some, refl, subst, sym, true, ℕ, ◌&&◌, ◌||◌, ◌∙◌, ◌∷◌, ◌≡◌, ◌⊎◌,
}
use monty_pod.Agent.Coordinator.{
  Coordinator, heavy_pool, ops_pool, rank_pool, report_infra_fault, request_restart, stop_claiming,
  untrack,
}
use monty_pod.Agent.Dispatch.{
  Call, Effect, LoopFault, Handled, PodJob, RawEnvelope, Work, admit_claim, at_event, at_note,
  at_result, dispatch_validation_terminal, handle_claim, handled, leaves, raised, raw_job_meta,
  refuse_claim,
}
use monty_pod.Agent.Loop.{
  Change, Counts, Poll, Polled, LoopTurn, TurnEnd, apply_change, apply_changes, claimed,
  dispatch_loop, ends, fault_reported, future_done, goes_on, healthy, no_job, on_fault, poll_raised,
  poll_turn, restart_asked, work_end,
}
use monty_pod.Agent.Claims.{next_run, on_fault-quiet, submissions, submissions-append}

abbrev pub is_fault_report : Change → Bool
is_fault_report (fault_reported error_class) = true
is_fault_report (restart_asked reason target) = false
is_fault_report (future_done pool future) = false

apply_change-fault :
    (x : Change) (c : Coordinator)
    → (c.fault || is_fault_report x) ≡ true
    → (apply_change x c).fault ≡ true
unfolding request_restart report_infra_fault untrack
apply_change-fault (fault_reported error_class) c h = elim (Bool-cases c.fault) [
  | inl bad ↦ rw bad refl
  | inr fine ↦ rw fine refl
]
apply_change-fault (restart_asked reason target) c h = elim (Bool-cases c.restart) [
  | inl asked ↦ rw asked (ground (arith))
  | inr fresh ↦ rw fresh (ground (arith))
]
apply_change-fault (future_done ops_pool future) c h = ground (arith)
apply_change-fault (future_done heavy_pool future) c h = ground (arith)
apply_change-fault (future_done rank_pool future) c h = ground (arith)

unfoldable pub reports_fault : List Change → Bool
reports_fault [] = false
reports_fault (x ∷ changes) = is_fault_report x || reports_fault changes

pub apply_changes-fault :
    (changes : List Change) (c : Coordinator)
    → (c.fault || reports_fault changes) ≡ true
    → (apply_changes changes c).fault ≡ true
unfolding apply_changes reports_fault
apply_changes-fault [] c h = ground (arith)
apply_changes-fault (x ∷ changes) c h = elim (Bool-cases (c.fault || is_fault_report x)) [
  | inl bad ↦
      let e = apply_change-fault x c bad in
      apply_changes-fault changes (apply_change x c) (ground (arith))
  | inr fine ↦ apply_changes-fault changes (apply_change x c) (ground (arith))
]

refuse_claim-quiet :
    (answers : Call → Option LoopFault) (j : RawEnvelope) (c : Coordinator)
    → (submissions (refuse_claim answers j c).effects ≡ 0)
      × ((refuse_claim answers j c).coordinator ≡ c)
unfolding refuse_claim dispatch_validation_terminal submissions
refuse_claim-quiet answers j c = elim (Option-cases (answers at_event)) [
  | inr (f, bad) ↦ rw bad (refl, refl)
  | inl calm ↦
      elim (Bool-cases (is_some (raw_job_meta j).corr_id && is_some (raw_job_meta j).session_id)) [
        | inr unaddressed ↦ rw (calm, unaddressed) (refl, refl)
        | inl addressed ↦ elim (Option-cases (answers at_result)) [
          | inr (f, bad) ↦ rw (calm, addressed, bad) (refl, refl)
          | inl fine ↦ rw (calm, addressed, fine) (refl, refl)
        ]
      ]
]

-- A turn that submits nothing and leaves the coordinator with its fault.
abbrev IsQuiet : Polled → Type 0
IsQuiet w = (submissions w.effects ≡ 0) × (w.coordinator.fault ≡ true)

work_end-IsQuiet :
    (max_attempts : ℕ) (noting : Option LoopFault) (w : Work) (o : Handled)
    → w.outcome ≡ o
    → submissions w.effects ≡ 0
    → w.coordinator.fault ≡ true
    → IsQuiet (work_end max_attempts noting w)
unfolding submissions
work_end-IsQuiet max_attempts noting w handled e quiet bad = rw e (quiet, bad)
work_end-IsQuiet max_attempts noting w leaves e quiet bad = rw e (quiet, bad)
work_end-IsQuiet max_attempts noting w (raised f) e quiet bad =
    let (a, b) = on_fault-quiet max_attempts noting healthy f in
    let c = submissions-append w.effects (on_fault max_attempts noting healthy f).0 in
    rw e (omega arith, bad)

module _ (read : RawEnvelope → Option PodJob) (kinds_coexist : Bool) (max_attempts : ℕ) where
  claim-IsQuiet :
      (answers : Call → Option LoopFault) (noting : Option LoopFault) (future : ℕ) (j : RawEnvelope)
      (c : Coordinator)
      → c.fault ≡ true
      → IsQuiet (work_end max_attempts noting (handle_claim read kinds_coexist answers future j c))
  unfolding handle_claim
  claim-IsQuiet answers noting future j c bad =
      let (quiet, same) = refuse_claim-quiet answers j c in
      subst
        (λ (b : Bool). IsQuiet (
          work_end max_attempts noting (
            if b
            then refuse_claim answers j c
            else admit_claim read kinds_coexist answers future j c)))
        (sym bad)
        (work_end-IsQuiet max_attempts noting (refuse_claim answers j c) _ refl quiet
          (ap (λ (x : Coordinator). x.fault) same ∙ bad))

  poll_turn-IsQuiet :
      (c : Coordinator) (n : Counts) (t : LoopTurn) (p : Poll)
      → t.poll ≡ p
      → (c.fault || reports_fault t.during) ≡ true
      → IsQuiet (poll_turn read kinds_coexist max_attempts c n t)
  unfolding poll_turn submissions
  poll_turn-IsQuiet c n t (poll_raised f) e bad =
      let (a, b) = on_fault-quiet max_attempts (t.answers at_note) n f in
      rw e (a, apply_changes-fault t.during c bad)
  poll_turn-IsQuiet c n t no_job e bad = rw e (refl, apply_changes-fault t.during c bad)
  poll_turn-IsQuiet c n t (claimed j) e bad = rw e (
      claim-IsQuiet t.answers (t.answers at_note) t.future j (apply_changes t.during c)
        (apply_changes-fault t.during c bad))

  stopped_run :
      (c : Coordinator) (n : Counts) (turns : List LoopTurn)
      → c.fault ≡ true
      → (submissions (dispatch_loop read kinds_coexist max_attempts c n turns).effects ≡ 0)
        × ((dispatch_loop read kinds_coexist max_attempts c n turns).left ≡ turns)
        × ((dispatch_loop read kinds_coexist max_attempts c n turns).coordinator.fault ≡ true)
  unfolding dispatch_loop submissions
  stopped_run c n [] bad = (refl, refl, bad)
  stopped_run c n (t ∷ turns) bad =
      let still = apply_changes-fault t.before c (ground (arith)) in
      let stop : stop_claiming (apply_changes t.before c) ≡ true = ground (arith) in
      rw (stop, dispatch_loop) (refl, refl, still)

  next_run-stopped :
      (es : List Effect) (c : Coordinator) (end : TurnEnd) (turns : List LoopTurn)
      → submissions es ≡ 0
      → c.fault ≡ true
      → (submissions (next_run read kinds_coexist max_attempts es c end turns).effects ≡ 0)
        × ((next_run read kinds_coexist max_attempts es c end turns).left ≡ turns)
        × ((next_run read kinds_coexist max_attempts es c end turns).coordinator.fault ≡ true)
  next_run-stopped es c (ends e) turns quiet bad = (quiet, refl, bad)
  next_run-stopped es c (goes_on n) turns quiet bad =
      let (a, b, still) = stopped_run c n turns bad in
      let s =
        submissions-append es (dispatch_loop read kinds_coexist max_attempts c n turns).effects in
      (omega arith, b, still)

-- Once a fault of the card is latched, or reported by another thread before or while the loop waits
-- for its next job, the loop submits no job any more and polls at most this one turn, whatever its calls
-- raise.
pub fault_stops_work :
    (read : RawEnvelope → Option PodJob) (kinds_coexist : Bool) (max_attempts : ℕ) (c : Coordinator)
    (n : Counts) (t : LoopTurn) (turns : List LoopTurn)
    → (c.fault || reports_fault t.before || reports_fault t.during) ≡ true
    → (submissions (dispatch_loop read kinds_coexist max_attempts c n (t ∷ turns)).effects ≡ 0)
      × (((dispatch_loop read kinds_coexist max_attempts c n (t ∷ turns)).left ≡ turns)
          ⊎ ((dispatch_loop read kinds_coexist max_attempts c n (t ∷ turns)).left ≡ t ∷ turns))
unfolding dispatch_loop submissions
fault_stops_work read kinds_coexist max_attempts c n t turns bad =
    elim (Bool-cases (stop_claiming (apply_changes t.before c))) [
      | inl stop ↦ rw (stop, dispatch_loop) (refl, inr refl)
      | inr on ↦
          let w = poll_turn read kinds_coexist max_attempts (apply_changes t.before c) n t in
          let (quiet, still) =
            poll_turn-IsQuiet read kinds_coexist max_attempts (apply_changes t.before c) n t t.poll
              refl
              (elim (Bool-cases (c.fault || reports_fault t.before)) [
                | inl earlier ↦ let e = apply_changes-fault t.before c earlier in ground (arith)
                | inr later ↦ ground (arith)
              ]) in
          let (a, b, kept) =
            next_run-stopped read kinds_coexist max_attempts w.effects w.coordinator w.end turns
              quiet still in
          rw (on, dispatch_loop) (a, inl b)
    ]
