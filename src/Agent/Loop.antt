-- ===== src/Agent/Loop.antt =====
-- The turns of `_dispatch_loop`.
use monty_pod.Common.{
  Bool, List, Option, String, [], false, if◌then◌else◌, ltb, max, none, some, true, ℕ, ◌++◌, ◌+◌,
  ◌∷◌,
}
use monty_pod.Agent.Coordinator.{
  Coordinator, Pool, report_infra_fault, request_restart, stop_claiming, untrack,
}
use monty_pod.Agent.Dispatch.{
  Call, Effect, LoopFault, PodJob, RawEnvelope, Work, at_note, delivery_pending,
  dispatch_error_note, handle_claim, handled, leaves, other_fault, raised, request_failed,
  transport_unhealthy,
}

-- What other threads do to the coordinator.
pub data Change : Type 0 where
  restart_asked : (reason target : String) → Change
  fault_reported : (error_class : String) → Change
  future_done : Pool → ℕ → Change

abbrev pub apply_change : Change → Coordinator → Coordinator
apply_change (restart_asked reason target) c = request_restart reason target c
apply_change (fault_reported error_class) c = report_infra_fault error_class c
apply_change (future_done pool future) c = untrack pool future c

unfoldable pub apply_changes : List Change → Coordinator → Coordinator
unfolding request_restart report_infra_fault untrack
apply_changes [] c = c
apply_changes (x ∷ changes) c = apply_changes changes (apply_change x c)

pub data Poll : Type 0 where
  poll_raised : LoopFault → Poll
  no_job : Poll
  claimed : RawEnvelope → Poll

pub record LoopTurn : Type 0 where
  pub before : List Change
  pub poll : Poll
  pub during : List Change
  pub answers : Call → Option LoopFault
  pub future : ℕ

pub record Counts : Type 0 where
  pub unhealthy_attempts : ℕ
  pub pending_attempts : ℕ

abbrev pub healthy : Counts
healthy = record { unhealthy_attempts = 0; pending_attempts = 0 }

-- `exited`: with code 4. `crashed`: an exception that nothing handles. `polling`: the turns are over.
pub data LoopEnd : Type 0 where
  returned exited crashed polling : LoopEnd

pub data TurnEnd : Type 0 where
  goes_on : Counts → TurnEnd
  ends : LoopEnd → TurnEnd

-- `DELIVERY_PENDING_MAX_ATTEMPTS` and `_transport_unhealthy_max_attempts`
abbrev pub delivery_pending_max_attempts : ℕ
delivery_pending_max_attempts = 120

abbrev pub transport_unhealthy_max_attempts : ℕ → ℕ
transport_unhealthy_max_attempts default = max 1 default

-- The handlers of the turn's exceptions.
unfoldable pub on_fault : ℕ → Option LoopFault → Counts → LoopFault → List Effect × TurnEnd
on_fault max_attempts noting n request_failed = ([], goes_on n)
on_fault max_attempts noting n delivery_pending =
    let attempts = n.pending_attempts + 1 in
    (
      [],
      if ltb delivery_pending_max_attempts attempts
          then ends exited
          else goes_on (record (n) { pending_attempts = attempts }),
    )
on_fault max_attempts noting n transport_unhealthy =
    let attempts = n.unhealthy_attempts + 1 in
    (
      [],
      if ltb max_attempts attempts
          then ends exited
          else goes_on (record (n) { unhealthy_attempts = attempts }),
    )
on_fault max_attempts none n other_fault = (dispatch_error_note ∷ [], goes_on n)
on_fault max_attempts (some f) n other_fault = ([], ends crashed)

-- What a turn has done.
pub record Polled : Type 0 where
  pub effects : List Effect
  pub coordinator : Coordinator
  pub end : TurnEnd

abbrev pub fault_end : List Effect → Coordinator → List Effect × TurnEnd → Polled
fault_end effects c (noted_it, end) = record {
  effects = effects ++ noted_it;
  coordinator = c;
  end = end;
}

-- After a poll that gave a job.
abbrev pub work_end : ℕ → Option LoopFault → Work → Polled
work_end max_attempts noting w = elim w.outcome [
  | handled ↦ record { effects = w.effects; coordinator = w.coordinator; end = goes_on healthy }
  | leaves ↦ record { effects = w.effects; coordinator = w.coordinator; end = ends returned }
  | raised f ↦ fault_end w.effects w.coordinator (on_fault max_attempts noting healthy f)
]

-- A turn from its poll on.
unfoldable pub poll_turn :
    (RawEnvelope → Option PodJob) → Bool → ℕ → Coordinator → Counts → LoopTurn → Polled
unfolding apply_changes handle_claim on_fault
poll_turn read kinds_coexist max_attempts c n t = elim t.poll [
  | poll_raised f ↦
      fault_end [] (apply_changes t.during c) (on_fault max_attempts (t.answers at_note) n f)
  | no_job ↦ record { effects = []; coordinator = apply_changes t.during c; end = goes_on healthy }
  | claimed j ↦
      work_end max_attempts (t.answers at_note)
        (handle_claim read kinds_coexist t.answers t.future j (apply_changes t.during c))
]

-- What a run of the loop has done, and the turns that it has not polled.
pub record LoopRun : Type 0 where
  pub effects : List Effect
  pub coordinator : Coordinator
  pub end : LoopEnd
  pub left : List LoopTurn

unfoldable pub dispatch_loop :
    (RawEnvelope → Option PodJob) → Bool → ℕ → Coordinator → Counts → List LoopTurn → LoopRun
unfolding apply_changes poll_turn
dispatch_loop read kinds_coexist max_attempts c n [] = record {
  effects = [];
  coordinator = c;
  end = polling;
  left = [];
}
dispatch_loop read kinds_coexist max_attempts c n (t ∷ turns) =
    elim (stop_claiming (apply_changes t.before c)) [
      | true ↦ record {
        effects = [];
        coordinator = apply_changes t.before c;
        end = returned;
        left = t ∷ turns;
      }
      | false ↦
          let w = poll_turn read kinds_coexist max_attempts (apply_changes t.before c) n t in
          elim w.end [
            | ends e ↦ record {
              effects = w.effects;
              coordinator = w.coordinator;
              end = e;
              left = turns;
            }
            | goes_on n' ↦
                let rest = dispatch_loop read kinds_coexist max_attempts w.coordinator n' turns in
                record (rest) { effects = w.effects ++ rest.effects }
          ]
    ]
