-- ===== src/Agent/Tests.antt =====
-- Runs of the claim loop, of the drain and of the restart guard.
use monty_pod.Common.{
  List, Option, [], arith, false, insert, is_some, map, none, refl, select, some, string_eq, suc,
  true, zero, ℕ, ◌++◌, ◌∷◌, ◌≡◌, ◌≤◌, ◌⊎◌,
}
use monty_pod.StreamModels.{is_valid_job, ops}
use monty_pod.Agent.Coordinator.{
  Coordinator, drain_pending, fresh_coordinator, in_flight, insert_label, ops_pool, pending_futures,
  report_infra_fault, sorted_labels, track,
}
use monty_pod.Agent.Flips.{Flip, flip_history, record_flip_or_refuse, restarts}
use monty_pod.Agent.Hourly.{count_hour, no_hour_has_four_restarts}
use monty_pod.Agent.Dispatch.{
  Call, LoopFault, PodJob, RawEnvelope, admit_claim, at_received, delivery_pending, dict_block,
  dispatch_validation_terminal, handle_claim, or_text, raw_job_meta, refuse_claim,
  transport_unhealthy,
}
use monty_pod.Agent.Loop.{
  LoopRun, LoopTurn, Poll, apply_changes, claimed, dispatch_loop, exited, fault_reported, healthy,
  no_job, on_fault, poll_turn, polling, returned, transport_unhealthy_max_attempts,
}
use monty_pod.Agent.Claims.{refusals, submissions}
use monty_pod.Agent.Refusal.{fault_stops_work, reports_fault}
use monty_pod.Agent.Caps.{count_faults, exits_over_caps, failing_turn}
use monty_pod.Agent.Ending.{
  Ending, after_loop, closed_stream, drain_and_restart, drained, executes, killed_orphans, main_end,
  marked_restart,
}

abbrev cut_job : RawEnvelope
cut_job = record {
  type_name = some "ops";
  session_id = some "s1";
  corr_id = some "c1";
  request = none;
  spec = none;
  chain = some (dict_block (some "j1") none);
  payload = "{}";
}

cut_job_meta : raw_job_meta cut_job ≡ record {
  job_id = "j1";
  session_id = some "s1";
  corr_id = some "c1";
  stage = "ops";
  op = "ops";
}
unfolding raw_job_meta
cut_job_meta = refl

abbrev read_ops : RawEnvelope → Option PodJob
read_ops j = some (record {
  job = record {
    kind = ops;
    corr_id = or_text j.corr_id "";
    job_id = "j1";
    session_id = or_text j.session_id "";
    has_request = false;
    has_spec = false;
    has_chain = is_some j.chain;
    rest = "";
  };
  infer_kind = "";
})

abbrev calm_turn : Poll → ℕ → LoopTurn
calm_turn p future = record {
  before = [];
  poll = p;
  during = [];
  answers = λ k. none;
  future = future;
}

abbrev bad_job : RawEnvelope
bad_job = record (cut_job) { chain = none; corr_id = some "c2" }

-- A job, an idle poll, a job without its block, and a job after which nothing is polled any more.
abbrev turns : List LoopTurn
turns =
    calm_turn (claimed cut_job) 7
    ∷ calm_turn no_job 8
    ∷ calm_turn (claimed bad_job) 9
    ∷ record (calm_turn (claimed cut_job) 10) { during = fault_reported "cuda_fault" ∷ [] }
    ∷ calm_turn (claimed cut_job) 11
    ∷ []

abbrev run : LoopRun
run = dispatch_loop read_ops true 5 fresh_coordinator healthy turns

run_end :
    (run.end ≡ returned)
    × (run.left ≡ calm_turn (claimed cut_job) 11 ∷ [])
    × (run.coordinator.ops_futures ≡ (7, "c1") ∷ [])
    × (submissions run.effects ≡ 1)
    × (refusals run.effects ≡ 2)
unfolding dispatch_loop poll_turn apply_changes handle_claim refuse_claim admit_claim
    dispatch_validation_terminal raw_job_meta on_fault track report_infra_fault insert submissions
    refusals is_valid_job
run_end = (refl, refl, refl, refl, refl)

abbrev faulty_turn : LoopTurn
faulty_turn = record (calm_turn (claimed cut_job) 10) { during = fault_reported "cuda_fault" ∷ [] }

abbrev last_turns : List LoopTurn
last_turns = calm_turn (claimed cut_job) 11 ∷ []

fault_stops_work_example :
    (submissions
        (dispatch_loop read_ops true 5 fresh_coordinator healthy (faulty_turn ∷ last_turns)).effects
      ≡ 0)
    × (((dispatch_loop read_ops true 5 fresh_coordinator healthy (faulty_turn ∷ last_turns)).left
          ≡ last_turns)
        ⊎ ((dispatch_loop read_ops true 5 fresh_coordinator healthy (faulty_turn ∷ last_turns)).left
            ≡ faulty_turn ∷ last_turns))
unfolding reports_fault
fault_stops_work_example =
    fault_stops_work read_ops true 5 fresh_coordinator healthy faulty_turn last_turns refl

exits_over_caps_example :
    (dispatch_loop read_ops true (transport_unhealthy_max_attempts 2) fresh_coordinator healthy (
      map failing_turn (
        transport_unhealthy ∷ delivery_pending ∷ transport_unhealthy ∷ transport_unhealthy
        ∷ []))).end
    ≡ exited
unfolding count_faults
exits_over_caps_example =
    exits_over_caps read_ops true 2 fresh_coordinator
      (transport_unhealthy ∷ delivery_pending ∷ transport_unhealthy ∷ transport_unhealthy ∷ []) refl

-- The only future is done after the second round.
abbrev shrinking : ℕ → Coordinator
shrinking zero = record (fresh_coordinator) { ops_futures = (7, "c1") ∷ [] }
shrinking (suc zero) = record (fresh_coordinator) { ops_futures = (7, "c1") ∷ [] }
shrinking (suc (suc n)) = fresh_coordinator

-- With a deadline that passes, the future is still in flight.
drain_abandons : drain_pending (λ n. n) shrinking 1 2 0 ≡ some ((ops_pool, "c1") ∷ [])
unfolding drain_pending pending_futures in_flight sorted_labels insert_label
drain_abandons = refl

abbrev flip_at : ℕ → Flip
flip_at t = record { t = t; pack = "pack" }

abbrev asked_flips : List Flip
asked_flips = flip_at 10 ∷ flip_at 20 ∷ flip_at 30 ∷ flip_at 40 ∷ flip_at 3610 ∷ []

four_restarts : restarts none asked_flips ≡ flip_at 10 ∷ flip_at 20 ∷ flip_at 30 ∷ flip_at 3610 ∷ []
unfolding restarts record_flip_or_refuse flip_history select
four_restarts = refl

no_hour_has_four_restarts_example : count_hour 3610 ([] ++ restarts none asked_flips) ≤ 3
no_hour_has_four_restarts_example =
    no_hour_has_four_restarts 0 3610 none asked_flips (omega arith)
      (omega arith, (omega arith, (omega arith, (omega arith, (omega arith, tt)))))

abbrev unheard : Call → Option LoopFault
unheard k = elim k [ at_received ↦ some transport_unhealthy | _ ↦ none ]

abbrev unheard_turns : List LoopTurn
unheard_turns =
    record (calm_turn (claimed cut_job) 7) { answers = unheard } ∷ calm_turn no_job 8 ∷ []

-- The note that a job was received raises: the job is claimed, but neither submitted nor refused.
unreported_claim :
    ((dispatch_loop read_ops true 5 fresh_coordinator healthy unheard_turns).effects ≡ [])
    × ((dispatch_loop read_ops true 5 fresh_coordinator healthy unheard_turns).end ≡ polling)
unfolding dispatch_loop poll_turn apply_changes handle_claim admit_claim on_fault
unreported_claim = (refl, refl)

-- A restart is latched, and then a fault.
abbrev both_latched : Coordinator
both_latched = record (fresh_coordinator) { restart = true; target_pack = "0123456789abcdef" }

abbrev late_fault : LoopTurn
late_fault = record (calm_turn no_job 12) { before = fault_reported "cuda_fault" ∷ [] }

abbrev ending : Ending
ending = record { left = []; now = 50; written = true; can_exec = true }

-- Without the fault, the process executes itself again, and the flip is on the disk.
restart_executes :
    main_end ending none
      (dispatch_loop read_ops true 5 both_latched healthy (calm_turn no_job 12 ∷ []))
    ≡ record {
      steps = closed_stream ∷ drained [] ∷ killed_orphans ∷ marked_restart "" [] ∷ [];
      process = executes;
      mark = some (record { t = 50; pack = "0123456789ab" } ∷ []);
    }
unfolding main_end after_loop drain_and_restart record_flip_or_refuse flip_history select
    dispatch_loop apply_changes
restart_executes = refl
