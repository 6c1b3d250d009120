-- ===== src/EventStream/Tests.antt =====
-- Concrete runs of the stream: a pod that starts, takes a job, sends its result, and crashes.
use Prim.Native.String.{String}
use monty_pod.Common.{
  Has, Option, [], all, contains, discard, erase, false, if◌then◌else◌, inl, inr, insert, lookup,
  map, none, not, refl, some, string_eq, true, ℕ, ◌&&◌, ◌++◌, ◌↔◌, ◌∷◌, ◌≡◌, ◌⊎◌,
}
use monty_pod.StreamModels.{
  Job, StreamJob, Timeline, is_attempt_id, is_stream_id, is_valid_job, is_valid_receipt,
  is_valid_result, is_valid_stream_job, is_valid_timeline, ops,
}
use monty_pod.EventStream.Frame.{
  Body, Frame, Verdict, classify_verdict, closes_admission, is_boot_frame, is_client_frame,
  is_reopen_report, is_valid_payload, names_one_frame, result,
}
use monty_pod.EventStream.State.{
  Stream, Unhealthy, clear_storage, is_pending, latch, persist, queued_delivery, result_corrs,
  returned,
}
use monty_pod.EventStream.Append.{append, append_probed, appended, finish_append}
use monty_pod.EventStream.Settle.{
  after_verdict, buried, is_accepted, lost, rejected, reopen_admission, retired, settle,
  settle_accepted, settle_by, settle_refused, wake,
}
use monty_pod.EventStream.Intake.{
  Io, RawJob, accept_job, accept_new, accept_valid, delivery_of, queued, store_new,
}
use monty_pod.EventStream.Connection.{claim, claim_under, interrupt_claim, job, refused, take_job}
use monty_pod.EventStream.Restart.{drop_boot, empty_state, fresh_stream, load, start}
use monty_pod.EventStream.Closed.{Closed, is_closed, is_verdict}
use monty_pod.EventStream.History.{
  Reach, Run, accepts, begins, claims, first_start, later, reachable-IsValid, runs,
}
use monty_pod.EventStream.Accounting.{books, settle_moves_head, settled_frames}
use monty_pod.EventStream.Conservation.{kept_frames, unaccepted_frames_stay}
use monty_pod.EventStream.ClosedLife.{refused_until_restart}
use monty_pod.EventStream.Recovery.{closes_admission_iff}
use monty_pod.EventStream.Receipts.{new_job_is_durable_then_claimable, receipt_frame}
use monty_pod.EventStream.KeepSettle.{Current}

program : Unit {0}
unfolding start load fresh_stream drop_boot persist clear_storage latch accept_job accept_valid
    accept_new store_new append append_probed appended finish_append is_valid_payload
    is_client_frame is_valid_stream_job is_valid_receipt is_valid_result is_valid_job
    is_valid_timeline is_attempt_id is_stream_id all is_reopen_report is_boot_frame settle settle_by
    settle_accepted settle_refused buried retired after_verdict reopen_admission wake claim
    claim_under take_job interrupt_claim is_closed contains discard lookup insert erase
    classify_verdict names_one_frame
program = tt

abbrev attempt_name : String
attempt_name = "0123456789abcdef0123456789abcdef"

abbrev timeline : Timeline
timeline = record {
  enqueue_min_unix_ns = 1;
  enqueue_max_unix_ns = 2;
  claim_min_unix_ns = 3;
  claim_max_unix_ns = 4;
  socket_write_min_unix_ns = 5;
}

abbrev chain_job : String → Job
chain_job corr = record {
  kind = ops;
  corr_id = corr;
  job_id = "job";
  session_id = "session";
  has_request = false;
  has_spec = false;
  has_chain = true;
  rest = "";
}

abbrev delivered : String → StreamJob
delivered corr = record {
  delivery_id = corr;
  attempt_id = attempt_name;
  stream_id = "api";
  seq = 1;
  replayed = false;
  timeline = timeline;
  job = chain_job corr;
}

abbrev raw_frame : RawJob
raw_frame = record {
  delivery_id = "";
  attempt_id = "";
  corr_id = "";
  session_id = "";
  job_id = "";
  block_job_id = "";
}

abbrev works : ℕ → Io
works n = (true, true)

abbrev new_pod : Stream
unfolding fresh_stream
new_pod = fresh_stream "pod" empty_state

new_pod_reached : Reach new_pod
unfolding program
new_pod_reached = first_start "pod" refl refl

abbrev with_job : Stream
with_job = (accept_job raw_frame (some (delivered "a")) 7 true true works new_pod).1

with_job_reached : Reach with_job
with_job_reached =
    later new_pod_reached (accepts raw_frame (some (delivered "a")) 7 true true works)

abbrev terminal : Body
terminal = result attempt_name (record {
  job_id = "job";
  session_id = "session";
  corr_id = "a";
  succeeded = false;
  kind = none;
  stage = some "dispatch";
  op = none;
  result_key = none;
  has_timing = false;
  has_timings = false;
  rest = "error";
})

abbrev with_result : Stream
with_result = (append terminal false true true with_job).1

two_frames : map (λ (f : Frame). f.seq) with_result.live.frames ≡ 1 ∷ 2 ∷ []
unfolding program
two_frames = refl

abbrev receipt : Frame
receipt = receipt_frame (delivered "a") 7 new_pod

receipt_leads : with_job.live.frames ≡ receipt ∷ []
unfolding program
receipt_leads = refl

receipt_owed : (not (is_accepted rejected) && is_reopen_report receipt) ≡ false
unfolding program
receipt_owed = refl

abbrev refusal : Option Verdict
refusal = some (record { status = 403; error = "not a session of this pod" })

settle_moves_head_example :
    books (settle receipt rejected refusal true true with_job).1
    ≡ (if true then settled_frames with_job receipt [] rejected refusal else books with_job)
settle_moves_head_example =
    settle_moves_head receipt [] with_job receipt_leads rejected refusal true true receipt_owed

receipt-Current : Current receipt with_job.live.frames
unfolding program
receipt-Current = inr refl

receipt_stays : is_reopen_report receipt ≡ false
unfolding program
receipt_stays = refl

receipt_kept : Has receipt (kept_frames with_job)
unfolding program
receipt_kept = inl refl

unaccepted_frames_stay_example :
    Has receipt (kept_frames (settle receipt lost refusal true true with_job).1)
unaccepted_frames_stay_example =
    unaccepted_frames_stay receipt lost refusal true true with_job receipt receipt-Current refl
      receipt_stays receipt_kept

abbrev refused_pod : Stream
refused_pod = (settle receipt rejected refusal true true with_job).1

refused_pod-Closed : Closed refused_pod
unfolding program
refused_pod-Closed = refl

abbrev later_pod : Stream
later_pod =
    (accept_job raw_frame (some (delivered "b")) 9 true true works (claim true refused_pod).1).1

later_pod-Run : Run refused_pod later_pod
later_pod-Run =
    runs (runs begins (claims true)) (accepts raw_frame (some (delivered "b")) 9 true true works)

refused_until_restart_example :
    (e : Unhealthy) × (is_pending e ≡ false) × (claim true later_pod ≡ (refused e, later_pod))
refused_until_restart_example =
    refused_until_restart refused_pod later_pod true refused_pod-Closed later_pod-Run

disk_healthy : (with_job.storage_error ≡ none) × (with_job.admission_from_storage ≡ false)
unfolding program
disk_healthy = (refl, refl)

abbrev forbidden : ℕ
forbidden = 403

closes_admission_iff_example :
    classify_verdict receipt forbidden "not a session of this pod" ≡ closes_admission ↔ (
      (is_reopen_report receipt ≡ false)
      × (((forbidden ≡ 403) × (names_one_frame "not a session of this pod" ≡ false))
          ⊎ ((forbidden ≡ 422) × (is_boot_frame receipt ≡ true))))
closes_admission_iff_example = closes_admission_iff receipt forbidden "not a session of this pod"

delivered_valid : is_valid_stream_job (delivered "b") ≡ true
unfolding program
delivered_valid = refl

fresh_delivery : contains "b" (result_corrs with_job.live) ≡ false
unfolding program
fresh_delivery = refl

unknown_delivery : lookup "b" with_job.live.inbox ≡ none
unfolding program
unknown_delivery = refl

admission_open : is_verdict with_job.admission_error ≡ false
unfolding program
admission_open = refl

new_job_is_durable_then_claimable_example :
    let r = accept_job raw_frame (some (delivered "b")) 9 true true (λ n. (true, true)) with_job in
    (r.0 ≡ returned queued)
    × (r.1.live ≡ record (with_job.live) {
      frames = with_job.live.frames ++ receipt_frame (delivered "b") 9 with_job ∷ [];
      inbox = insert "b" (chain_job "b") with_job.live.inbox;
      deliveries = insert "b" (delivery_of (delivered "b") 9) with_job.live.deliveries;
    })
    × (r.1.disk ≡ r.1.live)
    × (r.1.jobs ≡ with_job.jobs ++ queued_delivery "b" ∷ [])
new_job_is_durable_then_claimable_example =
    new_job_is_durable_then_claimable (delivered "b") with_job delivered_valid fresh_delivery
      unknown_delivery admission_open raw_frame 9 (reachable-IsValid with_job with_job_reached)
      disk_healthy.0

finished_delivery :
    (is_valid_stream_job (delivered "a") ≡ true)
    × (contains "a" (result_corrs with_result.live) ≡ true)
    × (with_result.storage_error ≡ none)
unfolding program
finished_delivery = (refl, refl, refl)
