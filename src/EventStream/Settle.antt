-- ===== src/EventStream/Settle.antt =====
-- `_settle` and what it calls: a frame leaves the outbox by an ACK or into the dead letter.
use monty_pod.Common.{
  Bool, List, Option, String, [], contains, discard, eqb, erase, false, if◌then◌else◌, insert,
  is_empty, is_some, lookup, none, not, pair_eq, some, str_eq, string_eq, tail, true, ◌&&◌, ◌++◌,
  ◌+◌, ◌||◌, ◌∷◌,
}
use monty_pod.StreamModels.{Result, is_filled, step}
use monty_pod.EventStream.Frame.{
  Body, Frame, Key, Verdict, event, frame_key, is_reopen_report, job_ack, not_owned, result,
}
use monty_pod.EventStream.State.{
  Ended, Stream, Unhealthy, delivery_pending, frame_rejected, is_admission_pending, latch, persist,
  raised, returned, settlement_failed, unhealthy,
}

-- What a delivery comes to; `lost` is the verdict "one_frame".
pub data Disposition : Type 0 where
  accepted rejected abandoned lost pending : Disposition

abbrev pub is_accepted : Disposition → Bool
is_accepted accepted = true
is_accepted rejected = false
is_accepted abandoned = false
is_accepted lost = false
is_accepted pending = false

abbrev pub or_else {ℓ} : {A : Type ℓ} → Option A → A → A
or_else none d = d
or_else (some a) d = a

-- `result.get("stage") or ("infer" if result.get("kind") else "result")`
abbrev pub acked_stage : Option String → Option String → String
acked_stage (some stage) kind = stage
acked_stage none (some kind) = "infer"
acked_stage none none = "result"

-- `str(result.get("op") or result.get("kind") or stage)`; `op` is an extra field, which may be "".
abbrev pub acked_op : Option String → Option String → String → String
acked_op none kind stage = or_else kind stage
acked_op (some op) kind stage = if is_filled op then op else or_else kind stage

-- `_result_acked_frame`: the event that makes the ACK of a result durable itself.
unfoldable pub result_acked_frame : Stream → Result → Frame
result_acked_frame s r = record {
  stream_id = s.stream_id;
  seq = s.next_seq;
  body = event (record {
    stage = acked_stage r.stage r.kind;
    status = step;
    job_id = some r.job_id;
    session_id = some r.session_id;
    corr_id = some r.corr_id;
    op = some (acked_op r.op r.kind (acked_stage r.stage r.kind));
    phase = some "result_acked";
    rest = "timings, ts";
  });
}

abbrev pub is_head : Key → List Frame → Bool
is_head key [] = false
is_head key (f ∷ fs) = eqb (frame_key f) key

abbrev pub forget : Key → Option Key → Option Key
forget key none = none
forget key (some k) = if eqb k key then none else some k

-- The head is gone, and an accepted result is followed by its `result_acked` event.
unfoldable pub retired : Body → Stream → Stream
retired (event e) s = record s { live = record (s.live) { frames = tail s.live.frames } }
retired (result attempt r) s = record s {
  next_seq = s.next_seq + 1;
  live = record (s.live) { frames = tail s.live.frames ++ result_acked_frame s r ∷ [] };
}
retired (job_ack a) s = record s { live = record (s.live) { frames = tail s.live.frames } }

unfoldable pub buried : Frame → Option Verdict → Stream → Stream
buried f ack s = record s {
  live = record (s.live) {
    frames = tail s.live.frames;
    rejected = s.live.rejected ++ record { frame = f; ack = ack } ∷ [];
  };
}

-- A pending delivery no longer closes admission once the outbox is empty.
unfoldable pub reopen_admission : Stream → Stream
reopen_admission s =
    if is_admission_pending s.admission_error
      && is_empty s.live.frames
      && not (is_some s.storage_error)
    then record s { admission_error = none }
    else s

abbrev pub dropped : String → Stream → Stream
dropped corr s = record s {
  live = record (s.live) {
    inbox = erase corr s.live.inbox;
    deliveries = erase corr s.live.deliveries;
  };
  queued_ids = discard corr s.queued_ids;
}

-- `_release_reassigned_job_locked`: an unclaimed job that another worker owns now leaves the inbox,
-- in memory also where the write fails.
unfoldable pub release_reassigned : Body → Option Verdict → Bool → Stream → Stream
release_reassigned (event e) ack writes s = s
release_reassigned (result attempt r) ack writes s = s
release_reassigned (job_ack a) none writes s = s
release_reassigned (job_ack a) (some v) writes s =
    if not (str_eq v.error not_owned)
      || not (is_some (lookup a.corr_id s.live.inbox))
      || contains a.corr_id s.claimed_ids
    then s
    else or_else (persist writes (dropped a.corr_id s)) (dropped a.corr_id s)

-- The waiter of the frame is woken with the outcome: the flag, or the error that it raises.
unfoldable pub wake : Key → Bool → Option Unhealthy → Stream → Stream
wake key flag error s =
    if contains key s.waiters
    then record s { outcomes = insert key (flag, error) s.outcomes }
    else s

abbrev pub forget_attempts : Key → Stream → Stream
forget_attempts key s = record s { settlement_attempts = erase key s.settlement_attempts }

abbrev pub forget_pending : Key → Stream → Stream
forget_pending key s = record s {
  pending_bootstrap = forget key s.pending_bootstrap;
  pending_reopen = forget key s.pending_reopen;
}

-- Where the durable write fails the move is undone, and the call raises.
abbrev pub Settled : Type 0
Settled = Ended (Unit {0}) × Stream

abbrev pub or_raise : Option Stream → Stream → (Stream → Stream) → Settled
or_raise none s f = (raised (unhealthy settlement_failed), s)
or_raise (some s') s f = (returned tt, f s')

-- The dropped diagnostic: no dead letter, no latch, no waiter.
unfoldable pub settle_reopen_report : Key → Bool → Stream → Settled
settle_reopen_report key writes s =
    if is_head key s.live.frames
    then or_raise
        (persist writes (record s { live = record (s.live) { frames = tail s.live.frames } })) s
        (forget_attempts key)
    else (returned tt, forget_attempts key s)

unfoldable pub settle_accepted : Frame → Bool → Stream → Settled
settle_accepted f writes s =
    let after = λ (t : Stream).
      wake (frame_key f) true none (reopen_admission (forget_attempts (frame_key f) t)) in
    if is_head (frame_key f) s.live.frames
    then or_raise (persist writes (retired f.body s)) s after
    else (returned tt, after s)

-- The latch or the release that follows a verdict.
unfoldable pub after_verdict : Disposition → Frame → Option Verdict → Bool → Stream → Stream
after_verdict rejected f ack writes s = latch (frame_rejected f ack) false s
after_verdict lost f ack writes s = reopen_admission (release_reassigned f.body ack writes s)
after_verdict accepted f ack writes s = reopen_admission s
after_verdict abandoned f ack writes s = reopen_admission s
after_verdict pending f ack writes s = reopen_admission s

unfoldable pub settle_refused :
    Disposition → Frame → Option Verdict → Bool → Bool → Stream → Settled
settle_refused d f ack writes releases s =
    let key = frame_key f in
    let after = λ (t : Stream).
      wake key false (some (frame_rejected f ack))
        (after_verdict d f ack releases (forget_attempts key t)) in
    if is_head key s.live.frames
    then or_raise (persist writes (buried f ack s)) s after
    else (returned tt, after s)

unfoldable pub settle_by : Disposition → Frame → Option Verdict → Bool → Bool → Stream → Settled
settle_by accepted f ack writes releases s = settle_accepted f writes s
settle_by rejected f ack writes releases s = settle_refused rejected f ack writes releases s
settle_by abandoned f ack writes releases s = settle_refused abandoned f ack writes releases s
settle_by lost f ack writes releases s = settle_refused lost f ack writes releases s
settle_by pending f ack writes releases s =
    (returned tt, wake (frame_key f) false (some delivery_pending) (latch delivery_pending false s))

-- `_settle`: `writes` answers the durable move, `releases` the write that drops a reassigned job.
unfoldable pub settle : Frame → Disposition → Option Verdict → Bool → Bool → Stream → Settled
settle f d ack writes releases s0 =
    let s = forget_pending (frame_key f) s0 in
    if not (is_accepted d) && is_reopen_report f
    then settle_reopen_report (frame_key f) writes s
    else settle_by d f ack writes releases s
