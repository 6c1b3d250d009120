-- ===== src/EventStream/ClosedLife.antt =====
-- Jobs do not open a closed admission either, and no claim of the process hands one out.
use Prim.Native.String.{String}
use monty_pod.Common.{
  Bool, Bool-cases, Option, Option-cases, arith, contains, false, inl, inr, lookup, none, refl,
  some, string_eq, sym, true, true≢false, ℕ, ◌&&◌, ◌≡◌,
}
use monty_pod.StreamModels.{Event, Job, StreamJob, is_valid_event, is_valid_stream_job}
use monty_pod.EventStream.Frame.{Body}
use monty_pod.EventStream.State.{
  Cause, Delivery, Ended, Stream, Unhealthy, changed_attempt, inbox_failed, invalid_job, is_pending,
  persist, protocol_error, raised, replay_failed, result_corrs, returned, reused_delivery,
  unhealthy,
}
use monty_pod.EventStream.Intake.{
  Accepted, Identity, Io, RawJob, accept_invalid, accept_job, accept_new, accept_replay,
  accept_valid, changed_attempts, conclude, deduplicated, delivery_of, emit, fail, is_trusted,
  make_claimable, queued, raw_job_identity, receipt_of, reject_invalid_job, rejection_event,
  rejection_receipt, rejection_result, replayed_receipt, restore_delivery, same_job, send,
  set_delivery, store_new, stored, terminalize, then_send, unstored,
}
use monty_pod.EventStream.Connection.{
  claim, claim_under, interrupt_claim, refused, set_bootstrap_event,
}
use monty_pod.EventStream.History.{
  Run, Step, accepts, announces, appends, begins, claims, interrupts, opens, runs, sets_bootstrap,
  settles,
}
use monty_pod.EventStream.Closed.{
  Closed, announce_ready-Closed, append-Closed, is_closed, is_verdict, latch-Closed, persist-Closed,
}
use monty_pod.EventStream.ClosedSteps.{claim-Closed, opened_socket-Closed, settle-Closed}

then_send-Closed :
    (r : Ended ℕ × Stream) (k : Stream → Bool × Stream)
    → Closed r.1
    → ((t : Stream) → Closed t → Closed (k t).1)
    → Closed (then_send r k).1
then_send-Closed (returned n, s) k h keep = keep s h
then_send-Closed (raised e, s) k h keep = h
then_send-Closed (protocol_error, s) k h keep = h

send-Closed : (b : Body) (io : Io) (s : Stream) → Closed s → Closed (send b io s).1
send-Closed b (probe, writes) s h = append-Closed b false probe writes s h

terminalize-Closed :
    (i : Identity) (now : ℕ) (io : ℕ → Io) (s : Stream)
    → Closed s
    → Closed (terminalize i now io s).1
unfolding terminalize
terminalize-Closed i now io s h = elim (Bool-cases (is_trusted i)) [
  | inr stranger ↦ rw (stranger, terminalize) h
  | inl trusted ↦
      rw (trusted, terminalize)
        (then_send-Closed (send (rejection_receipt now i) (io 1) s)
          (λ t. then_send (send (rejection_result i) (io 2) t) (λ u. (true, u)))
          (send-Closed (rejection_receipt now i) (io 1) s h)
          (λ t u.
            then_send-Closed (send (rejection_result i) (io 2) t) (λ x. (true, x))
              (send-Closed (rejection_result i) (io 2) t u) (λ x y. y)))
]

reject_invalid_job-Closed :
    (raw : RawJob) (now : ℕ) (io : ℕ → Io) (s : Stream)
    → Closed s
    → Closed (reject_invalid_job raw now io s).1
unfolding reject_invalid_job
reject_invalid_job-Closed raw now io s h =
    let i = raw_job_identity raw in
    elim (Bool-cases (is_trusted i && contains i.corr (result_corrs s.live))) [
      | inl ended ↦
          rw (ended, reject_invalid_job)
            (then_send-Closed (send (rejection_receipt now i) (io 0) s) (λ t. (true, t))
              (send-Closed (rejection_receipt now i) (io 0) s h) (λ t u. u))
      | inr open_yet ↦
          rw (open_yet, reject_invalid_job)
            (then_send-Closed (send (rejection_event i) (io 0) s) (terminalize i now io)
              (send-Closed (rejection_event i) (io 0) s h) (λ t u. terminalize-Closed i now io t u))
    ]

conclude-Closed : (a : Accepted) (r : Ended ℕ × Stream) → Closed r.1 → Closed (conclude a r).1
conclude-Closed a (returned n, s) h = h
conclude-Closed a (raised e, s) h = h
conclude-Closed a (protocol_error, s) h = h

emit-Closed :
    (ack : Bool) (d : Delivery) (a : Accepted) (io : Io) (s : Stream)
    → Closed s
    → Closed (emit ack d a io s).1
emit-Closed false d a io s h = h
emit-Closed true d a io s h = conclude-Closed a _ (send-Closed (receipt_of d) io s h)

fail-Closed : (c : Cause) (b : Bool) (s : Stream) → Closed s → Closed (fail c b s).1
fail-Closed c b s h = latch-Closed (unhealthy c) b s h

restore_delivery-Closed :
    (id : String) (p : Option Delivery) (d : Delivery) (s : Stream)
    → Closed s
    → Closed (restore_delivery id p d s)
unfolding is_closed
restore_delivery-Closed id none d s h = h
restore_delivery-Closed id (some p) d s h = h

accept_replay-Closed :
    (held : Job) (f : StreamJob) (d : Delivery) (ack writes : Bool) (io : Io) (s : Stream)
    → Closed s
    → Closed (accept_replay held f d ack writes io s).1
unfolding accept_replay is_closed
accept_replay-Closed held f d ack writes io s h =
    let id = f.delivery_id in
    elim (Bool-cases (same_job held f.job)) [
      | inr other ↦ rw (other, accept_replay) (fail-Closed reused_delivery false s h)
      | inl same ↦ elim (Bool-cases (changed_attempts (lookup id s.live.deliveries) f.attempt_id)) [
        | inl changed ↦ rw (same, changed, accept_replay) (fail-Closed changed_attempt false s h)
        | inr again ↦ elim (Option-cases (persist writes (set_delivery id d s))) [
          | inl missed ↦
              rw (same, again, missed, accept_replay)
                (fail-Closed replay_failed true _
                  (restore_delivery-Closed id (lookup id s.live.deliveries) d s h))
          | inr (t, wrote) ↦
              rw (same, again, wrote, accept_replay)
                (emit-Closed ack d replayed_receipt io t (persist-Closed writes _ wrote h))
        ]
      ]
    ]

make_claimable-Closed :
    (id : String) (r : Ended Accepted × Stream) → Closed r.1 → Closed (make_claimable id r).1
unfolding is_closed
make_claimable-Closed id (r, s) h = h

store_new-Closed :
    (f : StreamJob) (d : Delivery) (ack writes : Bool) (io : Io) (s : Stream)
    → Closed s
    → Closed (store_new f d ack writes io s).1
unfolding store_new is_closed
store_new-Closed f d ack writes io s h = elim (Option-cases (persist writes (stored f d s))) [
  | inl missed ↦
      rw (missed, store_new) (fail-Closed inbox_failed true (unstored f (stored f d s)) h)
  | inr (t, wrote) ↦
      rw (wrote, store_new)
        (make_claimable-Closed f.delivery_id (emit ack d queued io t)
          (emit-Closed ack d queued io t (persist-Closed writes _ wrote h)))
]

-- A verdict refuses the job before anything changes.
accept_new-Closed :
    (f : StreamJob) (d : Delivery) (ack writes : Bool) (io : Io) (s : Stream)
    → Closed s
    → Closed (accept_new f d ack writes io s).1
unfolding accept_new
accept_new-Closed f d ack writes io s h = elim (Option-cases s.admission_error) [
  | inl healthy ↦ rw (healthy, accept_new) (store_new-Closed f d ack writes io s h)
  | inr (e, latched) ↦ elim (Bool-cases (is_pending e)) [
    | inl p ↦ rw (latched, p, accept_new) (store_new-Closed f d ack writes io s h)
    | inr n ↦ rw (latched, n, accept_new) h
  ]
]

accept_valid-Closed :
    (f : StreamJob) (now : ℕ) (ack writes : Bool) (io : Io) (s : Stream)
    → Closed s
    → Closed (accept_valid f now ack writes io s).1
unfolding accept_valid
accept_valid-Closed f now ack writes io s h =
    let d = delivery_of f now in
    elim (Bool-cases (contains f.delivery_id (result_corrs s.live))) [
      | inl ended ↦ rw (ended, accept_valid) (emit-Closed ack d deduplicated io s h)
      | inr open_yet ↦ elim (Option-cases (lookup f.delivery_id s.live.inbox)) [
        | inl unknown ↦
            rw (open_yet, unknown, accept_valid) (accept_new-Closed f d ack writes io s h)
        | inr (j, held) ↦
            rw (open_yet, held, accept_valid) (accept_replay-Closed j f d ack writes io s h)
      ]
    ]

accept_invalid-Closed :
    (raw : RawJob) (now : ℕ) (io : ℕ → Io) (s : Stream)
    → Closed s
    → Closed (accept_invalid raw now io s).1
unfolding accept_invalid
accept_invalid-Closed raw now io s h =
    let t = reject_invalid_job raw now io s in
    elim (Bool-cases t.0) [
      | inl ended ↦ rw (ended, accept_invalid) (reject_invalid_job-Closed raw now io s h)
      | inr open_yet ↦
          rw (open_yet, accept_invalid)
            (fail-Closed invalid_job false t.1 (reject_invalid_job-Closed raw now io s h))
    ]

accept_job-Closed :
    (raw : RawJob) (parsed : Option StreamJob) (now : ℕ) (ack writes : Bool) (io : ℕ → Io)
    (s : Stream)
    → Closed s
    → Closed (accept_job raw parsed now ack writes io s).1
unfolding accept_job
accept_job-Closed raw none now ack writes io s h = accept_invalid-Closed raw now io s h
accept_job-Closed raw (some f) now ack writes io s h = elim (Bool-cases (is_valid_stream_job f)) [
  | inl ok ↦ rw (ok, accept_job) (accept_valid-Closed f now ack writes (io 0) s h)
  | inr bad ↦ rw (bad, accept_job) (accept_invalid-Closed raw now io s h)
]

set_bootstrap_event-Closed : (e : Event) (s : Stream) → Closed s → Closed (set_bootstrap_event e s)
unfolding set_bootstrap_event is_closed
set_bootstrap_event-Closed e s h = elim (Bool-cases (is_valid_event e)) [
  | inl fine ↦ rw (fine, set_bootstrap_event) h
  | inr bad ↦ rw (bad, set_bootstrap_event) h
]

Step-Closed : {s t : Stream} → Step s t → Closed s → Closed t
unfolding interrupt_claim is_closed
Step-Closed {s} (appends body wait probe writes) h = append-Closed body wait probe writes s h
Step-Closed {s} (announces e writes) h = announce_ready-Closed e writes s h
Step-Closed {s} (settles f d ack writes releases c) h = settle-Closed f d ack writes releases s h
Step-Closed {s} (accepts raw parsed now ack writes io) h =
    accept_job-Closed raw parsed now ack writes io s h
Step-Closed {s} (claims opened) h = claim-Closed opened s h
Step-Closed {s} interrupts h = h
Step-Closed {s} (sets_bootstrap e) h = set_bootstrap_event-Closed e s h
Step-Closed {s} (opens close replays reports) h = opened_socket-Closed close replays reports s h

Run-Closed : {s t : Stream} → Closed s → Run s t → Closed t
Run-Closed h begins = h
Run-Closed h (runs r a) = Step-Closed a (Run-Closed h r)

claim_under-refuses :
    (latched : Option Unhealthy) (opened : Bool) (s : Stream)
    → is_verdict latched ≡ true
    → (e : Unhealthy) × (is_pending e ≡ false) × (claim_under latched opened s ≡ (refused e, s))
unfolding claim_under
claim_under-refuses (some e) opened s h = (e, ground arith, refl)
claim_under-refuses none opened s h = absurd (true≢false (sym h))

-- Once a verdict has closed the admission, every claim that the process makes afterwards is
-- refused with a verdict and changes nothing, whatever happens in between: receipts, ACKs, new
-- jobs, new sockets, durable writes that fail and the recovery of the disk.
pub refused_until_restart :
    (s t : Stream) (opened : Bool)
    → Closed s
    → Run s t
    → (e : Unhealthy) × (is_pending e ≡ false) × (claim opened t ≡ (refused e, t))
unfolding claim is_closed
refused_until_restart s t opened h r =
    let k : Closed t = Run-Closed h r in
    claim_under-refuses t.admission_error opened t (ground (arith, k))
