-- ===== src/EventStream/KeepIntake.antt =====
-- The intake of jobs keeps the invariant.
use monty_pod.Common.{
  Bool, Bool-cases, List, Option, Option-cases, String, contains, false, inl, inr, lookup, none,
  refl, some, string_eq, true, ℕ, ◌&&◌, ◌≡◌,
}
use monty_pod.EventStream.Frame.{Body}
use monty_pod.EventStream.State.{
  Cause, Delivery, Ended, Stream, changed_attempt, inbox_failed, invalid_job, is_pending, persist,
  protocol_error, raised, replay_failed, result_corrs, returned, reused_delivery, unhealthy,
}
use monty_pod.EventStream.Intake.{
  Accepted, Identity, Io, RawJob, accept_invalid, accept_job, accept_new, accept_replay,
  accept_valid, changed_attempts, conclude, deduplicated, delivery_of, emit, fail, is_trusted,
  queued, raw_job_identity, receipt_of, reject_invalid_job, rejection_event, rejection_receipt,
  rejection_result, replayed_receipt, restore_delivery, same_job, send, set_delivery, store_new,
  stored, terminalize, then_send,
}
use monty_pod.EventStream.Invariant.{IsValid, Sound}
use monty_pod.EventStream.KeepAppend.{append-IsValid}
use monty_pod.StreamModels.{Job, StreamJob, is_valid_stream_job}
use monty_pod.EventStream.Sound.{
  entered, entered-Sound, erased, erased-Sound, replayed-Sound, restored_delivery-Sound,
}
use monty_pod.EventStream.Keep.{Same-IsValid, latch-Same, persist-IsValid}

emit-IsValid :
    (ack : Bool) (d : Delivery) (a : Accepted) (io : Io) (s : Stream)
    → IsValid s
    → IsValid (emit ack d a io s).1
emit-IsValid false d a io s v = v
emit-IsValid true d a io s v =
    conclude-IsValid a (send (receipt_of d) io s)
      (append-IsValid (receipt_of d) false io.0 io.1 s v)
  where
    conclude-IsValid :
        (a : Accepted) (r : Ended ℕ × Stream) → IsValid r.1 → IsValid (conclude a r).1
    conclude-IsValid a (returned n, t) v = v
    conclude-IsValid a (raised e, t) v = v
    conclude-IsValid a (protocol_error, t) v = v

then_send-IsValid :
    (r : Ended ℕ × Stream) (k : Stream → Bool × Stream)
    → IsValid r.1
    → ((t : Stream) → IsValid t → IsValid (k t).1)
    → IsValid (then_send r k).1
then_send-IsValid (returned n, s) k v keep = keep s v
then_send-IsValid (raised e, s) k v keep = v
then_send-IsValid (protocol_error, s) k v keep = v

send-IsValid : (b : Body) (io : Io) (s : Stream) → IsValid s → IsValid (send b io s).1
send-IsValid b (probe, writes) s v = append-IsValid b false probe writes s v

terminalize-IsValid :
    (i : Identity) (now : ℕ) (io : ℕ → Io) (s : Stream)
    → IsValid s
    → IsValid (terminalize i now io s).1
unfolding terminalize
terminalize-IsValid i now io s v = elim (Bool-cases (is_trusted i)) [
  | inr unknown ↦ rw (unknown, terminalize) v
  | inl trusted ↦
      rw (trusted, terminalize)
        (then_send-IsValid (send (rejection_receipt now i) (io 1) s)
          (λ t. then_send (send (rejection_result i) (io 2) t) (λ u. (true, u)))
          (send-IsValid (rejection_receipt now i) (io 1) s v)
          (λ t u.
            then_send-IsValid (send (rejection_result i) (io 2) t) (λ x. (true, x))
              (send-IsValid (rejection_result i) (io 2) t u) (λ x y. y)))
]

reject_invalid_job-IsValid :
    (raw : RawJob) (now : ℕ) (io : ℕ → Io) (s : Stream)
    → IsValid s
    → IsValid (reject_invalid_job raw now io s).1
unfolding reject_invalid_job
reject_invalid_job-IsValid raw now io s v =
    let i = raw_job_identity raw in
    elim (Bool-cases (is_trusted i && contains i.corr (result_corrs s.live))) [
      | inl settled ↦
          rw (settled, reject_invalid_job)
            (then_send-IsValid (send (rejection_receipt now i) (io 0) s) (λ t. (true, t))
              (send-IsValid (rejection_receipt now i) (io 0) s v) (λ t u. u))
      | inr open_corr ↦
          rw (open_corr, reject_invalid_job)
            (then_send-IsValid (send (rejection_event i) (io 0) s) (terminalize i now io)
              (send-IsValid (rejection_event i) (io 0) s v) (terminalize-IsValid i now io))
    ]

fail-IsValid : (c : Cause) (b : Bool) (s : Stream) → IsValid s → IsValid (fail c b s).1
fail-IsValid c b s v = Same-IsValid (latch-Same (unhealthy c) b s) v

-- Another list of deliveries or jobs in memory, where the frames stay.
with_live :
    (s : Stream) (inbox : List (String × Job)) (deliveries : List (String × Delivery))
    → Sound (record (s.live) { inbox = inbox; deliveries = deliveries })
    → IsValid s
    → IsValid (record s { live = record (s.live) { inbox = inbox; deliveries = deliveries } })
with_live s inbox deliveries h v = record {
  live_sound = h;
  disk_sound = v.disk_sound;
  saved_frames = v.saved_frames;
  saved_rejected = v.saved_rejected;
  earlier = v.earlier;
  own_id = v.own_id;
  numbered = v.numbered;
}

restore_delivery-IsValid :
    (f : StreamJob) (now : ℕ) (p : Option Delivery) (s : Stream) {held : Job}
    → is_valid_stream_job f ≡ true
    → lookup f.delivery_id s.live.inbox ≡ some held
    → lookup f.delivery_id s.live.deliveries ≡ p
    → IsValid s
    → IsValid (restore_delivery f.delivery_id p (delivery_of f now) s)
restore_delivery-IsValid f now none s ok h e v =
    with_live s _ _ (replayed-Sound f now s.live ok h v.live_sound) v
restore_delivery-IsValid f now (some old) s ok h e v =
    with_live s _ _
      (restored_delivery-Sound f.delivery_id (delivery_of f now) old s.live e h v.live_sound) v

accept_replay-IsValid :
    (held : Job) (f : StreamJob) (now : ℕ) (ack writes : Bool) (io : Io) (s : Stream)
    → is_valid_stream_job f ≡ true
    → lookup f.delivery_id s.live.inbox ≡ some held
    → IsValid s
    → IsValid (accept_replay held f (delivery_of f now) ack writes io s).1
unfolding accept_replay
accept_replay-IsValid held f now ack writes io s ok h v =
    let d = delivery_of f now in
    let previous = lookup f.delivery_id s.live.deliveries in
    elim (Bool-cases (same_job held f.job)) [
      | inr differs ↦ rw (differs, accept_replay) (fail-IsValid reused_delivery false s v)
      | inl same ↦ elim (Bool-cases (changed_attempts previous f.attempt_id)) [
        | inl changed ↦ rw (same, changed, accept_replay) (fail-IsValid changed_attempt false s v)
        | inr kept ↦ elim (Option-cases (persist writes (set_delivery f.delivery_id d s))) [
          | inl missed ↦
              rw (same, kept, missed, accept_replay)
                (fail-IsValid replay_failed true _
                  (restore_delivery-IsValid f now previous s ok h refl v))
          | inr (t, wrote) ↦
              rw (same, kept, wrote, accept_replay)
                (emit-IsValid ack d replayed_receipt io t (
                  persist-IsValid writes _ wrote (record {
                    ready_sound = replayed-Sound f now s.live ok h v.live_sound;
                    ready_earlier = v.earlier;
                    ready_id = v.own_id;
                    ready_seq = v.numbered;
                  })))
        ]
      ]
    ]

stored-Sound :
    (f : StreamJob) (now : ℕ) (s : Stream)
    → is_valid_stream_job f ≡ true
    → contains f.delivery_id (result_corrs s.live) ≡ false
    → lookup f.delivery_id s.live.inbox ≡ none
    → IsValid s
    → Sound (stored f (delivery_of f now) s).live
unfolding entered
stored-Sound f now s ok new_corr absent v =
    entered-Sound f.delivery_id s.live f.job (delivery_of f now) ok new_corr absent v.live_sound

store_new-IsValid :
    (f : StreamJob) (now : ℕ) (ack writes : Bool) (io : Io) (s : Stream)
    → is_valid_stream_job f ≡ true
    → contains f.delivery_id (result_corrs s.live) ≡ false
    → lookup f.delivery_id s.live.inbox ≡ none
    → IsValid s
    → IsValid (store_new f (delivery_of f now) ack writes io s).1
unfolding store_new erased
store_new-IsValid f now ack writes io s ok new_corr absent v =
    let d = delivery_of f now in
    let sound = stored-Sound f now s ok new_corr absent v in
    elim (Option-cases (persist writes (stored f d s))) [
      | inl missed ↦
          rw (missed, store_new)
            (fail-IsValid inbox_failed true _
              (with_live s _ _ (erased-Sound f.delivery_id (stored f d s).live sound) v))
      | inr (t, wrote) ↦
          rw (wrote, store_new)
            (Same-IsValid
              (record { same_live = refl; same_disk = refl; same_id = refl; same_seq = refl })
              (emit-IsValid ack d queued io t (
                persist-IsValid writes _ wrote (record {
                  ready_sound = sound;
                  ready_earlier = v.earlier;
                  ready_id = v.own_id;
                  ready_seq = v.numbered;
                }))))
    ]

accept_new-IsValid :
    (f : StreamJob) (now : ℕ) (ack writes : Bool) (io : Io) (s : Stream)
    → is_valid_stream_job f ≡ true
    → contains f.delivery_id (result_corrs s.live) ≡ false
    → lookup f.delivery_id s.live.inbox ≡ none
    → IsValid s
    → IsValid (accept_new f (delivery_of f now) ack writes io s).1
unfolding accept_new
accept_new-IsValid f now ack writes io s ok new_corr absent v =
    let keep = store_new-IsValid f now ack writes io s ok new_corr absent v in
    elim (Option-cases s.admission_error) [
      | inl healthy ↦ rw (healthy, accept_new) keep
      | inr (e, latched) ↦ elim (Bool-cases (is_pending e)) [
        | inl waits ↦ rw (latched, waits, accept_new) keep
        | inr verdict ↦ rw (latched, verdict, accept_new) v
      ]
    ]

accept_valid-IsValid :
    (f : StreamJob) (now : ℕ) (ack writes : Bool) (io : Io) (s : Stream)
    → is_valid_stream_job f ≡ true
    → IsValid s
    → IsValid (accept_valid f now ack writes io s).1
unfolding accept_valid
accept_valid-IsValid f now ack writes io s ok v =
    let d = delivery_of f now in
    elim (Bool-cases (contains f.delivery_id (result_corrs s.live))) [
      | inl completed ↦ rw (completed, accept_valid) (emit-IsValid ack d deduplicated io s v)
      | inr new_corr ↦ elim (Option-cases (lookup f.delivery_id s.live.inbox)) [
        | inl absent ↦
            rw (new_corr, absent, accept_valid)
              (accept_new-IsValid f now ack writes io s ok new_corr absent v)
        | inr (held, found) ↦
            rw (new_corr, found, accept_valid)
              (accept_replay-IsValid held f now ack writes io s ok found v)
      ]
    ]

accept_invalid-IsValid :
    (raw : RawJob) (now : ℕ) (io : ℕ → Io) (s : Stream)
    → IsValid s
    → IsValid (accept_invalid raw now io s).1
unfolding accept_invalid
accept_invalid-IsValid raw now io s v =
    let r = reject_invalid_job raw now io s in
    let kept = reject_invalid_job-IsValid raw now io s v in
    elim (Bool-cases r.0) [
      | inl settled ↦ rw (settled, accept_invalid) kept
      | inr unsettled ↦ rw (unsettled, accept_invalid) (fail-IsValid invalid_job false r.1 kept)
    ]

pub accept_job-IsValid :
    (raw : RawJob) (parsed : Option StreamJob) (now : ℕ) (ack writes : Bool) (io : ℕ → Io)
    (s : Stream)
    → IsValid s
    → IsValid (accept_job raw parsed now ack writes io s).1
unfolding accept_job
accept_job-IsValid raw none now ack writes io s v = accept_invalid-IsValid raw now io s v
accept_job-IsValid raw (some f) now ack writes io s v = elim (Bool-cases (is_valid_stream_job f)) [
  | inl ok ↦ rw (ok, accept_job) (accept_valid-IsValid f now ack writes (io 0) s ok v)
  | inr bad ↦ rw (bad, accept_job) (accept_invalid-IsValid raw now io s v)
]
