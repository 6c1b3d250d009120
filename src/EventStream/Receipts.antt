-- ===== src/EventStream/Receipts.antt =====
-- Jobs in: a job is durable and receipted before it can be claimed, and comes once.
use Prim.Native.String.{String}
use monty_pod.Common.{
  Bool, [], ap, arith, contains, eq_iff, false, insert, lookup, none, refl, some, string_eq, true,
  ℕ, ◌++◌, ◌∷◌, ◌≡◌,
}
use monty_pod.StreamModels.{StreamJob, is_valid_receipt, is_valid_stream_job}
use monty_pod.EventStream.State.{
  Delivery, Stream, clear_storage, persist, queued_delivery, result_corrs, returned,
}
use monty_pod.EventStream.Intake.{
  Io, RawJob, accept_job, accept_new, accept_valid, conclude, deduplicated, delivery_of,
  make_claimable, queued, receipt_of, send, store_new, stored,
}
use monty_pod.EventStream.Invariant.{IsValid}
use monty_pod.EventStream.Closed.{is_verdict}
use monty_pod.EventStream.Frame.{Frame, is_client_frame, is_valid_payload}
use monty_pod.EventStream.Append.{append, append_probed, appended, finish_append}

receipt-is_valid :
    (f : StreamJob) (now : ℕ)
    → is_valid_stream_job f ≡ true
    → is_valid_payload (receipt_of (delivery_of f now)) ≡ true
unfolding is_valid_payload is_valid_receipt is_valid_stream_job
receipt-is_valid f now ok = ground (arith, eq_iff f.delivery_id f.delivery_id)

abbrev pub receipt_frame : StreamJob → ℕ → Stream → Frame
receipt_frame f now s = record {
  stream_id = s.stream_id;
  seq = s.next_seq;
  body = receipt_of (delivery_of f now);
}

receipt-is_client_frame :
    (f : StreamJob) (now : ℕ) (s : Stream)
    → is_valid_stream_job f ≡ true
    → IsValid s
    → is_client_frame (receipt_frame f now s) ≡ true
unfolding is_client_frame
receipt-is_client_frame f now s ok v =
    let payload = receipt-is_valid f now ok in
    let own = v.own_id in let numbered = v.numbered in ground (arith, payload, own, numbered)

clear_storage-healthy : (s : Stream) → s.storage_error ≡ none → clear_storage s ≡ s
unfolding clear_storage
clear_storage-healthy s healthy = ground arith

persist-healthy :
    (s : Stream) → s.storage_error ≡ none → persist true s ≡ some (record s { disk = s.live })
unfolding persist
persist-healthy s healthy = ap some (clear_storage-healthy (record s { disk = s.live }) healthy)

-- The stream after a durable append.
abbrev written_append : Frame → Stream → Stream
written_append f s = record (appended f s) { disk = (appended f s).live }

append_probed-healthy :
    (f : StreamJob) (now : ℕ) (s : Stream)
    → s.storage_error ≡ none
    → is_client_frame (receipt_frame f now s) ≡ true
    → append_probed (receipt_of (delivery_of f now)) false true s ≡ (
      returned s.next_seq,
      finish_append false (receipt_frame f now s) (written_append (receipt_frame f now s) s),
    )
unfolding append_probed appended
append_probed-healthy f now s healthy client =
    let e = persist-healthy (appended (receipt_frame f now s) s) healthy in
    rw (client, e, append_probed)

-- With a healthy disk, a receipt is appended to the outbox in memory and on disk.
send-receipt :
    (f : StreamJob) (now : ℕ) (s : Stream)
    → s.storage_error ≡ none
    → is_valid_payload (receipt_of (delivery_of f now)) ≡ true
    → is_client_frame (receipt_frame f now s) ≡ true
    → send (receipt_of (delivery_of f now)) (true, true) s ≡ (
      returned s.next_seq,
      finish_append false (receipt_frame f now s) (written_append (receipt_frame f now s) s),
    )
unfolding append
send-receipt f now s healthy fine client =
    let e = append_probed-healthy f now s healthy client in ground (arith, e)

accept_new-open :
    (f : StreamJob) (d : Delivery) (ack writes : Bool) (io : Io) (s : Stream)
    → is_verdict s.admission_error ≡ false
    → accept_new f d ack writes io s ≡ store_new f d ack writes io s
unfolding accept_new
accept_new-open f d ack writes io s h = ground arith

module _ (f : StreamJob) (s : Stream) (ok : is_valid_stream_job f ≡ true)
    (fresh : contains f.delivery_id (result_corrs s.live) ≡ false)
    (unknown : lookup f.delivery_id s.live.inbox ≡ none)
    (open_yet : is_verdict s.admission_error ≡ false) where
  accept_job-new :
      (raw : RawJob) (now : ℕ) (ack writes : Bool) (io : ℕ → Io)
      → accept_job raw (some f) now ack writes io s
        ≡ store_new f (delivery_of f now) ack writes (io 0) s
  unfolding accept_job accept_valid
  accept_job-new raw now ack writes io =
      let rest = accept_new-open f (delivery_of f now) ack writes (io 0) s open_yet in
      ground (arith, rest)

  -- The stream whose disk holds the job.
  abbrev stored_durably : ℕ → Stream
  stored_durably now = record (stored f (delivery_of f now) s) {
    disk = (stored f (delivery_of f now) s).live;
  }

  store_new-healthy :
      (now : ℕ)
      → IsValid s
      → s.storage_error ≡ none
      → store_new f (delivery_of f now) true true (true, true) s
        ≡ make_claimable f.delivery_id (
          returned queued,
          finish_append false
              (receipt_frame f now s)
              (written_append (receipt_frame f now s) (stored_durably now)),
        )
  unfolding store_new
  store_new-healthy now v healthy =
      let e = persist-healthy (stored f (delivery_of f now) s) healthy in
      let sent =
        send-receipt f now (stored_durably now) healthy (receipt-is_valid f now ok)
          (receipt-is_client_frame f now s ok v) in
      rw (e, store_new) (ap (λ r. make_claimable f.delivery_id (conclude queued r)) sent)

  -- In a state that keeps the invariant, a valid delivery that the pod does not know, while no
  -- verdict is latched, the disk is healthy and every write succeeds: the job and its delivery are
  -- on disk, its receipt is the last frame of the durable outbox, and the job is on the queue of
  -- claims.
  pub new_job_is_durable_then_claimable :
      (raw : RawJob) (now : ℕ)
      → IsValid s
      → s.storage_error ≡ none
      → let r = accept_job raw (some f) now true true (λ n. (true, true)) s in
        (r.0 ≡ returned queued)
        × (r.1.live ≡ record (s.live) {
          frames = s.live.frames ++ receipt_frame f now s ∷ [];
          inbox = insert f.delivery_id f.job s.live.inbox;
          deliveries = insert f.delivery_id (delivery_of f now) s.live.deliveries;
        })
        × (r.1.disk ≡ r.1.live)
        × (r.1.jobs ≡ s.jobs ++ queued_delivery f.delivery_id ∷ [])
  unfolding finish_append appended
  new_job_is_durable_then_claimable raw now v healthy =
      rw (accept_job-new raw now true true (λ n. (true, true)), store_new-healthy now v healthy)
        (refl, refl, refl, refl)

-- In a state that keeps the invariant, a valid delivery whose result is in the outbox or in the
-- dead letter, with a healthy disk and writes that succeed: it is receipted again, and neither
-- stored nor queued.
finished_job_is_not_queued :
    (raw : RawJob) (f : StreamJob) (now : ℕ) (writes : Bool) (s : Stream)
    → IsValid s
    → is_valid_stream_job f ≡ true
    → contains f.delivery_id (result_corrs s.live) ≡ true
    → s.storage_error ≡ none
    → let r = accept_job raw (some f) now true writes (λ n. (true, true)) s in
      (r.0 ≡ returned deduplicated)
      × (r.1.live ≡ record (s.live) { frames = s.live.frames ++ receipt_frame f now s ∷ [] })
      × (r.1.disk ≡ r.1.live)
      × (r.1.jobs ≡ s.jobs)
unfolding accept_job accept_valid finish_append appended
finished_job_is_not_queued raw f now writes s v ok ended healthy =
    let sent =
      send-receipt f now s healthy (receipt-is_valid f now ok)
        (receipt-is_client_frame f now s ok v) in
    rw (ok, ended, accept_job, accept_valid, sent) (refl, refl, refl, refl)
