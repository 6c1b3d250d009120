-- ===== src/EventStream/KeepConnection.antt =====
-- Claims and new sockets keep the invariant.
use Prim.Native.String.{String}
use monty_pod.Common.{
  Bool, Bool-cases, List, Option, [], false, inl, inr, lookup, none, refl, some, string_eq, true, ℕ,
  ◌∷◌,
}
use monty_pod.EventStream.State.{
  Ended, JobItem, Stream, Unhealthy, admission_wake, claim_interrupt, delivery_pending,
  protocol_error, queued_delivery, raised, returned,
}
use monty_pod.EventStream.Append.{append_bootstrap_head}
use monty_pod.EventStream.Settle.{reopen_admission}
use monty_pod.EventStream.Connection.{
  Claimed, boots, claim, claim_under, hand_out, has_event, install_bootstrap, install_event,
  install_reopen_report, note_reopen, opened_socket, reopen_event, take_job,
}
use monty_pod.EventStream.Invariant.{IsValid}
use monty_pod.EventStream.Keep.{Same, Same-IsValid, latch-Same}
use monty_pod.EventStream.KeepAppend.{append_bootstrap_head-IsValid, note_bootstrap-IsValid}
use monty_pod.StreamModels.{Event, Job}
use monty_pod.EventStream.KeepRelease.{reopen_admission-Same}

hand_out-Same :
    (j : Option Job) (id : String) (rest : List JobItem) (s : Stream) (on : Claimed × Stream)
    → Same s on.1
    → Same s (hand_out j id rest s on).1
hand_out-Same none id rest s on h = h
hand_out-Same (some j) id rest s on h = record {
  same_live = refl;
  same_disk = refl;
  same_id = refl;
  same_seq = refl;
}

take_job-Same :
    (latched : Option Unhealthy) (items : List JobItem) (s : Stream)
    → Same s (take_job latched items s).1
unfolding take_job
take_job-Same latched [] s = record {
  same_live = refl;
  same_disk = refl;
  same_id = refl;
  same_seq = refl;
}
take_job-Same latched (claim_interrupt ∷ rest) s = record {
  same_live = refl;
  same_disk = refl;
  same_id = refl;
  same_seq = refl;
}
take_job-Same none (admission_wake ∷ rest) s = take_job-Same none rest s
take_job-Same (some e) (admission_wake ∷ rest) s = record {
  same_live = refl;
  same_disk = refl;
  same_id = refl;
  same_seq = refl;
}
take_job-Same none (queued_delivery id ∷ rest) s =
    hand_out-Same (lookup id s.live.inbox) id rest s _ (take_job-Same none rest s)
take_job-Same (some e) (queued_delivery id ∷ rest) s = record {
  same_live = refl;
  same_disk = refl;
  same_id = refl;
  same_seq = refl;
}

claim_under-Same :
    (latched : Option Unhealthy) (opened : Bool) (s : Stream)
    → Same s (claim_under latched opened s).1
unfolding claim_under
claim_under-Same (some e) opened s = record {
  same_live = refl;
  same_disk = refl;
  same_id = refl;
  same_seq = refl;
}
claim_under-Same none true s = take_job-Same none s.jobs s
claim_under-Same none false s = latch-Same delivery_pending false s

pub claim-Same : (opened : Bool) (s : Stream) → Same s (claim opened s).1
unfolding claim
claim-Same opened s = claim_under-Same s.admission_error opened s

boots-IsValid : (r : Ended ℕ × Stream) → IsValid r.1 → IsValid (boots r).1
boots-IsValid (returned n, s) v = v
boots-IsValid (raised u, s) v = v
boots-IsValid (protocol_error, s) v = v

note_reopen-IsValid : (r : Ended ℕ × Stream) → IsValid r.1 → IsValid (note_reopen r)
note_reopen-IsValid (returned n, s) v =
    Same-IsValid (record { same_live = refl; same_disk = refl; same_id = refl; same_seq = refl }) v
note_reopen-IsValid (raised u, s) v = v
note_reopen-IsValid (protocol_error, s) v = v

install_event-IsValid :
    (e : Option Event) (writes : Bool) (s : Stream)
    → IsValid s
    → IsValid (install_event e writes s).1
install_event-IsValid none writes s v = v
install_event-IsValid (some e) writes s v = elim (Bool-cases (has_event e s.live.frames)) [
  | inl waiting_already ↦ rw waiting_already v
  | inr missing_event ↦ rw missing_event (
      boots-IsValid _ (note_bootstrap-IsValid _ (append_bootstrap_head-IsValid s e false writes v)))
]

install_bootstrap-IsValid :
    (writes : Bool) (s : Stream) → IsValid s → IsValid (install_bootstrap writes s).1
unfolding install_bootstrap
install_bootstrap-IsValid writes s v = install_event-IsValid s.bootstrap_event writes s v

install_reopen_report-IsValid :
    (close : Option String) (writes : Bool) (s : Stream)
    → IsValid s
    → IsValid (install_reopen_report close writes s)
unfolding install_reopen_report
install_reopen_report-IsValid none writes s v = v
install_reopen_report-IsValid (some close) writes s v =
    note_reopen-IsValid (append_bootstrap_head (reopen_event close) false writes s)
      (append_bootstrap_head-IsValid s (reopen_event close) false writes v)

pub opened_socket-IsValid :
    (close : Option String) (starts reports : Bool) (s : Stream)
    → IsValid s
    → IsValid (opened_socket close starts reports s).1
unfolding opened_socket
opened_socket-IsValid close starts reports s v =
    let t = install_bootstrap starts (reopen_admission s) in
    let kept = install_bootstrap-IsValid starts _ (Same-IsValid (reopen_admission-Same s) v) in
    elim (Bool-cases t.0) [
      | inl ready ↦ rw (ready, opened_socket) (install_reopen_report-IsValid close reports t.1 kept)
      | inr closed ↦ rw (closed, opened_socket) kept
    ]
