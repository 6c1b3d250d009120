-- ===== src/EventStream/ClosedSteps.antt =====
-- Settlements, jobs, claims and new sockets do not open a closed admission.
use Prim.Native.String.{String}
use monty_pod.Common.{
  Bool, Bool-cases, List, Option, Option-cases, [], contains, false, inl, inr, is_some, lookup,
  none, not, pair_eq, some, str_eq, string_eq, true, ℕ, ◌&&◌, ◌||◌, ◌∷◌,
}
use monty_pod.StreamModels.{Event, Job}
use monty_pod.EventStream.Frame.{
  Body, Frame, Key, Verdict, event, frame_key, is_reopen_report, job_ack, not_owned, result,
}
use monty_pod.EventStream.State.{
  Ended, JobItem, Stream, Unhealthy, admission_wake, claim_interrupt, delivery_pending,
  frame_rejected, persist, protocol_error, queued_delivery, raised, returned,
}
use monty_pod.EventStream.Settle.{
  Disposition, abandoned, accepted, after_verdict, buried, dropped, forget_attempts, forget_pending,
  is_accepted, is_head, lost, or_else, or_raise, pending, rejected, release_reassigned,
  reopen_admission, retired, settle, settle_accepted, settle_by, settle_refused,
  settle_reopen_report,
}
use monty_pod.EventStream.Connection.{
  Claimed, boots, claim, claim_under, hand_out, has_event, install_bootstrap, install_event,
  install_reopen_report, note_reopen, opened_socket, reopen_event, take_job,
}
use monty_pod.EventStream.Closed.{
  Closed, append_bootstrap_head-Closed, is_closed, latch-Closed, note_bootstrap-Closed,
  persist-Closed, reopen_admission-Closed, wake-Closed,
}

or_raise-Closed :
    (writes : Bool) (moved s : Stream) (after : Stream → Stream)
    → Closed s
    → Closed moved
    → ((t : Stream) → Closed t → Closed (after t))
    → Closed (or_raise (persist writes moved) s after).1
or_raise-Closed writes moved s after h m keep = elim (Option-cases (persist writes moved)) [
  | inl missed ↦ rw missed h
  | inr (t, wrote) ↦ rw wrote (keep t (persist-Closed writes moved wrote m))
]

retired-Closed : (b : Body) (s : Stream) → Closed s → Closed (retired b s)
unfolding retired is_closed
retired-Closed (event e) s h = h
retired-Closed (result attempt r) s h = h
retired-Closed (job_ack a) s h = h

dropped-Closed :
    (c : String) (writes : Bool) (s : Stream)
    → Closed s
    → Closed (or_else (persist writes (dropped c s)) (dropped c s))
unfolding is_closed
dropped-Closed c writes s h = elim (Option-cases (persist writes (dropped c s))) [
  | inl missed ↦ rw missed h
  | inr (t, wrote) ↦ rw wrote (persist-Closed writes (dropped c s) wrote h)
]

release_reassigned-Closed :
    (b : Body) (ack : Option Verdict) (writes : Bool) (s : Stream)
    → Closed s
    → Closed (release_reassigned b ack writes s)
unfolding release_reassigned
release_reassigned-Closed (event e) ack writes s h = h
release_reassigned-Closed (result attempt r) ack writes s h = h
release_reassigned-Closed (job_ack a) none writes s h = h
release_reassigned-Closed (job_ack a) (some x) writes s h =
    elim (Bool-cases (
      not (str_eq x.error not_owned)
      || not (is_some (lookup a.corr_id s.live.inbox))
      || contains a.corr_id s.claimed_ids)) [
        | inl stays ↦ rw (stays, release_reassigned) h
        | inr goes ↦ rw (goes, release_reassigned) (dropped-Closed a.corr_id writes s h)
      ]

after_verdict-Closed :
    (d : Disposition) (f : Frame) (ack : Option Verdict) (writes : Bool) (s : Stream)
    → Closed s
    → Closed (after_verdict d f ack writes s)
unfolding after_verdict
after_verdict-Closed rejected f ack writes s h = latch-Closed (frame_rejected f ack) false s h
after_verdict-Closed lost f ack writes s h =
    reopen_admission-Closed _ (release_reassigned-Closed f.body ack writes s h)
after_verdict-Closed accepted f ack writes s h = reopen_admission-Closed s h
after_verdict-Closed abandoned f ack writes s h = reopen_admission-Closed s h
after_verdict-Closed pending f ack writes s h = reopen_admission-Closed s h

forget_attempts-Closed : (k : Key) (s : Stream) → Closed s → Closed (forget_attempts k s)
unfolding is_closed
forget_attempts-Closed k s h = h

settle_refused-Closed :
    (d : Disposition) (f : Frame) (ack : Option Verdict) (writes releases : Bool) (s : Stream)
    → Closed s
    → Closed (settle_refused d f ack writes releases s).1
unfolding settle_refused buried is_closed
settle_refused-Closed d f ack writes releases s h =
    let keep = λ (t : Stream) (u : Closed t).
      wake-Closed (frame_key f) false (some (frame_rejected f ack)) _
        (after_verdict-Closed d f ack releases _ (forget_attempts-Closed (frame_key f) t u)) in
    elim (Bool-cases (is_head (frame_key f) s.live.frames)) [
      | inr behind ↦ rw (behind, settle_refused) (keep s h)
      | inl leads ↦
          rw (leads, settle_refused) (or_raise-Closed writes (buried f ack s) s _ h h keep)
    ]

settle_accepted-Closed :
    (f : Frame) (writes : Bool) (s : Stream) → Closed s → Closed (settle_accepted f writes s).1
unfolding settle_accepted
settle_accepted-Closed f writes s h =
    let keep = λ (t : Stream) (u : Closed t).
      wake-Closed (frame_key f) true none _
        (reopen_admission-Closed _ (forget_attempts-Closed (frame_key f) t u)) in
    elim (Bool-cases (is_head (frame_key f) s.live.frames)) [
      | inr behind ↦ rw (behind, settle_accepted) (keep s h)
      | inl leads ↦
          rw (leads, settle_accepted)
            (or_raise-Closed writes (retired f.body s) s _ h (retired-Closed f.body s h) keep)
    ]

settle_reopen_report-Closed :
    (k : Key) (writes : Bool) (s : Stream) → Closed s → Closed (settle_reopen_report k writes s).1
unfolding settle_reopen_report is_closed
settle_reopen_report-Closed k writes s h = elim (Bool-cases (is_head k s.live.frames)) [
  | inr behind ↦ rw (behind, settle_reopen_report) h
  | inl leads ↦
      rw (leads, settle_reopen_report)
        (or_raise-Closed writes _ s _ h h (λ t u. forget_attempts-Closed k t u))
]

settle_by-Closed :
    (d : Disposition) (f : Frame) (ack : Option Verdict) (writes releases : Bool) (s : Stream)
    → Closed s
    → Closed (settle_by d f ack writes releases s).1
unfolding settle_by
settle_by-Closed accepted f ack writes releases s h = settle_accepted-Closed f writes s h
settle_by-Closed rejected f ack writes releases s h =
    settle_refused-Closed rejected f ack writes releases s h
settle_by-Closed abandoned f ack writes releases s h =
    settle_refused-Closed abandoned f ack writes releases s h
settle_by-Closed lost f ack writes releases s h =
    settle_refused-Closed lost f ack writes releases s h
settle_by-Closed pending f ack writes releases s h =
    wake-Closed (frame_key f) false (some delivery_pending) _
      (latch-Closed delivery_pending false s h)

pub settle-Closed :
    (f : Frame) (d : Disposition) (ack : Option Verdict) (writes releases : Bool) (s : Stream)
    → Closed s
    → Closed (settle f d ack writes releases s).1
unfolding settle is_closed
settle-Closed f d ack writes releases s h =
    elim (Bool-cases (not (is_accepted d) && is_reopen_report f)) [
      | inl report ↦
          rw (report, settle)
            (settle_reopen_report-Closed (frame_key f) writes (forget_pending (frame_key f) s) h)
      | inr other ↦
          rw (other, settle)
            (settle_by-Closed d f ack writes releases (forget_pending (frame_key f) s) h)
    ]

hand_out-Closed :
    (j : Option Job) (id : String) (rest : List JobItem) (s : Stream) (on : Claimed × Stream)
    → Closed s
    → Closed on.1
    → Closed (hand_out j id rest s on).1
unfolding is_closed
hand_out-Closed none id rest s on h k = k
hand_out-Closed (some j) id rest s on h k = h

take_job-Closed :
    (latched : Option Unhealthy) (items : List JobItem) (s : Stream)
    → Closed s
    → Closed (take_job latched items s).1
unfolding take_job is_closed
take_job-Closed latched [] s h = h
take_job-Closed latched (claim_interrupt ∷ rest) s h = h
take_job-Closed none (admission_wake ∷ rest) s h = take_job-Closed none rest s h
take_job-Closed (some e) (admission_wake ∷ rest) s h = h
take_job-Closed none (queued_delivery id ∷ rest) s h =
    hand_out-Closed (lookup id s.live.inbox) id rest s _ h (take_job-Closed none rest s h)
take_job-Closed (some e) (queued_delivery id ∷ rest) s h = h

claim_under-Closed :
    (latched : Option Unhealthy) (opened : Bool) (s : Stream)
    → Closed s
    → Closed (claim_under latched opened s).1
unfolding claim_under
claim_under-Closed (some e) opened s h = h
claim_under-Closed none true s h = take_job-Closed none s.jobs s h
claim_under-Closed none false s h = latch-Closed delivery_pending false s h

pub claim-Closed : (opened : Bool) (s : Stream) → Closed s → Closed (claim opened s).1
unfolding claim
claim-Closed opened s h = claim_under-Closed s.admission_error opened s h

boots-Closed : (r : Ended ℕ × Stream) → Closed r.1 → Closed (boots r).1
boots-Closed (returned n, s) h = h
boots-Closed (raised u, s) h = h
boots-Closed (protocol_error, s) h = h

note_reopen-Closed : (r : Ended ℕ × Stream) → Closed r.1 → Closed (note_reopen r)
unfolding is_closed
note_reopen-Closed (returned n, s) h = h
note_reopen-Closed (raised u, s) h = h
note_reopen-Closed (protocol_error, s) h = h

install_event-Closed :
    (e : Option Event) (writes : Bool) (s : Stream) → Closed s → Closed (install_event e writes s).1
install_event-Closed none writes s h = h
install_event-Closed (some e) writes s h = elim (Bool-cases (has_event e s.live.frames)) [
  | inl waiting_already ↦ rw waiting_already h
  | inr missing_event ↦
      rw missing_event
        (boots-Closed _ (note_bootstrap-Closed _ (append_bootstrap_head-Closed e false writes s h)))
]

install_reopen_report-Closed :
    (close : Option String) (writes : Bool) (s : Stream)
    → Closed s
    → Closed (install_reopen_report close writes s)
unfolding install_reopen_report
install_reopen_report-Closed none writes s h = h
install_reopen_report-Closed (some close) writes s h =
    note_reopen-Closed _ (append_bootstrap_head-Closed (reopen_event close) false writes s h)

pub opened_socket-Closed :
    (close : Option String) (starts reports : Bool) (s : Stream)
    → Closed s
    → Closed (opened_socket close starts reports s).1
unfolding opened_socket install_bootstrap
opened_socket-Closed close starts reports s h =
    let t = install_bootstrap starts (reopen_admission s) in
    let kept = install_event-Closed _ starts _ (reopen_admission-Closed s h) in
    elim (Bool-cases t.0) [
      | inl ready ↦ rw (ready, opened_socket) (install_reopen_report-Closed close reports t.1 kept)
      | inr shut ↦ rw (shut, opened_socket) kept
    ]
