-- ===== src/EventStream/Connection.antt =====
-- `claim` and the state changes of `_ensure_open`.
use Prim.Native.String.{String}
use monty_pod.Common.{
  Bool, List, Option, [], discard, false, if◌then◌else◌, lookup, none, some, str_eq, string_eq,
  true, ℕ, ◌&&◌, ◌++◌, ◌==◌, ◌||◌, ◌∷◌,
}
use monty_pod.StreamModels.{Event, Job, Status, done, failed, good, is_valid_event, step}
use monty_pod.EventStream.Frame.{Frame, event, job_ack, result}
use monty_pod.EventStream.State.{
  Ended, JobItem, Stream, Unhealthy, admission_wake, claim_interrupt, delivery_pending, latch,
  protocol_error, queued_delivery, raised, returned,
}
use monty_pod.EventStream.Append.{append_bootstrap_head, note_bootstrap}
use monty_pod.EventStream.Settle.{reopen_admission}

pub data Claimed : Type 0 where
  nothing : Claimed
  job : Job → Claimed
  refused : Unhealthy → Claimed

abbrev pub put_job : JobItem → List JobItem → Stream → Stream
put_job item rest s = record s { jobs = rest ++ item ∷ [] }

-- A job for the claimant, or the rest of the loop when no job has this id.
abbrev pub hand_out :
    Option Job → String → List JobItem → Stream → Claimed × Stream → Claimed × Stream
hand_out none id rest s on = on
hand_out (some j) id rest s on = (
  job j,
  record s {
    jobs = rest;
    queued_ids = discard id s.queued_ids;
    claimed_ids = id ∷ discard id s.claimed_ids;
  },
)

-- The loop of `claim` over the queue of jobs, under the latched error; at the end of the queue the
-- wait runs out. The lock is free between two items, but here no other thread runs in between.
unfoldable pub take_job : Option Unhealthy → List JobItem → Stream → Claimed × Stream
take_job latched [] s = (nothing, record s { jobs = [] })
take_job latched (claim_interrupt ∷ rest) s = (nothing, record s { jobs = rest })
take_job none (admission_wake ∷ rest) s = take_job none rest s
take_job (some e) (admission_wake ∷ rest) s = (refused e, record s { jobs = rest })
take_job none (queued_delivery id ∷ rest) s =
    hand_out (lookup id s.live.inbox) id rest s (take_job none rest s)
take_job (some e) (queued_delivery id ∷ rest) s = (refused e, put_job (queued_delivery id) rest s)

unfoldable pub claim_under : Option Unhealthy → Bool → Stream → Claimed × Stream
unfolding take_job
claim_under (some e) opened s = (refused e, s)
claim_under none true s = take_job none s.jobs s
claim_under none false s = (refused delivery_pending, latch delivery_pending false s)

-- `claim`; `opened`: whether `_ensure_open` finds or opens a socket.
unfoldable pub claim : Bool → Stream → Claimed × Stream
unfolding claim_under
claim opened s = claim_under s.admission_error opened s

-- `interrupt_claim`
unfoldable pub interrupt_claim : Stream → Stream
interrupt_claim s = record s { jobs = s.jobs ++ claim_interrupt ∷ [] }

-- `set_bootstrap_event`
unfoldable pub set_bootstrap_event : Event → Stream → Stream
set_bootstrap_event e s = if is_valid_event e then record s { bootstrap_event = some e } else s

abbrev option_eq : Option String → Option String → Bool
option_eq none none = true
option_eq none (some t) = false
option_eq (some s) none = false
option_eq (some s) (some t) = str_eq s t

abbrev status_tag : Status → ℕ
status_tag done = 0
status_tag good = 1
status_tag step = 2
status_tag failed = 3

abbrev same_event : Event → Event → Bool
same_event a b =
    str_eq a.stage b.stage
    && status_tag a.status == status_tag b.status
    && option_eq a.job_id b.job_id
    && option_eq a.session_id b.session_id
    && option_eq a.corr_id b.corr_id
    && option_eq a.op b.op
    && option_eq a.phase b.phase
    && str_eq a.rest b.rest

unfoldable pub has_event : Event → List Frame → Bool
has_event e [] = false
has_event e (f ∷ fs) = elim f.body [
  | event e' ↦ same_event e' e || has_event e fs
  | result attempt r ↦ has_event e fs
  | job_ack a ↦ has_event e fs
]

abbrev pub boots : Ended ℕ × Stream → Bool × Stream
boots (returned seq, s) = (true, s)
boots (raised u, s) = (false, s)
boots (protocol_error, s) = (false, s)

abbrev pub note_reopen : Ended ℕ × Stream → Stream
note_reopen (returned seq, s) = record s { pending_reopen = some (s.stream_id, seq) }
note_reopen (raised u, s) = s
note_reopen (protocol_error, s) = s

abbrev pub install_event : Option Event → Bool → Stream → Bool × Stream
install_event none writes s = (true, s)
install_event (some e) writes s =
    if has_event e s.live.frames
    then (true, s)
    else boots (note_bootstrap (append_bootstrap_head e false writes s))

-- The replay of the admission event on a new socket; `false`: no socket without it.
unfoldable pub install_bootstrap : Bool → Stream → Bool × Stream
install_bootstrap writes s = install_event s.bootstrap_event writes s

abbrev pub reopen_event : String → Event
reopen_event close = record {
  stage = "boot";
  status = step;
  job_id = none;
  session_id = none;
  corr_id = none;
  op = none;
  phase = some "stream_reopen";
  rest = close;
}

-- `_install_reopen_report`: best effort.
unfoldable pub install_reopen_report : Option String → Bool → Stream → Stream
install_reopen_report none writes s = s
install_reopen_report (some close) writes s =
    note_reopen (append_bootstrap_head (reopen_event close) false writes s)

-- What `_ensure_open` does once a new socket is connected: `close` is why the last one closed.
unfoldable pub opened_socket : Option String → Bool → Bool → Stream → Bool × Stream
opened_socket close boots reports s =
    let (ready, s') = install_bootstrap boots (reopen_admission s) in
    if ready then (true, install_reopen_report close reports s') else (false, s')
