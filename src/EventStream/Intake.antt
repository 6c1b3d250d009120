-- ===== src/EventStream/Intake.antt =====
-- `_accept_job` and `_reject_invalid_job`: jobs in, receipts out.
use Prim.Native.String.{String}
use monty_pod.Common.{
  Bool, Option, [], contains, erase, false, if◌then◌else◌, insert, lookup, none, not, some, str_eq,
  string_eq, true, ℕ, ◌&&◌, ◌++◌, ◌==◌, ◌||◌, ◌∷◌,
}
use monty_pod.StreamModels.{
  Job, JobKind, StreamJob, failed, infer, is_filled, is_valid_stream_job, ops, render,
}
use monty_pod.EventStream.Frame.{Body, event, job_ack, result}
use monty_pod.EventStream.State.{
  Cause, Delivery, Ended, Stream, changed_attempt, inbox_failed, invalid_job, is_pending, latch,
  persist, protocol_error, queued_delivery, raised, replay_failed, result_corrs, returned,
  reused_delivery, unhealthy,
}
use monty_pod.EventStream.Append.{append}

-- What the disk answers to the writes of one append: the probe of a latched storage, and the frame.
abbrev pub Io : Type 0
Io = Bool × Bool

abbrev pub send : Body → Io → Stream → Ended ℕ × Stream
send body (probe, writes) = append body false probe writes

abbrev pub receipt_of : Delivery → Body
receipt_of d = job_ack (record {
  delivery_id = d.delivery_id;
  corr_id = d.delivery_id;
  attempt_id = d.attempt_id;
  client_recv_mono_ns = d.client_recv_mono_ns;
})

-- The texts that an undecodable frame still shows, "" for one that is missing.
pub record RawJob : Type 0 where
  pub delivery_id : String
  pub attempt_id : String
  pub corr_id : String
  pub session_id : String
  pub job_id : String
  pub block_job_id : String

pub record Identity : Type 0 where
  pub delivery : String
  pub attempt : String
  pub job_id : String
  pub session : String
  pub corr : String

abbrev pub text_or : String → String → String
text_or s t = if is_filled s then s else t

-- `_raw_job_identity`
unfoldable pub raw_job_identity : RawJob → Identity
raw_job_identity r = record {
  delivery = r.delivery_id;
  attempt = r.attempt_id;
  job_id = text_or r.block_job_id r.job_id;
  session = r.session_id;
  corr = text_or r.corr_id r.delivery_id;
}

abbrev pub filled : String → Option String
filled s = if is_filled s then some s else none

unfoldable pub is_trusted : Identity → Bool
is_trusted i =
    is_filled i.job_id
    && is_filled i.session
    && is_filled i.corr
    && is_filled i.attempt
    && (not (is_filled i.delivery) || str_eq i.delivery i.corr)

abbrev pub rejection_event : Identity → Body
rejection_event i = event (record {
  stage = "dispatch";
  status = failed;
  job_id = filled i.job_id;
  session_id = filled i.session;
  corr_id = filled i.corr;
  op = none;
  phase = some "work_finished";
  rest = "outcome, error_type, error";
})

abbrev pub rejection_receipt : ℕ → Identity → Body
rejection_receipt now i = job_ack (record {
  delivery_id = i.corr;
  corr_id = i.corr;
  attempt_id = i.attempt;
  client_recv_mono_ns = now;
})

abbrev pub rejection_result : Identity → Body
rejection_result i = result i.attempt (record {
  job_id = i.job_id;
  session_id = i.session;
  corr_id = i.corr;
  succeeded = false;
  kind = none;
  stage = some "dispatch";
  op = none;
  result_key = none;
  has_timing = false;
  has_timings = false;
  rest = "error";
})

-- The next send, unless the one before it raised.
abbrev pub then_send : Ended ℕ × Stream → (Stream → Bool × Stream) → Bool × Stream
then_send (returned n, s) k = k s
then_send (raised e, s) k = (false, s)
then_send (protocol_error, s) k = (false, s)

-- The receipt and the result of an addressed frame; the receipt precedes the terminal.
unfoldable pub terminalize : Identity → ℕ → (ℕ → Io) → Stream → Bool × Stream
terminalize i now io s =
    if is_trusted i
    then then_send (send (rejection_receipt now i) (io 1) s)
        (λ t. then_send (send (rejection_result i) (io 2) t) (λ u. (true, u)))
    else (false, s)

-- `_reject_invalid_job`: whether the frame has its durable terminal.
unfoldable pub reject_invalid_job : RawJob → ℕ → (ℕ → Io) → Stream → Bool × Stream
reject_invalid_job raw now io s =
    let i = raw_job_identity raw in
    if is_trusted i && contains i.corr (result_corrs s.live)
    then then_send (send (rejection_receipt now i) (io 0) s) (λ t. (true, t))
    else then_send (send (rejection_event i) (io 0) s) (terminalize i now io)

abbrev bool_eq : Bool → Bool → Bool
bool_eq true b = b
bool_eq false b = not b

abbrev kind_tag : JobKind → ℕ
kind_tag infer = 0
kind_tag render = 1
kind_tag ops = 2

-- `==` of two decoded jobs
unfoldable pub same_job : Job → Job → Bool
same_job a b =
    kind_tag a.kind == kind_tag b.kind
    && str_eq a.corr_id b.corr_id
    && str_eq a.job_id b.job_id
    && str_eq a.session_id b.session_id
    && bool_eq a.has_request b.has_request
    && bool_eq a.has_spec b.has_spec
    && bool_eq a.has_chain b.has_chain
    && str_eq a.rest b.rest

abbrev pub delivery_of : StreamJob → ℕ → Delivery
delivery_of f now = record {
  delivery_id = f.delivery_id;
  attempt_id = f.attempt_id;
  pod_clock_id = f.stream_id;
  delivery_seq = f.seq;
  replayed = f.replayed;
  client_recv_mono_ns = now;
  timeline = f.timeline;
}

-- Whether the job is newly claimable, or was known before.
pub data Accepted : Type 0 where
  terminalized deduplicated replayed_receipt queued : Accepted

abbrev pub conclude : Accepted → Ended ℕ × Stream → Ended Accepted × Stream
conclude a (returned n, s) = (returned a, s)
conclude a (raised e, s) = (raised e, s)
conclude a (protocol_error, s) = (protocol_error, s)

abbrev pub emit : Bool → Delivery → Accepted → Io → Stream → Ended Accepted × Stream
emit false d a io s = (returned a, s)
emit true d a io s = conclude a (send (receipt_of d) io s)

abbrev pub fail : Cause → Bool → Stream → Ended Accepted × Stream
fail c storage s = (raised (unhealthy c), latch (unhealthy c) storage s)

abbrev pub set_delivery : String → Delivery → Stream → Stream
set_delivery id d s = record s {
  live = record (s.live) { deliveries = insert id d s.live.deliveries };
}

abbrev pub restore_delivery : String → Option Delivery → Delivery → Stream → Stream
restore_delivery id none d s = set_delivery id d s
restore_delivery id (some p) d s = set_delivery id p (set_delivery id d s)

abbrev pub changed_attempts : Option Delivery → String → Bool
changed_attempts none attempt = false
changed_attempts (some p) attempt = not (str_eq p.attempt_id attempt)

-- A delivery that the inbox holds already: a replay of the same job and the same attempt.
unfoldable pub accept_replay :
    Job → StreamJob → Delivery → Bool → Bool → Io → Stream → Ended Accepted × Stream
accept_replay held f d ack writes io s =
    let id = f.delivery_id in
    let previous = lookup id s.live.deliveries in
    if not (same_job held f.job)
    then fail reused_delivery false s
    else if changed_attempts previous f.attempt_id
    then fail changed_attempt false s
    else elim (persist writes (set_delivery id d s)) [
      | none ↦ fail replay_failed true (restore_delivery id previous d s)
      | some s' ↦ emit ack d replayed_receipt io s'
    ]

abbrev pub make_claimable : String → Ended Accepted × Stream → Ended Accepted × Stream
make_claimable id (r, s) =
    (r, record s { queued_ids = id ∷ s.queued_ids; jobs = s.jobs ++ queued_delivery id ∷ [] })

abbrev pub stored : StreamJob → Delivery → Stream → Stream
stored f d s = record s {
  live = record (s.live) {
    inbox = insert f.delivery_id f.job s.live.inbox;
    deliveries = insert f.delivery_id d s.live.deliveries;
  };
}

abbrev pub unstored : StreamJob → Stream → Stream
unstored f s = record s {
  live = record (s.live) {
    inbox = erase f.delivery_id s.live.inbox;
    deliveries = erase f.delivery_id s.live.deliveries;
  };
}

unfoldable pub store_new :
    StreamJob → Delivery → Bool → Bool → Io → Stream → Ended Accepted × Stream
store_new f d ack writes io s = elim (persist writes (stored f d s)) [
  | none ↦ fail inbox_failed true (unstored f (stored f d s))
  | some s' ↦ make_claimable f.delivery_id (emit ack d queued io s')
]

-- A pending delivery closes the claim of work, not its receipt.
unfoldable pub accept_new :
    StreamJob → Delivery → Bool → Bool → Io → Stream → Ended Accepted × Stream
accept_new f d ack writes io s = elim s.admission_error [
  | none ↦ store_new f d ack writes io s
  | some e ↦ if is_pending e then store_new f d ack writes io s else (raised e, s)
]

-- `_accept_job` of a frame that decodes and validates.
unfoldable pub accept_valid : StreamJob → ℕ → Bool → Bool → Io → Stream → Ended Accepted × Stream
accept_valid f now ack writes io s =
    let d = delivery_of f now in
    if contains f.delivery_id (result_corrs s.live)
    then emit ack d deduplicated io s
    else elim (lookup f.delivery_id s.live.inbox) [
      | some held ↦ accept_replay held f d ack writes io s
      | none ↦ accept_new f d ack writes io s
    ]

-- An invalid frame is terminalized if it is addressed, and closes the admission if it is not.
unfoldable pub accept_invalid : RawJob → ℕ → (ℕ → Io) → Stream → Ended Accepted × Stream
accept_invalid raw now io s =
    let (ended, s') = reject_invalid_job raw now io s in
    if ended then (returned terminalized, s') else fail invalid_job false s'

-- `_accept_job`: `parsed` is the frame, if it decodes; `writes` answers the write of the inbox,
-- `io` the appends.
unfoldable pub accept_job :
    RawJob → Option StreamJob → ℕ → Bool → Bool → (ℕ → Io) → Stream → Ended Accepted × Stream
accept_job raw none now ack writes io s = accept_invalid raw now io s
accept_job raw (some f) now ack writes io s =
    if is_valid_stream_job f
    then accept_valid f now ack writes (io 0) s
    else accept_invalid raw now io s
