-- ===== src/EventStream/Restart.antt =====
-- `_load` and the constructor: what a new process makes of the durable state on disk.
use Prim.Native.String.{String}
use monty_pod.Common.{
  Bool, List, Option, [], contains, false, if◌then◌else◌, is_empty, is_some, lookup, map, none, not,
  pair_eq, some, string_eq, true, ℕ, ◌&&◌, ◌==◌, ◌∷◌,
}
use monty_pod.StreamModels.{Job, StreamJob, is_valid_stream_job}
use monty_pod.EventStream.Frame.{Frame, Key, frame_key, is_boot_frame, is_client_frame}
use monty_pod.EventStream.State.{
  Delivery, Durable, JobItem, Stream, delivery_pending, persist, queued_delivery, rejected_frames,
  result_corrs,
}

abbrev pub state_version : ℕ
state_version = 3

-- The file: absent, not readable as a state of a known shape, or a version with its content.
pub data Stored : Type 0 where
  missing unreadable : Stored
  stored_state : ℕ → Durable → Stored

abbrev pub empty_state : Durable
empty_state = record { frames = []; rejected = []; inbox = []; deliveries = [] }

unfoldable pub distinct : List Key → Bool
unfolding contains
distinct [] = true
distinct (k ∷ ks) = not (contains k ks) && distinct ks

-- The job frame that an inbox entry and its delivery came from.
abbrev pub job_frame : String → Job → Delivery → StreamJob
job_frame id j d = record {
  delivery_id = id;
  attempt_id = d.attempt_id;
  stream_id = d.pod_clock_id;
  seq = d.delivery_seq;
  replayed = d.replayed;
  timeline = d.timeline;
  job = j;
}

abbrev pub entry_ok : Option Delivery → String → Job → Bool
entry_ok none id j = false
entry_ok (some d) id j = is_valid_stream_job (job_frame id j d)

unfoldable pub inbox_ok : List (String × Delivery) → List (String × Job) → Bool
inbox_ok deliveries [] = true
inbox_ok deliveries ((id, j) ∷ inbox) =
    entry_ok (lookup id deliveries) id j && inbox_ok deliveries inbox

unfoldable pub deliveries_ok : List (String × Job) → List (String × Delivery) → Bool
deliveries_ok inbox [] = true
deliveries_ok inbox ((id, d) ∷ deliveries) =
    is_some (lookup id inbox) && deliveries_ok inbox deliveries

unfoldable pub none_completed : List String → List (String × Job) → Bool
none_completed corrs [] = true
none_completed corrs ((id, j) ∷ inbox) = not (contains id corrs) && none_completed corrs inbox

unfoldable pub frames_ok : List Frame → Bool
frames_ok [] = true
frames_ok (f ∷ fs) = is_client_frame f && frames_ok fs

-- The checks of `_load` on the content.
unfoldable pub is_loadable : Durable → Bool
is_loadable d =
    frames_ok d.frames
    && distinct (map frame_key d.frames)
    && frames_ok (rejected_frames d.rejected)
    && inbox_ok d.deliveries d.inbox
    && deliveries_ok d.inbox d.deliveries
    && none_completed (result_corrs d) d.inbox

-- `_load`; `none` is the refusal to start.
unfoldable pub load : Stored → Option Durable
unfolding is_loadable
load missing = some empty_state
load unreadable = none
load (stored_state version d) = if version == state_version && is_loadable d then some d else none

unfoldable pub drop_boot : List Frame → List Frame
drop_boot [] = []
drop_boot (f ∷ fs) = if is_boot_frame f then drop_boot fs else f ∷ drop_boot fs

abbrev pub job_items : List (String × Job) → List JobItem
job_items = map (λ (e : String × Job). queued_delivery e.0)

unfoldable pub fresh_stream : String → Durable → Stream
unfolding drop_boot
fresh_stream id d =
    let kept = drop_boot d.frames in
    record {
      stream_id = id;
      next_seq = 1;
      live = record d { frames = kept };
      disk = d;
      jobs = job_items d.inbox;
      queued_ids = map (λ (e : String × Job). e.0) d.inbox;
      claimed_ids = [];
      admission_error = if is_empty kept then none else some delivery_pending;
      storage_error = none;
      admission_from_storage = false;
      admission_before_storage = none;
      bootstrap_event = none;
      pending_bootstrap = none;
      pending_reopen = none;
      waiters = [];
      outcomes = [];
      settlement_attempts = [];
    }

abbrev pub started : String → Bool → Option Durable → Option Stream
unfolding fresh_stream
started id writes none = none
started id writes (some d) = persist writes (fresh_stream id d)

-- The constructor, with the stream id that it mints; its first durable write must succeed.
unfoldable pub start : String → Stored → Bool → Option Stream
unfolding load fresh_stream
start id file writes = started id writes (load file)
