-- ===== src/EventStream/State.antt =====
-- The state of `EventStream`: what is durable, what is on disk, and the admission latch, with
-- `_persist_locked` and `_latch_locked`.
use Prim.Native.String.{String}
use monty_pod.Common.{
  Bool, List, Option, [], false, if◌then◌else◌, is_empty, is_some, map, none, not, some, true, ℕ,
  ◌&&◌, ◌++◌, ◌||◌, ◌∷◌,
}
use monty_pod.StreamModels.{Event, Job, Timeline}
use monty_pod.EventStream.Frame.{Frame, Key, Rejected, Verdict, corr_of, is_result}

-- The identity that came with a delivered job.
pub record Delivery : Type 0 where
  pub delivery_id : String
  pub attempt_id : String
  pub pod_clock_id : String
  pub delivery_seq : ℕ
  pub replayed : Bool
  pub client_recv_mono_ns : ℕ
  pub timeline : Timeline

-- What `_persist_locked` writes.
pub record Durable : Type 0 where
  pub frames : List Frame
  pub rejected : List Rejected
  pub inbox : List (String × Job)
  pub deliveries : List (String × Delivery)

pub data Cause : Type 0 where
  invalid_payload duplicate_result append_failed bootstrap_failed invalid_job : Cause
  reused_delivery changed_attempt replay_failed inbox_failed settlement_failed cannot_open : Cause

-- `TransportUnhealthy` and its subclasses `DeliveryPending` and `FrameRejected`.
pub data Unhealthy : Type 0 where
  delivery_pending : Unhealthy
  frame_rejected : Frame → Option Verdict → Unhealthy
  unhealthy : Cause → Unhealthy

abbrev pub is_pending : Unhealthy → Bool
is_pending delivery_pending = true
is_pending (frame_rejected f a) = false
is_pending (unhealthy c) = false

pub data JobItem : Type 0 where
  queued_delivery : String → JobItem
  admission_wake claim_interrupt : JobItem

pub record Stream : Type 0 where
  pub stream_id : String
  pub next_seq : ℕ
  pub live : Durable
  pub disk : Durable
  pub jobs : List JobItem
  pub queued_ids : List String
  pub claimed_ids : List String
  pub admission_error : Option Unhealthy
  pub storage_error : Option Unhealthy
  pub admission_from_storage : Bool
  pub admission_before_storage : Option Unhealthy
  pub bootstrap_event : Option Event
  pub pending_bootstrap : Option Key
  pub pending_reopen : Option Key
  pub waiters : List Key
  pub outcomes : List (Key × (Bool × Option Unhealthy))
  pub settlement_attempts : List (Key × ℕ)

abbrev pub is_admission_pending : Option Unhealthy → Bool
is_admission_pending none = false
is_admission_pending (some e) = is_pending e

-- The recovery of the storage latch, after a durable write that succeeded: a verdict that the
-- latch displaced stays latched, a pending delivery only while there is something to deliver.
unfoldable pub clear_storage : Stream → Stream
clear_storage s = elim s.storage_error [
  | none ↦ s
  | some e ↦
      if s.admission_from_storage
      then record s {
        storage_error = none;
        admission_error =
            if is_admission_pending s.admission_before_storage && is_empty s.live.frames
            then none
            else s.admission_before_storage;
        admission_from_storage = false;
        admission_before_storage = none;
      }
      else record s { storage_error = none }
]

-- `_persist_locked`: the whole durable state is replaced, or the write raises and nothing changes.
unfoldable pub persist : Bool → Stream → Option Stream
unfolding clear_storage
persist false s = none
persist true s = some (clear_storage (record s { disk = s.live }))

-- `_latch_locked`; `storage` marks a failed durable write.
unfoldable pub latch : Unhealthy → Bool → Stream → Stream
latch error storage s =
    let displaces = not (is_some s.admission_error) || not (is_pending error) in
    record s {
      admission_error = if displaces then some error else s.admission_error;
      admission_from_storage = if displaces then storage else s.admission_from_storage;
      admission_before_storage =
          if displaces && storage && not s.admission_from_storage
          then s.admission_error
          else s.admission_before_storage;
      storage_error =
          if storage
          then (elim s.storage_error [ none ↦ some error | some e ↦ some e ])
          else s.storage_error;
      jobs = if displaces || storage then s.jobs ++ admission_wake ∷ [] else s.jobs;
    }

abbrev pub corrs_of : List Frame → List String
corrs_of [] = []
corrs_of (f ∷ fs) = if is_result f.body then corr_of f.body ∷ corrs_of fs else corrs_of fs

abbrev pub rejected_frames : List Rejected → List Frame
rejected_frames = map (λ (r : Rejected). r.frame)

-- `_result_corrs_locked`
abbrev pub result_corrs : Durable → List String
result_corrs d = corrs_of d.frames ++ corrs_of (rejected_frames d.rejected)

-- How a call ends: it returns, it raises `TransportUnhealthy`, or it raises `ProtocolError`.
pub data Ended (A : Type 0) : Type 0 where
  returned : A → Ended A
  raised : Unhealthy → Ended A
  protocol_error : Ended A
