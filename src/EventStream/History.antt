-- ===== src/EventStream/History.antt =====
-- The life of a pod's durable state: the critical sections in any order, and a crash between any
-- two of them, after which a new process starts from what is on disk.
use Prim.Native.String.{String}
use monty_pod.StreamModels.{Event, StreamJob, is_stream_id, is_valid_event}
use monty_pod.EventStream.Frame.{Body, Frame, Verdict}
use monty_pod.EventStream.State.{Durable, Stream}
use monty_pod.EventStream.Append.{announce_ready, append}
use monty_pod.EventStream.Settle.{Disposition, settle}
use monty_pod.EventStream.Intake.{Io, RawJob, accept_job}
use monty_pod.EventStream.Connection.{claim, interrupt_claim, opened_socket, set_bootstrap_event}
use monty_pod.EventStream.Restart.{
  drop_boot, empty_state, fresh_stream, job_items, load, missing, start, state_version,
  stored_state,
}
use monty_pod.EventStream.Invariant.{IsValid, Sound}
use monty_pod.EventStream.Keep.{Same, Same-IsValid, persist-IsValid}
use monty_pod.EventStream.KeepAppend.{announce_ready-IsValid, append-IsValid}
use monty_pod.EventStream.KeepSettle.{Current, settle-IsValid}
use monty_pod.EventStream.KeepIntake.{accept_job-IsValid}
use monty_pod.EventStream.KeepConnection.{claim-Same, opened_socket-IsValid}
use monty_pod.EventStream.Crash.{Minted, fresh_stream-Ready, start-IsValid}
use monty_pod.Common.{Bool, Bool-cases, Option, inl, inr, refl, some, true, ℕ, ◌≡◌}

-- `writes` answers a durable write. A frame settles by the answer to the frame at the head of the
-- outbox, or after its delivery was abandoned and another frame took its place.
pub data Step (s : Stream) : Stream → Type 0 where
  appends : (body : Body) (wait probe writes : Bool) → Step s (append body wait probe writes s).1
  announces : (e : Event) (writes : Bool) → Step s (announce_ready e writes s).1
  settles :
      (f : Frame) (d : Disposition) (ack : Option Verdict) (writes releases : Bool)
      → Current f s.live.frames
      → Step s (settle f d ack writes releases s).1
  accepts :
      (raw : RawJob) (parsed : Option StreamJob) (now : ℕ) (ack writes : Bool) (io : ℕ → Io)
      → Step s (accept_job raw parsed now ack writes io s).1
  claims : (opened : Bool) → Step s (claim opened s).1
  interrupts : Step s (interrupt_claim s)
  sets_bootstrap : (e : Event) → Step s (set_bootstrap_event e s)
  opens :
      (close : Option String) (replays reports : Bool)
      → Step s (opened_socket close replays reports s).1

-- From the first start of a pod, with no file on disk.
pub data Reach : Stream → Type 0 where
  first_start :
      {t : Stream} (id : String) → is_stream_id id ≡ true → start id missing true ≡ some t → Reach t
  later : {s t : Stream} → Reach s → Step s t → Reach t
  crashes :
      {s t : Stream} (id : String)
      → Reach s
      → Minted id s.disk
      → start id (stored_state state_version s.disk) true ≡ some t
      → Reach t

-- The life of one process.
pub data Run (s : Stream) : Stream → Type 0 where
  begins : Run s s
  runs : {t u : Stream} → Run s t → Step t u → Run s u

abbrev empty-Sound : Sound empty_state
empty-Sound = record {
  clean = tt;
  buried_clean = tt;
  distinct_keys = tt;
  entries = tt;
  known = tt;
  open_jobs = tt;
}

first_start-IsValid :
    (id : String) {t : Stream} → is_stream_id id ≡ true → start id missing true ≡ some t → IsValid t
unfolding start load
first_start-IsValid id ok e =
    persist-IsValid true (fresh_stream id empty_state) e
      (fresh_stream-Ready id empty_state (record { well_formed = ok; unused = tt }) empty-Sound)

interrupt_claim-Same : (s : Stream) → Same s (interrupt_claim s)
unfolding interrupt_claim
interrupt_claim-Same s = record {
  same_live = refl;
  same_disk = refl;
  same_id = refl;
  same_seq = refl;
}

set_bootstrap_event-Same : (e : Event) (s : Stream) → Same s (set_bootstrap_event e s)
unfolding set_bootstrap_event
set_bootstrap_event-Same e s = elim (Bool-cases (is_valid_event e)) [
  | inl fine ↦
      rw (fine, set_bootstrap_event)
        (record { same_live = refl; same_disk = refl; same_id = refl; same_seq = refl })
  | inr bad ↦
      rw (bad, set_bootstrap_event)
        (record { same_live = refl; same_disk = refl; same_id = refl; same_seq = refl })
]

Step-IsValid : {s t : Stream} → Step s t → IsValid s → IsValid t
Step-IsValid {s} (appends body wait probe writes) v = append-IsValid body wait probe writes s v
Step-IsValid {s} (announces e writes) v = announce_ready-IsValid s e writes v
Step-IsValid {s} (settles f d ack writes releases c) v =
    settle-IsValid f d ack writes releases s c v
Step-IsValid {s} (accepts raw parsed now ack writes io) v =
    accept_job-IsValid raw parsed now ack writes io s v
Step-IsValid {s} (claims opened) v = Same-IsValid (claim-Same opened s) v
Step-IsValid {s} interrupts v = Same-IsValid (interrupt_claim-Same s) v
Step-IsValid {s} (sets_bootstrap e) v = Same-IsValid (set_bootstrap_event-Same e s) v
Step-IsValid {s} (opens close replays reports) v = opened_socket-IsValid close replays reports s v

pub reachable-IsValid : (s : Stream) → Reach s → IsValid s
reachable-IsValid s (first_start id ok e) = first_start-IsValid id ok e
reachable-IsValid t (later {s} r a) = Step-IsValid a (reachable-IsValid s r)
reachable-IsValid t (crashes {s} id r m e) =
    start-IsValid id s.disk m (reachable-IsValid s r).disk_sound e

-- The stream of a new process, once its first durable write succeeded.
abbrev restarted : String → Durable → Stream
restarted id d = record (fresh_stream id d) { disk = record d { frames = drop_boot d.frames } }

-- What a start makes of the disk of a state in which every critical section has ended.
pub record Restarted (s t : Stream) : Type 0 where
  pub kept_frames : t.live.frames ≡ drop_boot s.live.frames
  pub kept_rejected : t.live.rejected ≡ s.live.rejected
  pub kept_inbox : t.live.inbox ≡ s.disk.inbox
  pub waiting_jobs : t.jobs ≡ job_items s.disk.inbox
  pub written : t.disk ≡ t.live
