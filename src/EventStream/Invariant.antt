-- ===== src/EventStream/Invariant.antt =====
-- What every critical section keeps: the durable state is one that `_load` accepts, and the frames
-- in memory are those on disk.
use Prim.Native.String.{String}
use monty_pod.Common.{
  All, List, [], contains, false, is_some, lookup, pair_beq, str_eq, string_eq, true, ℕ, ◌<◌, ◌∷◌,
  ◌≡◌, ◌≤◌, ◌⊎◌,
}
use monty_pod.StreamModels.{Job, is_stream_id}
use monty_pod.EventStream.Frame.{Frame, frame_key, is_client_frame}
use monty_pod.EventStream.State.{Delivery, Durable, Stream, rejected_frames, result_corrs}
use monty_pod.EventStream.Restart.{entry_ok}

abbrev pub IsClientFrame : Frame → Type 0
IsClientFrame f = is_client_frame f ≡ true

abbrev pub Distinct : List Frame → Type 0
Distinct [] = Unit
Distinct (f ∷ fs) =
    All (λ (g : Frame). pair_beq (frame_key f) (frame_key g) ≡ false) fs × Distinct fs

abbrev pub EntryOk : List (String × Delivery) → String × Job → Type 0
EntryOk deliveries (id, j) = entry_ok (lookup id deliveries) id j ≡ true

abbrev pub Known : List (String × Job) → String × Delivery → Type 0
Known inbox (id, d) = is_some (lookup id inbox) ≡ true

abbrev pub NotIn : List String → String × Job → Type 0
NotIn corrs (id, j) = contains id corrs ≡ false

pub record Sound (d : Durable) : Type 0 where
  pub clean : All IsClientFrame d.frames
  pub buried_clean : All IsClientFrame (rejected_frames d.rejected)
  pub distinct_keys : Distinct d.frames
  pub entries : All (EntryOk d.deliveries) d.inbox
  pub known : All (Known d.inbox) d.deliveries
  pub open_jobs : All (NotIn (result_corrs d)) d.inbox

-- A frame of another incarnation, or one with a number below `n`.
abbrev pub Earlier : String → ℕ → Frame → Type 0
Earlier id n f = (str_eq f.stream_id id ≡ false) ⊎ (f.seq < n)

pub record IsValid (s : Stream) : Type 0 where
  pub live_sound : Sound s.live
  pub disk_sound : Sound s.disk
  pub saved_frames : s.disk.frames ≡ s.live.frames
  pub saved_rejected : s.disk.rejected ≡ s.live.rejected
  pub earlier : All (Earlier s.stream_id s.next_seq) s.live.frames
  pub own_id : is_stream_id s.stream_id ≡ true
  pub numbered : 1 ≤ s.next_seq
