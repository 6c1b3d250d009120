-- ===== src/EventStream/Crash.antt =====
-- From a sound durable state the next process starts.
use Prim.Native.String.{String}
use monty_pod.Common.{
  All, All-map, Bool-cases, List, [], ap, arith, contains, eq_iff, false, inl, inr, map, pair_beq,
  pair_eq, refl, some, str_eq, string_eq, sym, true, ◌∙◌, ◌∷◌, ◌≡◌,
}
use monty_pod.StreamModels.{Job, is_stream_id}
use monty_pod.EventStream.Frame.{Frame, Key, frame_key, is_boot_frame, is_result}
use monty_pod.EventStream.State.{Delivery, Durable, Stream, corrs_of, rejected_frames, result_corrs}
use monty_pod.EventStream.Restart.{
  deliveries_ok, distinct, drop_boot, frames_ok, fresh_stream, inbox_ok, is_loadable, load,
  none_completed, start, started, state_version, stored_state,
}
use monty_pod.EventStream.Invariant.{
  Distinct, Earlier, EntryOk, IsClientFrame, IsValid, Known, NotIn, Sound,
}
use monty_pod.EventStream.Keep.{Ready, persist-IsValid}

drop_boot-All : (P : Frame → Type 0) (fs : List Frame) → All P fs → All P (drop_boot fs)
unfolding drop_boot
drop_boot-All P [] h = tt
drop_boot-All P (f ∷ fs) h = elim (Bool-cases (is_boot_frame f)) [
  | inl boot ↦ rw (boot, drop_boot) (drop_boot-All P fs h.1)
  | inr other ↦ rw (other, drop_boot) (h.0, drop_boot-All P fs h.1)
]

drop_boot-Distinct : (fs : List Frame) → Distinct fs → Distinct (drop_boot fs)
unfolding drop_boot
drop_boot-Distinct [] h = tt
drop_boot-Distinct (f ∷ fs) h = elim (Bool-cases (is_boot_frame f)) [
  | inl boot ↦ rw (boot, drop_boot) (drop_boot-Distinct fs h.1)
  | inr other ↦
      rw (other, drop_boot)
        (
          drop_boot-All (λ g. pair_beq (frame_key f) (frame_key g) ≡ false) fs h.0,
          drop_boot-Distinct fs h.1,
        )
]

boot-no-result : (f : Frame) → is_boot_frame f ≡ true → is_result f.body ≡ false
unfolding is_boot_frame
boot-no-result f h = ground arith

corrs_of-drop_boot : (fs : List Frame) → corrs_of (drop_boot fs) ≡ corrs_of fs
unfolding drop_boot
corrs_of-drop_boot [] = refl
corrs_of-drop_boot (f ∷ fs) = elim (Bool-cases (is_boot_frame f)) [
  | inl boot ↦ rw (boot, drop_boot, boot-no-result f boot) (corrs_of-drop_boot fs)
  | inr other ↦ rw (other, drop_boot, corrs_of-drop_boot fs)
]

drop_boot-Sound : (d : Durable) → Sound d → Sound (record d { frames = drop_boot d.frames })
drop_boot-Sound d s = record {
  clean = drop_boot-All IsClientFrame d.frames s.clean;
  buried_clean = s.buried_clean;
  distinct_keys = drop_boot-Distinct d.frames s.distinct_keys;
  entries = s.entries;
  known = s.known;
  open_jobs = rw corrs_of-drop_boot s.open_jobs;
}

-- A new process mints an id that no durable frame carries.
pub record Minted (id : String) (d : Durable) : Type 0 where
  pub well_formed : is_stream_id id ≡ true
  pub unused : All (λ (f : Frame). str_eq f.stream_id id ≡ false) d.frames

pub fresh_stream-Ready :
    (id : String) (d : Durable) → Minted id d → Sound d → Ready (fresh_stream id d)
unfolding fresh_stream
fresh_stream-Ready id d m s = record {
  ready_sound = drop_boot-Sound d s;
  ready_earlier = drop_boot-All (Earlier id 1) d.frames (
      All-map (λ f. str_eq f.stream_id id ≡ false) (Earlier id 1) (λ f h. inl h) d.frames m.unused);
  ready_id = m.well_formed;
  ready_seq = omega arith;
}

frames_ok-All : (fs : List Frame) → All IsClientFrame fs → frames_ok fs ≡ true
unfolding frames_ok
frames_ok-All [] h = refl
frames_ok-All (f ∷ fs) h = rw (h.0, frames_ok-All fs h.1)

contains-apart :
    (k : Key) (fs : List Frame)
    → All (λ (g : Frame). pair_beq k (frame_key g) ≡ false) fs
    → contains k (map frame_key fs) ≡ false
unfolding contains
contains-apart k [] h = refl
contains-apart k (g ∷ fs) h =
    ground (arith, contains-apart k fs h.1, eq_iff k.0 g.stream_id, eq_iff g.stream_id k.0)

distinct-Distinct : (fs : List Frame) → Distinct fs → distinct (map frame_key fs) ≡ true
unfolding distinct
distinct-Distinct [] h = refl
distinct-Distinct (f ∷ fs) h = rw (contains-apart (frame_key f) fs h.0, distinct-Distinct fs h.1)

inbox_ok-All :
    (ds : List (String × Delivery)) (inbox : List (String × Job))
    → All (EntryOk ds) inbox
    → inbox_ok ds inbox ≡ true
unfolding inbox_ok
inbox_ok-All ds [] h = refl
inbox_ok-All ds ((id, j) ∷ inbox) h = rw (h.0, inbox_ok-All ds inbox h.1)

deliveries_ok-All :
    (inbox : List (String × Job)) (ds : List (String × Delivery))
    → All (Known inbox) ds
    → deliveries_ok inbox ds ≡ true
unfolding deliveries_ok
deliveries_ok-All inbox [] h = refl
deliveries_ok-All inbox ((id, d) ∷ ds) h = rw (h.0, deliveries_ok-All inbox ds h.1)

none_completed-All :
    (corrs : List String) (inbox : List (String × Job))
    → All (NotIn corrs) inbox
    → none_completed corrs inbox ≡ true
unfolding none_completed
none_completed-All corrs [] h = refl
none_completed-All corrs ((id, j) ∷ inbox) h = rw (h.0, none_completed-All corrs inbox h.1)

-- A sound state passes each check of `_load`.
pub Sound-is_loadable : (d : Durable) → Sound d → is_loadable d ≡ true
unfolding is_loadable
Sound-is_loadable d s = rw (
  frames_ok-All d.frames s.clean,
  distinct-Distinct d.frames s.distinct_keys,
  frames_ok-All (rejected_frames d.rejected) s.buried_clean,
  inbox_ok-All d.deliveries d.inbox s.entries,
  deliveries_ok-All d.inbox d.deliveries s.known,
  none_completed-All (result_corrs d) d.inbox s.open_jobs,
)

pub load-Sound : (d : Durable) → Sound d → load (stored_state state_version d) ≡ some d
unfolding load is_loadable
load-Sound d s = rw (Sound-is_loadable d s)

pub start-IsValid :
    (id : String) (d : Durable) {t : Stream}
    → Minted id d
    → Sound d
    → start id (stored_state state_version d) true ≡ some t
    → IsValid t
unfolding start load
start-IsValid id d m s e =
    persist-IsValid true (fresh_stream id d) (sym (ap (started id true) (load-Sound d s)) ∙ e)
      (fresh_stream-Ready id d m s)
