-- ===== src/EventStream/KeepRelease.antt =====
-- What follows a verdict keeps the invariant: the waiter, the admission, a job of another worker.
use Prim.Native.String.{String}
use monty_pod.Common.{
  Bool, Bool-cases, Option, Option-cases, arith, contains, false, inl, inr, is_some, lookup, none,
  not, pair_eq, refl, some, str_eq, string_eq, ◌||◌,
}
use monty_pod.EventStream.Frame.{Body, Frame, Key, Verdict, event, job_ack, not_owned, result}
use monty_pod.EventStream.State.{Stream, Unhealthy, frame_rejected, persist}
use monty_pod.EventStream.Settle.{
  Disposition, abandoned, accepted, after_verdict, dropped, forget_attempts, lost, pending,
  rejected, release_reassigned, reopen_admission, wake,
}
use monty_pod.EventStream.Invariant.{IsValid}
use monty_pod.EventStream.Keep.{Ready, Same, Same-IsValid, latch-Same, persist-IsValid}
use monty_pod.EventStream.Sound.{erased, erased-Sound}

pub wake-Same : (k : Key) (b : Bool) (e : Option Unhealthy) (s : Stream) → Same s (wake k b e s)
unfolding wake
wake-Same k b e s = elim (Bool-cases (contains k s.waiters)) [
  | inl armed ↦
      rw (armed, wake)
        (record { same_live = refl; same_disk = refl; same_id = refl; same_seq = refl })
  | inr unarmed ↦
      rw (unarmed, wake)
        (record { same_live = refl; same_disk = refl; same_id = refl; same_seq = refl })
]

pub reopen_admission-Same : (s : Stream) → Same s (reopen_admission s)
unfolding reopen_admission
reopen_admission-Same s = record {
  same_live = ground arith;
  same_disk = ground arith;
  same_id = ground arith;
  same_seq = ground arith;
}

pub forget_attempts-Same : (k : Key) (s : Stream) → Same s (forget_attempts k s)
forget_attempts-Same k s = record {
  same_live = refl;
  same_disk = refl;
  same_id = refl;
  same_seq = refl;
}

pub dropped-Ready : (c : String) (s : Stream) → IsValid s → Ready (dropped c s)
unfolding erased
dropped-Ready c s v = record {
  ready_sound = erased-Sound c s.live v.live_sound;
  ready_earlier = v.earlier;
  ready_id = v.own_id;
  ready_seq = v.numbered;
}

pub dropped-IsValid : (c : String) (s : Stream) → IsValid s → IsValid (dropped c s)
unfolding erased
dropped-IsValid c s v = record {
  live_sound = erased-Sound c s.live v.live_sound;
  disk_sound = v.disk_sound;
  saved_frames = v.saved_frames;
  saved_rejected = v.saved_rejected;
  earlier = v.earlier;
  own_id = v.own_id;
  numbered = v.numbered;
}

pub release_reassigned-IsValid :
    (b : Body) (ack : Option Verdict) (writes : Bool) (s : Stream)
    → IsValid s
    → IsValid (release_reassigned b ack writes s)
unfolding release_reassigned
release_reassigned-IsValid (event e) ack writes s v = v
release_reassigned-IsValid (result attempt r) ack writes s v = v
release_reassigned-IsValid (job_ack a) none writes s v = v
release_reassigned-IsValid (job_ack a) (some x) writes s v =
    elim (Bool-cases (
      not (str_eq x.error not_owned)
      || not (is_some (lookup a.corr_id s.live.inbox))
      || contains a.corr_id s.claimed_ids)) [
        | inl stays ↦ rw (stays, release_reassigned) v
        | inr goes ↦ elim (Option-cases (persist writes (dropped a.corr_id s))) [
          | inl missed ↦ rw (goes, missed, release_reassigned) (dropped-IsValid a.corr_id s v)
          | inr (t, wrote) ↦
              rw (goes, wrote, release_reassigned)
                (persist-IsValid writes _ wrote (dropped-Ready a.corr_id s v))
        ]
      ]

pub after_verdict-IsValid :
    (d : Disposition) (f : Frame) (ack : Option Verdict) (writes : Bool) (s : Stream)
    → IsValid s
    → IsValid (after_verdict d f ack writes s)
unfolding after_verdict
after_verdict-IsValid rejected f ack writes s v =
    Same-IsValid (latch-Same (frame_rejected f ack) false s) v
after_verdict-IsValid lost f ack writes s v =
    Same-IsValid (reopen_admission-Same _) (release_reassigned-IsValid f.body ack writes s v)
after_verdict-IsValid accepted f ack writes s v = Same-IsValid (reopen_admission-Same s) v
after_verdict-IsValid abandoned f ack writes s v = Same-IsValid (reopen_admission-Same s) v
after_verdict-IsValid pending f ack writes s v = Same-IsValid (reopen_admission-Same s) v
