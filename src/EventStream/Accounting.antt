-- ===== src/EventStream/Accounting.antt =====
-- Where frames go: what `_settle` does to the outbox and to the dead letter.
use Prim.Native.String.{String}
use monty_pod.Common.{
  Bool, Bool-cases, List, Option, Option-cases, [], ap, contains, eqb_refl, false, if◌then◌else◌,
  inl, inr, is_some, lookup, none, not, pair_eq, refl, some, str_eq, string_eq, tail, true, ◌&&◌,
  ◌++◌, ◌||◌, ◌∙◌, ◌∷◌, ◌≡◌,
}
use monty_pod.EventStream.Frame.{
  Body, Frame, Key, Rejected, Verdict, event, frame_key, is_reopen_report, job_ack, not_owned,
  result,
}
use monty_pod.EventStream.State.{Stream, Unhealthy, delivery_pending, frame_rejected, persist}
use monty_pod.EventStream.Settle.{
  Disposition, abandoned, accepted, after_verdict, buried, dropped, forget_attempts, forget_pending,
  is_accepted, is_head, lost, or_else, or_raise, pending, rejected, release_reassigned,
  reopen_admission, result_acked_frame, retired, settle, settle_accepted, settle_by, settle_refused,
  settle_reopen_report, wake,
}
use monty_pod.EventStream.Keep.{Same, Same-trans, latch-Same, persist-Written}
use monty_pod.EventStream.KeepRelease.{forget_attempts-Same, reopen_admission-Same, wake-Same}

-- The frames and the dead letter are unchanged.
pub record SameFrames (s t : Stream) : Type 0 where
  pub same_frames : t.live.frames ≡ s.live.frames
  pub same_rejected : t.live.rejected ≡ s.live.rejected

SameFrames-trans : {s t u : Stream} → SameFrames s t → SameFrames t u → SameFrames s u
SameFrames-trans a b = record {
  same_frames = b.same_frames ∙ a.same_frames;
  same_rejected = b.same_rejected ∙ a.same_rejected;
}

pub Same-SameFrames : {s t : Stream} → Same s t → SameFrames s t
Same-SameFrames h = record {
  same_frames = ap (λ d. d.frames) h.same_live;
  same_rejected = ap (λ d. d.rejected) h.same_live;
}

pub persist-SameFrames :
    (b : Bool) (s : Stream) {t : Stream} → persist b s ≡ some t → SameFrames s t
persist-SameFrames b s e =
    let w = persist-Written b s e in
    record {
      same_frames = ap (λ d. d.frames) w.wrote_live;
      same_rejected = ap (λ d. d.rejected) w.wrote_live;
    }

dropped-SameFrames :
    (c : String) (writes : Bool) (s : Stream)
    → SameFrames s (or_else (persist writes (dropped c s)) (dropped c s))
dropped-SameFrames c writes s = elim (Option-cases (persist writes (dropped c s))) [
  | inl missed ↦ rw missed (record { same_frames = refl; same_rejected = refl })
  | inr (t, wrote) ↦ rw wrote (
      SameFrames-trans {t = dropped c s} (record { same_frames = refl; same_rejected = refl })
        (persist-SameFrames writes (dropped c s) wrote))
]

release_reassigned-SameFrames :
    (b : Body) (ack : Option Verdict) (writes : Bool) (s : Stream)
    → SameFrames s (release_reassigned b ack writes s)
unfolding release_reassigned
release_reassigned-SameFrames (event e) ack writes s = record {
  same_frames = refl;
  same_rejected = refl;
}
release_reassigned-SameFrames (result attempt r) ack writes s = record {
  same_frames = refl;
  same_rejected = refl;
}
release_reassigned-SameFrames (job_ack a) none writes s = record {
  same_frames = refl;
  same_rejected = refl;
}
release_reassigned-SameFrames (job_ack a) (some x) writes s =
    elim (Bool-cases (
      not (str_eq x.error not_owned)
      || not (is_some (lookup a.corr_id s.live.inbox))
      || contains a.corr_id s.claimed_ids)) [
        | inl stays ↦
            rw (stays, release_reassigned) (record { same_frames = refl; same_rejected = refl })
        | inr goes ↦ rw (goes, release_reassigned) (dropped-SameFrames a.corr_id writes s)
      ]

after_verdict-SameFrames :
    (d : Disposition) (f : Frame) (ack : Option Verdict) (writes : Bool) (s : Stream)
    → SameFrames s (after_verdict d f ack writes s)
unfolding after_verdict
after_verdict-SameFrames rejected f ack writes s =
    Same-SameFrames (latch-Same (frame_rejected f ack) false s)
after_verdict-SameFrames lost f ack writes s =
    SameFrames-trans (release_reassigned-SameFrames f.body ack writes s)
      (Same-SameFrames (reopen_admission-Same _))
after_verdict-SameFrames accepted f ack writes s = Same-SameFrames (reopen_admission-Same s)
after_verdict-SameFrames abandoned f ack writes s = Same-SameFrames (reopen_admission-Same s)
after_verdict-SameFrames pending f ack writes s = Same-SameFrames (reopen_admission-Same s)

-- The outbox `fs` behind an accepted frame: a result is followed by its `result_acked` event.
abbrev pub followed : Stream → Body → List Frame → List Frame
followed s (event e) fs = fs
followed s (result attempt r) fs = fs ++ result_acked_frame s r ∷ []
followed s (job_ack a) fs = fs

-- The outbox and the dead letter after the head `f` of the outbox `f ∷ fs` is settled by a write
-- that succeeds.
abbrev pub settled_frames :
    Stream → Frame → List Frame → Disposition → Option Verdict → List Frame × List Rejected
settled_frames s f fs accepted ack = (followed s f.body fs, s.live.rejected)
settled_frames s f fs rejected ack = (fs, s.live.rejected ++ record { frame = f; ack = ack } ∷ [])
settled_frames s f fs abandoned ack = (fs, s.live.rejected ++ record { frame = f; ack = ack } ∷ [])
settled_frames s f fs lost ack = (fs, s.live.rejected ++ record { frame = f; ack = ack } ∷ [])
settled_frames s f fs pending ack = (f ∷ fs, s.live.rejected)

abbrev pub books : Stream → List Frame × List Rejected
books s = (s.live.frames, s.live.rejected)

books-SameFrames : {s t : Stream} → SameFrames s t → books t ≡ books s
books-SameFrames h = λ i. (h.same_frames i, h.same_rejected i)

or_raise-books :
    (writes : Bool) (moved s : Stream) (after : Stream → Stream)
    → ((t : Stream) → SameFrames t (after t))
    → books (or_raise (persist writes moved) s after).1 ≡ (if writes then books moved else books s)
unfolding persist
or_raise-books false moved s after keep = refl
or_raise-books true moved s after keep =
    books-SameFrames (SameFrames-trans (persist-SameFrames true moved refl) (keep _))

pub is_head_refl : (f : Frame) (fs : List Frame) → is_head (frame_key f) (f ∷ fs) ≡ true
is_head_refl f fs = eqb_refl (frame_key f)

wake-SameFrames :
    (k : Key) (b : Bool) (e : Option Unhealthy) {s t : Stream}
    → SameFrames s t
    → SameFrames s (wake k b e t)
wake-SameFrames k b e {t} h = SameFrames-trans h (Same-SameFrames (wake-Same k b e t))

refused_after :
    (d : Disposition) (f : Frame) (ack : Option Verdict) (releases : Bool) (t : Stream)
    → SameFrames t (
        wake
          (frame_key f)
          false
          (some (frame_rejected f ack))
          (after_verdict d f ack releases (forget_attempts (frame_key f) t)))
refused_after d f ack releases t =
    wake-SameFrames (frame_key f) false (some (frame_rejected f ack)) (
      SameFrames-trans (Same-SameFrames (forget_attempts-Same (frame_key f) t))
        (after_verdict-SameFrames d f ack releases _))

accepted_after :
    (f : Frame) (t : Stream)
    → SameFrames t
        (wake (frame_key f) true none (reopen_admission (forget_attempts (frame_key f) t)))
accepted_after f t =
    wake-SameFrames (frame_key f) true none (
      Same-SameFrames (Same-trans (forget_attempts-Same (frame_key f) t) (reopen_admission-Same _)))

module _ (f : Frame) (fs : List Frame) (s : Stream) (leads : s.live.frames ≡ f ∷ fs) where
  abbrev head_leads : is_head (frame_key f) s.live.frames ≡ true
  head_leads = ap (is_head (frame_key f)) leads ∙ is_head_refl f fs

  buried-books :
      (ack : Option Verdict) → books (buried f ack s) ≡ settled_frames s f fs rejected ack
  unfolding buried
  buried-books ack =
      ap (λ gs. (tail gs, s.live.rejected ++ record { frame = f; ack = ack } ∷ [])) leads

  retired-books : (b : Body) → books (retired b s) ≡ (followed s b fs, s.live.rejected)
  unfolding retired
  retired-books (event e) = ap (λ gs. (tail gs, s.live.rejected)) leads
  retired-books (result attempt r) =
      ap (λ gs. (tail gs ++ result_acked_frame s r ∷ [], s.live.rejected)) leads
  retired-books (job_ack a) = ap (λ gs. (tail gs, s.live.rejected)) leads

  if-books :
      (writes : Bool) {x y z : List Frame × List Rejected}
      → x ≡ (if writes then y else books s)
      → y ≡ z
      → x ≡ (if writes then z else books s)
  if-books true e e' = e ∙ e'
  if-books false e e' = e

  refused-books :
      (d : Disposition) (ack : Option Verdict) (writes releases : Bool)
      → books (settle_refused d f ack writes releases s).1
        ≡ (if writes then settled_frames s f fs rejected ack else books s)
  unfolding settle_refused
  refused-books d ack writes releases =
      rw (head_leads, settle_refused)
        (if-books writes
          (or_raise-books writes (buried f ack s) s _ (refused_after d f ack releases))
          (buried-books ack))

  accepted-books :
      (writes : Bool)
      → books (settle_accepted f writes s).1
        ≡ (if writes then (followed s f.body fs, s.live.rejected) else books s)
  unfolding settle_accepted
  accepted-books writes =
      rw (head_leads, settle_accepted)
        (if-books writes (or_raise-books writes (retired f.body s) s _ (accepted_after f))
          (retired-books f.body))

  kept : (writes : Bool) → books s ≡ (if writes then (f ∷ fs, s.live.rejected) else books s)
  kept true = ap (λ gs. (gs, s.live.rejected)) leads
  kept false = refl

  settle_by-books :
      (d : Disposition) (ack : Option Verdict) (writes releases : Bool)
      → books (settle_by d f ack writes releases s).1
        ≡ (if writes then settled_frames s f fs d ack else books s)
  unfolding settle_by
  settle_by-books accepted ack writes releases = accepted-books writes
  settle_by-books rejected ack writes releases = refused-books rejected ack writes releases
  settle_by-books abandoned ack writes releases = refused-books abandoned ack writes releases
  settle_by-books lost ack writes releases = refused-books lost ack writes releases
  settle_by-books pending ack writes releases =
      books-SameFrames (
        wake-SameFrames (frame_key f) false (some delivery_pending)
          (Same-SameFrames (latch-Same delivery_pending false s)))
      ∙ kept writes

module _ (f : Frame) (fs : List Frame) (s : Stream) (leads : s.live.frames ≡ f ∷ fs) where
  -- `_settle` of the frame at the head of the outbox, unless it is a refused reopen report: an
  -- accepted frame leaves, a result behind which its `result_acked` event is queued in the same
  -- write; a rejected, abandoned or lost frame moves to the end of the dead letter with its
  -- verdict; a pending one stays. Where the durable write fails, nothing moves.
  pub settle_moves_head :
      (d : Disposition) (ack : Option Verdict) (writes releases : Bool)
      → (not (is_accepted d) && is_reopen_report f) ≡ false
      → books (settle f d ack writes releases s).1
        ≡ (if writes then settled_frames s f fs d ack else books s)
  unfolding settle result_acked_frame
  settle_moves_head d ack writes releases owed =
      rw (owed, settle)
        (settle_by-books f fs (forget_pending (frame_key f) s) leads d ack writes releases)

  pub settle_drops_report :
      (d : Disposition) (ack : Option Verdict) (writes releases : Bool)
      → (not (is_accepted d) && is_reopen_report f) ≡ true
      → books (settle f d ack writes releases s).1
        ≡ (if writes then (fs, s.live.rejected) else books s)
  unfolding settle settle_reopen_report
  settle_drops_report d ack writes releases report =
      rw (report, head_leads f fs s leads, settle, settle_reopen_report)
        (if-books f fs s leads writes
          (or_raise-books writes _ _ (forget_attempts (frame_key f))
            (λ t. Same-SameFrames (forget_attempts-Same (frame_key f) t)))
          (ap (λ gs. (tail gs, s.live.rejected)) leads))

module _ (f : Frame) (s : Stream) (behind : is_head (frame_key f) s.live.frames ≡ false) where
  settle_by_behind :
      (d : Disposition) (ack : Option Verdict) (writes releases : Bool)
      → SameFrames s (settle_by d f ack writes releases s).1
  unfolding settle_by settle_accepted settle_refused
  settle_by_behind accepted ack writes releases = rw (behind, settle_accepted) (accepted_after f s)
  settle_by_behind rejected ack writes releases =
      rw (behind, settle_refused) (refused_after rejected f ack releases s)
  settle_by_behind abandoned ack writes releases =
      rw (behind, settle_refused) (refused_after abandoned f ack releases s)
  settle_by_behind lost ack writes releases =
      rw (behind, settle_refused) (refused_after lost f ack releases s)
  settle_by_behind pending ack writes releases =
      wake-SameFrames (frame_key f) false (some delivery_pending)
        (Same-SameFrames (latch-Same delivery_pending false s))

  report_behind : (writes : Bool) → SameFrames s (settle_reopen_report (frame_key f) writes s).1
  unfolding settle_reopen_report
  report_behind writes =
      rw (behind, settle_reopen_report) (Same-SameFrames (forget_attempts-Same (frame_key f) s))

-- A frame that is no longer the head: its settlement moves nothing.
pub settle_behind :
    (f : Frame) (d : Disposition) (ack : Option Verdict) (writes releases : Bool) (s : Stream)
    → is_head (frame_key f) s.live.frames ≡ false
    → books (settle f d ack writes releases s).1 ≡ books s
unfolding settle
settle_behind f d ack writes releases s behind =
    elim (Bool-cases (not (is_accepted d) && is_reopen_report f)) [
      | inl report ↦
          rw (report, settle)
            (books-SameFrames (report_behind f (forget_pending (frame_key f) s) behind writes))
      | inr other ↦
          rw (other, settle)
            (books-SameFrames
              (settle_by_behind f (forget_pending (frame_key f) s) behind d ack writes releases))
    ]
