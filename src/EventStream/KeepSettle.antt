-- ===== src/EventStream/KeepSettle.antt =====
-- `_settle` keeps the invariant on every disposition.
use monty_pod.Common.{
  All, All-All, All-append, All-tail, Bool, Bool-cases, List, Option, Option-cases, [], ap, arith,
  eqb, false, inl, inr, none, not, pair_eq, refl, some, string_eq, subst, tail, true, ◌&&◌, ◌+◌,
  ◌∷◌, ◌≡◌, ◌⊎◌,
}
use monty_pod.EventStream.Frame.{
  Body, Frame, Key, Verdict, event, frame_key, is_client_frame, is_reopen_report, is_valid_payload,
  job_ack, result,
}
use monty_pod.EventStream.State.{Stream, Unhealthy, delivery_pending, frame_rejected, persist}
use monty_pod.EventStream.Settle.{
  Disposition, abandoned, accepted, buried, forget_attempts, forget_pending, is_accepted, is_head,
  lost, or_raise, pending, rejected, result_acked_frame, retired, settle, settle_accepted,
  settle_by, settle_refused, settle_reopen_report, wake,
}
use monty_pod.EventStream.Invariant.{Earlier, IsClientFrame, IsValid}
use monty_pod.EventStream.Keep.{
  Earlier-suc, Ready, Same-IsValid, latch-Same, new_key, persist-IsValid,
}
use monty_pod.EventStream.Moves.{Leaves, added-Sound, buried-Sound, retired-Sound}
use monty_pod.EventStream.KeepRelease.{
  after_verdict-IsValid, forget_attempts-Same, reopen_admission-Same, wake-Same,
}
use monty_pod.EventStream.KeepAcked.{result_acked-IsClientFrame}

-- The frame that is settled came from the outbox: a head of its identity is that frame.
abbrev pub Current : Frame → List Frame → Type 0
Current f [] = Unit
Current f (g ∷ gs) = (eqb (frame_key g) (frame_key f) ≡ false) ⊎ (g ≡ f)

head_frames :
    (f : Frame) (fs : List Frame)
    → Current f fs
    → is_head (frame_key f) fs ≡ true
    → fs ≡ f ∷ tail fs
head_frames f [] c h = cc
head_frames f (g ∷ gs) (inl other) h = absurd (cc)
head_frames f (g ∷ gs) (inr same) h = ap (λ x. x ∷ gs) same

-- A durable move that is undone where the write fails.
or_raise-IsValid :
    (writes : Bool) (moved s : Stream) (after : Stream → Stream)
    → IsValid s
    → Ready moved
    → ((t : Stream) → IsValid t → IsValid (after t))
    → IsValid (or_raise (persist writes moved) s after).1
or_raise-IsValid writes moved s after v r keep = elim (Option-cases (persist writes moved)) [
  | inl missed ↦ rw missed v
  | inr (t, wrote) ↦ rw wrote (keep t (persist-IsValid writes moved wrote r))
]

tail-Ready :
    (s : Stream)
    → IsValid s
    → Ready (record s { live = record (s.live) { frames = tail s.live.frames } })
tail-Ready s v = record {
  ready_sound = retired-Sound s.live v.live_sound;
  ready_earlier = All-tail (Earlier s.stream_id s.next_seq) s.live.frames v.earlier;
  ready_id = v.own_id;
  ready_seq = v.numbered;
}

buried-Ready :
    (f : Frame) (ack : Option Verdict) (s : Stream)
    → s.live.frames ≡ f ∷ tail s.live.frames
    → IsValid s
    → Ready (buried f ack s)
unfolding buried
buried-Ready f ack s e v = record {
  ready_sound =
      buried-Sound s.live f (tail s.live.frames) (record { frame = f; ack = ack }) e refl
        v.live_sound;
  ready_earlier = All-tail (Earlier s.stream_id s.next_seq) s.live.frames v.earlier;
  ready_id = v.own_id;
  ready_seq = v.numbered;
}

-- A result that leaves the outbox is followed by the event that its ACK is.
retired-Ready :
    (b : Body) (s : Stream) → is_valid_payload b ≡ true → IsValid s → Ready (retired b s)
unfolding retired is_valid_payload result_acked_frame
retired-Ready (event e) s p v = tail-Ready s v
retired-Ready (job_ack a) s p v = tail-Ready s v
retired-Ready (result attempt r) s p v =
    let rest = tail s.live.frames in
    let f = result_acked_frame s r in
    let t = tail-Ready s v in
    record {
      ready_sound =
          added-Sound (record (s.live) { frames = rest }) f
            (result_acked-IsClientFrame s r v.own_id v.numbered p)
            (new_key s.stream_id s.next_seq rest t.ready_earlier)
            (All-All (Leaves f) (λ x. refl) s.live.inbox) t.ready_sound;
      ready_earlier =
          All-append (Earlier s.stream_id (s.next_seq + 1)) rest (f ∷ [])
            (Earlier-suc s.stream_id s.next_seq rest t.ready_earlier) (inr (omega arith), tt);
      ready_id = v.own_id;
      ready_seq = omega arith;
    }

payload_of_client : (f : Frame) → IsClientFrame f → is_valid_payload f.body ≡ true
unfolding is_client_frame
payload_of_client f h = ground arith

after-IsValid :
    (k : Key) (b : Bool) (e : Option Unhealthy) (s : Stream) → IsValid s → IsValid (wake k b e s)
after-IsValid k b e s v = Same-IsValid (wake-Same k b e s) v

settle_accepted-IsValid :
    (f : Frame) (writes : Bool) (s : Stream)
    → Current f s.live.frames
    → IsValid s
    → IsValid (settle_accepted f writes s).1
unfolding settle_accepted
settle_accepted-IsValid f writes s c v =
    let key = frame_key f in
    let keep = λ (t : Stream) (u : IsValid t).
      after-IsValid key true none _
        (Same-IsValid (reopen_admission-Same _) (Same-IsValid (forget_attempts-Same key t) u)) in
    elim (Bool-cases (is_head key s.live.frames)) [
      | inr behind ↦ rw (behind, settle_accepted) (keep s v)
      | inl leads ↦
          let e = head_frames f s.live.frames c leads in
          let clean : All IsClientFrame (f ∷ tail s.live.frames) =
            subst (All IsClientFrame) e v.live_sound.clean in
          rw (leads, settle_accepted)
            (or_raise-IsValid writes (retired f.body s) s _ v
              (retired-Ready f.body s (payload_of_client f clean.0) v) keep)
    ]

settle_refused-IsValid :
    (d : Disposition) (f : Frame) (ack : Option Verdict) (writes releases : Bool) (s : Stream)
    → Current f s.live.frames
    → IsValid s
    → IsValid (settle_refused d f ack writes releases s).1
unfolding settle_refused
settle_refused-IsValid d f ack writes releases s c v =
    let key = frame_key f in
    let keep = λ (t : Stream) (u : IsValid t).
      after-IsValid key false (some (frame_rejected f ack)) _
        (after_verdict-IsValid d f ack releases _ (Same-IsValid (forget_attempts-Same key t) u)) in
    elim (Bool-cases (is_head key s.live.frames)) [
      | inr behind ↦ rw (behind, settle_refused) (keep s v)
      | inl leads ↦
          rw (leads, settle_refused)
            (or_raise-IsValid writes (buried f ack s) s _ v
              (buried-Ready f ack s (head_frames f s.live.frames c leads) v) keep)
    ]

settle_reopen_report-IsValid :
    (key : Key) (writes : Bool) (s : Stream)
    → IsValid s
    → IsValid (settle_reopen_report key writes s).1
unfolding settle_reopen_report
settle_reopen_report-IsValid key writes s v =
    let keep = λ (t : Stream) (u : IsValid t). Same-IsValid (forget_attempts-Same key t) u in
    elim (Bool-cases (is_head key s.live.frames)) [
      | inr behind ↦ rw (behind, settle_reopen_report) (keep s v)
      | inl leads ↦
          rw (leads, settle_reopen_report)
            (or_raise-IsValid writes _ s (forget_attempts key) v (tail-Ready s v) keep)
    ]

settle_by-IsValid :
    (d : Disposition) (f : Frame) (ack : Option Verdict) (writes releases : Bool) (s : Stream)
    → Current f s.live.frames
    → IsValid s
    → IsValid (settle_by d f ack writes releases s).1
unfolding settle_by
settle_by-IsValid accepted f ack writes releases s c v = settle_accepted-IsValid f writes s c v
settle_by-IsValid rejected f ack writes releases s c v =
    settle_refused-IsValid rejected f ack writes releases s c v
settle_by-IsValid abandoned f ack writes releases s c v =
    settle_refused-IsValid abandoned f ack writes releases s c v
settle_by-IsValid lost f ack writes releases s c v =
    settle_refused-IsValid lost f ack writes releases s c v
settle_by-IsValid pending f ack writes releases s c v =
    after-IsValid (frame_key f) false (some delivery_pending) _
      (Same-IsValid (latch-Same delivery_pending false s) v)

pub settle-IsValid :
    (f : Frame) (d : Disposition) (ack : Option Verdict) (writes releases : Bool) (s : Stream)
    → Current f s.live.frames
    → IsValid s
    → IsValid (settle f d ack writes releases s).1
unfolding settle
settle-IsValid f d ack writes releases s0 c v0 =
    let s = forget_pending (frame_key f) s0 in
    let v : IsValid s =
      Same-IsValid (record { same_live = refl; same_disk = refl; same_id = refl; same_seq = refl })
        v0 in
    elim (Bool-cases (not (is_accepted d) && is_reopen_report f)) [
      | inl report ↦ rw (report, settle) (settle_reopen_report-IsValid (frame_key f) writes s v)
      | inr other ↦ rw (other, settle) (settle_by-IsValid d f ack writes releases s c v)
    ]
