-- ===== src/EventStream/Conservation.antt =====
-- No frame is forgotten: what leaves the outbox without being accepted is in the dead letter.
use monty_pod.Common.{
  Bool, Bool-cases, Has, List, Option, [], ap, arith, false, inl, inr, map-append, not, refl, subst,
  sym, true, true≢false, ◌&&◌, ◌++◌, ◌∙◌, ◌∷◌, ◌≡◌, ◌⊎◌,
}
use monty_pod.EventStream.Frame.{Frame, Rejected, Verdict, frame_key, is_reopen_report}
use monty_pod.EventStream.State.{Stream, rejected_frames}
use monty_pod.EventStream.Settle.{
  Disposition, abandoned, accepted, is_accepted, is_head, lost, pending, rejected, settle,
}
use monty_pod.EventStream.KeepSettle.{Current}
use monty_pod.EventStream.Accounting.{
  settle_behind, settle_drops_report, settle_moves_head, settled_frames,
}

-- Every frame that the pod still answers for.
abbrev pub kept_frames : Stream → List Frame
kept_frames s = s.live.frames ++ rejected_frames s.live.rejected

Has-left : {A : Type 0} (x : A) (xs ys : List A) → Has x xs → Has x (xs ++ ys)
Has-left x [] ys h = absurd h
Has-left x (y ∷ xs) ys (inl e) = inl e
Has-left x (y ∷ xs) ys (inr h) = inr (Has-left x xs ys h)

Has-right : {A : Type 0} (x : A) (xs ys : List A) → Has x ys → Has x (xs ++ ys)
Has-right x [] ys h = h
Has-right x (y ∷ xs) ys h = inr (Has-right x xs ys h)

Has-split : {A : Type 0} (x : A) (xs ys : List A) → Has x (xs ++ ys) → Has x xs ⊎ Has x ys
Has-split x [] ys h = inr h
Has-split x (y ∷ xs) ys (inl e) = inl (inl e)
Has-split x (y ∷ xs) ys (inr h) = elim (Has-split x xs ys h) [ inl l ↦ inl (inr l) | inr r ↦ inr r ]

-- The head moved to the end of the dead letter.
Has-moved :
    (g f : Frame) (fs rs : List Frame) → Has g ((f ∷ fs) ++ rs) → Has g (fs ++ (rs ++ f ∷ []))
Has-moved g f fs rs (inl e) = Has-right g fs (rs ++ f ∷ []) (Has-right g rs (f ∷ []) (inl e))
Has-moved g f fs rs (inr h) = elim (Has-split g fs rs h) [
  | inl l ↦ Has-left g fs (rs ++ f ∷ []) l
  | inr r ↦ Has-right g fs (rs ++ f ∷ []) (Has-left g rs (f ∷ []) r)
]

abbrev books_frames : List Frame × List Rejected → List Frame
books_frames (fs, rs) = fs ++ rejected_frames rs

Has-books :
    (g : Frame) {b c : List Frame × List Rejected}
    → b ≡ c
    → Has g (books_frames c)
    → Has g (books_frames b)
Has-books g e h = subst (λ x. Has g (books_frames x)) (sym e) h

module _ (g f : Frame) (fs : List Frame) (rs : List Rejected) (ack : Option Verdict) where
  Has-buried :
      Has g (books_frames (f ∷ fs, rs))
      → Has g (books_frames (fs, rs ++ record { frame = f; ack = ack } ∷ []))
  Has-buried h =
      subst (λ x. Has g (fs ++ x)) (sym (map-append _ rs (record { frame = f; ack = ack } ∷ [])))
        (Has-moved g f fs (rejected_frames rs) h)

  Has-dropped :
      is_reopen_report f ≡ true
      → is_reopen_report g ≡ false
      → Has g (books_frames (f ∷ fs, rs))
      → Has g (books_frames (fs, rs))
  Has-dropped report other (inl e) =
      absurd (true≢false (sym report ∙ ap is_reopen_report (sym e) ∙ other))
  Has-dropped report other (inr h) = h

  Has-settled :
      (s : Stream) (d : Disposition)
      → is_accepted d ≡ false
      → s.live.rejected ≡ rs
      → Has g (books_frames (f ∷ fs, rs))
      → Has g (books_frames (settled_frames s f fs d ack))
  Has-settled s accepted refused_it e h = absurd (true≢false refused_it)
  Has-settled s rejected refused_it e h = rw e (Has-buried h)
  Has-settled s abandoned refused_it e h = rw e (Has-buried h)
  Has-settled s lost refused_it e h = rw e (Has-buried h)
  Has-settled s pending refused_it e h = rw e h

-- The head of the outbox, when it has the identity of `f`, is `f`.
head_cases :
    (f : Frame) (fs : List Frame)
    → Current f fs
    → (is_head (frame_key f) fs ≡ false) ⊎ ((gs : List Frame) × (fs ≡ f ∷ gs))
head_cases f [] c = inl refl
head_cases f (h ∷ gs) (inl other) = inl other
head_cases f (h ∷ gs) (inr same) = inr (gs, ap (λ x. x ∷ gs) same)

module _ (f : Frame) (fs : List Frame) (s : Stream) (leads : s.live.frames ≡ f ∷ fs)
    (g : Frame) where
  settle_head_keeps :
      (d : Disposition) (ack : Option Verdict) (writes releases : Bool)
      → is_accepted d ≡ false
      → is_reopen_report g ≡ false
      → Has g (kept_frames s)
      → Has g (kept_frames (settle f d ack writes releases s).1)
  settle_head_keeps d ack false releases refused_it other h =
      elim (Bool-cases (not (is_accepted d) && is_reopen_report f)) [
        | inl report ↦ Has-books g (settle_drops_report f fs s leads d ack false releases report) h
        | inr owed ↦ Has-books g (settle_moves_head f fs s leads d ack false releases owed) h
      ]
  settle_head_keeps d ack true releases refused_it other h =
      let h' : Has g (books_frames (f ∷ fs, s.live.rejected)) =
        subst (λ x. Has g (x ++ rejected_frames s.live.rejected)) leads h in
      elim (Bool-cases (not (is_accepted d) && is_reopen_report f)) [
        | inl report ↦
            Has-books g (settle_drops_report f fs s leads d ack true releases report)
              (Has-dropped g f fs s.live.rejected ack (ground (arith)) other h')
        | inr owed ↦
            Has-books g (settle_moves_head f fs s leads d ack true releases owed)
              (Has-settled g f fs s.live.rejected ack s d refused_it refl h')
      ]

-- `_settle` by any verdict but an acceptance, its durable write failing or not, keeps every frame
-- of the outbox and of the dead letter in one of the two, but for a reopen report. `f` is the frame
-- that the answer is about: the head of the outbox, unless another frame is there by now.
pub unaccepted_frames_stay :
    (f : Frame) (d : Disposition) (ack : Option Verdict) (writes releases : Bool) (s : Stream)
    (g : Frame)
    → Current f s.live.frames
    → is_accepted d ≡ false
    → is_reopen_report g ≡ false
    → Has g (kept_frames s)
    → Has g (kept_frames (settle f d ack writes releases s).1)
unaccepted_frames_stay f d ack writes releases s g c refused_it other h =
    elim (head_cases f s.live.frames c) [
      | inl behind ↦ Has-books g (settle_behind f d ack writes releases s behind) h
      | inr (fs, leads) ↦ settle_head_keeps f fs s leads g d ack writes releases refused_it other h
    ]
