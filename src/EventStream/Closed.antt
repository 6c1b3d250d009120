-- ===== src/EventStream/Closed.antt =====
-- A latched verdict: once the control plane has refused a frame that closes the admission, nothing
-- but a new process opens it again, a failing disk and its recovery included.
use monty_pod.Common.{
  Bool, Bool-cases, Option, Option-cases, arith, contains, false, inl, inr, none, not, pair_eq,
  some, string_eq, subst, true, ℕ, ◌&&◌, ◌||◌, ◌≡◌,
}
use monty_pod.StreamModels.{Event}
use monty_pod.EventStream.Frame.{
  Body, Frame, Key, corr_of, event, is_client_frame, is_result, is_valid_payload,
}
use monty_pod.EventStream.State.{
  Ended, Stream, Unhealthy, append_failed, bootstrap_failed, clear_storage, invalid_payload,
  is_pending, latch, persist, protocol_error, raised, result_corrs, returned, unhealthy,
}
use monty_pod.EventStream.Append.{
  announce_ready, append, append_bootstrap_head, append_probed, appended, appended_head,
  finish_append, note_bootstrap, restored,
}
use monty_pod.EventStream.Settle.{reopen_admission, wake}

-- An error other than a pending delivery.
abbrev pub is_verdict : Option Unhealthy → Bool
is_verdict none = false
is_verdict (some e) = not (is_pending e)

-- The verdict is latched, or lies under the latch of a failed durable write.
unfoldable pub is_closed : Stream → Bool
is_closed s =
    is_verdict s.admission_error
    && (not s.admission_from_storage || is_verdict s.admission_before_storage)

abbrev pub Closed : Stream → Type 0
Closed s = is_closed s ≡ true

pub latch-Closed : (e : Unhealthy) (b : Bool) (s : Stream) → Closed s → Closed (latch e b s)
unfolding latch is_closed
latch-Closed e b s h = ground arith

clear_storage-Closed : (s : Stream) → Closed s → Closed (clear_storage s)
unfolding clear_storage is_closed
clear_storage-Closed s h = ground arith

pub reopen_admission-Closed : (s : Stream) → Closed s → Closed (reopen_admission s)
unfolding reopen_admission is_closed
reopen_admission-Closed s h = ground arith

abbrev ClosedIfWritten : Option Stream → Type 0
ClosedIfWritten none = Unit
ClosedIfWritten (some t) = Closed t

pub persist-Closed :
    (b : Bool) (s : Stream) {t : Stream} → persist b s ≡ some t → Closed s → Closed t
unfolding persist is_closed
persist-Closed false s e h = absurd (cc)
persist-Closed true s e h =
    subst ClosedIfWritten e (clear_storage-Closed (record s { disk = s.live }) h)

appended-Closed : (f : Frame) (s : Stream) → Closed s → Closed (appended f s)
unfolding appended is_closed
appended-Closed f s h = h

restored-Closed : (f : Frame) (s : Stream) → Closed s → Closed (restored f s)
unfolding restored is_closed
restored-Closed f s h = elim (Bool-cases (is_result f.body)) [
  | inl r ↦ rw (r, restored) h
  | inr n ↦ rw (n, restored) h
]

finish_append-Closed : (w : Bool) (f : Frame) (s : Stream) → Closed s → Closed (finish_append w f s)
unfolding finish_append is_closed
finish_append-Closed w f s h = h

pub wake-Closed :
    (k : Key) (b : Bool) (e : Option Unhealthy) (s : Stream) → Closed s → Closed (wake k b e s)
unfolding wake is_closed
wake-Closed k b e s h = elim (Bool-cases (contains k s.waiters)) [
  | inl armed ↦ rw (armed, wake) h
  | inr unarmed ↦ rw (unarmed, wake) h
]

append_probed-Closed :
    (body : Body) (wait writes : Bool) (s : Stream)
    → Closed s
    → Closed (append_probed body wait writes s).1
unfolding append_probed is_closed
append_probed-Closed body wait writes s h =
    let f : Frame = record { stream_id = s.stream_id; seq = s.next_seq; body = body } in
    elim (Bool-cases (is_result body && contains (corr_of body) (result_corrs s.live))) [
      | inl twice ↦ rw (twice, append_probed) h
      | inr once ↦ elim (Bool-cases (is_client_frame f)) [
        | inr bad ↦ rw (once, bad, append_probed) h
        | inl fine ↦ elim (Option-cases (persist writes (appended f s))) [
          | inl missed ↦
              rw (once, fine, missed, append_probed)
                (latch-Closed (unhealthy append_failed) true (restored f s) (restored-Closed f s h))
          | inr (t, wrote) ↦
              rw (once, fine, wrote, append_probed)
                (finish_append-Closed wait f t
                  (persist-Closed writes _ wrote (appended-Closed f s h)))
        ]
      ]
    ]

pub append-Closed :
    (body : Body) (wait probe writes : Bool) (s : Stream)
    → Closed s
    → Closed (append body wait probe writes s).1
unfolding append
append-Closed body wait probe writes s h = elim (Bool-cases (is_valid_payload body)) [
  | inr bad ↦ rw (bad, append) (latch-Closed (unhealthy invalid_payload) false s h)
  | inl fine ↦ elim (Option-cases s.storage_error) [
    | inl healthy ↦ rw (fine, healthy, append) (append_probed-Closed body wait writes s h)
    | inr (e, latched) ↦ elim (Option-cases (persist probe s)) [
      | inl missed ↦ rw (fine, latched, missed, append) h
      | inr (t, wrote) ↦
          rw (fine, latched, wrote, append)
            (append_probed-Closed body wait writes t (persist-Closed probe s wrote h))
    ]
  ]
]

pub note_bootstrap-Closed : (r : Ended ℕ × Stream) → Closed r.1 → Closed (note_bootstrap r).1
unfolding is_closed
note_bootstrap-Closed (returned n, s) h = h
note_bootstrap-Closed (raised u, s) h = h
note_bootstrap-Closed (protocol_error, s) h = h

pub append_bootstrap_head-Closed :
    (e : Event) (arm writes : Bool) (s : Stream)
    → Closed s
    → Closed (append_bootstrap_head e arm writes s).1
unfolding append_bootstrap_head is_closed appended_head
append_bootstrap_head-Closed e arm writes s h =
    let f : Frame = record { stream_id = s.stream_id; seq = s.next_seq; body = event e } in
    elim (Bool-cases (is_client_frame f)) [
      | inr bad ↦ rw (bad, append_bootstrap_head) h
      | inl fine ↦ elim (Option-cases (persist writes (appended_head f s))) [
        | inl missed ↦
            rw (fine, missed, append_bootstrap_head)
              (latch-Closed (unhealthy bootstrap_failed) true s h)
        | inr (t, wrote) ↦ rw (fine, wrote, append_bootstrap_head) (persist-Closed writes _ wrote h)
      ]
    ]

pub announce_ready-Closed :
    (e : Event) (writes : Bool) (s : Stream) → Closed s → Closed (announce_ready e writes s).1
unfolding announce_ready
announce_ready-Closed e writes s h =
    note_bootstrap-Closed _ (append_bootstrap_head-Closed e true writes s h)
