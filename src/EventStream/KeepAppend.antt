-- ===== src/EventStream/KeepAppend.antt =====
-- `_append` and `_append_bootstrap_head` keep the invariant, whether the writes succeed or not.
use monty_pod.Common.{
  All, All-All, All-append, All-erase, All-map, Bool, Bool-cases, List, Option-cases, [], arith,
  contains, eqb, erase, false, inl, inr, refl, string_eq, true, ℕ, ◌&&◌, ◌++◌, ◌+◌, ◌∷◌, ◌≡◌,
}
use monty_pod.EventStream.Frame.{
  Body, Frame, corr_of, event, is_client_frame, is_result, is_valid_payload,
}
use monty_pod.EventStream.State.{
  Ended, Stream, append_failed, bootstrap_failed, invalid_payload, persist, protocol_error, raised,
  result_corrs, returned, unhealthy,
}
use monty_pod.EventStream.Append.{
  announce_ready, append, append_bootstrap_head, append_probed, appended, appended_head,
  finish_append, note_bootstrap, restored,
}
use monty_pod.EventStream.Invariant.{Earlier, IsClientFrame, IsValid, NotIn}
use monty_pod.EventStream.Sound.{erased, erased-Sound, put_back-Sound}
use monty_pod.EventStream.Moves.{Leaves, added-Sound, headed-Sound}
use monty_pod.EventStream.Keep.{
  Earlier-suc, IsValid-Ready, Ready, Same, Same-IsValid, latch-Same, new_key, new_key_left,
  persist-IsValid,
}
use monty_pod.StreamModels.{Event}

module _ (s : Stream) (body : Body) where
  -- The frame that an append makes.
  abbrev pub next_frame : Frame
  next_frame = record { stream_id = s.stream_id; seq = s.next_seq; body = body }

  Earlier-after :
      (fs : List Frame)
      → All (Earlier s.stream_id s.next_seq) fs
      → All (Earlier s.stream_id (s.next_seq + 1)) (fs ++ next_frame ∷ [])
  Earlier-after fs h =
      All-append (Earlier s.stream_id (s.next_seq + 1)) fs (next_frame ∷ [])
        (Earlier-suc s.stream_id s.next_seq fs h) (inr (omega arith), tt)

  appended-Ready : IsClientFrame next_frame → IsValid s → Ready (appended next_frame s)
  unfolding appended erased
  appended-Ready c v =
      let keys = new_key s.stream_id s.next_seq s.live.frames v.earlier in
      elim (Bool-cases (is_result body)) [
        | inl yes_result ↦
            let id = corr_of body in
            let leaves : All (Leaves next_frame) (erase id s.live.inbox) =
              All-map (λ x. NotIn (result_corrs s.live) x × (eqb id x.0 ≡ false))
                (Leaves next_frame) (λ x h. rw (h.1) (ground arith)) (erase id s.live.inbox)
                (All-erase (NotIn (result_corrs s.live)) id s.live.inbox v.live_sound.open_jobs) in
            rw (yes_result, appended)
              (record {
                ready_sound =
                    added-Sound (erased id s.live) next_frame c keys leaves
                      (erased-Sound id s.live v.live_sound);
                ready_earlier = Earlier-after s.live.frames v.earlier;
                ready_id = v.own_id;
                ready_seq = omega arith;
              })
        | inr no_result ↦
            let leaves : All (Leaves next_frame) s.live.inbox =
              All-All (Leaves next_frame) (λ x. rw no_result refl) s.live.inbox in
            rw (no_result, appended)
              (record {
                ready_sound = added-Sound s.live next_frame c keys leaves v.live_sound;
                ready_earlier = Earlier-after s.live.frames v.earlier;
                ready_id = v.own_id;
                ready_seq = omega arith;
              })
      ]

  restored-IsValid : IsValid s → IsValid (restored next_frame s)
  unfolding restored
  restored-IsValid v = elim (Bool-cases (is_result body)) [
    | inl yes_result ↦
        rw (yes_result, restored)
          (record {
            live_sound = put_back-Sound (corr_of body) s.live v.live_sound;
            disk_sound = v.disk_sound;
            saved_frames = v.saved_frames;
            saved_rejected = v.saved_rejected;
            earlier = v.earlier;
            own_id = v.own_id;
            numbered = v.numbered;
          })
    | inr no_result ↦ rw (no_result, restored) v
  ]

finish_append-Same : (w : Bool) (f : Frame) (s : Stream) → Same s (finish_append w f s)
unfolding finish_append
finish_append-Same w f s = record {
  same_live = refl;
  same_disk = refl;
  same_id = refl;
  same_seq = refl;
}

append_probed-IsValid :
    (body : Body) (wait writes : Bool) (s : Stream)
    → IsValid s
    → IsValid (append_probed body wait writes s).1
unfolding append_probed
append_probed-IsValid body wait writes s v =
    elim (Bool-cases (is_result body && contains (corr_of body) (result_corrs s.live))) [
      | inl repeated ↦ rw (repeated, append_probed) v
      | inr new_corr ↦ elim (Bool-cases (is_client_frame (next_frame s body))) [
        | inr bad ↦ rw (new_corr, bad, append_probed) v
        | inl fine ↦ elim (Option-cases (persist writes (appended (next_frame s body) s))) [
          | inl missed ↦
              rw (new_corr, fine, missed, append_probed)
                (Same-IsValid (latch-Same (unhealthy append_failed) true _)
                  (restored-IsValid s body v))
          | inr (t, wrote) ↦
              rw (new_corr, fine, wrote, append_probed)
                (Same-IsValid (finish_append-Same wait (next_frame s body) t)
                  (persist-IsValid writes _ wrote (appended-Ready s body fine v)))
        ]
      ]
    ]

pub append-IsValid :
    (body : Body) (wait probe writes : Bool) (s : Stream)
    → IsValid s
    → IsValid (append body wait probe writes s).1
unfolding append
append-IsValid body wait probe writes s v = elim (Bool-cases (is_valid_payload body)) [
  | inr bad ↦ rw (bad, append) (Same-IsValid (latch-Same (unhealthy invalid_payload) false s) v)
  | inl fine ↦ elim (Option-cases s.storage_error) [
    | inl healthy ↦ rw (fine, healthy, append) (append_probed-IsValid body wait writes s v)
    | inr (e, latched) ↦ elim (Option-cases (persist probe s)) [
      | inl missed ↦ rw (fine, latched, missed, append) v
      | inr (t, wrote) ↦
          rw (fine, latched, wrote, append)
            (append_probed-IsValid body wait writes t
              (persist-IsValid probe s wrote (IsValid-Ready v)))
    ]
  ]
]

pub note_bootstrap-IsValid : (r : Ended ℕ × Stream) → IsValid r.1 → IsValid (note_bootstrap r).1
note_bootstrap-IsValid (returned n, s) v =
    Same-IsValid (record { same_live = refl; same_disk = refl; same_id = refl; same_seq = refl }) v
note_bootstrap-IsValid (raised u, s) v = v
note_bootstrap-IsValid (protocol_error, s) v = v

module _ (s : Stream) (e : Event) where
  headed-Ready :
      IsClientFrame (next_frame s (event e))
      → IsValid s
      → Ready (appended_head (next_frame s (event e)) s)
  unfolding appended_head
  headed-Ready c v = record {
    ready_sound =
        headed-Sound s.live (next_frame s (event e)) c
          (new_key_left s.stream_id s.next_seq s.live.frames v.earlier)
          (All-All (Leaves (next_frame s (event e))) (λ x. refl) s.live.inbox) v.live_sound;
    ready_earlier = (inr (omega arith), Earlier-suc s.stream_id s.next_seq s.live.frames v.earlier);
    ready_id = v.own_id;
    ready_seq = omega arith;
  }

  pub append_bootstrap_head-IsValid :
      (arm writes : Bool) → IsValid s → IsValid (append_bootstrap_head e arm writes s).1
  unfolding append_bootstrap_head
  append_bootstrap_head-IsValid arm writes v =
      elim (Bool-cases (is_client_frame (next_frame s (event e)))) [
        | inr bad ↦ rw (bad, append_bootstrap_head) v
        | inl fine ↦
            elim (Option-cases (persist writes (appended_head (next_frame s (event e)) s))) [
              | inl missed ↦
                  rw (fine, missed, append_bootstrap_head)
                    (Same-IsValid (latch-Same (unhealthy bootstrap_failed) true s) v)
              | inr (t, wrote) ↦
                  rw (fine, wrote, append_bootstrap_head)
                    (Same-IsValid
                      (record {
                        same_live = refl;
                        same_disk = refl;
                        same_id = refl;
                        same_seq = refl;
                      })
                      (persist-IsValid writes _ wrote (headed-Ready fine v)))
            ]
      ]

  pub announce_ready-IsValid : (writes : Bool) → IsValid s → IsValid (announce_ready e writes s).1
  unfolding announce_ready
  announce_ready-IsValid writes v =
      note_bootstrap-IsValid (append_bootstrap_head e true writes s)
        (append_bootstrap_head-IsValid true writes v)
