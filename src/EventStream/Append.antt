-- ===== src/EventStream/Append.antt =====
-- `_append` and `_append_bootstrap_head`: a frame is durable before any socket write.
use Prim.Native.String.{String}
use monty_pod.Common.{
  Bool, List, Option, [], contains, discard, erase, false, if◌then◌else◌, insert, lookup, none, not,
  some, string_eq, true, ℕ, ◌&&◌, ◌++◌, ◌+◌, ◌∷◌,
}
use monty_pod.StreamModels.{Event}
use monty_pod.EventStream.Frame.{
  Body, Frame, corr_of, event, frame_key, is_client_frame, is_result, is_valid_payload,
}
use monty_pod.EventStream.State.{
  Ended, Stream, append_failed, bootstrap_failed, duplicate_result, invalid_payload, latch, persist,
  protocol_error, raised, result_corrs, returned, unhealthy,
}

-- The frame at the tail of the outbox, and a result's job out of the inbox: one transition.
unfoldable pub appended : Frame → Stream → Stream
appended f s =
    let d = s.live in
    record s {
      next_seq = s.next_seq + 1;
      live = record d {
        frames = d.frames ++ f ∷ [];
        inbox = if is_result f.body then erase (corr_of f.body) d.inbox else d.inbox;
        deliveries = if is_result f.body then erase (corr_of f.body) d.deliveries else d.deliveries;
      };
    }

abbrev pub put_back : {V : Type 0} → String → Option V → List (String × V) → List (String × V)
put_back k none d = d
put_back k (some v) d = insert k v d

-- What is restored when the write fails: an entry that was popped comes back at the end.
unfoldable pub restored : Frame → Stream → Stream
restored f s =
    let d = s.live in
    let c = corr_of f.body in
    if is_result f.body
    then record s {
      live = record d {
        inbox = put_back c (lookup c d.inbox) (erase c d.inbox);
        deliveries = put_back c (lookup c d.deliveries) (erase c d.deliveries);
      };
    }
    else s

-- The discards at the end, and the waiter of a caller that waits.
unfoldable pub finish_append : Bool → Frame → Stream → Stream
finish_append wait f s = record s {
  queued_ids = if is_result f.body then discard (corr_of f.body) s.queued_ids else s.queued_ids;
  claimed_ids = if is_result f.body then discard (corr_of f.body) s.claimed_ids else s.claimed_ids;
  waiters = if wait then frame_key f ∷ s.waiters else s.waiters;
}

-- The part of `_append` after the probe of a latched storage.
unfoldable pub append_probed : Body → Bool → Bool → Stream → Ended ℕ × Stream
append_probed body wait writes s =
    let f : Frame = record { stream_id = s.stream_id; seq = s.next_seq; body = body } in
    if is_result body && contains (corr_of body) (result_corrs s.live)
    then (raised (unhealthy duplicate_result), s)
    else if not (is_client_frame f)
    then (protocol_error, s)
    else elim (persist writes (appended f s)) [
      | some s' ↦ (returned f.seq, finish_append wait f s')
      | none ↦
          (raised (unhealthy append_failed), latch (unhealthy append_failed) true (restored f s))
    ]

-- `probe` answers the write that tests a latched storage, `writes` that of the frame itself.
unfoldable pub append : Body → Bool → Bool → Bool → Stream → Ended ℕ × Stream
unfolding append_probed
append body wait probe writes s =
    if not (is_valid_payload body)
    then (raised (unhealthy invalid_payload), latch (unhealthy invalid_payload) false s)
    else elim s.storage_error [
      | none ↦ append_probed body wait writes s
      | some e ↦ elim (persist probe s) [
        | none ↦ (raised e, s)
        | some s' ↦ append_probed body wait writes s'
      ]
    ]

unfoldable pub appended_head : Frame → Stream → Stream
appended_head f s =
    let d = s.live in
    record s { next_seq = s.next_seq + 1; live = record d { frames = f ∷ d.frames } }

-- `_append_bootstrap_head`; an event that is not valid raises before anything changes.
unfoldable pub append_bootstrap_head : Event → Bool → Bool → Stream → Ended ℕ × Stream
append_bootstrap_head e arm_waiter writes s =
    let f : Frame = record { stream_id = s.stream_id; seq = s.next_seq; body = event e } in
    if not (is_client_frame f)
    then (protocol_error, s)
    else elim (persist writes (appended_head f s)) [
      | none ↦ (raised (unhealthy bootstrap_failed), latch (unhealthy bootstrap_failed) true s)
      | some s' ↦ (
        returned f.seq,
        record s' { waiters = if arm_waiter then frame_key f ∷ s'.waiters else s'.waiters },
      )
    ]

-- The identity of the frame, where the append has returned one.
abbrev pub note_bootstrap : Ended ℕ × Stream → Ended ℕ × Stream
note_bootstrap (returned seq, s) =
    (returned seq, record s { pending_bootstrap = some (s.stream_id, seq) })
note_bootstrap (raised u, s) = (raised u, s)
note_bootstrap (protocol_error, s) = (protocol_error, s)

-- `announce_ready`
unfoldable pub announce_ready : Event → Bool → Stream → Ended ℕ × Stream
announce_ready e writes s = note_bootstrap (append_bootstrap_head e true writes s)
