-- ===== src/EventStream/KeepAcked.antt =====
-- The event of an acknowledged result is a valid frame.
use Prim.Native.String.{String}
use monty_pod.Common.{Bool-cases, Option, arith, inl, inr, le→leb, none, refl, some, true, ◌≡◌, ◌≤◌}
use monty_pod.StreamModels.{
  Result, is_filled, is_filled_or_absent, is_stream_id, is_valid_event, is_valid_result,
}
use monty_pod.EventStream.Frame.{is_client_frame, is_valid_payload}
use monty_pod.EventStream.State.{Stream}
use monty_pod.EventStream.Settle.{acked_op, acked_stage, or_else, result_acked_frame}
use monty_pod.EventStream.Invariant.{IsClientFrame}

pub acked_stage-filled :
    (stage kind : Option String)
    → is_filled_or_absent stage ≡ true
    → is_filled (acked_stage stage kind) ≡ true
acked_stage-filled (some s) kind h = h
acked_stage-filled none (some k) h = refl
acked_stage-filled none none h = refl

pub or_else-filled :
    (s : Option String) (d : String)
    → is_filled_or_absent s ≡ true
    → is_filled d ≡ true
    → is_filled (or_else s d) ≡ true
or_else-filled (some s) d h k = h
or_else-filled none d h k = k

pub acked_op-filled :
    (op kind : Option String) (stage : String)
    → is_filled_or_absent kind ≡ true
    → is_filled stage ≡ true
    → is_filled (acked_op op kind stage) ≡ true
acked_op-filled none kind stage h k = or_else-filled kind stage h k
acked_op-filled (some op) kind stage h k = elim (Bool-cases (is_filled op)) [
  | inl named ↦ rw (named) named
  | inr empty ↦ rw (empty) (or_else-filled kind stage h k)
]

-- What the validation of a result leaves to its `result_acked` event.
pub result_parts :
    (r : Result)
    → is_valid_result r ≡ true
    → (is_filled r.job_id ≡ true)
      × (is_filled r.session_id ≡ true)
      × (is_filled r.corr_id ≡ true)
      × (is_filled_or_absent r.kind ≡ true)
      × (is_filled_or_absent r.stage ≡ true)
unfolding is_valid_result
result_parts r v = (ground arith, ground arith, ground arith, ground arith, ground arith)

pub result_acked-IsClientFrame :
    (s : Stream) (r : Result)
    → is_stream_id s.stream_id ≡ true
    → 1 ≤ s.next_seq
    → is_valid_result r ≡ true
    → IsClientFrame (result_acked_frame s r)
unfolding result_acked_frame is_client_frame is_valid_payload is_valid_event
result_acked-IsClientFrame s r i n v =
    let p = result_parts r v in
    let filled_stage = acked_stage-filled r.stage r.kind p.4 in
    rw (
      i,
      le→leb 1 s.next_seq n,
      filled_stage,
      p.0,
      p.1,
      p.2,
      acked_op-filled r.op r.kind _ p.3 filled_stage,
    )
