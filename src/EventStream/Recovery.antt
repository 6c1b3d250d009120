-- ===== src/EventStream/Recovery.antt =====
-- The latch of a failed durable write and its recovery, and which verdicts close the admission.
use Prim.Native.String.{String}
use monty_pod.Common.{Option, arith, false, none, some, true, ℕ, ◌↔◌, ◌≡◌, ◌⊎◌}
use monty_pod.EventStream.Frame.{
  Frame, classify_verdict, closes_admission, is_boot_frame, is_reopen_report, names_one_frame,
}
use monty_pod.EventStream.State.{Stream, Unhealthy}

-- The admission and the storage latch after a durable write.
abbrev pub latches : Option Stream → Option Unhealthy × Option Unhealthy
latches none = (none, none)
latches (some t) = (t.admission_error, t.storage_error)

-- A verdict closes the admission exactly for a frame that is no reopen report, by status 403 with a
-- text that names no one frame, or by 422 on a boot frame.
pub closes_admission_iff :
    (f : Frame) (status : ℕ) (error : String)
    → classify_verdict f status error ≡ closes_admission ↔ (
        (is_reopen_report f ≡ false)
        × (((status ≡ 403) × (names_one_frame error ≡ false))
            ⊎ ((status ≡ 422) × (is_boot_frame f ≡ true))))
unfolding classify_verdict
closes_admission_iff f status error = (λ h. ground arith, λ h. ground arith)
