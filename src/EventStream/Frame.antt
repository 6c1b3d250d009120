-- ===== src/EventStream/Frame.antt =====
-- Client frames and the verdict table of the control plane (`_classify_verdict`).
use Prim.Native.String.{String}
use text.Mathlib.Text.{starts_with}
use monty_pod.Common.{
  Bool, List, Option, [], contains, false, if◌then◌else◌, leb, none, pair_eq, some, str_eq,
  string_eq, true, ℕ, ◌&&◌, ◌==◌, ◌||◌, ◌∷◌,
}
use monty_pod.StreamModels.{
  Event, Receipt, Result, is_attempt_id, is_stream_id, is_valid_event, is_valid_receipt,
  is_valid_result,
}

pub data Body : Type 0 where
  event : Event → Body
  result : String → Result → Body
  job_ack : Receipt → Body

pub record Frame : Type 0 where
  pub stream_id : String
  pub seq : ℕ
  pub body : Body

-- `_frame_key`
abbrev pub Key : Type 0
Key = String × ℕ

abbrev pub frame_key : Frame → Key
frame_key f = (f.stream_id, f.seq)

-- `event_payload`, `result_payload` and `job_ack_payload`
unfoldable pub is_valid_payload : Body → Bool
is_valid_payload (event e) = is_valid_event e
is_valid_payload (result attempt r) = is_valid_result r
is_valid_payload (job_ack a) = is_valid_receipt a

abbrev pub is_valid_attempt : Body → Bool
is_valid_attempt (event e) = true
is_valid_attempt (result attempt r) = is_attempt_id attempt
is_valid_attempt (job_ack a) = true

-- `_validate_client_frame`
unfoldable pub is_client_frame : Frame → Bool
is_client_frame f =
    is_stream_id f.stream_id && leb 1 f.seq && is_valid_attempt f.body && is_valid_payload f.body

-- `str(payload.get("corr_id") or "")`
abbrev pub corr_of : Body → String
corr_of (event e) = elim e.corr_id [ none ↦ "" | some c ↦ c ]
corr_of (result attempt r) = r.corr_id
corr_of (job_ack a) = a.corr_id

abbrev pub is_result : Body → Bool
is_result (event e) = false
is_result (result attempt r) = true
is_result (job_ack a) = false

-- A row of the dead letter: the frame and the verdict's status and error.
pub record Verdict : Type 0 where
  pub status : ℕ
  pub error : String

pub record Rejected : Type 0 where
  pub frame : Frame
  pub ack : Option Verdict

abbrev phase_is : String → Event → Bool
phase_is p e = elim e.phase [ none ↦ false | some q ↦ str_eq q p ]

unfoldable pub is_boot_frame : Frame → Bool
is_boot_frame f = elim f.body [
  | event e ↦ str_eq e.stage "boot"
  | result attempt r ↦ false
  | job_ack a ↦ false
]

-- A boot event whose phase is `stream_reopen`
unfoldable pub is_reopen_report : Frame → Bool
is_reopen_report f = elim f.body [
  | event e ↦ str_eq e.stage "boot" && phase_is "stream_reopen" e
  | result attempt r ↦ false
  | job_ack a ↦ false
]

abbrev pub not_owned : String
not_owned = "job_ack corr is not owned by this worker"

abbrev pub one_frame_exact_texts : List String
one_frame_exact_texts =
    not_owned ∷ "stream_id+seq reused with different payload"
    ∷ "corr_id/result_key already names a different terminal" ∷ "unknown or expired fleet corr_id"
    ∷ "fleet corr attribution does not match frame" ∷ "fleet corr attribution does not match result"
    ∷ "late_terminal_unknown" ∷ []

unfoldable pub names_one_frame : String → Bool
unfolding contains
names_one_frame error =
    contains error one_frame_exact_texts
    || starts_with error "pod delivery identity conflict: "
    || starts_with error "job_ack arrived before readiness: "

pub data Classified : Type 0 where
  one_frame closes_admission no_verdict : Classified

unfoldable pub classify_verdict : Frame → ℕ → String → Classified
classify_verdict f status error =
    if is_reopen_report f && (status == 403 || status == 409 || status == 422)
    then one_frame
    else if status == 403
    then (if names_one_frame error then one_frame else closes_admission)
    else if status == 422
    then (if is_boot_frame f then closes_admission else one_frame)
    else if status == 409
    then (if names_one_frame error then one_frame else no_verdict)
    else no_verdict
