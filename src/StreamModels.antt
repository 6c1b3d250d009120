-- ===== src/StreamModels.antt =====
-- podagent/stream_models.py over podagent/wire_generated.py: the records of the EventStream wire
-- and what their validators demand. A field that no code reads stands in `rest`, as its JSON text.
use Prim.Native.Char.{code}
use Prim.Native.String.{String}
use monty_pod.Common.{
  Bool, List, Option, [], all, false, is_some, leb, length, none, not, some, str_eq, true, ℕ, ◌&&◌,
  ◌==◌, ◌||◌, ◌∷◌,
}

abbrev pub codes : String → List ℕ
codes String.[] = []
codes (String.◌∷◌ c s) = code c ∷ codes s

abbrev within : ℕ → ℕ → ℕ → Bool
within lo hi c = leb lo c && leb c hi

-- [0-9a-f]{32}
unfoldable pub is_attempt_id : String → Bool
unfolding all
is_attempt_id s =
    length (codes s) == 32 && all (λ c. within b'0' b'9' c || within b'a' b'f' c) (codes s)

-- [A-Za-z0-9_.-]+, at most 128
unfoldable pub is_stream_id : String → Bool
unfolding all
is_stream_id s =
    within 1 128 (length (codes s))
    && all
        (λ c.
          within b'A' b'Z' c
          || within b'a' b'z' c
          || within b'0' b'9' c
          || c == b'_'
          || c == b'.'
          || c == b'-')
        (codes s)

-- `Field(min_length=1)`, also of a field that may be absent
abbrev pub is_filled : String → Bool
is_filled s = not (str_eq s "")

abbrev pub is_filled_or_absent : Option String → Bool
is_filled_or_absent none = true
is_filled_or_absent (some s) = is_filled s

pub data Status : Type 0 where
  done good step failed : Status

pub record Event : Type 0 where
  pub stage : String
  pub status : Status
  pub job_id : Option String
  pub session_id : Option String
  pub corr_id : Option String
  pub op : Option String
  pub phase : Option String
  pub rest : String

pub record Result : Type 0 where
  pub job_id : String
  pub session_id : String
  pub corr_id : String
  pub succeeded : Bool
  pub kind : Option String
  pub stage : Option String
  pub op : Option String
  pub result_key : Option String
  pub has_timing : Bool
  pub has_timings : Bool
  pub rest : String

pub record Receipt : Type 0 where
  pub delivery_id : String
  pub corr_id : String
  pub attempt_id : String
  pub client_recv_mono_ns : ℕ

pub record Ack : Type 0 where
  pub stream_id : String
  pub seq : ℕ
  pub status : ℕ
  pub server_recv_unix_ns : ℕ
  pub server_send_unix_ns : ℕ
  pub error : Option String

pub record Timeline : Type 0 where
  pub enqueue_min_unix_ns : ℕ
  pub enqueue_max_unix_ns : ℕ
  pub claim_min_unix_ns : ℕ
  pub claim_max_unix_ns : ℕ
  pub socket_write_min_unix_ns : ℕ

pub data JobKind : Type 0 where
  infer render ops : JobKind

-- `PodJob`: which blocks it carries, and their content in `rest`.
pub record Job : Type 0 where
  pub kind : JobKind
  pub corr_id : String
  pub job_id : String
  pub session_id : String
  pub has_request : Bool
  pub has_spec : Bool
  pub has_chain : Bool
  pub rest : String

pub record StreamJob : Type 0 where
  pub delivery_id : String
  pub attempt_id : String
  pub stream_id : String
  pub seq : ℕ
  pub replayed : Bool
  pub timeline : Timeline
  pub job : Job

unfoldable pub is_valid_event : Event → Bool
is_valid_event e =
    is_filled e.stage
    && is_filled_or_absent e.job_id
    && is_filled_or_absent e.session_id
    && is_filled_or_absent e.corr_id
    && is_filled_or_absent e.op
    && is_filled_or_absent e.phase

abbrev exactly_one : Bool → Bool → Bool
exactly_one true b = not b
exactly_one false b = b

-- `StreamResult._wire_shape`
abbrev pub has_wire_shape : Result → Bool
has_wire_shape r =
    exactly_one (is_some r.kind) (is_some r.stage)
    && not (r.has_timing && r.has_timings)
    && (elim r.result_key [ none ↦ true | some k ↦ str_eq k r.corr_id ])

unfoldable pub is_valid_result : Result → Bool
is_valid_result r =
    is_filled r.job_id
    && is_filled r.session_id
    && is_filled r.corr_id
    && is_filled_or_absent r.kind
    && is_filled_or_absent r.stage
    && is_filled_or_absent r.result_key
    && has_wire_shape r

-- `JobAckPayload._one_identity` over the fields
unfoldable pub is_valid_receipt : Receipt → Bool
is_valid_receipt a =
    is_filled a.delivery_id
    && is_filled a.corr_id
    && is_attempt_id a.attempt_id
    && str_eq a.delivery_id a.corr_id

-- `StreamAck._clock_order` over the fields
unfoldable pub is_valid_ack : Ack → Bool
is_valid_ack a =
    is_stream_id a.stream_id
    && leb 1 a.seq
    && within 100 599 a.status
    && leb a.server_recv_unix_ns a.server_send_unix_ns

-- `JobTimeline._bounds`
unfoldable pub is_valid_timeline : Timeline → Bool
is_valid_timeline t =
    leb t.enqueue_min_unix_ns t.enqueue_max_unix_ns && leb t.claim_min_unix_ns t.claim_max_unix_ns

-- `PodJob._block_matches_type`: the block of its type and no other
abbrev has_its_block : Job → Bool
has_its_block j = elim j.kind [
  | infer ↦ j.has_request && not j.has_spec && not j.has_chain
  | render ↦ j.has_spec && not j.has_request && not j.has_chain
  | ops ↦ j.has_chain && not j.has_request && not j.has_spec
]

unfoldable pub is_valid_job : Job → Bool
is_valid_job j = is_filled j.session_id && is_filled j.corr_id && has_its_block j

-- `StreamJob._one_identity` over the fields
unfoldable pub is_valid_stream_job : StreamJob → Bool
is_valid_stream_job f =
    is_filled f.delivery_id
    && is_attempt_id f.attempt_id
    && is_stream_id f.stream_id
    && leb 1 f.seq
    && is_valid_timeline f.timeline
    && is_valid_job f.job
    && str_eq f.delivery_id f.job.corr_id
