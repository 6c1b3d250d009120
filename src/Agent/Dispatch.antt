-- ===== src/Agent/Dispatch.antt =====
-- `_dispatch_loop`, `_raw_job_meta` and `_dispatch_validation_terminal`, with a coordinator and `once`
-- False. What each turn's poll gives and raises, what the calls of the turn raise, and what other
-- threads do to the coordinator before and during the poll, are arguments.
use Prim.Native.String.{◌++◌ as ◌<>◌}
use monty_pod.Common.{
  Bool, List, Option, String, [], false, if◌then◌else◌, is_some, none, some, str_eq, ℕ, ◌&&◌, ◌∷◌,
}
use monty_pod.StreamModels.{Job, infer, is_valid_job, ops, render}
use monty_pod.Agent.Coordinator.{Coordinator, Pool, heavy_pool, ops_pool, rank_pool, track}

-- A block of the raw envelope: a dict, of whose fields two are read, or anything else.
pub data Block : Type 0 where
  dict_block : (job_id kind : Option String) → Block
  other_block : Block

-- The raw envelope; a block that is missing or falsy is none.
pub record RawEnvelope : Type 0 where
  pub type_name : Option String
  pub session_id : Option String
  pub corr_id : Option String
  pub request : Option Block
  pub spec : Option Block
  pub chain : Option Block
  pub payload : String

pub record JobMeta : Type 0 where
  pub job_id : String
  pub session_id : Option String
  pub corr_id : Option String
  pub stage : String
  pub op : String

-- A string that is not empty.
abbrev pub truthy : Option String → Option String
truthy none = none
truthy (some s) = if str_eq s "" then none else some s

abbrev pub or_text : Option String → String → String
or_text o default = elim (truthy o) [ none ↦ default | some s ↦ s ]

abbrev pub block_of : RawEnvelope → Block
block_of j = elim j.request [
  | some b ↦ b
  | none ↦ elim j.spec [
    | some b ↦ b
    | none ↦ elim j.chain [ some b ↦ b | none ↦ dict_block none none ]
  ]
]

abbrev pub block_kind : Block → Option String
block_kind (dict_block job_id kind) = truthy kind
block_kind other_block = none

abbrev pub raw_job_id : Block → String
raw_job_id (dict_block job_id kind) = or_text job_id "unknown"
raw_job_id other_block = "unknown"

-- An f-string writes a name that is missing as None.
abbrev pub shown : Option String → String
shown none = "None"
shown (some s) = s

unfoldable pub raw_job_meta : RawEnvelope → JobMeta
raw_job_meta j = record {
  job_id = raw_job_id (block_of j);
  session_id = truthy j.session_id;
  corr_id = truthy j.corr_id;
  stage = or_text j.type_name "dispatch";
  op = elim (block_kind (block_of j)) [
    | some kind ↦ shown j.type_name <> (":" <> kind)
    | none ↦ or_text j.type_name "unknown"
  ];
}

-- `RequestException`, `DeliveryPending`, another `TransportUnhealthy`, any other exception
pub data LoopFault : Type 0 where
  request_failed delivery_pending transport_unhealthy other_fault : LoopFault

-- The calls of a turn that may raise.
pub data Call : Type 0 where
  at_received at_queued at_event at_result at_submit at_note : Call

pub data Effect : Type 0 where
  noted : (phase : String) → JobMeta → Effect
  error_event : (error_type : String) → JobMeta → Effect
  error_result : (error_type : String) → JobMeta → Effect
  submitted : Pool → JobMeta → (future : ℕ) → Effect
  dispatch_error_note : Effect

pub data Handled : Type 0 where
  handled leaves : Handled
  raised : LoopFault → Handled

pub record Work : Type 0 where
  pub effects : List Effect
  pub coordinator : Coordinator
  pub outcome : Handled

-- A call and what follows it.
abbrev pub call : Option LoopFault → Effect → Coordinator → Work → Work
call none e c after = record (after) { effects = e ∷ after.effects }
call (some f) e c after = record { effects = []; coordinator = c; outcome = raised f }

-- `_dispatch_validation_terminal`
unfoldable pub dispatch_validation_terminal :
    (Call → Option LoopFault) → JobMeta → String → Coordinator → Work → Work
dispatch_validation_terminal answers meta error_type c after =
    call (answers at_event) (error_event error_type meta) c (
      if is_some meta.corr_id && is_some meta.session_id
      then call (answers at_result) (error_result error_type meta) c after
      else after)

-- A job that pydantic has read, with the kind of its infer request.
pub record PodJob : Type 0 where
  pub job : Job
  pub infer_kind : String

-- `PodJob.model_validate`
abbrev pub validated : Option PodJob → Option PodJob
validated none = none
validated (some p) = if is_valid_job p.job then some p else none

abbrev pub is_clip_rank : PodJob → Bool
is_clip_rank p = elim p.job.kind [
  | infer ↦ str_eq p.infer_kind "clip_rank"
  | render ↦ false
  | ops ↦ false
]

abbrev pub pool_of : Bool → PodJob → Pool
pool_of kinds_coexist p = elim p.job.kind [
  | ops ↦ ops_pool
  | infer ↦ if is_clip_rank p && kinds_coexist then rank_pool else heavy_pool
  | render ↦ heavy_pool
]

abbrev pub track_label : PodJob → JobMeta → String
track_label p meta = elim p.job.kind [
  | ops ↦ or_text (some p.job.corr_id) (or_text (some meta.job_id) "?")
  | infer ↦ or_text meta.corr_id (or_text (some meta.job_id) "?")
  | render ↦ or_text meta.corr_id (or_text (some meta.job_id) "?")
]

abbrev pub submit_job : (Call → Option LoopFault) → Bool → ℕ → PodJob → JobMeta → Coordinator → Work
submit_job answers kinds_coexist future p meta c =
    call (answers at_submit) (submitted (pool_of kinds_coexist p) meta future) c (record {
      effects = [];
      coordinator = track (pool_of kinds_coexist p) (track_label p meta) future c;
      outcome = handled;
    })

-- A job that was claimed while the fault landed.
unfoldable pub refuse_claim : (Call → Option LoopFault) → RawEnvelope → Coordinator → Work
unfolding raw_job_meta dispatch_validation_terminal
refuse_claim answers j c =
    dispatch_validation_terminal answers (raw_job_meta j) "InfraFaultRefused" c
      (record { effects = []; coordinator = c; outcome = leaves })

unfoldable pub admit_claim :
    (RawEnvelope → Option PodJob)
    → Bool
    → (Call → Option LoopFault)
    → ℕ
    → RawEnvelope
    → Coordinator
    → Work
unfolding raw_job_meta dispatch_validation_terminal track
admit_claim read kinds_coexist answers future j c =
    call (answers at_received) (noted "received" (raw_job_meta j)) c (elim (validated (read j)) [
      | none ↦
          dispatch_validation_terminal answers (raw_job_meta j) "ValidationError" c
            (record { effects = []; coordinator = c; outcome = handled })
      | some p ↦
          call (answers at_queued) (noted "queued" (raw_job_meta j)) c
            (submit_job answers kinds_coexist future p (raw_job_meta j) c)
    ])

-- A claimed job.
unfoldable pub handle_claim :
    (RawEnvelope → Option PodJob)
    → Bool
    → (Call → Option LoopFault)
    → ℕ
    → RawEnvelope
    → Coordinator
    → Work
unfolding refuse_claim admit_claim
handle_claim read kinds_coexist answers future j c =
    if c.fault then refuse_claim answers j c else admit_claim read kinds_coexist answers future j c
