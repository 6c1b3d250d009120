-- ===== src/OpRunner/Registry.antt =====
-- podagent/ops/registry.py: what a declaration of an op must hold, and the gates before an op runs.
-- A declaration is the JSON of its file, read; whether parameters fit a schema is for the JSON Schema
-- validator to say, an argument here.
use Prim.Native.String.{String}
use monty_pod.Common.{
  Bool, List, Option, [], all_known, contains, false, if◌then◌else◌, insert, lookup, none, not,
  some, str_eq, string_eq, true, ℕ, ◌||◌, ◌∷◌,
}

-- What is refused: by the registry (`OpError`), and by the runner (`ChainError`).
pub data OpFault : Type 0 where
  unknown_need unknown_budget unknown_parity misfiled_op output_only_flag open_params : OpFault
  unknown_op invalid_params judgement_op needs_secret : OpFault
  undeclared_input undeclared_output list_port_binds_url single_port_binds_urls unbound_list_port :
      OpFault
  list_port_read not_produced missing_path missing_inputs : OpFault
  missing_op held_elsewhere no_such_output list_output_read other_failure : OpFault
  put_failed put_hung scheduling_failed : OpFault

pub data Checked {ℓ} (A : Type ℓ) : Type ℓ where
  ok : A → Checked A
  err : OpFault → Checked A

infixl 5 ◌>>=◌ ◌>>◌
abbrev pub ◌>>=◌ {ℓ κ} : {A : Type ℓ} {B : Type κ} → Checked A → (A → Checked B) → Checked B
ok a >>= f = f a
err e >>= f = err e

abbrev pub ◌>>◌ {ℓ} : {B : Type ℓ} → Checked (Unit {0}) → Checked B → Checked B
m >> k = m >>= λ _. k

abbrev pub require : Bool → OpFault → Checked (Unit {0})
require true e = ok tt
require false e = err e

-- A loop that only checks.
unfoldable pub each {ℓ} : {A : Type ℓ} → (A → Checked (Unit {0})) → List A → Checked (Unit {0})
each check [] = ok tt
each check (x ∷ xs) = let rest = each check xs in check x >>= λ _. rest

pub record Port : Type 0 where
  pub id : String
  pub kind : String
  pub optional : Bool
  pub durable : Bool
  pub many : Bool

-- The JSON of a declaration. `budget` and `parity_mode` may be absent; `closed_params`: the type of
-- `params` is object and its additionalProperties is false.
pub record Declaration : Type 0 where
  pub stem : String
  pub op : String
  pub version : ℕ
  pub needs : List String
  pub judgement : Bool
  pub parity_mode : Option String
  pub inputs : List Port
  pub outputs : List Port
  pub closed_params : Bool
  pub params_schema : String
  pub handler : String
  pub budget : Option String

pub record Op : Type 0 where
  pub op : String
  pub version : ℕ
  pub needs : List String
  pub judgement : Bool
  pub parity_mode : String
  pub inputs : List Port
  pub outputs : List Port
  pub params_schema : String
  pub handler : String
  pub budget : String

abbrev pub needs_vocab : List String
needs_vocab = "video_encode" ∷ "model_weights" ∷ "browser" ∷ "net" ∷ "keys" ∷ "llm" ∷ []

abbrev pub budget_vocab : List String
budget_vocab = "cpu" ∷ "transport" ∷ []

abbrev pub parity_modes : List String
parity_modes = "bit_exact" ∷ "perceptual" ∷ "numeric" ∷ []

abbrev or_cpu : Option String → String
or_cpu none = "cpu"
or_cpu (some b) = b

abbrev parity_of : Option String → Checked String
parity_of none = err unknown_parity
parity_of (some m) = if contains m parity_modes then ok m else err unknown_parity

-- `_load_one`
unfoldable pub load_one : Declaration → Checked Op
unfolding contains each
load_one d = do
  require (all_known needs_vocab d.needs) unknown_need
  require (contains (or_cpu d.budget) budget_vocab) unknown_budget
  mode ← parity_of d.parity_mode
  require (str_eq d.op d.stem) misfiled_op
  each (λ (p : Port). require (not (p.many || p.durable)) output_only_flag) d.inputs
  require d.closed_params open_params
  ok (record {
    op = d.op;
    version = d.version;
    needs = d.needs;
    judgement = d.judgement;
    parity_mode = mode;
    inputs = d.inputs;
    outputs = d.outputs;
    params_schema = d.params_schema;
    handler = d.handler;
    budget = or_cpu d.budget;
  })

-- `all_ops`, of the declarations in the order of their files.
unfoldable pub load_all : List Declaration → List (String × Op) → Checked (List (String × Op))
unfolding load_one
load_all [] ops = ok ops
load_all (d ∷ ds) ops = load_one d >>= λ op. load_all ds (insert op.op op ops)

abbrev pub Registry : Type 0
Registry = List (String × Op)

unfoldable pub get : Registry → String → Checked Op
get ops name = elim (lookup name ops) [ none ↦ err unknown_op | some op ↦ ok op ]

-- `validate_params`; `fits`: the schema validator finds no error.
unfoldable pub validate_params :
    (String → String → Bool) → Registry → String → String → Checked (Unit {0})
unfolding get
validate_params fits ops name params =
    get ops name >>= λ op. require (fits op.params_schema params) invalid_params

unfoldable pub assert_pod_safe : Registry → String → Checked (Unit {0})
unfolding get contains
assert_pod_safe ops name = do
  op ← get ops name
  require (not op.judgement) judgement_op
  require (not (contains "keys" op.needs || contains "llm" op.needs)) needs_secret
