-- ===== src/OpRunner/Envelope.antt =====
-- `OpBinding`, `OpStep` and `OpChain` of podagent/models.py with their validators. The parameters of
-- an op and the reference to its pack stand in one text each.
use Prim.Native.String.{String}
use monty_pod.Common.{
  Bool, List, Option, [], all, all_known, contains, false, if◌then◌else◌, is_empty, is_some, leb,
  length, map, none, not, select, some, str_eq, string_eq, suc, true, zero, ℕ, ◌&&◌, ◌++◌, ◌+◌,
  ◌==◌, ◌||◌, ◌∷◌,
}
use monty_pod.StreamModels.{codes, is_filled, is_filled_or_absent}

-- `retain` is None or "local".
pub record OpBinding : Type 0 where
  pub port : String
  pub url : Option String
  pub urls : Option (List String)
  pub from_step : Option String
  pub from_port : Option String
  pub path : Option String
  pub sha256 : Option String
  pub retain : Bool
  pub retained_on : Option String

pub record OpStep : Type 0 where
  pub id : String
  pub op : String
  pub needs : List String
  pub params : String
  pub inputs : List OpBinding
  pub outputs : List OpBinding
  pub optional : Bool

pub record OpChain : Type 0 where
  pub chain_version : ℕ
  pub job_id : String
  pub pack : String
  pub steps : List OpStep

abbrev in_range : ℕ → ℕ → ℕ → Bool
in_range lo hi c = leb lo c && leb c hi

-- [0-9a-f]{64}
unfoldable pub is_sha256 : Option String → Bool
unfolding all
is_sha256 none = true
is_sha256 (some s) =
    length (codes s) == 64 && all (λ c. in_range b'0' b'9' c || in_range b'a' b'f' c) (codes s)

-- [A-Za-z0-9_.:-]+
unfoldable pub is_worker : Option String → Bool
unfolding all
is_worker none = true
is_worker (some s) =
    is_filled s
    && all
        (λ c.
          in_range b'A' b'Z' c
          || in_range b'a' b'z' c
          || in_range b'0' b'9' c
          || c == b'_'
          || c == b'.'
          || c == b':'
          || c == b'-')
        (codes s)

abbrev pub is_urls : Option (List String) → Bool
is_urls none = true
is_urls (some us) = leb 1 (length us) && leb (length us) 256 && all is_filled us

abbrev count_some {ℓ} : {A : Type ℓ} → Option A → ℕ
count_some none = 0
count_some (some a) = 1

-- The fields of a binding, and `_exactly_one_source`.
unfoldable pub is_valid_binding : OpBinding → Bool
unfolding all is_sha256 is_worker
is_valid_binding b =
    is_filled b.port
    && is_filled_or_absent b.url
    && is_urls b.urls
    && is_filled_or_absent b.from_step
    && is_filled_or_absent b.from_port
    && is_filled_or_absent b.path
    && is_sha256 b.sha256
    && is_worker b.retained_on
    && count_some b.url + count_some b.urls + count_some b.from_step + count_some b.path == 1
    && (not (is_some b.from_port) || is_some b.from_step)
    && (not b.retain || is_some b.url)
    && (not (is_some b.retained_on) || is_some b.url)
    && not (b.retain && is_some b.retained_on)

-- `len(set(names)) == len(names)`
unfoldable pub is_distinct : List String → Bool
unfolding contains
is_distinct [] = true
is_distinct (n ∷ names) = not (contains n names) && is_distinct names

abbrev pub ports : List OpBinding → List String
ports bs = map (λ (b : OpBinding). b.port) bs

-- ^[a-z][a-z0-9_]*\.[a-z][a-z0-9_]*$ ; `dot`: whether the dot has been read.
unfoldable pub is_op_tail : Bool → List ℕ → Bool
is_op_tail dot [] = dot
is_op_tail false (c ∷ d ∷ cs) =
    if c == b'.'
    then in_range b'a' b'z' d && is_op_tail true cs
    else (in_range b'a' b'z' c || in_range b'0' b'9' c || c == b'_') && is_op_tail false (d ∷ cs)
is_op_tail false (c ∷ []) = false
is_op_tail true (c ∷ cs) =
    (in_range b'a' b'z' c || in_range b'0' b'9' c || c == b'_') && is_op_tail true cs

unfoldable pub is_op_name : List ℕ → Bool
unfolding is_op_tail
is_op_name [] = false
is_op_name (c ∷ cs) = in_range b'a' b'z' c && is_op_tail false cs

-- The fields of a step, and `_ports_unique`.
unfoldable pub is_valid_step : OpStep → Bool
unfolding all is_distinct is_op_name is_valid_binding
is_valid_step s =
    is_filled s.id
    && is_op_name (codes s.op)
    && all is_valid_binding s.inputs
    && all is_valid_binding s.outputs
    && is_distinct (ports s.inputs)
    && is_distinct (ports s.outputs)
    && all
        (λ b. not (is_some b.from_step) && not (is_some b.from_port) && not (is_some b.retained_on))
        s.outputs
    && all (λ b. not b.retain && not (is_some b.urls)) s.inputs

-- The steps that the inputs read.
unfoldable pub sources : List OpBinding → List String
sources [] = []
sources (b ∷ bs) = elim b.from_step [ none ↦ sources bs | some s ↦ s ∷ sources bs ]

abbrev pub step_deps : OpStep → List String
step_deps s = s.needs ++ sources s.inputs

abbrev pub ids : List OpStep → List String
ids steps = map (λ (s : OpStep). s.id) steps

-- `by_id`, where the ids are distinct.
unfoldable pub by_id : String → List OpStep → Option OpStep
by_id k [] = none
by_id k (s ∷ steps) = if str_eq s.id k then some s else by_id k steps

-- `deps[sid]`: `set(s.needs) | {b.from_step for b in s.inputs if b.from_step}`
unfoldable pub deps_of : List OpStep → String → List String
unfolding by_id sources
deps_of steps k = elim (by_id k steps) [ none ↦ [] | some s ↦ step_deps s ]

-- The loop of `_dag_is_sound`: whether the rounds empty `pending`. `n`: the rounds that may be left.
unfoldable pub rounds_settle : (String → List String) → ℕ → List String → List String → Bool
rounds_settle deps zero known pending = is_empty pending
rounds_settle deps (suc n) known pending =
    let ready = select (λ k. all_known known (deps k)) pending in
    let waiting = select (λ k. not (all_known known (deps k))) pending in
    let rest = rounds_settle deps n (known ++ ready) waiting in
    if is_empty pending then true else if is_empty ready then false else rest

-- `_dag_is_sound`
unfoldable pub dag_is_sound : List OpStep → Bool
unfolding all contains select is_distinct sources deps_of rounds_settle
dag_is_sound steps =
    is_distinct (ids steps)
    && all (λ s. all_known (ids steps) s.needs) steps
    && all (λ s. all_known (ids steps) (sources s.inputs)) steps
    && rounds_settle (deps_of steps) (length steps) [] (ids steps)
    && all (λ s. all_known s.needs (sources s.inputs)) steps

unfoldable pub is_valid_chain : OpChain → Bool
unfolding all is_valid_step dag_is_sound
is_valid_chain c =
    c.chain_version == 1
    && is_filled c.job_id
    && leb 1 (length c.steps)
    && all is_valid_step c.steps
    && dag_is_sound c.steps
