-- ===== src/OpRunner/Binding.antt =====
-- The ports of a step: `_bind_inputs`, `assert_output_arity` and `_bind_outputs`. A path is kept by
-- its parts; what `urlparse` and `PurePosixPath` find as the suffix of an address, which paths exist,
-- and what a fetch gives are arguments.
use Prim.Native.String.{String}
use monty_pod.Common.{
  Bool, List, Option, [], contains, if◌then◌else◌, insert, is_empty, is_some, lookup, map, none,
  not, select, some, str_eq, string_eq, ℕ, ◌&&◌, ◌+◌, ◌||◌, ◌∷◌,
}
use monty_pod.OpRunner.Envelope.{OpBinding, OpStep, ports}
use monty_pod.OpRunner.Registry.{
  Checked, Op, Port, each, err, list_port_binds_url, list_port_read, missing_inputs, missing_path,
  not_produced, ok, other_failure, require, single_port_binds_urls, unbound_list_port,
  undeclared_input, undeclared_output, ◌>>=◌, ◌>>◌,
}

-- `<root>/<step>/<port><suffix>`, `<root>/<step>/_<port>/<index><suffix>`, a path of the working set,
-- and a lease of a fetched object.
pub data Place : Type 0 where
  port_file : String → String → String → Place
  element_file : String → String → ℕ → String → Place
  working_file : String → Place
  lease : String → Place

-- What a port has got: one file, or a file for each element.
pub data Output : Type 0 where
  one_file : Place → Output
  many_files : List Place → Output

abbrev pub Outputs : Type 0
Outputs = List (String × Output)

abbrev kind_ext : List (String × String)
kind_ext =
    ("video", ".mp4")
    ∷ ("audio", ".m4a")
    ∷ ("image", ".png")
    ∷ ("font", ".ttf")
    ∷ ("code", ".txt")
    ∷ ("json", ".json")
    ∷ ("dir", "")
    ∷ []

abbrev or_empty : Option String → String
or_empty none = ""
or_empty (some s) = s

abbrev suffix_of : (String → String) → Option String → String
suffix_of suffix none = ""
suffix_of suffix (some a) = if str_eq a "" then "" else suffix a

-- `_ext(None, port)`
unfoldable pub default_ext : Port → String
unfolding lookup
default_ext p = or_empty (lookup p.kind kind_ext)

-- `_ext`
unfoldable pub ext : (String → String) → OpBinding → Port → String
unfolding default_ext
ext suffix b p =
    if not (str_eq (suffix_of suffix b.url) "")
    then suffix_of suffix b.url
    else if not (str_eq (suffix_of suffix b.path) "")
    then suffix_of suffix b.path
    else default_ext p

-- `{p.id: p for p in ports}.get(k)`: the last port of that name.
unfoldable pub find_port : String → List Port → Option Port
find_port k [] = none
find_port k (p ∷ ps) = elim (find_port k ps) [
  | some q ↦ some q
  | none ↦ if str_eq p.id k then some p else none
]

abbrev pub single : Output → Checked Place
single (one_file f) = ok f
single (many_files fs) = err list_port_read

-- The `from_step` branch of `_bind_inputs`, on what the producer has got.
abbrev pub wanted_port : OpBinding → String
wanted_port b = elim b.from_port [ none ↦ b.port | some q ↦ q ]

abbrev pub by_name : String → Outputs → Checked Place
by_name want src = elim (lookup want src) [ none ↦ err not_produced | some o ↦ single o ]

unfoldable pub hand_off : OpBinding → Outputs → Checked Place
unfolding lookup
hand_off b [] = err not_produced
hand_off b ((q, o) ∷ []) =
    if not (is_some b.from_port) && not (str_eq q b.port)
    then single o
    else by_name (wanted_port b) ((q, o) ∷ [])
hand_off b ((q, o) ∷ (r, o') ∷ src) = by_name (wanted_port b) ((q, o) ∷ (r, o') ∷ src)

-- What a step finds outside of the chain: whether a path exists, and what `fetch` (of the address) and
-- `fetch_retained` (of the address and the holder) give.
pub record World : Type 0 where
  pub exists : String → Bool
  pub fetch : String → Checked Place
  pub fetch_retained : String → String → Checked Place

abbrev pub or_none : Option Outputs → Outputs
or_none none = []
or_none (some outs) = outs

abbrev pub from_world : World → OpBinding → Checked Place
from_world w b = elim b.path [
  | some p ↦ if w.exists p then ok (working_file p) else err missing_path
  | none ↦ elim b.url [
    | none ↦ err other_failure
    | some u ↦ elim b.retained_on [ none ↦ w.fetch u | some holder ↦ w.fetch_retained u holder ]
  ]
]

unfoldable pub bind_input : World → List (String × Outputs) → OpBinding → Checked Place
unfolding hand_off lookup
bind_input w produced b = elim b.from_step [
  | some p ↦ hand_off b (or_none (lookup p produced))
  | none ↦ from_world w b
]

unfoldable pub bind_each :
    World
    → List (String × Outputs)
    → Op
    → List OpBinding
    → List (String × Place)
    → Checked (List (String × Place))
unfolding bind_input find_port
bind_each w produced op [] bound = ok bound
bind_each w produced op (b ∷ bs) bound =
    require (is_some (find_port b.port op.inputs)) undeclared_input
    >> (bind_input w produced b >>= λ f. bind_each w produced op bs (insert b.port f bound))

abbrev bound_ports : List (String × Place) → List String
bound_ports bound = map (λ (x : String × Place). x.0) bound

-- `_bind_inputs`
unfoldable pub bind_inputs :
    World → List (String × Outputs) → Op → OpStep → Checked (List (String × Place))
unfolding bind_each contains select
bind_inputs w produced op s = do
  bound ← bind_each w produced op s.inputs []
  require
      (is_empty (
        select (λ (p : Port). not p.optional && not (contains p.id (bound_ports bound))) op.inputs))
      missing_inputs
  ok bound

abbrev pub arity_of : OpBinding → Option Port → Checked (Unit {0})
arity_of b none = err undeclared_output
arity_of b (some p) =
    require (not (p.many && not (is_some b.urls))) list_port_binds_url
    >> require (not (is_some b.urls && not p.many)) single_port_binds_urls

-- `assert_output_arity`
unfoldable pub assert_output_arity : OpStep → Op → Checked (Unit {0})
unfolding each find_port contains
assert_output_arity s op = do
  each (λ (b : OpBinding). arity_of b (find_port b.port op.outputs)) s.outputs
  each
      (λ (p : Port).
        require (not (p.many && not (contains p.id (ports s.outputs)))) unbound_list_port)
      op.outputs

-- The paths of the elements of a list port, from number `i` on.
unfoldable pub elements : String → String → String → ℕ → List String → List Place
elements step port suffix i [] = []
elements step port suffix i (u ∷ us) =
    element_file step port i suffix ∷ elements step port suffix (i + 1) us

abbrev urls_of : Option (List String) → List String
urls_of none = []
urls_of (some us) = us

unfoldable pub output_of : (String → String) → String → OpBinding → Port → Output
unfolding ext elements
output_of suffix step b p =
    if p.many
    then many_files (elements step b.port (ext suffix b p) 0 (urls_of b.urls))
    else one_file (port_file step b.port (ext suffix b p))

unfoldable pub outputs_from :
    (String → String) → String → Op → List OpBinding → Outputs → Checked Outputs
unfolding output_of find_port
outputs_from suffix step op [] outs = ok outs
outputs_from suffix step op (b ∷ bs) outs = elim (find_port b.port op.outputs) [
  | none ↦ err undeclared_output
  | some p ↦ outputs_from suffix step op bs (insert b.port (output_of suffix step b p) outs)
]

-- `outputs.setdefault(...)` for the ports of one file.
unfoldable pub with_defaults : String → List Port → Outputs → Outputs
unfolding default_ext contains
with_defaults step [] outs = outs
with_defaults step (p ∷ ps) outs = with_defaults step ps (
    if p.many || is_some (lookup p.id outs)
    then outs
    else insert p.id (one_file (port_file step p.id (default_ext p))) outs)

-- `_bind_outputs`
unfoldable pub bind_outputs : (String → String) → OpStep → Op → Checked Outputs
unfolding assert_output_arity outputs_from with_defaults
bind_outputs suffix s op = do
  assert_output_arity s op
  outs ← outputs_from suffix s.id op s.outputs []
  ok (with_defaults s.id op.outputs outs)
