-- ===== src/OpRunner/Preflight.antt =====
-- `preflight_chain`: what is refused of a chain before its first step.
use Prim.Native.String.{String}
use monty_pod.Common.{Bool, List, Option, all, is_some, lookup, none, not, some, str_eq, string_eq}
use monty_pod.OpRunner.Envelope.{OpBinding, OpStep, by_id}
use monty_pod.OpRunner.Registry.{
  Checked, Op, Port, Registry, assert_pod_safe, each, err, get, held_elsewhere, list_output_read,
  missing_op, no_such_output, ok, other_failure, require, validate_params, ◌>>=◌, ◌>>◌,
}
use monty_pod.OpRunner.Binding.{assert_output_arity, find_port}

-- `assert_retained_here` of the worker `me`, the identity only.
abbrev pub held_here : String → Option String → Checked (Unit {0})
held_here me none = ok tt
held_here me (some holder) = require (str_eq holder me) held_elsewhere

abbrev pub readable : Option Port → Checked (Unit {0})
readable none = err no_such_output
readable (some p) = require (not p.many) list_output_read

abbrev pub producer_op : Registry → Option OpStep → Checked Op
producer_op reg none = err other_failure
producer_op reg (some s) = get reg s.op

-- The port that an input names is one that its producer declares, of one file. A binding that names
-- a port names its step (`_exactly_one_source`).
abbrev pub named_port : Registry → List OpStep → Option String → Option String → Checked (Unit {0})
named_port reg steps p none = ok tt
named_port reg steps none (some q) = err other_failure
named_port reg steps (some p) (some q) =
    producer_op reg (by_id p steps) >>= λ op. readable (find_port q op.outputs)

unfoldable pub check_input : String → Registry → List OpStep → OpBinding → Checked (Unit {0})
unfolding by_id get find_port
check_input me reg steps b =
    held_here me b.retained_on >> named_port reg steps b.from_step b.from_port

unfoldable pub check_step :
    String → (String → String → Bool) → Registry → List OpStep → OpStep → Checked (Unit {0})
unfolding assert_pod_safe validate_params assert_output_arity get each check_input
check_step me fits reg steps s =
    assert_pod_safe reg s.op
    >> (validate_params fits reg s.op s.params
        >> (get reg s.op >>= λ op.
            assert_output_arity s op >> each (check_input me reg steps) s.inputs))

-- `preflight_chain` on the worker `me`.
unfoldable pub preflight_chain :
    String → (String → String → Bool) → Registry → List OpStep → Checked (Unit {0})
unfolding all lookup each check_step
preflight_chain me fits reg steps =
    require (all (λ (s : OpStep). is_some (lookup s.op reg)) steps) missing_op
    >> each (check_step me fits reg steps) steps
