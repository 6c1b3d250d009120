-- ===== src/OpRunner/HandOff.antt =====
-- What a preflight rounds_settle of the ports before a step runs.
use Prim.Native.String.{String}
use monty_pod.Common.{List, false, is_some, lookup, some, string_eq, true, ◌≡◌, ◌⊎◌}
use monty_pod.OpRunner.Registry.{Port, Registry}
use monty_pod.OpRunner.Binding.{Output, Outputs, find_port, many_files, one_file}

abbrev IsSingle : Output → Type 0
IsSingle (one_file f) = Unit
IsSingle (many_files fs) = ⊥

abbrev SingleAt : String → Outputs → Type 0
SingleAt q outs = (o : Output) → lookup q outs ≡ some o → IsSingle o

abbrev Awaits : String → List Port → Outputs → Type 0
Awaits q ps outs =
    (is_some (lookup q outs) ≡ true) ⊎ ((p : Port) × (find_port q ps ≡ some p) × (p.many ≡ false))
