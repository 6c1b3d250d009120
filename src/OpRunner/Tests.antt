-- ===== src/OpRunner/Tests.antt =====
-- A chain of three steps: one fetches a clip, one cuts it, and an optional one makes a sheet of it.
use Prim.Native.String.{String}
use monty_pod.Common.{
  List, Option, [], all, any_known, contains, false, if◌then◌else◌, insert, none, refl, select,
  some, str_eq, string_eq, true, ◌∷◌, ◌≡◌,
}
use monty_pod.OpRunner.Envelope.{OpBinding, OpStep, dag_is_sound, deps_of, is_valid_chain}
use monty_pod.OpRunner.Registry.{Declaration, Op, Port, Registry, load_all, ok}
use monty_pod.OpRunner.Binding.{Outputs, Place, World, lease, one_file, port_file}
use monty_pod.OpRunner.Schedule.{
  chain_error, complete, drop_dependents, drop_each, finished, is_optional, next_back, run_loop,
  schedule, submit,
}
use monty_pod.OpRunner.Progress.{Ends, schedule-Ends}

abbrev binding : String → OpBinding
binding port = record {
  port = port;
  url = none;
  urls = none;
  from_step = none;
  from_port = none;
  path = none;
  sha256 = none;
  retain = false;
  retained_on = none;
}

abbrev clip_out : OpBinding
clip_out = record (binding "clip") { url = some "https://store/clip.mp4" }

abbrev clip_in : OpBinding
clip_in = record (binding "source") { from_step = some "fetch"; from_port = some "clip" }

abbrev fetch_step : OpStep
fetch_step = record {
  id = "fetch";
  op = "media.fetch";
  needs = [];
  params = "{}";
  inputs = [];
  outputs = clip_out ∷ [];
  optional = false;
}

abbrev cut_step : OpStep
cut_step = record {
  id = "cut";
  op = "cut.apply";
  needs = "fetch" ∷ [];
  params = "{}";
  inputs = clip_in ∷ [];
  outputs = [];
  optional = false;
}

abbrev sheet_step : OpStep
sheet_step = record (cut_step) { id = "sheet"; op = "media.sheet"; optional = true }

abbrev pub three_steps : List OpStep
three_steps = cut_step ∷ sheet_step ∷ fetch_step ∷ []

pub three_steps_sound : dag_is_sound three_steps ≡ true
unfolding dag_is_sound
three_steps_sound = refl

three_steps_valid :
    is_valid_chain
      (record { chain_version = 1; job_id = "job"; pack = "pack"; steps = three_steps })
    ≡ true
unfolding is_valid_chain
three_steps_valid = refl

-- Two steps that wait for each other are refused.
cycle_refused : dag_is_sound (cut_step ∷ record (fetch_step) { needs = "cut" ∷ [] } ∷ []) ≡ false
unfolding dag_is_sound
cycle_refused = refl

abbrev clip_place : Place
clip_place = port_file "fetch" "clip" ".mp4"

abbrev clip_outputs : Outputs
clip_outputs = ("clip", one_file clip_place) ∷ []

abbrev fetched : List (String × Outputs)
fetched = ("fetch", clip_outputs) ∷ []

abbrev pub sheet_fails : String → Option Outputs
sheet_fails k =
    if str_eq k "fetch" then some clip_outputs else if str_eq k "cut" then some [] else none

schedule-Ends_example : Ends three_steps sheet_fails (schedule three_steps sheet_fails (λ n. n))
schedule-Ends_example = schedule-Ends three_steps sheet_fails (λ n. n) three_steps_sound

three_steps_finish :
    schedule three_steps sheet_fails (λ n. n)
    ≡ finished (record {
      pending = [];
      running = [];
      produced = ("fetch", clip_outputs) ∷ ("cut", []) ∷ [];
      failed = "sheet" ∷ [];
    })
unfolding schedule run_loop submit complete next_back drop_dependents drop_each is_optional deps_of
    any_known contains select all insert
three_steps_finish = refl

-- The fetch fails, and the chain with it.
fetch_required : schedule three_steps (λ k. none) (λ n. n) ≡ chain_error
unfolding schedule run_loop submit complete next_back drop_dependents drop_each is_optional deps_of
    any_known contains select all insert
fetch_required = refl

abbrev clip_port : Port
clip_port = record { id = "clip"; kind = "video"; optional = false; durable = true; many = false }

abbrev source_port : Port
source_port = record (clip_port) { id = "source"; durable = false }

abbrev declared : String → List Port → List Port → Declaration
declared name ins outs = record {
  stem = name;
  op = name;
  version = 1;
  needs = "net" ∷ [];
  judgement = false;
  parity_mode = some "bit_exact";
  inputs = ins;
  outputs = outs;
  closed_params = true;
  params_schema = "{}";
  handler = "handler";
  budget = none;
}

abbrev op_of : String → List Port → List Port → Op
op_of name ins outs = record {
  op = name;
  version = 1;
  needs = "net" ∷ [];
  judgement = false;
  parity_mode = "bit_exact";
  inputs = ins;
  outputs = outs;
  params_schema = "{}";
  handler = "handler";
  budget = "cpu";
}

abbrev fetch_op : Op
fetch_op = op_of "media.fetch" [] (clip_port ∷ [])

abbrev three_ops : Registry
three_ops =
    ("cut.apply", op_of "cut.apply" (source_port ∷ []) [])
    ∷ ("media.fetch", fetch_op)
    ∷ ("media.sheet", op_of "media.sheet" (source_port ∷ []) [])
    ∷ []

three_ops_load :
    load_all
      (declared "cut.apply" (source_port ∷ []) []
        ∷ declared "media.fetch" [] (clip_port ∷ [])
        ∷ declared "media.sheet" (source_port ∷ []) []
        ∷ [])
      []
    ≡ ok three_ops
unfolding load_all insert all
three_ops_load = refl

abbrev suffix : String → String
suffix a = ".mp4"

abbrev nothing_outside : World
nothing_outside = record {
  exists = λ p. false;
  fetch = λ u. ok (lease u);
  fetch_retained = λ u holder. ok (lease u);
}
