-- ===== src/Agent/Ending.antt =====
-- What `main` does after the loop: `_drain_and_stop_on_infra_fault` and `_drain_and_restart`. What the
-- drain has left, whether the disk takes the flip, and whether `execv` works are arguments.
use Prim.Native.String.{slice}
use monty_pod.Common.{Bool, List, Option, String, [], if◌then◌else◌, none, some, ℕ, ◌∷◌}
use monty_pod.Agent.Coordinator.{Coordinator, Pool}
use monty_pod.Agent.Flips.{Flip, record_flip_or_refuse}
use monty_pod.Agent.Loop.{LoopRun, crashed, exited, polling, returned}

pub data EndStep : Type 0 where
  closed_stream killed_orphans marked_stopped : EndStep
  drained : (abandoned : List (Pool × String)) → EndStep
  marked_restart : (reason : String) → (abandoned : List (Pool × String)) → EndStep

-- `exec_failed`: exit 1. `flip_refused`: RestartRefused unwinds. `falls_through`: nothing is latched.
pub data ProcessEnd : Type 0 where
  fault_stop transport_stop executes exec_failed flip_refused falls_through unwinds still_polling :
      ProcessEnd

pub record MainEnd : Type 0 where
  pub steps : List EndStep
  pub process : ProcessEnd
  pub mark : Option (List Flip)

-- What the ending finds.
pub record Ending : Type 0 where
  pub left : List (Pool × String)
  pub now : ℕ
  pub written : Bool
  pub can_exec : Bool

abbrev pub drain_and_stop : Ending → Option (List Flip) → MainEnd
drain_and_stop e mark = record {
  steps = drained e.left ∷ closed_stream ∷ killed_orphans ∷ marked_stopped ∷ [];
  process = fault_stop;
  mark = mark;
}

-- A target is a digest, with one byte for a character.
unfoldable pub drain_and_restart : Ending → Coordinator → Option (List Flip) → MainEnd
unfolding record_flip_or_refuse
drain_and_restart e c mark =
    elim (record_flip_or_refuse e.written (slice c.target_pack 0 12) e.now mark) [
      | none ↦ record { steps = []; process = flip_refused; mark = mark }
      | some next ↦ record {
        steps =
            closed_stream ∷ drained e.left ∷ killed_orphans ∷ marked_restart c.reason e.left ∷ [];
        process = if e.can_exec then executes else exec_failed;
        mark = next;
      }
    ]

unfoldable pub after_loop : Ending → Coordinator → Option (List Flip) → MainEnd
unfolding drain_and_restart
after_loop e c mark =
    if c.fault
    then drain_and_stop e mark
    else if c.restart
    then drain_and_restart e c mark
    else record { steps = []; process = falls_through; mark = mark }

-- `main` from a run of its loop on.
unfoldable pub main_end : Ending → Option (List Flip) → LoopRun → MainEnd
unfolding after_loop
main_end e mark run = elim run.end [
  | returned ↦ after_loop e run.coordinator mark
  | exited ↦ record { steps = marked_stopped ∷ []; process = transport_stop; mark = mark }
  | crashed ↦ record { steps = []; process = unwinds; mark = mark }
  | polling ↦ record { steps = []; process = still_polling; mark = mark }
]
