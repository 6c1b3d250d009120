-- ===== src/Agent/Stopped.antt =====
-- A faulty card is never restarted onto.
use monty_pod.Agent.Coordinator.{Coordinator}
use monty_pod.Agent.Ending.{Ending}
