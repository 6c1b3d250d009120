-- ===== src/Agent/Claims.antt =====
-- What becomes of a claimed job.
use monty_pod.Common.{
  Bool, List, Option, [], arith, false, if◌then◌else◌, none, refl, some, suc, true, ℕ, ◌++◌, ◌+◌,
  ◌∷◌, ◌≡◌,
}
use monty_pod.Agent.Coordinator.{Coordinator}
use monty_pod.Agent.Dispatch.{
  Call, Effect, LoopFault, PodJob, RawEnvelope, Work, delivery_pending, dispatch_error_note,
  error_event, error_result, handled, leaves, noted, other_fault, request_failed, submitted,
  transport_unhealthy,
}
use monty_pod.Agent.Loop.{
  Counts, LoopRun, LoopTurn, TurnEnd, claimed, dispatch_loop, ends, goes_on, no_job, on_fault,
  poll_raised,
}

abbrev pub is_submission : Effect → Bool
is_submission (submitted pool meta future) = true
is_submission (noted phase meta) = false
is_submission (error_event error_type meta) = false
is_submission (error_result error_type meta) = false
is_submission dispatch_error_note = false

abbrev pub is_refusal : Effect → Bool
is_refusal (error_event error_type meta) = true
is_refusal (submitted pool meta future) = false
is_refusal (noted phase meta) = false
is_refusal (error_result error_type meta) = false
is_refusal dispatch_error_note = false

unfoldable pub submissions : List Effect → ℕ
submissions [] = 0
submissions (e ∷ es) = let n = submissions es in if is_submission e then suc n else n

unfoldable pub refusals : List Effect → ℕ
refusals [] = 0
refusals (e ∷ es) = let n = refusals es in if is_refusal e then suc n else n

abbrev pub is_claim : LoopTurn → Bool
is_claim t = elim t.poll [ poll_raised f ↦ false | no_job ↦ false | claimed j ↦ true ]

unfoldable pub claims : List LoopTurn → ℕ
claims [] = 0
claims (t ∷ turns) = let n = claims turns in if is_claim t then suc n else n

-- No call of the turn raises.
abbrev pub Calm : LoopTurn → Type 0
Calm t = (k : Call) → t.answers k ≡ none

pub submissions-append :
    (xs ys : List Effect) → submissions (xs ++ ys) ≡ submissions xs + submissions ys
unfolding submissions
submissions-append [] ys = omega arith
submissions-append (x ∷ xs) ys = ground (arith, submissions-append xs ys)

pub on_fault-quiet :
    (max_attempts : ℕ) (noting : Option LoopFault) (n : Counts) (f : LoopFault)
    → (submissions (on_fault max_attempts noting n f).0 ≡ 0)
      × (refusals (on_fault max_attempts noting n f).0 ≡ 0)
unfolding on_fault submissions refusals
on_fault-quiet max_attempts noting n request_failed = (refl, refl)
on_fault-quiet max_attempts noting n delivery_pending = (refl, refl)
on_fault-quiet max_attempts noting n transport_unhealthy = (refl, refl)
on_fault-quiet max_attempts none n other_fault = (refl, refl)
on_fault-quiet max_attempts (some f) n other_fault = (refl, refl)

-- A claimed job is submitted or refused, and a fault refuses it.
pub record IsAnswered (fault : Bool) (w : Work) : Type 0 where
  pub once : submissions w.effects + refusals w.effects ≡ 1
  pub refused : fault ≡ true → submissions w.effects ≡ 0
  pub outcome : w.outcome ≡ (if fault then leaves else handled)

module _ (read : RawEnvelope → Option PodJob) (kinds_coexist : Bool) (max_attempts : ℕ) where
  -- What follows a turn.
  abbrev pub next_run : List Effect → Coordinator → TurnEnd → List LoopTurn → LoopRun
  next_run es c end turns = elim end [
    | ends e ↦ record { effects = es; coordinator = c; end = e; left = turns }
    | goes_on n ↦
        let rest = dispatch_loop read kinds_coexist max_attempts c n turns in
        record (rest) { effects = es ++ rest.effects }
  ]
