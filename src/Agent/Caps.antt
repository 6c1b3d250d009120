-- ===== src/Agent/Caps.antt =====
-- When the loop gives up on the transport.
use monty_pod.Common.{
  Bool, Bool-cases, List, Option, [], ap, arith, false, if◌then◌else◌, inl, inr, ltb, map, none,
  refl, suc, true, ℕ, ◌+◌, ◌||◌, ◌∙◌, ◌∷◌, ◌≡◌,
}
use monty_pod.Agent.Coordinator.{Coordinator, stop_claiming}
use monty_pod.Agent.Dispatch.{
  LoopFault, PodJob, RawEnvelope, delivery_pending, other_fault, request_failed,
  transport_unhealthy,
}
use monty_pod.Agent.Loop.{
  Counts, LoopTurn, apply_changes, delivery_pending_max_attempts, dispatch_loop, exited, healthy,
  on_fault, poll_raised, poll_turn, polling, transport_unhealthy_max_attempts,
}

-- A turn whose poll raises.
abbrev pub failing_turn : LoopFault → LoopTurn
failing_turn f = record {
  before = [];
  poll = poll_raised f;
  during = [];
  answers = λ k. none;
  future = 0;
}

abbrev pub is_pending_fault : LoopFault → Bool
is_pending_fault delivery_pending = true
is_pending_fault request_failed = false
is_pending_fault transport_unhealthy = false
is_pending_fault other_fault = false

abbrev pub is_unhealthy_fault : LoopFault → Bool
is_unhealthy_fault transport_unhealthy = true
is_unhealthy_fault delivery_pending = false
is_unhealthy_fault request_failed = false
is_unhealthy_fault other_fault = false

unfoldable pub count_faults : (LoopFault → Bool) → List LoopFault → ℕ
count_faults p [] = 0
count_faults p (f ∷ faults) = let n = count_faults p faults in if p f then suc n else n

-- Whether the attempts are too many.
abbrev pub is_over_cap : ℕ → Counts → List LoopFault → Bool
is_over_cap max_attempts n faults =
    ltb delivery_pending_max_attempts (n.pending_attempts + count_faults is_pending_fault faults)
    || ltb max_attempts (n.unhealthy_attempts + count_faults is_unhealthy_fault faults)

given_up : (b : Bool) → b ≡ true → exited ≡ (if b then exited else polling)
given_up b h = rw h refl

module _ (read : RawEnvelope → Option PodJob) (kinds_coexist : Bool) (max_attempts : ℕ)
    (c : Coordinator) where
  loop_end-failing :
      (n : Counts) (faults : List LoopFault)
      → stop_claiming c ≡ false
      → is_over_cap max_attempts n [] ≡ false
      → (dispatch_loop read kinds_coexist max_attempts c n (map failing_turn faults)).end
        ≡ (if is_over_cap max_attempts n faults then exited else polling)
  unfolding dispatch_loop poll_turn on_fault count_faults apply_changes
  loop_end-failing n [] on under = rw under refl
  loop_end-failing n (request_failed ∷ faults) on under =
      rw (on, dispatch_loop) (loop_end-failing n faults on under)
  loop_end-failing n (other_fault ∷ faults) on under =
      rw (on, dispatch_loop) (loop_end-failing n faults on under)
  loop_end-failing n (delivery_pending ∷ faults) on under =
      elim (Bool-cases (ltb delivery_pending_max_attempts (n.pending_attempts + 1))) [
        | inl over ↦
            rw (on, over, dispatch_loop)
              (given_up (is_over_cap max_attempts n (delivery_pending ∷ faults)) (ground (arith)))
        | inr again ↦
            let ih =
              loop_end-failing (record (n) { pending_attempts = n.pending_attempts + 1 }) faults on
                (ground (arith)) in
            rw (on, again, dispatch_loop)
              (ih ∙ ap (λ (b : Bool). if b then exited else polling) (ground (arith)))
      ]
  loop_end-failing n (transport_unhealthy ∷ faults) on under =
      elim (Bool-cases (ltb max_attempts (n.unhealthy_attempts + 1))) [
        | inl over ↦
            rw (on, over, dispatch_loop)
              (given_up (is_over_cap max_attempts n (transport_unhealthy ∷ faults))
                (ground (arith)))
        | inr again ↦
            let ih =
              loop_end-failing (record (n) { unhealthy_attempts = n.unhealthy_attempts + 1 }) faults
                on (ground (arith)) in
            rw (on, again, dispatch_loop)
              (ih ∙ ap (λ (b : Bool). if b then exited else polling) (ground (arith)))
      ]

-- Where every poll raises, no call of the handlers does and the coordinator is not latched, the loop
-- exits exactly if more than 120 polls find a delivery pending or more than the cap find the transport
-- unhealthy, in any order and with any other failures between them; otherwise it goes on polling.
pub exits_over_caps :
    (read : RawEnvelope → Option PodJob) (kinds_coexist : Bool) (default : ℕ) (c : Coordinator)
    (faults : List LoopFault)
    → stop_claiming c ≡ false
    → (dispatch_loop read kinds_coexist
        (transport_unhealthy_max_attempts default)
        c
        healthy
        (map failing_turn faults)).end
      ≡ (if is_over_cap (transport_unhealthy_max_attempts default) healthy faults
          then exited
          else polling)
unfolding count_faults
exits_over_caps read kinds_coexist default c faults on =
    loop_end-failing read kinds_coexist (transport_unhealthy_max_attempts default) c healthy faults
      on (ground (arith))
