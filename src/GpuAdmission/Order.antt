-- ===== src/GpuAdmission/Order.antt =====
-- The queue, the parked threads and the live reservations under each change of them.
use monty_pod.Common.{
  ==_iff, All, All-append, Bool-cases, List, [], ap, arith, head?, inl, inr, length, refl, some,
  subst, suc, tail, ℕ, ◌++◌, ◌+◌, ◌<◌, ◌==◌, ◌∷◌, ◌≡◌, ◌≤◌,
}
use monty_pod.GpuAdmission.{Waiter, assign, live_mib, pop, remove}
use monty_pod.GpuAdmission.System.{dismiss}
use monty_pod.GpuAdmission.Invariant.{Ascending, Below, Older, tokens}

pub live_mib-assign-le :
    (token mib : ℕ) (live : List (ℕ × ℕ)) → live_mib (assign token mib live) ≤ live_mib live + mib
unfolding live_mib assign
live_mib-assign-le token mib [] = omega arith
live_mib-assign-le token mib ((t, m) ∷ live) = ground (arith, live_mib-assign-le token mib live)

pub live_mib-pop-le : (token : ℕ) (live : List (ℕ × ℕ)) → live_mib (pop token live) ≤ live_mib live
unfolding live_mib pop
live_mib-pop-le token [] = omega arith
live_mib-pop-le token ((t, m) ∷ live) = ground (arith, live_mib-pop-le token live)

module _ (P : ℕ × ℕ → Type 0) where
  pub All-assign :
      (token mib : ℕ) (live : List (ℕ × ℕ))
      → P (token, mib)
      → All P live
      → All P (assign token mib live)
  unfolding assign
  All-assign token mib [] p h = (p, tt)
  All-assign token mib ((t, m) ∷ live) p h = ground (arith, All-assign token mib live p h.1)

  pub All-pop : (token : ℕ) (live : List (ℕ × ℕ)) → All P live → All P (pop token live)
  unfolding pop
  All-pop token [] h = h
  All-pop token ((t, m) ∷ live) h = ground (arith, All-pop token live h.1)

pub All-dismiss {ℓ} :
    (P : Waiter → Type ℓ) (token : ℕ) (ws : List Waiter) → All P ws → All P (dismiss token ws)
unfolding dismiss
All-dismiss P token [] h = h
All-dismiss P token (w ∷ ws) h = elim (Bool-cases (w.token == token)) [
  | inl e ↦ rw (e, dismiss) h.1
  | inr e ↦ rw (e, dismiss) (h.0, All-dismiss P token ws h.1)
]

pub dismiss-Ascending : (token : ℕ) (ws : List Waiter) → Ascending ws → Ascending (dismiss token ws)
unfolding dismiss
dismiss-Ascending token [] h = h
dismiss-Ascending token (w ∷ ws) h = elim (Bool-cases (w.token == token)) [
  | inl e ↦ rw (e, dismiss) h.1
  | inr e ↦
      rw (e, dismiss)
        (All-dismiss (λ v. w.token < v.token) token ws h.0, dismiss-Ascending token ws h.1)
]

pub length-dismiss-le : (token : ℕ) (ws : List Waiter) → length (dismiss token ws) ≤ length ws
unfolding dismiss
length-dismiss-le token [] = omega arith
length-dismiss-le token (w ∷ ws) = ground (arith, length-dismiss-le token ws)

pub tokens-dismiss :
    (token : ℕ) (ws : List Waiter) → tokens (dismiss token ws) ≡ remove token (tokens ws)
unfolding dismiss remove
tokens-dismiss token [] = refl
tokens-dismiss token (w ∷ ws) = ground (arith, tokens-dismiss token ws)

pub tokens-append :
    (ws : List Waiter) (w : Waiter) → tokens (ws ++ w ∷ []) ≡ tokens ws ++ w.token ∷ []
tokens-append [] w = refl
tokens-append (v ∷ ws) w = ap (◌∷◌ v.token) (tokens-append ws w)

pub append-Ascending :
    (ws : List Waiter) (w : Waiter) → Ascending ws → Below w.token ws → Ascending (ws ++ w ∷ [])
append-Ascending [] w h b = (tt, tt)
append-Ascending (v ∷ ws) w h b =
    (All-append (λ u. v.token < u.token) ws (w ∷ []) h.0 (b.0, tt), append-Ascending ws w h.1 b.1)

pub tail-dismiss :
    (token : ℕ) (ws : List Waiter)
    → head? (tokens ws) ≡ some token
    → tail (tokens ws) ≡ tokens (dismiss token ws)
unfolding dismiss
tail-dismiss token [] h = refl
tail-dismiss token (w ∷ ws) h = ground arith

-- The head of the queue is older than everybody behind it.
pub head_oldest :
    (token : ℕ) (ws : List Waiter)
    → Ascending ws
    → head? (tokens ws) ≡ some token
    → Older (dismiss token ws) (token, 0)
unfolding dismiss
head_oldest token [] a h = tt
head_oldest token (w ∷ ws) a h =
    let e : w.token ≡ token = cc in
    rw ((==_iff w.token token).1 e, dismiss) (subst (λ t. Older ws (t, 0)) e a.0)

pub length-tokens : (ws : List Waiter) → length (tokens ws) ≡ length ws
length-tokens [] = refl
length-tokens (w ∷ ws) = ap suc (length-tokens ws)
