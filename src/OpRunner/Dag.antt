-- ===== src/OpRunner/Dag.antt =====
-- `_dag_is_sound` accepts the chains of which the steps can be ranked.
use Prim.Native.String.{String}
use monty_pod.Common.{
  Bool-cases, Has→contains, List, [], all_known, all_known-contains, arith, contains,
  contains-append, contains-select, false, find_unknown, if◌then◌else◌, inl, inr, is_empty, length,
  length-select, not, refl, select, string_eq, suc, sym, true, true≢false, zero, ℕ, ◌++◌, ◌+◌, ◌<◌,
  ◌∷◌, ◌≡◌, ◌≤◌, ◌⊎◌,
}
use monty_pod.OpRunner.Envelope.{rounds_settle}

pub contains_nonempty : (k : String) (ks : List String) → contains k ks ≡ true → is_empty ks ≡ false
unfolding contains
contains_nonempty k [] h = absurd (ground (arith))
contains_nonempty k (j ∷ ks) h = refl

nonempty_length : (ks : List String) → is_empty ks ≡ false → 1 ≤ length ks
nonempty_length [] h = absurd (ground (arith))
nonempty_length (k ∷ ks) h = omega arith

module _ (deps : String → List String) where
  waiting_apart :
      (known pending : List String)
      → ((k : String) → contains k pending ≡ true → contains k known ≡ false)
      → (k : String) → contains k (select (λ j. not (all_known known (deps j))) pending) ≡ true
      → contains k (known ++ select (λ j. all_known known (deps j)) pending) ≡ false
  waiting_apart known pending apart k m =
      let a = contains-select k (λ j. not (all_known known (deps j))) pending in
      let b = contains-select k (λ j. all_known known (deps j)) pending in
      let c = contains-append k known (select (λ j. all_known known (deps j)) pending) in
      ground (arith, apart k)

  rank_after : List String → (String → ℕ) → String → ℕ
  rank_after known rank x = if contains x known then 0 else rank x + 1

  rank_after-lt :
      (known pending : List String) (rank : String → ℕ)
      → ((k : String)
          → contains k (select (λ j. not (all_known known (deps j))) pending) ≡ true
          → contains k (known ++ select (λ j. all_known known (deps j)) pending) ≡ false)
      → ((k d : String)
          → contains k (select (λ j. not (all_known known (deps j))) pending) ≡ true
          → contains d (deps k) ≡ true
          → (contains d (known ++ select (λ j. all_known known (deps j)) pending) ≡ true)
            ⊎ (rank d < rank k))
      → (k d : String) → contains k pending ≡ true
      → contains d (deps k) ≡ true
      → (contains d known ≡ true)
        ⊎ (rank_after (known ++ select (λ j. all_known known (deps j)) pending) rank d
            < rank_after (known ++ select (λ j. all_known known (deps j)) pending) rank k)
  unfolding rank_after
  rank_after-lt known pending rank apart low k d here dep =
      elim (Bool-cases (all_known known (deps k))) [
        | inl good ↦ inl (all_known-contains known (deps k) d good dep)
        | inr waits ↦
            let a = contains-select k (λ j. not (all_known known (deps j))) pending in
            let waiting : contains k (select (λ j. not (all_known known (deps j))) pending) ≡ true =
              ground (arith) in
            let fresh = apart k waiting in
            inr (elim (low k d waiting dep) [
              | inl first ↦ rw (first, fresh) (omega arith)
              | inr below ↦
                  elim (Bool-cases
                    (contains d (known ++ select (λ j. all_known known (deps j)) pending))) [
                      | inl first ↦ rw (first, fresh) (omega arith)
                      | inr later ↦ rw (later, fresh) (omega arith)
                    ]
            ])
      ]

  pub rounds_settle-Ranked :
      (n : ℕ) (known pending : List String)
      → rounds_settle deps n known pending ≡ true
      → ((k : String) → contains k pending ≡ true → contains k known ≡ false)
      → (rank : String → ℕ) × ((k d : String)
          → contains k pending ≡ true
          → contains d (deps k) ≡ true
          → (contains d known ≡ true) ⊎ (rank d < rank k))
  unfolding rounds_settle contains
  rounds_settle-Ranked n known [] h apart = ((λ x. 0), λ k d m. absurd (ground (arith)))
  rounds_settle-Ranked zero known (p ∷ pending) h apart = absurd (ground (arith))
  rounds_settle-Ranked (suc n) known (p ∷ pending) h apart =
      let ready = select (λ j. all_known known (deps j)) (p ∷ pending) in
      let waiting = select (λ j. not (all_known known (deps j))) (p ∷ pending) in
      elim (Bool-cases (is_empty ready)) [
        | inl none_ready ↦ absurd (true≢false (sym (rw none_ready at h)))
        | inr some_now ↦
            let rest : rounds_settle deps n (known ++ ready) waiting ≡ true = rw some_now at h in
            let (rank, low) =
              rounds_settle-Ranked n (known ++ ready) waiting rest
                (waiting_apart known (p ∷ pending) apart) in
            (
              rank_after (known ++ ready) rank,
              rank_after-lt known (p ∷ pending) rank (waiting_apart known (p ∷ pending) apart) low,
            )
      ]

  pub some_ready :
      (rank : String → ℕ) (known pending : List String)
      → ((k d : String)
          → contains k pending ≡ true
          → contains d (deps k) ≡ true
          → (contains d known ≡ true) ⊎ ((contains d pending ≡ true) × (rank d < rank k)))
      → (m : ℕ) (k : String) → contains k pending ≡ true
      → rank k < m
      → (j : String) × (contains j (select (λ i. all_known known (deps i)) pending) ≡ true)
  some_ready rank known pending low zero k here small = absurd (omega arith)
  some_ready rank known pending low (suc m) k here small =
      elim (Bool-cases (all_known known (deps k))) [
        | inl good ↦
            let a = contains-select k (λ j. all_known known (deps j)) pending in (k, ground (arith))
        | inr waits ↦
            let (d, dep, unknown) = find_unknown known (deps k) waits in
            elim (low k d here dep) [
              | inl clash ↦ absurd (ground (arith))
              | inr (there, below) ↦ some_ready rank known pending low m d there (omega arith)
            ]
      ]

  still_low :
      (known pending : List String) (rank : String → ℕ)
      → ((k d : String)
          → contains k pending ≡ true
          → contains d (deps k) ≡ true
          → (contains d known ≡ true) ⊎ ((contains d pending ≡ true) × (rank d < rank k)))
      → (k d : String) → contains k (select (λ j. not (all_known known (deps j))) pending) ≡ true
      → contains d (deps k) ≡ true
      → (contains d (known ++ select (λ j. all_known known (deps j)) pending) ≡ true)
        ⊎ ((contains d (select (λ j. not (all_known known (deps j))) pending) ≡ true)
            × (rank d < rank k))
  still_low known pending rank low k d here dep =
      let a = contains-select k (λ j. not (all_known known (deps j))) pending in
      let b = contains-select d (λ j. not (all_known known (deps j))) pending in
      let c = contains-select d (λ j. all_known known (deps j)) pending in
      let e = contains-append d known (select (λ j. all_known known (deps j)) pending) in
      elim (low k d (ground (arith)) dep) [
        | inl first ↦ inl (ground (arith))
        | inr (there, below) ↦ elim (Bool-cases (all_known known (deps d))) [
          | inl now ↦ inl (ground (arith))
          | inr later ↦ inr (ground (arith), below)
        ]
      ]

  pub rounds_settle_of_Ranked :
      (rank : String → ℕ) (n : ℕ) (known pending : List String)
      → length pending ≤ n
      → ((k d : String)
          → contains k pending ≡ true
          → contains d (deps k) ≡ true
          → (contains d known ≡ true) ⊎ ((contains d pending ≡ true) × (rank d < rank k)))
      → rounds_settle deps n known pending ≡ true
  unfolding rounds_settle
  rounds_settle_of_Ranked rank zero known [] few low = refl
  rounds_settle_of_Ranked rank (suc n) known [] few low = refl
  rounds_settle_of_Ranked rank zero known (p ∷ pending) few low = absurd (omega arith)
  rounds_settle_of_Ranked rank (suc n) known (p ∷ pending) few low =
      let ready = select (λ j. all_known known (deps j)) (p ∷ pending) in
      let waiting = select (λ j. not (all_known known (deps j))) (p ∷ pending) in
      let (j, first) =
        some_ready rank known (p ∷ pending) low (rank p + 1) p
          (Has→contains p (p ∷ pending) (inl refl)) (omega arith) in
      let some_now = contains_nonempty j ready first in
      let both = length-select (λ j. all_known known (deps j)) (p ∷ pending) in
      let filled = nonempty_length ready some_now in
      rw some_now (
        rounds_settle_of_Ranked rank n (known ++ ready) waiting (omega arith)
          (λ k d here dep. still_low known (p ∷ pending) rank low k d here dep))
