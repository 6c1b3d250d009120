-- ===== src/Common/Dict.antt =====
-- Python dicts and sets over keys with an equality test. A dict keeps its entries in insertion
-- order; `pop` of a key removes whatever stands under it.
use mathlib.Core.Path.{◌≡◌, refl, sym, subst}
use mathlib.Core.Logic.{inl, inr}
use mathlib.Core.Bool.{Bool, true, false, ◌||◌, ◌&&◌}
use mathlib.Core.Option.{Option, none, some}
use mathlib.Core.List.{List, [], ◌∷◌, ◌++◌}
use native.Mathlib.Omega.{arith}
use monty_pod.Common.Tests.{if◌then◌else◌, Bool-cases}
use monty_pod.Common.Lists.{All, Has, all, all-Has, select}
use monty_pod.Common.Equality.{Eq, eqb}

module _ {K : Type 0} ⦃e : Eq K⦄ where
  pub eqb_refl : (k : K) → eqb k k ≡ true
  eqb_refl k = (e.beq_iff k k).1 refl

  unfoldable pub contains : K → List K → Bool
  contains k [] = false
  contains k (j ∷ ks) = eqb j k || contains k ks

  unfoldable pub discard : K → List K → List K
  discard k [] = []
  discard k (j ∷ ks) = if eqb j k then discard k ks else j ∷ discard k ks

  pub contains-append :
      (k : K) (xs ys : List K) → contains k (xs ++ ys) ≡ (contains k xs || contains k ys)
  unfolding contains
  contains-append k [] ys = refl
  contains-append k (x ∷ xs) ys = ground (arith, contains-append k xs ys)

  pub contains-discard :
      (j k : K) (ks : List K)
      → contains j (discard k ks) ≡ (if eqb k j then false else contains j ks)
  unfolding contains discard
  contains-discard j k [] = ground arith
  contains-discard j k (i ∷ ks) =
      ground (arith, contains-discard j k ks, e.beq_iff i k, e.beq_iff k j, e.beq_iff i j)

  pub contains-select :
      (k : K) (p : K → Bool) (ks : List K) → contains k (select p ks) ≡ (contains k ks && p k)
  unfolding contains select
  contains-select k p [] = refl
  contains-select k p (j ∷ ks) = elim (Bool-cases (eqb j k)) [
    | inl same ↦
        let key : j ≡ k = (e.beq_iff j k).0 same in
        let ih = contains-select k p ks in
        elim (Bool-cases (p k)) [
          | inl good ↦
              let good' : p j ≡ true = subst (λ x. p x ≡ true) (sym key) good in
              rw (good', good, same) refl
          | inr bad ↦
              let bad' : p j ≡ false = subst (λ x. p x ≡ false) (sym key) bad in
              ground (arith, contains-select k p ks)
        ]
    | inr other ↦ ground (arith, contains-select k p ks)
  ]

  pub Has→contains : (k : K) (ks : List K) → Has k ks → contains k ks ≡ true
  unfolding contains
  Has→contains k [] h = elim h [ ]
  Has→contains k (j ∷ ks) (inl same) = ground (arith, e.beq_iff j k)
  Has→contains k (j ∷ ks) (inr later) = ground (arith, Has→contains k ks later)

  pub contains→Has : (k : K) (ks : List K) → contains k ks ≡ true → Has k ks
  unfolding contains
  contains→Has k [] h = absurd (ground (arith))
  contains→Has k (j ∷ ks) h = elim (Bool-cases (eqb j k)) [
    | inl same ↦ inl (sym ((e.beq_iff j k).0 same))
    | inr other ↦ inr (contains→Has k ks (ground (arith)))
  ]

  -- Whether all of `ds` are among the known ones.
  abbrev pub all_known : List K → List K → Bool
  all_known known ds = all (λ d. contains d known) ds

  pub all_known-contains :
      (known ds : List K) (d : K)
      → all_known known ds ≡ true
      → contains d ds ≡ true
      → contains d known ≡ true
  all_known-contains known ds d h m = all-Has (λ x. contains x known) d ds h (contains→Has d ds m)

  pub all_known_of_Has :
      (known ds : List K)
      → ((d : K) → Has d ds → contains d known ≡ true)
      → all_known known ds ≡ true
  unfolding all
  all_known_of_Has known [] h = refl
  all_known_of_Has known (d ∷ ds) h =
      let first = h d (inl refl) in
      let rest = all_known_of_Has known ds (λ x m. h x (inr m)) in rw (first, rest) refl

  -- Whether one of `ds` is among the known ones: `ds & known` is not empty.
  unfoldable pub any_known : List K → List K → Bool
  any_known known [] = false
  any_known known (d ∷ ds) = contains d known || any_known known ds

  pub find_known :
      (known ds : List K)
      → any_known known ds ≡ true
      → (d : K) × (contains d ds ≡ true) × (contains d known ≡ true)
  unfolding any_known
  find_known known [] h = absurd (ground (arith))
  find_known known (d ∷ ds) h = elim (Bool-cases (contains d known)) [
    | inl good ↦ (d, Has→contains d (d ∷ ds) (inl refl), good)
    | inr bad ↦
        let (x, m, u) = find_known known ds (ground (arith)) in
        (x, Has→contains x (d ∷ ds) (inr (contains→Has x ds m)), u)
  ]

  pub any_known-false :
      (known ds : List K) (d : K)
      → any_known known ds ≡ false
      → contains d ds ≡ true
      → contains d known ≡ false
  unfolding any_known contains
  any_known-false known [] d h m = absurd (ground (arith))
  any_known-false known (x ∷ ds) d h m = elim (Bool-cases (eqb x d)) [
    | inl same ↦
        let key : x ≡ d = (e.beq_iff x d).0 same in
        subst (λ y. contains y known ≡ false) key (ground (arith))
    | inr other ↦ any_known-false known ds d (ground (arith)) (ground (arith))
  ]

  pub find_unknown :
      (known ds : List K)
      → all_known known ds ≡ false
      → (d : K) × (contains d ds ≡ true) × (contains d known ≡ false)
  unfolding all
  find_unknown known [] h = absurd (ground (arith))
  find_unknown known (d ∷ ds) h = elim (Bool-cases (contains d known)) [
    | inr unknown ↦ (d, Has→contains d (d ∷ ds) (inl refl), unknown)
    | inl good ↦
        let (x, m, u) = find_unknown known ds (ground (arith)) in
        (x, Has→contains x (d ∷ ds) (inr (contains→Has x ds m)), u)
  ]

module _ {K V : Type 0} ⦃e : Eq K⦄ where
  unfoldable pub lookup : K → List (K × V) → Option V
  lookup k [] = none
  lookup k ((j, v) ∷ d) = if eqb j k then some v else lookup k d

  unfoldable pub insert : K → V → List (K × V) → List (K × V)
  insert k v [] = (k, v) ∷ []
  insert k v ((j, w) ∷ d) = if eqb j k then (j, v) ∷ d else (j, w) ∷ insert k v d

  unfoldable pub erase : K → List (K × V) → List (K × V)
  erase k [] = []
  erase k ((j, v) ∷ d) = if eqb j k then erase k d else (j, v) ∷ erase k d

  pub lookup-insert :
      (j k : K) (v : V) (d : List (K × V))
      → lookup j (insert k v d) ≡ (if eqb k j then some v else lookup j d)
  unfolding lookup insert
  lookup-insert j k v [] = refl
  lookup-insert j k v ((i, w) ∷ d) =
      ground (arith, lookup-insert j k v d, e.beq_iff i k, e.beq_iff k j, e.beq_iff i j)

  pub lookup-erase :
      (j k : K) (d : List (K × V)) → lookup j (erase k d) ≡ (if eqb k j then none else lookup j d)
  unfolding lookup erase
  lookup-erase j k [] = ground arith
  lookup-erase j k ((i, w) ∷ d) =
      ground (arith, lookup-erase j k d, e.beq_iff i k, e.beq_iff k j, e.beq_iff i j)

  pub All-insert {κ} :
      (P : K × V → Type κ) (k : K) (v : V) (d : List (K × V))
      → P (k, v)
      → All P d
      → All P (insert k v d)
  unfolding insert
  All-insert P k v [] p h = (p, tt)
  All-insert P k v ((j, w) ∷ d) p h = elim (Bool-cases (eqb j k)) [
    | inl same ↦ rw (same, insert) (subst (λ i. P (i, v)) (sym ((e.beq_iff j k).0 same)) p, h.1)
    | inr other ↦ rw (other, insert) (h.0, All-insert P k v d p h.1)
  ]

  -- What is left after `pop` has another key.
  pub All-erase {κ} :
      (P : K × V → Type κ) (k : K) (d : List (K × V))
      → All P d
      → All (λ (x : K × V). P x × (eqb k x.0 ≡ false)) (erase k d)
  unfolding erase
  All-erase P k [] h = tt
  All-erase P k ((j, w) ∷ d) h = elim (Bool-cases (eqb j k)) [
    | inl same ↦ rw (same, erase) (All-erase P k d h.1)
    | inr other ↦
        rw (other, erase) ((h.0, ground (arith, e.beq_iff j k, e.beq_iff k j)), All-erase P k d h.1)
  ]

  pub All-lookup {κ} :
      (P : K × V → Type κ) (k : K) (d : List (K × V)) {v : V}
      → All P d
      → lookup k d ≡ some v
      → P (k, v)
  unfolding lookup
  All-lookup P k [] h l = absurd (cc)
  All-lookup P k ((j, w) ∷ d) {v} h l = elim (Bool-cases (eqb j k)) [
    | inl same ↦
        let found : some w ≡ some v = rw (same, lookup) at l in
        let key : j ≡ k = (e.beq_iff j k).0 same in
        let value : w ≡ v = cc in subst (λ u. P (k, u)) value (subst (λ i. P (i, w)) key h.0)
    | inr other ↦ All-lookup P k d h.1 (rw (other, lookup) at l)
  ]

  pub All-absent :
      (k : K) (d : List (K × V)) → lookup k d ≡ none → All (λ (x : K × V). eqb k x.0 ≡ false) d
  unfolding lookup
  All-absent k [] h = tt
  All-absent k ((j, w) ∷ d) h = elim (Bool-cases (eqb j k)) [
    | inl same ↦ let clash : some w ≡ none = rw (same, lookup) at h in absurd (cc)
    | inr other ↦
        (ground (arith, e.beq_iff j k, e.beq_iff k j), All-absent k d (rw (other, lookup) at h))
  ]
