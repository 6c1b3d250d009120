-- ===== src/InputCache/Untried.antt =====
-- The names that an eviction has still to try become fewer.
use monty_pod.Common.{
  Bool, Bool-cases, Has, List, String, [], ap, arith, contains, eq_iff, eqb, eqb_refl, false, inl,
  inr, is_some, length, lookup, map, not, refl, select, string_eq, subst, sym, true, ℕ, ◌-◌, ◌<◌,
  ◌==◌, ◌||◌, ◌∷◌, ◌≡◌, ◌≤◌,
}
use monty_pod.InputCache.{Row, batch_from}
use monty_pod.InputCache.Evict.{try_names}

abbrev pub names_of : List (String × Row) → List String
names_of rows = map (λ (x : String × Row). x.0) rows

pub contains-names_of :
    (j : String) (rows : List (String × Row)) → contains j (names_of rows) ≡ is_some (lookup j rows)
unfolding contains lookup
contains-names_of j [] = refl
contains-names_of j ((n, row) ∷ rows) = ground (arith, contains-names_of j rows)

pub batch_from-known :
    (rows : List (String × Row)) (excess : ℕ) (tried : List String) (x : String × ℕ)
    → Has x (batch_from rows excess tried)
    → (contains x.0 (names_of rows) ≡ true) × (contains x.0 tried ≡ false)
unfolding batch_from contains
batch_from-known [] excess tried x m = elim m [ ]
batch_from-known ((n, row) ∷ rows) excess tried x m = elim (Bool-cases (excess == 0)) [
  | inl over ↦ elim (rw (over, batch_from) at m) [ ]
  | inr more ↦ elim (Bool-cases (row.retained || contains n tried)) [
    | inl kept ↦
        let (a, b) = batch_from-known rows excess tried x (rw (more, kept, batch_from) at m) in
        (ground (arith), b)
    | inr goes ↦
        let m' : Has x ((n, row.bytes) ∷ batch_from rows (excess - row.bytes) tried) =
          rw (more, goes, batch_from) at m in
        elim m' [
          | inl e ↦
              let key : x.0 ≡ n = ap (λ (z : String × ℕ). z.0) e in
              (
                subst (λ i. (eqb n i || contains i (names_of rows)) ≡ true) (sym key)
                    (let r = eqb_refl n in ground (arith)),
                subst (λ i. contains i tried ≡ false) (sym key) (ground (arith)),
              )
          | inr later ↦
              let (a, b) = batch_from-known rows (excess - row.bytes) tried x later in
              (ground (arith), b)
        ]
  ]
]

abbrev pub untried : List String → List String → ℕ
untried tried names = length (select (λ n. not (contains n tried)) names)

select-shorter :
    (p q : String → Bool) (names : List String)
    → ((x : String) → q x ≡ true → p x ≡ true)
    → length (select q names) ≤ length (select p names)
unfolding select
select-shorter p q [] h = omega arith
select-shorter p q (n ∷ names) h =
    let ih = select-shorter p q names h in
    elim (Bool-cases (q n)) [
      | inl taken ↦ let also = h n taken in rw (taken, also) (omega arith)
      | inr out ↦ ground (arith)
    ]

select-strictly :
    (p q : String → Bool) (x : String) (names : List String)
    → ((y : String) → q y ≡ true → p y ≡ true)
    → contains x names ≡ true
    → p x ≡ true
    → q x ≡ false
    → length (select q names) < length (select p names)
unfolding select contains
select-strictly p q x [] h here took passed = absurd (ground (arith))
select-strictly p q x (n ∷ names) h here took passed = elim (Bool-cases (eqb n x)) [
  | inl same ↦
      let key : n ≡ x = (eq_iff n x).0 same in
      let took' : p n ≡ true = subst (λ z. p z ≡ true) (sym key) took in
      let passed' : q n ≡ false = subst (λ z. q z ≡ false) (sym key) passed in
      let rest = select-shorter p q names h in rw (took', passed') (omega arith)
  | inr other ↦
      let ih = select-strictly p q x names h (ground (arith)) took passed in
      elim (Bool-cases (q n)) [
        | inl taken ↦ let also = h n taken in rw (taken, also) (omega arith)
        | inr out ↦ ground (arith)
      ]
]

contains-try_names :
    (j : String) (batch : List (String × ℕ)) (tried : List String)
    → contains j tried ≡ true
    → contains j (try_names batch tried) ≡ true
unfolding try_names contains
contains-try_names j [] tried h = h
contains-try_names j ((n, size) ∷ batch) tried h =
    contains-try_names j batch (n ∷ tried) (ground (arith))

pub fewer_untried :
    (x : String × ℕ) (batch : List (String × ℕ)) (tried names : List String)
    → contains x.0 names ≡ true
    → contains x.0 tried ≡ false
    → untried (try_names (x ∷ batch) tried) names < untried tried names
unfolding try_names contains
fewer_untried (n, size) batch tried names here fresh =
    select-strictly (λ i. not (contains i tried))
      (λ i. not (contains i (try_names batch (n ∷ tried)))) n names
      (λ y h. elim (Bool-cases (contains y tried)) [
        | inr out ↦ rw out refl
        | inl old ↦
            let still = contains-try_names y batch (n ∷ tried) (ground (arith)) in
            absurd (ground (arith))
      ])
      here (rw fresh refl)
      (let now = contains-try_names n batch (n ∷ tried) (let r = eqb_refl n in ground (arith)) in
        rw now refl)
