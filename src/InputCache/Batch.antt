-- ===== src/InputCache/Batch.antt =====
-- What `_oldest_batch` takes.
use Prim.Native.String.{String}
use mathlib.Core.List.{head-eq_of_cons-eq, tail-eq_of_cons-eq}
use monty_pod.Common.{
  Bool-cases, List, [], ap, arith, contains, if◌then◌else◌, inl, inr, refl, string_eq, sym, ℕ, ◌++◌,
  ◌+◌, ◌-◌, ◌<◌, ◌==◌, ◌||◌, ◌∷◌, ◌≡◌, ◌≤◌, ◌⊎◌,
}
use monty_pod.InputCache.{Account, Row, batch_from, oldest_batch}

-- The rows that may go, the oldest first.
unfoldable pub evictable : List (String × Row) → List String → List (String × ℕ)
evictable [] tried = []
evictable ((name, row) ∷ rows) tried =
    if row.retained || contains name tried
    then evictable rows tried
    else (name, row.bytes) ∷ evictable rows tried

unfoldable pub freed_by : List (String × ℕ) → ℕ
freed_by [] = 0
freed_by ((name, bytes) ∷ batch) = bytes + freed_by batch

batch-front :
    (rows : List (String × Row)) (excess : ℕ) (tried : List String)
    → (rest : List (String × ℕ)) × (batch_from rows excess tried ++ rest ≡ evictable rows tried)
unfolding batch_from evictable
batch-front [] excess tried = ([], refl)
batch-front ((n, row) ∷ rows) excess tried = elim (Bool-cases (excess == 0)) [
  | inl done ↦ rw (done, batch_from) (evictable ((n, row) ∷ rows) tried, refl)
  | inr more ↦ elim (Bool-cases (row.retained || contains n tried)) [
    | inl kept ↦ rw (more, kept, batch_from, evictable) (batch-front rows excess tried)
    | inr goes ↦
        let (rest, e) = batch-front rows (excess - row.bytes) tried in
        rw (more, goes, batch_from, evictable) (rest, ap (λ xs. (n, row.bytes) ∷ xs) e)
  ]
]

batch-covers :
    (rows : List (String × Row)) (excess : ℕ) (tried : List String)
    → (excess ≤ freed_by (batch_from rows excess tried))
      ⊎ (batch_from rows excess tried ≡ evictable rows tried)
unfolding batch_from evictable freed_by
batch-covers [] excess tried = inr refl
batch-covers ((n, row) ∷ rows) excess tried = elim (Bool-cases (excess == 0)) [
  | inl done ↦ rw (done, batch_from) (inl (ground (arith)))
  | inr more ↦ elim (Bool-cases (row.retained || contains n tried)) [
    | inl kept ↦ rw (more, kept, batch_from, evictable) (batch-covers rows excess tried)
    | inr goes ↦
        rw (more, goes, batch_from, evictable)
          (elim (batch-covers rows (excess - row.bytes) tried) [
            | inl enough ↦ inl (omega arith)
            | inr all ↦ inr (ap (λ xs. (n, row.bytes) ∷ xs) all)
          ])
  ]
]

split_at :
    (x : String × ℕ) (others front back : List (String × ℕ)) (last : String × ℕ)
    → x ∷ others ≡ front ++ last ∷ back
    → (front ≡ [])
      ⊎ ((front' : List (String × ℕ)) × (freed_by front ≡ x.1 + freed_by front')
          × (others ≡ front' ++ last ∷ back))
unfolding freed_by
split_at x others [] back last e = inl refl
split_at x others (y ∷ front) back last e =
    let same : x ≡ y = head-eq_of_cons-eq e in
    inr (front, ap (λ (z : String × ℕ). z.1 + freed_by front) (sym same), tail-eq_of_cons-eq e)

not_split : (front back : List (String × ℕ)) (last : String × ℕ) → ¬ ([] ≡ front ++ last ∷ back)
not_split [] back last e = absurd (cc)
not_split (x ∷ front) back last e = absurd (cc)

batch-needed :
    (rows : List (String × Row)) (excess : ℕ) (tried : List String) (front back : List (String × ℕ))
    (last : String × ℕ)
    → batch_from rows excess tried ≡ front ++ last ∷ back
    → freed_by front < excess
unfolding batch_from freed_by
batch-needed [] excess tried front back last e = absurd (not_split front back last e)
batch-needed ((n, row) ∷ rows) excess tried front back last e = elim (Bool-cases (excess == 0)) [
  | inl done ↦ absurd (not_split front back last (rw (done, batch_from) at e))
  | inr more ↦ elim (Bool-cases (row.retained || contains n tried)) [
    | inl kept ↦ batch-needed rows excess tried front back last (rw (more, kept, batch_from) at e)
    | inr goes ↦
        let taken : (n, row.bytes) ∷ batch_from rows (excess - row.bytes) tried
            ≡ front ++ last ∷ back =
          rw (more, goes, batch_from) at e in
        elim (split_at (n, row.bytes) _ front back last taken) [
          | inl first ↦ rw first (ground (arith))
          | inr (front', freed, rest) ↦
              let ih = batch-needed rows (excess - row.bytes) tried front' back last rest in
              omega arith
        ]
  ]
]

-- `_oldest_batch` takes rows that are neither retained nor tried before, the oldest of them first and
-- none left out between; what it takes covers the excess of the account over the cap, or is all that
-- may go; and it takes no row that is not needed: what stands before a row of it does not cover the
-- excess.
pub oldest_batch_covers :
    (a : Account) (cap : ℕ) (tried : List String)
    → ((rest : List (String × ℕ)) × (oldest_batch a cap tried ++ rest ≡ evictable a.rows tried))
      × ((a.total ≤ cap + freed_by (oldest_batch a cap tried))
          ⊎ (oldest_batch a cap tried ≡ evictable a.rows tried))
      × ((front back : List (String × ℕ)) (last : String × ℕ)
          → oldest_batch a cap tried ≡ front ++ last ∷ back
          → cap + freed_by front < a.total)
unfolding oldest_batch
oldest_batch_covers a cap tried = (
  batch-front a.rows (a.total - cap) tried,
  elim (batch-covers a.rows (a.total - cap) tried) [
    | inl enough ↦ inl (omega arith)
    | inr all ↦ inr all
  ],
  λ front back last e.
      let n = batch-needed a.rows (a.total - cap) tried front back last e in omega arith,
)
