-- ===== src/InputCache/Ceiling.antt =====
-- What is retained stays below its ceiling.
use monty_pod.Common.{
  Bool, Bool-cases, List, String, [], arith, erase, if◌then◌else◌, inl, inr, insert, lookup, ltb,
  refl, select, string_eq, ℕ, ◌+◌, ◌-◌, ◌∙◌, ◌∷◌, ◌≡◌, ◌≤◌,
}
use monty_pod.InputCache.Retention.{
  Kept, ObjectKey, Retaining, adopt_local, already, is_key, key_eq, put_lands, release_superseded,
  retain, retained_bytes, retaining, retaining_all,
}

select-retained_bytes :
    (p : ObjectKey × Kept → Bool) (rows : List (ObjectKey × Kept))
    → retained_bytes (select p rows) ≤ retained_bytes rows
unfolding select retained_bytes
select-retained_bytes p [] = omega arith
select-retained_bytes p ((k, kept) ∷ rows) =
    let ih = select-retained_bytes p rows in
    elim (Bool-cases (p (k, kept))) [
      | inl stays ↦ rw (stays, select, retained_bytes) (omega arith)
      | inr goes ↦ rw (goes, select, retained_bytes) (omega arith)
    ]

release-retained_bytes :
    (busy : ObjectKey → Bool) (key : ObjectKey) (holder : String) (rows : List (ObjectKey × Kept))
    → retained_bytes (release_superseded busy key holder rows) ≤ retained_bytes rows
unfolding release_superseded
release-retained_bytes busy key holder rows = select-retained_bytes _ rows

erase-retained_bytes :
    (key : ObjectKey) (rows : List (ObjectKey × Kept))
    → retained_bytes (erase ⦃e = key_eq⦄ key rows) ≤ retained_bytes rows
unfolding erase retained_bytes
erase-retained_bytes key [] = omega arith
erase-retained_bytes key ((k, kept) ∷ rows) =
    let ih = erase-retained_bytes key rows in
    elim (Bool-cases (is_key k key)) [
      | inl same ↦ rw (same, erase, retained_bytes) (omega arith)
      | inr other ↦ rw (other, erase, retained_bytes) (omega arith)
    ]

already-cons :
    (key k : ObjectKey) (kept : Kept) (rows : List (ObjectKey × Kept))
    → already key ((k, kept) ∷ rows) ≡ (if is_key k key then kept.bytes else already key rows)
unfolding already lookup
already-cons key k kept rows = elim (Bool-cases (is_key k key)) [
  | inl same ↦ rw (same, already, lookup) refl
  | inr other ↦ rw (other, already, lookup) refl
]

-- An entry that is replaced is no new weight.
insert-retained_bytes :
    (key : ObjectKey) (holder : String) (incoming : ℕ) (rows : List (ObjectKey × Kept))
    → retained_bytes (insert ⦃e = key_eq⦄ key (record { holder = holder; bytes = incoming }) rows)
        + already key rows
      ≡ retained_bytes rows + incoming
unfolding insert retained_bytes already
insert-retained_bytes key holder incoming [] = omega arith
insert-retained_bytes key holder incoming ((k, kept) ∷ rows) =
    let ih = insert-retained_bytes key holder incoming rows in
    let first = already-cons key k kept rows in
    elim (Bool-cases (is_key k key)) [
      | inl same ↦
          let here : already key ((k, kept) ∷ rows) ≡ kept.bytes = first ∙ rw same refl in
          rw (same, insert, retained_bytes) (omega arith)
      | inr other ↦
          let there : already key ((k, kept) ∷ rows) ≡ already key rows = first ∙ rw other refl in
          rw (other, insert, retained_bytes) (omega arith)
    ]

already-bound :
    (key : ObjectKey) (rows : List (ObjectKey × Kept)) → already key rows ≤ retained_bytes rows
unfolding retained_bytes already lookup
already-bound key [] = omega arith
already-bound key ((k, kept) ∷ rows) =
    let ih = already-bound key rows in
    let first = already-cons key k kept rows in
    elim (Bool-cases (is_key k key)) [
      | inl same ↦
          let here : already key ((k, kept) ∷ rows) ≡ kept.bytes = first ∙ rw same refl in
          omega arith
      | inr other ↦
          let there : already key ((k, kept) ∷ rows) ≡ already key rows = first ∙ rw other refl in
          omega arith
    ]

retaining-Ceiling :
    (ceiling : ℕ) (x : Retaining) (rows : List (ObjectKey × Kept))
    → retained_bytes rows ≤ ceiling
    → retained_bytes (retaining ceiling x rows) ≤ ceiling
unfolding retaining adopt_local
retaining-Ceiling ceiling (put_lands key) rows h =
    let e = erase-retained_bytes key rows in omega arith
retaining-Ceiling ceiling (retain busy copied key holder incoming) rows h =
    let left = release_superseded busy key holder rows in
    let fewer = release-retained_bytes busy key holder rows in
    elim (Bool-cases (ltb ceiling (retained_bytes left - already key left + incoming))) [
      | inl over ↦ rw (over, retaining, adopt_local) (omega arith)
      | inr fits ↦ elim (Bool-cases copied) [
        | inl done ↦
            let replaced = insert-retained_bytes key holder incoming left in
            let part = already-bound key left in
            let under : retained_bytes left - already key left + incoming ≤ ceiling =
              ground (arith) in
            rw (fits, done, retaining, adopt_local) (omega arith)
        | inr lost ↦
            let e = erase-retained_bytes key left in
            rw (fits, lost, retaining, adopt_local) (omega arith)
      ]
    ]

-- What the cache retains never exceeds its ceiling, whatever is retained for whichever holders, put or
-- failed to be copied, and whichever slots are locked, if it does not exceed it at first.
pub retained_within_ceiling :
    (ceiling : ℕ) (xs : List Retaining) (rows : List (ObjectKey × Kept))
    → retained_bytes rows ≤ ceiling
    → retained_bytes (retaining_all ceiling xs rows) ≤ ceiling
unfolding retaining_all
retained_within_ceiling ceiling [] rows h = h
retained_within_ceiling ceiling (x ∷ xs) rows h =
    retained_within_ceiling ceiling xs (retaining ceiling x rows)
      (retaining-Ceiling ceiling x rows h)
