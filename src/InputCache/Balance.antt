-- ===== src/InputCache/Balance.antt =====
-- The sums of the account of `_Account` are those of its rows.
use Prim.Native.String.{String}
use monty_pod.Common.{
  Bool-cases, List, Option, Option-cases, [], ap, arith, eq_iff, eqb, eqb_refl, erase,
  if◌then◌else◌, inl, inr, lookup, lookup-erase, none, refl, some, string_eq, subst, sym, ℕ, ◌++◌,
  ◌+◌, ◌∙◌, ◌∷◌, ◌≡◌,
}
use monty_pod.InputCache.{Account, Row, add_row, drop, put, touch}

unfoldable pub bytes_of : List (String × Row) → ℕ
bytes_of [] = 0
bytes_of ((name, row) ∷ rows) = row.bytes + bytes_of rows

unfoldable pub retained_of : List (String × Row) → ℕ
retained_of [] = 0
retained_of ((name, row) ∷ rows) = (if row.retained then row.bytes else 0) + retained_of rows

-- No name has two rows.
abbrev pub Distinct : List (String × Row) → Type 0
Distinct [] = Unit
Distinct ((name, row) ∷ rows) = (lookup name rows ≡ none) × Distinct rows

pub record IsBalanced (a : Account) : Type 0 where
  pub distinct : Distinct a.rows
  pub sum : a.total ≡ bytes_of a.rows
  pub held_sum : a.held ≡ retained_of a.rows

erase-absent : (n : String) (d : List (String × Row)) → lookup n d ≡ none → erase n d ≡ d
unfolding erase lookup
erase-absent n [] h = refl
erase-absent n ((m, r) ∷ d) h = elim (Bool-cases (eqb m n)) [
  | inl same ↦ let clash : some r ≡ none = rw (same, lookup) at h in absurd (cc)
  | inr other ↦
      rw (other, erase) (ap (λ xs. (m, r) ∷ xs) (erase-absent n d (rw (other, lookup) at h)))
]

erase-Distinct : (n : String) (d : List (String × Row)) → Distinct d → Distinct (erase n d)
unfolding erase
erase-Distinct n [] h = tt
erase-Distinct n ((m, r) ∷ d) (fresh, h) = elim (Bool-cases (eqb m n)) [
  | inl same ↦ rw (same, erase) (erase-Distinct n d h)
  | inr other ↦
      let gone : lookup m (erase n d) ≡ none = ground (arith, lookup-erase m n d) in
      rw (other, erase) (gone, erase-Distinct n d h)
]

lookup-add :
    (j n : String) (r : Row) (d : List (String × Row))
    → lookup n d ≡ none
    → lookup j (d ++ (n, r) ∷ []) ≡ (if eqb n j then some r else lookup j d)
unfolding lookup
lookup-add j n r [] h = refl
lookup-add j n r ((m, q) ∷ d) h = elim (Bool-cases (eqb m n)) [
  | inl same ↦ let clash : some q ≡ none = rw (same, lookup) at h in absurd (cc)
  | inr other ↦
      let ih = lookup-add j n r d (rw (other, lookup) at h) in
      ground (arith, eq_iff m n, eq_iff m j, eq_iff n j)
]

add-Distinct :
    (n : String) (r : Row) (d : List (String × Row))
    → lookup n d ≡ none
    → Distinct d
    → Distinct (d ++ (n, r) ∷ [])
unfolding lookup
add-Distinct n r [] h k = (refl, tt)
add-Distinct n r ((m, q) ∷ d) h (fresh, k) = elim (Bool-cases (eqb m n)) [
  | inl same ↦ let clash : some q ≡ none = rw (same, lookup) at h in absurd (cc)
  | inr other ↦
      let absent : lookup n d ≡ none = rw (other, lookup) at h in
      let still = lookup-add m n r d absent in
      (ground (arith, eq_iff m n, eq_iff n m), add-Distinct n r d absent k)
]

erase-sums :
    (n : String) (row : Row) (d : List (String × Row))
    → Distinct d
    → lookup n d ≡ some row
    → (bytes_of (erase n d) + row.bytes ≡ bytes_of d)
      × (retained_of (erase n d) + (if row.retained then row.bytes else 0) ≡ retained_of d)
unfolding lookup erase bytes_of retained_of
erase-sums n row [] h l = absurd (cc)
erase-sums n row ((m, q) ∷ d) (fresh, h) l = elim (Bool-cases (eqb m n)) [
  | inl same ↦
      let found : some q ≡ some row = rw (same, lookup) at l in
      let value : q ≡ row = cc in
      let key : m ≡ n = (eq_iff m n).0 same in
      let all : erase n d ≡ d = erase-absent n d (subst (λ x. lookup x d ≡ none) key fresh) in
      rw (same, all, sym value) (omega arith, omega arith)
  | inr other ↦
      let (x, y) = erase-sums n row d h (rw (other, lookup) at l) in
      rw (other, erase) (omega arith, omega arith)
]

add-sums :
    (n : String) (row : Row) (d : List (String × Row))
    → (bytes_of (d ++ (n, row) ∷ []) ≡ bytes_of d + row.bytes)
      × (retained_of (d ++ (n, row) ∷ []) ≡ retained_of d + (if row.retained then row.bytes else 0))
unfolding bytes_of retained_of
add-sums n row [] = (omega arith, omega arith)
add-sums n row ((m, q) ∷ d) = let (x, y) = add-sums n row d in (omega arith, omega arith)

drop-IsBalanced : (n : String) (a : Account) → IsBalanced a → IsBalanced (drop n a)
unfolding drop
drop-IsBalanced n a b = elim (Option-cases (lookup n a.rows)) [
  | inl gone ↦ rw gone b
  | inr (row, here) ↦
      let (x, y) = erase-sums n row a.rows b.distinct here in
      let sum = b.sum in
      let held_sum = b.held_sum in
      rw here (record {
        distinct = erase-Distinct n a.rows b.distinct;
        sum = omega arith;
        held_sum = ground (arith);
      })
]

lookup-drop :
    (j n : String) (a : Account)
    → lookup j (drop n a).rows ≡ (if eqb n j then none else lookup j a.rows)
unfolding drop
lookup-drop j n a = elim (Option-cases (lookup n a.rows)) [
  | inl gone ↦ rw gone (elim (Bool-cases (eqb n j)) [
    | inl same ↦
        let key : n ≡ j = (eq_iff n j).0 same in
        rw same (subst (λ x. lookup x a.rows ≡ none) key gone)
    | inr other ↦ rw other refl
  ])
  | inr (row, here) ↦ rw here (lookup-erase j n a.rows)
]

add-IsBalanced :
    (n : String) (row : Option Row) (a : Account)
    → lookup n a.rows ≡ none
    → IsBalanced a
    → IsBalanced (add_row n row a)
add-IsBalanced n none a absent b = b
add-IsBalanced n (some row) a absent b =
    let (x, y) = add-sums n row a.rows in
    let sum = b.sum in
    let held_sum = b.held_sum in
    record {
      distinct = add-Distinct n row a.rows absent b.distinct;
      sum = omega arith;
      held_sum = ground (arith);
    }

lookup-add_row :
    (j n : String) (row : Option Row) (a : Account)
    → lookup n a.rows ≡ none
    → lookup j (add_row n row a).rows ≡ (if eqb n j then row else lookup j a.rows)
lookup-add_row j n none a absent = elim (Bool-cases (eqb n j)) [
  | inl same ↦
      let key : n ≡ j = (eq_iff n j).0 same in
      rw same (subst (λ x. lookup x a.rows ≡ none) key absent)
  | inr other ↦ rw other refl
]
lookup-add_row j n (some row) a absent = lookup-add j n row a.rows absent

touch-rows : (n : String) (a : Account) → (touch n a).rows ≡ a.rows
touch-rows n a = elim (Bool-cases a.reconciling) [ inl on ↦ rw on refl | inr off ↦ rw off refl ]

touch-IsBalanced : (n : String) (a : Account) → IsBalanced a → IsBalanced (touch n a)
touch-IsBalanced n a b = elim (Bool-cases a.reconciling) [
  | inl on ↦ rw on (record { distinct = b.distinct; sum = b.sum; held_sum = b.held_sum })
  | inr off ↦ rw off (record { distinct = b.distinct; sum = b.sum; held_sum = b.held_sum })
]

-- `put` on an account whose sums are those of its rows, with at most one row for a name: they stay
-- so; the name then has the row that is put, or none, and every other name has what it had.
pub put_keeps_account :
    (name : String) (row : Option Row) (a : Account)
    → IsBalanced a
    → IsBalanced (put name row a)
      × ((j : String)
          → lookup j (put name row a).rows ≡ (if eqb name j then row else lookup j a.rows))
unfolding put
put_keeps_account name row a b =
    let absent : lookup name (drop name a).rows ≡ none =
      ground (arith, lookup-drop name name a, eqb_refl name) in
    (
      touch-IsBalanced name (add_row name row (drop name a))
          (add-IsBalanced name row (drop name a) absent (drop-IsBalanced name a b)),
      λ j.
          ap (lookup j) (touch-rows name (add_row name row (drop name a)))
          ∙ lookup-add_row j name row (drop name a) absent
          ∙ ground (arith, lookup-drop j name a),
    )
