-- ===== src/InputCache/Reconciled.antt =====
-- The account after a walk of the disk.
use monty_pod.Common.{
  Bool, Bool-cases, List, Option, String, [], ap, arith, contains, eq_iff, eqb, eqb_refl,
  if◌then◌else◌, inl, inr, lookup, none, refl, some, string_eq, subst, sym, ◌∙◌, ◌∷◌, ◌≡◌,
}
use monty_pod.InputCache.{Account, Row, put}
use monty_pod.InputCache.Balance.{IsBalanced, bytes_of, put_keeps_account, retained_of}
use monty_pod.InputCache.Load.{
  Scanned, insert_scanned, load_account, put_live, put_old, put_scanned, scanned_leb,
  sorted_scanned,
}
use monty_pod.InputCache.Evicted.{at_name}

-- The row of a name in a walk.
unfoldable pub scan_row : String → List Scanned → Option Row
scan_row j [] = none
scan_row j (x ∷ xs) = if eqb x.name j then some x.row else scan_row j xs

-- No name is walked twice.
abbrev pub IsWalk : List Scanned → Type 0
IsWalk [] = Unit
IsWalk (x ∷ xs) = (scan_row x.name xs ≡ none) × IsWalk xs

abbrev or_row : Option Row → Option Row → Option Row
or_row none o = o
or_row (some row) o = some row

scan_row-insert_scanned :
    (j : String) (x : Scanned) (xs : List Scanned)
    → scan_row x.name xs ≡ none
    → scan_row j (insert_scanned x xs) ≡ (if eqb x.name j then some x.row else scan_row j xs)
unfolding scan_row insert_scanned
scan_row-insert_scanned j x [] h = refl
scan_row-insert_scanned j x (y ∷ xs) h = elim (Bool-cases (eqb y.name x.name)) [
  | inl same ↦ let clash : some y.row ≡ none = rw (same, scan_row) at h in absurd (cc)
  | inr other ↦
      let ih = scan_row-insert_scanned j x xs (rw (other, scan_row) at h) in
      ground (arith, eq_iff x.name j, eq_iff y.name j, eq_iff y.name x.name)
]

insert_scanned-IsWalk :
    (x : Scanned) (xs : List Scanned)
    → scan_row x.name xs ≡ none
    → IsWalk xs
    → IsWalk (insert_scanned x xs)
unfolding scan_row insert_scanned
insert_scanned-IsWalk x [] h w = (refl, tt)
insert_scanned-IsWalk x (y ∷ xs) h (fresh, w) = elim (Bool-cases (eqb y.name x.name)) [
  | inl same ↦ let clash : some y.row ≡ none = rw (same, scan_row) at h in absurd (cc)
  | inr other ↦
      let absent : scan_row x.name xs ≡ none = rw (other, scan_row) at h in
      elim (Bool-cases (scanned_leb x y)) [
        | inl le ↦ rw le (h, (fresh, w))
        | inr gt ↦
            let ih = scan_row-insert_scanned y.name x xs absent in
            rw gt (
              ground (arith, eq_iff x.name y.name, eq_iff y.name x.name),
              insert_scanned-IsWalk x xs absent w,
            )
      ]
]

-- Sorting keeps a walk, and the row of each name.
sorted_scanned-IsWalk :
    (xs : List Scanned)
    → IsWalk xs
    → IsWalk (sorted_scanned xs) × ((j : String) → scan_row j (sorted_scanned xs) ≡ scan_row j xs)
unfolding sorted_scanned scan_row
sorted_scanned-IsWalk [] w = (tt, λ j. refl)
sorted_scanned-IsWalk (x ∷ xs) (fresh, w) =
    let (walk, same) = sorted_scanned-IsWalk xs w in
    let absent = same x.name ∙ fresh in
    (
      insert_scanned-IsWalk x (sorted_scanned xs) absent walk,
      λ j.
          scan_row-insert_scanned j x (sorted_scanned xs) absent
          ∙ ap (λ o. if eqb x.name j then some x.row else o) (same j),
    )

-- A balanced account, and its row of each name.
abbrev HasRows : Account → (String → Option Row) → Type 0
HasRows a rows = IsBalanced a × ((j : String) → lookup j a.rows ≡ rows j)

abbrev scanned_row : List String → List Scanned → Account → String → Option Row
scanned_row live xs a j =
    if contains j live then lookup j a.rows else or_row (scan_row j xs) (lookup j a.rows)

put_scanned-HasRows :
    (live : List String) (xs : List Scanned) (a : Account)
    → IsBalanced a
    → IsWalk xs
    → HasRows (put_scanned live xs a) (scanned_row live xs a)
unfolding put_scanned scan_row
put_scanned-HasRows live [] a b w =
    (b, λ j. elim (Bool-cases (contains j live)) [ inl t ↦ rw t refl | inr f ↦ rw f refl ])
put_scanned-HasRows live (x ∷ xs) a b (fresh, w) =
    let ih = put_scanned-HasRows live xs in
    let (next, row) = put_keeps_account x.name (some x.row) a b in
    elim (Bool-cases (contains x.name live)) [
      | inl changed ↦
          let (balanced, now) = ih a b w in
          subst
            (λ (c : Bool).
              HasRows (put_scanned live xs (if c then a else put x.name (some x.row) a))
                (scanned_row live (x ∷ xs) a))
            (sym changed)
            (
              balanced,
              λ j.
                  now j
                  ∙ at_name (λ i. scanned_row live xs a i ≡ scanned_row live (x ∷ xs) a i) x.name j
                      (rw changed refl) (λ other. rw other refl),
            )
      | inr same ↦
          let (balanced, now) = ih (put x.name (some x.row) a) next w in
          subst
            (λ (c : Bool).
              HasRows (put_scanned live xs (if c then a else put x.name (some x.row) a))
                (scanned_row live (x ∷ xs) a))
            (sym same)
            (
              balanced,
              λ j.
                  now j
                  ∙ at_name
                      (λ i.
                        scanned_row live xs (put x.name (some x.row) a) i
                        ≡ scanned_row live (x ∷ xs) a i)
                      x.name j
                      (let here = row x.name in
                        let r = eqb_refl x.name in rw (same, fresh, here, r) refl)
                      (λ other. let there = row j in rw (there, other) refl),
            )
    ]

abbrev live_row : List String → List (String × Row) → Account → String → Option Row
live_row live old a j =
    if contains j live then or_row (lookup j old) (lookup j a.rows) else lookup j a.rows

put_old-HasRows :
    (name : String) (r : Option Row) (a : Account)
    → IsBalanced a
    → HasRows
        (put_old name r a)
        (λ j. if eqb name j then or_row r (lookup j a.rows) else lookup j a.rows)
put_old-HasRows name none a b =
    (b, λ j. elim (Bool-cases (eqb name j)) [ inl t ↦ rw t refl | inr f ↦ rw f refl ])
put_old-HasRows name (some row) a b = put_keeps_account name (some row) a b

or_row_twice : (o old : Option Row) → or_row o (or_row o old) ≡ or_row o old
or_row_twice none old = refl
or_row_twice (some row) old = refl

put_live-HasRows :
    (live : List String) (old : List (String × Row)) (a : Account)
    → IsBalanced a
    → HasRows (put_live live old a) (live_row live old a)
unfolding put_live contains
put_live-HasRows [] old a b = (b, λ j. refl)
put_live-HasRows (name ∷ live) old a b =
    let (next, row) = put_old-HasRows name (lookup name old) a b in
    let (balanced, now) = put_live-HasRows live old (put_old name (lookup name old) a) next in
    (
      balanced,
      λ j.
          now j
          ∙ at_name
              (λ i.
                live_row live old (put_old name (lookup name old) a) i
                ≡ live_row (name ∷ live) old a i)
              name j
              (let here = row name in
                let r = eqb_refl name in
                elim (Bool-cases (contains name live)) [
                  | inl again ↦
                      rw (here, r, again) (or_row_twice (lookup name old) (lookup name a.rows))
                  | inr once ↦ rw (here, r, once) refl
                ])
              (λ other. let there = row j in rw (there, other) refl),
    )

or_row-none : (o : Option Row) → or_row o none ≡ o
or_row-none none = refl
or_row-none (some row) = refl

empty-IsBalanced : (a : Account) → IsBalanced (record (a) { rows = []; total = 0; held = 0 })
unfolding bytes_of retained_of
empty-IsBalanced a = record { distinct = tt; sum = refl; held_sum = refl }

-- `load` makes a balanced account of any account and a walk that has no name twice: a name that changed
-- while the walk went on keeps the row that the account has, or none, and every other name has the row
-- that the walk found, or none.
pub load_keeps_changes :
    (scanned : List Scanned) (a : Account)
    → IsWalk scanned
    → IsBalanced (load_account scanned a)
      × ((j : String)
          → lookup j (load_account scanned a).rows
            ≡ (if contains j a.touched then lookup j a.rows else scan_row j scanned))
unfolding load_account lookup
load_keeps_changes scanned a w =
    let (walk, same) = sorted_scanned-IsWalk scanned w in
    let (b, now) =
      put_scanned-HasRows a.touched (sorted_scanned scanned)
        (record (a) { rows = []; total = 0; held = 0 }) (empty-IsBalanced a) walk in
    let (c, last) = put_live-HasRows a.touched a.rows _ b in
    (
      record { distinct = c.distinct; sum = c.sum; held_sum = c.held_sum },
      λ j. last j ∙ elim (Bool-cases (contains j a.touched)) [
        | inl changed ↦ let e = now j in rw (e, changed) (or_row-none (lookup j a.rows))
        | inr still ↦
            let e = now j in let f = same j in rw (e, still, f) (or_row-none (scan_row j scanned))
      ],
    )
