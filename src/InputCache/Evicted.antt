-- ===== src/InputCache/Evicted.antt =====
-- What the eviction keeps true, slot by slot.
use monty_pod.Common.{
  Bool, Bool-cases, Has, List, Option, String, [], arith, contains, eq_iff, eqb, eqb_refl, false,
  if◌then◌else◌, inl, inr, is_some, lookup, lookup-erase, none, refl, some, string_eq, subst, sym,
  true, true≢false, ℕ, ◌+◌, ◌||◌, ◌∙◌, ◌∷◌, ◌≡◌,
}
use monty_pod.InputCache.{Row, put}
use monty_pod.InputCache.Balance.{IsBalanced, put_keeps_account}
use monty_pod.InputCache.Evict.{
  Evicting, evict_batch, evict_read, evict_row, evict_slot, removed, try_names,
}

-- The account has what the disk has.
abbrev pub Agrees : Evicting → Type 0
Agrees s = (j : String) → lookup j s.account.rows ≡ lookup j s.disk

-- What stands on the disk under `j` may not go, or could not.
abbrev pub IsKept : (String → Bool) → (String → Bool) → String → List (String × Row) → Type 0
IsKept busy stuck j disk =
    (row : Row) → lookup j disk ≡ some row → (row.retained || busy j || stuck j) ≡ true

-- `names`: those the account had at first; `first`: the disk at first.
pub record IsEvicting (busy stuck : String → Bool) (names : List String)
    (first : List (String × Row)) (tried : List String) (s : Evicting) : Type 0 where
  pub balanced : IsBalanced s.account
  pub agrees : Agrees s
  pub known : (j : String) → is_some (lookup j s.account.rows) ≡ true → contains j names ≡ true
  pub done : (j : String) → contains j tried ≡ true → IsKept busy stuck j s.disk
  pub shrunk : (j : String) (row : Row) → lookup j s.disk ≡ some row → lookup j first ≡ some row
  pub safe :
      (j : String) (row : Row)
      → lookup j first ≡ some row
      → (row.retained || busy j) ≡ true
      → lookup j s.disk ≡ some row

-- A disk that differs under one name.
abbrev pub DiffersAt : String → List (String × Row) → List (String × Row) → Type 0
DiffersAt name disk next =
    (j : String) → lookup j next ≡ (if eqb name j then lookup name next else lookup j disk)

pub at_name : (P : String → Type 0) (name j : String) → P name → (eqb name j ≡ false → P j) → P j
at_name P name j here there = elim (Bool-cases (eqb name j)) [
  | inl same ↦ subst P ((eq_iff name j).0 same) here
  | inr other ↦ there other
]

module _ (busy stuck : String → Bool) (names : List String) (first : List (String × Row)) where
  step-IsEvicting :
      (tried : List String) (name : String) (next : List (String × Row)) (freed : ℕ) (s : Evicting)
      → IsEvicting busy stuck names first tried s
      → contains name names ≡ true
      → DiffersAt name s.disk next
      → ((row : Row) → lookup name next ≡ some row → lookup name s.disk ≡ some row)
      → ((row : Row)
          → lookup name s.disk ≡ some row
          → (row.retained || busy name) ≡ true
          → lookup name next ≡ some row)
      → IsKept busy stuck name next
      → IsEvicting busy stuck names first
          (name ∷ tried)
          (record { account = put name (lookup name next) s.account; disk = next; freed = freed })
  unfolding contains
  step-IsEvicting tried name next freed s v here differs shrink keep kept =
      let (balanced, now) = put_keeps_account name (lookup name next) s.account v.balanced in
      record {
        balanced = balanced;
        agrees = λ j. let a = now j in let b = differs j in let c = v.agrees j in ground (arith);
        known = λ j.
            at_name
              (λ i.
                is_some (lookup i (put name (lookup name next) s.account).rows) ≡ true
                → contains i names ≡ true)
              name j (λ m. here) (λ other m. let a = now j in v.known j (ground (arith)));
        done = λ j.
            at_name (λ i. (eqb name i || contains i tried) ≡ true → IsKept busy stuck i next) name j
              (λ m. kept)
              (λ other m row l.
                let b = differs j in v.done j (ground (arith)) row (ground (arith)));
        shrunk = λ j.
            at_name (λ i. (row : Row) → lookup i next ≡ some row → lookup i first ≡ some row) name j
              (λ row l. v.shrunk name row (shrink row l))
              (λ other row l. let b = differs j in v.shrunk j row (ground (arith)));
        safe = λ j.
            at_name
              (λ i.
                (row : Row)
                → lookup i first ≡ some row
                → (row.retained || busy i) ≡ true
                → lookup i next ≡ some row)
              name j (λ row l safe. keep row (v.safe name row l safe) safe)
              (λ other row l safe.
                let b = differs j in let a = v.safe j row l safe in ground (arith));
      }

  same-DiffersAt : (name : String) (disk : List (String × Row)) → DiffersAt name disk disk
  same-DiffersAt name disk j =
      at_name (λ i. lookup i disk ≡ (if eqb name i then lookup name disk else lookup i disk)) name j
        (let e = eqb_refl name in rw e refl) (λ other. rw other refl)

  removed-DiffersAt :
      (name : String) (disk : List (String × Row)) → DiffersAt name disk (removed stuck name disk)
  removed-DiffersAt name disk = elim (Bool-cases (stuck name)) [
    | inl whole ↦ rw whole (same-DiffersAt name disk)
    | inr goes ↦ rw goes (λ j.
        let a = lookup-erase j name disk in
        let b = lookup-erase name name disk in let c = eqb_refl name in ground (arith))
  ]

  -- A slot that stays as it is.
  left-IsEvicting :
      (tried : List String) (name : String) (r : Option Row) (s : Evicting)
      → IsEvicting busy stuck names first tried s
      → contains name names ≡ true
      → lookup name s.disk ≡ r
      → IsKept busy stuck name s.disk
      → IsEvicting busy stuck names first
          (name ∷ tried)
          (record (s) { account = put name r s.account })
  left-IsEvicting tried name r s v here e kept =
      subst
        (λ o.
          IsEvicting busy stuck names first (name ∷ tried)
            (record (s) { account = put name o s.account }))
        e
        (step-IsEvicting tried name s.disk s.freed s v here (same-DiffersAt name s.disk)
          (λ row l. l) (λ row l safe. l) kept)

  row-IsEvicting :
      (tried : List String) (name : String) (row : Row) (s : Evicting)
      → IsEvicting busy stuck names first tried s
      → contains name names ≡ true
      → lookup name s.disk ≡ some row
      → row.retained ≡ false
      → busy name ≡ false
      → IsEvicting busy stuck names first (name ∷ tried) (evict_row stuck name row s)
  row-IsEvicting tried name row s v here e plain free = elim (Bool-cases (stuck name)) [
    | inl whole ↦
        step-IsEvicting tried name (removed stuck name s.disk) (s.freed + row.bytes) s v here
          (removed-DiffersAt name s.disk) (λ q l. rw whole at l) (λ q l safe. rw whole l)
          (λ q l. ground (arith))
    | inr goes ↦
        let gone : lookup name (removed stuck name s.disk) ≡ none =
          let a = lookup-erase name name s.disk in let b = eqb_refl name in ground (arith) in
        step-IsEvicting tried name (removed stuck name s.disk) (s.freed + row.bytes) s v here
          (removed-DiffersAt name s.disk) (λ q l. absurd (ground (arith)))
          (λ q l safe.
            let same : some q ≡ some row = sym l ∙ e in
            let eq : q ≡ row = cc in
            absurd (
              true≢false (
                sym safe
                ∙ subst (λ (z : Row). (z.retained || busy name) ≡ false) (sym eq)
                    (ground (arith)))))
          (λ q l. absurd (ground (arith)))
  ]

  read-IsEvicting :
      (tried : List String) (name : String) (r : Option Row) (s : Evicting)
      → IsEvicting busy stuck names first tried s
      → contains name names ≡ true
      → lookup name s.disk ≡ r
      → busy name ≡ false
      → IsEvicting busy stuck names first (name ∷ tried) (evict_read stuck name r s)
  read-IsEvicting tried name none s v here e free =
      left-IsEvicting tried name none s v here e (λ q l. absurd (cc))
  read-IsEvicting tried name (some row) s v here e free = elim (Bool-cases row.retained) [
    | inl held ↦
        subst
          (λ (b : Bool). IsEvicting busy stuck names first (name ∷ tried) (
            if b
            then record (s) { account = put name (some row) s.account }
            else evict_row stuck name row s))
          (sym held)
          (left-IsEvicting tried name (some row) s v here e (λ q l.
            let same : some q ≡ some row = sym l ∙ e in
            let eq : q ≡ row = cc in
            subst (λ (z : Row). (z.retained || busy name || stuck name) ≡ true) (sym eq)
              (ground (arith))))
    | inr plain ↦
        subst
          (λ (b : Bool). IsEvicting busy stuck names first (name ∷ tried) (
            if b
            then record (s) { account = put name (some row) s.account }
            else evict_row stuck name row s))
          (sym plain) (row-IsEvicting tried name row s v here e plain free)
  ]

  evict_slot-IsEvicting :
      (tried : List String) (name : String) (s : Evicting)
      → IsEvicting busy stuck names first tried s
      → contains name names ≡ true
      → IsEvicting busy stuck names first (name ∷ tried) (evict_slot busy stuck name s)
  unfolding evict_slot contains
  evict_slot-IsEvicting tried name s v here = elim (Bool-cases (busy name)) [
    | inr free ↦ rw free (read-IsEvicting tried name (lookup name s.disk) s v here refl free)
    | inl locked ↦ rw locked (record {
      balanced = v.balanced;
      agrees = v.agrees;
      known = v.known;
      done = λ j.
          at_name (λ i. (eqb name i || contains i tried) ≡ true → IsKept busy stuck i s.disk) name j
            (λ m row l. ground (arith)) (λ other m. v.done j (ground (arith)));
      shrunk = v.shrunk;
      safe = v.safe;
    })
  ]

  pub evict_batch-IsEvicting :
      (batch : List (String × ℕ)) (tried : List String) (s : Evicting)
      → IsEvicting busy stuck names first tried s
      → ((x : String × ℕ) → Has x batch → contains x.0 names ≡ true)
      → IsEvicting busy stuck names first (try_names batch tried) (evict_batch busy stuck batch s)
  unfolding evict_batch try_names
  evict_batch-IsEvicting [] tried s v h = v
  evict_batch-IsEvicting ((name, size) ∷ batch) tried s v h =
      evict_batch-IsEvicting batch (name ∷ tried) (evict_slot busy stuck name s)
        (evict_slot-IsEvicting tried name s v (h (name, size) (inl refl))) (λ x m. h x (inr m))
