-- ===== src/InputCache/Retention.antt =====
-- What the cache retains: `release_superseded`, `adopt_local`, and how a durable PUT ends a retention.
-- A key is split at its last slash, as `_generation` does. Which slots are locked, and whether the
-- copy of a file comes about, are arguments.
use monty_pod.Common.{
  Bool, Eq, List, String, [], arith, eq_iff, eqb, erase, false, if◌then◌else◌, insert, lookup, ltb,
  none, not, select, some, str_eq, string_eq, true, ℕ, ◌&&◌, ◌+◌, ◌-◌, ◌||◌, ◌↔◌, ◌∷◌, ◌≡◌,
}

-- The marker of a retained slot, and the bytes of its payload.
pub record Kept : Type 0 where
  pub holder : String
  pub bytes : ℕ

-- The scope and the name of an object.
abbrev pub ObjectKey : Type 0
ObjectKey = String × String

abbrev pub is_key : ObjectKey → ObjectKey → Bool
is_key (s, n) (t, m) = str_eq s t && str_eq n m

pub is_key_iff : (p q : ObjectKey) → (is_key p q ≡ true) ↔ (p ≡ q)
is_key_iff p q = (
  λ h. ground (arith, eq_iff p.0 q.0, eq_iff p.1 q.1),
  λ h. ground (arith, eq_iff p.0 q.0, eq_iff p.1 q.1),
)

instance abbrev pub key_eq : Eq ObjectKey
key_eq = record { beq = is_key; beq_iff = is_key_iff }

-- Whether nobody can read an entry once `holder` has the object `key`.
abbrev pub is_superseded : ObjectKey → String → ObjectKey × Kept → Bool
is_superseded key holder (k, kept) =
    if eqb ⦃e = key_eq⦄ k key
    then false
    else if str_eq kept.holder holder
    then str_eq k.1 key.1 && not (str_eq k.0 key.0)
    else true

unfoldable pub release_superseded :
    (ObjectKey → Bool) → ObjectKey → String → List (ObjectKey × Kept) → List (ObjectKey × Kept)
unfolding select
release_superseded busy key holder rows =
    select (λ (e : ObjectKey × Kept). not (is_superseded key holder e) || busy e.0) rows

unfoldable pub retained_bytes : List (ObjectKey × Kept) → ℕ
retained_bytes [] = 0
retained_bytes ((k, kept) ∷ rows) = kept.bytes + retained_bytes rows

-- What the object itself has retained before.
unfoldable pub already : ObjectKey → List (ObjectKey × Kept) → ℕ
unfolding lookup
already key rows = elim (lookup ⦃e = key_eq⦄ key rows) [ none ↦ 0 | some kept ↦ kept.bytes ]

pub data Adoption : Type 0 where
  adopted over_ceiling not_copied : Adoption

-- `adopt_local` of a file, where the cache is on.
unfoldable pub adopt_local :
    (ObjectKey → Bool)
    → Bool
    → ℕ
    → ObjectKey
    → String
    → ℕ
    → List (ObjectKey × Kept)
    → Adoption × List (ObjectKey × Kept)
unfolding release_superseded retained_bytes already insert erase
adopt_local busy copied ceiling key holder incoming rows =
    let left = release_superseded busy key holder rows in
    if ltb ceiling (retained_bytes left - already key left + incoming)
    then (over_ceiling, left)
    else if copied
    then (adopted, insert ⦃e = key_eq⦄ key (record { holder = holder; bytes = incoming }) left)
    else (not_copied, erase ⦃e = key_eq⦄ key left)

-- What happens to the retained set.
pub data Retaining : Type 0 where
  retain :
      (busy : ObjectKey → Bool) (copied : Bool) (key : ObjectKey) (holder : String) (incoming : ℕ)
      → Retaining
  put_lands : (key : ObjectKey) → Retaining

unfoldable pub retaining : ℕ → Retaining → List (ObjectKey × Kept) → List (ObjectKey × Kept)
unfolding adopt_local erase
retaining ceiling (retain busy copied key holder incoming) rows =
    (adopt_local busy copied ceiling key holder incoming rows).1
retaining ceiling (put_lands key) rows = erase ⦃e = key_eq⦄ key rows

unfoldable pub retaining_all :
    ℕ → List Retaining → List (ObjectKey × Kept) → List (ObjectKey × Kept)
unfolding retaining
retaining_all ceiling [] rows = rows
retaining_all ceiling (x ∷ xs) rows = retaining_all ceiling xs (retaining ceiling x rows)
