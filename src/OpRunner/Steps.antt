-- ===== src/OpRunner/Steps.antt =====
-- The steps of a chain by their ids.
use Prim.Native.String.{String}
use monty_pod.Common.{
  Bool, Bool-cases, Has, Has→contains, List, [], all, ap, arith, contains, contains→Has, eq_iff,
  inl, inr, length, refl, some, str_eq, string_eq, subst, sym, true, ◌∷◌, ◌≡◌,
}
use monty_pod.OpRunner.Envelope.{OpStep, by_id, deps_of, ids, is_distinct, step_deps}

abbrev pub Distinct : List String → Type 0
Distinct [] = Unit
Distinct (n ∷ names) = (¬ Has n names) × Distinct names

pub is_distinct→Distinct : (names : List String) → is_distinct names ≡ true → Distinct names
unfolding is_distinct
is_distinct→Distinct [] h = tt
is_distinct→Distinct (n ∷ names) h = (
  λ m. let c = Has→contains n names m in absurd (ground (arith)),
  is_distinct→Distinct names (ground (arith)),
)

pub Distinct→is_distinct : (names : List String) → Distinct names → is_distinct names ≡ true
unfolding is_distinct
Distinct→is_distinct [] h = refl
Distinct→is_distinct (n ∷ names) (fresh, h) = elim (Bool-cases (contains n names)) [
  | inl old ↦ absurd (fresh (contains→Has n names old))
  | inr new ↦ rw (new, Distinct→is_distinct names h) refl
]

pub Has-ids : (s : OpStep) (steps : List OpStep) → Has s steps → Has s.id (ids steps)
Has-ids s [] m = elim m [ ]
Has-ids s (t ∷ steps) (inl e) = inl (ap (λ (u : OpStep). u.id) e)
Has-ids s (t ∷ steps) (inr m) = inr (Has-ids s steps m)

pub step_of_id :
    (k : String) (steps : List OpStep) → Has k (ids steps) → (s : OpStep) × Has s steps × (s.id ≡ k)
step_of_id k [] m = elim m [ ]
step_of_id k (t ∷ steps) (inl e) = (t, inl refl, sym e)
step_of_id k (t ∷ steps) (inr m) = let (s, h, e) = step_of_id k steps m in (s, inr h, e)

pub by_id-Has :
    (s : OpStep) (steps : List OpStep)
    → Distinct (ids steps)
    → Has s steps
    → by_id s.id steps ≡ some s
unfolding by_id
by_id-Has s [] d m = elim m [ ]
by_id-Has s (t ∷ steps) (fresh, d) (inl e) =
    let same : str_eq t.id s.id ≡ true = (eq_iff t.id s.id).1 (ap (λ (u : OpStep). u.id) (sym e)) in
    rw same (ap some (sym e))
by_id-Has s (t ∷ steps) (fresh, d) (inr m) = elim (Bool-cases (str_eq t.id s.id)) [
  | inl same ↦
      let e : t.id ≡ s.id = (eq_iff t.id s.id).0 same in
      absurd (fresh (subst (λ k. Has k (ids steps)) (sym e) (Has-ids s steps m)))
  | inr other ↦ rw other (by_id-Has s steps d m)
]

pub deps_of-Has :
    (s : OpStep) (steps : List OpStep)
    → Distinct (ids steps)
    → Has s steps
    → deps_of steps s.id ≡ step_deps s
unfolding deps_of
deps_of-Has s steps d m = rw (by_id-Has s steps d m, deps_of) refl

pub all_of_Has :
    {A : Type 0} (p : A → Bool) (xs : List A) → ((x : A) → Has x xs → p x ≡ true) → all p xs ≡ true
unfolding all
all_of_Has p [] h = refl
all_of_Has p (x ∷ xs) h =
    let first = h x (inl refl) in
    let rest = all_of_Has p xs (λ y m. h y (inr m)) in rw (first, rest) refl

pub length-ids : (steps : List OpStep) → length (ids steps) ≡ length steps
length-ids [] = refl
length-ids (s ∷ steps) = let ih = length-ids steps in omega arith
