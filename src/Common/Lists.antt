-- ===== src/Common/Lists.antt =====
-- Lists measured by native numbers, under the library's names, and predicates by recursion.
use Prim.Native.Nat.{ℕ, zero, suc, ◌+◌}
use mathlib.Core.Path.{refl, ◌≡◌, ap, subst, sym}
use mathlib.Core.Logic.{◌⊎◌, inl, inr}
use mathlib.Core.List.{List, [], ◌∷◌, ◌++◌, map}
use mathlib.Core.Option.{Option, none, some}
use mathlib.Core.Bool.{Bool, true, false, not, ◌&&◌}
use monty_pod.Common.Tests.{if◌then◌else◌}
use native.Mathlib.Omega.{arith}

module _ {ℓ} {A : Type ℓ} where
  abbrev pub length : List A → ℕ
  length [] = 0
  length (x ∷ xs) = suc (length xs)

  abbrev pub take : ℕ → List A → List A
  take zero xs = []
  take (suc n) [] = []
  take (suc n) (x ∷ xs) = x ∷ take n xs

  abbrev pub head? : List A → Option A
  head? [] = none
  head? (x ∷ xs) = some x

  abbrev pub tail : List A → List A
  tail [] = []
  tail (x ∷ xs) = xs

  abbrev pub is_empty : List A → Bool
  is_empty [] = true
  is_empty (x ∷ xs) = false

  abbrev pub is_some : Option A → Bool
  is_some none = false
  is_some (some a) = true

  pub length-append : (xs ys : List A) → length (xs ++ ys) ≡ length xs + length ys
  length-append [] ys = omega arith
  length-append (x ∷ xs) ys = omega (arith, length-append xs ys)

-- Every element has the property.
abbrev pub All {ℓ κ} : {A : Type ℓ} → (A → Type κ) → List A → Type κ
All P [] = Unit
All P (x ∷ xs) = P x × All P xs

module _ {ℓ κ} {A : Type ℓ} (P : A → Type κ) where
  pub All-append : (xs ys : List A) → All P xs → All P ys → All P (xs ++ ys)
  All-append [] ys h k = k
  All-append (x ∷ xs) ys h k = (h.0, All-append xs ys h.1 k)

module _ {ℓ κ μ} {A : Type ℓ} (P : A → Type κ) (Q : A → Type μ) (f : (x : A) → P x → Q x) where
  pub All-map : (xs : List A) → All P xs → All Q xs
  All-map [] h = tt
  All-map (x ∷ xs) h = (f x h.0, All-map xs h.1)

-- `x in xs`, as the place where it stands.
abbrev pub Has : {A : Type 0} → A → List A → Type 0
Has x [] = ⊥
Has x (y ∷ xs) = (x ≡ y) ⊎ Has x xs

pub All-Has {κ} : {A : Type 0} (P : A → Type κ) (x : A) (xs : List A) → All P xs → Has x xs → P x
All-Has P x [] h m = elim m [ ]
All-Has P x (y ∷ xs) h (inl e) = subst P (sym e) h.0
All-Has P x (y ∷ xs) h (inr m) = All-Has P x xs h.1 m

module _ {ℓ κ μ ν} {A : Type ℓ} (P : A → Type κ) (Q : A → Type μ) (R : A → Type ν) where
  pub All-map₂ : ((x : A) → P x → Q x → R x) → (xs : List A) → All P xs → All Q xs → All R xs
  All-map₂ f [] h k = tt
  All-map₂ f (x ∷ xs) h k = (f x h.0 k.0, All-map₂ f xs h.1 k.1)

pub All-All {ℓ κ} : {A : Type ℓ} (P : A → Type κ) → ((x : A) → P x) → (xs : List A) → All P xs
All-All P f [] = tt
All-All P f (x ∷ xs) = (f x, All-All P f xs)

pub All-tail {ℓ κ} : {A : Type ℓ} (P : A → Type κ) (xs : List A) → All P xs → All P (tail xs)
All-tail P [] h = tt
All-tail P (x ∷ xs) h = h.1

module _ {ℓ} {A : Type ℓ} where
  unfoldable pub all : (A → Bool) → List A → Bool
  all p [] = true
  all p (x ∷ xs) = p x && all p xs

  -- The elements that pass a test, in their order.
  unfoldable pub select : (A → Bool) → List A → List A
  select p [] = []
  select p (x ∷ xs) = if p x then x ∷ select p xs else select p xs

  pub length-select :
      (p : A → Bool) (xs : List A)
      → length (select p xs) + length (select (λ x. not (p x)) xs) ≡ length xs
  unfolding select
  length-select p [] = omega arith
  length-select p (x ∷ xs) = ground (arith, length-select p xs)

  pub select-none :
      (p : A → Bool) (xs : List A) → select p xs ≡ [] → select (λ x. not (p x)) xs ≡ xs
  unfolding select
  select-none p [] h = refl
  select-none p (x ∷ xs) h = ground (arith, select-none p xs)

pub all-Has :
    {A : Type 0} (p : A → Bool) (x : A) (xs : List A) → all p xs ≡ true → Has x xs → p x ≡ true
unfolding all
all-Has p x [] h m = elim m [ ]
all-Has p x (y ∷ xs) h (inl e) = ground (arith)
all-Has p x (y ∷ xs) h (inr m) = ground (arith, all-Has p x xs)

pub Has-append : {A : Type 0} (x : A) (xs ys : List A) → Has x (xs ++ ys) → Has x xs ⊎ Has x ys
Has-append x [] ys m = inr m
Has-append x (z ∷ xs) ys (inl e) = inl (inl e)
Has-append x (z ∷ xs) ys (inr m) = elim (Has-append x xs ys m) [
  | inl l ↦ inl (inr l)
  | inr r ↦ inr r
]

pub Has-left : {A : Type 0} (x : A) (xs ys : List A) → Has x xs → Has x (xs ++ ys)
Has-left x [] ys m = elim m [ ]
Has-left x (z ∷ xs) ys (inl e) = inl e
Has-left x (z ∷ xs) ys (inr m) = inr (Has-left x xs ys m)

pub Has-right : {A : Type 0} (x : A) (xs ys : List A) → Has x ys → Has x (xs ++ ys)
Has-right x [] ys m = m
Has-right x (z ∷ xs) ys m = inr (Has-right x xs ys m)

pub Has-map :
    {A B : Type 0} (f : A → B) (y : B) (xs : List A)
    → Has y (map f xs)
    → (x : A) × Has x xs × (y ≡ f x)
Has-map f y [] m = elim m [ ]
Has-map f y (x ∷ xs) (inl e) = (x, inl refl, e)
Has-map f y (x ∷ xs) (inr m) = let (z, there, e) = Has-map f y xs m in (z, inr there, e)

pub map-Has : {A B : Type 0} (f : A → B) (x : A) (xs : List A) → Has x xs → Has (f x) (map f xs)
map-Has f x [] m = elim m [ ]
map-Has f x (y ∷ xs) (inl e) = inl (ap f e)
map-Has f x (y ∷ xs) (inr m) = inr (map-Has f x xs m)
