-- ===== src/OpRunner/Unput.antt =====
-- The steps that a terminal leaves out, and the entries that a test selects.
use monty_pod.Common.{
  Bool, Bool-cases, Has, List, String, [], arith, contains, eq_iff, eqb, erase, false, inl, inr,
  is_empty, map, not, refl, select, string_eq, subst, sym, true, true≢false, ◌&&◌, ◌||◌, ◌∷◌, ◌≡◌,
}
use monty_pod.OpRunner.Binding.{Outputs}
use monty_pod.OpRunner.Schedule.{Sched, done_ids}
use monty_pod.OpRunner.Drain.{drop_unput}

done_ids-erase :
    (k j : String) (d : List (String × Outputs))
    → contains k (map (λ (x : String × Outputs). x.0) (erase j d))
      ≡ (contains k (map (λ (x : String × Outputs). x.0) d) && not (eqb j k))
unfolding erase contains
done_ids-erase k j [] = refl
done_ids-erase k j ((i, o) ∷ d) =
    ground (arith, done_ids-erase k j d, eq_iff i j, eq_iff j k, eq_iff i k)

pub drop_unput-done :
    (k : String) (ks : List String) (st : Sched)
    → contains k (done_ids (drop_unput ks st)) ≡ (contains k (done_ids st) && not (contains k ks))
unfolding drop_unput contains
drop_unput-done k [] st = ground (arith)
drop_unput-done k (j ∷ ks) st =
    let ih =
      drop_unput-done k ks
        (record (st) { produced = erase j st.produced; failed = j ∷ st.failed }) in
    let e = done_ids-erase k j st.produced in ground (arith)

pub drop_unput-failed :
    (k : String) (ks : List String) (st : Sched)
    → contains k (drop_unput ks st).failed ≡ (contains k ks || contains k st.failed)
unfolding drop_unput contains
drop_unput-failed k [] st = refl
drop_unput-failed k (j ∷ ks) st =
    let ih =
      drop_unput-failed k ks
        (record (st) { produced = erase j st.produced; failed = j ∷ st.failed }) in
    ground (arith)

pub select-empty :
    {A : Type 0} (p : A → Bool) (x : A) (xs : List A)
    → is_empty (select p xs) ≡ true
    → Has x xs
    → p x ≡ false
unfolding select
select-empty p x [] h m = elim m [ ]
select-empty p x (y ∷ xs) h (inl e) = elim (Bool-cases (p y)) [
  | inl good ↦ absurd (true≢false (sym (rw good at h)))
  | inr bad ↦ subst (λ z. p z ≡ false) (sym e) bad
]
select-empty p x (y ∷ xs) h (inr m) = elim (Bool-cases (p y)) [
  | inl good ↦ absurd (true≢false (sym (rw good at h)))
  | inr bad ↦ select-empty p x xs (rw bad at h) m
]

pub Has-select :
    {A : Type 0} (p : A → Bool) (x : A) (xs : List A) → Has x xs → p x ≡ true → Has x (select p xs)
unfolding select
Has-select p x [] m h = elim m [ ]
Has-select p x (y ∷ xs) (inl e) h =
    let good : p y ≡ true = subst (λ z. p z ≡ true) e h in rw good (inl e)
Has-select p x (y ∷ xs) (inr m) h = elim (Bool-cases (p y)) [
  | inl good ↦ rw good (inr (Has-select p x xs m h))
  | inr bad ↦ rw bad (Has-select p x xs m h)
]

pub Has-of_select :
    {A : Type 0} (p : A → Bool) (x : A) (xs : List A)
    → Has x (select p xs)
    → Has x xs × (p x ≡ true)
unfolding select
Has-of_select p x [] m = elim m [ ]
Has-of_select p x (y ∷ xs) m = elim (Bool-cases (p y)) [
  | inr bad ↦ let (there, good) = Has-of_select p x xs (rw bad at m) in (inr there, good)
  | inl good ↦
      let m' : Has x (y ∷ select p xs) = rw good at m in
      elim m' [
        | inl e ↦ (inl e, subst (λ z. p z ≡ true) (sym e) good)
        | inr later ↦ let (there, good') = Has-of_select p x xs later in (inr there, good')
      ]
]

pub nonempty-select :
    {A : Type 0} (p : A → Bool) (xs : List A)
    → is_empty (select p xs) ≡ false
    → (x : A) × Has x xs × (p x ≡ true)
unfolding select
nonempty-select p [] h = absurd (true≢false h)
nonempty-select p (y ∷ xs) h = elim (Bool-cases (p y)) [
  | inl good ↦ (y, inl refl, good)
  | inr bad ↦ let (x, there, good) = nonempty-select p xs (rw bad at h) in (x, inr there, good)
]
