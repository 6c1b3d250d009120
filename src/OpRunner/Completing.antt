-- ===== src/OpRunner/Completing.antt =====
-- Starting the ready steps and taking one that has come back keep what the loop keeps true.
use monty_pod.Common.{
  Bool-cases, Has→contains, List, Option, String, [], all_known, all_known-contains, ap, arith,
  contains, contains-append, contains-select, eq_iff, eqb, eqb_refl, false, inl, inr, insert,
  is_empty, length, length-append, length-select, map, none, not, refl, select, some, string_eq,
  subst, suc, true, zero, ℕ, ◌++◌, ◌+◌, ◌||◌, ◌∙◌, ◌∷◌, ◌≡◌,
}
use monty_pod.OpRunner.Envelope.{OpStep, deps_of}
use monty_pod.OpRunner.Binding.{Outputs}
use monty_pod.OpRunner.Schedule.{Sched, complete, done_ids, is_optional, next_back, submit}
use monty_pod.OpRunner.Dropping.{
  Inv, IsClean, Lost, Settled, drop_dependents-Settled, raises, starves,
}

done_ids-insert :
    (k j : String) (outs : Outputs) (d : List (String × Outputs))
    → contains k (map (λ (x : String × Outputs). x.0) (insert j outs d))
      ≡ (eqb j k || contains k (map (λ (x : String × Outputs). x.0) d))
unfolding insert contains
done_ids-insert k j outs [] = refl
done_ids-insert k j outs ((i, o) ∷ d) =
    ground (arith, done_ids-insert k j outs d, eq_iff i j, eq_iff j k, eq_iff i k)

next_back-contains :
    (n : ℕ) (k : String) (others : List String) (x : String)
    → contains x (k ∷ others)
      ≡ (eqb (next_back n k others).0 x || contains x (next_back n k others).1)
unfolding next_back contains
next_back-contains n k [] x = refl
next_back-contains zero k (j ∷ others) x = refl
next_back-contains (suc n) k (j ∷ others) x =
    let ih = next_back-contains n j others x in ground (arith)

pub next_back-length :
    (n : ℕ) (k : String) (others : List String) → length (next_back n k others).1 ≡ length others
unfolding next_back
next_back-length n k [] = refl
next_back-length zero k (j ∷ others) = refl
next_back-length (suc n) k (j ∷ others) = let ih = next_back-length n j others in omega arith

pub nonempty-append : (xs ys : List String) → is_empty xs ≡ false → is_empty (xs ++ ys) ≡ false
nonempty-append [] ys h = absurd (ground (arith))
nonempty-append (x ∷ xs) ys h = refl

pub some_member : (ks : List String) → is_empty ks ≡ false → (k : String) × (contains k ks ≡ true)
some_member [] h = absurd (ground (arith))
some_member (k ∷ ks) h = (k, Has→contains k (k ∷ ks) (inl refl))

own_first : (k : String) (ks : List String) → (eqb k k || contains k ks) ≡ true
own_first k ks = let e = eqb_refl k in ground (arith)

module _ (steps : List OpStep) (results : String → Option Outputs) where
  submit-Inv : (st : Sched) → Inv steps results st → Inv steps results (submit steps st)
  unfolding submit
  submit-Inv st v = record {
    placed = λ k m.
        let old = v.placed k m in
        let a =
          contains-select k (λ j. not (all_known (done_ids st) (deps_of steps j))) st.pending in
        let b = contains-select k (λ j. all_known (done_ids st) (deps_of steps j)) st.pending in
        let c =
          contains-append k st.running
            (select (λ j. all_known (done_ids st) (deps_of steps j)) st.pending) in
        ground (arith);
    listed = λ k m.
        let a =
          contains-select k (λ j. not (all_known (done_ids st) (deps_of steps j))) st.pending in
        let b = contains-select k (λ j. all_known (done_ids st) (deps_of steps j)) st.pending in
        let c =
          contains-append k st.running
            (select (λ j. all_known (done_ids st) (deps_of steps j)) st.pending) in
        v.listed k (ground (arith));
    ran = v.ran;
    lost = v.lost;
    fed = λ k d m dep.
        let b = contains-select k (λ j. all_known (done_ids st) (deps_of steps j)) st.pending in
        let c =
          contains-append k st.running
            (select (λ j. all_known (done_ids st) (deps_of steps j)) st.pending) in
        elim (Bool-cases (contains k st.running)) [
          | inl old ↦ v.fed k d old dep
          | inr new ↦ all_known-contains (done_ids st) (deps_of steps k) d (ground (arith)) dep
        ];
  }

  submit-IsClean : (st : Sched) → IsClean steps st → IsClean steps (submit steps st)
  unfolding submit
  submit-IsClean st clean k d m dep =
      let a = contains-select k (λ j. not (all_known (done_ids st) (deps_of steps j))) st.pending in
      clean k d (ground (arith)) dep

  pub submit-length :
      (st : Sched)
      → length (submit steps st).pending + length (submit steps st).running
        ≡ length st.pending + length st.running
  unfolding submit
  submit-length st =
      let a = length-select (λ j. all_known (done_ids st) (deps_of steps j)) st.pending in
      let b =
        length-append st.running
          (select (λ j. all_known (done_ids st) (deps_of steps j)) st.pending) in
      omega arith

  fed-delivers :
      (st : Sched) (j : String) (outs : Outputs)
      → Inv steps results st
      → contains j st.running ≡ true
      → results j ≡ some outs
      → ¬ Lost steps results j
  fed-delivers st j outs v here good (raises k bad) = absurd (cc)
  fed-delivers st j outs v here good (starves k d dep gone) = v.ran d (v.fed j d here dep) gone

  complete-Settled :
      (st : Sched) (j : String) (left : List String) (r : Option Outputs)
      → Inv steps results st
      → IsClean steps st
      → ((x : String) → contains x st.running ≡ (eqb j x || contains x left))
      → contains j st.running ≡ true
      → results j ≡ r
      → Settled steps results
          (record (st) { running = left })
          (complete steps j r (record (st) { running = left }))
  unfolding complete contains
  complete-Settled st j left (some outs) v clean split here gave = (
    record {
      placed = λ k m.
          let old = v.placed k m in
          let a = split k in let b = done_ids-insert k j outs st.produced in ground (arith);
      listed = λ k m. let a = split k in v.listed k (ground (arith));
      ran = λ k m.
          let b = done_ids-insert k j outs st.produced in
          elim (Bool-cases (eqb j k)) [
            | inl same ↦
                subst (λ x. ¬ Lost steps results x) ((eq_iff j k).0 same)
                  (fed-delivers st j outs v here gave)
            | inr other ↦ v.ran k (ground (arith))
          ];
      lost = v.lost;
      fed = λ k d m dep.
          let a = split k in
          let b = done_ids-insert d j outs st.produced in
          let old = v.fed k d (ground (arith)) dep in ground (arith);
    },
    clean,
    omega arith,
    refl,
  )
  complete-Settled st j left none v clean split here gave =
      elim (Bool-cases (is_optional steps j)) [
        | inr required ↦
            rw (required, complete) (j, v.listed j (ground (arith)), required, raises j gave)
        | inl opt ↦
            rw (opt, complete)
              (drop_dependents-Settled steps results (length st.pending)
                (record (st) { running = left; failed = j ∷ st.failed })
                (record {
                  placed = λ k m. let old = v.placed k m in let a = split k in ground (arith);
                  listed = λ k m. let a = split k in v.listed k (ground (arith));
                  ran = v.ran;
                  lost = λ k m. elim (Bool-cases (eqb j k)) [
                    | inl same ↦
                        let key : j ≡ k = (eq_iff j k).0 same in
                        (
                          subst (λ x. is_optional steps x ≡ true) key opt,
                          subst (Lost steps results) key (raises j gave),
                        )
                    | inr other ↦ v.lost k (ground (arith))
                  ];
                  fed = λ k d m dep. let a = split k in v.fed k d (ground (arith)) dep;
                })
                (omega arith))
      ]

  pub loop_start :
      (st : Sched)
      → Inv steps results st
      → IsClean steps st
      → (k : String) (others : List String) → (submit steps st).running ≡ k ∷ others
      → (n : ℕ)
      → Settled steps results
          (record (submit steps st) { running = (next_back n k others).1 })
          (complete steps
            (next_back n k others).0
            (results (next_back n k others).0)
            (record (submit steps st) { running = (next_back n k others).1 }))
  loop_start st v clean k others e n =
      let split = λ (x : String). ap (contains x) e ∙ next_back-contains n k others x in
      complete-Settled (submit steps st) (next_back n k others).0 (next_back n k others).1
        (results (next_back n k others).0) (submit-Inv st v) (submit-IsClean st clean) split
        (split (next_back n k others).0
          ∙ own_first (next_back n k others).0 (next_back n k others).1)
        refl
