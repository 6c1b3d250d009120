-- ===== src/OpRunner/Dropping.antt =====
-- What the scheduling loop keeps true, and that dropping the dependents of a failed step keeps it.
use Prim.Native.String.{String}
use monty_pod.Common.{
  Bool-cases, List, Option, [], any_known, any_known-false, arith, contains, contains-discard,
  contains-select, discard, eq_iff, eqb, eqb_refl, false, find_known, inl, inr, is_empty, length,
  none, refl, some, string_eq, subst, suc, true, zero, ℕ, ◌||◌, ◌∙◌, ◌∷◌, ◌≡◌, ◌≤◌,
}
use monty_pod.OpRunner.Envelope.{OpStep, deps_of, ids}
use monty_pod.OpRunner.Schedule.{
  Sched, done_ids, doomed_of, drop_dependents, drop_each, is_optional,
}
use monty_pod.OpRunner.Binding.{Outputs}

-- The steps that cannot deliver: they raise, or need one that cannot.
pub data Lost (steps : List OpStep) (results : String → Option Outputs) : String → Type 0 where
  raises : (k : String) → results k ≡ none → Lost steps results k
  starves :
      (k d : String)
      → contains d (deps_of steps k) ≡ true
      → Lost steps results d
      → Lost steps results k

pub record Inv (steps : List OpStep) (results : String → Option Outputs) (st : Sched) : Type 0 where
  pub placed :
      (k : String)
      → contains k (ids steps) ≡ true
      → (contains k st.pending
          || contains k st.running
          || contains k (done_ids st)
          || contains k st.failed)
        ≡ true
  pub listed :
      (k : String)
      → (contains k st.pending || contains k st.running) ≡ true
      → contains k (ids steps) ≡ true
  pub ran : (k : String) → contains k (done_ids st) ≡ true → ¬ Lost steps results k
  pub lost :
      (k : String)
      → contains k st.failed ≡ true
      → (is_optional steps k ≡ true) × Lost steps results k
  pub fed :
      (k d : String)
      → contains k st.running ≡ true
      → contains d (deps_of steps k) ≡ true
      → contains d (done_ids st) ≡ true

-- No waiting step needs a failed one.
abbrev pub IsClean : List OpStep → Sched → Type 0
IsClean steps st =
    (k d : String)
    → contains k st.pending ≡ true
    → contains d (deps_of steps k) ≡ true
    → contains d st.failed ≡ false

pub empty_contains : (k : String) (ks : List String) → is_empty ks ≡ true → contains k ks ≡ false
unfolding contains
empty_contains k [] h = refl
empty_contains k (j ∷ ks) h = absurd (ground (arith))

contains_long : (k : String) (ks : List String) → contains k ks ≡ true → ¬ (length ks ≤ 0)
unfolding contains
contains_long k [] h few = absurd (ground (arith))
contains_long k (j ∷ ks) h few = omega arith

pub doomed_empty-IsClean :
    (steps : List OpStep) (st : Sched) → is_empty (doomed_of steps st) ≡ true → IsClean steps st
doomed_empty-IsClean steps st h k d here dep =
    let a = contains-select k (λ j. any_known st.failed (deps_of steps j)) st.pending in
    let b = empty_contains k (doomed_of steps st) h in
    any_known-false st.failed (deps_of steps k) d (ground (arith)) dep

length-discard : (k : String) (ks : List String) → length (discard k ks) ≤ length ks
unfolding discard
length-discard k [] = omega arith
length-discard k (j ∷ ks) = ground (arith, length-discard k ks)

discard-shorter :
    (k : String) (ks : List String) → contains k ks ≡ true → suc (length (discard k ks)) ≤ length ks
unfolding discard contains
discard-shorter k [] h = absurd (ground (arith))
discard-shorter k (j ∷ ks) h = elim (Bool-cases (eqb j k)) [
  | inl same ↦ let le = length-discard k ks in rw same (omega arith)
  | inr other ↦ let ih = discard-shorter k ks (ground (arith)) in rw other (omega arith)
]

-- A chain error names a required step that is lost.
abbrev pub Blamed : List OpStep → (String → Option Outputs) → Type 0
Blamed steps results =
    (k : String) × (contains k (ids steps) ≡ true)
    × (is_optional steps k ≡ false)
    × Lost steps results k

abbrev pub Dropped : List OpStep → (String → Option Outputs) → Sched → Option Sched → Type 0
Dropped steps results st none = Blamed steps results
Dropped steps results st (some next) =
    Inv steps results next × (length next.pending ≤ length st.pending) × (next.running ≡ st.running)

-- A round that shortens the list of the waiting steps.
abbrev Shrunk : List OpStep → (String → Option Outputs) → Sched → Option Sched → Type 0
Shrunk steps results st none = Blamed steps results
Shrunk steps results st (some next) =
    Inv steps results next
    × (suc (length next.pending) ≤ length st.pending)
    × (next.running ≡ st.running)

-- All rounds.
abbrev pub Settled : List OpStep → (String → Option Outputs) → Sched → Option Sched → Type 0
Settled steps results st none = Blamed steps results
Settled steps results st (some next) =
    Inv steps results next
    × IsClean steps next
    × (length next.pending ≤ length st.pending)
    × (next.running ≡ st.running)

eqb_first : (k : String) (ks : List String) → contains k (k ∷ ks) ≡ true
unfolding contains
eqb_first k ks = let e = eqb_refl k in ground (arith)

eqb_later : (j k : String) (ks : List String) → contains j ks ≡ true → contains j (k ∷ ks) ≡ true
unfolding contains
eqb_later j k ks h = ground (arith)

module _ (steps : List OpStep) (results : String → Option Outputs) where
  Dropped-from :
      (st : Sched) (waiting gone : List String) (end : Option Sched)
      → length waiting ≤ length st.pending
      → Dropped steps results (record (st) { pending = waiting; failed = gone }) end
      → Dropped steps results st end
  Dropped-from st waiting gone none le h = h
  Dropped-from st waiting gone (some next) le (v, fewer, same) = (v, omega arith, same)

  drop_one-Inv :
      (k : String) (st : Sched)
      → Inv steps results st
      → is_optional steps k ≡ true
      → Lost steps results k
      → Inv steps results (record (st) { pending = discard k st.pending; failed = k ∷ st.failed })
  unfolding contains
  drop_one-Inv k st v opt gone = record {
    placed =
        λ j m. let old = v.placed j m in let a = contains-discard j k st.pending in ground (arith);
    listed = λ j m. let a = contains-discard j k st.pending in v.listed j (ground (arith));
    ran = v.ran;
    lost = λ j m. elim (Bool-cases (eqb k j)) [
      | inl same ↦
          let key : k ≡ j = (eq_iff k j).0 same in
          (subst (λ x. is_optional steps x ≡ true) key opt, subst (Lost steps results) key gone)
      | inr other ↦ v.lost j (ground (arith))
    ];
    fed = v.fed;
  }

  drop_each-Dropped :
      (doomed : List String) (st : Sched)
      → Inv steps results st
      → ((k : String)
          → contains k doomed ≡ true
          → (contains k (ids steps) ≡ true) × Lost steps results k)
      → Dropped steps results st (drop_each steps doomed st)
  unfolding drop_each contains
  drop_each-Dropped [] st v gone = (v, omega arith, refl)
  drop_each-Dropped (k ∷ doomed) st v gone = elim (Bool-cases (is_optional steps k)) [
    | inr required ↦
        let (here, bad) = gone k (eqb_first k doomed) in rw required (k, here, required, bad)
    | inl opt ↦
        let (here, bad) = gone k (eqb_first k doomed) in
        let rest =
          drop_each-Dropped doomed
            (record (st) { pending = discard k st.pending; failed = k ∷ st.failed })
            (drop_one-Inv k st v opt bad) (λ j m. gone j (eqb_later j k doomed m)) in
        let le = length-discard k st.pending in
        rw opt (
          Dropped-from st (discard k st.pending) (k ∷ st.failed) (drop_each steps doomed _) le rest)
  ]

  doomed_Lost :
      (st : Sched) (k : String)
      → Inv steps results st
      → contains k (doomed_of steps st) ≡ true
      → (contains k (ids steps) ≡ true) × Lost steps results k
  doomed_Lost st k v m =
      let a = contains-select k (λ j. any_known st.failed (deps_of steps j)) st.pending in
      let (d, dep, bad) = find_known st.failed (deps_of steps k) (ground (arith)) in
      (v.listed k (ground (arith)), starves k d dep (v.lost d bad).1)

  Shrunk-from :
      (st : Sched) (waiting gone : List String) (end : Option Sched)
      → suc (length waiting) ≤ length st.pending
      → Dropped steps results (record (st) { pending = waiting; failed = gone }) end
      → Shrunk steps results st end
  Shrunk-from st waiting gone none le h = h
  Shrunk-from st waiting gone (some next) le (v, fewer, same) = (v, omega arith, same)

  drop_each-Shrunk :
      (doomed : List String) (st : Sched)
      → Inv steps results st
      → ((k : String) → contains k doomed ≡ true → contains k st.pending ≡ true)
      → ((k : String)
          → contains k doomed ≡ true
          → (contains k (ids steps) ≡ true) × Lost steps results k)
      → is_empty doomed ≡ false
      → Shrunk steps results st (drop_each steps doomed st)
  unfolding drop_each
  drop_each-Shrunk [] st v waits gone some_doomed = absurd (ground (arith))
  drop_each-Shrunk (k ∷ doomed) st v waits gone some_doomed =
      let (here, bad) = gone k (eqb_first k doomed) in
      let shorter = discard-shorter k st.pending (waits k (eqb_first k doomed)) in
      elim (Bool-cases (is_optional steps k)) [
        | inr required ↦ rw required (k, here, required, bad)
        | inl opt ↦
            let rest =
              drop_each-Dropped doomed
                (record (st) { pending = discard k st.pending; failed = k ∷ st.failed })
                (drop_one-Inv k st v opt bad) (λ j m. gone j (eqb_later j k doomed m)) in
            rw opt (
              Shrunk-from st (discard k st.pending) (k ∷ st.failed) (drop_each steps doomed _)
                shorter rest)
      ]

  doomed_waits :
      (st : Sched) (k : String)
      → contains k (doomed_of steps st) ≡ true
      → contains k st.pending ≡ true
  doomed_waits st k m =
      let a = contains-select k (λ j. any_known st.failed (deps_of steps j)) st.pending in
      ground (arith)

  no_waiting : (st : Sched) → length st.pending ≤ 0 → IsClean steps st
  no_waiting st few k d here dep = absurd (contains_long k st.pending here few)

  settled_from :
      (st next : Sched) (end : Option Sched)
      → length next.pending ≤ length st.pending
      → next.running ≡ st.running
      → Settled steps results next end
      → Settled steps results st end
  settled_from st next none le same h = h
  settled_from st next (some last) le same (v, clean, fewer, same') =
      (v, clean, omega arith, same' ∙ same)

  settle_round :
      (n : ℕ) (st : Sched) (end : Option Sched)
      → length st.pending ≤ suc n
      → ((next : Sched)
          → Inv steps results next
          → length next.pending ≤ n
          → Settled steps results next (drop_dependents steps n next))
      → Shrunk steps results st end
      → Settled steps results st
          (elim end [ none ↦ none | some next ↦ drop_dependents steps n next ])
  settle_round n st none few again h = h
  settle_round n st (some next) few again (v, fewer, same) =
      settled_from st next (drop_dependents steps n next) (omega arith) same
        (again next v (omega arith))

  pub drop_dependents-Settled :
      (n : ℕ) (st : Sched)
      → Inv steps results st
      → length st.pending ≤ n
      → Settled steps results st (drop_dependents steps n st)
  unfolding drop_dependents
  drop_dependents-Settled zero st v few = (v, no_waiting st few, omega arith, refl)
  drop_dependents-Settled (suc n) st v few = elim (Bool-cases (is_empty (doomed_of steps st))) [
    | inl all_well ↦
        rw (all_well, drop_dependents)
          (v, doomed_empty-IsClean steps st all_well, omega arith, refl)
    | inr more ↦
        let round =
          drop_each-Shrunk (doomed_of steps st) st v (doomed_waits st) (λ k. doomed_Lost st k v)
            more in
        rw (more, drop_dependents)
          (settle_round n st (drop_each steps (doomed_of steps st) st) few
            (λ next w le. drop_dependents-Settled n next w le) round)
  ]
