-- ===== src/OpRunner/Sound.antt =====
-- `_dag_is_sound` accepts exactly the chains that are acyclic, closed and free of races.
use Prim.Native.String.{String}
use monty_pod.Common.{
  Has, Has-append, Has-left, Has-right, Has→contains, List, [], all, all-Has, all_known,
  all_known-contains, all_known_of_Has, arith, contains, contains→Has, false, inl, inr, length,
  refl, string_eq, subst, sym, true, ℕ, ◌<◌, ◌↔◌, ◌≡◌,
}
use monty_pod.OpRunner.Envelope.{OpStep, dag_is_sound, deps_of, ids, sources, step_deps}
use monty_pod.OpRunner.Steps.{
  Distinct, Distinct→is_distinct, Has-ids, all_of_Has, deps_of-Has, is_distinct→Distinct,
  length-ids, step_of_id,
}
use monty_pod.OpRunner.Dag.{rounds_settle-Ranked, rounds_settle_of_Ranked}

-- The ids differ, each dependency is a step of the chain, what is read is waited for, and a rank
-- shows that no step depends on itself through others.
pub record IsDag (steps : List OpStep) : Type 0 where
  pub distinct : Distinct (ids steps)
  pub closed : (s : OpStep) (d : String) → Has s steps → Has d (step_deps s) → Has d (ids steps)
  pub no_race : (s : OpStep) (d : String) → Has s steps → Has d (sources s.inputs) → Has d s.needs
  pub rank : String → ℕ
  pub acyclic : (s : OpStep) (d : String) → Has s steps → Has d (step_deps s) → rank d < rank s.id

nothing_known : (k : String) → contains k [] ≡ false
unfolding contains
nothing_known k = refl

dag→IsDag : (steps : List OpStep) → dag_is_sound steps ≡ true → IsDag steps
unfolding dag_is_sound
dag→IsDag steps h =
    let needs_known : all (λ (s : OpStep). all_known (ids steps) s.needs) steps ≡ true =
      ground (arith) in
    let reads_known : all (λ (s : OpStep). all_known (ids steps) (sources s.inputs)) steps ≡ true =
      ground (arith) in
    let waits : all (λ (s : OpStep). all_known s.needs (sources s.inputs)) steps ≡ true =
      ground (arith) in
    let distinct = is_distinct→Distinct (ids steps) (ground (arith)) in
    let (rank, low) =
      rounds_settle-Ranked (deps_of steps) (length steps) [] (ids steps) (ground (arith))
        (λ k m. nothing_known k) in
    record {
      distinct = distinct;
      closed = λ s d m dep. elim (Has-append d s.needs (sources s.inputs) dep) [
        | inl need ↦ contains→Has d (ids steps) (
            all_known-contains (ids steps) s.needs d
              (all-Has (λ (t : OpStep). all_known (ids steps) t.needs) s steps needs_known m)
              (Has→contains d s.needs need))
        | inr read ↦ contains→Has d (ids steps) (
            all_known-contains (ids steps) (sources s.inputs) d
              (all-Has (λ (t : OpStep). all_known (ids steps) (sources t.inputs)) s steps
                reads_known m)
              (Has→contains d (sources s.inputs) read))
      ];
      no_race = λ s d m read. contains→Has d s.needs (
          all_known-contains s.needs (sources s.inputs) d
            (all-Has (λ (t : OpStep). all_known t.needs (sources t.inputs)) s steps waits m)
            (Has→contains d (sources s.inputs) read));
      rank = rank;
      acyclic = λ s d m dep.
          elim (low s.id d (Has→contains s.id (ids steps) (Has-ids s steps m)) (
            Has→contains d (deps_of steps s.id)
              (subst (λ ds. Has d ds) (sym (deps_of-Has s steps distinct m)) dep))) [
                | inl known ↦ elim (contains→Has d [] known) [ ]
                | inr below ↦ below
              ];
    }

pub deps_ranked :
    (steps : List OpStep) (g : IsDag steps) (k d : String)
    → contains k (ids steps) ≡ true
    → contains d (deps_of steps k) ≡ true
    → (contains d (ids steps) ≡ true) × (g.rank d < g.rank k)
deps_ranked steps g k d here dep =
    let (s, m, e) = step_of_id k steps (contains→Has k (ids steps) here) in
    let read : Has d (step_deps s) =
      subst (λ ds. Has d ds) (deps_of-Has s steps g.distinct m)
        (subst (λ x. Has d (deps_of steps x)) (sym e) (contains→Has d (deps_of steps k) dep)) in
    (
      Has→contains d (ids steps) (g.closed s d m read),
      subst (λ x. g.rank d < g.rank x) e (g.acyclic s d m read),
    )

IsDag→dag : (steps : List OpStep) → IsDag steps → dag_is_sound steps ≡ true
unfolding dag_is_sound
IsDag→dag steps g =
    let distinct = Distinct→is_distinct (ids steps) g.distinct in
    let needs_known =
      all_of_Has (λ (s : OpStep). all_known (ids steps) s.needs) steps
        (λ s m. all_known_of_Has (ids steps) s.needs (λ d need.
          Has→contains d (ids steps)
            (g.closed s d m (Has-left d s.needs (sources s.inputs) need)))) in
    let reads_known =
      all_of_Has (λ (s : OpStep). all_known (ids steps) (sources s.inputs)) steps
        (λ s m. all_known_of_Has (ids steps) (sources s.inputs) (λ d read.
          Has→contains d (ids steps)
            (g.closed s d m (Has-right d s.needs (sources s.inputs) read)))) in
    let waits =
      all_of_Has (λ (s : OpStep). all_known s.needs (sources s.inputs)) steps
        (λ s m.
          all_known_of_Has s.needs (sources s.inputs)
            (λ d read. Has→contains d s.needs (g.no_race s d m read))) in
    let few = length-ids steps in
    let ends =
      rounds_settle_of_Ranked (deps_of steps) g.rank (length steps) [] (ids steps) (omega arith)
        (λ k d here dep. inr (deps_ranked steps g k d here dep)) in
    rw (distinct, needs_known, reads_known, ends, waits) refl

pub dag_is_sound_iff : (steps : List OpStep) → (dag_is_sound steps ≡ true) ↔ IsDag steps
dag_is_sound_iff steps = (dag→IsDag steps, IsDag→dag steps)
