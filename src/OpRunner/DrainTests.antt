-- ===== src/OpRunner/DrainTests.antt =====
-- How the chain of OpRunner.Tests ends.
use monty_pod.Common.{
  Bool-cases, String, [], all, any_known, contains, contains→Has, eq_iff, erase, false, inl, inr,
  insert, lookup, not, refl, select, str_eq, string_eq, subst, sym, true, true≢false, ◌∙◌, ◌∷◌, ◌≡◌,
}
use monty_pod.OpRunner.Envelope.{deps_of, ids}
use monty_pod.OpRunner.Registry.{err, ok, put_hung}
use monty_pod.OpRunner.Schedule.{
  complete, drop_dependents, drop_each, is_optional, next_back, run_loop, schedule, submit,
}
use monty_pod.OpRunner.Dropping.{Lost, raises, starves}
use monty_pod.OpRunner.Drain.{Terminal, collect, poll, run_steps, sibling_url_readers, wait}
use monty_pod.OpRunner.Terminal.{IsTold, optional_arms_cannot_fail, terminal_names_every_step}
use monty_pod.OpRunner.Tests.{sheet_fails, three_steps, three_steps_sound}

abbrev told : Terminal
told = record { steps = "fetch" ∷ "cut" ∷ []; skipped = "sheet" ∷ [] }

-- The PUT of the fetch is deferred and well.
three_steps_terminal :
    run_steps three_steps sheet_fails (λ n. n) (λ k. true) (λ k. str_eq k "fetch") ≡ ok told
unfolding run_steps run_loop submit complete next_back drop_dependents drop_each is_optional deps_of
    any_known contains select all insert lookup erase poll collect wait schedule sibling_url_readers
three_steps_terminal = refl

-- The same PUT hangs: the chain fails.
hung_put_fails : run_steps three_steps sheet_fails (λ n. n) (λ k. false) (λ k. true) ≡ err put_hung
unfolding run_steps run_loop submit complete next_back drop_dependents drop_each is_optional deps_of
    any_known contains select all insert lookup erase poll collect wait schedule sibling_url_readers
hung_put_fails = refl

terminal_names_every_step_example : IsTold three_steps sheet_fails told "sheet"
unfolding contains
terminal_names_every_step_example =
    terminal_names_every_step three_steps sheet_fails (λ n. n) (λ k. true) (λ k. str_eq k "fetch")
      told three_steps_sound three_steps_terminal "sheet" refl

abbrev Needs : String → String → Type 0
Needs d k = contains d (deps_of three_steps k) ≡ true

Needs-nothing : (d : String) → ¬ Needs d "fetch"
unfolding deps_of contains
Needs-nothing d h = true≢false (sym h)

Needs-fetch : (d : String) → Needs d "cut" → d ≡ "fetch"
unfolding deps_of
Needs-fetch d h = elim (contains→Has d (deps_of three_steps "cut") h) [
  | inl e ↦ e
  | inr (inl e) ↦ e
  | inr (inr none_there) ↦ elim none_there [ ]
]

required_puts :
    (k : String)
    → contains k (ids three_steps) ≡ true
    → is_optional three_steps k ≡ false
    → (true ≡ true) × (not (str_eq k "sheet") ≡ true)
unfolding is_optional
required_puts k listed required = elim (Bool-cases (str_eq k "sheet")) [
  | inr other ↦ (refl, rw other refl)
  | inl sheet ↦ absurd (
      true≢false
        (subst (λ j. is_optional three_steps j ≡ false) ((eq_iff k "sheet").0 sheet) required))
]

Lost-sheet :
    (k : String)
    → Lost three_steps sheet_fails k
    → (str_eq k "fetch" ≡ false) × (str_eq k "cut" ≡ false)
unfolding deps_of contains
Lost-sheet i (raises k bad) = elim (Bool-cases (str_eq k "fetch")) [
  | inl fetch ↦ absurd (cc)
  | inr other ↦ elim (Bool-cases (str_eq k "cut")) [
    | inl cut ↦ absurd (cc)
    | inr third ↦ (other, third)
  ]
]
Lost-sheet i (starves k d dep gone) =
    let (other, _) = Lost-sheet d gone in
    elim (Bool-cases (str_eq k "fetch")) [
      | inl fetch ↦ absurd (Needs-nothing d (subst (Needs d) ((eq_iff k "fetch").0 fetch) dep))
      | inr not_fetch ↦ elim (Bool-cases (str_eq k "cut")) [
        | inr third ↦ (not_fetch, third)
        | inl cut ↦
            let fetch = Needs-fetch d (subst (Needs d) ((eq_iff k "cut").0 cut) dep) in
            absurd (true≢false (sym ((eq_iff d "fetch").1 fetch) ∙ other))
      ]
    ]

keeps_required :
    (k : String)
    → contains k (ids three_steps) ≡ true
    → is_optional three_steps k ≡ false
    → ¬ Lost three_steps sheet_fails k
unfolding is_optional
keeps_required k listed required gone =
    let (a, b) = Lost-sheet k gone in
    elim (contains→Has k (ids three_steps) listed) [
      | inl cut ↦ true≢false (sym ((eq_iff k "cut").1 cut) ∙ b)
      | inr (inl sheet) ↦ true≢false (subst (λ j. is_optional three_steps j ≡ false) sheet required)
      | inr (inr (inl fetch)) ↦ true≢false (sym ((eq_iff k "fetch").1 fetch) ∙ a)
      | inr (inr (inr none_there)) ↦ elim none_there [ ]
    ]

-- The PUTs of the required steps are well, that of the sheet is not.
optional_arms_cannot_fail_example :
    (t : Terminal) × (run_steps three_steps sheet_fails
        (λ n. n)
        (λ k. true)
        (λ k. not (str_eq k "sheet"))
      ≡ ok t)
    × ((k : String)
        → contains k (ids three_steps) ≡ true
        → is_optional three_steps k ≡ false
        → contains k t.steps ≡ true)
optional_arms_cannot_fail_example =
    optional_arms_cannot_fail three_steps sheet_fails (λ n. n) (λ k. true)
      (λ k. not (str_eq k "sheet")) three_steps_sound keeps_required required_puts
