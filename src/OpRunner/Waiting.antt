-- ===== src/OpRunner/Waiting.antt =====
-- What `_PutDrain.wait` names, when it raises nothing, and what the terminal does with those steps.
use Prim.Native.String.{String}
use monty_pod.Common.{
  Bool, Bool-cases, Has, Has-append, List, Option, Option-cases, [], ap, arith, contains, eq_iff,
  eqb, false, inl, inr, is_empty, none, not, refl, select, some, str_eq, string_eq, subst, sym,
  true, true≢false, ◌&&◌, ◌∙◌, ◌∷◌, ◌≡◌, ◌⊎◌,
}
use monty_pod.OpRunner.Registry.{Checked, err, ok, put_failed, put_hung}
use monty_pod.OpRunner.Schedule.{is_optional}
use monty_pod.OpRunner.Drain.{
  Drain, PutEntry, collect, enqueue, enqueued, failing, is_durable, poll, sibling_url_readers, wait,
}
use monty_pod.OpRunner.Envelope.{OpStep, by_id, ids}
use monty_pod.OpRunner.Unput.{Has-of_select, Has-select, nonempty-select, select-empty}

module _ (returned well : String → Bool) where
  failing-ok :
      (k : String) (r : Checked (List String)) (ks : List String)
      → failing k r ≡ ok ks
      → (js : List String) × (r ≡ ok js) × (ks ≡ k ∷ js)
  failing-ok k (ok js) ks h = (js, refl, cc)
  failing-ok k (err f) ks h = absurd (cc)

  Excused : List PutEntry → String → Type 0
  Excused es k =
      (e : PutEntry) × Has e es × (e.step ≡ k) × ((e.optional ≡ true) ⊎ (returned e.step ≡ false))

  Excused-later :
      (e : PutEntry) (es : List PutEntry) (k : String) → Excused es k → Excused (e ∷ es) k
  unfolding Excused
  Excused-later e es k (e', there, same, why) = (e', inr there, same, why)

  Excused-first :
      (e : PutEntry) (es : List PutEntry) (ks : List String) (k : String)
      → failing e.step (collect returned well es) ≡ ok ks
      → contains k ks ≡ true
      → (e.optional ≡ true) ⊎ (returned e.step ≡ false)
      → ((js : List String)
          → collect returned well es ≡ ok js
          → contains k js ≡ true
          → Excused es k)
      → Excused (e ∷ es) k
  unfolding Excused contains
  Excused-first e es ks k h m excused later =
      let (js, got, split) = failing-ok e.step (collect returned well es) ks h in
      let m' : contains k (e.step ∷ js) ≡ true = subst (λ xs. contains k xs ≡ true) split m in
      elim (Bool-cases (eqb e.step k)) [
        | inl same ↦ (e, inl refl, (eq_iff e.step k).0 same, excused)
        | inr other ↦ Excused-later e es k (later js got (ground (arith)))
      ]

  -- What `collect` gives is the id of an entry that is optional, or that has not returned.
  collect-Excused :
      (es : List PutEntry) (ks : List String) (k : String)
      → collect returned well es ≡ ok ks
      → contains k ks ≡ true
      → Excused es k
  unfolding collect contains
  collect-Excused [] ks k h m =
      let none_there : [] ≡ ks = cc in
      absurd (true≢false (sym (subst (λ js. contains k js ≡ true) (sym none_there) m)))
  collect-Excused (e ∷ es) ks k h m = elim (Bool-cases (returned e.step)) [
    | inr out ↦
        Excused-first e es ks k (rw out at h) m (inr out) (λ js g n. collect-Excused es js k g n)
    | inl back ↦ elim (Bool-cases (well e.step)) [
      | inl good ↦ Excused-later e es k (collect-Excused es ks k (rw (back, good) at h) m)
      | inr bad ↦ elim (Bool-cases e.optional) [
        | inl opt ↦
            Excused-first e es ks k (rw (back, bad, opt) at h) m (inl opt)
              (λ js g n. collect-Excused es js k g n)
        | inr required ↦
            let clash : err put_failed ≡ ok ks = rw (back, bad, required) at h in absurd (cc)
      ]
    ]
  ]

  hung_optional :
      (d : Drain) (e : PutEntry)
      → Has e d.entries
      → returned e.step ≡ false
      → is_empty (select (λ (x : PutEntry). not x.optional) (poll returned false d).0) ≡ true
      → e.optional ≡ true
  unfolding poll
  hung_optional d e there out none_hung =
      let pending =
        Has-select
          (λ (x : PutEntry). not (returned x.step) && not (false && contains x.step d.stuck)) e
          d.entries there (ground (arith)) in
      let fine = select-empty (λ (x : PutEntry). not x.optional) e _ none_hung pending in
      ground (arith)

  hung_entry :
      (d : Drain) (e : PutEntry)
      → Has e (poll returned false d).0
      → Has e d.entries × (returned e.step ≡ false)
  unfolding poll
  hung_entry d e m =
      let (there, out) =
        Has-of_select
          (λ (x : PutEntry). not (returned x.step) && not (false && contains x.step d.stuck)) e
          d.entries m in
      (there, ground (arith))

  -- Where every required PUT returns and is well, `wait` raises nothing.
  collect-ok :
      (es : List PutEntry)
      → ((e : PutEntry)
          → Has e es
          → e.optional ≡ false
          → (returned e.step ≡ true) × (well e.step ≡ true))
      → (ks : List String) × (collect returned well es ≡ ok ks)
  unfolding collect
  collect-ok [] h = ([], refl)
  collect-ok (e ∷ es) h =
      let (ks, got) = collect-ok es (λ x m. h x (inr m)) in
      elim (Bool-cases (returned e.step)) [
        | inr out ↦ rw (out, got) (e.step ∷ ks, refl)
        | inl back ↦ elim (Bool-cases (well e.step)) [
          | inl good ↦ rw (back, good) (ks, got)
          | inr bad ↦ elim (Bool-cases e.optional) [
            | inl opt ↦ rw (back, bad, opt, got) (e.step ∷ ks, refl)
            | inr required ↦ let (_, good) = h e (inl refl) required in absurd (ground (arith))
          ]
        ]
      ]

  pub wait-ok :
      (d : Drain)
      → ((e : PutEntry)
          → Has e d.entries
          → e.optional ≡ false
          → (returned e.step ≡ true) × (well e.step ≡ true))
      → (ks : List String) × (wait returned well d ≡ ok ks)
  unfolding wait
  wait-ok d h =
      elim (Bool-cases
        (is_empty (select (λ (e : PutEntry). not e.optional) (poll returned false d).0))) [
          | inl none_hung ↦ let (ks, got) = collect-ok d.entries h in (ks, rw (none_hung, wait) got)
          | inr some_hung ↦
              let (e, there, required) =
                nonempty-select (λ (x : PutEntry). not x.optional) (poll returned false d).0
                  some_hung in
              let (entry, out) = hung_entry d e there in
              let (back, _) = h e entry (ground (arith)) in absurd (ground (arith))
        ]

  pub wait-named :
      (d : Drain) (ks : List String) (k : String)
      → wait returned well d ≡ ok ks
      → contains k ks ≡ true
      → (e : PutEntry) × Has e d.entries × (e.step ≡ k) × (e.optional ≡ true)
  unfolding wait poll Excused
  wait-named d ks k h m =
      elim (Bool-cases
        (is_empty (select (λ (e : PutEntry). not e.optional) (poll returned false d).0))) [
          | inr some_hung ↦
              let clash : err put_hung ≡ ok ks = rw (some_hung, wait) at h in absurd (cc)
          | inl none_hung ↦
              let (e, there, same, why) =
                collect-Excused d.entries ks k (rw (none_hung, wait) at h) m in
              elim why [
                | inl opt ↦ (e, there, same, opt)
                | inr out ↦ (e, there, same, hung_optional d e there out none_hung)
              ]
        ]

entry_optional :
    (steps : List OpStep) (k : String) (s : OpStep) (e : PutEntry)
    → by_id k steps ≡ some s
    → e ≡ record { step = k; optional = s.optional }
    → e.optional ≡ is_optional steps e.step
unfolding is_optional
entry_optional steps k s e here same =
    ap (λ (x : PutEntry). x.optional) same
    ∙ sym (
        ap (λ (x : PutEntry). is_optional steps x.step) same
        ∙ ap (λ (o : Option OpStep). elim o [ none ↦ false | some t ↦ t.optional ]) here)

by_id-listed :
    (steps : List OpStep) (k : String) (s : OpStep)
    → by_id k steps ≡ some s
    → contains k (ids steps) ≡ true
unfolding by_id contains
by_id-listed [] k s h = absurd (cc)
by_id-listed (t ∷ steps) k s h = elim (Bool-cases (str_eq t.id k)) [
  | inl same ↦ rw same refl
  | inr other ↦ let ih = by_id-listed steps k s (rw other at h) in rw (other, ih) refl
]

pub enqueued-entry :
    (steps : List OpStep) (ks : List String) (d : Drain) (e : PutEntry)
    → Has e (enqueued steps ks d).entries
    → Has e d.entries
      ⊎ ((e.optional ≡ is_optional steps e.step) × (contains e.step (ids steps) ≡ true))
unfolding enqueued enqueue
enqueued-entry steps [] d e m = inl m
enqueued-entry steps (k ∷ ks) d e m = elim (Option-cases (by_id k steps)) [
  | inl gone ↦ enqueued-entry steps ks d e (rw (gone, enqueued) at m)
  | inr (s, here) ↦
      elim (Bool-cases (is_durable s && not (contains k (sibling_url_readers steps)))) [
        | inr at_once ↦ enqueued-entry steps ks d e (rw (here, at_once, enqueued) at m)
        | inl later ↦
            elim (enqueued-entry steps ks (enqueue (record { step = k; optional = s.optional }) d) e
              (rw (here, later, enqueued) at m)) [
                | inr right ↦ inr right
                | inl put ↦ elim (Has-append e d.entries _ put) [
                  | inl old ↦ inl old
                  | inr (inl same) ↦ inr (
                    entry_optional steps k s e here same,
                    ap (λ (x : PutEntry). contains x.step (ids steps)) same
                        ∙ by_id-listed steps k s here,
                  )
                  | inr (inr none_there) ↦ elim none_there [ ]
                ]
              ]
      ]
]
