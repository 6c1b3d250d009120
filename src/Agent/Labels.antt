-- ===== src/Agent/Labels.antt =====
-- The labels that are pending in a coordinator.
use monty_pod.Common.{
  Bool-cases, Has, Has-append, Has-left, Has-map, Has-right, List, String, [], ap, inl, inr,
  is_empty, map, map-Has, refl, subst, sym, text_leb, true, true≢false, ℕ, ◌↔◌, ◌∷◌, ◌≡◌, ◌⊎◌,
}
use monty_pod.Agent.Coordinator.{
  Coordinator, Pool, entries_of, futures_of, heavy_pool, in_flight, insert_label, ops_pool,
  pending_futures, rank_pool, sorted_labels,
}

Has-insert_label :
    (x a : String) (labels : List String) → Has x (insert_label a labels) ↔ ((x ≡ a) ⊎ Has x labels)
unfolding insert_label
Has-insert_label x a [] = (λ h. h, λ h. h)
Has-insert_label x a (b ∷ labels) = elim (Bool-cases (text_leb a b)) [
  | inl le ↦ rw le (λ h. h, λ h. h)
  | inr gt ↦
      let (there, back) = Has-insert_label x a labels in
      rw gt (
        λ h. elim h [
          | inl e ↦ inr (inl e)
          | inr m ↦ elim (there m) [ inl e ↦ inl e | inr m' ↦ inr (inr m') ]
        ],
        λ h. elim h [
          | inl e ↦ inr (back (inl e))
          | inr (inl e) ↦ inl e
          | inr (inr m) ↦ inr (back (inr m))
        ],
      )
]

abbrev pub labels_of : List (ℕ × String) → List String
labels_of fs = map (λ (x : ℕ × String). x.1) fs

Has-sorted_labels :
    (x : String) (fs : List (ℕ × String)) → Has x (sorted_labels fs) ↔ Has x (labels_of fs)
unfolding sorted_labels
Has-sorted_labels x [] = (λ h. h, λ h. h)
Has-sorted_labels x ((future, label) ∷ fs) =
    let (a, b) = Has-insert_label x label (sorted_labels fs) in
    let (c, d) = Has-sorted_labels x fs in
    (
      λ h. elim (a h) [ inl e ↦ inl e | inr m ↦ inr (c m) ],
      λ h. elim h [ inl e ↦ b (inl e) | inr m ↦ b (inr (d m)) ],
    )

Has-in_flight :
    (p : Pool) (x : String) (rows : List (Pool × List String))
    → Has (p, x) (in_flight rows) ↔ ((labels : List String) × Has (p, labels) rows × Has x labels)
unfolding in_flight
Has-in_flight p x [] = (λ h. elim h [ ], λ (labels, h, m). elim h [ ])
Has-in_flight p x ((q, labels) ∷ rows) =
    let (there, back) = Has-in_flight p x rows in
    (
      λ h. elim (Has-append (p, x) (map (λ label. (q, label)) labels) (in_flight rows) h) [
        | inl here ↦
            let (y, m, e) = Has-map (λ label. (q, label)) (p, x) labels here in
            (
              labels,
              inl (ap (λ (z : Pool × String). (z.0, labels)) e),
              subst (λ z. Has z labels) (ap (λ (z : Pool × String). z.1) (sym e)) m,
            )
        | inr later ↦ let (found, h', m) = there later in (found, inr h', m)
      ],
      λ (found, h, m). elim h [
        | inl e ↦
            Has-left (p, x) _ (in_flight rows)
              (subst
                (λ (z : Pool × List String).
                  Has {A = Pool × String} (p, x) (map (λ label. (z.0, label)) z.1))
                e (map-Has (λ label. (p, label)) x found m))
        | inr later ↦ Has-right (p, x) _ (in_flight rows) (back (found, later, m))
      ],
    )

Has-entries_of :
    (p q : Pool) (labels : List String) (c : Coordinator)
    → Has (p, labels) (entries_of q c)
    → (p ≡ q) × (labels ≡ sorted_labels (futures_of q c))
Has-entries_of p q labels c h = elim (Bool-cases (is_empty (futures_of q c))) [
  | inl idle ↦ elim (rw idle at h) [ ]
  | inr busy ↦
      let m : Has (p, labels) ((q, sorted_labels (futures_of q c)) ∷ []) = rw busy at h in
      elim m [
        | inl e ↦ (ap (λ (z : Pool × List String). z.0) e, ap (λ (z : Pool × List String). z.1) e)
        | inr none_there ↦ elim none_there [ ]
      ]
]

entry_labels :
    (p q : Pool) (x : String) (labels : List String) (c : Coordinator)
    → Has (p, labels) (entries_of q c)
    → Has x labels
    → Has x (labels_of (futures_of p c))
entry_labels p q x labels c h m =
    let (same, e) = Has-entries_of p q labels c h in
    subst (λ r. Has x (labels_of (futures_of r c))) (sym same)
      ((Has-sorted_labels x (futures_of q c)).0 (subst (Has x) e m))

nothing_sorted :
    (x : String) (fs : List (ℕ × String)) → is_empty fs ≡ true → ¬ Has x (sorted_labels fs)
unfolding sorted_labels
nothing_sorted x [] h m = elim m [ ]
nothing_sorted x (f ∷ fs) h m = true≢false (sym h)

entries_of-Has :
    (p : Pool) (x : String) (c : Coordinator)
    → Has x (sorted_labels (futures_of p c))
    → Has (p, sorted_labels (futures_of p c)) (entries_of p c)
entries_of-Has p x c h = elim (Bool-cases (is_empty (futures_of p c))) [
  | inr busy ↦ rw busy (inl refl)
  | inl idle ↦ absurd (nothing_sorted x (futures_of p c) idle h)
]

pending-entries :
    (p : Pool) (labels : List String) (c : Coordinator)
    → Has (p, labels) (entries_of p c)
    → Has (p, labels) (pending_futures c)
unfolding pending_futures
pending-entries ops_pool labels c h = Has-left _ (entries_of ops_pool c) _ h
pending-entries heavy_pool labels c h =
    Has-right _ (entries_of ops_pool c) _ (Has-left _ (entries_of heavy_pool c) _ h)
pending-entries rank_pool labels c h =
    Has-right _ (entries_of ops_pool c) _ (Has-right _ (entries_of heavy_pool c) _ h)

pending-Has :
    (p : Pool) (x : String) (labels : List String) (c : Coordinator)
    → Has (p, labels) (pending_futures c)
    → Has x labels
    → Has x (labels_of (futures_of p c))
unfolding pending_futures
pending-Has p x labels c h m = elim (Has-append (p, labels) (entries_of ops_pool c) _ h) [
  | inl first ↦ entry_labels p ops_pool x labels c first m
  | inr others ↦ elim (Has-append (p, labels) (entries_of heavy_pool c) _ others) [
    | inl heavy ↦ entry_labels p heavy_pool x labels c heavy m
    | inr rank ↦ entry_labels p rank_pool x labels c rank m
  ]
]

-- The labels in flight are those of the tracked futures.
pub Has-in_flight_pending :
    (p : Pool) (x : String) (c : Coordinator)
    → Has (p, x) (in_flight (pending_futures c)) ↔ Has x (labels_of (futures_of p c))
Has-in_flight_pending p x c =
    let (there, back) = Has-in_flight p x (pending_futures c) in
    (
      λ h. let (labels, m, m') = there h in pending-Has p x labels c m m',
      λ h.
          let h' = (Has-sorted_labels x (futures_of p c)).1 h in
          back (_, pending-entries p _ c (entries_of-Has p x c h'), h'),
    )
