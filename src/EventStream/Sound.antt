-- ===== src/EventStream/Sound.antt =====
-- The changes of the durable state, each of which leaves it loadable.
use Prim.Native.String.{String}
use monty_pod.Common.{
  All, All-absent, All-append, All-erase, All-insert, All-lookup, All-map, All-map₂, Bool-cases,
  List, Option, Option-cases, [], arith, contains, eq_iff, eqb, eqb_refl, erase, false, inl, inr,
  insert, lookup, lookup-erase, lookup-insert, none, pair_beq, refl, some, string_eq, subst, sym,
  true, ℕ, ◌++◌, ◌∷◌, ◌≡◌,
}
use monty_pod.StreamModels.{Job, StreamJob, is_valid_stream_job}
use monty_pod.EventStream.Frame.{Frame, frame_key}
use monty_pod.EventStream.State.{Delivery, Durable, corrs_of, result_corrs}
use monty_pod.EventStream.Restart.{entry_ok}
use monty_pod.EventStream.Invariant.{Distinct, EntryOk, Known, NotIn, Sound}
use monty_pod.EventStream.Intake.{delivery_of}
use monty_pod.EventStream.Append.{put_back}

pub corrs_of-append : (fs gs : List Frame) → corrs_of (fs ++ gs) ≡ corrs_of fs ++ corrs_of gs
corrs_of-append [] gs = refl
corrs_of-append (f ∷ fs) gs = ground (arith, corrs_of-append fs gs)

pub Distinct-append :
    (fs : List Frame) (f : Frame)
    → Distinct fs
    → All (λ (g : Frame). pair_beq (frame_key g) (frame_key f) ≡ false) fs
    → Distinct (fs ++ f ∷ [])
Distinct-append [] f d h = (tt, tt)
Distinct-append (g ∷ fs) f d h = (
  All-append (λ k. pair_beq (frame_key g) (frame_key k) ≡ false) fs (f ∷ []) d.0 (h.0, tt),
  Distinct-append fs f d.1 h.1,
)

Known-insert :
    (id : String) (j : Job) (inbox : List (String × Job)) (x : String × Delivery)
    → Known inbox x
    → Known (insert id j inbox) x
Known-insert id j inbox x h = rw lookup-insert (ground arith)

module _ (id : String) (d : Durable) where
  -- Both dicts lose the entry of `id`.
  unfoldable pub erased : Durable
  erased = record d { inbox = erase id d.inbox; deliveries = erase id d.deliveries }

  pub erased-Sound : Sound d → Sound erased
  unfolding erased
  erased-Sound s = record {
    clean = s.clean;
    buried_clean = s.buried_clean;
    distinct_keys = s.distinct_keys;
    entries =
        All-map (λ x. EntryOk d.deliveries x × (eqb id x.0 ≡ false))
          (EntryOk (erase id d.deliveries)) (λ x h. rw (lookup-erase, h.1) h.0) (erase id d.inbox)
          (All-erase (EntryOk d.deliveries) id d.inbox s.entries);
    known =
        All-map (λ x. Known d.inbox x × (eqb id x.0 ≡ false)) (Known (erase id d.inbox))
          (λ x h. rw (lookup-erase, h.1) h.0) (erase id d.deliveries)
          (All-erase (Known d.inbox) id d.deliveries s.known);
    open_jobs =
        All-map (λ x. NotIn (result_corrs d) x × (eqb id x.0 ≡ false)) (NotIn (result_corrs d))
          (λ x h. h.0) (erase id d.inbox)
          (All-erase (NotIn (result_corrs d)) id d.inbox s.open_jobs);
  }

  module _ (j : Job) (dl : Delivery) where
    -- Both dicts take an entry under `id`.
    unfoldable pub entered : Durable
    entered = record d { inbox = insert id j d.inbox; deliveries = insert id dl d.deliveries }

    pub entered-Sound :
        entry_ok (some dl) id j ≡ true
        → contains id (result_corrs d) ≡ false
        → lookup id d.inbox ≡ none
        → Sound d
        → Sound entered
    unfolding entered
    entered-Sound valid fresh absent s = record {
      clean = s.clean;
      buried_clean = s.buried_clean;
      distinct_keys = s.distinct_keys;
      entries =
          All-insert (EntryOk (insert id dl d.deliveries)) id j d.inbox
            (rw (lookup-insert, eqb_refl id) valid)
            (All-map₂ (EntryOk d.deliveries) (λ x. eqb id x.0 ≡ false)
              (EntryOk (insert id dl d.deliveries)) (λ x h k. rw (lookup-insert, k) h) d.inbox
              s.entries (All-absent id d.inbox absent));
      known =
          All-insert (Known (insert id j d.inbox)) id dl d.deliveries
            (rw (lookup-insert, eqb_refl id) refl)
            (All-map (Known d.inbox) (Known (insert id j d.inbox))
              (λ x h. Known-insert id j d.inbox x h) d.deliveries s.known);
      open_jobs = All-insert (NotIn (result_corrs d)) id j d.inbox fresh s.open_jobs;
    }

-- The delivery of a job that is held is replaced by that of a valid frame.
swap_delivery :
    (f : StreamJob) (now : ℕ) (old : Option Delivery) (j : Job)
    → is_valid_stream_job f ≡ true
    → entry_ok old f.delivery_id j ≡ true
    → entry_ok (some (delivery_of f now)) f.delivery_id j ≡ true
unfolding is_valid_stream_job
swap_delivery f now none j v h = cc
swap_delivery f now (some old) j v h = ground arith

replace_delivery :
    (f : StreamJob) (now : ℕ) (deliveries : List (String × Delivery)) (x : String × Job)
    → is_valid_stream_job f ≡ true
    → EntryOk deliveries x
    → EntryOk (insert f.delivery_id (delivery_of f now) deliveries) x
replace_delivery f now deliveries (id, j) v h = elim (Bool-cases (eqb f.delivery_id id)) [
  | inl same ↦
      let key : f.delivery_id ≡ id = (eq_iff f.delivery_id id).0 same in
      rw (lookup-insert, same)
        (subst (λ i. entry_ok (some (delivery_of f now)) i j ≡ true) key
          (swap_delivery f now (lookup id deliveries) j v
            (subst (λ i. entry_ok (lookup id deliveries) i j ≡ true) (sym key) h)))
  | inr other ↦ rw (lookup-insert, other) h
]

pub replayed-Sound :
    (f : StreamJob) (now : ℕ) (d : Durable) {held : Job}
    → is_valid_stream_job f ≡ true
    → lookup f.delivery_id d.inbox ≡ some held
    → Sound d
    → Sound (record d { deliveries = insert f.delivery_id (delivery_of f now) d.deliveries })
replayed-Sound f now d v h s = record {
  clean = s.clean;
  buried_clean = s.buried_clean;
  distinct_keys = s.distinct_keys;
  entries =
      All-map (EntryOk d.deliveries)
        (EntryOk (insert f.delivery_id (delivery_of f now) d.deliveries))
        (λ x k. replace_delivery f now d.deliveries x v k) d.inbox s.entries;
  known =
      All-insert (Known d.inbox) f.delivery_id (delivery_of f now) d.deliveries (rw h refl) s.known;
  open_jobs = s.open_jobs;
}

-- An entry that was popped and comes back at the end.
pub put_back-Sound :
    (id : String) (d : Durable)
    → Sound d
    → Sound (record d {
      inbox = put_back id (lookup id d.inbox) (erase id d.inbox);
      deliveries = put_back id (lookup id d.deliveries) (erase id d.deliveries);
    })
unfolding erased entered
put_back-Sound id d s = elim (Option-cases (lookup id d.inbox)) [
  | inl absent ↦ elim (Option-cases (lookup id d.deliveries)) [
    | inl no_delivery ↦ rw (absent, no_delivery) (erased-Sound id d s)
    | inr (dl, held) ↦
        let k = All-lookup (Known d.inbox) id d.deliveries s.known held in
        let clash : false ≡ true = rw absent at k in absurd (cc)
  ]
  | inr (j, held) ↦
      let valid = All-lookup (EntryOk d.deliveries) id d.inbox s.entries held in
      let fresh = All-lookup (NotIn (result_corrs d)) id d.inbox s.open_jobs held in
      elim (Option-cases (lookup id d.deliveries)) [
        | inl no_delivery ↦ let clash : false ≡ true = rw no_delivery at valid in absurd (cc)
        | inr (dl, found) ↦
            rw (held, found)
              (entered-Sound id (erased id d) j dl (rw found at valid) fresh
                (rw (lookup-erase, eqb_refl id)) (erased-Sound id d s))
      ]
]

-- A replaced delivery that comes back under its key.
pub restored_delivery-Sound :
    (id : String) (new old : Delivery) (d : Durable) {held : Job}
    → lookup id d.deliveries ≡ some old
    → lookup id d.inbox ≡ some held
    → Sound d
    → Sound (record d { deliveries = insert id old (insert id new d.deliveries) })
restored_delivery-Sound id new old d e h s = record {
  clean = s.clean;
  buried_clean = s.buried_clean;
  distinct_keys = s.distinct_keys;
  entries =
      All-map (EntryOk d.deliveries) (EntryOk (insert id old (insert id new d.deliveries)))
        (λ x k. subst (λ o. entry_ok o x.0 x.1 ≡ true) (sym (looked x.0)) k) d.inbox s.entries;
  known =
      All-insert (Known d.inbox) id old (insert id new d.deliveries) (rw h refl)
        (All-insert (Known d.inbox) id new d.deliveries (rw h refl) s.known);
  open_jobs = s.open_jobs;
}
  where
    looked :
        (k : String) → lookup k (insert id old (insert id new d.deliveries)) ≡ lookup k d.deliveries
    looked k = elim (Bool-cases (eqb id k)) [
      | inl same ↦
          let key : id ≡ k = (eq_iff id k).0 same in
          rw (lookup-insert, same) (sym (subst (λ i. lookup i d.deliveries ≡ some old) key e))
      | inr other ↦ rw (lookup-insert, other, lookup-insert, other)
    ]
