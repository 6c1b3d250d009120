-- ===== src/InferLanes/Residency.antt =====
-- What the card holds once the lanes have decided.
use Prim.Native.String.{String}
use monty_pod.Common.{
  All, Bool, Bool-cases, List, [], ap, arith, false, if◌then◌else◌, inl, inr, is_empty, not, refl,
  some, sym, true, true≢false, ℕ, ◌&&◌, ◌*◌, ◌+◌, ◌||◌, ◌∷◌, ◌≡◌, ◌≤◌,
}
use monty_pod.InferLanes.{
  Caches, Kind, align, clip_rank, coresident_mib, face_probe, heaviest, kind_eq, kind_vram_mib,
  kinds_fit_together, refuse_unserved, release_other_kinds, render_headroom_mib, reserve_mib,
  resident_mib, serves, vram_floor_mib, vram_per_lane_mb, vram_weights_mb, width_from,
}

kind_eq_iff : (a b : Kind) → kind_eq a b ≡ true → a ≡ b
unfolding kind_eq
kind_eq_iff align align h = refl
kind_eq_iff align clip_rank h = absurd (true≢false (sym h))
kind_eq_iff align face_probe h = absurd (true≢false (sym h))
kind_eq_iff clip_rank align h = absurd (true≢false (sym h))
kind_eq_iff clip_rank clip_rank h = refl
kind_eq_iff clip_rank face_probe h = absurd (true≢false (sym h))
kind_eq_iff face_probe align h = absurd (true≢false (sym h))
kind_eq_iff face_probe clip_rank h = absurd (true≢false (sym h))
kind_eq_iff face_probe face_probe h = refl

serves-heaviest :
    (kind : Kind) (kinds : List Kind)
    → serves kind kinds ≡ true
    → kind_vram_mib kind ≤ heaviest kinds
unfolding serves heaviest
serves-heaviest kind [] h = absurd (true≢false (sym h))
serves-heaviest kind (k ∷ kinds) h = elim (Bool-cases (kind_eq k kind)) [
  | inl same ↦
      let e : kind_vram_mib k ≡ kind_vram_mib kind = ap kind_vram_mib (kind_eq_iff k kind same) in
      omega arith
  | inr other ↦ let rest = serves-heaviest kind kinds (rw other at h) in omega arith
]

-- The card reports at least the boot floor, and the request is of a kind that the pod serves: the
-- kind fits beside the reserve, and beside one encode session where the pod renders.
pub floor_holds_served_kinds :
    (kind : Kind) (kinds : List Kind) (render : Bool) (floor free : ℕ)
    → refuse_unserved kind kinds ≡ false
    → vram_floor_mib kinds render ≡ some floor
    → floor ≤ free
    → kind_vram_mib kind + (if render then render_headroom_mib else 0) + reserve_mib ≤ free
unfolding refuse_unserved vram_floor_mib
floor_holds_served_kinds kind kinds render floor free served e fits =
    let heavy = serves-heaviest kind kinds (ground arith) in ground (arith, heavy)

-- The card holds both kinds by `kinds_fit_together`: whatever services the kinds of the pod have
-- loaded, they fit beside the reserve and one encode session.
fitting_kinds_fit :
    (free : ℕ) (aligns ranks probes : List String)
    → kinds_fit_together (some free) ≡ true
    → resident_mib ((align, aligns) ∷ (clip_rank, ranks) ∷ (face_probe, probes) ∷ [])
        + reserve_mib
        + render_headroom_mib
      ≤ free
unfolding kinds_fit_together coresident_mib kind_vram_mib resident_mib
fitting_kinds_fit free aligns ranks probes h = ground arith

-- No cache but that of `kind` holds a service.
abbrev pub is_alone : Kind → Kind × List String → Bool
is_alone kind (k, cache) = kind_eq k kind || is_empty cache

abbrev pub total_mib : List Kind → ℕ
total_mib [] = 0
total_mib (k ∷ kinds) = kind_vram_mib k + total_mib kinds

-- `release_other_kinds`: afterwards no other kind holds a service, what the freed kinds had on the
-- card and what is left add up to what was there, and only other kinds are freed.
release_leaves_one_kind :
    (kind : Kind) (caches : Caches)
    → let (kept, freed) = release_other_kinds kind caches in
      All (λ (c : Kind × List String). is_alone kind c ≡ true) kept
      × (resident_mib kept + total_mib freed ≡ resident_mib caches)
      × All (λ (k : Kind). kind_eq k kind ≡ false) freed
unfolding release_other_kinds resident_mib
release_leaves_one_kind kind [] = (tt, refl, tt)
release_leaves_one_kind kind ((other, cache) ∷ caches) =
    let (alone, sum, others) = release_leaves_one_kind kind caches in
    elim (Bool-cases (not (kind_eq other kind) && not (is_empty cache))) [
      | inl goes ↦
          rw (goes, release_other_kinds)
            ((ground arith, alone), ground (arith, sum), (ground arith, others))
      | inr stays ↦
          rw (stays, release_other_kinds) ((ground arith, alone), ground (arith, sum), others)
    ]

-- More than one clip_rank lane: the weights, every lane and the reserve fit in what the card has
-- free, and there are no more lanes than threads.
pub lanes_fit :
    (free threads : ℕ)
    → 2 ≤ width_from (some free) threads
    → (reserve_mib + vram_weights_mb + width_from (some free) threads * vram_per_lane_mb ≤ free)
      × (width_from (some free) threads ≤ threads)
unfolding width_from
lanes_fit free threads h = (omega arith, omega arith)
