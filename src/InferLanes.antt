-- ===== src/InferLanes.antt =====
-- podagent/infer_lanes.py and `_width_from` of podagent/infer_cliprank.py: which kinds of inference
-- may hold the card together. MiB are whole numbers, as every constant is; the readings of the card
-- are arguments.
use Prim.Native.String.{String}
pub mod Residency
mod Tests
use monty_pod.Common.{
  Bool, List, Option, [], false, if◌then◌else◌, is_empty, leb, ltb, max, min, none, not, some, true,
  ℕ, ◌&&◌, ◌+◌, ◌-◌, ◌/◌, ◌||◌, ◌∷◌,
}
use monty_pod.GpuAdmission.{nvenc_session_mib, vram_reserve_mb}

pub data Kind : Type 0 where
  align clip_rank face_probe : Kind

abbrev pub vram_per_lane_mb : ℕ
vram_per_lane_mb = 414

abbrev pub vram_weights_mb : ℕ
vram_weights_mb = 2322

-- `KIND_VRAM_MIB`
unfoldable pub kind_vram_mib : Kind → ℕ
kind_vram_mib align = 1500
kind_vram_mib clip_rank = vram_weights_mb + vram_per_lane_mb
kind_vram_mib face_probe = 0

abbrev pub reserve_mib : ℕ
reserve_mib = vram_reserve_mb

abbrev pub render_headroom_mib : ℕ
render_headroom_mib = nvenc_session_mib

unfoldable pub coresident_mib : ℕ
unfolding kind_vram_mib
coresident_mib = kind_vram_mib align + kind_vram_mib clip_rank + reserve_mib + render_headroom_mib

unfoldable pub kinds_fit_together : Option ℕ → Bool
unfolding coresident_mib
kinds_fit_together none = false
kinds_fit_together (some free) = leb coresident_mib free

-- The caches by kind, each with its services.
abbrev pub Caches : Type 0
Caches = List (Kind × List String)

unfoldable pub kind_eq : Kind → Kind → Bool
kind_eq align align = true
kind_eq align clip_rank = false
kind_eq align face_probe = false
kind_eq clip_rank align = false
kind_eq clip_rank clip_rank = true
kind_eq clip_rank face_probe = false
kind_eq face_probe align = false
kind_eq face_probe clip_rank = false
kind_eq face_probe face_probe = true

-- `release_other_kinds`: the caches afterwards, and the kinds that were freed.
unfoldable pub release_other_kinds : Kind → Caches → Caches × List Kind
unfolding kind_eq
release_other_kinds kind [] = ([], [])
release_other_kinds kind ((other, cache) ∷ caches) =
    let (kept, freed) = release_other_kinds kind caches in
    if not (kind_eq other kind) && not (is_empty cache)
    then ((other, []) ∷ kept, other ∷ freed)
    else ((other, cache) ∷ kept, freed)

-- The VRAM of the kinds that hold a service.
unfoldable pub resident_mib : Caches → ℕ
resident_mib [] = 0
resident_mib ((kind, cache) ∷ caches) =
    (if is_empty cache then 0 else kind_vram_mib kind) + resident_mib caches

unfoldable pub heaviest : List Kind → ℕ
heaviest [] = 0
heaviest (k ∷ kinds) = max (kind_vram_mib k) (heaviest kinds)

-- `vram_floor_mib`
unfoldable pub vram_floor_mib : List Kind → Bool → Option ℕ
unfolding heaviest
vram_floor_mib kinds render =
    let need = heaviest kinds + (if render then render_headroom_mib else 0) in
    if ltb 0 need then some (need + reserve_mib) else none

unfoldable pub serves : Kind → List Kind → Bool
serves kind [] = false
serves kind (k ∷ kinds) = kind_eq k kind || serves kind kinds

-- `refuse_unserved`: `true` is the refusal.
unfoldable pub refuse_unserved : Kind → List Kind → Bool
unfolding serves
refuse_unserved kind kinds = not (serves kind kinds)

-- `_width_from` of podagent/infer_cliprank.py; the difference is negative where the card is small,
-- which the `max` turns into one lane.
unfoldable pub width_from : Option ℕ → ℕ → ℕ
width_from none threads = 1
width_from (some free) threads =
    min (max 1 ((free - reserve_mib - vram_weights_mb) / vram_per_lane_mb)) (max 1 threads)
