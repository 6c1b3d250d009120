-- ===== src/InferLanes/Tests.antt =====
-- Concrete cards: a pod that serves two kinds.
use monty_pod.Common.{[], arith, if◌then◌else◌, refl, some, true, ◌*◌, ◌+◌, ◌∷◌, ◌≤◌}
use monty_pod.InferLanes.{
  Caches, align, clip_rank, face_probe, heaviest, kind_eq, kind_vram_mib, refuse_unserved,
  render_headroom_mib, reserve_mib, serves, vram_floor_mib, vram_per_lane_mb, vram_weights_mb,
  width_from,
}
use monty_pod.InferLanes.Residency.{floor_holds_served_kinds, lanes_fit}

abbrev loaded : Caches
loaded = (align, "wav2vec2" ∷ []) ∷ (clip_rank, "siglip" ∷ []) ∷ (face_probe, []) ∷ []

floor_holds_served_kinds_example :
    kind_vram_mib align + (if true then render_headroom_mib else 0) + reserve_mib ≤ 5000
unfolding kind_vram_mib refuse_unserved serves kind_eq vram_floor_mib heaviest
floor_holds_served_kinds_example =
    floor_holds_served_kinds align (align ∷ clip_rank ∷ []) true 4208 5000 refl refl (omega arith)

lanes_fit_example :
    (reserve_mib + vram_weights_mb + width_from (some 6000) 8 * vram_per_lane_mb ≤ 6000)
    × (width_from (some 6000) 8 ≤ 8)
unfolding width_from
lanes_fit_example = lanes_fit 6000 8 (omega arith)
