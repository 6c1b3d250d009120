-- ===== src/Transfer/Ranges.antt =====
-- The parts of a parallel download: `_range_bounds`, the width and the deadline of
-- `_download_ranged`.
use native.Mathlib.Nat.{div-add-mod', mod-lt}
use monty_pod.Common.{
  Bool-cases, List, [], arith, if◌then◌else◌, inl, inr, length, ltb, ltb→lt, max, min, subst, suc,
  sym, zero, ℕ, ◌*◌, ◌+◌, ◌-◌, ◌/◌, ◌<◌, ◌==◌, ◌∷◌, ◌≡◌, ◌≤◌,
}

abbrev pub range_min_part_bytes : ℕ
range_min_part_bytes = 33554432

abbrev pub range_workers_pool_cap : ℕ
range_workers_pool_cap = 4

abbrev pub xfer_deadline_s : ℕ
xfer_deadline_s = 300

abbrev pub range_deadline_floor_s : ℕ
range_deadline_floor_s = 120

abbrev pub range_deadline_bytes_per_s : ℕ
range_deadline_bytes_per_s = 1048576

-- `-(-total // width)`: the quotient, rounded up.
unfoldable pub part_size : ℕ → ℕ → ℕ
part_size total width = (total + (width - 1)) / width

-- The parts from number `i` on, of which `n` may be left.
unfoldable pub parts : ℕ → ℕ → ℕ → ℕ → List (ℕ × ℕ)
parts part total i zero = []
parts part total i (suc n) =
    let rest = parts part total (i + 1) n in
    if ltb (i * part) total then (i * part, min ((i + 1) * part) total - 1) ∷ rest else rest

-- `_range_bounds`
unfoldable pub range_bounds : ℕ → ℕ → List (ℕ × ℕ)
range_bounds total width = parts (part_size total width) total 0 width

-- The width of `_download_ranged`, for `_range_workers()` workers.
unfoldable pub ranged_width : ℕ → ℕ → ℕ
ranged_width workers total =
    min (min workers range_workers_pool_cap) (max 1 (total / range_min_part_bytes))

-- `_ranged_deadline`
unfoldable pub ranged_deadline : ℕ → ℕ
ranged_deadline total =
    min xfer_deadline_s (max range_deadline_floor_s (total / range_deadline_bytes_per_s))

-- The parts follow each other from byte `from` to the last byte before `total`, and none is empty.
abbrev pub Tiles : ℕ → ℕ → List (ℕ × ℕ) → Type 0
Tiles from total [] = from ≡ total
Tiles from total ((a, b) ∷ rest) = (a ≡ from) × (a ≤ b) × (b < total) × Tiles (b + 1) total rest

parts-Tiles :
    (part total i n : ℕ)
    → 1 ≤ part
    → total ≤ (i + n) * part
    → Tiles (min (i * part) total) total (parts part total i n)
unfolding parts
parts-Tiles part total i zero h enough = ground arith
parts-Tiles part total i (suc n) h enough =
    let rest = parts-Tiles part total (i + 1) n h (omega arith) in
    elim (Bool-cases (ltb (i * part) total)) [
      | inl inside ↦
          let lo : i * part < total = ltb→lt (i * part) total inside in
          let next_from : min ((i + 1) * part) total - 1 + 1 ≡ min ((i + 1) * part) total =
            omega arith in
          rw (inside, parts)
            (
              omega arith,
              omega arith,
              omega arith,
              subst (λ from. Tiles from total (parts part total (i + 1) n)) (sym next_from) rest,
            )
      | inr past ↦
          let hi : total ≤ i * part = ground (arith) in
          let same_from : min ((i + 1) * part) total ≡ min (i * part) total = omega arith in
          rw (past, parts)
            (subst (λ from. Tiles from total (parts part total (i + 1) n)) same_from rest)
    ]

part_size-enough : (total width : ℕ) → 1 ≤ width → total ≤ width * part_size total width
unfolding part_size
part_size-enough total width h =
    let e = div-add-mod' (total + (width - 1)) width in
    let small = mod-lt (total + (width - 1)) h in omega arith

-- How many bytes the parts have together: the sum that `_download_ranged` compares with `total`.
unfoldable pub bytes_of : List (ℕ × ℕ) → ℕ
bytes_of [] = 0
bytes_of ((a, b) ∷ rest) = b - a + 1 + bytes_of rest

Tiles-bytes :
    (from total : ℕ) (rs : List (ℕ × ℕ)) → Tiles from total rs → from + bytes_of rs ≡ total
unfolding bytes_of
Tiles-bytes from total [] h = omega arith
Tiles-bytes from total ((a, b) ∷ rest) (e, le, lt, t) =
    let ih = Tiles-bytes (b + 1) total rest t in omega arith

parts-length : (part total i n : ℕ) → length (parts part total i n) ≤ n
unfolding parts
parts-length part total i zero = omega arith
parts-length part total i (suc n) =
    let rest = parts-length part total (i + 1) n in
    elim (Bool-cases (ltb (i * part) total)) [
      | inl inside ↦ rw (inside, parts) (omega arith)
      | inr past ↦ rw (past, parts) (omega arith)
    ]

part_size_pos : (total width : ℕ) → 1 ≤ width → 1 ≤ total → 1 ≤ part_size total width
part_size_pos total width h k =
    let enough = part_size-enough total width h in
    elim (Bool-cases (part_size total width == 0)) [
      | inl zero_part ↦
          let e : part_size total width ≡ 0 = ground (arith) in
          let none_left : total ≤ width * 0 = subst (λ p. total ≤ width * p) e enough in omega arith
      | inr positive ↦ ground (arith)
    ]

-- `_range_bounds` of a body of at least one byte and a width of at least one: the parts follow each
-- other without a gap or an overlap from the first byte to the last, none is empty, there are at
-- most `width` of them, and together they have `total` bytes.
pub range_bounds_partition :
    (total width : ℕ)
    → 1 ≤ total
    → 1 ≤ width
    → Tiles 0 total (range_bounds total width)
      × (length (range_bounds total width) ≤ width)
      × (bytes_of (range_bounds total width) ≡ total)
unfolding range_bounds
range_bounds_partition total width h k =
    let part = part_size total width in
    let tiled : Tiles 0 total (parts part total 0 width) =
      subst (λ from. Tiles from total (parts part total 0 width)) (omega arith)
        (parts-Tiles part total 0 width (part_size_pos total width k h)
          (subst (λ n. total ≤ n * part) (omega arith) (part_size-enough total width k))) in
    let sum = Tiles-bytes 0 total (parts part total 0 width) tiled in
    (tiled, parts-length part total 0 width, omega arith)

-- The width of a parallel download by at least one worker is between one and the cap of the shared
-- pool, and no more than the whole parts of the smallest size that the body has; its deadline is
-- between the floor and the deadline of one attempt.
pub ranged_download_bounds :
    (workers total : ℕ)
    → 1 ≤ workers
    → (1 ≤ ranged_width workers total)
      × (ranged_width workers total ≤ 4)
      × (ranged_width workers total ≤ max 1 (total / range_min_part_bytes))
      × (120 ≤ ranged_deadline total)
      × (ranged_deadline total ≤ 300)
unfolding ranged_width ranged_deadline
ranged_download_bounds workers total h =
    (omega arith, omega arith, omega arith, omega arith, omega arith)
