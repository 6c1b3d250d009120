-- ===== src/Transfer/Served.antt =====
-- Parallel downloads of which the origin sends every part: the retries are enough.
use Prim.Native.String.{String}
use monty_pod.Common.{List, Option, [], false, length, some, true, ℕ, ◌+◌, ◌-◌, ◌<◌, ◌∷◌, ◌≡◌}
use monty_pod.Transfer.Download.{Reply, answered, unreachable}
use monty_pod.Transfer.Ranged.{is_part, range_part_attempts}

-- The answer is the whole part, with the headers that are asked of it.
abbrev pub Sends : ℕ → ℕ → ℕ → String → Reply → Type 0
Sends first last total etag unreachable = ⊥
Sends first last total etag (answered r) =
    (is_part r first last total etag ≡ true) × (r.cut ≡ false) × (length r.body ≡ last - first + 1)

-- Each part, of which the first is number `k`, is sent to one of the attempts at it.
abbrev pub Served : ℕ → String → (ℕ → ℕ → Reply) → List (ℕ × ℕ) → ℕ → Type 0
Served total etag replies [] k = Unit
Served total etag replies ((first, last) ∷ bounds) k =
    ((i : ℕ) × (i < range_part_attempts) × Sends first last total etag (replies k i))
    × Served total etag replies bounds (k + 1)

Moves : ℕ → Option (ℕ × List ℕ) → Type 0
Moves n end = (file : List ℕ) × (end ≡ some (n, file))
