-- ===== src/ResultCache/Eviction.antt =====
-- What `prune` discards.
use monty_pod.Common.{All, List, [], ◌∷◌, ◌≤◌}
use monty_pod.ResultCache.{Row}

abbrev pub Sorted : List Row → Type 0
Sorted [] = Unit
Sorted (r ∷ rows) = All (λ (q : Row). r.mtime ≤ q.mtime) rows × Sorted rows

-- Every row that goes is at least as old as every row that stays.
abbrev pub OldestFirst : List Row × List Row → Type 0
OldestFirst (gone, kept) = All (λ (g : Row). All (λ (k : Row). g.mtime ≤ k.mtime) kept) gone
