-- ===== src/ResultCache/Tests.antt =====
-- Concrete slots and rows.
use Prim.Native.String.{String}
use monty_pod.Common.{List, [], map, refl, true, ℕ, ◌∷◌, ◌≡◌}
use monty_pod.ResultCache.{Meta, Row, before, evict, insert_row, prune, sorted_rows, total_size}

abbrev digest : List ℕ → String
digest [] = "empty"
digest (b ∷ bs) = "bytes"

abbrev foreign_meta : Meta
foreign_meta = record {
  has_its_fields = true;
  schema = 1;
  key = "other";
  sha256 = "bytes";
  bytes = 1;
}

abbrev rows : List Row
rows =
    record { mtime = 5; size = 40; path = "a" }
    ∷ record { mtime = 2; size = 30; path = "b" }
    ∷ record { mtime = 9; size = 20; path = "c" }
    ∷ []

oldest_goes : map (λ (r : Row). r.path) (prune 60 rows).0 ≡ "b" ∷ []
unfolding prune evict sorted_rows insert_row before total_size
oldest_goes = refl
