-- ===== src/InputCache.antt =====
-- podagent/ops/inputcache.py: the account that the pruner reads in place of the disk (`_Account`) and
-- the choice of what to evict (`_oldest_batch`). Bytes are whole numbers; a sum that an entry is taken
-- from has the entry in it.
pub mod Balance
pub mod Batch
pub mod Evict
pub mod Evicted
pub mod Untried
pub mod Fits
pub mod Load
pub mod Reconciled
pub mod Retention
pub mod Ceiling
mod Tests
use Prim.Native.String.{String}
use monty_pod.Common.{
  Bool, List, Option, [], contains, erase, if◌then◌else◌, lookup, none, some, string_eq, ℕ, ◌++◌,
  ◌+◌, ◌-◌, ◌==◌, ◌||◌, ◌∷◌,
}

pub record Row : Type 0 where
  pub bytes : ℕ
  pub retained : Bool

-- The rows by the names of their slots, the oldest first.
pub record Account : Type 0 where
  pub rows : List (String × Row)
  pub total : ℕ
  pub held : ℕ
  pub reconciling : Bool
  pub touched : List String

abbrev pub drop_row : String → Option Row → Account → Account
drop_row name none a = a
drop_row name (some row) a = record (a) {
  rows = erase name a.rows;
  total = a.total - row.bytes;
  held = if row.retained then a.held - row.bytes else a.held;
}

-- `_drop`
unfoldable pub drop : String → Account → Account
drop name a = drop_row name (lookup name a.rows) a

-- The newest row is the last.
abbrev pub add_row : String → Option Row → Account → Account
add_row name none a = a
add_row name (some row) a = record (a) {
  rows = a.rows ++ (name, row) ∷ [];
  total = a.total + row.bytes;
  held = if row.retained then a.held + row.bytes else a.held;
}

abbrev pub touch : String → Account → Account
touch name a = if a.reconciling then record (a) { touched = name ∷ a.touched } else a

unfoldable pub put : String → Option Row → Account → Account
put name row a = touch name (add_row name row (drop name a))

-- The rows of which `excess` bytes are to go.
unfoldable pub batch_from : List (String × Row) → ℕ → List String → List (String × ℕ)
batch_from [] excess tried = []
batch_from ((name, row) ∷ rows) excess tried =
    if excess == 0
    then []
    else if row.retained || contains name tried
    then batch_from rows excess tried
    else (name, row.bytes) ∷ batch_from rows (excess - row.bytes) tried

-- `_oldest_batch`
unfoldable pub oldest_batch : Account → ℕ → List String → List (String × ℕ)
oldest_batch a cap tried = batch_from a.rows (a.total - cap) tried
