-- ===== src/ResultCache.antt =====
-- podagent/ops/resultcache.py: results of an op, found again by the content of what made them. The
-- digest of hashlib and the answers of the file system are arguments; times are whole numbers.
use Prim.Native.String.{String, compare}
use Prim.Native.Nat.{eq, gt, lt}
pub mod Hits
pub mod Eviction
mod Tests
use monty_pod.Common.{
  Bool, List, Option, [], false, if◌then◌else◌, leb, length, ltb, none, some, str_eq, true, ℕ, ◌&&◌,
  ◌+◌, ◌-◌, ◌==◌, ◌∷◌,
}

abbrev pub schema_version : ℕ
schema_version = 1

-- `meta.json`: whether it has the four fields, and their values.
pub record Meta : Type 0 where
  pub has_its_fields : Bool
  pub schema : ℕ
  pub key : String
  pub sha256 : String
  pub bytes : ℕ

-- A slot's directory; a file that cannot be read counts as missing.
pub record Slot : Type 0 where
  pub meta : Option Meta
  pub payload : Option (List ℕ)

abbrev pub is_of : String → Meta → Bool
is_of key m = m.has_its_fields && m.schema == schema_version && str_eq m.key key

abbrev pub verified : (List ℕ → String) → Meta → Option (List ℕ) → Option (List ℕ)
verified sha m none = none
verified sha m (some b) = if length b == m.bytes && str_eq (sha b) m.sha256 then some b else none

abbrev pub restore_meta :
    (List ℕ → String) → String → Option Meta → Option (List ℕ) → Option (List ℕ)
restore_meta sha key none payload = none
restore_meta sha key (some m) payload = if is_of key m then verified sha m payload else none

-- `_restore`: the bytes that it puts at the output, or a miss.
unfoldable pub restore_slot : (List ℕ → String) → String → Option Slot → Option (List ℕ)
restore_slot sha key none = none
restore_slot sha key (some s) = restore_meta sha key s.meta s.payload

-- `_store`
unfoldable pub store_slot : (List ℕ → String) → String → List ℕ → Slot
store_slot sha key b = record {
  meta = some (record {
    has_its_fields = true;
    schema = schema_version;
    key = key;
    sha256 = sha b;
    bytes = length b;
  });
  payload = some b;
}

-- `_material` and `_key`: they raise, there is nothing to identify the result by, or a key.
pub data Material : Type 0 where
  unavailable no_material : Material
  keyed : String → Material

-- Whether the handler was skipped, what is at the output, and the slot.
pub record Ran : Type 0 where
  pub skipped : Bool
  pub output : Option (List ℕ)
  pub slot : Option Slot

abbrev pub stored_output : (List ℕ → String) → String → Bool → Option (List ℕ) → Option Slot
stored_output sha key writes none = none
stored_output sha key true (some b) = some (store_slot sha key b)
stored_output sha key false (some b) = none

abbrev pub restored_or_run :
    (List ℕ → String) → String → Bool → Option (List ℕ) → Option Slot → Option (List ℕ) → Ran
restored_or_run sha key writes handler slot (some b) = record {
  skipped = true;
  output = some b;
  slot = slot;
}
restored_or_run sha key writes handler slot none = record {
  skipped = false;
  output = handler;
  slot = stored_output sha key writes handler;
}

-- `execute`, before it prunes. `eligible`: the cache is enabled and the op is allowed. `handler`: what
-- the handler leaves at the output when it runs. `writes` answers `_store`.
unfoldable pub execute :
    (List ℕ → String) → Bool → Material → Bool → Option (List ℕ) → Option Slot → Ran
unfolding restore_slot store_slot
execute sha false identity writes handler slot = record {
  skipped = false;
  output = handler;
  slot = slot;
}
execute sha true unavailable writes handler slot = record {
  skipped = false;
  output = handler;
  slot = slot;
}
execute sha true no_material writes handler slot = record {
  skipped = false;
  output = handler;
  slot = slot;
}
execute sha true (keyed key) writes handler slot =
    restored_or_run sha key writes handler slot (restore_slot sha key slot)

-- A row of `_entries`: when it was used, its size, its path.
pub record Row : Type 0 where
  pub mtime : ℕ
  pub size : ℕ
  pub path : String

abbrev pub str_leb : String → String → Bool
str_leb s t = elim (compare s t) [ lt ↦ true | eq ↦ true | gt ↦ false ]

-- The order of Python's tuples
unfoldable pub before : Row → Row → Bool
before a b =
    if a.mtime == b.mtime
    then (if a.size == b.size then str_leb a.path b.path else ltb a.size b.size)
    else ltb a.mtime b.mtime

unfoldable pub insert_row : Row → List Row → List Row
insert_row r [] = r ∷ []
insert_row r (q ∷ rows) =
    let rest = insert_row r rows in if before r q then r ∷ q ∷ rows else q ∷ rest

unfoldable pub sorted_rows : List Row → List Row
sorted_rows [] = []
sorted_rows (r ∷ rows) = insert_row r (sorted_rows rows)

unfoldable pub total_size : List Row → ℕ
total_size [] = 0
total_size (r ∷ rows) = r.size + total_size rows

-- The loop of `prune`: the rows that it discards, and those that stay.
unfoldable pub evict : ℕ → ℕ → List Row → List Row × List Row
evict cap total [] = ([], [])
evict cap total (r ∷ rows) =
    let (gone, kept) = evict cap (total - r.size) rows in
    if leb total cap then ([], r ∷ rows) else (r ∷ gone, kept)

-- `prune`
unfoldable pub prune : ℕ → List Row → List Row × List Row
prune cap rows = evict cap (total_size (sorted_rows rows)) (sorted_rows rows)
