-- ===== src/InputCache/Evict.antt =====
-- `_evict`. The disk is the complete slots by their names, as `_read_slot` reads them. Which slots
-- another thread locks, and which `rmtree` cannot remove, are arguments.
use monty_pod.Common.{
  Bool, List, Option, String, [], erase, if◌then◌else◌, is_empty, leb, length, lookup, none, some,
  string_eq, suc, zero, ℕ, ◌+◌, ◌∷◌,
}
use monty_pod.InputCache.{Account, Row, oldest_batch, put}

pub record Evicting : Type 0 where
  pub account : Account
  pub disk : List (String × Row)
  pub freed : ℕ

-- The disk after `shutil.rmtree`.
abbrev pub removed : (String → Bool) → String → List (String × Row) → List (String × Row)
removed stuck name disk = if stuck name then disk else erase name disk

abbrev pub evict_row : (String → Bool) → String → Row → Evicting → Evicting
evict_row stuck name row s = record {
  account = put name (lookup name (removed stuck name s.disk)) s.account;
  disk = removed stuck name s.disk;
  freed = s.freed + row.bytes;
}

-- What the slot is now, under its lock: gone, retained meanwhile, or to be evicted.
abbrev pub evict_read : (String → Bool) → String → Option Row → Evicting → Evicting
evict_read stuck name none s = record (s) { account = put name none s.account }
evict_read stuck name (some row) s =
    if row.retained
    then record (s) { account = put name (some row) s.account }
    else evict_row stuck name row s

-- One name of a batch.
unfoldable pub evict_slot : (String → Bool) → (String → Bool) → String → Evicting → Evicting
unfolding lookup erase put
evict_slot busy stuck name s = if busy name then s else evict_read stuck name (lookup name s.disk) s

unfoldable pub evict_batch :
    (String → Bool) → (String → Bool) → List (String × ℕ) → Evicting → Evicting
unfolding evict_slot
evict_batch busy stuck [] s = s
evict_batch busy stuck ((name, size) ∷ batch) s =
    evict_batch busy stuck batch (evict_slot busy stuck name s)

unfoldable pub try_names : List (String × ℕ) → List String → List String
try_names [] tried = tried
try_names ((name, size) ∷ batch) tried = try_names batch (name ∷ tried)

-- The loop, of which `n` rounds may be left; none: they are spent.
unfoldable pub evict_rounds :
    (String → Bool) → (String → Bool) → ℕ → ℕ → List String → Evicting → Option Evicting
unfolding oldest_batch evict_batch try_names
evict_rounds busy stuck cap zero tried s = none
evict_rounds busy stuck cap (suc n) tried s =
    let batch = oldest_batch s.account cap tried in
    let rest =
      evict_rounds busy stuck cap n (try_names batch tried) (evict_batch busy stuck batch s) in
    if is_empty batch then some s else rest

-- `_evict`, with a round for each row of the account and a last one.
unfoldable pub evict_over : (String → Bool) → (String → Bool) → ℕ → Evicting → Option Evicting
unfolding evict_rounds
evict_over busy stuck cap s =
    if leb s.account.total cap
    then some s
    else evict_rounds busy stuck cap (suc (length s.account.rows)) [] s
