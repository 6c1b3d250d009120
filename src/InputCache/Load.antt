-- ===== src/InputCache/Load.antt =====
-- `_Account.load`, which replaces the account by a walk of the disk. Its counter and its clock are left
-- out; a set is a list, and names in a walk differ, so that ties of the sort are not decided by sizes.
use monty_pod.Common.{
  Bool, List, Option, String, [], contains, false, if◌then◌else◌, leb, lookup, none, some,
  string_eq, text_leb, ℕ, ◌==◌, ◌∷◌,
}
use monty_pod.InputCache.{Account, Row, put}

-- A row of `_scan`.
pub record Scanned : Type 0 where
  pub mtime : ℕ
  pub name : String
  pub row : Row

abbrev pub scanned_leb : Scanned → Scanned → Bool
scanned_leb a b = if a.mtime == b.mtime then text_leb a.name b.name else leb a.mtime b.mtime

unfoldable pub insert_scanned : Scanned → List Scanned → List Scanned
insert_scanned x [] = x ∷ []
insert_scanned x (y ∷ xs) =
    let rest = insert_scanned x xs in if scanned_leb x y then x ∷ y ∷ xs else y ∷ rest

unfoldable pub sorted_scanned : List Scanned → List Scanned
unfolding insert_scanned
sorted_scanned [] = []
sorted_scanned (x ∷ xs) = insert_scanned x (sorted_scanned xs)

-- The rows of the walk that did not change while it walked.
unfoldable pub put_scanned : List String → List Scanned → Account → Account
unfolding contains put
put_scanned live [] a = a
put_scanned live (x ∷ xs) a =
    put_scanned live xs (if contains x.name live then a else put x.name (some x.row) a)

abbrev pub put_old : String → Option Row → Account → Account
put_old name none a = a
put_old name (some row) a = put name (some row) a

-- What the changed names have.
unfoldable pub put_live : List String → List (String × Row) → Account → Account
unfolding lookup put
put_live [] old a = a
put_live (name ∷ live) old a = put_live live old (put_old name (lookup name old) a)

unfoldable pub load_account : List Scanned → Account → Account
unfolding sorted_scanned put_scanned put_live
load_account scanned a =
    record (put_live a.touched a.rows (
      put_scanned a.touched (sorted_scanned scanned)
        (record (a) { rows = []; total = 0; held = 0 }))) { touched = []; reconciling = false }
