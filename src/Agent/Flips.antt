-- ===== src/Agent/Flips.antt =====
-- The guard before a restart: `_flip_history` and `_record_flip_or_refuse`. Times are in seconds.
use monty_pod.Common.{
  Bool, List, Option, String, [], if◌then◌else◌, leb, length, ltb, none, select, some, true, ℕ,
  ◌++◌, ◌-◌, ◌∷◌,
}

pub record Flip : Type 0 where
  pub t : ℕ
  pub pack : String

-- `_FLIP_MAX_PER_HOUR` and `_FLIP_WINDOW_S`
abbrev pub flip_max_per_hour : ℕ
flip_max_per_hour = 3

abbrev pub flip_window_s : ℕ
flip_window_s = 3600

-- `now - float(row["t"]) < _FLIP_WINDOW_S`; a row of the future counts.
abbrev pub is_recent : ℕ → Flip → Bool
is_recent now row = ltb (now - row.t) flip_window_s

abbrev pub or_no_flips : Option (List Flip) → List Flip
or_no_flips none = []
or_no_flips (some rows) = rows

-- The mark on the disk; none: it cannot be read. Rows that are no flips are left out of it.
unfoldable pub flip_history : ℕ → Option (List Flip) → List Flip
unfolding select
flip_history now mark = select (is_recent now) (or_no_flips mark)

-- The mark after a flip that was recorded; `written`: whether the disk took it.
abbrev pub recorded : Bool → Option (List Flip) → List Flip → Option (List Flip)
recorded written mark rows = if written then some rows else mark

-- none: RestartRefused. `pack` is the head of the target's name.
unfoldable pub record_flip_or_refuse :
    Bool → String → ℕ → Option (List Flip) → Option (Option (List Flip))
unfolding flip_history
record_flip_or_refuse written pack now mark =
    if leb flip_max_per_hour (length (flip_history now mark))
    then none
    else some
        (recorded written mark (flip_history now mark ++ record { t = now; pack = pack } ∷ []))

-- The requests of a pod's incarnations, one after the other, and the restarts that they come to.
unfoldable pub restarts : Option (List Flip) → List Flip → List Flip
unfolding record_flip_or_refuse
restarts mark [] = []
restarts mark (asked ∷ rest) = elim (record_flip_or_refuse true asked.pack asked.t mark) [
  | none ↦ restarts mark rest
  | some next ↦ asked ∷ restarts next rest
]
