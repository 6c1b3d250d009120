-- ===== src/Agent/Hourly.antt =====
-- No hour sees more restarts than the guard allows.
use monty_pod.Common.{
  Bool, Bool-cases, List, Option, [], arith, if◌then◌else◌, inl, inr, leb, length, length-append,
  ltb, refl, select, some, suc, ℕ, ◌&&◌, ◌++◌, ◌+◌, ◌-◌, ◌<◌, ◌∷◌, ◌≡◌, ◌≤◌,
}
use monty_pod.Agent.Flips.{
  Flip, flip_history, flip_max_per_hour, flip_window_s, is_recent, or_no_flips,
  record_flip_or_refuse, restarts,
}

-- The flips of the hour that ends at `now`.
abbrev pub is_in_hour : ℕ → Flip → Bool
is_in_hour now row = leb row.t now && ltb (now - row.t) flip_window_s

unfoldable pub count_hour : ℕ → List Flip → ℕ
count_hour now [] = 0
count_hour now (row ∷ rows) =
    let others = count_hour now rows in if is_in_hour now row then suc others else others

-- The requests come one after the other.
abbrev pub IsAfter : ℕ → List Flip → Type 0
IsAfter t [] = Unit
IsAfter t (asked ∷ rest) = (t ≤ asked.t) × IsAfter asked.t rest

count_hour-append :
    (now : ℕ) (xs ys : List Flip)
    → count_hour now (xs ++ ys) ≡ count_hour now xs + count_hour now ys
unfolding count_hour
count_hour-append now [] ys = omega arith
count_hour-append now (x ∷ xs) ys = ground (arith, count_hour-append now xs ys)

count_hour-bound : (now : ℕ) (rows : List Flip) → count_hour now rows ≤ length rows
unfolding count_hour
count_hour-bound now [] = omega arith
count_hour-bound now (row ∷ rows) = ground (arith, count_hour-bound now rows)

-- Rows that are no longer recent are in no later hour.
count_hour-recent :
    (n now : ℕ) (rows : List Flip)
    → n ≤ now
    → count_hour now (select (is_recent n) rows) ≡ count_hour now rows
unfolding count_hour select
count_hour-recent n now [] le = refl
count_hour-recent n now (row ∷ rows) le = ground (arith, count_hour-recent n now rows le)

restarts_later :
    (t now : ℕ) (mark : Option (List Flip)) (asked : List Flip)
    → now < t
    → IsAfter t asked
    → count_hour now (restarts mark asked) ≡ 0
unfolding count_hour restarts record_flip_or_refuse
restarts_later t now mark [] early h = refl
restarts_later t now mark (x ∷ rest) early (le, h) =
    elim (Bool-cases (leb flip_max_per_hour (length (flip_history x.t mark)))) [
      | inl full ↦
          rw (full, restarts, record_flip_or_refuse)
            (restarts_later x.t now mark rest (omega arith) h)
      | inr room ↦
          let ih =
            restarts_later x.t now
              (some (flip_history x.t mark ++ record { t = x.t; pack = x.pack } ∷ [])) rest
              (omega arith) h in
          rw (room, restarts, record_flip_or_refuse) (ground (arith))
    ]

restarts_in_hour :
    (t now : ℕ) (mark : Option (List Flip)) (asked : List Flip)
    → length (or_no_flips mark) ≤ flip_max_per_hour
    → IsAfter t asked
    → count_hour now (or_no_flips mark) + count_hour now (restarts mark asked) ≤ flip_max_per_hour
unfolding count_hour restarts record_flip_or_refuse flip_history
restarts_in_hour t now mark [] few h =
    let b = count_hour-bound now (or_no_flips mark) in omega arith
restarts_in_hour t now mark (x ∷ rest) few (le, h) =
    elim (Bool-cases (leb flip_max_per_hour (length (flip_history x.t mark)))) [
      | inl full ↦
          rw (full, restarts, record_flip_or_refuse) (restarts_in_hour x.t now mark rest few h)
      | inr room ↦
          let row : Flip = record { t = x.t; pack = x.pack } in
          let next = flip_history x.t mark ++ row ∷ [] in
          let size = length-append (flip_history x.t mark) (row ∷ []) in
          let ih = restarts_in_hour x.t now (some next) rest (ground (arith)) h in
          let split = count_hour-append now (flip_history x.t mark) (row ∷ []) in
          let bound = count_hour-bound now (or_no_flips mark) in
          rw (room, restarts, record_flip_or_refuse)
            (elim (Bool-cases (leb x.t now)) [
              | inl late ↦
                  let same = count_hour-recent x.t now (or_no_flips mark) (ground (arith)) in
                  ground (arith)
              | inr early ↦
                  let none_yet = restarts_later x.t now (some next) rest (ground (arith)) h in
                  ground (arith)
            ])
    ]

-- A pod that may restart at most three times in an hour does so: where the requests come one after the
-- other, the disk takes every row, and the mark of the earlier incarnations has at most three rows or
-- cannot be read, every hour has at most three of the mark's flips and of the restarts that follow.
pub no_hour_has_four_restarts :
    (t now : ℕ) (mark : Option (List Flip)) (asked : List Flip)
    → length (or_no_flips mark) ≤ flip_max_per_hour
    → IsAfter t asked
    → count_hour now (or_no_flips mark ++ restarts mark asked) ≤ flip_max_per_hour
no_hour_has_four_restarts t now mark asked few h =
    let split = count_hour-append now (or_no_flips mark) (restarts mark asked) in
    let bound = restarts_in_hour t now mark asked few h in omega arith
