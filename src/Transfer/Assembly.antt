-- ===== src/Transfer/Assembly.antt =====
-- The parts of a parallel download make up the object.
use monty_pod.Common.{
  Bool, Bool-cases, List, Option, String, [], ap, arith, false, if◌then◌else◌, inl, inr, length,
  none, some, subst, suc, sym, true, zero, ℕ, ◌+◌, ◌-◌, ◌==◌, ◌∙◌, ◌∷◌, ◌≡◌, ◌≤◌,
}
use monty_pod.Transfer.Ranged.{
  assembled, counted, download_ranged, is_exact_range, is_part, or_again, part_attempt,
  range_part_attempts, ranged_worker, renamed, run_parts, then_part, write_at, zeros,
}
use monty_pod.Transfer.Integrity.{
  Honest, HonestReply, TotalIs, sends_other, sends_part, sends_whole,
}
use monty_pod.Transfer.Download.{Reply, Response, answered, unreachable}
use monty_pod.Transfer.Ranges.{
  Tiles, range_bounds, range_bounds_partition, ranged_download_bounds, ranged_width,
}
use monty_pod.Transfer.Placed.{
  Left, Placed, all-Placed, exact_range-fields, fewer-Placed, is_part-fields, same_etag,
  written-Left, written-Placed, zeros-Placed,
}

module _ (obj : String → List ℕ) (etag : String) where
  part_written-Placed :
      (r : Response) (first last total : ℕ) (file : List ℕ)
      → Honest obj r
      → is_part r first last total etag ≡ true
      → Placed (obj etag) first total file
      → (length (obj etag) ≡ total)
        × Placed (obj etag) (first + length r.body) total (write_at first r.body file)
  part_written-Placed r first last total file (sends_whole e rest ok plain tag begins told) good p =
      let (ok', _, _) = is_part-fields r first last total etag good in absurd (omega arith)
  part_written-Placed r first last total file (sends_other a b) good p =
      let (ok', _, _) = is_part-fields r first last total etag good in absurd (ground (arith))
  part_written-Placed r first last total file
        (sends_part e before rest last' t ok tag range begins told) good p =
      let (_, tag', range') = is_part-fields r first last total etag good in
      let same : e ≡ etag = same_etag r.etag e etag tag tag' in
      let (here, _, is_total) =
        exact_range-fields (length before) last' first last total true t
          (subst (λ x. is_exact_range x first last total ≡ true) range range') in
      let size : length (obj etag) ≡ total =
        ap (λ x. length (obj x)) (sym same)
        ∙ sym (subst (λ x. TotalIs x (length (obj e))) is_total told) in
      (
        size,
        written-Placed (obj etag) first total file r.body rest before here (begins ∙ ap obj same)
            size p,
      )

  part_attempt-Left :
      (reply : Reply) (first last total : ℕ) (file : List ℕ)
      → HonestReply obj reply
      → first ≤ last
      → Placed (obj etag) first total file
      → Left (obj etag) first last total (part_attempt reply first last total etag file)
  unfolding part_attempt
  part_attempt-Left unreachable first last total file honest order p = p
  part_attempt-Left (answered r) first last total file honest order p =
      elim (Bool-cases (is_part r first last total etag)) [
        | inr bad ↦ rw (bad, part_attempt) p
        | inl good ↦
            let after = part_written-Placed r first last total file honest good p in
            rw (good, part_attempt)
              (written-Left (obj etag) first last total (length r.body) r.cut
                (write_at first r.body file) order
                (fewer-Placed (obj etag) first (length r.body) total (write_at first r.body file)
                  after.1)
                after)
      ]

  again-Left :
      (left : Bool × List ℕ) (again : List ℕ → Bool × List ℕ) (first last total : ℕ)
      → Left (obj etag) first last total left
      → ((file : List ℕ)
          → Placed (obj etag) first total file
          → Left (obj etag) first last total (again file))
      → Left (obj etag) first last total (or_again left again)
  again-Left (true, file) again first last total p next = p
  again-Left (false, file) again first last total p next = next file p

  ranged_worker-Left :
      (i n : ℕ) (replies : ℕ → Reply) (first last total : ℕ) (file : List ℕ)
      → ((k : ℕ) → HonestReply obj (replies k))
      → first ≤ last
      → Placed (obj etag) first total file
      → Left (obj etag) first last total (ranged_worker i n replies first last total etag file)
  unfolding ranged_worker
  ranged_worker-Left i zero replies first last total file honest order p = p
  ranged_worker-Left i (suc n) replies first last total file honest order p =
      again-Left (part_attempt (replies i) first last total etag file) _ first last total
        (part_attempt-Left (replies i) first last total file (honest i) order p)
        (λ left q. ranged_worker-Left (i + 1) n replies first last total left honest order q)

  abbrev Counted : (List ℕ → Type 0) → Option (ℕ × List ℕ) → Type 0
  Counted P none = Unit
  Counted P (some (moved, file)) = P file

  counted-Counted :
      (P : List ℕ → Type 0) (size : ℕ) (end : Option (ℕ × List ℕ))
      → Counted P end
      → Counted P (counted size end)
  counted-Counted P size none p = tt
  counted-Counted P size (some (moved, file)) p = p

  Counted-map :
      (P Q : List ℕ → Type 0) (end : Option (ℕ × List ℕ))
      → ((file : List ℕ) → P file → Q file)
      → Counted P end
      → Counted Q end
  Counted-map P Q none f p = tt
  Counted-map P Q (some (moved, file)) f p = f file p

  then_part-Counted :
      (P : List ℕ → Type 0) (size first last total : ℕ) (left : Bool × List ℕ)
      (rest : List ℕ → Option (ℕ × List ℕ))
      → Left (obj etag) first last total left
      → ((file : List ℕ)
          → length (obj etag) ≡ total
          → Placed (obj etag) (last + 1) total file
          → Counted P (rest file))
      → Counted P (then_part size left rest)
  then_part-Counted P size first last total (false, file) rest p next = tt
  then_part-Counted P size first last total (true, file) rest (told, p) next =
      counted-Counted P size (rest file) (next file told p)

  run_parts-Placed :
      (bounds : List (ℕ × ℕ)) (k from total : ℕ) (replies : ℕ → ℕ → Reply) (file : List ℕ)
      → ((part i : ℕ) → HonestReply obj (replies part i))
      → Tiles from total bounds
      → Placed (obj etag) from total file
      → Counted (Placed (obj etag) total total) (run_parts bounds k replies total etag file)
  unfolding run_parts
  run_parts-Placed [] k from total replies file honest e p =
      subst (λ at. Placed (obj etag) at total file) e p
  run_parts-Placed ((a, b) ∷ bounds) k from total replies file honest (e, le, lt, tiles) p =
      then_part-Counted (Placed (obj etag) total total) (b - a + 1) a b total _ _
        (ranged_worker-Left 0 range_part_attempts (replies k) a b total file (honest k) le
          (subst (λ at. Placed (obj etag) at total file) (sym e) p))
        (λ left told q. run_parts-Placed bounds (k + 1) (b + 1) total replies left honest tiles q)

  IsWhole : ℕ → List ℕ → Type 0
  IsWhole total file = (file ≡ obj etag) × (length (obj etag) ≡ total)

  run_parts-IsWhole :
      (bounds : List (ℕ × ℕ)) (total : ℕ) (replies : ℕ → ℕ → Reply)
      → 1 ≤ total
      → ((part i : ℕ) → HonestReply obj (replies part i))
      → Tiles 0 total bounds
      → Counted (IsWhole total) (run_parts bounds 0 replies total etag (zeros total))
  unfolding run_parts IsWhole
  run_parts-IsWhole [] total replies h honest e = absurd (omega arith)
  run_parts-IsWhole ((a, b) ∷ bounds) total replies h honest (e, le, lt, tiles) =
      then_part-Counted (IsWhole total) (b - a + 1) a b total _ _
        (ranged_worker-Left 0 range_part_attempts (replies 0) a b total (zeros total) (honest 0) le
          (subst (λ at. Placed (obj etag) at total (zeros total)) (sym e)
            (zeros-Placed (obj etag) total)))
        (λ left told q.
          Counted-map (Placed (obj etag) total total) (IsWhole total) _
            (λ file all. (all-Placed (obj etag) file total told all, told))
            (run_parts-Placed bounds 1 (b + 1) total replies left honest tiles q))

  renamed-IsWhole :
      (total : ℕ) (end : Option (ℕ × List ℕ)) (file : List ℕ)
      → Counted (IsWhole total) end
      → renamed total end ≡ some file
      → IsWhole total file
  renamed-IsWhole total none file p e = absurd (cc)
  renamed-IsWhole total (some (moved, held)) file p e = elim (Bool-cases (moved == total)) [
    | inl same ↦
        let kept : some held ≡ some file =
          subst (λ b. (if b then some held else none) ≡ some file) same e in
        let held_file : held ≡ file = cc in subst (IsWhole total) held_file p
    | inr other ↦
        let gone : none ≡ some file =
          subst (λ b. (if b then some held else none) ≡ some file) other e in
        absurd (cc)
  ]

pub assembled_is_whole :
    (obj : String → List ℕ) (etag : String) (width total : ℕ) (replies : ℕ → ℕ → Reply)
    (file : List ℕ)
    → 1 ≤ width
    → 1 ≤ total
    → ((part i : ℕ) → HonestReply obj (replies part i))
    → assembled width total etag replies ≡ some file
    → (file ≡ obj etag) × (length (obj etag) ≡ total)
unfolding assembled IsWhole
assembled_is_whole obj etag width total replies file h k honest returned =
    let bounds = range_bounds_partition total width k h in
    renamed-IsWhole obj etag total _ file
      (run_parts-IsWhole obj etag (range_bounds total width) total replies k honest bounds.0)
      returned

-- `_download_ranged` by at least one worker, of a total of at least one byte that was told when the
-- version `etag` was pinned; every answer is one that the rules of HTTP allow for some version of the
-- object: a download that succeeds renames to `dest` the whole object of the pinned version and
-- nothing else, and the total is the length of that version.
pub ranged_download_is_whole :
    (obj : String → List ℕ) (etag : String) (workers total : ℕ) (replies : ℕ → ℕ → Reply)
    (file : List ℕ)
    → 1 ≤ workers
    → 1 ≤ total
    → ((part i : ℕ) → HonestReply obj (replies part i))
    → download_ranged workers total etag replies ≡ some file
    → (file ≡ obj etag) × (length (obj etag) ≡ total)
unfolding download_ranged
ranged_download_is_whole obj etag workers total replies file h k honest returned =
    assembled_is_whole obj etag (ranged_width workers total) total replies file
      (ranged_download_bounds workers total h).0 k honest returned
