-- ===== src/Transfer/Ranged.antt =====
-- `_ranged_worker` and `_download_ranged`: the parts of one version of an object, each written at its
-- own place in a temporary file. The workers run one after another here, in the order of the parts;
-- `abort` and the deadline end the whole download, which the answers that fail stand for.
use Prim.Native.String.{String}
use monty_pod.Common.{
  Bool, List, Option, [], false, if◌then◌else◌, length, none, not, some, str_eq, suc, true, zero, ℕ,
  ◌&&◌, ◌+◌, ◌-◌, ◌==◌, ◌∷◌,
}
use monty_pod.Transfer.Ranges.{range_bounds, ranged_width}
use monty_pod.Transfer.Download.{
  ContentRange, RangeTotal, Reply, Response, answered, garbled_range, malformed_total, no_range,
  span_of, star, total_of, unreachable,
}

abbrev pub range_part_attempts : ℕ
range_part_attempts = 2

-- The bytes of the file from its first on, replaced by those of the body.
unfoldable pub over : List ℕ → List ℕ → List ℕ
over [] file = file
over (b ∷ body) [] = b ∷ over body []
over (b ∷ body) (f ∷ file) = b ∷ over body file

-- `seek` and `write`; a gap is filled with zeros.
unfoldable pub write_at : ℕ → List ℕ → List ℕ → List ℕ
write_at zero body file = over body file
write_at (suc n) body [] = 0 ∷ write_at n body []
write_at (suc n) body (f ∷ file) = f ∷ write_at n body file

abbrev pub is_exact_total : RangeTotal → ℕ → Bool
is_exact_total star total = false
is_exact_total malformed_total total = false
is_exact_total (total_of t) total = t == total

-- The header is `bytes {start}-{end}/{total}`.
abbrev pub is_exact_range : ContentRange → ℕ → ℕ → ℕ → Bool
is_exact_range no_range first last total = false
is_exact_range garbled_range first last total = false
is_exact_range (span_of is_bytes a b t) first last total =
    is_bytes && a == first && b == last && is_exact_total t total

abbrev pub is_etag : Option String → String → Bool
is_etag none etag = false
is_etag (some e) etag = str_eq e etag

-- Whether the headers of a part allow its body to be written.
unfoldable pub is_part : Response → ℕ → ℕ → ℕ → String → Bool
is_part r first last total etag =
    r.status == 206
    && not r.encoded
    && is_etag r.etag etag
    && is_exact_range r.content_range first last total

-- One attempt at a part: whether it is whole, and the file.
unfoldable pub part_attempt : Reply → ℕ → ℕ → ℕ → String → List ℕ → Bool × List ℕ
part_attempt unreachable first last total etag file = (false, file)
part_attempt (answered r) first last total etag file =
    if is_part r first last total etag
    then (not r.cut && length r.body == last - first + 1, write_at first r.body file)
    else (false, file)

abbrev pub or_again : Bool × List ℕ → (List ℕ → Bool × List ℕ) → Bool × List ℕ
or_again (true, file) again = (true, file)
or_again (false, file) again = again file

-- `_ranged_worker`: attempt number `i` and those after it, of which `n` are left.
unfoldable pub ranged_worker : ℕ → ℕ → (ℕ → Reply) → ℕ → ℕ → ℕ → String → List ℕ → Bool × List ℕ
ranged_worker i zero replies first last total etag file = (false, file)
ranged_worker i (suc n) replies first last total etag file =
    or_again (part_attempt (replies i) first last total etag file)
      (λ left. ranged_worker (i + 1) n replies first last total etag left)

abbrev pub counted : ℕ → Option (ℕ × List ℕ) → Option (ℕ × List ℕ)
counted size none = none
counted size (some (moved, file)) = some (size + moved, file)

-- A part that failed ends the download; one that is whole adds its length to what was moved.
abbrev pub then_part : ℕ → Bool × List ℕ → (List ℕ → Option (ℕ × List ℕ)) → Option (ℕ × List ℕ)
then_part size (false, file) rest = none
then_part size (true, file) rest = counted size (rest file)

-- The parts, of which this is number `k`.
unfoldable pub run_parts :
    List (ℕ × ℕ) → ℕ → (ℕ → ℕ → Reply) → ℕ → String → List ℕ → Option (ℕ × List ℕ)
run_parts [] k replies total etag file = some (0, file)
run_parts ((first, last) ∷ bounds) k replies total etag file =
    then_part (last - first + 1)
      (ranged_worker 0 range_part_attempts (replies k) first last total etag file)
      (λ left. run_parts bounds (k + 1) replies total etag left)

unfoldable pub zeros : ℕ → List ℕ
zeros zero = []
zeros (suc n) = 0 ∷ zeros n

abbrev pub renamed : ℕ → Option (ℕ × List ℕ) → Option (List ℕ)
renamed total none = none
renamed total (some (moved, file)) = if moved == total then some file else none

-- What is renamed to `dest` of a download in `width` parts.
unfoldable pub assembled : ℕ → ℕ → String → (ℕ → ℕ → Reply) → Option (List ℕ)
assembled width total etag replies =
    renamed total (run_parts (range_bounds total width) 0 replies total etag (zeros total))

-- `_download_ranged` by `workers` workers.
unfoldable pub download_ranged : ℕ → ℕ → String → (ℕ → ℕ → Reply) → Option (List ℕ)
download_ranged workers total etag replies =
    assembled (ranged_width workers total) total etag replies
