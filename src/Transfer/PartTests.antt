-- ===== src/Transfer/PartTests.antt =====
-- Concrete parallel downloads of an object of five bytes: in two parts, the first of which is sent to
-- the second attempt at it; and in one part, which is cut off once.
use Prim.Native.String.{String}
use monty_pod.Common.{
  Bool, List, [], arith, false, length, none, refl, some, suc, true, zero, ℕ, ◌∷◌, ◌≡◌,
}
use monty_pod.Transfer.Ranges.{part_size, parts, range_bounds, ranged_width}
use monty_pod.Transfer.Download.{
  Reply, Response, answered, no_length, span_of, total_of, unreachable,
}
use monty_pod.Transfer.Ranged.{
  assembled, download_ranged, is_part, over, part_attempt, ranged_worker, run_parts, write_at,
  zeros,
}
use monty_pod.Transfer.Integrity.{HonestReply, sends_part}
use monty_pod.Transfer.Assembly.{ranged_download_is_whole}
use monty_pod.Transfer.Served.{Served}

abbrev object : String → List ℕ
object e = 1 ∷ 2 ∷ 3 ∷ 4 ∷ 5 ∷ []

abbrev part_of : ℕ → ℕ → List ℕ → Bool → Response
part_of first last body cut = record {
  status = 206;
  encoded = false;
  etag = some "v1";
  content_length = no_length;
  content_range = span_of true first last (total_of 5);
  body = body;
  cut = cut;
}

abbrev two_parts : ℕ → ℕ → Reply
two_parts zero zero = unreachable
two_parts zero (suc i) = answered (part_of 0 2 (1 ∷ 2 ∷ 3 ∷ []) false)
two_parts (suc k) i = answered (part_of 3 4 (4 ∷ 5 ∷ []) false)

abbrev one_part : ℕ → ℕ → Reply
one_part k zero = answered (part_of 0 4 (1 ∷ 2 ∷ []) true)
one_part k (suc i) = answered (part_of 0 4 (1 ∷ 2 ∷ 3 ∷ 4 ∷ 5 ∷ []) false)

one_part_honest : (k i : ℕ) → HonestReply object (one_part k i)
one_part_honest k zero = sends_part "v1" [] (3 ∷ 4 ∷ 5 ∷ []) 4 (total_of 5) refl refl refl refl refl
one_part_honest k (suc i) = sends_part "v1" [] [] 4 (total_of 5) refl refl refl refl refl

one_part_downloaded : download_ranged 1 5 "v1" one_part ≡ some (1 ∷ 2 ∷ 3 ∷ 4 ∷ 5 ∷ [])
unfolding download_ranged assembled range_bounds ranged_width parts part_size run_parts
    ranged_worker part_attempt is_part write_at over zeros
one_part_downloaded = refl

ranged_download_is_whole_example :
    (1 ∷ 2 ∷ 3 ∷ 4 ∷ 5 ∷ [] ≡ object "v1") × (length (object "v1") ≡ 5)
ranged_download_is_whole_example =
    ranged_download_is_whole object "v1" 1 5 one_part (1 ∷ 2 ∷ 3 ∷ 4 ∷ 5 ∷ []) (omega arith)
      (omega arith) one_part_honest one_part_downloaded

-- A part of another version is not written, and ends the download.
abbrev drifted : ℕ → ℕ → Reply
drifted k i = answered (record (part_of 0 4 (1 ∷ 2 ∷ 3 ∷ 4 ∷ 5 ∷ []) false) { etag = some "v2" })

drifted_part_fails : download_ranged 1 5 "v1" drifted ≡ none
unfolding download_ranged assembled range_bounds ranged_width parts part_size run_parts
    ranged_worker part_attempt is_part write_at over zeros
drifted_part_fails = refl
