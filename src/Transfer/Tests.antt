-- ===== src/Transfer/Tests.antt =====
-- Concrete parts and downloads: 100 bytes in 3 parts, and an object of five bytes in two responses.
use monty_pod.Common.{
  List, String, [], arith, false, length, none, refl, some, suc, true, zero, ℕ, ◌∷◌, ◌≡◌, ◌≤◌,
}
use monty_pod.Transfer.Ranges.{
  Tiles, bytes_of, part_size, parts, range_bounds, range_bounds_partition,
}
use Prim.Native.String.{String}
use monty_pod.Transfer.Download.{
  Reply, Response, Transfer, answered, attempt, download, fetched, length_of, no_length, no_range,
  restart, resume, resume_range, retry, single_stream, span_of, span_total, star, total_of,
  unreachable,
}

range_bounds_partition_example :
    Tiles 0 100 (range_bounds 100 3)
    × (length (range_bounds 100 3) ≤ 3)
    × (bytes_of (range_bounds 100 3) ≡ 100)
range_bounds_partition_example = range_bounds_partition 100 3 (omega arith) (omega arith)

three_parts : range_bounds 100 3 ≡ (0, 33) ∷ (34, 67) ∷ (68, 99) ∷ []
unfolding range_bounds parts part_size
three_parts = refl

-- An object of five bytes; the first response is cut off after two, the second sends the rest.
abbrev object : String → List ℕ
object e = 1 ∷ 2 ∷ 3 ∷ 4 ∷ 5 ∷ []

abbrev first_reply : Response
first_reply = record {
  status = 200;
  encoded = false;
  etag = some "v1";
  content_length = length_of 5;
  content_range = no_range;
  body = 1 ∷ 2 ∷ [];
  cut = true;
}

abbrev second_reply : Response
second_reply = record {
  status = 206;
  encoded = false;
  etag = some "v1";
  content_length = length_of 3;
  content_range = span_of true 2 4 (total_of 5);
  body = 3 ∷ 4 ∷ 5 ∷ [];
  cut = false;
}

abbrev origin : ℕ → Reply
origin zero = answered first_reply
origin (suc n) = answered second_reply

abbrev on_disk : Transfer
on_disk = record {
  file = some (1 ∷ 2 ∷ 3 ∷ 4 ∷ 5 ∷ []);
  pinned_total = some 5;
  pinned_etag = some "v1";
}

-- The first attempt is not answered, and a file of another object is at the path: its bytes are
-- taken for a part of this one.
abbrev late_origin : ℕ → Reply
late_origin zero = unreachable
late_origin (suc n) = answered second_reply

stale_bytes_are_spliced :
    (download single_stream late_origin (some (8 ∷ 9 ∷ []))).1.file ≡ some (8 ∷ 9 ∷ 3 ∷ 4 ∷ 5 ∷ [])
unfolding download retry attempt restart resume resume_range span_total
stale_bytes_are_spliced = refl

-- A part that stops short, of a body whose length is not told, ends the download.
abbrev unframed_first : Response
unframed_first = record (first_reply) { content_length = no_length }

abbrev short_second : Response
short_second = record (second_reply) { content_range = span_of true 2 4 star; body = 3 ∷ [] }

abbrev unframed_origin : ℕ → Reply
unframed_origin zero = answered unframed_first
unframed_origin (suc n) = answered short_second

short_part_is_returned : (download single_stream unframed_origin none).0 ≡ fetched
unfolding download retry attempt restart resume resume_range span_total
short_part_is_returned = refl

short_part_is_kept : (download single_stream unframed_origin none).1.file ≡ some (1 ∷ 2 ∷ 3 ∷ [])
unfolding download retry attempt restart resume resume_range span_total
short_part_is_kept = refl
