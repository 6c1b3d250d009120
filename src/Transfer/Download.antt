-- ===== src/Transfer/Download.antt =====
-- `download`, single stream: three attempts that resume from the bytes on disk. What the origin
-- answers to each attempt is an argument. A header that is "" counts as absent, as in the source.
use Prim.Native.String.{String}
use monty_pod.Common.{
  Bool, List, Option, [], false, if◌then◌else◌, leb, length, ltb, none, not, some, str_eq, suc,
  true, zero, ℕ, ◌&&◌, ◌++◌, ◌+◌, ◌-◌, ◌==◌,
}

abbrev pub xfer_attempts : ℕ
xfer_attempts = 3

pub data RangeTotal : Type 0 where
  star malformed_total : RangeTotal
  total_of : ℕ → RangeTotal

-- `Content-Range`: absent, not of the form that is parsed, or unit, first and last byte, and total;
-- the unit is told by whether it is "bytes".
pub data ContentRange : Type 0 where
  no_range garbled_range : ContentRange
  span_of : Bool → ℕ → ℕ → RangeTotal → ContentRange

pub data ContentLength : Type 0 where
  no_length malformed_length : ContentLength
  length_of : ℕ → ContentLength

-- A response with the bytes that its body delivers; `cut`: reading it then raises a transport error
-- or runs over the deadline of the attempt (`_pump`).
pub record Response : Type 0 where
  pub status : ℕ
  pub encoded : Bool
  pub etag : Option String
  pub content_length : ContentLength
  pub content_range : ContentRange
  pub body : List ℕ
  pub cut : Bool

pub data Reply : Type 0 where
  unreachable : Reply
  answered : Response → Reply

-- The file at `dest`, and what is pinned of the object.
pub record Transfer : Type 0 where
  pub file : Option (List ℕ)
  pub pinned_total : Option ℕ
  pub pinned_etag : Option String

abbrev pub size_of : Option (List ℕ) → ℕ
size_of none = 0
size_of (some b) = length b

abbrev pub bytes_at : Option (List ℕ) → List ℕ
bytes_at none = []
bytes_at (some b) = b

-- `_RestartRequired`, or another request error.
pub data Fault : Type 0 where
  restart_required request_error : Fault

pub data Attempt : Type 0 where
  complete partial : Attempt
  faulted : Fault → Attempt

-- start <= end < ceiling, where there is a ceiling
abbrev pub below_ceiling : ℕ → ℕ → Option ℕ → Bool
below_ceiling first last none = true
below_ceiling first last (some ceiling) = leb first last && ltb last ceiling

abbrev pub agrees : Option ℕ → ℕ → Bool
agrees none t = true
agrees (some pinned) t = pinned == t

abbrev pub or_some {ℓ} : {A : Type ℓ} → Option A → Option A → Option A
or_some none d = d
or_some (some a) d = some a

unfoldable pub span_total : ℕ → ℕ → RangeTotal → Option ℕ → Option (ℕ × ℕ × Option ℕ)
span_total first last star pinned = if ltb last first then none else some (first, last, none)
span_total first last malformed_total pinned =
    if below_ceiling first last pinned then some (first, last, none) else none
span_total first last (total_of t) pinned =
    if agrees pinned t && below_ceiling first last (or_some pinned (some t))
    then some (first, last, some t)
    else none

-- `_resume_range`; `none` is `_RestartRequired`.
unfoldable pub resume_range : ContentRange → ℕ → Option ℕ → Option (ℕ × ℕ × Option ℕ)
resume_range no_range have pinned = none
resume_range garbled_range have pinned = none
resume_range (span_of is_bytes first last total) have pinned =
    if is_bytes && first == have then span_total first last total pinned else none

abbrev pub same_version : Option String → Option String → Bool
same_version none new = true
same_version (some pinned) none = true
same_version (some pinned) (some new) = str_eq pinned new

abbrev pub reached_by : Option ℕ → ℕ → Attempt
reached_by none size = complete
reached_by (some t) size = if leb t size then complete else partial

-- After a body that was read to its end.
abbrev pub reached : Transfer → Attempt
reached s = reached_by s.pinned_total (size_of s.file)

abbrev pub append_body : Response → Option ℕ → Transfer → Transfer
append_body r total s = record {
  file = some (bytes_at s.file ++ r.body);
  pinned_total = or_some total s.pinned_total;
  pinned_etag = or_some r.etag s.pinned_etag;
}

abbrev pub resumed_body : Response → Option (ℕ × ℕ × Option ℕ) → Transfer → Attempt × Transfer
resumed_body r none s = (faulted restart_required, s)
resumed_body r (some (first, last, total)) s =
    let t = append_body r total s in
    if not (same_version s.pinned_etag r.etag)
    then (faulted restart_required, s)
    else if r.cut
    then (faulted request_error, t)
    else if ltb (last - first + 1) (length r.body)
    then (faulted restart_required, t)
    else (reached t, t)

-- A 206 to a request from the offset `have`
unfoldable pub resume : Response → ℕ → Transfer → Attempt × Transfer
resume r have s =
    if r.encoded
    then (faulted restart_required, s)
    else resumed_body r (resume_range r.content_range have s.pinned_total) s

abbrev pub framed_length : Bool → ContentLength → Option ℕ
framed_length true l = none
framed_length false no_length = none
framed_length false malformed_length = none
framed_length false (length_of n) = some n

abbrev pub whole_body : Response → Transfer → Transfer
whole_body r s = record {
  file = some r.body;
  pinned_total = framed_length r.encoded r.content_length;
  pinned_etag = or_some r.etag s.pinned_etag;
}

abbrev pub is_torn : Option ℕ → ℕ → Bool
is_torn none moved = false
is_torn (some t) moved = not (moved == t)

-- A response that is not a resumed one: the file is written from its first byte.
unfoldable pub restart : Response → Transfer → Attempt × Transfer
restart r s =
    let t = whole_body r s in
    if not (r.status == 200)
    then (faulted restart_required, s)
    else if r.cut
    then (faulted request_error, t)
    else if is_torn t.pinned_total (length r.body)
    then (faulted request_error, record t { file = none })
    else (reached t, t)

-- One attempt, with `have` bytes on disk.
unfoldable pub attempt : Reply → ℕ → Transfer → Attempt × Transfer
attempt unreachable have s = (faulted request_error, s)
attempt (answered r) have s =
    if r.status == 416
    then (faulted restart_required, s)
    else if leb 400 r.status && ltb r.status 600
    then (faulted request_error, s)
    else if r.status == 206
    then (if have == 0 then (faulted restart_required, s) else resume r have s)
    else restart r s

abbrev pub after_fault : Fault → Transfer → Transfer
after_fault restart_required s = record { file = none; pinned_total = none; pinned_etag = none }
after_fault request_error s = s

pub data Outcome : Type 0 where
  fetched gave_up : Outcome

abbrev pub exhausted_by : Option ℕ → Transfer → Outcome × Transfer
exhausted_by none s = (fetched, s)
exhausted_by (some t) s =
    if ltb (size_of s.file) t then (gave_up, record s { file = none }) else (fetched, s)

-- What follows the loop.
abbrev pub exhausted : Transfer → Outcome × Transfer
exhausted s = exhausted_by s.pinned_total s

abbrev pub next_state : Attempt × Transfer → Transfer
next_state (complete, s) = s
next_state (partial, s) = s
next_state (faulted f, s) = after_fault f s

abbrev pub ending : Bool → Attempt × Transfer → Outcome × Transfer → Outcome × Transfer
ending last (complete, s) rest = (fetched, s)
ending last (partial, s) rest = rest
ending true (faulted f, s) rest = (gave_up, after_fault f s)
ending false (faulted f, s) rest = rest

-- The loop from attempt number `i` on, of which `n` are left.
unfoldable pub retry : ℕ → ℕ → (ℕ → Reply) → Transfer → Outcome × Transfer
retry i zero replies s = exhausted s
retry i (suc n) replies s =
    let r = attempt (replies i) (if i == 0 then 0 else size_of s.file) s in
    let rest = retry (i + 1) n replies (next_state r) in ending (n == 0) r rest

-- How the single stream starts: with the first attempt, or after a parallel download that failed.
pub data Route : Type 0 where
  single_stream : Route
  after_ranged : ℕ → String → Route

unfoldable pub download : Route → (ℕ → Reply) → Option (List ℕ) → Outcome × Transfer
unfolding retry
download single_stream replies old =
    retry 0 xfer_attempts replies (record { file = old; pinned_total = none; pinned_etag = none })
download (after_ranged total etag) replies old =
    retry 1 (xfer_attempts - 1) replies
      (record { file = none; pinned_total = some total; pinned_etag = some etag })
