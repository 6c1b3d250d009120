-- ===== src/Transfer/Integrity.antt =====
-- What a download that succeeds has put on disk, if the origin answers by the rules of HTTP.
use Prim.Native.String.{String}
use mathlib.Core.List.{tail-eq_of_cons-eq}
use monty_pod.Common.{
  Bool, Bool-cases, List, Option, [], ap, arith, false, if◌then◌else◌, inl, inr, leb, leb→le,
  length, ltb, none, refl, some, subst, suc, sym, true, zero, ℕ, ◌&&◌, ◌++◌, ◌+◌, ◌-◌, ◌==◌, ◌∷◌,
  ◌≡◌, ◌≤◌,
}
use monty_pod.Transfer.Download.{
  Attempt, ContentLength, Fault, Outcome, RangeTotal, Reply, Response, Transfer, answered,
  append_body, attempt, complete, ending, exhausted_by, faulted, fetched, framed_length, gave_up,
  is_torn, length_of, malformed_length, malformed_total, next_state, no_length, or_some, partial,
  reached, reached_by, request_error, restart, restart_required, resume, resume_range, resumed_body,
  retry, same_version, size_of, span_of, span_total, star, total_of, unreachable, whole_body,
}

-- What a header says of a length `n`, if anything.
abbrev pub LengthIs : ContentLength → ℕ → Type 0
LengthIs no_length n = Unit
LengthIs malformed_length n = Unit
LengthIs (length_of m) n = m ≡ n

abbrev pub TotalIs : RangeTotal → ℕ → Type 0
TotalIs star n = Unit
TotalIs malformed_total n = Unit
TotalIs (total_of m) n = m ≡ n

abbrev pub TotalMay : Option ℕ → ℕ → Type 0
TotalMay none n = Unit
TotalMay (some m) n = m ≡ n

-- An origin whose object has the bytes `obj e` in the version of ETag `e`: a full response begins
-- as the object does, a part is the bytes of the object at the place that its header names, either
-- may be cut off, the headers tell the length of the object or nothing, and any other status says
-- nothing of the object.
pub data Honest (obj : String → List ℕ) (r : Response) : Type 0 where
  sends_whole :
      (e : String) (rest : List ℕ)
      → r.status ≡ 200
      → r.encoded ≡ false
      → r.etag ≡ some e
      → r.body ++ rest ≡ obj e
      → LengthIs r.content_length (length (obj e))
      → Honest obj r
  sends_part :
      (e : String) (before rest : List ℕ) (last : ℕ) (total : RangeTotal)
      → r.status ≡ 206
      → r.etag ≡ some e
      → r.content_range ≡ span_of true (length before) last total
      → before ++ (r.body ++ rest) ≡ obj e
      → TotalIs total (length (obj e))
      → Honest obj r
  sends_other : (r.status == 200) ≡ false → (r.status == 206) ≡ false → Honest obj r

abbrev pub HonestReply : (String → List ℕ) → Reply → Type 0
HonestReply obj unreachable = Unit
HonestReply obj (answered r) = Honest obj r

-- The file is absent, or the beginning of the one version that is pinned.
pub data Prefix (obj : String → List ℕ) (s : Transfer) : Type 0 where
  no_file : s.file ≡ none → Prefix obj s
  begun :
      (e : String) (b rest : List ℕ)
      → s.file ≡ some b
      → s.pinned_etag ≡ some e
      → b ++ rest ≡ obj e
      → TotalMay s.pinned_total (length (obj e))
      → Prefix obj s

abbrev pub Enough : Option ℕ → ℕ → Type 0
Enough none n = Unit
Enough (some t) n = t ≤ n

abbrev EnoughAttempt : Attempt × Transfer → Type 0
EnoughAttempt (complete, s) = Enough s.pinned_total (size_of s.file)
EnoughAttempt (partial, s) = Unit
EnoughAttempt (faulted f, s) = Unit

-- An attempt that is complete has put the bytes on disk that are pinned.
record FullAttempt (r : Attempt × Transfer) : Type 0 where
  full : EnoughAttempt r

abbrev pub Full : Outcome × Transfer → Type 0
Full (fetched, s) = Enough s.pinned_total (size_of s.file)
Full (gave_up, s) = Unit

pub same_front : (b c x y : List ℕ) → b ++ x ≡ c ++ y → length b ≡ length c → b ≡ c
same_front [] [] x y e l = refl
same_front [] (k ∷ c) x y e l = absurd (omega arith)
same_front (n ∷ b) [] x y e l = absurd (omega arith)
same_front (n ∷ b) (k ∷ c) x y e l =
    let ih = same_front b c x y (tail-eq_of_cons-eq e) (omega arith) in cc

pub no_more : (b rest : List ℕ) → length (b ++ rest) ≤ length b → b ++ rest ≡ b
no_more [] [] h = refl
no_more [] (n ∷ rest) h = absurd (omega arith)
no_more (n ∷ b) rest h = ap (λ xs. n ∷ xs) (no_more b rest (omega arith))

reached-Enough :
    (t : Option ℕ) (s : Transfer)
    → t ≡ s.pinned_total
    → EnoughAttempt (reached_by t (size_of s.file), s)
reached-Enough none s e = subst (λ x. Enough x (size_of s.file)) e tt
reached-Enough (some t) s e = elim (Bool-cases (leb t (size_of s.file))) [
  | inl enough ↦
      rw enough (subst (λ x. Enough x (size_of s.file)) e (leb→le t (size_of s.file) enough))
  | inr short ↦ rw short tt
]

reached-FullAttempt : (s : Transfer) → FullAttempt (reached s, s)
reached-FullAttempt s = record { full = reached-Enough s.pinned_total s refl }

faulted-FullAttempt : (f : Fault) (s : Transfer) → FullAttempt (faulted f, s)
faulted-FullAttempt f s = record { full = tt }

exhausted-Full : (t : Option ℕ) (s : Transfer) → t ≡ s.pinned_total → Full (exhausted_by t s)
exhausted-Full none s e = subst (λ x. Enough x (size_of s.file)) e tt
exhausted-Full (some t) s e = elim (Bool-cases (ltb (size_of s.file) t)) [
  | inl short ↦ rw short tt
  | inr enough ↦ rw enough (subst (λ x. Enough x (size_of s.file)) e (ground (arith)))
]

framed-TotalMay : (l : ContentLength) (n : ℕ) → LengthIs l n → TotalMay (framed_length false l) n
framed-TotalMay no_length n h = tt
framed-TotalMay malformed_length n h = tt
framed-TotalMay (length_of m) n h = h

pub span_total-TotalMay :
    (first last have n : ℕ) (total : RangeTotal) (pinned : Option ℕ) {a b : ℕ} {c : Option ℕ}
    → resume_range (span_of true first last total) have pinned ≡ some (a, b, c)
    → TotalIs total n
    → (first ≡ have) × TotalMay c n
unfolding resume_range span_total
span_total-TotalMay first last have n star pinned {c = c} e h =
    let no_total : none ≡ c = ground arith in (ground arith, subst (λ x. TotalMay x n) no_total tt)
span_total-TotalMay first last have n malformed_total pinned {c = c} e h =
    let no_total : none ≡ c = ground arith in (ground arith, subst (λ x. TotalMay x n) no_total tt)
span_total-TotalMay first last have n (total_of t) pinned {c = c} e h =
    let told : some t ≡ c = ground arith in (ground arith, subst (λ x. TotalMay x n) told h)

resumed_body-Full :
    (r : Response) (span : Option (ℕ × ℕ × Option ℕ)) (s : Transfer)
    → FullAttempt (resumed_body r span s)
resumed_body-Full r none s = faulted-FullAttempt restart_required s
resumed_body-Full r (some (first, last, total)) s =
    let t = append_body r total s in
    elim (Bool-cases (same_version s.pinned_etag r.etag)) [
      | inr other ↦ rw other (faulted-FullAttempt restart_required s)
      | inl same ↦ elim (Bool-cases r.cut) [
        | inl stopped ↦ rw (same, stopped) (faulted-FullAttempt request_error t)
        | inr ended ↦ elim (Bool-cases (ltb (last - first + 1) (length r.body))) [
          | inl over ↦ rw (same, ended, over) (faulted-FullAttempt restart_required t)
          | inr within ↦ rw (same, ended, within) (reached-FullAttempt t)
        ]
      ]
    ]

resume-Full : (r : Response) (have : ℕ) (s : Transfer) → FullAttempt (resume r have s)
unfolding resume
resume-Full r have s = elim (Bool-cases r.encoded) [
  | inl coded ↦ rw (coded, resume) (faulted-FullAttempt restart_required s)
  | inr plain ↦ rw (plain, resume) (resumed_body-Full r _ s)
]

restart-Full : (r : Response) (s : Transfer) → FullAttempt (restart r s)
unfolding restart
restart-Full r s =
    let t = whole_body r s in
    elim (Bool-cases (r.status == 200)) [
      | inr other ↦ rw (other, restart) (faulted-FullAttempt restart_required s)
      | inl whole ↦ elim (Bool-cases r.cut) [
        | inl stopped ↦ rw (whole, stopped, restart) (faulted-FullAttempt request_error t)
        | inr ended ↦ elim (Bool-cases (is_torn t.pinned_total (length r.body))) [
          | inl torn ↦
              rw (whole, ended, torn, restart)
                (faulted-FullAttempt request_error (record t { file = none }))
          | inr fits ↦ rw (whole, ended, fits, restart) (reached-FullAttempt t)
        ]
      ]
    ]

attempt-Full : (reply : Reply) (have : ℕ) (s : Transfer) → FullAttempt (attempt reply have s)
unfolding attempt
attempt-Full unreachable have s = faulted-FullAttempt request_error s
attempt-Full (answered r) have s = elim (Bool-cases (r.status == 416)) [
  | inl past ↦ rw (past, attempt) (faulted-FullAttempt restart_required s)
  | inr there ↦ elim (Bool-cases (leb 400 r.status && ltb r.status 600)) [
    | inl bad ↦ rw (there, bad, attempt) (faulted-FullAttempt request_error s)
    | inr fine ↦ elim (Bool-cases (r.status == 206)) [
      | inr whole ↦ rw (there, fine, whole, attempt) (restart-Full r s)
      | inl part ↦ elim (Bool-cases (have == 0)) [
        | inl unasked ↦
            rw (there, fine, part, unasked, attempt) (faulted-FullAttempt restart_required s)
        | inr asked ↦ rw (there, fine, part, asked, attempt) (resume-Full r have s)
      ]
    ]
  ]
]

ending-Full :
    (last : Bool) (r : Attempt × Transfer) (rest : Outcome × Transfer)
    → FullAttempt r
    → Full rest
    → Full (ending last r rest)
ending-Full last (complete, s) rest h k = h.full
ending-Full last (partial, s) rest h k = k
ending-Full true (faulted f, s) rest h k = tt
ending-Full false (faulted f, s) rest h k = k

pub retry-Full : (i n : ℕ) (replies : ℕ → Reply) (s : Transfer) → Full (retry i n replies s)
unfolding retry
retry-Full i zero replies s = exhausted-Full s.pinned_total s refl
retry-Full i (suc n) replies s =
    let have = if i == 0 then 0 else size_of s.file in
    ending-Full (n == 0) (attempt (replies i) have s) _ (attempt-Full (replies i) have s)
      (retry-Full (i + 1) n replies (next_state (attempt (replies i) have s)))

module _ (obj : String → List ℕ) where
  whole_body-Prefix :
      (r : Response) (s : Transfer) (e : String) (rest : List ℕ)
      → r.encoded ≡ false
      → r.etag ≡ some e
      → r.body ++ rest ≡ obj e
      → LengthIs r.content_length (length (obj e))
      → Prefix obj (whole_body r s)
  whole_body-Prefix r s e rest plain tag begins told =
      begun e r.body rest refl (ap (λ x. or_some x s.pinned_etag) tag) begins (
        subst (λ x. TotalMay (framed_length x r.content_length) (length (obj e))) (sym plain)
          (framed-TotalMay r.content_length (length (obj e)) told))

  pub restart-Prefix :
      (r : Response) (s : Transfer) → Honest obj r → Prefix obj s → Prefix obj (restart r s).1
  unfolding restart
  restart-Prefix r s (sends_whole e rest ok plain tag begins told) h =
      let t = whole_body-Prefix r s e rest plain tag begins told in
      elim (Bool-cases r.cut) [
        | inl stopped ↦ rw (ok, stopped, restart) t
        | inr ended ↦ elim (Bool-cases (is_torn (whole_body r s).pinned_total (length r.body))) [
          | inl torn ↦ rw (ok, ended, torn, restart) (no_file refl)
          | inr fits ↦ rw (ok, ended, fits, restart) t
        ]
      ]
  restart-Prefix r s (sends_part e before rest last total part tag range begins told) h =
      rw (part, restart) h
  restart-Prefix r s (sends_other a b) h = rw (a, restart) h
