-- ===== src/Transfer/Placed.antt =====
-- The bytes that are in the temporary file of a parallel download, and what a write changes of them.
use mathlib.Core.List.{append_assoc}
use monty_pod.Common.{
  Bool, Bool-cases, List, Option, String, [], ap, arith, eq_iff, false, inl, inr, length,
  length-append, none, not, refl, some, subst, suc, sym, true, zero, ℕ, ◌&&◌, ◌++◌, ◌+◌, ◌-◌, ◌==◌,
  ◌∙◌, ◌∷◌, ◌≡◌, ◌≤◌,
}
use monty_pod.Transfer.Ranged.{is_etag, is_exact_range, is_part, over, write_at, zeros}
use monty_pod.Transfer.Integrity.{no_more, same_front}
use monty_pod.Transfer.Download.{RangeTotal, Response, malformed_total, span_of, star, total_of}

length-over :
    (body file : List ℕ) → length body ≤ length file → length (over body file) ≡ length file
unfolding over
length-over [] file h = refl
length-over (b ∷ body) [] h = absurd (omega arith)
length-over (b ∷ body) (f ∷ file) h = let ih = length-over body file (omega arith) in omega arith

over-front :
    (body file : List ℕ)
    → length body ≤ length file
    → (rest : List ℕ) × (over body file ≡ body ++ rest)
unfolding over
over-front [] file h = (file, refl)
over-front (b ∷ body) [] h = absurd (omega arith)
over-front (b ∷ body) (f ∷ file) h =
    let (rest, e) = over-front body file (omega arith) in (rest, ap (λ xs. b ∷ xs) e)

length-zeros : (n : ℕ) → length (zeros n) ≡ n
unfolding zeros
length-zeros zero = refl
length-zeros (suc n) = let ih = length-zeros n in omega arith

write_at-append :
    (front body file : List ℕ)
    → write_at (length front) body (front ++ file) ≡ front ++ over body file
unfolding write_at
write_at-append [] body file = refl
write_at-append (f ∷ front) body file = ap (λ xs. f ∷ xs) (write_at-append front body file)

and-both : (a b : Bool) → (a && b) ≡ true → (a ≡ true) × (b ≡ true)
and-both true b h = (refl, h)
and-both false b h = absurd (ground (arith))

-- The temporary file has its length, and the bytes of the whole object before `at`.
pub data Placed (whole : List ℕ) (at total : ℕ) (file : List ℕ) : Type 0 where
  placed :
      (front post more : List ℕ)
      → length front ≡ at
      → front ++ more ≡ whole
      → file ≡ front ++ post
      → length file ≡ total
      → Placed whole at total file

pub written-Placed :
    (whole : List ℕ) (first total : ℕ) (file body rest before : List ℕ)
    → length before ≡ first
    → before ++ (body ++ rest) ≡ whole
    → length whole ≡ total
    → Placed whole first total file
    → Placed whole (first + length body) total (write_at first body file)
written-Placed whole first total file body rest before here part told
      (placed front post more at begins is_file size) =
    let same : before ≡ front =
      same_front before front (body ++ rest) more (part ∙ sym begins) (here ∙ sym at) in
    let all : length front + (length body + length rest) ≡ total =
      ap (λ n. length front + n) (sym (length-append body rest))
      ∙ sym (length-append front (body ++ rest))
      ∙ ap (λ xs. length (xs ++ (body ++ rest))) (sym same)
      ∙ ap length part
      ∙ told in
    let held : length front + length post ≡ total =
      sym (length-append front post) ∙ ap length (sym is_file) ∙ size in
    let (beyond, over_post) = over-front body post (omega arith) in
    let written : write_at first body file ≡ front ++ over body post =
      ap (λ n. write_at n body file) (sym at)
      ∙ ap (write_at (length front) body) is_file
      ∙ write_at-append front body post in
    let kept : length (over body post) ≡ length post = length-over body post (omega arith) in
    placed (front ++ body) beyond rest (length-append front body ∙ ap (λ n. n + length body) at)
      (append_assoc front body rest ∙ ap (λ xs. xs ++ (body ++ rest)) (sym same) ∙ part)
      (written ∙ ap (λ xs. front ++ xs) over_post ∙ sym (append_assoc front body beyond))
      (ap length written
        ∙ length-append front (over body post)
        ∙ ap (λ n. length front + n) kept
        ∙ held)

pub zeros-Placed : (whole : List ℕ) (total : ℕ) → Placed whole 0 total (zeros total)
zeros-Placed whole total = placed [] (zeros total) whole refl refl refl (length-zeros total)

pub all-Placed :
    (whole file : List ℕ) (total : ℕ)
    → length whole ≡ total
    → Placed whole total total file
    → file ≡ whole
all-Placed whole file total told (placed front post more at begins is_file size) =
    let none_more : front ++ more ≡ front =
      no_more front more
        (subst (λ n. n ≤ length front) (sym (ap length begins ∙ told)) (omega arith)) in
    let none_after : front ++ post ≡ front =
      no_more front post
        (subst (λ n. n ≤ length front) (sym (ap length (sym is_file) ∙ size)) (omega arith)) in
    is_file ∙ none_after ∙ sym none_more ∙ begins

pub exact_range-fields :
    (a b first last total : ℕ) (u : Bool) (t : RangeTotal)
    → is_exact_range (span_of u a b t) first last total ≡ true
    → (a ≡ first) × (b ≡ last) × (t ≡ total_of total)
exact_range-fields a b first last total u star h = absurd (ground (arith))
exact_range-fields a b first last total u malformed_total h = absurd (ground (arith))
exact_range-fields a b first last total u (total_of t) h =
    let (h1, z) = and-both (u && a == first && b == last) (t == total) h in
    let (h2, y) = and-both (u && a == first) (b == last) h1 in
    let (_, x) = and-both u (a == first) h2 in
    (ground (arith), ground (arith), ap total_of (ground (arith)))

pub same_etag :
    (tag : Option String) (e etag : String) → tag ≡ some e → is_etag tag etag ≡ true → e ≡ etag
same_etag none e etag h k = absurd (cc)
same_etag (some a) e etag h k = let same : a ≡ etag = (eq_iff a etag).0 k in cc

-- What an attempt at a part, and the attempts at it, leave.
abbrev pub Left : List ℕ → ℕ → ℕ → ℕ → Bool × List ℕ → Type 0
Left whole first last total (true, file) =
    (length whole ≡ total) × Placed whole (last + 1) total file
Left whole first last total (false, file) = Placed whole first total file

pub is_part-fields :
    (r : Response) (first last total : ℕ) (etag : String)
    → is_part r first last total etag ≡ true
    → (r.status ≡ 206)
      × (is_etag r.etag etag ≡ true)
      × (is_exact_range r.content_range first last total ≡ true)
unfolding is_part
is_part-fields r first last total etag h =
    let (h1, range) =
      and-both (r.status == 206 && not r.encoded && is_etag r.etag etag)
        (is_exact_range r.content_range first last total) h in
    let (h2, tag) = and-both (r.status == 206 && not r.encoded) (is_etag r.etag etag) h1 in
    let (ok, _) = and-both (r.status == 206) (not r.encoded) h2 in (ground (arith), tag, range)

-- An attempt whose answer is whole has written the last byte of its part.
pub written-Left :
    (whole : List ℕ) (first last total n : ℕ) (cut : Bool) (file : List ℕ)
    → first ≤ last
    → Placed whole first total file
    → (length whole ≡ total) × Placed whole (first + n) total file
    → Left whole first last total (not cut && n == last - first + 1, file)
written-Left whole first last total n cut file order before (told, after) =
    elim (Bool-cases (not cut && n == last - first + 1)) [
      | inl done ↦
          let (_, size) = and-both (not cut) (n == last - first + 1) done in
          let next : first + n ≡ last + 1 = ground (arith) in
          rw done (told, subst (λ at. Placed whole at total file) next after)
      | inr short ↦ rw short before
    ]

cut_at : (n : ℕ) (xs : List ℕ) → n ≤ length xs → (a b : List ℕ) × (xs ≡ a ++ b) × (length a ≡ n)
cut_at zero xs h = ([], xs, refl, refl)
cut_at (suc n) [] h = absurd (omega arith)
cut_at (suc n) (x ∷ xs) h =
    let (a, b, e, l) = cut_at n xs (omega arith) in (x ∷ a, b, ap (λ ys. x ∷ ys) e, omega arith)

pub fewer-Placed :
    (whole : List ℕ) (first n total : ℕ) (file : List ℕ)
    → Placed whole (first + n) total file
    → Placed whole first total file
fewer-Placed whole first n total file (placed front post more at begins is_file size) =
    let (a, b, e, l) = cut_at first front (omega arith) in
    placed a (b ++ post) (b ++ more) l
      (sym (append_assoc a b more) ∙ ap (λ xs. xs ++ more) (sym e) ∙ begins)
      (is_file ∙ ap (λ xs. xs ++ post) e ∙ append_assoc a b post) size
