-- ===== src/InputCache/Fits.antt =====
-- The eviction comes to its end, and what it leaves.
use monty_pod.Common.{
  Bool, Bool-cases, Has, List, String, [], all, ap, arith, contains, eq_iff, eqb, false, inl, inr,
  leb, length, length-select, lookup, not, refl, some, string_eq, subst, suc, sym, true, true≢false,
  zero, ℕ, ◌-◌, ◌<◌, ◌||◌, ◌∙◌, ◌∷◌, ◌≡◌, ◌≤◌, ◌⊎◌,
}
use monty_pod.InputCache.{Row, oldest_batch}
use monty_pod.InputCache.Evict.{Evicting, evict_batch, evict_over, evict_rounds, try_names}
use monty_pod.InputCache.Batch.{evictable, freed_by, oldest_batch_covers}
use monty_pod.InputCache.Evicted.{Agrees, IsEvicting, IsKept, evict_batch-IsEvicting}
use monty_pod.InputCache.Balance.{IsBalanced}
use monty_pod.InputCache.Untried.{
  batch_from-known, contains-names_of, fewer_untried, names_of, untried,
}

evictable-none :
    (rows : List (String × Row)) (tried : List String) (j : String) (row : Row)
    → evictable rows tried ≡ []
    → lookup j rows ≡ some row
    → (row.retained || contains j tried) ≡ true
unfolding evictable lookup
evictable-none [] tried j row h l = absurd (cc)
evictable-none ((n, r) ∷ rows) tried j row h l =
    elim (Bool-cases (r.retained || contains n tried)) [
      | inr goes ↦
          let clash : (n, r.bytes) ∷ evictable rows tried ≡ [] = rw (goes, evictable) at h in
          absurd (cc)
      | inl kept ↦ elim (Bool-cases (eqb n j)) [
        | inr other ↦
            evictable-none rows tried j row (rw (kept, evictable) at h) (rw (other, lookup) at l)
        | inl same ↦
            let found : some r ≡ some row = rw (same, lookup) at l in
            let value : r ≡ row = cc in
            let key : n ≡ j = (eq_iff n j).0 same in
            subst (λ (z : Row). (z.retained || contains j tried) ≡ true) value
              (subst (λ i. (r.retained || contains i tried) ≡ true) key kept)
      ]
    ]

module _ (busy stuck : String → Bool) (names : List String) (first : List (String × Row))
    (cap : ℕ) where
  -- The last round takes nothing.
  unfoldable IsLast : List String → Evicting → Type 0
  IsLast tried s =
      IsEvicting busy stuck names first tried s × (oldest_batch s.account cap tried ≡ [])

  batch_names :
      (tried : List String) (s : Evicting) (x : String × ℕ)
      → IsEvicting busy stuck names first tried s
      → Has x (oldest_batch s.account cap tried)
      → (contains x.0 names ≡ true) × (contains x.0 tried ≡ false)
  unfolding oldest_batch
  batch_names tried s x v m =
      let (a, b) = batch_from-known s.account.rows (s.account.total - cap) tried x m in
      let c = contains-names_of x.0 s.account.rows in (v.known x.0 (ground (arith)), b)

  abbrev EndsRounds : ℕ → List String → Evicting → Type 0
  EndsRounds n tried s =
      (next : Evicting) × (tried' : List String) × (evict_rounds busy stuck cap n tried s
        ≡ some next)
      × IsLast tried' next

  round-EndsRounds :
      (n : ℕ) (tried : List String) (s : Evicting) (batch : List (String × ℕ))
      → oldest_batch s.account cap tried ≡ batch
      → IsEvicting busy stuck names first tried s
      → untried tried names < suc n
      → ((tried' : List String) (next : Evicting)
          → IsEvicting busy stuck names first tried' next
          → untried tried' names < n
          → EndsRounds n tried' next)
      → EndsRounds (suc n) tried s
  unfolding evict_rounds IsLast
  round-EndsRounds n tried s [] e v few again = (s, tried, rw (e, evict_rounds) refl, (v, e))
  round-EndsRounds n tried s (x ∷ batch) e v few again =
      let known = λ (y : String × ℕ) (m : Has y (x ∷ batch)).
        batch_names tried s y v (subst (Has y) (sym e) m) in
      let (here, fresh) = known x (inl refl) in
      let less = fewer_untried x batch tried names here fresh in
      let (next, tried', got, last) =
        again (try_names (x ∷ batch) tried) (evict_batch busy stuck (x ∷ batch) s)
          (evict_batch-IsEvicting busy stuck names first (x ∷ batch) tried s v
            (λ y m. (known y m).0))
          (omega arith) in
      (next, tried', rw (e, evict_rounds) got, last)

  rounds-EndsRounds :
      (n : ℕ) (tried : List String) (s : Evicting)
      → IsEvicting busy stuck names first tried s
      → untried tried names < n
      → EndsRounds n tried s
  unfolding evict_rounds IsLast
  rounds-EndsRounds zero tried s v few = absurd (omega arith)
  rounds-EndsRounds (suc n) tried s v few =
      round-EndsRounds n tried s (oldest_batch s.account cap tried) refl v few (rounds-EndsRounds n)

-- What an eviction makes of the account and the disk.
pub record IsEvicted (busy stuck : String → Bool) (cap : ℕ) (s next : Evicting) : Type 0 where
  pub balanced : IsBalanced next.account
  pub agrees : Agrees next
  pub fits : (next.account.total ≤ cap) ⊎ ((j : String) → IsKept busy stuck j next.disk)
  pub shrunk : (j : String) (row : Row) → lookup j next.disk ≡ some row → lookup j s.disk ≡ some row
  pub safe :
      (j : String) (row : Row)
      → lookup j s.disk ≡ some row
      → (row.retained || busy j) ≡ true
      → lookup j next.disk ≡ some row

start-IsEvicting :
    (busy stuck : String → Bool) (s : Evicting)
    → IsBalanced s.account
    → Agrees s
    → IsEvicting busy stuck (names_of s.account.rows) s.disk [] s
unfolding contains
start-IsEvicting busy stuck s b a = record {
  balanced = b;
  agrees = a;
  known = λ j m. contains-names_of j s.account.rows ∙ m;
  done = λ j m. absurd (true≢false (sym m));
  shrunk = λ j row l. l;
  safe = λ j row l safe. l;
}

last-IsEvicted :
    (busy stuck : String → Bool) (cap : ℕ) (tried : List String) (s next : Evicting)
    → IsEvicting busy stuck (names_of s.account.rows) s.disk tried next
    → oldest_batch next.account cap tried ≡ []
    → IsEvicted busy stuck cap s next
unfolding freed_by
last-IsEvicted busy stuck cap tried s next v e = record {
  balanced = v.balanced;
  agrees = v.agrees;
  fits = elim (oldest_batch_covers next.account cap tried).1 [
    | inl enough ↦ inl (let f = ap freed_by e in omega arith)
    | inr all ↦ inr (λ j row l.
        let a = evictable-none next.account.rows tried j row (sym all ∙ e) (v.agrees j ∙ l) in
        elim (Bool-cases (contains j tried)) [
          | inl seen ↦ v.done j seen row l
          | inr fresh ↦ ground (arith)
        ])
  ];
  shrunk = v.shrunk;
  safe = v.safe;
}

length-names_of : (rows : List (String × Row)) → length (names_of rows) ≡ length rows
length-names_of [] = refl
length-names_of (x ∷ rows) = let ih = length-names_of rows in omega arith

untried_bound : (tried names : List String) → untried tried names ≤ length names
untried_bound tried names = let h = length-select (λ n. not (contains n tried)) names in omega arith

-- `_evict` comes to its end, with a round for each row of the account and a last one, where the account
-- is balanced and agrees with the disk; it then still is and does. After it, the account fits the cap,
-- or every slot on the disk is retained, locked by another thread, or one that cannot be removed. A
-- slot that is retained or locked is on the disk as before, and no slot comes to be.
pub evict_fits :
    (busy stuck : String → Bool) (cap : ℕ) (s : Evicting)
    → IsBalanced s.account
    → Agrees s
    → (next : Evicting) × (evict_over busy stuck cap s ≡ some next)
      × IsEvicted busy stuck cap s next
unfolding evict_over IsLast
evict_fits busy stuck cap s b a = elim (Bool-cases (leb s.account.total cap)) [
  | inl fits ↦ (
    s,
    rw fits refl,
    record {
      balanced = b;
      agrees = a;
      fits = inl (ground (arith));
      shrunk = λ j row l. l;
      safe = λ j row l safe. l;
    },
  )
  | inr over ↦
      let bound = untried_bound [] (names_of s.account.rows) in
      let size = length-names_of s.account.rows in
      let (next, tried, got, last) =
        rounds-EndsRounds busy stuck (names_of s.account.rows) s.disk cap
          (suc (length s.account.rows)) [] s (start-IsEvicting busy stuck s b a) (omega arith) in
      (next, rw over got, last-IsEvicted busy stuck cap tried s next last.0 last.1)
]
