-- ===== src/Agent/Coordinator.antt =====
-- `RestartCoordinator` and `_drain_pending`. A future stands as its `id`.
use monty_pod.Common.{
  Bool, List, Option, String, [], erase, false, if◌then◌else◌, insert, is_empty, leb, map, nat_eq,
  none, some, string_eq, suc, text_leb, true, zero, ℕ, ◌++◌, ◌||◌, ◌∷◌,
}

pub data Pool : Type 0 where
  ops_pool heavy_pool rank_pool : Pool

pub record Coordinator : Type 0 where
  pub restart : Bool
  pub reason : String
  pub target_pack : String
  pub fault : Bool
  pub infra_class : String
  pub ops_futures : List (ℕ × String)
  pub heavy_futures : List (ℕ × String)
  pub rank_futures : List (ℕ × String)

-- `__init__`
abbrev pub fresh_coordinator : Coordinator
fresh_coordinator = record {
  restart = false;
  reason = "";
  target_pack = "";
  fault = false;
  infra_class = "";
  ops_futures = [];
  heavy_futures = [];
  rank_futures = [];
}

unfoldable pub request_restart : String → String → Coordinator → Coordinator
request_restart reason target c =
    if c.restart then c else record (c) { restart = true; reason = reason; target_pack = target }

unfoldable pub report_infra_fault : String → Coordinator → Coordinator
report_infra_fault error_class c =
    if c.fault then c else record (c) { fault = true; infra_class = error_class }

abbrev pub stop_claiming : Coordinator → Bool
stop_claiming c = c.restart || c.fault

abbrev pub futures_of : Pool → Coordinator → List (ℕ × String)
futures_of ops_pool c = c.ops_futures
futures_of heavy_pool c = c.heavy_futures
futures_of rank_pool c = c.rank_futures

abbrev pub with_futures : Pool → List (ℕ × String) → Coordinator → Coordinator
with_futures ops_pool fs c = record (c) { ops_futures = fs }
with_futures heavy_pool fs c = record (c) { heavy_futures = fs }
with_futures rank_pool fs c = record (c) { rank_futures = fs }

unfoldable pub track : Pool → String → ℕ → Coordinator → Coordinator
unfolding insert
track pool label future c =
    with_futures pool (insert ⦃e = nat_eq⦄ future label (futures_of pool c)) c

-- `_untrack`, the callback of a future that is done
unfoldable pub untrack : Pool → ℕ → Coordinator → Coordinator
unfolding erase
untrack pool future c = with_futures pool (erase ⦃e = nat_eq⦄ future (futures_of pool c)) c

unfoldable pub insert_label : String → List String → List String
insert_label a [] = a ∷ []
insert_label a (b ∷ labels) =
    let rest = insert_label a labels in if text_leb a b then a ∷ b ∷ labels else b ∷ rest

unfoldable pub sorted_labels : List (ℕ × String) → List String
unfolding insert_label
sorted_labels [] = []
sorted_labels ((future, label) ∷ fs) = insert_label label (sorted_labels fs)

abbrev pub entries_of : Pool → Coordinator → List (Pool × List String)
entries_of pool c =
    if is_empty (futures_of pool c) then [] else (pool, sorted_labels (futures_of pool c)) ∷ []

-- The pools with a future that is not done.
unfoldable pub pending_futures : Coordinator → List (Pool × List String)
unfolding sorted_labels
pending_futures c = entries_of ops_pool c ++ (entries_of heavy_pool c ++ entries_of rank_pool c)

unfoldable pub in_flight : List (Pool × List String) → List (Pool × String)
in_flight [] = []
in_flight ((pool, labels) ∷ rows) = map (λ label. (pool, label)) labels ++ in_flight rows

-- `_drain_pending` from its round `i` on; the clock and the coordinator are what round `i` reads.
-- none: the fuel is spent.
unfoldable pub drain_pending :
    (ℕ → ℕ) → (ℕ → Coordinator) → ℕ → ℕ → ℕ → Option (List (Pool × String))
unfolding pending_futures in_flight
drain_pending clock seen deadline zero i = none
drain_pending clock seen deadline (suc n) i =
    let later = drain_pending clock seen deadline n (suc i) in
    if is_empty (pending_futures (seen i))
    then some []
    else if leb deadline (clock i)
    then some (in_flight (pending_futures (seen i)))
    else later
