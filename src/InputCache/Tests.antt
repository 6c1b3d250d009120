-- ===== src/InputCache/Tests.antt =====
-- An account of three slots: the oldest one is retained.
use Prim.Native.String.{String}
use monty_pod.Common.{
  Bool, List, [], arith, contains, erase, false, if◌then◌else◌, insert, lookup, refl, select, some,
  str_eq, string_eq, true, ℕ, ◌∷◌, ◌≡◌, ◌≤◌,
}
use monty_pod.InputCache.{Account, Row, batch_from, drop, oldest_batch, put}
use monty_pod.InputCache.Balance.{IsBalanced, bytes_of, retained_of}
use monty_pod.InputCache.Evict.{
  Evicting, evict_batch, evict_over, evict_rounds, evict_slot, try_names,
}
use monty_pod.InputCache.Fits.{IsEvicted, evict_fits}
use monty_pod.InputCache.Load.{
  Scanned, insert_scanned, load_account, put_live, put_scanned, sorted_scanned,
}
use monty_pod.InputCache.Reconciled.{load_keeps_changes, scan_row}
use monty_pod.InputCache.Retention.{
  Retaining, adopt_local, already, release_superseded, retain, retained_bytes, retaining,
  retaining_all,
}
use monty_pod.InputCache.Ceiling.{retained_within_ceiling}

abbrev slot_row : ℕ → Bool → Row
slot_row n kept = record { bytes = n; retained = kept }

abbrev three_slots : Account
three_slots = record {
  rows = ("a", slot_row 30 true) ∷ ("b", slot_row 20 false) ∷ ("c", slot_row 10 false) ∷ [];
  total = 60;
  held = 30;
  reconciling = true;
  touched = [];
}

three_slots-IsBalanced : IsBalanced three_slots
unfolding bytes_of retained_of lookup
three_slots-IsBalanced = record {
  distinct = (refl, (refl, (refl, tt)));
  sum = refl;
  held_sum = refl;
}

-- The retained row stays, and the slot "b" is enough.
oldest_goes_first : oldest_batch three_slots 45 [] ≡ ("b", 20) ∷ []
unfolding oldest_batch batch_from contains
oldest_goes_first = refl

-- Another thread locks the slot "b".
abbrev full_cache : Evicting
full_cache = record { account = three_slots; disk = three_slots.rows; freed = 0 }

abbrev in_use : String → Bool
in_use name = str_eq name "b"

evict_fits_example :
    (next : Evicting) × (evict_over in_use (λ name. false) 45 full_cache ≡ some next)
    × IsEvicted in_use (λ name. false) 45 full_cache next
evict_fits_example =
    evict_fits in_use (λ name. false) 45 full_cache three_slots-IsBalanced (λ j. refl)

-- The locked slot is passed over, and the next one goes.
locked_slot_stays :
    evict_over in_use (λ name. false) 45 full_cache
    ≡ some (record {
      account = record (three_slots) {
        rows = ("a", slot_row 30 true) ∷ ("b", slot_row 20 false) ∷ [];
        total = 50;
        touched = "c" ∷ [];
      };
      disk = ("a", slot_row 30 true) ∷ ("b", slot_row 20 false) ∷ [];
      freed = 10;
    })
unfolding evict_over evict_rounds oldest_batch batch_from contains evict_batch evict_slot try_names
    lookup erase put drop
locked_slot_stays = refl

-- A walk that has found an older "c", and a slot that the account did not know.
abbrev walk : List Scanned
walk =
    record { mtime = 3; name = "c"; row = slot_row 4 false }
    ∷ record { mtime = 1; name = "d"; row = slot_row 7 false }
    ∷ record { mtime = 2; name = "a"; row = slot_row 30 true }
    ∷ []

abbrev changed_slots : Account
changed_slots = record (three_slots) { touched = "c" ∷ "e" ∷ [] }

load_keeps_changes_example :
    IsBalanced (load_account walk changed_slots)
    × ((j : String)
        → lookup j (load_account walk changed_slots).rows
          ≡ (if contains j ("c" ∷ "e" ∷ []) then lookup j three_slots.rows else scan_row j walk))
unfolding scan_row
load_keeps_changes_example = load_keeps_changes walk changed_slots (refl, (refl, (refl, tt)))

loaded_slots : load_account walk changed_slots ≡ record {
  rows = ("d", slot_row 7 false) ∷ ("a", slot_row 30 true) ∷ ("c", slot_row 10 false) ∷ [];
  total = 47;
  held = 30;
  reconciling = false;
  touched = [];
}
unfolding load_account sorted_scanned insert_scanned put_scanned put_live put drop contains lookup
    erase
loaded_slots = refl

abbrev retain_master : String → ℕ → Retaining
retain_master scope n = retain (λ k. false) true (scope, "master.mp4") "worker" n

-- Two runs of a master, a file that is too much beside it, and another that fits.
abbrev retainings : List Retaining
retainings =
    retain_master "run1" 60
    ∷ retain_master "run2" 70
    ∷ retain (λ k. false) true ("run2", "clip.mp4") "worker" 40
    ∷ retain (λ k. false) true ("run2", "sheet.png") "worker" 20
    ∷ []

second_run_stays :
    retaining_all 100 retainings []
    ≡ (("run2", "master.mp4"), record { holder = "worker"; bytes = 70 })
      ∷ (("run2", "sheet.png"), record { holder = "worker"; bytes = 20 })
      ∷ []
unfolding retaining_all retaining adopt_local release_superseded retained_bytes already insert erase
    lookup select
second_run_stays = refl

retained_within_ceiling_example : retained_bytes (retaining_all 100 retainings []) ≤ 100
unfolding retained_bytes
retained_within_ceiling_example = retained_within_ceiling 100 retainings [] (omega arith)
