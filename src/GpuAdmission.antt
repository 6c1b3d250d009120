-- ===== src/GpuAdmission.antt =====
-- podagent/ops/gpu_admission.py: the ledger of VRAM reservations. Each function here is one
-- critical section of the module (one `with _cond`), so that threads interleave between them.
-- MiB and seconds are whole numbers, as every constant of the module is.
pub mod System
pub mod Invariant
pub mod Budget
pub mod Order
pub mod Keep
pub mod Turns
pub mod Safety
pub mod Fairness
pub mod Admission
pub mod Deadline
mod Tests
use monty_pod.Common.{
  Bool, List, Option, [], false, head?, if◌then◌else◌, is_empty, is_some, leb, length, ltb, max,
  min, none, not, some, tail, true, ℕ, ◌&&◌, ◌*◌, ◌++◌, ◌+◌, ◌-◌, ◌==◌, ◌∷◌,
}

abbrev pub heavy_op_ceiling_s : ℕ
heavy_op_ceiling_s = 140

abbrev pub heavy_park_ceiling_s : ℕ
heavy_park_ceiling_s = 4 * heavy_op_ceiling_s

abbrev pub max_parked : ℕ
max_parked = 8

abbrev pub nvenc_session_mib : ℕ
nvenc_session_mib = 960

-- `infer_cliprank._VRAM_RESERVE_MB`
abbrev pub vram_reserve_mb : ℕ
vram_reserve_mb = 512

-- The module's globals. `next` numbers the token objects, so a later `object()` is a larger one.
pub record Ledger : Type 0 where
  pub queue : List ℕ
  pub live : List (ℕ × ℕ)
  pub holders : List ℕ
  pub budget : Option ℕ
  pub pinned : Bool
  pub next : ℕ

-- What a thread inside `reserve` keeps in its local variables.
pub record Waiter : Type 0 where
  pub token : ℕ
  pub need : ℕ
  pub budget : ℕ
  pub deadline : ℕ
  pub position : ℕ
  pub ahead : ℕ
  pub admitted : ℕ

pub data Refusal : Type 0 where
  outside_budget too_many_parked holds_already : Refusal

pub data Entry : Type 0 where
  refused : Refusal → Entry
  queued : Waiter → Bool → Entry

-- One pass of the waiting loop: the reservation is made, the deadline is over, or the wait goes on.
pub data Turn : Type 0 where
  reserved timed_out waiting : Turn

abbrev pub reset_for_tests : Option ℕ → Ledger
reset_for_tests budget = record {
  queue = [];
  live = [];
  holders = [];
  budget = budget;
  pinned = is_some budget;
  next = 0;
}

-- `read` is what `_free_vram_mb()` answers, if it is asked.
pub measure_budget : Option ℕ → Option ℕ → ℕ
measure_budget (some free) read = max (free - vram_reserve_mb) nvenc_session_mib
measure_budget none (some free) = max (free - vram_reserve_mb) nvenc_session_mib
measure_budget none none = nvenc_session_mib

-- The second half of `budget_mib`: the first write wins.
pub store_budget : ℕ → Ledger → Ledger × ℕ
store_budget measured l = elim l.budget [
  | none ↦ (record l { budget = some measured }, measured)
  | some b ↦ (l, b)
]

pub budget_mib : Option ℕ → Ledger → Ledger × ℕ
unfolding store_budget measure_budget
budget_mib read l = elim l.budget [
  | none ↦ store_budget (measure_budget none read) l
  | some b ↦ (l, b)
]

abbrev pub is_idle : Ledger → Bool
is_idle l = is_empty l.live && is_empty l.queue

-- The first half of `refresh_budget`: the cached budget, when the card is not to be read.
pub refresh_cached : Ledger → Option ℕ
refresh_cached l = elim l.budget [
  | none ↦ none
  | some b ↦ if l.pinned then some b else if is_idle l then none else some b
]

-- The write at the end of `refresh_budget`: only if nothing is cached, or the ledger is still idle.
pub store_if_idle : ℕ → Ledger → Ledger × ℕ
store_if_idle measured l = elim l.budget [
  | none ↦ (record l { budget = some measured }, measured)
  | some b ↦
      if is_idle l && not l.pinned then (record l { budget = some measured }, measured) else (l, b)
]

-- The rest of `refresh_budget`: `cached` is what its first section saw, `read` its own reading and
-- `reread` that of `_measure_budget`, which asks again where the first one failed.
pub refresh_store : Option ℕ → Option ℕ → Option ℕ → Ledger → Ledger × ℕ
unfolding store_if_idle measure_budget
refresh_store (some c) none reread l = (l, c)
refresh_store none none reread l = store_if_idle (measure_budget none reread) l
refresh_store cached (some free) reread l = store_if_idle (measure_budget (some free) reread) l

pub live_mib : List (ℕ × ℕ) → ℕ
live_mib [] = 0
live_mib ((_, mib) ∷ live) = mib + live_mib live

pub park_deadline_s : ℕ → ℕ → ℕ
park_deadline_s ahead admitted =
    min (max (ahead + admitted) 1 * heavy_op_ceiling_s) heavy_park_ceiling_s

-- Head of the queue, and the need fits beside the live reservations. (A waiting thread's token is
-- in the queue, so `_queue[0]` exists.)
pub is_admissible : ℕ → ℕ → ℕ → Ledger → Bool
unfolding live_mib
is_admissible token need budget l = elim (head? l.queue) [
  | none ↦ false
  | some t ↦ t == token && leb (live_mib l.live + need) budget
]

abbrev pub get_or {ℓ} : {A : Type ℓ} → Option A → A → A
get_or none d = d
get_or (some a) d = a

-- The first section of `reserve`, entered with the budget that `budget_mib` returned. The flag
-- says that the waiter must park, so `on_park` is called.
pub enter : ℕ → Option ℕ → Option ℕ → ℕ → Ledger → Entry × Ledger
unfolding is_admissible park_deadline_s
enter budget need_mib deadline_s started l =
    let need = get_or need_mib budget in
    let ahead = length l.queue in
    let admitted = length l.live in
    let token = l.next in
    let wall = get_or deadline_s (park_deadline_s ahead admitted) in
    let l' = record l { queue = l.queue ++ token ∷ []; next = token + 1 } in
    let w : Waiter = record {
      token = token;
      need = need;
      budget = budget;
      deadline = started + wall;
      position = ahead + 1;
      ahead = ahead;
      admitted = admitted;
    } in
    if not (ltb 0 need && leb need budget)
    then (refused outside_budget, l)
    else if leb max_parked ahead
    then (refused too_many_parked, l)
    else (queued w (not (is_admissible token need budget l')), l')

-- `_live[token] = need_mib`
pub assign : ℕ → ℕ → List (ℕ × ℕ) → List (ℕ × ℕ)
assign token mib [] = (token, mib) ∷ []
assign token mib ((t, m) ∷ live) =
    if t == token then (token, mib) ∷ live else (t, m) ∷ assign token mib live

-- One pass of the loop of `reserve`, at the time `now`.
pub take_turn : ℕ → Waiter → Ledger → Turn × Ledger
unfolding is_admissible assign
take_turn now w l =
    if is_admissible w.token w.need w.budget l
    then (reserved, record l { queue = tail l.queue; live = assign w.token w.need l.live })
    else if leb w.deadline now
    then (timed_out, l)
    else (waiting, l)

pub remove : ℕ → List ℕ → List ℕ
remove token [] = []
remove token (t ∷ queue) = if t == token then queue else t ∷ remove token queue

-- The `except` of `reserve`: any unwind drops the token.
pub unwind : ℕ → Ledger → Ledger
unfolding remove
unwind token l = record l { queue = remove token l.queue }

pub pop : ℕ → List (ℕ × ℕ) → List (ℕ × ℕ)
pop token [] = []
pop token ((t, m) ∷ live) = if t == token then live else (t, m) ∷ pop token live

pub release : ℕ → Ledger → Ledger
unfolding pop
release token l = record l { live = pop token l.live }

abbrev pub holds : ℕ → List ℕ → Bool
holds me [] = false
holds me (h ∷ holders) = if h == me then true else holds me holders

-- The sections of `admission` around its calls of `refresh_budget`, `reserve` and `release`.
pub refuses_holder : ℕ → Ledger → Bool
refuses_holder me l = holds me l.holders

pub hold : ℕ → Ledger → Ledger
hold me l = if holds me l.holders then l else record l { holders = me ∷ l.holders }

pub leave : ℕ → Ledger → Ledger
unfolding remove
leave me l = record l { holders = remove me l.holders }
