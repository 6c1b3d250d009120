-- ===== src/EventStream/Handout.antt =====
-- What a claim may hand out.
use Prim.Native.String.{String}
use monty_pod.Common.{Has, List, Option, contains, lookup, none, some, string_eq, true, ◌≡◌}
use monty_pod.StreamModels.{Job}
use monty_pod.EventStream.State.{JobItem, Stream, queued_delivery}
use monty_pod.EventStream.Connection.{Claimed, job, nothing, refused}

-- The job `j` of delivery `id` is handed out of the inbox of `s`, and claimed in `t`.
pub record Handed (j : Job) (s t : Stream) : Type 0 where
  pub id : String
  pub held : lookup id s.live.inbox ≡ some j
  pub announced : Has (queued_delivery id) s.jobs
  pub claimed : contains id t.claimed_ids ≡ true
  pub inbox_kept : t.live ≡ s.live

abbrev job_of : Claimed → Option Job
job_of nothing = none
job_of (job j) = some j
job_of (refused e) = none

module _ (s : Stream) (j : Job) where
  abbrev HandedFrom : List JobItem → Stream → Type 0
  HandedFrom items t =
      (id : String) × (lookup id s.live.inbox ≡ some j)
      × Has (queued_delivery id) items
      × (contains id t.claimed_ids ≡ true)
      × (t.live ≡ s.live)
