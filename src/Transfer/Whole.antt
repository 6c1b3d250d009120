-- ===== src/Transfer/Whole.antt =====
-- A download that succeeds with a pinned length is the whole of one version of the object.
use Prim.Native.String.{String}
use monty_pod.Common.{List, Option, none, some, subst, ℕ, ◌-◌, ◌≡◌, ◌≤◌}
use monty_pod.Transfer.Download.{
  Reply, Route, Transfer, after_ranged, download, fetched, single_stream, size_of, xfer_attempts,
}
use monty_pod.Transfer.Integrity.{Enough, Full, retry-Full}

download-Full :
    (route : Route) (replies : ℕ → Reply) (old : Option (List ℕ))
    → Full (download route replies old)
unfolding download
download-Full single_stream replies old = retry-Full 0 xfer_attempts replies _
download-Full (after_ranged total etag) replies old =
    retry-Full 1 (xfer_attempts - 1) replies
      (record { file = none; pinned_total = some total; pinned_etag = some etag })

-- Whatever the origin answers, a call that returns with a pinned length has at least that many
-- bytes on disk.
fetched_has_pinned_length :
    (route : Route) (replies : ℕ → Reply) (old : Option (List ℕ)) (s : Transfer) (n : ℕ)
    → download route replies old ≡ (fetched, s)
    → s.pinned_total ≡ some n
    → n ≤ size_of s.file
fetched_has_pinned_length route replies old s n done_it pin =
    subst (λ x. Enough x (size_of s.file)) pin
      (subst Full done_it (download-Full route replies old))
