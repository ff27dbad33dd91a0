-- ===== src/Pending.antt =====
-- The package `log` (log/log.go): a disk log behind a buffer of records that are not yet synced.
-- A nil `pendingView` is the view with no entries. One writer and one syncer at a time.
pub mod Holds
pub mod Sync
pub mod Durable
pub mod Bounds
pub mod Reads
pub mod Snapshots
pub mod Scans
pub mod Runs
use figwal.Common.{
  ℕ, suc, ◌+◌, ◌-◌, ◌^◌, Bool, true, false, not, ◌&&◌, Option, none, some, List, [], ◌∷◌, ◌++◌, ltb,
  leb, ◌==◌, if◌then◌else◌, length, get_elem?, take, drop,
}
use figwal.Result.{Error, Result, ok, err, empty, not_found, log_read_only, out_of_order, other}
use figwal.Segment.Bytes.{Bytes}
use figwal.Segment.Codec.{SegmentCodec}
use figwal.Disk.State

pub record PendingView : Type 0 where
  pub first : ℕ
  pub entries : List Bytes

pub record Log : Type 0 where
  pub inner : State.Log
  pub chain : List State.Log
  pub max_lag : ℕ
  pub pend : PendingView
  pub pending_bytes : ℕ

-- pendingView.at
unfoldable pub view_at : PendingView → ℕ → Option Bytes
view_at v idx = if ltb idx v.first then none else get_elem? v.entries (idx - v.first)

-- The index behind the view, `last() + 1`, or behind the disk log where the view is empty.
next_behind : State.Log → ℕ → List Bytes → ℕ
next_behind inner first [] = State.last_index_log inner + 1
next_behind inner first (p ∷ ps) = first + length (p ∷ ps)

unfoldable pub next_index : Log → ℕ
unfolding next_behind
next_index l = next_behind l.inner l.pend.first l.pend.entries

pushed : ℕ → List Bytes → Bytes → ℕ → PendingView
pushed first [] p idx = record { first = idx; entries = p ∷ [] }
pushed first (q ∷ ps) p idx = record { first = first; entries = (q ∷ ps) ++ (p ∷ []) }

-- `write`: the record joins the view.
unfoldable pub write_pending : Log → ℕ → Bytes → Result (Unit {0}) × Log
unfolding pushed
write_pending l idx p =
    if l.inner.read_only
    then (err log_read_only, l)
    else if not (idx == next_index l)
    then (err out_of_order, l)
    else (
      ok tt,
      record l {
        pend = pushed l.pend.first l.pend.entries p idx;
        pending_bytes = l.pending_bytes + length p;
      },
    )

pub total_bytes : List Bytes → ℕ
total_bytes [] = 0
total_bytes (p ∷ ps) = length p + total_bytes ps

-- How many entries SyncThrough takes.
batch_size : ℕ → ℕ → List Bytes → ℕ
batch_size target first ps =
    let span = target - first + 1 in
    if ltb target first then 0 else if ltb span (length ps) then span else length ps

module _ (codec : SegmentCodec) (caching : Bool) (on_open : Option State.Fold) where
  pub or_not_found : Result Bytes → Result Bytes
  or_not_found (ok p) = ok p
  or_not_found (err empty) = err not_found
  or_not_found (err e) = err e

  pub read_behind : Log → ℕ → Option Bytes → Result Bytes
  read_behind l idx (some p) = ok p
  read_behind l idx none = or_not_found (State.read codec caching on_open l.inner l.chain idx)

  -- Read: the view first, then the disk log.
  unfoldable pub read : Log → ℕ → Result Bytes
  unfolding read_behind or_not_found
  read l idx = read_behind l idx (view_at l.pend idx)

  -- An entry that is durable already is skipped.
  put_entry : State.Log → List State.Log → ℕ → ℕ → Bytes → Result (Unit {0}) × State.Log
  put_entry inner chain durable idx p =
      if leb idx durable
      then (ok tt, inner)
      else State.write codec caching on_open inner chain idx p

  -- The loop of SyncThrough over the batch
  unfoldable pub sync_batch :
      List State.Log → ℕ → ℕ → List Bytes → State.Log → Result (Unit {0}) × State.Log
  unfolding put_entry
  sync_batch chain durable idx [] inner = (ok tt, inner)
  sync_batch chain durable idx (p ∷ ps) inner =
      let (r, inner') = put_entry inner chain durable idx p in
      elim r [ ok u ↦ sync_batch chain durable (idx + 1) ps inner' | err e ↦ (err e, inner') ]

  -- `fsync` says whether the fsync of the active segment succeeds; only then the view is trimmed.
  trimmed : Bool → Log → ℕ → Result (Unit {0}) × State.Log → Result (Unit {0}) × Log
  trimmed fsync l n (err e, inner) = (err e, record l { inner = inner })
  trimmed false l n (ok u, inner) = (err other, record l { inner = inner })
  trimmed true l n (ok u, inner) = (
    ok tt,
    record l {
      inner = inner;
      pend = record { first = l.pend.first + n; entries = drop n l.pend.entries };
      pending_bytes = l.pending_bytes - total_bytes (take n l.pend.entries);
    },
  )

  unfoldable pub sync_through : Bool → Log → ℕ → Result (Unit {0}) × Log
  unfolding trimmed batch_size total_bytes
  sync_through fsync l target =
      let n = batch_size target l.pend.first l.pend.entries in
      if n == 0
      then (ok tt, l)
      else trimmed fsync l n (
          sync_batch l.chain (State.last_index_log l.inner) l.pend.first (take n l.pend.entries)
            l.inner)

  -- Sync: the target is the largest uint64.
  unfoldable pub sync : Bool → Log → Result (Unit {0}) × Log
  sync fsync l = sync_through fsync l (2 ^ 64 - 1)

  after_push : Bool → ℕ → Result (Unit {0}) × Log → Result (Unit {0}) × Log
  after_push fsync idx (err e, l) = (err e, l)
  after_push fsync idx (ok u, l) =
      if ltb l.max_lag l.pending_bytes then sync_through fsync l idx else (ok tt, l)

  -- Write: past the bound on unsynced bytes it syncs at once.
  unfoldable pub write : Bool → Log → ℕ → Bytes → Result (Unit {0}) × Log
  unfolding after_push
  write fsync l idx p = after_push fsync idx (write_pending l idx p)
