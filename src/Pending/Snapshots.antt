-- ===== src/Pending/Snapshots.antt =====
-- `LastIndex` of a buffered log, and its snapshots: `Snapshot` and `Snapshot.Read` of log/log.go.
-- The log that a snapshot points to may have moved on when the snapshot is read.
use figwal.Common.{
  ℕ, ◌+◌, ◌-◌, ◌≤◌, ◌<◌, ◌≡◌, refl, sym, ap, ◌∙◌, arith, Bool, List, [], ◌∷◌, ◌++◌, Option, length,
  length-append, get_elem?, get_elem?_within, ltb, if◌then◌else◌, Bool-cases, inl, inr, ltb→lt,
  ge_of_not_ltb,
}
use figwal.Result.{Result, err, not_found}
use figwal.Segment.Bytes.{Bytes}
use figwal.Segment.Codec.{SegmentCodec, CodecLaws}
use figwal.Disk.State
use figwal.Disk.State.Reads.{entry_at, entry_at_in}
use figwal.Pending.{Log, PendingView, view_at, read_behind, next_index, next_behind}
use figwal.Pending.Holds.{Buffers, next_index-Buffers}
use figwal.Pending.Sync.{OnDisk}
use figwal.Pending.Reads.{
  found, view_below, view_above, entry_at-append, entry_at_past, read_behind-some, read_behind-none,
}

-- `pend.last()`, or the last index of the disk log where nothing is pending
unfoldable pub last_behind : State.Log → ℕ → List Bytes → ℕ
last_behind inner first [] = State.last_index_log inner
last_behind inner first (p ∷ ps) = first + length (p ∷ ps) - 1

unfoldable pub last_index_pending : Log → ℕ
unfolding last_behind
last_index_pending l = last_behind l.inner l.pend.first l.pend.entries

-- The log stands beside the snapshot.
pub record Snapshot : Type 0 where
  pub pend : PendingView
  pub last : ℕ

unfoldable pub snapshot : Log → Snapshot
snapshot l = record { pend = l.pend; last = last_index_pending l }

module _ (codec : SegmentCodec) (caching : Bool) (on_open : Option State.Fold) where
  unfoldable pub snapshot_read : Snapshot → Log → ℕ → Result Bytes
  snapshot_read s l idx =
      if ltb s.last idx
      then err not_found
      else read_behind codec caching on_open l idx (view_at s.pend idx)

next_of_last :
    (inner : State.Log) (first : ℕ) (ps : List Bytes)
    → last_behind inner first ps + 1 ≡ next_behind inner first ps
unfolding last_behind next_behind
next_of_last inner first [] = refl
next_of_last inner first (p ∷ ps) = omega arith

module _ (codec : SegmentCodec) (laws : CodecLaws codec) (caching : Bool)
    (on_open : Option State.Fold) where
  -- `LastIndex` of a buffered log names its last record, pending or not, or the index before the
  -- first where it has none.
  pub last_index_pending-Buffers :
      (l : Log) (base : ℕ) (all : List Bytes)
      → Buffers codec laws caching on_open l base all
      → last_index_pending l + 1 ≡ base + length all
  unfolding last_index_pending next_index
  last_index_pending-Buffers l base all h =
      next_of_last l.inner l.pend.first l.pend.entries
      ∙ next_index-Buffers codec laws caching on_open l base all h

  -- A snapshot of a log with the records `all`, read when the log has grown by `more` records and
  -- its disk log still has those records that were not pending then, answers at an index of the
  -- log's own as the log did when it was taken: the later records are not seen.
  pub snapshot_read-Buffers :
      (l later : Log) (base idx : ℕ) (all more : List Bytes)
      → (h : Buffers codec laws caching on_open l base all)
      → OnDisk codec laws caching on_open later.inner base (all ++ more) (length h.front)
      → later.inner.fork_base ≤ idx
      → snapshot_read codec caching on_open (snapshot l) later idx ≡ found (entry_at base all idx)
  unfolding snapshot_read snapshot
  snapshot_read-Buffers l later base idx all more h d own =
      let ps = l.pend.entries in
      let end : last_index_pending l + 1 ≡ base + length all =
        last_index_pending-Buffers l base all h in
      let total : length all ≡ length h.front + length ps =
        ap length h.pending ∙ length-append h.front ps in
      elim (Bool-cases (ltb (last_index_pending l) idx)) [
        | inl past ↦ rw past (
            ap found (
              sym (
                entry_at_past base idx all
                  (omega (arith, end, ltb→lt (last_index_pending l) idx past)))))
        | inr inside ↦
            let in_all : idx < base + length all =
              omega (arith, end, ge_of_not_ltb (last_index_pending l) idx inside) in
            rw inside (elim (Bool-cases (ltb idx (base + length h.front))) [
              | inl below ↦
                  let lt = ltb→lt idx (base + length h.front) below in
                  read_behind-none codec laws caching on_open later base idx d.es
                    (view_at l.pend idx) d.owns own
                    (view_below l.pend.first (base + length h.front) idx ps h.first_eq lt)
                  ∙ ap found (
                      sym (entry_at-append base idx d.es d.tail (omega (arith, d.enough)))
                      ∙ ap (λ t. entry_at base t idx) (sym d.on_disk)
                      ∙ entry_at-append base idx all more in_all)
              | inr above ↦
                  let le = ge_of_not_ltb idx (base + length h.front) above in
                  let (p, at) = get_elem?_within all (idx - base) (omega arith) in
                  read_behind-some codec laws caching on_open later idx (view_at l.pend idx) p (
                    view_above l.pend.first base idx h.front ps h.first_eq le
                    ∙ ap (λ t. get_elem? t (idx - base)) (sym h.pending)
                    ∙ at)
                  ∙ ap found (sym (entry_at_in base idx all (omega arith) ∙ at))
            ])
      ]
