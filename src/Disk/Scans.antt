-- ===== src/Disk/Scans.antt =====
-- `ScanFromEnd` of disk/log.go. The callback takes every entry without an error, so that the scan is
-- the list of what it is called with.
pub mod Entries
pub mod Lineages
use figwal.Common.{
  ℕ, zero, suc, ◌+◌, ◌-◌, Bool, true, false, Option, none, some, List, [], ◌∷◌, ◌++◌, ltb,
  if◌then◌else◌,
}
use figwal.Result.{Result, ok, err, not_found, ◌>>=◌}
use figwal.Segment.Bytes.{Bytes}
use figwal.Segment.Codec.{SegmentCodec}
use figwal.Segment.State.{Segment, read_index}
use figwal.Disk.State.{Log, Fold, find_segment, is_empty, first_index_own, last_index_own}

module _ (codec : SegmentCodec) (caching : Bool) (on_open : Option Fold) where
  read_in : ℕ → Option Segment → Result Bytes
  read_in idx none = err not_found
  read_in idx (some s) = (read_index codec caching s (idx - s.base_index)).0

  -- The loop from `idx` down, of `n` rounds
  unfoldable pub scan_down : Log → ℕ → ℕ → Result (List (ℕ × Bytes))
  unfolding read_in
  scan_down l zero idx = ok []
  scan_down l (suc n) idx = do
    found ← find_segment codec caching on_open l idx
    p ← read_in idx found
    later ← scan_down l n (idx - 1)
    ok ((idx, p) ∷ later)

  abbrev pub lower : ℕ → ℕ → ℕ
  lower from last = if ltb from last then from else last

  -- The log's own part
  unfoldable pub scan_own : Log → ℕ → Result (List (ℕ × Bytes))
  scan_own l from =
      let top = lower from (last_index_own l) in
      if is_empty l then ok [] else scan_down l (top + 1 - first_index_own l) top

  -- Behind the own part, the parent's from below the fork base
  unfoldable pub scan_from_end : Log → List Log → ℕ → Result (List (ℕ × Bytes))
  scan_from_end l [] from = scan_own l from
  scan_from_end l (p ∷ chain) from =
      let inherited = scan_from_end p chain from in
      let behind = scan_from_end p chain (l.fork_base - 1) in
      if ltb from l.fork_base
      then inherited
      else (do mine ← scan_own l from; rest ← behind; ok (mine ++ rest))
