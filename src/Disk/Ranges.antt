-- ===== src/Disk/Ranges.antt =====
-- `RangeOwn` of disk/log.go. The callback takes every entry without an error, so that the range is
-- the list of what it is called with.
pub mod Entries
use figwal.Common.{
  ℕ, zero, suc, ◌+◌, Bool, true, false, Option, none, some, List, [], ◌∷◌, ◌++◌, ltb, if◌then◌else◌,
}
use figwal.Result.{Result, ok, err, ◌>>=◌}
use figwal.Segment.Bytes.{Bytes}
use figwal.Segment.Codec.{SegmentCodec}
use figwal.Segment.State.{Segment, read_index}
use figwal.Disk.State.{SealedSeg, Log, Fold, open_sealed}

module _ (codec : SegmentCodec) (caching : Bool) (on_open : Option Fold) where
  -- `walk`: the records of a segment from the `i`-th on, `n` of them.
  unfoldable pub walk : Segment → ℕ → ℕ → ℕ → Result (List (ℕ × Bytes))
  walk s from i zero = ok []
  walk s from i (suc n) =
      let later = walk s from (suc i) n in
      let idx = s.base_index + i in
      if ltb idx from
      then later
      else (do p ← (read_index codec caching s i).0; more ← later; ok ((idx, p) ∷ more))

  unfoldable pub range_sealed : List SealedSeg → ℕ → Result (List (ℕ × Bytes))
  range_sealed [] from = ok []
  range_sealed (ss ∷ rest) from =
      let later = range_sealed rest from in
      if ltb ss.last from then later else (do
        s ← open_sealed codec caching on_open ss
        here ← walk s from 0 s.count
        more ← later
        ok (here ++ more))

  range_active : Option Segment → ℕ → Result (List (ℕ × Bytes))
  range_active none from = ok []
  range_active (some a) from = walk a from 0 a.count

  unfoldable pub range_own : Log → ℕ → Result (List (ℕ × Bytes))
  unfolding range_active
  range_own l from = do
    sealed ← range_sealed l.sealed from
    live ← range_active l.active from
    ok (sealed ++ live)
