-- ===== src/Disk/State/Firsts.antt =====
-- The first and last index of a log's own entries.
use figwal.Common.{
  ℕ, ◌+◌, ◌<◌, ◌≡◌, refl, sym, ap, ◌∙◌, arith, Bool, Option, none, some, List, [], ◌∷◌, length,
  length-append, flatten,
}
use figwal.Segment.Bytes.{Bytes}
use figwal.Segment.Codec.{SegmentCodec, CodecLaws}
use figwal.Segment.State.{Segment}
use figwal.Disk.State.{
  SealedSeg, Log, Fold, first_of_active, first_of_log, first_index_own, last_index_own,
  expected_index,
}
use figwal.Disk.State.Holds.{SealedRun, ActiveRun, Owns}
use figwal.Disk.State.Reads.{is_empty-Owns}
use figwal.Disk.State.Growth.{expected_index-Owns}

module _ (codec : SegmentCodec) (laws : CodecLaws codec) (caching : Bool)
    (on_open : Option Fold) where
  first_of-run :
      (base size : ℕ) (pss : List (List Bytes)) (sealed : List SealedSeg) (live : List Bytes)
      (active : Option Segment)
      → SealedRun codec laws caching on_open base pss sealed
      → ActiveRun codec laws caching on_open (base + length (flatten pss)) size live active
      → 0 < length (flatten pss) + length live
      → first_of_log sealed active ≡ base
  unfolding first_of_log first_of_active
  first_of-run base size [] [] live none r a pos = absurd (omega (arith, ap length a))
  first_of-run base size [] [] live (some s) r at pos =
      ground (arith, at.holds.count_eq, at.base_eq)
  first_of-run base size [] (ss ∷ rest) live active r a pos = elim r [ ]
  first_of-run base size (ps ∷ pss) [] live active r a pos = elim r [ ]
  first_of-run base size (ps ∷ pss) (ss ∷ rest) live active (at, r) a pos = at.base_eq

  -- A log that has entries begins at the first and ends at the last of them.
  pub first_index_own-Owns :
      (l : Log) (base : ℕ) (e : Bytes) (es : List Bytes)
      → Owns codec laws caching on_open l base (e ∷ es)
      → first_index_own l ≡ base
  unfolding first_index_own
  first_index_own-Owns l base e es h =
      first_of-run base l.segment_size h.pss l.sealed h.live l.active h.sealed_run h.active_run
        (omega (arith, ap length h.parts, length-append (flatten h.pss) h.live))

  pub last_index_own-Owns :
      (l : Log) (base : ℕ) (e : Bytes) (es : List Bytes)
      → Owns codec laws caching on_open l base (e ∷ es)
      → last_index_own l + 1 ≡ base + length (e ∷ es)
  unfolding expected_index
  last_index_own-Owns l base e es h =
      sym (rw (is_empty-Owns codec laws caching on_open l base (e ∷ es) h) refl)
      ∙ expected_index-Owns codec laws caching on_open l base (e ∷ es) h
