-- ===== src/Disk/Front/Restart.antt =====
-- A truncation that takes every sealed segment while the active one is still empty.
use figwal.Common.{
  ℕ, ◌+◌, ◌<◌, ◌≡◌, refl, sym, ap, ◌∙◌, arith, Bool, true, Option, none, some, List, [], ◌∷◌, All,
  length, length-append, flatten, lt→ltb,
}
use figwal.Segment.Bytes.{Bytes}
use figwal.Segment.Codec.{SegmentCodec, CodecLaws}
use figwal.Segment.State.{Segment}
use figwal.Disk.State.{SealedSeg, Log, Fold, expected_index, is_empty}
use figwal.Disk.State.Holds.{Owns, ActiveRun, fresh_index}
use figwal.Disk.Front.{kept, truncate_front}

kept_none :
    (before : ℕ) (sealed : List SealedSeg)
    → All (λ (ss : SealedSeg). ss.last < before) sealed
    → kept before sealed ≡ []
unfolding kept
kept_none before [] h = refl
kept_none before (ss ∷ rest) (h, hs) = rw (lt→ltb ss.last before h) (kept_none before rest hs)

emptied :
    (l : Log) (sealed : List SealedSeg) (o : Option Segment) (a : Segment)
    → sealed ≡ []
    → o ≡ some a
    → a.count ≡ 0
    → is_empty (record l { sealed = sealed; active = o }) ≡ true
unfolding is_empty
emptied l (ss ∷ rest) o a e ea z = cc
emptied l [] none a e ea z = cc
emptied l [] (some b) a e ea z =
    let same : b ≡ a = cc in
    let none_yet : b.count ≡ 0 = ap (λ (s : Segment). s.count) same ∙ z in ground arith

module _ (codec : SegmentCodec) (laws : CodecLaws codec) (caching : Bool)
    (on_open : Option Fold) where
  active_base :
      (end size : ℕ) (live : List Bytes) (o : Option Segment) (a : Segment)
      → ActiveRun codec laws caching on_open end size live o
      → o ≡ some a
      → a.count ≡ 0
      → (a.base_index ≡ end) × (length live ≡ 0)
  active_base end size live none a r e z = cc
  active_base end size live (some b) a at e z =
      let same : b ≡ a = cc in
      let none_yet : b.count ≡ 0 = ap (λ (s : Segment). s.count) same ∙ z in
      (
        sym (ap (λ (s : Segment). s.base_index) same) ∙ at.base_eq,
        omega (arith, at.holds.count_eq, none_yet),
      )

  -- Where the active segment is empty and every sealed segment ends below the index, the log takes
  -- itself for a fresh one after a truncation at the front: it expects the fresh index again,
  -- although its active segment begins behind all entries that it held.
  pub truncate_front_restarts :
      (l : Log) (base before : ℕ) (es : List Bytes) (a : Segment)
      → Owns codec laws caching on_open l base es
      → l.active ≡ some a
      → a.count ≡ 0
      → All (λ (ss : SealedSeg). ss.last < before) l.sealed
      → (expected_index (truncate_front l before) ≡ fresh_index l)
        × (a.base_index ≡ base + length es)
  unfolding expected_index truncate_front
  truncate_front_restarts l base before es a h ea z all_below =
      let (at, none_live) = active_base _ l.segment_size h.live l.active a h.active_run ea z in
      (
        rw (emptied l (kept before l.sealed) l.active a (kept_none before l.sealed all_below) ea z)
            refl,
        omega (arith, at, none_live, ap length h.parts, length-append (flatten h.pss) h.live),
      )
