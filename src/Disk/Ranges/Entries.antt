-- ===== src/Disk/Ranges/Entries.antt =====
-- A range yields the entries of the log that it asks for, in order and with their indices.
use figwal.Common.{
  ℕ, suc, ◌+◌, ◌≤◌, ◌≡◌, refl, sym, ap, ◌∙◌, arith, Bool, Option, none, some, List, [], ◌∷◌, ◌++◌,
  length, length-append, get_elem?, get_elem?-append_right, flatten, append_assoc, ltb, lt→ltb,
  if◌then◌else◌, Bool-cases, inl, inr, ltb→lt,
}
use figwal.Result.{ok}
use figwal.Segment.Bytes.{Bytes}
use figwal.Segment.Codec.{SegmentCodec, CodecLaws}
use figwal.Segment.State.{Segment, read_index}
use figwal.Segment.State.Holds.{Holds}
use figwal.Segment.State.Reads.{read_index-Holds}
use figwal.Disk.State.{SealedSeg, Log, Fold}
use figwal.Disk.State.Holds.{SealedRun, ActiveRun, Owns}
use figwal.Disk.Ranges.{walk, range_sealed, range_active, range_own}

-- The entries `ps`, counted from `base`, that have an index of at least `from`.
abbrev pub numbered : ℕ → ℕ → List Bytes → List (ℕ × Bytes)
numbered base from [] = []
numbered base from (p ∷ ps) =
    let later = numbered (suc base) from ps in if ltb base from then later else (base, p) ∷ later

numbered-append :
    (base from : ℕ) (ps qs : List Bytes)
    → numbered base from (ps ++ qs) ≡ numbered base from ps ++ numbered (base + length ps) from qs
numbered-append base from [] qs = ap (λ n. numbered n from qs) (omega arith)
numbered-append base from (p ∷ ps) qs =
    let rest =
      numbered-append (suc base) from ps qs
      ∙ ap (λ n. numbered (suc base) from ps ++ numbered n from qs) (omega arith) in
    elim (Bool-cases (ltb base from)) [
      | inl skipped ↦ rw skipped rest
      | inr taken ↦ rw taken (ap (λ t. (base, p) ∷ t) rest)
    ]

numbered_below :
    (base from : ℕ) (ps : List Bytes) → base + length ps ≤ from → numbered base from ps ≡ []
numbered_below base from [] h = refl
numbered_below base from (p ∷ ps) h =
    rw (lt→ltb base from (omega arith)) (numbered_below (suc base) from ps (omega arith))

module _ (codec : SegmentCodec) (laws : CodecLaws codec) (caching : Bool)
    (on_open : Option Fold) where
  walk-Holds :
      (s : Segment) (ps done qs : List Bytes) (from i : ℕ)
      → Holds codec laws s ps
      → ps ≡ done ++ qs
      → i ≡ length done
      → walk codec caching on_open s from i (length qs) ≡ ok (numbered (s.base_index + i) from qs)
  unfolding walk
  walk-Holds s ps done [] from i h e ei = refl
  walk-Holds s ps done (q ∷ qs) from i h e ei =
      let later : walk codec caching on_open s from (suc i) (length qs)
          ≡ ok (numbered (suc (s.base_index + i)) from qs) =
        walk-Holds s ps (done ++ (q ∷ [])) qs from (suc i) h
          (e ∙ sym (append_assoc done (q ∷ []) qs)) (omega (arith, ei, length-append done (q ∷ [])))
        ∙ ap (λ n. ok (numbered n from qs)) (omega arith) in
      let at : get_elem? ps i ≡ some q =
        ap (λ t. get_elem? t i) e
        ∙ ap (get_elem? (done ++ (q ∷ qs))) (omega (arith, ei))
        ∙ get_elem?-append_right done (q ∷ qs) 0 in
      let read : (read_index codec caching s i).0 ≡ ok q =
        (read_index-Holds codec laws caching s ps i h).0 ∙ rw at refl in
      elim (Bool-cases (ltb (s.base_index + i) from)) [
        | inl skipped ↦ rw skipped later
        | inr taken ↦ rw taken (rw (read, later) refl)
      ]

  -- A whole segment
  walk_all :
      (s : Segment) (ps : List Bytes) (from base : ℕ)
      → Holds codec laws s ps
      → s.base_index ≡ base
      → walk codec caching on_open s from 0 s.count ≡ ok (numbered base from ps)
  walk_all s ps from base h eb =
      ap (walk codec caching on_open s from 0) h.count_eq
      ∙ walk-Holds s ps [] ps from 0 h refl refl
      ∙ ap (λ n. ok (numbered n from ps)) (omega (arith, eb))

  range_sealed-run :
      (base from : ℕ) (pss : List (List Bytes)) (sealed : List SealedSeg)
      → SealedRun codec laws caching on_open base pss sealed
      → range_sealed codec caching on_open sealed from ≡ ok (numbered base from (flatten pss))
  unfolding range_sealed
  range_sealed-run base from [] [] r = refl
  range_sealed-run base from [] (ss ∷ rest) r = elim r [ ]
  range_sealed-run base from (ps ∷ pss) [] r = elim r [ ]
  range_sealed-run base from (ps ∷ pss) (ss ∷ rest) (at, r) =
      let later = range_sealed-run (base + length ps) from pss rest r in
      let split = numbered-append base from ps (flatten pss) in
      elim (Bool-cases (ltb ss.last from)) [
        | inl skipped ↦
            let none_here : numbered base from ps ≡ [] =
              numbered_below base from ps
                (omega (arith, at.last_eq, ltb→lt ss.last from skipped)) in
            rw skipped (
              later
              ∙ ap (λ t. ok (t ++ numbered (base + length ps) from (flatten pss))) (sym none_here)
              ∙ ap ok (sym split))
        | inr taken ↦ rw taken (
            rw (at.opens, walk_all at.seg ps from base at.holds at.seg_base, later)
              (ap ok (sym split)))
      ]

  range_active-run :
      (end size from : ℕ) (live : List Bytes) (o : Option Segment)
      → ActiveRun codec laws caching on_open end size live o
      → range_active codec caching on_open o from ≡ ok (numbered end from live)
  unfolding range_active
  range_active-run end size from live none r = rw r refl
  range_active-run end size from live (some a) at = walk_all a live from end at.holds at.base_eq

  -- `RangeOwn` of a log that holds the entries `es` from `base` on succeeds, and yields exactly the
  -- entries from the index asked for on, in ascending order and each with its index.
  pub range_own-Owns :
      (l : Log) (base from : ℕ) (es : List Bytes)
      → Owns codec laws caching on_open l base es
      → range_own codec caching on_open l from ≡ ok (numbered base from es)
  unfolding range_own
  range_own-Owns l base from es h =
      let end = base + length (flatten h.pss) in
      rw
        (
          range_sealed-run base from h.pss l.sealed h.sealed_run,
          range_active-run end l.segment_size from h.live l.active h.active_run,
        )
        (ap ok (sym (numbered-append base from (flatten h.pss) h.live))
          ∙ ap (λ t. ok (numbered base from t)) (sym h.parts))
