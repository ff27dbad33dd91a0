-- ===== src/Pending/Scans.antt =====
-- `ScanFromEnd` of log/log.go: the pending records, and then those of the disk log and its parents.
-- The callback takes every record without an error, so that the scan is the list of what it is
-- called with.
use figwal.Common.{
  ℕ, zero, suc, ◌+◌, ◌-◌, ◌≤◌, ◌<◌, ◌≡◌, refl, sym, ap, ◌∙◌, arith, Bool, true, false, ◌||◌, Option,
  none, some, List, [], ◌∷◌, ◌++◌, length, min, take, length-take, length-append, get_elem?,
  get_elem?_within, ltb, leb, ◌==◌, if◌then◌else◌, Bool-cases, inl, inr, leb→le, lt_of_not_leb,
  le→ltb, append-nil,
}
use figwal.Result.{Result, ok, ◌>>=◌}
use figwal.Segment.Bytes.{Bytes}
use figwal.Segment.Codec.{SegmentCodec, CodecLaws}
use figwal.Disk.State
use figwal.Disk.State.Growth.{last_index_log-Owns}
use figwal.Disk.Scans.{scan_from_end}
use figwal.Disk.Scans.Entries.{newest_first}
use figwal.Disk.Scans.Lineages.{
  Shows, scan_from_end-Shows, newest_first-append_left, newest_first-append_right,
}
use figwal.Pending.{Log, PendingView, view_at}
use figwal.Pending.Snapshots.{last_index_pending, last_behind}

-- `payload, _ := pend.at(idx)`
abbrev pub or_nil : Option Bytes → Bytes
or_nil none = []
or_nil (some p) = p

-- The loop from `idx` down, of `n` rounds
unfoldable pub pend_down : PendingView → ℕ → ℕ → List (ℕ × Bytes)
pend_down v zero idx = []
pend_down v (suc n) idx = (idx, or_nil (view_at v idx)) ∷ pend_down v n (idx - 1)

module _ (codec : SegmentCodec) (caching : Bool) (on_open : Option State.Fold) where
  abbrev pub below_view : Log → List (ℕ × Bytes) → ℕ → Result (List (ℕ × Bytes))
  below_view l mine first = if leb first 1 then ok mine else (do
    rest ← scan_from_end codec caching on_open l.inner l.chain (first - 1)
    ok (mine ++ rest))

  abbrev pub scan_view : Log → ℕ → List Bytes → Result (List (ℕ × Bytes))
  scan_view l from [] = scan_from_end codec caching on_open l.inner l.chain from
  scan_view l from (p ∷ ps) =
      let last = l.pend.first + length (p ∷ ps) - 1 in
      let top = if ltb last from then last else from in
      if leb l.pend.first from
      then below_view l (pend_down l.pend (top + 1 - l.pend.first) top) l.pend.first
      else scan_from_end codec caching on_open l.inner l.chain from

  -- scanFromEndBounded, with the log's view
  unfoldable pub scan_bounded : Log → ℕ → Result (List (ℕ × Bytes))
  scan_bounded l from = if from == 0 then ok [] else scan_view l from l.pend.entries

  -- ScanFromEnd
  unfoldable pub scan_pending : Log → ℕ → Result (List (ℕ × Bytes))
  scan_pending l from =
      scan_bounded l
        (if from == 0 || ltb (last_index_pending l) from then last_index_pending l else from)

module _ (codec : SegmentCodec) (laws : CodecLaws codec) (caching : Bool)
    (on_open : Option State.Fold) where
  -- The records of a buffered log with those of its parents: the disk log shows a first part of
  -- them, the view holds a last part, and the two overlap or meet.
  pub record Holding (l : Log) (start : ℕ) (all : List Bytes) : Type 0 where
    pub es : List Bytes
    pub tail : List Bytes
    pub front : List Bytes
    pub shown : Shows codec laws caching on_open start l.inner l.chain es
    pub positive : 0 < start
    pub on_disk : all ≡ es ++ tail
    pub pending : all ≡ front ++ l.pend.entries
    pub meets : length front ≤ length es
    pub first_eq : 0 < length l.pend.entries → l.pend.first ≡ start + length front

  pend_down-entries :
      (v : PendingView) (n idx : ℕ)
      → 0 < v.first
      → n ≤ length v.entries
      → idx + 1 ≡ v.first + n
      → pend_down v n idx ≡ newest_first v.first v.entries n
  unfolding pend_down view_at
  pend_down-entries v zero idx pos le e = refl
  pend_down-entries v (suc n) idx pos le e =
      let at_idx : idx ≡ v.first + n = omega (arith, e) in
      let off : idx - v.first ≡ n = omega (arith, e) in
      let (p, at) = get_elem?_within v.entries n (omega (arith, le)) in
      let here : get_elem? v.entries (idx - v.first) ≡ some p =
        ap (λ k. get_elem? v.entries k) off ∙ at in
      let later =
        pend_down-entries v n (idx - 1) pos (omega (arith, le)) (omega (arith, at_idx, pos)) in
      rw (le→ltb idx v.first (omega (arith, at_idx)), here, at, later)
        (ap (λ i. (i, p) ∷ newest_first v.first v.entries n) at_idx)

  last_index_log-Shows :
      (start : ℕ) (l : State.Log) (chain : List State.Log) (es : List Bytes)
      → Shows codec laws caching on_open start l chain es
      → State.last_index_log l + 1 ≡ start + length es
  last_index_log-Shows start l [] es h = last_index_log-Owns codec laws caching on_open l start es h
  last_index_log-Shows start l (p ∷ chain) es (above, own, shown, owns, low, high, parts) = omega (
    arith,
    last_index_log-Owns codec laws caching on_open l l.fork_base own owns,
    ap length parts,
    length-append (take (l.fork_base - start) above) own,
    length-take (l.fork_base - start) above,
    low,
    high,
  )

  -- A part of the records that the disk log shows
  on_disk_part :
      (l : Log) (start n from : ℕ) (all : List Bytes)
      → (h : Holding l start all) → n ≤ length h.es
      → n ≡ from + 1 - start
      → scan_from_end codec caching on_open l.inner l.chain from ≡ ok (newest_first start all n)
  on_disk_part l start n from all h le e =
      let whole : min (from + 1 - start) (length h.es) ≡ n = omega (arith, le, e) in
      scan_from_end-Shows codec laws caching on_open start l.inner l.chain h.es from h.shown
      ∙ ap (λ k. ok (newest_first start h.es k)) whole
      ∙ ap ok (sym (newest_first-append_left start n h.es h.tail le))
      ∙ ap (λ t. ok (newest_first start t n)) (sym h.on_disk)

  from_view :
      (l : Log) (start from : ℕ) (all : List Bytes)
      → (h : Holding l start all) → l.pend.first ≡ start + length h.front
      → l.pend.first ≤ from
      → from + 1 ≤ start + length all
      → below_view codec caching on_open l
          (pend_down l.pend (from + 1 - l.pend.first) from)
          l.pend.first
        ≡ ok (newest_first start all (from + 1 - start))
  from_view l start from all h first le within =
      let m = from + 1 - l.pend.first in
      let k = length h.front in
      let size : length all ≡ k + length l.pend.entries =
        ap length h.pending ∙ length-append h.front l.pend.entries in
      let pos = h.positive in
      let meets = h.meets in
      let mine : pend_down l.pend m from ≡ newest_first (start + k) l.pend.entries m =
        pend_down-entries l.pend m from (omega (arith, first, pos))
          (omega (arith, size, first, within)) (omega (arith, le))
        ∙ ap (λ b. newest_first b l.pend.entries m) first in
      let total : from + 1 - start ≡ m + k = omega (arith, first, le) in
      let joined : newest_first start all (from + 1 - start)
          ≡ newest_first (start + k) l.pend.entries m ++ newest_first start h.front k =
        ap (λ t. newest_first start t (from + 1 - start)) h.pending
        ∙ ap (λ n. newest_first start (h.front ++ l.pend.entries) n) total
        ∙ newest_first-append_right start m h.front l.pend.entries in
      elim (Bool-cases (leb l.pend.first 1)) [
        | inl whole ↦
            let none_below : k ≡ 0 = omega (arith, leb→le l.pend.first 1 whole, first, pos) in
            let nothing : newest_first start h.front k ≡ [] =
              ap (λ n. newest_first start h.front n) none_below in
            rw whole (
              ap ok (
                mine
                ∙ sym (append-nil (newest_first (start + k) l.pend.entries m))
                ∙ ap (λ t. newest_first (start + k) l.pend.entries m ++ t) (sym nothing)
                ∙ sym joined))
        | inr more ↦
            let below : scan_from_end codec caching on_open l.inner l.chain (l.pend.first - 1)
                ≡ ok (newest_first start h.front k) =
              on_disk_part l start k (l.pend.first - 1) all h meets (omega (arith, first, pos))
              ∙ ap (λ t. ok (newest_first start t k)) h.pending
              ∙ ap ok (newest_first-append_left start k h.front l.pend.entries (omega arith)) in
            rw (more, below) (ap ok (ap (λ t. t ++ newest_first start h.front k) mine ∙ sym joined))
      ]

  scan_view-Holding :
      (l : Log) (start from : ℕ) (all ps : List Bytes)
      → (h : Holding l start all) → l.pend.entries ≡ ps
      → from + 1 ≤ start + length all
      → scan_view codec caching on_open l from ps ≡ ok (newest_first start all (from + 1 - start))
  scan_view-Holding l start from all [] h e within =
      let size : length all ≡ length h.front + length l.pend.entries =
        ap length h.pending ∙ length-append h.front l.pend.entries in
      let meets = h.meets in
      on_disk_part l start (from + 1 - start) from all h
        (omega (arith, size, ap length e, meets, within)) refl
  scan_view-Holding l start from all (p ∷ ps) h e within =
      let size : length all ≡ length h.front + length l.pend.entries =
        ap length h.pending ∙ length-append h.front l.pend.entries in
      let meets = h.meets in
      let count : length l.pend.entries ≡ length (p ∷ ps) = ap length e in
      let first = h.first_eq (omega (arith, count)) in
      let no_past : ltb (l.pend.first + length (p ∷ ps) - 1) from ≡ false =
        le→ltb (l.pend.first + length (p ∷ ps) - 1) from
          (omega (arith, first, size, count, within)) in
      elim (Bool-cases (leb l.pend.first from)) [
        | inl there ↦
            rw (there, no_past)
              (from_view l start from all h first (leb→le l.pend.first from there) within)
        | inr below ↦ rw below (
            on_disk_part l start (from + 1 - start) from all h
              (omega (arith, first, meets, lt_of_not_leb l.pend.first from below)) refl)
      ]

  last_index_end :
      (l : Log) (start : ℕ) (all ps : List Bytes)
      → Holding l start all
      → l.pend.entries ≡ ps
      → last_behind l.inner l.pend.first ps + 1 ≡ start + length all
  unfolding last_behind
  last_index_end l start all [] h e =
      let meets = h.meets in
      omega (
        arith,
        last_index_log-Shows start l.inner l.chain h.es h.shown,
        ap length h.on_disk,
        length-append h.es h.tail,
        ap length h.pending,
        length-append h.front l.pend.entries,
        ap length e,
        meets,
      )
  last_index_end l start all (p ∷ ps) h e =
      let count : length l.pend.entries ≡ length (p ∷ ps) = ap length e in
      let first = h.first_eq (omega (arith, count)) in
      omega (arith, ap length h.pending, length-append h.front l.pend.entries, count, first)

  -- How many records a scan from an index gives: all of them from 0 or from past the end.
  abbrev pub reached : ℕ → ℕ → ℕ → ℕ
  reached from start n = if from == 0 then n else min (from + 1 - start) n

  bounded-Holding :
      (l : Log) (start from n : ℕ) (all : List Bytes)
      → Holding l start all
      → from + 1 ≤ start + length all
      → n ≡ from + 1 - start
      → scan_bounded codec caching on_open l from ≡ ok (newest_first start all n)
  unfolding scan_bounded
  bounded-Holding l start from n all h within e = elim (Bool-cases (from == 0)) [
    | inl nowhere ↦
        let pos = h.positive in
        let none_there : 0 ≡ n = ground arith in
        rw nowhere (ap (λ k. ok (newest_first start all k)) none_there)
    | inr some_index ↦ rw some_index (
        scan_view-Holding l start from all l.pend.entries h refl within
        ∙ ap (λ k. ok (newest_first start all k)) (sym e))
  ]

  -- A scan from the end of a buffered log gives its records up to the index asked for, the pending
  -- ones, those on disk and those of the parents, each once, with its index, the newest first; from
  -- 0 or from past the end it gives all of them.
  pub scan_pending-Holding :
      (l : Log) (start from : ℕ) (all : List Bytes)
      → Holding l start all
      → scan_pending codec caching on_open l from
        ≡ ok (newest_first start all (reached from start (length all)))
  unfolding scan_pending last_index_pending
  scan_pending-Holding l start from all h =
      let last = last_behind l.inner l.pend.first l.pend.entries in
      let end : last + 1 ≡ start + length all = last_index_end l start all l.pend.entries h refl in
      elim (Bool-cases (from == 0 || ltb last from)) [
        | inl all_of_them ↦
            let n : reached from start (length all) ≡ last + 1 - start =
              from_end from last start (length all) all_of_them end in
            rw all_of_them (
              bounded-Holding l start last (reached from start (length all)) all h
                (omega (arith, end)) n)
        | inr part ↦
            let (n, le) = from_inside from last start (length all) part end in
            rw part (
              bounded-Holding l start from (reached from start (length all)) all h
                (omega (arith, end, le)) n)
      ]
    where
      from_end :
          (from last start n : ℕ)
          → (from == 0 || ltb last from) ≡ true
          → last + 1 ≡ start + n
          → reached from start n ≡ last + 1 - start
      from_end from last start n h e = ground arith

      from_inside :
          (from last start n : ℕ)
          → (from == 0 || ltb last from) ≡ false
          → last + 1 ≡ start + n
          → (reached from start n ≡ from + 1 - start) × (from ≤ last)
      from_inside from last start n h e = ground arith
