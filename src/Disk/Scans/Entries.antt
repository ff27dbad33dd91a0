-- ===== src/Disk/Scans/Entries.antt =====
-- A scan from the end yields the log's entries up to an index, the newest first.
use figwal.Common.{
  ℕ, zero, suc, ◌+◌, ◌-◌, ◌≤◌, ◌≡◌, refl, ap, ◌∙◌, arith, Bool, Option, none, some, List, [], ◌∷◌,
  length, min, get_elem?, get_elem?_within, ltb, Bool-cases, inl, inr, ltb→lt, ge_of_not_ltb,
}
use figwal.Result.{ok}
use figwal.Segment.Bytes.{Bytes}
use figwal.Segment.Codec.{SegmentCodec, CodecLaws}
use figwal.Segment.State.Reads.{read_index-Holds}
use figwal.Disk.State.{Log, Fold, last_index_own}
use figwal.Disk.State.Holds.{Owns}
use figwal.Disk.State.Reads.{is_empty-Owns}
use figwal.Disk.State.Routing.{Found, find_segment-Found}
use figwal.Disk.State.Firsts.{first_index_own-Owns, last_index_own-Owns}
use figwal.Disk.Scans.{read_in, scan_down, scan_own}

abbrev pub with_entry : ℕ → Option Bytes → List (ℕ × Bytes) → List (ℕ × Bytes)
with_entry idx none rest = rest
with_entry idx (some p) rest = (idx, p) ∷ rest

-- The first `n` of the entries, which count from `base`, the last of them first
abbrev pub newest_first : ℕ → List Bytes → ℕ → List (ℕ × Bytes)
newest_first base es zero = []
newest_first base es (suc n) = with_entry (base + n) (get_elem? es n) (newest_first base es n)

module _ (codec : SegmentCodec) (laws : CodecLaws codec) (caching : Bool)
    (on_open : Option Fold) where
  read_in-Found :
      (l : Log) (base n idx : ℕ) (es : List Bytes) (p : Bytes)
      → idx ≡ base + n
      → get_elem? es n ≡ some p
      → (f : Found codec laws caching on_open l base es idx)
      → read_in codec caching on_open idx (some f.seg) ≡ ok p
  unfolding read_in
  read_in-Found l base n idx es p e at f =
      let there : get_elem? f.ps (idx - f.seg.base_index) ≡ some p =
        f.entry ∙ ap (λ k. get_elem? es k) (omega (arith, e)) ∙ at in
      (read_index-Holds codec laws caching f.seg f.ps (idx - f.seg.base_index) f.holds).0
      ∙ rw there refl

  scan_down-Owns :
      (l : Log) (base : ℕ) (es : List Bytes) (n idx : ℕ)
      → Owns codec laws caching on_open l base es
      → n ≤ length es
      → idx + 1 ≡ base + n
      → scan_down codec caching on_open l n idx ≡ ok (newest_first base es n)
  unfolding scan_down
  scan_down-Owns l base es zero idx h le e = refl
  scan_down-Owns l base es (suc n) idx h le e =
      let at_idx : idx ≡ base + n = omega (arith, e) in
      let (p, at) = get_elem?_within es n (omega (arith, le)) in
      let f =
        find_segment-Found codec laws caching on_open l base es idx h (omega (arith, at_idx))
          (omega (arith, at_idx, le)) in
      let later =
        scan_down-Owns l base es n (idx - 1) h (omega (arith, le))
          (omega (arith, at_idx, h.positive)) in
      rw (f.found, read_in-Found l base n idx es p at_idx at f, later, at)
        (ap (λ i. ok ((i, p) ∷ newest_first base es n)) at_idx)

  -- A scan of a log's own entries from an index, or from the last one where the index is past it,
  -- succeeds and yields the entries up to there, each with its index, the newest first.
  pub scan_own-Owns :
      (l : Log) (base from : ℕ) (es : List Bytes)
      → Owns codec laws caching on_open l base es
      → scan_own codec caching on_open l from
        ≡ ok (newest_first base es (min (from + 1 - base) (length es)))
  unfolding scan_own scan_down
  scan_own-Owns l base from [] h =
      let none_there : 0 ≡ min (from + 1 - base) 0 = omega arith in
      rw (is_empty-Owns codec laws caching on_open l base [] h)
        (ap (λ n. ok (newest_first base [] n)) none_there)
  scan_own-Owns l base from (e ∷ es) h =
      let first = first_index_own-Owns codec laws caching on_open l base e es h in
      let last = last_index_own-Owns codec laws caching on_open l base e es h in
      rw (is_empty-Owns codec laws caching on_open l base (e ∷ es) h, first)
        (elim (Bool-cases (ltb from (last_index_own l))) [
          | inl below ↦
              let lt = ltb→lt from (last_index_own l) below in
              let all : from + 1 - base ≡ min (from + 1 - base) (length (e ∷ es)) =
                omega (arith, last, lt) in
              rw below (
                down l base (e ∷ es) (from + 1 - base) from h (omega (arith, last, lt)) refl
                ∙ ap (λ n. ok (newest_first base (e ∷ es) n)) all)
          | inr past ↦
              let ge = ge_of_not_ltb from (last_index_own l) past in
              let all : last_index_own l + 1 - base ≡ min (from + 1 - base) (length (e ∷ es)) =
                omega (arith, last, ge) in
              rw past (
                down l base (e ∷ es) (last_index_own l + 1 - base) (last_index_own l) h
                  (omega (arith, last)) refl
                ∙ ap (λ n. ok (newest_first base (e ∷ es) n)) all)
        ])
    where
      down :
          (l : Log) (base : ℕ) (es : List Bytes) (n idx : ℕ)
          → Owns codec laws caching on_open l base es
          → n ≤ length es
          → n ≡ idx + 1 - base
          → scan_down codec caching on_open l n idx ≡ ok (newest_first base es n)
      down l base es zero idx h le e = refl
      down l base es (suc n) idx h le e =
          scan_down-Owns l base es (suc n) idx h le (omega (arith, e))
