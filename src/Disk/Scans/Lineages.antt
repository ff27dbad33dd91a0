-- ===== src/Disk/Scans/Lineages.antt =====
-- A scan from the end of a fork goes on through its parents: it yields the records of the lineage.
use mathlib.Core.Path.{subst}
use figwal.Common.{
  ℕ, zero, suc, ◌+◌, ◌-◌, ◌≤◌, ◌≡◌, refl, sym, ap, ◌∙◌, arith, Bool, Option, none, some, List, [],
  ◌∷◌, ◌++◌, length, min, length-append, length-take, get_elem?, get_elem?-append_left,
  get_elem?-append_right, take, drop, take-append-drop, ltb, Bool-cases, inl, inr, ltb→lt,
  ge_of_not_ltb,
}
use figwal.Result.{ok}
use figwal.Segment.Bytes.{Bytes}
use figwal.Segment.Codec.{SegmentCodec, CodecLaws}
use figwal.Disk.State.{Log, Fold}
use figwal.Disk.State.Holds.{Owns}
use figwal.Disk.Scans.{scan_from_end}
use figwal.Disk.Scans.Entries.{with_entry, newest_first, scan_own-Owns}

with_entry-append :
    (idx : ℕ) (o : Option Bytes) (rs ss : List (ℕ × Bytes))
    → with_entry idx o (rs ++ ss) ≡ with_entry idx o rs ++ ss
with_entry-append idx none rs ss = refl
with_entry-append idx (some p) rs ss = refl

pub newest_first-append_left :
    (base n : ℕ) (xs ys : List Bytes)
    → n ≤ length xs
    → newest_first base (xs ++ ys) n ≡ newest_first base xs n
newest_first-append_left base zero xs ys le = refl
newest_first-append_left base (suc n) xs ys le =
    ap (λ o. with_entry (base + n) o (newest_first base (xs ++ ys) n))
      (get_elem?-append_left xs ys n (omega (arith, le)))
    ∙ ap (λ t. with_entry (base + n) (get_elem? xs n) t)
        (newest_first-append_left base n xs ys (omega (arith, le)))

pub newest_first-append_right :
    (base m : ℕ) (xs ys : List Bytes)
    → newest_first base (xs ++ ys) (m + length xs)
      ≡ newest_first (base + length xs) ys m ++ newest_first base xs (length xs)
newest_first-append_right base zero xs ys =
    ap (λ n. newest_first base (xs ++ ys) n) zero_add
    ∙ newest_first-append_left base (length xs) xs ys (omega arith)
  where
    zero_add : 0 + length xs ≡ length xs
    zero_add = omega arith
newest_first-append_right base (suc m) xs ys =
    let n = length xs in
    let e : suc m + n ≡ suc (m + n) = omega arith in
    let i : base + (m + n) ≡ (base + n) + m = omega arith in
    let back : get_elem? (xs ++ ys) (m + n) ≡ get_elem? ys m =
      ap (λ k. get_elem? (xs ++ ys) k) (omega arith) ∙ get_elem?-append_right xs ys m in
    ap (λ k. newest_first base (xs ++ ys) k) e
    ∙ ap (λ k. with_entry k (get_elem? (xs ++ ys) (m + n)) (newest_first base (xs ++ ys) (m + n))) i
    ∙ ap (λ o. with_entry ((base + n) + m) o (newest_first base (xs ++ ys) (m + n))) back
    ∙ ap (λ t. with_entry ((base + n) + m) (get_elem? ys m) t)
        (newest_first-append_right base m xs ys)
    ∙ with_entry-append ((base + n) + m) (get_elem? ys m) (newest_first (base + n) ys m)
        (newest_first base xs n)

module _ (codec : SegmentCodec) (laws : CodecLaws codec) (caching : Bool)
    (on_open : Option Fold) where
  -- What a log shows with its parents: the records of the lineage from the root's first index on. A
  -- fork shows its parent's records below its fork base, and its own behind them.
  abbrev pub Shows : ℕ → Log → List Log → List Bytes → Type 0
  Shows first l [] es = Owns codec laws caching on_open l first es
  Shows first l (p ∷ chain) es =
      (above : List Bytes) × (own : List Bytes) × Shows first p chain above
      × Owns codec laws caching on_open l l.fork_base own
      × (first ≤ l.fork_base)
      × (l.fork_base ≤ first + length above)
      × (es ≡ take (l.fork_base - first) above ++ own)

  -- A scan from the end of a log that shows some records yields those up to the index asked for,
  -- each with its index, the newest first, through any number of forks.
  pub scan_from_end-Shows :
      (first : ℕ) (l : Log) (chain : List Log) (es : List Bytes) (from : ℕ)
      → Shows first l chain es
      → scan_from_end codec caching on_open l chain from
        ≡ ok (newest_first first es (min (from + 1 - first) (length es)))
  unfolding scan_from_end
  scan_from_end-Shows first l [] es from h =
      scan_own-Owns codec laws caching on_open l first from es h
  scan_from_end-Shows first l (p ∷ chain) es from (above, own, shown, owns, low, high, parts) =
      let k = l.fork_base - first in
      let kept = take k above in
      let kept_length : length kept ≡ k = length-take k above ∙ omega (arith, high) in
      let size : length es ≡ k + length own =
        ap length parts ∙ length-append kept own ∙ ap (λ n. n + length own) kept_length in
      let prefix = λ (n : ℕ) (le : n ≤ k).
        subst (λ t. newest_first first t n ≡ newest_first first kept n) (take-append-drop k above)
          (newest_first-append_left first n kept (drop k above) (omega (arith, le, kept_length))) in
      elim (Bool-cases (ltb from l.fork_base)) [
        | inl inherited ↦
            let lt = ltb→lt from l.fork_base inherited in
            let n = from + 1 - first in
            let le : n ≤ k = omega (arith, lt) in
            let all_above : min n (length above) ≡ n = omega (arith, le, high) in
            let all_here : n ≡ min n (length es) = omega (arith, le, size) in
            rw inherited (
              scan_from_end-Shows first p chain above from shown
              ∙ ap (λ j. ok (newest_first first above j)) all_above
              ∙ ap ok (prefix n le)
              ∙ ap ok
                  (sym (newest_first-append_left first n kept own (omega (arith, le, kept_length))))
              ∙ ap (λ t. ok (newest_first first t n)) (sym parts)
              ∙ ap (λ j. ok (newest_first first es j)) all_here)
        | inr mine ↦
            let ge = ge_of_not_ltb from l.fork_base mine in
            let m = min (from + 1 - l.fork_base) (length own) in
            let pos = owns.positive in
            let all_above : min (l.fork_base - 1 + 1 - first) (length above) ≡ k =
              omega (arith, high, pos) in
            let total : m + length kept ≡ min (from + 1 - first) (length es) =
              omega (arith, kept_length, size, ge, low) in
            let start : l.fork_base ≡ first + length kept = omega (arith, kept_length, low) in
            let rest : newest_first first above k ≡ newest_first first kept (length kept) =
              prefix k (omega arith) ∙ ap (λ j. newest_first first kept j) (sym kept_length) in
            let behind =
              scan_from_end-Shows first p chain above (l.fork_base - 1) shown
              ∙ ap (λ j. ok (newest_first first above j)) all_above
              ∙ ap ok rest in
            rw (mine, scan_own-Owns codec laws caching on_open l l.fork_base from own owns, behind)
              (ap (λ b. ok (newest_first b own m ++ newest_first first kept (length kept))) start
                ∙ ap ok (sym (newest_first-append_right first m kept own))
                ∙ ap (λ t. ok (newest_first first t (m + length kept))) (sym parts)
                ∙ ap (λ j. ok (newest_first first es j)) total)
      ]
