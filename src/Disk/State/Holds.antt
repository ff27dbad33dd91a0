-- ===== src/Disk/State/Holds.antt =====
-- What it means that a log holds a list of entries of its own, and how its segments share them out.
use figwal.Common.{
  ℕ, zero, suc, ◌+◌, ◌-◌, ◌≤◌, ◌<◌, ◌≡◌, refl, sym, ap, ◌∙◌, arith, Bool, false, Option, none, some,
  List, [], ◌∷◌, ◌++◌, length, get_elem?, flatten, length-append, inl, inr, ltb, if◌then◌else◌,
  Bool-cases, ltb→lt, ge_of_not_ltb, get_elem?-append_left, get_elem?-append_right,
}
use figwal.Result.{ok}
use figwal.Segment.Bytes.{Bytes}
use figwal.Segment.Codec.{SegmentCodec, CodecLaws}
use figwal.Segment.State.{Segment}
use figwal.Segment.State.Holds.{Holds}
use figwal.Disk.State.{SealedSeg, Log, Fold, last_at, open_sealed}
use figwal.Disk.State.Search.{Ascending}

-- The index at which a log without entries begins.
abbrev pub fresh_index : Log → ℕ
fresh_index l = if ltb 0 l.fork_base then l.fork_base else 1

below_next :
    (ss : SealedSeg) (rest : List SealedSeg) (idx k : ℕ)
    → ss.last < idx
    → ((j : ℕ) → j < k → last_at rest j < idx)
    → (j : ℕ) → j < suc k
    → last_at (ss ∷ rest) j < idx
below_next ss rest idx k h below zero lt = h
below_next ss rest idx k h below (suc j) lt = below j (omega arith)

module _ (codec : SegmentCodec) (laws : CodecLaws codec) (caching : Bool)
    (on_open : Option Fold) where
  -- The sealed segment `ss` opens, and holds the payloads `ps` from the index `base` on.
  pub record SealedAt (base : ℕ) (ps : List Bytes) (ss : SealedSeg) : Type 0 where
    pub base_eq : ss.base ≡ base
    pub last_eq : ss.last + 1 ≡ base + length ps
    pub nonempty : 0 < length ps
    pub seg : Segment
    pub opens : open_sealed codec caching on_open ss ≡ ok seg
    pub holds : Holds codec laws seg ps
    pub seg_base : seg.base_index ≡ base

  -- Sealed segments that follow one another without a gap.
  abbrev pub SealedRun : ℕ → List (List Bytes) → List SealedSeg → Type 0
  SealedRun base [] [] = Unit
  SealedRun base (ps ∷ pss) (ss ∷ rest) =
      SealedAt base ps ss × SealedRun (base + length ps) pss rest
  SealedRun base _ _ = ⊥

  pub record ActiveAt (base size : ℕ) (ps : List Bytes) (a : Segment) : Type 0 where
    pub holds : Holds codec laws a ps
    pub base_eq : a.base_index ≡ base
    pub writable : a.read_only ≡ false
    pub size_eq : a.max_size ≡ size

  abbrev pub ActiveRun : ℕ → ℕ → List Bytes → Option Segment → Type 0
  ActiveRun base size ps none = ps ≡ []
  ActiveRun base size ps (some a) = ActiveAt base size ps a

  -- The log's own entries are `es`: those of its sealed segments and then those of the active one,
  -- with no gap; `base` is the index of the first of them, or of the next one to be written.
  pub record Owns (l : Log) (base : ℕ) (es : List Bytes) : Type 0 where
    pub pss : List (List Bytes)
    pub live : List Bytes
    pub parts : es ≡ flatten pss ++ live
    pub positive : 0 < base
    pub sealed_run : SealedRun base pss l.sealed
    pub active_run : ActiveRun (base + length (flatten pss)) l.segment_size live l.active
    pub fresh : es ≡ [] → base ≡ fresh_index l

  -- The segment that covers an index, and where in it the entry lies.
  pub record Covered (base idx : ℕ) (es : List Bytes) (sealed : List SealedSeg) : Type 0 where
    pub k : ℕ
    pub ss : SealedSeg
    pub start : ℕ
    pub ps : List Bytes
    pub at_k : get_elem? sealed k ≡ some ss
    pub holds : SealedAt start ps ss
    pub from : start ≤ idx
    pub until : idx < start + length ps
    pub entry : get_elem? ps (idx - start) ≡ get_elem? es (idx - base)
    pub below : (j : ℕ) → j < k → last_at sealed j < idx
    pub last_k : last_at sealed k ≡ ss.last

  pub cover :
      (base idx : ℕ) (pss : List (List Bytes)) (sealed : List SealedSeg)
      → SealedRun base pss sealed
      → base ≤ idx
      → idx < base + length (flatten pss)
      → Covered base idx (flatten pss) sealed
  cover base idx [] sealed r lo hi = absurd (omega arith)
  cover base idx (ps ∷ pss) [] r lo hi = elim r [ ]
  cover base idx (ps ∷ pss) (ss ∷ rest) (at, r) lo hi =
      elim (Bool-cases (ltb idx (base + length ps))) [
        | inl here ↦ record {
          k = 0;
          ss = ss;
          start = base;
          ps = ps;
          at_k = refl;
          holds = at;
          from = lo;
          until = ltb→lt idx (base + length ps) here;
          entry = sym (
              get_elem?-append_left ps (flatten pss) (idx - base)
                (omega (arith, ltb→lt idx (base + length ps) here)));
          below = λ j h. absurd (omega arith);
          last_k = refl;
        }
        | inr later ↦
            let past : base + length ps ≤ idx = ge_of_not_ltb idx (base + length ps) later in
            let c =
              cover (base + length ps) idx pss rest r past
                (omega (arith, length-append ps (flatten pss))) in
            let shift : idx - base ≡ length ps + (idx - (base + length ps)) = omega arith in
            record {
              k = suc c.k;
              ss = c.ss;
              start = c.start;
              ps = c.ps;
              at_k = c.at_k;
              holds = c.holds;
              from = c.from;
              until = c.until;
              entry =
                  c.entry
                  ∙ sym (get_elem?-append_right ps (flatten pss) (idx - (base + length ps)))
                  ∙ ap (get_elem? (ps ++ flatten pss)) (sym shift);
              below = below_next ss rest idx c.k (omega (arith, at.last_eq, past)) c.below;
              last_k = c.last_k;
            }
      ]

  -- Every sealed segment ends inside the run.
  pub last_bounds :
      (base j : ℕ) (pss : List (List Bytes)) (sealed : List SealedSeg)
      → SealedRun base pss sealed
      → j < length sealed
      → (base ≤ last_at sealed j) × (last_at sealed j < base + length (flatten pss))
  last_bounds base j [] [] r h = absurd (omega arith)
  last_bounds base j [] (ss ∷ rest) r h = elim r [ ]
  last_bounds base j (ps ∷ pss) [] r h = elim r [ ]
  last_bounds base zero (ps ∷ pss) (ss ∷ rest) (at, r) h =
      let total : length (ps ++ flatten pss) ≡ length ps + length (flatten pss) =
        length-append ps (flatten pss) in
      (omega (arith, at.last_eq, at.nonempty), omega (arith, at.last_eq, at.nonempty))
  last_bounds base (suc j) (ps ∷ pss) (ss ∷ rest) (at, r) h =
      let total : length (ps ++ flatten pss) ≡ length ps + length (flatten pss) =
        length-append ps (flatten pss) in
      let (lo, hi) = last_bounds (base + length ps) j pss rest r (omega arith) in
      (omega arith, omega arith)

  pub SealedRun-Ascending :
      (base : ℕ) (pss : List (List Bytes)) (sealed : List SealedSeg)
      → SealedRun base pss sealed
      → Ascending sealed
  SealedRun-Ascending base [] [] r i j le h = absurd (omega arith)
  SealedRun-Ascending base [] (ss ∷ rest) r i j le h = elim r [ ]
  SealedRun-Ascending base (ps ∷ pss) [] r i j le h = elim r [ ]
  SealedRun-Ascending base (ps ∷ pss) (ss ∷ rest) (at, r) zero zero le h = omega arith
  SealedRun-Ascending base (ps ∷ pss) (ss ∷ rest) (at, r) (suc i) zero le h = absurd (omega arith)
  SealedRun-Ascending base (ps ∷ pss) (ss ∷ rest) (at, r) zero (suc j) le h =
      omega (arith, at.last_eq, last_bounds (base + length ps) j pss rest r (omega arith))
  SealedRun-Ascending base (ps ∷ pss) (ss ∷ rest) (at, r) (suc i) (suc j) le h =
      SealedRun-Ascending (base + length ps) pss rest r i j (omega arith) (omega arith)
