-- ===== src/Disk/Fork/Cuts.antt =====
-- A fork cuts the sealed segments of a log at an index: what stays, and the files that move.
use mathlib.Core.Path.{subst}
use figwal.Disk.Fork.Lists.{take_behind, drop_behind, take_within, drop_within}
use figwal.Common.{
  ℕ, ◌+◌, ◌-◌, ◌≤◌, ◌<◌, ◌≡◌, refl, sym, ap, ◌∙◌, arith, Bool, true, false, Option, some, List, [],
  ◌∷◌, ◌++◌, length, length-take, length-drop, take, drop, take-append-drop, take_all, drop_all,
  append-nil, flatten, All, Bool-cases, inl, inr, ltb, leb, le→ltb, ltb→lt, ge_of_not_ltb,
}
use figwal.Result.{Result, ok}
use figwal.Segment.Bytes.{Bytes}
use figwal.Segment.Codec.{SegmentCodec, CodecLaws}
use figwal.Segment.State.{Segment}
use figwal.Segment.State.Holds.{Holds}
use figwal.Disk.State.{SealedSeg, Fold, wrap_open, open_sealed}
use figwal.Disk.State.Holds.{SealedAt, SealedRun}
use figwal.Disk.Fork.{
  SegFile, action, act_keep, act_move, act_split, open_all, held, copy, split_segment, cut_sealed,
}
use figwal.Disk.Fork.Copies.{Writing, copy-Writing, started-Writing, reopened-Holds}

module _ (codec : SegmentCodec) (laws : CodecLaws codec) (caching : Bool)
    (on_open : Option Fold) where
  -- An open sealed segment with its handle
  pub record PairAt (base : ℕ) (ps : List Bytes) (r : SealedSeg × Segment) : Type 0 where
    pub base_eq : r.0.base ≡ base
    pub last_eq : r.0.last + 1 ≡ base + length ps
    pub nonempty : 0 < length ps
    pub holds : Holds codec laws r.1 ps
    pub seg_base : r.1.base_index ≡ base

  abbrev pub PairRun : ℕ → List (List Bytes) → List (SealedSeg × Segment) → Type 0
  PairRun base [] [] = Unit
  PairRun base (ps ∷ pss) (r ∷ rest) = PairAt base ps r × PairRun (base + length ps) pss rest
  PairRun base _ _ = ⊥

  -- In header mode, the codec frames a header.
  abbrev pub Titled : Bytes → Type 0
  Titled header = (fold : Fold) → on_open ≡ some fold → laws.canonical header ≡ true

  -- A sealed segment has such a header, when it opens.
  abbrev pub TitledSeg : SealedSeg → Type 0
  TitledSeg ss = (s : Segment) → open_sealed codec caching on_open ss ≡ ok s → Titled s.header

  pub open_all-PairRun :
      (base : ℕ) (pss : List (List Bytes)) (sealed : List SealedSeg)
      → SealedRun codec laws caching on_open base pss sealed
      → All TitledSeg sealed
      → (opened : List (SealedSeg × Segment)) × (open_all codec caching on_open sealed ≡ ok opened)
        × PairRun base pss opened
        × All (λ (r : SealedSeg × Segment). Titled r.1.header) opened
  unfolding open_all
  open_all-PairRun base [] [] r titles = ([], refl, tt, tt)
  open_all-PairRun base [] (ss ∷ rest) r titles = elim r [ ]
  open_all-PairRun base (ps ∷ pss) [] r titles = elim r [ ]
  open_all-PairRun base (ps ∷ pss) (ss ∷ rest) (at, r) (title, titles) =
      let (more, e, run, all) = open_all-PairRun (base + length ps) pss rest r titles in
      (
        (ss, at.seg) ∷ more,
        rw (at.opens, e) refl,
        (
          record {
            base_eq = at.base_eq;
            last_eq = at.last_eq;
            nonempty = at.nonempty;
            holds = at.holds;
            seg_base = at.seg_base;
          },
          run,
        ),
        (title at.seg at.opens, all),
      )

  -- A segment file that holds some payloads: that of a segment which does.
  pub record FileAt (base : ℕ) (ps : List Bytes) (f : SegFile) : Type 0 where
    pub seg : Segment
    pub holds : Holds codec laws seg ps
    pub seg_base : seg.base_index ≡ base
    pub base_eq : f.base ≡ base
    pub file_eq : f.file ≡ seg.file

  abbrev pub FileRun : ℕ → List (List Bytes) → List SegFile → Type 0
  FileRun base [] [] = Unit
  FileRun base (ps ∷ pss) (f ∷ rest) = FileAt base ps f × FileRun (base + length ps) pss rest
  FileRun base _ _ = ⊥

  copy_exactly :
      (s : Segment) (ps done qs rest : List Bytes) (n i base : ℕ) (out : Segment)
      → Holds codec laws s ps
      → ps ≡ done ++ (qs ++ rest)
      → n ≡ length qs
      → i ≡ length done
      → Writing codec laws caching on_open base [] out
      → (out' : Segment) × (copy codec caching on_open s n i out ≡ ok out')
        × Writing codec laws caching on_open base qs out'
  copy_exactly s ps done qs rest n i base out h e en ei w =
      let (out', c, w') =
        copy-Writing codec laws caching on_open s ps done qs rest i base [] out h e ei w in
      (out', ap (λ k. copy codec caching on_open s k i out) en ∙ c, w')

  split_segment-Split :
      (at base : ℕ) (watermark : Bytes) (s : Segment) (ps : List Bytes)
      → Holds codec laws s ps
      → s.base_index ≡ base
      → base < at
      → at < base + length ps
      → Titled s.header
      → Titled watermark
      → (prefix : Segment) × (suffix : SegFile) × (split_segment codec caching on_open at watermark
            s
          ≡ ok (prefix, suffix))
        × Holds codec laws prefix (take (at - base) ps)
        × (prefix.base_index ≡ base)
        × FileAt at (drop (at - base) ps) suffix
  unfolding split_segment
  split_segment-Split at base watermark s ps h eb low high title mark =
      let cut = at - s.base_index in
      let cut_eq : cut ≡ at - base = omega (arith, eb) in
      let front = take cut ps in
      let back = drop cut ps in
      let parts : ps ≡ front ++ back = sym (take-append-drop cut ps) in
      let front_length : cut ≡ length front = omega (arith, length-take cut ps, eb, low, high) in
      let back_length : s.count - cut ≡ length back =
        omega (arith, length-drop cut ps, h.count_eq) in
      let (p, ep, wp) =
        started-Writing codec laws caching on_open on_open s.base_index 0 s.header refl refl
          title in
      let (p', ep', wp') =
        copy_exactly s ps [] front back cut 0 s.base_index p h parts front_length refl wp in
      let (q, eq, wq) =
        started-Writing codec laws caching on_open on_open at 0 watermark refl refl mark in
      let (q', eq', wq') =
        copy_exactly s ps front back [] (s.count - cut) cut at q h
          (parts ∙ ap (λ t. front ++ t) (sym (append-nil back))) back_length front_length wq in
      let (r, er, hr, br) = reopened-Holds codec laws caching on_open s.base_index front p' wp' in
      (
        r,
        record { base = at; file = q'.file },
        rw (ep, ep', eq, eq', er) refl,
        subst (λ k. Holds codec laws r (take k ps)) cut_eq hr,
        br ∙ eb,
        record {
          seg = q';
          holds = subst (λ k. Holds codec laws q' (drop k ps)) cut_eq wq'.holds;
          seg_base = wq'.base_eq;
          base_eq = refl;
          file_eq = refl;
        },
      )

  -- Segments at or behind the index all move.
  moved_all :
      (at base : ℕ) (watermark : Bytes) (pss : List (List Bytes))
      (opened : List (SealedSeg × Segment))
      → PairRun base pss opened
      → at ≤ base
      → (files : List SegFile) × (cut_sealed codec caching on_open at watermark opened
          ≡ ok ([], files))
        × FileRun base pss files
  unfolding cut_sealed
  moved_all at base watermark [] [] r le = ([], refl, tt)
  moved_all at base watermark [] (p ∷ rest) r le = elim r [ ]
  moved_all at base watermark (ps ∷ pss) [] r le = elim r [ ]
  moved_all at base watermark (ps ∷ pss) (p ∷ rest) (here, r) le =
      let (files, e, run) = moved_all at (base + length ps) watermark pss rest r (omega arith) in
      let base_eq = here.base_eq in
      let last_eq = here.last_eq in
      let nonempty = here.nonempty in
      let behind : ltb p.0.last at ≡ false =
        le→ltb p.0.last at (omega (arith, last_eq, nonempty)) in
      let moves : leb at p.0.base ≡ true = ground (arith, base_eq) in
      let move : action at p.0 ≡ act_move = rw (behind, moves) refl in
      (
        record { base = p.0.base; file = p.1.file } ∷ files,
        rw (e, move) refl,
        (
          record {
            seg = p.1;
            holds = here.holds;
            seg_base = here.seg_base;
            base_eq = base_eq;
            file_eq = refl;
          },
          run,
        ),
      )

  -- What a cut gives: the entries below the index in what stays, the others in the files.
  pub record CutAt (at base : ℕ) (es : List Bytes) (r : Result (List SealedSeg × List SegFile))
      : Type 0 where
    pub kept : List SealedSeg
    pub moved : List SegFile
    pub cuts : r ≡ ok (kept, moved)
    pub kept_parts : List (List Bytes)
    pub moved_parts : List (List Bytes)
    pub stay : SealedRun codec laws caching on_open base kept_parts kept
    pub kept_eq : flatten kept_parts ≡ take (at - base) es
    pub leave : FileRun at moved_parts moved
    pub moved_eq : flatten moved_parts ≡ drop (at - base) es

  held-SealedAt :
      (base : ℕ) (ps : List Bytes) (r : SealedSeg × Segment)
      → PairAt base ps r
      → SealedAt codec laws caching on_open base ps (held codec caching on_open r)
  unfolding open_sealed
  held-SealedAt base ps (ss, s) h = record {
    base_eq = h.base_eq;
    last_eq = h.last_eq;
    nonempty = h.nonempty;
    seg = s;
    opens = refl;
    holds = h.holds;
    seg_base = h.seg_base;
  }

  wrap_open-SealedAt :
      (base : ℕ) (ps : List Bytes) (s : Segment)
      → Holds codec laws s ps
      → s.base_index ≡ base
      → 0 < length ps
      → SealedAt codec laws caching on_open base ps (wrap_open s)
  unfolding wrap_open open_sealed
  wrap_open-SealedAt base ps s h eb pos = record {
    base_eq = eb;
    last_eq = ground (arith, eb, h.count_eq);
    nonempty = pos;
    seg = s;
    opens = refl;
    holds = h;
    seg_base = eb;
  }

  -- The index lies inside the first segment, and behind its first entry.
  split_here :
      (at base : ℕ) (watermark : Bytes) (ps : List Bytes) (pss : List (List Bytes))
      (p : SealedSeg × Segment) (rest : List (SealedSeg × Segment))
      → PairAt base ps p
      → PairRun (base + length ps) pss rest
      → at ≤ p.0.last
      → base < at
      → Titled p.1.header
      → Titled watermark
      → CutAt at base (ps ++ flatten pss) (cut_sealed codec caching on_open at watermark (p ∷ rest))
  unfolding cut_sealed
  split_here at base watermark ps pss p rest here r high low title mark =
      let base_eq = here.base_eq in
      let last_eq = here.last_eq in
      let reaches : ltb p.0.last at ≡ false = le→ltb p.0.last at high in
      let inside : leb at p.0.base ≡ false = ground (arith, base_eq) in
      let split : action at p.0 ≡ act_split = rw (reaches, inside) refl in
      let c = at - base in
      let short : c ≤ length ps = omega (arith, last_eq) in
      let (files, e, run) =
        moved_all at (base + length ps) watermark pss rest r (omega (arith, last_eq)) in
      let (prefix, suffix, es, hp, bp, fs) =
        split_segment-Split at base watermark p.1 ps here.holds here.seg_base low
          (omega (arith, last_eq)) title mark in
      let next : base + length ps ≡ at + length (drop c ps) =
        omega (arith, length-drop c ps, last_eq) in
      record {
        kept = wrap_open prefix ∷ [];
        moved = suffix ∷ files;
        cuts = rw (e, split, es) refl;
        kept_parts = take c ps ∷ [];
        moved_parts = drop c ps ∷ pss;
        stay = (
          wrap_open-SealedAt base (take c ps) prefix hp bp
              (omega (arith, length-take c ps, last_eq)),
          tt,
        );
        kept_eq = append-nil (take c ps) ∙ sym (take_within c ps (flatten pss) short);
        leave = (fs, subst (λ n. FileRun n pss files) next run);
        moved_eq = sym (drop_within c ps (flatten pss) short);
      }

  pub cut_sealed-CutAt :
      (at base : ℕ) (watermark : Bytes) (pss : List (List Bytes))
      (opened : List (SealedSeg × Segment))
      → PairRun base pss opened
      → base ≤ at
      → All (λ (r : SealedSeg × Segment). Titled r.1.header) opened
      → Titled watermark
      → CutAt at base (flatten pss) (cut_sealed codec caching on_open at watermark opened)
  unfolding cut_sealed
  cut_sealed-CutAt at base watermark [] [] r le titles mark = record {
    kept = [];
    moved = [];
    cuts = refl;
    kept_parts = [];
    moved_parts = [];
    stay = tt;
    kept_eq = sym (take_all (at - base) [] (omega arith));
    leave = tt;
    moved_eq = sym (drop_all (at - base) [] (omega arith));
  }
  cut_sealed-CutAt at base watermark [] (p ∷ rest) r le titles mark = elim r [ ]
  cut_sealed-CutAt at base watermark (ps ∷ pss) [] r le titles mark = elim r [ ]
  cut_sealed-CutAt at base watermark (ps ∷ pss) (p ∷ rest) (here, r) le (title, titles) mark =
      let base_eq = here.base_eq in
      let last_eq = here.last_eq in
      let nonempty = here.nonempty in
      elim (Bool-cases (ltb p.0.last at)) [
        | inl below ↦
            let le' : base + length ps ≤ at = omega (arith, last_eq, ltb→lt p.0.last at below) in
            let keep : action at p.0 ≡ act_keep = rw below refl in
            let c = cut_sealed-CutAt at (base + length ps) watermark pss rest r le' titles mark in
            let shift : at - (base + length ps) ≡ at - base - length ps = omega arith in
            record {
              kept = held codec caching on_open p ∷ c.kept;
              moved = c.moved;
              cuts = rw (c.cuts, keep) refl;
              kept_parts = ps ∷ c.kept_parts;
              moved_parts = c.moved_parts;
              stay = (held-SealedAt base ps p here, c.stay);
              kept_eq =
                  ap (λ t. ps ++ t) (c.kept_eq ∙ ap (λ n. take n (flatten pss)) shift)
                  ∙ sym (take_behind (at - base) ps (flatten pss) (omega arith));
              leave = c.leave;
              moved_eq =
                  c.moved_eq
                  ∙ ap (λ n. drop n (flatten pss)) shift
                  ∙ sym (drop_behind (at - base) ps (flatten pss) (omega arith));
            }
        | inr reaches ↦
            let ge = ge_of_not_ltb p.0.last at reaches in
            elim (Bool-cases (ltb base at)) [
              | inl inside ↦
                  split_here at base watermark ps pss p rest here r ge (ltb→lt base at inside) title
                    mark
              | inr at_start ↦
                  let same : base ≡ at = omega (arith, ge_of_not_ltb base at at_start) in
                  let (files, e, run) =
                    moved_all at base watermark (ps ∷ pss) (p ∷ rest) (here, r) (omega arith) in
                  let nothing : 0 ≡ at - base = omega arith in
                  record {
                    kept = [];
                    moved = files;
                    cuts = e;
                    kept_parts = [];
                    moved_parts = ps ∷ pss;
                    stay = tt;
                    kept_eq = ap (λ n. take n (ps ++ flatten pss)) nothing;
                    leave = subst (λ n. FileRun n (ps ∷ pss) files) same run;
                    moved_eq = ap (λ n. drop n (ps ++ flatten pss)) nothing;
                  }
            ]
      ]
