-- ===== src/Disk/Fork/Outcomes.antt =====
-- What a fork may end in, and what it makes of the entries of the log.
use mathlib.Core.Path.{subst}
use figwal.Common.{
  ℕ, ◌+◌, ◌-◌, ◌≤◌, ◌<◌, ◌≡◌, refl, sym, ap, ◌∙◌, arith, Bool, true, false, not, ◌&&◌, Option, none,
  some, List, [], ◌∷◌, ◌++◌, ltb, length, length-take, take, drop, drop_all, append-nil, flatten,
  All, Bool-cases, inl, inr, ◌⊎◌, if◌then◌else◌,
}
use figwal.Result.{Error, Result, ok, err, fork_conflict, ◌>>=◌}
use figwal.Segment.Bytes.{Bytes}
use figwal.Segment.Codec.{SegmentCodec, CodecLaws}
use figwal.Segment.State.{Segment}
use figwal.Disk.State.{SealedSeg, Log, Fold, is_empty, sealed_off}
use figwal.Disk.State.Holds.{SealedRun, Owns, fresh_index}
use figwal.Disk.State.Growth.{Folds}
use figwal.Disk.Fork.{
  SegFile, ForkDir, Forked, data_moves, has_boundary, old_name, creates_old, rehomed, among,
  sealed_for_fork, with_handles, fork_watermark, cut_sealed, old_future_dir, fork_built,
  fork_unless, fork_opened, fork_ended, fork, fork_refusal, fork_range,
}
use figwal.Disk.Fork.Cuts.{
  PairRun, open_all-PairRun, Titled, TitledSeg, FileAt, FileRun, CutAt, cut_sealed-CutAt,
}
use figwal.Disk.Fork.Splits.{
  TitledLog, Sealed, sealed_for_fork-Sealed, range_bounds, fork_watermark-Titled,
  watermark_files-FileAt, still_below,
}

module _ (codec : SegmentCodec) (laws : CodecLaws codec) (caching : Bool)
    (on_open : Option Fold) where
  -- The old future holds the entries from the index on; there is none only where there are none.
  abbrev pub OldFuture : ℕ → List Bytes → Option ForkDir → Type 0
  OldFuture at later none = later ≡ []
  OldFuture at later (some d) =
      (boundary : List SegFile) × (moved : List SegFile) × (parts : List (List Bytes))
      × (d.fork_base ≡ at)
      × (d.files ≡ boundary ++ moved)
      × All (FileAt codec laws caching on_open at []) boundary
      × FileRun codec laws caching on_open at parts moved
      × (flatten parts ≡ later)

  -- What a fork at an index makes: the trunk is read-only and keeps the entries below the index, the
  -- child begins at it with nothing, and the old future has all other entries.
  pub record Forks (at base : ℕ) (es : List Bytes) (f : Forked) (trunk : Log) : Type 0 where
    pub keeps :
        (base ≡ fresh_index trunk) ⊎ (base < at)
        → Owns codec laws caching on_open trunk base (take (at - base) es)
    pub closed : trunk.read_only ≡ true
    pub child_base : f.child.fork_base ≡ at
    pub child_empty : All (FileAt codec laws caching on_open at []) f.child.files
    pub old : OldFuture at (drop (at - base) es) f.old_future

  -- Behind the guards, a fork fails only where the old future's name is taken, or in header mode.
  abbrev pub Obstacle : Bytes → List Bytes → Error → Type 0
  Obstacle name entries e =
      ((e ≡ fork_conflict) × (among name entries ≡ true)) ⊎ ((fold : Fold) × (on_open ≡ some fold))

  abbrev pub Outcome : Bytes → List Bytes → ℕ → ℕ → List Bytes → Result Forked × Log → Type 0
  Outcome name entries at base es (err e, l) =
      Owns codec laws caching on_open l base es × Obstacle name entries e
  Outcome name entries at base es (ok f, trunk) = Forks at base es f trunk

  kept_entries :
      (l : Log) (at base : ℕ) (es : List Bytes) (kept : List SealedSeg) (parts : List (List Bytes))
      (visible : Bool)
      → 0 < base
      → base ≤ at
      → at ≤ base + length es
      → SealedRun codec laws caching on_open base parts kept
      → flatten parts ≡ take (at - base) es
      → (base ≡ fresh_index l) ⊎ (base < at)
      → Owns codec laws caching on_open
          (record l { sealed = kept; active = none; read_only = true; kids = visible })
          base
          (take (at - base) es)
  kept_entries l at base es kept parts visible pos low high run e start = record {
    pss = parts;
    live = [];
    parts = sym e ∙ sym (append-nil (flatten parts));
    positive = pos;
    sealed_run = run;
    active_run = refl;
    fresh = λ nothing. elim start [
      | inl here ↦ here
      | inr later ↦
          absurd (omega (arith, ap length nothing, length-take (at - base) es, later, high))
    ];
  }

  old_future :
      (b : Bool) (at : ℕ) (later : List Bytes) (boundary moved : List SegFile) (homed : List Bytes)
      (parts : List (List Bytes))
      → All (FileAt codec laws caching on_open at []) boundary
      → FileRun codec laws caching on_open at parts moved
      → flatten parts ≡ later
      → (b ≡ false → later ≡ [])
      → OldFuture at later (
          old_future_dir codec caching on_open b
            (record { fork_base = at; files = boundary ++ moved; kids = homed }))
  old_future true at later boundary moved homed parts all run e absent =
      (boundary, moved, parts, refl, refl, all, run, e)
  old_future false at later boundary moved homed parts all run e absent = absent refl

  boundary_mode :
      (b : Bool) (w : Bytes)
      → Titled codec laws caching on_open w
      → (fold : Fold) → (if b then on_open else none) ≡ some fold
      → laws.canonical w ≡ true
  boundary_mode true w t fold e = t fold e
  boundary_mode false w t fold e = cc

  fork_built-Outcome :
      (l : Log) (at base : ℕ) (es : List Bytes) (child : Bytes) (create : Bool) (name : Bytes)
      (entries kids homed : List Bytes) (w : Bytes) (opened : List (SealedSeg × Segment))
      (pss : List (List Bytes))
      → 0 < base
      → base ≤ at
      → at ≤ base + length es
      → flatten pss ≡ es
      → PairRun codec laws caching on_open base pss opened
      → All (λ (r : SealedSeg × Segment). Titled codec laws caching on_open r.1.header) opened
      → Titled codec laws caching on_open w
      → (create ≡ false → base + length es ≤ at)
      → Outcome name entries at base es (
          fork_ended codec caching on_open l
            (fork_built codec caching on_open l at child create name kids homed w opened))
  unfolding fork_built
  fork_built-Outcome l at base es child create name entries kids homed w opened pss pos low high
        whole run titles mark no_old =
      let (files, ef, empty) =
        watermark_files-FileAt codec laws caching on_open on_open at l.segment_size w mark in
      let b = create && not (has_boundary at l.sealed) in
      let (boundary, eb, all) =
        watermark_files-FileAt codec laws caching on_open (if b then on_open else none) at
          l.segment_size w (boundary_mode b w mark) in
      let c =
        subst
          (λ t.
            CutAt codec laws caching on_open at base t
              (cut_sealed codec caching on_open at w opened))
          whole
          (cut_sealed-CutAt codec laws caching on_open at base w pss opened run low titles mark) in
      rw (ef, eb, c.cuts)
        (record {
          keeps = kept_entries l at base es c.kept c.kept_parts _ pos low high c.stay c.kept_eq;
          closed = refl;
          child_base = refl;
          child_empty = empty;
          old =
              old_future create at (drop (at - base) es) boundary c.moved homed c.moved_parts all
                c.leave c.moved_eq
                (λ none_made. drop_all (at - base) es (omega (arith, no_old none_made)));
        })

  watermark_fails :
      (o : Option Fold) (l : Log) (chain : List Log) (at : ℕ) (empty : Bool) (e : Error)
      → fork_watermark codec caching on_open o l chain at empty ≡ err e
      → (fold : Fold) × (o ≡ some fold)
  watermark_fails none l chain at empty e fails = cc
  watermark_fails (some fold) l chain at empty e fails = (fold, refl)

  no_old_future :
      (old : Bytes) (moves : Bool) (homed : List Bytes)
      → creates_old old moves homed ≡ false
      → moves ≡ false
  no_old_future old moves homed e = ground (arith, e)

  fork_opened-Outcome :
      (own : Bytes) (entries kids : List Bytes) (l : Log) (chain : List Log) (at base : ℕ)
      (es : List Bytes) (child old : Bytes) (rehome : Option (List Bytes)) (empty : Bool)
      (opened : List (SealedSeg × Segment))
      → (s : Sealed codec laws caching on_open l base es) → base ≤ at
      → at ≤ base + length es
      → PairRun codec laws caching on_open base s.owns.pss opened
      → All (λ (r : SealedSeg × Segment). Titled codec laws caching on_open r.1.header) opened
      → ((a : Segment) → l.active ≡ some a → Titled codec laws caching on_open a.header)
      → Folds codec laws caching on_open on_open
      → Outcome (old_name own old) entries at base es (
          fork_ended codec caching on_open l (
            fork_opened codec caching on_open own entries kids l chain at child old rehome empty
              opened))
  unfolding fork_opened
  fork_opened-Outcome own entries kids l chain at base es child old rehome empty opened s low high
        run titles title folds =
      by_watermark
        (fork_watermark codec caching on_open on_open
          (record l { sealed = with_handles codec caching on_open opened }) chain at empty)
        refl
    where
      moves : Bool
      moves = data_moves at l.sealed

      homed : List Bytes
      homed = rehomed entries kids moves rehome

      by_watermark :
          (w : Result Bytes)
          → fork_watermark codec caching on_open on_open
              (record l { sealed = with_handles codec caching on_open opened })
              chain
              at
              empty
            ≡ w
          → Outcome (old_name own old) entries at base es (
              fork_ended codec caching on_open l (
                w >>= (λ mark.
                  fork_unless codec caching on_open
                    (creates_old old moves homed && among (old_name own old) entries)
                    (fork_built codec caching on_open l at child
                      (creates_old old moves homed)
                      (old_name own old)
                      kids
                      homed
                      mark
                      opened))))
      by_watermark (err e) fails = (s.owns, inr (watermark_fails on_open _ chain at empty e fails))
      by_watermark (ok mark) given =
          elim (Bool-cases (creates_old old moves homed && among (old_name own old) entries)) [
            | inl taken ↦ rw taken (s.owns, inl (refl, ground (arith, taken)))
            | inr new ↦ rw new (
                fork_built-Outcome l at base es child (creates_old old moves homed)
                  (old_name own old) entries kids homed mark opened s.owns.pss s.owns.positive low
                  high s.whole run titles
                  (fork_watermark-Titled codec laws caching on_open on_open _ chain at empty mark
                    refl folds title given)
                  (λ none_made.
                    subst (λ t. base + length t ≤ at) s.whole
                      (still_below codec laws caching on_open at base s.owns.pss l.sealed
                        s.owns.sealed_run (no_old_future old moves homed none_made) low)))
          ]

  sealed_active :
      (l : Log) (o : Option Segment) (a : Segment)
      → l.active ≡ o
      → (sealed_for_fork l o (sealed_off codec caching on_open l)).active ≡ some a
      → o ≡ some a
  unfolding sealed_off
  sealed_active l none a e e' = sym e ∙ e'
  sealed_active l (some b) a e e' = elim (Bool-cases (ltb 0 b.count)) [
    | inl used ↦ let impossible : none ≡ some a = sym (rw used refl) ∙ e' in cc
    | inr unused ↦
        let same_log : (sealed_for_fork l (some b) (sealed_off codec caching on_open l)) ≡ l =
          rw unused refl in
        sym e ∙ ap (λ (x : Log). x.active) (sym same_log) ∙ e'
  ]

  refusal-range :
      (own : Bytes) (entries : List Bytes) (l : Log) (at : ℕ) (child old : Bytes)
      → fork_refusal own entries l at child old ≡ none
      → fork_range l at ≡ true
  unfolding fork_refusal
  refusal-range own entries l at child old e = ground (arith, e)

  -- On a log that holds some entries, whose headers, if it has any, are such as the codec frames and
  -- the caller's fold gives, a fork that the guards let through splits the entries at the index: the
  -- trunk keeps those below it and is read-only, the old future gets the others, and the child begins
  -- at the index with none. It fails, and the log keeps all its entries, only where the name of the
  -- old future is taken or the log has headers, which the caller's fold makes.
  pub fork-Outcome :
      (own : Bytes) (entries kids : List Bytes) (l : Log) (chain : List Log) (at base : ℕ)
      (es : List Bytes) (child old : Bytes) (rehome : Option (List Bytes))
      → Owns codec laws caching on_open l base es
      → TitledLog codec laws caching on_open l
      → Folds codec laws caching on_open on_open
      → fork_refusal own entries l at child old ≡ none
      → Outcome
          (old_name own old)
          entries
          at
          base
          es
          (fork codec caching on_open own entries kids l chain at child old rehome)
  unfolding fork
  fork-Outcome own entries kids l chain at base es child old rehome h titled folds allowed =
      let s = sealed_for_fork-Sealed codec laws caching on_open l base es l.active refl h titled in
      let (low, high) =
        range_bounds codec laws caching on_open l base at es h
          (refusal-range own entries l at child old allowed) in
      let (opened, e, run, titles) =
        open_all-PairRun codec laws caching on_open base s.owns.pss _ s.owns.sealed_run s.titled in
      rw (allowed, e)
        (fork_opened-Outcome own entries kids _ chain at base es child old rehome (is_empty l)
          opened s low high run titles
          (λ a ea. titled.active_title a (sealed_active l l.active a refl ea)) folds)

plain_title :
    (codec : SegmentCodec) (laws : CodecLaws codec) (caching : Bool) (header : Bytes)
    → Titled codec laws caching none header
plain_title codec laws caching header fold on = cc

plain_segs :
    (codec : SegmentCodec) (laws : CodecLaws codec) (caching : Bool) (sealed : List SealedSeg)
    → All (TitledSeg codec laws caching none) sealed
plain_segs codec laws caching [] = tt
plain_segs codec laws caching (ss ∷ rest) =
    (λ s e. plain_title codec laws caching s.header, plain_segs codec laws caching rest)

pub plain_titles :
    (codec : SegmentCodec) (laws : CodecLaws codec) (caching : Bool) (l : Log)
    → TitledLog codec laws caching none l
plain_titles codec laws caching l = record {
  sealed_titles = plain_segs codec laws caching l.sealed;
  active_title = λ a e. plain_title codec laws caching a.header;
}

succeeds :
    (codec : SegmentCodec) (laws : CodecLaws codec) (caching : Bool) (name : Bytes)
    (entries : List Bytes) (at base : ℕ) (es : List Bytes) (r : Result Forked × Log)
    → among name entries ≡ false
    → Outcome codec laws caching none name entries at base es r
    → (f : Forked) × (r.0 ≡ ok f) × Forks codec laws caching none at base es f r.1
succeeds codec laws caching name entries at base es (ok f, l) free o = (f, refl, o)
succeeds codec laws caching name entries at base es (err e, l) free (h, inl (_, taken)) =
    absurd (cc)
succeeds codec laws caching name entries at base es (err e, l) free (h, inr (fold, on)) =
    absurd (cc)

-- On a log without headers that holds some entries, a fork that the guards let through succeeds where
-- the name of the old future is free; the trunk is then read-only and keeps the entries below the
-- index, the old future has the others, and the child begins at the index with none.
pub fork-Forks :
    (codec : SegmentCodec) (laws : CodecLaws codec) (caching : Bool) (own : Bytes)
    (entries kids : List Bytes) (l : Log) (chain : List Log) (at base : ℕ) (es : List Bytes)
    (child old : Bytes) (rehome : Option (List Bytes))
    → Owns codec laws caching none l base es
    → fork_refusal own entries l at child old ≡ none
    → among (old_name own old) entries ≡ false
    → (f : Forked) × ((fork codec caching none own entries kids l chain at child old rehome).0
        ≡ ok f)
      × Forks codec laws caching none at base es f
          (fork codec caching none own entries kids l chain at child old rehome).1
fork-Forks codec laws caching own entries kids l chain at base es child old rehome h allowed free =
    succeeds codec laws caching (old_name own old) entries at base es _ free (
      fork-Outcome codec laws caching none own entries kids l chain at base es child old rehome h
        (plain_titles codec laws caching l) tt allowed)
