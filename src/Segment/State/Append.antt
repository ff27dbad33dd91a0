-- ===== src/Segment/State/Append.antt =====
-- Appends and headers keep the segment well formed, and no branch loses a record.
use figwal.Common.{
  ℕ, ◌+◌, ◌≤◌, ◌<◌, ◌≡◌, refl, sym, ap, ◌∙◌, arith, Bool, true, false, Option, none, some, List, [],
  ◌∷◌, ◌++◌, inl, inr, length, flatten, length-append, flatten-append_one, drop_all, append_assoc,
  append-nil, ltb, Bool-cases, ◌&&◌, if◌then◌else◌,
}
use figwal.Result.{Result, ok, err, full, segment_read_only}
use figwal.Segment.Bytes.{Bytes, write_at, write_at_end}
use figwal.Segment.Codec.{SegmentCodec, CodecLaws}
use figwal.Segment.State.{
  Segment, Block, slice_header_bytes, create, append, append_frame, write_header, extend_block,
  extended,
}
use figwal.Segment.State.Holds.{Holds, starts, Frames-append, starts-append, block_size, Coherent}

block_size-append :
    (ps : List Bytes) (p : Bytes)
    → block_size (ps ++ (p ∷ [])) ≡ block_size ps + length p + slice_header_bytes
block_size-append [] p = omega arith
block_size-append (q ∷ ps) p = omega (arith, block_size-append ps p)

module _ (codec : SegmentCodec) (laws : CodecLaws codec) where
  -- A created segment holds nothing.
  pub create-Holds : (base max : ℕ) → Holds codec laws (create base max) []
  unfolding create
  create-Holds base max = record {
    hd = [];
    fs = [];
    torn = [];
    file_eq = refl;
    size_eq = refl;
    no_torn = λ _. refl;
    count_eq = refl;
    offsets_eq = refl;
    framed = tt;
    headed = (refl, refl);
    cached = tt;
  }

  -- The fields of a segment behind an append of the frame `f`.
  abbrev grown : Segment → Bytes → Option Block → Segment
  grown s f o = record s {
    file = write_at s.file s.size f;
    size = s.size + length f;
    offsets = s.offsets ++ (s.size ∷ []);
    count = s.count + 1;
    block = o;
  }

  -- A writable segment has no bytes behind its frames.
  pub file_whole :
      (s : Segment) (ps : List Bytes) (h : Holds codec laws s ps)
      → s.read_only ≡ false
      → (s.file ≡ h.hd ++ flatten h.fs) × (s.size ≡ length s.file)
  file_whole s ps h w =
      let e : s.file ≡ h.hd ++ flatten h.fs =
        h.file_eq
        ∙ ap (λ t. h.hd ++ (flatten h.fs ++ t)) (h.no_torn w)
        ∙ ap (λ t. h.hd ++ t) (append-nil (flatten h.fs)) in
      (e, h.size_eq ∙ sym (length-append h.hd (flatten h.fs)) ∙ sym (ap length e))

  grown-Holds :
      (s : Segment) (ps : List Bytes) (p f : Bytes) (o : Option Block)
      → Holds codec laws s ps
      → s.read_only ≡ false
      → laws.canonical p ≡ true
      → codec.frame (s.base_index + s.count) p ≡ ok f
      → Coherent o (ps ++ (p ∷ []))
      → Holds codec laws (grown s f o) (ps ++ (p ∷ []))
  grown-Holds s ps p f o h w c e co = record {
    hd = h.hd;
    fs = h.fs ++ (f ∷ []);
    torn = [];
    file_eq =
        let (whole, size) = file_whole s ps h w in
        ap (λ n. write_at s.file n f) size
        ∙ write_at_end s.file f
        ∙ ap (λ t. t ++ f) whole
        ∙ append_assoc h.hd (flatten h.fs) f
        ∙ ap (λ t. h.hd ++ t)
            (sym (append-nil (flatten (h.fs ++ (f ∷ []))) ∙ flatten-append_one h.fs f));
    size_eq =
        omega
          (arith, h.size_eq, ap length (flatten-append_one h.fs f), length-append (flatten h.fs) f);
    no_torn = λ _. refl;
    count_eq = omega (arith, h.count_eq, length-append ps (p ∷ []));
    offsets_eq =
        ap (λ os. os ++ (s.size ∷ [])) h.offsets_eq
        ∙ ap (λ n. starts (length h.hd) h.fs ++ (n ∷ [])) h.size_eq
        ∙ sym (starts-append (length h.hd) h.fs f);
    framed =
        Frames-append codec laws s.base_index ps h.fs p f h.framed c
          (ap (λ n. codec.frame (s.base_index + n) p) (sym h.count_eq) ∙ e);
    headed = h.headed;
    cached = co;
  }

  extended-Coherent :
      (ps : List Bytes) (p : Bytes) (o : Option Block)
      → Coherent o ps
      → Coherent (extended p o) (ps ++ (p ∷ []))
  unfolding extended
  extended-Coherent ps p none c = tt
  extended-Coherent ps p (some b) (pe, be) =
      (ap (λ t. t ++ (p ∷ [])) pe, omega (arith, block_size-append ps p))

  -- What an append of `p`, framed as `f`, may answer.
  abbrev pub Appended : Segment → List Bytes → Bytes → Bytes → Result ℕ × Segment → Type 0
  Appended s ps p f (ok off, s') =
      (off ≡ s.size)
      × Holds codec laws s' (ps ++ (p ∷ []))
      × (0 < s.max_size → s'.size ≤ s.max_size)
      × (s'.base_index ≡ s.base_index)
      × (s'.read_only ≡ s.read_only)
      × (s'.max_size ≡ s.max_size)
  Appended s ps p f (err e, s') =
      (e ≡ full) × (s' ≡ s) × (0 < s.max_size) × (s.max_size < s.size + length f)

  append_frame-Appended :
      (s : Segment) (ps : List Bytes) (p f : Bytes)
      → Holds codec laws s ps
      → s.read_only ≡ false
      → laws.canonical p ≡ true
      → codec.frame (s.base_index + s.count) p ≡ ok f
      → Appended s ps p f (append_frame codec s p (ok f))
  unfolding append_frame extend_block
  append_frame-Appended s ps p f h w c e =
      elim (Bool-cases (ltb 0 s.max_size && ltb s.max_size (s.size + length f))) [
        | inl past ↦ rw past (refl, refl, ground arith, ground arith)
        | inr within ↦ rw within (
          refl,
          grown-Holds s ps p f (extended p s.block) h w c e
              (extended-Coherent ps p s.block h.cached),
          ground arith,
          refl,
          refl,
          refl,
        )
      ]

  -- An append to a writable segment that holds `ps` either stores `p` behind them, at the offset
  -- that was the size and within the size bound, or answers `full` and changes nothing, and this
  -- only where the frame does not fit.
  pub append-Appended :
      (s : Segment) (ps : List Bytes) (p f : Bytes)
      → Holds codec laws s ps
      → s.read_only ≡ false
      → laws.canonical p ≡ true
      → codec.frame (s.base_index + s.count) p ≡ ok f
      → Appended s ps p f (append codec s p)
  unfolding append
  append-Appended s ps p f h w c e = simp w (rw e (append_frame-Appended s ps p f h w c e))

  append_frame-mode :
      (s : Segment) (p : Bytes) (r : Result Bytes)
      → (append_frame codec s p r).1.has_header ≡ s.has_header
  unfolding append_frame extend_block
  append_frame-mode s p (err e) = refl
  append_frame-mode s p (ok f) = ground arith

  -- An append leaves a segment with a header or without one, as it was.
  pub append-mode : (s : Segment) (p : Bytes) → (append codec s p).1.has_header ≡ s.has_header
  unfolding append
  append-mode s p =
      either s.read_only (append_frame codec s p (codec.frame (s.base_index + s.count) p))
        (append_frame-mode s p (codec.frame (s.base_index + s.count) p))
    where
      either :
          (b : Bool) (r : Result ℕ × Segment)
          → r.1.has_header ≡ s.has_header
          → (if b then (err segment_read_only, s) else r).1.has_header ≡ s.has_header
      either true r h = refl
      either false r h = h

  mode_of : Result Segment → Bool
  mode_of (err e) = true
  mode_of (ok s) = s.has_header

  -- A segment to which a header is written has one.
  pub write_header-mode :
      (base max : ℕ) (h f : Bytes) (s : Segment)
      → codec.frame 0 h ≡ ok f
      → write_header codec (create base max) h ≡ ok s
      → s.has_header ≡ true
  unfolding write_header create mode_of
  write_header-mode base max h f s e w = sym (ap mode_of w) ∙ rw e refl

  -- A header written to a fresh segment is there, uncounted, and the segment holds nothing yet.
  pub write_header-Holds :
      (base max : ℕ) (h f : Bytes)
      → laws.canonical h ≡ true
      → codec.frame 0 h ≡ ok f
      → (s : Segment) × (write_header codec (create base max) h ≡ ok s)
        × Holds codec laws s []
        × (s.header ≡ h)
        × (s.base_index ≡ base)
        × (s.max_size ≡ max)
        × (s.read_only ≡ false)
  unfolding write_header create write_at
  write_header-Holds base max h f c e = (
    record (create base max) { file = f ++ []; size = length f; has_header = true; header = h },
    rw (e, drop_all {A = ℕ} (0 + length f) [] (omega arith)),
    record {
      hd = f;
      fs = [];
      torn = [];
      file_eq = refl;
      size_eq = omega arith;
      no_torn = λ _. refl;
      count_eq = refl;
      offsets_eq = refl;
      framed = tt;
      headed = (c, e);
      cached = tt;
    },
    refl,
    refl,
    refl,
    refl,
  )
