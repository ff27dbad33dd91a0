-- ===== src/Disk/Fork/Copies.antt =====
-- Copying payloads of one segment to a new one, and opening that again.
use mathlib.Core.Path.{subst}
use figwal.Common.{
  ℕ, suc, ◌+◌, ◌≡◌, refl, sym, ap, ◌∙◌, arith, Bool, true, false, Option, none, some, List, [], ◌∷◌,
  ◌++◌, length, length-append, get_elem?, get_elem?-append_right, append_assoc, append-nil, flatten,
}
use figwal.Result.{Result, ok, err}
use figwal.Segment.Bytes.{Bytes}
use figwal.Segment.Codec.{SegmentCodec, CodecLaws}
use figwal.Segment.State.{Segment, create, append, read_index, open_ro}
use figwal.Segment.State.Holds.{Holds, Frames, locate}
use figwal.Segment.State.Append.{
  create-Holds, write_header-Holds, append-Appended, Appended, append-mode, write_header-mode,
}
use figwal.Segment.State.Reads.{read_index-Holds}
use figwal.Segment.State.Recovery.{recover-Opened}
use figwal.Disk.State.{Fold, headered}
use figwal.Disk.Fork.{appended, started, copy}

module _ (codec : SegmentCodec) (laws : CodecLaws codec) (caching : Bool)
    (on_open : Option Fold) where
  -- A payload that a segment holds is one that the codec frames.
  pub canonical_at :
      (s : Segment) (ps : List Bytes) (i : ℕ) (p : Bytes)
      → Holds codec laws s ps
      → get_elem? ps i ≡ some p
      → laws.canonical p ≡ true
  canonical_at s ps i p h at = (locate codec laws s.base_index 0 i ps h.fs p h.framed at).canon

  -- A segment under construction: writable, without a bound, and in the log's mode
  pub record Writing (base : ℕ) (os : List Bytes) (s : Segment) : Type 0 where
    pub holds : Holds codec laws s os
    pub writable : s.read_only ≡ false
    pub unbounded : s.max_size ≡ 0
    pub base_eq : s.base_index ≡ base
    pub mode : s.has_header ≡ headered codec caching on_open on_open

  appended-Writing :
      (base : ℕ) (os : List Bytes) (s : Segment) (p f : Bytes) (r : Result ℕ × Segment)
      → Writing base os s
      → Appended codec laws s os p f r
      → r.1.has_header ≡ s.has_header
      → (s' : Segment) × (appended codec caching on_open r ≡ ok s')
        × Writing base (os ++ (p ∷ [])) s'
  appended-Writing base os s p f (ok off, s') w (eo, holds, bound, eb, er, em) mode = (
    s',
    refl,
    record {
      holds = holds;
      writable = er ∙ w.writable;
      unbounded = em ∙ w.unbounded;
      base_eq = eb ∙ w.base_eq;
      mode = mode ∙ w.mode;
    },
  )
  appended-Writing base os s p f (err e, s') w (ee, same, pos, past) mode =
      absurd (omega (arith, pos, w.unbounded))

  append-Writing :
      (base : ℕ) (os : List Bytes) (s : Segment) (p : Bytes)
      → Writing base os s
      → laws.canonical p ≡ true
      → (s' : Segment) × (appended codec caching on_open (append codec s p) ≡ ok s')
        × Writing base (os ++ (p ∷ [])) s'
  append-Writing base os s p w c =
      let (f, e) = laws.frame_ok (s.base_index + s.count) p c in
      appended-Writing base os s p f (append codec s p) w
        (append-Appended codec laws s os p f w.holds w.writable c e) (append-mode codec laws s p)

  -- Copying takes exactly the payloads asked for, and does not fail.
  pub copy-Writing :
      (s : Segment) (ps done qs rest : List Bytes) (i base : ℕ) (os : List Bytes) (out : Segment)
      → Holds codec laws s ps
      → ps ≡ done ++ (qs ++ rest)
      → i ≡ length done
      → Writing base os out
      → (out' : Segment) × (copy codec caching on_open s (length qs) i out ≡ ok out')
        × Writing base (os ++ qs) out'
  unfolding copy
  copy-Writing s ps done [] rest i base os out h e ei w =
      (out, refl, subst (λ t. Writing base t out) (sym (append-nil os)) w)
  copy-Writing s ps done (q ∷ qs) rest i base os out h e ei w =
      let at : get_elem? ps i ≡ some q =
        ap (λ t. get_elem? t i) e
        ∙ ap (get_elem? (done ++ (q ∷ (qs ++ rest)))) (omega (arith, ei))
        ∙ get_elem?-append_right done (q ∷ (qs ++ rest)) 0 in
      let read : (read_index codec caching s i).0 ≡ ok q =
        (read_index-Holds codec laws caching s ps i h).0 ∙ rw at refl in
      let (mid, step, w') = append-Writing base os out q w (canonical_at s ps i q h at) in
      let (out', more, w'') =
        copy-Writing s ps (done ++ (q ∷ [])) qs rest (suc i) base (os ++ (q ∷ [])) mid h
          (e ∙ sym (append_assoc done (q ∷ []) (qs ++ rest)))
          (omega (arith, ei, length-append done (q ∷ []))) w' in
      (
        out',
        rw (read, step) more,
        subst (λ t. Writing base t out') (append_assoc os (q ∷ []) qs) w'',
      )

  -- A new segment, with its header in header mode
  pub started-Writing :
      (o : Option Fold) (base max : ℕ) (header : Bytes)
      → headered codec caching on_open o ≡ headered codec caching on_open on_open
      → max ≡ 0
      → ((fold : Fold) → o ≡ some fold → laws.canonical header ≡ true)
      → (s : Segment) × (started codec caching on_open o base max header ≡ ok s) × Writing base [] s
  unfolding create
  started-Writing none base max header m bound c = (
    create base max,
    refl,
    record {
      holds = create-Holds codec laws base max;
      writable = refl;
      unbounded = bound;
      base_eq = refl;
      mode = m;
    },
  )
  started-Writing (some fold) base max header m bound c =
      let (f, e) = laws.frame_ok 0 header (c fold refl) in
      let (s, w, holds, he, be, me, re) =
        write_header-Holds codec laws base max header f (c fold refl) e in
      (
        s,
        w,
        record {
          holds = holds;
          writable = re;
          unbounded = me ∙ bound;
          base_eq = be;
          mode = write_header-mode codec laws base max header f s e w ∙ m;
        },
      )

  -- A segment that was written opens again and holds the same.
  pub reopened-Holds :
      (base : ℕ) (os : List Bytes) (s : Segment)
      → Writing base os s
      → (s' : Segment) × (open_ro codec s.file base (headered codec caching on_open on_open)
          ≡ ok s')
        × Holds codec laws s' os
        × (s'.base_index ≡ base)
  unfolding open_ro
  reopened-Holds base os s w =
      let h = w.holds in
      let torn : h.torn ≡ [] = h.no_torn w.writable in
      let (s', e, opened) =
        recover-Opened codec laws s.file base 0 s.has_header true s.header h.hd os h.fs h.torn
          h.headed h.file_eq (subst (λ b. Frames codec laws b os h.fs) w.base_eq h.framed)
          (ap (λ t. codec.scan_from (length h.hd + length (flatten h.fs)) t) torn
            ∙ laws.scan_end (length h.hd + length (flatten h.fs))) in
      (s', ap (λ b. open_ro codec s.file base b) (sym w.mode) ∙ e, opened.holds, opened.base_eq)
