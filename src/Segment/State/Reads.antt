-- ===== src/Segment/State/Reads.antt =====
-- What a segment that holds `ps` answers to its reads, from the file and from the payload block.
use mathlib.Core.Path.{ap₂}
use figwal.Common.{
  ℕ, zero, suc, ◌+◌, ◌≡◌, refl, sym, ap, ◌∙◌, arith, Bool, true, false, Option, none, some, List,
  [], ◌∷◌, ◌++◌, inl, inr, length, get_elem?, length-append, append_assoc, append-nil,
  get_elem?-append_right, get_elem?_past, get_elem?_within, leb, leb→le, lt_of_not_leb, Bool-cases,
}
use figwal.Result.{ok, err, out_of_range}
use figwal.Segment.Bytes.{Bytes}
use figwal.Segment.Codec.{SegmentCodec, CodecLaws}
use figwal.Segment.State.{
  Segment, Block, or_size, read_span, read_record, read_all_loop, read_all_payloads, read_index,
  cached_payloads, resident_or_load, from_block,
}
use figwal.Segment.State.Holds.{Holds, locate, block_size, Coherent, plus_zero}

module _ (codec : SegmentCodec) (laws : CodecLaws codec) where
  read_span_located :
      (file front f back p : Bytes) (o : Option ℕ) (next i : ℕ)
      → file ≡ front ++ (f ++ back)
      → o ≡ some (length front)
      → next ≡ length front + length f
      → laws.canonical p ≡ true
      → codec.frame i p ≡ ok f
      → read_span codec file o next ≡ ok p
  unfolding read_span
  read_span_located file front f back p o next i ef eo en c e =
      rw (ef, eo, en, laws.read_back i p f front back c e)

  -- The read of a record from the file gives the payload that the segment holds there.
  pub read_record-Holds :
      (s : Segment) (ps : List Bytes) (k : ℕ) (p : Bytes)
      → Holds codec laws s ps
      → get_elem? ps k ≡ some p
      → read_record codec s k ≡ ok p
  unfolding read_record
  read_record-Holds s ps k p h e =
      let l = locate codec laws s.base_index (length h.hd) k ps h.fs p h.framed e in
      let start : get_elem? s.offsets k ≡ some (length (h.hd ++ l.front)) =
        ap (λ os. get_elem? os k) h.offsets_eq
        ∙ l.start
        ∙ ap some (sym (length-append h.hd l.front)) in
      let next : or_size (get_elem? s.offsets (suc k)) s.size
          ≡ length (h.hd ++ l.front) + length l.f =
        ap₂ (λ os n. or_size (get_elem? os (suc k)) n) h.offsets_eq h.size_eq
        ∙ l.next
        ∙ omega (arith, length-append h.hd l.front) in
      let file : s.file ≡ (h.hd ++ l.front) ++ (l.f ++ (l.back ++ h.torn)) =
        h.file_eq ∙ rw (l.parts, append_assoc, append_assoc, append_assoc) in
      read_span_located s.file (h.hd ++ l.front) l.f (l.back ++ h.torn) p _ _ (s.base_index + k)
        file start next l.canon l.frame_eq

  -- The loop from record `i` reads the rest of the payloads behind those read before.
  read_all_loop-Holds :
      (n i : ℕ) (s : Segment) (ps qs rest : List Bytes) (b : Block)
      → Holds codec laws s ps
      → ps ≡ qs ++ rest
      → length qs ≡ i
      → length rest ≡ n
      → b.payloads ≡ qs
      → b.bytes + block_size rest ≡ block_size ps
      → (b' : Block) × (read_all_loop codec s n i b ≡ ok b') × Coherent (some b') ps
  unfolding read_all_loop
  read_all_loop-Holds zero i s ps qs [] b h e lq lr pe be =
      (b, refl, (pe ∙ sym (append-nil qs) ∙ sym e, omega arith))
  read_all_loop-Holds zero i s ps qs (r ∷ rest) b h e lq lr pe be = absurd (omega arith)
  read_all_loop-Holds (suc n) i s ps qs [] b h e lq lr pe be = absurd (omega arith)
  read_all_loop-Holds (suc n) i s ps qs (r ∷ rest) b h e lq lr pe be =
      let at_i : get_elem? ps i ≡ some r =
        ap₂ get_elem? e (sym lq ∙ sym (plus_zero (length qs)))
        ∙ get_elem?-append_right qs (r ∷ rest) 0 in
      rw (read_record-Holds s ps i r h at_i) (
        read_all_loop-Holds n (suc i) s ps (qs ++ (r ∷ [])) rest _ h
          (e ∙ sym (append_assoc qs (r ∷ []) rest)) (omega (arith, length-append qs (r ∷ [])))
          (omega arith) (ap (λ t. t ++ (r ∷ [])) pe) (omega arith))

  pub read_all_payloads-Holds :
      (s : Segment) (ps : List Bytes)
      → Holds codec laws s ps
      → (b : Block) × (read_all_payloads codec s ≡ ok b) × Coherent (some b) ps
  unfolding read_all_payloads
  read_all_payloads-Holds s ps h =
      read_all_loop-Holds s.count 0 s ps [] ps (record { payloads = []; bytes = 0 }) h refl refl
        (sym h.count_eq) refl (omega arith)

  pub with_block-Holds :
      (s : Segment) (ps : List Bytes) (o : Option Block)
      → Holds codec laws s ps
      → Coherent o ps
      → Holds codec laws (record s { block = o }) ps
  with_block-Holds s ps o h c = record {
    hd = h.hd;
    fs = h.fs;
    torn = h.torn;
    file_eq = h.file_eq;
    size_eq = h.size_eq;
    no_torn = h.no_torn;
    count_eq = h.count_eq;
    offsets_eq = h.offsets_eq;
    framed = h.framed;
    headed = h.headed;
    cached = c;
  }

  resident_or_load-Holds :
      (caching : Bool) (s : Segment) (ps : List Bytes) (o : Option Block)
      → Holds codec laws s ps
      → Coherent o ps
      → Coherent (resident_or_load codec caching s o).0 ps
        × Holds codec laws (resident_or_load codec caching s o).1 ps
  unfolding resident_or_load
  resident_or_load-Holds caching s ps (some b) h c = (c, h)
  resident_or_load-Holds false s ps none h c = (tt, h)
  resident_or_load-Holds true s ps none h c =
      let (b, e, c') = read_all_payloads-Holds s ps h in
      rw e (c', with_block-Holds s ps (some b) h c')

  -- The block that a read finds or loads agrees with the payloads, and loading it keeps the segment.
  pub cached_payloads-Holds :
      (caching : Bool) (s : Segment) (ps : List Bytes)
      → Holds codec laws s ps
      → Coherent (cached_payloads codec caching s).0 ps
        × Holds codec laws (cached_payloads codec caching s).1 ps
  unfolding cached_payloads
  cached_payloads-Holds caching s ps h = resident_or_load-Holds caching s ps s.block h h.cached

  from_block-Holds :
      (s : Segment) (ps : List Bytes) (i : ℕ) (p : Bytes) (o : Option Block)
      → Holds codec laws s ps
      → Coherent o ps
      → get_elem? ps i ≡ some p
      → from_block codec s i o ≡ ok p
  unfolding from_block
  from_block-Holds s ps i p none h c e = read_record-Holds s ps i p h e
  from_block-Holds s ps i p (some b) h (c, _) e =
      let at_i : get_elem? b.payloads i ≡ some p = ap (λ qs. get_elem? qs i) c ∙ e in
      rw (at_i, from_block)

  -- Whatever the block holds and whether or not reads may load it, `read_index` answers the payload
  -- at `i`, an index past the end is `out_of_range`, and the segment still holds the same payloads.
  pub read_index-Holds :
      (caching : Bool) (s : Segment) (ps : List Bytes) (i : ℕ)
      → Holds codec laws s ps
      → ((read_index codec caching s i).0
          ≡ elim (get_elem? ps i) [ some p ↦ ok p | none ↦ err out_of_range ])
        × Holds codec laws (read_index codec caching s i).1 ps
  unfolding read_index
  read_index-Holds caching s ps i h = elim (Bool-cases (leb s.count i)) [
    | inl past ↦
        let e : get_elem? ps i ≡ none =
          get_elem?_past ps i (omega (arith, leb→le s.count i past, h.count_eq)) in
        rw (past, e) (refl, h)
    | inr within ↦
        let (p, e) =
          get_elem?_within ps i (omega (arith, lt_of_not_leb s.count i within, h.count_eq)) in
        let (c, h') = cached_payloads-Holds caching s ps h in
        rw (within, e) (from_block-Holds s ps i p (cached_payloads codec caching s).0 h c e, h')
  ]
