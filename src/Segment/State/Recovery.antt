-- ===== src/Segment/State/Recovery.antt =====
-- Recovery: opening a segment's file scans the frames, keeps all of the complete ones and drops a
-- torn tail.
use mathlib.Core.Path.{ap₂}
use mathlib.Core.List.{foldl}
use figwal.Common.{
  ℕ, ◌+◌, ◌≡◌, refl, sym, ap, ◌∙◌, arith, Bool, true, false, none, some, List, [], ◌∷◌, ◌++◌, inl,
  inr, length, take, flatten, length-append, append_assoc, append-nil, ltb, lt→ltb, Bool-cases,
  ◌&&◌, not, take-append,
}
use figwal.Result.{ok}
use figwal.Segment.Bytes.{Bytes}
use figwal.Segment.Codec.{SegmentCodec, CodecLaws}
use figwal.Segment.State.{
  Segment, Scan, scan_start, create, on_frame, recover, recover_header, truncate_torn,
}
use figwal.Segment.State.Scanning.{ScanIs, fold_frames, scan_frames}
use figwal.Segment.State.Holds.{Holds, Frames, Frames-length, Headed, starts, spans, zero_plus}

no_tail :
    (n size t : ℕ) (ro : Bool) → (ltb size n && not ro) ≡ false → ro ≡ false → n ≡ size + t → t ≡ 0
no_tail n size t ro kept w e = ground arith

empty_of_length : (xs : Bytes) → length xs ≡ 0 → xs ≡ []
empty_of_length [] e = refl
empty_of_length (x ∷ xs) e = absurd (omega arith)

module _ (codec : SegmentCodec) (laws : CodecLaws codec) where
  -- Behind the scan, the tail is cut off or, in a read-only segment, left alone.
  truncate_torn-Holds :
      (s : Segment) (ps fs : List Bytes) (hd torn : Bytes)
      → s.file ≡ hd ++ (flatten fs ++ torn)
      → s.size ≡ length hd + length (flatten fs)
      → s.count ≡ length ps
      → s.offsets ≡ starts (length hd) fs
      → Frames codec laws s.base_index ps fs
      → Headed codec laws s.has_header s.header hd
      → s.block ≡ none
      → Holds codec laws (truncate_torn s s.size) ps
  unfolding truncate_torn
  truncate_torn-Holds s ps fs hd torn ef es ec eo fr eh eb =
      let whole : s.file ≡ (hd ++ flatten fs) ++ torn =
        ef ∙ sym (append_assoc hd (flatten fs) torn) in
      let size : s.size ≡ length (hd ++ flatten fs) = es ∙ sym (length-append hd (flatten fs)) in
      elim (Bool-cases (ltb s.size (length s.file) && not s.read_only)) [
        | inl cut ↦
            let e : take s.size s.file ≡ hd ++ (flatten fs ++ []) =
              ap₂ take size whole
              ∙ take-append (hd ++ flatten fs) torn
              ∙ ap (λ t. hd ++ t) (sym (append-nil (flatten fs))) in
            rw cut (record {
              hd = hd;
              fs = fs;
              torn = [];
              file_eq = e;
              size_eq = es;
              no_torn = λ _. refl;
              count_eq = ec;
              offsets_eq = eo;
              framed = fr;
              headed = eh;
              cached = rw eb tt;
            })
        | inr kept ↦ rw kept (record {
          hd = hd;
          fs = fs;
          torn = torn;
          file_eq = ef;
          size_eq = es;
          no_torn = λ w.
              let short : length torn ≡ 0 =
                no_tail (length s.file) s.size (length torn) s.read_only kept w (
                  ap length whole
                  ∙ length-append (hd ++ flatten fs) torn
                  ∙ ap (λ n. n + length torn) (sym size)) in
              empty_of_length torn short;
          count_eq = ec;
          offsets_eq = eo;
          framed = fr;
          headed = eh;
          cached = rw eb tt;
        })
      ]

  truncate_torn_keeps :
      (s : Segment) (off : ℕ)
      → ((truncate_torn s off).header ≡ s.header)
        × ((truncate_torn s off).base_index ≡ s.base_index)
        × ((truncate_torn s off).read_only ≡ s.read_only)
        × ((truncate_torn s off).max_size ≡ s.max_size)
  unfolding truncate_torn
  truncate_torn_keeps s off = ground arith

  -- The segment that opening has to give.
  pub record Opened (s : Segment) (base max : ℕ) (ro : Bool) (h : Bytes) (ps : List Bytes)
      : Type 0 where
    pub holds : Holds codec laws s ps
    pub header_eq : s.header ≡ h
    pub base_eq : s.base_index ≡ base
    pub ro_eq : s.read_only ≡ ro
    pub max_eq : s.max_size ≡ max

  abbrev pub unopened : Bytes → ℕ → ℕ → Bool → Bool → Segment
  unopened file base max hh ro = record (create base max) {
    file = file;
    has_header = hh;
    read_only = ro;
  }

  -- The segment between the scan and the cut.
  abbrev scanned : Bytes → ℕ → ℕ → Bool → Bool → Bytes → Scan → Segment
  scanned file base max hh ro h st = record (unopened file base max hh ro) {
    size = st.off;
    count = st.count;
    offsets = st.offsets;
    header = h;
  }

  abbrev scan_of : Bytes → Bool → Scan
  scan_of file hh = foldl (on_frame hh) scan_start (codec.scan_from 0 file)

  -- The rest of `recover`, once the scan and the header are known.
  recovered :
      (file : Bytes) (base max : ℕ) (hh ro : Bool) (h hd : Bytes) (ps fs : List Bytes)
      (torn : Bytes) (he : ℕ)
      → ScanIs
          (scan_of file hh)
          he
          (length hd + length (flatten fs))
          (0 + length fs)
          ([] ++ starts (length hd) fs)
      → recover_header codec
          (scanned file base max hh ro [] (scan_of file hh))
          (scan_of file hh).header_end
        ≡ ok (scanned file base max hh ro h (scan_of file hh))
      → Headed codec laws hh h hd
      → file ≡ hd ++ (flatten fs ++ torn)
      → Frames codec laws base ps fs
      → (s : Segment) × (recover codec (unopened file base max hh ro) ≡ ok s)
        × Opened s base max ro h ps
  unfolding recover create
  recovered file base max hh ro h hd ps fs torn he is er eh ef fr =
      let s = scanned file base max hh ro h (scan_of file hh) in
      let keeps = truncate_torn_keeps s s.size in
      let count : 0 + length fs ≡ length ps =
        omega (arith, Frames-length codec laws base ps fs fr) in
      (
        truncate_torn s s.size,
        rw er,
        record {
          holds =
              truncate_torn-Holds s ps fs hd torn ef is.off_eq (is.count_eq ∙ count) is.offsets_eq
                fr eh refl;
          header_eq = keeps.0;
          base_eq = keeps.1;
          ro_eq = keeps.2;
          max_eq = keeps.3;
        },
      )

  recover_header-read :
      (s : Segment) (h hd rest : Bytes) (he : ℕ)
      → s.has_header ≡ true
      → laws.canonical h ≡ true
      → codec.frame 0 h ≡ ok hd
      → s.file ≡ hd ++ rest
      → he ≡ length hd
      → recover_header codec s he ≡ ok (record s { header = h })
  unfolding recover_header
  recover_header-read s h hd rest he hh c e ef en =
      let positive : (s.has_header && ltb 0 he) ≡ true =
        ap₂ ◌&&◌ hh (lt→ltb 0 he (omega (arith, laws.frame_nonempty 0 h hd e))) in
      let read : codec.read_frame s.file 0 (some he) ≡ ok (h, length hd) =
        ap₂ (λ t n. codec.read_frame t 0 (some n)) ef (en ∙ sym (zero_plus (length hd)))
        ∙ laws.read_back 0 h hd [] rest c e in
      rw (positive, read)

  -- Opening a file of frames, whatever the tail behind them that does not scan, gives a segment that
  -- holds exactly their payloads and the header.
  pub recover-Opened :
      (file : Bytes) (base max : ℕ) (hh ro : Bool) (h hd : Bytes) (ps fs : List Bytes)
      (torn : Bytes)
      → Headed codec laws hh h hd
      → file ≡ hd ++ (flatten fs ++ torn)
      → Frames codec laws base ps fs
      → codec.scan_from (length hd + length (flatten fs)) torn ≡ []
      → (s : Segment) × (recover codec (unopened file base max hh ro) ≡ ok s)
        × Opened s base max ro h ps
  unfolding recover_header on_frame
  recover-Opened file base max false ro h hd ps fs torn (eh, ehd) ef fr e =
      let off : length hd ≡ 0 = ap length ehd in
      let scan : codec.scan_from 0 file ≡ spans 0 fs =
        ap (codec.scan_from 0) (ef ∙ ap (λ t. t ++ (flatten fs ++ torn)) ehd)
        ∙ scan_frames codec laws base 0 ps fs torn fr
            (ap (λ n. codec.scan_from (n + length (flatten fs)) torn) (sym off) ∙ e) in
      let is : ScanIs (scan_of file false) 0 (length hd + length (flatten fs)) (0 + length fs)
          ([] ++ starts (length hd) fs) =
        rw (off, scan) (fold_frames false true 0 0 0 [] fs refl) in
      recovered file base max false ro h hd ps fs torn 0 is
        (ap (λ t. ok (scanned file base max false ro t (scan_of file false))) (sym eh)) (eh, ehd) ef
        fr
  recover-Opened file base max true ro h hd ps fs torn (ch, eh) ef fr e =
      let scan : codec.scan_from 0 file ≡ (0, length hd) ∷ spans (length hd) fs =
        ap (codec.scan_from 0) ef
        ∙ laws.scan_frame 0 0 h hd (flatten fs ++ torn) ch eh
        ∙ ap (λ n. (0, length hd) ∷ codec.scan_from n (flatten fs ++ torn)) (zero_plus (length hd))
        ∙ ap (λ t. (0, length hd) ∷ t) (scan_frames codec laws base (length hd) ps fs torn fr e) in
      let is : ScanIs (scan_of file true) (length hd) (length hd + length (flatten fs))
          (0 + length fs) ([] ++ starts (length hd) fs) =
        rw (scan, foldl, on_frame, zero_plus)
          (fold_frames true false (length hd) (length hd) 0 [] fs refl) in
      recovered file base max true ro h hd ps fs torn (length hd) is
        (recover_header-read (scanned file base max true ro [] (scan_of file true)) h hd
          (flatten fs ++ torn) _ refl ch eh ef is.end_eq)
        (ch, eh) ef fr
