-- ===== src/Segment/State/Scanning.antt =====
-- The scan of `recover` over a file of frames.
use mathlib.Core.List.{foldl}
use figwal.Common.{
  ℕ, suc, ◌+◌, ◌≡◌, refl, sym, ap, ◌∙◌, arith, Bool, true, false, List, [], ◌∷◌, ◌++◌, length,
  flatten, length-append, append_assoc, append-nil, ◌&&◌,
}
use figwal.Segment.Bytes.{Bytes}
use figwal.Segment.Codec.{SegmentCodec, CodecLaws}
use figwal.Segment.State.{Scan, on_frame}
use figwal.Segment.State.Holds.{Frames, starts, spans, plus_zero}

and_false : (b : Bool) → (b && false) ≡ false
and_false true = refl
and_false false = refl

pub record ScanIs (st : Scan) (header_end off count : ℕ) (offsets : List ℕ) : Type 0 where
  pub end_eq : st.header_end ≡ header_end
  pub off_eq : st.off ≡ off
  pub count_eq : st.count ≡ count
  pub offsets_eq : st.offsets ≡ offsets

-- Once no header is awaited, the scan counts every frame.
pub fold_frames :
    (hh first : Bool) (he off c : ℕ) (os : List ℕ) (fs : List Bytes)
    → (hh && first) ≡ false
    → ScanIs
        (foldl
          (on_frame hh)
          (record { first = first; header_end = he; off = off; count = c; offsets = os })
          (spans off fs))
        he
        (off + length (flatten fs))
        (c + length fs)
        (os ++ starts off fs)
unfolding on_frame
fold_frames hh first he off c os [] e = record {
  end_eq = refl;
  off_eq = omega arith;
  count_eq = omega arith;
  offsets_eq = sym (append-nil os);
}
fold_frames hh first he off c os (f ∷ fs) e =
    let r = fold_frames hh false he (off + length f) (c + 1) (os ++ (off ∷ [])) fs (and_false hh) in
    rw (e, foldl)
      (record {
        end_eq = r.end_eq;
        off_eq = r.off_eq ∙ omega (arith, length-append f (flatten fs));
        count_eq = r.count_eq ∙ omega arith;
        offsets_eq = r.offsets_eq ∙ append_assoc os (off ∷ []) (starts (off + length f) fs);
      })

module _ (codec : SegmentCodec) (laws : CodecLaws codec) where
  -- The scan of a file of frames, whatever follows them.
  pub scan_frames :
      (i off : ℕ) (ps fs : List Bytes) (torn : Bytes)
      → Frames codec laws i ps fs
      → codec.scan_from (off + length (flatten fs)) torn ≡ []
      → codec.scan_from off (flatten fs ++ torn) ≡ spans off fs
  scan_frames i off [] [] torn fr e = ap (λ n. codec.scan_from n torn) (sym (plus_zero off)) ∙ e
  scan_frames i off [] (f ∷ fs) torn fr e = elim fr [ ]
  scan_frames i off (p ∷ ps) [] torn fr e = elim fr [ ]
  scan_frames i off (p ∷ ps) (f ∷ fs) torn (c, ef, fr) e =
      let n : off + length (f ++ flatten fs) ≡ off + length f + length (flatten fs) =
        omega (arith, length-append f (flatten fs)) in
      ap (codec.scan_from off) (append_assoc f (flatten fs) torn)
      ∙ laws.scan_frame i off p f (flatten fs ++ torn) c ef
      ∙ ap (λ t. (off, length f) ∷ t)
          (scan_frames (suc i) (off + length f) ps fs torn fr
            (ap (λ m. codec.scan_from m torn) (sym n) ∙ e))
