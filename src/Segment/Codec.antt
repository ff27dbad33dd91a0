-- ===== src/Segment/Codec.antt =====
-- The interface `SegmentCodec` of segment/codec.go, and what the segment relies on of a codec.
-- Payloads and files are byte lists. `ScanFrames` is a loop over the file that calls `fn`
-- with each frame's offset and length; the callers' `fn` returns no error, so the loop is
-- the list of these pairs, from the offset reached and the bytes not yet read.
use figwal.Common.{ℕ, ◌+◌, ◌<◌, ◌≡◌, Bool, true, Option, some, List, [], ◌∷◌, ◌++◌, length, take}
use figwal.Result.{Result, ok}
use figwal.Segment.Bytes.{Bytes}

-- offset and frameLen
abbrev pub Span : Type 0
Span = ℕ × ℕ

pub record SegmentCodec : Type 0 where
  pub frame : ℕ → Bytes → Result Bytes
  -- `none` is the offset -1 of `nextOffsetAfter`
  pub read_frame : Bytes → ℕ → Option ℕ → Result (Bytes × ℕ)
  pub scan_from : ℕ → Bytes → List Span

-- `canonical p`: the codec frames `p` and reads back `p` itself.
pub record CodecLaws (c : SegmentCodec) : Type 0 where
  pub canonical : Bytes → Bool
  pub frame_ok : (i : ℕ) (p : Bytes) → canonical p ≡ true → (f : Bytes) × (c.frame i p ≡ ok f)
  pub frame_nonempty : (i : ℕ) (p f : Bytes) → c.frame i p ≡ ok f → 0 < length f
  pub scan_end : (off : ℕ) → c.scan_from off [] ≡ []
  pub scan_frame :
      (i off : ℕ) (p f rest : Bytes)
      → canonical p ≡ true
      → c.frame i p ≡ ok f
      → c.scan_from off (f ++ rest) ≡ (off, length f) ∷ c.scan_from (off + length f) rest
  pub scan_torn :
      (i off k : ℕ) (p f : Bytes)
      → canonical p ≡ true
      → c.frame i p ≡ ok f
      → k < length f
      → c.scan_from off (take k f) ≡ []
  pub read_back :
      (i : ℕ) (p f front back : Bytes)
      → canonical p ≡ true
      → c.frame i p ≡ ok f
      → c.read_frame (front ++ (f ++ back)) (length front) (some (length front + length f))
        ≡ ok (p, length f)
