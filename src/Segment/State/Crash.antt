-- ===== src/Segment/State/Crash.antt =====
-- A crash in the middle of an append: the file keeps some first bytes of the frame.
use mathlib.Core.Path.{ap₂}
use figwal.Common.{
  ℕ, ◌+◌, ◌≡◌, sym, ap, ◌∙◌, true, false, List, [], ◌∷◌, ◌++◌, inl, inr, length, take, flatten,
  flatten-append_one, append_assoc, append-nil, ltb, ltb→lt, ge_of_not_ltb, Bool-cases,
  if◌then◌else◌, take_all,
}
use figwal.Result.{ok}
use figwal.Segment.Bytes.{Bytes}
use figwal.Segment.Codec.{SegmentCodec, CodecLaws}
use figwal.Segment.State.{Segment, create, open_rw}
use figwal.Segment.State.Holds.{Holds, Frames-append}
use figwal.Segment.State.Append.{file_whole}
use figwal.Segment.State.Recovery.{Opened, recover-Opened}

module _ (codec : SegmentCodec) (laws : CodecLaws codec) where
  -- A writable segment holds `ps` and an append of `p` was cut by a crash, so that the first `k`
  -- bytes of its frame `f` reached the file. Opening the file again succeeds, with the same header
  -- and bound; it holds `ps` where the frame is cut short and `ps` with `p` where it is whole.
  pub crash_recovery :
      (s : Segment) (ps : List Bytes) (p f : Bytes) (k : ℕ)
      → Holds codec laws s ps
      → s.read_only ≡ false
      → laws.canonical p ≡ true
      → codec.frame (s.base_index + s.count) p ≡ ok f
      → (s' : Segment) × (open_rw codec (s.file ++ take k f) s.base_index s.max_size s.has_header
          ≡ ok s')
        × Opened codec laws s' s.base_index s.max_size false s.header
            (if ltb k (length f) then ps else ps ++ (p ∷ []))
  unfolding open_rw create
  crash_recovery s ps p f k h w c e = elim (Bool-cases (ltb k (length f))) [
    | inl cut ↦ rw cut (
        recover-Opened codec laws (s.file ++ take k f) s.base_index s.max_size s.has_header false
          s.header h.hd ps h.fs (take k f) h.headed
          (ap (λ t. t ++ take k f) (file_whole codec laws s ps h w).0
            ∙ append_assoc h.hd (flatten h.fs) (take k f))
          h.framed (laws.scan_torn (s.base_index + s.count) _ k p f c e (ltb→lt k (length f) cut)))
    | inr whole ↦ rw whole (
        recover-Opened codec laws (s.file ++ take k f) s.base_index s.max_size s.has_header false
          s.header h.hd (ps ++ (p ∷ [])) (h.fs ++ (f ∷ [])) [] h.headed
          (ap₂ ◌++◌ (file_whole codec laws s ps h w).0
              (take_all k f (ge_of_not_ltb k (length f) whole))
            ∙ append_assoc h.hd (flatten h.fs) f
            ∙ ap (λ t. h.hd ++ t)
                (sym (append-nil (flatten (h.fs ++ (f ∷ []))) ∙ flatten-append_one h.fs f)))
          (Frames-append codec laws s.base_index ps h.fs p f h.framed c
            (ap (λ n. codec.frame (s.base_index + n) p) (sym h.count_eq) ∙ e))
          (laws.scan_end _))
  ]
