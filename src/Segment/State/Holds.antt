-- ===== src/Segment/State/Holds.antt =====
-- What it means that a segment holds a list of payloads, and how its frames lie in the file.
use figwal.Common.{
  ℕ, zero, suc, ◌+◌, ◌≡◌, refl, ap, ◌∙◌, arith, Bool, true, false, Option, none, some, List, [],
  ◌∷◌, ◌++◌, length, get_elem?, flatten, length-append, append_assoc, append-nil,
}
use figwal.Result.{ok}
use figwal.Segment.Bytes.{Bytes}
use figwal.Segment.Codec.{Span, SegmentCodec, CodecLaws}
use figwal.Segment.State.{Segment, Block, or_size, slice_header_bytes}

-- The offsets at which frames start that lie one behind the other.
abbrev pub starts : ℕ → List Bytes → List ℕ
starts off [] = []
starts off (f ∷ fs) = off ∷ starts (off + length f) fs

abbrev pub spans : ℕ → List Bytes → List Span
spans off [] = []
spans off (f ∷ fs) = (off, length f) ∷ spans (off + length f) fs

abbrev pub block_size : List Bytes → ℕ
block_size [] = 0
block_size (p ∷ ps) = length p + slice_header_bytes + block_size ps

-- A resident block is the payloads, and is charged for each of them.
abbrev pub Coherent : Option Block → List Bytes → Type 0
Coherent none ps = Unit
Coherent (some b) ps = (b.payloads ≡ ps) × (b.bytes ≡ block_size ps)

pub plus_zero : (i : ℕ) → i + 0 ≡ i
plus_zero i = omega arith

pub zero_plus : (n : ℕ) → 0 + n ≡ n
zero_plus n = omega arith

shift_suc : (i n : ℕ) → i + suc n ≡ suc i + n
shift_suc i n = omega arith

-- The end of the first frame is the start of the second, or of the free space.
next_of_first :
    (off : ℕ) (g : Bytes) (fs : List Bytes)
    → or_size (get_elem? (starts (off + length g) fs) 0) (off + length (g ++ flatten fs))
      ≡ off + 0 + length g
next_of_first off g [] = omega (arith, ap length (append-nil g))
next_of_first off g (f ∷ fs) = omega arith

module _ (codec : SegmentCodec) (laws : CodecLaws codec) where
  open laws use {canonical}

  -- `fs` are the frames of the payloads `ps`, whose indices count from `i`.
  abbrev pub Frames : ℕ → List Bytes → List Bytes → Type 0
  Frames i [] [] = Unit
  Frames i (p ∷ ps) (f ∷ fs) =
      (canonical p ≡ true) × (codec.frame i p ≡ ok f) × Frames (suc i) ps fs
  Frames i _ _ = ⊥

  -- `hd` is the frame of the header.
  abbrev pub Headed : Bool → Bytes → Bytes → Type 0
  Headed false h hd = (h ≡ []) × (hd ≡ [])
  Headed true h hd = (canonical h ≡ true) × (codec.frame 0 h ≡ ok hd)

  -- The segment holds `ps`: header, frames and, in a read-only segment, a torn tail.
  pub record Holds (s : Segment) (ps : List Bytes) : Type 0 where
    pub hd : Bytes
    pub fs : List Bytes
    pub torn : Bytes
    pub file_eq : s.file ≡ hd ++ (flatten fs ++ torn)
    pub size_eq : s.size ≡ length hd + length (flatten fs)
    pub no_torn : s.read_only ≡ false → torn ≡ []
    pub count_eq : s.count ≡ length ps
    pub offsets_eq : s.offsets ≡ starts (length hd) fs
    pub framed : Frames s.base_index ps fs
    pub headed : Headed s.has_header s.header hd
    pub cached : Coherent s.block ps

  pub Frames-append :
      (i : ℕ) (ps fs : List Bytes) (p f : Bytes)
      → Frames i ps fs
      → canonical p ≡ true
      → codec.frame (i + length ps) p ≡ ok f
      → Frames i (ps ++ (p ∷ [])) (fs ++ (f ∷ []))
  Frames-append i [] [] p f fr c e = (c, rw (ap (λ n. codec.frame n p) (plus_zero i)) at e, tt)
  Frames-append i [] (g ∷ fs) p f fr c e = elim fr [ ]
  Frames-append i (q ∷ ps) [] p f fr c e = elim fr [ ]
  Frames-append i (q ∷ ps) (g ∷ fs) p f (cq, eq, fr) c e =
      (cq, eq, Frames-append (suc i) ps fs p f fr c (rw (shift_suc i (length ps)) at e))

  pub Frames-length : (i : ℕ) (ps fs : List Bytes) → Frames i ps fs → length fs ≡ length ps
  Frames-length i [] [] fr = refl
  Frames-length i [] (g ∷ fs) fr = elim fr [ ]
  Frames-length i (q ∷ ps) [] fr = elim fr [ ]
  Frames-length i (q ∷ ps) (g ∷ fs) (cq, eq, fr) = ap suc (Frames-length (suc i) ps fs fr)

  -- Where the frame of the payload at `k` lies.
  pub record Located (i off k : ℕ) (p : Bytes) (fs : List Bytes) : Type 0 where
    pub front : Bytes
    pub f : Bytes
    pub back : Bytes
    pub parts : flatten fs ≡ front ++ (f ++ back)
    pub start : get_elem? (starts off fs) k ≡ some (off + length front)
    pub next :
        or_size (get_elem? (starts off fs) (suc k)) (off + length (flatten fs))
        ≡ off + length front + length f
    pub canon : canonical p ≡ true
    pub frame_eq : codec.frame (i + k) p ≡ ok f

  pub locate :
      (i off k : ℕ) (ps fs : List Bytes) (p : Bytes)
      → Frames i ps fs
      → get_elem? ps k ≡ some p
      → Located i off k p fs
  locate i off k [] fs p fr e = cc
  locate i off zero (q ∷ ps) (g ∷ fs) p (cq, eq, fr) e =
      let q≡p : q ≡ p = cc in
      record {
        front = [];
        f = g;
        back = flatten fs;
        parts = refl;
        start = ap some (omega arith);
        next = next_of_first off g fs;
        canon = rw (← q≡p) cq;
        frame_eq = rw (plus_zero i, ← q≡p) eq;
      }
  locate i off (suc k) (q ∷ ps) (g ∷ fs) p (cq, eq, fr) e =
      let l = locate (suc i) (off + length g) k ps fs p fr e in
      let size : length (g ++ l.front) ≡ length g + length l.front = length-append g l.front in
      let total : off + length (g ++ flatten fs) ≡ off + length g + length (flatten fs) =
        omega (arith, length-append g (flatten fs)) in
      record {
        front = g ++ l.front;
        f = l.f;
        back = l.back;
        parts = rw (l.parts, append_assoc);
        start = rw (l.start, size) (ap some (omega arith));
        next =
            ap (or_size (get_elem? (starts (off + length g) fs) (suc k))) total
            ∙ l.next
            ∙ omega arith;
        canon = l.canon;
        frame_eq = rw (shift_suc i k) l.frame_eq;
      }
  locate i off k (q ∷ ps) [] p fr e = elim fr [ ]

pub starts-append :
    (off : ℕ) (fs : List Bytes) (f : Bytes)
    → starts off (fs ++ (f ∷ [])) ≡ starts off fs ++ ((off + length (flatten fs)) ∷ [])
starts-append off [] f = ap (λ n. n ∷ []) (omega arith)
starts-append off (g ∷ fs) f =
    let e : off + length g + length (flatten fs) ≡ off + length (g ++ flatten fs) =
      omega (arith, length-append g (flatten fs)) in
    ap (λ t. off ∷ t)
      (starts-append (off + length g) fs f ∙ ap (λ n. starts (off + length g) fs ++ (n ∷ [])) e)
