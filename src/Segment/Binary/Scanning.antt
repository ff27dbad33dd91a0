-- ===== src/Segment/Binary/Scanning.antt =====
-- `ScanFrames` of the binary codec on its own frames, whole and cut short.
use mathlib.Core.Path.{subst}
use figwal.Common.{
  ℕ, zero, suc, ◌+◌, ◌-◌, ◌^◌, ◌≤◌, ◌<◌, ◌≡◌, refl, sym, ap, ◌∙◌, arith, Bool, true, [], ◌∷◌, ◌++◌,
  ltb, length, take, drop, ltb→lt, take-append, drop-append, eqb_refl, lt→ltb, ge_of_not_ltb,
  append-nil, Bool-cases, inl, inr, length-append, length-take, length-drop,
}
use figwal.Result.{ok}
use figwal.Segment.Bytes.{Bytes, put_uint32, uint32, uint32-put_uint32}
use figwal.Segment.Crc.{crc32, crc32-lt}
use figwal.Segment.Binary.{header_size, frame, scan_loop, scan_from}

-- The bytes of a frame whose length fits its field.
abbrev pub framed : Bytes → Bytes
framed p = put_uint32 (length p) ++ (put_uint32 (crc32 p) ++ p)

pub frame-framed : (i : ℕ) (p : Bytes) → length p < 2 ^ 32 → frame i p ≡ ok (framed p)
unfolding frame
frame-framed i p h = ap (λ n. ok (put_uint32 n ++ (put_uint32 (crc32 p) ++ p))) (omega arith)

pub length-framed : (p : Bytes) → length (framed p) ≡ header_size + length p
unfolding put_uint32
length-framed p = omega arith

pub field_value : (v : ℕ) → v < 2 ^ 32 → uint32 (put_uint32 v) ≡ v
field_value v h = ap uint32 (sym (append-nil (put_uint32 v))) ∙ uint32-put_uint32 v [] h

scan_loop_frame :
    (fuel off : ℕ) (p rest : Bytes)
    → length p < 2 ^ 32
    → scan_loop (suc fuel) off (framed p ++ rest)
      ≡ (off, header_size + length p) ∷ scan_loop fuel (off + (header_size + length p)) rest
unfolding scan_loop put_uint32
scan_loop_frame fuel off p rest h =
    rw
      (
        field_value (length p) h,
        field_value (crc32 p) (crc32-lt p),
        take-append p rest,
        drop-append p rest,
        eqb_refl (crc32 p),
      )
      (ground (arith, length-append p rest))

scan_loop_short :
    (fuel off : ℕ) (rest : Bytes) → length rest < header_size → scan_loop fuel off rest ≡ []
unfolding scan_loop
scan_loop_short zero off rest h = refl
scan_loop_short (suc fuel) off rest h = rw (lt→ltb (length rest) header_size h)

-- A payload that is cut short ends the scan.
scan_loop_cut :
    (fuel off j : ℕ) (p : Bytes)
    → length p < 2 ^ 32
    → j < length p
    → scan_loop fuel off (put_uint32 (length p) ++ (put_uint32 (crc32 p) ++ take j p)) ≡ []
unfolding scan_loop put_uint32
scan_loop_cut zero off j p h lt = refl
scan_loop_cut (suc fuel) off j p h lt =
    rw
      (
        field_value (length p) h,
        lt→ltb (length (take j p)) (length p) (omega (arith, length-take j p)),
      )
      (ground arith)

take-framed :
    (j : ℕ) (p : Bytes)
    → take (8 + j) (framed p) ≡ put_uint32 (length p) ++ (put_uint32 (crc32 p) ++ take j p)
unfolding put_uint32
take-framed j p =
    let e : 8 + j ≡ suc (suc (suc (suc (suc (suc (suc (suc j))))))) = omega arith in rw e

-- A frame cut inside its header, or inside its payload, ends the scan.
pub scan_loop_torn :
    (fuel off k : ℕ) (p : Bytes)
    → length p < 2 ^ 32
    → k < length (framed p)
    → scan_loop fuel off (take k (framed p)) ≡ []
scan_loop_torn fuel off k p h lt = elim (Bool-cases (ltb k header_size)) [
  | inl short ↦
      scan_loop_short fuel off (take k (framed p))
        (omega (arith, length-take k (framed p), ltb→lt k header_size short))
  | inr long ↦
      let e : k ≡ 8 + (k - 8) = ground arith in
      let small : k - 8 < length p =
        omega (arith, length-framed p, ge_of_not_ltb k header_size long) in
      subst (λ t. scan_loop fuel off t ≡ [])
        (sym (ap (λ t. take t (framed p)) e ∙ take-framed (k - 8) p))
        (scan_loop_cut fuel off (k - 8) p h small)
]

-- The bytes that a round leaves.
abbrev tail_of : Bytes → Bytes
tail_of rest = drop (uint32 (take 4 (take header_size rest))) (drop header_size rest)

abbrev frame_len : Bytes → ℕ
frame_len rest = header_size + uint32 (take 4 (take header_size rest))

scan_loop_step :
    (f g off : ℕ) (rest : Bytes)
    → scan_loop f (off + frame_len rest) (tail_of rest)
      ≡ scan_loop g (off + frame_len rest) (tail_of rest)
    → scan_loop (suc f) off rest ≡ scan_loop (suc g) off rest
unfolding scan_loop
scan_loop_step f g off rest e = rw e

-- Any fuel that covers the bytes gives the same scan.
scan_loop_fuel :
    (f g off : ℕ) (rest : Bytes)
    → length rest ≤ f
    → length rest ≤ g
    → scan_loop f off rest ≡ scan_loop g off rest
scan_loop_fuel zero g off rest hf hg =
    scan_loop_short zero off rest (omega arith) ∙ sym (scan_loop_short g off rest (omega arith))
scan_loop_fuel (suc f) zero off rest hf hg =
    scan_loop_short (suc f) off rest (omega arith)
    ∙ sym (scan_loop_short zero off rest (omega arith))
scan_loop_fuel (suc f) (suc g) off rest hf hg = elim (Bool-cases (ltb (length rest) header_size)) [
  | inl short ↦
      let lt = ltb→lt (length rest) header_size short in
      scan_loop_short (suc f) off rest lt ∙ sym (scan_loop_short (suc g) off rest lt)
  | inr long ↦
      let shorter : length (tail_of rest) < length rest = omega (
        arith,
        length-drop (uint32 (take 4 (take header_size rest))) (drop header_size rest),
        length-drop header_size rest,
        ge_of_not_ltb (length rest) header_size long,
      ) in
      scan_loop_step f g off rest
        (scan_loop_fuel f g (off + frame_len rest) (tail_of rest) (omega arith) (omega arith))
]

pub length-frame : (i : ℕ) (p f : Bytes) → frame i p ≡ ok f → length f ≡ header_size + length p
unfolding frame put_uint32
length-frame i p f h = ground arith

abbrev pub canonical : Bytes → Bool
canonical p = ltb (length p) (2 ^ 32)

pub fits : (p : Bytes) → canonical p ≡ true → length p < 2 ^ 32
fits p h = ltb→lt (length p) (2 ^ 32) h

pub frame_eq : (i : ℕ) (p f : Bytes) → canonical p ≡ true → frame i p ≡ ok f → f ≡ framed p
frame_eq i p f c h = cc (h, frame-framed i p (fits p c))

pub scan_from-framed :
    (off : ℕ) (p rest : Bytes)
    → length p < 2 ^ 32
    → scan_from off (framed p ++ rest)
      ≡ (off, length (framed p)) ∷ scan_from (off + length (framed p)) rest
unfolding scan_from
scan_from-framed off p rest h =
    let all = framed p ++ rest in
    let long : length all ≡ length (framed p) + length rest = length-append (framed p) rest in
    scan_loop_fuel (length all) (suc (length all)) off all (omega arith) (omega arith)
    ∙ scan_loop_frame (length all) off p rest h
    ∙ ap (λ t. (off, header_size + length p) ∷ t)
        (scan_loop_fuel (length all) (length rest) (off + (header_size + length p)) rest
          (omega arith) (omega arith))
    ∙ rw length-framed
