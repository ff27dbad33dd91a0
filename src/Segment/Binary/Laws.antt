-- ===== src/Segment/Binary/Laws.antt =====
-- The binary codec reads back its own frames and meets `CodecLaws`.
use figwal.Common.{
  ℕ, ◌+◌, ◌-◌, ◌^◌, ◌<◌, ◌≡◌, refl, sym, ap, arith, true, none, some, [], ◌∷◌, ◌++◌, ltb, length,
  lt→ltb, length-append, append_assoc, if◌then◌else◌,
}
use figwal.Result.{ok}
use figwal.Segment.Bytes.{Bytes, put_uint32, read_at, read_at_mid}
use figwal.Segment.Crc.{crc32}
use figwal.Segment.Codec.{CodecLaws}
use figwal.Segment.Binary.Scanning.{
  framed, canonical, frame-framed, length-framed, field_value, length-frame, fits, frame_eq,
  scan_from-framed, scan_loop_torn,
}
use figwal.Segment.Binary.{
  header_size, frame, read_known, read_unknown, read_frame, scan_loop, scan_from, binary_codec,
}

read_known_framed :
    (front p back : Bytes)
    → length p < 2 ^ 32
    → read_known (front ++ (framed p ++ back)) (length front) (length (framed p))
      ≡ ok (p, length (framed p))
unfolding read_known
read_known_framed front p back h =
    rw (read_at_mid front (framed p) back, length-framed p)
      (unfold put_uint32 in rw (field_value (length p) h) (ground arith))

read_frame-framed :
    (front p back : Bytes)
    → length p < 2 ^ 32
    → read_frame
        (front ++ (framed p ++ back))
        (length front)
        (some (length front + length (framed p)))
      ≡ ok (p, length (framed p))
unfolding read_frame
read_frame-framed front p back h =
    let e : length front + length (framed p) - length front ≡ length (framed p) = omega arith in
    rw
      (lt→ltb (length front) (length front + length (framed p)) (omega (arith, length-framed p)), e)
      (read_known_framed front p back h)

header_of : Bytes → Bytes
header_of p = put_uint32 (length p) ++ put_uint32 (crc32 p)

read_header :
    (front p back : Bytes)
    → read_at (front ++ (framed p ++ back)) (length front) header_size ≡ ok (header_of p)
unfolding header_of put_uint32
read_header front p back = read_at_mid front (header_of p) (p ++ back)

-- The payload is read only where the header says that there is one.
read_payload :
    (front p back : Bytes)
    → (if ltb 0 (length p)
        then read_at (front ++ (framed p ++ back)) (length front + header_size) (length p)
        else ok [])
      ≡ ok p
unfolding header_of put_uint32
read_payload front [] back = refl
read_payload front (x ∷ xs) back =
    let p = x ∷ xs in
    let more : ltb 0 (length p) ≡ true = lt→ltb 0 (length p) (omega arith) in
    let off : length front + header_size ≡ length (front ++ header_of p) =
      sym (length-append front (header_of p)) in
    rw (more, off, sym (append_assoc front (header_of p) (p ++ back)))
      (read_at_mid (front ++ header_of p) p back)

read_unknown_framed :
    (front p back : Bytes)
    → length p < 2 ^ 32
    → read_unknown (front ++ (framed p ++ back)) (length front) ≡ ok (p, length (framed p))
unfolding read_unknown
read_unknown_framed front p back h = rw (read_header front p back) (
    unfold header_of put_uint32 in
    rw (field_value (length p) h, read_payload front p back) (ap (λ n. ok (p, n)) (omega arith)))

-- A frame reads back with its payload and its length wherever it stands in a file, whether the
-- reader knows where the next frame starts or has to take the length from the header.
pub read_frame-frame :
    (i : ℕ) (p f front back : Bytes)
    → length p < 2 ^ 32
    → frame i p ≡ ok f
    → (read_frame (front ++ (f ++ back)) (length front) (some (length front + length f))
        ≡ ok (p, length f))
      × (read_frame (front ++ (f ++ back)) (length front) none ≡ ok (p, length f))
unfolding read_frame
read_frame-frame i p f front back h e =
    let ef : f ≡ framed p = frame_eq i p f (lt→ltb (length p) (2 ^ 32) h) e in
    rw ef (read_frame-framed front p back h, read_unknown_framed front p back h)

pub binary-CodecLaws : CodecLaws binary_codec
binary-CodecLaws = record {
  canonical = canonical;
  frame_ok = λ i p c. (framed p, frame-framed i p (fits p c));
  frame_nonempty = λ i p f h. omega (arith, length-frame i p f h);
  scan_end = λ off. unfold scan_from scan_loop in refl;
  scan_frame =
      λ i off p f rest c h. rw (frame_eq i p f c h) (scan_from-framed off p rest (fits p c));
  scan_torn = λ i off k p f c h lt.
      let e = frame_eq i p f c h in
      unfold scan_from in rw e (scan_loop_torn _ off k p (fits p c) (rw e at lt));
  read_back =
      λ i p f front back c h. rw (frame_eq i p f c h) (read_frame-framed front p back (fits p c));
}

pub binary_canonical : (p : Bytes) → length p < 2 ^ 32 → binary-CodecLaws.canonical p ≡ true
unfolding binary-CodecLaws
binary_canonical p h = lt→ltb (length p) (2 ^ 32) h
