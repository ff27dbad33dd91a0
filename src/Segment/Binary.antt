-- ===== src/Segment/Binary.antt =====
-- `BinaryCodec` of segment/codec.go: a length, a CRC-32 and the opaque payload.
pub mod Scanning
pub mod Laws
use figwal.Common.{
  ℕ, zero, suc, ◌+◌, ◌-◌, ◌%◌, ◌^◌, Option, none, some, List, [], ◌∷◌, ◌++◌, ltb, ◌==◌, not,
  if◌then◌else◌, length, take, drop,
}
use figwal.Result.{Result, ok, err, corrupt, ◌>>=◌}
use figwal.Segment.Bytes.{Bytes, put_uint32, uint32, read_at}
use figwal.Segment.Crc.{crc32}
use figwal.Segment.Codec.{Span, SegmentCodec}

abbrev pub header_size : ℕ
header_size = 8

-- `uint32(len(payload))` keeps the low 32 bits of the length.
unfoldable pub frame : ℕ → Bytes → Result Bytes
frame _ payload =
    ok (put_uint32 (length payload % 2 ^ 32) ++ (put_uint32 (crc32 payload) ++ payload))

-- The next offset is known: one read of the whole frame.
read_known : Bytes → ℕ → ℕ → Result (Bytes × ℕ)
read_known file off len = if ltb len header_size then err corrupt else do
  buf ← read_at file off len
  let n = uint32 (take 4 buf)
  if n + header_size == len then ok (drop header_size buf, len) else err corrupt

-- It is not: the header says the length.
read_unknown : Bytes → ℕ → Result (Bytes × ℕ)
read_unknown file off = do
  hdr ← read_at file off header_size
  let n = uint32 (take 4 hdr)
  payload ← (if ltb 0 n then read_at file (off + header_size) n else ok [])
  ok (payload, header_size + n)

unfoldable pub read_frame : Bytes → ℕ → Option ℕ → Result (Bytes × ℕ)
unfolding read_known read_unknown
read_frame file off (some next) =
    if ltb off next then read_known file off (next - off) else read_unknown file off
read_frame file off none = read_unknown file off

-- The loop of `ScanFrames`, on the bytes that are not yet read. A round reads eight bytes at least.
unfoldable pub scan_loop : ℕ → ℕ → Bytes → List Span
scan_loop zero off rest = []
scan_loop (suc fuel) off rest =
    let hdr = take header_size rest in
    let n = uint32 (take 4 hdr) in
    let body = drop header_size rest in
    let payload = take n body in
    let frame_len = header_size + n in
    let more = scan_loop fuel (off + frame_len) (drop n body) in
    if ltb (length rest) header_size
    then []
    else if ltb (length body) n
    then []
    else if not (crc32 payload == uint32 (drop 4 hdr))
    then []
    else (off, frame_len) ∷ more

unfoldable pub scan_from : ℕ → Bytes → List Span
scan_from off rest = scan_loop (length rest) off rest

abbrev pub binary_codec : SegmentCodec
binary_codec = record { frame = frame; read_frame = read_frame; scan_from = scan_from }
