-- ===== src/Segment/Bytes.antt =====
-- Byte slices as lists of numbers, `encoding/binary` and the reads of `io`, as segment/*.go use them.
use figwal.Common.{
  ℕ, ◌+◌, ◌*◌, ◌/◌, ◌%◌, ◌^◌, ◌<◌, ◌≡◌, refl, arith, List, [], ◌∷◌, ◌++◌, leb, if◌then◌else◌,
  length, take, drop, append-nil, take-append, drop-append, length-append, take_all, drop_all,
}
use figwal.Result.{Result, ok, err, eof}

abbrev pub Bytes : Type 0
Bytes = List ℕ

-- binary.LittleEndian.PutUint32
unfoldable pub put_uint32 : ℕ → Bytes
put_uint32 v = v % 256 ∷ v / 256 % 256 ∷ v / 65536 % 256 ∷ v / 16777216 % 256 ∷ []

-- binary.LittleEndian.Uint32, on a slice of four bytes at least
unfoldable pub uint32 : Bytes → ℕ
uint32 (a ∷ b ∷ c ∷ d ∷ _) = a + b * 256 + c * 65536 + d * 16777216
uint32 _ = 0

-- `ReadAt(buf, off)` with a buffer of `n` bytes: fewer bytes than that are an error.
unfoldable pub read_at : Bytes → ℕ → ℕ → Result Bytes
read_at file off n = if leb (off + n) (length file) then ok (take n (drop off file)) else err eof

-- `WriteAt(bytes, off)` at an offset inside the file or at its end
unfoldable pub write_at : Bytes → ℕ → Bytes → Bytes
write_at file off bytes = take off file ++ (bytes ++ drop (off + length bytes) file)

pub uint32-put_uint32 : (v : ℕ) (rest : Bytes) → v < 2 ^ 32 → uint32 (put_uint32 v ++ rest) ≡ v
unfolding uint32 put_uint32
uint32-put_uint32 v rest h = omega arith

pub length-put_uint32 : (v : ℕ) → length (put_uint32 v) ≡ 4
unfolding put_uint32
length-put_uint32 v = refl

-- A read that stays inside the middle part gets the middle part.
pub read_at_mid :
    (front mid back : Bytes) → read_at (front ++ (mid ++ back)) (length front) (length mid) ≡ ok mid
unfolding read_at
read_at_mid front mid back =
    rw (drop-append front (mid ++ back), take-append mid back)
      (ground (arith, length-append front (mid ++ back), length-append mid back))

pub write_at_end : (file bytes : Bytes) → write_at file (length file) bytes ≡ file ++ bytes
unfolding write_at
write_at_end file bytes = rw (
  take_all (length file) file (omega arith),
  drop_all (length file + length bytes) file (omega arith),
  append-nil,
)
