-- ===== src/Segment/Runs.antt =====
-- Concrete runs of the segment over the binary codec, and its theorems at concrete inputs.
use figwal.Common.{◌≡◌, refl, arith, true, false, none, some, [], ◌∷◌, ◌++◌, take}
use figwal.Result.{ok}
use figwal.Segment.Bytes.{Bytes, put_uint32}
use figwal.Segment.Crc.{crc32}
use figwal.Segment.Binary.{binary_codec, frame, read_frame}
use figwal.Segment.Binary.Laws.{binary-CodecLaws, binary_canonical, read_frame-frame}
use figwal.Segment.State.{Segment, create, append, open_rw, read_index}
use figwal.Segment.State.Holds.{Holds}
use figwal.Segment.State.Append.{create-Holds, append-Appended, Appended}
use figwal.Segment.State.Reads.{read_index-Holds}
use figwal.Segment.State.Recovery.{Opened}
use figwal.Segment.State.Crash.{crash_recovery}

abbrev record_a : Bytes
record_a = 97 ∷ 98 ∷ []

abbrev frame_a : Bytes
frame_a = put_uint32 2 ++ (put_uint32 (crc32 record_a) ++ record_a)

frame_a_bytes : frame 1 record_a ≡ ok (2 ∷ 0 ∷ 0 ∷ 0 ∷ 109 ∷ 72 ∷ 131 ∷ 158 ∷ 97 ∷ 98 ∷ [])
unfolding frame put_uint32 crc32
frame_a_bytes = refl

read_frame-frame_example :
    (read_frame (7 ∷ (frame_a ++ (8 ∷ []))) 1 (some 11) ≡ ok (record_a, 10))
    × (read_frame (7 ∷ (frame_a ++ (8 ∷ []))) 1 none ≡ ok (record_a, 10))
unfolding frame put_uint32
read_frame-frame_example = read_frame-frame 1 record_a frame_a (7 ∷ []) (8 ∷ []) (omega arith) refl

record_a_canonical : binary-CodecLaws.canonical record_a ≡ true
record_a_canonical = binary_canonical record_a (omega arith)

crash_recovery_example :
    (s : Segment) × (open_rw binary_codec (take 9 frame_a) 1 100 false ≡ ok s)
    × Opened binary_codec binary-CodecLaws s 1 100 false [] []
unfolding create frame put_uint32
crash_recovery_example =
    crash_recovery binary_codec binary-CodecLaws (create 1 100) [] record_a frame_a 9
      (create-Holds binary_codec binary-CodecLaws 1 100) refl record_a_canonical refl

append-Appended_example :
    Appended binary_codec binary-CodecLaws
      (create 1 100)
      []
      record_a
      frame_a
      (append binary_codec (create 1 100) record_a)
unfolding create frame
append-Appended_example =
    append-Appended binary_codec binary-CodecLaws (create 1 100) [] record_a frame_a
      (create-Holds binary_codec binary-CodecLaws 1 100) refl record_a_canonical refl

-- A segment with one record.
abbrev one : Segment
one = (append binary_codec (create 1 100) record_a).1

one-Holds : Holds binary_codec binary-CodecLaws one (record_a ∷ [])
unfolding create append frame put_uint32 crc32
one-Holds =
    (append-Appended binary_codec binary-CodecLaws (create 1 100) [] record_a frame_a
      (create-Holds binary_codec binary-CodecLaws 1 100) refl record_a_canonical refl).1

read_index-Holds_example :
    ((read_index binary_codec true one 0).0 ≡ ok record_a)
    × Holds binary_codec binary-CodecLaws (read_index binary_codec true one 0).1 (record_a ∷ [])
read_index-Holds_example =
    read_index-Holds binary_codec binary-CodecLaws true one (record_a ∷ []) 0 one-Holds
