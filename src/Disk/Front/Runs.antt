-- ===== src/Disk/Front/Runs.antt =====
-- A truncation of a log of three entries whose first two are in a sealed segment.
use figwal.Common.{ℕ, ◌+◌, ◌≡◌, ◌≤◌, ◌<◌, refl, arith, true, [], ◌∷◌, ◌⊎◌, length, drop}
use figwal.Result.{err, payload_too_large}
use figwal.Segment.Bytes.{Bytes, put_uint32}
use figwal.Segment.Binary.{binary_codec, frame}
use figwal.Segment.Binary.Laws.{binary-CodecLaws, binary_canonical}
use figwal.Segment.State.{append, create, extend_block}
use figwal.Disk.State.{
  Log, wrap_open, write, expected_index, is_empty, open_active, append_to, last_index_own, rotate,
}
use figwal.Disk.State.Holds.{Owns, fresh_index}
use figwal.Disk.State.Writes.{write-Written}
use figwal.Disk.Front.Restart.{truncate_front_restarts}
use figwal.Disk.Runs.{
  log2, log2-Owns, log3, unfolded, log3-Owns, first_payload, second_payload, third_payload,
  log3_active,
}
use figwal.Disk.Front.{kept, truncate_front}
use figwal.Disk.Front.Truncation.{Cut, truncate_front-Owns}

one_left : length (truncate_front log3 3).sealed ≡ 0
unfolding truncate_front kept write expected_index is_empty open_active append_to append create
    frame put_uint32 extend_block last_index_own rotate wrap_open
one_left = refl

truncate_front-Owns_example :
    (k : ℕ) × Owns binary_codec binary-CodecLaws true unfolded
      (truncate_front log3 3)
      (1 + k)
      (drop k (first_payload ∷ second_payload ∷ third_payload ∷ []))
    × ((k ≡ 0) ⊎ (1 + k ≤ 3))
    × (k < 3)
    × Cut 3 log3.sealed (truncate_front log3 3).sealed
unfolding write expected_index is_empty open_active append_to append create frame put_uint32
    extend_block last_index_own rotate
truncate_front-Owns_example =
    truncate_front-Owns binary_codec binary-CodecLaws true unfolded log3 1 3
      (first_payload ∷ second_payload ∷ third_payload ∷ []) log3_active log3-Owns refl (omega arith)

-- Thirteen bytes, whose frame is larger than a segment
abbrev oversized : Bytes
oversized = 0 ∷ 1 ∷ 2 ∷ 3 ∷ 4 ∷ 5 ∷ 6 ∷ 7 ∷ 8 ∷ 9 ∷ 10 ∷ 11 ∷ 12 ∷ []

-- The rotation for it leaves an empty active segment behind.
abbrev stuck : Log
stuck = (write binary_codec true unfolded log2 [] 3 oversized).1

stuck_refused : (write binary_codec true unfolded log2 [] 3 oversized).0 ≡ err payload_too_large
unfolding write expected_index is_empty open_active append_to append create frame put_uint32
    extend_block last_index_own rotate wrap_open
stuck_refused = refl

stuck-Owns :
    Owns binary_codec binary-CodecLaws true unfolded stuck 1 (first_payload ∷ second_payload ∷ [])
unfolding write expected_index is_empty open_active append_to append create frame put_uint32
    extend_block last_index_own rotate wrap_open
stuck-Owns =
    write-Written binary_codec binary-CodecLaws true unfolded log2 [] 1 3
      (first_payload ∷ second_payload ∷ []) oversized log2-Owns
      (binary_canonical oversized (omega arith)) tt

truncate_front_restarts_example :
    (expected_index (truncate_front stuck 3) ≡ fresh_index stuck) × (3 ≡ 1 + 2)
unfolding write expected_index is_empty open_active append_to append create frame put_uint32
    extend_block last_index_own rotate wrap_open
truncate_front_restarts_example =
    truncate_front_restarts binary_codec binary-CodecLaws true unfolded stuck 1 3
      (first_payload ∷ second_payload ∷ []) (create 3 20) stuck-Owns refl refl (omega arith, tt)
