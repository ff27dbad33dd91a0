-- ===== src/Disk/Runs.antt =====
-- Concrete runs of a disk log over the binary codec, and its theorems at concrete inputs.
use figwal.Common.{
  ℕ, zero, suc, ◌≡◌, ◌≤◌, ◌<◌, refl, arith, true, false, Option, none, List, [], ◌∷◌, length,
}
use figwal.Result.{ok, err, out_of_order}
use figwal.Segment.Bytes.{Bytes}
use figwal.Segment.Binary.{binary_codec}
use figwal.Segment.Binary.Laws.{binary-CodecLaws, binary_canonical}
use figwal.Segment.Bytes.{put_uint32}
use figwal.Segment.Binary.{frame}
use figwal.Segment.State.{Segment, append, create, extend_block}
use figwal.Disk.Ranges.{range_own}
use figwal.Disk.Ranges.Entries.{numbered, range_own-Owns}
use figwal.Disk.Scans.{scan_from_end}
use figwal.Disk.Scans.Lineages.{scan_from_end-Shows}
use figwal.Disk.State.{
  is_empty, open_active, append_to, last_index_own, rotate, Log, SealedSeg, Fold, write, read_own,
  search_sealed, expected_index,
}
use figwal.Disk.State.Search.{Ascending, Parts, search_sealed-Parts}
use figwal.Disk.State.Holds.{Owns}
use figwal.Disk.State.Reads.{answer, entry_at, read_own-Owns}
use figwal.Disk.State.Writes.{Written, write-Written, write-read}

-- A root log whose segments take 20 bytes.
abbrev pub fresh_log : Log
fresh_log = record {
  sealed = [];
  active = none;
  fork_base = 0;
  read_only = false;
  kids = false;
  segment_size = 20;
}

abbrev pub unfolded : Option Fold
unfolded = none

pub fresh_log-Owns : Owns binary_codec binary-CodecLaws true unfolded fresh_log 1 []
fresh_log-Owns = record {
  pss = [];
  live = [];
  parts = refl;
  positive = omega arith;
  sealed_run = tt;
  active_run = refl;
  fresh = λ _. refl;
}

abbrev pub first_payload : Bytes
first_payload = 97 ∷ 98 ∷ []

abbrev pub second_payload : Bytes
second_payload = 99 ∷ []

abbrev pub third_payload : Bytes
third_payload = 100 ∷ 101 ∷ []

-- The log behind one, two and three writes.
abbrev log1 : Log
log1 = (write binary_codec true unfolded fresh_log [] 1 first_payload).1

abbrev pub log2 : Log
log2 = (write binary_codec true unfolded log1 [] 2 second_payload).1

abbrev pub log3 : Log
log3 = (write binary_codec true unfolded log2 [] 3 third_payload).1

write-Written_example :
    Written binary_codec binary-CodecLaws true unfolded fresh_log 1 [] 1 first_payload
      (write binary_codec true unfolded fresh_log [] 1 first_payload)
write-Written_example =
    write-Written binary_codec binary-CodecLaws true unfolded fresh_log [] 1 1 [] first_payload
      fresh_log-Owns (binary_canonical first_payload (omega arith)) tt

-- The segment that the third write opened.
abbrev pub log3_active : Segment
log3_active = (append binary_codec (create 3 20) third_payload).1

three_writes :
    ((write binary_codec true unfolded fresh_log [] 1 first_payload).0 ≡ ok tt)
    × ((write binary_codec true unfolded log1 [] 2 second_payload).0 ≡ ok tt)
    × ((write binary_codec true unfolded log2 [] 3 third_payload).0 ≡ ok tt)
    × ((write binary_codec true unfolded log2 [] 4 third_payload).0 ≡ err out_of_order)
    × (length log3.sealed ≡ 1)
unfolding write expected_index is_empty open_active append_to append create frame put_uint32
    extend_block last_index_own rotate
three_writes = (refl, refl, refl, refl, refl)

log1-Owns : Owns binary_codec binary-CodecLaws true unfolded log1 1 (first_payload ∷ [])
unfolding write expected_index is_empty open_active append_to append create frame put_uint32
    extend_block last_index_own rotate
log1-Owns =
    (write-Written binary_codec binary-CodecLaws true unfolded fresh_log [] 1 1 [] first_payload
      fresh_log-Owns (binary_canonical first_payload (omega arith)) tt).0

pub log2-Owns :
    Owns binary_codec binary-CodecLaws true unfolded log2 1 (first_payload ∷ second_payload ∷ [])
unfolding write expected_index is_empty open_active append_to append create frame put_uint32
    extend_block last_index_own rotate
log2-Owns =
    (write-Written binary_codec binary-CodecLaws true unfolded log1 [] 1 2 (first_payload ∷ [])
      second_payload log1-Owns (binary_canonical second_payload (omega arith)) tt).0

-- The third write rotates to a second segment.
write-read_example :
    (read_own binary_codec true unfolded log3 3 ≡ ok third_payload)
    × ((j : ℕ)
        → 1 ≤ j
        → j < 3
        → read_own binary_codec true unfolded log3 j ≡ read_own binary_codec true unfolded log2 j)
unfolding write expected_index is_empty open_active append_to append create frame put_uint32
    extend_block last_index_own rotate
write-read_example =
    write-read binary_codec binary-CodecLaws true unfolded log2 log3 [] 1 3
      (first_payload ∷ second_payload ∷ []) third_payload log2-Owns
      (binary_canonical third_payload (omega arith)) tt refl

pub log3-Owns :
    Owns binary_codec binary-CodecLaws true unfolded log3 1
      (first_payload ∷ second_payload ∷ third_payload ∷ [])
unfolding write expected_index is_empty open_active append_to append create frame put_uint32
    extend_block last_index_own rotate
log3-Owns =
    (write-Written binary_codec binary-CodecLaws true unfolded log2 [] 1 3
      (first_payload ∷ second_payload ∷ []) third_payload log2-Owns
      (binary_canonical third_payload (omega arith)) tt).0

read_own-Owns_example :
    read_own binary_codec true unfolded log3 2
    ≡ answer
        (first_payload ∷ second_payload ∷ third_payload ∷ [])
        (entry_at 1 (first_payload ∷ second_payload ∷ third_payload ∷ []) 2)
read_own-Owns_example =
    read_own-Owns binary_codec binary-CodecLaws true unfolded log3 1
      (first_payload ∷ second_payload ∷ third_payload ∷ []) 2 log3-Owns

-- Two sealed segments, of the indices 1 to 2 and 3 to 5.
abbrev two_sealed : List SealedSeg
two_sealed =
    record { base = 1; last = 2; file = []; seg = none }
    ∷ record { base = 3; last = 5; file = []; seg = none }
    ∷ []

two_sealed-Ascending : Ascending two_sealed
two_sealed-Ascending zero zero le h = omega arith
two_sealed-Ascending zero (suc zero) le h = omega arith
two_sealed-Ascending (suc i) zero le h = absurd (omega arith)
two_sealed-Ascending (suc zero) (suc zero) le h = omega arith
two_sealed-Ascending i (suc (suc j)) le h = absurd (omega arith)
two_sealed-Ascending (suc (suc i)) (suc zero) le h = absurd (omega arith)

search_sealed-Parts_example : Parts two_sealed 3 (search_sealed two_sealed 3)
search_sealed-Parts_example = search_sealed-Parts two_sealed 3 two_sealed-Ascending

range_own-Owns_example :
    range_own binary_codec true unfolded log3 2
    ≡ ok (numbered 1 2 (first_payload ∷ second_payload ∷ third_payload ∷ []))
range_own-Owns_example =
    range_own-Owns binary_codec binary-CodecLaws true unfolded log3 1 2
      (first_payload ∷ second_payload ∷ third_payload ∷ []) log3-Owns

-- A fork of the log at its third record, without records of its own
abbrev pub fork_at_three : Log
fork_at_three = record {
  sealed = [];
  active = none;
  fork_base = 3;
  read_only = false;
  kids = false;
  segment_size = 20;
}

pub fork_at_three-Owns : Owns binary_codec binary-CodecLaws true unfolded fork_at_three 3 []
fork_at_three-Owns = record {
  pss = [];
  live = [];
  parts = refl;
  positive = omega arith;
  sealed_run = tt;
  active_run = refl;
  fresh = λ _. refl;
}

scan_from_end-Shows_example :
    scan_from_end binary_codec true unfolded fork_at_three (log3 ∷ []) 9
    ≡ ok ((2, second_payload) ∷ (1, first_payload) ∷ [])
scan_from_end-Shows_example =
    scan_from_end-Shows binary_codec binary-CodecLaws true unfolded 1 fork_at_three (log3 ∷ [])
      (first_payload ∷ second_payload ∷ []) 9
      (
        first_payload ∷ second_payload ∷ third_payload ∷ [],
        [],
        log3-Owns,
        fork_at_three-Owns,
        omega arith,
        omega arith,
        refl,
      )
