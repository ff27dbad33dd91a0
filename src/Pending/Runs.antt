-- ===== src/Pending/Runs.antt =====
-- Concrete runs of a buffered log, and its theorems at concrete inputs.
use figwal.Common.{◌≡◌, ◌≤◌, refl, arith, true, [], ◌∷◌, length, length-append, ap}
use figwal.Segment.Bytes.{put_uint32}
use figwal.Segment.Binary.{binary_codec, frame}
use figwal.Segment.Binary.Laws.{binary-CodecLaws, binary_canonical}
use figwal.Segment.State.{append, create, extend_block}
use figwal.Result.{ok}
use figwal.Disk.State
use figwal.Pending.Scans.{Holding, scan_pending, scan_pending-Holding}
use figwal.Disk.Runs.{
  fresh_log, unfolded, fresh_log-Owns, first_payload, fork_at_three, fork_at_three-Owns, log3,
  log3-Owns, second_payload, third_payload,
}
use figwal.Pending.{
  Log, write, sync_through, read, next_index, total_bytes, write_pending, sync_batch,
}
use figwal.Pending.Sync.{OnDisk, weaken}
use figwal.Pending.Snapshots.{snapshot, snapshot_read, snapshot_read-Buffers}
use figwal.Pending.Holds.{write_pending-Noted, Buffers}
use figwal.Pending.Durable.{Synced, sync_through-Synced, Accepted, write-Accepted}
use figwal.Pending.Bounds.{write-Bounded}
use figwal.Pending.Reads.{found, read-Buffers}
use figwal.Disk.State.Reads.{entry_at}

abbrev fresh_buffered : Log
fresh_buffered = record {
  inner = fresh_log;
  chain = [];
  max_lag = 3;
  pend = record { first = 0; entries = [] };
  pending_bytes = 0;
}

fresh_buffered-Buffers : Buffers binary_codec binary-CodecLaws true unfolded fresh_buffered 1 []
unfolding total_bytes
fresh_buffered-Buffers = record {
  es = [];
  tail = [];
  front = [];
  owns = fresh_log-Owns;
  on_disk = refl;
  pending = refl;
  meets = omega arith;
  first_eq = λ h. absurd (omega arith);
  bytes_eq = refl;
  canonicals = tt;
}

-- One record of two bytes is below the bound and stays pending; a second one is not.
abbrev pending1 : Log
pending1 = (write binary_codec true unfolded true fresh_buffered 1 first_payload).1

abbrev synced2 : Log
synced2 = (write binary_codec true unfolded true pending1 2 first_payload).1

write-Accepted_example :
    Accepted binary_codec binary-CodecLaws true unfolded true fresh_buffered 1 [] 1 first_payload
      (write binary_codec true unfolded true fresh_buffered 1 first_payload)
write-Accepted_example =
    write-Accepted binary_codec binary-CodecLaws true unfolded true fresh_buffered 1 1 []
      first_payload fresh_buffered-Buffers (binary_canonical first_payload (omega arith)) tt

pending1-Buffers :
    Buffers binary_codec binary-CodecLaws true unfolded pending1 1 (first_payload ∷ [])
unfolding write write_pending next_index State.last_index_log State.last_index_own
pending1-Buffers =
    (write-Accepted binary_codec binary-CodecLaws true unfolded true fresh_buffered 1 1 []
      first_payload fresh_buffered-Buffers (binary_canonical first_payload (omega arith)) tt).0

sync_through-Synced_example :
    Synced binary_codec binary-CodecLaws true unfolded 1
      (first_payload ∷ [])
      1
      (sync_through binary_codec true unfolded true pending1 1)
sync_through-Synced_example =
    sync_through-Synced binary_codec binary-CodecLaws true unfolded true pending1 1 1
      (first_payload ∷ []) pending1-Buffers tt

write-Bounded_example :
    (synced2.max_lag ≡ pending1.max_lag)
    × (synced2.pending_bytes ≤ pending1.max_lag)
    × (total_bytes synced2.pend.entries ≤ pending1.max_lag)
unfolding write write_pending next_index State.last_index_log State.last_index_own sync_through
    sync_batch State.write State.expected_index State.is_empty State.open_active State.append_to
    append create frame put_uint32 extend_block
write-Bounded_example =
    write-Bounded binary_codec binary-CodecLaws true unfolded true pending1 synced2 1 2
      (first_payload ∷ []) first_payload pending1-Buffers
      (binary_canonical first_payload (omega arith)) refl

read-Buffers_example :
    read binary_codec true unfolded pending1 1 ≡ found (entry_at 1 (first_payload ∷ []) 1)
unfolding write write_pending next_index State.last_index_log State.last_index_own
read-Buffers_example =
    read-Buffers binary_codec binary-CodecLaws true unfolded pending1 1 1 (first_payload ∷ [])
      pending1-Buffers (omega arith)

-- The second write has synced both records.
synced2-OnDisk :
    OnDisk binary_codec binary-CodecLaws true unfolded synced2.inner 1
      (first_payload ∷ first_payload ∷ [])
      2
unfolding write write_pending next_index State.last_index_log State.last_index_own sync_through
    sync_batch State.write State.expected_index State.is_empty State.open_active State.append_to
    append create frame put_uint32 extend_block
synced2-OnDisk =
    (sync_through-Synced binary_codec binary-CodecLaws true unfolded true
      (write_pending pending1 2 first_payload).1 1 2 (first_payload ∷ first_payload ∷ [])
      (write_pending-Noted binary_codec binary-CodecLaws true unfolded pending1 1 2
        (first_payload ∷ []) first_payload pending1-Buffers
        (binary_canonical first_payload (omega arith))).0
      tt).1

snapshot_read-Buffers_example :
    snapshot_read binary_codec true unfolded (snapshot pending1) synced2 2
    ≡ found (entry_at 1 (first_payload ∷ []) 2)
unfolding write write_pending next_index State.last_index_log State.last_index_own sync_through
    sync_batch State.write State.expected_index State.is_empty State.open_active State.append_to
    append create frame put_uint32 extend_block
snapshot_read-Buffers_example =
    snapshot_read-Buffers binary_codec binary-CodecLaws true unfolded pending1 synced2 1 2
      (first_payload ∷ []) (first_payload ∷ []) pending1-Buffers
      (weaken binary_codec binary-CodecLaws true unfolded synced2.inner 1 2
        (length pending1-Buffers.front) (first_payload ∷ first_payload ∷ []) synced2-OnDisk
        (omega (
          arith,
          ap length pending1-Buffers.pending,
          length-append pending1-Buffers.front pending1.pend.entries,
        )))
      (omega arith)

-- A buffered log in front of a fork at the third record, with one record pending
abbrev buffered_fork : Log
buffered_fork = record {
  inner = fork_at_three;
  chain = log3 ∷ [];
  max_lag = 100;
  pend = record { first = 3; entries = third_payload ∷ [] };
  pending_bytes = 2;
}

buffered_fork-Holding :
    Holding binary_codec binary-CodecLaws true unfolded buffered_fork 1
      (first_payload ∷ second_payload ∷ third_payload ∷ [])
buffered_fork-Holding = record {
  es = first_payload ∷ second_payload ∷ [];
  tail = third_payload ∷ [];
  front = first_payload ∷ second_payload ∷ [];
  shown = (
    first_payload ∷ second_payload ∷ third_payload ∷ [],
    [],
    log3-Owns,
    fork_at_three-Owns,
    omega arith,
    omega arith,
    refl,
  );
  positive = omega arith;
  on_disk = refl;
  pending = refl;
  meets = omega arith;
  first_eq = λ some_pending. refl;
}

scan_pending-Holding_example :
    scan_pending binary_codec true unfolded buffered_fork 0
    ≡ ok ((3, third_payload) ∷ (2, second_payload) ∷ (1, first_payload) ∷ [])
scan_pending-Holding_example =
    scan_pending-Holding binary_codec binary-CodecLaws true unfolded buffered_fork 1 0
      (first_payload ∷ second_payload ∷ third_payload ∷ []) buffered_fork-Holding
