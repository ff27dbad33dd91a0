-- ===== src/Segment/State.antt =====
-- `Segment` of segment/segment.go and its operations, with the payload block of segment/cache.go.
-- `file` is what the segment's file holds; writes and syncs of it succeed.
pub mod Holds
pub mod Append
pub mod Reads
pub mod Scanning
pub mod Recovery
pub mod Crash
use mathlib.Core.List.{foldl}
use figwal.Common.{
  ℕ, zero, suc, ◌+◌, ◌-◌, Bool, true, false, not, ◌&&◌, ◌||◌, Option, none, some, List, [], ◌∷◌,
  ◌++◌, ltb, leb, ◌==◌, if◌then◌else◌, length, get_elem?, take,
}
use figwal.Result.{Result, ok, err, full, out_of_range, segment_read_only, other, ◌>>=◌}
use figwal.Segment.Bytes.{Bytes, write_at}
use figwal.Segment.Codec.{Span, SegmentCodec}

pub record Block : Type 0 where
  pub payloads : List Bytes
  pub bytes : ℕ

-- An absent header is the empty slice.
pub record Segment : Type 0 where
  pub file : Bytes
  pub base_index : ℕ
  pub size : ℕ
  pub max_size : ℕ
  pub count : ℕ
  pub offsets : List ℕ
  pub read_only : Bool
  pub has_header : Bool
  pub header : Bytes
  pub block : Option Block

abbrev pub slice_header_bytes : ℕ
slice_header_bytes = 24

-- Create: the file is new and empty.
unfoldable pub create : ℕ → ℕ → Segment
create base max = record {
  file = [];
  base_index = base;
  size = 0;
  max_size = max;
  count = 0;
  offsets = [];
  read_only = false;
  has_header = false;
  header = [];
  block = none;
}

-- LastIndex: base + count - 1, meaningful where the count is positive.
abbrev pub last_index : Segment → ℕ
last_index s = s.base_index + s.count - 1

unfoldable pub drop_cache : Segment → Segment
drop_cache s = record s { block = none }

-- A resident block behind an append.
pub extended : Bytes → Option Block → Option Block
extended payload none = none
extended payload (some old) = some (record {
  payloads = old.payloads ++ (payload ∷ []);
  bytes = old.bytes + length payload + slice_header_bytes;
})

-- extendBlock: the append lands in the resident block, if there is one.
unfoldable pub extend_block : Bytes → Segment → Segment
extend_block payload s = record s { block = extended payload s.block }

-- nextOffsetAfter, the linear lookup of the debug path; `none` is -1.
unfoldable pub next_offset_after : Segment → List ℕ → ℕ → Option ℕ
next_offset_after s [] off = none
next_offset_after s (o ∷ []) off = if o == off then some s.size else none
next_offset_after s (o ∷ (o' ∷ os)) off =
    let later = next_offset_after s (o' ∷ os) off in if o == off then some o' else later

abbrev pub or_size : Option ℕ → ℕ → ℕ
or_size none size = size
or_size (some off) size = off

-- What the scan of `recover` keeps between two frames.
pub record Scan : Type 0 where
  pub first : Bool
  pub header_end : ℕ
  pub off : ℕ
  pub count : ℕ
  pub offsets : List ℕ

abbrev scan_start : Scan
scan_start = record { first = true; header_end = 0; off = 0; count = 0; offsets = [] }

unfoldable pub on_frame : Bool → Scan → Span → Scan
on_frame has_header st (frame_off, frame_len) =
    if has_header && st.first
    then record st {
      first = false;
      header_end = frame_off + frame_len;
      off = frame_off + frame_len;
    }
    else record st {
      first = false;
      offsets = st.offsets ++ (frame_off ∷ []);
      off = frame_off + frame_len;
      count = st.count + 1;
    }

-- A torn tail is cut off, unless the segment is read-only.
truncate_torn : Segment → ℕ → Segment
truncate_torn s off =
    if ltb off (length s.file) && not s.read_only then record s { file = take off s.file } else s

module _ (codec : SegmentCodec) where
  append_frame : Segment → Bytes → Result Bytes → Result ℕ × Segment
  append_frame s payload (err e) = (err e, s)
  append_frame s payload (ok f) =
      if ltb 0 s.max_size && ltb s.max_size (s.size + length f) then (err full, s) else (
        ok s.size,
        extend_block payload (record s {
          file = write_at s.file s.size f;
          size = s.size + length f;
          offsets = s.offsets ++ (s.size ∷ []);
          count = s.count + 1;
        }),
      )

  unfoldable pub append : Segment → Bytes → Result ℕ × Segment
  unfolding append_frame
  append s payload =
      if s.read_only
      then (err segment_read_only, s)
      else append_frame s payload (codec.frame (s.base_index + s.count) payload)

  -- The header is framed at the index 0 and is not counted.
  unfoldable pub write_header : Segment → Bytes → Result Segment
  write_header s payload =
      if s.read_only
      then err segment_read_only
      else if not (s.size == 0) || not (s.count == 0)
      then err other
      else do
        f ← codec.frame 0 payload
        ok (record s {
          file = write_at s.file 0 f;
          size = length f;
          has_header = true;
          header = payload;
        })

  -- ReadAt, the debug path by file offset.
  unfoldable pub read_offset : Segment → ℕ → Result Bytes
  read_offset s off = do
    (payload, n) ← codec.read_frame s.file off (next_offset_after s s.offsets off)
    ok payload

  next_offset : Segment → ℕ → ℕ
  next_offset s i = or_size (get_elem? s.offsets (suc i)) s.size

  -- `other` stands for Go's panic on an index out of range.
  pub read_span : Bytes → Option ℕ → ℕ → Result Bytes
  read_span file none next = err other
  read_span file (some off) next = codec.read_frame file off (some next) >>= λ r. ok (r.0)

  -- The read of record `i` from the file.
  unfoldable pub read_record : Segment → ℕ → Result Bytes
  unfolding next_offset
  read_record s i = read_span s.file (get_elem? s.offsets i) (next_offset s i)

  -- The loop of readAllPayloads: `n` records from `i` on, behind the block read so far.
  unfoldable pub read_all_loop : Segment → ℕ → ℕ → Block → Result Block
  read_all_loop s zero i b = ok b
  read_all_loop s (suc n) i b = do
    payload ← read_record s i
    read_all_loop s n (suc i) (record {
      payloads = b.payloads ++ (payload ∷ []);
      bytes = b.bytes + (length payload + slice_header_bytes);
    })

  unfoldable pub read_all_payloads : Segment → Result Block
  read_all_payloads s = read_all_loop s s.count 0 (record { payloads = []; bytes = 0 })

  loaded_block : Segment → Result Block → Option Block × Segment
  loaded_block s (err e) = (none, s)
  loaded_block s (ok b) = (some b, record s { block = some b })

  resident_or_load : Bool → Segment → Option Block → Option Block × Segment
  unfolding loaded_block
  resident_or_load caching s (some b) = (some b, s)
  resident_or_load caching s none =
      if caching then loaded_block s (read_all_payloads s) else (none, s)

  -- `caching` is `CacheBudget() > 0`.
  unfoldable pub cached_payloads : Bool → Segment → Option Block × Segment
  unfolding resident_or_load
  cached_payloads caching s = resident_or_load caching s s.block

  from_block : Segment → ℕ → Option Block → Result Bytes
  from_block s i none = read_record s i
  from_block s i (some b) = elim (get_elem? b.payloads i) [ some p ↦ ok p | none ↦ read_record s i ]

  unfoldable pub read_index : Bool → Segment → ℕ → Result Bytes × Segment
  unfolding from_block
  read_index caching s i =
      if leb s.count i
      then (err out_of_range, s)
      else let (b, s') = cached_payloads caching s in (from_block s i b, s')

  -- The header payload is read back where the scan met a header.
  recover_header : Segment → ℕ → Result Segment
  recover_header s header_end =
      if s.has_header && ltb 0 header_end
      then (codec.read_frame s.file 0 (some header_end) >>= λ r. ok (record s { header = r.0 }))
      else ok s

  unfoldable pub recover : Segment → Result Segment
  unfolding recover_header truncate_torn
  recover s = do
    let st = foldl (on_frame s.has_header) scan_start (codec.scan_from 0 s.file)
    s' ←
        recover_header (record s { offsets = st.offsets; count = st.count; size = st.off })
          st.header_end
    ok (truncate_torn s' st.off)

  -- openRW, openRO: the file is there, and its first frame is a header where `has_header` says so.
  unfoldable pub open_rw : Bytes → ℕ → ℕ → Bool → Result Segment
  open_rw file base max has_header =
      recover (record (create base max) { file = file; has_header = has_header })

  unfoldable pub open_ro : Bytes → ℕ → Bool → Result Segment
  open_ro file base has_header =
      recover (record (create base 0) { file = file; has_header = has_header; read_only = true })
