-- ===== src/Lib.antt =====
-- figwal: a write-ahead log for Go, as a model of its packages `segment`, `disk`, `log` and `forest`
-- and of parts of `xwal`.
--
-- A segment (segment/segment.go) is one append-only file of framed records, behind an optional
-- header frame; a codec (segment/codec.go) frames, reads and scans; a block (segment/cache.go) keeps
-- the payloads of a segment in memory. A disk log (disk/log.go, disk/sealed.go) is a directory of
-- segments: the last one is active and takes appends until it is full, the others are sealed. A fork
-- is a disk log whose indices below its fork base are those of its parent. A buffered log
-- (log/log.go) keeps records in memory in front of a disk log until a sync. forest (forest/forest.go,
-- forest/cache.go) keeps windows of materialized units under one byte budget. xwal builds named
-- channels on the logs; of it are here the frames and channels of xwal/xwal.go, the directory names of
-- node keys (xwal/fsname.go), the native map reducer (xwal/map.go), and the index of nodes and trunks
-- (xwal/index.go) with the forks and the removal of trunks (xwal/trunks.go) that go through it.
--
-- Files:
--   Common (Tests, Lists, Ints)   numbers, Boolean tests, lists over the native numbers
--   Result                        errors, and a Go result with its error
--   Segment.Bytes, Segment.Crc    little-endian words, reads and writes of a file; IEEE CRC-32
--   Segment.Codec                 the interface SegmentCodec and the laws that a segment relies on
--   Segment.Binary                BinaryCodec: frame (Frame), read_frame (ReadFrame), scan_from
--                                 (ScanFrames); Scanning and Laws are about the laws for it
--   Segment.State                 Segment with Create, Append, WriteHeader, ReadAt, ReadIndex, recover,
--                                 openRW, openRO, and the block of cache.go; Holds is well-formedness,
--                                 Append, Reads, Scanning, Recovery and Crash are about its operations
--   Disk.State                    Log, sealedSeg and Write, Read, findSegmentLocked, openActiveLocked,
--                                 rotateLocked, StateAt; Holds says which entries a log holds, Search,
--                                 Routing, Reads, Growth, Firsts and Writes are about it
--   Disk.Ranges, Disk.Front       RangeOwn; TruncateFront
--   Disk.Scans                    ScanFromEnd, through the parents; Entries and Lineages
--   Disk.Fork                     Fork and ForkRehome of disk/fork.go; Copies and Cuts are about the
--                                 segments that it splits, Splits and Outcomes about the whole
--   Pending                       Log and pendingView of log/log.go: Write, Read, Sync, SyncThrough;
--                                 Snapshots: LastIndex, Snapshot; Scans: ScanFromEnd;
--                                 Holds, Sync, Durable, Bounds and Reads are about them
--   Forest                        Budget with charge and TrimIdle, Cache with Put, Drop, Close; Meter,
--                                 Fits, Pins and Charges are about them
--   Forest.Lineage, Forest.Window split; Range with rangeInNode, slice and materializeLocked; Slices,
--                                 Stretches, Shifts, Keeps and Exact are
--                                 about them
--   Xwal.Frames                   fastDecodeMainLT, fastDecodeFrame, jsonValueEnd; Numbers and Agree
--   Xwal.Channels                 channel with Append, lookup, lookupAtOrBelow and coherentTarget;
--                                 Lookups (Scans, Answers, Failure), Appends and Cuts are about them
--   Xwal.Markers                  the node marker file and the numbers in ids; Texts and Numerals
--   Xwal.Index                    Index with RebuildFrom, SpawnFlat, MintNode, MintTrunk; forkFlat,
--                                 forkFlatNamed, forkTailLocked and CreateStump; Tables, Counts,
--                                 Extends, Mirrors, Forks, Histories and Spawns are about them
--   Xwal.Removal                  remove, with ChildrenOf; Subtrees, Remains and Outcomes
--   Names                         fsName and keyName
--   Values                        deepSet, deepRemove and reduceMap; Paths, Removal and Patches
--   Runs (in each component)      concrete runs
--
-- State and errors. A file is its bytes. An operation takes a state and returns its result with the
-- new state; an error is a value. The lock of a Go object makes its operations one step each, so
-- locks are no part of a state. The parents of a fork are a list of logs, the nearest first. The
-- codec, whether the cache may load a segment (`CacheBudget() > 0`) and the hook `OnSegmentOpen` are
-- parameters: of a codec the theorems ask `CodecLaws`, for the binary codec with the payloads shorter
-- than 2 ^ 32 bytes; of the hook, only that the headers it gives are ones the codec frames.
--
-- Forest. All caches of a model have units of one type. The runs of all nodes of a cache are one
-- list; a node's runs are those with its name, in order. `self` is the cache that an operation is
-- called on, `others` are the other owners of its budget, in the order of the loops over them, which
-- Go leaves open. A range looks each run up again by its coord, since a charge on the way may hollow
-- it; its loop reads the slots that the node's slice had when it began, which an insertion shifts
-- while the array behind the slice has room: that room is a parameter.
--
-- Channels. A channel's log is the sequence of the records that its scans visit, the newest first.
-- What a log's Write comes to is a parameter of an append: success, a refusal, or a failed sync behind
-- the accepted record. The decoder of a frame's main LT and the encoder of frames are parameters there, of which the
-- theorems ask that a frame decodes with the main LT it was encoded with. `json.Valid`,
-- `json.Unmarshal` and standard base64 are parameters of the frame decoders.
--
-- Forks of disk logs. A directory is what is read of its names, and a new one is its segment files.
-- The child is returned as its directory, before it is opened. Where a fork fails, what it has written by
-- then is left out, and so are the handles that it has opened.
--
-- Nodes. The main channel's directory is a list of subdirectories with their markers; the other
-- channels are left out. A fork may stop before it makes its directory or before it writes its marker.
-- The ids of a caller's MintTrunkID are parameters. The counters are natural numbers: the theorems ask that they
-- have not come to 2 ^ 63 - 1.
--
-- Numbers. Indices, offsets and sizes are natural numbers without wrap-around: the source holds them
-- in uint64 and int64, and no log comes near 2 ^ 63 bytes. The CRC and the length field keep their 32
-- bits, and the escape of a byte its 8.
--
-- Fuel. `search_loop` has as many rounds as there are segments, and each round at least halves the
-- rest; `scan_loop` has as many as the file has bytes, and each frame takes some; `shift_bits` has 8,
-- one per bit. `charge_loop` and `trim_loop` have a round for each run that may be evicted, and a
-- round hollows one; `materialize` has one for each index of the gap, and each chunk takes some. The
-- theorems about them ask for no fuel. `itoa_loop` has more than a numeral has digits. `walk` has one
-- more than there are nodes, which is enough where the lineage has no cycle; on a cycle the code does
-- not end.
--
-- Assumptions and limits. Writes, truncations and removals of files succeed; the fsync of a buffered
-- log may fail, and an append may be cut off by a crash, after which the file keeps some first bytes
-- of the frame. A read does not carry the block that it loads or the handle that it opens back into
-- the log. That a failed header fold leaves an empty file behind, and that a sealed segment remembers
-- its first open error, is left out. SyncThrough runs alone: no append comes between its copy of the
-- view and its trim.
--
-- Not modelled: JSONLCodec and hash.go, which are about encoding/json; opening a directory, the marker
-- and sentinel files of disk forks, ranges over parents; forks of buffered logs; the stores; the
-- process-wide cache budget of segments; a nil budget and the hook Evicted of forest; the manifest, watermarks and
-- recovery of channels, the rest of xwal/trunks.go and the other files of xwal; crashtest and the
-- commands.
pub mod Common
pub mod Result
pub mod Segment
pub mod Disk
pub mod Pending
pub mod Names
pub mod Values
pub mod Forest
pub mod Xwal
