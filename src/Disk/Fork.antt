-- ===== src/Disk/Fork.antt =====
-- `Fork` and `ForkRehome` of disk/fork.go, whose work forkImpl does. A directory is named by what
-- `entries` (all of its names) and `kids` (its subdirectories without a dot) read of it; `own` is its
-- own name. File writes, renames and syncs succeed, so the sentinel .fork-pending comes and goes.
-- A new directory is its marker's base, its segment files and its subdirectories.
mod Lists
pub mod Copies
pub mod Cuts
pub mod Splits
pub mod Outcomes
pub mod Runs
use figwal.Common.{
  ℕ, zero, suc, ◌+◌, ◌-◌, Bool, true, false, not, ◌&&◌, ◌||◌, Option, none, some, List, [], ◌∷◌,
  ◌++◌, ltb, leb, ◌==◌, if◌then◌else◌,
}
use figwal.Result.{Error, Result, ok, err, fork_conflict, invalid_fork_name, other, ◌>>=◌, ◌>>◌}
use figwal.Segment.Bytes.{Bytes}
use figwal.Segment.Codec.{SegmentCodec}
use figwal.Segment.State.{Segment, create, append, write_header, read_index, open_ro}
use figwal.Names.{contains_any}
use figwal.Values.{same}
use figwal.Disk.State.{
  SealedSeg, Log, Fold, wrap_open, is_empty, first_index_own, last_index_own, open_sealed, headered,
  state_at, sealed_off,
}

-- A segment file, named for its base index
pub record SegFile : Type 0 where
  pub base : ℕ
  pub file : Bytes

pub record ForkDir : Type 0 where
  pub fork_base : ℕ
  pub files : List SegFile
  pub kids : List Bytes

pub record Forked : Type 0 where
  pub child : ForkDir
  pub old_future : Option ForkDir

abbrev pub among : Bytes → List Bytes → Bool
among name [] = false
among name (k ∷ names) = same k name || among name names

abbrev pub hidden : Bytes → Bool
hidden [] = false
hidden (b ∷ name) = b == 46

-- /\
abbrev pub separators : Bytes
separators = 47 ∷ 92 ∷ []

-- validateForkName
unfoldable pub valid_fork_name : Bytes → Bool
valid_fork_name [] = false
valid_fork_name (b ∷ name) =
    not (same (b ∷ name) (46 ∷ []))
    && (not (same (b ∷ name) (46 ∷ 46 ∷ [])) && not (contains_any (b ∷ name) separators))

pub data SegAction : Type 0 where
  act_keep act_move act_split : SegAction

abbrev pub action : ℕ → SealedSeg → SegAction
action at ss = if ltb ss.last at then act_keep else if leb at ss.base then act_move else act_split

-- hasMoves || hasSplit
unfoldable pub data_moves : ℕ → List SealedSeg → Bool
data_moves at [] = false
data_moves at (ss ∷ rest) =
    let later = data_moves at rest in elim (action at ss) [ act_keep ↦ later | _ ↦ true ]

-- oldFutureHasBoundary
unfoldable pub has_boundary : ℕ → List SealedSeg → Bool
has_boundary at [] = false
has_boundary at (ss ∷ rest) =
    let later = has_boundary at rest in
    elim (action at ss) [ act_keep ↦ later | act_move ↦ ss.base == at || later | act_split ↦ true ]

-- The bounds on the index
abbrev pub fork_range : Log → ℕ → Bool
fork_range l at =
    let first = first_index_own l in
    if is_empty l
    then at == (if l.fork_base == 0 then 1 else l.fork_base)
    else (ltb first at || (ltb 0 l.fork_base && at == first)) && leb at (last_index_own l + 1)

abbrev pub old_name : Bytes → Bytes → Bytes
old_name own [] = own
old_name own (b ∷ name) = b ∷ name

-- The names are checked first, then the range, then that the child is new.
unfoldable pub fork_refusal : Bytes → List Bytes → Log → ℕ → Bytes → Bytes → Option Error
fork_refusal own entries l at child old =
    if not (valid_fork_name child)
    then some invalid_fork_name
    else if not (same old []) && not (valid_fork_name old)
    then some invalid_fork_name
    else if same child (old_name own old)
    then some fork_conflict
    else if not (fork_range l at)
    then some other
    else if among child entries
    then some fork_conflict
    else none

-- The children that go into the old future: `none` is the heuristic, all of them where data moves.
abbrev pub rehomed : List Bytes → List Bytes → Bool → Option (List Bytes) → List Bytes
rehomed entries kids moves none = if moves then kids else []
rehomed entries kids moves (some []) = []
rehomed entries kids moves (some (name ∷ names)) =
    let rest = rehomed entries kids moves (some names) in
    if among name entries then name ∷ rest else rest

abbrev pub any_name : List Bytes → Bool
any_name [] = false
any_name (name ∷ names) = true

-- createOldFuture
abbrev pub creates_old : Bytes → Bool → List Bytes → Bool
creates_old old moves homed = not (same old []) || (moves || any_name homed)

-- Whether hasSubdirs finds a subdirectory, of the names that are not moved
abbrev pub any_visible : List Bytes → List Bytes → Bool
any_visible moved [] = false
any_visible moved (name ∷ names) =
    (not (hidden name) && not (among name moved)) || any_visible moved names

-- The active segment is sealed if it has entries.
abbrev pub sealed_for_fork : Log → Option Segment → (Option Segment → Log) → Log
sealed_for_fork l none seal = l
sealed_for_fork l (some a) seal = if ltb 0 a.count then seal (some a) else l

module _ (codec : SegmentCodec) (caching : Bool) (on_open : Option Fold) where
  -- materializeLocked, with the handles that sealedSegments gives
  unfoldable pub open_all : List SealedSeg → Result (List (SealedSeg × Segment))
  open_all [] = ok []
  open_all (ss ∷ rest) = do
    s ← open_sealed codec caching on_open ss
    more ← open_all rest
    ok ((ss, s) ∷ more)

  abbrev pub held : SealedSeg × Segment → SealedSeg
  held (ss, s) = record ss { seg = some s }

  abbrev pub with_handles : List (SealedSeg × Segment) → List SealedSeg
  with_handles [] = []
  with_handles (r ∷ rest) = held r ∷ with_handles rest

  -- The watermark for an empty log
  abbrev pub empty_watermark : Fold → List Log → ℕ → Option Segment → Result Bytes
  empty_watermark fold chain at (some a) = ok a.header
  empty_watermark fold [] at none = fold [] []
  empty_watermark fold (p ∷ chain) at none =
      if ltb 1 at then state_at codec caching on_open fold p chain (at - 1) else fold [] []

  -- The state before the fork point; empty where the log has no headers
  abbrev pub fork_watermark : Option Fold → Log → List Log → ℕ → Bool → Result Bytes
  fork_watermark none l chain at empty = ok []
  fork_watermark (some fold) l chain at empty =
      if empty
      then empty_watermark fold chain at l.active
      else state_at codec caching on_open fold l chain (at - 1)

  -- A new segment with its header, if the log has headers
  abbrev pub started : Option Fold → ℕ → ℕ → Bytes → Result Segment
  started none base max header = ok (create base max)
  started (some fold) base max header = write_header codec (create base max) header

  abbrev pub appended : Result ℕ × Segment → Result Segment
  appended (err e, s) = err e
  appended (ok off, s) = ok s

  -- `n` payloads from `i` on, read from one segment and appended to another
  unfoldable pub copy : Segment → ℕ → ℕ → Segment → Result Segment
  copy s zero i out = ok out
  copy s (suc n) i out = do
    p ← (read_index codec caching s i).0
    out' ← appended (append codec out p)
    copy s n (suc i) out'

  -- The boundary segment: its prefix, opened again, and the file of its suffix
  unfoldable pub split_segment : ℕ → Bytes → Segment → Result (Segment × SegFile)
  split_segment at watermark s = do
    let cut = at - s.base_index
    prefix ← started on_open s.base_index 0 s.header
    prefix' ← copy s cut 0 prefix
    suffix ← started on_open at 0 watermark
    suffix' ← copy s (s.count - cut) cut suffix
    reopened ← open_ro codec prefix'.file s.base_index (headered codec caching on_open on_open)
    ok (reopened, record { base = at; file = suffix'.file })

  abbrev pub placed :
      ℕ
      → Bytes
      → SealedSeg × Segment
      → SegAction
      → List SealedSeg × List SegFile
      → Result (List SealedSeg × List SegFile)
  placed at watermark (ss, s) act_keep (kept, moved) = ok (held (ss, s) ∷ kept, moved)
  placed at watermark (ss, s) act_move (kept, moved) =
      ok (kept, record { base = ss.base; file = s.file } ∷ moved)
  placed at watermark (ss, s) act_split (kept, moved) = do
    (prefix, suffix) ← split_segment at watermark s
    ok (wrap_open prefix ∷ kept, suffix ∷ moved)

  -- What stays in the trunk, and the files of the old future. One segment at most is split.
  unfoldable pub cut_sealed :
      ℕ → Bytes → List (SealedSeg × Segment) → Result (List SealedSeg × List SegFile)
  cut_sealed at watermark [] = ok ([], [])
  cut_sealed at watermark (r ∷ rest) = do
    later ← cut_sealed at watermark rest
    placed at watermark r (action at r.0) later

  -- writeWatermarkSeg, where the log has headers
  abbrev pub watermark_files : Option Fold → ℕ → ℕ → Bytes → Result (List SegFile)
  watermark_files none at max watermark = ok []
  watermark_files (some fold) at max watermark = do
    s ← write_header codec (create at max) watermark
    ok (record { base = at; file = s.file } ∷ [])

  abbrev pub old_future_dir : Bool → ForkDir → Option ForkDir
  old_future_dir create dir = if create then some dir else none

  -- What a fork makes once it is under way: the directories, and the trunk
  unfoldable pub fork_built :
      Log
      → ℕ
      → Bytes
      → Bool
      → Bytes
      → List Bytes
      → List Bytes
      → Bytes
      → List (SealedSeg × Segment)
      → Result (Forked × Log)
  fork_built l at child create_old name kids homed watermark opened = do
    child_files ← watermark_files on_open at l.segment_size watermark
    boundary ←
        watermark_files (if create_old && not (has_boundary at l.sealed) then on_open else none) at
          l.segment_size watermark
    (kept, moved) ← cut_sealed at watermark opened
    ok (
      record {
        child = record { fork_base = at; files = child_files; kids = [] };
        old_future =
            old_future_dir create_old
              (record { fork_base = at; files = boundary ++ moved; kids = homed });
      },
      record l {
        sealed = kept;
        active = none;
        read_only = true;
        kids = any_visible homed (child ∷ (if create_old then name ∷ kids else kids));
      },
    )

  -- The old future needs a new name.
  abbrev pub fork_unless : Bool → Result (Forked × Log) → Result (Forked × Log)
  fork_unless true built = err fork_conflict
  fork_unless false built = built

  -- The fork of a log whose segments are open: the watermark first, then the test on the old future
  unfoldable pub fork_opened :
      Bytes
      → List Bytes
      → List Bytes
      → Log
      → List Log
      → ℕ
      → Bytes
      → Bytes
      → Option (List Bytes)
      → Bool
      → List (SealedSeg × Segment)
      → Result (Forked × Log)
  fork_opened own entries kids l chain at child old rehome empty opened =
      let moves = data_moves at l.sealed in
      let homed = rehomed entries kids moves rehome in
      let create_old = creates_old old moves homed in
      let name = old_name own old in
      do
        watermark ←
            fork_watermark on_open (record l { sealed = with_handles opened }) chain at empty
        fork_unless (create_old && among name entries)
            (fork_built l at child create_old name kids homed watermark opened)

  abbrev pub fork_ended : Log → Result (Forked × Log) → Result Forked × Log
  fork_ended l (err e) = (err e, l)
  fork_ended l (ok (forked, trunk)) = (ok forked, trunk)

  abbrev pub fork_with :
      Bytes
      → List Bytes
      → List Bytes
      → Log
      → List Log
      → ℕ
      → Bytes
      → Bytes
      → Option (List Bytes)
      → Option Error
      → Result Forked × Log
  fork_with own entries kids l chain at child old rehome (some e) = (err e, l)
  fork_with own entries kids l chain at child old rehome none =
      let sealed = sealed_for_fork l l.active (sealed_off codec caching on_open l) in
      fork_ended sealed (do
        opened ← open_all sealed.sealed
        fork_opened own entries kids sealed chain at child old rehome (is_empty l) opened)

  -- forkImpl: what it makes, and the log then
  unfoldable pub fork :
      Bytes
      → List Bytes
      → List Bytes
      → Log
      → List Log
      → ℕ
      → Bytes
      → Bytes
      → Option (List Bytes)
      → Result Forked × Log
  fork own entries kids l chain at child old rehome =
      fork_with own entries kids l chain at child old rehome
        (fork_refusal own entries l at child old)
