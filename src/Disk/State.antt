-- ===== src/Disk/State.antt =====
-- `Log` of disk/log.go with the sealed segments of disk/sealed.go, and its operations.
-- A log and its parents are a list, the log first: `chain` is the parent, its parent and so on.
-- A segment file is named for its base index, so a sealed segment is its base and what its
-- file holds. Locks, and the order of `fsync`s, are not part of the state.
pub mod Search
pub mod Holds
pub mod Routing
pub mod Reads
pub mod Growth
pub mod Firsts
pub mod Writes
use figwal.Common.{
  ℕ, zero, suc, ◌+◌, ◌-◌, ◌/◌, Bool, true, false, not, ◌&&◌, ◌||◌, Option, none, some, List, [],
  ◌∷◌, ◌++◌, ltb, leb, ◌==◌, if◌then◌else◌, length, get_elem?,
}
use figwal.Result.{
  Error, Result, ok, err, full, out_of_order, not_found, empty, payload_too_large, log_read_only,
  other, ◌>>=◌, ◌>>◌,
}
use figwal.Segment.Bytes.{Bytes}
use figwal.Segment.Codec.{SegmentCodec}
use figwal.Segment.State.{
  Segment, create, append, write_header, read_index, open_ro, open_rw, last_index,
}

pub record SealedSeg : Type 0 where
  pub base : ℕ
  pub last : ℕ
  pub file : Bytes
  -- the handle, once the segment is open
  pub seg : Option Segment

-- `kids`: the directory has a subdirectory that is not dot-prefixed, which `hasSubdirs` reads.
pub record Log : Type 0 where
  pub sealed : List SealedSeg
  pub active : Option Segment
  pub fork_base : ℕ
  pub read_only : Bool
  pub kids : Bool
  pub segment_size : ℕ

-- `Options.OnSegmentOpen`
abbrev pub Fold : Type 0
Fold = Bytes → List Bytes → Result Bytes

-- wrapOpen
unfoldable pub wrap_open : Segment → SealedSeg
wrap_open s = record {
  base = s.base_index;
  last = if ltb 0 s.count then last_index s else s.base_index;
  file = s.file;
  seg = some s;
}

active_empty : Option Segment → Bool
active_empty none = true
active_empty (some a) = a.count == 0

empty_log : List SealedSeg → Option Segment → Bool
empty_log [] active = active_empty active
empty_log (ss ∷ rest) active = false

unfoldable pub is_empty : Log → Bool
unfolding empty_log active_empty
is_empty l = empty_log l.sealed l.active

last_sealed : List SealedSeg → ℕ
last_sealed [] = 0
last_sealed (ss ∷ []) = ss.last
last_sealed (ss ∷ (ss' ∷ rest)) = last_sealed (ss' ∷ rest)

last_of : List SealedSeg → Option Segment → ℕ
last_of sealed none = last_sealed sealed
last_of sealed (some a) = if ltb 0 a.count then last_index a else last_sealed sealed

-- lastIndexLocked
unfoldable pub last_index_own : Log → ℕ
unfolding last_of last_sealed
last_index_own l = last_of l.sealed l.active

first_of_active : Option Segment → ℕ
first_of_active none = 0
first_of_active (some a) = if ltb 0 a.count then a.base_index else 0

first_of_log : List SealedSeg → Option Segment → ℕ
first_of_log [] active = first_of_active active
first_of_log (ss ∷ rest) active = ss.base

-- firstIndexLocked
unfoldable pub first_index_own : Log → ℕ
unfolding first_of_log first_of_active
first_index_own l = first_of_log l.sealed l.active

-- LastIndex
unfoldable pub last_index_log : Log → ℕ
last_index_log l =
    let last = last_index_own l in
    if ltb 0 last then last else if ltb 0 l.fork_base then l.fork_base - 1 else 0

-- FirstIndex walks the parent chain.
unfoldable pub first_index_log : Log → List Log → ℕ
first_index_log l [] = first_index_own l
first_index_log l (p ∷ chain) =
    let first = first_index_log p chain in if not (first == 0) then first else first_index_own l

-- `sealed[i].last`; the loop below stays inside the list.
abbrev pub last_at : List SealedSeg → ℕ → ℕ
last_at [] i = 0
last_at (ss ∷ rest) zero = ss.last
last_at (ss ∷ rest) (suc i) = last_at rest i

-- searchSealed: the loop on `lo` and `hi`; `fuel` bounds the rounds.
unfoldable pub search_loop : ℕ → List SealedSeg → ℕ → ℕ → ℕ → ℕ
search_loop zero sealed idx lo hi = lo
search_loop (suc fuel) sealed idx lo hi =
    let mid = (lo + hi) / 2 in
    let left = search_loop fuel sealed idx lo mid in
    let right = search_loop fuel sealed idx (mid + 1) hi in
    if ltb lo hi then (if leb idx (last_at sealed mid) then left else right) else lo

unfoldable pub search_sealed : List SealedSeg → ℕ → ℕ
search_sealed sealed idx = search_loop (length sealed) sealed idx 0 (length sealed)

covers : ℕ → Option SealedSeg → Option SealedSeg
covers idx none = none
covers idx (some ss) = if leb ss.base idx then some ss else none

-- sealedFor
unfoldable pub sealed_for : List SealedSeg → ℕ → Option SealedSeg
unfolding covers
sealed_for sealed idx = covers idx (get_elem? sealed (search_sealed sealed idx))

-- The index that Write expects: a fresh log begins at 1, a fresh fork at its base.
unfoldable pub expected_index : Log → ℕ
expected_index l =
    if is_empty l then (if ltb 0 l.fork_base then l.fork_base else 1) else last_index_own l + 1

module _ (codec : SegmentCodec) (caching : Bool) (on_open : Option Fold) where
  abbrev pub headered : Option Fold → Bool
  headered none = false
  headered (some fold) = true

  -- `open` of a sealed segment: the handle, or a read-only open of the file.
  open_with : SealedSeg → Option Segment → Result Segment
  open_with ss (some s) = ok s
  open_with ss none = open_ro codec ss.file ss.base (headered on_open)

  unfoldable pub open_sealed : SealedSeg → Result Segment
  unfolding open_with headered
  open_sealed ss = open_with ss ss.seg

  in_active : ℕ → Option Segment → Option Segment
  in_active idx none = none
  in_active idx (some a) =
      if ltb 0 a.count && (leb a.base_index idx && leb idx (last_index a)) then some a else none

  find_in : Log → ℕ → Option SealedSeg → Result (Option Segment)
  find_in l idx none = ok (in_active idx l.active)
  find_in l idx (some ss) = do s ← open_sealed ss; ok (some s)

  -- findSegmentLocked
  unfoldable pub find_segment : Log → ℕ → Result (Option Segment)
  unfolding find_in in_active
  find_segment l idx = find_in l idx (sealed_for l.sealed idx)

  pub or_not_found : Option Segment → Result Segment
  or_not_found none = err not_found
  or_not_found (some s) = ok s

  -- Read behind the test on the parent
  unfoldable pub read_own : Log → ℕ → Result Bytes
  unfolding or_not_found
  read_own l idx = if is_empty l then err empty else do
    found ← find_segment l idx
    s ← or_not_found found
    (read_index codec caching s (idx - s.base_index)).0

  unfoldable pub read : Log → List Log → ℕ → Result Bytes
  read l [] idx = read_own l idx
  read l (p ∷ chain) idx =
      let inherited = read p chain idx in if ltb idx l.fork_base then inherited else read_own l idx

  -- The payloads from `i` on, `n` of them, read one by one.
  unfoldable pub read_run : Segment → ℕ → ℕ → Result (List Bytes)
  read_run s zero i = ok []
  read_run s (suc n) i = do
    p ← (read_index codec caching s i).0
    rest ← read_run s n (suc i)
    ok (p ∷ rest)

  -- segPayloads
  unfoldable pub seg_payloads : Segment → Result (List Bytes)
  seg_payloads s = read_run s s.count 0

  -- StateAt: the header of the segment folded with its entries up to `idx`.
  unfoldable pub state_at_own : Fold → Log → ℕ → Result Bytes
  unfolding or_not_found
  state_at_own fold l idx = do
    found ← find_segment l idx
    s ← or_not_found found
    payloads ← read_run s (suc idx - s.base_index) 0
    fold s.header payloads

  unfoldable pub state_at : Fold → Log → List Log → ℕ → Result Bytes
  state_at fold l [] idx = state_at_own fold l idx
  state_at fold l (p ∷ chain) idx =
      let inherited = state_at fold p chain idx in
      if ltb idx l.fork_base then inherited else state_at_own fold l idx

  -- What a new segment's header is folded from: the segment just sealed, or for the first segment
  -- of a fork the parent's state at the fork point.
  header_inputs : Fold → Log → List SealedSeg → List Log → Result (Bytes × List Bytes)
  header_inputs fold l [] [] = ok ([], [])
  header_inputs fold l [] (p ∷ chain) =
      if ltb 1 l.fork_base
      then (do prev ← state_at fold p chain (l.fork_base - 1); ok (prev, []))
      else ok ([], [])
  header_inputs fold l (ss ∷ []) chain = do
    prev ← open_sealed ss
    payloads ← seg_payloads prev
    ok (prev.header, payloads)
  header_inputs fold l (ss ∷ (ss' ∷ rest)) chain = header_inputs fold l (ss' ∷ rest) chain

  headed_segment : Option Fold → Log → List Log → Segment → Result Segment
  headed_segment none l chain s = ok s
  headed_segment (some fold) l chain s = do
    (prev, payloads) ← header_inputs fold l l.sealed chain
    header ← fold prev payloads
    write_header codec s header

  with_active : Log → Result Segment → Result (Unit {0}) × Log
  with_active l (err e) = (err e, l)
  with_active l (ok s) = (ok tt, record l { active = some s })

  -- openActiveLocked
  unfoldable pub open_active : Log → List Log → ℕ → Result (Unit {0}) × Log
  unfolding with_active headed_segment header_inputs
  open_active l chain base =
      with_active l (headed_segment on_open l chain (create base l.segment_size))

  unfoldable pub sealed_off : Log → Option Segment → Log
  sealed_off l none = l
  sealed_off l (some a) = record l { sealed = l.sealed ++ (wrap_open a ∷ []); active = none }

  -- rotateLocked
  unfoldable pub rotate : Log → List Log → ℕ → Result (Unit {0}) × Log
  unfolding sealed_off
  rotate l chain base = open_active (sealed_off l l.active) chain base

  -- An append to the active segment, with what it answers.
  append_active : Bytes → Log → Option Segment → Result ℕ × Log
  append_active p l none = (err other, l)
  append_active p l (some a) = let (r, a') = append codec a p in (r, record l { active = some a' })

  unfoldable pub append_to : Log → Bytes → Result ℕ × Log
  unfolding append_active
  append_to l p = append_active p l l.active

  too_large : Result ℕ × Log → Result (Unit {0}) × Log
  too_large (ok off, l) = (ok tt, l)
  too_large (err full, l) = (err payload_too_large, l)
  too_large (err e, l) = (err e, l)

  -- The second append, behind a rotation
  after_rotation : Bytes → Result (Unit {0}) × Log → Result (Unit {0}) × Log
  after_rotation p (err e, l) = (err e, l)
  after_rotation p (ok u, l) = too_large (append_to l p)

  -- What Write makes of the first append: `full` rotates, unless the segment is empty.
  after_append : Log → List Log → ℕ → Bytes → Result ℕ × Log → Result (Unit {0}) × Log
  after_append l chain idx p (ok off, l') = (ok tt, l')
  after_append l chain idx p (err full, l') =
      if active_empty l'.active
      then (err payload_too_large, l')
      else after_rotation p (rotate l' chain idx)
  after_append l chain idx p (err e, l') = (err e, l')

  after_open : List Log → ℕ → Bytes → Result (Unit {0}) × Log → Result (Unit {0}) × Log
  after_open chain idx p (err e, l) = (err e, l)
  after_open chain idx p (ok u, l) = after_append l chain idx p (append_to l p)

  ensure_active : Log → List Log → ℕ → Option Segment → Result (Unit {0}) × Log
  ensure_active l chain idx none = open_active l chain idx
  ensure_active l chain idx (some a) = (ok tt, l)

  unfoldable pub write : Log → List Log → ℕ → Bytes → Result (Unit {0}) × Log
  unfolding after_open after_append after_rotation too_large active_empty ensure_active
  write l chain idx p =
      if l.read_only
      then (err log_read_only, l)
      else if l.kids
      then (err log_read_only, record l { read_only = true })
      else if not (idx == expected_index l)
      then (err out_of_order, l)
      else after_open chain idx p (ensure_active l chain idx l.active)
