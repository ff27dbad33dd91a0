-- ===== src/Xwal/Index.antt =====
-- The node index (xwal/index.go, xwal/nodeinfo.go) and the flat forks that patch it (forkFlat,
-- forkFlatNamed, forkFlatAt and forkTailLocked of xwal/trunks.go). A Go map is an association list.
-- The main channel's directory is its marker and its subdirectories, in the order of their names, each with
-- its marker file if it has one. The other channels are left out.
pub mod Tables
pub mod Counts
pub mod Extends
pub mod Mirrors
pub mod Forks
pub mod Histories
pub mod Spawns
pub mod Runs
use figwal.Common.{
  ℕ, zero, suc, ◌+◌, Bool, true, false, not, ◌&&◌, ◌||◌, Option, none, some, List, [], ◌∷◌, ◌++◌,
  ltb, leb, ◌==◌, if◌then◌else◌, length, ℤ, pos, negsuc,
}
use figwal.Result.{Error, Result, ok, err, other}
use figwal.Segment.Bytes.{Bytes}
use figwal.Values.{same}
use figwal.Names.{fs_name, key_name}
use figwal.Disk.Fork.{hidden, valid_fork_name}
use figwal.Xwal.Frames.{max_int64}
use figwal.Xwal.Markers.{NodeMarker, no_marker, read_marker, marker_text, num_suffix, itoa}

module _ {ℓ} {A : Type ℓ} where
  -- m[k]
  abbrev pub look : Bytes → List (Bytes × A) → Option A
  look k [] = none
  look k ((j, v) ∷ m) = let rest = look k m in if same j k then some v else rest

  -- m[k] = v
  abbrev pub assign : List (Bytes × A) → Bytes → A → List (Bytes × A)
  assign [] k v = (k, v) ∷ []
  assign ((j, w) ∷ m) k v =
      let rest = assign m k v in if same j k then (j, v) ∷ m else (j, w) ∷ rest

pub record NodeInfo : Type 0 where
  pub trunk : Bytes
  pub is_root : Bool
  pub from : Bytes
  pub kind : Bytes

-- What a rebuild derives: the maps and the counters of an Index
pub record Shape : Type 0 where
  pub nodes : List (Bytes × NodeInfo)
  pub heads : List (Bytes × Bytes)
  pub node_seq : ℕ
  pub trunk_seq : ℕ

pub record Index : Type 0 where
  pub shape : Shape
  pub version : ℕ
  pub rebuilds : ℕ

abbrev pub empty_shape : Shape
empty_shape = record { nodes = []; heads = []; node_seq = 0; trunk_seq = 0 }

-- newIndex
abbrev pub new_index : Index
new_index = record { shape = empty_shape; version = 0; rebuilds = 0 }

-- Node, Head, ParentOf and Len
abbrev pub node : Bytes → Index → Option NodeInfo
node key x = look key x.shape.nodes

abbrev pub head : Bytes → Index → Option Bytes
head trunk x = look trunk x.shape.heads

abbrev pub from_of : Option NodeInfo → Bytes
from_of none = []
from_of (some n) = n.from

abbrev pub parent_of : Bytes → Index → Bytes
parent_of key x = from_of (look key x.shape.nodes)

-- The part of a key behind its last slash
abbrev pub segment_loop : Bytes → Bytes → Bytes
segment_loop seg [] = seg
segment_loop seg (b ∷ s) = segment_loop (if b == 47 then s else seg) s

-- The counter behind a number `n`, where `n + 1` wraps around
abbrev pub raised : ℤ → ℕ → ℕ
raised (negsuc n) seq = seq
raised (pos n) seq = if n == max_int64 then seq else if ltb seq (n + 1) then n + 1 else seq

abbrev pub key_number : Bytes → ℤ
key_number key = num_suffix (segment_loop key key) 110

abbrev pub raised_by_key : Bytes → ℕ → ℕ
raised_by_key [] seq = seq
raised_by_key (b ∷ key) seq = raised (key_number (b ∷ key)) seq

-- bumpSeqsLocked
abbrev pub bump_seqs : Bytes → Bytes → Shape → Shape
bump_seqs key trunk x = record x {
  node_seq = raised_by_key key x.node_seq;
  trunk_seq = raised (num_suffix trunk 116) x.trunk_seq;
}

abbrev pub with_head : List (Bytes × Bytes) → Bytes → Bytes → List (Bytes × Bytes)
with_head heads [] key = heads
with_head heads (b ∷ trunk) key = assign heads (b ∷ trunk) key

unfoldable pub spawn_flat : Bytes → Bytes → Bytes → Bytes → Index → Index
spawn_flat parent child trunk kind x = record x {
  shape = bump_seqs child trunk (record (x.shape) {
    nodes =
        assign x.shape.nodes child
          (record { trunk = trunk; is_root = false; from = parent; kind = kind });
    heads = with_head x.shape.heads trunk child;
  });
  version = x.version + 1;
}

unfoldable pub mint_node : Index → Bytes × Index
mint_node x = (
  110 ∷ itoa x.shape.node_seq,
  record x { shape = record (x.shape) { node_seq = x.shape.node_seq + 1 } },
)

-- `minted` is what the caller's MintTrunkID returned, if there is one.
unfoldable pub mint_trunk : Option Bytes → Index → Bytes × Index
mint_trunk (some id) x = (id, x)
mint_trunk none x = (
  116 ∷ itoa x.shape.trunk_seq,
  record x { shape = record (x.shape) { trunk_seq = x.shape.trunk_seq + 1 } },
)

-- A trunk has one head.
abbrev pub claimed : Bytes → Bytes → Shape → Option Bytes → Result (Unit {0}) × Shape
claimed key trunk x (some previous) = (err other, x)
claimed key trunk x none = (ok tt, record x { heads = assign x.heads trunk key })

abbrev pub claim : Bytes → Bytes → Shape → Result (Unit {0}) × Shape
claim key [] x = (ok tt, x)
claim key (b ∷ trunk) x = claimed key (b ∷ trunk) x (look (b ∷ trunk) x.heads)

abbrev pub add_known : Bytes → Bool → NodeMarker → Shape → Result (Unit {0}) × Shape
add_known key root n x = claim key n.trunk (
    bump_seqs key n.trunk (record x {
      nodes =
          assign x.nodes key
            (record { trunk = n.trunk; is_root = root; from = n.from; kind = n.kind });
    }))

-- null
abbrev pub null_kind : Bytes
null_kind = 110 ∷ 117 ∷ 108 ∷ 108 ∷ []

abbrev pub or_no_marker : Option Bytes → NodeMarker
or_no_marker none = no_marker
or_no_marker (some text) = read_marker text

-- addLocked, of the root and of another node
abbrev pub add_root : Option Bytes → Shape → Result (Unit {0}) × Shape
add_root marker x = add_known [] true (record (or_no_marker marker) { kind = null_kind }) x

abbrev pub add_node : Bytes → Option Bytes → Shape → Result (Unit {0}) × Shape
add_node key none x = (ok tt, x)
add_node key (some text) x = add_known key false (read_marker text) x

-- A subdirectory of the main channel's directory
pub record Dir : Type 0 where
  pub name : Bytes
  pub marker : Option Bytes

pub record Tree : Type 0 where
  pub root_marker : Option Bytes
  pub dirs : List Dir

abbrev pub and_then :
    Result (Unit {0}) × Shape → (Shape → Result (Unit {0}) × Shape) → Result (Unit {0}) × Shape
and_then (err e, x) next = (err e, x)
and_then (ok u, x) next = next x

module _ (encode : Bool) where
  abbrev pub add_dir : Dir → Shape → Result (Unit {0}) × Shape
  add_dir d x = if hidden d.name then (ok tt, x) else add_node (key_name encode d.name) d.marker x

  -- The loop of RebuildFrom
  unfoldable pub add_dirs : List Dir → Shape → Result (Unit {0}) × Shape
  add_dirs [] x = (ok tt, x)
  add_dirs (d ∷ ds) x = and_then (add_dir d x) (add_dirs ds)

  unfoldable pub scan : Tree → Result (Unit {0}) × Shape
  scan t = and_then (add_root t.root_marker empty_shape) (add_dirs t.dirs)

  abbrev pub rebuilt : Index → Result (Unit {0}) × Shape → Result (Unit {0}) × Index
  rebuilt x (err e, s) = (err e, record x { shape = s; rebuilds = x.rebuilds + 1 })
  rebuilt x (ok u, s) =
      (ok u, record x { shape = s; rebuilds = x.rebuilds + 1; version = x.version + 1 })

  unfoldable pub rebuild_from : Tree → Index → Result (Unit {0}) × Index
  rebuild_from t x = rebuilt x (scan t)

-- The order of file names
abbrev pub before : Bytes → Bytes → Bool
before s [] = false
before [] (b ∷ t) = true
before (a ∷ s) (b ∷ t) = let rest = before s t in if a == b then rest else ltb a b

-- A directory that is there keeps its marker: MkdirAll
abbrev pub make_dir : Bytes → List Dir → List Dir
make_dir name [] = record { name = name; marker = none } ∷ []
make_dir name (d ∷ ds) =
    let rest = make_dir name ds in
    if same d.name name
    then d ∷ ds
    else if before name d.name
    then record { name = name; marker = none } ∷ d ∷ ds
    else d ∷ rest

-- writeNodeMarker, in a directory that is there or is made
abbrev pub put_dir : Bytes → Bytes → List Dir → List Dir
put_dir name text [] = record { name = name; marker = some text } ∷ []
put_dir name text (d ∷ ds) =
    let rest = put_dir name text ds in
    if same d.name name
    then record { name = name; marker = some text } ∷ ds
    else if before name d.name
    then record { name = name; marker = some text } ∷ d ∷ ds
    else d ∷ rest

-- Where a fork stops: nowhere, before it makes a directory, or before it writes the marker, when
-- the directory of the main channel may be there
pub data Fault : Type 0 where
  no_fault before_dirs before_marker : Fault

pub record World : Type 0 where
  pub tree : Tree
  pub index : Index

module _ (encode : Bool) where
  -- What forkFlat and forkFlatNamed do once they have their ids: whether the fork is committed, and the world then.
  unfoldable pub fork_named :
      Fault → Bytes → Bytes → Bytes → Bytes → World → Result (Unit {0}) × World
  fork_named before_dirs parent child trunk kind w = (err other, w)
  fork_named before_marker parent child trunk kind w = (
    err other,
    record w { tree = record (w.tree) { dirs = make_dir (fs_name encode child) w.tree.dirs } },
  )
  fork_named no_fault parent child trunk kind w = (
    ok tt,
    record w {
      tree = record (w.tree) {
        dirs =
            put_dir (fs_name encode child)
              (marker_text (record { from = parent; kind = kind; trunk = trunk })) w.tree.dirs;
      };
      index = spawn_flat parent child trunk kind w.index;
    },
  )

  abbrev pub named_or : Bytes → Result (Unit {0}) × World → Result Bytes × World
  named_or id (err e, w) = (err e, w)
  named_or id (ok u, w) = (ok id, w)

  abbrev pub minted_if : Bool → Option Bytes → Index → Bytes × Index
  minted_if true minted x = mint_trunk minted x
  minted_if false minted x = ([], x)

  -- forkFlat
  unfoldable pub fork_flat :
      Fault → Option Bytes → Bool → Bytes → Bytes → World → Result Bytes × World
  fork_flat fault minted mints parent kind w =
      let (child, x) = mint_node w.index in
      let (trunk, x') = minted_if mints minted x in
      named_or (if mints then trunk else child)
        (fork_named fault parent child trunk kind (record w { index = x' }))

  -- conversation
  abbrev pub conversation : Bytes
  conversation = 99 ∷ 111 ∷ 110 ∷ 118 ∷ 101 ∷ 114 ∷ 115 ∷ 97 ∷ 116 ∷ 105 ∷ 111 ∷ 110 ∷ []

  abbrev pub fork_of : Fault → Option Bytes → Option Bytes → World → Result Bytes × World
  fork_of fault minted none w = (err other, w)
  fork_of fault minted (some key) w = fork_flat fault minted true key conversation w

  -- forkTailLocked
  unfoldable pub fork_tail : Fault → Option Bytes → Bytes → World → Result Bytes × World
  fork_tail fault minted trunk w = fork_of fault minted (head trunk w.index) w

  -- loadout
  abbrev pub loadout : Bytes
  loadout = 108 ∷ 111 ∷ 97 ∷ 100 ∷ 111 ∷ 117 ∷ 116 ∷ []

  abbrev pub is_there : Option NodeInfo → Bool
  is_there none = false
  is_there (some n) = true

  -- CreateStump
  unfoldable pub create_stump : Fault → Bytes → World → Result (Unit {0}) × World
  create_stump fault name w =
      if not (valid_fork_name name) || hidden name
      then (err other, w)
      else if is_there (node name w.index)
      then (err other, w)
      else fork_named fault [] name [] loadout w
