-- ===== src/Xwal/Removal.antt =====
-- The removal of a trunk (remove of xwal/trunks.go) with the listings of the index that it reads
-- (ChildrenOf and ChildIndex of xwal/index.go). No heads are open, and the channels other than the
-- main one are left out.
pub mod Subtrees
pub mod Remains
pub mod Outcomes
pub mod Runs
use figwal.Common.{
  ℕ, zero, suc, Bool, true, false, not, ◌&&◌, ◌||◌, Option, none, some, List, [], ◌∷◌, ◌++◌,
  if◌then◌else◌, length, ◌+◌,
}
use figwal.Result.{Error, Result, ok, err, other}
use figwal.Segment.Bytes.{Bytes}
use figwal.Values.{same}
use figwal.Names.{fs_name, fs_names}
use figwal.Disk.Fork.{among}
use figwal.Xwal.Index.{NodeInfo, Index, Dir, Tree, World, node, parent_of, before, rebuild_from}

-- sort.Strings
abbrev pub insert_name : Bytes → List Bytes → List Bytes
insert_name a [] = a ∷ []
insert_name a (b ∷ l) = let rest = insert_name a l in if before b a then b ∷ rest else a ∷ b ∷ l

abbrev pub sort_names : List Bytes → List Bytes
sort_names [] = []
sort_names (a ∷ l) = insert_name a (sort_names l)

abbrev pub children_in : Bytes → Index → List (Bytes × NodeInfo) → List Bytes
children_in key x [] = []
children_in key x ((k, n) ∷ m) =
    let rest = children_in key x m in if same (parent_of k x) key then k ∷ rest else rest

-- ChildrenOf, which is also ChildIndex at the key
unfoldable pub children_of : Bytes → Index → List Bytes
children_of key x = sort_names (children_in key x x.shape.nodes)

abbrev pub walk_all : (Bytes → List Bytes) → List Bytes → List Bytes
walk_all walk [] = []
walk_all walk (c ∷ cs) = walk c ++ walk_all walk cs

abbrev pub visit : Option NodeInfo → List Bytes → List Bytes
visit none keys = []
visit (some n) keys = keys

-- The keys of a subtree, in the order of the walk; the fuel bounds its depth.
unfoldable pub walk : ℕ → Index → Bytes → List Bytes
walk zero x key = []
walk (suc fuel) x key = visit (node key x) (key ∷ walk_all (walk fuel x) (children_of key x))

abbrev pub subtree : Index → Bytes → List Bytes
subtree x key = walk (length x.shape.nodes + 1) x key

-- Whether a node with the trunk is its founding node, by its parent
abbrev pub founds : Bytes → Option NodeInfo → Bool
founds trunk none = true
founds trunk (some p) = not (same p.trunk trunk)

abbrev pub founding_at :
    Bytes → Index → Bytes → Option NodeInfo → Result (Option Bytes) → Result (Option Bytes)
founding_at trunk x key none rest = rest
founding_at trunk x key (some n) rest =
    if not (same n.trunk trunk)
    then rest
    else if n.is_root
    then err other
    else if founds trunk (node n.from x)
    then ok (some key)
    else rest

-- The founding node of a trunk. Go leaves the order of the nodes open.
unfoldable pub founding : Bytes → Index → List (Bytes × NodeInfo) → Result (Option Bytes)
founding trunk x [] = ok none
founding trunk x ((key, n) ∷ m) = founding_at trunk x key (node key x) (founding trunk x m)

abbrev pub trunk_of : Option NodeInfo → Bytes
trunk_of none = []
trunk_of (some n) = n.trunk

-- The trunks of the keys but one, each once
abbrev pub other_trunks : Bytes → Index → List Bytes → List Bytes
other_trunks trunk x [] = []
other_trunks trunk x (key ∷ keys) =
    let rest = other_trunks trunk x keys in
    let t = trunk_of (node key x) in
    if same t [] || (same t trunk || among t rest) then rest else t ∷ rest

-- os.RemoveAll of the directories with these names
unfoldable pub without_dirs : List Bytes → List Dir → List Dir
without_dirs names [] = []
without_dirs names (d ∷ ds) =
    let rest = without_dirs names ds in if among d.name names then rest else d ∷ rest

abbrev pub any_trunk : List Bytes → Bool
any_trunk [] = false
any_trunk (t ∷ ts) = true

module _ (encode : Bool) where
  abbrev pub removed_tree : List Bytes → Tree → Tree
  removed_tree keys t = record t { dirs = without_dirs (fs_names encode keys) t.dirs }

  abbrev pub remove_result :
      List Bytes → World → Result (Unit {0}) × Index → Result (List Bytes) × World
  remove_result removed w (err e, x) = (err e, record w { index = x })
  remove_result removed w (ok u, x) = (ok removed, record w { index = x })

  abbrev pub remove_keys : Bytes → List Bytes → World → Result (List Bytes) × World
  remove_keys trunk keys w =
      let w' = record w { tree = removed_tree keys w.tree } in
      remove_result (trunk ∷ other_trunks trunk w.index keys) w'
        (rebuild_from encode w'.tree w.index)

  abbrev pub remove_from :
      Bytes → Bool → World → Result (Option Bytes) → Result (List Bytes) × World
  remove_from trunk recursive w (err e) = (err e, w)
  remove_from trunk recursive w (ok none) = (err other, w)
  remove_from trunk recursive w (ok (some key)) =
      let keys = subtree w.index key in
      if any_trunk (other_trunks trunk w.index keys) && not recursive
      then (err other, w)
      else remove_keys trunk keys w

  -- remove
  unfoldable pub remove : Bytes → Bool → World → Result (List Bytes) × World
  remove trunk recursive w =
      remove_from trunk recursive w (founding trunk w.index w.index.shape.nodes)
