-- ===== src/Values.antt =====
-- The native map reducer (xwal/map.go): patches that set and remove members of a nested JSON
-- object. A Go map is an association list, a JSON value that is no object is a leaf with its text,
-- a member name is its bytes. Reading and printing of JSON are those of encoding/json: states and
-- patches are taken as they are read. A path is its first name and the names behind it; the Go
-- loops that walk down the path write the maps on their way, which is a rebuilt value here.
pub mod Paths
pub mod Removal
pub mod Patches
pub mod Runs
use figwal.Common.{ℕ, Bool, true, false, Option, none, some, List, [], ◌∷◌, ◌==◌, if◌then◌else◌}
use figwal.Result.{Result, ok, err, other, ◌>>=◌}
use figwal.Segment.Bytes.{Bytes}

mutual
  pub data Value : Type 0 where
    leaf : Bytes → Value
    object : Members → Value

  pub data Members : Type 0 where
    nothing : Members
    member : Bytes → Value → Members → Members

-- Equality of member names
abbrev pub same : Bytes → Bytes → Bool
same [] [] = true
same [] (b ∷ ks) = false
same (a ∷ js) [] = false
same (a ∷ js) (b ∷ ks) = if a == b then same js ks else false

-- m[k]
abbrev pub find : Members → Bytes → Option Value
find nothing k = none
find (member j v m) k = if same j k then some v else find m k

-- m[k] = v
abbrev pub put : Members → Bytes → Value → Members
put nothing k v = member k v nothing
put (member j w m) k v = let rest = put m k v in if same j k then member j v m else member j w rest

-- delete(m, k)
abbrev pub delete : Members → Bytes → Members
delete nothing k = nothing
delete (member j v m) k = let rest = delete m k in if same j k then rest else member j v rest

-- The type assertion to a map, and a fresh map where it fails
abbrev pub members_or_fresh : Option Value → Members
members_or_fresh none = nothing
members_or_fresh (some (leaf t)) = nothing
members_or_fresh (some (object m)) = m

-- The members that the loop of deepSet goes on with are those of `m[k]`.
unfoldable pub deep_set : Members → Bytes → List Bytes → Value → Members
deep_set m k [] v = put m k v
deep_set m k (j ∷ path) v = put m k (object (deep_set (members_or_fresh (find m k)) j path v))

-- `return` where the assertion to a map fails, else the members `rest` in place of the old ones
abbrev pub put_back : Members → Bytes → Option Value → Members → Members
put_back m k none rest = m
put_back m k (some (leaf t)) rest = m
put_back m k (some (object n)) rest = put m k (object rest)

unfoldable pub deep_remove : Members → Bytes → List Bytes → Members
deep_remove m k [] = delete m k
deep_remove m k (j ∷ path) =
    put_back m k (find m k) (deep_remove (members_or_fresh (find m k)) j path)

-- The value at a path, if its parents are objects
unfoldable pub find_path : Members → Bytes → List Bytes → Option Value
find_path m k [] = find m k
find_path m k (j ∷ path) = find_path (members_or_fresh (find m k)) j path

pub record MapPatch : Type 0 where
  pub set : List (List Bytes × Value)
  pub remove : List (List Bytes)

-- The loops of reduceMap
unfoldable pub apply_sets : Members → List (List Bytes × Value) → Result Members
apply_sets m [] = ok m
apply_sets m (([], v) ∷ sets) = err other
apply_sets m ((k ∷ path, v) ∷ sets) = apply_sets (deep_set m k path v) sets

unfoldable pub apply_removes : Members → List (List Bytes) → Members
apply_removes m [] = m
apply_removes m ([] ∷ removes) = apply_removes m removes
apply_removes m ((k ∷ path) ∷ removes) = apply_removes (deep_remove m k path) removes

unfoldable pub reduce_map : Members → MapPatch → Result Members
reduce_map m p = do m' ← apply_sets m p.set; ok (apply_removes m' p.remove)
