-- ===== src/Xwal/Index/Histories.antt =====
-- Any sequence of forks, finished or not, stumps and rebuilds
use mathlib.Core.Path.{subst}
use figwal.Common.{
  ℕ, ◌+◌, ◌<◌, ◌≡◌, refl, sym, ap, ◌∙◌, arith, Bool, true, false, not, ◌||◌, Bool-cases, inl, inr,
  Option, none, some, [], ◌∷◌, if◌then◌else◌, Option-cases, ◌==◌,
}
use figwal.Result.{Result, ok, err}
use figwal.Segment.Bytes.{Bytes}
use figwal.Names.{fs_name, fs_name_loop, contains, contains_any, fs_reserved}
use figwal.Names.RoundTrip.{Octets}
use figwal.Disk.Fork.{hidden, valid_fork_name}
use figwal.Xwal.Frames.{max_int64}
use figwal.Xwal.Markers.Texts.{clean}
use figwal.Xwal.Markers.Numerals.{itoa-AllDigits, digits-Octets, minted-clean}
use figwal.Xwal.Index.{
  Shape, Index, Tree, World, Fault, look, node, head, parent_of, from_of, mint_node, mint_trunk,
  minted_if, scan, rebuild_from, rebuilt, fork_named, fork_flat, fork_of, fork_tail, create_stump,
  conversation, loadout, named_or,
}
use figwal.Xwal.Index.Extends.{Free}
use figwal.Xwal.Index.Mirrors.{Mirrors}
use figwal.Xwal.Index.Forks.{fork_named-Mirrors, mint_node-fresh, mint_trunk-fresh}

hidden-escaped :
    (b : ℕ) (s : Bytes) (reserved : Bool)
    → (b == 46) ≡ false
    → hidden (if reserved then 37 ∷ s else b ∷ s) ≡ false
hidden-escaped b s true e = refl
hidden-escaped b s false e = e

hidden-fs_name :
    (encode : Bool) (name : Bytes) → hidden name ≡ false → hidden (fs_name encode name) ≡ false
unfolding fs_name fs_name_loop
hidden-fs_name false name h = h
hidden-fs_name true [] h = refl
hidden-fs_name true (b ∷ name) h = elim (Bool-cases (contains_any (b ∷ name) fs_reserved)) [
  | inl some_there ↦ elim (Bool-cases (contains fs_reserved b)) [
    | inl reserved ↦ rw (some_there, reserved) refl
    | inr letter ↦ rw (some_there, letter) h
  ]
  | inr none_there ↦ rw none_there h
]

-- The trunk that a fork mints, if it mints one, is new: its counter has not run out, or the caller's
-- id is new and a clean value.
abbrev pub Mintable : Bool → Option Bytes → Shape → Type 0
Mintable false minted s = Unit
Mintable true none s = s.trunk_seq < max_int64
Mintable true (some id) s = Free id s × (clean id ≡ true)

minted_if-Mirrors :
    (encode mints : Bool) (t : Tree) (minted : Option Bytes) (x : Index)
    → Mirrors encode t x.shape
    → Mintable mints minted x.shape
    → let r = minted_if encode mints minted x in
      Mirrors encode t r.1.shape
      × Free r.0 r.1.shape
      × (clean r.0 ≡ true)
      × (r.1.shape.nodes ≡ x.shape.nodes)
unfolding mint_trunk
minted_if-Mirrors encode false t minted x m ready = (m, tt, refl, refl)
minted_if-Mirrors encode true t (some id) x m (free, tidy) = (m, free, tidy, refl)
minted_if-Mirrors encode true t none x m ready = (
  record {
    again = m.again;
    scans = m.scans;
    nodes = m.nodes;
    heads = m.heads;
    node_seq = m.node_seq;
    trunk_seq = omega (arith, m.trunk_seq);
  },
  mint_trunk-fresh encode t x m ready,
  minted-clean 116 x.shape.trunk_seq refl,
  refl,
)

after_mint :
    (encode : Bool) (t : Tree) (x : Index)
    → Mirrors encode t x.shape
    → Mirrors encode t (mint_node x).1.shape
unfolding mint_node
after_mint encode t x m = record {
  again = m.again;
  scans = m.scans;
  nodes = m.nodes;
  heads = m.heads;
  node_seq = omega (arith, m.node_seq);
  trunk_seq = m.trunk_seq;
}

named_or-world :
    (encode : Bool) (id : Bytes) (r : Result (Unit {0}) × World) → (named_or encode id r).1 ≡ r.1
named_or-world encode id (err e, w) = refl
named_or-world encode id (ok u, w) = refl

abbrev pub Mirrored : Bool → World → Type 0
Mirrored encode w = Mirrors encode w.tree w.index.shape

pub fork_flat-Mirrors :
    (encode : Bool) (fault : Fault) (minted : Option Bytes) (mints : Bool) (parent kind : Bytes)
    (w : World)
    → Mirrored encode w
    → w.index.shape.node_seq < max_int64
    → Mintable mints minted w.index.shape
    → clean parent ≡ true
    → clean kind ≡ true
    → Mirrored encode (fork_flat encode fault minted mints parent kind w).1
unfolding fork_flat mint_node
fork_flat-Mirrors encode fault minted mints parent kind w m lt ready p k =
    let (child, x) = mint_node w.index in
    let (m2, free, tidy, same_nodes) =
      minted_if-Mirrors encode mints w.tree minted x (after_mint encode w.tree w.index m)
        (ready_after mints minted ready) in
    let (trunk, x') = minted_if encode mints minted x in
    subst (Mirrored encode)
      (sym (
        named_or-world encode (if mints then trunk else child)
          (fork_named encode fault parent child trunk kind (record w { index = x' }))))
      (fork_named-Mirrors encode fault parent child trunk kind (record w { index = x' }) m2
        (ap (look child) same_nodes ∙ mint_node-fresh encode w.tree w.index m lt) free
        (hidden-fs_name encode child refl)
        (omega arith, digits-Octets _ (itoa-AllDigits w.index.shape.node_seq)) p k tidy)
  where
    ready_after :
        (mints : Bool) (minted : Option Bytes)
        → Mintable mints minted w.index.shape
        → Mintable mints minted (mint_node w.index).1.shape
    ready_after false minted r = r
    ready_after true none r = r
    ready_after true (some []) r = r
    ready_after true (some (b ∷ id)) r = r

-- What a rebuild leaves
pub rebuild_from-Mirrors :
    (encode : Bool) (t : Tree) (x x' : Index)
    → rebuild_from encode t x ≡ (ok tt, x')
    → Mirrors encode t x'.shape
unfolding rebuild_from
rebuild_from-Mirrors encode t x x' e = at (scan encode t) refl e
  where
    at :
        (r : Result (Unit {0}) × Shape)
        → scan encode t ≡ r
        → rebuilt encode x r ≡ (ok tt, x')
        → Mirrors encode t x'.shape
    at (err f, s) es e = let impossible : err f ≡ ok tt = ap (λ r. r.0) e in absurd cc
    at (ok tt, s) es e =
        subst (λ (y : Index). Mirrors encode t y.shape) (ap (λ r. r.1) e)
          (record {
            again = s;
            scans = es;
            nodes = λ k. refl;
            heads = λ k. refl;
            node_seq = omega arith;
            trunk_seq = omega arith;
          })

-- An index that mirrors the tree is rebuilt without an error, and the new one gives the same answers.
pub record Rebuilds (encode : Bool) (w : World) : Type 0 where
  pub index : Index
  pub succeeds : rebuild_from encode w.tree w.index ≡ (ok tt, index)
  pub same_nodes : (key : Bytes) → node key index ≡ node key w.index
  pub same_heads : (trunk : Bytes) → head trunk index ≡ head trunk w.index
  pub same_parents : (key : Bytes) → parent_of key index ≡ parent_of key w.index
  pub mirrored : Mirrors encode w.tree index.shape

pub Mirrored-Rebuilds : (encode : Bool) (w : World) → Mirrored encode w → Rebuilds encode w
unfolding rebuild_from
Mirrored-Rebuilds encode w m =
    let x : Index = record (w.index) {
      shape = m.again;
      rebuilds = w.index.rebuilds + 1;
      version = w.index.version + 1;
    } in
    let e : rebuild_from encode w.tree w.index ≡ (ok tt, x) = ap (rebuilt encode w.index) m.scans in
    record {
      index = x;
      succeeds = e;
      same_nodes = λ key. sym (m.nodes key);
      same_heads = λ trunk. sym (m.heads trunk);
      same_parents = λ key. ap from_of (sym (m.nodes key));
      mirrored = rebuild_from-Mirrors encode w.tree w.index x e;
    }

-- The calls that change the index
pub data Call : Type 0 where
  fork_call : Fault → Option Bytes → Bool → Bytes → Bytes → Call
  tail_call : Fault → Option Bytes → Bytes → Call
  stump_call : Fault → Bytes → Call
  rebuild_call : Call

abbrev pub perform : Bool → Call → World → World
perform encode (fork_call fault minted mints parent kind) w =
    (fork_flat encode fault minted mints parent kind w).1
perform encode (tail_call fault minted trunk) w = (fork_tail encode fault minted trunk w).1
perform encode (stump_call fault name) w = (create_stump encode fault name w).1
perform encode rebuild_call w = record w { index = (rebuild_from encode w.tree w.index).1 }

-- The counters have not run out, and what goes into a marker is a clean value.
abbrev pub Permitted : Call → World → Type 0
Permitted (fork_call fault minted mints parent kind) w =
    (w.index.shape.node_seq < max_int64)
    × Mintable mints minted w.index.shape
    × (clean parent ≡ true)
    × (clean kind ≡ true)
Permitted (tail_call fault minted trunk) w =
    (w.index.shape.node_seq < max_int64)
    × Mintable true minted w.index.shape
    × ((key : Bytes) → head trunk w.index ≡ some key → clean key ≡ true)
Permitted (stump_call fault name) w = Octets name
Permitted rebuild_call w = Unit

fork_of-Mirrors :
    (encode : Bool) (fault : Fault) (minted : Option Bytes) (trunk : Bytes) (w : World)
    (o : Option Bytes)
    → head trunk w.index ≡ o
    → Permitted (tail_call fault minted trunk) w
    → Mirrored encode w
    → Mirrored encode (fork_of encode fault minted o w).1
fork_of-Mirrors encode fault minted trunk w none e p m = m
fork_of-Mirrors encode fault minted trunk w (some key) e (lt, ready, tidy) m =
    fork_flat-Mirrors encode fault minted true key (conversation encode) w m lt ready (tidy key e)
      refl

create_stump-Mirrors :
    (encode : Bool) (fault : Fault) (name : Bytes) (w : World)
    → Octets name
    → Mirrored encode w
    → Mirrored encode (create_stump encode fault name w).1
unfolding create_stump
create_stump-Mirrors encode fault name w bytes m =
    elim (Bool-cases (not (valid_fork_name name) || hidden name)) [
      | inl refused ↦ rw refused m
      | inr taken ↦
          let seen : hidden name ≡ false = ground (arith, taken) in
          elim (Option-cases (node name w.index)) [
            | inl absent ↦
                rw (taken, absent)
                  (fork_named-Mirrors encode fault [] name [] (loadout encode) w m absent tt
                    (hidden-fs_name encode name seen) bytes refl refl refl)
            | inr (n, there) ↦ rw (taken, there) m
          ]
    ]

pub perform-Mirrors :
    (encode : Bool) (c : Call) (w : World)
    → Permitted c w
    → Mirrored encode w
    → Mirrored encode (perform encode c w)
unfolding fork_tail
perform-Mirrors encode (fork_call fault minted mints parent kind) w (lt, ready, p, k) m =
    fork_flat-Mirrors encode fault minted mints parent kind w m lt ready p k
perform-Mirrors encode (tail_call fault minted trunk) w allowed m =
    fork_of-Mirrors encode fault minted trunk w (head trunk w.index) refl allowed m
perform-Mirrors encode (stump_call fault name) w bytes m =
    create_stump-Mirrors encode fault name w bytes m
perform-Mirrors encode rebuild_call w allowed m =
    let r = Mirrored-Rebuilds encode w m in
    subst (λ (x : Index). Mirrors encode w.tree x.shape) (sym (ap (λ e. e.1) r.succeeds)) r.mirrored

-- The worlds that such calls lead to
pub data Reaches (encode : Bool) (v : World) : World → Type 0 where
  stays : Reaches encode v v
  calls :
      {w : World} (c : Call)
      → Reaches encode v w
      → Permitted c w
      → Reaches encode v (perform encode c w)

reached-Mirrors :
    {encode : Bool} {v w : World} → Reaches encode v w → Mirrored encode v → Mirrored encode w
reached-Mirrors stays m = m
reached-Mirrors {encode} (calls {w} c earlier allowed) m =
    perform-Mirrors encode c w allowed (reached-Mirrors earlier m)

-- After any sequence of forks, finished or stopped on the way, stumps and rebuilds from an index
-- that was rebuilt, a rebuild from the markers succeeds and gives the same nodes, heads and parents.
-- At each call the counters must not have run out, a trunk id that the caller mints must be new, and
-- the parent, kind and trunk that go into a marker must be clean values.
pub reached-Rebuilds :
    (encode : Bool) (t : Tree) (x x' : Index) (w : World)
    → rebuild_from encode t x ≡ (ok tt, x')
    → Reaches encode (record { tree = t; index = x' }) w
    → Rebuilds encode w
reached-Rebuilds encode t x x' w e reached =
    Mirrored-Rebuilds encode w (reached-Mirrors reached (rebuild_from-Mirrors encode t x x' e))
