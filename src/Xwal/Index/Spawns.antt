-- ===== src/Xwal/Index/Spawns.antt =====
-- What a finished fork adds to the index, and what it leaves alone.
use figwal.Common.{
  ℕ, ◌<◌, ◌≡◌, refl, ap, ◌∙◌, arith, Bool, true, false, Option, none, some, [], ◌∷◌,
}
use figwal.Result.{Result, ok}
use figwal.Segment.Bytes.{Bytes}
use figwal.Values.{same}
use figwal.Xwal.Frames.{max_int64}
use figwal.Xwal.Index.{
  NodeInfo, Index, World, no_fault, look, node, head, spawn_flat, mint_node, mint_trunk, fork_named,
  fork_flat, named_or,
}
use figwal.Xwal.Index.Tables.{look-assign, look-assign_hit}
use figwal.Xwal.Index.Forks.{mint_node-fresh, mint_trunk-fresh}
use figwal.Xwal.Index.Histories.{Mirrored, Mintable}

-- A new node under a new key is the head of a new trunk, and all else is as it was.
pub record Spawned (parent kind : Bytes) (w : World) (r : Result Bytes × World) : Type 0 where
  pub child : Bytes
  pub trunk : Bytes
  pub result : r.0 ≡ ok trunk
  pub child_new : node child w.index ≡ none
  pub trunk_new : head trunk w.index ≡ none
  pub child_there :
      node child r.1.index
      ≡ some (record { trunk = trunk; is_root = false; from = parent; kind = kind })
  pub trunk_there : head trunk r.1.index ≡ some child
  pub other_nodes : (k : Bytes) → same child k ≡ false → node k r.1.index ≡ node k w.index
  pub other_heads : (t : Bytes) → same trunk t ≡ false → head t r.1.index ≡ head t w.index
  pub newer : w.index.version < r.1.index.version

-- The same, of an index that minted the ids
spawn_flat-Spawned :
    (encode : Bool) (parent child kind : Bytes) (b : ℕ) (id : Bytes) (w : World) (x : Index)
    → node child w.index ≡ none
    → head (b ∷ id) w.index ≡ none
    → x.shape.nodes ≡ w.index.shape.nodes
    → x.shape.heads ≡ w.index.shape.heads
    → x.version ≡ w.index.version
    → Spawned parent kind w (
        named_or encode
          (b ∷ id)
          (fork_named encode no_fault parent child (b ∷ id) kind (record w { index = x })))
unfolding fork_named spawn_flat
spawn_flat-Spawned encode parent child kind b id w x absent free nodes heads version =
    let info : NodeInfo = record { trunk = b ∷ id; is_root = false; from = parent; kind = kind } in
    record {
      child = child;
      trunk = b ∷ id;
      result = refl;
      child_new = absent;
      trunk_new = free;
      child_there = look-assign_hit x.shape.nodes child info;
      trunk_there = look-assign_hit x.shape.heads (b ∷ id) child;
      other_nodes = λ k e. look-assign x.shape.nodes child k info ∙ rw e (ap (look k) nodes);
      other_heads = λ t e. look-assign x.shape.heads (b ∷ id) t child ∙ rw e (ap (look t) heads);
      newer = omega (arith, version);
    }

-- On an index that mirrors the markers and whose counters have not run out, a fork that runs to its
-- end makes a new node under a key that no node had, as the head of a trunk that had none; it leaves
-- all other nodes and heads alone, and gives a newer version. A trunk id that the caller mints must
-- be new, clean and not empty.
pub fork_flat-Spawned :
    (encode : Bool) (minted : Option Bytes) (parent kind : Bytes) (w : World)
    → Mirrored encode w
    → w.index.shape.node_seq < max_int64
    → Mintable true minted w.index.shape
    → ¬ (minted ≡ some [])
    → Spawned parent kind w (fork_flat encode no_fault minted true parent kind w)
unfolding fork_flat mint_node mint_trunk
fork_flat-Spawned encode none parent kind w m lt ready named =
    spawn_flat-Spawned encode parent (mint_node w.index).0 kind 116 _ w _
      (mint_node-fresh encode w.tree w.index m lt) (mint_trunk-fresh encode w.tree w.index m ready)
      refl refl refl
fork_flat-Spawned encode (some []) parent kind w m lt ready named = absurd (named refl)
fork_flat-Spawned encode (some (b ∷ id)) parent kind w m lt (free, tidy) named =
    spawn_flat-Spawned encode parent (mint_node w.index).0 kind b id w _
      (mint_node-fresh encode w.tree w.index m lt) free refl refl refl
