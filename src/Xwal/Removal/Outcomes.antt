-- ===== src/Xwal/Removal/Outcomes.antt =====
-- What a removal may end in.
use mathlib.Core.Path.{subst}
use figwal.Common.{
  ℕ, ◌≤◌, ◌≡◌, ◌≢◌, refl, sym, ap, ◌∙◌, arith, Bool, true, false, not, ◌||◌, ◌&&◌, Bool-cases, inl,
  inr, ◌⊎◌, Option, none, some, List, [], ◌∷◌, length, All, ◌↔◌,
}
use figwal.Result.{Result, ok, err, other}
use figwal.Segment.Bytes.{Bytes}
use figwal.Values.{same}
use figwal.Values.Paths.{same-eq, same_refl}
use figwal.Names.RoundTrip.{Octets}
use figwal.Disk.Fork.{among}
use figwal.Xwal.Index.{NodeInfo, Index, World, Shape, look, node, parent_of, scan, rebuild_from}
use figwal.Xwal.Index.Histories.{Mirrored}
use figwal.Xwal.Removal.{
  subtree, founds, founding, founding_at, other_trunks, any_trunk, removed_tree, remove_keys,
  remove_from, remove,
}
use figwal.Xwal.Removal.Subtrees.{
  Descends, itself, below, Heights, subtree-Descends, Descends-named,
}
use figwal.Xwal.Removal.Remains.{Canonical, kept_head, Without, scan-Without}

-- A world whose index mirrors the markers, whose directories are named after their keys, and whose
-- lineage has no cycle.
pub record Healthy (encode : Bool) (w : World) : Type 0 where
  pub mirrored : Mirrored encode w
  pub canonical : Canonical encode w.tree.dirs
  pub octets : (k : Bytes) (n : NodeInfo) → node k w.index ≡ some n → Octets k
  pub height : Bytes → ℕ
  pub heights : Heights w.index height
  pub low : (k : Bytes) → height k ≤ length w.index.shape.nodes
  pub rootless : parent_of [] w.index ≡ []
  pub rooted : (n : NodeInfo) → node [] w.index ≡ some n → n.is_root ≡ true

-- The subtree of a node is gone from nodes and heads, and all else is as it was.
pub record Removes (encode : Bool) (top : Bytes) (w w' : World) : Type 0 where
  pub gone_nodes : (k : Bytes) → Descends w.index top k → node k w'.index ≡ none
  pub kept_nodes : (k : Bytes) → ¬ Descends w.index top k → node k w'.index ≡ node k w.index
  pub gone_heads :
      (t k : Bytes)
      → look t w.index.shape.heads ≡ some k
      → Descends w.index top k
      → look t w'.index.shape.heads ≡ none
  pub kept_heads :
      (t k : Bytes)
      → look t w.index.shape.heads ≡ some k
      → ¬ Descends w.index top k
      → look t w'.index.shape.heads ≡ some k
  pub mirrored : Mirrored encode w'

-- A removal that fails changes nothing.
abbrev pub Removal : Bool → Bytes → World → Result (List Bytes) × World → Type 0
Removal encode trunk w (err e, w') = w' ≡ w
Removal encode trunk w (ok removed, w') =
    (top : Bytes) × (n : NodeInfo) × (node top w.index ≡ some n)
    × (n.trunk ≡ trunk)
    × Removes encode top w w'

-- The founding node has the trunk, and is not the root.
abbrev Founder : Bytes → Index → Bytes → Type 0
Founder trunk x top =
    (n : NodeInfo) × (node top x ≡ some n) × (n.trunk ≡ trunk) × (n.is_root ≡ false)

founding_at-Founder :
    (trunk : Bytes) (x : Index) (key : Bytes) (o : Option NodeInfo) (rest : Result (Option Bytes))
    (top : Bytes)
    → node key x ≡ o
    → founding_at trunk x key o rest ≡ ok (some top)
    → (rest ≡ ok (some top)) ⊎ Founder trunk x top
founding_at-Founder trunk x key none rest top e h = inl h
founding_at-Founder trunk x key (some n) rest top e h = elim (Bool-cases (same n.trunk trunk)) [
  | inr apart ↦ inl (sym (rw apart refl) ∙ h)
  | inl own ↦ elim (Bool-cases n.is_root) [
    | inl root ↦ let failed : err other ≡ ok (some top) = sym (rw (own, root) refl) ∙ h in absurd cc
    | inr plain ↦ elim (Bool-cases (founds trunk (node n.from x))) [
      | inl first ↦
          let here : ok (some key) ≡ ok (some top) = sym (rw (own, plain, first) refl) ∙ h in
          let key_eq : key ≡ top = cc in
          inr (n, subst (λ k. node k x ≡ some n) key_eq e, same-eq n.trunk trunk own, plain)
      | inr inner ↦ inl (sym (rw (own, plain, inner) refl) ∙ h)
    ]
  ]
]

founding-Founder :
    (trunk : Bytes) (x : Index) (m : List (Bytes × NodeInfo)) (top : Bytes)
    → founding trunk x m ≡ ok (some top)
    → Founder trunk x top
unfolding founding
founding-Founder trunk x [] top e = cc
founding-Founder trunk x ((key, n) ∷ m) top e =
    elim (founding_at-Founder trunk x key (node key x) (founding trunk x m) top refl e) [
      | inl later ↦ founding-Founder trunk x m top later
      | inr here ↦ here
    ]

All-Octets : (keys : List Bytes) → ((k : Bytes) → among k keys ≡ true → Octets k) → All Octets keys
All-Octets [] h = tt
All-Octets (k ∷ keys) h =
    (h k (rw (same_refl k) refl), All-Octets keys (λ j e. h j (later (same k j) (among j keys) e)))
  where
    later : (p q : Bool) → q ≡ true → (p || q) ≡ true
    later true q e = refl
    later false q e = e

not_true : (b : Bool) → ¬ (b ≡ true) → b ≡ false
not_true true h = absurd (h refl)
not_true false h = refl

Descends-Octets :
    (x : Index) (top : Bytes) (n : NodeInfo)
    → node top x ≡ some n
    → ((k : Bytes) (i : NodeInfo) → node k x ≡ some i → Octets k)
    → {k : Bytes} → Descends x top k
    → Octets k
Descends-Octets x top n e octets itself = octets top n e
Descends-Octets x top n e octets (below {k} i is_node up) = octets k i is_node

module _ (encode : Bool) (w : World) (h : Healthy encode w) (top : Bytes) (n : NodeInfo)
    (there : node top w.index ≡ some n) (plain : n.is_root ≡ false) where
  named : top ≢ []
  named empty =
      let root : n.is_root ≡ true = h.rooted n (subst (λ k. node k w.index ≡ some n) empty there) in
      let impossible : true ≡ false = sym root ∙ plain in cc

  in_subtree : (k : Bytes) → (among k (subtree w.index top) ≡ true) ↔ Descends w.index top k
  in_subtree k =
      subtree-Descends w.index h.height top k n h.heights h.rootless there named (h.low top)

  removed :
      (y : Shape) × (scan encode (removed_tree encode (subtree w.index top) w.tree) ≡ (ok tt, y))
      × Without (λ k. among k (subtree w.index top)) h.mirrored.again y
  removed =
      let keys = subtree w.index top in
      let no_root : among [] keys ≡ false = not_true (among [] keys) (λ e.
        Descends-named w.index h.height top [] n h.heights h.rootless there named (h.low top)
          ((in_subtree []).0 e) refl) in
      scan-Without encode keys w.tree h.mirrored.again no_root
        (All-Octets keys (λ k e. Descends-Octets w.index top n there h.octets ((in_subtree k).0 e)))
        h.canonical h.mirrored.scans

  remove_keys-Removal :
      (trunk : Bytes)
      → n.trunk ≡ trunk
      → Removal encode trunk w (remove_keys encode trunk (subtree w.index top) w)
  unfolding rebuild_from
  remove_keys-Removal trunk own =
      let (y, e, gone) = removed in
      let keys = subtree w.index top in
      rw e (
        top,
        n,
        there,
        own,
        record {
          gone_nodes = λ k d. gone.nodes k ∙ rw ((in_subtree k).1 d) refl;
          kept_nodes = λ k d.
              gone.nodes k
              ∙ rw (not_true (among k keys) (λ e. d ((in_subtree k).0 e)))
                  (sym (h.mirrored.nodes k));
          gone_heads = λ t k at d.
              gone.heads t
              ∙ ap (kept_head (λ j. among j keys)) (sym (h.mirrored.heads t) ∙ at)
              ∙ rw ((in_subtree k).1 d) refl;
          kept_heads = λ t k at d.
              gone.heads t
              ∙ ap (kept_head (λ j. among j keys)) (sym (h.mirrored.heads t) ∙ at)
              ∙ rw (not_true (among k keys) (λ e. d ((in_subtree k).0 e))) refl;
          mirrored = record {
            again = y;
            scans = e;
            nodes = λ k. refl;
            heads = λ t. refl;
            node_seq = omega arith;
            trunk_seq = omega arith;
          };
        },
      )

remove_from-Removal :
    (encode : Bool) (trunk : Bytes) (recursive : Bool) (w : World) (r : Result (Option Bytes))
    → founding trunk w.index w.index.shape.nodes ≡ r
    → Healthy encode w
    → Removal encode trunk w (remove_from encode trunk recursive w r)
remove_from-Removal encode trunk recursive w (err e) found h = refl
remove_from-Removal encode trunk recursive w (ok none) found h = refl
remove_from-Removal encode trunk recursive w (ok (some top)) found h =
    let (n, there, own, plain) = founding-Founder trunk w.index w.index.shape.nodes top found in
    elim (Bool-cases
      (any_trunk (other_trunks trunk w.index (subtree w.index top)) && not recursive)) [
        | inl branched ↦ rw branched refl
        | inr free ↦ rw free (remove_keys-Removal encode w h top n there plain trunk own)
      ]

-- Where the index mirrors the markers, the directories are named after their keys and the lineage
-- has no cycle, a removal fails and changes nothing, or takes a node of the trunk and all that
-- descends from it out of the nodes and heads, and leaves all others as they were.
pub remove-Removal :
    (encode : Bool) (trunk : Bytes) (recursive : Bool) (w : World)
    → Healthy encode w
    → Removal encode trunk w (remove encode trunk recursive w)
unfolding remove
remove-Removal encode trunk recursive w h =
    remove_from-Removal encode trunk recursive w (founding trunk w.index w.index.shape.nodes) refl h
