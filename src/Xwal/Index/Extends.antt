-- ===== src/Xwal/Index/Extends.antt =====
-- One more node among those that a scan adds: what it adds to the shape, in whatever place it stands.
use mathlib.Core.Path.{subst}
use figwal.Common.{
  ◌≡◌, refl, sym, ap, ◌∙◌, Bool, true, false, inl, inr, none, some, List, [], ◌∷◌, if◌then◌else◌,
  Option-cases, All,
}
use figwal.Result.{ok, err, other}
use figwal.Segment.Bytes.{Bytes}
use figwal.Values.{same}
use figwal.Values.Paths.{same-eq, same_refl}
use figwal.Names.{key_name}
use figwal.Xwal.Markers.{NodeMarker, num_suffix}
use figwal.Xwal.Index.{
  NodeInfo, Shape, Dir, look, assign, raised, raised_by_key, bump_seqs, with_head, add_known,
  add_dir, add_dirs, and_then,
}
use figwal.Xwal.Index.Tables.{look-assign, both_steps}
use figwal.Xwal.Index.Counts.{raised_comm, by_key_comm}

-- Whether a trunk that is not empty is this one
abbrev pub meets : Bytes → Bytes → Bool
meets [] t = false
meets (b ∷ s) t = same (b ∷ s) t

-- An id for a trunk, or none, that no node has
abbrev pub Free : Bytes → Shape → Type 0
Free [] x = Unit
Free (b ∷ t) x = look (b ∷ t) x.heads ≡ none

abbrev pub info_of : Bool → NodeMarker → NodeInfo
info_of root n = record { trunk = n.trunk; is_root = root; from = n.from; kind = n.kind }

-- A shape with one more node
abbrev pub added : Bytes → Bool → NodeMarker → Shape → Shape
added key root n x = bump_seqs key n.trunk (record x {
  nodes = assign x.nodes key (info_of root n);
  heads = with_head x.heads n.trunk key;
})

pub add_known-added :
    (key : Bytes) (root : Bool) (n : NodeMarker) (x : Shape)
    → Free n.trunk x
    → add_known key root n x ≡ (ok tt, added key root n x)
add_known-added key root n x free = at n.trunk refl free
  where
    at : (t : Bytes) → n.trunk ≡ t → Free t x → add_known key root n x ≡ (ok tt, added key root n x)
    at [] e f = rw e refl
    at (b ∷ t) e f = rw (e, f) refl

pub added_of_ok :
    (key : Bytes) (root : Bool) (n : NodeMarker) (x y : Shape)
    → add_known key root n x ≡ (ok tt, y)
    → Free n.trunk x × (added key root n x ≡ y)
added_of_ok key root n x y h =
    let free = at n.trunk refl in
    (free, ap (λ r. r.1) (sym (add_known-added key root n x free) ∙ h))
  where
    at : (t : Bytes) → n.trunk ≡ t → Free t x
    at [] e = tt
    at (b ∷ t) e = elim (Option-cases (look (b ∷ t) x.heads)) [
      | inl absent ↦ absent
      | inr (key', there) ↦
          let failed : (add_known key root n x).0 ≡ err other = rw (e, there) refl in
          let impossible : err other ≡ ok tt = sym failed ∙ ap (λ r. r.0) h in absurd cc
    ]

look-with_head :
    (heads : List (Bytes × Bytes)) (t key k : Bytes)
    → look k (with_head heads t key) ≡ (if meets t k then some key else look k heads)
look-with_head heads [] key k = refl
look-with_head heads (b ∷ t) key k = look-assign heads (b ∷ t) k key

-- The second shape is the first one with one more node.
pub record Extends (child : Bytes) (n : NodeInfo) (trunk : Bytes) (x y : Shape) : Type 0 where
  pub nodes : (k : Bytes) → look k y.nodes ≡ (if same child k then some n else look k x.nodes)
  pub heads : (k : Bytes) → look k y.heads ≡ (if meets trunk k then some child else look k x.heads)
  pub node_seq : y.node_seq ≡ raised_by_key child x.node_seq
  pub trunk_seq : y.trunk_seq ≡ raised (num_suffix trunk 116) x.trunk_seq

pub added-Extends :
    (key : Bytes) (root : Bool) (n : NodeMarker) (x : Shape)
    → Extends key (info_of root n) n.trunk x (added key root n x)
added-Extends key root n x = record {
  nodes = λ k. look-assign x.nodes key k (info_of root n);
  heads = λ k. look-with_head x.heads n.trunk key k;
  node_seq = refl;
  trunk_seq = refl;
}

-- Two assignments at different keys can be exchanged.
swapped :
    {A : Type 0} (a b : Bool) (u v w : A)
    → (a ≡ true → b ≡ true → ⊥)
    → (if a then u else (if b then v else w)) ≡ (if b then v else (if a then u else w))
swapped true true u v w apart = absurd (apart refl refl)
swapped true false u v w apart = refl
swapped false b u v w apart = refl

keys_apart : (j k l : Bytes) → same j k ≡ false → same k l ≡ true → same j l ≡ true → ⊥
keys_apart j k l differ ek ej =
    let j_eq = same-eq j l ej in
    let k_eq = same-eq k l ek in
    let hit : same j k ≡ true = ap (same j) (k_eq ∙ sym j_eq) ∙ same_refl j in
    let impossible : true ≡ false = sym hit ∙ differ in cc

trunks_apart : (s t l : Bytes) → meets s t ≡ false → meets t l ≡ true → meets s l ≡ true → ⊥
trunks_apart [] t l differ et es = cc
trunks_apart (b ∷ s) [] l differ et es = cc
trunks_apart (b ∷ s) (c ∷ t) l differ et es = keys_apart (b ∷ s) (c ∷ t) l differ et es

pub added_both :
    (child : Bytes) (i : NodeInfo) (trunk key : Bytes) (root : Bool) (n : NodeMarker) (x y : Shape)
    → same child key ≡ false
    → meets trunk n.trunk ≡ false
    → Extends child i trunk x y
    → Extends child i trunk (added key root n x) (added key root n y)
added_both child i trunk key root n x y keys trunks h = record {
  nodes = λ k.
      look-assign y.nodes key k (info_of root n)
      ∙ ap (λ t. if same key k then some (info_of root n) else t) (h.nodes k)
      ∙ swapped (same key k) (same child k) (some (info_of root n)) (some i) (look k x.nodes)
          (λ ek ec. keys_apart child key k keys ek ec)
      ∙ ap (λ t. if same child k then some i else t)
          (sym (look-assign x.nodes key k (info_of root n)));
  heads = λ k.
      look-with_head y.heads n.trunk key k
      ∙ ap (λ t. if meets n.trunk k then some key else t) (h.heads k)
      ∙ swapped (meets n.trunk k) (meets trunk k) (some key) (some child) (look k x.heads)
          (λ ek ec. trunks_apart trunk n.trunk k trunks ek ec)
      ∙ ap (λ t. if meets trunk k then some child else t)
          (sym (look-with_head x.heads n.trunk key k));
  node_seq = ap (raised_by_key key) h.node_seq ∙ by_key_comm key child x.node_seq;
  trunk_seq =
      ap (raised (num_suffix n.trunk 116)) h.trunk_seq
      ∙ raised_comm (num_suffix n.trunk 116) (num_suffix trunk 116) x.trunk_seq;
}

extended-Free :
    (child : Bytes) (i : NodeInfo) (trunk t : Bytes) (x y : Shape)
    → meets trunk t ≡ false
    → Extends child i trunk x y
    → Free t x
    → Free t y
extended-Free child i trunk [] x y trunks h f = tt
extended-Free child i trunk (b ∷ t) x y trunks h f = h.heads (b ∷ t) ∙ rw (trunks, f) refl

-- A directory whose node has another key and another trunk
pub data Apart (encode : Bool) (child trunk : Bytes) (d : Dir) : Type 0 where
  quiet : ((x : Shape) → add_dir encode d x ≡ (ok tt, x)) → Apart encode child trunk d
  elsewhere :
      (n : NodeMarker)
      → ((x : Shape) → add_dir encode d x ≡ add_known (key_name encode d.name) false n x)
      → same child (key_name encode d.name) ≡ false
      → meets trunk n.trunk ≡ false
      → Apart encode child trunk d

module _ (encode : Bool) (child : Bytes) (i : NodeInfo) (trunk : Bytes) where
  -- Such a directory can be added behind the new node as well.
  add_dir-Extends :
      (d : Dir) (x y x' : Shape)
      → Apart encode child trunk d
      → Extends child i trunk x y
      → add_dir encode d x ≡ (ok tt, x')
      → (y' : Shape) × (add_dir encode d y ≡ (ok tt, y')) × Extends child i trunk x' y'
  add_dir-Extends d x y x' (quiet s) h e =
      (y, s y, subst (λ z. Extends child i trunk z y) (ap (λ r. r.1) (sym (s x) ∙ e)) h)
  add_dir-Extends d x y x' (elsewhere n l keys trunks) h e =
      let key = key_name encode d.name in
      let (free, here) = added_of_ok key false n x x' (sym (l x) ∙ e) in
      (
        added key false n y,
        l y ∙ add_known-added key false n y (extended-Free child i trunk n.trunk x y trunks h free),
        subst (λ z. Extends child i trunk z (added key false n y)) here
            (added_both child i trunk key false n x y keys trunks h),
      )

  pub add_dirs-Extends :
      (ds : List Dir) (x y x' : Shape)
      → All (Apart encode child trunk) ds
      → Extends child i trunk x y
      → add_dirs encode ds x ≡ (ok tt, x')
      → (y' : Shape) × (add_dirs encode ds y ≡ (ok tt, y')) × Extends child i trunk x' y'
  unfolding add_dirs
  add_dirs-Extends [] x y x' all h e =
      (y, refl, subst (λ z. Extends child i trunk z y) (ap (λ r. r.1) e) h)
  add_dirs-Extends (d ∷ ds) x y x' (a, all) h e =
      let (x1, e1, e2) = both_steps (add_dir encode d x) (add_dirs encode ds) x' e in
      let (y1, f1, h1) = add_dir-Extends d x y x1 a h e1 in
      let (y', f2, h2) = add_dirs-Extends ds x1 y1 x' all h1 e2 in
      (y', ap (λ r. and_then r (add_dirs encode ds)) f1 ∙ f2, h2)
