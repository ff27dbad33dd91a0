-- ===== src/Xwal/Removal/Remains.antt =====
-- A removal takes the subtree of a trunk out of the index, and nothing else.
use mathlib.Core.Path.{subst}
use figwal.Common.{
  ◌≡◌, refl, sym, ap, ◌∙◌, Bool, true, false, Bool-cases, inl, inr, Option, none, some, List, [],
  ◌∷◌, if◌then◌else◌, All,
}
use figwal.Result.{ok}
use figwal.Segment.Bytes.{Bytes}
use figwal.Values.{same}
use figwal.Values.Paths.{same-eq, same_refl}
use figwal.Names.{fs_name, fs_names, key_name}
use figwal.Names.RoundTrip.{Octets, key_name-fs_name}
use figwal.Disk.Fork.{among}
use figwal.Xwal.Markers.{NodeMarker}
use figwal.Xwal.Index.{
  NodeInfo, Shape, Dir, Tree, empty_shape, look, add_dir, add_dirs, add_root, and_then,
  or_no_marker, null_kind, scan,
}
use figwal.Xwal.Index.Tables.{both_steps}
use figwal.Xwal.Index.Counts.{adds, silent, loud}
use figwal.Xwal.Index.Extends.{
  Free, meets, info_of, added, add_known-added, added_of_ok, added-Extends,
}
use figwal.Xwal.Removal.{without_dirs, removed_tree}

-- A head that is left
abbrev pub kept_head : (Bytes → Bool) → Option Bytes → Option Bytes
kept_head gone none = none
kept_head gone (some k) = if gone k then none else some k

-- The second shape is the first one without some nodes.
pub record Without (gone : Bytes → Bool) (x y : Shape) : Type 0 where
  pub nodes : (k : Bytes) → look k y.nodes ≡ (if gone k then none else look k x.nodes)
  pub heads : (t : Bytes) → look t y.heads ≡ kept_head gone (look t x.heads)

module _ (gone : Bytes → Bool) where
  Without-Free : (t : Bytes) (x y : Shape) → Without gone x y → Free t x → Free t y
  Without-Free [] x y h f = tt
  Without-Free (b ∷ t) x y h f = h.heads (b ∷ t) ∙ ap (kept_head gone) f

  gone_same : (b : Bool) (j k : Bytes) → gone j ≡ b → same j k ≡ true → gone k ≡ b
  gone_same b j k e hit = ap gone (sym (same-eq j k hit)) ∙ e

  node_kept :
      (p g : Bool) (v : NodeInfo) (a b : Option NodeInfo)
      → (p ≡ true → g ≡ false)
      → b ≡ (if g then none else a)
      → (if p then some v else b) ≡ (if g then none else (if p then some v else a))
  node_kept true true v a b differ e = let impossible : true ≡ false = differ refl in cc
  node_kept true false v a b differ e = refl
  node_kept false g v a b differ e = e

  head_kept :
      (p : Bool) (key : Bytes) (a b : Option Bytes)
      → gone key ≡ false
      → b ≡ kept_head gone a
      → (if p then some key else b) ≡ kept_head gone (if p then some key else a)
  head_kept true key a b kept e = rw kept refl
  head_kept false key a b kept e = e

  node_lost :
      (p g : Bool) (v : NodeInfo) (a b : Option NodeInfo)
      → (p ≡ true → g ≡ true)
      → b ≡ (if g then none else a)
      → b ≡ (if g then none else (if p then some v else a))
  node_lost true true v a b same_key e = e
  node_lost true false v a b same_key e = let impossible : false ≡ true = same_key refl in cc
  node_lost false g v a b same_key e = e

  head_lost :
      (p : Bool) (key : Bytes) (a b : Option Bytes)
      → gone key ≡ true
      → (p ≡ true → a ≡ none)
      → b ≡ kept_head gone a
      → b ≡ kept_head gone (if p then some key else a)
  head_lost true key a b lost free e = e ∙ ap (kept_head gone) (free refl) ∙ rw lost refl
  head_lost false key a b lost free e = e

  kept_both :
      (key : Bytes) (root : Bool) (n : NodeMarker) (x y : Shape)
      → gone key ≡ false
      → Without gone x y
      → Without gone (added key root n x) (added key root n y)
  kept_both key root n x y kept h =
      let first = added-Extends key root n x in
      let second = added-Extends key root n y in
      record {
        nodes = λ k.
            second.nodes k
            ∙ node_kept (same key k) (gone k) (info_of root n) (look k x.nodes) (look k y.nodes)
                (gone_same false key k kept) (h.nodes k)
            ∙ sym (ap (λ o. if gone k then none else o) (first.nodes k));
        heads = λ t.
            second.heads t
            ∙ head_kept (meets n.trunk t) key (look t x.heads) (look t y.heads) kept (h.heads t)
            ∙ sym (ap (kept_head gone) (first.heads t));
      }

  head-Free : (t s : Bytes) (x : Shape) → Free t x → meets t s ≡ true → look s x.heads ≡ none
  head-Free [] s x f e = cc
  head-Free (b ∷ t) s x f e = subst (λ u. look u x.heads ≡ none) (same-eq (b ∷ t) s e) f

  dropped :
      (key : Bytes) (root : Bool) (n : NodeMarker) (x y : Shape)
      → gone key ≡ true
      → Free n.trunk x
      → Without gone x y
      → Without gone (added key root n x) y
  dropped key root n x y lost free h =
      let first = added-Extends key root n x in
      record {
        nodes = λ k.
            node_lost (same key k) (gone k) (info_of root n) (look k x.nodes) (look k y.nodes)
              (gone_same true key k lost) (h.nodes k)
            ∙ sym (ap (λ o. if gone k then none else o) (first.nodes k));
        heads = λ t.
            head_lost (meets n.trunk t) key (look t x.heads) (look t y.heads) lost
              (head-Free n.trunk t x free) (h.heads t)
            ∙ sym (ap (kept_head gone) (first.heads t));
      }

  -- A scan without the directories of these nodes
  without_dirs-Without :
      (encode : Bool) (names : List Bytes) (ds : List Dir) (x y x' : Shape)
      → All (λ (d : Dir). among d.name names ≡ gone (key_name encode d.name)) ds
      → Without gone x y
      → add_dirs encode ds x ≡ (ok tt, x')
      → (y' : Shape) × (add_dirs encode (without_dirs names ds) y ≡ (ok tt, y'))
        × Without gone x' y'
  unfolding add_dirs without_dirs
  without_dirs-Without encode names [] x y x' all h e =
      (y, refl, subst (λ z. Without gone z y) (ap (λ r. r.1) e) h)
  without_dirs-Without encode names (d ∷ ds) x y x' (match, all) h e =
      let (x1, e1, e2) = both_steps (add_dir encode d x) (add_dirs encode ds) x' e in
      elim (Bool-cases (among d.name names)) [
        | inl listed ↦
            let rest =
              without_dirs-Without encode names ds x1 y x' all (skipped x1 e1 (sym match ∙ listed))
                e2 in
            rw listed rest
        | inr left ↦
            let (y1, f1, h1) = taken x1 e1 (sym match ∙ left) in
            let (y', f2, h2) = without_dirs-Without encode names ds x1 y1 x' all h1 e2 in
            rw left (y', ap (λ r. and_then r (add_dirs encode (without_dirs names ds))) f1 ∙ f2, h2)
      ]
    where
      key : Bytes
      key = key_name encode d.name

      skipped :
          (x1 : Shape)
          → add_dir encode d x ≡ (ok tt, x1)
          → gone (key_name encode d.name) ≡ true
          → Without gone x1 y
      skipped x1 e1 lost = elim (adds encode d) [
        | silent s ↦ subst (λ z. Without gone z y) (ap (λ r. r.1) (sym (s x) ∙ e1)) h
        | loud n l ↦
            let (free, here) = added_of_ok key false n x x1 (sym (l x) ∙ e1) in
            subst (λ z. Without gone z y) here (dropped key false n x y lost free h)
      ]

      taken :
          (x1 : Shape)
          → add_dir encode d x ≡ (ok tt, x1)
          → gone (key_name encode d.name) ≡ false
          → (y1 : Shape) × (add_dir encode d y ≡ (ok tt, y1)) × Without gone x1 y1
      taken x1 e1 kept = elim (adds encode d) [
        | silent s ↦ (y, s y, subst (λ z. Without gone z y) (ap (λ r. r.1) (sym (s x) ∙ e1)) h)
        | loud n l ↦
            let (free, here) = added_of_ok key false n x x1 (sym (l x) ∙ e1) in
            (
              added key false n y,
              l y ∙ add_known-added key false n y (Without-Free n.trunk x y h free),
              subst (λ z. Without gone z (added key false n y)) here
                  (kept_both key false n x y kept h),
            )
      ]

-- Directories whose names are those of their keys
abbrev pub Canonical : Bool → List Dir → Type 0
Canonical encode = All (λ (d : Dir). fs_name encode (key_name encode d.name) ≡ d.name)

same_of_eq : (j k : Bytes) → j ≡ k → same j k ≡ true
same_of_eq j k e = ap (same j) (sym e) ∙ same_refl j

same-fs_name :
    (encode : Bool) (k name : Bytes)
    → Octets k
    → fs_name encode (key_name encode name) ≡ name
    → same (fs_name encode k) name ≡ same k (key_name encode name)
same-fs_name encode k name bytes canonical = elim (Bool-cases (same (fs_name encode k) name)) [
  | inl hit ↦
      let key : k ≡ key_name encode name =
        sym (key_name-fs_name encode k bytes)
        ∙ ap (key_name encode) (same-eq (fs_name encode k) name hit) in
      hit ∙ sym (same_of_eq k (key_name encode name) key)
  | inr miss ↦ elim (Bool-cases (same k (key_name encode name))) [
    | inl hit ↦
        let named : fs_name encode k ≡ name =
          ap (fs_name encode) (same-eq k (key_name encode name) hit) ∙ canonical in
        let impossible : true ≡ false = sym (same_of_eq (fs_name encode k) name named) ∙ miss in cc
    | inr miss' ↦ miss ∙ sym miss'
  ]
]

among-fs_names :
    (encode : Bool) (name : Bytes) (keys : List Bytes)
    → All Octets keys
    → fs_name encode (key_name encode name) ≡ name
    → among name (fs_names encode keys) ≡ among (key_name encode name) keys
unfolding fs_names
among-fs_names encode name [] all canonical = refl
among-fs_names encode name (k ∷ keys) (bytes, all) canonical =
    rw (same-fs_name encode k name bytes canonical, among-fs_names encode name keys all canonical)
      refl

dirs_match :
    (encode : Bool) (keys : List Bytes) (ds : List Dir)
    → All Octets keys
    → Canonical encode ds
    → All
        (λ (d : Dir). among d.name (fs_names encode keys) ≡ among (key_name encode d.name) keys)
        ds
dirs_match encode keys [] bytes all = tt
dirs_match encode keys (d ∷ ds) bytes (canonical, all) =
    (among-fs_names encode d.name keys bytes canonical, dirs_match encode keys ds bytes all)

empty-Without : (gone : Bytes → Bool) → Without gone empty_shape empty_shape
empty-Without gone = record { nodes = λ k. never (gone k) none refl; heads = λ t. refl }
  where
    never : (b : Bool) (o : Option NodeInfo) → o ≡ none → o ≡ (if b then none else o)
    never true o e = e
    never false o e = refl

pub scan-Without :
    (encode : Bool) (keys : List Bytes) (t : Tree) (x : Shape)
    → among [] keys ≡ false
    → All Octets keys
    → Canonical encode t.dirs
    → scan encode t ≡ (ok tt, x)
    → (y : Shape) × (scan encode (removed_tree encode keys t) ≡ (ok tt, y))
      × Without (λ k. among k keys) x y
unfolding scan
scan-Without encode keys t x rootless bytes canonical e =
    let gone : Bytes → Bool = λ k. among k keys in
    let root : NodeMarker = record (or_no_marker t.root_marker) { kind = null_kind } in
    let (x1, e1, e2) =
      both_steps (add_root t.root_marker empty_shape) (add_dirs encode t.dirs) x e in
    let (free, here) = added_of_ok [] true root empty_shape x1 e1 in
    let first = kept_both gone [] true root empty_shape empty_shape rootless (empty-Without gone) in
    let (y, f, h) =
      without_dirs-Without gone encode (fs_names encode keys) t.dirs x1 x1 x
        (dirs_match encode keys t.dirs bytes canonical) (subst (λ z. Without gone z z) here first)
        e2 in
    (
      y,
      ap (λ r. and_then r (add_dirs encode (without_dirs (fs_names encode keys) t.dirs))) e1 ∙ f,
      h,
    )
