-- ===== src/Xwal/Index/Mirrors.antt =====
-- An index that answers as one rebuilt from the markers does, and the directories that a fork writes.
use mathlib.Core.Path.{subst}
use figwal.Common.{
  ◌≤◌, ◌≡◌, refl, sym, ap, ◌∙◌, Bool, true, false, Bool-cases, inl, inr, Option, none, some, List,
  [], ◌∷◌, if◌then◌else◌, All,
}
use figwal.Result.{Result, ok, err}
use figwal.Segment.Bytes.{Bytes}
use figwal.Values.{same}
use figwal.Values.Paths.{same-eq, same_refl}
use figwal.Names.{key_name}
use figwal.Disk.Fork.{hidden}
use figwal.Xwal.Markers.{NodeMarker}
use figwal.Xwal.Index.{
  Shape, Dir, Tree, look, before, add_known, add_dir, add_dirs, and_then, scan, make_dir, put_dir,
}
use figwal.Xwal.Index.Tables.{both_steps}
use figwal.Xwal.Index.Counts.{adds, silent, loud}
use figwal.Xwal.Index.Extends.{
  meets, Free, info_of, added, add_known-added, added_of_ok, Extends, added-Extends, Apart, quiet,
  elsewhere, add_dirs-Extends,
}

unset_below :
    {A : Type 0} (b : Bool) (v : A) (o : Option A)
    → (if b then some v else o) ≡ none
    → (b ≡ false) × (o ≡ none)
unset_below true v o e = cc
unset_below false v o e = (refl, e)

-- A key or trunk that is not there behind a node was not there before, and is not its own.
nodes_before :
    (key : Bytes) (root : Bool) (n : NodeMarker) (x : Shape) (k : Bytes)
    → look k (added key root n x).nodes ≡ none
    → (same key k ≡ false) × (look k x.nodes ≡ none)
nodes_before key root n x k e =
    unset_below (same key k) (info_of root n) (look k x.nodes)
      (sym ((added-Extends key root n x).nodes k) ∙ e)

heads_before :
    (key : Bytes) (root : Bool) (n : NodeMarker) (x : Shape) (t : Bytes)
    → Free t (added key root n x)
    → (meets t n.trunk ≡ false) × Free t x
heads_before key root n x [] f = (refl, tt)
heads_before key root n x (b ∷ t) f =
    let (apart, free) =
      unset_below (meets n.trunk (b ∷ t)) key (look (b ∷ t) x.heads)
        (sym ((added-Extends key root n x).heads (b ∷ t)) ∙ f) in
    (turned n.trunk apart, free)
  where
    turned : (s : Bytes) → meets s (b ∷ t) ≡ false → same (b ∷ t) s ≡ false
    turned [] e = refl
    turned (c ∷ s) e = elim (Bool-cases (same (b ∷ t) (c ∷ s))) [
      | inl hit ↦
          let back : same (c ∷ s) (b ∷ t) ≡ true =
            ap (same (c ∷ s)) (same-eq (b ∷ t) (c ∷ s) hit) ∙ same_refl (c ∷ s) in
          let impossible : true ≡ false = sym back ∙ e in cc
      | inr miss ↦ miss
    ]

same_turned : (j k : Bytes) → same j k ≡ false → same k j ≡ false
same_turned j k e = elim (Bool-cases (same k j)) [
  | inl hit ↦
      let back : same j k ≡ true = ap (same j) (same-eq k j hit) ∙ same_refl j in
      let impossible : true ≡ false = sym back ∙ e in cc
  | inr miss ↦ miss
]

module _ (encode : Bool) (child trunk : Bytes) where
  dir-Apart :
      (d : Dir) (x y : Shape)
      → add_dir encode d x ≡ (ok tt, y)
      → look child y.nodes ≡ none
      → Free trunk y
      → Apart encode child trunk d × (look child x.nodes ≡ none) × Free trunk x
  dir-Apart d x y e absent free = elim (adds encode d) [
    | silent s ↦
        let here : y ≡ x = ap (λ r. r.1) (sym e ∙ s x) in
        (quiet s, subst (λ z. look child z.nodes ≡ none) here absent, subst (Free trunk) here free)
    | loud n l ↦
        let key = key_name encode d.name in
        let (ok_head, here) = added_of_ok key false n x y (sym (l x) ∙ e) in
        let (keys, absent') =
          nodes_before key false n x child
            (subst (λ z. look child z.nodes ≡ none) (sym here) absent) in
        let (trunks, free') =
          heads_before key false n x trunk (subst (Free trunk) (sym here) free) in
        (elsewhere n l (same_turned key child keys) trunks, absent', free')
  ]

  pub dirs-Apart :
      (ds : List Dir) (x y : Shape)
      → add_dirs encode ds x ≡ (ok tt, y)
      → look child y.nodes ≡ none
      → Free trunk y
      → All (Apart encode child trunk) ds × (look child x.nodes ≡ none) × Free trunk x
  unfolding add_dirs
  dirs-Apart [] x y e absent free =
      let here : y ≡ x = ap (λ r. r.1) (sym e) in
      (tt, subst (λ z. look child z.nodes ≡ none) here absent, subst (Free trunk) here free)
  dirs-Apart (d ∷ ds) x y e absent free =
      let (x1, e1, e2) = both_steps (add_dir encode d x) (add_dirs encode ds) y e in
      let (all, absent1, free1) = dirs-Apart ds x1 y e2 absent free in
      let (a, absent0, free0) = dir-Apart d x x1 e1 absent1 free1 in ((a, all), absent0, free0)

  -- The node's own directory adds nothing before its marker is written.
  own_dir_adds_nothing :
      (d : Dir)
      → key_name encode d.name ≡ child
      → Apart encode child trunk d
      → (x : Shape) → add_dir encode d x ≡ (ok tt, x)
  own_dir_adds_nothing d e (quiet s) x = s x
  own_dir_adds_nothing d e (elsewhere n l keys trunks) x =
      let hit : same child (key_name encode d.name) ≡ true = ap (same child) e ∙ same_refl child in
      let impossible : true ≡ false = sym hit ∙ keys in absurd cc

  -- Its directory without the marker changes no scan.
  pub add_dirs-make_dir :
      (name : Bytes) (ds : List Dir) (x : Shape)
      → add_dirs encode (make_dir name ds) x ≡ add_dirs encode ds x
  unfolding add_dirs
  add_dirs-make_dir name [] x = elim (Bool-cases (hidden name)) [
    | inl skipped ↦ rw skipped refl
    | inr seen ↦ rw seen refl
  ]
  add_dirs-make_dir name (d ∷ ds) x = elim (Bool-cases (same d.name name)) [
    | inl here ↦ rw here refl
    | inr differs ↦ elim (Bool-cases (before name d.name)) [
      | inl first ↦ elim (Bool-cases (hidden name)) [
        | inl skipped ↦ rw (differs, first, skipped) refl
        | inr seen ↦ rw (differs, first, seen) refl
      ]
      | inr later ↦ rw (differs, later) (step (add_dir encode d x) (add_dirs-make_dir name ds))
    ]
  ]
    where
      step :
          (r : Result (Unit {0}) × Shape)
          → ((z : Shape) → add_dirs encode (make_dir name ds) z ≡ add_dirs encode ds z)
          → and_then r (add_dirs encode (make_dir name ds)) ≡ and_then r (add_dirs encode ds)
      step (err e, z) same_rest = refl
      step (ok u, z) same_rest = same_rest z

-- The directory with its marker adds the node, in whatever place it stands.
module _ (encode : Bool) (child : Bytes) (n : NodeMarker) (name text : Bytes) where
  abbrev new_dir : Dir
  new_dir = record { name = name; marker = some text }

  abbrev NewDir : Dir → Type 0
  NewDir d = (x : Shape) → add_dir encode d x ≡ add_known child false n x

  put_first :
      (d : Dir) (ds : List Dir) (x y : Shape)
      → NewDir d
      → Free n.trunk x
      → All (Apart encode child n.trunk) ds
      → add_dirs encode ds x ≡ (ok tt, y)
      → (y' : Shape) × (add_dirs encode (d ∷ ds) x ≡ (ok tt, y'))
        × Extends child (info_of false n) n.trunk y y'
  unfolding add_dirs
  put_first d ds x y new free all e =
      let (y', f, h) =
        add_dirs-Extends encode child (info_of false n) n.trunk ds x (added child false n x) y all
          (added-Extends child false n x) e in
      (
        y',
        ap (λ r. and_then r (add_dirs encode ds)) (new x ∙ add_known-added child false n x free)
            ∙ f,
        h,
      )

  pub add_dirs-put_dir :
      (ds : List Dir) (x y : Shape)
      → NewDir new_dir
      → key_name encode name ≡ child
      → look child y.nodes ≡ none
      → Free n.trunk y
      → add_dirs encode ds x ≡ (ok tt, y)
      → (y' : Shape) × (add_dirs encode (put_dir name text ds) x ≡ (ok tt, y'))
        × Extends child (info_of false n) n.trunk y y'
  unfolding add_dirs
  add_dirs-put_dir [] x y new key absent free e =
      let (all, _, free0) = dirs-Apart encode child n.trunk [] x y e absent free in
      put_first new_dir [] x y new free0 tt e
  add_dirs-put_dir (d ∷ ds) x y new key absent free e =
      let ((a, all), _, free0) = dirs-Apart encode child n.trunk (d ∷ ds) x y e absent free in
      elim (Bool-cases (same d.name name)) [
        | inl here ↦
            let own : key_name encode d.name ≡ child =
              ap (key_name encode) (same-eq d.name name here) ∙ key in
            let nothing : add_dir encode d x ≡ (ok tt, x) =
              own_dir_adds_nothing encode child n.trunk d own a x in
            rw here (
              put_first new_dir ds x y new free0 all
                (sym (ap (λ r. and_then r (add_dirs encode ds)) nothing) ∙ e))
        | inr differs ↦ elim (Bool-cases (before name d.name)) [
          | inl first ↦ rw (differs, first) (put_first new_dir (d ∷ ds) x y new free0 (a, all) e)
          | inr later ↦
              let (x1, e1, e2) = both_steps (add_dir encode d x) (add_dirs encode ds) y e in
              let (y', f, h) = add_dirs-put_dir ds x1 y new key absent free e2 in
              rw (differs, later)
                (y', ap (λ r. and_then r (add_dirs encode (put_dir name text ds))) e1 ∙ f, h)
        ]
      ]

-- A rebuild from the tree succeeds, and its index has the same nodes and heads; the counters of the
-- index are not behind.
pub record Mirrors (encode : Bool) (t : Tree) (s : Shape) : Type 0 where
  pub again : Shape
  pub scans : scan encode t ≡ (ok tt, again)
  pub nodes : (k : Bytes) → look k s.nodes ≡ look k again.nodes
  pub heads : (k : Bytes) → look k s.heads ≡ look k again.heads
  pub node_seq : again.node_seq ≤ s.node_seq
  pub trunk_seq : again.trunk_seq ≤ s.trunk_seq
