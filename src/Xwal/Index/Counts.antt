-- ===== src/Xwal/Index/Counts.antt =====
-- The counters of a shape lie above the numbers of all its ids.
use mathlib.Core.Path.{subst}
use figwal.Common.{
  ℤ, pos, negsuc, ℕ, ◌≤◌, ◌≡◌, refl, sym, ap, ◌∙◌, arith, Bool, true, false, Bool-cases, inl, inr,
  Option, none, some, List, [], ◌∷◌, Option-cases,
}
use figwal.Result.{ok, err, other}
use figwal.Segment.Bytes.{Bytes}
use figwal.Values.{same}
use figwal.Values.Paths.{same-eq}
use figwal.Names.{key_name}
use figwal.Disk.Fork.{hidden}
use figwal.Xwal.Markers.{NodeMarker, num_suffix, read_marker}
use figwal.Xwal.Index.{
  NodeInfo, Shape, empty_shape, Dir, Tree, look, assign, raised, key_number, raised_by_key,
  bump_seqs, claimed, claim, add_known, add_root, add_dir, add_dirs, scan, or_no_marker, null_kind,
}
use figwal.Xwal.Index.Tables.{look-assign, both_steps}

pub raised_above : (z : ℤ) (s : ℕ) → s ≤ raised z s
raised_above (negsuc n) s = omega arith
raised_above (pos n) s = ground arith

pub raised_mono : (z : ℤ) (s t : ℕ) → s ≤ t → raised z s ≤ raised z t
raised_mono (negsuc n) s t le = le
raised_mono (pos n) s t le = ground arith

pub raised_comm : (y z : ℤ) (s : ℕ) → raised y (raised z s) ≡ raised z (raised y s)
raised_comm (negsuc m) z s = refl
raised_comm (pos m) (negsuc n) s = refl
raised_comm (pos m) (pos n) s = ground arith

pub by_key_above : (k : Bytes) (s : ℕ) → s ≤ raised_by_key k s
by_key_above [] s = omega arith
by_key_above (b ∷ k) s = raised_above (key_number (b ∷ k)) s

pub by_key_mono : (k : Bytes) (s t : ℕ) → s ≤ t → raised_by_key k s ≤ raised_by_key k t
by_key_mono [] s t le = le
by_key_mono (b ∷ k) s t le = raised_mono (key_number (b ∷ k)) s t le

pub by_key_comm :
    (j k : Bytes) (s : ℕ)
    → raised_by_key j (raised_by_key k s) ≡ raised_by_key k (raised_by_key j s)
by_key_comm [] k s = refl
by_key_comm (a ∷ j) [] s = refl
by_key_comm (a ∷ j) (b ∷ k) s = raised_comm (key_number (a ∷ j)) (key_number (b ∷ k)) s

-- The numbers of the node keys and of the trunks that have a head
pub record Counted (x : Shape) : Type 0 where
  pub of_nodes :
      (k : Bytes) (n : NodeInfo) → look k x.nodes ≡ some n → raised_by_key k 0 ≤ x.node_seq
  pub of_trunks :
      (t k : Bytes) → look t x.heads ≡ some k → raised (num_suffix t 116) 0 ≤ x.trunk_seq

claimed-Counted :
    (key trunk : Bytes) (x y : Shape) (o : Option Bytes)
    → Counted x
    → raised (num_suffix trunk 116) 0 ≤ x.trunk_seq
    → claimed key trunk x o ≡ (ok tt, y)
    → Counted y
claimed-Counted key trunk x y (some previous) c le e =
    let impossible : err other ≡ ok tt = ap (λ r. r.0) e in cc
claimed-Counted key trunk x y none c le e =
    let same_shape : record x { heads = assign x.heads trunk key } ≡ y = ap (λ r. r.1) e in
    subst Counted same_shape (record {
      of_nodes = c.of_nodes;
      of_trunks = λ t k h. elim (Bool-cases (same trunk t)) [
        | inl here ↦
            subst (λ u. raised (num_suffix u 116) 0 ≤ x.trunk_seq) (same-eq trunk t here) le
        | inr there ↦
            c.of_trunks t k (sym (rw there refl) ∙ sym (look-assign x.heads trunk t key) ∙ h)
      ];
    })

claim-Counted :
    (key trunk : Bytes) (x y : Shape)
    → Counted x
    → raised (num_suffix trunk 116) 0 ≤ x.trunk_seq
    → claim key trunk x ≡ (ok tt, y)
    → Counted y
claim-Counted key [] x y c le e = subst Counted (ap (λ r. r.1) e) c
claim-Counted key (b ∷ trunk) x y c le e =
    claimed-Counted key (b ∷ trunk) x y (look (b ∷ trunk) x.heads) c le e

add_known-Counted :
    (key : Bytes) (root : Bool) (n : NodeMarker) (x y : Shape)
    → Counted x
    → add_known key root n x ≡ (ok tt, y)
    → Counted y
add_known-Counted key root n x y c e =
    let info : NodeInfo = record {
      trunk = n.trunk;
      is_root = root;
      from = n.from;
      kind = n.kind;
    } in
    claim-Counted key n.trunk (bump_seqs key n.trunk (record x { nodes = assign x.nodes key info }))
      y
      (record {
        of_nodes = λ k m h. elim (Bool-cases (same key k)) [
          | inl here ↦
              subst (λ u. raised_by_key u 0 ≤ raised_by_key key x.node_seq) (same-eq key k here)
                (by_key_mono key 0 x.node_seq (omega arith))
          | inr there ↦ omega (
            arith,
            c.of_nodes k m (sym (rw there refl) ∙ sym (look-assign x.nodes key k info) ∙ h),
            by_key_above key x.node_seq,
          )
        ];
        of_trunks = λ t k h.
            omega (arith, c.of_trunks t k h, raised_above (num_suffix n.trunk 116) x.trunk_seq);
      })
      (raised_mono (num_suffix n.trunk 116) 0 x.trunk_seq (omega arith)) e

-- A directory adds nothing to a shape, or a node with its marker.
pub data Adds (encode : Bool) (d : Dir) : Type 0 where
  silent : ((x : Shape) → add_dir encode d x ≡ (ok tt, x)) → Adds encode d
  loud :
      (n : NodeMarker)
      → ((x : Shape) → add_dir encode d x ≡ add_known (key_name encode d.name) false n x)
      → Adds encode d

pub adds : (encode : Bool) (d : Dir) → Adds encode d
adds encode d = elim (Bool-cases (hidden d.name)) [
  | inl skipped ↦ silent (λ x. rw skipped refl)
  | inr seen ↦ elim (Option-cases d.marker) [
    | inl unfinished ↦ silent (λ x. rw (seen, unfinished) refl)
    | inr (text, there) ↦ loud (read_marker text) (λ x. rw (seen, there) refl)
  ]
]

add_dir-Counted :
    (encode : Bool) (d : Dir) (x y : Shape)
    → Counted x
    → add_dir encode d x ≡ (ok tt, y)
    → Counted y
add_dir-Counted encode d x y c e = elim (adds encode d) [
  | silent s ↦ subst Counted (ap (λ r. r.1) (sym (s x) ∙ e)) c
  | loud n l ↦ add_known-Counted (key_name encode d.name) false n x y c (sym (l x) ∙ e)
]

pub add_dirs-Counted :
    (encode : Bool) (ds : List Dir) (x y : Shape)
    → Counted x
    → add_dirs encode ds x ≡ (ok tt, y)
    → Counted y
unfolding add_dirs
add_dirs-Counted encode [] x y c e = subst Counted (ap (λ r. r.1) e) c
add_dirs-Counted encode (d ∷ ds) x y c e =
    let (x1, e1, e2) = both_steps (add_dir encode d x) (add_dirs encode ds) y e in
    add_dirs-Counted encode ds x1 y (add_dir-Counted encode d x x1 c e1) e2

empty-Counted : Counted empty_shape
empty-Counted = record { of_nodes = λ k n h. cc; of_trunks = λ t k h. cc }

pub scan-Counted : (encode : Bool) (t : Tree) (y : Shape) → scan encode t ≡ (ok tt, y) → Counted y
unfolding scan
scan-Counted encode t y e =
    let (x1, e1, e2) =
      both_steps (add_root t.root_marker empty_shape) (add_dirs encode t.dirs) y e in
    add_dirs-Counted encode t.dirs x1 y
      (add_known-Counted [] true (record (or_no_marker t.root_marker) { kind = null_kind })
        empty_shape x1 empty-Counted e1)
      e2
