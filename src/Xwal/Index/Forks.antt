-- ===== src/Xwal/Index/Forks.antt =====
-- Flat forks keep the index equal to what a rebuild from the markers gives.
use figwal.Common.{
  ℕ, ◌+◌, ◌≤◌, ◌<◌, ◌≡◌, refl, sym, ap, ◌∙◌, arith, Bool, true, false, Bool-cases, inl, inr, none,
  some, [], ◌∷◌, if◌then◌else◌, Option-cases, ◌==◌, pos,
}
use figwal.Result.{Result, ok, err}
use figwal.Segment.Bytes.{Bytes}
use figwal.Values.{same}
use figwal.Names.{key_name, fs_name, contains}
use figwal.Names.RoundTrip.{Octets, key_name-fs_name}
use figwal.Disk.Fork.{hidden}
use figwal.Xwal.Frames.{max_int64}
use figwal.Xwal.Markers.{NodeMarker, marker_text, itoa, num_suffix}
use figwal.Xwal.Markers.Texts.{clean, read_marker-marker_text}
use figwal.Xwal.Markers.Numerals.{num_suffix-itoa, itoa-AllDigits, digits_lack}
use figwal.Xwal.Index.{
  Shape, Index, Tree, World, Fault, no_fault, before_dirs, before_marker, empty_shape, look,
  segment_loop, key_number, raised, raised_by_key, spawn_flat, mint_node, mint_trunk, add_known,
  add_dir, add_dirs, add_root, scan, make_dir, put_dir, fork_named, and_then,
}
use figwal.Xwal.Index.Tables.{both_steps}
use figwal.Xwal.Index.Counts.{scan-Counted, raised_mono, by_key_mono}
use figwal.Xwal.Index.Extends.{meets, Free, info_of, added, Extends, added-Extends}
use figwal.Xwal.Index.Mirrors.{Mirrors, add_dirs-make_dir, add_dirs-put_dir}

Mirrors-Free :
    (encode : Bool) (t : Tree) (s : Shape) (m : Mirrors encode t s) (trunk : Bytes)
    → Free trunk s
    → Free trunk m.again
Mirrors-Free encode t s m [] f = tt
Mirrors-Free encode t s m (b ∷ trunk) f = sym (m.heads (b ∷ trunk)) ∙ f

scan-make_dir :
    (encode : Bool) (t : Tree) (name : Bytes)
    → scan encode (record t { dirs = make_dir name t.dirs }) ≡ scan encode t
unfolding scan
scan-make_dir encode t name = step (add_root t.root_marker empty_shape)
  where
    step :
        (r : Result (Unit {0}) × Shape)
        → and_then r (add_dirs encode (make_dir name t.dirs)) ≡ and_then r (add_dirs encode t.dirs)
    step (err e, x) = refl
    step (ok u, x) = add_dirs-make_dir encode [] [] name t.dirs x

-- A node that was added to both
extended-Mirrors :
    (encode : Bool) (t t' : Tree) (s again' : Shape) (child : Bytes) (n : NodeMarker)
    → (m : Mirrors encode t s) → scan encode t' ≡ (ok tt, again')
    → Extends child (info_of false n) n.trunk m.again again'
    → Mirrors encode t' (added child false n s)
extended-Mirrors encode t t' s again' child n m scans h =
    let own = added-Extends child false n s in
    record {
      again = again';
      scans = scans;
      nodes = λ k.
          own.nodes k
          ∙ ap (λ o. if same child k then some (info_of false n) else o) (m.nodes k)
          ∙ sym (h.nodes k);
      heads = λ k.
          own.heads k
          ∙ ap (λ o. if meets n.trunk k then some child else o) (m.heads k)
          ∙ sym (h.heads k);
      node_seq =
          omega (arith, h.node_seq, by_key_mono child m.again.node_seq s.node_seq m.node_seq);
      trunk_seq = omega (
        arith,
        h.trunk_seq,
        raised_mono (num_suffix n.trunk 116) m.again.trunk_seq s.trunk_seq m.trunk_seq,
      );
    }

scan-put_dir :
    (encode : Bool) (t : Tree) (s : Shape) (child : Bytes) (n : NodeMarker) (name text : Bytes)
    → (m : Mirrors encode t s)
    → ((x : Shape)
        → add_dir encode (record { name = name; marker = some text }) x ≡ add_known child false n x)
    → key_name encode name ≡ child
    → look child s.nodes ≡ none
    → Free n.trunk s
    → (again' : Shape) × (scan encode (record t { dirs = put_dir name text t.dirs })
        ≡ (ok tt, again'))
      × Extends child (info_of false n) n.trunk m.again again'
unfolding scan
scan-put_dir encode t s child n name text m new key absent free =
    let (x1, e1, e2) =
      both_steps (add_root t.root_marker empty_shape) (add_dirs encode t.dirs) m.again m.scans in
    let (again', f, h) =
      add_dirs-put_dir encode child n name text t.dirs x1 m.again new key
        (sym (m.nodes child) ∙ absent) (Mirrors-Free encode t s m n.trunk free) e2 in
    (again', ap (λ r. and_then r (add_dirs encode (put_dir name text t.dirs))) e1 ∙ f, h)

-- The fork of a node under a key and a trunk that are new
pub fork_named-Mirrors :
    (encode : Bool) (fault : Fault) (parent child trunk kind : Bytes) (w : World)
    → Mirrors encode w.tree w.index.shape
    → look child w.index.shape.nodes ≡ none
    → Free trunk w.index.shape
    → hidden (fs_name encode child) ≡ false
    → Octets child
    → clean parent ≡ true
    → clean kind ≡ true
    → clean trunk ≡ true
    → let w' = (fork_named encode fault parent child trunk kind w).1 in
      Mirrors encode w'.tree w'.index.shape
unfolding fork_named spawn_flat
fork_named-Mirrors encode before_dirs parent child trunk kind w m absent free seen bytes p k t = m
fork_named-Mirrors encode before_marker parent child trunk kind w m absent free seen bytes p k t =
    record {
      again = m.again;
      scans = scan-make_dir encode w.tree (fs_name encode child) ∙ m.scans;
      nodes = m.nodes;
      heads = m.heads;
      node_seq = m.node_seq;
      trunk_seq = m.trunk_seq;
    }
fork_named-Mirrors encode no_fault parent child trunk kind w m absent free seen bytes p k t =
    let n : NodeMarker = record { from = parent; kind = kind; trunk = trunk } in
    let key = key_name-fs_name encode child bytes in
    let (again', e, h) =
      scan-put_dir encode w.tree w.index.shape child n (fs_name encode child) (marker_text n) m
        (λ x. rw (seen, key, read_marker-marker_text n p k t) refl) key absent free in
    extended-Mirrors encode w.tree _ w.index.shape again' child n m e h

segment_loop-plain : (seg s : Bytes) → contains s 47 ≡ false → segment_loop seg s ≡ seg
segment_loop-plain seg [] e = refl
segment_loop-plain seg (b ∷ s) e = elim (Bool-cases (b == 47)) [
  | inl slash ↦ let impossible : true ≡ false = sym (rw slash refl) ∙ e in cc
  | inr letter ↦ rw letter (segment_loop-plain seg s (sym (rw letter refl) ∙ e))
]

minted_number : (n : ℕ) → n ≤ max_int64 → key_number (110 ∷ itoa n) ≡ pos n
minted_number n le =
    ap (λ s. num_suffix s 110)
      (segment_loop-plain (110 ∷ itoa n) (110 ∷ itoa n)
        (digits_lack (itoa n) 47 (itoa-AllDigits n) refl))
    ∙ num_suffix-itoa 110 n le

raised_pos : (n : ℕ) → n < max_int64 → raised (pos n) 0 ≡ n + 1
raised_pos n lt = ground arith

-- A minted node key is new.
pub mint_node-fresh :
    (encode : Bool) (t : Tree) (x : Index)
    → Mirrors encode t x.shape
    → x.shape.node_seq < max_int64
    → look (mint_node x).0 x.shape.nodes ≡ none
unfolding mint_node
mint_node-fresh encode t x m lt =
    let seq = x.shape.node_seq in
    let key : Bytes = 110 ∷ itoa seq in
    elim (Option-cases (look key m.again.nodes)) [
      | inl absent ↦ m.nodes key ∙ absent
      | inr (n, there) ↦
          let counted = (scan-Counted encode t m.again m.scans).of_nodes key n there in
          let value : raised_by_key key 0 ≡ seq + 1 =
            ap (λ z. raised z 0) (minted_number seq (omega arith)) ∙ raised_pos seq lt in
          absurd (omega (arith, counted, value, m.node_seq))
    ]

-- So is a minted trunk, unless the caller mints it.
pub mint_trunk-fresh :
    (encode : Bool) (t : Tree) (x : Index)
    → Mirrors encode t x.shape
    → x.shape.trunk_seq < max_int64
    → look (mint_trunk none x).0 x.shape.heads ≡ none
unfolding mint_trunk
mint_trunk-fresh encode t x m lt =
    let seq = x.shape.trunk_seq in
    let id : Bytes = 116 ∷ itoa seq in
    elim (Option-cases (look id m.again.heads)) [
      | inl absent ↦ m.heads id ∙ absent
      | inr (key, there) ↦
          let counted = (scan-Counted encode t m.again m.scans).of_trunks id key there in
          let value : raised (num_suffix id 116) 0 ≡ seq + 1 =
            ap (λ z. raised z 0) (num_suffix-itoa 116 seq (omega arith)) ∙ raised_pos seq lt in
          absurd (omega (arith, counted, value, m.trunk_seq))
    ]
