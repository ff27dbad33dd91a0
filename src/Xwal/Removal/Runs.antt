-- ===== src/Xwal/Removal/Runs.antt =====
-- The removal of a trunk from the store of Xwal/Index/Runs.antt: one stump with one fork.
use figwal.Common.{ℕ, ◌≡◌, refl, arith, true, false, some, none, [], ◌∷◌, ◌↔◌}
use figwal.Segment.Bytes.{Bytes}
use figwal.Names.{fs_name, key_name}
use figwal.Disk.Fork.{among}
use mathlib.Core.Path.{subst}
use figwal.Common.{◌≢◌, ◌<◌, ◌≤◌, sym, ap, ◌∙◌, Bool-cases, inl, inr, if◌then◌else◌}
use figwal.Values.{same}
use figwal.Values.Paths.{same-eq}
use figwal.Names.RoundTrip.{Octets}
use figwal.Xwal.Markers.{
  marker_text, read_marker, read_lines, lines, cut, strip, num_suffix, atoi, digits_value,
}
use figwal.Xwal.Index.{NodeInfo, Index, Tree, World, node, null_kind, scan, add_dirs}
use figwal.Xwal.Index.Histories.{Mirrored}
use figwal.Xwal.Removal.{subtree, walk, children_of, remove}
use figwal.Xwal.Removal.Subtrees.{Descends, subtree-Descends}
use figwal.Xwal.Removal.Outcomes.{Healthy, Removal, remove-Removal}

-- S
abbrev stump : Bytes
stump = 83 ∷ []

abbrev stump_info : NodeInfo
stump_info = record { trunk = []; is_root = false; from = []; kind = 108 ∷ [] }

-- n0, with the trunk t0
abbrev fork_key : Bytes
fork_key = 110 ∷ 48 ∷ []

abbrev fork_trunk : Bytes
fork_trunk = 116 ∷ 48 ∷ []

abbrev fork_info : NodeInfo
fork_info = record { trunk = fork_trunk; is_root = false; from = stump; kind = 99 ∷ [] }

abbrev root_info : NodeInfo
root_info = record { trunk = []; is_root = true; from = []; kind = null_kind }

abbrev small_index : Index
small_index = record {
  shape = record {
    nodes = ([], root_info) ∷ (stump, stump_info) ∷ (fork_key, fork_info) ∷ [];
    heads = (fork_trunk, fork_key) ∷ [];
    node_seq = 1;
    trunk_seq = 1;
  };
  version = 1;
  rebuilds = 1;
}

listed : subtree small_index stump ≡ stump ∷ fork_key ∷ []
unfolding walk children_of
listed = refl

abbrev small_tree : Tree
small_tree = record {
  root_marker = none;
  dirs =
      record {
        name = stump;
        marker = some (marker_text (record { from = []; kind = 108 ∷ []; trunk = [] }));
      }
      ∷ record {
        name = fork_key;
        marker = some (marker_text (record { from = stump; kind = 99 ∷ []; trunk = fork_trunk }));
      }
      ∷ [];
}

abbrev small_world : World
small_world = record { tree = small_tree; index = small_index }

small_store-Mirrored : Mirrored false small_world
unfolding scan add_dirs marker_text read_marker read_lines lines cut strip num_suffix atoi
    digits_value key_name
small_store-Mirrored = record {
  again = small_index.shape;
  scans = refl;
  nodes = λ k. refl;
  heads = λ t. refl;
  node_seq = omega arith;
  trunk_seq = omega arith;
}

abbrev small_height : Bytes → ℕ
small_height k = if same fork_key k then 0 else 1

-- The nodes of the store
data Known : Bytes → NodeInfo → Type 0 where
  the_root : Known [] root_info
  the_stump : Known stump stump_info
  the_fork : Known fork_key fork_info

known : (k : Bytes) (n : NodeInfo) → node k small_index ≡ some n → Known k n
known k n e = elim (Bool-cases (same [] k)) [
  | inl root ↦
      let info : root_info ≡ n = some_eq (sym (rw root refl) ∙ e) in
      subst (Known k) info (subst (λ j. Known j root_info) (same-eq [] k root) the_root)
  | inr other_key ↦ elim (Bool-cases (same stump k)) [
    | inl at_stump ↦
        let info : stump_info ≡ n = some_eq (sym (rw (other_key, at_stump) refl) ∙ e) in
        subst (Known k) info (subst (λ j. Known j stump_info) (same-eq stump k at_stump) the_stump)
    | inr later ↦ elim (Bool-cases (same fork_key k)) [
      | inl at_fork ↦
          let info : fork_info ≡ n = some_eq (sym (rw (other_key, later, at_fork) refl) ∙ e) in
          subst (Known k) info
            (subst (λ j. Known j fork_info) (same-eq fork_key k at_fork) the_fork)
      | inr unknown ↦
          let impossible : none ≡ some n = sym (rw (other_key, later, unknown) refl) ∙ e in
          absurd cc
    ]
  ]
]
  where
    some_eq : {i j : NodeInfo} → some i ≡ some j → i ≡ j
    some_eq e = cc

Known-Octets : {k : Bytes} {n : NodeInfo} → Known k n → Octets k
Known-Octets the_root = tt
Known-Octets the_stump = (omega arith, tt)
Known-Octets the_fork = (omega arith, (omega arith, tt))

Known-heights_fall :
    {k : Bytes} {n : NodeInfo} → Known k n → n.from ≢ [] → small_height k < small_height n.from
Known-heights_fall the_root named = absurd (named refl)
Known-heights_fall the_stump named = absurd (named refl)
Known-heights_fall the_fork named = omega arith

known_root : {n : NodeInfo} → node [] small_index ≡ some n → n.is_root ≡ true
known_root {n} e = let info : root_info ≡ n = cc in ap (λ (i : NodeInfo). i.is_root) (sym info)

small_low : (k : Bytes) → small_height k ≤ 3
small_low k = ground arith

small_Healthy : Healthy false small_world
unfolding key_name fs_name
small_Healthy = record {
  mirrored = small_store-Mirrored;
  canonical = (refl, (refl, tt));
  octets = λ k n e. Known-Octets (known k n e);
  height = small_height;
  heights = λ k n e. Known-heights_fall (known k n e);
  low = small_low;
  rootless = refl;
  rooted = λ n e. known_root e;
}

remove-Removal_example :
    Removal false fork_trunk small_world (remove false fork_trunk false small_world)
remove-Removal_example = remove-Removal false fork_trunk false small_world small_Healthy

subtree-Descends_example :
    (among fork_key (subtree small_index stump) ≡ true) ↔ Descends small_index stump fork_key
subtree-Descends_example =
    subtree-Descends small_index small_height stump fork_key stump_info
      (λ k n e. Known-heights_fall (known k n e)) refl refl (λ e. cc) (omega arith)
