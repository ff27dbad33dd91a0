-- ===== src/Xwal/Removal/Subtrees.antt =====
-- The walk of a removal finds the subtree of a node, all of it and nothing else.
use mathlib.Core.Path.{subst}
use figwal.Common.{
  ℕ, zero, suc, ◌+◌, ◌≤◌, ◌<◌, ◌≡◌, ◌≢◌, refl, sym, ap, ◌∙◌, arith, Bool, true, false, ◌||◌,
  Bool-cases, inl, inr, ◌⊎◌, some, List, [], ◌∷◌, ◌++◌, Option-cases, length, ◌↔◌,
}
use figwal.Segment.Bytes.{Bytes}
use figwal.Values.{same}
use figwal.Values.Paths.{same-eq, same_refl}
use figwal.Disk.Fork.{among}
use figwal.Xwal.Index.{NodeInfo, Index, look, node, parent_of, before}
use figwal.Xwal.Removal.{insert_name, sort_names, children_in, children_of, walk_all, walk, subtree}

among-insert_name :
    (k a : Bytes) (l : List Bytes) → among k (insert_name a l) ≡ (same a k || among k l)
among-insert_name k a [] = refl
among-insert_name k a (b ∷ l) = elim (Bool-cases (before b a)) [
  | inl later ↦ rw (later, among-insert_name k a l) (swap (same b k) (same a k) (among k l))
  | inr here ↦ rw here refl
]
  where
    swap : (p q r : Bool) → (p || (q || r)) ≡ (q || (p || r))
    swap true true r = refl
    swap true false r = refl
    swap false q r = refl

among-sort_names : (k : Bytes) (l : List Bytes) → among k (sort_names l) ≡ among k l
among-sort_names k [] = refl
among-sort_names k (a ∷ l) =
    among-insert_name k a (sort_names l) ∙ ap (λ b. same a k || b) (among-sort_names k l)

pub among-append :
    (k : Bytes) (xs ys : List Bytes) → among k (xs ++ ys) ≡ (among k xs || among k ys)
among-append k [] ys = refl
among-append k (x ∷ xs) ys = rw (among-append k xs ys) (assoc (same x k) (among k xs) (among k ys))
  where
    assoc : (p q r : Bool) → (p || (q || r)) ≡ ((p || q) || r)
    assoc true q r = refl
    assoc false q r = refl

or_cases : (p q : Bool) → (p || q) ≡ true → (p ≡ true) ⊎ (q ≡ true)
or_cases true q e = inl refl
or_cases false q e = inr e

or_left : (p q : Bool) → p ≡ true → (p || q) ≡ true
or_left true q e = refl
or_left false q e = cc

or_right : (p q : Bool) → q ≡ true → (p || q) ≡ true
or_right true q e = refl
or_right false q e = e

child_of_listed :
    (key : Bytes) (x : Index) (m : List (Bytes × NodeInfo)) (k : Bytes)
    → among k (children_in key x m) ≡ true
    → same (parent_of k x) key ≡ true
child_of_listed key x [] k e = cc
child_of_listed key x ((j, n) ∷ m) k e = elim (Bool-cases (same (parent_of j x) key)) [
  | inl child ↦
      elim (or_cases (same j k) (among k (children_in key x m)) (sym (rw child refl) ∙ e)) [
        | inl here ↦ subst (λ i. same (parent_of i x) key ≡ true) (same-eq j k here) child
        | inr later ↦ child_of_listed key x m k later
      ]
  | inr apart ↦ child_of_listed key x m k (sym (rw apart refl) ∙ e)
]

listed_of_child :
    (key : Bytes) (x : Index) (m : List (Bytes × NodeInfo)) (k : Bytes) (n : NodeInfo)
    → look k m ≡ some n
    → same (parent_of k x) key ≡ true
    → among k (children_in key x m) ≡ true
listed_of_child key x [] k n e child = cc
listed_of_child key x ((j, i) ∷ m) k n e child = elim (Bool-cases (same j k)) [
  | inl here ↦
      let own : same (parent_of j x) key ≡ true =
        subst (λ i. same (parent_of i x) key ≡ true) (sym (same-eq j k here)) child in
      rw own (or_left (same j k) _ here)
  | inr later ↦
      let rest = listed_of_child key x m k n (sym (rw later refl) ∙ e) child in
      elim (Bool-cases (same (parent_of j x) key)) [
        | inl first ↦ rw first (or_right (same j k) _ rest)
        | inr skipped ↦ rw skipped rest
      ]
]

-- A node whose lineage leads to another one, or that one
pub data Descends (x : Index) (top : Bytes) : Bytes → Type 0 where
  itself : Descends x top top
  below : {k : Bytes} (n : NodeInfo) → node k x ≡ some n → Descends x top n.from → Descends x top k

among-walk_all :
    (walk : Bytes → List Bytes) (k : Bytes) (cs : List Bytes)
    → among k (walk_all walk cs) ≡ true
    → (c : Bytes) × (among c cs ≡ true) × (among k (walk c) ≡ true)
among-walk_all walk k [] e = cc
among-walk_all walk k (c ∷ cs) e =
    elim (or_cases (among k (walk c)) (among k (walk_all walk cs))
      (sym (among-append k (walk c) (walk_all walk cs)) ∙ e)) [
        | inl here ↦ (c, or_left (same c c) _ (same_refl c), here)
        | inr later ↦
            let (d, listed, found) = among-walk_all walk k cs later in
            (d, or_right (same c d) _ listed, found)
      ]

among-walk_all_of :
    (walk : Bytes → List Bytes) (k c : Bytes) (cs : List Bytes)
    → among c cs ≡ true
    → among k (walk c) ≡ true
    → among k (walk_all walk cs) ≡ true
among-walk_all_of walk k c [] listed found = cc
among-walk_all_of walk k c (d ∷ cs) listed found =
    among-append k (walk d) (walk_all walk cs) ∙ elim (or_cases (same d c) (among c cs) listed) [
      | inl here ↦ or_left _ _ (subst (λ i. among k (walk i) ≡ true) (sym (same-eq d c here)) found)
      | inr later ↦ or_right (among k (walk d)) _ (among-walk_all_of walk k c cs later found)
    ]

descends_on : {x : Index} {a b c : Bytes} → Descends x a b → Descends x b c → Descends x a c
descends_on first itself = first
descends_on first (below n e second) = below n e (descends_on first second)

module _ (x : Index) where
  walked-node :
      (fuel : ℕ) (top k : Bytes)
      → among k (walk fuel x top) ≡ true
      → (n : NodeInfo) × (node top x ≡ some n)
  unfolding walk
  walked-node zero top k e = cc
  walked-node (suc fuel) top k e = elim (Option-cases (node top x)) [
    | inl absent ↦ let impossible : false ≡ true = sym (rw absent refl) ∙ e in absurd cc
    | inr there ↦ there
  ]

  walked_parts :
      (fuel : ℕ) (top k : Bytes) (n : NodeInfo)
      → node top x ≡ some n
      → among k (walk (suc fuel) x top)
        ≡ (same top k || among k (walk_all (walk fuel x) (children_of top x)))
  unfolding walk
  walked_parts fuel top k n there = rw there refl

  child_listed :
      (top c : Bytes) → among c (children_of top x) ≡ true → same (parent_of c x) top ≡ true
  unfolding children_of
  child_listed top c e =
      child_of_listed top x x.shape.nodes c
        (sym (among-sort_names c (children_in top x x.shape.nodes)) ∙ e)

  listed_child :
      (c : Bytes) (n : NodeInfo) → node c x ≡ some n → among c (children_of n.from x) ≡ true
  unfolding children_of
  listed_child c n e =
      let own : same (parent_of c x) n.from ≡ true = rw e (same_refl n.from) in
      among-sort_names c (children_in n.from x x.shape.nodes)
      ∙ listed_of_child n.from x x.shape.nodes c n e own

  -- The walk finds nothing but the subtree, however far it goes.
  walked-Descends : (fuel : ℕ) (top k : Bytes) → among k (walk fuel x top) ≡ true → Descends x top k
  unfolding walk
  walked-Descends zero top k e = cc
  walked-Descends (suc fuel) top k e =
      let (n, there) = walked-node (suc fuel) top k e in
      elim (or_cases (same top k) _ (sym (walked_parts fuel top k n there) ∙ e)) [
        | inl here ↦ subst (Descends x top) (same-eq top k here) itself
        | inr later ↦
            let (c, listed, found) = among-walk_all (walk fuel x) k (children_of top x) later in
            let (i, is_node) = walked-node fuel c k found in
            let parent : i.from ≡ top =
              same-eq i.from top (sym (rw is_node refl) ∙ child_listed top c listed) in
            descends_on (below i is_node (subst (Descends x top) (sym parent) itself))
              (walked-Descends fuel c k found)
      ]

  -- A height for every key, with those of the children below that of a parent: there is no cycle.
  abbrev pub Heights : (Bytes → ℕ) → Type 0
  Heights height =
      (k : Bytes) (n : NodeInfo) → node k x ≡ some n → n.from ≢ [] → height k < height n.from

  -- The root has no parent.
  module _ (height : Bytes → ℕ) (heights : Heights height) (rootless : parent_of [] x ≡ []) where
    child_named :
        (top c : Bytes) (j : NodeInfo) → node c x ≡ some j → j.from ≡ top → top ≢ [] → c ≢ []
    child_named top c j e parent named empty =
        let of_root : parent_of c x ≡ [] = ap (λ k. parent_of k x) empty ∙ rootless in
        let of_node : parent_of c x ≡ j.from = rw e refl in
        named (sym parent ∙ sym of_node ∙ of_root)

    walked_itself :
        (fuel : ℕ) (k : Bytes) (n : NodeInfo)
        → node k x ≡ some n
        → 0 < fuel
        → among k (walk fuel x k) ≡ true
    walked_itself zero k n e pos = absurd (omega (arith, pos))
    walked_itself (suc fuel) k n e pos =
        walked_parts fuel k k n e ∙ or_left (same k k) _ (same_refl k)

    walked_child :
        (fuel : ℕ) (top k : Bytes) (n : NodeInfo)
        → top ≢ []
        → height top < fuel
        → node k x ≡ some n
        → n.from ≢ []
        → among n.from (walk fuel x top) ≡ true
        → among k (walk fuel x top) ≡ true
    unfolding walk
    walked_child zero top k n named enough e from found = cc
    walked_child (suc fuel) top k n named enough e from found =
        let (i, there) = walked-node (suc fuel) top n.from found in
        elim (or_cases (same top n.from) _ (sym (walked_parts fuel top n.from i there) ∙ found)) [
          | inl here ↦
              let parent = same-eq top n.from here in
              let lower : height k < height top =
                subst (λ p. height k < height p) (sym parent) (heights k n e from) in
              let listed : among k (children_of top x) ≡ true =
                subst (λ p. among k (children_of p x) ≡ true) (sym parent) (listed_child k n e) in
              walked_parts fuel top k i there
              ∙ or_right (same top k) _ (
                  among-walk_all_of (walk fuel x) k k (children_of top x) listed
                    (walked_itself fuel k n e (omega (arith, enough, lower))))
          | inr later ↦
              let (c, listed, inside) =
                among-walk_all (walk fuel x) n.from (children_of top x) later in
              let (j, is_node) = walked-node fuel c n.from inside in
              let parent : j.from ≡ top =
                same-eq j.from top (sym (rw is_node refl) ∙ child_listed top c listed) in
              let lower : height c < height top =
                subst (λ p. height c < height p) parent
                  (heights c j is_node (λ nothing. named (sym parent ∙ nothing))) in
              walked_parts fuel top k i there
              ∙ or_right (same top k) _ (
                  among-walk_all_of (walk fuel x) k c (children_of top x) listed (
                    walked_child fuel c k n (child_named top c j is_node parent named)
                      (omega (arith, enough, lower)) e from inside))
        ]

    -- The walk finds all of the subtree.
    Descends-walked :
        (fuel : ℕ) (top : Bytes) (n : NodeInfo)
        → node top x ≡ some n
        → top ≢ []
        → height top < fuel
        → {k : Bytes} → Descends x top k
        → (k ≢ []) × (among k (walk fuel x top) ≡ true)
    Descends-walked fuel top n e named enough itself =
        (named, walked_itself fuel top n e (omega (arith, enough)))
    Descends-walked fuel top n e named enough (below {k} i is_node up) =
        let (parent_named, found) = Descends-walked fuel top n e named enough up in
        (
          child_named i.from k i is_node refl parent_named,
          walked_child fuel top k i named enough is_node parent_named found,
        )

-- The walk of a removal ends, and lists exactly the keys whose lineage leads to the node it begins
-- at: where the root has no parent and the lineage no cycle, so that there is a height for each key,
-- that of the node at most the number of nodes.
pub subtree-Descends :
    (x : Index) (height : Bytes → ℕ) (top k : Bytes) (n : NodeInfo)
    → Heights x height
    → parent_of [] x ≡ []
    → node top x ≡ some n
    → top ≢ []
    → height top ≤ length x.shape.nodes
    → (among k (subtree x top) ≡ true) ↔ Descends x top k
subtree-Descends x height top k n heights rootless e named enough = (
  walked-Descends x (length x.shape.nodes + 1) top k,
  λ d.
      (Descends-walked x height heights rootless (length x.shape.nodes + 1) top n e named
        (omega (arith, enough)) d).1,
)

-- The root is in no subtree of another node.
pub Descends-named :
    (x : Index) (height : Bytes → ℕ) (top k : Bytes) (n : NodeInfo)
    → Heights x height
    → parent_of [] x ≡ []
    → node top x ≡ some n
    → top ≢ []
    → height top ≤ length x.shape.nodes
    → Descends x top k
    → k ≢ []
Descends-named x height top k n heights rootless e named enough d =
    (Descends-walked x height heights rootless (length x.shape.nodes + 1) top n e named
      (omega (arith, enough)) d).0
