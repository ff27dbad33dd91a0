-- ===== src/Values/Paths.antt =====
-- What a set or a removal at a path does to that path and to the others.
use mathlib.Core.Path.{ap₂, subst}
use figwal.Common.{
  ℕ, ◌≡◌, refl, sym, ap, ◌∙◌, arith, Bool, true, false, Bool-cases, inl, inr, none, some, List, [],
  ◌∷◌, ◌==◌, not, eqb_refl, if◌then◌else◌,
}
use figwal.Segment.Bytes.{Bytes}
use figwal.Values.{
  Value, Members, object, nothing, member, same, find, put, delete, members_or_fresh, deep_set,
  find_path,
}

pub same_refl : (k : Bytes) → same k k ≡ true
same_refl [] = refl
same_refl (a ∷ k) = rw (eqb_refl a) (same_refl k)

eq_of_eqb : (a b : ℕ) → (a == b) ≡ true → a ≡ b
eq_of_eqb a b h = ground arith

same_tail : (a b : Bool) → a ≡ true → (if a then b else false) ≡ true → b ≡ true
same_tail true b e h = h
same_tail false b e h = cc

absurd_test : {A : Type 0} (a b : Bool) → a ≡ false → (if a then b else false) ≡ true → A
absurd_test true b e h = cc
absurd_test false b e h = cc

pub same-eq : (j k : Bytes) → same j k ≡ true → j ≡ k
same-eq [] [] h = refl
same-eq [] (b ∷ ks) h = cc
same-eq (a ∷ js) [] h = cc
same-eq (a ∷ js) (b ∷ ks) h = elim (Bool-cases (a == b)) [
  | inl is ↦ ap₂ ◌∷◌ (eq_of_eqb a b is) (same-eq js ks (same_tail (a == b) (same js ks) is h))
  | inr differs ↦ absurd_test (a == b) (same js ks) differs h
]

pub find-put : (m : Members) (k : Bytes) (v : Value) → find (put m k v) k ≡ some v
find-put nothing k v = rw (same_refl k) refl
find-put (member j w m) k v = elim (Bool-cases (same j k)) [
  | inl here ↦ rw here (rw here refl)
  | inr past ↦ rw past (rw past (find-put m k v))
]

same-other : (i j k : Bytes) → same i j ≡ true → same j k ≡ false → same i k ≡ false
same-other i j k e h = subst (λ t. same t k ≡ false) (sym (same-eq i j e)) h

-- Two names that differ do not see each other's member.
pub find-put_other :
    (m : Members) (j k : Bytes) (v : Value) → same j k ≡ false → find (put m j v) k ≡ find m k
find-put_other nothing j k v h = rw h refl
find-put_other (member i w m) j k v h = elim (Bool-cases (same i j)) [
  | inl here ↦ rw (here, same-other i j k here h) refl
  | inr past ↦ rw past (ap (λ t. if same i k then some w else t) (find-put_other m j k v h))
]

pub find-delete : (m : Members) (k : Bytes) → find (delete m k) k ≡ none
find-delete nothing k = refl
find-delete (member j v m) k = elim (Bool-cases (same j k)) [
  | inl here ↦ rw here (find-delete m k)
  | inr past ↦ rw past (rw past (find-delete m k))
]

pub find-delete_other :
    (m : Members) (j k : Bytes) → same j k ≡ false → find (delete m j) k ≡ find m k
find-delete_other nothing j k h = refl
find-delete_other (member i w m) j k h = elim (Bool-cases (same i j)) [
  | inl here ↦ rw (here, same-other i j k here h) (find-delete_other m j k h)
  | inr past ↦ rw past (ap (λ t. if same i k then some w else t) (find-delete_other m j k h))
]

pub find_path-other :
    (m n : Members) (k : Bytes) (path : List Bytes)
    → find m k ≡ find n k
    → find_path m k path ≡ find_path n k path
unfolding find_path
find_path-other m n k [] e = e
find_path-other m n k (j ∷ path) e = ap (λ o. find_path (members_or_fresh o) j path) e

pub find_path-nothing : (k : Bytes) (path : List Bytes) → find_path nothing k path ≡ none
unfolding find_path
find_path-nothing k [] = refl
find_path-nothing k (j ∷ path) = find_path-nothing j path

-- Neither of two paths leads through the other.
abbrev pub apart : Bytes → List Bytes → Bytes → List Bytes → Bool
apart k [] j qs = not (same k j)
apart k (p ∷ ps) j [] = not (same k j)
apart k (p ∷ ps) j (q ∷ qs) = let below = apart p ps q qs in if same k j then below else true

pub not_same : (b : Bool) → not b ≡ true → b ≡ false
not_same true h = cc
not_same false h = refl

pub apart_below : (a b : Bool) → a ≡ true → (if a then b else true) ≡ true → b ≡ true
apart_below true b e h = h
apart_below false b e h = cc

-- A set value is found at its path.
pub find_path-deep_set :
    (m : Members) (k : Bytes) (path : List Bytes) (v : Value)
    → find_path (deep_set m k path v) k path ≡ some v
unfolding find_path deep_set
find_path-deep_set m k [] v = find-put m k v
find_path-deep_set m k (j ∷ path) v =
    ap (λ o. find_path (members_or_fresh o) j path)
      (find-put m k (object (deep_set (members_or_fresh (find m k)) j path v)))
    ∙ find_path-deep_set (members_or_fresh (find m k)) j path v

-- A set leaves every path alone that does not lead through the path set, nor this through it.
pub find_path-deep_set-apart :
    (m : Members) (k j : Bytes) (ps qs : List Bytes) (v : Value)
    → apart k ps j qs ≡ true
    → find_path (deep_set m k ps v) j qs ≡ find_path m j qs
unfolding find_path deep_set
find_path-deep_set-apart m k j [] qs v h =
    find_path-other (put m k v) m j qs (find-put_other m k j v (not_same (same k j) h))
find_path-deep_set-apart m k j (p ∷ ps) [] v h = find-put_other m k j _ (not_same (same k j) h)
find_path-deep_set-apart m k j (p ∷ ps) (q ∷ qs) v h =
    let w = object (deep_set (members_or_fresh (find m k)) p ps v) in
    elim (Bool-cases (same k j)) [
      | inl is ↦
          subst (λ t. find_path (put m k w) t (q ∷ qs) ≡ find_path m t (q ∷ qs)) (same-eq k j is)
            (ap (λ o. find_path (members_or_fresh o) q qs) (find-put m k w)
              ∙ find_path-deep_set-apart (members_or_fresh (find m k)) p q ps qs v
                  (apart_below (same k j) (apart p ps q qs) is h))
      | inr differs ↦ find_path-other (put m k w) m j (q ∷ qs) (find-put_other m k j w differs)
    ]
