-- ===== src/Values/Removal.antt =====
-- What the removal of a path does to that path and to the others.
use mathlib.Core.Path.{subst}
use figwal.Common.{
  ◌≡◌, refl, sym, ap, ◌∙◌, true, false, Bool-cases, inl, inr, Option, none, some, List, [], ◌∷◌,
}
use figwal.Segment.Bytes.{Bytes}
use figwal.Values.{
  Value, Members, leaf, object, same, find, delete, members_or_fresh, put_back, deep_remove,
  find_path,
}
use figwal.Values.Paths.{
  same-eq, find-put, find-put_other, find-delete, find-delete_other, find_path-other,
  find_path-nothing, not_same, apart, apart_below,
}

find-put_back_other :
    (m d : Members) (k j : Bytes) (o : Option Value)
    → same k j ≡ false
    → find (put_back m k o d) j ≡ find m j
find-put_back_other m d k j none h = refl
find-put_back_other m d k j (some (leaf t)) h = refl
find-put_back_other m d k j (some (object n)) h = find-put_other m k j (object d) h

-- Below `k` the members put back are seen as the old ones were, if they agree on the path.
put_back-below :
    (m d : Members) (k q : Bytes) (qs : List Bytes) (o : Option Value)
    → find m k ≡ o
    → find_path d q qs ≡ find_path (members_or_fresh o) q qs
    → find_path (put_back m k o d) k (q ∷ qs) ≡ find_path m k (q ∷ qs)
unfolding find_path
put_back-below m d k q qs none e h = refl
put_back-below m d k q qs (some (leaf t)) e h = refl
put_back-below m d k q qs (some (object n)) e h =
    ap (λ o. find_path (members_or_fresh o) q qs) (find-put m k (object d))
    ∙ h
    ∙ ap (λ o. find_path (members_or_fresh o) q qs) (sym e)

put_back-gone :
    (m d : Members) (k q : Bytes) (qs : List Bytes) (o : Option Value)
    → find m k ≡ o
    → find_path d q qs ≡ none
    → find_path (put_back m k o d) k (q ∷ qs) ≡ none
unfolding find_path
put_back-gone m d k q qs none e h =
    ap (λ o. find_path (members_or_fresh o) q qs) e ∙ find_path-nothing q qs
put_back-gone m d k q qs (some (leaf t)) e h =
    ap (λ o. find_path (members_or_fresh o) q qs) e ∙ find_path-nothing q qs
put_back-gone m d k q qs (some (object n)) e h =
    ap (λ o. find_path (members_or_fresh o) q qs) (find-put m k (object d)) ∙ h

put_back-none :
    (m d : Members) (k : Bytes) (o : Option Value)
    → find m k ≡ o
    → find m k ≡ none
    → find (put_back m k o d) k ≡ none
put_back-none m d k none e h = h
put_back-none m d k (some v) e h = cc

-- A removed path is gone.
pub find_path-deep_remove :
    (m : Members) (k : Bytes) (path : List Bytes) → find_path (deep_remove m k path) k path ≡ none
unfolding deep_remove find_path
find_path-deep_remove m k [] = find-delete m k
find_path-deep_remove m k (j ∷ path) =
    put_back-gone m (deep_remove (members_or_fresh (find m k)) j path) k j path (find m k) refl
      (find_path-deep_remove (members_or_fresh (find m k)) j path)

-- A removal leaves every path alone that does not lead through the path removed, nor this
-- through it.
pub find_path-deep_remove-apart :
    (m : Members) (k j : Bytes) (ps qs : List Bytes)
    → apart k ps j qs ≡ true
    → find_path (deep_remove m k ps) j qs ≡ find_path m j qs
unfolding deep_remove
find_path-deep_remove-apart m k j [] qs h =
    find_path-other (delete m k) m j qs (find-delete_other m k j (not_same (same k j) h))
find_path-deep_remove-apart m k j (p ∷ ps) [] h =
    find_path-other _ m j [] (find-put_back_other m _ k j (find m k) (not_same (same k j) h))
find_path-deep_remove-apart m k j (p ∷ ps) (q ∷ qs) h =
    let below = members_or_fresh (find m k) in
    let d = deep_remove below p ps in
    elim (Bool-cases (same k j)) [
      | inl is ↦
          subst (λ t. find_path (put_back m k (find m k) d) t (q ∷ qs) ≡ find_path m t (q ∷ qs))
            (same-eq k j is)
            (put_back-below m d k q qs (find m k) refl (
              find_path-deep_remove-apart below p q ps qs
                (apart_below (same k j) (apart p ps q qs) is h)))
      | inr differs ↦
          find_path-other _ m j (q ∷ qs) (find-put_back_other m d k j (find m k) differs)
    ]

-- A path stays gone if it does at the same first name, and other names see no change.
by_name :
    (m n : Members) (k j : Bytes) (qs : List Bytes)
    → (same k j ≡ false → find n j ≡ find m j)
    → (find_path m k qs ≡ none → find_path n k qs ≡ none)
    → find_path m j qs ≡ none
    → find_path n j qs ≡ none
by_name m n k j qs other here h = elim (Bool-cases (same k j)) [
  | inl is ↦
      let e = same-eq k j is in
      subst (λ t. find_path n t qs ≡ none) e (here (subst (λ t. find_path m t qs ≡ none) (sym e) h))
  | inr differs ↦ find_path-other n m j qs (other differs) ∙ h
]

-- A removal brings no path back.
pub deep_remove-keeps_gone :
    (m : Members) (k j : Bytes) (ps qs : List Bytes)
    → find_path m j qs ≡ none
    → find_path (deep_remove m k ps) j qs ≡ none
unfolding deep_remove find_path
deep_remove-keeps_gone m k j [] [] h =
    by_name m (delete m k) k j [] (find-delete_other m k j) (λ _. find-delete m k) h
deep_remove-keeps_gone m k j [] (q ∷ qs) h =
    by_name m (delete m k) k j (q ∷ qs) (find-delete_other m k j)
      (λ _.
        ap (λ o. find_path (members_or_fresh o) q qs) (find-delete m k) ∙ find_path-nothing q qs)
      h
deep_remove-keeps_gone m k j (p ∷ ps) [] h =
    by_name m _ k j [] (find-put_back_other m _ k j (find m k))
      (put_back-none m _ k (find m k) refl) h
deep_remove-keeps_gone m k j (p ∷ ps) (q ∷ qs) h =
    let below = members_or_fresh (find m k) in
    by_name m _ k j (q ∷ qs) (find-put_back_other m _ k j (find m k))
      (λ gone.
        put_back-gone m (deep_remove below p ps) k q qs (find m k) refl
          (deep_remove-keeps_gone below p q ps qs gone))
      h
