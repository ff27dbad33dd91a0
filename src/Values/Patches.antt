-- ===== src/Values/Patches.antt =====
-- What a patch does to a state: the fold of its sets, then of its removals.
use figwal.Common.{◌≡◌, refl, sym, ap, ◌∙◌, Bool, true, false, none, some, List, [], ◌∷◌, ◌++◌}
use figwal.Result.{ok, err, other, ◌>>=◌, ok_of_bind, ok_injective}
use figwal.Segment.Bytes.{Bytes}
use figwal.Values.{
  Value, Members, MapPatch, deep_set, deep_remove, find_path, apply_sets, apply_removes, reduce_map,
}
use figwal.Values.Paths.{find_path-deep_set}
use figwal.Values.Removal.{find_path-deep_remove, deep_remove-keeps_gone}

apply_removes-keeps_gone :
    (m : Members) (removes : List (List Bytes)) (k : Bytes) (path : List Bytes)
    → find_path m k path ≡ none
    → find_path (apply_removes m removes) k path ≡ none
unfolding apply_removes
apply_removes-keeps_gone m [] k path h = h
apply_removes-keeps_gone m ([] ∷ removes) k path h = apply_removes-keeps_gone m removes k path h
apply_removes-keeps_gone m ((j ∷ ps) ∷ removes) k path h =
    apply_removes-keeps_gone (deep_remove m j ps) removes k path
      (deep_remove-keeps_gone m j k ps path h)

apply_removes-gone :
    (m : Members) (before after : List (List Bytes)) (k : Bytes) (path : List Bytes)
    → find_path (apply_removes m (before ++ ((k ∷ path) ∷ after))) k path ≡ none
unfolding apply_removes
apply_removes-gone m [] after k path =
    apply_removes-keeps_gone (deep_remove m k path) after k path (find_path-deep_remove m k path)
apply_removes-gone m ([] ∷ before) after k path = apply_removes-gone m before after k path
apply_removes-gone m ((j ∷ ps) ∷ before) after k path =
    apply_removes-gone (deep_remove m j ps) before after k path

-- Where a patch applies, none of the paths that it removes is in the new state, even those that it
-- also sets.
pub reduce_map-removes :
    (m n : Members) (sets : List (List Bytes × Value)) (before after : List (List Bytes))
    (k : Bytes) (path : List Bytes)
    → reduce_map m (record { set = sets; remove = before ++ ((k ∷ path) ∷ after) }) ≡ ok n
    → find_path n k path ≡ none
unfolding reduce_map
reduce_map-removes m n sets before after k path e =
    let (m', applied, done) = ok_of_bind (apply_sets m sets) _ e in
    ap (λ t. find_path t k path) (sym (ok_injective _ n done))
    ∙ apply_removes-gone m' before after k path

apply_sets-last :
    (m : Members) (sets : List (List Bytes × Value)) (k : Bytes) (path : List Bytes) (v : Value)
    → apply_sets m (sets ++ ((k ∷ path, v) ∷ []))
      ≡ (apply_sets m sets >>= λ n. ok (deep_set n k path v))
unfolding apply_sets
apply_sets-last m [] k path v = refl
apply_sets-last m (([], w) ∷ sets) k path v = refl
apply_sets-last m ((j ∷ ps, w) ∷ sets) k path v = apply_sets-last (deep_set m j ps w) sets k path v

-- Where a patch without removals applies, the last value that it sets is found at its path.
pub reduce_map-sets :
    (m n : Members) (sets : List (List Bytes × Value)) (k : Bytes) (path : List Bytes) (v : Value)
    → reduce_map m (record { set = sets ++ ((k ∷ path, v) ∷ []); remove = [] }) ≡ ok n
    → find_path n k path ≡ some v
unfolding reduce_map apply_removes
reduce_map-sets m n sets k path v e =
    let (m1, applied, done) = ok_of_bind (apply_sets m (sets ++ ((k ∷ path, v) ∷ []))) _ e in
    let (m2, before, set) =
      ok_of_bind (apply_sets m sets) _ (sym (apply_sets-last m sets k path v) ∙ applied) in
    ap (λ t. find_path t k path) (sym (ok_injective _ m1 set ∙ ok_injective m1 n done))
    ∙ find_path-deep_set m2 k path v

abbrev pub sets_nowhere : List (List Bytes × Value) → Bool
sets_nowhere [] = false
sets_nowhere (([], v) ∷ sets) = true
sets_nowhere ((k ∷ path, v) ∷ sets) = sets_nowhere sets

apply_sets-outcome :
    (m : Members) (sets : List (List Bytes × Value))
    → (sets_nowhere sets ≡ true → apply_sets m sets ≡ err other)
      × (sets_nowhere sets ≡ false → (n : Members) × (apply_sets m sets ≡ ok n))
unfolding apply_sets
apply_sets-outcome m [] = (λ h. cc, λ h. (m, refl))
apply_sets-outcome m (([], v) ∷ sets) = (λ h. refl, λ h. cc)
apply_sets-outcome m ((k ∷ path, v) ∷ sets) = apply_sets-outcome (deep_set m k path v) sets

-- A patch fails where one of its sets has an empty path, and applies otherwise.
pub reduce_map-outcome :
    (m : Members) (p : MapPatch)
    → (sets_nowhere p.set ≡ true → reduce_map m p ≡ err other)
      × (sets_nowhere p.set ≡ false → (n : Members) × (reduce_map m p ≡ ok n))
unfolding reduce_map
reduce_map-outcome m p =
    let (fails, applies) = apply_sets-outcome m p.set in
    (λ h. rw (fails h) refl, λ h. let (n, e) = applies h in (apply_removes n p.remove, rw e refl))
