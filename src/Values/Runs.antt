-- ===== src/Values/Runs.antt =====
-- The state {"a":{"b":1}} and patches of it.
use figwal.Common.{◌≡◌, refl, none, some, [], ◌∷◌}
use figwal.Result.{ok}
use figwal.Segment.Bytes.{Bytes}
use figwal.Values.{
  Value, leaf, object, Members, nothing, member, MapPatch, deep_set, deep_remove, find_path,
  apply_sets, apply_removes, reduce_map,
}
use figwal.Values.Patches.{reduce_map-removes, reduce_map-sets}

abbrev name_a : Bytes
name_a = 97 ∷ []

abbrev name_b : Bytes
name_b = 98 ∷ []

abbrev name_c : Bytes
name_c = 99 ∷ []

abbrev text : Value
text = leaf (49 ∷ [])

abbrev nested : Members
nested = member name_a (object (member name_b text nothing)) nothing

abbrev set_and_removed : MapPatch
set_and_removed = record {
  set = (name_a ∷ name_c ∷ [], text) ∷ [];
  remove = [] ∷ (name_a ∷ name_c ∷ []) ∷ [];
}

abbrev set_only : MapPatch
set_only = record { set = (name_a ∷ name_c ∷ [], text) ∷ []; remove = [] }

-- {"a":{"b":1,"c":1}}
set_only_run :
    reduce_map nested set_only
    ≡ ok (member name_a (object (member name_b text (member name_c text nothing))) nothing)
unfolding reduce_map apply_sets apply_removes deep_set
set_only_run = refl

reduce_map-removes_example : find_path nested name_a (name_c ∷ []) ≡ none
unfolding reduce_map apply_sets apply_removes deep_set deep_remove
reduce_map-removes_example =
    reduce_map-removes nested nested ((name_a ∷ name_c ∷ [], text) ∷ []) ([] ∷ []) [] name_a
      (name_c ∷ []) refl

reduce_map-sets_example :
    find_path
      (member name_a (object (member name_b text (member name_c text nothing))) nothing)
      name_a
      (name_c ∷ [])
    ≡ some text
unfolding reduce_map apply_sets apply_removes deep_set
reduce_map-sets_example = reduce_map-sets nested _ [] name_a (name_c ∷ []) text refl
