-- ===== src/Disk/Fork/Runs.antt =====
-- A fork of the log of Disk/Runs.antt inside its first segment, and the guards of forks.
use figwal.Common.{◌≡◌, refl, true, false, none, some, List, [], ◌∷◌}
use figwal.Result.{ok, fork_conflict, invalid_fork_name, other}
use figwal.Segment.Bytes.{Bytes, put_uint32}
use figwal.Segment.Binary.{binary_codec, frame}
use figwal.Segment.Binary.Laws.{binary-CodecLaws}
use figwal.Segment.State.{append, create, extend_block}
use figwal.Disk.State.{
  is_empty, write, expected_index, open_active, append_to, last_index_own, rotate, first_index_own,
  wrap_open,
}
use figwal.Disk.Runs.{unfolded, log3, log3-Owns, first_payload, second_payload, third_payload}
use figwal.Disk.Fork.{Forked, fork, fork_refusal, valid_fork_name, any_visible}
use figwal.Disk.Fork.Outcomes.{Outcome, Forks, plain_titles, fork-Outcome, fork-Forks}

-- b
abbrev child_name : Bytes
child_name = 98 ∷ []

-- a
abbrev own_name : Bytes
own_name = 97 ∷ []

abbrev one_child : List Bytes
one_child = (99 ∷ []) ∷ []

fork-Outcome_example :
    Outcome binary_codec binary-CodecLaws true unfolded own_name one_child 2 1
      (first_payload ∷ second_payload ∷ third_payload ∷ [])
      (fork binary_codec true unfolded own_name one_child one_child log3 [] 2 child_name [] none)
unfolding fork_refusal valid_fork_name is_empty write expected_index open_active append_to append
    create frame put_uint32 extend_block last_index_own rotate first_index_own wrap_open
fork-Outcome_example =
    fork-Outcome binary_codec binary-CodecLaws true unfolded own_name one_child one_child log3 [] 2
      1 (first_payload ∷ second_payload ∷ third_payload ∷ []) child_name [] none log3-Owns
      (plain_titles binary_codec binary-CodecLaws true log3) tt refl

fork-Forks_example :
    (f : Forked) × ((fork binary_codec true none own_name one_child one_child log3 [] 2 child_name
        [] none).0
      ≡ ok f)
    × Forks binary_codec binary-CodecLaws true none 2 1
        (first_payload ∷ second_payload ∷ third_payload ∷ [])
        f
        (fork binary_codec true none own_name one_child one_child log3 [] 2 child_name [] none).1
unfolding fork_refusal valid_fork_name is_empty write expected_index open_active append_to append
    create frame put_uint32 extend_block last_index_own rotate first_index_own wrap_open
fork-Forks_example =
    fork-Forks binary_codec binary-CodecLaws true own_name one_child one_child log3 [] 2 1
      (first_payload ∷ second_payload ∷ third_payload ∷ []) child_name [] none log3-Owns refl refl

guards :
    (fork_refusal own_name one_child log3 1 child_name [] ≡ some other)
    × (fork_refusal own_name one_child log3 4 child_name [] ≡ none)
    × (fork_refusal own_name one_child log3 5 child_name [] ≡ some other)
    × (fork_refusal own_name one_child log3 2 own_name [] ≡ some fork_conflict)
    × (fork_refusal own_name one_child log3 2 (99 ∷ []) [] ≡ some fork_conflict)
    × (fork_refusal own_name one_child log3 2 (46 ∷ 46 ∷ []) [] ≡ some invalid_fork_name)
unfolding fork_refusal valid_fork_name is_empty write expected_index open_active append_to append
    create frame put_uint32 extend_block last_index_own rotate first_index_own wrap_open
guards = (refl, refl, refl, refl, refl, refl)

-- A child whose name begins with a dot is valid, but no visible subdirectory.
hidden_child :
    (valid_fork_name (46 ∷ 98 ∷ []) ≡ true) × (any_visible [] ((46 ∷ 98 ∷ []) ∷ []) ≡ false)
unfolding valid_fork_name
hidden_child = (refl, refl)
