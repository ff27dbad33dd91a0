-- ===== src/Xwal/Index/Runs.antt =====
-- A store without nodes, a stump, a fork of it and a fork that stops before its marker.
use figwal.Common.{◌≡◌, refl, arith, true, false, none, [], ◌∷◌}
use figwal.Result.{ok}
use figwal.Segment.Bytes.{Bytes}
use figwal.Disk.Fork.{valid_fork_name}
use figwal.Xwal.Markers.{num_suffix, atoi, digits_value, itoa_loop}
use figwal.Xwal.Index.{
  Tree, World, new_index, no_fault, before_marker, add_dirs, scan, rebuild_from, spawn_flat,
  mint_node, mint_trunk, fork_named, fork_flat, create_stump, conversation,
}
use figwal.Xwal.Index.Histories.{
  Mirrored, Rebuilds, Reaches, stays, calls, fork_call, stump_call, perform, rebuild_from-Mirrors,
  reached-Rebuilds,
}
use figwal.Xwal.Index.Spawns.{Spawned, fork_flat-Spawned}

abbrev no_nodes : Tree
no_nodes = record { root_marker = none; dirs = [] }

abbrev root_only : World
root_only = record { tree = no_nodes; index = (rebuild_from false no_nodes new_index).1 }

-- S
abbrev a_stump : Bytes
a_stump = 83 ∷ []

abbrev forked_world : World
forked_world = perform false (fork_call before_marker none true a_stump (conversation false)) (
    perform false (fork_call no_fault none true a_stump (conversation false))
      (perform false (stump_call no_fault a_stump) root_only))

root_rebuilds : rebuild_from false no_nodes new_index ≡ (ok tt, root_only.index)
unfolding rebuild_from scan add_dirs num_suffix
root_rebuilds = refl

forked_reached : Reaches false root_only forked_world
unfolding rebuild_from scan add_dirs num_suffix create_stump valid_fork_name fork_named spawn_flat
    fork_flat mint_node mint_trunk itoa_loop atoi digits_value
forked_reached =
    calls (fork_call before_marker none true a_stump (conversation false))
      (calls (fork_call no_fault none true a_stump (conversation false))
        (calls (stump_call no_fault a_stump) stays (omega arith, tt))
        (omega arith, omega arith, refl, refl))
      (omega arith, omega arith, refl, refl)

reached-Rebuilds_example : Rebuilds false forked_world
reached-Rebuilds_example =
    reached-Rebuilds false no_nodes new_index root_only.index forked_world root_rebuilds
      forked_reached

root_mirrors : Mirrored false root_only
root_mirrors = rebuild_from-Mirrors false no_nodes new_index root_only.index root_rebuilds

fork_flat-Spawned_example :
    Spawned []
      (conversation false)
      root_only
      (fork_flat false no_fault none true [] (conversation false) root_only)
unfolding rebuild_from scan add_dirs num_suffix
fork_flat-Spawned_example =
    fork_flat-Spawned false none [] (conversation false) root_only root_mirrors (omega arith)
      (omega arith) (λ e. cc)
