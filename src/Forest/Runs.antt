-- ===== src/Forest/Runs.antt =====
-- Concrete runs of caches under one budget, and the theorems about them at concrete inputs.
use figwal.Common.{ℕ, ◌+◌, ◌-◌, ◌≤◌, ◌≡◌, ◌⊎◌, refl, arith, true, false, none, List, [], ◌∷◌, pos}
use figwal.Result.{Result, ok}
use figwal.Segment.Bytes.{Bytes}
use figwal.Forest.{
  Ref, Coord, Run, World, new_budget, put, charge, charge_loop, trim_idle, owners, coldest_owner,
  coldest_run, evict_owner, evict_coldest, hollow_first, at, insert,
}
use figwal.Forest.Meter.{Metered}
use figwal.Forest.Fits.{charge-Fits}
use figwal.Forest.Pins.{Owners, charge-Owners}
use figwal.Forest.Charges.{put-Metered, trim_idle-Metered}
use figwal.Forest.Lineage.{Tiles, holder, split, split-Tiles}
use figwal.Forest.Stretches.{stretch}
use figwal.Forest.Window.{
  update_run, find_run, slice, first_above, chunks, insert_coord, shifted, range_in_node, range,
  range_cuts, range_loop, materialize, coords_of,
}
use figwal.Forest.Exact.{range_in_node-Exact, Gives}

abbrev no_oracle : ℕ → Coord → ℕ
no_oracle id c = 0

abbrev ten : ℕ → ℕ
ten u = 10

abbrev itself : ℕ → ℕ
itself u = u

-- The node `a`, and its child `b`
abbrev node_a : Bytes
node_a = 97 ∷ []

abbrev node_b : Bytes
node_b = 98 ∷ []

abbrev content : Bytes → ℕ → List ℕ
content node k = k ∷ []

abbrev source : Coord → Result (List ℕ)
source c = ok (stretch content c.node c.from (c.to - c.from))

abbrev span : ℕ → ℕ → Coord
span from to = record { node = node_a; from = from; to = to }

-- A cache and another owner, with nothing in them, within 50 bytes
abbrev empty_world : World ℕ
empty_world = record {
  budget = new_budget 50;
  self = record { id = 0; runs = []; recomposes = 0 };
  others = record { id = 1; runs = []; recomposes = 0 } ∷ [];
}

-- The free capacity of the runs' slice when a range begins
abbrev no_room : World ℕ → Coord → ℕ
no_room w c = 0

abbrev one_more : World ℕ → Coord → ℕ
one_more w c = 1

-- A pinned run of 20 bytes, and a run of 20 bytes behind it
abbrev first_run : Run ℕ
first_run = record {
  coord = span 0 2;
  units = 1 ∷ 2 ∷ [];
  bytes = 20;
  epoch = 1;
  pinned = true;
  resident = true;
}

abbrev second_run : Run ℕ
second_run = record {
  coord = span 2 4;
  units = 3 ∷ 4 ∷ [];
  bytes = 20;
  epoch = 2;
  pinned = false;
  resident = true;
}

abbrev two_runs : World ℕ
two_runs = record {
  budget = record { limit = 50; bytes = 40; epoch = 2; evictions = 0 };
  self = record { id = 0; runs = first_run ∷ second_run ∷ []; recomposes = 0 };
  others = record { id = 1; runs = []; recomposes = 0 } ∷ [];
}

two_puts :
    put no_oracle ten
      (put no_oracle ten empty_world (span 0 2) (1 ∷ 2 ∷ []) true)
      (span 2 4)
      (3 ∷ 4 ∷ [])
      false
    ≡ two_runs
unfolding put charge charge_loop new_budget at insert
two_puts = refl

-- A third run of 20 bytes takes the place of the second.
evicts_second :
    (put no_oracle ten two_runs (span 4 6) (5 ∷ 6 ∷ []) false).budget
    ≡ record { limit = 50; bytes = 40; epoch = 3; evictions = 1 }
unfolding put charge charge_loop evict_owner evict_coldest coldest_owner coldest_run hollow_first at
    insert
evicts_second = refl

-- A range that no run holds is fetched in one chunk.
range_fetches :
    (range no_oracle ten itself source no_room empty_world
      (record { node = node_a; base = 0 } ∷ [])
      1
      4).out
    ≡ 2 ∷ 3 ∷ 4 ∷ []
unfolding range range_cuts range_in_node range_loop materialize split coords_of charge charge_loop
    insert new_budget
range_fetches = refl

put-Metered_example : Metered (put no_oracle ten two_runs (span 4 6) (5 ∷ 6 ∷ []) false)
put-Metered_example = put-Metered no_oracle ten two_runs (span 4 6) (5 ∷ 6 ∷ []) false refl

charge-Fits_example :
    ((charge no_oracle two_runs 20 0).budget.bytes ≤ 50)
    ⊎ (coldest_owner no_oracle (owners (charge no_oracle two_runs 20 0)) ≡ none)
charge-Fits_example =
    charge-Fits no_oracle two_runs 20 0 ((λ e. omega arith, (λ e. omega arith, tt)), (tt, tt))
      (omega arith)

charge-Owners_example : Owners (owners two_runs) (owners (charge no_oracle two_runs 20 0))
charge-Owners_example = charge-Owners no_oracle two_runs 20 0

trim_idle-Metered_example :
    Metered (trim_idle no_oracle two_runs (pos 0)).1
    × ((trim_idle no_oracle two_runs (pos 0)).1.budget.bytes
          + (trim_idle no_oracle two_runs (pos 0)).0.1
        ≡ 40)
trim_idle-Metered_example = trim_idle-Metered no_oracle two_runs (pos 0) refl

abbrev root_a : Ref
root_a = record { node = node_a; base = 0 }

abbrev child_b : Ref
child_b = record { node = node_b; base = 5 }

split_at_base :
    split (root_a ∷ child_b ∷ []) 1 8
    ≡ record { node = node_a; from = 1; to = 4 } ∷ record { node = node_b; from = 4; to = 8 } ∷ []
unfolding split
split_at_base = refl

split-Tiles_example : Tiles (holder (root_a ∷ child_b ∷ [])) 1 8 (split (root_a ∷ child_b ∷ []) 1 8)
split-Tiles_example = split-Tiles root_a (child_b ∷ []) 1 8 (omega arith)

-- Three runs with gaps between them
abbrev filled : ℕ → ℕ → Run ℕ
filled from to = record {
  coord = span from to;
  units = stretch content node_a from (to - from);
  bytes = 10;
  epoch = 1;
  pinned = false;
  resident = true;
}

abbrev apart_runs : World ℕ
apart_runs = record {
  budget = record { limit = 0; bytes = 30; epoch = 2; evictions = 0 };
  self = record { id = 0; runs = filled 0 2 ∷ filled 5 7 ∷ filled 9 10 ∷ []; recomposes = 0 };
  others = [];
}

-- The chunk for the first gap shifts the last run out of the slots of the loop, which then fetches
-- its units again with the gap in front of it.
fetches_again :
    coords_of node_a
      (range_in_node no_oracle ten itself source one_more apart_runs (span 1 10)).world.self.runs
    ≡ span 0 2 ∷ span 2 5 ∷ span 5 7 ∷ span 7 10 ∷ span 9 10 ∷ []
unfolding range_in_node range_loop materialize coords_of charge insert update_run find_run slice
    first_above chunks insert_coord shifted
fetches_again = refl

range_in_node-Exact_example :
    Gives content
      (stretch content node_a 1 9)
      (range_in_node no_oracle ten itself source one_more apart_runs (span 1 10))
unfolding coords_of
range_in_node-Exact_example =
    range_in_node-Exact content no_oracle ten itself source (λ node k. (refl, tt)) (λ c. refl)
      one_more apart_runs (span 1 10) (omega arith)
      (
        refl,
        omega arith,
        omega arith,
        (refl, omega arith, omega arith, (refl, omega arith, omega arith, refl)),
      )
      (λ e. refl, (λ e. refl, (λ e. refl, tt)))
