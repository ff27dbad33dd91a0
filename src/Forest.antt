-- ===== src/Forest.antt =====
-- The package `forest` (forest/forest.go, forest/cache.go): windows of materialized units that
-- share one byte budget. `self` is the cache that a method is called on, `others` the other owners
-- of its budget, in the order in which the loops over the owners meet them. A nil budget is not
-- modelled. A node's name is its bytes. The units are of one type; `recency` is the hook `Recency`
-- of each cache by its number, 0 where it is nil. The hook `Evicted` is called with a coord only.
pub mod Meter
pub mod Fits
pub mod Pins
pub mod Charges
pub mod Keeps
pub mod Exact
pub mod Lineage
pub mod Window
pub mod Shifts
pub mod Slices
pub mod Stretches
pub mod Runs
use figwal.Common.{
  ℕ, zero, suc, ◌+◌, ◌-◌, ◌*◌, max, Bool, true, false, not, ◌&&◌, Option, none, some, List, [], ◌∷◌,
  ◌++◌, ltb, leb, ◌==◌, if◌then◌else◌, length, get_elem?, take, drop, ℤ, pos, negsuc,
}
use figwal.Segment.Bytes.{Bytes}
use figwal.Values.{same}

pub record Ref : Type 0 where
  pub node : Bytes
  pub base : ℕ

-- A range of units in one node, without `from` and with `to`
pub record Coord : Type 0 where
  pub node : Bytes
  pub from : ℕ
  pub to : ℕ

pub record Run (U : Type 0) : Type 0 where
  pub coord : Coord
  pub units : List U
  pub bytes : ℕ
  pub epoch : ℕ
  pub pinned : Bool
  pub resident : Bool

-- `runs`: all runs of all nodes. A node's list is that of the runs with its name, in this order.
pub record Cache (U : Type 0) : Type 0 where
  pub id : ℕ
  pub runs : List (Run U)
  pub recomposes : ℕ

pub record Budget : Type 0 where
  pub limit : ℕ
  pub bytes : ℕ
  pub epoch : ℕ
  pub evictions : ℕ

pub record World (U : Type 0) : Type 0 where
  pub budget : Budget
  pub self : Cache U
  pub others : List (Cache U)

-- NewBudget
unfoldable pub new_budget : ℕ → Budget
new_budget limit = record { limit = limit; bytes = 0; epoch = 0; evictions = 0 }

abbrev pub same_coord : Coord → Coord → Bool
same_coord a b = same a.node b.node && (a.from == b.from && a.to == b.to)

abbrev pub colder : ℕ → Option ℕ → Option ℕ
colder e none = some e
colder e (some best) = some (if ltb best e then best else e)

abbrev pub coldest_of : Option ℕ → Option ℕ → Option ℕ
coldest_of none o = o
coldest_of (some e) o = colder e o

abbrev pub has_epoch : ℕ → Option ℕ → Bool
has_epoch e none = false
has_epoch e (some best) = best == e

-- The budget behind an eviction that freed `f` bytes
abbrev pub paid_back : Budget → ℕ → Budget
paid_back b f = record b { bytes = b.bytes - f; evictions = b.evictions + 1 }

-- What TrimIdle sweeps below. A cutoff below 0 spares every run, as one of 0 does.
abbrev pub cutoff_of : ℕ → ℤ → ℕ
cutoff_of epoch (pos keep) = epoch - keep
cutoff_of epoch (negsuc k) = epoch + k + 1

module _ {U : Type 0} where
  abbrev pub evictable : Run U → Bool
  evictable r = r.resident && not r.pinned

  abbrev pub hollowed : Run U → Run U
  hollowed r = record r { units = []; resident = false }

  abbrev pub with_owners : World U → Budget → List (Cache U) → World U
  with_owners w b [] = w
  with_owners w b (c ∷ cs) = record { budget = b; self = c; others = cs }

  abbrev pub owners : World U → List (Cache U)
  owners w = w.self ∷ w.others

  abbrev pub evictables : List (Run U) → ℕ
  evictables [] = 0
  evictables (r ∷ rest) = (if evictable r then 1 else 0) + evictables rest

  abbrev pub evictables_of : List (Cache U) → ℕ
  evictables_of [] = 0
  evictables_of (c ∷ cs) = evictables c.runs + evictables_of cs

  module _ (recency : ℕ → Coord → ℕ) where
    abbrev pub eff_epoch : ℕ → Run U → ℕ
    eff_epoch id r = max r.epoch (recency id r.coord)

    -- `coldest`, over the runs from one on
    unfoldable pub coldest_run : ℕ → List (Run U) → Option ℕ
    coldest_run id [] = none
    coldest_run id (r ∷ rest) =
        let later = coldest_run id rest in
        if evictable r then colder (eff_epoch id r) later else later

    -- The first evictable run of the epoch `e` is hollowed: what that frees, and the runs then.
    unfoldable pub hollow_first : ℕ → ℕ → List (Run U) → ℕ × List (Run U)
    hollow_first id e [] = (0, [])
    hollow_first id e (r ∷ rest) =
        let later = hollow_first id e rest in
        if evictable r && eff_epoch id r == e
        then (r.bytes, hollowed r ∷ rest)
        else (later.0, r ∷ later.1)

    abbrev pub coldest : Cache U → Option ℕ
    coldest c = coldest_run c.id c.runs

    abbrev pub evict_at : Cache U → Option ℕ → ℕ × Cache U
    evict_at c none = (0, c)
    evict_at c (some e) = let r = hollow_first c.id e c.runs in (r.0, record c { runs = r.1 })

    -- evictColdest
    unfoldable pub evict_coldest : Cache U → ℕ × Cache U
    evict_coldest c = evict_at c (coldest c)

    -- The epoch of the victim that the loop over the owners ends with
    unfoldable pub coldest_owner : List (Cache U) → Option ℕ
    coldest_owner [] = none
    coldest_owner (c ∷ cs) = coldest_of (coldest c) (coldest_owner cs)

    -- The victim is the first owner whose coldest run has that epoch.
    unfoldable pub evict_owner : ℕ → List (Cache U) → ℕ × List (Cache U)
    evict_owner e [] = (0, [])
    evict_owner e (c ∷ cs) =
        let later = evict_owner e cs in
        let here = evict_coldest c in
        if has_epoch e (coldest c) then (here.0, here.1 ∷ cs) else (later.0, c ∷ later.1)

    -- The loop of charge: `fuel` bounds the rounds.
    unfoldable pub charge_loop : ℕ → World U → World U
    charge_loop zero w = w
    charge_loop (suc fuel) w =
        let again = λ (f : ℕ) (cs : List (Cache U)).
          charge_loop fuel (with_owners w (paid_back w.budget f) cs) in
        if ltb w.budget.limit w.budget.bytes
        then (elim (coldest_owner (owners w)) [
          | none ↦ w
          | some e ↦
              let r = evict_owner e (owners w) in
              if ltb 0 r.0 then again r.0 r.1 else with_owners w w.budget r.1
        ])
        else w

    -- charge, of `added - removed` bytes
    unfoldable pub charge : World U → ℕ → ℕ → World U
    charge w added removed =
        let b = record w.budget { bytes = w.budget.bytes + added - removed } in
        let w' = record w { budget = b } in
        if b.limit == 0 then w' else charge_loop (evictables_of (owners w')) w'

    -- A round of TrimIdle's loop on one owner, whose coldest run has the epoch given: `r` is what an
    -- eviction does, `more` what the rounds behind it do.
    abbrev pub trim_round : ℕ → Cache U → Option ℕ → ℕ × Cache U → ℕ × ℕ × Cache U → ℕ × ℕ × Cache U
    trim_round cutoff c none r more = (0, 0, c)
    trim_round cutoff c (some e) r more =
        if leb cutoff e
        then (0, 0, c)
        else if ltb 0 r.0
        then (more.0 + 1, more.1 + r.0, more.2)
        else (0, 0, r.1)

    -- The runs dropped, the bytes freed, and the owner then
    unfoldable pub trim_loop : ℕ → ℕ → Cache U → ℕ × ℕ × Cache U
    trim_loop zero cutoff c = (0, 0, c)
    trim_loop (suc fuel) cutoff c =
        let r = evict_coldest c in trim_round cutoff c (coldest c) r (trim_loop fuel cutoff r.1)

    abbrev pub trim_owner : ℕ → Cache U → ℕ × ℕ × Cache U
    trim_owner cutoff c = trim_loop (evictables c.runs) cutoff c

    unfoldable pub trim_owners : ℕ → List (Cache U) → ℕ × ℕ × List (Cache U)
    trim_owners cutoff [] = (0, 0, [])
    trim_owners cutoff (c ∷ cs) =
        let here = trim_owner cutoff c in
        let later = trim_owners cutoff cs in (here.0 + later.0, here.1 + later.1, here.2 ∷ later.2)

    -- TrimIdle
    unfoldable pub trim_idle : World U → ℤ → (ℕ × ℕ) × World U
    trim_idle w keep =
        let r = trim_owners (cutoff_of w.budget.epoch keep) (owners w) in
        (
          (r.0, r.1),
          with_owners w
              (record w.budget {
                epoch = w.budget.epoch + 1;
                bytes = w.budget.bytes - r.1;
                evictions = w.budget.evictions + r.0;
              })
              r.2,
        )

  abbrev pub resident_bytes : List (Run U) → ℕ
  resident_bytes [] = 0
  resident_bytes (r ∷ rest) = (if r.resident then r.bytes else 0) + resident_bytes rest

  -- Close: the budget behind it; the cache is then gone.
  unfoldable pub close : World U → Budget
  close w = record w.budget { bytes = w.budget.bytes - resident_bytes w.self.runs }

  -- `at`: the first run of the node that starts at the coord's start or later, if it is the coord's.
  unfoldable pub at : Coord → List (Run U) → Option (Run U)
  at coord [] = none
  at coord (r ∷ rest) =
      let later = at coord rest in
      if same r.coord.node coord.node && leb coord.from r.coord.from
      then (if same_coord r.coord coord then some r else none)
      else later

  -- `*old = *r`, on the run that `at` finds
  unfoldable pub replace : Coord → Run U → List (Run U) → List (Run U)
  replace coord new [] = []
  replace coord new (r ∷ rest) =
      let later = replace coord new rest in
      if same r.coord.node coord.node && leb coord.from r.coord.from
      then (if same_coord r.coord coord then new ∷ rest else r ∷ rest)
      else r ∷ later

  unfoldable pub insert : Run U → List (Run U) → List (Run U)
  insert r [] = r ∷ []
  insert r (x ∷ rest) =
      let later = insert r rest in
      if same x.coord.node r.coord.node && leb r.coord.from x.coord.from
      then r ∷ x ∷ rest
      else x ∷ later

  abbrev pub resident_part : Run U → ℕ
  resident_part r = if r.resident then r.bytes else 0

  -- Drop
  abbrev pub dropped : World U → Coord → Option (Run U) → World U
  dropped w coord none = w
  dropped w coord (some r) =
      if r.resident
      then record w {
        self = record w.self {
          runs =
              replace coord (record r { units = []; resident = false; pinned = false }) w.self.runs;
        };
        budget = record w.budget { bytes = w.budget.bytes - r.bytes };
      }
      else w

  unfoldable pub drop_run : World U → Coord → World U
  drop_run w coord = dropped w coord (at coord w.self.runs)

  module _ (recency : ℕ → Coord → ℕ) (size : U → ℕ) where
    abbrev pub sizes : List U → ℕ
    sizes [] = 0
    sizes (u ∷ us) = size u + sizes us

    -- `bump`, and the run in the cache's node
    abbrev pub put_at : World U → Run U → Option (Run U) → World U
    put_at w r none =
        charge recency (record w { self = record w.self { runs = insert r w.self.runs } }) r.bytes 0
    put_at w r (some old) =
        charge recency (record w { self = record w.self { runs = replace r.coord r w.self.runs } })
          r.bytes (resident_part old)

    abbrev pub bumped : World U → World U
    bumped w = record w { budget = record w.budget { epoch = w.budget.epoch + 1 } }

    -- Put
    unfoldable pub put : World U → Coord → List U → Bool → World U
    put w coord units pinned =
        let r : Run U = record {
          coord = coord;
          units = units;
          bytes = sizes units;
          epoch = w.budget.epoch + 1;
          pinned = pinned;
          resident = true;
        } in
        put_at (bumped w) r (at coord w.self.runs)
