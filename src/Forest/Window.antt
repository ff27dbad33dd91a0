-- ===== src/Forest/Window.antt =====
-- Range of forest/cache.go and what it calls. The loop over a node's runs reads the slots that its
-- slice had when it began. An insertion of `materializeLocked` shifts those slots while the backing
-- array has room, and goes to a new array from then on. A run is found again by its coord, since a
-- charge on the way may hollow it.
use figwal.Common.{
  ℕ, zero, suc, ◌+◌, max, true, false, ◌||◌, Option, none, some, List, [], ◌∷◌, ◌++◌, ltb, leb,
  if◌then◌else◌, take, drop, ◌-◌, length, get_elem?,
}
use figwal.Result.{Error, Result, ok, err, other}
use figwal.Segment.Bytes.{Bytes}
use figwal.Values.{same}
use figwal.Forest.{Coord, Ref, Run, World, same_coord, insert, sizes, bumped, charge}
use figwal.Forest.Lineage.{split}

abbrev pub run_chunk : ℕ
run_chunk = 64

abbrev pub at_most : ℕ → ℕ → ℕ
at_most hi to = if ltb to hi then to else hi

-- The coords that materializeLocked inserts for a gap
unfoldable pub chunks : ℕ → Bytes → ℕ → ℕ → List Coord
chunks zero node lo to = []
chunks (suc fuel) node lo to =
    let hi = at_most (lo + run_chunk) to in
    let rest = chunks fuel node hi to in
    if ltb lo to then record { node = node; from = lo; to = hi } ∷ rest else []

-- `insert`, on the coords of a node's runs
unfoldable pub insert_coord : Coord → List Coord → List Coord
insert_coord c [] = c ∷ []
insert_coord c (d ∷ ds) =
    let later = insert_coord c ds in if leb c.from d.from then c ∷ d ∷ ds else d ∷ later

-- The slots of a window behind insertions into a slice whose array has room for so many
unfoldable pub shifted : ℕ → List Coord → List Coord → List Coord
shifted zero cs window = window
shifted (suc free) [] window = window
shifted (suc free) (c ∷ cs) window = shifted free cs (take (length window) (insert_coord c window))

module _ {U : Type 0} (key : U → ℕ) where
  -- The first position whose key is past `k`, which the binary search of sorted units finds
  unfoldable pub first_above : ℕ → List U → ℕ
  first_above k [] = 0
  first_above k (u ∷ us) = let later = first_above k us in if ltb k (key u) then 0 else suc later

  abbrev pub between : List U → ℕ → ℕ → Option (List U)
  between us lo hi = if ltb hi lo then none else some (take (hi - lo) (drop lo us))

  -- `slice`, of the units of a resident run; `none` is the panic on bounds in the wrong order.
  unfoldable pub slice : List U → ℕ → ℕ → Option (List U)
  slice us from to = between us (first_above from us) (first_above to us)

  -- The first loop of sliceUnits leaves the units from `lo` on.
  unfoldable pub skip_to : ℕ → List U → List U
  skip_to from [] = []
  skip_to from (u ∷ us) = let later = skip_to from us in if leb (key u) from then later else u ∷ us

  -- The second loop of sliceUnits takes the units up to `hi`.
  unfoldable pub up_to : ℕ → List U → List U
  up_to to [] = []
  up_to to (u ∷ us) = let later = up_to to us in if leb (key u) to then u ∷ later else []

  unfoldable pub slice_units : List U → ℕ → ℕ → List U
  slice_units us from to = up_to to (skip_to from us)

-- Units, the error where the source fails, and the world then.
pub record Served (U : Type 0) : Type 0 where
  pub out : List U
  pub error : Option Error
  pub world : World U

module _ {U : Type 0} where
  unfoldable pub find_run : Coord → List (Run U) → Option (Run U)
  find_run coord [] = none
  find_run coord (r ∷ rest) =
      let later = find_run coord rest in if same_coord r.coord coord then some r else later

  unfoldable pub update_run : Coord → Run U → List (Run U) → List (Run U)
  update_run coord new [] = []
  update_run coord new (r ∷ rest) =
      let later = update_run coord new rest in
      if same_coord r.coord coord then new ∷ rest else r ∷ later

  abbrev pub with_runs : World U → List (Run U) → World U
  with_runs w rs = record w { self = record w.self { runs = rs } }

  abbrev pub fetched : World U → World U
  fetched w = record w { self = record w.self { recomposes = w.self.recomposes + 1 } }

  -- The coords of the runs of a node
  unfoldable pub coords_of : Bytes → List (Run U) → List Coord
  coords_of node [] = []
  coords_of node (r ∷ rest) =
      let later = coords_of node rest in if same r.coord.node node then r.coord ∷ later else later

  -- `r.epoch = e`
  abbrev pub restamp : ℕ → Coord → Option (Run U) → List (Run U) → List (Run U)
  restamp e coord none rs = rs
  restamp e coord (some x) rs = update_run coord (record x { epoch = e }) rs

  -- The run that the loop holds, as it is by now
  abbrev pub now : Run U → Option (Run U) → Run U
  now r none = record r { units = []; resident = false }
  now r (some x) = x

  abbrev pub behind : List U → Served U → Served U
  behind us s = record s { out = us ++ s.out }

  -- `if err != nil { return out, err }` behind a part: with what the part gave, or without it
  abbrev pub then_go : List U → Option Error → World U → (World U → Served U) → Served U
  then_go us (some e) w go = record { out = us; error = some e; world = w }
  then_go us none w go = behind us (go w)

  abbrev pub then_served : Served U → (World U → Served U) → Served U
  then_served s go = then_go s.out s.error s.world go

  abbrev pub clear_out : List U → Option Error → List U
  clear_out us none = us
  clear_out us (some e) = []

  abbrev pub cleared : Served U → Served U
  cleared s = record s { out = clear_out s.out s.error }

  module _ (recency : ℕ → Coord → ℕ) (size key : U → ℕ) (src : Coord → Result (List U)) where
    -- A new resident run, and its charge
    abbrev pub admitted : World U → Coord → List U → World U
    admitted w coord units =
        let r : Run U = record {
          coord = coord;
          units = units;
          bytes = sizes recency size units;
          epoch = w.budget.epoch + 1;
          pinned = false;
          resident = true;
        } in
        charge recency (with_runs (bumped recency size w) (insert r w.self.runs)) r.bytes 0

    abbrev pub chunk_served : World U → Coord → Result (List U) → (World U → Served U) → Served U
    chunk_served w coord (err e) go = record { out = []; error = some e; world = fetched w }
    chunk_served w coord (ok us) go = behind us (go (admitted (fetched w) coord us))

    -- materializeLocked; `fuel` bounds the chunks.
    unfoldable pub materialize : ℕ → World U → Bytes → ℕ → ℕ → Served U
    materialize zero w node lo to = record { out = []; error = none; world = w }
    materialize (suc fuel) w node lo to =
        let hi = at_most (lo + run_chunk) to in
        let coord : Coord = record { node = node; from = lo; to = hi } in
        let go = λ (w' : World U). materialize fuel w' node hi to in
        if ltb lo to
        then chunk_served w coord (src coord) go
        else record { out = []; error = none; world = w }

    abbrev pub gap : World U → Bytes → ℕ → ℕ → Served U
    gap w node lo to = materialize (to - lo) w node lo to

    -- A hollow run is filled again, charged, and stamped; its slice is that of the units fetched.
    abbrev pub refilled : World U → Run U → Result (List U) → ℕ → ℕ → Served U
    refilled w r (err e) pos to = record { out = []; error = some e; world = fetched w }
    refilled w r (ok us) pos to =
        let full : Run U = record r {
          units = us;
          bytes = sizes recency size us;
          resident = true;
        } in
        let w' =
          charge recency (with_runs (fetched w) (update_run r.coord full w.self.runs)) full.bytes
            0 in
        let stamped =
          restamp (w'.budget.epoch + 1) r.coord (find_run r.coord w'.self.runs) w'.self.runs in
        record {
          out = slice_units key us pos to;
          error = none;
          world = with_runs (bumped recency size w') stamped;
        }

    abbrev pub sliced : Option (List U) → World U → Served U
    sliced none w = record { out = []; error = some other; world = w }
    sliced (some us) w = record { out = us; error = none; world = w }

    -- The part of the loop's body that a run serves; a panic is the error `other`.
    abbrev pub serve : World U → Run U → ℕ → ℕ → Served U
    serve w x pos to =
        if x.resident
        then sliced (slice key x.units pos to)
            (with_runs w (restamp w.budget.epoch x.coord (some x) w.self.runs))
        else refilled w x (src x.coord) pos to

    -- A round of the loop, for the run `r`: `skip` is the loop behind a run out of the range, `go`
    -- the loop behind one that was served.
    abbrev pub round :
        World U → Bytes → Run U → ℕ → ℕ → (World U → Served U) → (World U → ℕ → Served U) → Served U
    round w node r pos to skip go =
        if leb r.coord.to pos || leb to r.coord.from
        then skip w
        else then_served (cleared (gap w node pos r.coord.from)) (λ w'.
          then_served (serve w' (now r (find_run r.coord w'.self.runs)) pos to)
            (λ w''. go w'' (max pos r.coord.to)))

    abbrev pub round_of :
        World U
        → Bytes
        → Option (Run U)
        → ℕ
        → ℕ
        → (World U → Served U)
        → (World U → ℕ → Served U)
        → Served U
    round_of w node none pos to skip go = skip w
    round_of w node (some r) pos to skip go = round w node r pos to skip go

    abbrev pub round_at :
        World U
        → Bytes
        → Option Coord
        → ℕ
        → ℕ
        → (World U → Served U)
        → (Coord → World U → ℕ → Served U)
        → Served U
    round_at w node none pos to skip go = skip w
    round_at w node (some c) pos to skip go =
        round_of w node (find_run c w.self.runs) pos to skip (go c)

    -- The loop with `n` rounds left, at the slot `i` of `window`, the slots that the slice had when
    -- the loop began; the array behind them has room for `free` more runs.
    unfoldable pub range_loop : ℕ → ℕ → List Coord → ℕ → World U → Bytes → ℕ → ℕ → Served U
    range_loop zero i window free w node pos to = cleared (gap w node pos to)
    range_loop (suc n) i window free w node pos to =
        let skip = λ (w' : World U). range_loop n (suc i) window free w' node pos to in
        let go = λ (c : Coord) (w' : World U) (pos' : ℕ).
          range_loop n (suc i) (shifted free (chunks (c.from - pos) node pos c.from) window)
            (free - length (chunks (c.from - pos) node pos c.from)) w' node pos' to in
        round_at w node (get_elem? window i) pos to skip go

    -- `spare`: the free capacity of the slice of a node's runs when its range begins, which Go's
    -- `append` chose before.
    module _ (spare : World U → Coord → ℕ) where
      unfoldable pub range_in_node : World U → Coord → Served U
      range_in_node w coord =
          let cs = coords_of coord.node w.self.runs in
          range_loop (length cs) 0 cs (spare w coord) w coord.node coord.from coord.to

      unfoldable pub range_cuts : List Coord → World U → Served U
      range_cuts [] w = record { out = []; error = none; world = w }
      range_cuts (c ∷ cs) w =
          let go = λ (w' : World U). range_cuts cs w' in
          then_served (cleared (range_in_node w c)) go

      -- Range
      unfoldable pub range : World U → List Ref → ℕ → ℕ → Served U
      range w lineage from to =
          if ltb to from
          then record { out = []; error = none; world = w }
          else range_cuts (split lineage from to) w
