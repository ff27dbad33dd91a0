-- ===== src/Forest/Exact.antt =====
-- A cache over an exact source answers a range of a node with exactly what the source holds there,
-- whatever is resident, hollow or evicted on the way.
use mathlib.Core.Path.{ap₂, subst}
use figwal.Common.{
  ℕ, zero, suc, ◌+◌, ◌-◌, ◌≤◌, ◌<◌, ◌≡◌, refl, sym, ap, ◌∙◌, arith, Bool, true, false, ◌&&◌, ◌||◌,
  Option, none, some, List, ◌++◌, max, min, ltb, leb, ◌==◌, if◌then◌else◌, Bool-cases,
  ge_of_not_ltb, ltb→lt, inl, inr, All, ◌⊎◌, length, get_elem?,
}
use figwal.Result.{Result, ok}
use figwal.Segment.Bytes.{Bytes}
use figwal.Values.{same}
use figwal.Values.Paths.{same-eq}
use figwal.Forest.{Coord, Run, World, hollowed, same_coord}
use figwal.Forest.Keeps.{charge-All, insert-All, update_run-All, find_run-All}
use figwal.Forest.Slices.{slice_lem}
use figwal.Forest.Stretches.{stretch, stretch-append, slice_units-stretch}
use figwal.Forest.Window.{
  Served, find_run, fetched, restamp, now, then_served, cleared, clear_out, admitted, materialize,
  gap, serve, round, round_of, round_at, range_loop, range_in_node, coords_of, run_chunk, at_most,
  slice_units, chunks, shifted,
}
use figwal.Forest.Shifts.{
  Tidy, Clear, Follow, Follow-Tidy, All-get_elem?, shifted-Tidy, shifted-served,
}

same_coord-eq :
    (a b : Coord) → same_coord a b ≡ true → (a.node ≡ b.node) × (a.from ≡ b.from) × (a.to ≡ b.to)
same_coord-eq a b h =
    let (n, rest) = both (same a.node b.node) (a.from == b.from && a.to == b.to) h in
    let (f, t) = both (a.from == b.from) (a.to == b.to) rest in
    (same-eq a.node b.node n, ground arith, ground arith)
  where
    both : (a b : Bool) → (a && b) ≡ true → (a ≡ true) × (b ≡ true)
    both a b h = ground arith

chunk_bounds :
    (lo to : ℕ) → lo < to → (lo < at_most (lo + run_chunk) to) × (at_most (lo + run_chunk) to ≤ to)
chunk_bounds lo to h = ground arith

module _ {U : Type 0} (content : Bytes → ℕ → List U) where
  -- A resident run holds the units of its coord.
  abbrev pub Exact : Run U → Type 0
  Exact r =
      r.resident ≡ true
      → r.units ≡ stretch content r.coord.node r.coord.from (r.coord.to - r.coord.from)

  hollowed-Exact : (r : Run U) → Exact r → Exact (hollowed r)
  hollowed-Exact r h e = cc

  -- What was served is `us`, without an error, and resident runs are still exact.
  abbrev pub Gives : List U → Served U → Type 0
  Gives us s = (s.out ≡ us) × (s.error ≡ none) × All Exact s.world.self.runs

  then_served-Gives :
      (us vs : List U) (s : Served U) (go : World U → Served U)
      → Gives us s
      → ((w : World U) → All Exact w.self.runs → Gives vs (go w))
      → Gives (us ++ vs) (then_served s go)
  then_served-Gives us vs s go (out, fine, exact) next =
      let (o, e, x) = next s.world exact in rw fine (ap₂ ◌++◌ out o, e, x)

  cleared-Gives : (us : List U) (s : Served U) → Gives us s → Gives us (cleared s)
  cleared-Gives us s (out, fine, exact) = (ap (clear_out s.out) fine ∙ out, fine, exact)

  stretch_join :
      (node : Bytes) (lo mid hi : ℕ)
      → lo ≤ mid
      → mid ≤ hi
      → stretch content node lo (mid - lo) ++ stretch content node mid (hi - mid)
        ≡ stretch content node lo (hi - lo)
  stretch_join node lo mid hi a b =
      ap (λ k. stretch content node lo (mid - lo) ++ stretch content node k (hi - mid))
        (omega arith)
      ∙ sym (stretch-append content node lo (mid - lo) (hi - mid))
      ∙ ap (λ n. stretch content node lo n) (omega arith)

  module _ (recency : ℕ → Coord → ℕ) (size key : U → ℕ) (src : Coord → Result (List U))
      (keyed : (node : Bytes) (k : ℕ) → All (λ u. key u ≡ k) (content node k))
      (exact_src : (c : Coord) → src c ≡ ok (stretch content c.node c.from (c.to - c.from))) where
    admitted-Exact :
        (w : World U) (c : Coord)
        → All Exact w.self.runs
        → All Exact
            (admitted recency size key src w c
              (stretch content c.node c.from (c.to - c.from))).self.runs
    admitted-Exact w c h =
        charge-All Exact hollowed-Exact recency _ _ 0 (insert-All Exact _ w.self.runs (λ _. refl) h)

    -- A gap is filled with the stretch of it.
    materialize-Gives :
        (fuel : ℕ) (w : World U) (node : Bytes) (lo to : ℕ)
        → to ≤ lo + fuel
        → All Exact w.self.runs
        → Gives
            (stretch content node lo (to - lo))
            (materialize recency size key src fuel w node lo to)
    unfolding materialize
    materialize-Gives zero w node lo to f h =
        let e : 0 ≡ to - lo = omega (arith, f) in (ap (λ n. stretch content node lo n) e, refl, h)
    materialize-Gives (suc fuel) w node lo to f h = elim (Bool-cases (ltb lo to)) [
      | inr done ↦
          let e : 0 ≡ to - lo = omega (arith, ge_of_not_ltb lo to done) in
          rw done (ap (λ n. stretch content node lo n) e, refl, h)
      | inl more ↦
          let hi = at_most (lo + run_chunk) to in
          let coord : Coord = record { node = node; from = lo; to = hi } in
          let chunk : (lo < hi) × (hi ≤ to) = chunk_bounds lo to (ltb→lt lo to more) in
          let (o, e, x) =
            materialize-Gives fuel
              (admitted recency size key src (fetched w) coord (stretch content node lo (hi - lo)))
              node hi to (omega (arith, chunk.0)) (admitted-Exact (fetched w) coord h) in
          rw (more, exact_src coord)
            (
              ap (λ t. stretch content node lo (hi - lo) ++ t) o
                  ∙ stretch_join node lo hi to (omega (arith, chunk.0)) chunk.1,
              e,
              x,
            )
    ]

    -- The part of a range that a run serves
    part :
        (x : Coord) (pos to : ℕ)
        → pos < x.to
        → x.from < to
        → x.from ≤ x.to
        → pos ≤ to
        → slice_units key (stretch content x.node x.from (x.to - x.from)) pos to
          ≡ stretch content x.node (max pos x.from) (min to x.to - max pos x.from)
    part x pos to a b ordered c =
        let start = max pos x.from in
        let stop = min to x.to in
        let below = start - x.from in
        let start_eq : x.from + below ≡ start = omega arith in
        let whole : x.to - x.from ≡ below + ((stop - start) + (x.to - stop)) = omega arith in
        ap (λ n. slice_units key (stretch content x.node x.from n) pos to) whole
        ∙ slice_units-stretch content key keyed x.node x.from below (stop - start) (x.to - stop) pos
            to (start_cases pos x.from) (omega arith) (omega arith)
            (stop_cases x.to to start (omega arith) (omega arith) x.from below start_eq)
        ∙ ap (λ n. stretch content x.node n (stop - start)) start_eq
      where
        start_cases :
            (pos from : ℕ) → (max pos from - from ≡ 0) ⊎ (from + (max pos from - from) ≤ pos)
        start_cases pos from = elim (Bool-cases (ltb pos from)) [
          | inl low ↦ inl (omega (arith, ltb→lt pos from low))
          | inr high ↦ inr (omega (arith, ge_of_not_ltb pos from high))
        ]

        stop_cases :
            (end to start : ℕ)
            → start ≤ end
            → start ≤ to
            → (from below : ℕ) → from + below ≡ start
            → (end - min to end ≡ 0) ⊎ (to ≤ from + below + (min to end - start))
        stop_cases end to start h k from below e = elim (Bool-cases (ltb to end)) [
          | inl cut ↦ inr (omega (arith, e, ltb→lt to end cut))
          | inr whole ↦ inl (omega (arith, ge_of_not_ltb to end whole))
        ]

    if_Gives :
        {us : List U} (b : Bool) (s t : Served U)
        → (b ≡ true → Gives us s)
        → (b ≡ false → Gives us t)
        → Gives us (if b then s else t)
    if_Gives true s t f g = f refl
    if_Gives false s t f g = g refl

    restamp-Exact :
        (e : ℕ) (c : Coord) (o : Option (Run U)) (rs : List (Run U))
        → find_run c rs ≡ o
        → All Exact rs
        → All Exact (restamp e c o rs)
    restamp-Exact e c none rs f h = h
    restamp-Exact e c (some x) rs f h =
        update_run-All Exact c (record x { epoch = e }) rs (find_run-All Exact c x rs h f).0 h

    serve-Gives :
        (w : World U) (x : Run U) (pos to : ℕ)
        → All Exact w.self.runs
        → Exact x
        → pos < x.coord.to
        → x.coord.from < to
        → x.coord.from ≤ x.coord.to
        → pos ≤ to
        → Gives
            (stretch content x.coord.node
              (max pos x.coord.from)
              (min to x.coord.to - max pos x.coord.from))
            (serve recency size key src w x pos to)
    serve-Gives w x pos to h ex a b ordered c =
        if_Gives x.resident _ _
          (λ there. rw (slice_lem key x.units pos to c) (
            ap (λ us. slice_units key us pos to) (ex there) ∙ part x.coord pos to a b ordered c,
            refl,
            update_run-All Exact x.coord (record x { epoch = w.budget.epoch }) w.self.runs ex h,
          ))
          (λ hollow. rw (exact_src x.coord) (
            part x.coord pos to a b ordered c,
            refl,
            restamp-Exact _ x.coord _ _ refl (
                charge-All Exact hollowed-Exact recency _ _ 0
                  (update_run-All Exact x.coord _ w.self.runs (λ _. refl) h)),
          ))

    now_lem :
        (r : Run U) (o : Option (Run U)) (rs : List (Run U))
        → find_run r.coord rs ≡ o
        → All Exact rs
        → Exact r
        → Exact (now r o)
          × ((now r o).coord.node ≡ r.coord.node)
          × ((now r o).coord.from ≡ r.coord.from)
          × ((now r o).coord.to ≡ r.coord.to)
    now_lem r none rs f h ex = (λ e. cc, refl, refl, refl)
    now_lem r (some x) rs f h ex =
        let (exact, is) = find_run-All Exact r.coord x rs h f in
        let (en, ef, et) = same_coord-eq x.coord r.coord is in (exact, en, ef, et)

    served_now :
        (w : World U) (r : Run U) (pos to : ℕ)
        → All Exact w.self.runs
        → Exact r
        → pos < r.coord.to
        → r.coord.from < to
        → r.coord.from ≤ r.coord.to
        → pos ≤ to
        → Gives
            (stretch content r.coord.node
              (max pos r.coord.from)
              (min to r.coord.to - max pos r.coord.from))
            (serve recency size key src w (now r (find_run r.coord w.self.runs)) pos to)
    served_now w r pos to h ex a b ordered c =
        let x = now r (find_run r.coord w.self.runs) in
        let (exact, en, ef, et) = now_lem r (find_run r.coord w.self.runs) w.self.runs refl h ex in
        let same_part : stretch content x.coord.node (max pos x.coord.from)
              (min to x.coord.to - max pos x.coord.from)
            ≡ stretch content r.coord.node (max pos r.coord.from)
                (min to r.coord.to - max pos r.coord.from) =
          ap
            (λ n.
              stretch content n (max pos x.coord.from) (min to x.coord.to - max pos x.coord.from))
            en
          ∙ ap (λ f. stretch content r.coord.node (max pos f) (min to x.coord.to - max pos f)) ef
          ∙ ap
              (λ t.
                stretch content r.coord.node (max pos r.coord.from)
                  (min to t - max pos r.coord.from))
              et in
        subst (λ us. Gives us (serve recency size key src w x pos to)) same_part
          (serve-Gives w x pos to h exact (omega (arith, et)) (omega (arith, ef))
            (omega (arith, ef, et)) c)

    met_bounds : (a pos to from : ℕ) → (leb a pos || leb to from) ≡ false → (pos < a) × (from < to)
    met_bounds a pos to from h = ground arith

    -- The gap, the run's part and the rest make up the range.
    joined :
        (node : Bytes) (pos from end to : ℕ)
        → pos < end
        → from < to
        → from ≤ end
        → pos ≤ to
        → stretch content node pos (from - pos)
            ++ (stretch content node (max pos from) (min to end - max pos from)
                ++ stretch content node (max pos end) (to - max pos end))
          ≡ stretch content node pos (to - pos)
    joined node pos from end to a b c d =
        let start = max pos from in
        let stop = min to end in
        let last : stretch content node (max pos end) (to - max pos end)
            ≡ stretch content node stop (to - stop) =
          elim (Bool-cases (ltb to end)) [
            | inl cut ↦
                let e1 : to - max pos end ≡ 0 = omega (arith, ltb→lt to end cut) in
                let e2 : 0 ≡ to - stop = omega (arith, ltb→lt to end cut) in
                ap (λ n. stretch content node (max pos end) n) e1
                ∙ ap (λ n. stretch content node stop n) e2
            | inr whole ↦
                let e : max pos end ≡ stop = omega (arith, ge_of_not_ltb to end whole) in
                ap (λ n. stretch content node n (to - n)) e
          ] in
        let first : from - pos ≡ start - pos = omega arith in
        ap
          (λ t.
            stretch content node pos (from - pos)
            ++ (stretch content node start (stop - start) ++ t))
          last
        ∙ ap (λ t. stretch content node pos (from - pos) ++ t)
            (stretch_join node start stop to (omega arith) (omega arith))
        ∙ ap (λ n. stretch content node pos n ++ stretch content node start (to - start)) first
        ∙ stretch_join node pos start to (omega arith) (omega arith)

    -- A round that meets a run serves the range up to the run's end; `go` serves the rest.
    round-Gives :
        (w : World U) (r : Run U) (pos to : ℕ) (skip : World U → Served U)
        (go : World U → ℕ → Served U)
        → All Exact w.self.runs
        → Exact r
        → r.coord.from ≤ r.coord.to
        → (pos < r.coord.to → r.coord.from < to → pos ≤ to)
        → ((w' : World U)
            → All Exact w'.self.runs
            → Gives (stretch content r.coord.node pos (to - pos)) (skip w'))
        → (pos < r.coord.to
            → (w' : World U) (pos' : ℕ) → All Exact w'.self.runs
            → pos' ≡ r.coord.to
            → Gives (stretch content r.coord.node pos' (to - pos')) (go w' pos'))
        → Gives
            (stretch content r.coord.node pos (to - pos))
            (round recency size key src w r.coord.node r pos to skip go)
    round-Gives w r pos to skip go h ex ordered place skipped rest =
        let node = r.coord.node in
        let before = gap recency size key src w node pos r.coord.from in
        let behind_run = λ (w'' : World U). go w'' (max pos r.coord.to) in
        let serving = λ (w' : World U).
          serve recency size key src w' (now r (find_run r.coord w'.self.runs)) pos to in
        let body = λ (w' : World U). then_served (serving w') behind_run in
        let met_case = then_served (cleared before) body in
        let part_units =
          stretch content node (max pos r.coord.from) (min to r.coord.to - max pos r.coord.from) in
        let last_units = stretch content node (max pos r.coord.to) (to - max pos r.coord.to) in
        let gap_units = stretch content node pos (r.coord.from - pos) in
        if_Gives (leb r.coord.to pos || leb to r.coord.from) (skip w) met_case (λ out. skipped w h)
          (λ met.
            let (a, b) = met_bounds r.coord.to pos to r.coord.from met in
            let c : pos ≤ to = place a b in
            let e : max pos r.coord.to ≡ r.coord.to = omega (arith, a) in
            subst (λ us. Gives us met_case)
              (joined node pos r.coord.from r.coord.to to a b ordered c)
              (then_served-Gives gap_units (part_units ++ last_units) (cleared before) body
                (cleared-Gives gap_units before
                  (materialize-Gives (r.coord.from - pos) w node pos r.coord.from (omega arith) h))
                (λ w' h'.
                  then_served-Gives part_units last_units (serving w') behind_run
                    (served_now w' r pos to h' ex a b ordered c)
                    (λ w'' h''. rest a w'' (max pos r.coord.to) h'' e))))

    met_Gives :
        (w : World U) (c : Coord) (o : Option (Run U)) (node : Bytes) (pos to : ℕ)
        (skip : World U → Served U) (go : World U → ℕ → Served U)
        → find_run c w.self.runs ≡ o
        → c.node ≡ node
        → All Exact w.self.runs
        → c.from ≤ c.to
        → (pos < c.to → c.from < to → pos ≤ to)
        → ((w' : World U)
            → All Exact w'.self.runs
            → Gives (stretch content node pos (to - pos)) (skip w'))
        → (pos < c.to
            → (w' : World U) (pos' : ℕ) → All Exact w'.self.runs
            → pos' ≡ c.to
            → Gives (stretch content node pos' (to - pos')) (go w' pos'))
        → Gives
            (stretch content node pos (to - pos))
            (round_of recency size key src w node o pos to skip go)
    met_Gives w c none node pos to skip go f n h ordered place skipped rest = skipped w h
    met_Gives w c (some r) node pos to skip go f n h ordered place skipped rest =
        let (ex, is) = find_run-All Exact c r w.self.runs h f in
        let (en, ef, et) = same_coord-eq r.coord c is in
        let e : r.coord.node ≡ node = en ∙ n in
        subst
          (λ m.
            Gives (stretch content m pos (to - pos))
              (round recency size key src w m r pos to skip go))
          e
          (round-Gives w r pos to skip go h ex (omega (arith, ef, et, ordered))
            (λ a b. place (omega (arith, a, et)) (omega (arith, b, ef)))
            (λ w' x.
              subst (λ m. Gives (stretch content m pos (to - pos)) (skip w')) (sym e)
                (skipped w' x))
            (λ a w' pos' x at.
              subst (λ m. Gives (stretch content m pos' (to - pos')) (go w' pos')) (sym e)
                (rest (omega (arith, a, et)) w' pos' x (at ∙ et))))

    -- Where a range may stand: in front of its end, or inside no run of the window.
    abbrev PlacedAt : ℕ → ℕ → List Coord → Type 0
    PlacedAt pos to window = (pos ≤ to) ⊎ Clear pos window

    in_front :
        (pos to i : ℕ) (window : List Coord) (c : Coord)
        → PlacedAt pos to window
        → get_elem? window i ≡ some c
        → pos < c.to
        → c.from < to
        → pos ≤ to
    in_front pos to i window c (inl le) at a b = le
    in_front pos to i window c (inr clear) at a b =
        elim (All-get_elem? (λ d. (d.to ≤ pos) ⊎ (pos ≤ d.from)) i window c clear at) [
          | inl over ↦ absurd (omega (arith, over, a))
          | inr low ↦ omega (arith, low, b)
        ]

    round_at-Gives :
        (i : ℕ) (window : List Coord) (w : World U) (node : Bytes) (pos to : ℕ)
        (skip : World U → Served U) (go : Coord → World U → ℕ → Served U)
        → All (Tidy node window pos) window
        → All Exact w.self.runs
        → PlacedAt pos to window
        → ((w' : World U)
            → All Exact w'.self.runs
            → Gives (stretch content node pos (to - pos)) (skip w'))
        → ((c : Coord)
            → Tidy node window pos c
            → pos < c.to
            → (w' : World U) → All Exact w'.self.runs
            → Gives (stretch content node c.to (to - c.to)) (go c w' c.to))
        → (o : Option Coord) → get_elem? window i ≡ o
        → Gives
            (stretch content node pos (to - pos))
            (round_at recency size key src w node o pos to skip go)
    round_at-Gives i window w node pos to skip go tidy h place skipped rest none at = skipped w h
    round_at-Gives i window w node pos to skip go tidy h place skipped rest (some c) at =
        let t = All-get_elem? (Tidy node window pos) i window c tidy at in
        met_Gives w c (find_run c w.self.runs) node pos to skip (go c) refl t.0 h t.1
          (in_front pos to i window c place at) skipped
          (λ a w' pos' x e.
            subst (λ p. Gives (stretch content node p (to - p)) (go c w' p)) (sym e)
              (rest c t a w' x))

    range_loop-Gives :
        (n i : ℕ) (window : List Coord) (free : ℕ) (w : World U) (node : Bytes) (pos to : ℕ)
        → All (Tidy node window pos) window
        → All Exact w.self.runs
        → PlacedAt pos to window
        → Gives
            (stretch content node pos (to - pos))
            (range_loop recency size key src n i window free w node pos to)
    unfolding range_loop
    range_loop-Gives zero i window free w node pos to tidy h place =
        cleared-Gives (stretch content node pos (to - pos)) (gap recency size key src w node pos to)
          (materialize-Gives (to - pos) w node pos to (omega arith) h)
    range_loop-Gives (suc n) i window free w node pos to tidy h place =
        let moved = λ (c : Coord). shifted free (chunks (c.from - pos) node pos c.from) window in
        let room = λ (c : Coord). free - length (chunks (c.from - pos) node pos c.from) in
        round_at-Gives i window w node pos to
          (λ w'. range_loop recency size key src n (suc i) window free w' node pos to)
          (λ c w' pos'.
            range_loop recency size key src n (suc i) (moved c) (room c) w' node pos' to)
          tidy h place (λ w' x. range_loop-Gives n (suc i) window free w' node pos to tidy x place)
          (λ c t a w' x.
            range_loop-Gives n (suc i) (moved c) (room c) w' node c.to to
              (shifted-Tidy node free pos window c a t.1 tidy) x
              (inr (shifted-served node free pos window c a t.1 t)))
          (get_elem? window i) refl

    -- Over a source that gives each coord the stretch of its content, with the units of an index
    -- keyed by it, a range of a node whose runs follow one another gives exactly the stretch asked
    -- for and no error, whatever was resident, hollow or evicted, and whatever room the array of
    -- the runs had; resident runs stay exact.
    pub range_in_node-Exact :
        (spare : World U → Coord → ℕ) (w : World U) (c : Coord)
        → c.from ≤ c.to
        → Follow c.node 0 (coords_of c.node w.self.runs)
        → All Exact w.self.runs
        → Gives
            (stretch content c.node c.from (c.to - c.from))
            (range_in_node recency size key src spare w c)
    unfolding range_in_node
    range_in_node-Exact spare w c le follow h =
        let cs = coords_of c.node w.self.runs in
        range_loop-Gives (length cs) 0 cs (spare w c) w c.node c.from c.to
          (Follow-Tidy c.node c.from cs follow) h (inl le)
